-- ===== src/Callback/Responses.antt =====
-- The responses of the core that pkg/cache/scheduler_callback.go takes, as the generated scheduler
-- interface has them, and what an attempt to assume a pod meets.
use yunikorn_k8shim.Prelude.{ℕ, String, Bool, Option, List, [], ◌∷◌, ◌==◌}
use yunikorn_k8shim.Events.{AppState, AppState-Names, AppEvent, release_app_allocation}
use yunikorn_k8shim.Context.Defs.{Context}
use yunikorn_k8shim.Context.Volumes.{VolumeBinder}

-- si.Allocation, si.RejectedAllocation and si.AllocationRelease, as far as they are read
pub record NewAllocation : Type 0 where
  pub application_id : String
  pub allocation_key : String
  pub node_id : String

pub record RejectedAllocation : Type 0 where
  pub application_id : String
  pub allocation_key : String

pub record ReleasedAllocation : Type 0 where
  pub application_id : String
  pub allocation_key : String
  pub termination_type : ℕ

pub record AllocationResponse : Type 0 where
  pub new_allocations : List NewAllocation
  pub rejected_allocations : List RejectedAllocation
  pub released : List ReleasedAllocation

pub record UpdatedApplication : Type 0 where
  pub application_id : String
  -- The name of the state
  pub state : String
  pub message : String

pub record RejectedApplication : Type 0 where
  pub application_id : String
  pub reason : String

pub record ApplicationResponse : Type 0 where
  pub accepted : List String
  pub rejected : List RejectedApplication
  pub updated : List UpdatedApplication

-- One attempt to assume a pod: what others do to the context before it, while the callback waits
-- and holds no lock, and what the volume binder answers.
pub record Attempt (C V N : Type 0) : Type 0 where
  pub meanwhile : Context N → Option (Context N)
  pub binder : VolumeBinder C V N

-- The texts of the messages, and TerminationType_name for the argument of an event
pub record Texts : Type 0 where
  pub assume_pod_failed : String
  pub allocation_rejected : (allocation_key application_id : String) → String
  pub termination_type_name : ℕ → String

abbrev pub named_state : AppState → UpdatedApplication → Bool
named_state s u = u.state == AppState-Names.name s

-- NewReleaseAppAllocationEvent
abbrev pub release_app_allocation_event : Texts → ReleasedAllocation → AppEvent
release_app_allocation_event texts r = record {
  application_id = r.application_id;
  event = release_app_allocation;
  args = r.allocation_key ∷ texts.termination_type_name r.termination_type ∷ [];
}
