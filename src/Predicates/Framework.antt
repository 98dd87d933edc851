-- ===== src/Predicates/Framework.antt =====
-- What the predicate manager uses of the scheduler framework of Kubernetes, k8s.io/kube-scheduler
-- and k8s.io/kubernetes/pkg/scheduler/framework: a status S, the result R of a PreFilter, the cycle
-- state C, and a plugin with the methods that it has.
use yunikorn_k8shim.Prelude.{String, ◌≡◌, Bool, true, false, ◌&&◌, ◌||◌, Option, none, List}
use yunikorn_k8shim.Pod.{Pod}

-- A nil *Status is a value of S, a nil *PreFilterResult is `none`.
pub record Framework (S R C : Type 0) : Type 0 where
  pub nil_status : S
  pub new_success : S
  pub is_success : S → Bool
  pub is_skip : S → Bool
  pub is_rejected : S → Bool
  pub message : S → String
  -- AsStatus of the error with this text
  pub as_status : String → S
  -- NewStatus with UnschedulableAndUnresolvable, and with Error
  pub new_unresolvable : String → S
  pub new_error : String → S
  pub merge : Option R → Option R → Option R
  pub all_nodes : Option R → Bool
  -- NodeNames.Has, which is read where not all nodes are meant
  pub has_node : String → Option R → Bool
  pub new_cycle_state : C
  -- The texts of the errors that runPreFilterPlugins and runFilterPlugins make
  pub running_pre_filter : (plugin text : String) → String
  pub running_filter : (plugin pod text : String) → String
  pub nil_status-is_success : is_success nil_status ≡ true
  pub new_success-is_success : is_success new_success ≡ true
  pub as_status-fails : (t : String) → (is_success (as_status t) || is_skip (as_status t)) ≡ false
  pub new_unresolvable-fails :
      (t : String) → (is_success (new_unresolvable t) || is_skip (new_unresolvable t)) ≡ false
  pub new_error-fails : (t : String) → is_success (new_error t) ≡ false
  pub all_nodes-none : all_nodes none ≡ true
  -- Merge keeps the nodes that both results allow.
  pub merge-allows :
      (n : String) (a b : Option R)
      → (all_nodes (merge a b) || has_node n (merge a b))
        ≡ ((all_nodes a || has_node n a) && (all_nodes b || has_node n b))

-- fwk.PreFilterPlugin: PreFilter writes what it computed to the cycle state.
pub record PreFilterPlugin (S R C N : Type 0) : Type 0 where
  pub name : String
  pub pre_filter : C → Pod → List N → (Option R × S) × C

-- fwk.FilterPlugin: Filter reads the cycle state, since it may run for many nodes at once.
pub record FilterPlugin (S C N : Type 0) : Type 0 where
  pub name : String
  pub filter : C → Pod → N → S

-- fwk.Plugin, and the outcomes of the type assertions on it
pub record Plugin (S R C N : Type 0) : Type 0 where
  pub name : String
  pub as_pre_filter : Option (C → Pod → List N → (Option R × S) × C)
  pub as_filter : Option (C → Pod → N → S)
