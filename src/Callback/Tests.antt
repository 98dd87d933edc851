-- ===== src/Callback/Tests.antt =====
-- The callback of the core on a context with one application, and its theorems there.
use yunikorn_k8shim.Prelude.{ℕ, String, ◌≡◌, refl, false, none, some, [], ◌∷◌}
use yunikorn_k8shim.Prelude.Dict.{lookup}
use yunikorn_k8shim.Pod.{is_assigned_pod, with_node}
use yunikorn_k8shim.Events.{app_running, task_scheduling}
use yunikorn_k8shim.Task.{Task, sched_pending}
use yunikorn_k8shim.Task.Tests.{machine, interface}
use yunikorn_k8shim.SchedulerCache.Plain.{
  PlainInfo, plain_info, program, run_or_empty, busy, busy-IsValid, waiting,
}
use yunikorn_k8shim.Context.Defs.{App, Context}
use yunikorn_k8shim.Context.Volumes.{found, context_assume_pod, assume_volumes}
use yunikorn_k8shim.Context.Deliver.{CacheValidWith}
use yunikorn_k8shim.Callback.Defs.{
  set_allocation_key, assume_pod_with_retry, new_allocation, callback_update_allocation,
}
use yunikorn_k8shim.Callback.Responses.{NewAllocation, AllocationResponse, Attempt, Texts}
use yunikorn_k8shim.Context.Handlers.{task_event_handler, world_of}
use yunikorn_k8shim.Context.Deliver.{task_event_handler_lem}
use yunikorn_k8shim.SchedulerCache.Invariant.{IsValid}
use yunikorn_k8shim.Context.Defs.{get_task}
use yunikorn_k8shim.Task.{handle}
use yunikorn_k8shim.Events.{TaskEvent, allocated_task_event}
use yunikorn_k8shim.Prelude.{String, ◌==◌, ◌&&◌, if◌then◌else◌}
use yunikorn_k8shim.Callback.Valid.{callback_update_allocation-IsValid}
use yunikorn_k8shim.Callback.Allocated.{Bound, new_allocation-Bound}

abbrev pending_task : Task
pending_task = record {
  task_id = "waiting";
  alias = "default/waiting";
  application_id = "app-1";
  placeholder = false;
  originator = false;
  sm = task_scheduling;
  allocation_key = "";
  node_name = "";
  task_group_name = "";
  termination_type = "";
  scheduling_state = sched_pending;
  resource = none;
  pod = waiting;
}

abbrev owner : App
owner = record {
  application = record {
    application_id = "app-1";
    task_groups = [];
    task_map = ("waiting", pending_task) ∷ [];
  };
  sm = app_running;
  queue = "root.default";
  placeholder_ask = none;
  placeholder_owner_references = [];
  originating_task = none;
  releaseable_tasks = [];
  partition = "default";
}

abbrev one_app : Context PlainInfo
one_app = record { applications = ("app-1", owner) ∷ []; scheduler_cache = busy; messages = [] }

-- A volume binder that finds one volume, and nobody else at work
abbrev quiet : ℕ → Attempt ℕ ℕ PlainInfo
quiet n = record {
  meanwhile = λ ctx. some ctx;
  binder = record {
    get_pod_volume_claims = λ p. some 1;
    find_pod_volumes = λ p claims x. found 7;
    assume_pod_volumes = λ p n v. some false;
  };
}

abbrev texts : Texts
texts = record {
  assume_pod_failed = "AssumePod failed";
  allocation_rejected = λ key app. "rejected";
  termination_type_name = λ n. "TIMEOUT";
}

abbrev alloc : NewAllocation
alloc = record { application_id = "app-1"; allocation_key = "waiting"; node_id = "n1" }

abbrev response : AllocationResponse
response = record {
  new_allocations = alloc ∷ [];
  rejected_allocations = record { application_id = "app-1"; allocation_key = "other" } ∷ [];
  released =
      record { application_id = "app-1"; allocation_key = "bound"; termination_type = 2 } ∷ [];
}

callback_update_allocation-IsValid_example :
    CacheValidWith (callback_update_allocation texts (λ i. quiet) response one_app)
callback_update_allocation-IsValid_example =
    callback_update_allocation-IsValid texts (λ i. quiet) response one_app
      (λ i n ctx v. (ctx, refl, v)) busy-IsValid

-- The context once the pod is assumed
unfoldable assumed_context : Context PlainInfo
assumed_context =
    elim (assume_pod_with_retry quiet 30 "waiting" "n1"
      (set_allocation_key "app-1" "waiting" "waiting" one_app)) [
        | none ↦ one_app
        | some (ctx, _) ↦ ctx
      ]

new_allocation-Bound_example :
    Bound machine alloc pending_task (new_allocation texts quiet alloc one_app) assumed_context
unfolding program run_or_empty assumed_context assume_pod_with_retry set_allocation_key
    context_assume_pod assume_volumes with_node is_assigned_pod
new_allocation-Bound_example =
    new_allocation-Bound machine texts quiet alloc one_app assumed_context owner pending_task refl
      refl refl refl refl refl refl

abbrev granted : TaskEvent
granted = allocated_task_event "app-1" "waiting" "waiting" "n1"

task_event_handler_lem_example :
    (ctx : Context PlainInfo) × (task_event_handler machine granted one_app ≡ some ctx)
    × IsValid ctx.scheduler_cache
    × ((a k : String)
        → get_task a k ctx ≡ (
            if "app-1" == a && "waiting" == k
            then some (handle machine granted pending_task (world_of owner)).0.0
            else get_task a k one_app))
unfolding lookup
task_event_handler_lem_example =
    task_event_handler_lem machine granted one_app owner pending_task busy-IsValid refl refl
