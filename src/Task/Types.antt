-- ===== src/Task/Types.antt =====
-- Task of pkg/cache/task.go and what it acts on. `World` is the rest that a task touches: the state
-- of its application, and the requests and events that it sends, in order.
use yunikorn_k8shim.Prelude.{ℕ, String, Bool, Option, none, some, List, [], ◌∷◌, ◌++◌, any}
use yunikorn_k8shim.Prelude.Dict.{Dict, lookup}
use yunikorn_k8shim.Pod.{Pod}
use yunikorn_k8shim.Resource.{Resource}
use yunikorn_k8shim.Fsm.{same}
use yunikorn_k8shim.Events.{
  TaskState, TaskState-Names, AppState-Names, task_rejected, task_killed, task_failed,
  task_completed, TaskEvent, AppState, AppEvent,
}

pub data TaskSchedulingState : Type 0 where
  sched_pending sched_skipped sched_failed sched_allocated : TaskSchedulingState

pub record Task : Type 0 where
  pub task_id : String
  pub alias : String
  pub application_id : String
  pub placeholder : Bool
  pub originator : Bool
  pub sm : TaskState
  pub allocation_key : String
  pub node_name : String
  pub task_group_name : String
  pub termination_type : String
  pub scheduling_state : TaskSchedulingState
  pub resource : Option Resource
  pub pod : Pod

-- What the shim reads of the generated scheduler interface: the names of its termination types, as
-- a map to their numbers, two of the numbers, and the annotation of a pod's task group.
pub record SchedulerInterface : Type 0 where
  pub termination_type_value : Dict ℕ
  pub stopped_by_rm : ℕ
  pub scheduling_failed_on_rm : ℕ
  pub task_group_annotation : String

-- si.AllocationRelease
pub record AllocationRelease : Type 0 where
  pub application_id : String
  pub allocation_key : String
  pub partition_name : String
  pub termination_type : ℕ

-- si.Allocation, without tags, priority and preemption policy
pub record Allocation : Type 0 where
  pub allocation_key : String
  pub resource_per_alloc : Option Resource
  pub node_id : String
  pub application_id : String
  pub task_group_name : String
  pub placeholder : Bool
  pub originator : Bool

-- What is sent: to the dispatcher, to the core, to the context, and the start of the goroutine that
-- binds a pod.
pub data Effect : Type 0 where
  dispatch_task : TaskEvent → Effect
  dispatch_app : AppEvent → Effect
  update_allocation : Allocation → Effect
  release : AllocationRelease → Effect
  bind : (pod : Pod) (node allocation_key : String) → Effect
  revert_pod_volume_assumptions : (allocation_key node : String) → Effect
  forget_pod : (allocation_key : String) → Effect

pub record World : Type 0 where
  pub app_state : AppState
  pub partition : String
  -- The tasks of app.releaseableTasks, by the ID that its loop compares.
  pub releaseable_tasks : List String
  pub has_scheduler_api : Bool
  pub effects : List Effect

abbrev pub emit : Effect → World → World
emit e w = record w { effects = w.effects ++ e ∷ [] }

-- GetPodAnnotationValue
unfoldable pub get_pod_annotation_value : Pod → String → String
get_pod_annotation_value p k = elim (lookup k p.annotations) [ none ↦ "" | some v ↦ v ]

-- isTerminated
abbrev pub is_terminated : Task → Bool
is_terminated t =
    any (λ s. same t.sm s) (task_rejected ∷ task_killed ∷ task_failed ∷ task_completed ∷ [])
