-- ===== src/Task/Defs.antt =====
-- The operations of a task of pkg/cache/task.go, on the task and its `World`.
use yunikorn_k8shim.Prelude.{
  ℕ, String, Bool, true, false, ◌&&◌, ◌||◌, Option, none, some, [], ◌∷◌, ◌++◌, ◌==◌, if◌then◌else◌,
  any,
}
use yunikorn_k8shim.Prelude.Dict.{lookup}
use yunikorn_k8shim.Pod.{Pod, is_pod_terminated}
use yunikorn_k8shim.Resource.{Resource}
use yunikorn_k8shim.Fsm.{same}
use yunikorn_k8shim.Events.{
  TaskState, TaskState-Names, AppState-Names, task_new, task_scheduling, task_bound, task_completed,
  submit_task_event, bind_task_event, fail_task_event, app_new, app_submitted, simple_app_event,
  update_reservation, rejected_message,
}
use yunikorn_k8shim.Task.Types.{
  Allocation, AllocationRelease, SchedulerInterface, Task, World, bind, dispatch_app, dispatch_task,
  emit, forget_pod, get_pod_annotation_value, release, revert_pod_volume_assumptions,
  sched_allocated, sched_pending, update_allocation,
}

-- initialize
unfoldable pub initialize : Task → Task
initialize t =
    if is_pod_terminated t.pod
    then record t { allocation_key = t.pod.uid; node_name = t.pod.node_name; sm = task_completed }
    else t

-- tryAddReleasableTask: the Boolean says that the release has to wait
unfoldable pub try_add_releasable_task : String → World → World × Bool
try_add_releasable_task id w =
    if same w.app_state app_new || same w.app_state app_submitted
    then (if any (λ existing. existing == id) w.releaseable_tasks
        then (w, true)
        else (record w { releaseable_tasks = w.releaseable_tasks ++ id ∷ [] }, true))
    else (w, false)

-- postTaskPending
unfoldable pub post_task_pending : Task → World → World
post_task_pending t w = emit (dispatch_task (submit_task_event t.application_id t.task_id)) w

-- The start of postTaskAllocated. The goroutine gets the fields as they are now.
unfoldable pub post_task_allocated : Task → World → World
post_task_allocated t w = emit (bind t.pod t.node_name t.allocation_key) w

-- postTaskBound
unfoldable pub post_task_bound : Task → World → World
post_task_bound t w =
    if t.placeholder
    then emit (dispatch_app (simple_app_event t.application_id update_reservation)) w
    else w

-- postTaskRejected
unfoldable pub post_task_rejected : Task → World → World
post_task_rejected t w =
    emit (dispatch_task (fail_task_event t.application_id t.task_id (rejected_message t.alias))) w

-- CreateAllocationForTask, as updateAllocation calls it
unfoldable pub allocation_for_task : Task → Allocation
allocation_for_task t = record {
  allocation_key = t.task_id;
  resource_per_alloc = t.resource;
  node_id = t.pod.node_name;
  application_id = t.application_id;
  task_group_name = t.task_group_name;
  placeholder = t.placeholder;
  originator = t.originator;
}

-- handleSubmitTaskEvent, less the events that it records on the pod
unfoldable pub handle_submit_task_event : Task → World → World
handle_submit_task_event t w = emit (update_allocation (allocation_for_task t)) w

-- MarkPreviouslyAllocated
unfoldable pub mark_previously_allocated : String → String → Task → World → Task × World
mark_previously_allocated key node t w = (
  record t {
    sm = task_bound;
    scheduling_state = sched_allocated;
    allocation_key = key;
    node_name = node;
  },
  if t.placeholder
      then emit (dispatch_app (simple_app_event t.application_id update_reservation)) w
      else w,
)

module _ ⦃si : SchedulerInterface⦄ where
  open si use {
    termination_type_value, stopped_by_rm, scheduling_failed_on_rm, task_group_annotation,
  }

  -- createTaskInternal
  unfoldable pub create_task :
      (task_id application_id alias : String) (resource : Option Resource) (pod : Pod)
      (placeholder : Bool) (task_group_name : String) (originator : Bool)
      → Task
  create_task id app alias resource pod placeholder group originator =
      let tg = get_pod_annotation_value pod task_group_annotation in
      initialize (record {
        task_id = id;
        alias = alias;
        application_id = app;
        placeholder = placeholder;
        originator = originator;
        sm = task_new;
        allocation_key = "";
        node_name = "";
        task_group_name = (if tg == "" then group else tg);
        termination_type = "";
        scheduling_state = sched_pending;
        resource = resource;
        pod = pod;
      })

  -- GetTerminationTypeFromString
  unfoldable pub get_termination_type : String → ℕ
  get_termination_type s = elim (lookup s termination_type_value) [
    | some v ↦ v
    | none ↦ stopped_by_rm
  ]

  -- CreateReleaseRequestForTask, as releaseAllocation calls it
  unfoldable pub release_for_task : Task → World → AllocationRelease
  release_for_task t w = record {
    application_id = t.application_id;
    allocation_key = t.task_id;
    partition_name = w.partition;
    termination_type = get_termination_type t.termination_type;
  }

  -- The request of releaseAllocation, once it does not wait.
  unfoldable pub send_release : Task → World → World
  send_release t w = if w.has_scheduler_api then emit (release (release_for_task t w)) w else w

  -- releaseAllocation
  unfoldable pub release_allocation : Bool → Task → World → World
  release_allocation force t w =
      let (w', deferred) = try_add_releasable_task t.task_id w in
      if force then send_release t w else (if deferred then w' else send_release t w')

  -- beforeTaskAllocated
  unfoldable pub before_task_allocated : TaskState → String → String → Task → World → Task × World
  before_task_allocated src key node t w =
      let t' = record t { allocation_key = key; node_name = node } in
      (t', if same src task_completed then release_allocation false t' w else w)

  -- rollbackAllocation
  unfoldable pub rollback_allocation : Task → String → String → World → World
  rollback_allocation t key node w =
      let w₁ = emit (forget_pod key) (emit (revert_pod_volume_assumptions key node) w) in
      if w₁.has_scheduler_api
      then emit
          (release (record {
            application_id = t.application_id;
            allocation_key = key;
            partition_name = w₁.partition;
            termination_type = scheduling_failed_on_rm;
          }))
          w₁
      else w₁

  -- rollbackOnAssumePodFailure
  unfoldable pub rollback_on_assume_pod_failure : String → String → Task → World → Task × World
  rollback_on_assume_pod_failure key node t w =
      let t' = record t { allocation_key = ""; node_name = "" } in
      (t', rollback_allocation t' key node w)

  -- rescheduleOnBindFailure
  unfoldable pub reschedule_on_bind_failure : String → String → Task → World → Task × World
  reschedule_on_bind_failure key node t w =
      let t' = record t { sm = task_scheduling; allocation_key = ""; node_name = "" } in
      (t', rollback_allocation t' key node w)

  -- The goroutine of postTaskAllocated. Whether the volumes and the pod could be bound, after the
  -- retries, is an argument.
  unfoldable pub run_binding :
      (volumes_bound pod_bound : Bool) (node allocation_key : String) → Task → World → Task × World
  run_binding volumes_bound pod_bound node key t w =
      if volumes_bound && pod_bound
      then (
        record t { scheduling_state = sched_allocated },
        emit (dispatch_task (bind_task_event t.application_id t.task_id)) w,
      )
      else reschedule_on_bind_failure key node t w
