-- ===== src/Task/Binding.antt =====
-- The life of a task that is bound, and the way back of one that could not be bound.
use yunikorn_k8shim.Prelude.{
  String, ◌≡◌, ap, fun_ext, ◌∙◌, Bool, true, false, ◌&&◌, Option, none, List, [], ◌∷◌,
  if◌then◌else◌, arith,
}
use yunikorn_k8shim.Fsm.{FsmApi, FsmError, destination, run_event}
use yunikorn_k8shim.Events.{
  TaskState, TaskState-Names, TaskEventType, TaskEventType-Names, TaskEvent, init_task,
  simple_task_event, submit_task_event, bind_task_event, allocated_task_event, task_new,
  task_scheduling, task_allocated, task_bound, simple_app_event, update_reservation,
}
use yunikorn_k8shim.Task.Defs.{
  run_binding, reschedule_on_bind_failure, rollback_allocation, post_task_pending,
  post_task_allocated, post_task_bound, handle_submit_task_event, before_task_allocated,
  allocation_for_task,
}
use yunikorn_k8shim.Task.Types.{
  Task, World, SchedulerInterface, sched_allocated, emit, bind, dispatch_task, dispatch_app,
  update_allocation, revert_pod_volume_assumptions, forget_pod, release, Effect,
}
use yunikorn_k8shim.Task.State.{before, enter, after, handle}
use yunikorn_k8shim.Task.Moves.{handle_from, handle-handle_from}
use yunikorn_k8shim.Task.Handle.{handle-allocated_task_event}

module _ ⦃si : SchedulerInterface⦄ where
  open si use {scheduling_failed_on_rm}

  -- A handler of events, which may be `handle` or the documented run.
  abbrev pub Handler : Type 0
  Handler = TaskEvent → Task → World → (Task × World) × Option FsmError

  documented : Handler
  documented v t w = handle_from t.sm v t w

  handle-documented :
      (fsm : FsmApi TaskState TaskEventType TaskEvent (Task × World)) → handle fsm ≡ documented
  unfolding documented
  handle-documented fsm = fun_ext (λ v. fun_ext (λ t. fun_ext (λ w. handle-handle_from fsm v t w)))

  -- scheduleTasks starts the task, the events that the task sends are delivered, the core allocates
  -- it, and the goroutine binds it.
  abbrev pub bound_run : Handler → (key node : String) → Task → World → Task × World
  bound_run h key node t w =
      let (t₁, w₁) = (h (simple_task_event t.application_id t.task_id init_task) t w).0 in
      let (t₂, w₂) = (h (submit_task_event t.application_id t.task_id) t₁ w₁).0 in
      let (t₃, w₃) = (h (allocated_task_event t.application_id t.task_id key node) t₂ w₂).0 in
      let (t₄, w₄) = run_binding true true node key t₃ w₃ in
      (h (bind_task_event t.application_id t.task_id) t₄ w₄).0

  -- The requests and events of that run, in order.
  abbrev pub bound_effects : (key node : String) → Task → List Effect
  bound_effects key node t =
      dispatch_task (submit_task_event t.application_id t.task_id)
      ∷ update_allocation (allocation_for_task t)
      ∷ bind t.pod node key
      ∷ dispatch_task (bind_task_event t.application_id t.task_id)
      ∷ (if t.placeholder
          then dispatch_app (simple_app_event t.application_id update_reservation) ∷ []
          else [])

  -- The same, one after the other.
  abbrev pub emit_all : List Effect → World → World
  emit_all [] w = w
  emit_all (e ∷ es) w = emit_all es (emit e w)

  documented_run :
      (key node : String) (t : Task) (w : World)
      → bound_run documented key node (record t { sm = task_new }) w ≡ (
        record t {
          sm = task_bound;
          allocation_key = key;
          node_name = node;
          scheduling_state = sched_allocated;
        },
        emit_all (bound_effects key node t) w,
      )
  unfolding documented handle_from run_event destination before enter after run_binding
      post_task_pending post_task_allocated post_task_bound handle_submit_task_event
      before_task_allocated allocation_for_task
  documented_run key node t w = ground arith

  -- A new task that is started, submitted, allocated and bound ends in Bound, with the key and the
  -- node of its allocation. On the way it sends, in this order, its submission, its ask to the core,
  -- the start of the binding, the event that it is bound, and if it is a placeholder an update of
  -- the reservation, and nothing else.
  pub bound_run_lem :
      (fsm : FsmApi TaskState TaskEventType TaskEvent (Task × World)) (key node : String) (t : Task)
      (w : World)
      → t.sm ≡ task_new
      → bound_run (handle fsm) key node t w ≡ (
        record t {
          sm = task_bound;
          allocation_key = key;
          node_name = node;
          scheduling_state = sched_allocated;
        },
        emit_all (bound_effects key node t) w,
      )
  bound_run_lem fsm key node t w e =
      ap (λ h. bound_run h key node t w) (handle-documented fsm)
      ∙ ap (λ s. bound_run documented key node (record t { sm = s }) w) e
      ∙ documented_run key node t w

  -- The requests of a rollback, in order.
  abbrev pub rollback_effects : (key node : String) → Task → World → List Effect
  rollback_effects key node t w =
      revert_pod_volume_assumptions key node
      ∷ forget_pod key
      ∷ (if w.has_scheduler_api
          then release (record {
            application_id = t.application_id;
            allocation_key = key;
            partition_name = w.partition;
            termination_type = scheduling_failed_on_rm;
          })
            ∷ []
          else [])

  run_binding-fails :
      (volumes pod : Bool) (key node : String) (t : Task) (w : World)
      → (volumes && pod) ≡ false
      → run_binding volumes pod node key t w ≡ (
        record t { sm = task_scheduling; allocation_key = ""; node_name = "" },
        emit_all (rollback_effects key node t w) w,
      )
  unfolding run_binding reschedule_on_bind_failure rollback_allocation
  run_binding-fails volumes pod key node t w h = ground arith

  -- If the volumes or the pod could not be bound, the volumes and the assumed pod are rolled back and
  -- the core is told that the allocation failed. Whatever state the task was in, it then takes the
  -- next allocation of the core: it is allocated with that key and node, and a new binding starts.
  pub run_binding-retried :
      (fsm : FsmApi TaskState TaskEventType TaskEvent (Task × World)) (volumes pod : Bool)
      (key node key' node' : String) (t : Task) (w : World)
      → (volumes && pod) ≡ false
      → (let (t', w') = run_binding volumes pod node key t w in
          handle fsm (allocated_task_event t.application_id t.task_id key' node') t' w')
        ≡ (
          (
            record t { sm = task_allocated; allocation_key = key'; node_name = node' },
            emit (bind t.pod node' key') (emit_all (rollback_effects key node t w) w),
          ),
          none,
        )
  run_binding-retried fsm volumes pod key node key' node' t w h =
      ap (λ r. handle fsm (allocated_task_event t.application_id t.task_id key' node') r.0 r.1)
        (run_binding-fails volumes pod key node t w h)
      ∙ handle-allocated_task_event fsm t.application_id t.task_id key' node'
          (record t { sm = task_scheduling; allocation_key = ""; node_name = "" })
          (emit_all (rollback_effects key node t w) w)
