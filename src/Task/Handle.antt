-- ===== src/Task/Handle.antt =====
-- The events that complete a task and that allocate it, in every state.
use yunikorn_k8shim.Prelude.{
  String, ◌≡◌, refl, ap, ◌∙◌, false, Option, none, some, arith, Option-cases, inl, inr,
}
use yunikorn_k8shim.Fsm.{FsmApi, FsmError, invalid_event, destination, run_event}
use yunikorn_k8shim.Events.{
  TaskState, TaskState-Names, TaskEventType, TaskEventType-Names, TaskEvent, complete_task,
  simple_task_event, get_event, allocated_task_event, task_new, task_scheduling, task_allocated,
  task_completed, task_pending, init_task,
}
use yunikorn_k8shim.Task.Defs.{
  release_allocation, before_task_allocated, send_release, release_for_task, post_task_allocated,
  post_task_pending,
}
use yunikorn_k8shim.Task.Types.{Task, World, SchedulerInterface, emit, bind}
use yunikorn_k8shim.Task.State.{before, enter, after, handle, event_desc, callbacks}
use yunikorn_k8shim.Task.Moves.{handle_from, handle-handle_from}

module _ ⦃si : SchedulerInterface⦄ where
  complete_from :
      (s : TaskState) (app task : String) (t : Task) (w : World)
      → handle_from s (simple_task_event app task complete_task) t w
        ≡ ((record t { sm = task_completed }, release_allocation false t w), none)
  unfolding handle_from run_event destination before enter after
  complete_from s app task t w =
      elim s
        as (λ s.
          handle_from s (simple_task_event app task complete_task) t w
          ≡ ((record t { sm = task_completed }, release_allocation false t w), none)) [
            | task_new ↦ refl
            | _ ↦ refl
          ]

  -- A task can be completed in every state, without an error: it ends in Completed, its allocation
  -- is released as the application's state has it, and nothing else of it changes.
  pub handle-complete_task :
      (fsm : FsmApi TaskState TaskEventType TaskEvent (Task × World)) (app task : String) (t : Task)
      (w : World)
      → handle fsm (simple_task_event app task complete_task) t w
        ≡ ((record t { sm = task_completed }, release_allocation false t w), none)
  handle-complete_task fsm app task t w =
      handle-handle_from fsm (simple_task_event app task complete_task) t w
      ∙ complete_from t.sm app task t w

  -- What an allocation of the core does to a task, by the task's state: only a task in Scheduling
  -- takes it and is bound, a completed one gives it back, any other refuses it.
  abbrev pub allocated :
      TaskState → String → String → Task → World → (Task × World) × Option FsmError
  allocated task_scheduling key node t w = (
    (
      record t { sm = task_allocated; allocation_key = key; node_name = node },
      emit (bind t.pod node key) w,
    ),
    none,
  )
  allocated task_completed key node t w = (
    (
      record t { sm = task_completed; allocation_key = key; node_name = node },
      release_allocation false t w,
    ),
    none,
  )
  allocated _ key node t w = ((t, w), some invalid_event)

  allocated_from :
      (s : TaskState) (app task key node : String) (t : Task) (w : World)
      → handle_from s (allocated_task_event app task key node) (record t { sm = s }) w
        ≡ allocated s key node (record t { sm = s }) w
  unfolding handle_from run_event destination before enter after before_task_allocated
      post_task_allocated release_allocation send_release release_for_task
  allocated_from s app task key node t w =
      elim s
        as (λ s.
          handle_from s (allocated_task_event app task key node) (record t { sm = s }) w
          ≡ allocated s key node (record t { sm = s }) w) [ task_new ↦ refl | _ ↦ refl ]

  -- An allocation of the core takes a task in Scheduling to Allocated with that key and node and
  -- starts its binding. A completed task stays Completed, takes key and node, and gives the
  -- allocation back as the application's state has it. In every other state the event is refused,
  -- and nothing changes.
  pub handle-allocated_task_event :
      (fsm : FsmApi TaskState TaskEventType TaskEvent (Task × World)) (app task key node : String)
      (t : Task) (w : World)
      → handle fsm (allocated_task_event app task key node) t w ≡ allocated t.sm key node t w
  handle-allocated_task_event fsm app task key node t w =
      handle-handle_from fsm (allocated_task_event app task key node) t w
      ∙ allocated_from t.sm app task key node t w

  -- An event that the state machine has no transition for leaves the task as it is.
  pub handle-cannot :
      (fsm : FsmApi TaskState TaskEventType TaskEvent (Task × World)) (v : TaskEvent) (t : Task)
      (w : World)
      → fsm.can event_desc (get_event v) t.sm ≡ false
      → (handle fsm v t w).0.0 ≡ t
  unfolding handle
  handle-cannot fsm v t w h = elim (Option-cases (destination event_desc (get_event v) t.sm)) [
    | inl absent ↦ ground (arith, fsm.event-invalid event_desc callbacks get_event v t.sm (t, w))
    | inr (s, found) ↦ absurd (ground (arith, fsm.can-destination event_desc (get_event v) t.sm))
  ]

  init_from :
      (app task : String) (t : Task) (w : World)
      → handle_from task_new (simple_task_event app task init_task) t w
        ≡ ((record t { sm = task_pending }, post_task_pending t w), none)
  unfolding handle_from run_event destination before enter after
  init_from app task t w = refl

  -- A new task that is told to start is pending, and asks to be submitted; nothing else changes.
  pub handle-init_task :
      (fsm : FsmApi TaskState TaskEventType TaskEvent (Task × World)) (app task : String) (t : Task)
      (w : World)
      → t.sm ≡ task_new
      → handle fsm (simple_task_event app task init_task) t w
        ≡ ((record t { sm = task_pending }, post_task_pending t w), none)
  handle-init_task fsm app task t w e =
      handle-handle_from fsm (simple_task_event app task init_task) t w
      ∙ ap (λ s. handle_from s (simple_task_event app task init_task) t w) e
      ∙ init_from app task t w
