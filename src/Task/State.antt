-- ===== src/Task/State.antt =====
-- The state machine of a task, pkg/cache/task_state.go: its table, its callbacks, and `handle`.
use yunikorn_k8shim.Prelude.{String, false, Option, none, some, List, [], ◌∷◌}
use yunikorn_k8shim.Fsm.{
  EventDesc, Callbacks, FsmApi, FsmError, invalid_event, no_transition, event_error,
}
use yunikorn_k8shim.Events.{
  TaskState, TaskState-Names, task_new, task_pending, task_scheduling, task_allocated,
  task_rejected, task_bound, task_killing, task_killed, task_failed, task_completed, TaskEventType,
  TaskEventType-Names, init_task, submit_task, task_was_allocated, task_was_rejected,
  task_was_bound, complete_task, task_fail, kill_task, task_was_killed, TaskEvent, get_event,
  get_args,
}
use yunikorn_k8shim.Task.Defs.{
  post_task_pending, post_task_allocated, post_task_bound, post_task_rejected,
  handle_submit_task_event, release_allocation, before_task_allocated,
}
use yunikorn_k8shim.Task.Types.{Task, World, SchedulerInterface}

-- states.Any
abbrev pub any_state : List TaskState
any_state =
    task_new ∷ task_pending ∷ task_scheduling ∷ task_allocated ∷ task_rejected ∷ task_bound
    ∷ task_killing ∷ task_killed ∷ task_failed ∷ task_completed ∷ []

abbrev row : TaskEventType → List TaskState → TaskState → EventDesc TaskState TaskEventType
row e s d = record { event = e; src = s; dst = d }

-- eventDesc
abbrev pub event_desc : List (EventDesc TaskState TaskEventType)
event_desc =
    row init_task (task_new ∷ []) task_pending
    ∷ row submit_task (task_pending ∷ []) task_scheduling
    ∷ row task_was_allocated (task_scheduling ∷ []) task_allocated
    ∷ row task_was_allocated (task_completed ∷ []) task_completed
    ∷ row task_was_bound (task_allocated ∷ []) task_bound
    ∷ row complete_task any_state task_completed
    ∷ row kill_task (task_pending ∷ task_scheduling ∷ task_allocated ∷ task_bound ∷ []) task_killing
    ∷ row task_was_killed (task_killing ∷ []) task_killed
    ∷ row task_was_rejected (task_new ∷ task_pending ∷ task_scheduling ∷ []) task_rejected
    ∷ row task_fail
        (task_new ∷ task_pending ∷ task_scheduling ∷ task_rejected ∷ task_allocated ∷ [])
        task_failed
    ∷ []

-- GetEventArgsAsStrings for two arguments. No arguments leave both empty.
abbrev pub two_args : List String → Option (String × String)
two_args [] = some ("", "")
two_args (a ∷ b ∷ []) = some (a, b)
two_args (a ∷ []) = none
two_args (a ∷ b ∷ c ∷ rest) = none

module _ ⦃si : SchedulerInterface⦄ where
  -- The callbacks under beforeHook
  unfoldable pub before : TaskEvent → TaskState → Task × World → Task × World
  before v src (t, w) = elim (get_event v) [
    | task_fail ↦ (t, release_allocation false t w)
    | complete_task ↦ (t, release_allocation false t w)
    | task_was_allocated ↦ elim (two_args (get_args v)) [
      | some (key, node) ↦ before_task_allocated src key node t w
      | none ↦ (t, w)
    ]
    | _ ↦ (t, w)
  ]

  -- The callbacks under the name of a state; that of Failed only logs.
  unfoldable pub enter : TaskEvent → TaskState → Task × World → Task × World
  enter v dst (t, w) = elim dst [
    | task_pending ↦ (t, post_task_pending t w)
    | task_allocated ↦ (t, post_task_allocated t w)
    | task_rejected ↦ (t, post_task_rejected t w)
    | task_bound ↦ (t, post_task_bound t w)
    | _ ↦ (t, w)
  ]

  -- The callback under the name of an event
  unfoldable pub after : TaskEvent → Task × World → (Task × World) × Option String
  after v (t, w) = elim (get_event v) [
    | submit_task ↦ ((t, handle_submit_task_event t w), none)
    | _ ↦ ((t, w), none)
  ]

  abbrev pub callbacks : Callbacks TaskState TaskEvent (Task × World)
  callbacks = record { before = before; enter = enter; after = after }

  -- "handle the same state transition not nil error (limit of fsm)"
  abbrev pub handle_error : Option FsmError → Option FsmError
  handle_error none = none
  handle_error (some invalid_event) = some invalid_event
  handle_error (some (no_transition none)) = none
  handle_error (some (no_transition (some e))) = some (no_transition (some e))
  handle_error (some (event_error e)) = some (event_error e)

  -- handle
  unfoldable pub handle :
      FsmApi TaskState TaskEventType TaskEvent (Task × World)
      → TaskEvent
      → Task
      → World
      → (Task × World) × Option FsmError
  handle fsm v t w =
      let (s, (t', w'), e) = fsm.event event_desc callbacks get_event v t.sm (t, w) in
      ((record t' { sm = s }, w'), handle_error e)
