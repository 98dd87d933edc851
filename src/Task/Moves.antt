-- ===== src/Task/Moves.antt =====
-- What an event does to the state of a task.
use yunikorn_k8shim.Prelude.{
  String, ◌≡◌, refl, sym, Bool, true, false, Option, none, some, List, [], ◌∷◌, any, arith,
  Option-cases, Bool-cases, inl, inr, ◌∙◌, subst,
}
use yunikorn_k8shim.Resource.{Resource}
use yunikorn_k8shim.Pod.{Pod, is_pod_terminated}
use yunikorn_k8shim.Fsm.{FsmApi, FsmError, same, destination, run_event, event-run_event}
use yunikorn_k8shim.Events.{
  TaskState, TaskState-Names, AppState-Names, task_new, task_pending, task_scheduling,
  task_allocated, task_rejected, task_bound, task_killing, task_killed, task_failed, task_completed,
  TaskEventType, TaskEventType-Names, TaskEvent, get_event, init_task,
}
use yunikorn_k8shim.Task.Defs.{create_task, initialize}
use yunikorn_k8shim.Task.Types.{Task, World, SchedulerInterface, is_terminated}
use yunikorn_k8shim.Task.State.{event_desc, callbacks, handle_error, handle}

-- The states of TStates.Terminated
abbrev pub is_terminal : TaskState → Bool
is_terminal task_rejected = true
is_terminal task_killed = true
is_terminal task_failed = true
is_terminal task_completed = true
is_terminal _ = false

-- The state after an event, by the table alone.
abbrev pub next_state : TaskEventType → TaskState → TaskState
next_state e s = elim (destination event_desc e s) [ none ↦ s | some d ↦ d ]

is_terminal-next_state :
    (e : TaskEventType) (s : TaskState) → is_terminal s ≡ true → is_terminal (next_state e s) ≡ true
unfolding destination
is_terminal-next_state e task_new h = absurd (cc h)
is_terminal-next_state e task_pending h = absurd (cc h)
is_terminal-next_state e task_scheduling h = absurd (cc h)
is_terminal-next_state e task_allocated h = absurd (cc h)
is_terminal-next_state e task_rejected h =
    elim e as (λ e. is_terminal (next_state e task_rejected) ≡ true) [ init_task ↦ refl | _ ↦ refl ]
is_terminal-next_state e task_bound h = absurd (cc h)
is_terminal-next_state e task_killing h = absurd (cc h)
is_terminal-next_state e task_killed h =
    elim e as (λ e. is_terminal (next_state e task_killed) ≡ true) [ init_task ↦ refl | _ ↦ refl ]
is_terminal-next_state e task_failed h =
    elim e as (λ e. is_terminal (next_state e task_failed) ≡ true) [ init_task ↦ refl | _ ↦ refl ]
is_terminal-next_state e task_completed h =
    elim e as (λ e. is_terminal (next_state e task_completed) ≡ true) [
      | init_task ↦ refl
      | _ ↦ refl
    ]

next_state-completed : (e : TaskEventType) → next_state e task_completed ≡ task_completed
unfolding destination
next_state-completed e = elim e as (λ e. next_state e task_completed ≡ task_completed) [
  | init_task ↦ refl
  | _ ↦ refl
]

same_as_terminal :
    (s : TaskState)
    → any (λ x. same s x) (task_rejected ∷ task_killed ∷ task_failed ∷ task_completed ∷ [])
      ≡ is_terminal s
same_as_terminal s =
    elim s
      as (λ s.
        any (λ x. same s x) (task_rejected ∷ task_killed ∷ task_failed ∷ task_completed ∷ [])
        ≡ is_terminal s) [ task_new ↦ refl | _ ↦ refl ]

module _ ⦃si : SchedulerInterface⦄ where
  -- `handle` from a given state, with the documented run of an event in place of the library's.
  unfoldable pub handle_from :
      TaskState → TaskEvent → Task → World → (Task × World) × Option FsmError
  handle_from s v t w =
      let (s', (t', w'), e) = run_event event_desc callbacks get_event v s (t, w) in
      ((record t' { sm = s' }, w'), handle_error e)

  pub handle-handle_from :
      (fsm : FsmApi TaskState TaskEventType TaskEvent (Task × World)) (v : TaskEvent) (t : Task)
      (w : World)
      → handle fsm v t w ≡ handle_from t.sm v t w
  unfolding handle handle_from
  handle-handle_from fsm v t w =
      rw (event-run_event fsm event_desc callbacks get_event v t.sm (t, w)) refl

  handle_from-is_terminal :
      (s : TaskState) (v : TaskEvent) (t : Task) (w : World)
      → is_terminal s ≡ true
      → is_terminal (handle_from s v t w).0.0.sm ≡ true
  unfolding handle_from run_event
  handle_from-is_terminal s v t w h = elim (Option-cases (destination event_desc (get_event v) s)) [
    | inl a ↦ ground arith
    | inr (d, a) ↦ elim (Bool-cases (same d s)) [
      | inl b ↦ ground arith
      | inr b ↦ ground (arith, is_terminal-next_state (get_event v) s h)
    ]
  ]

  -- Events that a task handles one after the other; an event that is refused changes nothing.
  unfoldable pub handle_all :
      FsmApi TaskState TaskEventType TaskEvent (Task × World)
      → List TaskEvent
      → Task
      → World
      → Task × World
  handle_all fsm [] t w = (t, w)
  handle_all fsm (v ∷ vs) t w = let ((t', w'), _) = handle fsm v t w in handle_all fsm vs t' w'

  -- Whatever events a terminated task handles, in whatever order and whatever they carry, it stays
  -- terminated.
  pub is_terminated-handle_all :
      (fsm : FsmApi TaskState TaskEventType TaskEvent (Task × World)) (vs : List TaskEvent)
      (t : Task) (w : World)
      → is_terminated t ≡ true
      → is_terminated (handle_all fsm vs t w).0 ≡ true
  unfolding handle_all
  is_terminated-handle_all fsm [] t w h = h
  is_terminated-handle_all fsm (v ∷ vs) t w h =
      let next : Task = (handle fsm v t w).0.0 in
      let stays : is_terminal next.sm ≡ true =
        subst (λ r. is_terminal r.0.0.sm ≡ true) (sym (handle-handle_from fsm v t w))
          (handle_from-is_terminal t.sm v t w (sym (same_as_terminal t.sm) ∙ h)) in
      is_terminated-handle_all fsm vs next (handle fsm v t w).0.1 (same_as_terminal next.sm ∙ stays)

  completed_stays :
      (s : TaskState) (v : TaskEvent) (t : Task) (w : World)
      → s ≡ task_completed
      → (handle_from s v t w).0.0.sm ≡ task_completed
  unfolding handle_from run_event
  completed_stays s v t w h = elim (Option-cases (destination event_desc (get_event v) s)) [
    | inl a ↦ ground arith
    | inr (d, a) ↦ elim (Bool-cases (same d s)) [
      | inl b ↦ ground arith
      | inr b ↦ ground (arith, next_state-completed (get_event v))
    ]
  ]

  handle_all-completed :
      (fsm : FsmApi TaskState TaskEventType TaskEvent (Task × World)) (vs : List TaskEvent)
      (t : Task) (w : World)
      → t.sm ≡ task_completed
      → (handle_all fsm vs t w).0.sm ≡ task_completed
  unfolding handle_all
  handle_all-completed fsm [] t w h = h
  handle_all-completed fsm (v ∷ vs) t w h =
      handle_all-completed fsm vs (handle fsm v t w).0.0 (handle fsm v t w).0.1 (
        subst (λ r. r.0.0.sm ≡ task_completed) (sym (handle-handle_from fsm v t w))
          (completed_stays t.sm v t w h))

  -- A task made for a pod that has terminated already, as after a restart, is Completed with the
  -- pod's UID as its key and the pod's node, and no sequence of events takes it out of Completed.
  pub create_task-terminated :
      (fsm : FsmApi TaskState TaskEventType TaskEvent (Task × World)) (vs : List TaskEvent)
      (id app alias group : String) (resource : Option Resource) (pod : Pod)
      (placeholder originator : Bool) (w : World)
      → is_pod_terminated pod ≡ true
      → (let t = create_task id app alias resource pod placeholder group originator in
          ((handle_all fsm vs t w).0.sm ≡ task_completed)
          × (t.allocation_key ≡ pod.uid)
          × (t.node_name ≡ pod.node_name))
  unfolding create_task initialize
  create_task-terminated fsm vs id app alias group resource pod placeholder originator w h = (
    handle_all-completed fsm vs (create_task id app alias resource pod placeholder group originator)
        w (ground arith),
    ground arith,
    ground arith,
  )
