-- ===== src/Application/Schedule.antt =====
-- What the scheduling interval does to an application: Schedule, scheduleTasks and getTasks of
-- pkg/cache/application.go.
use Prim.Native.Nat.{Ordering}
use Prim.Native.String.{compare}
use yunikorn_k8shim.Prelude.{
  ℕ, String, Bool, true, false, not, ◌&&◌, List, [], ◌∷◌, is_empty, ltb, nat_eq, if◌then◌else◌,
}
use yunikorn_k8shim.Prelude.Dict.{Dict, insert}
use yunikorn_k8shim.Fsm.{FsmApi, Callbacks, same}
use yunikorn_k8shim.Events.{
  TaskState, TaskState-Names, TaskEventType, TaskEventType-Names, TaskEvent, simple_task_event,
  init_task, task_new, AppState, AppState-Names, AppEventType, AppEventType-Names, AppEvent,
  simple_app_event, submit_application, app_new, app_accepted, app_reserving, app_running,
}
use yunikorn_k8shim.Task.{Task, World, SchedulerInterface, emit, dispatch_app, handle}
use yunikorn_k8shim.Application.Defs.{Application, post_app_accepted, remove_completed_tasks}
use yunikorn_k8shim.Application.State.{app_event_desc}

-- An application with what its tasks touch of it; its state is that of the World.
pub record AppStore : Type 0 where
  pub app : Application
  pub world : World

-- The comparison of getTasks, with the creation times of tasks in seconds
abbrev pub is_text_lt : String → String → Bool
is_text_lt s t = elim (compare s t) [ Ordering.lt ↦ true | _ ↦ false ]

module _ (create_time : Task → ℕ) where
  unfoldable pub comes_before : Task → Task → Bool
  comes_before l r =
      if not (nat_eq (create_time l) (create_time r))
      then ltb (create_time l) (create_time r)
      else is_text_lt l.task_id r.task_id

  unfoldable pub insert_sorted : Task → List Task → List Task
  insert_sorted t [] = t ∷ []
  insert_sorted t (x ∷ xs) =
      let rest = insert_sorted t xs in if comes_before t x then t ∷ x ∷ xs else x ∷ rest

  -- getTasks. The tasks have different IDs, so that every sort gives the same list.
  unfoldable pub get_tasks : TaskState → Dict Task → List Task
  get_tasks state [] = []
  get_tasks state ((_, t) ∷ m) =
      let rest = get_tasks state m in if same t.sm state then insert_sorted t rest else rest

  -- The lookups of sanityCheckBeforeScheduling, which say whether a task passes, are an argument.
  module _ ⦃si : SchedulerInterface⦄ (passes_sanity_check : Task → Bool)
      (fsm : FsmApi TaskState TaskEventType TaskEvent (Task × World)) where
    -- The loop of scheduleTasks, over the tasks that GetNewTasks gives. An error of handle is only
    -- logged.
    unfoldable pub schedule_each : (Task → Bool) → List Task → AppStore → AppStore
    schedule_each condition [] st = st
    schedule_each condition (t ∷ ts) st =
        let ((t', w), _) =
          handle fsm (simple_task_event t.application_id t.task_id init_task) t st.world in
        let next : AppStore = record {
          app = record st.app { task_map = insert t.task_id t' st.app.task_map };
          world = w;
        } in
        schedule_each condition ts (if condition t && passes_sanity_check t then next else st)

    -- scheduleTasks
    unfoldable pub schedule_tasks : (Task → Bool) → AppStore → AppStore
    schedule_tasks condition st = schedule_each condition (get_tasks task_new st.app.task_map) st

    -- The branches of Schedule for Reserving and Running
    unfoldable pub schedule_and_clean : (Task → Bool) → AppStore → AppStore × Bool
    schedule_and_clean condition st =
        let scheduled = schedule_tasks condition st in
        let cleaned = record scheduled { app = remove_completed_tasks scheduled.app } in
        (cleaned, not (is_empty (get_tasks task_new cleaned.app.task_map)))

    -- Schedule. The callbacks of the state machine of the application are an argument.
    unfoldable pub schedule :
        FsmApi AppState AppEventType AppEvent AppStore
        → Callbacks AppState AppEvent AppStore
        → AppStore
        → AppStore × Bool
    schedule app_fsm cb st = elim st.world.app_state [
      | app_new ↦
          let (s, st', _) =
            app_fsm.event app_event_desc cb (λ v. v.event)
              (simple_app_event st.app.application_id submit_application) app_new st in
          (record st' { world = record st'.world { app_state = s } }, true)
      | app_accepted ↦
          (record st { world = emit (dispatch_app (post_app_accepted st.app)) st.world }, true)
      | app_reserving ↦ schedule_and_clean (λ t. t.placeholder) st
      | app_running ↦ schedule_and_clean (λ t. not t.placeholder) st
      | _ ↦ (st, false)
    ]
