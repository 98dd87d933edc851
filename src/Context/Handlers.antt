-- ===== src/Context/Handlers.antt =====
-- TaskEventHandler of pkg/cache/context.go, and what the calls that a task makes do to the context.
-- A task is run on the `World` that its application and the context show it.
use yunikorn_k8shim.Prelude.{String, true, Option, none, some, List, [], ◌∷◌, if◌then◌else◌}
use yunikorn_k8shim.Prelude.Dict.{lookup, insert}
use yunikorn_k8shim.Fsm.{FsmApi}
use yunikorn_k8shim.Events.{
  TaskState, TaskEventType, TaskEventType-Names, TaskState-Names, TaskEvent, simple_task_event,
  submit_task_event, allocated_task_event, bind_task_event, fail_task_event, reject_task_event,
  get_event,
}
use yunikorn_k8shim.Task.{
  Task, World, Effect, SchedulerInterface, handle, event_desc, dispatch_task as to_task,
  dispatch_app as to_app, update_allocation as ask, release, bind, revert_pod_volume_assumptions,
  forget_pod,
}
use yunikorn_k8shim.SchedulerCache.{NodeInfoApi, ◌>>=◌}
use yunikorn_k8shim.Context.Defs.{
  App, Context, dispatch_task, dispatch_app, update_allocation, release_task, bind_pod,
  revert_volumes, send, set_app, get_application,
}
use yunikorn_k8shim.Context.Volumes.{context_forget_pod}

-- GetApplicationID and GetTaskID
abbrev pub app_id_of : TaskEvent → String
app_id_of (simple_task_event app _ _) = app
app_id_of (submit_task_event app _) = app
app_id_of (allocated_task_event app _ _ _) = app
app_id_of (bind_task_event app _) = app
app_id_of (fail_task_event app _ _) = app
app_id_of (reject_task_event app _ _) = app

abbrev pub task_id_of : TaskEvent → String
task_id_of (simple_task_event _ task _) = task
task_id_of (submit_task_event _ task) = task
task_id_of (allocated_task_event _ task _ _) = task
task_id_of (bind_task_event _ task) = task
task_id_of (fail_task_event _ task _) = task
task_id_of (reject_task_event _ task _) = task

-- What a task sees of its application. The core is there: it may only be nil in tests.
abbrev pub world_of : App → World
world_of app = record {
  app_state = app.sm;
  partition = app.partition;
  releaseable_tasks = app.releaseable_tasks;
  has_scheduler_api = true;
  effects = [];
}

-- The application with the task and with what the task changed of it
abbrev pub store_task : String → Task → World → App → App
store_task key t w app = record app {
  application = record app.application { task_map = insert key t app.application.task_map };
  releaseable_tasks = w.releaseable_tasks;
}

module _ {N : Type 0} ⦃api : NodeInfoApi N⦄ where
  -- One call that a task makes
  unfoldable pub perform : Effect → Context N → Option (Context N)
  perform (to_task ev) ctx = some (send (dispatch_task ev) ctx)
  perform (to_app ev) ctx = some (send (dispatch_app ev) ctx)
  perform (ask a) ctx = some (send (update_allocation a) ctx)
  perform (release r) ctx = some (send (release_task r) ctx)
  perform (bind pod node key) ctx = some (send (bind_pod pod node key) ctx)
  perform (revert_pod_volume_assumptions key node) ctx = some (send (revert_volumes key node) ctx)
  perform (forget_pod key) ctx = context_forget_pod key ctx

  -- The calls in their order
  unfoldable pub perform_all : List Effect → Context N → Option (Context N)
  perform_all [] ctx = some ctx
  perform_all (e ∷ es) ctx = do ctx₁ ← perform e ctx; perform_all es ctx₁

  -- A method of the task that the application has under this ID. Its calls follow its change of the
  -- task, whose lock it holds.
  unfoldable pub run_on_task :
      (Task → World → Task × World)
      → (app_id task_id : String) → App
      → Task
      → Context N
      → Option (Context N)
  run_on_task method app_id task_id app task ctx =
      let (t, w) = method task (world_of app) in
      perform_all w.effects (set_app app_id (store_task task_id t w app) ctx)

  module _ ⦃si : SchedulerInterface⦄
      (fsm : FsmApi TaskState TaskEventType TaskEvent (Task × World)) where
    -- TaskEventHandler, for an event of a task: canHandle, then handle
    unfoldable pub task_event_handler : TaskEvent → Context N → Option (Context N)
    task_event_handler ev ctx = elim (get_application (app_id_of ev) ctx) [
      | none ↦ some ctx
      | some app ↦ elim (lookup (task_id_of ev) app.application.task_map) [
        | none ↦ some ctx
        | some task ↦
            if fsm.can event_desc (get_event ev) task.sm
            then run_on_task (λ t w. (handle fsm ev t w).0) (app_id_of ev) (task_id_of ev) app task
                ctx
            else some ctx
      ]
    ]
