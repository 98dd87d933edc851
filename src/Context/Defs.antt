-- ===== src/Context/Defs.antt =====
-- The context of pkg/cache/context.go: its applications, its scheduler cache, and what it sends.
-- The cache returns `none` where Go panics.
use yunikorn_k8shim.Prelude.{
  String, Bool, true, false, not, ◌&&◌, Option, none, some, List, [], ◌∷◌, ◌++◌, if◌then◌else◌,
  member,
}
use yunikorn_k8shim.Prelude.Dict.{Dict, lookup, insert, delete}
use yunikorn_k8shim.Pod.{Pod}
use yunikorn_k8shim.Resource.{Resource, equals}
use yunikorn_k8shim.Fsm.{same}
use yunikorn_k8shim.Events.{
  AppState, AppState-Names, app_new, app_resuming, TaskEvent, simple_task_event, complete_task,
  AppEvent, simple_app_event, app_task_completed,
}
use yunikorn_k8shim.Task.{
  Task, SchedulerInterface, create_task, AllocationRelease, Allocation, allocation_for_task,
}
use yunikorn_k8shim.Application.{Application, TaskGroup as GroupSize, add_task, remove_task}
use yunikorn_k8shim.Gang.Defs.{QuantityApi, TaskGroup, set_task_groups}
use yunikorn_k8shim.SchedulerCache.{SchedulerCache, new_scheduler_cache}
use yunikorn_k8shim.Context.Metadata.{TaskMetadata, ApplicationMetadata}

-- An application as the context makes it. An owner is its UID, and the originating task its ID.
pub record App : Type 0 where
  pub application : Application
  pub sm : AppState
  pub queue : String
  pub placeholder_ask : Option Resource
  pub placeholder_owner_references : List String
  pub originating_task : Option String
  -- The tasks of releaseableTasks, by the ID that the loop of tryAddReleasableTask compares
  pub releaseable_tasks : List String
  pub partition : String

-- What the context sends, to the dispatcher and to the core.
pub data Message : Type 0 where
  dispatch_task : TaskEvent → Message
  dispatch_app : AppEvent → Message
  allocate_foreign : Pod → Message
  release_foreign : AllocationRelease → Message
  node_create_drain node_drain node_drain_to_schedulable node_decommission : String → Message
  node_update : String → Resource → Message
  update_allocation : Allocation → Message
  release_task : AllocationRelease → Message
  -- The goroutine that binds a pod is started.
  bind_pod : (pod : Pod) (node allocation_key : String) → Message
  -- The volume binder is told to revert what it assumed.
  revert_volumes : (allocation_key node : String) → Message

pub record Context (N : Type 0) : Type 0 where
  pub applications : Dict App
  pub scheduler_cache : SchedulerCache N
  pub messages : List Message

unfoldable pub new_context : {N : Type 0} → Context N
new_context = record { applications = []; scheduler_cache = new_scheduler_cache; messages = [] }

-- GetTask of an application that may be nil
abbrev pub task_of : String → Option App → Option Task
task_of task_id none = none
task_of task_id (some app) = lookup task_id app.application.task_map

module _ {N : Type 0} where
  abbrev pub send : Message → Context N → Context N
  send e ctx = record ctx { messages = ctx.messages ++ e ∷ [] }

  abbrev pub set_cache : SchedulerCache N → Context N → Context N
  set_cache c ctx = record ctx { scheduler_cache = c }

  abbrev pub set_app : String → App → Context N → Context N
  set_app app_id app ctx = record ctx { applications = insert app_id app ctx.applications }

  -- getApplication
  abbrev pub get_application : String → Context N → Option App
  get_application app_id ctx = lookup app_id ctx.applications

  -- getTask
  unfoldable pub get_task : String → String → Context N → Option Task
  get_task app_id task_id ctx = task_of task_id (get_application app_id ctx)

  -- removeApplication
  unfoldable pub remove_application : String → Context N → Context N
  remove_application app_id ctx = elim (get_application app_id ctx) [
    | none ↦ ctx
    | some _ ↦ record ctx { applications = delete app_id ctx.applications }
  ]

  -- RemoveTask
  unfoldable pub context_remove_task : String → String → Context N → Context N
  context_remove_task app_id task_id ctx = elim (get_application app_id ctx) [
    | none ↦ ctx
    | some app ↦
        set_app app_id (record app { application = remove_task task_id app.application }) ctx
  ]

  -- notifyTaskComplete
  unfoldable pub notify_task_complete : Option App → String → Context N → Context N
  notify_task_complete none task_id ctx = ctx
  notify_task_complete (some app) task_id ctx =
      let id = app.application.application_id in
      let ctx₁ = send (dispatch_task (simple_task_event id task_id complete_task)) ctx in
      if same app.sm app_resuming
      then send (dispatch_app (simple_app_event id app_task_completed)) ctx₁
      else ctx₁

  -- SetTaskPod. The allocation that updateAllocation makes is sent to the core.
  unfoldable pub set_task_pod :
      (Pod → Option Resource) → String → App → Task → Pod → Context N → Context N
  set_task_pod pod_resource app_id app t pod ctx =
      let changed = not (equals false t.resource (pod_resource pod)) in
      let t' : Task = record t {
        pod = pod;
        resource = if changed then pod_resource pod else t.resource;
      } in
      let ctx₁ : Context N =
        set_app app_id
          (record app {
            application = record app.application {
              task_map = insert pod.uid t' app.application.task_map;
            };
          })
          ctx in
      if changed then send (update_allocation (allocation_for_task t')) ctx₁ else ctx₁

  -- The first part of updateYuniKornPod
  unfoldable pub update_task_pod : (Pod → Option Resource) → String → Pod → Context N → Context N
  update_task_pod pod_resource app_id pod ctx = elim (get_application app_id ctx) [
    | none ↦ ctx
    | some app ↦ elim (lookup pod.uid app.application.task_map) [
      | none ↦ ctx
      | some t ↦ set_task_pod pod_resource app_id app t pod ctx
    ]
  ]

module _ {Q : Type 0} ⦃quantities : QuantityApi Q⦄ where
  -- The groups as the application keeps them.
  abbrev pub task_groups : List (TaskGroup Q) → List GroupSize
  task_groups [] = []
  task_groups (g ∷ gs) = record { name = g.name; min_member = g.min_member } ∷ task_groups gs

  -- NewApplication, and the setters that addApplication calls
  unfoldable pub new_application : ApplicationMetadata Q → App
  new_application m = record {
    application = record {
      application_id = m.application_id;
      task_groups = task_groups m.task_groups;
      task_map = [];
    };
    sm = app_new;
    queue = m.queue_name;
    placeholder_ask = set_task_groups m.task_groups none;
    placeholder_owner_references = m.owner_references;
    originating_task = none;
    releaseable_tasks = [];
    partition = "default";
  }

  -- addApplication
  unfoldable pub add_application : {N : Type 0} → ApplicationMetadata Q → Context N → Context N
  add_application m ctx = elim (get_application m.application_id ctx) [
    | some _ ↦ ctx
    | none ↦ set_app m.application_id (new_application m) ctx
  ]

-- The task is the first pod of its application: not a placeholder, the first to be found, and an
-- owner of the placeholders.
unfoldable pub is_originator : TaskMetadata → App → Bool
is_originator m app =
    not m.placeholder
    && (elim app.originating_task [ none ↦ true | some _ ↦ false ])
    && member m.task_id app.placeholder_owner_references

-- GetPodResource and the name of a pod's task for logs are arguments.
module _ (pod_resource : Pod → Option Resource) (alias : Pod → String)
    ⦃si : SchedulerInterface⦄ where
  -- The task that addTask makes.
  unfoldable pub new_from_task_meta : TaskMetadata → App → Task
  new_from_task_meta m app =
      create_task m.task_id app.application.application_id (alias m.pod) (pod_resource m.pod) m.pod
        m.placeholder m.task_group_name (is_originator m app)

  -- addTask
  unfoldable pub context_add_task : {N : Type 0} → TaskMetadata → Context N → Context N
  context_add_task m ctx = elim (get_application m.application_id ctx) [
    | none ↦ ctx
    | some app ↦ elim (lookup m.task_id app.application.task_map) [
      | some _ ↦ ctx
      | none ↦
          set_app m.application_id
            (record app {
              application = add_task (new_from_task_meta m app) app.application;
              originating_task =
                  (if is_originator m app then some m.task_id else app.originating_task);
            })
            ctx
    ]
  ]
