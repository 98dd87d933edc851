-- ===== src/Task/Tests.antt =====
-- A state machine to run tasks with, and the theorems at concrete inputs.
use yunikorn_k8shim.Prelude.{◌≡◌, refl, true, false, none, [], ◌∷◌, arith}
use yunikorn_k8shim.Prelude.Dict.{lookup}
use yunikorn_k8shim.Pod.{Pod, pod_pending, pod_succeeded, is_pod_terminated}
use yunikorn_k8shim.Fsm.{documented, FsmApi}
use yunikorn_k8shim.Events.{
  TaskState, TaskState-Names, TaskEventType, TaskEventType-Names, TaskEvent, complete_task,
  kill_task, simple_task_event, allocated_task_event, task_new, task_failed, task_allocated,
  task_bound, app_new, app_running,
}
use yunikorn_k8shim.Task.Defs.{create_task, release_allocation, run_binding, initialize}
use yunikorn_k8shim.Task.Types.{
  Task, World, SchedulerInterface, sched_pending, sched_allocated, is_terminated, emit, bind,
  get_pod_annotation_value,
}
use yunikorn_k8shim.Task.State.{handle}
use yunikorn_k8shim.Task.Moves.{handle_all, is_terminated-handle_all}
use yunikorn_k8shim.Task.Release.{Released, release_allocation_lem}
use yunikorn_k8shim.Task.Binding.{
  bound_run, bound_effects, emit_all, rollback_effects, bound_run_lem, run_binding-retried,
}

abbrev pub Machine : Type 0
Machine = FsmApi TaskState TaskEventType TaskEvent (Task × World)

abbrev pub machine : Machine
machine = documented

instance abbrev pub interface : SchedulerInterface
interface = record {
  termination_type_value = ("STOPPED_BY_RM", 1) ∷ ("TIMEOUT", 2) ∷ [];
  stopped_by_rm = 1;
  scheduling_failed_on_rm = 5;
  task_group_annotation = "yunikorn.apache.org/task-group-name";
}

abbrev worker : Pod
worker = record {
  uid = "uid-1";
  namespace = "default";
  name = "worker";
  node_name = "";
  scheduler_name = "yunikorn";
  phase = pod_pending;
  affinity = none;
  labels = [];
  annotations = ("yunikorn.apache.org/task-group-name", "workers") ∷ [];
  scheduling_gates = [];
  owner_references = [];
  priority_class_name = "";
}

abbrev done : Pod
done = record worker { phase = pod_succeeded; node_name = "node-1" }

abbrev task : Task
task = record {
  task_id = "uid-1";
  alias = "default/worker";
  application_id = "app-1";
  placeholder = true;
  originator = false;
  sm = task_new;
  allocation_key = "";
  node_name = "";
  task_group_name = "workers";
  termination_type = "";
  scheduling_state = sched_pending;
  resource = none;
  pod = worker;
}

abbrev world : World
world = record {
  app_state = app_running;
  partition = "default";
  releaseable_tasks = [];
  has_scheduler_api = true;
  effects = [];
}

create_task-worker : create_task "uid-1" "app-1" "default/worker" none worker true "" false ≡ task
unfolding create_task get_pod_annotation_value initialize is_pod_terminated lookup
create_task-worker = refl

is_terminated-handle_all_example :
    is_terminated
      (handle_all machine
        (simple_task_event "app-1" "uid-1" kill_task
          ∷ simple_task_event "app-1" "uid-1" complete_task
          ∷ [])
        (record task { sm = task_failed })
        world).0
    ≡ true
is_terminated-handle_all_example =
    is_terminated-handle_all machine
      (simple_task_event "app-1" "uid-1" kill_task
        ∷ simple_task_event "app-1" "uid-1" complete_task
        ∷ [])
      (record task { sm = task_failed }) world refl

release_allocation_lem_example :
    Released false task
      (record world { app_state = app_new })
      (release_allocation false task (record world { app_state = app_new }))
release_allocation_lem_example =
    release_allocation_lem false task (record world { app_state = app_new }) (omega arith)

bound_run_lem_example : bound_run (handle machine) "uid-1" "node-1" task world ≡ (
  record task {
    sm = task_bound;
    allocation_key = "uid-1";
    node_name = "node-1";
    scheduling_state = sched_allocated;
  },
  emit_all (bound_effects "uid-1" "node-1" task) world,
)
bound_run_lem_example = bound_run_lem machine "uid-1" "node-1" task world refl

run_binding-retried_example :
    (let (t', w') = run_binding true false "node-1" "uid-1" task world in
      handle machine (allocated_task_event "app-1" "uid-1" "uid-1" "node-2") t' w')
    ≡ (
      (
        record task { sm = task_allocated; allocation_key = "uid-1"; node_name = "node-2" },
        emit
            (bind worker "node-2" "uid-1")
            (emit_all (rollback_effects "uid-1" "node-1" task world) world),
      ),
      none,
    )
run_binding-retried_example =
    run_binding-retried machine true false "uid-1" "node-1" "uid-1" "node-2" task world refl
