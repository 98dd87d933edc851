-- ===== src/Application/Sample.antt =====
-- A gang with a placeholder that runs, one that is completed, and a task, for tests.
use yunikorn_k8shim.Prelude.{true, false, none, [], ◌∷◌}
use yunikorn_k8shim.Pod.{Pod, pod_running}
use yunikorn_k8shim.Events.{
  AppState-Names, AppEventType-Names, task_new, task_bound, task_completed,
}
use yunikorn_k8shim.Task.{Task, sched_allocated}
use yunikorn_k8shim.Application.Defs.{Application}

abbrev pub holder : Pod
holder = record {
  uid = "uid-1";
  namespace = "default";
  name = "holder";
  node_name = "node-1";
  scheduler_name = "yunikorn";
  phase = pod_running;
  affinity = none;
  labels = [];
  annotations = [];
  scheduling_gates = [];
  owner_references = [];
  priority_class_name = "";
}

abbrev pub placeholder_task : Task
placeholder_task = record {
  task_id = "uid-1";
  alias = "default/holder";
  application_id = "app-1";
  placeholder = true;
  originator = false;
  sm = task_bound;
  allocation_key = "uid-1";
  node_name = "node-1";
  task_group_name = "workers";
  termination_type = "";
  scheduling_state = sched_allocated;
  resource = none;
  pod = holder;
}

abbrev pub gang : Application
gang = record {
  application_id = "app-1";
  task_groups = (record { name = "workers"; min_member = 2 }) ∷ [];
  task_map =
      ("uid-1", placeholder_task)
      ∷ ("uid-2", record placeholder_task { task_id = "uid-2"; sm = task_completed })
      ∷ ("uid-3", record placeholder_task { task_id = "uid-3"; placeholder = false; sm = task_new })
      ∷ [];
}
