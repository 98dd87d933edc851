-- ===== src/Context/Tests.antt =====
-- Runs of the context, and its theorems at them.
use yunikorn_k8shim.Prelude.{
  ℕ, ◌*◌, ltb, String, ◌≡◌, ◌⊎◌, refl, Bool, true, false, Option, none, some, [], ◌∷◌, eq_iff,
  arith,
}
use yunikorn_k8shim.Prelude.Dict.{lookup}
use yunikorn_k8shim.Pod.{Pod, pod_pending, pod_running}
use yunikorn_k8shim.Resource.{Resource}
use yunikorn_k8shim.Task.{SchedulerInterface}
use yunikorn_k8shim.Gang.Defs.{QuantityApi}
use yunikorn_k8shim.SchedulerCache.{SchedulerCache}
use yunikorn_k8shim.SchedulerCache.Invariant.{IsSound, on_node as listed_on}
use yunikorn_k8shim.SchedulerCache.Plain.{
  PlainInfo, plain_info, pod_on, node_named, program, run_or_empty, busy, busy-IsValid, waiting,
  n1_info, n1_known,
}
use yunikorn_k8shim.Context.Metadata.{Env, get_application_id_from_pod}
use yunikorn_k8shim.Context.Defs.{Context, new_context, set_cache}
use yunikorn_k8shim.Context.Nodes.{answered}
use yunikorn_k8shim.Context.Reach.{CacheValid}
use yunikorn_k8shim.Context.Run.{
  Events, on_pod, on_pod_deleted, on_node, on_node_deleted, done, next, run_events,
  run_events-new_context,
}
use yunikorn_k8shim.SchedulerCache.Reach.{new_scheduler_cache-IsValid}
use yunikorn_k8shim.SchedulerCache.Place.{is_known}
use yunikorn_k8shim.SchedulerCache.Invariant.{IsValid}
use yunikorn_k8shim.SchedulerCache.{Node, new_scheduler_cache}
use yunikorn_k8shim.Prelude.{List, map, member, ◌++◌, ◌||◌}
use yunikorn_k8shim.Context.Initialize.{
  filter_schedulable_nodes, enable_nodes, add_nodes_without_registering,
  add_nodes_without_registering_lem,
}
use yunikorn_k8shim.Context.Pods.{ensure_app_and_task_created}
use yunikorn_k8shim.Context.Tasks.{Ensured, ensure_app_and_task_created_lem}
use yunikorn_k8shim.Context.Volumes.{
  VolumeBinder, found, assume_volumes, context_assume_pod, context_forget_pod,
  context_forget_pod-assume_pod,
}

-- Whole numbers as quantities.
instance abbrev quantities : QuantityApi ℕ
quantities = record {
  is_negative = λ q. false;
  exceeds = λ q n. ltb n q;
  value = λ q. q;
  milli_value = λ q. 1000 * q;
  value_bound = λ q n s h b. ground arith;
  milli_value_bound = λ q n s h b. ground arith;
}

instance abbrev interface : SchedulerInterface
interface = record {
  termination_type_value = [];
  stopped_by_rm = 1;
  scheduling_failed_on_rm = 5;
  task_group_annotation = "yunikorn.apache.org/task-group-name";
}

abbrev env : Env ℕ
env = record {
  domain_yunikorn = "yunikorn.apache.org/";
  domain_yunikorn_internal = "yunikorn.apache.org/";
  generate_unique_app_ids = false;
  disable_gang_scheduling = false;
  unmarshal = λ _. none;
}

abbrev pod_resource : Pod → Option Resource
pod_resource _ = some (("pods", 1) ∷ [])

abbrev alias : Pod → String
alias p = p.name

-- A node that others use before it is registered, with a pod on it that came first.
abbrev events : Events
events = next (on_pod none (pod_on "early" "n1" pod_running)) (
    next
      (on_node true (answered true) (node_named "n1")
        (next (on_pod none (pod_on "waiting" "" pod_pending)) done))
      (next (on_pod_deleted (pod_on "early" "n1" pod_running))
        (next (on_node_deleted (node_named "n1")) done)))

run_events-new_context_example :
    CacheValid {N = PlainInfo} (run_events env pod_resource alias events new_context)
run_events-new_context_example = run_events-new_context env pod_resource alias events refl

abbrev early : Pod
early = pod_on "early" "n1" pod_running

-- A volume binder that finds one volume, which is not bound yet.
abbrev binder : VolumeBinder ℕ ℕ PlainInfo
binder = record {
  get_pod_volume_claims = λ p. some 1;
  find_pod_volumes = λ p claims x. found 7;
  assume_pod_volumes = λ p n v. some false;
}

abbrev busy_context : Context PlainInfo
busy_context = set_cache busy new_context

abbrev waits : Pod
waits = pod_on "waiting" "n1" pod_pending

context_forget_pod-assume_pod_example :
    ((assume_volumes binder waits "n1" n1_info ≡ none)
      × (context_assume_pod binder "waiting" "n1" busy_context ≡ some (busy_context, true)))
    ⊎ ((all_bound : Bool) × (c : SchedulerCache PlainInfo) × (c' : SchedulerCache PlainInfo)
        × (assume_volumes binder waits "n1" n1_info ≡ some all_bound)
        × (context_assume_pod binder "waiting" "n1" busy_context
            ≡ some (set_cache c busy_context, false))
        × IsSound c
        × (lookup "waiting" c.pods_map ≡ some waits)
        × (lookup "waiting" c.assigned_pods ≡ some "n1")
        × (listed_on "waiting" "n1" c ≡ some 1)
        × (lookup "waiting" c.assumed_pods ≡ some all_bound)
        × (context_forget_pod "waiting" (set_cache c busy_context)
            ≡ some (set_cache c' busy_context))
        × IsSound c'
        × (lookup "waiting" c'.pods_map ≡ some waiting)
        × (lookup "waiting" c'.assigned_pods ≡ none)
        × (lookup "waiting" c'.assumed_pods ≡ none))
unfolding program run_or_empty
context_forget_pod-assume_pod_example =
    context_forget_pod-assume_pod binder "waiting" "n1" busy_context waits n1_info
      busy-IsValid.sound refl n1_known (λ e. ground (arith, eq_iff "n1" "")) refl

ensure_app_and_task_created_lem_example :
    Ensured env pod_resource alias (get_application_id_from_pod env waiting) waiting busy_context (
      ensure_app_and_task_created env pod_resource alias
        (get_application_id_from_pod env waiting)
        waiting
        busy_context)
    × (ensure_app_and_task_created env pod_resource alias
          (get_application_id_from_pod env waiting)
          waiting
          (ensure_app_and_task_created env pod_resource alias
            (get_application_id_from_pod env waiting)
            waiting
            busy_context)
        ≡ ensure_app_and_task_created env pod_resource alias
            (get_application_id_from_pod env waiting)
            waiting
            busy_context)
ensure_app_and_task_created_lem_example =
    ensure_app_and_task_created_lem env pod_resource alias waiting busy_context refl

-- Two nodes of which the second is cordoned.
abbrev found_nodes : List Node
found_nodes = node_named "n1" ∷ record (node_named "n2") { unschedulable = true } ∷ []

abbrev new_plain : Context PlainInfo
new_plain = new_context

add_nodes_without_registering_lem_example :
    (c : SchedulerCache PlainInfo) × (add_nodes_without_registering env pod_resource alias
        found_nodes new_plain
      ≡ some (record new_plain {
        scheduler_cache = c;
        messages = new_plain.messages ++ enable_nodes (filter_schedulable_nodes found_nodes);
      }))
    × IsValid c
    × (c.orphaned_pods ≡ [])
    × ((n : String)
        → is_known n c
          ≡ (member n (map (λ y. y.name) found_nodes) || is_known n new_plain.scheduler_cache))
unfolding new_context new_scheduler_cache lookup
add_nodes_without_registering_lem_example =
    add_nodes_without_registering_lem env pod_resource alias found_nodes new_plain
      new_scheduler_cache-IsValid refl (refl, refl, (refl, refl, tt))
