-- ===== src/SchedulerCache/Plain.antt =====
-- A node as the list of its pods, which the tests take for the NodeInfo of the scheduler framework,
-- and a cache that a run reaches.
use yunikorn_k8shim.Prelude.{
  ◌-◌, String, ◌≡◌, refl, Bool, true, false, Option, none, some, List, [], ◌∷◌, ◌++◌, ◌==◌, eq_iff,
  arith, if◌then◌else◌, all,
}
use yunikorn_k8shim.Prelude.Dict.{lookup, insert, delete, keys}
use yunikorn_k8shim.Pod.{
  Pod, Phase, pod_pending, pod_running, is_assigned_pod, is_pod_running, is_pod_terminated,
  pod_with_affinity, pod_with_required_anti_affinity,
}
use yunikorn_k8shim.SchedulerCache.NodeInfo.{Node, NodeInfoApi, count}
use yunikorn_k8shim.SchedulerCache.Defs.{
  SchedulerCache, new_scheduler_cache, update_pod, remove_pod, assume_pod, forget_pod, drop_node,
  set_claim, add_node, recount, update_pvc_ref_counts, reset_affinity, set_info, leave_node,
  keep_assumed, remove_current, settle, join_node, assign, store_pod,
}
use yunikorn_k8shim.SchedulerCache.Nodes.{
  adopt, add_new_node, refresh_node, update_node, release_pod, release_pods, remove_node,
}
use yunikorn_k8shim.SchedulerCache.Invariant.{IsValid}
use yunikorn_k8shim.SchedulerCache.Reach.{
  Op, op_update_pod, op_assume_pod, op_update_node, run_op, run_ops, IsValid-of_run,
}

pub record PlainInfo : Type 0 where
  pub owner : Option Node
  pub held : List Pod

-- The first pod with the UID goes.
abbrev pub remove_first : String → List Pod → List Pod
remove_first k [] = []
remove_first k (p ∷ ps) = if p.uid == k then ps else p ∷ remove_first k ps

pub count-remove_first :
    (j k : String) (ps : List Pod)
    → count k (remove_first j ps) ≡ (if j == k then count k ps - 1 else count k ps)
count-remove_first j k [] = ground arith
count-remove_first j k (p ∷ ps) =
    ground (arith, count-remove_first j k ps, eq_iff p.uid j, eq_iff p.uid k, eq_iff j k)

pub all-remove_first :
    (test : Pod → Bool) (j : String) (ps : List Pod)
    → all test ps ≡ true
    → all test (remove_first j ps) ≡ true
all-remove_first test j [] h = refl
all-remove_first test j (p ∷ ps) h = ground (arith, all-remove_first test j ps)

instance abbrev pub plain_info : NodeInfoApi PlainInfo
plain_info = record {
  new_node_info = record { owner = none; held = [] };
  set_node = λ x i. record i { owner = some x };
  node = λ i. i.owner;
  pods = λ i. i.held;
  add_pod = λ p i. record i { held = i.held ++ p ∷ [] };
  remove_pod_info = λ p i. record i { held = remove_first p.uid i.held };
  pvc_counts = λ i. ("claim", 1) ∷ [];
  pods_with_affinity = λ i. 0;
  pods_with_required_anti_affinity = λ i. 0;
  pods-new_node_info = refl;
  node-set_node = λ x i. refl;
  pods-set_node = λ x i. refl;
  node-add_pod = λ p i. refl;
  pods-add_pod = λ p i. refl;
  node-remove_pod = λ p i. refl;
  count-remove_pod = λ p k i u. count-remove_first p.uid k i.held;
  all-remove_pod = λ test p i h. all-remove_first test p.uid i.held h;
}

abbrev pub pod_on : String → String → Phase → Pod
pod_on uid node_name phase = record {
  uid = uid;
  namespace = "default";
  name = uid;
  node_name = node_name;
  scheduler_name = "yunikorn";
  phase = phase;
  affinity = none;
  labels = [];
  annotations = [];
  scheduling_gates = [];
  owner_references = [];
  priority_class_name = "";
}

abbrev pub node_named : String → Node
node_named n = record { name = n; unschedulable = false; allocatable = [] }

-- A node with a bound pod and an assumed one, and an orphan of another node.
abbrev pub busy_ops : List Op
busy_ops =
    op_update_node (node_named "n1")
    ∷ op_update_pod (pod_on "bound" "n1" pod_running)
    ∷ op_update_pod (pod_on "waiting" "" pod_pending)
    ∷ op_assume_pod (pod_on "waiting" "n1" pod_pending) true
    ∷ op_update_pod (pod_on "orphan" "n2" pod_running)
    ∷ []

unfoldable pub program : Unit {0}
unfolding run_ops run_op new_scheduler_cache update_pod remove_pod assume_pod forget_pod drop_node
    set_claim add_node recount update_pvc_ref_counts reset_affinity set_info leave_node keep_assumed
    remove_current settle join_node assign store_pod adopt add_new_node refresh_node update_node
    release_pod release_pods remove_node lookup insert delete keys is_assigned_pod is_pod_running
    is_pod_terminated pod_with_affinity pod_with_required_anti_affinity
program = tt

unfoldable pub run_or_empty : List Op → SchedulerCache PlainInfo
run_or_empty os = elim (run_ops os new_scheduler_cache) [ none ↦ new_scheduler_cache | some c ↦ c ]

abbrev pub busy : SchedulerCache PlainInfo
busy = run_or_empty busy_ops

pub busy-IsValid : IsValid busy
unfolding program run_or_empty
busy-IsValid = IsValid-of_run busy_ops busy refl refl

abbrev pub waiting : Pod
waiting = pod_on "waiting" "" pod_pending

abbrev pub assumed : Pod
assumed = pod_on "waiting" "n1" pod_pending

abbrev pub bound : Pod
bound = pod_on "bound" "n1" pod_running

abbrev pub fresh : Pod
fresh = pod_on "fresh" "n1" pod_pending

abbrev pub n1_info : PlainInfo
n1_info = record { owner = some (node_named "n1"); held = bound ∷ assumed ∷ [] }

abbrev pub n1_known : lookup "n1" busy.nodes_map ≡ some n1_info
unfolding program run_or_empty
n1_known = refl
