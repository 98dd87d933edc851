-- ===== src/SchedulerCache/NodeInfo.antt =====
-- What the cache uses of the NodeInfo of k8s.io/kubernetes/pkg/scheduler/framework.
-- The type is a parameter, with the documented effect of each call as a law.
use yunikorn_k8shim.Prelude.{
  ℕ, Bool, true, all, arith, ◌+◌, ◌-◌, String, ◌≡◌, ◌≢◌, Option, some, List, [], ◌∷◌, ◌++◌, ◌==◌,
  if◌then◌else◌,
}
use yunikorn_k8shim.Prelude.Dict.{Dict}
use yunikorn_k8shim.Pod.{Pod}

-- v1.Node: the name, Spec.Unschedulable, and Status.Allocatable with what Value() and MilliValue()
-- return for each of its resources.
pub record Node : Type 0 where
  pub name : String
  pub unschedulable : Bool
  pub allocatable : Dict (ℕ × ℕ)

-- schedulingv1.PriorityClass: the name and the value are read.
pub record PriorityClass : Type 0 where
  pub name : String
  pub value : ℕ

-- How many pods of the list have this UID.
abbrev pub count : String → List Pod → ℕ
count k [] = 0
count k (p ∷ ps) = (if p.uid == k then 1 else 0) + count k ps

pub record NodeInfoApi (N : Type 0) : Type 0 where
  pub new_node_info : N
  pub set_node : Node → N → N
  pub node : N → Option Node
  pub pods : N → List Pod
  pub add_pod : Pod → N → N
  -- The node after RemovePod, on its error too: the cache only logs the error.
  pub remove_pod_info : Pod → N → N
  pub pvc_counts : N → Dict ℕ
  -- len(PodsWithAffinity) and len(PodsWithRequiredAntiAffinity)
  pub pods_with_affinity : N → ℕ
  pub pods_with_required_anti_affinity : N → ℕ
  pub pods-new_node_info : pods new_node_info ≡ []
  pub node-set_node : (x : Node) (info : N) → node (set_node x info) ≡ some x
  pub pods-set_node : (x : Node) (info : N) → pods (set_node x info) ≡ pods info
  pub node-add_pod : (p : Pod) (info : N) → node (add_pod p info) ≡ node info
  pub pods-add_pod : (p : Pod) (info : N) → pods (add_pod p info) ≡ pods info ++ p ∷ []
  pub node-remove_pod : (p : Pod) (info : N) → node (remove_pod_info p info) ≡ node info
  -- One pod with the UID goes, if there is one; a pod that has no UID is refused.
  pub count-remove_pod :
      (p : Pod) (k : String) (info : N)
      → p.uid ≢ ""
      → count k (pods (remove_pod_info p info))
        ≡ (if p.uid == k then count k (pods info) - 1 else count k (pods info))
  -- RemovePod brings no pod in.
  pub all-remove_pod :
      (test : Pod → Bool) (p : Pod) (info : N)
      → all test (pods info) ≡ true
      → all test (pods (remove_pod_info p info)) ≡ true

pub count-append : (k : String) (ps qs : List Pod) → count k (ps ++ qs) ≡ count k ps + count k qs
count-append k [] qs = omega arith
count-append k (p ∷ ps) qs = omega (arith, count-append k ps qs)

module _ {N : Type 0} ⦃api : NodeInfoApi N⦄ where
  open api use {pods, add_pod, pods-add_pod}

  pub count-add_pod :
      (p : Pod) (k : String) (info : N)
      → count k (pods (add_pod p info)) ≡ count k (pods info) + (if p.uid == k then 1 else 0)
  count-add_pod p k info =
      rw (pods-add_pod p info) (omega (arith, count-append k (pods info) (p ∷ [])))
