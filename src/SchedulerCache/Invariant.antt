-- ===== src/SchedulerCache/Invariant.antt =====
-- What holds of the cache between two operations.
use yunikorn_k8shim.Prelude.{
  ℕ, String, ◌≡◌, ◌≢◌, Bool, true, not, ◌&&◌, Option, none, some, ◌==◌, all,
}
use yunikorn_k8shim.Prelude.Dict.{Dict, lookup}
use yunikorn_k8shim.Pod.{Pod, wants_node}
use yunikorn_k8shim.SchedulerCache.NodeInfo.{Node, NodeInfoApi, count}
use yunikorn_k8shim.SchedulerCache.Defs.{SchedulerCache}

-- A pod as a node holds it: with a UID, the node's name, and not terminated.
abbrev pub belongs : String → Pod → Bool
belongs n p = p.node_name == n && not (p.uid == "") && wants_node p

module _ {N : Type 0} ⦃api : NodeInfoApi N⦄ where
  open api use {node, pods}

  abbrev pub count_in : String → Option N → Option ℕ
  count_in k none = none
  count_in k (some info) = some (count k (pods info))

  -- How often the node lists the pod; `none` if there is no such node.
  abbrev pub on_node : String → String → SchedulerCache N → Option ℕ
  on_node k n c = count_in k (lookup n c.nodes_map)

  pub record IsNamed (n : String) (info : N) : Type 0 where
    pub owner : Node
    pub has_node : node info ≡ some owner
    pub name_fits : owner.name ≡ n
    pub pods_belong : all (belongs n) (pods info) ≡ true

  -- What the maps say of one UID.
  pub record PodInv (c : SchedulerCache N) (k : String) : Type 0 where
    pub on_own : (n : String) → lookup k c.assigned_pods ≡ some n → on_node k n c ≡ some 1
    pub on_no_other :
        (n : String) (m : ℕ) → lookup k c.assigned_pods ≢ some n → on_node k n c ≡ some m → m ≡ 0
    pub assigned_has_pod :
        (n : String)
        → lookup k c.assigned_pods ≡ some n
        → (p : Pod) × (lookup k c.pods_map ≡ some p) × (p.node_name ≡ n)
    pub pod_has_uid : (p : Pod) → lookup k c.pods_map ≡ some p → (p.uid ≡ k) × (k ≢ "")
    pub orphan_has_pod :
        (p : Pod)
        → lookup k c.orphaned_pods ≡ some p
        → (q : Pod) × (lookup k c.pods_map ≡ some q)
          × (lookup k c.assigned_pods ≡ none)
          × (p.uid ≡ k)
          × (wants_node p ≡ true)

  -- Every node is kept under its own name.
  abbrev pub AllNamed : Dict N → Type 0
  AllNamed d = (n : String) (info : N) → lookup n d ≡ some info → IsNamed n info

  pub record IsSound (c : SchedulerCache N) : Type 0 where
    pub node_at : AllNamed c.nodes_map
    pub pod_at : (k : String) → PodInv c k

  -- No orphan has a node to go to.
  abbrev pub OrphansWait : SchedulerCache N → Type 0
  OrphansWait c =
      (k : String) (p : Pod)
      → lookup k c.orphaned_pods ≡ some p
      → lookup p.node_name c.nodes_map ≡ none

  pub record IsValid (c : SchedulerCache N) : Type 0 where
    pub sound : IsSound c
    pub orphans_wait : OrphansWait c
