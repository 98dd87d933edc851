-- ===== src/SchedulerCache/Nodes.antt =====
-- The operations of the cache on nodes and priority classes, and the lists that it keeps of nodes.
use yunikorn_k8shim.Prelude.{
  String, Bool, true, false, Option, none, some, List, [], ◌∷◌, ◌++◌, ◌==◌, if◌then◌else◌, ltb,
}
use yunikorn_k8shim.Prelude.Dict.{Dict, lookup, insert, delete, keys}
use yunikorn_k8shim.Pod.{Pod, with_node}
use yunikorn_k8shim.SchedulerCache.NodeInfo.{Node, NodeInfoApi, PriorityClass}
use yunikorn_k8shim.SchedulerCache.Defs.{
  SchedulerCache, ◌>>=◌, is_some, update_pod, update_pvc_ref_counts, set_info,
}

module _ {N : Type 0} ⦃api : NodeInfoApi N⦄ where
  open api use {
    new_node_info, set_node, node, pods, pods_with_affinity, pods_with_required_anti_affinity,
  }

  -- The loop of updateNode over the orphans. An orphan that left the map before its turn is not
  -- visited, as in Go; the order of the map is that of its list, which is arbitrary.
  unfoldable pub adopt :
      String → List String → SchedulerCache N → List Pod → Option (SchedulerCache N × List Pod)
  adopt n [] c adopted = some (c, adopted)
  adopt n (k ∷ ks) c adopted = elim (lookup k c.orphaned_pods) [
    | none ↦ adopt n ks c adopted
    | some pod ↦ elim (pod.node_name == n) [
      | true ↦ (do
        (c', joined) ← update_pod pod c
        adopt n ks c' (if joined then adopted ++ pod ∷ [] else adopted))
      | false ↦ adopt n ks c adopted
    ]
  ]

  abbrev forget_affinity_lists : SchedulerCache N → SchedulerCache N
  forget_affinity_lists c = record c {
    nodes_info_pods_with_affinity = none;
    nodes_info_pods_with_req_anti_affinity = none;
  }

  -- The branch of updateNode for a node that the cache does not have.
  unfoldable pub add_new_node : Node → SchedulerCache N → Option (SchedulerCache N × List Pod)
  add_new_node x c =
      let c₁ = record (set_info x.name (set_node x new_node_info) c) { nodes_info = none } in
      adopt x.name (keys c₁.orphaned_pods) c₁ []

  -- The tail of updateNode. Its NodeInfo is a pointer into the map, so it is read there.
  unfoldable pub refresh_node : String → SchedulerCache N → Option (SchedulerCache N)
  refresh_node n c = do
    info ← lookup n c.nodes_map
    update_pvc_ref_counts info false (forget_affinity_lists c)

  -- updateNode: the previous node, and the orphans that the node adopted
  unfoldable pub update_node :
      Node → SchedulerCache N → Option (SchedulerCache N × Option Node × List Pod)
  update_node x c = elim (lookup x.name c.nodes_map) [
    | none ↦ (do
      (c₁, adopted) ← add_new_node x c
      c₂ ← refresh_node x.name c₁
      some (c₂, none, adopted))
    | some info ↦ (do
      c₂ ← refresh_node x.name (set_info x.name (set_node x info) c)
      some (c₂, node info, []))
  ]

  -- One round of the loop of removeNode. An assumed pod is pending again, any other an orphan.
  unfoldable pub release_pod : Pod → SchedulerCache N × List Pod → SchedulerCache N × List Pod
  release_pod pod (c, orphans) =
      let key = pod.uid in
      let c₁ = record c {
        assigned_pods = delete key c.assigned_pods;
        assumed_pods = delete key c.assumed_pods;
      } in
      if is_some (lookup key c.assumed_pods)
      then (record c₁ { pods_map = insert key (with_node pod "") c.pods_map }, orphans)
      else (record c₁ { orphaned_pods = insert key pod c.orphaned_pods }, orphans ++ pod ∷ [])

  unfoldable pub release_pods : List Pod → SchedulerCache N × List Pod → SchedulerCache N × List Pod
  release_pods [] s = s
  release_pods (pod ∷ rest) s = release_pods rest (release_pod pod s)

  -- removeNode: the node that was removed, and its orphans
  unfoldable pub remove_node :
      Node → SchedulerCache N → Option (SchedulerCache N × Option Node × List Pod)
  remove_node x c = elim (lookup x.name c.nodes_map) [
    | none ↦ some (c, none, [])
    | some info ↦
        let (c₁, orphans) = release_pods (pods info) (c, []) in
        let c₂ = record (forget_affinity_lists c₁) {
          nodes_map = delete x.name c₁.nodes_map;
          nodes_info = none;
        } in
        (do c₃ ← update_pvc_ref_counts info true c₂; some (c₃, node info, orphans))
  ]

  -- updatePriorityClass and removePriorityClass
  unfoldable pub update_priority_class : PriorityClass → SchedulerCache N → SchedulerCache N
  update_priority_class pc c = record c { pc_map = insert pc.name pc c.pc_map }

  unfoldable pub remove_priority_class : PriorityClass → SchedulerCache N → SchedulerCache N
  remove_priority_class pc c = record c { pc_map = delete pc.name c.pc_map }

  -- GetNodesInfo
  unfoldable pub get_nodes_info : SchedulerCache N → SchedulerCache N × List String
  get_nodes_info c = elim c.nodes_info [
    | some l ↦ (c, l)
    | none ↦ let l = keys c.nodes_map in (record c { nodes_info = some l }, l)
  ]

  -- The names of the nodes that pass the test.
  unfoldable pub nodes_where : (N → Bool) → Dict N → List String
  nodes_where test [] = []
  nodes_where test ((n, info) ∷ m) =
      let rest = nodes_where test m in if test info then n ∷ rest else rest

  -- GetNodesInfoPodsWithAffinity
  unfoldable pub get_nodes_info_pods_with_affinity :
      SchedulerCache N → SchedulerCache N × List String
  get_nodes_info_pods_with_affinity c = elim c.nodes_info_pods_with_affinity [
    | some l ↦ (c, l)
    | none ↦
        let l = nodes_where (λ info. ltb 0 (pods_with_affinity info)) c.nodes_map in
        (record c { nodes_info_pods_with_affinity = some l }, l)
  ]

  -- GetNodesInfoPodsWithReqAntiAffinity
  unfoldable pub get_nodes_info_pods_with_req_anti_affinity :
      SchedulerCache N → SchedulerCache N × List String
  get_nodes_info_pods_with_req_anti_affinity c = elim c.nodes_info_pods_with_req_anti_affinity [
    | some l ↦ (c, l)
    | none ↦
        let l = nodes_where (λ info. ltb 0 (pods_with_required_anti_affinity info)) c.nodes_map in
        (record c { nodes_info_pods_with_req_anti_affinity = some l }, l)
  ]
