-- ===== src/SchedulerCache/NewNode.antt =====
-- The parts of updateNode: the cache with the empty new node, and what refreshNode leaves.
use yunikorn_k8shim.Prelude.{
  String, ◌≡◌, refl, true, false, all, none, some, ◌==◌, eq_iff, arith, if◌then◌else◌, ◌∙◌, ap,
}
use yunikorn_k8shim.Prelude.Dict.{lookup}
use yunikorn_k8shim.SchedulerCache.NodeInfo.{Node, NodeInfoApi, count}
use yunikorn_k8shim.SchedulerCache.Defs.{SchedulerCache, recount, set_info}
use yunikorn_k8shim.SchedulerCache.Nodes.{refresh_node}
use yunikorn_k8shim.SchedulerCache.Invariant.{on_node, IsSound, IsNamed, belongs}
use yunikorn_k8shim.SchedulerCache.Frame.{
  Frame-PodInv, update_pvc_ref_counts_lem, AllNamed-insert, on_node-set_info,
}

module _ {N : Type 0} ⦃api : NodeInfoApi N⦄ where
  open api use {
    new_node_info, set_node, node, pods, pods-new_node_info, pods-set_node, node-set_node,
  }

  -- The cache with the empty new node, before the orphans are looked for.
  abbrev pub with_new_node : Node → SchedulerCache N → SchedulerCache N
  with_new_node x c = record (set_info x.name (set_node x new_node_info) c) { nodes_info = none }

  pub IsNamed-set_node :
      (x : Node) (info : N)
      → all (belongs x.name) (pods info) ≡ true
      → IsNamed x.name (set_node x info)
  IsNamed-set_node x info h = record {
    owner = x;
    has_node = node-set_node x info;
    name_fits = refl;
    pods_belong = rw (pods-set_node x info) h;
  }

  pub on_node-with_new_node :
      (k m : String) (x : Node) (c : SchedulerCache N)
      → on_node k m (with_new_node x c) ≡ (if x.name == m then some 0 else on_node k m c)
  on_node-with_new_node k m x c =
      on_node-set_info k m x.name (set_node x new_node_info) c
      ∙ ap (λ ps. if x.name == m then some (count k ps) else on_node k m c)
          (pods-set_node x new_node_info ∙ pods-new_node_info)

  pub with_new_node-IsSound :
      (x : Node) (c : SchedulerCache N)
      → IsSound c
      → lookup x.name c.nodes_map ≡ none
      → IsSound (with_new_node x c)
  unfolding set_info
  with_new_node-IsSound x c v h = record {
    node_at =
        AllNamed-insert c.nodes_map x.name (set_node x new_node_info) v.node_at
          (IsNamed-set_node x new_node_info (rw pods-new_node_info refl));
    pod_at = λ k.
        let w = v.pod_at k in
        record {
          on_own =
              λ n a. ground (arith, on_node-with_new_node k n x c, w.on_own n, eq_iff x.name n);
          on_no_other = λ n m a on.
              ground (arith, on_node-with_new_node k n x c, w.on_no_other n m, eq_iff x.name n);
          assigned_has_pod = w.assigned_has_pod;
          pod_has_uid = w.pod_has_uid;
          orphan_has_pod = w.orphan_has_pod;
        };
  }

  -- What refreshNode leaves: the counts and the lists are new, all else stands.
  abbrev pub refreshed : String → N → SchedulerCache N → SchedulerCache N
  refreshed n info c = record c {
    pvc_ref_counts = recount n info false c.pvc_ref_counts;
    nodes_info_pods_with_affinity = none;
    nodes_info_pods_with_req_anti_affinity = none;
  }

  pub refresh_node_lem :
      (n : String) (info : N) (c : SchedulerCache N)
      → IsSound c
      → lookup n c.nodes_map ≡ some info
      → refresh_node n c ≡ some (refreshed n info c)
  unfolding refresh_node
  refresh_node_lem n info c v h = ground (
    arith,
    update_pvc_ref_counts_lem info false
        (record c {
          nodes_info_pods_with_affinity = none;
          nodes_info_pods_with_req_anti_affinity = none;
        })
        n (v.node_at n info h),
  )

  pub refreshed-IsSound :
      (n : String) (info : N) (c : SchedulerCache N) → IsSound c → IsSound (refreshed n info c)
  refreshed-IsSound n info c v = record {
    node_at = v.node_at;
    pod_at = λ k.
        Frame-PodInv
          (record {
            same_pod = refl;
            same_assigned = refl;
            same_assumed = refl;
            same_orphan = refl;
            same_on = λ m. refl;
          })
          (v.pod_at k);
  }
