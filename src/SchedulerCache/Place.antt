-- ===== src/SchedulerCache/Place.antt =====
-- The second part of updatePod: a detached pod is put where its new version belongs.
use yunikorn_k8shim.Prelude.{
  ℕ, ◌+◌, String, ◌≡◌, ◌≢◌, Bool, true, false, not, ◌&&◌, ◌||◌, none, some, ◌==◌, eq_iff, arith,
  if◌then◌else◌, subst,
}
use yunikorn_k8shim.Prelude.Dict.{lookup, insert, lookup-delete, lookup-insert}
use yunikorn_k8shim.Pod.{Pod, is_pod_running, is_pod_terminated, wants_node}
use yunikorn_k8shim.SchedulerCache.NodeInfo.{NodeInfoApi, count, count-add_pod}
use yunikorn_k8shim.SchedulerCache.Defs.{
  SchedulerCache, is_some, recount, set_info, reset_affinity, settle, join_node, store_pod,
}
use yunikorn_k8shim.SchedulerCache.Invariant.{on_node, IsNamed, AllNamed}
use yunikorn_k8shim.SchedulerCache.Frame.{
  Frame, IsNamed-add_pod, AllNamed-insert, update_pvc_ref_counts_lem, on_node-set_info,
}
use yunikorn_k8shim.SchedulerCache.Update.{Detached}

module _ {N : Type 0} ⦃api : NodeInfoApi N⦄ where
  open api use {pods, add_pod}

  abbrev pub is_known : String → SchedulerCache N → Bool
  is_known n c = is_some (lookup n c.nodes_map)

  -- Where updatePod leaves the version `p` of a pod, and that it touches no other pod.
  pub record Placed (p : Pod) (c c' : SchedulerCache N) : Type 0 where
    pub named : AllNamed c'.nodes_map
    pub frame : (k : String) → (p.uid == k) ≡ false → Frame k c c'
    pub now_pod : lookup p.uid c'.pods_map ≡ (if is_pod_terminated p then none else some p)
    pub now_assumed :
        lookup p.uid c'.assumed_pods
        ≡ (if is_pod_running p || is_pod_terminated p then none else lookup p.uid c.assumed_pods)
    pub now_assigned :
        lookup p.uid c'.assigned_pods
        ≡ (if wants_node p && is_known p.node_name c then some p.node_name else none)
    pub now_orphan :
        lookup p.uid c'.orphaned_pods
        ≡ (if wants_node p && not (is_known p.node_name c) then some p else none)
    pub now_on :
        (n : String) (m : ℕ)
        → on_node p.uid n c' ≡ some m
        → m ≡ (if wants_node p && p.node_name == n then 1 else 0)
    pub same_nodes : (n : String) → is_known n c' ≡ is_known n c

  -- What join_node leaves when the node is there.
  abbrev pub joined : Pod → N → SchedulerCache N → SchedulerCache N
  joined p info c =
      let info' = add_pod p info in
      let c₁ = reset_affinity p (record (set_info p.node_name info' c) {
        assigned_pods = insert p.uid p.node_name c.assigned_pods;
      }) in
      record c₁ { pvc_ref_counts = recount p.node_name info' false c₁.pvc_ref_counts }

  pub join_node-known :
      (p : Pod) (info : N) (c : SchedulerCache N)
      → lookup p.node_name c.nodes_map ≡ some info
      → IsNamed p.node_name info
      → p.uid ≢ ""
      → wants_node p ≡ true
      → join_node p c ≡ some (joined p info c, true)
  unfolding join_node
  join_node-known p info c h v u w =
      let info' = add_pod p info in
      let c₁ = reset_affinity p (record (set_info p.node_name info' c) {
        assigned_pods = insert p.uid p.node_name c.assigned_pods;
      }) in
      ground
        (arith, update_pvc_ref_counts_lem info' false c₁ p.node_name (IsNamed-add_pod p info u w v))

  on_node-joined :
      (p : Pod) (k m : String) (info : N) (c : SchedulerCache N)
      → lookup p.node_name c.nodes_map ≡ some info
      → on_node k m (joined p info c) ≡ (
          if (p.node_name == m) && (p.uid == k)
          then some (count k (pods info) + 1)
          else on_node k m c)
  unfolding reset_affinity
  on_node-joined p k m info c h = ground (
    arith,
    on_node-set_info k m p.node_name (add_pod p info) c,
    count-add_pod p k info,
    eq_iff p.node_name m,
  )

  pub Placed-joined :
      {c c₁ : SchedulerCache N} (p : Pod) (info : N)
      → Detached p.uid c c₁
      → wants_node p ≡ true
      → lookup p.node_name c₁.nodes_map ≡ some info
      → p.uid ≢ ""
      → Placed p c (store_pod p (joined p info (settle p c₁)))
  unfolding reset_affinity set_info settle store_pod
  Placed-joined {c} {c₁} p info d w h u =
      let same : is_known p.node_name c₁ ≡ is_known p.node_name c = d.same_nodes p.node_name in
      record {
        named = subst AllNamed (ground arith) (
            AllNamed-insert c₁.nodes_map p.node_name (add_pod p info) d.named
              (IsNamed-add_pod p info u w (d.named p.node_name info h)));
        frame = λ k e. record {
          same_pod = ground (arith, (d.frame k e).same_pod, lookup-insert p.uid p k c₁.pods_map);
          same_assigned = ground (
            arith,
            (d.frame k e).same_assigned,
            lookup-insert p.uid p.node_name k c₁.assigned_pods,
          );
          same_assumed =
              ground (arith, (d.frame k e).same_assumed, lookup-delete p.uid k c₁.assumed_pods);
          same_orphan = ground (arith, (d.frame k e).same_orphan);
          same_on =
              λ m. ground (arith, (d.frame k e).same_on m, on_node-joined p k m info (settle p c₁));
        };
        now_pod = ground (arith, lookup-insert p.uid p p.uid c₁.pods_map, eq_iff p.uid p.uid);
        now_assumed =
            ground (
              arith,
              d.still_assumed,
              lookup-delete p.uid p.uid c₁.assumed_pods,
              eq_iff p.uid p.uid,
            );
        now_assigned =
            ground
              (arith, lookup-insert p.uid p.node_name p.uid c₁.assigned_pods, eq_iff p.uid p.uid);
        now_orphan = ground (arith, d.no_orphan);
        now_on = λ n m e. ground (
          arith,
          d.off n m,
          d.off n (count p.uid (pods info)),
          on_node-joined p p.uid n info (settle p c₁),
          eq_iff p.uid p.uid,
          eq_iff p.node_name n,
        );
        same_nodes = λ n. ground (
          arith,
          d.same_nodes n,
          lookup-insert p.node_name (add_pod p info) n c₁.nodes_map,
          eq_iff p.node_name n,
        );
      }
