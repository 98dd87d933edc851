-- ===== src/SchedulerCache/Update.antt =====
-- updatePod, step by step: the current version of the pod goes, the new one takes its place.
use yunikorn_k8shim.Prelude.{
  ℕ, ◌-◌, String, ◌≡◌, ◌≢◌, refl, false, ◌&&◌, none, some, ◌==◌, eq_iff, arith, if◌then◌else◌,
  Option-cases, inl, inr, subst,
}
use yunikorn_k8shim.Prelude.Dict.{
  lookup, delete, lookup-insert, lookup-delete_self, lookup-delete_ne,
}
use yunikorn_k8shim.Pod.{Pod, with_node}
use yunikorn_k8shim.SchedulerCache.NodeInfo.{NodeInfoApi, count}
use yunikorn_k8shim.SchedulerCache.Defs.{
  SchedulerCache, is_some, recount, set_info, reset_affinity, leave_node, keep_assumed,
  remove_current,
}
use yunikorn_k8shim.SchedulerCache.Invariant.{on_node, IsNamed, PodInv, IsSound, AllNamed}
use yunikorn_k8shim.SchedulerCache.Frame.{
  Frame, Frame-refl, IsNamed-remove_pod, AllNamed-insert, update_pvc_ref_counts_lem,
  on_node-set_info,
}

module _ {N : Type 0} ⦃api : NodeInfoApi N⦄ where
  open api use {pods, remove_pod_info, count-remove_pod}

  -- The pod is nowhere in the cache, except that it may be assumed; all else is as it was.
  pub record Detached (key : String) (c c' : SchedulerCache N) : Type 0 where
    pub named : AllNamed c'.nodes_map
    pub frame : (k : String) → (key == k) ≡ false → Frame k c c'
    pub no_pod : lookup key c'.pods_map ≡ none
    pub no_assigned : lookup key c'.assigned_pods ≡ none
    pub no_orphan : lookup key c'.orphaned_pods ≡ none
    pub still_assumed : lookup key c'.assumed_pods ≡ lookup key c.assumed_pods
    pub off : (n : String) (m : ℕ) → on_node key n c' ≡ some m → m ≡ 0
    pub same_nodes : (n : String) → is_some (lookup n c'.nodes_map) ≡ is_some (lookup n c.nodes_map)

  -- What leave_node leaves when the node is there.
  abbrev left : Pod → Pod → String → N → SchedulerCache N → SchedulerCache N
  left pod curr n info c =
      let info' = remove_pod_info curr info in
      let c' = set_info n info' c in
      reset_affinity pod (record c' { pvc_ref_counts = recount n info' false c'.pvc_ref_counts })

  leave_node_lem :
      (pod curr : Pod) (n : String) (info : N) (c : SchedulerCache N)
      → lookup n c.nodes_map ≡ some info
      → IsNamed n info
      → leave_node pod curr n c ≡ some (left pod curr n info c)
  unfolding leave_node
  leave_node_lem pod curr n info c h v =
      let info' = remove_pod_info curr info in
      ground (
        arith,
        update_pvc_ref_counts_lem info' false (set_info n info' c) n
            (IsNamed-remove_pod curr n info v),
      )

  on_node-left :
      (pod curr : Pod) (k m n : String) (info : N) (c : SchedulerCache N)
      → curr.uid ≢ ""
      → lookup n c.nodes_map ≡ some info
      → on_node k m (left pod curr n info c)
        ≡ (if (n == m) && (curr.uid == k) then some (count k (pods info) - 1) else on_node k m c)
  unfolding reset_affinity
  on_node-left pod curr k m n info c u h = ground (
    arith,
    on_node-set_info k m n (remove_pod_info curr info) c,
    count-remove_pod curr k info u,
    eq_iff n m,
  )

  -- The node name that the new version of a pod ends up with.
  abbrev pub effective : Pod → SchedulerCache N → Pod
  effective pod c = elim (lookup pod.uid c.assigned_pods) [
    | none ↦ pod
    | some n ↦
        if (pod.node_name == "") && is_some (lookup pod.uid c.assumed_pods)
        then with_node pod n
        else pod
  ]

  -- A UID that is not in the map of pods is nowhere.
  pub unknown_pod :
      {c : SchedulerCache N} {k : String}
      → PodInv c k
      → lookup k c.pods_map ≡ none
      → (lookup k c.assigned_pods ≡ none) × (lookup k c.orphaned_pods ≡ none)
  unknown_pod {c} {k} v h = (
    elim (Option-cases (lookup k c.assigned_pods)) [
      | inl e ↦ e
      | inr (n, e) ↦ absurd (cc (v.assigned_has_pod n e).1)
    ],
    elim (Option-cases (lookup k c.orphaned_pods)) [
      | inl e ↦ e
      | inr (p, e) ↦ absurd (cc (v.orphan_has_pod p e).1)
    ],
  )

  -- The three deletions of the first part of updatePod.
  abbrev erased : String → SchedulerCache N → SchedulerCache N
  erased k c = record c {
    pods_map = delete k c.pods_map;
    orphaned_pods = delete k c.orphaned_pods;
    assigned_pods = delete k c.assigned_pods;
  }

  Detached-unknown :
      {c : SchedulerCache N} {k : String} → IsSound c → lookup k c.pods_map ≡ none → Detached k c c
  Detached-unknown {c} {k} v h =
      let (a, o) = unknown_pod (v.pod_at k) h in
      record {
        named = v.node_at;
        frame = λ j e. Frame-refl j c;
        no_pod = h;
        no_assigned = a;
        no_orphan = o;
        still_assumed = refl;
        off = λ n m e. (v.pod_at k).on_no_other n m (ground arith) e;
        same_nodes = λ n. refl;
      }

  Detached-erased :
      {c : SchedulerCache N} {k : String}
      → IsSound c
      → lookup k c.assigned_pods ≡ none
      → Detached k c (erased k c)
  Detached-erased {c} {k} v h = record {
    named = v.node_at;
    frame = λ j e. record {
      same_pod = lookup-delete_ne k j c.pods_map e;
      same_assigned = lookup-delete_ne k j c.assigned_pods e;
      same_assumed = refl;
      same_orphan = lookup-delete_ne k j c.orphaned_pods e;
      same_on = λ n. refl;
    };
    no_pod = lookup-delete_self k c.pods_map;
    no_assigned = lookup-delete_self k c.assigned_pods;
    no_orphan = lookup-delete_self k c.orphaned_pods;
    still_assumed = refl;
    off = λ n m e. (v.pod_at k).on_no_other n m (ground arith) e;
    same_nodes = λ n. refl;
  }

  Detached-left :
      {c : SchedulerCache N} (pod curr : Pod) (n : String) (info : N)
      → IsSound c
      → lookup n c.nodes_map ≡ some info
      → lookup curr.uid c.assigned_pods ≡ some n
      → curr.uid ≢ ""
      → Detached curr.uid c (erased curr.uid (left pod curr n info c))
  unfolding reset_affinity set_info
  Detached-left {c} pod curr n info v h a u =
      let k = curr.uid in
      record {
        named =
            AllNamed-insert c.nodes_map n (remove_pod_info curr info) v.node_at
              (IsNamed-remove_pod curr n info (v.node_at n info h));
        frame = λ j e. record {
          same_pod = lookup-delete_ne k j c.pods_map e;
          same_assigned = lookup-delete_ne k j c.assigned_pods e;
          same_assumed = refl;
          same_orphan = lookup-delete_ne k j c.orphaned_pods e;
          same_on = λ m. ground (arith, on_node-left pod curr j m n info c u h);
        };
        no_pod = lookup-delete_self k c.pods_map;
        no_assigned = lookup-delete_self k c.assigned_pods;
        no_orphan = lookup-delete_self k c.orphaned_pods;
        still_assumed = refl;
        off = λ m i e. ground (
          arith,
          on_node-left pod curr k m n info c u h,
          (v.pod_at k).on_own n a,
          (v.pod_at k).on_no_other m i,
          eq_iff n m,
          eq_iff k k,
        );
        same_nodes = λ m.
            ground (arith, lookup-insert n (remove_pod_info curr info) m c.nodes_map, eq_iff n m);
      }

  pub on_node-some :
      (k n : String) (m : ℕ) (c : SchedulerCache N)
      → on_node k n c ≡ some m
      → (info : N) × (lookup n c.nodes_map ≡ some info)
  on_node-some k n m c h = elim (Option-cases (lookup n c.nodes_map)) [
    | inl e ↦ absurd (ground arith)
    | inr found ↦ found
  ]

  remove_current-assigned :
      (c : SchedulerCache N) (pod curr : Pod) (n : String) (info : N)
      → lookup pod.uid c.assigned_pods ≡ some n
      → lookup n c.nodes_map ≡ some info
      → IsNamed n info
      → remove_current pod (some curr) c
        ≡ some (erased pod.uid (left pod curr n info c), keep_assumed pod n c)
  unfolding remove_current keep_assumed reset_affinity set_info
  remove_current-assigned c pod curr n info a h w =
      let key = pod.uid in
      let c₁ = record c {
        pods_map = delete key c.pods_map;
        orphaned_pods = delete key c.orphaned_pods;
      } in
      ground (arith, leave_node_lem pod curr n info c₁ h w)

  -- The first part of updatePod returns, with the pod detached.
  pub remove_current_lem :
      {c : SchedulerCache N} (pod : Pod)
      → IsSound c
      → pod.uid ≢ ""
      → (c₁ : SchedulerCache N) × (remove_current pod (lookup pod.uid c.pods_map) c
          ≡ some (c₁, effective pod c))
        × Detached pod.uid c c₁
  unfolding remove_current keep_assumed
  remove_current_lem {c} pod v u = elim (Option-cases (lookup pod.uid c.pods_map)) [
    | inl absent ↦
        let (a, _) = unknown_pod (v.pod_at pod.uid) absent in
        (c, ground arith, Detached-unknown v absent)
    | inr (curr, found) ↦ elim (Option-cases (lookup pod.uid c.assigned_pods)) [
      | inl a ↦ (erased pod.uid c, ground arith, Detached-erased v a)
      | inr (n, a) ↦
          let (info, h) = on_node-some pod.uid n 1 c ((v.pod_at pod.uid).on_own n a) in
          let same : curr.uid ≡ pod.uid = ((v.pod_at pod.uid).pod_has_uid curr found).0 in
          (
            erased pod.uid (left pod curr n info c),
            ground (arith, remove_current-assigned c pod curr n info a h (v.node_at n info h)),
            subst (λ k. Detached k c (erased k (left pod curr n info c))) same
                (Detached-left pod curr n info v h (ground arith) (ground arith)),
          )
    ]
  ]
