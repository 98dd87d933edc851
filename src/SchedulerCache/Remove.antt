-- ===== src/SchedulerCache/Remove.antt =====
-- removePod: the pod leaves every map and its node, and nothing else changes.
use yunikorn_k8shim.Prelude.{
  ℕ, String, ◌≡◌, ◌≢◌, false, none, some, ◌==◌, eq_iff, arith, Option-cases, inl, inr, ◌⊎◌, refl,
  String-cases, subst,
}
use yunikorn_k8shim.Prelude.Dict.{lookup, delete, lookup-delete, lookup-delete_self}
use yunikorn_k8shim.Pod.{Pod}
use yunikorn_k8shim.SchedulerCache.NodeInfo.{NodeInfoApi}
use yunikorn_k8shim.SchedulerCache.Defs.{SchedulerCache, recount, set_info, remove_pod}
use yunikorn_k8shim.SchedulerCache.Invariant.{on_node, PodInv, IsSound, AllNamed}
use yunikorn_k8shim.SchedulerCache.Frame.{
  Frame, Frame-PodInv, IsNamed-remove_pod, AllNamed-insert, update_pvc_ref_counts_lem,
  on_node-set_info,
}
use yunikorn_k8shim.SchedulerCache.Update.{on_node-some}

module _ {N : Type 0} ⦃api : NodeInfoApi N⦄ where
  open api use {pods, remove_pod_info, count-remove_pod}

  -- The UID is nowhere in the cache; all else is as it was.
  pub record Gone (key : String) (c c' : SchedulerCache N) : Type 0 where
    pub named : AllNamed c'.nodes_map
    pub frame : (k : String) → (key == k) ≡ false → Frame k c c'
    pub no_pod : lookup key c'.pods_map ≡ none
    pub no_assigned : lookup key c'.assigned_pods ≡ none
    pub no_assumed : lookup key c'.assumed_pods ≡ none
    pub no_orphan : lookup key c'.orphaned_pods ≡ none
    pub off : (n : String) (m : ℕ) → on_node key n c' ≡ some m → m ≡ 0

  -- What removePod leaves of a cache from whose node the pod was taken.
  abbrev cleared : String → SchedulerCache N → SchedulerCache N
  cleared k c = record c {
    pods_map = delete k c.pods_map;
    assigned_pods = delete k c.assigned_pods;
    assumed_pods = delete k c.assumed_pods;
    orphaned_pods = delete k c.orphaned_pods;
    nodes_info_pods_with_affinity = none;
    nodes_info_pods_with_req_anti_affinity = none;
  }

  abbrev taken : Pod → String → N → SchedulerCache N → SchedulerCache N
  taken pod n info c =
      let info' = remove_pod_info pod info in
      let c' = set_info n info' c in
      record c' { pvc_ref_counts = recount n info' false c'.pvc_ref_counts }

  Gone-cleared :
      {c : SchedulerCache N} (c₁ : SchedulerCache N) (k : String)
      → AllNamed c₁.nodes_map
      → c₁.pods_map ≡ c.pods_map
      → c₁.assigned_pods ≡ c.assigned_pods
      → c₁.assumed_pods ≡ c.assumed_pods
      → c₁.orphaned_pods ≡ c.orphaned_pods
      → ((j n : String) → (k == j) ≡ false → on_node j n c₁ ≡ on_node j n c)
      → ((n : String) (m : ℕ) → on_node k n c₁ ≡ some m → m ≡ 0)
      → Gone k c (cleared k c₁)
  Gone-cleared {c} c₁ k named e₁ e₂ e₃ e₄ on off = record {
    named = named;
    frame = λ j e. record {
      same_pod = ground (arith, lookup-delete k j c₁.pods_map);
      same_assigned = ground (arith, lookup-delete k j c₁.assigned_pods);
      same_assumed = ground (arith, lookup-delete k j c₁.assumed_pods);
      same_orphan = ground (arith, lookup-delete k j c₁.orphaned_pods);
      same_on = λ n. on j n e;
    };
    no_pod = lookup-delete_self k c₁.pods_map;
    no_assigned = lookup-delete_self k c₁.assigned_pods;
    no_assumed = lookup-delete_self k c₁.assumed_pods;
    no_orphan = lookup-delete_self k c₁.orphaned_pods;
    off = off;
  }

  on_node-taken :
      (pod : Pod) (k m n : String) (info : N) (c : SchedulerCache N)
      → pod.uid ≢ ""
      → lookup n c.nodes_map ≡ some info
      → (n == m) ≡ false ⊎ (pod.uid == k) ≡ false
      → on_node k m (taken pod n info c) ≡ on_node k m c
  on_node-taken pod k m n info c u h other = ground (
    arith,
    on_node-set_info k m n (remove_pod_info pod info) c,
    count-remove_pod pod k info u,
    eq_iff n m,
  )

  Gone-taken :
      {c : SchedulerCache N} (pod : Pod) (n : String) (info : N)
      → IsSound c
      → lookup n c.nodes_map ≡ some info
      → lookup pod.uid c.assigned_pods ≡ some n
      → pod.uid ≢ ""
      → Gone pod.uid c (cleared pod.uid (taken pod n info c))
  unfolding set_info
  Gone-taken {c} pod n info v h a u =
      Gone-cleared (taken pod n info c) pod.uid
        (AllNamed-insert c.nodes_map n (remove_pod_info pod info) v.node_at
          (IsNamed-remove_pod pod n info (v.node_at n info h)))
        refl refl refl refl (λ j m e. on_node-taken pod j m n info c u h (inr e))
        (λ m i e. ground (
          arith,
          on_node-set_info pod.uid m n (remove_pod_info pod info) c,
          count-remove_pod pod pod.uid info u,
          (v.pod_at pod.uid).on_own n a,
          (v.pod_at pod.uid).on_no_other m i,
          eq_iff n m,
          eq_iff pod.uid pod.uid,
        ))

  -- From a sound cache removePod on a pod that has a UID returns: the node of an assigned pod is
  -- always there. The UID is then nowhere, on no node either, and no other UID is touched.
  pub remove_pod_lem :
      (pod : Pod) (c : SchedulerCache N)
      → IsSound c
      → pod.uid ≢ ""
      → (c' : SchedulerCache N) × (remove_pod pod c ≡ some c') × Gone pod.uid c c'
  unfolding remove_pod
  remove_pod_lem pod c v u = elim (Option-cases (lookup pod.uid c.assigned_pods)) [
    | inl a ↦ (
      cleared pod.uid c,
      ground arith,
      Gone-cleared c pod.uid v.node_at refl refl refl refl (λ j n e. refl)
          (λ n m e. (v.pod_at pod.uid).on_no_other n m (ground arith) e),
    )
    | inr (n, a) ↦
        let (info, h) = on_node-some pod.uid n 1 c ((v.pod_at pod.uid).on_own n a) in
        (
          cleared pod.uid (taken pod n info c),
          ground (
            arith,
            update_pvc_ref_counts_lem (remove_pod_info pod info) false
                (set_info n (remove_pod_info pod info) c) n
                (IsNamed-remove_pod pod n info (v.node_at n info h)),
          ),
          Gone-taken pod n info v h a u,
        )
  ]

  -- A cache from which a UID is gone stays valid.
  pub Gone-IsSound : {c c' : SchedulerCache N} (k : String) → IsSound c → Gone k c c' → IsSound c'
  Gone-IsSound {c} {c'} k v g = record {
    node_at = g.named;
    pod_at = λ j. elim (String-cases k j) [
      | inr e ↦ Frame-PodInv (g.frame j e) (v.pod_at j)
      | inl e ↦ subst (PodInv c') e (record {
        on_own = λ n a. absurd (cc g.no_assigned);
        on_no_other = λ n m a h. g.off n m h;
        assigned_has_pod = λ n a. absurd (cc g.no_assigned);
        pod_has_uid = λ p h. absurd (cc g.no_pod);
        orphan_has_pod = λ p h. absurd (cc g.no_orphan);
      })
    ];
  }
