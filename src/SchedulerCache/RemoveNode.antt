-- ===== src/SchedulerCache/RemoveNode.antt =====
-- removeNode.
use yunikorn_k8shim.Prelude.{
  ◌≤◌, String, ◌≡◌, ◌≢◌, true, false, none, some, List, [], ◌∷◌, ◌==◌, eq_iff, arith, if◌then◌else◌,
  Option-cases, Bool-cases, inl, inr, String-cases, ◌⊎◌,
}
use yunikorn_k8shim.Prelude.Dict.{lookup, delete, lookup-delete}
use yunikorn_k8shim.Pod.{Pod, with_node}
use yunikorn_k8shim.SchedulerCache.NodeInfo.{Node, NodeInfoApi, count}
use yunikorn_k8shim.SchedulerCache.Defs.{SchedulerCache, recount}
use yunikorn_k8shim.SchedulerCache.Nodes.{release_pods, remove_node}
use yunikorn_k8shim.SchedulerCache.Invariant.{on_node, PodInv, IsSound}
use yunikorn_k8shim.SchedulerCache.Frame.{update_pvc_ref_counts_lem}
use yunikorn_k8shim.SchedulerCache.Release.{
  pod_of, count-pod_of, pod_of-belongs, is_assumed, unassumed, release_pods-Released,
  release_pods-nodes_map, release_pods-orphans,
}

pub pod_of-count :
    (k : String) (ps : List Pod) → count k ps ≡ 1 → (p : Pod) × (pod_of k ps ≡ some p)
pod_of-count k [] h = absurd (omega arith)
pod_of-count k (q ∷ ps) h = elim (String-cases q.uid k) [
  | inl e ↦ (q, ground (arith, eq_iff q.uid k))
  | inr e ↦ let (p, found) = pod_of-count k ps (ground arith) in (p, ground arith)
]

module _ {N : Type 0} ⦃api : NodeInfoApi N⦄ where
  open api use {node, pods}

  -- The cache before removeNode brings the counts up to date.
  abbrev unlinked : String → N → SchedulerCache N → SchedulerCache N
  unlinked n info c =
      let c₁ = (release_pods (pods info) (c, [])).0 in
      record c₁ {
        nodes_map = delete n c₁.nodes_map;
        nodes_info = none;
        nodes_info_pods_with_affinity = none;
        nodes_info_pods_with_req_anti_affinity = none;
      }

  -- What removeNode leaves when the node is there.
  abbrev without_node : String → N → SchedulerCache N → SchedulerCache N
  without_node n info c =
      let c₂ = unlinked n info c in
      record c₂ { pvc_ref_counts = recount n info true c₂.pvc_ref_counts }

  count-le_one :
      (n : String) (info : N) (c : SchedulerCache N)
      → IsSound c
      → lookup n c.nodes_map ≡ some info
      → (k : String) → count k (pods info) ≤ 1
  count-le_one n info c v h k = elim (Option-cases (lookup k c.assigned_pods)) [
    | inl e ↦ ground (arith, (v.pod_at k).on_no_other n (count k (pods info)))
    | inr (m, e) ↦ elim (String-cases m n) [
      | inl same ↦ ground (arith, (v.pod_at k).on_own n)
      | inr other ↦ ground (arith, (v.pod_at k).on_no_other n (count k (pods info)), eq_iff m n)
    ]
  ]

  -- The list of a node holds a pod exactly if the pod is assigned to the node.
  pub held_iff :
      (n : String) (info : N) (c : SchedulerCache N) (k : String)
      → IsSound c
      → lookup n c.nodes_map ≡ some info
      → ((lookup k c.assigned_pods ≡ some n) × ((p : Pod) × (pod_of k (pods info) ≡ some p)))
        ⊎ ((lookup k c.assigned_pods ≢ some n) × (pod_of k (pods info) ≡ none))
  held_iff n info c k v h = elim (Option-cases (lookup k c.assigned_pods)) [
    | inl e ↦ inr (
      λ x. cc,
      count-pod_of k (pods info) (ground (arith, (v.pod_at k).on_no_other n (count k (pods info)))),
    )
    | inr (m, e) ↦ elim (String-cases m n) [
      | inl same ↦
          inl (ground arith, pod_of-count k (pods info) (ground (arith, (v.pod_at k).on_own n)))
      | inr other ↦ inr (
        λ x. ground (arith, eq_iff m n),
        count-pod_of k (pods info)
            (ground (arith, (v.pod_at k).on_no_other n (count k (pods info)), eq_iff m n)),
      )
    ]
  ]

  on_node-without_node :
      (k m n : String) (info : N) (c : SchedulerCache N)
      → on_node k m (without_node n info c) ≡ (if n == m then none else on_node k m c)
  on_node-without_node k m n info c =
      ground (arith, release_pods-nodes_map (pods info) c [], lookup-delete n m c.nodes_map)

  PodInv-held :
      (n : String) (info : N) (c : SchedulerCache N) (k : String) (p : Pod)
      → IsSound c
      → lookup n c.nodes_map ≡ some info
      → lookup k c.assigned_pods ≡ some n
      → pod_of k (pods info) ≡ some p
      → PodInv (without_node n info c) k
  PodInv-held n info c k p v h a held =
      let w = v.pod_at k in
      let r = release_pods-Released k (pods info) c [] (count-le_one n info c v h k) in
      let (uid, here, wants) =
        pod_of-belongs n k (pods info) p (v.node_at n info h).pods_belong held in
      let (old, stored, _) = w.assigned_has_pod n a in
      let named = w.pod_has_uid old stored in
      let gone : lookup k (without_node n info c).assigned_pods ≡ none = ground arith in
      record {
        on_own = λ m e. absurd (cc);
        on_no_other = λ m i e on.
            ground (arith, on_node-without_node k m n info c, w.on_no_other m i, eq_iff n m);
        assigned_has_pod = λ m e. absurd (cc);
        pod_has_uid = λ q e. (ground arith, named.1);
        orphan_has_pod = λ q e. elim (Bool-cases (is_assumed k c)) [
          | inl assumed ↦
              let (q', _, none_there, _, _) = w.orphan_has_pod q (ground arith) in absurd (cc)
          | inr bound ↦ (old, ground arith, gone, ground arith, ground arith)
        ];
      }

  PodInv-free :
      (n : String) (info : N) (c : SchedulerCache N) (k : String)
      → IsSound c
      → lookup n c.nodes_map ≡ some info
      → lookup k c.assigned_pods ≢ some n
      → pod_of k (pods info) ≡ none
      → PodInv (without_node n info c) k
  PodInv-free n info c k v h a free =
      let w = v.pod_at k in
      let r = release_pods-Released k (pods info) c [] (count-le_one n info c v h k) in
      record {
        on_own = λ m e. ground (arith, on_node-without_node k m n info c, w.on_own m, eq_iff n m);
        on_no_other = λ m i e on.
            ground (arith, on_node-without_node k m n info c, w.on_no_other m i, eq_iff n m);
        assigned_has_pod = λ m e. ground (arith, w.assigned_has_pod m);
        pod_has_uid = λ q e. ground (arith, w.pod_has_uid q);
        orphan_has_pod = λ q e.
            let (q', stored, none_there, uid, wants) = w.orphan_has_pod q (ground arith) in
            (q', ground arith, ground arith, uid, wants);
      }

  pub without_node-IsSound :
      (n : String) (info : N) (c : SchedulerCache N)
      → IsSound c
      → lookup n c.nodes_map ≡ some info
      → IsSound (without_node n info c)
  without_node-IsSound n info c v h = record {
    node_at = λ m i e.
        v.node_at m i
          (ground (arith, release_pods-nodes_map (pods info) c [], lookup-delete n m c.nodes_map));
    pod_at = λ k. elim (held_iff n info c k v h) [
      | inl (a, (p, held)) ↦ PodInv-held n info c k p v h a held
      | inr (a, free) ↦ PodInv-free n info c k v h a free
    ];
  }

  -- What removing a node does to one UID.
  pub record NodeLeft (n : String) (c c' : SchedulerCache N) (k : String) : Type 0 where
    -- An assumed pod of the node is pending again: it has no node, and it is no orphan.
    pub pending_again :
        lookup k c.assigned_pods ≡ some n
        → is_assumed k c ≡ true
        → (p : Pod) × (lookup k c'.pods_map ≡ some (with_node p ""))
          × (lookup k c'.assigned_pods ≡ none)
          × (lookup k c'.assumed_pods ≡ none)
          × (lookup k c'.orphaned_pods ≡ none)
    -- Any other pod of the node is an orphan that waits for the node.
    pub orphan_now :
        lookup k c.assigned_pods ≡ some n
        → is_assumed k c ≡ false
        → (p : Pod) × (lookup k c'.orphaned_pods ≡ some p)
          × (p.node_name ≡ n)
          × (lookup k c'.assigned_pods ≡ none)
          × (lookup k c'.pods_map ≡ lookup k c.pods_map)
    -- A pod of another node, or of none, stands as it did.
    pub elsewhere :
        lookup k c.assigned_pods ≢ some n
        → (lookup k c'.pods_map ≡ lookup k c.pods_map)
          × (lookup k c'.assigned_pods ≡ lookup k c.assigned_pods)
          × (lookup k c'.assumed_pods ≡ lookup k c.assumed_pods)
          × (lookup k c'.orphaned_pods ≡ lookup k c.orphaned_pods)

  NodeLeft-without_node :
      (n : String) (info : N) (c : SchedulerCache N) (k : String)
      → IsSound c
      → lookup n c.nodes_map ≡ some info
      → NodeLeft n c (without_node n info c) k
  NodeLeft-without_node n info c k v h =
      let w = v.pod_at k in
      let r = release_pods-Released k (pods info) c [] (count-le_one n info c v h k) in
      elim (held_iff n info c k v h) [
        | inl (a, (p, held)) ↦
            let (uid, here, wants) =
              pod_of-belongs n k (pods info) p (v.node_at n info h).pods_belong held in
            let no_orphan : lookup k c.orphaned_pods ≡ none =
              (elim (Option-cases (lookup k c.orphaned_pods)) [
                | inl e ↦ e
                | inr (q, e) ↦ absurd (cc (w.orphan_has_pod q e).2)
              ]) in
            record {
              pending_again = λ b s. (p, ground arith, ground arith, ground arith, ground arith);
              orphan_now = λ b s. (p, ground arith, here, ground arith, ground arith);
              elsewhere = λ b. absurd (b a);
            }
        | inr (a, free) ↦ record {
          pending_again = λ b s. absurd (a b);
          orphan_now = λ b s. absurd (a b);
          elsewhere = λ b. (ground arith, ground arith, ground arith, ground arith);
        }
      ]

  -- From a sound cache removing a node that it has returns and keeps the cache sound. The node is
  -- gone and every other node stays. An assumed pod of the node is pending again, any other pod
  -- of it is an orphan, and no other pod is touched. The orphans are reported in the order of the
  -- node's list.
  pub remove_node_lem :
      (x : Node) (info : N) (c : SchedulerCache N)
      → IsSound c
      → lookup x.name c.nodes_map ≡ some info
      → (c' : SchedulerCache N) × (remove_node x c ≡ some (c', node info, unassumed c (pods info)))
        × IsSound c'
        × ((m : String)
            → lookup m c'.nodes_map ≡ (if x.name == m then none else lookup m c.nodes_map))
        × ((k : String) → NodeLeft x.name c c' k)
  unfolding remove_node
  remove_node_lem x info c v h = (
    without_node x.name info c,
    ground (
      arith,
      release_pods-orphans (pods info) c [] (count-le_one x.name info c v h),
      update_pvc_ref_counts_lem info true (unlinked x.name info c) x.name (v.node_at x.name info h),
    ),
    without_node-IsSound x.name info c v h,
    λ m.
        ground (arith, release_pods-nodes_map (pods info) c [], lookup-delete x.name m c.nodes_map),
    λ k. NodeLeft-without_node x.name info c k v h,
  )
