-- ===== src/SchedulerCache/Settle.antt =====
-- updatePod as a whole: it returns, puts the pod where it belongs, and keeps the cache valid.
use yunikorn_k8shim.Prelude.{
  ◌≡◌, ◌≢◌, true, false, not, ◌&&◌, none, some, sym, eq_iff, arith, Option-cases, Bool-cases, inl,
  inr, String-cases, subst,
}
use yunikorn_k8shim.Prelude.Dict.{lookup, insert, delete, lookup-delete, lookup-insert}
use yunikorn_k8shim.Pod.{Pod, wants_node}
use yunikorn_k8shim.SchedulerCache.NodeInfo.{NodeInfoApi, count}
use yunikorn_k8shim.SchedulerCache.Defs.{
  SchedulerCache, settle, join_node, assign, store_pod, update_pod, keep_assumed,
}
use yunikorn_k8shim.SchedulerCache.Invariant.{PodInv, IsSound, AllNamed}
use yunikorn_k8shim.SchedulerCache.Frame.{Frame-PodInv, none-on_node}
use yunikorn_k8shim.SchedulerCache.Update.{Detached, effective, remove_current_lem}
use yunikorn_k8shim.SchedulerCache.Place.{is_known, Placed, joined, join_node-known, Placed-joined}

module _ {N : Type 0} ⦃api : NodeInfoApi N⦄ where
  open api use {pods}

  abbrev orphaned : Pod → SchedulerCache N → SchedulerCache N
  orphaned p c = record c { orphaned_pods = insert p.uid p c.orphaned_pods }

  Placed-orphaned :
      {c c₁ : SchedulerCache N} (p : Pod)
      → Detached p.uid c c₁
      → wants_node p ≡ true
      → lookup p.node_name c₁.nodes_map ≡ none
      → Placed p c (store_pod p (orphaned p (settle p c₁)))
  unfolding settle store_pod
  Placed-orphaned {c} {c₁} p d w h =
      let same : is_known p.node_name c₁ ≡ is_known p.node_name c = d.same_nodes p.node_name in
      record {
        named = subst AllNamed (ground arith) d.named;
        frame = λ k e. record {
          same_pod = ground (arith, (d.frame k e).same_pod, lookup-insert p.uid p k c₁.pods_map);
          same_assigned = ground (arith, (d.frame k e).same_assigned);
          same_assumed =
              ground (arith, (d.frame k e).same_assumed, lookup-delete p.uid k c₁.assumed_pods);
          same_orphan =
              ground (arith, (d.frame k e).same_orphan, lookup-insert p.uid p k c₁.orphaned_pods);
          same_on = λ m. ground (arith, (d.frame k e).same_on m);
        };
        now_pod = ground (arith, lookup-insert p.uid p p.uid c₁.pods_map, eq_iff p.uid p.uid);
        now_assumed =
            ground (
              arith,
              d.still_assumed,
              lookup-delete p.uid p.uid c₁.assumed_pods,
              eq_iff p.uid p.uid,
            );
        now_assigned = ground (arith, d.no_assigned);
        now_orphan =
            ground (arith, lookup-insert p.uid p p.uid c₁.orphaned_pods, eq_iff p.uid p.uid);
        now_on = λ n m e.
            ground (arith, d.off n m, eq_iff p.node_name n, none-on_node p.uid p.node_name c₁ h);
        same_nodes = λ n. ground (arith, d.same_nodes n);
      }

  Placed-waiting :
      {c c₁ : SchedulerCache N} (p : Pod)
      → Detached p.uid c c₁
      → wants_node p ≡ false
      → Placed p c (store_pod p (settle p c₁))
  unfolding settle store_pod
  Placed-waiting {c} {c₁} p d w = record {
    named = subst AllNamed (ground arith) d.named;
    frame = λ k e. record {
      same_pod = ground (
        arith,
        (d.frame k e).same_pod,
        lookup-insert p.uid p k c₁.pods_map,
        lookup-delete p.uid k c₁.pods_map,
      );
      same_assigned =
          ground (arith, (d.frame k e).same_assigned, lookup-delete p.uid k c₁.assigned_pods);
      same_assumed = ground (
        arith,
        (d.frame k e).same_assumed,
        lookup-delete p.uid k c₁.assumed_pods,
        lookup-delete p.uid k (delete p.uid c₁.assumed_pods),
      );
      same_orphan =
          ground (arith, (d.frame k e).same_orphan, lookup-delete p.uid k c₁.orphaned_pods);
      same_on = λ m. ground (arith, (d.frame k e).same_on m);
    };
    now_pod = ground (
      arith,
      lookup-insert p.uid p p.uid c₁.pods_map,
      lookup-delete p.uid p.uid c₁.pods_map,
      eq_iff p.uid p.uid,
    );
    now_assumed = ground (
      arith,
      d.still_assumed,
      lookup-delete p.uid p.uid c₁.assumed_pods,
      lookup-delete p.uid p.uid (delete p.uid c₁.assumed_pods),
      eq_iff p.uid p.uid,
    );
    now_assigned =
        ground
          (arith, d.no_assigned, lookup-delete p.uid p.uid c₁.assigned_pods, eq_iff p.uid p.uid);
    now_orphan =
        ground (arith, d.no_orphan, lookup-delete p.uid p.uid c₁.orphaned_pods, eq_iff p.uid p.uid);
    now_on = λ n m e. ground (arith, d.off n m);
    same_nodes = λ n. ground (arith, d.same_nodes n);
  }

  same_nodes-settle : (p : Pod) (c : SchedulerCache N) → (settle p c).nodes_map ≡ c.nodes_map
  unfolding settle
  same_nodes-settle p c = ground arith

  -- The second and third parts of updatePod return, with the pod in its place.
  place_lem :
      {c c₁ : SchedulerCache N} (p : Pod)
      → Detached p.uid c c₁
      → p.uid ≢ ""
      → (c₂ : SchedulerCache N) × (assign p (settle p c₁)
          ≡ some (c₂, not (wants_node p && not (is_known p.node_name c))))
        × Placed p c (store_pod p c₂)
  unfolding assign join_node
  place_lem {c} {c₁} p d u =
      let same : is_known p.node_name c₁ ≡ is_known p.node_name c = d.same_nodes p.node_name in
      elim (Bool-cases (wants_node p)) [
        | inr w ↦ (settle p c₁, ground arith, Placed-waiting p d w)
        | inl w ↦ elim (Option-cases (lookup p.node_name c₁.nodes_map)) [
          | inl h ↦ (
            orphaned p (settle p c₁),
            ground (arith, same_nodes-settle p c₁),
            Placed-orphaned p d w h,
          )
          | inr (info, h) ↦ (
            joined p info (settle p c₁),
            ground (
              arith,
              same_nodes-settle p c₁,
              join_node-known p info (settle p c₁) (ground (arith, same_nodes-settle p c₁))
                  (d.named p.node_name info h) u w,
            ),
            Placed-joined p info d w h u,
          )
        ]
      ]

  pub effective-uid : (pod : Pod) (c : SchedulerCache N) → (effective pod c).uid ≡ pod.uid
  unfolding keep_assumed
  effective-uid pod c = ground arith

  -- From a sound cache, updatePod on a pod that has a UID returns: no nil node is dereferenced. A
  -- pod without a node name that is assigned and assumed keeps the node it is assigned to, any
  -- other pod is taken as given. That version is put where it belongs in every map and on its node
  -- alone, no other pod is touched, and the result is false exactly when the pod wants a node that
  -- the cache does not have.
  pub update_pod_lem :
      (pod : Pod) (c : SchedulerCache N)
      → IsSound c
      → pod.uid ≢ ""
      → (c' : SchedulerCache N) × (update_pod pod c
          ≡ some (
            c',
            not (wants_node (effective pod c) && not (is_known (effective pod c).node_name c)),
          ))
        × Placed (effective pod c) c c'
  unfolding update_pod
  update_pod_lem pod c v u =
      let p = effective pod c in
      let (c₁, removed, d) = remove_current_lem pod v u in
      let e : pod.uid ≡ p.uid = sym (effective-uid pod c) in
      let (c₂, placed, post) =
        place_lem p (subst (λ k. Detached k c c₁) e d) (subst (λ k. k ≢ "") e u) in
      (store_pod p c₂, rw removed (rw placed), post)

  -- A pod that was placed satisfies the invariant, and so does the whole cache.
  pub Placed-IsSound :
      {c c' : SchedulerCache N} (p : Pod) → IsSound c → Placed p c c' → p.uid ≢ "" → IsSound c'
  Placed-IsSound {c} {c'} p v post u = record {
    node_at = post.named;
    pod_at = λ k. elim (String-cases p.uid k) [
      | inr e ↦ Frame-PodInv (post.frame k e) (v.pod_at k)
      | inl e ↦ subst (PodInv c') e (record {
        on_own = λ n a. elim (Option-cases (lookup n c'.nodes_map)) [
          | inl none_there ↦ absurd (ground (arith, post.now_assigned, post.same_nodes n))
          | inr (info, h) ↦ ground (
            arith,
            post.now_assigned,
            post.now_on n (count p.uid (pods info)),
            eq_iff p.node_name n,
          )
        ];
        on_no_other = λ n m a h.
            ground (
              arith,
              post.now_on n m h,
              post.now_assigned,
              post.same_nodes n,
              eq_iff p.node_name n,
            );
        assigned_has_pod = λ n a.
            (p, ground (arith, post.now_pod, post.now_assigned), ground (arith, post.now_assigned));
        pod_has_uid = λ q h. (ground (arith, post.now_pod), u);
        orphan_has_pod = λ q h. (
          p,
          ground (arith, post.now_pod, post.now_orphan),
          ground (arith, post.now_assigned, post.now_orphan),
          ground (arith, post.now_orphan),
          ground (arith, post.now_orphan),
        );
      })
    ];
  }
