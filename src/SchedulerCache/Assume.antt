-- ===== src/SchedulerCache/Assume.antt =====
-- assumePod and forgetPod.
use yunikorn_k8shim.Prelude.{
  ℕ, String, ◌≡◌, ◌≢◌, Bool, true, false, not, ◌&&◌, none, some, ◌==◌, eq_iff, arith, if◌then◌else◌,
  subst, sym, ◌∙◌,
}
use yunikorn_k8shim.Prelude.Dict.{
  Dict, lookup, insert, delete, lookup-insert_self, lookup-delete_self, lookup-insert_ne,
}
use yunikorn_k8shim.Pod.{Pod, with_node, is_pod_running, is_pod_terminated, is_assigned_pod}
use yunikorn_k8shim.SchedulerCache.NodeInfo.{NodeInfoApi}
use yunikorn_k8shim.SchedulerCache.Defs.{
  SchedulerCache, is_some, keep_assumed, update_pod, assume_pod, forget_pod,
}
use yunikorn_k8shim.SchedulerCache.Invariant.{on_node, IsSound}
use yunikorn_k8shim.SchedulerCache.Frame.{Frame}
use yunikorn_k8shim.SchedulerCache.Update.{effective}
use yunikorn_k8shim.SchedulerCache.Place.{is_known, Placed}
use yunikorn_k8shim.SchedulerCache.Settle.{update_pod_lem, Placed-IsSound}

module _ {N : Type 0} ⦃api : NodeInfoApi N⦄ where
  -- The invariant does not read the map of assumed pods.
  pub IsSound-assumed :
      {c : SchedulerCache N} (assumed : Dict Bool)
      → IsSound c
      → IsSound (record c { assumed_pods = assumed })
  IsSound-assumed assumed v = record {
    node_at = v.node_at;
    pod_at = λ k.
        let w = v.pod_at k in
        record {
          on_own = w.on_own;
          on_no_other = w.on_no_other;
          assigned_has_pod = w.assigned_has_pod;
          pod_has_uid = w.pod_has_uid;
          orphan_has_pod = w.orphan_has_pod;
        };
  }

  pub effective-has_node :
      (pod : Pod) (c : SchedulerCache N) → pod.node_name ≢ "" → effective pod c ≡ pod
  unfolding keep_assumed
  effective-has_node pod c h = ground (arith, eq_iff pod.node_name "")

  effective-not_assumed :
      (pod : Pod) (c : SchedulerCache N)
      → lookup pod.uid c.assumed_pods ≡ none
      → effective pod c ≡ pod
  unfolding keep_assumed
  effective-not_assumed pod c h = ground arith

  pub update_pod-as_given :
      (pod : Pod) (c : SchedulerCache N)
      → IsSound c
      → pod.uid ≢ ""
      → effective pod c ≡ pod
      → (c' : SchedulerCache N) × (result : Bool) × (update_pod pod c ≡ some (c', result))
        × Placed pod c c'
        × IsSound c'
  update_pod-as_given pod c v u e =
      let (c', returns, post) = update_pod_lem pod c v u in
      let post' : Placed pod c c' = subst (λ p. Placed p c c') e post in
      (c', _, returns, post', Placed-IsSound pod v post' u)

  -- From a sound cache, assuming a pod that has a UID, is not terminated and names a node that
  -- the cache has returns and keeps the cache sound. The pod is then kept as given, assigned to
  -- that node, listed there once and assumed with the given flag, and no other pod is touched.
  pub assume_pod_lem :
      (pod : Pod) (all_bound : Bool) (c : SchedulerCache N)
      → IsSound c
      → pod.uid ≢ ""
      → pod.node_name ≢ ""
      → is_pod_terminated pod ≡ false
      → is_known pod.node_name c ≡ true
      → (c' : SchedulerCache N) × (assume_pod pod all_bound c ≡ some c')
        × IsSound c'
        × (lookup pod.uid c'.pods_map ≡ some pod)
        × (lookup pod.uid c'.assigned_pods ≡ some pod.node_name)
        × (on_node pod.uid pod.node_name c' ≡ some 1)
        × (lookup pod.uid c'.assumed_pods ≡ some all_bound)
        × ((k : String) → (pod.uid == k) ≡ false → Frame k c c')
  unfolding assume_pod is_assigned_pod
  assume_pod_lem pod all_bound c v u s t known =
      let (c₁, result, returns, post, valid) =
        update_pod-as_given pod c v u (effective-has_node pod c s) in
      let assigned : lookup pod.uid c₁.assigned_pods ≡ some pod.node_name =
        ground (arith, post.now_assigned, eq_iff pod.node_name "") in
      (
        record c₁ { assumed_pods = insert pod.uid all_bound c₁.assumed_pods },
        rw returns,
        IsSound-assumed (insert pod.uid all_bound c₁.assumed_pods) valid,
        ground (arith, post.now_pod),
        assigned,
        (valid.pod_at pod.uid).on_own pod.node_name assigned,
        lookup-insert_self pod.uid all_bound c₁.assumed_pods,
        λ k e.
            let f = post.frame k e in
            record {
              same_pod = f.same_pod;
              same_assigned = f.same_assigned;
              same_assumed =
                  lookup-insert_ne pod.uid all_bound k c₁.assumed_pods e ∙ f.same_assumed;
              same_orphan = f.same_orphan;
              same_on = f.same_on;
            },
      )

  -- The version of the pod that forgetPod puts in the cache.
  abbrev pub forgotten : Pod → SchedulerCache N → Pod
  forgotten pod c =
      if is_some (lookup pod.uid c.assumed_pods) && not (pod.node_name == "")
      then with_node pod ""
      else pod

  pub forgotten-uid : (pod : Pod) (c : SchedulerCache N) → (forgotten pod c).uid ≡ pod.uid
  forgotten-uid pod c = ground arith

  pub forget_pod_lem :
      (pod : Pod) (c : SchedulerCache N)
      → IsSound c
      → pod.uid ≢ ""
      → (c' : SchedulerCache N) × (forget_pod pod c ≡ some c')
        × IsSound c'
        × Placed (forgotten pod c) (record c { assumed_pods = delete pod.uid c.assumed_pods }) c'
  unfolding forget_pod
  forget_pod_lem pod c v u =
      let q = forgotten pod c in
      let c₁ = record c { assumed_pods = delete pod.uid c.assumed_pods } in
      let same = forgotten-uid pod c in
      let gone : lookup q.uid c₁.assumed_pods ≡ none =
        subst (λ k. lookup k c₁.assumed_pods ≡ none) (sym same)
          (lookup-delete_self pod.uid c.assumed_pods) in
      let (c', result, returns, post, valid) =
        update_pod-as_given q c₁ (IsSound-assumed (delete pod.uid c.assumed_pods) v)
          (subst (λ k. k ≢ "") (sym same) u) (effective-not_assumed q c₁ gone) in
      (c', rw returns, valid, post)

  -- From a sound cache, forgetting an assumed pod that has a UID and is not terminated returns,
  -- keeps the cache sound and undoes the assignment: the pod is kept without a node, is assigned
  -- to none, is listed on none, is no orphan and is no longer assumed.
  pub forget_pod_reverts :
      (pod : Pod) (c : SchedulerCache N)
      → IsSound c
      → pod.uid ≢ ""
      → is_some (lookup pod.uid c.assumed_pods) ≡ true
      → is_pod_terminated pod ≡ false
      → (c' : SchedulerCache N) × (forget_pod pod c ≡ some c')
        × IsSound c'
        × (lookup pod.uid c'.pods_map ≡ some (with_node pod ""))
        × (lookup pod.uid c'.assigned_pods ≡ none)
        × ((n : String) (m : ℕ) → on_node pod.uid n c' ≡ some m → m ≡ 0)
        × (lookup pod.uid c'.orphaned_pods ≡ none)
        × (lookup pod.uid c'.assumed_pods ≡ none)
  unfolding is_assigned_pod is_pod_terminated is_pod_running
  forget_pod_reverts pod c v u a t =
      let (c', returns, valid, post) = forget_pod_lem pod c v u in
      let e : forgotten pod c ≡ with_node pod "" = ground (arith, eq_iff pod.node_name "") in
      let post' =
        subst (λ p. Placed p (record c { assumed_pods = delete pod.uid c.assumed_pods }) c') e
          post in
      (
        c',
        returns,
        valid,
        ground (arith, post'.now_pod),
        ground (arith, post'.now_assigned, eq_iff "" ""),
        λ n m on. ground (arith, post'.now_on n m on, eq_iff "" ""),
        ground (arith, post'.now_orphan, eq_iff "" ""),
        ground (arith, post'.now_assumed, lookup-delete_self pod.uid c.assumed_pods),
      )

  -- From a sound cache, forgetting a pod that has a UID and is not assumed, because it was bound
  -- already, returns, keeps the cache sound and keeps the assignment that the given version
  -- carries: if the pod is not terminated and names a node that the cache has, it is assigned to
  -- that node and listed there once.
  pub forget_pod_keeps :
      (pod : Pod) (c : SchedulerCache N)
      → IsSound c
      → pod.uid ≢ ""
      → lookup pod.uid c.assumed_pods ≡ none
      → is_pod_terminated pod ≡ false
      → pod.node_name ≢ ""
      → is_known pod.node_name c ≡ true
      → (c' : SchedulerCache N) × (forget_pod pod c ≡ some c')
        × IsSound c'
        × (lookup pod.uid c'.pods_map ≡ some pod)
        × (lookup pod.uid c'.assigned_pods ≡ some pod.node_name)
        × (on_node pod.uid pod.node_name c' ≡ some 1)
  unfolding is_assigned_pod
  forget_pod_keeps pod c v u a t s known =
      let (c', returns, valid, post) = forget_pod_lem pod c v u in
      let e : forgotten pod c ≡ pod = ground arith in
      let post' =
        subst (λ p. Placed p (record c { assumed_pods = delete pod.uid c.assumed_pods }) c') e
          post in
      let assigned : lookup pod.uid c'.assigned_pods ≡ some pod.node_name =
        ground (arith, post'.now_assigned, eq_iff pod.node_name "") in
      (
        c',
        returns,
        valid,
        ground (arith, post'.now_pod),
        assigned,
        (valid.pod_at pod.uid).on_own pod.node_name assigned,
      )
