-- ===== src/SchedulerCache/Reach.antt =====
-- Every sequence of operations on the cache, from the empty one: none panics, and the cache that
-- they reach is valid.
use yunikorn_k8shim.Prelude.{
  all, ◌≡◌, ◌≢◌, refl, Bool, true, false, Option, some, List, [], ◌∷◌, ◌==◌, eq_iff, arith,
  Option-cases, inl, inr, ◌∙◌, ap, subst, sym, not,
}
use yunikorn_k8shim.Prelude.Dict.{lookup, delete}
use yunikorn_k8shim.Pod.{Pod}
use yunikorn_k8shim.SchedulerCache.NodeInfo.{Node, NodeInfoApi, PriorityClass}
use yunikorn_k8shim.SchedulerCache.Defs.{
  SchedulerCache, ◌>>=◌, new_scheduler_cache, update_pod, remove_pod, assume_pod, forget_pod,
}
use yunikorn_k8shim.SchedulerCache.Nodes.{
  update_node, remove_node, update_priority_class, remove_priority_class, get_nodes_info,
  get_nodes_info_pods_with_affinity, get_nodes_info_pods_with_req_anti_affinity,
}
use yunikorn_k8shim.SchedulerCache.Invariant.{count_in, AllNamed, IsValid}
use yunikorn_k8shim.SchedulerCache.Frame.{Frame-PodInv}
use yunikorn_k8shim.SchedulerCache.Remove.{remove_pod_lem, Gone-IsSound}
use yunikorn_k8shim.SchedulerCache.Assume.{forget_pod_lem, forgotten}
use yunikorn_k8shim.SchedulerCache.RemoveNode.{remove_node_lem}
use yunikorn_k8shim.SchedulerCache.Preserve.{
  Placed-OrphansWait, Gone-OrphansWait, update_pod-IsValid, IsValid-assumed,
  remove_node-OrphansWait, assume_pod-IsValid, remove_node-absent,
}
use yunikorn_k8shim.SchedulerCache.AddNode.{update_node_new, update_node_known}

-- The operations that change the cache.
pub data Op : Type 0 where
  op_update_pod op_remove_pod op_forget_pod : Pod → Op
  op_assume_pod : Pod → Bool → Op
  op_update_node op_remove_node : Node → Op
  op_update_priority_class op_remove_priority_class : PriorityClass → Op
  op_list_nodes op_list_affinity op_list_anti_affinity : Op

-- The pods that Kubernetes hands out have a UID.
abbrev pub has_uid : Op → Bool
has_uid (op_update_pod p) = not (p.uid == "")
has_uid (op_remove_pod p) = not (p.uid == "")
has_uid (op_forget_pod p) = not (p.uid == "")
has_uid (op_assume_pod p _) = not (p.uid == "")
has_uid _ = true

-- The operations that leave the pods and the nodes alone.
abbrev is_list : Op → Bool
is_list (op_update_priority_class _) = true
is_list (op_remove_priority_class _) = true
is_list op_list_nodes = true
is_list op_list_affinity = true
is_list op_list_anti_affinity = true
is_list _ = false

module _ {N : Type 0} ⦃api : NodeInfoApi N⦄ where
  unfoldable pub run_op : Op → SchedulerCache N → Option (SchedulerCache N)
  run_op (op_update_pod p) c = do (c', _) ← update_pod p c; some c'
  run_op (op_remove_pod p) c = remove_pod p c
  run_op (op_forget_pod p) c = forget_pod p c
  run_op (op_assume_pod p b) c = assume_pod p b c
  run_op (op_update_node x) c = do (c', _, _) ← update_node x c; some c'
  run_op (op_remove_node x) c = do (c', _, _) ← remove_node x c; some c'
  run_op (op_update_priority_class pc) c = some (update_priority_class pc c)
  run_op (op_remove_priority_class pc) c = some (remove_priority_class pc c)
  run_op op_list_nodes c = some (get_nodes_info c).0
  run_op op_list_affinity c = some (get_nodes_info_pods_with_affinity c).0
  run_op op_list_anti_affinity c = some (get_nodes_info_pods_with_req_anti_affinity c).0

  unfoldable pub run_ops : List Op → SchedulerCache N → Option (SchedulerCache N)
  run_ops [] c = some c
  run_ops (o ∷ os) c = do c' ← run_op o c; run_ops os c'

  -- The invariant reads neither the priority classes nor the lists of nodes.
  abbrev SameCore : SchedulerCache N → SchedulerCache N → Type 0
  SameCore c c' =
      (c'.nodes_map ≡ c.nodes_map)
      × (c'.pods_map ≡ c.pods_map)
      × (c'.assigned_pods ≡ c.assigned_pods)
      × (c'.assumed_pods ≡ c.assumed_pods)
      × (c'.orphaned_pods ≡ c.orphaned_pods)

  SameCore-IsValid : (c c' : SchedulerCache N) → IsValid c → SameCore c c' → IsValid c'
  SameCore-IsValid c c' v (e₁, e₂, e₃, e₄, e₅) = record {
    sound = record {
      node_at = subst AllNamed (sym e₁) v.sound.node_at;
      pod_at = λ k.
          Frame-PodInv
            (record {
              same_pod = ap (lookup k) e₂;
              same_assigned = ap (lookup k) e₃;
              same_assumed = ap (lookup k) e₄;
              same_orphan = ap (lookup k) e₅;
              same_on = λ n. ap (λ d. count_in k (lookup n d)) e₁;
            })
            (v.sound.pod_at k);
    };
    orphans_wait =
        λ k p o. ap (lookup p.node_name) e₁ ∙ v.orphans_wait k p (sym (ap (lookup k) e₅) ∙ o);
  }

  run_list-SameCore :
      (o : Op) (c : SchedulerCache N)
      → is_list o ≡ true
      → (c' : SchedulerCache N) × (run_op o c ≡ some c') × SameCore c c'
  unfolding run_op get_nodes_info get_nodes_info_pods_with_affinity
      get_nodes_info_pods_with_req_anti_affinity update_priority_class remove_priority_class
  run_list-SameCore (op_update_priority_class pc) c h = (_, refl, (refl, refl, refl, refl, refl))
  run_list-SameCore (op_remove_priority_class pc) c h = (_, refl, (refl, refl, refl, refl, refl))
  run_list-SameCore op_list_nodes c h = (_, refl, ground arith)
  run_list-SameCore op_list_affinity c h = (_, refl, ground arith)
  run_list-SameCore op_list_anti_affinity c h = (_, refl, ground arith)
  run_list-SameCore _ c h = absurd (ground arith)

  -- Each operation returns from a valid cache, and the new cache is valid.
  pub run_op-IsValid :
      (o : Op) (c : SchedulerCache N)
      → IsValid c
      → has_uid o ≡ true
      → (c' : SchedulerCache N) × (run_op o c ≡ some c') × IsValid c'
  unfolding run_op
  run_op-IsValid (op_update_pod p) c v u =
      let (c', result, returns, v') = update_pod-IsValid p c v (ground (arith, eq_iff p.uid "")) in
      (c', rw returns, v')
  run_op-IsValid (op_remove_pod p) c v u =
      let (c', returns, g) = remove_pod_lem p c v.sound (ground (arith, eq_iff p.uid "")) in
      (
        c',
        returns,
        record {
          sound = Gone-IsSound p.uid v.sound g;
          orphans_wait = Gone-OrphansWait p.uid v.orphans_wait g;
        },
      )
  run_op-IsValid (op_forget_pod p) c v u =
      let named : p.uid ≢ "" = ground (arith, eq_iff p.uid "") in
      let (c', returns, sound, post) = forget_pod_lem p c v.sound named in
      (
        c',
        returns,
        record {
          sound = sound;
          orphans_wait =
              Placed-OrphansWait (forgotten p c)
                (IsValid-assumed (delete p.uid c.assumed_pods) v).orphans_wait post;
        },
      )
  run_op-IsValid (op_assume_pod p b) c v u =
      assume_pod-IsValid p b c v (ground (arith, eq_iff p.uid ""))
  run_op-IsValid (op_update_node x) c v u = elim (Option-cases (lookup x.name c.nodes_map)) [
    | inl absent ↦
        let (c', adopted, returns, added) = update_node_new x c v absent in
        (c', rw returns, added.valid)
    | inr (info, found) ↦
        let (c', returns, v', _, _) = update_node_known x info c v found in (c', rw returns, v')
  ]
  run_op-IsValid (op_remove_node x) c v u = elim (Option-cases (lookup x.name c.nodes_map)) [
    | inl absent ↦ (c, rw (remove_node-absent x c absent), v)
    | inr (info, found) ↦
        let (c', returns, sound, nodes, left) = remove_node_lem x info c v.sound found in
        (
          c',
          rw returns,
          record {
            sound = sound;
            orphans_wait = remove_node-OrphansWait x.name v.orphans_wait nodes left;
          },
        )
  ]
  run_op-IsValid (op_update_priority_class pc) c v u =
      let (c', returns, same) = run_list-SameCore (op_update_priority_class pc) c refl in
      (c', returns, SameCore-IsValid c c' v same)
  run_op-IsValid (op_remove_priority_class pc) c v u =
      let (c', returns, same) = run_list-SameCore (op_remove_priority_class pc) c refl in
      (c', returns, SameCore-IsValid c c' v same)
  run_op-IsValid op_list_nodes c v u =
      let (c', returns, same) = run_list-SameCore op_list_nodes c refl in
      (c', returns, SameCore-IsValid c c' v same)
  run_op-IsValid op_list_affinity c v u =
      let (c', returns, same) = run_list-SameCore op_list_affinity c refl in
      (c', returns, SameCore-IsValid c c' v same)
  run_op-IsValid op_list_anti_affinity c v u =
      let (c', returns, same) = run_list-SameCore op_list_anti_affinity c refl in
      (c', returns, SameCore-IsValid c c' v same)

  pub new_scheduler_cache-IsValid : IsValid (new_scheduler_cache {N = N})
  unfolding new_scheduler_cache lookup
  new_scheduler_cache-IsValid = record {
    sound = record {
      node_at = λ n info h. absurd (cc);
      pod_at = λ k. record {
        on_own = λ n h. absurd (cc);
        on_no_other = λ n m h on. absurd (cc);
        assigned_has_pod = λ n h. absurd (cc);
        pod_has_uid = λ p h. absurd (cc);
        orphan_has_pod = λ p h. absurd (cc);
      };
    };
    orphans_wait = λ k p h. absurd (cc);
  }

  run_ops-IsValid :
      (os : List Op) (c : SchedulerCache N)
      → IsValid c
      → all has_uid os ≡ true
      → (c' : SchedulerCache N) × (run_ops os c ≡ some c') × IsValid c'
  unfolding run_ops
  run_ops-IsValid [] c v u = (c, refl, v)
  run_ops-IsValid (o ∷ os) c v u =
      let (c₁, returns, v₁) = run_op-IsValid o c v (ground arith) in
      let (c', rest, v') = run_ops-IsValid os c₁ v₁ (ground arith) in (c', rw returns rest, v')

  -- Whatever operations are run on the empty cache, on pods that have UIDs, none panics and the
  -- cache that they reach is valid.
  pub run_ops-new_scheduler_cache :
      (os : List Op)
      → all has_uid os ≡ true
      → (c : SchedulerCache N) × (run_ops os new_scheduler_cache ≡ some c) × IsValid c
  run_ops-new_scheduler_cache os u =
      run_ops-IsValid os new_scheduler_cache new_scheduler_cache-IsValid u

  -- A cache that a run of operations ends in is valid.
  pub IsValid-of_run :
      (os : List Op) (c : SchedulerCache N)
      → all has_uid os ≡ true
      → run_ops os new_scheduler_cache ≡ some c
      → IsValid c
  IsValid-of_run os c u h =
      let (c', returns, v) = run_ops-new_scheduler_cache os u in
      let same : c' ≡ c = cc in subst IsValid same v
