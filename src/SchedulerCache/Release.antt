-- ===== src/SchedulerCache/Release.antt =====
-- The loop of removeNode over the pods of the node that goes.
use yunikorn_k8shim.Prelude.{
  ◌≤◌, String, ◌≡◌, refl, Bool, true, Option, none, some, List, [], ◌∷◌, ◌++◌, ◌==◌, eq_iff, arith,
  if◌then◌else◌, all, ◌∙◌, sym,
}
use mathlib.Core.List.{append-nil, append_assoc}
use yunikorn_k8shim.Prelude.Dict.{lookup, lookup-delete, lookup-insert}
use yunikorn_k8shim.Pod.{Pod, with_node, wants_node}
use yunikorn_k8shim.SchedulerCache.NodeInfo.{NodeInfoApi, count}
use yunikorn_k8shim.SchedulerCache.Defs.{SchedulerCache, is_some}
use yunikorn_k8shim.SchedulerCache.Nodes.{release_pod, release_pods}
use yunikorn_k8shim.SchedulerCache.Invariant.{belongs}

-- The pod of the list that has the UID.
abbrev pub pod_of : String → List Pod → Option Pod
pod_of k [] = none
pod_of k (p ∷ ps) = if p.uid == k then some p else pod_of k ps

pub count-pod_of : (k : String) (ps : List Pod) → count k ps ≡ 0 → pod_of k ps ≡ none
count-pod_of k [] h = refl
count-pod_of k (p ∷ ps) h = ground (arith, count-pod_of k ps)

pub pod_of-belongs :
    (n k : String) (ps : List Pod) (p : Pod)
    → all (belongs n) ps ≡ true
    → pod_of k ps ≡ some p
    → (p.uid ≡ k) × (p.node_name ≡ n) × (wants_node p ≡ true)
pod_of-belongs n k [] p h e = absurd (cc)
pod_of-belongs n k (q ∷ ps) p h e =
    ground (arith, pod_of-belongs n k ps p, eq_iff q.uid k, eq_iff q.node_name n)

module _ {N : Type 0} ⦃api : NodeInfoApi N⦄ where
  abbrev pub is_assumed : String → SchedulerCache N → Bool
  is_assumed k c = is_some (lookup k c.assumed_pods)

  -- The pods of the list that become orphans.
  abbrev pub unassumed : SchedulerCache N → List Pod → List Pod
  unassumed c [] = []
  unassumed c (p ∷ ps) = if is_assumed p.uid c then unassumed c ps else p ∷ unassumed c ps

  -- What the loop does to one UID.
  pub record Released (k : String) (ps : List Pod) (c c' : SchedulerCache N) : Type 0 where
    pub assigned :
        lookup k c'.assigned_pods
        ≡ (if is_some (pod_of k ps) then none else lookup k c.assigned_pods)
    pub assumed :
        lookup k c'.assumed_pods ≡ (if is_some (pod_of k ps) then none else lookup k c.assumed_pods)
    pub kept : lookup k c'.pods_map ≡ (elim (pod_of k ps) [
      | none ↦ lookup k c.pods_map
      | some p ↦
          if is_some (lookup k c.assumed_pods) then some (with_node p "") else lookup k c.pods_map
    ])
    pub orphan : lookup k c'.orphaned_pods ≡ (elim (pod_of k ps) [
      | none ↦ lookup k c.orphaned_pods
      | some p ↦ if is_some (lookup k c.assumed_pods) then lookup k c.orphaned_pods else some p
    ])

  release_pod-Released :
      (k : String) (p : Pod) (c : SchedulerCache N) (os : List Pod)
      → Released k (p ∷ []) c (release_pod p (c, os)).0
  unfolding release_pod
  release_pod-Released k p c os = record {
    assigned = ground (arith, lookup-delete p.uid k c.assigned_pods);
    assumed = ground (arith, lookup-delete p.uid k c.assumed_pods);
    kept = ground (arith, lookup-insert p.uid (with_node p "") k c.pods_map, eq_iff p.uid k);
    orphan = ground (arith, lookup-insert p.uid p k c.orphaned_pods, eq_iff p.uid k);
  }

  pub release_pods-Released :
      (k : String) (ps : List Pod) (c : SchedulerCache N) (os : List Pod)
      → count k ps ≤ 1
      → Released k ps c (release_pods ps (c, os)).0
  unfolding release_pods
  release_pods-Released k [] c os h = record {
    assigned = refl;
    assumed = refl;
    kept = refl;
    orphan = refl;
  }
  release_pods-Released k (p ∷ ps) c os h =
      let (c₁, os₁) = release_pod p (c, os) in
      let one = release_pod-Released k p c os in
      let rest = release_pods-Released k ps c₁ os₁ (omega arith) in
      record {
        assigned = ground (arith, count-pod_of k ps);
        assumed = ground (arith, count-pod_of k ps);
        kept = ground (arith, count-pod_of k ps);
        orphan = ground (arith, count-pod_of k ps);
      }

  -- The loop writes neither the nodes nor the counts of claims.
  pub release_pods-nodes_map :
      (ps : List Pod) (c : SchedulerCache N) (os : List Pod)
      → (release_pods ps (c, os)).0.nodes_map ≡ c.nodes_map
  unfolding release_pods release_pod
  release_pods-nodes_map [] c os = refl
  release_pods-nodes_map (p ∷ ps) c os =
      let (c₁, os₁) = release_pod p (c, os) in release_pods-nodes_map ps c₁ os₁ ∙ ground arith

  unassumed-release_pod :
      (p : Pod) (ps : List Pod) (c : SchedulerCache N) (os : List Pod)
      → count p.uid ps ≡ 0
      → unassumed (release_pod p (c, os)).0 ps ≡ unassumed c ps
  unassumed-release_pod p [] c os h = refl
  unassumed-release_pod p (q ∷ ps) c os h = ground (
    arith,
    (release_pod-Released q.uid p c os).assumed,
    unassumed-release_pod p ps c os,
    eq_iff p.uid q.uid,
    eq_iff q.uid p.uid,
  )

  -- The orphans are the pods that were not assumed, in their order.
  pub release_pods-orphans :
      (ps : List Pod) (c : SchedulerCache N) (os : List Pod)
      → ((k : String) → count k ps ≤ 1)
      → (release_pods ps (c, os)).1 ≡ os ++ unassumed c ps
  unfolding release_pods release_pod
  release_pods-orphans [] c os h = sym (append-nil os)
  release_pods-orphans (p ∷ ps) c os h =
      let (c₁, os₁) = release_pod p (c, os) in
      let alone : count p.uid ps ≡ 0 = ground (arith, h p.uid, eq_iff p.uid p.uid) in
      ground (
        arith,
        release_pods-orphans ps c₁ os₁ (λ k. omega (arith, h k)),
        unassumed-release_pod p ps c os alone,
        append_assoc os (p ∷ []) (unassumed c ps),
      )
