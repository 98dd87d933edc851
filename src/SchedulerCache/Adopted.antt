-- ===== src/SchedulerCache/Adopted.antt =====
-- The pods that a new node adopts have UIDs.
use yunikorn_k8shim.Prelude.{
  String, ◌≡◌, ◌≢◌, refl, Bool, true, not, ◌&&◌, all, none, some, List, [], ◌∷◌, ◌++◌, ◌==◌, eq_iff,
  arith, if◌then◌else◌, Option-cases, Bool-cases, inl, inr, ap, subst, sym, ◌∙◌,
}
use yunikorn_k8shim.Prelude.Dict.{lookup, keys, lookup-insert}
use yunikorn_k8shim.Pod.{Pod, wants_node}
use yunikorn_k8shim.SchedulerCache.NodeInfo.{Node, NodeInfoApi}
use yunikorn_k8shim.SchedulerCache.Defs.{SchedulerCache, set_info}
use yunikorn_k8shim.SchedulerCache.Nodes.{adopt, refresh_node, add_new_node, update_node}
use yunikorn_k8shim.SchedulerCache.Invariant.{IsSound, IsValid}
use yunikorn_k8shim.SchedulerCache.Update.{effective}
use yunikorn_k8shim.SchedulerCache.Place.{is_known}
use yunikorn_k8shim.SchedulerCache.Settle.{update_pod_lem, Placed-IsSound, effective-uid}
use yunikorn_k8shim.SchedulerCache.UpdateNode.{adopt_lem}
use yunikorn_k8shim.SchedulerCache.NewNode.{with_new_node, with_new_node-IsSound}

abbrev pub named : Pod → Bool
named p = not (p.uid == "")

all-snoc :
    (ps : List Pod) (p : Pod)
    → all named ps ≡ true
    → named p ≡ true
    → all named (ps ++ p ∷ []) ≡ true
all-snoc [] p h u = ground arith
all-snoc (q ∷ ps) p h u = ground (arith, all-snoc ps p)

module _ {N : Type 0} ⦃api : NodeInfoApi N⦄ where
  open api use {set_node, new_node_info}

  orphan-named :
      (c : SchedulerCache N) (k : String) (p : Pod)
      → IsSound c
      → lookup k c.orphaned_pods ≡ some p
      → p.uid ≢ ""
  orphan-named c k p v o =
      let w = v.pod_at k in
      let (q, has, _, uid, _) = w.orphan_has_pod p o in
      let (_, ne) = w.pod_has_uid q has in subst (λ t. t ≢ "") (sym uid) ne

  adopt-named :
      (n : String) (ks : List String) (c c' : SchedulerCache N) (os os' : List Pod)
      → IsSound c
      → all named os ≡ true
      → adopt n ks c os ≡ some (c', os')
      → all named os' ≡ true
  unfolding adopt
  adopt-named n [] c c' os os' v h e = ground arith
  adopt-named n (j ∷ ks) c c' os os' v h e = elim (Option-cases (lookup j c.orphaned_pods)) [
    | inl absent ↦ adopt-named n ks c c' os os' v h (ground arith)
    | inr (p, o) ↦ elim (Bool-cases (p.node_name == n)) [
      | inr other ↦ adopt-named n ks c c' os os' v h (ground arith)
      | inl here ↦
          let u = orphan-named c j p v o in
          let (c₁, returns, post) = update_pod_lem p c v u in
          let sound =
            Placed-IsSound (effective p c) v post
              (subst (λ k. k ≢ "") (sym (effective-uid p c)) u) in
          let joined =
            not (wants_node (effective p c) && not (is_known (effective p c).node_name c)) in
          let next = if joined then os ++ p ∷ [] else os in
          adopt-named n ks c₁ c' next os' sound (ground (arith, all-snoc os p h, eq_iff p.uid ""))
            (ground (arith, returns))
    ]
  ]

  pub adopted-eq :
      (x : Node) (c c' c₂ : SchedulerCache N) (adopted os : List Pod)
      → lookup x.name c.nodes_map ≡ none
      → add_new_node x c ≡ some (c₂, os)
      → update_node x c ≡ some (c', none, adopted)
      → os ≡ adopted
  unfolding update_node
  adopted-eq x c c' c₂ adopted os h r e = elim (Option-cases (refresh_node x.name c₂)) [
    | inl f ↦ absurd (ground arith)
    | inr (c₃, f) ↦ ground arith
  ]

  -- The pods that a node adopts when it is added to a valid cache have UIDs.
  pub update_node-named :
      (x : Node) (c c' : SchedulerCache N) (adopted : List Pod)
      → IsValid c
      → lookup x.name c.nodes_map ≡ none
      → update_node x c ≡ some (c', none, adopted)
      → all named adopted ≡ true
  unfolding update_node add_new_node set_info
  update_node-named x c c' adopted v h e =
      let c₁ = with_new_node x c in
      let known : is_known x.name c₁ ≡ true = ground (
        arith,
        lookup-insert x.name (set_node x new_node_info) x.name c.nodes_map,
        eq_iff x.name x.name,
      ) in
      let sound = with_new_node-IsSound x c v.sound h in
      let (c₂, os, returns, l) = adopt_lem x.name (keys c.orphaned_pods) c₁ [] sound known in
      let same : os ≡ adopted = adopted-eq x c c' c₂ adopted os h returns e in
      subst (λ ps. all named ps ≡ true) same
        (adopt-named x.name (keys c.orphaned_pods) c₁ c₂ [] os sound refl returns)

  -- Without orphans a new node adopts none.
  pub add_new_node-alone :
      (x : Node) (c : SchedulerCache N)
      → c.orphaned_pods ≡ []
      → add_new_node x c ≡ some (with_new_node x c, [])
  unfolding add_new_node set_info adopt keys
  add_new_node-alone x c h = ap (λ d. adopt x.name (keys d) (with_new_node x c) []) h ∙ refl
