-- ===== src/SchedulerCache/AddNode.antt =====
-- updateNode as a whole, for a node that is new and for one that the cache has.
use yunikorn_k8shim.Prelude.{
  String, ◌≡◌, refl, true, ◌||◌, none, some, List, [], ◌==◌, eq_iff, arith, Option-cases, inl, inr,
  ◌⊎◌, ◌∙◌, ap,
}
use yunikorn_k8shim.Prelude.Dict.{lookup, keys, lookup-insert, lookup-insert_self, member-keys}
use yunikorn_k8shim.Pod.{Pod}
use yunikorn_k8shim.SchedulerCache.NodeInfo.{Node, NodeInfoApi, count}
use yunikorn_k8shim.SchedulerCache.Defs.{SchedulerCache, set_info}
use yunikorn_k8shim.SchedulerCache.Nodes.{add_new_node, update_node}
use yunikorn_k8shim.SchedulerCache.Invariant.{IsSound, IsNamed, IsValid}
use yunikorn_k8shim.SchedulerCache.Frame.{Frame, Frame-PodInv, AllNamed-insert, on_node-set_info}
use yunikorn_k8shim.SchedulerCache.Place.{is_known}
use yunikorn_k8shim.SchedulerCache.UpdateNode.{Adopted, AdoptLoop, adopt_lem, still_orphan}
use yunikorn_k8shim.SchedulerCache.NewNode.{
  with_new_node, with_new_node-IsSound, IsNamed-set_node, refreshed, refresh_node_lem,
  refreshed-IsSound,
}

module _ {N : Type 0} ⦃api : NodeInfoApi N⦄ where
  open api use {
    new_node_info, set_node, node, pods, pods-new_node_info, pods-set_node, node-set_node,
  }

  -- The maps say the same of the UID.
  pub record Untouched (k : String) (c c' : SchedulerCache N) : Type 0 where
    pub same_pod : lookup k c'.pods_map ≡ lookup k c.pods_map
    pub same_assigned : lookup k c'.assigned_pods ≡ lookup k c.assigned_pods
    pub same_assumed : lookup k c'.assumed_pods ≡ lookup k c.assumed_pods
    pub same_orphan : lookup k c'.orphaned_pods ≡ lookup k c.orphaned_pods

  -- What adding a node comes to.
  pub record NodeAdded (n : String) (c c' : SchedulerCache N) : Type 0 where
    pub valid : IsValid c'
    pub nodes : (m : String) → is_known m c' ≡ (n == m || is_known m c)
    -- A pod stands as it did, unless it was an orphan of the node and is adopted.
    pub each : (k : String) → Untouched k c c' ⊎ Adopted n k c c'
    -- Every orphan of the node is adopted.
    pub adopts :
        (k : String) (p : Pod)
        → lookup k c.orphaned_pods ≡ some p
        → p.node_name ≡ n
        → Adopted n k c c'

  Adopted-refreshed :
      {k : String} (x : Node) (info : N) (c c₂ : SchedulerCache N)
      → Adopted x.name k (with_new_node x c) c₂
      → Adopted x.name k c (refreshed x.name info c₂)
  unfolding set_info
  Adopted-refreshed x info c c₂ a = record {
    orphan = a.orphan;
    was_orphan = a.was_orphan;
    fits = a.fits;
    kept = a.kept;
    assigned = a.assigned;
    no_orphan = a.no_orphan;
  }

  NodeAdded-loop :
      (x : Node) (info : N) (c c₂ : SchedulerCache N)
      → IsValid c
      → AdoptLoop x.name (keys c.orphaned_pods) (with_new_node x c) c₂
      → NodeAdded x.name c (refreshed x.name info c₂)
  unfolding set_info
  NodeAdded-loop x info c c₂ v l =
      let nodes : (m : String) → is_known m c₂ ≡ (x.name == m || is_known m c) = (λ m.
        ground
          (arith, l.same_nodes m, lookup-insert x.name (set_node x new_node_info) m c.nodes_map)) in
      record {
        valid = record {
          sound = refreshed-IsSound x.name info c₂ l.sound;
          orphans_wait = λ k p o.
              let before = still_orphan p (l.each k) o in
              ground (
                arith,
                l.complete k p (member-keys k c.orphaned_pods p before) o,
                nodes p.node_name,
                v.orphans_wait k p before,
                eq_iff x.name p.node_name,
                eq_iff p.node_name x.name,
              );
        };
        nodes = nodes;
        each = λ k. elim (l.each k) [
          | inl f ↦ inl (record {
            same_pod = f.same_pod;
            same_assigned = f.same_assigned;
            same_assumed = f.same_assumed;
            same_orphan = f.same_orphan;
          })
          | inr a ↦ inr (Adopted-refreshed x info c c₂ a)
        ];
        adopts = λ k p o e. elim (l.each k) [
          | inr a ↦ Adopted-refreshed x info c c₂ a
          | inl f ↦
              let other = l.complete k p (member-keys k c.orphaned_pods p o) (f.same_orphan ∙ o) in
              absurd (ground (arith, eq_iff p.node_name x.name))
        ];
      }

  known-lookup :
      (n : String) (c : SchedulerCache N)
      → is_known n c ≡ true
      → (info : N) × (lookup n c.nodes_map ≡ some info)
  known-lookup n c h = elim (Option-cases (lookup n c.nodes_map)) [
    | inl e ↦ absurd (ground arith)
    | inr found ↦ found
  ]

  -- From a valid cache adding a node that it does not have returns, with no previous node, and
  -- keeps the cache valid. The node is there and no other node comes or goes. Every orphan of the
  -- node is adopted: it is assigned to the node, kept and no orphan any more. Any other pod stands
  -- as it did.
  pub update_node_new :
      (x : Node) (c : SchedulerCache N)
      → IsValid c
      → lookup x.name c.nodes_map ≡ none
      → (c' : SchedulerCache N) × (adopted : List Pod) × (update_node x c
          ≡ some (c', none, adopted))
        × NodeAdded x.name c c'
  unfolding update_node add_new_node set_info
  update_node_new x c v h =
      let c₁ = with_new_node x c in
      let known : is_known x.name c₁ ≡ true = ground (
        arith,
        lookup-insert x.name (set_node x new_node_info) x.name c.nodes_map,
        eq_iff x.name x.name,
      ) in
      let (c₂, adopted, returns, l) =
        adopt_lem x.name (keys c.orphaned_pods) c₁ [] (with_new_node-IsSound x c v.sound h) known in
      let (info, found) = known-lookup x.name c₂ (l.same_nodes x.name ∙ known) in
      (
        refreshed x.name info c₂,
        adopted,
        ground (arith, refresh_node_lem x.name info c₂ l.sound found),
        NodeAdded-loop x info c c₂ v l,
      )

  -- Updating a node that a valid cache has returns the previous node, adopts no pod, keeps the
  -- cache valid, and leaves every pod and the set of nodes as they were.
  pub update_node_known :
      (x : Node) (info : N) (c : SchedulerCache N)
      → IsValid c
      → lookup x.name c.nodes_map ≡ some info
      → (c' : SchedulerCache N) × (update_node x c ≡ some (c', node info, []))
        × IsValid c'
        × ((k : String) → Frame k c c')
        × ((m : String) → is_known m c' ≡ is_known m c)
  unfolding update_node set_info
  update_node_known x info c v h =
      let info' = set_node x info in
      let c₁ = set_info x.name info' c in
      let named = v.sound.node_at x.name info h in
      let named' : IsNamed x.name info' = IsNamed-set_node x info named.pods_belong in
      let frame : (k : String) → Frame k c c₁ = (λ k. record {
        same_pod = refl;
        same_assigned = refl;
        same_assumed = refl;
        same_orphan = refl;
        same_on = λ m. ground (
          arith,
          on_node-set_info k m x.name info' c,
          ap (count k) (pods-set_node x info),
          eq_iff x.name m,
        );
      }) in
      let sound : IsSound c₁ = record {
        node_at = AllNamed-insert c.nodes_map x.name info' v.sound.node_at named';
        pod_at = λ k. Frame-PodInv (frame k) (v.sound.pod_at k);
      } in
      let nodes : (m : String) → is_known m c₁ ≡ is_known m c =
        (λ m. ground (arith, lookup-insert x.name info' m c.nodes_map, eq_iff x.name m)) in
      (
        refreshed x.name info' c₁,
        ground (
          arith,
          refresh_node_lem x.name info' c₁ sound (lookup-insert_self x.name info' c.nodes_map),
        ),
        record {
          sound = refreshed-IsSound x.name info' c₁ sound;
          orphans_wait = λ k p o. ground (arith, v.orphans_wait k p o, nodes p.node_name);
        },
        λ k.
            let f = frame k in
            record {
              same_pod = refl;
              same_assigned = refl;
              same_assumed = refl;
              same_orphan = refl;
              same_on = f.same_on;
            },
        nodes,
      )
