-- ===== src/Context/Initialize.antt =====
-- Parts of InitializeState in pkg/cache/context.go: the nodes that are added without registering,
-- the nodes that are enabled, and the nodes that went away meanwhile.
use yunikorn_k8shim.Prelude.{
  String, ◌≡◌, refl, false, ◌||◌, if◌then◌else◌, Option, none, some, List, [], ◌∷◌, ◌++◌, ◌==◌,
  member, map, arith, eq_iff, Bool-cases, inl, inr, ◌⊎◌, ap, sym, ◌∙◌, subst, append_assoc,
  append-nil,
}
use yunikorn_k8shim.Prelude.Dict.{Dict, lookup}
use yunikorn_k8shim.Pod.{Pod}
use yunikorn_k8shim.Resource.{Resource}
use yunikorn_k8shim.Task.{SchedulerInterface}
use yunikorn_k8shim.Gang.Defs.{QuantityApi}
use yunikorn_k8shim.SchedulerCache.{Node, NodeInfoApi, SchedulerCache, ◌>>=◌, update_node}
use yunikorn_k8shim.SchedulerCache.Invariant.{IsValid}
use yunikorn_k8shim.SchedulerCache.Place.{is_known}
use yunikorn_k8shim.SchedulerCache.NewNode.{with_new_node}
use yunikorn_k8shim.SchedulerCache.AddNode.{update_node_new, Untouched}
use yunikorn_k8shim.SchedulerCache.UpdateNode.{Adopted}
use yunikorn_k8shim.SchedulerCache.Adopted.{adopted-eq, add_new_node-alone}
use yunikorn_k8shim.Context.Metadata.{Env}
use yunikorn_k8shim.Context.Defs.{Context, Message, send, set_cache, node_drain_to_schedulable}
use yunikorn_k8shim.Context.Nodes.{
  not_sent, update_node_internal, settle_new_node, register_adopted,
}

-- filterSchedulableNodes, for nodes that are not nil
unfoldable pub filter_schedulable_nodes : List Node → List Node
filter_schedulable_nodes [] = []
filter_schedulable_nodes (x ∷ xs) =
    let rest = filter_schedulable_nodes xs in if x.unschedulable then rest else x ∷ rest

-- What enableNodes asks of the core, one message for each node of the request.
unfoldable pub enable_nodes : List Node → List Message
enable_nodes [] = []
enable_nodes (x ∷ xs) = node_drain_to_schedulable x.name ∷ enable_nodes xs

none_left : {V : Type 0} (d : Dict V) → ((k : String) → lookup k d ≡ none) → d ≡ []
unfolding lookup
none_left [] h = refl
none_left ((k, v) ∷ d) h = absurd (ground (arith, h k, eq_iff k k))

no_orphan :
    {N : Type 0} {n : String} ⦃api : NodeInfoApi N⦄ (c c' : SchedulerCache N) (k : String)
    → c.orphaned_pods ≡ []
    → Untouched k c c' ⊎ Adopted n k c c'
    → lookup k c'.orphaned_pods ≡ none
unfolding lookup
no_orphan c c' k o (inl u) = u.same_orphan ∙ ap (λ d. lookup k d) o
no_orphan c c' k o (inr a) = absurd (ground (arith, a.was_orphan, ap (λ d. lookup k d) o))

-- The names of the list are distinct, and the cache has none of them.
abbrev pub AllNew : {N : Type 0} → List Node → SchedulerCache N → Type 0
AllNew [] c = Unit
AllNew (x ∷ xs) c =
    (lookup x.name c.nodes_map ≡ none)
    × (member x.name (map (λ y. y.name) xs) ≡ false)
    × AllNew xs c

new-AllNew :
    {N : Type 0} ⦃api : NodeInfoApi N⦄ (n : String) (xs : List Node) (c c' : SchedulerCache N)
    → ((m : String) → is_known m c' ≡ (n == m || is_known m c))
    → member n (map (λ y. y.name) xs) ≡ false
    → AllNew xs c
    → AllNew xs c'
new-AllNew n [] c c' known other h = tt
new-AllNew n (x ∷ xs) c c' known other (absent, distinct, rest) = (
  ground (arith, known x.name, absent, eq_iff n x.name, other),
  distinct,
  new-AllNew n xs c c' known (ground (arith, eq_iff n x.name)) rest,
)

module _ {Q : Type 0} ⦃quantities : QuantityApi Q⦄ (env : Env Q)
    (pod_resource : Pod → Option Resource) (alias : Pod → String) {N : Type 0} ⦃api : NodeInfoApi N⦄
    ⦃si : SchedulerInterface⦄ where
  -- addNodesWithoutRegistering
  unfoldable pub add_nodes_without_registering : List Node → Context N → Option (Context N)
  add_nodes_without_registering [] ctx = some ctx
  add_nodes_without_registering (x ∷ xs) ctx = do
    ctx₁ ← update_node_internal env pod_resource alias (λ c. some c) false not_sent x ctx
    add_nodes_without_registering xs ctx₁

  new_node-settles :
      (x : Node) (ctx : Context N) (c : SchedulerCache N)
      → update_node x ctx.scheduler_cache ≡ some (c, none, [])
      → update_node_internal env pod_resource alias (λ d. some d) false not_sent x ctx
        ≡ some (record ctx {
          scheduler_cache = c;
          messages = ctx.messages ++ enable_nodes (filter_schedulable_nodes (x ∷ []));
        })
  unfolding update_node_internal settle_new_node register_adopted enable_nodes send set_cache
      filter_schedulable_nodes
  new_node-settles x ctx c r = elim (Bool-cases x.unschedulable) [
    | inl cordoned ↦ ground (arith, r, append-nil ctx.messages)
    | inr open_node ↦ ground (arith, r)
  ]

  one_node :
      (x : Node) (ctx : Context N)
      → IsValid ctx.scheduler_cache
      → ctx.scheduler_cache.orphaned_pods ≡ []
      → lookup x.name ctx.scheduler_cache.nodes_map ≡ none
      → (c : SchedulerCache N) × (update_node_internal env pod_resource alias
            (λ c. some c)
            false
            not_sent
            x
            ctx
          ≡ some (record ctx {
            scheduler_cache = c;
            messages = ctx.messages ++ enable_nodes (filter_schedulable_nodes (x ∷ []));
          }))
        × IsValid c
        × (c.orphaned_pods ≡ [])
        × ((n : String) → is_known n c ≡ (x.name == n || is_known n ctx.scheduler_cache))
  unfolding update_node_internal settle_new_node register_adopted enable_nodes
      filter_schedulable_nodes
  one_node x ctx v o absent =
      let (c, adopted, r, added) = update_node_new x ctx.scheduler_cache v absent in
      let alone : [] ≡ adopted =
        adopted-eq x ctx.scheduler_cache c (with_new_node x ctx.scheduler_cache) adopted [] absent
          (add_new_node-alone x ctx.scheduler_cache o) r in
      (
        c,
        new_node-settles x ctx c
            (subst (λ os. update_node x ctx.scheduler_cache ≡ some (c, none, os)) (sym alone) r),
        added.valid,
        none_left c.orphaned_pods (λ k. no_orphan ctx.scheduler_cache c k o (added.each k)),
        added.nodes,
      )

  -- The nodes that are added without registering, to a valid cache that has no orphan and none of
  -- the nodes: addNodesWithoutRegistering returns, the cache is valid, has no orphan and has these
  -- nodes more, and the core has been asked already here to enable each schedulable node, in the
  -- order of the nodes.
  pub add_nodes_without_registering_lem :
      (xs : List Node) (ctx : Context N)
      → IsValid ctx.scheduler_cache
      → ctx.scheduler_cache.orphaned_pods ≡ []
      → AllNew xs ctx.scheduler_cache
      → (c : SchedulerCache N) × (add_nodes_without_registering xs ctx
          ≡ some (record ctx {
            scheduler_cache = c;
            messages = ctx.messages ++ enable_nodes (filter_schedulable_nodes xs);
          }))
        × IsValid c
        × (c.orphaned_pods ≡ [])
        × ((n : String)
            → is_known n c ≡ (member n (map (λ y. y.name) xs) || is_known n ctx.scheduler_cache))
  unfolding add_nodes_without_registering enable_nodes filter_schedulable_nodes
  add_nodes_without_registering_lem [] ctx v o h =
      (ctx.scheduler_cache, ground (arith, append-nil ctx.messages), v, o, λ n. refl)
  add_nodes_without_registering_lem (x ∷ xs) ctx v o (absent, distinct, rest) =
      let (c, r, valid, alone, known) = one_node x ctx v o absent in
      let ctx₁ = record ctx {
        scheduler_cache = c;
        messages = ctx.messages ++ enable_nodes (filter_schedulable_nodes (x ∷ []));
      } in
      let (c', r', valid', alone', known') =
        add_nodes_without_registering_lem xs ctx₁ valid alone
          (new-AllNew x.name xs ctx.scheduler_cache c known distinct rest) in
      (
        c',
        ground (
          arith,
          r,
          r',
          append_assoc ctx.messages (enable_nodes (filter_schedulable_nodes (x ∷ [])))
              (enable_nodes (filter_schedulable_nodes xs)),
        ),
        valid',
        alone',
        λ n. ground (arith, known n, known' n),
      )
