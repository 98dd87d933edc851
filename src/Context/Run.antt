-- ===== src/Context/Run.antt =====
-- Runs of the context: the events of pods and nodes in any order, where others run while a node
-- waits for its registration.
use yunikorn_k8shim.Prelude.{
  String, ◌≡◌, refl, Bool, true, ◌&&◌, all, Option, none, some, List, [], ◌∷◌, ◌==◌, arith,
  if◌then◌else◌, Option-cases, Bool-cases, inl, inr, subst,
}
use yunikorn_k8shim.Prelude.Dict.{lookup}
use yunikorn_k8shim.Pod.{Pod}
use yunikorn_k8shim.Resource.{Resource}
use yunikorn_k8shim.Task.{SchedulerInterface}
use yunikorn_k8shim.Gang.Defs.{QuantityApi}
use yunikorn_k8shim.SchedulerCache.{Node, NodeInfoApi, SchedulerCache, ◌>>=◌, remove_node}
use yunikorn_k8shim.SchedulerCache.Invariant.{IsValid}
use yunikorn_k8shim.SchedulerCache.Adopted.{named, update_node-named}
use yunikorn_k8shim.SchedulerCache.AddNode.{update_node_new, update_node_known}
use yunikorn_k8shim.SchedulerCache.Reach.{
  run_op, run_op-IsValid, op_remove_node, new_scheduler_cache-IsValid,
}
use yunikorn_k8shim.Context.Metadata.{Env, get_application_id_from_pod}
use yunikorn_k8shim.Context.Defs.{
  Context, new_context, set_cache, send, node_create_drain, node_drain_to_schedulable,
  node_decommission,
}
use yunikorn_k8shim.Context.Pods.{context_update_pod, delete_pod}
use yunikorn_k8shim.Context.Nodes.{
  Registration, not_sent, answered, register_adopted, settle_new_node, drop_new_node,
  register_new_node, update_node_internal, delete_node_internal, change_node,
  update_node_schedulability,
}
use yunikorn_k8shim.Context.Reach.{
  CacheValid, valid_at, update_foreign_pod-IsValid, update_yunikorn_pod-IsValid, pod_event-IsValid,
  delete_pod-IsValid,
}

-- The events: AddPod and UpdatePod, DeletePod, updateNodeInternal with the events that others
-- handle while it waits, and deleteNode.
mutual
  pub data Event : Type 0 where
    on_pod : Option Pod → Pod → Event
    on_pod_deleted : Pod → Event
    on_node : (register : Bool) → Registration → Node → (meanwhile : Events) → Event
    on_node_deleted : Node → Event

  pub data Events : Type 0 where
    done : Events
    next : Event → Events → Events

-- Every pod of the events has a UID.
abbrev mutual
  pub event_named : Event → Bool
  event_named (on_pod _ p) = named p
  event_named (on_pod_deleted p) = named p
  event_named (on_node _ _ _ meanwhile) = events_named meanwhile
  event_named (on_node_deleted _) = true

  pub events_named : Events → Bool
  events_named done = true
  events_named (next e es) = event_named e && events_named es

module _ {Q : Type 0} ⦃quantities : QuantityApi Q⦄ (env : Env Q)
    (pod_resource : Pod → Option Resource) (alias : Pod → String) {N : Type 0} ⦃api : NodeInfoApi N⦄
    ⦃si : SchedulerInterface⦄ where
  unfoldable mutual
    pub run_event : Event → Context N → Option (Context N)
    run_event (on_pod old p) ctx = context_update_pod env pod_resource alias old p ctx
    run_event (on_pod_deleted p) ctx = delete_pod env pod_resource alias p ctx
    run_event (on_node register outcome x meanwhile) ctx =
        update_node_internal env pod_resource alias (λ c. run_events meanwhile c) register outcome x
          ctx
    run_event (on_node_deleted x) ctx = delete_node_internal x ctx

    pub run_events : Events → Context N → Option (Context N)
    run_events done ctx = some ctx
    run_events (next e es) ctx = do ctx₁ ← run_event e ctx; run_events es ctx₁

  register_adopted-IsValid :
      (pods : List Pod) (ctx : Context N)
      → IsValid ctx.scheduler_cache
      → all named pods ≡ true
      → CacheValid (register_adopted env pod_resource alias pods ctx)
  unfolding register_adopted
  register_adopted-IsValid [] ctx v h = (ctx, refl, v)
  register_adopted-IsValid (p ∷ pods) ctx v h =
      elim (Bool-cases (get_application_id_from_pod env p == "")) [
        | inl f ↦
            let (ctx₁, one, v₁) =
              update_foreign_pod-IsValid env pod_resource alias none p ctx v (ground arith) in
            let (ctx₂, rest, v₂) = register_adopted-IsValid pods ctx₁ v₁ (ground arith) in
            (ctx₂, ground (arith, one, rest), v₂)
        | inr f ↦
            let (ctx₁, one, v₁) =
              update_yunikorn_pod-IsValid env pod_resource alias (get_application_id_from_pod env p)
                p ctx v (ground arith) in
            let (ctx₂, rest, v₂) = register_adopted-IsValid pods ctx₁ v₁ (ground arith) in
            (ctx₂, ground (arith, one, rest), v₂)
      ]

  settle_new_node-IsValid :
      (x : Node) (pods : List Pod) (ctx : Context N)
      → IsValid ctx.scheduler_cache
      → all named pods ≡ true
      → CacheValid (settle_new_node env pod_resource alias x pods ctx)
  unfolding settle_new_node
  settle_new_node-IsValid x pods ctx v h =
      let (ctx₁, one, v₁) = register_adopted-IsValid pods ctx v h in
      valid_at _ (if x.unschedulable then ctx₁ else send (node_drain_to_schedulable x.name) ctx₁)
        ctx₁.scheduler_cache (ground (arith, one)) (ground arith) v₁

  removed-IsValid :
      (x : Node) (c : SchedulerCache N)
      → IsValid c
      → (c' : SchedulerCache N) × (prev : Option Node) × (orphans : List Pod) × (remove_node x c
          ≡ some (c', prev, orphans))
        × IsValid c'
  unfolding run_op
  removed-IsValid x c v = elim (Option-cases (remove_node x c)) [
    | inl f ↦
        let (c', r, v') = run_op-IsValid (op_remove_node x) c v refl in absurd (ground (arith, r))
    | inr ((c₁, prev, os), f) ↦
        let (c', r, v') = run_op-IsValid (op_remove_node x) c v refl in
        let same : c' ≡ c₁ = ground (arith, r) in (c₁, prev, os, f, subst IsValid same v')
  ]

  drop_new_node-IsValid :
      (x : Node) (ctx : Context N)
      → IsValid ctx.scheduler_cache
      → CacheValid (drop_new_node env pod_resource alias x ctx)
  unfolding drop_new_node
  drop_new_node-IsValid x ctx v =
      let (c, prev, os, r, v') = removed-IsValid x ctx.scheduler_cache v in
      valid_at _ (set_cache c ctx) c (rw r refl) refl v'

  delete_node_internal-IsValid :
      (x : Node) (ctx : Context N)
      → IsValid ctx.scheduler_cache
      → CacheValid (delete_node_internal x ctx)
  unfolding delete_node_internal
  delete_node_internal-IsValid x ctx v =
      let (c, prev, os, r, v') = removed-IsValid x ctx.scheduler_cache v in
      valid_at _
        (elim prev [
          | none ↦ set_cache c ctx
          | some _ ↦ send (node_decommission x.name) (set_cache c ctx)
        ])
        c (rw r refl) (ground arith) v'

  change_node-cache :
      (prev x : Node) (ctx : Context N)
      → (change_node prev x ctx).scheduler_cache ≡ ctx.scheduler_cache
  unfolding change_node update_node_schedulability
  change_node-cache prev x ctx = ground arith

  -- What others do while a node waits keeps the cache valid.
  abbrev Keeps : (Context N → Option (Context N)) → Type 0
  Keeps f = (ctx : Context N) → IsValid ctx.scheduler_cache → CacheValid (f ctx)

  register_new_node-IsValid :
      (f : Context N → Option (Context N)) (outcome : Registration) (x : Node) (pods : List Pod)
      (ctx : Context N)
      → Keeps f
      → IsValid ctx.scheduler_cache
      → all named pods ≡ true
      → CacheValid (register_new_node env pod_resource alias f outcome x pods ctx)
  unfolding register_new_node
  register_new_node-IsValid f not_sent x pods ctx k v h =
      drop_new_node-IsValid x (send (node_create_drain x.name) ctx) v
  register_new_node-IsValid f (answered accepted) x pods ctx k v h =
      let (ctx₁, waited, v₁) = k (send (node_create_drain x.name) ctx) v in
      elim (Bool-cases accepted) [
        | inl a ↦
            let (ctx₂, r, v₂) = settle_new_node-IsValid x pods ctx₁ v₁ h in
            (ctx₂, ground (arith, waited, r), v₂)
        | inr a ↦
            let (ctx₂, r, v₂) = drop_new_node-IsValid x ctx₁ v₁ in
            (ctx₂, ground (arith, waited, r), v₂)
      ]

  update_node_internal-IsValid :
      (f : Context N → Option (Context N)) (register : Bool) (outcome : Registration) (x : Node)
      (ctx : Context N)
      → Keeps f
      → IsValid ctx.scheduler_cache
      → CacheValid (update_node_internal env pod_resource alias f register outcome x ctx)
  unfolding update_node_internal
  update_node_internal-IsValid f register outcome x ctx k v =
      elim (Option-cases (lookup x.name ctx.scheduler_cache.nodes_map)) [
        | inl absent ↦
            let (c, pods, r, added) = update_node_new x ctx.scheduler_cache v absent in
            let uids = update_node-named x ctx.scheduler_cache c pods v absent r in
            elim (Bool-cases register) [
              | inl b ↦
                  let (ctx', r', v') =
                    register_new_node-IsValid f outcome x pods (set_cache c ctx) k added.valid
                      uids in
                  (ctx', ground (arith, r, r'), v')
              | inr b ↦
                  let (ctx', r', v') =
                    settle_new_node-IsValid x pods (set_cache c ctx) added.valid uids in
                  (ctx', ground (arith, r, r'), v')
            ]
        | inr (info, found) ↦
            let named_node = v.sound.node_at x.name info found in
            let (c, r, v', _, _) = update_node_known x info ctx.scheduler_cache v found in
            valid_at _ (change_node named_node.owner x (set_cache c ctx)) c
              (ground (arith, r, named_node.has_node))
              (change_node-cache named_node.owner x (set_cache c ctx)) v'
      ]

  mutual
    unfolding run_event

    run_event-IsValid :
        (e : Event) (ctx : Context N)
        → event_named e ≡ true
        → IsValid ctx.scheduler_cache
        → CacheValid (run_event e ctx)
    run_event-IsValid (on_pod old p) ctx h v =
        pod_event-IsValid env pod_resource alias old p ctx v h
    run_event-IsValid (on_pod_deleted p) ctx h v =
        delete_pod-IsValid env pod_resource alias p ctx v h
    run_event-IsValid (on_node register outcome x meanwhile) ctx h v =
        update_node_internal-IsValid (λ c. run_events meanwhile c) register outcome x ctx
          (λ c w. run_events-IsValid meanwhile c h w) v
    run_event-IsValid (on_node_deleted x) ctx h v = delete_node_internal-IsValid x ctx v

    run_events-IsValid :
        (es : Events) (ctx : Context N)
        → events_named es ≡ true
        → IsValid ctx.scheduler_cache
        → CacheValid (run_events es ctx)
    run_events-IsValid done ctx h v = (ctx, refl, v)
    run_events-IsValid (next e es) ctx h v =
        let (ctx₁, one, v₁) = run_event-IsValid e ctx (ground arith) v in
        let (ctx₂, rest, v₂) = run_events-IsValid es ctx₁ (ground arith) v₁ in
        (ctx₂, ground (arith, one, rest), v₂)

  -- Whatever events of pods that have UIDs and of nodes the context handles from its start on,
  -- with whatever answers of the core, and with others being handled while a node waits for its
  -- registration: no handler panics, and the scheduler cache that they reach is valid.
  pub run_events-new_context :
      (es : Events) → events_named es ≡ true → CacheValid (run_events es new_context)
  unfolding new_context
  run_events-new_context es h = run_events-IsValid es new_context h new_scheduler_cache-IsValid
