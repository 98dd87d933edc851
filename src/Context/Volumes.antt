-- ===== src/Context/Volumes.antt =====
-- AssumePod and ForgetPod of pkg/cache/context.go, on top of the scheduler cache. The volume binder
-- of Kubernetes is a parameter: what each of its calls answers.
use yunikorn_k8shim.Prelude.{
  String, ◌≡◌, ◌≢◌, Bool, true, false, Option, none, some, arith, Option-cases, inl, inr, subst,
  sym, ◌∙◌, ◌⊎◌,
}
use yunikorn_k8shim.Prelude.Dict.{lookup}
use yunikorn_k8shim.Pod.{Pod, with_node, is_pod_terminated}
use yunikorn_k8shim.SchedulerCache.{
  Node, NodeInfoApi, SchedulerCache, ◌>>=◌, assume_pod, forget_pod,
}
use yunikorn_k8shim.SchedulerCache.Invariant.{on_node, IsSound}
use yunikorn_k8shim.SchedulerCache.Assume.{assume_pod_lem, forget_pod_reverts}
use yunikorn_k8shim.Context.Defs.{Context, set_cache}

-- FindPodVolumes: an error, reasons against the node, or the volumes
pub data Found (V : Type 0) : Type 0 where
  find_failed conflicting : Found V
  found : V → Found V

-- volumebinding.SchedulerVolumeBinder with claims C, volumes V and the node of a NodeInfo N: an
-- error of GetPodVolumeClaims and of AssumePodVolumes is `none`.
pub record VolumeBinder (C V N : Type 0) : Type 0 where
  pub get_pod_volume_claims : Pod → Option C
  pub find_pod_volumes : Pod → C → Option Node → Found V
  pub assume_pod_volumes : Pod → String → V → Option Bool

module _ {C V N : Type 0} ⦃api : NodeInfoApi N⦄ (binder : VolumeBinder C V N) where
  -- What AssumePod asks of the volume binder: whether all volumes are bound, `none` on an error
  unfoldable pub assume_volumes : Pod → String → N → Option Bool
  assume_volumes pod node info = do
    claims ← binder.get_pod_volume_claims pod
    elim (binder.find_pod_volumes pod claims (api.node info)) [
      | find_failed ↦ none
      | conflicting ↦ none
      | found volumes ↦ binder.assume_pod_volumes pod node volumes
    ]

  -- AssumePod; the Boolean says that it returns an error
  unfoldable pub context_assume_pod : String → String → Context N → Option (Context N × Bool)
  context_assume_pod name node ctx = elim (lookup name ctx.scheduler_cache.pods_map) [
    | none ↦ some (ctx, false)
    | some pod ↦ elim (lookup node ctx.scheduler_cache.nodes_map) [
      | none ↦ some (ctx, false)
      | some info ↦ elim (assume_volumes pod node info) [
        | none ↦ some (ctx, true)
        | some all_bound ↦ (do
          c ← assume_pod (with_node pod node) all_bound ctx.scheduler_cache
          some (set_cache c ctx, false))
      ]
    ]
  ]

-- ForgetPod
unfoldable pub context_forget_pod :
    {N : Type 0} ⦃api : NodeInfoApi N⦄ → String → Context N → Option (Context N)
context_forget_pod name ctx = elim (lookup name ctx.scheduler_cache.pods_map) [
  | none ↦ some ctx
  | some pod ↦ (do c ← forget_pod pod ctx.scheduler_cache; some (set_cache c ctx))
]

forget-assumed :
    {N : Type 0} ⦃api : NodeInfoApi N⦄ (name node : String) (c : SchedulerCache N) (ctx : Context N)
    (pod : Pod) (all_bound : Bool)
    → IsSound c
    → lookup name c.pods_map ≡ some (with_node pod node)
    → lookup name c.assumed_pods ≡ some all_bound
    → is_pod_terminated pod ≡ false
    → (c' : SchedulerCache N) × (context_forget_pod name (set_cache c ctx)
        ≡ some (set_cache c' ctx))
      × IsSound c'
      × (lookup name c'.pods_map ≡ some (with_node pod ""))
      × (lookup name c'.assigned_pods ≡ none)
      × (lookup name c'.assumed_pods ≡ none)
unfolding context_forget_pod is_pod_terminated
forget-assumed name node c ctx pod all_bound s h a t =
    let (same_uid, named) = (s.pod_at name).pod_has_uid (with_node pod node) h in
    let at = λ (P : String → Type 0) (x : P pod.uid). subst P same_uid x in
    let (c', returns, sound, kept, free, _, _, released) =
      forget_pod_reverts (with_node pod node) c s (λ e. named (sym same_uid ∙ e))
        (ground (arith, a, same_uid)) t in
    (
      c',
      ground (arith, returns),
      sound,
      at (λ u. lookup u c'.pods_map ≡ some (with_node pod "")) kept,
      at (λ u. lookup u c'.assigned_pods ≡ none) free,
      at (λ u. lookup u c'.assumed_pods ≡ none) released,
    )

module _ {C V N : Type 0} ⦃api : NodeInfoApi N⦄ (binder : VolumeBinder C V N) where
  context_assume_pod-assumed :
      (name node : String) (ctx : Context N) (pod : Pod) (info : N) (all_bound : Bool)
      → IsSound ctx.scheduler_cache
      → lookup name ctx.scheduler_cache.pods_map ≡ some pod
      → lookup node ctx.scheduler_cache.nodes_map ≡ some info
      → node ≢ ""
      → is_pod_terminated pod ≡ false
      → assume_volumes binder pod node info ≡ some all_bound
      → (c : SchedulerCache N) × (context_assume_pod binder name node ctx
          ≡ some (set_cache c ctx, false))
        × IsSound c
        × (lookup name c.pods_map ≡ some (with_node pod node))
        × (lookup name c.assigned_pods ≡ some node)
        × (on_node name node c ≡ some 1)
        × (lookup name c.assumed_pods ≡ some all_bound)
  unfolding context_assume_pod is_pod_terminated
  context_assume_pod-assumed name node ctx pod info all_bound s h k n t b =
      let (same_uid, named) = (s.pod_at name).pod_has_uid pod h in
      let (c, returns, sound, kept, assigned, listed, assumed, _) =
        assume_pod_lem (with_node pod node) all_bound ctx.scheduler_cache s
          (λ e. named (sym same_uid ∙ e)) n t (ground (arith, k)) in
      let at = λ (P : String → Type 0) (x : P pod.uid). subst P same_uid x in
      (
        c,
        ground (arith, returns),
        sound,
        at (λ u. lookup u c.pods_map ≡ some (with_node pod node)) kept,
        at (λ u. lookup u c.assigned_pods ≡ some node) assigned,
        at (λ u. on_node u node c ≡ some 1) listed,
        at (λ u. lookup u c.assumed_pods ≡ some all_bound) assumed,
      )

  -- AssumePod from a sound cache, on a pod that it has and that is not terminated and on a node
  -- that it has. If the volume binder fails, or has reasons against the node, an error is returned
  -- and nothing has changed. Otherwise no error is returned, and the cache is sound and has the
  -- pod on that node: with its name, assigned, listed once, and assumed with what the binder said
  -- of the volumes. ForgetPod then undoes this: the pod is kept without a node, is assigned to
  -- none and is no longer assumed.
  pub context_forget_pod-assume_pod :
      (name node : String) (ctx : Context N) (pod : Pod) (info : N)
      → IsSound ctx.scheduler_cache
      → lookup name ctx.scheduler_cache.pods_map ≡ some pod
      → lookup node ctx.scheduler_cache.nodes_map ≡ some info
      → node ≢ ""
      → is_pod_terminated pod ≡ false
      → ((assume_volumes binder pod node info ≡ none)
          × (context_assume_pod binder name node ctx ≡ some (ctx, true)))
        ⊎ ((all_bound : Bool) × (c : SchedulerCache N) × (c' : SchedulerCache N) × (assume_volumes
                binder pod node info
              ≡ some all_bound)
            × (context_assume_pod binder name node ctx ≡ some (set_cache c ctx, false))
            × IsSound c
            × (lookup name c.pods_map ≡ some (with_node pod node))
            × (lookup name c.assigned_pods ≡ some node)
            × (on_node name node c ≡ some 1)
            × (lookup name c.assumed_pods ≡ some all_bound)
            × (context_forget_pod name (set_cache c ctx) ≡ some (set_cache c' ctx))
            × IsSound c'
            × (lookup name c'.pods_map ≡ some (with_node pod ""))
            × (lookup name c'.assigned_pods ≡ none)
            × (lookup name c'.assumed_pods ≡ none))
  unfolding context_assume_pod
  context_forget_pod-assume_pod name node ctx pod info s h k n t =
      elim (Option-cases (assume_volumes binder pod node info)) [
        | inl f ↦ inl (f, ground arith)
        | inr (all_bound, b) ↦
            let (c, returns, sound, kept, assigned, listed, assumed) =
              context_assume_pod-assumed name node ctx pod info all_bound s h k n t b in
            let (c', forgets, sound', kept', free, released) =
              forget-assumed name node c ctx pod all_bound sound kept assumed t in
            inr (
              all_bound, c, c', b, returns, sound, kept, assigned, listed, assumed, forgets, sound',
              kept', free, released,
            )
      ]
