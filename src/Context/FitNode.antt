-- ===== src/Context/FitNode.antt =====
-- IsPodFitNode and IsPodFitNodeViaPreemption of pkg/cache/context.go, on top of the predicate
-- manager and the scheduler cache.
use yunikorn_k8shim.Prelude.{
  ℕ, String, ◌≡◌, ◌⊎◌, inl, inr, Bool, true, false, Option, none, some, List, [], ◌∷◌, map, all,
  length, arith, sym, subst, ◌∙◌,
}
use yunikorn_k8shim.Prelude.Dict.{lookup}
use yunikorn_k8shim.Pod.{Pod}
use yunikorn_k8shim.SchedulerCache.{Node, NodeInfoApi}
use yunikorn_k8shim.Predicates.Framework.{Framework}
use yunikorn_k8shim.Predicates.Defs.{PredicateManager, predicates, preemption_predicates}
use yunikorn_k8shim.Predicates.Fits.{eligible, clears, state_after, skipped}
use yunikorn_k8shim.Predicates.Preempt.{removed_through, IsFirst, preemption_predicates_lem}
use yunikorn_k8shim.Context.Defs.{Context}

-- The error of IsPodFitNode, with the plugin and the text of the failed predicate
pub data FitError : Type 0 where
  pod_not_found node_not_found : FitError
  failed_plugin : (plugin text : String) → FitError

-- What GetNode returns stands with the v1.Node that it has: the cache makes no other node.
abbrev pub node_with_info :
    {N : Type 0} ⦃api : NodeInfoApi N⦄ → String → Context N → Option (Node × N)
node_with_info ⦃api⦄ node ctx = elim (lookup node ctx.scheduler_cache.nodes_map) [
  | none ↦ none
  | some info ↦ elim (api.node info) [ none ↦ none | some x ↦ some (x, info) ]
]

-- `nodes` is what the shared lister of the predicate manager lists.
module _ {S R C N : Type 0} ⦃api : NodeInfoApi N⦄ (k8s : Framework S R C)
    (m : PredicateManager S R C N) (nodes : List N) where
  -- IsPodFitNode
  unfoldable pub is_pod_fit_node : String → String → Bool → Context N → Option FitError
  is_pod_fit_node name node allocate ctx = elim (lookup name ctx.scheduler_cache.pods_map) [
    | none ↦ some pod_not_found
    | some pod ↦ elim (node_with_info node ctx) [
      | none ↦ some node_not_found
      | some (x, info) ↦ elim (predicates k8s m pod (inr nodes) x info allocate) [
        | none ↦ none
        | some (plugin, text) ↦ some (failed_plugin plugin text)
      ]
    ]
  ]

  -- The victims of IsPodFitNodeViaPreemption; a pod that the cache does not have is nil.
  abbrev pub victims_of : List String → Context N → List (Option Pod)
  victims_of uids ctx = map (λ uid. lookup uid ctx.scheduler_cache.pods_map) uids

  -- IsPodFitNodeViaPreemption: the index, `none` for (-1, false)
  unfoldable pub is_pod_fit_node_via_preemption :
      String → String → List String → ℕ → Context N → Option ℕ
  is_pod_fit_node_via_preemption name node allocations start_index ctx =
      elim (lookup name ctx.scheduler_cache.pods_map) [
        | none ↦ none
        | some pod ↦ elim (node_with_info node ctx) [
          | none ↦ none
          | some (x, info) ↦
              preemption_predicates k8s m pod (inr nodes) x info (victims_of allocations ctx)
                start_index
        ]
      ]

  length-victims_of :
      (uids : List String) (ctx : Context N) → length (victims_of uids ctx) ≡ length uids
  length-victims_of [] ctx = omega arith
  length-victims_of (k ∷ ks) ctx = omega (arith, length-victims_of ks ctx)

  -- The filters succeed on the node without the victims up to and with the one at the index.
  abbrev pub fits_without : Pod → List String → Context N → N → ℕ → Bool
  fits_without pod allocations ctx info j =
      all
        (clears k8s pod (state_after k8s pod nodes m.allocation_pre_filters k8s.new_cycle_state)
          (removed_through j (victims_of allocations ctx) info)
          (skipped k8s pod nodes m.allocation_pre_filters k8s.new_cycle_state []))
        m.allocation_filters

  -- For a pod and a node that the cache has, IsPodFitNodeViaPreemption fails if a PreFilter stops
  -- the pod on the node. Otherwise it answers the first index of the victims, from the start index
  -- on, at which every filter that is not skipped succeeds on the node without the victims up to and
  -- with that index, and fails exactly if there is none. A victim that the cache does not have is
  -- passed over, but has its index.
  pub is_pod_fit_node_via_preemption_lem :
      (name node : String) (allocations : List String) (start_index : ℕ) (ctx : Context N)
      (pod : Pod) (x : Node) (info : N)
      → lookup name ctx.scheduler_cache.pods_map ≡ some pod
      → node_with_info node ctx ≡ some (x, info)
      → ((eligible k8s pod nodes x m.allocation_pre_filters k8s.new_cycle_state ≡ false)
          × (is_pod_fit_node_via_preemption name node allocations start_index ctx ≡ none))
        ⊎ ((eligible k8s pod nodes x m.allocation_pre_filters k8s.new_cycle_state ≡ true)
            × IsFirst
                (fits_without pod allocations ctx info)
                start_index
                (length allocations)
                (is_pod_fit_node_via_preemption name node allocations start_index ctx))
  unfolding is_pod_fit_node_via_preemption
  is_pod_fit_node_via_preemption_lem name node allocations start_index ctx pod x info p n =
      let answer =
        preemption_predicates k8s m pod (inr nodes) x info (victims_of allocations ctx)
          start_index in
      let same : answer ≡ is_pod_fit_node_via_preemption name node allocations start_index ctx =
        ground arith in
      elim (preemption_predicates_lem k8s pod nodes x m info (victims_of allocations ctx)
        start_index) [
          | inl (e, r) ↦ inl (e, sym same ∙ r)
          | inr (e, first) ↦ inr (
            e,
            subst (IsFirst (fits_without pod allocations ctx info) start_index (length allocations))
                same
                (subst (λ hi. IsFirst (fits_without pod allocations ctx info) start_index hi answer)
                  (length-victims_of allocations ctx) first),
          )
        ]
