-- ===== src/Context/FitTests.antt =====
-- IsPodFitNodeViaPreemption on a context with a full node.
use yunikorn_k8shim.Prelude.{◌≡◌, ◌⊎◌, refl, true, false, none, [], ◌∷◌}
use yunikorn_k8shim.SchedulerCache.Plain.{
  PlainInfo, plain_info, node_named, program, run_or_empty, busy, assumed, n1_info,
}
use yunikorn_k8shim.Predicates.Fits.{eligible}
use yunikorn_k8shim.Predicates.Preempt.{IsFirst}
use yunikorn_k8shim.Predicates.Tests.{codes, manager}
use yunikorn_k8shim.Context.Defs.{Context, new_context, set_cache}
use yunikorn_k8shim.Context.FitNode.{
  is_pod_fit_node_via_preemption, fits_without, is_pod_fit_node_via_preemption_lem,
}

abbrev full_context : Context PlainInfo
full_context = set_cache busy new_context

is_pod_fit_node_via_preemption_lem_example :
    ((eligible codes assumed
          (n1_info ∷ [])
          (node_named "n1")
          manager.allocation_pre_filters
          codes.new_cycle_state
        ≡ false)
      × (is_pod_fit_node_via_preemption codes manager
            (n1_info ∷ [])
            "waiting"
            "n1"
            ("gone" ∷ "bound" ∷ [])
            0
            full_context
          ≡ none))
    ⊎ ((eligible codes assumed
            (n1_info ∷ [])
            (node_named "n1")
            manager.allocation_pre_filters
            codes.new_cycle_state
          ≡ true)
        × IsFirst
            (fits_without codes manager
              (n1_info ∷ [])
              assumed
              ("gone" ∷ "bound" ∷ [])
              full_context
              n1_info)
            0
            2
            (is_pod_fit_node_via_preemption codes manager
              (n1_info ∷ [])
              "waiting"
              "n1"
              ("gone" ∷ "bound" ∷ [])
              0
              full_context))
unfolding program run_or_empty
is_pod_fit_node_via_preemption_lem_example =
    is_pod_fit_node_via_preemption_lem codes manager (n1_info ∷ []) "waiting" "n1"
      ("gone" ∷ "bound" ∷ []) 0 full_context assumed (node_named "n1") n1_info refl refl
