-- ===== src/Predicates/Preempt.antt =====
-- The answer of PreemptionPredicates of pkg/plugin/predicates/predicate_manager.go.
use yunikorn_k8shim.Prelude.{
  ℕ, zero, suc, ◌+◌, ◌≤◌, ◌<◌, String, ◌≡◌, ◌⊎◌, inl, inr, Bool, true, false, ◌||◌, Option, none,
  some, List, [], ◌∷◌, length, arith, Bool-cases, ◌∙◌, ap, sym, subst, all,
}
use yunikorn_k8shim.Pod.{Pod}
use yunikorn_k8shim.SchedulerCache.{Node, NodeInfoApi}
use yunikorn_k8shim.Predicates.Framework.{Framework, FilterPlugin}
use yunikorn_k8shim.Predicates.Defs.{
  PredicateManager, run_pre_filter_plugins, run_filter_plugins, remove_pod_from_node_no_fail,
  preempt_from, preempt_after, preemption_predicates,
}
use yunikorn_k8shim.Predicates.Fits.{
  clears, eligible, state_after, skipped, run_pre_filters-passes,
  run_filter_plugins-run_pre_filters,
}

-- The node without the victims up to and with the one at this index
unfoldable pub removed_through : {N : Type 0} ⦃api : NodeInfoApi N⦄ → ℕ → List (Option Pod) → N → N
removed_through j [] info = info
removed_through zero (v ∷ vs) info = remove_pod_from_node_no_fail v info
removed_through (suc j) (v ∷ vs) info = removed_through j vs (remove_pod_from_node_no_fail v info)

-- The answer of a search from `lo` below `hi` for the first number that passes a test
abbrev pub IsFirst : (ℕ → Bool) → ℕ → ℕ → Option ℕ → Type 0
IsFirst test lo hi none = (j : ℕ) → lo ≤ j → j < hi → test j ≡ false
IsFirst test lo hi (some i) =
    (lo ≤ i) × (i < hi) × (test i ≡ true) × ((j : ℕ) → lo ≤ j → j < i → test j ≡ false)

IsFirst-extend :
    (test : ℕ → Bool) (lo hi : ℕ) (o : Option ℕ)
    → test lo ≡ false
    → IsFirst test (suc lo) hi o
    → IsFirst test lo hi o
IsFirst-extend test lo hi none now later = λ j above below. ground (arith, later j)
IsFirst-extend test lo hi (some i) now (above, below, fit, before) =
    (omega arith, below, fit, λ j a b. ground (arith, before j))

module _ {S R C N : Type 0} ⦃api : NodeInfoApi N⦄ (k8s : Framework S R C)
    (filters : List (FilterPlugin S C N)) (state : C) (pod : Pod) (skip : List String) where
  -- The filters succeed on the node.
  abbrev pub fits : N → Bool
  fits info = k8s.is_success (run_filter_plugins k8s filters state pod info skip).0

  shifted :
      (test : ℕ → Bool) (v : Option Pod) (vs : List (Option Pod)) (i k : ℕ) (info : N)
      → test (i + suc k) ≡ fits (removed_through (suc k) (v ∷ vs) info)
      → test (suc i + k) ≡ fits (removed_through k vs (remove_pod_from_node_no_fail v info))
  unfolding removed_through
  shifted test v vs i k info h = ap test (omega arith) ∙ h

  preempt_from-IsFirst :
      (test : ℕ → Bool) (vs : List (Option Pod)) (i hi : ℕ) (info : N)
      → hi ≡ i + length vs
      → ((k : ℕ) → test (i + k) ≡ fits (removed_through k vs info))
      → IsFirst test i hi (preempt_from k8s filters state pod skip i vs info)
  unfolding preempt_from removed_through
  preempt_from-IsFirst test [] i hi info e t = λ j above below. absurd (omega arith)
  preempt_from-IsFirst test (v ∷ vs) i hi info e t =
      let info₁ = remove_pod_from_node_no_fail v info in
      let now : test i ≡ fits info₁ = ap test (omega arith) ∙ t 0 in
      elim (Bool-cases (fits info₁)) [
        | inl here ↦
            rw here (omega arith, omega arith, now ∙ here, λ j above below. absurd (omega arith))
        | inr later ↦ rw later (
            IsFirst-extend test i hi _ (now ∙ later) (
              preempt_from-IsFirst test vs (suc i) hi info₁ (omega arith)
                (λ k. shifted test v vs i k info (t (suc k)))))
      ]

  preempt_after-IsFirst :
      (test : ℕ → Bool) (n : ℕ) (vs : List (Option Pod)) (i lo hi : ℕ) (info : N)
      → lo ≡ i + n
      → hi ≡ i + length vs
      → ((k : ℕ) → test (i + k) ≡ fits (removed_through k vs info))
      → IsFirst test lo hi (preempt_after k8s filters state pod skip n i vs info)
  unfolding preempt_after
  preempt_after-IsFirst test zero vs i lo hi info l e t =
      let same : i ≡ lo = omega arith in
      subst (λ a. IsFirst test a hi (preempt_from k8s filters state pod skip i vs info)) same
        (preempt_from-IsFirst test vs i hi info e t)
  preempt_after-IsFirst test (suc n) [] i lo hi info l e t = λ j above below. absurd (omega arith)
  preempt_after-IsFirst test (suc n) (v ∷ vs) i lo hi info l e t =
      preempt_after-IsFirst test n vs (suc i) lo hi (remove_pod_from_node_no_fail v info)
        (omega arith) (omega arith) (λ k. shifted test v vs i k info (t (suc k)))

module _ {S R C N : Type 0} ⦃api : NodeInfoApi N⦄ (k8s : Framework S R C) (pod : Pod)
    (nodes : List N) (x : Node) where
  -- PreemptionPredicates, where the nodes can be listed. If a PreFilter stops the pod on the node it
  -- answers -1. Otherwise it answers the first index, from the start index on, at which every filter
  -- that is not skipped succeeds on the node without the victims up to and with that index, and -1
  -- exactly if there is none.
  pub preemption_predicates_lem :
      (m : PredicateManager S R C N) (info : N) (victims : List (Option Pod)) (start_index : ℕ)
      → ((eligible k8s pod nodes x m.allocation_pre_filters k8s.new_cycle_state ≡ false)
          × (preemption_predicates k8s m pod (inr nodes) x info victims start_index ≡ none))
        ⊎ ((eligible k8s pod nodes x m.allocation_pre_filters k8s.new_cycle_state ≡ true)
            × IsFirst
                (λ j.
                  all
                    (clears k8s pod
                      (state_after k8s pod nodes m.allocation_pre_filters k8s.new_cycle_state)
                      (removed_through j victims info)
                      (skipped k8s pod nodes m.allocation_pre_filters k8s.new_cycle_state []))
                    m.allocation_filters)
                start_index
                (length victims)
                (preemption_predicates k8s m pod (inr nodes) x info victims start_index))
  unfolding preemption_predicates run_pre_filter_plugins
  preemption_predicates_lem m info victims start_index =
      let ps = m.allocation_pre_filters in
      let c = k8s.new_cycle_state in
      let pre = run_pre_filter_plugins k8s ps c pod (inr nodes) x in
      let start : (k8s.all_nodes none || k8s.has_node x.name none) ≡ true =
        ground (arith, k8s.all_nodes-none) in
      let passing = run_pre_filters-passes k8s pod nodes x ps c none [] start in
      elim (Bool-cases (eligible k8s pod nodes x ps c)) [
        | inr e ↦ inl (e, ground arith)
        | inl e ↦
            let filters = m.allocation_filters in
            let after =
              preempt_after k8s filters pre.state pod pre.skip start_index 0 victims info in
            let test = λ (j : ℕ).
              all
                (clears k8s pod (state_after k8s pod nodes ps c) (removed_through j victims info)
                  (skipped k8s pod nodes ps c []))
                filters in
            let goes : after
                ≡ preemption_predicates k8s m pod (inr nodes) x info victims start_index =
              ground arith in
            let first : IsFirst test start_index (length victims) after =
              preempt_after-IsFirst k8s filters pre.state pod pre.skip test start_index victims 0
                start_index (length victims) info (omega arith) (omega arith)
                (λ k.
                  ap test (omega arith)
                  ∙ sym (
                      run_filter_plugins-run_pre_filters k8s pod nodes x ps filters c
                        (removed_through k victims info) start e)) in
            inr (e, subst (IsFirst test start_index (length victims)) goes first)
      ]
