-- ===== src/Predicates/Fits.antt =====
-- When podFitsNode of pkg/plugin/predicates/predicate_manager.go has no error, in terms of what each
-- plugin answers.
use yunikorn_k8shim.Prelude.{
  String, ◌≡◌, ◌↔◌, refl, Bool, true, ◌&&◌, ◌||◌, Option, none, List, [], ◌∷◌, all, inl, inr,
  if◌then◌else◌, member, arith, Bool-cases, ap, ◌∙◌,
}
use yunikorn_k8shim.Pod.{Pod}
use yunikorn_k8shim.SchedulerCache.{Node}
use yunikorn_k8shim.Predicates.Framework.{Framework, PreFilterPlugin, FilterPlugin}
use yunikorn_k8shim.Predicates.Defs.{
  run_pre_filters, run_pre_filter_plugins, run_filter_plugins, pod_fits_node,
}

module _ {S R C : Type 0} (k8s : Framework S R C) where
  -- A status that stops nothing
  abbrev pub passes : S → Bool
  passes s = k8s.is_success s || k8s.is_skip s

  -- A result of PreFilter that leaves the node in
  abbrev pub allows : Node → Option R → Bool
  allows x r = k8s.all_nodes r || k8s.has_node x.name r

module _ {S R C N : Type 0} (k8s : Framework S R C) (pod : Pod) where
  open k8s use {is_success, is_skip, merge, new_cycle_state}

  -- The filter succeeds, or was told to be skipped.
  abbrev pub clears : C → N → List String → FilterPlugin S C N → Bool
  clears state info skip f = member f.name skip || is_success (f.filter state pod info)

  run_filter_plugins_lem :
      (fs : List (FilterPlugin S C N)) (state : C) (info : N) (skip : List String)
      → is_success (run_filter_plugins k8s fs state pod info skip).0
        ≡ all (clears state info skip) fs
  unfolding run_filter_plugins
  run_filter_plugins_lem [] state info skip = k8s.new_success-is_success
  run_filter_plugins_lem (f ∷ fs) state info skip = ground (
    arith,
    run_filter_plugins_lem fs state info skip,
    k8s.new_error-fails
        (k8s.running_filter f.name pod.name (k8s.message (f.filter state pod info))),
  )

  module _ (nodes : List N) where
    -- The cycle state after all PreFilters, and the plugins that asked to be skipped
    unfoldable pub state_after : List (PreFilterPlugin S R C N) → C → C
    state_after [] state = state
    state_after (p ∷ ps) state = state_after ps (p.pre_filter state pod nodes).1

    unfoldable pub skipped : List (PreFilterPlugin S R C N) → C → List String → List String
    skipped [] state names = names
    skipped (p ∷ ps) state names =
        let ((_, status), state₁) = p.pre_filter state pod nodes in
        skipped ps state₁ (if is_skip status then p.name ∷ names else names)

    module _ (x : Node) where
      -- Every PreFilter passes, and its own result leaves the node in.
      unfoldable pub eligible : List (PreFilterPlugin S R C N) → C → Bool
      eligible [] state = true
      eligible (p ∷ ps) state =
          let ((allowed, status), state₁) = p.pre_filter state pod nodes in
          (passes k8s status && allows k8s x allowed) && eligible ps state₁

      pub run_pre_filters-passes :
          (ps : List (PreFilterPlugin S R C N)) (state : C) (merged : Option R) (skip : List String)
          → allows k8s x merged ≡ true
          → passes k8s (run_pre_filters k8s ps state merged skip pod nodes x).status
            ≡ eligible ps state
      unfolding run_pre_filters eligible
      run_pre_filters-passes [] state merged skip h = ground (arith, k8s.nil_status-is_success)
      run_pre_filters-passes (p ∷ ps) state merged skip h =
          let ((allowed, status), state₁) = p.pre_filter state pod nodes in
          ground (
            arith,
            k8s.merge-allows x.name merged allowed,
            k8s.as_status-fails (k8s.running_pre_filter p.name (k8s.message status)),
            k8s.new_unresolvable-fails "node not eligible",
            run_pre_filters-passes ps state₁ (merge merged allowed)
                (if is_skip status then p.name ∷ skip else skip),
          )

      pub run_pre_filters-state :
          (ps : List (PreFilterPlugin S R C N)) (state : C) (merged : Option R) (skip : List String)
          → allows k8s x merged ≡ true
          → eligible ps state ≡ true
          → (run_pre_filters k8s ps state merged skip pod nodes x).state ≡ state_after ps state
      unfolding run_pre_filters eligible state_after
      run_pre_filters-state [] state merged skip h e = refl
      run_pre_filters-state (p ∷ ps) state merged skip h e =
          let ((allowed, status), state₁) = p.pre_filter state pod nodes in
          ground (
            arith,
            k8s.merge-allows x.name merged allowed,
            run_pre_filters-state ps state₁ (merge merged allowed)
                (if is_skip status then p.name ∷ skip else skip),
          )

      pub run_pre_filters-skip :
          (ps : List (PreFilterPlugin S R C N)) (state : C) (merged : Option R) (skip : List String)
          → allows k8s x merged ≡ true
          → eligible ps state ≡ true
          → (run_pre_filters k8s ps state merged skip pod nodes x).skip ≡ skipped ps state skip
      unfolding run_pre_filters eligible skipped
      run_pre_filters-skip [] state merged skip h e = refl
      run_pre_filters-skip (p ∷ ps) state merged skip h e =
          let ((allowed, status), state₁) = p.pre_filter state pod nodes in
          ground (
            arith,
            k8s.merge-allows x.name merged allowed,
            run_pre_filters-skip ps state₁ (merge merged allowed)
                (if is_skip status then p.name ∷ skip else skip),
          )

      -- The filters that are run after PreFilters that pass
      pub run_filter_plugins-run_pre_filters :
          (ps : List (PreFilterPlugin S R C N)) (fs : List (FilterPlugin S C N)) (state : C)
          (info : N)
          → allows k8s x none ≡ true
          → eligible ps state ≡ true
          → is_success
              (run_filter_plugins k8s fs
                (run_pre_filters k8s ps state none [] pod nodes x).state
                pod
                info
                (run_pre_filters k8s ps state none [] pod nodes x).skip).0
            ≡ all (clears (state_after ps state) info (skipped ps state [])) fs
      run_filter_plugins-run_pre_filters ps fs state info start e =
          let pre = run_pre_filters k8s ps state none [] pod nodes x in
          run_filter_plugins_lem fs pre.state info pre.skip
          ∙ ap (λ t. all (clears t info pre.skip) fs)
              (run_pre_filters-state ps state none [] start e)
          ∙ ap (λ ns. all (clears (state_after ps state) info ns) fs)
              (run_pre_filters-skip ps state none [] start e)

      -- podFitsNode, where the nodes can be listed, has no error exactly when every PreFilter
      -- passes and its own result leaves the node in, and every filter that no PreFilter skipped
      -- succeeds, in the cycle state that all PreFilters leave.
      pub pod_fits_node_iff :
          (ps : List (PreFilterPlugin S R C N)) (fs : List (FilterPlugin S C N)) (info : N)
          → (pod_fits_node k8s ps fs pod (inr nodes) x info ≡ none) ↔ (
              (eligible ps new_cycle_state ≡ true)
              × (all
                    (clears (state_after ps new_cycle_state) info (skipped ps new_cycle_state []))
                    fs
                  ≡ true))
      unfolding pod_fits_node run_pre_filter_plugins
      pod_fits_node_iff ps fs info =
          let pre = run_pre_filters k8s ps new_cycle_state none [] pod nodes x in
          let start : allows k8s x none ≡ true = ground (arith, k8s.all_nodes-none) in
          elim (Bool-cases (eligible ps new_cycle_state)) [
            | inl e ↦
                let same = run_filter_plugins-run_pre_filters ps fs new_cycle_state info start e in
                let ok = run_pre_filters-passes ps new_cycle_state none [] start in
                (λ h. (e, ground arith), λ h. ground arith)
            | inr e ↦
                let bad = run_pre_filters-passes ps new_cycle_state none [] start in
                (λ h. absurd (ground arith), λ (h, _). absurd (cc))
          ]
