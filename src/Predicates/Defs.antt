-- ===== src/Predicates/Defs.antt =====
-- Predicates and PreemptionPredicates of pkg/plugin/predicates/predicate_manager.go.
use yunikorn_k8shim.Prelude.{
  ℕ, zero, suc, String, Bool, true, false, not, ◌&&◌, Option, none, some, List, [], ◌∷◌, ◌⊎◌, inl,
  inr, if◌then◌else◌, member,
}
use yunikorn_k8shim.Prelude.Dict.{Dict, lookup}
use yunikorn_k8shim.Pod.{Pod}
use yunikorn_k8shim.SchedulerCache.{Node, NodeInfoApi}
use yunikorn_k8shim.Predicates.Framework.{Framework, PreFilterPlugin, FilterPlugin, Plugin}

-- predicateManagerImpl
pub record PredicateManager (S R C N : Type 0) : Type 0 where
  pub reservation_pre_filters : List (PreFilterPlugin S R C N)
  pub allocation_pre_filters : List (PreFilterPlugin S R C N)
  pub reservation_filters : List (FilterPlugin S C N)
  pub allocation_filters : List (FilterPlugin S C N)

-- What runPreFilterPlugins returns, with the cycle state after it. The map `skip` has the names.
pub record PreFiltered (S C : Type 0) : Type 0 where
  pub status : S
  pub plugin : String
  pub skip : List String
  pub state : C

-- A filter plugin is run by its name: enabled there, or by the wildcard.
abbrev pub is_enabled : Dict Bool → String → Bool
is_enabled plugin_filter name = elim (lookup name plugin_filter) [
  | some enabled ↦ enabled
  | none ↦ elim (lookup "*" plugin_filter) [ some enabled ↦ enabled | none ↦ false ]
]

module _ {S R C N : Type 0} where
  -- addPlugins, onto an empty list
  unfoldable pub add_plugins : List (Plugin S R C N) → Dict Bool → List (Plugin S R C N)
  add_plugins [] plugin_filter = []
  add_plugins (p ∷ ps) plugin_filter =
      let rest = add_plugins ps plugin_filter in
      if is_enabled plugin_filter p.name then p ∷ rest else rest

  -- preFilterPlugins
  unfoldable pub pre_filter_plugins : List (Plugin S R C N) → List (PreFilterPlugin S R C N)
  pre_filter_plugins [] = []
  pre_filter_plugins (p ∷ ps) = elim p.as_pre_filter [
    | some run ↦ record { name = p.name; pre_filter = run } ∷ pre_filter_plugins ps
    | none ↦ pre_filter_plugins ps
  ]

  -- filterPlugins
  unfoldable pub filter_plugins : List (Plugin S R C N) → List (FilterPlugin S C N)
  filter_plugins [] = []
  filter_plugins (p ∷ ps) = elim p.as_filter [
    | some run ↦ record { name = p.name; filter = run } ∷ filter_plugins ps
    | none ↦ filter_plugins ps
  ]

  -- newPredicateManagerInternal, once the plugins are created
  unfoldable pub new_predicate_manager_internal :
      List (Plugin S R C N)
      → (Dict Bool)
      → (Dict Bool)
      → (Dict Bool)
      → (Dict Bool)
      → PredicateManager S R C N
  new_predicate_manager_internal created res_pre alloc_pre res_filt alloc_filt = record {
    reservation_pre_filters = pre_filter_plugins (add_plugins created res_pre);
    allocation_pre_filters = pre_filter_plugins (add_plugins created alloc_pre);
    reservation_filters = filter_plugins (add_plugins created res_filt);
    allocation_filters = filter_plugins (add_plugins created alloc_filt);
  }

  -- NewPredicateManager, by the names of the Kubernetes plugins
  unfoldable pub new_predicate_manager : List (Plugin S R C N) → PredicateManager S R C N
  new_predicate_manager created =
      new_predicate_manager_internal created
        (("NodeAffinity", true)
          ∷ ("NodePorts", true)
          ∷ ("PodTopologySpread", true)
          ∷ ("InterPodAffinity", true)
          ∷ [])
        (("*", true) ∷ [])
        (("NodeUnschedulable", true)
          ∷ ("NodeName", true)
          ∷ ("TaintToleration", true)
          ∷ ("NodeAffinity", true)
          ∷ ("NodePorts", true)
          ∷ ("PodTopologySpread", true)
          ∷ ("InterPodAffinity", true)
          ∷ [])
        (("*", true) ∷ [])

-- removePodFromNodeNoFail
unfoldable pub remove_pod_from_node_no_fail :
    {N : Type 0} ⦃api : NodeInfoApi N⦄ → Option Pod → N → N
remove_pod_from_node_no_fail none info = info
remove_pod_from_node_no_fail ⦃api⦄ (some pod) info = api.remove_pod_info pod info

module _ {S R C N : Type 0} (k8s : Framework S R C) where
  open k8s use {
    nil_status, new_success, is_success, is_skip, is_rejected, message, as_status, new_unresolvable,
    new_error, merge, all_nodes, has_node, new_cycle_state, running_pre_filter, running_filter,
  }

  -- The loop of runPreFilterPlugins
  unfoldable pub run_pre_filters :
      List (PreFilterPlugin S R C N)
      → C
      → Option R
      → List String
      → Pod
      → List N
      → Node
      → PreFiltered S C
  run_pre_filters [] state merged skip pod nodes x = record {
    status = nil_status;
    plugin = "";
    skip = skip;
    state = state;
  }
  run_pre_filters (p ∷ ps) state merged skip pod nodes x =
      let ((allowed, status), state₁) = p.pre_filter state pod nodes in
      let merged₁ = merge merged allowed in
      let skip₁ = if is_skip status then p.name ∷ skip else skip in
      let rest = run_pre_filters ps state₁ merged₁ skip₁ pod nodes x in
      if not (is_skip status) && not (is_success status)
      then (if is_rejected status
          then record { status = status; plugin = ""; skip = skip₁; state = state₁ }
          else record {
            status = as_status (running_pre_filter p.name (message status));
            plugin = p.name;
            skip = skip₁;
            state = state₁;
          })
      else (if not (all_nodes merged₁) && not (has_node x.name merged₁)
          then record {
            status = new_unresolvable "node not eligible";
            plugin = p.name;
            skip = skip₁;
            state = state₁;
          }
          else rest)

  -- runPreFilterPlugins. The list of all nodes may fail with an error.
  unfoldable pub run_pre_filter_plugins :
      List (PreFilterPlugin S R C N) → C → Pod → String ⊎ List N → Node → PreFiltered S C
  run_pre_filter_plugins plugins state pod (inl error) x = record {
    status = as_status error;
    plugin = "";
    skip = [];
    state = state;
  }
  run_pre_filter_plugins plugins state pod (inr nodes) x =
      run_pre_filters plugins state none [] pod nodes x

  -- runFilterPlugins
  unfoldable pub run_filter_plugins :
      List (FilterPlugin S C N) → C → Pod → N → List String → S × String
  run_filter_plugins [] state pod info skip = (new_success, "")
  run_filter_plugins (p ∷ ps) state pod info skip =
      let rest = run_filter_plugins ps state pod info skip in
      let status = p.filter state pod info in
      if member p.name skip
      then rest
      else (if is_success status
          then rest
          else (if is_rejected status
              then (status, p.name)
              else (new_error (running_filter p.name pod.name (message status)), p.name)))

  -- podFitsNode: the failed plugin and the text of the error, `none` without an error
  unfoldable pub pod_fits_node :
      List (PreFilterPlugin S R C N)
      → List (FilterPlugin S C N)
      → Pod
      → String ⊎ List N
      → Node
      → N
      → Option (String × String)
  pod_fits_node pre_filters filters pod nodes x info =
      let pre = run_pre_filter_plugins pre_filters new_cycle_state pod nodes x in
      if not (is_success pre.status) && not (is_skip pre.status)
      then some (pre.plugin, message pre.status)
      else (let (status, plugin) = run_filter_plugins filters pre.state pod info pre.skip in
          if is_success status then none else some (plugin, message status))

  -- Predicates, with predicatesAllocate and predicatesReserve
  unfoldable pub predicates :
      PredicateManager S R C N → Pod → String ⊎ List N → Node → N → Bool → Option (String × String)
  predicates m pod nodes x info allocate =
      if allocate
      then pod_fits_node m.allocation_pre_filters m.allocation_filters pod nodes x info
      else pod_fits_node m.reservation_pre_filters m.reservation_filters pod nodes x info

  module _ ⦃api : NodeInfoApi N⦄ where
    -- The second loop of PreemptionPredicates, from the index `i` on
    unfoldable pub preempt_from :
        List (FilterPlugin S C N) → C → Pod → List String → ℕ → List (Option Pod) → N → Option ℕ
    preempt_from filters state pod skip i [] info = none
    preempt_from filters state pod skip i (v ∷ vs) info =
        let info₁ = remove_pod_from_node_no_fail v info in
        let rest = preempt_from filters state pod skip (suc i) vs info₁ in
        if is_success (run_filter_plugins filters state pod info₁ skip).0 then some i else rest

    -- Both loops: the first `n` victims are removed, then the others are tried.
    unfoldable pub preempt_after :
        List (FilterPlugin S C N) → C → Pod → List String → ℕ → ℕ → List (Option Pod) → N → Option ℕ
    preempt_after filters state pod skip zero i vs info =
        preempt_from filters state pod skip i vs info
    preempt_after filters state pod skip (suc n) i [] info = none
    preempt_after filters state pod skip (suc n) i (v ∷ vs) info =
        preempt_after filters state pod skip n (suc i) vs (remove_pod_from_node_no_fail v info)

    -- PreemptionPredicates, for a start index that is not negative; `none` is -1
    unfoldable pub preemption_predicates :
        PredicateManager S R C N
        → Pod
        → String ⊎ List N
        → Node
        → N
        → List (Option Pod)
        → ℕ
        → Option ℕ
    preemption_predicates m pod nodes x info victims start_index =
        let pre = run_pre_filter_plugins m.allocation_pre_filters new_cycle_state pod nodes x in
        if not (is_success pre.status) && not (is_skip pre.status)
        then none
        else preempt_after m.allocation_filters pre.state pod pre.skip start_index 0 victims info
