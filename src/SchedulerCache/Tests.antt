-- ===== src/SchedulerCache/Tests.antt =====
-- A NodeInfo to run the cache with, runs of it, and the theorems at concrete inputs.
use yunikorn_k8shim.Prelude.{
  ℕ, String, ◌≡◌, refl, false, none, some, List, [], ◌∷◌, ◌++◌, ◌==◌, eq_iff, arith, if◌then◌else◌,
  not, ◌&&◌,
}
use yunikorn_k8shim.Prelude.Dict.{Dict, lookup, keys}
use yunikorn_k8shim.Pod.{Pod, pod_pending, with_node, wants_node}
use yunikorn_k8shim.SchedulerCache.Defs.{
  SchedulerCache, new_scheduler_cache, update_pod, remove_pod, assume_pod, forget_pod,
}
use yunikorn_k8shim.SchedulerCache.Nodes.{update_node, remove_node}
use yunikorn_k8shim.SchedulerCache.Invariant.{on_node, IsSound, IsValid}
use yunikorn_k8shim.SchedulerCache.Frame.{Frame}
use yunikorn_k8shim.SchedulerCache.Update.{effective}
use yunikorn_k8shim.SchedulerCache.Place.{is_known, Placed}
use yunikorn_k8shim.SchedulerCache.Settle.{update_pod_lem}
use yunikorn_k8shim.SchedulerCache.Remove.{Gone, remove_pod_lem}
use yunikorn_k8shim.SchedulerCache.Assume.{assume_pod_lem, forget_pod_reverts}
use yunikorn_k8shim.SchedulerCache.Release.{unassumed}
use yunikorn_k8shim.SchedulerCache.RemoveNode.{NodeLeft, remove_node_lem}
use yunikorn_k8shim.SchedulerCache.AddNode.{NodeAdded, update_node_new}
use yunikorn_k8shim.Prelude.Unique.{Unique}
use yunikorn_k8shim.SchedulerCache.Plain.{
  PlainInfo, plain_info, pod_on, node_named, busy_ops, program, run_or_empty, busy, busy-IsValid,
  waiting, assumed, bound, fresh, n1_info, n1_known,
}
use yunikorn_k8shim.SchedulerCache.Reach.{op_forget_pod, run_ops, run_ops-new_scheduler_cache}

busy_assigned : busy.assigned_pods ≡ ("bound", "n1") ∷ ("waiting", "n1") ∷ []
unfolding program run_or_empty
busy_assigned = refl

busy_orphans : keys busy.orphaned_pods ≡ "orphan" ∷ []
unfolding program run_or_empty
busy_orphans = refl

-- The waiting pod is forgotten, and updatePod gives it a node again only if it is assumed.
forgotten_is_pending :
    lookup "waiting"
      (run_or_empty
        (busy_ops ++ op_forget_pod (pod_on "waiting" "n1" pod_pending) ∷ [])).assigned_pods
    ≡ none
unfolding program run_or_empty
forgotten_is_pending = refl

update_pod_lem_example :
    (c' : SchedulerCache PlainInfo) × (update_pod waiting busy
      ≡ some (
        c',
        not (
            wants_node (effective waiting busy)
            && not (is_known (effective waiting busy).node_name busy)),
      ))
    × Placed (effective waiting busy) busy c'
update_pod_lem_example =
    update_pod_lem waiting busy busy-IsValid.sound (λ e. ground (arith, eq_iff "waiting" ""))

remove_pod_lem_example :
    (c' : SchedulerCache PlainInfo) × (remove_pod bound busy ≡ some c') × Gone "bound" busy c'
remove_pod_lem_example =
    remove_pod_lem bound busy busy-IsValid.sound (λ e. ground (arith, eq_iff "bound" ""))

assume_pod_lem_example :
    (c' : SchedulerCache PlainInfo) × (assume_pod fresh false busy ≡ some c')
    × IsSound c'
    × (lookup "fresh" c'.pods_map ≡ some fresh)
    × (lookup "fresh" c'.assigned_pods ≡ some "n1")
    × (on_node "fresh" "n1" c' ≡ some 1)
    × (lookup "fresh" c'.assumed_pods ≡ some false)
    × ((k : String) → ("fresh" == k) ≡ false → Frame k busy c')
unfolding program run_or_empty
assume_pod_lem_example =
    assume_pod_lem fresh false busy busy-IsValid.sound (λ e. ground (arith, eq_iff "fresh" ""))
      (λ e. ground (arith, eq_iff "n1" "")) refl refl

forget_pod_reverts_example :
    (c' : SchedulerCache PlainInfo) × (forget_pod assumed busy ≡ some c')
    × IsSound c'
    × (lookup "waiting" c'.pods_map ≡ some (with_node assumed ""))
    × (lookup "waiting" c'.assigned_pods ≡ none)
    × ((n : String) (m : ℕ) → on_node "waiting" n c' ≡ some m → m ≡ 0)
    × (lookup "waiting" c'.orphaned_pods ≡ none)
    × (lookup "waiting" c'.assumed_pods ≡ none)
unfolding program run_or_empty
forget_pod_reverts_example =
    forget_pod_reverts assumed busy busy-IsValid.sound (λ e. ground (arith, eq_iff "waiting" ""))
      refl refl

remove_node_lem_example :
    (c' : SchedulerCache PlainInfo) × (remove_node (node_named "n1") busy
      ≡ some (c', some (node_named "n1"), unassumed busy (bound ∷ assumed ∷ [])))
    × IsSound c'
    × ((m : String) → lookup m c'.nodes_map ≡ (if "n1" == m then none else lookup m busy.nodes_map))
    × ((k : String) → NodeLeft "n1" busy c' k)
remove_node_lem_example = remove_node_lem (node_named "n1") n1_info busy busy-IsValid.sound n1_known

update_node_new_example :
    (c' : SchedulerCache PlainInfo) × (adopted : List Pod) × (update_node (node_named "n2") busy
      ≡ some (c', none, adopted))
    × NodeAdded "n2" busy c'
unfolding program run_or_empty
update_node_new_example = update_node_new (node_named "n2") busy busy-IsValid refl

run_ops-new_scheduler_cache_example :
    (c : SchedulerCache PlainInfo) × (run_ops busy_ops new_scheduler_cache ≡ some c) × IsValid c
run_ops-new_scheduler_cache_example = run_ops-new_scheduler_cache busy_ops refl

abbrev claims : Dict (Dict ℕ)
claims = ("claim", ("n1", 2) ∷ ("n2", 1) ∷ []) ∷ ("old", ("n1", 1) ∷ []) ∷ []

claims-Unique : Unique claims
unfolding lookup
claims-Unique = (refl, (refl, tt))

plain-Unique : Unique {V = ℕ} (("claim", 1) ∷ [])
unfolding lookup
plain-Unique = (refl, tt)

abbrev bare : PlainInfo
bare = record { owner = none; held = [] }
