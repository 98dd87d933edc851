-- ===== src/SchedulerCache/Defs.antt =====
-- The state of the cache, and its operations in the order of the source.
-- A node in one of the cached lists stands by its name, which is what its pointer is found by.
use yunikorn_k8shim.Prelude.{
  is_empty, ℕ, String, Bool, true, false, not, ◌&&◌, ◌||◌, Option, none, some, List, [], ◌∷◌, ◌==◌,
  if◌then◌else◌,
}
use yunikorn_k8shim.Prelude.Dict.{Dict, lookup, insert, delete}
use yunikorn_k8shim.Pod.{
  Pod, with_node, is_pod_running, is_pod_terminated, is_assigned_pod, pod_with_affinity,
  pod_with_required_anti_affinity,
}
use yunikorn_k8shim.SchedulerCache.NodeInfo.{NodeInfoApi, PriorityClass}

infixl 5 ◌>>=◌
abbrev pub ◌>>=◌ {ℓ κ} : {A : Type ℓ} {B : Type κ} → Option A → (A → Option B) → Option B
none >>= f = none
some a >>= f = f a

pub record SchedulerCache (N : Type 0) : Type 0 where
  pub nodes_map : Dict N
  pub pods_map : Dict Pod
  pub pc_map : Dict PriorityClass
  pub assigned_pods : Dict String
  pub assumed_pods : Dict Bool
  pub orphaned_pods : Dict Pod
  pub pvc_ref_counts : Dict (Dict ℕ)
  pub nodes_info : Option (List String)
  pub nodes_info_pods_with_affinity : Option (List String)
  pub nodes_info_pods_with_req_anti_affinity : Option (List String)

-- NewSchedulerCache
unfoldable pub new_scheduler_cache : {N : Type 0} → SchedulerCache N
new_scheduler_cache = record {
  nodes_map = [];
  pods_map = [];
  pc_map = [];
  assigned_pods = [];
  assumed_pods = [];
  orphaned_pods = [];
  pvc_ref_counts = [];
  nodes_info = none;
  nodes_info_pods_with_affinity = none;
  nodes_info_pods_with_req_anti_affinity = none;
}

abbrev pub is_some {ℓ} : {A : Type ℓ} → Option A → Bool
is_some none = false
is_some (some _) = true

-- The first loop of updatePVCRefCounts: the node leaves every claim, and a claim without nodes goes.
unfoldable pub drop_node : String → Dict (Dict ℕ) → Dict (Dict ℕ)
drop_node n [] = []
drop_node n ((k, v) ∷ m) =
    let rest = drop_node n m in let v' = delete n v in if is_empty v' then rest else (k, v') ∷ rest

-- entry[nodeName] = count, in the entry of the claim, which is made if there is none
unfoldable pub set_claim : String → String → ℕ → Dict (Dict ℕ) → Dict (Dict ℕ)
set_claim n k count m = elim (lookup k m) [
  | none ↦ insert k ((n, count) ∷ []) m
  | some entry ↦ insert k (insert n count entry) m
]

-- The second loop of updatePVCRefCounts.
unfoldable pub add_node : String → Dict ℕ → Dict (Dict ℕ) → Dict (Dict ℕ)
add_node n [] m = m
add_node n ((k, count) ∷ counts) m = add_node n counts (set_claim n k count m)

module _ {N : Type 0} ⦃api : NodeInfoApi N⦄ where
  open api use {new_node_info, set_node, node, pods, add_pod, remove_pod_info, pvc_counts}

  -- Both loops of updatePVCRefCounts.
  unfoldable pub recount : String → N → Bool → Dict (Dict ℕ) → Dict (Dict ℕ)
  recount n info remove_node counts =
      let dropped = drop_node n counts in
      if remove_node then dropped else add_node n (pvc_counts info) dropped

  -- updatePVCRefCounts. A nil Node of the argument is dereferenced: a panic.
  unfoldable pub update_pvc_ref_counts : N → Bool → SchedulerCache N → Option (SchedulerCache N)
  update_pvc_ref_counts info remove_node c = do
    x ← node info
    some (record c { pvc_ref_counts = recount x.name info remove_node c.pvc_ref_counts })

  -- The lists of nodes by affinity are dropped if the pod bears on them.
  unfoldable pub reset_affinity : Pod → SchedulerCache N → SchedulerCache N
  reset_affinity p c = record c {
    nodes_info_pods_with_affinity =
        (if pod_with_affinity p then none else c.nodes_info_pods_with_affinity);
    nodes_info_pods_with_req_anti_affinity =
        (if pod_with_required_anti_affinity p
          then none
          else c.nodes_info_pods_with_req_anti_affinity);
  }

  unfoldable pub set_info : String → N → SchedulerCache N → SchedulerCache N
  set_info n info c = record c { nodes_map = insert n info c.nodes_map }

  -- The part of updatePod under `if ok`: the current version of the pod leaves its node.
  unfoldable pub leave_node : Pod → Pod → String → SchedulerCache N → Option (SchedulerCache N)
  leave_node pod curr n c = elim (lookup n c.nodes_map) [
    | none ↦ some c
    | some info ↦
        let info' = remove_pod_info curr info in
        (do
          c' ← update_pvc_ref_counts info' false (set_info n info' c)
          some (reset_affinity pod c'))
  ]

  -- An assumed pod whose new version has no node keeps the node that it is assumed on.
  unfoldable pub keep_assumed : Pod → String → SchedulerCache N → Pod
  keep_assumed pod n c =
      if (pod.node_name == "") && is_some (lookup pod.uid c.assumed_pods)
      then with_node pod n
      else pod

  -- The first part of updatePod: the current version of the pod goes.
  unfoldable pub remove_current :
      Pod → Option Pod → SchedulerCache N → Option (SchedulerCache N × Pod)
  remove_current pod none c = some (c, pod)
  remove_current pod (some curr) c =
      let key = pod.uid in
      let c₁ = record c {
        pods_map = delete key c.pods_map;
        orphaned_pods = delete key c.orphaned_pods;
      } in
      elim (lookup key c₁.assigned_pods) [
        | none ↦ some (record c₁ { assigned_pods = delete key c₁.assigned_pods }, pod)
        | some n ↦ (do
          c₂ ← leave_node pod curr n c₁
          some (record c₂ { assigned_pods = delete key c₂.assigned_pods }, keep_assumed pod n c₂))
      ]

  -- "delete all assumed state from cache, as pod has now been bound"
  unfoldable pub settle : Pod → SchedulerCache N → SchedulerCache N
  settle pod c =
      if is_pod_running pod || is_pod_terminated pod
      then record c { assumed_pods = delete pod.uid c.assumed_pods }
      else c

  -- The pod joins its node, or is an orphan if the node is not there.
  unfoldable pub join_node : Pod → SchedulerCache N → Option (SchedulerCache N × Bool)
  join_node pod c = elim (lookup pod.node_name c.nodes_map) [
    | none ↦ some (record c { orphaned_pods = insert pod.uid pod c.orphaned_pods }, false)
    | some info ↦
        let info' = add_pod pod info in
        let c₁ = record (set_info pod.node_name info' c) {
          assigned_pods = insert pod.uid pod.node_name c.assigned_pods;
        } in
        (do c₂ ← update_pvc_ref_counts info' false (reset_affinity pod c₁); some (c₂, true))
  ]

  unfoldable pub assign : Pod → SchedulerCache N → Option (SchedulerCache N × Bool)
  assign pod c =
      if is_assigned_pod pod && not (is_pod_terminated pod) then join_node pod c else some (c, true)

  -- The last part of updatePod: the new version is kept, unless it is terminated.
  unfoldable pub store_pod : Pod → SchedulerCache N → SchedulerCache N
  store_pod pod c =
      if not (is_pod_terminated pod)
      then record c { pods_map = insert pod.uid pod c.pods_map }
      else record c {
        pods_map = delete pod.uid c.pods_map;
        assigned_pods = delete pod.uid c.assigned_pods;
        assumed_pods = delete pod.uid c.assumed_pods;
        orphaned_pods = delete pod.uid c.orphaned_pods;
      }

  -- updatePod; the Boolean is its result, false for an orphan
  unfoldable pub update_pod : Pod → SchedulerCache N → Option (SchedulerCache N × Bool)
  update_pod pod c = do
    (c₁, pod') ← remove_current pod (lookup pod.uid c.pods_map) c
    (c₂, result) ← assign pod' (settle pod' c₁)
    some (store_pod pod' c₂, result)

  -- removePod. The node of an assigned pod is read whether or not it was found: a panic if not.
  unfoldable pub remove_pod : Pod → SchedulerCache N → Option (SchedulerCache N)
  remove_pod pod c = do
    c₁ ← (elim (lookup pod.uid c.assigned_pods) [
      | none ↦ some c
      | some n ↦ (elim (lookup n c.nodes_map) [
        | none ↦ none
        | some info ↦
            let info' = remove_pod_info pod info in
            update_pvc_ref_counts info' false (set_info n info' c)
      ])
    ])
    some (record c₁ {
      pods_map = delete pod.uid c₁.pods_map;
      assigned_pods = delete pod.uid c₁.assigned_pods;
      assumed_pods = delete pod.uid c₁.assumed_pods;
      orphaned_pods = delete pod.uid c₁.orphaned_pods;
      nodes_info_pods_with_affinity = none;
      nodes_info_pods_with_req_anti_affinity = none;
    })

  -- assumePod
  unfoldable pub assume_pod : Pod → Bool → SchedulerCache N → Option (SchedulerCache N)
  assume_pod pod all_bound c = do
    (c₁, _) ← update_pod pod c
    some (record c₁ { assumed_pods = insert pod.uid all_bound c₁.assumed_pods })

  -- forgetPod
  unfoldable pub forget_pod : Pod → SchedulerCache N → Option (SchedulerCache N)
  forget_pod pod c =
      let revert = is_some (lookup pod.uid c.assumed_pods) && not (pod.node_name == "") in
      let c₁ = record c { assumed_pods = delete pod.uid c.assumed_pods } in
      (do (c₂, _) ← update_pod (if revert then with_node pod "" else pod) c₁; some c₂)
