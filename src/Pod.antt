-- ===== src/Pod.antt =====
-- The part of a Kubernetes pod that the shim reads, and the tests of
-- pkg/common/utils/utils.go on it.
use yunikorn_k8shim.Prelude.{
  ℕ, String, Bool, true, false, not, ◌&&◌, ◌||◌, ◌==◌, Option, none, some, List, ltb,
}
use yunikorn_k8shim.Prelude.Dict.{Dict}

-- v1.PodPhase
pub data Phase : Type 0 where
  pod_pending pod_running pod_succeeded pod_failed pod_unknown : Phase

-- v1.Affinity, as far as the cache asks: whether PodAffinity is set, and for a PodAntiAffinity
-- that is set the number of its required terms.
pub record Affinity : Type 0 where
  pub pod_affinity : Bool
  pub pod_anti_affinity : Option ℕ

pub record Pod : Type 0 where
  pub uid : String
  pub namespace : String
  pub name : String
  pub node_name : String
  pub scheduler_name : String
  pub phase : Phase
  pub affinity : Option Affinity
  pub labels : Dict String
  pub annotations : Dict String
  -- The names of the scheduling gates, and the UIDs of the owners.
  pub scheduling_gates : List String
  pub owner_references : List String
  pub priority_class_name : String

unfoldable pub is_pod_running : Pod → Bool
is_pod_running p = elim p.phase [ pod_running ↦ true | _ ↦ false ]

unfoldable pub is_pod_terminated : Pod → Bool
is_pod_terminated p = elim p.phase [ pod_failed ↦ true | pod_succeeded ↦ true | _ ↦ false ]

-- len(pod.Spec.NodeName) != 0
unfoldable pub is_assigned_pod : Pod → Bool
is_assigned_pod p = not (p.node_name == "")

-- The pod has a node to be on: it is assigned to one, and it is not terminated.
abbrev pub wants_node : Pod → Bool
wants_node p = is_assigned_pod p && not (is_pod_terminated p)

-- A copy whose node name is set anew, as both DeepCopy sites of the cache make it.
abbrev pub with_node : Pod → String → Pod
with_node p n = record p { node_name = n }

-- podWithAffinity
unfoldable pub pod_with_affinity : Pod → Bool
pod_with_affinity p = elim p.affinity [
  | none ↦ false
  | some a ↦ a.pod_affinity || (elim a.pod_anti_affinity [ none ↦ false | some _ ↦ true ])
]

-- podWithRequiredAntiAffinity
unfoldable pub pod_with_required_anti_affinity : Pod → Bool
pod_with_required_anti_affinity p = elim p.affinity [
  | none ↦ false
  | some a ↦ elim a.pod_anti_affinity [ none ↦ false | some terms ↦ ltb 0 terms ]
]
