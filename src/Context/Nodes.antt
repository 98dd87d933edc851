-- ===== src/Context/Nodes.antt =====
-- What the context does when a node comes, changes or goes, in pkg/cache/context.go, with
-- GetNodeResource of pkg/common/resource.go.
use yunikorn_k8shim.Prelude.{
  ℕ, String, Bool, false, Option, none, some, List, [], ◌∷◌, ◌==◌, if◌then◌else◌,
}
use yunikorn_k8shim.Prelude.Dict.{Dict, insert}
use yunikorn_k8shim.Pod.{Pod}
use yunikorn_k8shim.Resource.{Resource, equals}
use yunikorn_k8shim.Task.{SchedulerInterface}
use yunikorn_k8shim.Gang.Defs.{QuantityApi, canonical}
use yunikorn_k8shim.SchedulerCache.{Node, NodeInfoApi, ◌>>=◌, update_node, remove_node}
use yunikorn_k8shim.Context.Metadata.{Env, get_application_id_from_pod}
use yunikorn_k8shim.Context.Defs.{
  Context, send, set_cache, node_create_drain, node_drain, node_drain_to_schedulable,
  node_decommission, node_update,
}
use yunikorn_k8shim.Context.Pods.{update_foreign_pod, update_yunikorn_pod}

-- getResource: cpu counts in thousandths, under vcore
unfoldable pub allocatable_into : Dict (ℕ × ℕ) → Resource → Resource
allocatable_into [] acc = acc
allocatable_into ((name, (value, milli_value)) ∷ rest) acc =
    allocatable_into rest
      (insert (canonical name) (if name == "cpu" then milli_value else value) acc)

-- GetNodeResource
unfoldable pub get_node_resource : Node → Resource
get_node_resource x = allocatable_into x.allocatable []

-- How registerNode ends: the call fails, or the core has answered.
pub data Registration : Type 0 where
  not_sent : Registration
  answered : (accepted : Bool) → Registration

module _ {N : Type 0} where
  -- updateNodeSchedulability
  unfoldable pub update_node_schedulability : Node → Node → Context N → Context N
  update_node_schedulability prev x ctx =
      if prev.unschedulable
      then (if x.unschedulable then ctx else send (node_drain_to_schedulable x.name) ctx)
      else (if x.unschedulable then send (node_drain x.name) ctx else ctx)

  -- The branch of updateNodeInternal for an existing node.
  unfoldable pub change_node : Node → Node → Context N → Context N
  change_node prev x ctx = update_node_schedulability prev x (
      if equals false (some (get_node_resource prev)) (some (get_node_resource x))
      then ctx
      else send (node_update x.name (get_node_resource x)) ctx)

module _ {Q : Type 0} ⦃quantities : QuantityApi Q⦄ (env : Env Q)
    (pod_resource : Pod → Option Resource) (alias : Pod → String) {N : Type 0} ⦃api : NodeInfoApi N⦄
    ⦃si : SchedulerInterface⦄ where
  -- The loop over adoptedPods.
  unfoldable pub register_adopted : List Pod → Context N → Option (Context N)
  register_adopted [] ctx = some ctx
  register_adopted (pod ∷ pods) ctx = do
    ctx₁ ←
        (let app_id = get_application_id_from_pod env pod in
          if app_id == ""
          then update_foreign_pod env pod_resource alias none pod ctx
          else update_yunikorn_pod env pod_resource alias app_id pod ctx)
    register_adopted pods ctx₁

  -- The branch of updateNodeInternal for a new node, after its registration.
  unfoldable pub settle_new_node : Node → List Pod → Context N → Option (Context N)
  settle_new_node x adopted ctx = do
    ctx₁ ← register_adopted adopted ctx
    some (if x.unschedulable then ctx₁ else send (node_drain_to_schedulable x.name) ctx₁)

  -- A registration that failed takes the node out of the cache again.
  unfoldable pub drop_new_node : Node → Context N → Option (Context N)
  drop_new_node x ctx = do (c, _, _) ← remove_node x ctx.scheduler_cache; some (set_cache c ctx)

  -- registerNode, and what updateNodeInternal does then. While it waits for the answer the lock is
  -- free, and `meanwhile` is what others do.
  unfoldable pub register_new_node :
      (Context N → Option (Context N))
      → Registration
      → Node
      → List Pod
      → Context N
      → Option (Context N)
  register_new_node meanwhile not_sent x adopted ctx =
      drop_new_node x (send (node_create_drain x.name) ctx)
  register_new_node meanwhile (answered accepted) x adopted ctx = do
    ctx₁ ← meanwhile (send (node_create_drain x.name) ctx)
    if accepted then settle_new_node x adopted ctx₁ else drop_new_node x ctx₁

  -- updateNodeInternal
  unfoldable pub update_node_internal :
      (Context N → Option (Context N)) → Bool → Registration → Node → Context N → Option (Context N)
  update_node_internal meanwhile register outcome x ctx = do
    (c, prev, adopted) ← update_node x ctx.scheduler_cache
    elim prev [
      | none ↦
          if register
          then register_new_node meanwhile outcome x adopted (set_cache c ctx)
          else settle_new_node x adopted (set_cache c ctx)
      | some prev_node ↦ some (change_node prev_node x (set_cache c ctx))
    ]

-- deleteNodeInternal
unfoldable pub delete_node_internal :
    {N : Type 0} ⦃api : NodeInfoApi N⦄ → Node → Context N → Option (Context N)
delete_node_internal x ctx = do
  (c, prev, _) ← remove_node x ctx.scheduler_cache
  some (elim prev [
    | none ↦ set_cache c ctx
    | some _ ↦ send (node_decommission x.name) (set_cache c ctx)
  ])
