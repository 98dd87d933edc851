-- ===== src/PodResource/Tests.antt =====
-- A pod with a sidecar, an init container, a resized container and an overhead.
use yunikorn_k8shim.Prelude.{ℕ, String, Bool, ◌≡◌, none, some, [], ◌∷◌, ◌==◌, arith}
use yunikorn_k8shim.Prelude.Dict.{lookup, insert}
use yunikorn_k8shim.Resource.Sum.{quantity}
use yunikorn_k8shim.PodResource.Defs.{
  PodSpec, get_pod_resource, is_resize_infeasible, is_side_car_container, statuses_of,
  index_statuses, get_resource, resource_into, get_pod_level_resource, pod_level_into,
}
use yunikorn_k8shim.PodResource.Needs.{
  asks, listed, sum_listed, sum_asks, side_cars_ask, peak, containers_need, pod_level,
  overhead_needs, base_needs,
}
use yunikorn_k8shim.PodResource.Total.{get_pod_resource_lem}
use yunikorn_k8shim.Gang.Sample.{whole}

abbrev pod : PodSpec ℕ
pod = record {
  containers =
      record { name = "main"; requests = ("cpu", 2) ∷ ("memory", 500) ∷ []; restart_policy = none }
      ∷ [];
  init_containers =
      record { name = "proxy"; requests = ("cpu", 1) ∷ []; restart_policy = some "Always" }
      ∷ record { name = "load"; requests = ("cpu", 4) ∷ []; restart_policy = none }
      ∷ [];
  container_statuses =
      record {
        name = "main";
        allocated_resources = ("cpu", 3) ∷ [];
        resources = some (("cpu", 2) ∷ []);
      }
      ∷ [];
  init_container_statuses = [];
  resize = "";
  conditions = [];
  pod_requests = some (("memory", 700) ∷ []);
  overhead = some (("cpu", 1) ∷ ("memory", 20) ∷ []);
}

abbrev supported : String → Bool
supported name = name == "memory"

-- The peak is at the second init container, beside the sidecar: 5000, and 1000 of overhead.
get_pod_resource_lem_example : quantity "vcore" (get_pod_resource supported pod) ≡ 6000
unfolding base_needs pod_level containers_need sum_asks side_cars_ask peak asks overhead_needs
    get_pod_level_resource pod_level_into get_resource resource_into is_resize_infeasible
    is_side_car_container statuses_of index_statuses lookup insert listed sum_listed
get_pod_resource_lem_example =
    get_pod_resource_lem pod "vcore" supported (omega arith) (omega arith)
