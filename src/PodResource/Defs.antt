-- ===== src/PodResource/Defs.antt =====
-- GetPodResource of pkg/common/resource.go and what it calls. A Quantity of Kubernetes is the
-- parameter QuantityApi. A quantity is not changed once it is made, so that maps share the pointers.
use yunikorn_k8shim.Prelude.{
  String, Bool, true, false, ◌&&◌, ◌==◌, Option, none, some, List, [], ◌∷◌, any, is_empty,
  if◌then◌else◌,
}
use yunikorn_k8shim.Prelude.Dict.{Dict, lookup, insert}
use yunikorn_k8shim.Prelude.Unique.{copy_into}
use yunikorn_k8shim.Resource.{Resource, add, update_max}
use yunikorn_k8shim.Gang.Defs.{QuantityApi, canonical, amount}

-- v1.Container. RestartPolicy may be nil.
pub record Container (Q : Type 0) : Type 0 where
  pub name : String
  pub requests : Dict Q
  pub restart_policy : Option String

-- v1.ContainerStatus, of whose Resources, which may be nil, the requests are read
pub record ContainerStatus (Q : Type 0) : Type 0 where
  pub name : String
  pub allocated_resources : Dict Q
  pub resources : Option (Dict Q)

-- v1.PodCondition
pub record PodCondition : Type 0 where
  pub kind : String
  pub reason : String

-- The part of a v1.Pod that its resources depend on. The resources of the pod are their requests.
pub record PodSpec (Q : Type 0) : Type 0 where
  pub containers : List (Container Q)
  pub init_containers : List (Container Q)
  pub container_statuses : List (ContainerStatus Q)
  pub init_container_statuses : List (ContainerStatus Q)
  pub resize : String
  pub conditions : List PodCondition
  pub pod_requests : Option (Dict Q)
  pub overhead : Option (Dict Q)

-- isResizeInfeasible
unfoldable pub is_resize_infeasible : {Q : Type 0} → PodSpec Q → Bool
is_resize_infeasible pod =
    if pod.resize == "Infeasible"
    then true
    else any (λ c. c.kind == "PodResizePending" && c.reason == "Infeasible") pod.conditions

-- isSideCarContainer
unfoldable pub is_side_car_container : {Q : Type 0} → Container Q → Bool
is_side_car_container c = elim c.restart_policy [ none ↦ false | some policy ↦ policy == "Always" ]

unfoldable pub index_statuses :
    {Q : Type 0} → List (ContainerStatus Q) → Dict (ContainerStatus Q) → Dict (ContainerStatus Q)
index_statuses [] acc = acc
index_statuses (st ∷ sts) acc = index_statuses sts (insert st.name st acc)

-- The map containerStatuses of GetPodResource
unfoldable pub statuses_of : {Q : Type 0} → PodSpec Q → Dict (ContainerStatus Q)
statuses_of pod =
    index_statuses pod.init_container_statuses (index_statuses pod.container_statuses [])

module _ {Q : Type 0} ⦃api : QuantityApi Q⦄ where
  -- getResource
  unfoldable pub resource_into : Dict Q → Resource → Resource
  resource_into [] acc = acc
  resource_into ((name, q) ∷ m) acc = resource_into m (insert (canonical name) (amount name q) acc)

  unfoldable pub get_resource : Dict Q → Resource
  get_resource m = resource_into m []

  -- getPodLevelResource, with IsSupportedPodLevelResource of Kubernetes
  unfoldable pub pod_level_into : (String → Bool) → Dict Q → Resource → Resource
  pod_level_into supported [] acc = acc
  pod_level_into supported ((name, q) ∷ m) acc =
      pod_level_into supported m
        (if supported name then insert (canonical name) (amount name q) acc else acc)

  unfoldable pub get_pod_level_resource : (String → Bool) → Dict Q → Resource
  get_pod_level_resource supported m = pod_level_into supported m []

  -- computeContainerResource
  unfoldable pub compute_container_resource :
      PodSpec Q → Dict (ContainerStatus Q) → Container Q → Resource
  compute_container_resource pod statuses c =
      let combined = update_max [] (get_resource c.requests) in
      elim (lookup c.name statuses) [
        | none ↦ combined
        | some st ↦
            let allocated = update_max combined (get_resource st.allocated_resources) in
            elim st.resources [
              | none ↦ allocated
              | some requests ↦
                  if is_resize_infeasible pod
                  then get_resource requests
                  else update_max allocated (get_resource requests)
            ]
      ]

  module _ (pod : PodSpec Q) (statuses : Dict (ContainerStatus Q)) where
    -- The loop over the containers
    unfoldable pub add_containers : List (Container Q) → Resource → Resource
    add_containers [] acc = acc
    add_containers (c ∷ cs) acc =
        add_containers cs (add (some acc) (some (compute_container_resource pod statuses c)))

    -- The loop of checkInitContainerRequest, with initMax and sideCarRequests
    unfoldable pub run_init_containers :
        List (Container Q) → Resource → Option Resource → Resource × Option Resource
    run_init_containers [] init_max side_cars = (init_max, side_cars)
    run_init_containers (c ∷ cs) init_max side_cars =
        let request = compute_container_resource pod statuses c in
        run_init_containers cs (update_max init_max (add (some request) side_cars))
          (if is_side_car_container c then some (add side_cars (some request)) else side_cars)

    -- checkInitContainerRequest
    unfoldable pub check_init_container_request : Resource → Resource
    check_init_container_request containers =
        let (init_max, side_cars) = run_init_containers pod.init_containers [] none in
        update_max (add (some containers) side_cars) init_max

  -- The three parts of GetPodResource: the containers, what the pod requests as a whole, and its
  -- overhead
  unfoldable pub of_containers : PodSpec Q → Resource
  of_containers pod =
      let statuses = statuses_of pod in
      let sum = add_containers pod statuses pod.containers (("pods", 1) ∷ []) in
      if is_empty pod.init_containers then sum else check_init_container_request pod statuses sum

  unfoldable pub with_pod_level : (String → Bool) → PodSpec Q → Resource → Resource
  with_pod_level supported pod r = elim pod.pod_requests [
    | none ↦ r
    | some requests ↦
        if is_empty requests then r else copy_into (get_pod_level_resource supported requests) r
  ]

  unfoldable pub with_overhead : PodSpec Q → Resource → Resource
  with_overhead pod r = elim pod.overhead [
    | none ↦ r
    | some overhead ↦ add (some r) (some (get_resource overhead))
  ]

  -- GetPodResource
  unfoldable pub get_pod_resource : (String → Bool) → PodSpec Q → Resource
  get_pod_resource supported pod =
      with_overhead pod (with_pod_level supported pod (of_containers pod))
