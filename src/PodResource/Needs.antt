-- ===== src/PodResource/Needs.antt =====
-- What a pod needs of a resource, as a natural number: the formula of Kubernetes for containers,
-- init containers and sidecars, against which GetPodResource is read.
use yunikorn_k8shim.Prelude.{
  ℕ, ◌+◌, String, Bool, Option, none, some, List, [], ◌∷◌, ◌==◌, ltb, if◌then◌else◌,
}
use yunikorn_k8shim.Prelude.Dict.{Dict, lookup}
use yunikorn_k8shim.Resource.Sum.{quantity}
use yunikorn_k8shim.Gang.Defs.{QuantityApi}
use yunikorn_k8shim.PodResource.Defs.{
  Container, ContainerStatus, PodSpec, is_resize_infeasible, is_side_car_container, get_resource,
  get_pod_level_resource, statuses_of,
}

abbrev pub larger : ℕ → ℕ → ℕ
larger a b = if ltb a b then b else a

module _ {Q : Type 0} ⦃api : QuantityApi Q⦄ where
  abbrev pub requested : String → Dict Q → ℕ
  requested k m = quantity k (get_resource m)

  -- What a container asks for: the most of what it requests, was allocated, and has by its status;
  -- what it has, if its resize is infeasible.
  unfoldable pub asks : String → PodSpec Q → Dict (ContainerStatus Q) → Container Q → ℕ
  asks k pod statuses c = elim (lookup c.name statuses) [
    | none ↦ requested k c.requests
    | some st ↦ elim st.resources [
      | none ↦ larger (requested k c.requests) (requested k st.allocated_resources)
      | some r ↦
          if is_resize_infeasible pod
          then requested k r
          else larger (larger (requested k c.requests) (requested k st.allocated_resources))
              (requested k r)
    ]
  ]

  -- All that is listed for a container, in its requests and in its status
  unfoldable pub listed : String → Dict (ContainerStatus Q) → Container Q → ℕ
  listed k statuses c = requested k c.requests + (elim (lookup c.name statuses) [
    | none ↦ 0
    | some st ↦
        requested k st.allocated_resources
        + (elim st.resources [ none ↦ 0 | some r ↦ requested k r ])
  ])

  unfoldable pub sum_listed : String → Dict (ContainerStatus Q) → List (Container Q) → ℕ
  sum_listed k statuses [] = 0
  sum_listed k statuses (c ∷ cs) = listed k statuses c + sum_listed k statuses cs

  module _ (k : String) (pod : PodSpec Q) (statuses : Dict (ContainerStatus Q)) where
    unfoldable pub sum_asks : List (Container Q) → ℕ
    sum_asks [] = 0
    sum_asks (c ∷ cs) = asks k pod statuses c + sum_asks cs

    -- The sidecars among init containers, which keep running
    unfoldable pub side_cars_ask : List (Container Q) → ℕ
    side_cars_ask [] = 0
    side_cars_ask (c ∷ cs) =
        (if is_side_car_container c then asks k pod statuses c else 0) + side_cars_ask cs

    -- The most that runs at once while init containers start one by one, beside the sidecars that
    -- run already
    unfoldable pub peak : ℕ → List (Container Q) → ℕ
    peak running [] = 0
    peak running (c ∷ cs) =
        let ask = asks k pod statuses c in
        larger (ask + running)
          (peak (if is_side_car_container c then running + ask else running) cs)

    -- What the containers need: all that run in the end, or the peak before
    unfoldable pub containers_need : ℕ
    containers_need =
        larger
          ((if "pods" == k then 1 else 0)
            + sum_asks pod.containers
            + side_cars_ask pod.init_containers)
          (peak 0 pod.init_containers)

  -- What the pod requests as a whole, if it does
  unfoldable pub pod_level : (String → Bool) → String → PodSpec Q → Option ℕ
  pod_level supported k pod = elim pod.pod_requests [
    | none ↦ none
    | some requests ↦ lookup k (get_pod_level_resource supported requests)
  ]

  unfoldable pub overhead_needs : String → PodSpec Q → ℕ
  overhead_needs k pod = elim pod.overhead [ none ↦ 0 | some m ↦ requested k m ]

  -- What the pod needs without its overhead: what it requests as a whole replaces its containers.
  unfoldable pub base_needs : (String → Bool) → String → PodSpec Q → ℕ
  base_needs supported k pod = elim (pod_level supported k pod) [
    | none ↦ containers_need k pod (statuses_of pod)
    | some v ↦ v
  ]
