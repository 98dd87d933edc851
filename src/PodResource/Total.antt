-- ===== src/PodResource/Total.antt =====
-- GetPodResource as a whole.
use yunikorn_k8shim.Prelude.{
  ℕ, ◌+◌, ◌<◌, ◌≤◌, String, Bool, true, ◌≡◌, refl, none, some, List, [], ◌∷◌, ◌==◌, is_empty,
  if◌then◌else◌, arith, Bool-cases, Option-cases, inl, inr,
}
use yunikorn_k8shim.Prelude.Dict.{Dict, lookup, lookup-nil}
use yunikorn_k8shim.Prelude.Unique.{
  Unique, insert-Unique, Unique-of_eq, if-Unique, copy_into, copy_into-Unique, lookup-copy_into,
}
use yunikorn_k8shim.Prelude.Int64.{sign_bit}
use yunikorn_k8shim.Resource.{Resource, add, update_max}
use yunikorn_k8shim.Resource.Sum.{quantity, add-Unique, update_max-Unique}
use yunikorn_k8shim.Gang.Defs.{QuantityApi}
use yunikorn_k8shim.PodResource.Defs.{
  Container, ContainerStatus, PodSpec, statuses_of, get_resource, get_pod_level_resource,
  pod_level_into, add_containers, run_init_containers, check_init_container_request, of_containers,
  with_pod_level, with_overhead, get_pod_resource,
}
use yunikorn_k8shim.PodResource.Needs.{
  asks, sum_listed, sum_asks, side_cars_ask, peak, containers_need, pod_level, overhead_needs,
  base_needs,
}
use yunikorn_k8shim.PodResource.Sums.{
  quantity_of, quantity-add, quantity-update_max, asks-le-listed, get_resource-Unique,
}
use yunikorn_k8shim.PodResource.Loops.{
  add_containers-Unique, add_containers_lem, run_init_containers_lem,
}

module _ {Q : Type 0} ⦃api : QuantityApi Q⦄ (pod : PodSpec Q) (statuses : Dict (ContainerStatus Q))
    (k : String) where
  sum_asks-le : (cs : List (Container Q)) → sum_asks k pod statuses cs ≤ sum_listed k statuses cs
  unfolding sum_asks sum_listed
  sum_asks-le [] = omega arith
  sum_asks-le (c ∷ cs) = omega (arith, sum_asks-le cs, asks-le-listed pod statuses k c)

  side_cars_ask-le :
      (cs : List (Container Q)) → side_cars_ask k pod statuses cs ≤ sum_listed k statuses cs
  unfolding side_cars_ask sum_listed
  side_cars_ask-le [] = omega arith
  side_cars_ask-le (c ∷ cs) = ground (arith, side_cars_ask-le cs, asks-le-listed pod statuses k c)

  peak-le :
      (running : ℕ) (cs : List (Container Q))
      → peak k pod statuses running cs ≤ running + sum_listed k statuses cs
  unfolding peak sum_listed
  peak-le running [] = omega arith
  peak-le running (c ∷ cs) = ground (
    arith,
    peak-le running cs,
    peak-le (running + asks k pod statuses c) cs,
    asks-le-listed pod statuses k c,
  )

  none_ask :
      (cs : List (Container Q))
      → is_empty cs ≡ true
      → (side_cars_ask k pod statuses cs ≡ 0) × (peak k pod statuses 0 cs ≡ 0)
  unfolding side_cars_ask peak
  none_ask [] h = (refl, refl)
  none_ask (c ∷ cs) h = absurd (cc)

module _ {Q : Type 0} ⦃api : QuantityApi Q⦄ (pod : PodSpec Q) (k : String) where
  abbrev listed_in : ℕ
  listed_in =
      1
      + sum_listed k (statuses_of pod) pod.containers
      + sum_listed k (statuses_of pod) pod.init_containers

  pods_of : quantity k (("pods", 1) ∷ []) ≡ (if "pods" == k then 1 else 0)
  unfolding lookup
  pods_of = ground arith

  of_containers_lem :
      listed_in < sign_bit
      → quantity k (of_containers pod) ≡ containers_need k pod (statuses_of pod)
  unfolding of_containers check_init_container_request containers_need
  of_containers_lem h =
      let sts = statuses_of pod in
      let base : Resource = ("pods", 1) ∷ [] in
      let base-Unique : Unique base = (lookup-nil {V = ℕ} "pods", tt) in
      let sum = add_containers pod sts pod.containers base in
      let summed =
        add_containers_lem pod sts k pod.containers base base-Unique (ground (arith, pods_of)) in
      elim (Bool-cases (is_empty pod.init_containers)) [
        | inl e ↦ ground (arith, summed, pods_of, none_ask pod sts k pod.init_containers)
        | inr e ↦
            let result = run_init_containers pod sts pod.init_containers [] none in
            let run =
              run_init_containers_lem pod sts k pod.init_containers [] none tt tt
                (ground (arith, lookup-nil {V = ℕ} k)) (ground (arith, lookup-nil {V = ℕ} k)) in
            let le = sum_asks-le pod sts k pod.containers in
            let le' = side_cars_ask-le pod sts k pod.init_containers in
            let le'' = peak-le pod sts k 0 pod.init_containers in
            let max_is : quantity k result.0 ≡ peak k pod sts 0 pod.init_containers =
              ground (arith, run.max_is, lookup-nil {V = ℕ} k) in
            let cars_are : quantity_of k result.1 ≡ side_cars_ask k pod sts pod.init_containers =
              ground (arith, run.side_cars_are, lookup-nil {V = ℕ} k) in
            let added =
              quantity-add k (some sum) result.1
                (add_containers-Unique pod sts pod.containers base base-Unique) run.side_cars_unique
                (ground (arith, summed, pods_of, cars_are)) in
            let final =
              quantity-update_max k (add (some sum) result.1) result.0 run.max_unique
                (ground (arith, added, summed, pods_of, cars_are)) (ground (arith, max_is)) in
            ground (arith, final, added, summed, pods_of, cars_are, max_is)
      ]

  of_containers-Unique : Unique (of_containers pod)
  unfolding of_containers check_init_container_request
  of_containers-Unique =
      let sts = statuses_of pod in
      let sum = add_containers pod sts pod.containers (("pods", 1) ∷ []) in
      let result = run_init_containers pod sts pod.init_containers [] none in
      elim (Bool-cases (is_empty pod.init_containers)) [
        | inl e ↦
            Unique-of_eq sum (ground arith)
              (add_containers-Unique pod sts pod.containers _ (lookup-nil {V = ℕ} "pods", tt))
        | inr e ↦
            Unique-of_eq (update_max (add (some sum) result.1) result.0) (ground arith)
              (update_max-Unique _ result.0 (add-Unique (some sum) result.1))
      ]

  pod_level_into-Unique :
      (supported : String → Bool) (m : Dict Q) (acc : Resource)
      → Unique acc
      → Unique (pod_level_into supported m acc)
  unfolding pod_level_into
  pod_level_into-Unique supported [] acc h = h
  pod_level_into-Unique supported ((name, q) ∷ m) acc h =
      pod_level_into-Unique supported m _
        (if-Unique (supported name) _ acc (insert-Unique _ _ acc h) h)

  no_level :
      (supported : String → Bool) (m : Dict Q)
      → is_empty m ≡ true
      → lookup k (pod_level_into supported m []) ≡ none
  unfolding pod_level_into
  no_level supported [] h = lookup-nil k
  no_level supported (_ ∷ _) h = absurd (cc)

  with_pod_level_lem :
      (supported : String → Bool) (r : Resource)
      → Unique r
      → (quantity k (with_pod_level supported pod r)
          ≡ (elim (pod_level supported k pod) [ none ↦ quantity k r | some v ↦ v ]))
        × Unique (with_pod_level supported pod r)
  unfolding with_pod_level pod_level get_pod_level_resource
  with_pod_level_lem supported r u = elim (Option-cases pod.pod_requests) [
    | inl e ↦ (ground (arith, e), Unique-of_eq r (ground arith) u)
    | inr (m, e) ↦
        let level = pod_level_into supported m [] in
        let copied = lookup-copy_into k level r (pod_level_into-Unique supported m [] tt) in
        elim (Bool-cases (is_empty m)) [
          | inl b ↦ (ground (arith, no_level supported m), Unique-of_eq r (ground arith) u)
          | inr b ↦ (
            ground (arith, copied),
            Unique-of_eq (copy_into level r) (ground arith) (copy_into-Unique level r u),
          )
        ]
  ]

  -- GetPodResource, for each name of a resource. All that is listed under the name for the containers
  -- and init containers, in their requests and statuses, sums up to less than 2 ^ 63 - 1, and so does
  -- what the pod needs. Then the quantity is what the pod needs: its own request if it has one of a
  -- supported resource, and else the larger of what runs in the end (all containers and sidecars,
  -- with 1 under "pods") and of the peak before (each init container with the sidecars that run
  -- already); and its overhead on top. No sum wraps.
  pub get_pod_resource_lem :
      (supported : String → Bool)
      → listed_in < sign_bit
      → base_needs supported k pod + overhead_needs k pod < sign_bit
      → quantity k (get_pod_resource supported pod)
        ≡ base_needs supported k pod + overhead_needs k pod
  unfolding get_pod_resource with_overhead overhead_needs base_needs
  get_pod_resource_lem supported h g =
      let (level, u) = with_pod_level_lem supported (of_containers pod) of_containers-Unique in
      elim (Option-cases pod.overhead) [
        | inl e ↦ ground (arith, level, of_containers_lem h)
        | inr (m, e) ↦
            let added =
              quantity-add k (some (with_pod_level supported pod (of_containers pod)))
                (some (get_resource m)) u (get_resource-Unique m) in
            ground (arith, added, level, of_containers_lem h)
      ]
