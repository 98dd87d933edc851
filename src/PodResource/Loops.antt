-- ===== src/PodResource/Loops.antt =====
-- The loops over the containers and the init containers of a pod, quantity by quantity.
use yunikorn_k8shim.Prelude.{
  ◌+◌, ◌<◌, String, ◌≡◌, Option, some, List, [], ◌∷◌, arith, Bool-cases, inl, inr, subst, sym,
}
use yunikorn_k8shim.Prelude.Dict.{Dict}
use yunikorn_k8shim.Prelude.Unique.{Unique}
use yunikorn_k8shim.Prelude.Int64.{sign_bit}
use yunikorn_k8shim.Resource.{Resource, add, update_max}
use yunikorn_k8shim.Resource.Sum.{quantity, add-Unique, update_max-Unique, UniqueEntries}
use yunikorn_k8shim.Gang.Defs.{QuantityApi}
use yunikorn_k8shim.PodResource.Defs.{
  Container, ContainerStatus, PodSpec, is_side_car_container, compute_container_resource,
  add_containers, run_init_containers,
}
use yunikorn_k8shim.PodResource.Needs.{larger, sum_listed, sum_asks, side_cars_ask, peak}
use yunikorn_k8shim.PodResource.Sums.{
  quantity_of, quantity-add, quantity-update_max, asks-le-listed, compute_container_resource-Unique,
  compute_container_resource_lem,
}

module _ {Q : Type 0} ⦃api : QuantityApi Q⦄ (pod : PodSpec Q)
    (statuses : Dict (ContainerStatus Q)) where
  abbrev resource_of : Container Q → Resource
  resource_of = compute_container_resource pod statuses

  pub add_containers-Unique :
      (cs : List (Container Q)) (acc : Resource)
      → Unique acc
      → Unique (add_containers pod statuses cs acc)
  unfolding add_containers
  add_containers-Unique [] acc u = u
  add_containers-Unique (c ∷ cs) acc u =
      add_containers-Unique cs _ (add-Unique (some acc) (some (resource_of c)))

  pub add_containers_lem :
      (k : String) (cs : List (Container Q)) (acc : Resource)
      → Unique acc
      → quantity k acc + sum_listed k statuses cs < sign_bit
      → quantity k (add_containers pod statuses cs acc)
        ≡ quantity k acc + sum_asks k pod statuses cs
  unfolding add_containers sum_listed sum_asks
  add_containers_lem k [] acc u h = omega arith
  add_containers_lem k (c ∷ cs) acc u h =
      let sum = add (some acc) (some (resource_of c)) in
      let ask = compute_container_resource_lem pod statuses k c (omega arith) in
      let le = asks-le-listed pod statuses k c in
      let added =
        quantity-add k (some acc) (some (resource_of c)) u
          (compute_container_resource-Unique pod statuses c) (omega arith) in
      let rest =
        add_containers_lem k cs sum (add-Unique (some acc) (some (resource_of c))) (omega arith) in
      omega arith

  -- What the loop over the init containers comes to
  pub record InitRun (k : String) (cs : List (Container Q)) (init_max : Resource)
      (side_cars : Option Resource) (result : Resource × Option Resource) : Type 0 where
    pub max_unique : Unique result.0
    pub side_cars_unique : UniqueEntries result.1
    pub max_is :
        quantity k result.0
        ≡ larger (quantity k init_max) (peak k pod statuses (quantity_of k side_cars) cs)
    pub side_cars_are :
        quantity_of k result.1 ≡ quantity_of k side_cars + side_cars_ask k pod statuses cs

  stepped :
      {k : String} (init_max : Resource) (side_cars : Option Resource) (cs : List (Container Q))
      (result result' : Resource × Option Resource)
      → result ≡ result'
      → InitRun k cs init_max side_cars result'
      → InitRun k cs init_max side_cars result
  stepped {k} init_max side_cars cs result result' e =
      subst (InitRun k cs init_max side_cars) (sym e)

  pub run_init_containers_lem :
      (k : String) (cs : List (Container Q)) (init_max : Resource) (side_cars : Option Resource)
      → Unique init_max
      → UniqueEntries side_cars
      → quantity k init_max < sign_bit
      → quantity_of k side_cars + sum_listed k statuses cs < sign_bit
      → InitRun k cs init_max side_cars (run_init_containers pod statuses cs init_max side_cars)
  unfolding run_init_containers sum_listed side_cars_ask peak
  run_init_containers_lem k [] init_max side_cars u v h g = record {
    max_unique = u;
    side_cars_unique = v;
    max_is = ground arith;
    side_cars_are = omega arith;
  }
  run_init_containers_lem k (c ∷ cs) init_max side_cars u v h g =
      let w = compute_container_resource-Unique pod statuses c in
      let ask = compute_container_resource_lem pod statuses k c (omega arith) in
      let le = asks-le-listed pod statuses k c in
      let current = add (some (resource_of c)) side_cars in
      let beside = quantity-add k (some (resource_of c)) side_cars w v (omega arith) in
      let longer = quantity-add k side_cars (some (resource_of c)) v w (omega arith) in
      let maxed =
        quantity-update_max k init_max current (add-Unique (some (resource_of c)) side_cars) h
          (omega arith) in
      let next_max = update_max init_max current in
      elim (Bool-cases (is_side_car_container c)) [
        | inl b ↦
            let rest =
              run_init_containers_lem k cs next_max (some (add side_cars (some (resource_of c))))
                (update_max-Unique init_max current u) (add-Unique side_cars (some (resource_of c)))
                (ground arith) (omega arith) in
            stepped init_max side_cars (c ∷ cs) _
              (run_init_containers pod statuses cs next_max
                (some (add side_cars (some (resource_of c)))))
              (ground arith)
              (record {
                max_unique = rest.max_unique;
                side_cars_unique = rest.side_cars_unique;
                max_is = ground (arith, rest.max_is, beside, maxed, ask);
                side_cars_are = ground (arith, rest.side_cars_are, longer, ask);
              })
        | inr b ↦
            let rest =
              run_init_containers_lem k cs next_max side_cars (update_max-Unique init_max current u)
                v (ground arith) (omega arith) in
            stepped init_max side_cars (c ∷ cs) _
              (run_init_containers pod statuses cs next_max side_cars) (ground arith)
              (record {
                max_unique = rest.max_unique;
                side_cars_unique = rest.side_cars_unique;
                max_is = ground (arith, rest.max_is, beside, maxed, ask);
                side_cars_are = ground (arith, rest.side_cars_are, ask);
              })
      ]
