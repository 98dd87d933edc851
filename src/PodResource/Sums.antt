-- ===== src/PodResource/Sums.antt =====
-- Quantities through GetPodResource, where no sum leaves the int64 numbers that are not negative.
use yunikorn_k8shim.Prelude.{
  ℕ, ◌+◌, ◌<◌, ◌≤◌, String, ◌≡◌, Option, [], ◌∷◌, arith, Option-cases, Bool-cases, inl, inr,
}
use yunikorn_k8shim.Prelude.Dict.{Dict, lookup, lookup-nil}
use yunikorn_k8shim.Prelude.Unique.{Unique, insert-Unique, Unique-of_eq}
use yunikorn_k8shim.Prelude.Int64.{add_int64, gt_int64, sign_bit}
use yunikorn_k8shim.Resource.{Resource, add, update_max, entries}
use yunikorn_k8shim.Resource.Sum.{
  quantity, lookup-add, lookup-update_max, update_max-Unique, UniqueEntries,
}
use yunikorn_k8shim.Gang.Defs.{QuantityApi}
use yunikorn_k8shim.PodResource.Defs.{
  Container, ContainerStatus, PodSpec, is_resize_infeasible, get_resource, resource_into,
  compute_container_resource,
}
use yunikorn_k8shim.PodResource.Needs.{larger, requested, asks, listed}

abbrev pub quantity_of : String → Option Resource → ℕ
quantity_of k r = quantity k (entries r)

pub quantity-add :
    (k : String) (a b : Option Resource)
    → UniqueEntries a
    → UniqueEntries b
    → quantity_of k a + quantity_of k b < sign_bit
    → quantity k (add a b) ≡ quantity_of k a + quantity_of k b
unfolding add_int64
quantity-add k a b u w h = ground (arith, lookup-add k a b u w)

pub quantity-update_max :
    (k : String) (a b : Resource)
    → Unique b
    → quantity k a < sign_bit
    → quantity k b < sign_bit
    → quantity k (update_max a b) ≡ larger (quantity k a) (quantity k b)
unfolding gt_int64
quantity-update_max k a b u h g = ground (arith, lookup-update_max k a b u)

module _ {Q : Type 0} ⦃api : QuantityApi Q⦄ where
  resource_into-Unique : (m : Dict Q) (acc : Resource) → Unique acc → Unique (resource_into m acc)
  unfolding resource_into
  resource_into-Unique [] acc h = h
  resource_into-Unique ((name, q) ∷ m) acc h = resource_into-Unique m _ (insert-Unique _ _ acc h)

  pub get_resource-Unique : (m : Dict Q) → Unique (get_resource m)
  unfolding get_resource
  get_resource-Unique m = resource_into-Unique m [] tt

  own_requests :
      (k : String) (m : Dict Q)
      → requested k m < sign_bit
      → quantity k (update_max [] (get_resource m)) ≡ requested k m
  own_requests k m h = ground (
    arith,
    quantity-update_max k [] (get_resource m) (get_resource-Unique m),
    lookup-nil {V = ℕ} k,
  )

  module _ (pod : PodSpec Q) (statuses : Dict (ContainerStatus Q)) where
    pub asks-le-listed :
        (k : String) (c : Container Q) → asks k pod statuses c ≤ listed k statuses c
    unfolding asks listed
    asks-le-listed k c = elim (Option-cases (lookup c.name statuses)) [
      | inl e ↦ ground arith
      | inr (st, e) ↦ elim (Option-cases st.resources) [
        | inl e' ↦ ground arith
        | inr (r, e') ↦ ground arith
      ]
    ]

    pub compute_container_resource-Unique :
        (c : Container Q) → Unique (compute_container_resource pod statuses c)
    unfolding compute_container_resource
    compute_container_resource-Unique c =
        let own = update_max-Unique [] (get_resource c.requests) tt in
        elim (Option-cases (lookup c.name statuses)) [
          | inl e ↦ Unique-of_eq (update_max [] (get_resource c.requests)) (ground arith) own
          | inr (st, e) ↦
              let both =
                update_max (update_max [] (get_resource c.requests))
                  (get_resource st.allocated_resources) in
              let given = update_max-Unique _ (get_resource st.allocated_resources) own in
              elim (Option-cases st.resources) [
                | inl e' ↦ Unique-of_eq both (ground arith) given
                | inr (r, e') ↦ elim (Bool-cases (is_resize_infeasible pod)) [
                  | inl b ↦ Unique-of_eq (get_resource r) (ground arith) (get_resource-Unique r)
                  | inr b ↦
                      Unique-of_eq (update_max both (get_resource r)) (ground arith)
                        (update_max-Unique both (get_resource r) given)
                ]
              ]
        ]

    pub compute_container_resource_lem :
        (k : String) (c : Container Q)
        → listed k statuses c < sign_bit
        → quantity k (compute_container_resource pod statuses c) ≡ asks k pod statuses c
    unfolding compute_container_resource asks listed
    compute_container_resource_lem k c h = elim (Option-cases (lookup c.name statuses)) [
      | inl e ↦ ground (arith, own_requests k c.requests)
      | inr (st, e) ↦
          let given =
            quantity-update_max k (update_max [] (get_resource c.requests))
              (get_resource st.allocated_resources) (get_resource-Unique st.allocated_resources) in
          elim (Option-cases st.resources) [
            | inl e' ↦ ground (arith, own_requests k c.requests, given)
            | inr (r, e') ↦ ground (
              arith,
              own_requests k c.requests,
              given,
              quantity-update_max k
                  (update_max (update_max [] (get_resource c.requests))
                    (get_resource st.allocated_resources))
                  (get_resource r) (get_resource-Unique r),
            )
          ]
    ]
