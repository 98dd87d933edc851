-- ===== src/Gang/Ask.antt =====
-- The ask for the placeholders of task groups that were accepted: it is what the groups ask for as
-- natural numbers.
use yunikorn_k8shim.Prelude.{
  ℕ, String, ◌+◌, ◌≤◌, ◌<◌, ◌≡◌, refl, false, if◌then◌else◌, Option, none, some, List, [], ◌∷◌,
  ◌==◌, inl, inr, arith, Option-cases, Bool-cases, subst,
}
use yunikorn_k8shim.Prelude.Dict.{Dict, insert, lookup-insert, lookup-nil}
use yunikorn_k8shim.Prelude.Unique.{Unique, insert-Unique}
use yunikorn_k8shim.Prelude.Int64.{add_int64, sub_int64, gt_int64}
use yunikorn_k8shim.Resource.{Resource, entries, add}
use yunikorn_k8shim.Resource.Sum.{quantity, lookup-add, add-Unique}
use yunikorn_k8shim.Gang.Defs.{
  max_int64, QuantityApi, TaskGroup, ◌>>=◌, int64_of, validate_task_group_resources,
  check_task_group, check_task_groups, get_task_groups, add_resources, get_tg_resource,
  set_task_groups, check_resources,
}
use yunikorn_k8shim.Gang.Validate.{InInt64, add_total, asked, check_resources_lem, >>=-inr}

quantity-add :
    (k : String) (a : Option Resource) (b : Resource)
    → Unique (entries a)
    → Unique b
    → quantity k (entries a) + quantity k b ≤ max_int64
    → quantity k (add a (some b)) ≡ quantity k (entries a) + quantity k b
unfolding add_int64
quantity-add k a b u w h = ground (arith, lookup-add k a (some b) u w)

module _ {Q : Type 0} ⦃api : QuantityApi Q⦄ where
  -- What a task group asks for under a name, and what all of them do.
  unfoldable pub group_asks : TaskGroup Q → String → ℕ
  group_asks g k =
      (if "pods" == k then g.min_member else 0)
      + (elim g.min_resource [ none ↦ 0 | some m ↦ asked g.min_member m k ])

  unfoldable pub groups_ask : List (TaskGroup Q) → String → ℕ
  groups_ask [] k = 0
  groups_ask (g ∷ gs) k = group_asks g k + groups_ask gs k

  add_resources-Unique :
      (members : ℕ) (m : Dict Q) (acc : Resource)
      → Unique acc
      → Unique (add_resources members m acc)
  unfolding add_resources
  add_resources-Unique members [] acc h = h
  add_resources-Unique members ((res_name, q) ∷ rest) acc h =
      add_resources-Unique members rest _ (insert-Unique _ _ acc h)

  get_tg_resource-Unique : (m : Option (Dict Q)) (members : ℕ) → Unique (get_tg_resource m members)
  unfolding get_tg_resource
  get_tg_resource-Unique none members = insert-Unique "pods" members [] tt
  get_tg_resource-Unique (some m) members =
      add_resources-Unique members m _ (insert-Unique "pods" members [] tt)

  pub record GroupAsk (g : TaskGroup Q) (totals totals' : Dict ℕ) : Type 0 where
    pub bounded : InInt64 totals'
    pub sums : (k : String) → quantity k totals' ≡ quantity k totals + group_asks g k
    pub tg_resource :
        (k : String)
        → quantity k (get_tg_resource g.min_resource (int64_of g.min_member)) ≡ group_asks g k

  has_min_resource :
      (g : TaskGroup Q) (totals totals' : Dict ℕ)
      → check_task_group g totals ≡ inr totals'
      → (m : Dict Q) × (g.min_resource ≡ some m)
  unfolding check_task_group
  has_min_resource g totals totals' e = elim (Option-cases g.min_resource) [
    | inl h ↦ absurd (ground arith)
    | inr found ↦ found
  ]

  check_task_group-tests :
      (g : TaskGroup Q) (m : Dict Q) (totals totals' : Dict ℕ)
      → g.min_resource ≡ some m
      → check_task_group g totals ≡ inr totals'
      → (1 ≤ g.min_member)
        × (g.min_member < 2147483648)
        × (int64_of g.min_member ≡ g.min_member)
        × (gt_int64 (quantity "pods" totals) (sub_int64 max_int64 g.min_member) ≡ false)
        × (check_resources g.min_member m
              ("pods" ∷ [])
              (insert "pods" (add_int64 (quantity "pods" totals) g.min_member) totals)
            ≡ inr totals')
  unfolding check_task_group validate_task_group_resources int64_of
  check_task_group-tests g m totals totals' h e = ground arith

  pub check_task_group_lem :
      (g : TaskGroup Q) (totals totals' : Dict ℕ)
      → InInt64 totals
      → check_task_group g totals ≡ inr totals'
      → GroupAsk g totals totals'
  unfolding group_asks get_tg_resource
  check_task_group_lem g totals totals' r e =
      let (m, has) = has_min_resource g totals totals' e in
      let (l, u, same, room, checked) = check_task_group-tests g m totals totals' has e in
      let pods = add_total "pods" g.min_member totals r (omega arith) room in
      let c =
        check_resources_lem g.min_member m ("pods" ∷ []) _ totals' l u (λ k. (pods k).1) checked in
      record {
        bounded = c.bounded;
        sums = λ k. ground (arith, c.sums k, pods k);
        tg_resource = λ k. ground (
          arith,
          c.built (insert "pods" g.min_member []) k
              (λ j h. ground (arith, lookup-insert "pods" g.min_member j [], lookup-nil {V = ℕ} j)),
          lookup-insert "pods" g.min_member k [],
          lookup-nil {V = ℕ} k,
        );
      }

  set_task_groups-from :
      (gs : List (TaskGroup Q)) (totals totals' : Dict ℕ) (ask : Option Resource)
      → InInt64 totals
      → check_task_groups gs totals ≡ inr totals'
      → Unique (entries ask)
      → ((k : String) → quantity k (entries ask) ≡ quantity k totals)
      → ((k : String)
          → quantity k (entries (set_task_groups gs ask)) ≡ quantity k totals + groups_ask gs k)
        × InInt64 totals'
        × ((k : String) → quantity k totals' ≡ quantity k totals + groups_ask gs k)
  unfolding check_task_groups set_task_groups groups_ask
  set_task_groups-from [] totals totals' ask r e u same =
      let ends : totals ≡ totals' = cc in
      (λ k. ground (arith, same k), subst InInt64 ends r, λ k. ground arith)
  set_task_groups-from (g ∷ gs) totals totals' ask r e u same =
      let (totals₁, first, e') = >>=-inr (check_task_group g totals) _ totals' e in
      let c = check_task_group_lem g totals totals₁ r first in
      let tg = get_tg_resource g.min_resource (int64_of g.min_member) in
      let (asks, bounded, sums) =
        set_task_groups-from gs totals₁ totals' (some (add ask (some tg))) c.bounded e'
          (add-Unique ask (some tg))
          (λ k. ground (
            arith,
            quantity-add k ask tg u (get_tg_resource-Unique g.min_resource (int64_of g.min_member)),
            same k,
            c.sums k,
            c.bounded k,
            c.tg_resource k,
          )) in
      (λ k. ground (arith, asks k, c.sums k), bounded, λ k. ground (arith, sums k, c.sums k))

  get_task_groups-checked :
      (unmarshal : String → Option (List (TaskGroup Q))) (info : String) (gs : List (TaskGroup Q))
      → get_task_groups unmarshal info ≡ inr gs
      → (totals : Dict ℕ) × (check_task_groups gs [] ≡ inr totals)
  unfolding get_task_groups
  get_task_groups-checked unmarshal info gs e = elim (Bool-cases (info == "")) [
    | inl h ↦
        let empty : [] ≡ gs = ground arith in
        ([], subst (λ x. check_task_groups x [] ≡ inr []) empty (unfold check_task_groups in refl))
    | inr h ↦ elim (Option-cases (unmarshal info)) [
      | inl n ↦ absurd (ground arith)
      | inr (groups, read) ↦
          let e' : (do _ ← check_task_groups groups []; inr groups) ≡ inr gs = ground arith in
          let (totals, checked, same) =
            >>=-inr (check_task_groups groups []) (λ _. inr groups) gs e' in
          let same' : groups ≡ gs = cc in
          (totals, subst (λ x. check_task_groups x [] ≡ inr totals) same' checked)
    ]
  ]

  -- If the task groups of an annotation are accepted, whatever it says, the placeholder ask that
  -- setTaskGroups adds up from them is for every resource name the sum, over natural numbers, of
  -- the members of each group times what the group asks for under that name, with cpu in
  -- thousandths under vcore and the members themselves under pods; and the sum is an int64. So
  -- neither a product nor a sum wraps and no entry overwrites another.
  pub get_task_groups-ask :
      (unmarshal : String → Option (List (TaskGroup Q))) (info : String) (gs : List (TaskGroup Q))
      → get_task_groups unmarshal info ≡ inr gs
      → (k : String)
      → (quantity k (entries (set_task_groups gs none)) ≡ groups_ask gs k)
        × (groups_ask gs k ≤ max_int64)
  get_task_groups-ask unmarshal info gs e k =
      let (totals, checked) = get_task_groups-checked unmarshal info gs e in
      let (asks, bounded, sums) =
        set_task_groups-from gs [] totals none (λ j. ground (arith, lookup-nil {V = ℕ} j)) checked
          tt (λ j. refl) in
      ground (arith, asks k, bounded k, sums k, lookup-nil {V = ℕ} k)
