-- ===== src/SchedulerCache/ClaimCounts.antt =====
-- updatePVCRefCounts: how often each node uses each claim.
use yunikorn_k8shim.Prelude.{
  is_empty, ℕ, String, ◌≡◌, refl, subst, Bool, true, false, ◌&&◌, Option, none, some, [], ◌∷◌, ◌==◌,
  if◌then◌else◌, arith, eq_iff, Option-cases, Bool-cases, inl, inr,
}
use yunikorn_k8shim.Prelude.Dict.{Dict, lookup, insert, delete, lookup-insert, lookup-delete}
use yunikorn_k8shim.Prelude.Unique.{Unique}
use yunikorn_k8shim.SchedulerCache.NodeInfo.{NodeInfoApi}
use yunikorn_k8shim.SchedulerCache.Defs.{is_some, drop_node, set_claim, add_node, recount}

-- How often the node uses the claim, if it does.
abbrev pub uses : (node claim : String) → Dict (Dict ℕ) → Option ℕ
uses n k m = elim (lookup k m) [ none ↦ none | some entry ↦ lookup n entry ]

abbrev unless_empty : Dict ℕ → Option (Dict ℕ)
unless_empty d = if is_empty d then none else some d

lookup-drop_node :
    (n k : String) (m : Dict (Dict ℕ))
    → Unique m
    → lookup k (drop_node n m)
      ≡ (elim (lookup k m) [ none ↦ none | some e ↦ unless_empty (delete n e) ])
unfolding drop_node lookup
lookup-drop_node n k [] u = refl
lookup-drop_node n k ((j, e) ∷ m) u = elim (Bool-cases (is_empty (delete n e))) [
  | inl a ↦ ground (arith, lookup-drop_node n k m u.1, eq_iff j k, u.0)
  | inr a ↦ ground (arith, lookup-drop_node n k m u.1, eq_iff j k, u.0)
]

lookup-empty : (q : String) (d : Dict ℕ) → is_empty d ≡ true → lookup q d ≡ none
unfolding lookup
lookup-empty q [] h = refl
lookup-empty q (x ∷ d) h = absurd (cc h)

uses-drop_node :
    (n q k : String) (m : Dict (Dict ℕ))
    → Unique m
    → uses q k (drop_node n m) ≡ (if q == n then none else uses q k m)
uses-drop_node n q k m u = elim (Option-cases (lookup k m)) [
  | inl a ↦ ground (arith, lookup-drop_node n k m u)
  | inr (e, a) ↦ ground (
    arith,
    lookup-drop_node n k m u,
    lookup-empty q (delete n e),
    lookup-delete n q e,
    eq_iff n q,
    eq_iff q n,
  )
]

one_entry : (n q : String) (c : ℕ) → lookup q ((n, c) ∷ []) ≡ (if n == q then some c else none)
unfolding lookup
one_entry n q c = refl

uses-set_claim :
    (n j q k : String) (c : ℕ) (m : Dict (Dict ℕ))
    → uses q k (set_claim n j c m) ≡ (if (q == n) && (j == k) then some c else uses q k m)
unfolding set_claim
uses-set_claim n j q k c m = elim (Option-cases (lookup j m)) [
  | inl a ↦ ground (
    arith,
    lookup-insert j ((n, c) ∷ []) k m,
    one_entry n q c,
    eq_iff j k,
    eq_iff n q,
    eq_iff q n,
  )
  | inr (e, a) ↦ ground (
    arith,
    lookup-insert j (insert n c e) k m,
    lookup-insert n c q e,
    eq_iff j k,
    eq_iff n q,
    eq_iff q n,
  )
]

uses-add_node :
    (n q k : String) (counts : Dict ℕ) (m : Dict (Dict ℕ))
    → Unique counts
    → uses q k (add_node n counts m)
      ≡ (if (q == n) && is_some (lookup k counts) then lookup k counts else uses q k m)
unfolding add_node lookup
uses-add_node n q k [] m u = ground (arith)
uses-add_node n q k ((j, c) ∷ counts) m u =
    ground (
      arith,
      uses-add_node n q k counts (set_claim n j c m),
      uses-set_claim n j q k c m,
      eq_iff j k,
    )

-- A claim is only kept while a node uses it.
abbrev pub NoneEmpty : Dict (Dict ℕ) → Type 0
NoneEmpty m = (k : String) (e : Dict ℕ) → lookup k m ≡ some e → is_empty e ≡ false

drop_node-NoneEmpty : (n : String) (m : Dict (Dict ℕ)) → Unique m → NoneEmpty (drop_node n m)
drop_node-NoneEmpty n m u k e h = elim (Option-cases (lookup k m)) [
  | inl a ↦ absurd (ground (arith, lookup-drop_node n k m u))
  | inr (d, a) ↦ elim (Bool-cases (is_empty (delete n d))) [
    | inl b ↦ absurd (ground (arith, lookup-drop_node n k m u))
    | inr b ↦ ground (arith, lookup-drop_node n k m u)
  ]
]

insert-filled : (n : String) (c : ℕ) (e : Dict ℕ) → is_empty (insert n c e) ≡ false
unfolding insert
insert-filled n c [] = refl
insert-filled n c ((j, v) ∷ e) = ground arith

set_claim-NoneEmpty :
    (n j : String) (c : ℕ) (m : Dict (Dict ℕ)) → NoneEmpty m → NoneEmpty (set_claim n j c m)
unfolding set_claim
set_claim-NoneEmpty n j c m v k e h = elim (Option-cases (lookup j m)) [
  | inl a ↦ elim (Bool-cases (j == k)) [
    | inl b ↦
        let found : some ((n, c) ∷ []) ≡ some e =
          ground (arith, lookup-insert j ((n, c) ∷ []) k m) in
        subst (λ o. (elim o as (λ _. Bool) [ none ↦ false | some d ↦ is_empty d ]) ≡ false) found
          refl
    | inr b ↦ v k e (ground (arith, lookup-insert j ((n, c) ∷ []) k m))
  ]
  | inr (d, a) ↦ elim (Bool-cases (j == k)) [
    | inl b ↦
        let found : some (insert n c d) ≡ some e =
          ground (arith, lookup-insert j (insert n c d) k m) in
        subst (λ o. (elim o as (λ _. Bool) [ none ↦ false | some x ↦ is_empty x ]) ≡ false) found
          (insert-filled n c d)
    | inr b ↦ v k e (ground (arith, lookup-insert j (insert n c d) k m))
  ]
]

add_node-NoneEmpty :
    (n : String) (counts : Dict ℕ) (m : Dict (Dict ℕ))
    → NoneEmpty m
    → NoneEmpty (add_node n counts m)
unfolding add_node
add_node-NoneEmpty n [] m v = v
add_node-NoneEmpty n ((j, c) ∷ counts) m v =
    add_node-NoneEmpty n counts (set_claim n j c m) (set_claim-NoneEmpty n j c m v)

module _ {N : Type 0} ⦃api : NodeInfoApi N⦄ where
  open api use {pvc_counts}

  -- updatePVCRefCounts makes the counts of the node those that its NodeInfo has, or none if the node
  -- is removed, whatever it had before. The counts of every other node stay, and no claim is kept
  -- that no node uses. No claim stands twice in either map.
  pub uses-recount :
      (n : String) (info : N) (removed : Bool) (m : Dict (Dict ℕ))
      → Unique m
      → Unique (pvc_counts info)
      → ((q k : String)
          → uses q k (recount n info removed m) ≡ (
              if q == n
              then (if removed then none else lookup k (pvc_counts info))
              else uses q k m))
        × NoneEmpty (recount n info removed m)
  unfolding recount
  uses-recount n info true m u w = (λ q k. uses-drop_node n q k m u, drop_node-NoneEmpty n m u)
  uses-recount n info false m u w = (
    λ q k. elim (Option-cases (lookup k (pvc_counts info))) [
      | inl a ↦
          ground (
            arith,
            uses-add_node n q k (pvc_counts info) (drop_node n m) w,
            uses-drop_node n q k m u,
          )
      | inr (c, a) ↦
          ground (
            arith,
            uses-add_node n q k (pvc_counts info) (drop_node n m) w,
            uses-drop_node n q k m u,
          )
    ],
    add_node-NoneEmpty n (pvc_counts info) (drop_node n m) (drop_node-NoneEmpty n m u),
  )
