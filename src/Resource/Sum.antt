-- ===== src/Resource/Sum.antt =====
-- What the operations on resources do to each quantity.
use yunikorn_k8shim.Prelude.{
  ℕ, ◌<◌, String, ◌≡◌, refl, Option, none, some, [], ◌∷◌, ◌==◌, eq_iff, arith, if◌then◌else◌, sym,
  subst, ◌⊎◌, Option-cases, Bool-cases, inl, inr,
}
use yunikorn_k8shim.Prelude.Dict.{lookup, insert, lookup-insert, lookup-nil}
use yunikorn_k8shim.Prelude.Unique.{
  Unique, insert-Unique, copy_into, copy_into-Unique, lookup-copy_into,
}
use yunikorn_k8shim.Prelude.Int64.{
  modulus, add_int64, sub_int64, neg_int64, gt_int64, sub_int64-add_int64, sub_int64_self,
}
use yunikorn_k8shim.Resource.Defs.{
  Resource, entries, add_entry, add_into, add, sub_entry, sub_from, sub, max_entry, update_max,
}

-- The sum of two quantities of which either may be missing.
abbrev pub add_quantity : Option ℕ → Option ℕ → Option ℕ
add_quantity none b = b
add_quantity (some a) none = some a
add_quantity (some a) (some b) = some (add_int64 b a)

abbrev pub sub_quantity : Option ℕ → Option ℕ → Option ℕ
sub_quantity none none = none
sub_quantity none (some b) = some (neg_int64 b)
sub_quantity (some a) none = some a
sub_quantity (some a) (some b) = some (sub_int64 a b)

-- The larger of two signed quantities.
abbrev pub max_quantity : Option ℕ → Option ℕ → Option ℕ
max_quantity none b = b
max_quantity (some a) none = some a
max_quantity (some a) (some b) = if gt_int64 b a then some b else some a

lookup-add_entry :
    (j : String) (v : ℕ) (k : String) (acc : Resource)
    → lookup k (add_entry j v acc)
      ≡ (if j == k then add_quantity (some v) (lookup k acc) else lookup k acc)
unfolding add_entry
lookup-add_entry j v k acc = elim (Option-cases (lookup j acc)) [
  | inl a ↦ ground (arith, lookup-insert j v k acc, eq_iff j k)
  | inr (er, a) ↦ ground (arith, lookup-insert j (add_int64 er v) k acc, eq_iff j k)
]

lookup-sub_entry :
    (j : String) (v : ℕ) (k : String) (acc : Resource)
    → lookup k (sub_entry j v acc)
      ≡ (if j == k then sub_quantity (lookup k acc) (some v) else lookup k acc)
unfolding sub_entry
lookup-sub_entry j v k acc = elim (Option-cases (lookup j acc)) [
  | inl a ↦ ground (arith, lookup-insert j (neg_int64 v) k acc, eq_iff j k)
  | inr (er, a) ↦ ground (arith, lookup-insert j (sub_int64 er v) k acc, eq_iff j k)
]

lookup-max_entry :
    (j : String) (v : ℕ) (k : String) (acc : Resource)
    → lookup k (max_entry j v acc)
      ≡ (if j == k then max_quantity (lookup k acc) (some v) else lookup k acc)
unfolding max_entry
lookup-max_entry j v k acc = elim (Option-cases (lookup j acc)) [
  | inl a ↦ ground (arith, lookup-insert j v k acc, eq_iff j k)
  | inr (l, a) ↦ ground (arith, lookup-insert j v k acc, eq_iff j k)
]

add_entry-Unique : (k : String) (v : ℕ) (acc : Resource) → Unique acc → Unique (add_entry k v acc)
unfolding add_entry
add_entry-Unique k v acc h = elim (Option-cases (lookup k acc)) [
  | inl a ↦
      let e : add_entry k v acc ≡ insert k v acc = ground arith in
      subst Unique (sym e) (insert-Unique k v acc h)
  | inr (er, a) ↦
      let e : add_entry k v acc ≡ insert k (add_int64 er v) acc = ground arith in
      subst Unique (sym e) (insert-Unique k (add_int64 er v) acc h)
]

max_entry-Unique : (k : String) (v : ℕ) (acc : Resource) → Unique acc → Unique (max_entry k v acc)
unfolding max_entry
max_entry-Unique k v acc h =
    let kept_or_set : (max_entry k v acc ≡ acc) ⊎ (max_entry k v acc ≡ insert k v acc) =
      (elim (Option-cases (lookup k acc)) [
        | inl a ↦ inr (ground arith)
        | inr (l, a) ↦ elim (Bool-cases (gt_int64 v l)) [
          | inl g ↦ inr (ground arith)
          | inr g ↦ inl (ground arith)
        ]
      ]) in
    elim kept_or_set [
      | inl e ↦ subst Unique (sym e) h
      | inr e ↦ subst Unique (sym e) (insert-Unique k v acc h)
    ]

add_into-Unique : (m acc : Resource) → Unique acc → Unique (add_into m acc)
unfolding add_into
add_into-Unique [] acc h = h
add_into-Unique ((k, v) ∷ m) acc h =
    add_into-Unique m (add_entry k v acc) (add_entry-Unique k v acc h)

lookup-add_into :
    (k : String) (m acc : Resource)
    → Unique m
    → lookup k (add_into m acc) ≡ add_quantity (lookup k m) (lookup k acc)
unfolding add_into lookup
lookup-add_into k [] acc h = refl
lookup-add_into k ((j, v) ∷ m) acc h =
    ground (arith, lookup-add_into k m (add_entry j v acc), lookup-add_entry j v k acc, eq_iff j k)

lookup-sub_from :
    (k : String) (m acc : Resource)
    → Unique m
    → lookup k (sub_from m acc) ≡ sub_quantity (lookup k acc) (lookup k m)
unfolding sub_from lookup
lookup-sub_from k [] acc h = ground arith
lookup-sub_from k ((j, v) ∷ m) acc h =
    ground (arith, lookup-sub_from k m (sub_entry j v acc), lookup-sub_entry j v k acc, eq_iff j k)

-- updateMax takes the larger of the two signed quantities for every name, and the one that is
-- there where the other is missing. No name stands twice on the right side.
pub lookup-update_max :
    (k : String) (left right : Resource)
    → Unique right
    → lookup k (update_max left right) ≡ max_quantity (lookup k left) (lookup k right)
unfolding update_max lookup
lookup-update_max k left [] h = ground arith
lookup-update_max k left ((j, v) ∷ m) h =
    ground
      (arith, lookup-update_max k (max_entry j v left) m, lookup-max_entry j v k left, eq_iff j k)

pub update_max-Unique : (left right : Resource) → Unique left → Unique (update_max left right)
unfolding update_max
update_max-Unique left [] h = h
update_max-Unique left ((k, v) ∷ m) h =
    update_max-Unique (max_entry k v left) m (max_entry-Unique k v left h)

-- No name stands twice in the entries.
abbrev pub UniqueEntries : Option Resource → Type 0
UniqueEntries r = Unique (entries r)

-- Add is the sum with the wrap of int64 for every name, and what is there where one side has no
-- such name, whichever pointers are nil. No name stands twice on either side.
pub lookup-add :
    (k : String) (left right : Option Resource)
    → UniqueEntries left
    → UniqueEntries right
    → lookup k (add left right) ≡ add_quantity (lookup k (entries left)) (lookup k (entries right))
unfolding add
lookup-add k left right h g = ground (
  arith,
  lookup-add_into k (entries left) (copy_into (entries right) []),
  lookup-copy_into k (entries right) [],
  lookup-nil {V = ℕ} k,
)

pub add-Unique : (left right : Option Resource) → Unique (add left right)
unfolding add
add-Unique left right = add_into-Unique (entries left) _ (copy_into-Unique (entries right) [] tt)

-- Sub is the difference with the wrap of int64 for every name; a name that only the right side has
-- gets the negated quantity. No name stands twice on either side.
pub lookup-sub :
    (k : String) (left right : Option Resource)
    → UniqueEntries left
    → UniqueEntries right
    → lookup k (sub left right) ≡ sub_quantity (lookup k (entries left)) (lookup k (entries right))
unfolding sub
lookup-sub k left none h g = ground (arith, lookup-nil {V = ℕ} k)
lookup-sub k left (some right) h g = ground (
  arith,
  lookup-sub_from k right (copy_into (entries left) []),
  lookup-copy_into k (entries left) [],
  lookup-nil {V = ℕ} k,
)

-- The quantity of a name, 0 where it is missing.
abbrev pub quantity : String → Resource → ℕ
quantity k r = elim (lookup k r) [ none ↦ 0 | some v ↦ v ]

-- Every quantity is an int64.
abbrev pub InRange : Resource → Type 0
InRange r = (k : String) → quantity k r < modulus

-- Subtracting what was added gives every quantity back, also where the sum wraps. No name stands
-- twice in either resource, and every quantity is an int64.
pub sub-add :
    (k : String) (left right : Resource)
    → Unique left
    → Unique right
    → InRange left
    → InRange right
    → quantity k (sub (some (add (some left) (some right))) (some right)) ≡ quantity k left
sub-add k left right h g a b = ground (
  arith,
  lookup-sub k (some (add (some left) (some right))) (some right)
      (add-Unique (some left) (some right)) g,
  lookup-add k (some left) (some right) h g,
  sub_int64-add_int64 (quantity k left) (quantity k right) (a k) (b k),
  sub_int64_self (quantity k right),
)
