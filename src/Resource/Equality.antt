-- ===== src/Resource/Equality.antt =====
-- Equals and IsZero.
use yunikorn_k8shim.Prelude.{
  ℕ, String, ◌≡◌, refl, Bool, true, false, ◌↔◌, Option, none, some, [], ◌∷◌, nat_eq, eq_iff, all,
  arith, sym, ap, ◌∙◌, Option-cases, inl, inr,
}
use yunikorn_k8shim.Prelude.Dict.{lookup, lookup-nil}
use yunikorn_k8shim.Prelude.Unique.{Unique}
use yunikorn_k8shim.Resource.Defs.{Resource, entries, included, equals, is_zero}
use yunikorn_k8shim.Resource.Sum.{UniqueEntries, quantity}

-- Every name of the one resource has the same quantity in the other.
abbrev Below : Resource → Option Resource → Type 0
Below m other = (k : String) (v : ℕ) → lookup k m ≡ some v → lookup k (entries other) ≡ some v

included_sound :
    (k : String) (v : ℕ) (m : Resource) (other : Option Resource)
    → included m other ≡ true
    → lookup k m ≡ some v
    → lookup k (entries other) ≡ some v
unfolding included lookup
included_sound k v [] other h e = absurd (cc)
included_sound k v ((j, w) ∷ m) none h e = absurd (cc)
included_sound k v ((j, w) ∷ m) (some r) h e =
    ground (arith, included_sound k v m (some r), eq_iff j k)

-- The tail of a resource lies below what the whole lies below.
Below-tail :
    (j : String) (w : ℕ) (m : Resource) (other : Option Resource)
    → lookup j m ≡ none
    → Below ((j, w) ∷ m) other
    → Below m other
unfolding lookup
Below-tail j w m other u h k v e = h k v (ground (arith, eq_iff j k))

Below-head :
    (j : String) (w : ℕ) (m : Resource) (other : Option Resource)
    → Below ((j, w) ∷ m) other
    → lookup j (entries other) ≡ some w
unfolding lookup
Below-head j w m other h = h j w (ground (arith, eq_iff j j))

included_complete :
    (m : Resource) (other : Option Resource) → Unique m → Below m other → included m other ≡ true
unfolding included
included_complete [] other u h = refl
included_complete ((j, w) ∷ m) none u h =
    absurd (ground (arith, Below-head j w m none h, lookup-nil {V = ℕ} j))
included_complete ((j, w) ∷ m) (some r) u h = ground (
  arith,
  Below-head j w m (some r) h,
  included_complete m (some r) u.1 (Below-tail j w m (some r) u.0 h),
)

same_lookup :
    (k : String) (l r : Resource)
    → ((v : ℕ) → lookup k l ≡ some v → lookup k r ≡ some v)
    → ((v : ℕ) → lookup k r ≡ some v → lookup k l ≡ some v)
    → lookup k l ≡ lookup k r
same_lookup k l r f g = elim (Option-cases (lookup k l)) [
  | inr (v, e) ↦ e ∙ sym (f v e)
  | inl e ↦ elim (Option-cases (lookup k r)) [
    | inl e' ↦ e ∙ sym e'
    | inr (v, e') ↦ absurd (cc (g v e'))
  ]
]

-- Equals answers true exactly if both resources have the same quantities under the same names; a
-- nil resource is like an empty one, and a missing name differs from a zero. No name stands twice
-- on either side, and the pointers are one only if the resources are.
pub equals_iff :
    (same_pointer : Bool) (left right : Option Resource)
    → (same_pointer ≡ true → left ≡ right)
    → UniqueEntries left
    → UniqueEntries right
    → (equals same_pointer left right ≡ true)
      ↔ ((k : String) → lookup k (entries left) ≡ lookup k (entries right))
unfolding equals
equals_iff true left right same u w = (λ h k. ap (λ r. lookup k (entries r)) (same refl), λ h. refl)
equals_iff false left right same u w = (
  λ h k.
      same_lookup k (entries left) (entries right)
        (λ v e. included_sound k v (entries left) right (ground arith) e)
        (λ v e. included_sound k v (entries right) left (ground arith) e),
  λ h. ground (
    arith,
    included_complete (entries left) right u (λ k v e. sym (h k) ∙ e),
    included_complete (entries right) left w (λ k v e. h k ∙ e),
  ),
)

all_zero : (k : String) (m : Resource) → all (λ (_, v). nat_eq v 0) m ≡ true → quantity k m ≡ 0
unfolding lookup
all_zero k [] h = refl
all_zero k ((j, v) ∷ m) h = ground (arith, all_zero k m, eq_iff j k)

zero_all :
    (m : Resource)
    → Unique m
    → ((k : String) → quantity k m ≡ 0)
    → all (λ (_, v). nat_eq v 0) m ≡ true
unfolding lookup
zero_all [] u h = refl
zero_all ((j, v) ∷ m) u h =
    ground (arith, h j, eq_iff j j, zero_all m u.1 (λ k. ground (arith, h k, eq_iff j k, u.0)))

-- IsZero answers true exactly if every quantity is 0, a missing one included. No name stands twice.
pub is_zero_iff :
    (r : Option Resource)
    → UniqueEntries r
    → (is_zero r ≡ true) ↔ ((k : String) → quantity k (entries r) ≡ 0)
unfolding is_zero
is_zero_iff r u = (λ h k. all_zero k (entries r) h, zero_all (entries r) u)
