-- ===== src/Gang/Validate.antt =====
-- What the checks of task groups leave in the totals: no product and no sum wraps.
use Prim.Native.Nat.{◌/◌}
use native.Mathlib.Nat.{mul-div-le, mul-le-mul_left, mul-le-mul_right, mul_assoc}
use yunikorn_k8shim.Prelude.{
  ℕ, String, ◌*◌, ◌%◌, ◌+◌, ◌≤◌, ◌<◌, ◌≡◌, refl, false, if◌then◌else◌, member, List, [], ◌∷◌, ◌==◌,
  ◌⊎◌, inl, inr, eq_iff, arith, subst, sym, ap,
}
use yunikorn_k8shim.Prelude.Dict.{Dict, insert, lookup-insert}
use yunikorn_k8shim.Prelude.Int64.{modulus, add_int64, sub_int64, mul_int64, gt_int64}
use yunikorn_k8shim.Resource.Sum.{quantity}
use yunikorn_k8shim.Gang.Defs.{
  max_int64, QuantityApi, TaskGroupError, canonical, milli_convert, amount, check_resource,
  check_resources, add_resources, ◌>>=◌,
}

quotient_product : (m s n : ℕ) → n ≡ max_int64 / (m * s) → m * (s * n) ≤ max_int64
quotient_product m s n e =
    let h : m * s * n ≤ max_int64 =
      subst (λ x. m * s * x ≤ max_int64) (sym e) (mul-div-le max_int64 (m * s)) in
    subst (λ x. x ≤ max_int64) (mul_assoc m s n) h

mul_le_of_quotient : (m a s n : ℕ) → n ≡ max_int64 / (m * s) → a ≤ s * n → m * a ≤ max_int64
mul_le_of_quotient m a s n e h = omega (arith, mul-le-mul_left m h, quotient_product m s n e)

quotient_le : (m s n : ℕ) → 1 ≤ m → n ≡ max_int64 / (m * s) → s * n ≤ max_int64
quotient_le m s n p e = omega (arith, mul-le-mul_right (s * n) p, quotient_product m s n e)

no_wrap :
    (members : ℕ) (res_name : String)
    → members < 2147483648
    → mul_int64 members (milli_convert res_name) ≡ members * milli_convert res_name
unfolding mul_int64
no_wrap members res_name u = ground arith

-- What returns without an error has had a first part that did.
pub >>=-inr {ℓ κ} :
    {A : Type ℓ} {B : Type κ} (o : TaskGroupError ⊎ A) (f : A → TaskGroupError ⊎ B) (b : B)
    → (o >>= f) ≡ inr b
    → (a : A) × (o ≡ inr a) × (f a ≡ inr b)
>>=-inr (inl e) f b h = absurd (cc)
>>=-inr (inr a) f b h = (a, refl, h)

-- What GetTGResource has built so far names only what was seen.
abbrev pub OnlySeen : List String → Dict ℕ → Type 0
OnlySeen seen acc = (k : String) → member k seen ≡ false → quantity k acc ≡ 0

quantity-insert :
    (j : String) (v : ℕ) (k : String) (d : Dict ℕ)
    → quantity k (insert j v d) ≡ (if j == k then v else quantity k d)
quantity-insert j v k d = ground (arith, lookup-insert j v k d)

insert_fresh :
    (j : String) (v : ℕ) (seen : List String) (acc : Dict ℕ)
    → OnlySeen seen acc
    → member j seen ≡ false
    → OnlySeen (j ∷ seen) (insert j v acc)
      × ((k : String) → quantity k (insert j v acc) ≡ quantity k acc + (if j == k then v else 0))
insert_fresh j v seen acc o h = (
  λ k f. ground (arith, o k, quantity-insert j v k acc),
  λ k. ground (arith, o j, quantity-insert j v k acc, eq_iff j k),
)

module _ {Q : Type 0} ⦃api : QuantityApi Q⦄ where
  product_in_range :
      (members : ℕ) (res_name : String) (q : Q)
      → 1 ≤ members
      → members < 2147483648
      → api.is_negative q ≡ false
      → api.exceeds q (max_int64 / mul_int64 members (milli_convert res_name)) ≡ false
      → members * amount res_name q ≤ max_int64
  unfolding mul_int64
  product_in_range members res_name q l u s x =
      let n : ℕ = max_int64 / mul_int64 members (milli_convert res_name) in
      let e : n ≡ max_int64 / (members * milli_convert res_name) =
        ap (λ x. max_int64 / x) (no_wrap members res_name u) in
      mul_le_of_quotient members (amount res_name q) (milli_convert res_name) n e (
        ground (
          arith,
          quotient_le members (milli_convert res_name) n l e,
          api.value_bound q n s x,
          api.milli_value_bound q n s x,
        ))

mul_int64-exact : (a b : ℕ) → a * b ≤ max_int64 → mul_int64 a b ≡ a * b
unfolding mul_int64
mul_int64-exact a b h = omega arith

-- Every total is a positive int64.
abbrev pub InInt64 : Dict ℕ → Type 0
InInt64 totals = (k : String) → quantity k totals ≤ max_int64

-- A contribution that passes the test of its sum.
pub add_total :
    (j : String) (c : ℕ) (totals : Dict ℕ)
    → InInt64 totals
    → c ≤ max_int64
    → gt_int64 (quantity j totals) (sub_int64 max_int64 c) ≡ false
    → (k : String)
    → (quantity k (insert j (add_int64 (quantity j totals) c) totals)
        ≡ quantity k totals + (if j == k then c else 0))
      × (quantity k (insert j (add_int64 (quantity j totals) c) totals) ≤ max_int64)
unfolding gt_int64 sub_int64 add_int64
add_total j c totals r b g k =
    ground
      (arith, quantity-insert j ((quantity j totals + c) % modulus) k totals, r k, r j, eq_iff j k)

module _ {Q : Type 0} ⦃api : QuantityApi Q⦄ where
  -- What the entries of a task group ask for under a name, as a natural number.
  unfoldable pub asked : ℕ → Dict Q → String → ℕ
  asked members [] k = 0
  asked members ((res_name, q) ∷ rest) k =
      (if canonical res_name == k then members * amount res_name q else 0) + asked members rest k

  pub record ResourceChecked (members : ℕ) (res_name : String) (q : Q) (seen : List String)
      (totals totals' : Dict ℕ) : Type 0 where
    pub fresh : member (canonical res_name) seen ≡ false
    pub exact : mul_int64 members (amount res_name q) ≡ members * amount res_name q
    pub bounded : InInt64 totals'
    pub sums :
        (k : String)
        → quantity k totals'
          ≡ quantity k totals + (if canonical res_name == k then members * amount res_name q else 0)

  check_resource-tests :
      (members : ℕ) (res_name : String) (q : Q) (seen seen' : List String) (totals totals' : Dict ℕ)
      → check_resource members res_name q seen totals ≡ inr (seen', totals')
      → (api.is_negative q ≡ false)
        × (member (canonical res_name) seen ≡ false)
        × (api.exceeds q (max_int64 / mul_int64 members (milli_convert res_name)) ≡ false)
        × (gt_int64
              (quantity (canonical res_name) totals)
              (sub_int64 max_int64 (mul_int64 members (amount res_name q)))
            ≡ false)
        × (seen' ≡ canonical res_name ∷ seen)
        × (totals'
            ≡ insert
                (canonical res_name)
                (add_int64
                  (quantity (canonical res_name) totals)
                  (mul_int64 members (amount res_name q)))
                totals)
  unfolding check_resource
  check_resource-tests members res_name q seen seen' totals totals' e = ground arith

  pub check_resource_lem :
      (members : ℕ) (res_name : String) (q : Q) (seen seen' : List String) (totals totals' : Dict ℕ)
      → 1 ≤ members
      → members < 2147483648
      → InInt64 totals
      → check_resource members res_name q seen totals ≡ inr (seen', totals')
      → (seen' ≡ canonical res_name ∷ seen) × ResourceChecked members res_name q seen totals totals'
  check_resource_lem members res_name q seen seen' totals totals' l u r e =
      let (positive, fresh, small, room, grown, summed) =
        check_resource-tests members res_name q seen seen' totals totals' e in
      let in_range = product_in_range members res_name q l u positive small in
      let exact = mul_int64-exact members (amount res_name q) in_range in
      let c : ℕ = mul_int64 members (amount res_name q) in
      let added = add_total (canonical res_name) c totals r (omega (arith, exact, in_range)) room in
      (
        grown,
        record {
          fresh = fresh;
          exact = exact;
          bounded = λ k. rw summed (added k).1;
          sums = λ k. ground (arith, added k, summed, exact);
        },
      )

  pub record GroupChecked (members : ℕ) (m : Dict Q) (seen : List String) (totals totals' : Dict ℕ)
      : Type 0 where
    pub bounded : InInt64 totals'
    pub sums : (k : String) → quantity k totals' ≡ quantity k totals + asked members m k
    pub built :
        (acc : Dict ℕ) (k : String)
        → OnlySeen seen acc
        → quantity k (add_resources members m acc) ≡ quantity k acc + asked members m k

  pub check_resources_lem :
      (members : ℕ) (m : Dict Q) (seen : List String) (totals totals' : Dict ℕ)
      → 1 ≤ members
      → members < 2147483648
      → InInt64 totals
      → check_resources members m seen totals ≡ inr totals'
      → GroupChecked members m seen totals totals'
  unfolding check_resources asked add_resources
  check_resources_lem members [] seen totals totals' l u r e =
      let same : totals ≡ totals' = cc in
      record {
        bounded = subst InInt64 same r;
        sums = λ k. ground arith;
        built = λ acc k o. omega arith;
      }
  check_resources_lem members ((res_name, q) ∷ rest) seen totals totals' l u r e =
      let ((seen₁, totals₁), first, e') =
        >>=-inr (check_resource members res_name q seen totals) _ totals' e in
      let (grown, c) =
        check_resource_lem members res_name q seen seen₁ totals totals₁ l u r first in
      let g = check_resources_lem members rest seen₁ totals₁ totals' l u c.bounded e' in
      record {
        bounded = g.bounded;
        sums = λ k. ground (arith, g.sums k, c.sums k);
        built = λ acc k o.
            let made =
              insert_fresh (canonical res_name) (mul_int64 members (amount res_name q)) seen acc o
                c.fresh in
            ground (
              arith,
              c.exact,
              g.built (insert (canonical res_name) (mul_int64 members (amount res_name q)) acc) k (
                  subst
                    (λ x.
                      OnlySeen x
                        (insert (canonical res_name) (mul_int64 members (amount res_name q)) acc))
                    (sym grown) made.0),
              made.1 k,
            );
      }
