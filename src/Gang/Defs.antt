-- ===== src/Gang/Defs.antt =====
-- Task groups: GetTaskGroupsFromAnnotation and validateTaskGroupResources of pkg/cache/utils.go,
-- GetTGResource of pkg/common/resource.go and setTaskGroups of pkg/cache/application.go.
use Prim.Native.Nat.{◌/◌}
use yunikorn_k8shim.Prelude.{
  ℕ, String, ◌*◌, ◌+◌, ◌≤◌, leb, nat_eq, member, ◌≡◌, Bool, false, if◌then◌else◌, Option, none,
  some, List, [], ◌∷◌, ◌==◌, ◌⊎◌, inl, inr,
}
use yunikorn_k8shim.Prelude.Dict.{Dict, insert}
use yunikorn_k8shim.Prelude.Int64.{add_int64, sub_int64, mul_int64, gt_int64}
use yunikorn_k8shim.Resource.{Resource, add}
use yunikorn_k8shim.Resource.Sum.{quantity}

abbrev pub max_int64 : ℕ
max_int64 = 9223372036854775807

-- k8s.io/apimachinery/pkg/api/resource.Quantity: a decimal number. Sign() < 0, CmpInt64(n) > 0,
-- and Value() and MilliValue(), which round the number and its thousandfold up.
pub record QuantityApi (Q : Type 0) : Type 0 where
  pub is_negative : Q → Bool
  pub exceeds : Q → ℕ → Bool
  pub value : Q → ℕ
  pub milli_value : Q → ℕ
  pub value_bound :
      (q : Q) (n : ℕ) → is_negative q ≡ false → exceeds q n ≡ false → n ≤ max_int64 → value q ≤ n
  pub milli_value_bound :
      (q : Q) (n : ℕ)
      → is_negative q ≡ false
      → exceeds q n ≡ false
      → 1000 * n ≤ max_int64
      → milli_value q ≤ 1000 * n

-- TaskGroup, as json.Unmarshal fills it: MinMember is an int32, MinResource may be nil.
pub record TaskGroup (Q : Type 0) : Type 0 where
  pub name : String
  pub min_member : ℕ
  pub min_resource : Option (Dict Q)

-- The errors, in the order of the checks.
pub data TaskGroupError : Type 0 where
  malformed no_name no_min_resource no_min_member negative_min_member pods_overflow
        negative_resource collision product_overflow total_overflow :
      TaskGroupError

-- if err != nil { return nil, err }
infixl 5 ◌>>=◌
abbrev pub ◌>>=◌ {ℓ κ} :
    {A : Type ℓ} {B : Type κ} → TaskGroupError ⊎ A → (A → TaskGroupError ⊎ B) → TaskGroupError ⊎ B
inl e >>= f = inl e
inr a >>= f = f a

-- int64(n) of an int32
unfoldable pub int64_of : ℕ → ℕ
int64_of n = if leb 2147483648 n then n + 18446744069414584320 else n

abbrev pub canonical : String → String
canonical res_name = if res_name == "cpu" then "vcore" else res_name

abbrev pub milli_convert : String → ℕ
milli_convert res_name = if res_name == "cpu" then 1000 else 1

module _ {Q : Type 0} ⦃api : QuantityApi Q⦄ where
  abbrev pub amount : String → Q → ℕ
  amount res_name q = if res_name == "cpu" then api.milli_value q else api.value q

  -- The body of the loop of validateTaskGroupResources. The members are positive, so that the
  -- quotient is that of natural numbers.
  unfoldable pub check_resource :
      ℕ → String → Q → List String → Dict ℕ → TaskGroupError ⊎ (List String × Dict ℕ)
  check_resource members res_name q seen totals =
      let key = canonical res_name in
      let contribution = mul_int64 members (amount res_name q) in
      if api.is_negative q
      then inl negative_resource
      else if member key seen
      then inl collision
      else if api.exceeds q (max_int64 / mul_int64 members (milli_convert res_name))
      then inl product_overflow
      else if gt_int64 (quantity key totals) (sub_int64 max_int64 contribution)
      then inl total_overflow
      else inr (key ∷ seen, insert key (add_int64 (quantity key totals) contribution) totals)

  unfoldable pub check_resources : ℕ → Dict Q → List String → Dict ℕ → TaskGroupError ⊎ Dict ℕ
  check_resources members [] seen totals = inr totals
  check_resources members ((res_name, q) ∷ rest) seen totals = do
    (seen', totals') ← check_resource members res_name q seen totals
    check_resources members rest seen' totals'

  -- validateTaskGroupResources
  unfoldable pub validate_task_group_resources : ℕ → Dict Q → Dict ℕ → TaskGroupError ⊎ Dict ℕ
  validate_task_group_resources members min_resource totals =
      if gt_int64 (quantity "pods" totals) (sub_int64 max_int64 members)
      then inl pods_overflow
      else check_resources members min_resource ("pods" ∷ [])
          (insert "pods" (add_int64 (quantity "pods" totals) members) totals)

  -- The body of the loop of GetTaskGroupsFromAnnotation.
  unfoldable pub check_task_group : TaskGroup Q → Dict ℕ → TaskGroupError ⊎ Dict ℕ
  check_task_group g totals = if g.name == "" then inl no_name else elim g.min_resource [
    | none ↦ inl no_min_resource
    | some min_resource ↦
        if nat_eq g.min_member 0
        then inl no_min_member
        else if leb 2147483648 g.min_member
        then inl negative_min_member
        else validate_task_group_resources (int64_of g.min_member) min_resource totals
  ]

  unfoldable pub check_task_groups : List (TaskGroup Q) → Dict ℕ → TaskGroupError ⊎ Dict ℕ
  check_task_groups [] totals = inr totals
  check_task_groups (g ∷ gs) totals = do
    totals' ← check_task_group g totals
    check_task_groups gs totals'

  -- GetTaskGroupsFromAnnotation. `unmarshal` is json.Unmarshal into task groups.
  unfoldable pub get_task_groups :
      (String → Option (List (TaskGroup Q))) → String → TaskGroupError ⊎ List (TaskGroup Q)
  get_task_groups unmarshal task_group_info =
      if task_group_info == "" then inr [] else elim (unmarshal task_group_info) [
        | none ↦ inl malformed
        | some groups ↦ do _ ← check_task_groups groups []; inr groups
      ]

  -- The loop of GetTGResource.
  unfoldable pub add_resources : ℕ → Dict Q → Resource → Resource
  add_resources members [] acc = acc
  add_resources members ((res_name, q) ∷ rest) acc =
      add_resources members rest
        (insert (canonical res_name) (mul_int64 members (amount res_name q)) acc)

  -- GetTGResource. A nil map has no entries.
  unfoldable pub get_tg_resource : Option (Dict Q) → ℕ → Resource
  get_tg_resource none members = insert "pods" members []
  get_tg_resource (some resources) members =
      add_resources members resources (insert "pods" members [])

  -- setTaskGroups: the ask for placeholders, which is nil at first
  unfoldable pub set_task_groups : List (TaskGroup Q) → Option Resource → Option Resource
  set_task_groups [] placeholder_ask = placeholder_ask
  set_task_groups (g ∷ gs) placeholder_ask =
      set_task_groups gs
        (some (add placeholder_ask (some (get_tg_resource g.min_resource (int64_of g.min_member)))))
