-- ===== src/Resource/Defs.antt =====
-- A `*si.Resource` is an optional dictionary of quantities: a nil pointer is `none`, a nil map the
-- empty one. A quantity is an int64.
use yunikorn_k8shim.Prelude.{
  ℕ, String, Bool, true, false, ◌&&◌, Option, none, some, [], ◌∷◌, nat_eq, all, if◌then◌else◌,
}
use yunikorn_k8shim.Prelude.Dict.{Dict, lookup, insert}
use yunikorn_k8shim.Prelude.Unique.{copy_into}
use yunikorn_k8shim.Prelude.Int64.{add_int64, sub_int64, neg_int64, gt_int64}

abbrev pub Resource : Type 0
Resource = Dict ℕ

-- r.Resources, and GetResources() on a pointer that may be nil
abbrev pub entries : Option Resource → Resource
entries none = []
entries (some r) = r

-- The body of the second loop of Add: what is there already is added to.
unfoldable pub add_entry : String → ℕ → Resource → Resource
add_entry k v acc = elim (lookup k acc) [
  | some er ↦ insert k (add_int64 er v) acc
  | none ↦ insert k v acc
]

unfoldable pub add_into : Resource → Resource → Resource
add_into [] acc = acc
add_into ((k, v) ∷ m) acc = add_into m (add_entry k v acc)

-- Add
unfoldable pub add : Option Resource → Option Resource → Resource
add left right = add_into (entries left) (copy_into (entries right) [])

-- The body of the second loop of Sub.
unfoldable pub sub_entry : String → ℕ → Resource → Resource
sub_entry k v acc = elim (lookup k acc) [
  | some er ↦ insert k (sub_int64 er v) acc
  | none ↦ insert k (neg_int64 v) acc
]

unfoldable pub sub_from : Resource → Resource → Resource
sub_from [] acc = acc
sub_from ((k, v) ∷ m) acc = sub_from m (sub_entry k v acc)

-- Sub
unfoldable pub sub : Option Resource → Option Resource → Resource
sub left none = entries left
sub left (some right) = sub_from right (copy_into (entries left) [])

abbrev pub has_value : Option ℕ → ℕ → Bool
has_value none v = false
has_value (some w) v = nat_eq w v

-- A loop of Equals: every entry of `m` has the same value in `other`, which may be nil.
unfoldable pub included : Resource → Option Resource → Bool
included [] other = true
included ((k, v) ∷ m) other =
    let rest = included m other in
    elim other [ none ↦ false | some r ↦ if has_value (lookup k r) v then rest else false ]

-- Equals. Whether the two pointers are one is an argument.
unfoldable pub equals : Bool → Option Resource → Option Resource → Bool
equals same_pointer left right =
    if same_pointer then true else included (entries left) right && included (entries right) left

-- IsZero
unfoldable pub is_zero : Option Resource → Bool
is_zero r = all (λ (_, v). nat_eq v 0) (entries r)

-- The body of the loop of updateMax.
unfoldable pub max_entry : String → ℕ → Resource → Resource
max_entry k r left = elim (lookup k left) [
  | none ↦ insert k r left
  | some l ↦ if gt_int64 r l then insert k r left else left
]

-- updateMax: the new value of the left map. A nil right side has no entries.
unfoldable pub update_max : Resource → Resource → Resource
update_max left [] = left
update_max left ((k, r) ∷ m) = update_max (max_entry k r left) m
