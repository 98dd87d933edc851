-- ===== src/Placeholders/Create.antt =====
-- createAppPlaceholders creates the placeholders that are missing, in order, up to the first error.
use yunikorn_k8shim.Prelude.{
  ℕ, zero, suc, ◌+◌, ◌-◌, ◌%◌, ◌≤◌, ◌<◌, String, ◌≡◌, ◌⊎◌, inl, inr, refl, Bool, true, false,
  if◌then◌else◌, List, [], ◌∷◌, ◌++◌, ◌==◌, length, count, count-append, arith, Bool-cases,
  String-cases, append_assoc, append-nil, eq_iff, ap, subst, sym, ◌∙◌,
}
use yunikorn_k8shim.Prelude.Dict.{Dict, lookup, insert, lookup-insert, lookup-nil}
use yunikorn_k8shim.Task.{Task}
use yunikorn_k8shim.Application.{Application, TaskGroup}
use yunikorn_k8shim.Placeholders.Defs.{
  get_placeholder_tasks, or_zero, tg_counts, create_group, missing_members, create_groups,
  create_app_placeholders,
}

abbrev pub replicate : ℕ → String → List String
replicate zero s = []
replicate (suc n) s = s ∷ replicate n s

-- The placeholders that are missing, group by group.
unfoldable pub missing : List TaskGroup → Dict ℕ → List String
missing [] counts = []
missing (tg ∷ tgs) counts = replicate (missing_members tg counts) tg.name ++ missing tgs counts

-- All of `wanted` was created after `before`, or a call failed and nothing was created from it on.
abbrev pub Outcome : (ℕ → Bool) → List String → List String → List String × Bool → Type 0
Outcome create before wanted r =
    (r ≡ (before ++ wanted, false))
    ⊎ ((done : List String) × (next : String) × (rest : List String) × (wanted
          ≡ done ++ next ∷ rest)
        × (create (length (before ++ done)) ≡ false)
        × (r ≡ (before ++ done, true)))

create_group_lem :
    (create : ℕ → Bool) (name : String) (n : ℕ) (before : List String)
    → Outcome create before (replicate n name) (create_group create name n before)
unfolding create_group
create_group_lem create name zero before = inl (ap (λ l. (l, false)) (sym (append-nil before)))
create_group_lem create name (suc n) before = elim (Bool-cases (create (length before))) [
  | inr f ↦ inr (
    [],
    name,
    replicate n name,
    refl,
    (subst (λ l. create (length l) ≡ false) (sym (append-nil before)) f),
    (ground (arith, append-nil before)),
  )
  | inl t ↦ elim (create_group_lem create name n (before ++ name ∷ [])) [
    | inl r ↦ inl (ground (arith, append_assoc before (name ∷ []) (replicate n name)))
    | inr (done, next, rest, wanted, f, r) ↦ inr (
      name ∷ done,
      next,
      rest,
      (ap (λ l. name ∷ l) wanted),
      (subst (λ l. create (length l) ≡ false) (append_assoc before (name ∷ []) done) f),
      (ground (arith, append_assoc before (name ∷ []) done)),
    )
  ]
]

create_groups_lem :
    (create : ℕ → Bool) (tgs : List TaskGroup) (counts : Dict ℕ) (before : List String)
    → Outcome create before (missing tgs counts) (create_groups create tgs counts before)
unfolding create_groups missing
create_groups_lem create [] counts before = inl (ap (λ l. (l, false)) (sym (append-nil before)))
create_groups_lem create (tg ∷ tgs) counts before =
    let here = replicate (missing_members tg counts) tg.name in
    elim (create_group_lem create tg.name (missing_members tg counts) before) [
      | inr (done, next, rest, wanted, f, r) ↦ inr (
        done,
        next,
        rest ++ missing tgs counts,
        ap (λ l. l ++ missing tgs counts) wanted
            ∙ append_assoc done (next ∷ rest) (missing tgs counts),
        f,
        ground (arith, r),
      )
      | inl r ↦ elim (create_groups_lem create tgs counts (before ++ here)) [
        | inl r' ↦ inl (ground (arith, r, append_assoc before here (missing tgs counts)))
        | inr (done, next, rest, wanted, f, r') ↦ inr (
          here ++ done,
          next,
          rest,
          ap (λ l. here ++ l) wanted ∙ sym (append_assoc here done (next ∷ rest)),
          subst (λ l. create (length l) ≡ false) (append_assoc before here done) f,
          ground (arith, r, append_assoc before here done),
        )
      ]
    ]

-- How many of the tasks are in the group.
abbrev pub in_group : String → List Task → ℕ
in_group k ts = count (λ t. t.task_group_name == k) ts

-- What the groups of this name lack, where so many placeholders are there.
unfoldable pub shortfall : List TaskGroup → String → ℕ → ℕ
shortfall [] k there = 0
shortfall (tg ∷ tgs) k there =
    (if tg.name == k then tg.min_member - there else 0) + shortfall tgs k there

-- Every MinMember is a positive int32.
abbrev pub AllPositive : List TaskGroup → Type 0
AllPositive [] = Unit
AllPositive (tg ∷ tgs) = (tg.min_member < 2147483648) × AllPositive tgs

count-le : {A : Type 0} (p : A → Bool) (xs : List A) → count p xs ≤ length xs
count-le p [] = omega arith
count-le p (x ∷ xs) = ground (arith, count-le p xs)

count-replicate :
    (n : ℕ) (s k : String) → count (λ t. t == k) (replicate n s) ≡ (if s == k then n else 0)
count-replicate zero s k = ground arith
count-replicate (suc n) s k = ground (arith, count-replicate n s k)

lookup-tg_counts :
    (k : String) (ts : List Task) (counts : Dict ℕ)
    → or_zero (lookup k counts) + length ts < 4294967296
    → or_zero (lookup k (tg_counts ts counts)) ≡ or_zero (lookup k counts) + in_group k ts
unfolding tg_counts
lookup-tg_counts k [] counts h = omega arith
lookup-tg_counts k (t ∷ ts) counts h =
    let v = (or_zero (lookup t.task_group_name counts) + 1) % 4294967296 in
    let counts' = insert t.task_group_name v counts in
    elim (String-cases t.task_group_name k) [
      | inl same ↦
          let now : or_zero (lookup k counts') ≡ or_zero (lookup k counts) + 1 =
            ground (
              arith,
              lookup-insert t.task_group_name v k counts,
              eq_iff t.task_group_name k,
              same,
            ) in
          ground (arith, lookup-tg_counts k ts counts', now, eq_iff t.task_group_name k)
      | inr other ↦
          let now : or_zero (lookup k counts') ≡ or_zero (lookup k counts) =
            ground (arith, lookup-insert t.task_group_name v k counts) in
          ground (arith, lookup-tg_counts k ts counts', now)
    ]

missing_members-exact :
    (tg : TaskGroup) (counts : Dict ℕ)
    → tg.min_member < 2147483648
    → or_zero (lookup tg.name counts) < 2147483648
    → missing_members tg counts ≡ tg.min_member - or_zero (lookup tg.name counts)
unfolding missing_members
missing_members-exact tg counts h k = omega arith

count-missing :
    (k : String) (tgs : List TaskGroup) (counts : Dict ℕ) (there : ℕ)
    → AllPositive tgs
    → or_zero (lookup k counts) ≡ there
    → there < 2147483648
    → count (λ s. s == k) (missing tgs counts) ≡ shortfall tgs k there
unfolding missing shortfall
count-missing k [] counts there h e l = refl
count-missing k (tg ∷ tgs) counts there h e l = elim (String-cases tg.name k) [
  | inl same ↦
      let at : or_zero (lookup tg.name counts) ≡ there =
        ap (λ n. or_zero (lookup n counts)) same ∙ e in
      ground (
        arith,
        count-append (λ s. s == k) (replicate (missing_members tg counts) tg.name)
            (missing tgs counts),
        count-replicate (missing_members tg counts) tg.name k,
        count-missing k tgs counts there h.1 e l,
        missing_members-exact tg counts,
        eq_iff tg.name k,
      )
  | inr other ↦ ground (
    arith,
    count-append (λ s. s == k) (replicate (missing_members tg counts) tg.name) (missing tgs counts),
    count-replicate (missing_members tg counts) tg.name k,
    count-missing k tgs counts there h.1 e l,
  )
]

-- createAppPlaceholders creates what the groups lack: there is a list of placeholders that has for
-- every name what the groups of that name lack of MinMember, given the placeholders there are.
-- Either all of them are created, in order, and no error is returned; or a call of Create fails,
-- those before it were created, nothing after it is, and an error is returned. MinMember is
-- positive, and there are fewer placeholders than an int32 counts.
pub create_app_placeholders_lem :
    (create : ℕ → Bool) (app : Application)
    → AllPositive app.task_groups
    → length (get_placeholder_tasks app.task_map) < 2147483648
    → (wanted : List String) × ((k : String)
        → count (λ s. s == k) wanted
          ≡ shortfall app.task_groups k (in_group k (get_placeholder_tasks app.task_map)))
      × Outcome create [] wanted (create_app_placeholders create app)
unfolding create_app_placeholders
create_app_placeholders_lem create app h l =
    let ts = get_placeholder_tasks app.task_map in
    let counts = tg_counts ts [] in
    (
      missing app.task_groups counts,
      λ k.
          count-missing k app.task_groups counts (in_group k ts) h
            (ground (arith, lookup-tg_counts k ts [], lookup-nil {V = ℕ} k))
            (ground (arith, count-le (λ t. t.task_group_name == k) ts)),
      create_groups_lem create app.task_groups counts [],
    )
