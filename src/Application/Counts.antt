-- ===== src/Application/Counts.antt =====
-- The counts of onReservationStateChange: what the two loops make of them.
use yunikorn_k8shim.Prelude.{
  ℕ, zero, suc, ◌+◌, ◌*◌, ◌%◌, ◌≤◌, ◌<◌, String, ◌≡◌, refl, ap, subst, ◌∙◌, Bool, ◌&&◌, Option,
  none, some, List, [], ◌∷◌, ◌==◌, if◌then◌else◌, ltb, arith, eq_iff, Option-cases, Bool-cases, inl,
  inr,
}
use yunikorn_k8shim.Prelude.Dict.{Dict, lookup, insert, lookup-insert}
use yunikorn_k8shim.Prelude.Unique.{Unique, insert-Unique}
use yunikorn_k8shim.Fsm.{same}
use yunikorn_k8shim.Events.{TaskState-Names, task_bound}
use yunikorn_k8shim.Task.{Task}
use yunikorn_k8shim.Application.Defs.{
  TaskGroup, modulus32, dec_int32, is_positive32, desire_counts, count_task, count_tasks,
}

-- How many members the group asks for: the last group of that name counts.
abbrev pub min_members : String → List TaskGroup → Option ℕ
min_members k [] = none
min_members k (g ∷ gs) = elim (min_members k gs) [
  | some m ↦ some m
  | none ↦ if g.name == k then some g.min_member else none
]

abbrev pub is_bound_placeholder : String → Task → Bool
is_bound_placeholder k t = same t.sm task_bound && t.placeholder && t.task_group_name == k

-- How many placeholders of the group are bound.
abbrev pub bound_placeholders : String → Dict Task → ℕ
bound_placeholders k [] = 0
bound_placeholders k ((_, t) ∷ m) =
    (if is_bound_placeholder k t then 1 else 0) + bound_placeholders k m

-- An int32 that is decremented `n` times.
abbrev pub sub_int32 : ℕ → ℕ → ℕ
sub_int32 v zero = v
sub_int32 v (suc n) = sub_int32 (dec_int32 v) n

sub_int32_closed : (n v : ℕ) → v < modulus32 → sub_int32 v n ≡ (v + 4294967295 * n) % modulus32
unfolding dec_int32
sub_int32_closed zero v h = omega arith
sub_int32_closed (suc n) v h = omega (arith, sub_int32_closed n (dec_int32 v))

closed_is_positive32 :
    (m n : ℕ)
    → m < 2147483648
    → n ≤ 2147483648
    → is_positive32 ((m + 4294967295 * n) % modulus32) ≡ ltb n m
closed_is_positive32 m n h g = ground arith

pub is_positive32-sub_int32 :
    (m n : ℕ) → m < 2147483648 → n ≤ 2147483648 → is_positive32 (sub_int32 m n) ≡ ltb n m
is_positive32-sub_int32 m n h g =
    ap is_positive32 (sub_int32_closed n m (omega arith)) ∙ closed_is_positive32 m n h g

pub lookup-desire_counts :
    (k : String) (gs : List TaskGroup) (counts : Dict ℕ)
    → lookup k (desire_counts gs counts)
      ≡ (elim (min_members k gs) [ some m ↦ some m | none ↦ lookup k counts ])
unfolding desire_counts
lookup-desire_counts k [] counts = refl
lookup-desire_counts k (g ∷ gs) counts = ground (
  arith,
  lookup-desire_counts k gs (insert g.name g.min_member counts),
  lookup-insert g.name g.min_member k counts,
  eq_iff g.name k,
)

pub desire_counts-Unique :
    (gs : List TaskGroup) (counts : Dict ℕ) → Unique counts → Unique (desire_counts gs counts)
unfolding desire_counts
desire_counts-Unique [] counts u = u
desire_counts-Unique (g ∷ gs) counts u =
    desire_counts-Unique gs _ (insert-Unique g.name g.min_member counts u)

abbrev pub lowered : Option ℕ → ℕ → Option ℕ
lowered none n = none
lowered (some v) n = some (sub_int32 v n)

count_entry_lem :
    (k g : String) (counts : Dict ℕ) (n : ℕ)
    → lowered
        (lookup k
          (elim (lookup g counts) [ none ↦ counts | some v ↦ insert g (dec_int32 v) counts ]))
        n
      ≡ lowered (lookup k counts) ((if g == k then 1 else 0) + n)
count_entry_lem k g counts n = elim (Option-cases (lookup g counts)) [
  | inl a ↦ ground (arith, eq_iff g k)
  | inr (v, a) ↦ elim (Bool-cases (g == k)) [
    | inl b ↦
        let one : 1 + n ≡ suc n = omega arith in
        let less : sub_int32 v ((if g == k then 1 else 0) + n) ≡ sub_int32 (dec_int32 v) n =
          ap (λ c. sub_int32 v ((if c then 1 else 0) + n)) b ∙ ap (sub_int32 v) one in
        ground (arith, less, lookup-insert g (dec_int32 v) k counts, eq_iff g k)
    | inr b ↦ ground (arith, lookup-insert g (dec_int32 v) k counts, eq_iff g k)
  ]
]

count_task_lem :
    (k : String) (t : Task) (counts : Dict ℕ) (n : ℕ)
    → lowered (lookup k (count_task t counts)) n
      ≡ lowered (lookup k counts) ((if is_bound_placeholder k t then 1 else 0) + n)
unfolding count_task
count_task_lem k t counts n = elim (Bool-cases (same t.sm task_bound)) [
  | inl a ↦ elim (Bool-cases t.placeholder) [
    | inl b ↦ ground (arith, count_entry_lem k t.task_group_name counts n)
    | inr b ↦ ground arith
  ]
  | inr a ↦ ground arith
]

pub lookup-count_tasks :
    (k : String) (m : Dict Task) (counts : Dict ℕ)
    → lowered (lookup k (count_tasks m counts)) 0
      ≡ lowered (lookup k counts) (bound_placeholders k m)
unfolding count_tasks
lookup-count_tasks k [] counts = refl
lookup-count_tasks k ((j, t) ∷ m) counts =
    lookup-count_tasks k m (count_task t counts)
    ∙ count_task_lem k t counts (bound_placeholders k m)

count_task-Unique : (t : Task) (counts : Dict ℕ) → Unique counts → Unique (count_task t counts)
unfolding count_task
count_task-Unique t counts u = elim (Bool-cases (same t.sm task_bound && t.placeholder)) [
  | inr a ↦ subst Unique (let e : counts ≡ count_task t counts = ground arith in e) u
  | inl a ↦ elim (Option-cases (lookup t.task_group_name counts)) [
    | inl b ↦ subst Unique (let e : counts ≡ count_task t counts = ground arith in e) u
    | inr (v, b) ↦
        let e : insert t.task_group_name (dec_int32 v) counts ≡ count_task t counts =
          ground arith in
        subst Unique e (insert-Unique t.task_group_name (dec_int32 v) counts u)
  ]
]

pub count_tasks-Unique :
    (m : Dict Task) (counts : Dict ℕ) → Unique counts → Unique (count_tasks m counts)
unfolding count_tasks
count_tasks-Unique [] counts u = u
count_tasks-Unique ((_, t) ∷ m) counts u =
    count_tasks-Unique m (count_task t counts) (count_task-Unique t counts u)
