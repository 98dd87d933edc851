-- ===== src/Application/Reservation.antt =====
-- When the reservation of a gang is complete.
use yunikorn_k8shim.Prelude.{
  ℕ, ◌≤◌, ◌<◌, String, ◌≡◌, ◌↔◌, sym, ap, subst, ◌∙◌, Bool, false, none, some, List, [], ◌∷◌, any,
  ltb, arith, length, Option-cases, Bool-cases, inl, inr,
}
use yunikorn_k8shim.Prelude.Dict.{Dict, lookup, lookup-nil}
use yunikorn_k8shim.Prelude.Unique.{Unique, any-lookup, lookup-any}
use yunikorn_k8shim.Events.{TaskState-Names, simple_app_event, run_application}
use yunikorn_k8shim.Task.{Task}
use yunikorn_k8shim.Application.Defs.{
  TaskGroup, Application, is_positive32, desire_counts, count_tasks, on_reservation_state_change,
}
use yunikorn_k8shim.Application.Counts.{
  min_members, is_bound_placeholder, bound_placeholders, sub_int32, is_positive32-sub_int32,
  lookup-desire_counts, desire_counts-Unique, lowered, lookup-count_tasks, count_tasks-Unique,
}

-- The groups ask for int32 numbers that are not negative.
abbrev pub InRange : List TaskGroup → Type 0
InRange gs = (k : String) (m : ℕ) → min_members k gs ≡ some m → m < 2147483648

bound_placeholders_le : (k : String) (m : Dict Task) → bound_placeholders k m ≤ length m
bound_placeholders_le k [] = omega arith
bound_placeholders_le k ((_, t) ∷ m) = elim (Bool-cases (is_bound_placeholder k t)) [
  | inl a ↦ ground (arith, bound_placeholders_le k m)
  | inr a ↦ ground (arith, bound_placeholders_le k m)
]

-- The counts that the loops leave.
final_counts : Application → Dict ℕ
final_counts app = count_tasks app.task_map (desire_counts app.task_groups [])

lookup-final_counts :
    (k : String) (app : Application)
    → lookup k (final_counts app)
      ≡ lowered (min_members k app.task_groups) (bound_placeholders k app.task_map)
unfolding final_counts
lookup-final_counts k app = ground (
  arith,
  lookup-count_tasks k app.task_map (desire_counts app.task_groups []),
  lookup-desire_counts k app.task_groups [],
  lookup-nil {V = ℕ} k,
)

final_counts-Unique : (app : Application) → Unique (final_counts app)
unfolding final_counts
final_counts-Unique app =
    count_tasks-Unique app.task_map _ (desire_counts-Unique app.task_groups [] tt)

-- Every group has the members that it asks for.
abbrev pub IsReserved : Application → Type 0
IsReserved app =
    (k : String) (m : ℕ)
    → min_members k app.task_groups ≡ some m
    → m ≤ bound_placeholders k app.task_map

run_event_iff :
    (app : Application)
    → (on_reservation_state_change app ≡ some (simple_app_event app.application_id run_application))
      ↔ (any (λ (_, needed). is_positive32 needed) (final_counts app) ≡ false)
unfolding on_reservation_state_change final_counts
run_event_iff app = (λ e. ground arith, λ e. ground arith)

still_needed :
    (app : Application) (k : String) (m : ℕ)
    → InRange app.task_groups
    → length app.task_map ≤ 2147483648
    → min_members k app.task_groups ≡ some m
    → is_positive32 (sub_int32 m (bound_placeholders k app.task_map))
      ≡ ltb (bound_placeholders k app.task_map) m
still_needed app k m r l f =
    is_positive32-sub_int32 m (bound_placeholders k app.task_map) (r k m f)
      (omega (arith, bound_placeholders_le k app.task_map))

enough :
    (app : Application) (k : String) (m : ℕ)
    → InRange app.task_groups
    → length app.task_map ≤ 2147483648
    → min_members k app.task_groups ≡ some m
    → any (λ (_, needed). is_positive32 needed) (final_counts app) ≡ false
    → m ≤ bound_placeholders k app.task_map
enough app k m r l f h =
    let n = bound_placeholders k app.task_map in
    let none_needed : is_positive32 (sub_int32 m n) ≡ false =
      any-lookup is_positive32 k (sub_int32 m n) (final_counts app) h
        (lookup-final_counts k app ∙ ap (λ o. lowered o n) f) in
    let few : ltb n m ≡ false = sym (still_needed app k m r l f) ∙ none_needed in ground arith

not_needed :
    (app : Application) (k : String) (v : ℕ)
    → InRange app.task_groups
    → length app.task_map ≤ 2147483648
    → IsReserved app
    → lookup k (final_counts app) ≡ some v
    → is_positive32 v ≡ false
not_needed app k v r l h e = elim (Option-cases (min_members k app.task_groups)) [
  | inl f ↦ absurd (ground (arith, lookup-final_counts k app))
  | inr (m, f) ↦
      let n = bound_placeholders k app.task_map in
      let same_count : some (sub_int32 m n) ≡ some v =
        sym (lookup-final_counts k app ∙ ap (λ o. lowered o n) f) ∙ e in
      let few : ltb n m ≡ false = ground (arith, h k m f) in
      subst (λ o. (elim o as (λ _. Bool) [ none ↦ false | some w ↦ is_positive32 w ]) ≡ false)
        same_count (still_needed app k m r l f ∙ few)
]

-- A change of the reservation dispatches RunApplication exactly if every task group has as many
-- bound placeholders as it asks for; of two groups with one name the later counts, and placeholders
-- of unknown groups do not. The groups ask for int32 numbers that are not negative, and the
-- application has at most 2 ^ 31 tasks.
pub on_reservation_state_change_iff :
    (app : Application)
    → InRange app.task_groups
    → length app.task_map ≤ 2147483648
    → (on_reservation_state_change app ≡ some (simple_app_event app.application_id run_application))
      ↔ IsReserved app
on_reservation_state_change_iff app r l = (
  λ e k m f. enough app k m r l f ((run_event_iff app).0 e),
  λ h. (run_event_iff app).1 (
      lookup-any is_positive32 (final_counts app) (final_counts-Unique app)
        (λ k v e. not_needed app k v r l h e)),
)
