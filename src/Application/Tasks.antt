-- ===== src/Application/Tasks.antt =====
-- The tasks of an application, and the decisions that they take part in.
use yunikorn_k8shim.Prelude.{
  is_empty, String, ◌≡◌, ◌↔◌, refl, ap, Bool, true, false, not, ◌&&◌, Option, none, some, [], ◌∷◌,
  ◌==◌, if◌then◌else◌, any, all, arith, eq_iff, Option-cases, Bool-cases, inl, inr,
}
use yunikorn_k8shim.Prelude.Dict.{Dict, lookup, insert, lookup-delete}
use yunikorn_k8shim.Prelude.Unique.{Unique, insert-Unique, any-lookup, lookup-any}
use yunikorn_k8shim.Fsm.{same}
use yunikorn_k8shim.Events.{
  TaskState, TaskState-Names, task_new, task_completed, simple_app_event, try_reserve,
  run_application,
}
use yunikorn_k8shim.Task.{Task, is_terminated}
use yunikorn_k8shim.Application.Defs.{
  Application, remove_task, remove_terminated, remove_completed_tasks, skip_reservation_stage,
  post_app_accepted, handle_app_task_completed_event,
}

-- Every task is kept under its own ID, once.
abbrev pub IsKeyed : Dict Task → Type 0
IsKeyed m = Unique m × (all (λ (j, t). t.task_id == j) m ≡ true)

all_keyed-insert :
    (t : Task) (m : Dict Task)
    → all (λ (j, t). t.task_id == j) m ≡ true
    → all (λ (j, t). t.task_id == j) (insert t.task_id t m) ≡ true
unfolding insert
all_keyed-insert t [] h = ground (arith, eq_iff t.task_id t.task_id)
all_keyed-insert t ((j, x) ∷ m) h = ground (arith, all_keyed-insert t m, eq_iff t.task_id t.task_id)

pub insert-IsKeyed : (t : Task) (m : Dict Task) → IsKeyed m → IsKeyed (insert t.task_id t m)
insert-IsKeyed t m h = (insert-Unique t.task_id t m h.0, all_keyed-insert t m h.1)

-- What is left of an entry once the terminated tasks are gone.
abbrev pub unless_terminated : Option Task → Option Task
unless_terminated none = none
unless_terminated (some t) = if is_terminated t then none else some t

lookup-remove_task :
    (j k : String) (app : Application)
    → lookup k (remove_task j app).task_map ≡ (if j == k then none else lookup k app.task_map)
unfolding remove_task
lookup-remove_task j k app = elim (Option-cases (lookup j app.task_map)) [
  | inl a ↦ ground (arith, eq_iff j k)
  | inr (t, a) ↦ ground (arith, lookup-delete j k app.task_map, eq_iff j k)
]

lookup-remove_terminated :
    (k : String) (m : Dict Task) (app : Application)
    → Unique m
    → all (λ (j, t). t.task_id == j) m ≡ true
    → lookup k (remove_terminated m app).task_map ≡ (elim (lookup k m) [
      | none ↦ lookup k app.task_map
      | some t ↦ if is_terminated t then none else lookup k app.task_map
    ])
unfolding remove_terminated lookup
lookup-remove_terminated k [] app u h = refl
lookup-remove_terminated k ((j, t) ∷ m) app u h = elim (Bool-cases (is_terminated t)) [
  | inl a ↦ ground (
    arith,
    lookup-remove_terminated k m (remove_task t.task_id app) u.1,
    lookup-remove_task t.task_id k app,
    eq_iff t.task_id j,
    eq_iff t.task_id k,
    eq_iff j k,
  )
  | inr a ↦ ground (arith, lookup-remove_terminated k m app u.1, eq_iff j k)
]

remove_task-same_app :
    (j : String) (app : Application)
    → remove_task j app ≡ record app { task_map = (remove_task j app).task_map }
unfolding remove_task
remove_task-same_app j app = elim (Option-cases (lookup j app.task_map)) [
  | inl a ↦ ground arith
  | inr (t, a) ↦ ground arith
]

remove_terminated-same_app :
    (m : Dict Task) (app : Application)
    → remove_terminated m app ≡ record app { task_map = (remove_terminated m app).task_map }
unfolding remove_terminated
remove_terminated-same_app [] app = refl
remove_terminated-same_app ((_, t) ∷ m) app = elim (Bool-cases (is_terminated t)) [
  | inl a ↦ ground (
    arith,
    remove_terminated-same_app m (remove_task t.task_id app),
    remove_task-same_app t.task_id app,
  )
  | inr a ↦ ground (arith, remove_terminated-same_app m app)
]

-- removeCompletedTasks changes nothing but the map of tasks.
pub remove_completed_tasks-same_app :
    (app : Application)
    → remove_completed_tasks app ≡ record app { task_map = (remove_completed_tasks app).task_map }
unfolding remove_completed_tasks
remove_completed_tasks-same_app app = remove_terminated-same_app app.task_map app

-- removeCompletedTasks takes exactly the terminated tasks out of the application and leaves every
-- other one as it was. Every task is kept under its own ID, once.
pub lookup-remove_completed_tasks :
    (k : String) (app : Application)
    → IsKeyed app.task_map
    → lookup k (remove_completed_tasks app).task_map ≡ unless_terminated (lookup k app.task_map)
unfolding remove_completed_tasks
lookup-remove_completed_tasks k app v = elim (Option-cases (lookup k app.task_map)) [
  | inl a ↦ ground (arith, lookup-remove_terminated k app.task_map app v.0 v.1)
  | inr (t, a) ↦ ground (arith, lookup-remove_terminated k app.task_map app v.0 v.1)
]

pub same_new : (s : TaskState) → same s task_new ≡ true → s ≡ task_new
same_new s = elim s as (λ s. same s task_new ≡ true → s ≡ task_new) [
  | task_new ↦ λ h. refl
  | _ ↦ λ h. absurd (cc h)
]

same_completed : (s : TaskState) → same s task_completed ≡ true → s ≡ task_completed
same_completed s = elim s as (λ s. same s task_completed ≡ true → s ≡ task_completed) [
  | task_completed ↦ λ h. refl
  | _ ↦ λ h. absurd (cc h)
]

-- The tests of the two loops below.
abbrev has_left_new : Task → Bool
has_left_new t = not t.placeholder && not (same t.sm task_new)

abbrev is_unfinished : Task → Bool
is_unfinished t = t.placeholder && not (same t.sm task_completed)

-- An accepted application tries to reserve exactly if it has task groups and none of its tasks, the
-- placeholders aside, has left New; otherwise it runs. No task ID stands twice.
pub post_app_accepted_iff :
    (app : Application)
    → Unique app.task_map
    → (post_app_accepted app ≡ simple_app_event app.application_id try_reserve) ↔ (
        (is_empty app.task_groups ≡ false)
        × ((k : String) (t : Task)
            → lookup k app.task_map ≡ some t
            → t.placeholder ≡ false
            → t.sm ≡ task_new))
unfolding post_app_accepted skip_reservation_stage
post_app_accepted_iff app u = (
  λ e.
      let none_left : any (λ (_, t). has_left_new t) app.task_map ≡ false = ground arith in
      (
        ground arith,
        λ k t f p. same_new t.sm (ground (arith, any-lookup has_left_new k t app.task_map)),
      ),
  λ (some_group, all_new).
      let none_left : any (λ (_, t). has_left_new t) app.task_map ≡ false =
        lookup-any has_left_new app.task_map u (λ k t f. elim (Bool-cases t.placeholder) [
          | inl p ↦ ground arith
          | inr p ↦
              let new : same t.sm task_new ≡ true = ap (λ s. same s task_new) (all_new k t f p) in
              ground arith
        ]) in
      ground arith,
)

-- When a task of a resuming application completes, the application runs again exactly if all its
-- placeholders are Completed. No task ID stands twice.
pub handle_app_task_completed_event_iff :
    (app : Application)
    → Unique app.task_map
    → (handle_app_task_completed_event app
        ≡ some (simple_app_event app.application_id run_application))
      ↔ ((k : String) (t : Task)
          → lookup k app.task_map ≡ some t
          → t.placeholder ≡ true
          → t.sm ≡ task_completed)
unfolding handle_app_task_completed_event
handle_app_task_completed_event_iff app u = (
  λ e.
      let all_done : any (λ (_, t). is_unfinished t) app.task_map ≡ false = ground arith in
      λ k t f p. same_completed t.sm (ground (arith, any-lookup is_unfinished k t app.task_map)),
  λ h.
      let all_done : any (λ (_, t). is_unfinished t) app.task_map ≡ false =
        lookup-any is_unfinished app.task_map u (λ k t f. elim (Bool-cases t.placeholder) [
          | inr p ↦ ground arith
          | inl p ↦
              let done : same t.sm task_completed ≡ true =
                ap (λ s. same s task_completed) (h k t f p) in
              ground arith
        ]) in
      ground arith,
)
