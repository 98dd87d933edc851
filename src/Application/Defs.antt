-- ===== src/Application/Defs.antt =====
-- The tasks of an application, and the decisions of its gang reservation. A decision returns the
-- event that it dispatches, if there is one.
use yunikorn_k8shim.Prelude.{
  is_empty, ℕ, ◌+◌, ◌%◌, String, Bool, not, ◌&&◌, ◌||◌, Option, none, some, List, [], ◌∷◌,
  if◌then◌else◌, any, ltb,
}
use yunikorn_k8shim.Prelude.Dict.{Dict, lookup, insert, delete}
use yunikorn_k8shim.Fsm.{same}
use yunikorn_k8shim.Events.{
  TaskState-Names, task_new, task_bound, task_completed, AppEvent, simple_app_event, try_reserve,
  run_application,
}
use yunikorn_k8shim.Task.{Task, is_terminated}

-- What is read of a TaskGroup. MinMember is an int32.
pub record TaskGroup : Type 0 where
  pub name : String
  pub min_member : ℕ

pub record Application : Type 0 where
  pub application_id : String
  pub task_groups : List TaskGroup
  pub task_map : Dict Task

-- addTask: a duplicate is skipped
unfoldable pub add_task : Task → Application → Application
add_task t app = elim (lookup t.task_id app.task_map) [
  | some _ ↦ app
  | none ↦ record app { task_map = insert t.task_id t app.task_map }
]

-- removeTask
unfoldable pub remove_task : String → Application → Application
remove_task id app = elim (lookup id app.task_map) [
  | none ↦ app
  | some _ ↦ record app { task_map = delete id app.task_map }
]

-- The loop of removeCompletedTasks. The entry of the map is removed by the ID of its task.
unfoldable pub remove_terminated : Dict Task → Application → Application
remove_terminated [] app = app
remove_terminated ((_, t) ∷ m) app =
    remove_terminated m (if is_terminated t then remove_task t.task_id app else app)

-- removeCompletedTasks
unfoldable pub remove_completed_tasks : Application → Application
remove_completed_tasks app = remove_terminated app.task_map app

-- skipReservationStage
unfoldable pub skip_reservation_stage : Application → Bool
skip_reservation_stage app =
    is_empty app.task_groups
    || any (λ (_, t). not t.placeholder && not (same t.sm task_new)) app.task_map

-- postAppAccepted
unfoldable pub post_app_accepted : Application → AppEvent
post_app_accepted app =
    if skip_reservation_stage app
    then simple_app_event app.application_id run_application
    else simple_app_event app.application_id try_reserve

-- 2 ^ 32, and an int32 that is decremented, with its wrap-around
abbrev pub modulus32 : ℕ
modulus32 = 4294967296

unfoldable pub dec_int32 : ℕ → ℕ
dec_int32 v = (v + 4294967295) % modulus32

-- v > 0, of an int32
abbrev pub is_positive32 : ℕ → Bool
is_positive32 v = ltb 0 v && ltb v 2147483648

-- The first loop of onReservationStateChange.
unfoldable pub desire_counts : List TaskGroup → Dict ℕ → Dict ℕ
desire_counts [] counts = counts
desire_counts (g ∷ gs) counts = desire_counts gs (insert g.name g.min_member counts)

-- The body of the second loop, for a task of the application: getTasks picks the bound ones. The
-- order that it sorts them in is left out, as the counts do not depend on it.
unfoldable pub count_task : Task → Dict ℕ → Dict ℕ
count_task t counts =
    if same t.sm task_bound && t.placeholder
    then (elim (lookup t.task_group_name counts) [
      | none ↦ counts
      | some v ↦ insert t.task_group_name (dec_int32 v) counts
    ])
    else counts

unfoldable pub count_tasks : Dict Task → Dict ℕ → Dict ℕ
count_tasks [] counts = counts
count_tasks ((_, t) ∷ m) counts = count_tasks m (count_task t counts)

-- onReservationStateChange
unfoldable pub on_reservation_state_change : Application → Option AppEvent
on_reservation_state_change app =
    if any (λ (_, needed). is_positive32 needed)
      (count_tasks app.task_map (desire_counts app.task_groups []))
    then none
    else some (simple_app_event app.application_id run_application)

-- handleAppTaskCompletedEvent
unfoldable pub handle_app_task_completed_event : Application → Option AppEvent
handle_app_task_completed_event app =
    if any (λ (_, t). t.placeholder && not (same t.sm task_completed)) app.task_map
    then none
    else some (simple_app_event app.application_id run_application)
