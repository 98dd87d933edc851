-- ===== src/Application/Tests.antt =====
-- A gang of two placeholders, and the theorems at concrete inputs.
use yunikorn_k8shim.Application.Sample.{gang}
use yunikorn_k8shim.Prelude.{
  ℕ, ◌+◌, ◌≤◌, List, ◌≡◌, ◌↔◌, refl, true, none, some, [], ◌∷◌, eq_iff, arith,
}
use yunikorn_k8shim.Prelude.Dict.{lookup, insert}
use yunikorn_k8shim.Prelude.Unique.{Unique}
use yunikorn_k8shim.Fsm.{documented, Callbacks, FsmApi}
use yunikorn_k8shim.Application.Progress.{count_changes, count_changes-le}
use yunikorn_k8shim.Application.Schedule.{AppStore, schedule}
use yunikorn_k8shim.Application.Scheduled.{IsScheduled, schedule_lem}
use yunikorn_k8shim.Application.Tasks.{IsKeyed}
use yunikorn_k8shim.Task.{SchedulerInterface}
use yunikorn_k8shim.Events.{
  app_running, AppState, AppState-Names, AppEventType, AppEventType-Names, AppEvent,
  TaskState-Names, TaskEventType-Names, fail_app_event, app_failing, simple_app_event,
  run_application,
}
use yunikorn_k8shim.Application.Defs.{
  on_reservation_state_change, desire_counts, count_tasks, count_task, dec_int32,
}
use yunikorn_k8shim.Application.Reservation.{InRange, IsReserved, on_reservation_state_change_iff}

gang-Unique : Unique gang.task_map
unfolding lookup
gang-Unique = (refl, (refl, (refl, tt)))

gang-InRange : InRange gang.task_groups
gang-InRange k m e = ground (arith, eq_iff "workers" k)

gang-waits : on_reservation_state_change gang ≡ none
unfolding on_reservation_state_change desire_counts count_tasks count_task dec_int32 lookup insert
gang-waits = refl

on_reservation_state_change_iff_example :
    (on_reservation_state_change gang ≡ some (simple_app_event "app-1" run_application))
    ↔ IsReserved gang
on_reservation_state_change_iff_example =
    on_reservation_state_change_iff gang gang-InRange (omega arith)

-- A context that counts the callbacks that ran.
abbrev counting : Callbacks AppState AppEvent ℕ
counting = record { before = λ v s c. c + 1; enter = λ v s c. c + 1; after = λ v c. (c + 1, none) }

abbrev app_machine : FsmApi AppState AppEventType AppEvent ℕ
app_machine = documented

abbrev failing_events : List AppEvent
failing_events =
    simple_app_event "app-1" run_application
    ∷ fail_app_event "app-1" "timeout"
    ∷ simple_app_event "app-1" run_application
    ∷ []

count_changes-le_example : count_changes app_machine counting failing_events app_failing 0 ≤ 1
count_changes-le_example = count_changes-le app_machine counting failing_events app_failing 0

gang-IsKeyed : IsKeyed gang.task_map
gang-IsKeyed = (gang-Unique, refl)

instance abbrev interface : SchedulerInterface
interface = record {
  termination_type_value = [];
  stopped_by_rm = 1;
  scheduling_failed_on_rm = 4;
  task_group_annotation = "yunikorn.apache.org/task-group-name";
}

abbrev running_gang : AppStore
running_gang = record {
  app = gang;
  world = record {
    app_state = app_running;
    partition = "default";
    releaseable_tasks = [];
    has_scheduler_api = true;
    effects = [];
  };
}

abbrev no_callbacks : Callbacks AppState AppEvent AppStore
no_callbacks = record { before = λ v s c. c; enter = λ v s c. c; after = λ v c. (c, none) }

schedule_lem_example :
    IsScheduled
      (λ t. 0)
      (λ t. true)
      documented
      documented
      no_callbacks
      running_gang
      (schedule (λ t. 0) (λ t. true) documented documented no_callbacks running_gang)
schedule_lem_example =
    schedule_lem (λ t. 0) (λ t. true) documented documented no_callbacks running_gang gang-IsKeyed
      refl
