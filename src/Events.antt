-- ===== src/Events.antt =====
-- The states and events of tasks and applications: the types of pkg/cache/task_state.go and
-- pkg/cache/application_state.go.
use yunikorn_k8shim.Prelude.{String, List, [], ◌∷◌}
use Prim.Native.String.{◌++◌}
use yunikorn_k8shim.Fsm.{Names}

pub data TaskState : Type 0 where
  task_new task_pending task_scheduling task_allocated task_rejected task_bound task_killing
        task_killed task_failed task_completed :
      TaskState

abbrev task_state_name : TaskState → String
task_state_name task_new = "New"
task_state_name task_pending = "Pending"
task_state_name task_scheduling = "Scheduling"
task_state_name task_allocated = "Allocated"
task_state_name task_rejected = "Rejected"
task_state_name task_bound = "Bound"
task_state_name task_killing = "Killing"
task_state_name task_killed = "Killed"
task_state_name task_failed = "Failed"
task_state_name task_completed = "Completed"

instance abbrev pub TaskState-Names : Names TaskState
TaskState-Names = record { name = task_state_name }

pub data TaskEventType : Type 0 where
  init_task submit_task task_was_allocated task_was_rejected task_was_bound complete_task task_fail
        kill_task task_was_killed :
      TaskEventType

-- TaskEventType.String
abbrev task_event_name : TaskEventType → String
task_event_name init_task = "InitTask"
task_event_name submit_task = "SubmitTask"
task_event_name task_was_allocated = "TaskAllocated"
task_event_name task_was_rejected = "TaskRejected"
task_event_name task_was_bound = "TaskBound"
task_event_name complete_task = "CompleteTask"
task_event_name task_fail = "TaskFail"
task_event_name kill_task = "KillTask"
task_event_name task_was_killed = "TaskKilled"

instance abbrev pub TaskEventType-Names : Names TaskEventType
TaskEventType-Names = record { name = task_event_name }

-- The structs that implement events.TaskEvent; the arguments are the application's ID, the task's
-- ID, and what the struct adds.
pub data TaskEvent : Type 0 where
  simple_task_event : (app task : String) (event : TaskEventType) → TaskEvent
  submit_task_event : (app task : String) → TaskEvent
  allocated_task_event : (app task allocation_key node_id : String) → TaskEvent
  bind_task_event : (app task : String) → TaskEvent
  fail_task_event : (app task message : String) → TaskEvent
  reject_task_event : (app task message : String) → TaskEvent

-- GetEvent
abbrev pub get_event : TaskEvent → TaskEventType
get_event (simple_task_event _ _ e) = e
get_event (submit_task_event _ _) = submit_task
get_event (allocated_task_event _ _ _ _) = task_was_allocated
get_event (bind_task_event _ _) = task_was_bound
get_event (fail_task_event _ _ _) = task_fail
get_event (reject_task_event _ _ _) = task_was_rejected

-- GetArgs
abbrev pub get_args : TaskEvent → List String
get_args (allocated_task_event _ _ key node) = key ∷ node ∷ []
get_args (fail_task_event _ _ message) = message ∷ []
get_args (reject_task_event _ _ message) = message ∷ []
get_args (simple_task_event _ _ _) = []
get_args (submit_task_event _ _) = []
get_args (bind_task_event _ _) = []

pub data AppState : Type 0 where
  app_new app_submitted app_accepted app_reserving app_running app_rejected app_completed
        app_killing app_killed app_failing app_failed app_resuming :
      AppState

abbrev app_state_name : AppState → String
app_state_name app_new = "New"
app_state_name app_submitted = "Submitted"
app_state_name app_accepted = "Accepted"
app_state_name app_reserving = "Reserving"
app_state_name app_running = "Running"
app_state_name app_rejected = "Rejected"
app_state_name app_completed = "Completed"
app_state_name app_killing = "Killing"
app_state_name app_killed = "Killed"
app_state_name app_failing = "Failing"
app_state_name app_failed = "Failed"
app_state_name app_resuming = "Resuming"

instance abbrev pub AppState-Names : Names AppState
AppState-Names = record { name = app_state_name }

-- The message of the event that postTaskRejected sends.
abbrev pub rejected_message : String → String
rejected_message alias = "task " ++ (alias ++ " failed because it is rejected by scheduler")

pub data AppEventType : Type 0 where
  submit_application accept_application try_reserve update_reservation run_application
        reject_application complete_application fail_application kill_application app_was_killed
        release_app_allocation resuming_application app_task_completed :
      AppEventType

-- ApplicationEventType.String
abbrev app_event_name : AppEventType → String
app_event_name submit_application = "SubmitApplication"
app_event_name accept_application = "AcceptApplication"
app_event_name try_reserve = "TryReserve"
app_event_name update_reservation = "UpdateReservation"
app_event_name run_application = "RunApplication"
app_event_name reject_application = "RejectApplication"
app_event_name complete_application = "CompleteApplication"
app_event_name fail_application = "FailApplication"
app_event_name kill_application = "KillApplication"
app_event_name app_was_killed = "KilledApplication"
app_event_name release_app_allocation = "ReleaseAppAllocation"
app_event_name resuming_application = "ResumingApplication"
app_event_name app_task_completed = "AppTaskCompleted"

instance abbrev pub AppEventType-Names : Names AppEventType
AppEventType-Names = record { name = app_event_name }

-- The structs that implement events.ApplicationEvent, each with what GetArgs makes of it.
pub record AppEvent : Type 0 where
  pub application_id : String
  pub event : AppEventType
  pub args : List String

-- NewSimpleApplicationEvent, and the constructors that have no arguments
abbrev pub simple_app_event : String → AppEventType → AppEvent
simple_app_event app e = record { application_id = app; event = e; args = [] }

-- NewFailApplicationEvent
abbrev pub fail_app_event : String → String → AppEvent
fail_app_event app message = record {
  application_id = app;
  event = fail_application;
  args = message ∷ [];
}
