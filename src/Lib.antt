-- ===== src/Lib.antt =====
-- The YuniKorn shim for Kubernetes, github.com/apache/yunikorn-k8shim.
--
-- The shim stands between a Kubernetes cluster and the YuniKorn scheduler core. Informers feed pods
-- and nodes into the scheduler cache, pods become tasks of applications, the core decides where a
-- task goes, and the shim assumes the pod on that node and binds it.
--
-- - Prelude: Boolean tests, dictionaries for Go maps, lists, and int64 with its wrap-around.
-- - Pod: what the shim reads of a pod, and the tests of pkg/common/utils/utils.go.
-- - Resource: pkg/common/resource.go. `add`, `sub`, `equals`, `is_zero` and `update_max` are Add,
--   Sub, Equals, IsZero and updateMax; a resource is a dictionary of int64 quantities, and a nil
--   pointer is `none`.
-- - PodResource: GetPodResource of pkg/common/resource.go, over the Quantity parameter of Gang.
--   `Needs` describes what a pod needs as a natural number.
-- - Fsm: what is used of github.com/looplab/fsm, a parameter with its documented run as laws.
-- - Events: the states and events of tasks and applications, of pkg/cache/task_state.go and
--   pkg/cache/application_state.go.
-- - Dispatcher: pkg/dispatcher/dispatcher.go. The calls of Dispatch, Start and Stop, the event
--   loops and the goroutines of asyncDispatch are threads, and `Step` has what each of them may do
--   next. Each step touches shared state once, so calls of Start and Stop, which take no lock, may
--   interleave with each other and with an event loop, and there may be several event loops. What
--   panics in Dispatch or in Stop leaves the state to the other threads. The channels for stopping
--   are numbered, and a history records what becomes of the events.
-- - Gang: pkg/cache/utils.go, GetTGResource of pkg/common/resource.go and setTaskGroups of
--   pkg/cache/application.go. A Quantity of Kubernetes is the parameter QuantityApi with the
--   documented rounding of Value and MilliValue, and json.Unmarshal is an argument.
-- - Task: pkg/cache/task.go and pkg/cache/task_state.go. `event_desc` and `callbacks` are the table
--   and the callbacks, `handle` is Task.handle, and `run_binding` the goroutine that
--   postTaskAllocated starts. A function takes the task and the `World`, which is what the task
--   touches of its application, with the list of the requests and events that are sent, and
--   returns both.
-- - Application: pkg/cache/application.go and the table of pkg/cache/application_state.go, with any
--   callbacks. The tasks of an application, and the decisions
--   postAppAccepted, onReservationStateChange and handleAppTaskCompletedEvent, each with the event
--   that it dispatches as its result. Schedule, with the creation times of tasks, the checks of
--   volumes and the callbacks as arguments. The counts of members are int32 with their wrap-around.
-- - Admission: pkg/admission/admission_controller.go with its caches, util.go and metadata. A regular
--   expression is the test that it makes, json is an argument, and a patch is the list of its
--   operations; what a patch makes of a pod is described by `apply_patch`.
-- - Callback: pkg/cache/scheduler_callback.go. The retries of AssumePod run on the 30 steps of the
--   source; an attempt has what others do to the context while the callback waits, and what the
--   volume binder answers. The callback holds a task across the wait, so the task is looked up
--   again, and the one that is held counts if it is gone. Context.Handlers has TaskEventHandler, and
--   what the calls that a task makes do to the context.
-- - Configuration: pkg/conf/schedulerconf.go, the handlers of config maps of pkg/cache/context.go,
--   and the start of pkg/cmd/shim/main.go. The libraries that parse texts, and gzip, are the record
--   Source; `Settings` describes what the settings of a map mean, apart from the parser.
-- - Context: pkg/cache/context.go, pkg/cache/metadata.go and the pod getters of
--   pkg/common/utils/utils.go. The informer events of pods and nodes, the applications and tasks
--   that they create, AssumePod and ForgetPod, on top of Application, Task, Gang and
--   SchedulerCache. An operation that holds the lock is one step; while a node waits for its
--   registration the lock is free, and other events are handled. Of InitializeState the nodes that
--   it adds without registering are modelled. The volume binder and the answers
--   of the core are parameters, and GetPodResource, which PodResource
--   models, is any function of the pod here.
-- - Placeholders: pkg/cache/placeholder_manager.go. The answers of the Kubernetes client are
--   arguments, and a placeholder stands by the name of its task group.
-- - Predicates: pkg/plugin/predicates/predicate_manager.go. The scheduler framework is the parameter
--   Framework and a plugin what its methods answer; `none` is the index -1, and a start index is not
--   negative. Context.FitNode has IsPodFitNode and IsPodFitNodeViaPreemption on top of it.
-- - SchedulerCache: pkg/cache/external/scheduler_cache.go. The record has the maps of the struct,
--   and an operation `update_pod`, `remove_node` and so on stands for updatePod, removeNode. The
--   long updatePod is the composition of its parts. The result `none` is the panic of Go on a nil
--   pointer.
--
-- A Go map is an association list in which `insert` replaces. Its order is that of the list, which
-- no theorem fixes: a loop over a map is a loop over an arbitrary list. Locks are not modelled, an
-- operation that holds the lock is one step. Logging and metrics are left out.
--
-- The NodeInfo of the Kubernetes scheduler framework is a parameter, the record NodeInfoApi, with
-- the documented effect of SetNode, AddPod and RemovePod as laws.
--
-- The generated scheduler interface is the parameter SchedulerInterface. The ask for an allocation
-- is modelled without tags, priority and preemption policy, and the retries of a bind by whether
-- they succeed in the end. Kubernetes events recorded on pods are left out like logging.
--
-- Every loop is structural on a list, but for the retries of AssumePod, which end after the steps
-- that the source gives them.
--
-- Not modelled: the callbacks of an application, the pods of placeholders, initialization past the
-- nodes that it adds in the context, the HTTP server, webhooks, certificates and configuration of
-- the admission controller, the clients of Kubernetes, loggers, and the main loop of the shim.
mod Prelude
pub mod Fsm
pub mod Dispatcher
pub mod Events
pub mod Gang
pub mod Task
pub mod Application
pub mod Admission
pub mod Callback
pub mod Configuration
pub mod Context
pub mod Placeholders
pub mod Predicates
pub mod Pod
pub mod PodResource
pub mod Resource
pub mod SchedulerCache
