-- ===== src/Callback/Allocated.antt =====
-- From a new allocation of the core to the binding of its pod: UpdateAllocation of
-- pkg/cache/scheduler_callback.go and TaskEventHandler of pkg/cache/context.go.
use yunikorn_k8shim.Prelude.{
  ℕ, String, ◌≡◌, refl, Bool, true, false, Option, some, [], ◌∷◌, ◌++◌, arith, ap, ◌∙◌,
}
use yunikorn_k8shim.Prelude.Dict.{lookup, lookup-insert_self}
use yunikorn_k8shim.Pod.{is_assigned_pod}
use yunikorn_k8shim.Fsm.{FsmApi, destination}
use yunikorn_k8shim.Events.{
  TaskState, TaskEventType, TaskEventType-Names, TaskState-Names, TaskEvent, allocated_task_event,
  task_was_allocated, task_scheduling, task_allocated,
}
use yunikorn_k8shim.Task.{Task, World, SchedulerInterface, handle, event_desc, emit, bind}
use yunikorn_k8shim.Task.Handle.{allocated, handle-allocated_task_event}
use yunikorn_k8shim.SchedulerCache.{NodeInfoApi}
use yunikorn_k8shim.Context.Defs.{
  App, Context, get_application, get_task, send, set_app, dispatch_task, bind_pod,
}
use yunikorn_k8shim.Context.Handlers.{
  perform, perform_all, run_on_task, task_event_handler, store_task, world_of,
}
use yunikorn_k8shim.Callback.Defs.{
  set_allocation_key, assume_pod_with_retry, settle_allocation, new_allocation,
}
use yunikorn_k8shim.Callback.Responses.{NewAllocation, Attempt, Texts}

can-allocated :
    (fsm : FsmApi TaskState TaskEventType TaskEvent (Task × World)) (s : TaskState)
    → s ≡ task_scheduling
    → fsm.can event_desc task_was_allocated s ≡ true
unfolding destination
can-allocated fsm s h =
    ap (fsm.can event_desc task_was_allocated) h
    ∙ fsm.can-destination event_desc task_was_allocated task_scheduling

-- The task with the allocation
abbrev pub bound_to : String → String → Task → Task
bound_to key node t = record t { sm = task_allocated; allocation_key = key; node_name = node }

module _ {N : Type 0} ⦃api : NodeInfoApi N⦄ ⦃si : SchedulerInterface⦄
    (fsm : FsmApi TaskState TaskEventType TaskEvent (Task × World)) where
  handler-allocated :
      (app_id task_id key node : String) (ctx : Context N) (app : App) (t : Task)
      → get_application app_id ctx ≡ some app
      → lookup task_id app.application.task_map ≡ some t
      → t.sm ≡ task_scheduling
      → task_event_handler fsm (allocated_task_event app_id task_id key node) ctx
        ≡ some (
            send
              (bind_pod t.pod node key)
              (set_app app_id (store_task task_id (bound_to key node t) (world_of app) app) ctx))
  unfolding task_event_handler run_on_task perform_all perform
  handler-allocated app_id task_id key node ctx app t h k s =
      let ev = allocated_task_event app_id task_id key node in
      let run : (handle fsm ev t (world_of app)).0
          ≡ (bound_to key node t, emit (bind t.pod node key) (world_of app)) =
        ap (λ r. r.0) (handle-allocated_task_event fsm app_id task_id key node t (world_of app))
        ∙ ap (λ m. (allocated m key node t (world_of app)).0) s in
      let can = can-allocated fsm t.sm s in
      let method = λ (t : Task) (w : World). (handle fsm ev t w).0 in
      let goes : task_event_handler fsm ev ctx ≡ run_on_task method app_id task_id app t ctx =
        ground arith in
      goes
      ∙ ap (λ r. perform_all r.1.effects (set_app app_id (store_task task_id r.0 r.1 app) ctx)) run

  -- What comes of a new allocation whose pod could be assumed
  abbrev pub Bound : NewAllocation → Task → Option (Context N × Bool) → Context N → Type 0
  Bound alloc task r ctx₁ =
      let key = alloc.allocation_key in
      let ev = allocated_task_event alloc.application_id key key alloc.node_id in
      (ctx₃ : Context N) × (r ≡ some (send (dispatch_task ev) ctx₁, false))
      × (task_event_handler fsm ev (send (dispatch_task ev) ctx₁) ≡ some ctx₃)
      × (get_task alloc.application_id key ctx₃ ≡ some (bound_to key alloc.node_id task))
      × (ctx₃.messages
          ≡ (ctx₁.messages ++ dispatch_task ev ∷ []) ++ bind_pod task.pod alloc.node_id key ∷ [])

  -- A new allocation for a task that is in Scheduling, has the key as its ID, and whose pod is not
  -- assigned yet. If its pod could be assumed within the attempts, and the applications did not
  -- change meanwhile, UpdateAllocation sends the task the event of the allocation, and the handler
  -- of that event takes the task to Allocated with the key and the node, and starts the binding of
  -- its pod to the node.
  pub new_allocation-Bound :
      {C V : Type 0} (texts : Texts) (attempts : ℕ → Attempt C V N) (alloc : NewAllocation)
      (ctx ctx₁ : Context N) (app : App) (task : Task)
      → get_application alloc.application_id ctx ≡ some app
      → lookup alloc.allocation_key app.application.task_map ≡ some task
      → task.task_id ≡ alloc.allocation_key
      → task.sm ≡ task_scheduling
      → is_assigned_pod task.pod ≡ false
      → assume_pod_with_retry attempts 30 alloc.allocation_key alloc.node_id
          (set_allocation_key alloc.application_id alloc.allocation_key alloc.allocation_key ctx)
        ≡ some (ctx₁, false)
      → ctx₁.applications
        ≡ (set_allocation_key alloc.application_id alloc.allocation_key alloc.allocation_key
            ctx).applications
      → Bound alloc task (new_allocation texts attempts alloc ctx) ctx₁
  unfolding new_allocation settle_allocation set_allocation_key get_task
  new_allocation-Bound texts attempts alloc ctx ctx₁ app task h k i s u assumed same_apps =
      let key = alloc.allocation_key in
      let a = alloc.application_id in
      let t = record task { allocation_key = key } in
      let app₁ = store_task key t (world_of app) app in
      let h₁ : get_application a ctx₁ ≡ some app₁ =
        ground (arith, lookup-insert_self a app₁ ctx.applications) in
      let k₁ : lookup key app₁.application.task_map ≡ some t = lookup-insert_self key t _ in
      let ev = allocated_task_event a key key alloc.node_id in
      let sent = send (dispatch_task ev) ctx₁ in
      let after = store_task key (bound_to key alloc.node_id t) (world_of app₁) app₁ in
      let handled = handler-allocated a key key alloc.node_id sent app₁ t h₁ k₁ s in
      (
        _,
        ground arith,
        handled,
        ground (
          arith,
          lookup-insert_self a after ctx₁.applications,
          lookup-insert_self key (bound_to key alloc.node_id t) app₁.application.task_map,
        ),
        refl,
      )
