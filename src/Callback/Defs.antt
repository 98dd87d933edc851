-- ===== src/Callback/Defs.antt =====
-- UpdateAllocation and UpdateApplication of pkg/cache/scheduler_callback.go, on top of the context.
-- What Go panics on is `none`; the Boolean of a result says that an error is returned.
use yunikorn_k8shim.Prelude.{
  ℕ, zero, suc, String, Bool, true, false, ◌||◌, Option, none, some, List, [], ◌∷◌, if◌then◌else◌,
  nat_eq,
}
use yunikorn_k8shim.Prelude.Dict.{lookup}
use yunikorn_k8shim.Pod.{is_assigned_pod}
use yunikorn_k8shim.Fsm.{same}
use yunikorn_k8shim.Events.{
  AppState-Names, app_completed, app_resuming, app_reserving, app_failing, app_failed,
  allocated_task_event, fail_task_event, reject_task_event, simple_app_event, fail_app_event,
  accept_application, reject_application, resuming_application,
}
use yunikorn_k8shim.Task.{
  Task, World, SchedulerInterface, mark_previously_allocated, rollback_on_assume_pod_failure,
}
use yunikorn_k8shim.SchedulerCache.{NodeInfoApi, ◌>>=◌}
use yunikorn_k8shim.Context.Defs.{
  App, Context, dispatch_task, dispatch_app, send, set_app, get_application, get_task,
  remove_application,
}
use yunikorn_k8shim.Context.Volumes.{context_assume_pod, context_forget_pod}
use yunikorn_k8shim.Context.Handlers.{perform_all, store_task, world_of, run_on_task}
use yunikorn_k8shim.Callback.Responses.{
  AllocationResponse, ApplicationResponse, Attempt, NewAllocation, RejectedAllocation,
  RejectedApplication, ReleasedAllocation, Texts, UpdatedApplication, named_state,
  release_app_allocation_event,
}

module _ {N : Type 0} where
  -- setAllocationKey, on the task that the application has
  unfoldable pub set_allocation_key : String → String → String → Context N → Context N
  set_allocation_key app_id task_id key ctx = elim (get_application app_id ctx) [
    | none ↦ ctx
    | some app ↦ elim (lookup task_id app.application.task_map) [
      | none ↦ ctx
      | some t ↦
          set_app app_id (store_task task_id (record t { allocation_key = key }) (world_of app) app)
            ctx
    ]
  ]

  -- The rejected allocations of UpdateAllocation
  unfoldable pub reject_allocations : Texts → List RejectedAllocation → Context N → Context N
  reject_allocations texts [] ctx = ctx
  reject_allocations texts (r ∷ rs) ctx = reject_allocations texts rs (
      send
        (dispatch_task (
          reject_task_event r.application_id r.allocation_key
            (texts.allocation_rejected r.allocation_key r.application_id)))
        ctx)

  -- The accepted applications of UpdateApplication
  unfoldable pub accept_applications : List String → Context N → Context N
  accept_applications [] ctx = ctx
  accept_applications (id ∷ ids) ctx = accept_applications ids (elim (get_application id ctx) [
    | none ↦ ctx
    | some app ↦
        send (dispatch_app (simple_app_event app.application.application_id accept_application)) ctx
  ])

  -- The rejected applications of UpdateApplication
  unfoldable pub reject_applications : List RejectedApplication → Context N → Context N
  reject_applications [] ctx = ctx
  reject_applications (r ∷ rs) ctx =
      reject_applications rs (elim (get_application r.application_id ctx) [
        | none ↦ ctx
        | some app ↦
            send
              (dispatch_app (record {
                application_id = app.application.application_id;
                event = reject_application;
                args = r.reason ∷ [];
              }))
              ctx
      ])

  -- One status change of UpdateApplication
  unfoldable pub change_application : UpdatedApplication → Context N → Context N
  change_application u ctx =
      if named_state app_completed u
      then remove_application u.application_id ctx
      else (if named_state app_resuming u
          then (elim (get_application u.application_id ctx) [
            | none ↦ ctx
            | some app ↦
                if same app.sm app_reserving
                then send (dispatch_app (simple_app_event u.application_id resuming_application))
                    ctx
                else ctx
          ])
          else (if named_state app_failing u || named_state app_failed u
              then send (dispatch_app (fail_app_event u.application_id u.message)) ctx
              else ctx))

  unfoldable pub change_applications : List UpdatedApplication → Context N → Context N
  change_applications [] ctx = ctx
  change_applications (u ∷ us) ctx = change_applications us (change_application u ctx)

  -- UpdateApplication
  unfoldable pub update_application : ApplicationResponse → Context N → Context N
  update_application response ctx =
      change_applications response.updated
        (reject_applications response.rejected (accept_applications response.accepted ctx))

module _ {C V N : Type 0} ⦃api : NodeInfoApi N⦄ where
  -- retry.OnError around AssumePod, with the steps that are left: the error of the last step is
  -- returned. The attempts are counted down.
  unfoldable pub assume_pod_with_retry :
      (ℕ → Attempt C V N) → ℕ → String → String → Context N → Option (Context N × Bool)
  assume_pod_with_retry attempts zero key node ctx = some (ctx, true)
  assume_pod_with_retry attempts (suc n) key node ctx = do
    ctx₁ ← (attempts n).meanwhile ctx
    (ctx₂, failed) ← context_assume_pod (attempts n).binder key node ctx₁
    elim failed [
      | true ↦ assume_pod_with_retry attempts n key node ctx₂
      | false ↦ some (ctx₂, false)
    ]

module _ {N : Type 0} ⦃api : NodeInfoApi N⦄ where
  -- A method of the task that the callback holds. The application may have dropped the task, or may
  -- be gone, since the callback looked it up.
  unfoldable pub run_on_held :
      (Task → World → Task × World)
      → (app_id task_id : String) → App
      → Task
      → Context N
      → Option (Context N)
  run_on_held method app_id task_id held_app held ctx = elim (get_application app_id ctx) [
    | none ↦ perform_all (method held (world_of held_app)).1.effects ctx
    | some app ↦ elim (lookup task_id app.application.task_map) [
      | none ↦ perform_all (method held (world_of app)).1.effects ctx
      | some task ↦ run_on_task method app_id task_id app task ctx
    ]
  ]

  -- The task that the callback holds, as it is now
  abbrev pub held_now : String → String → Task → Context N → Task
  held_now app_id task_id held ctx = elim (get_task app_id task_id ctx) [
    | none ↦ held
    | some task ↦ task
  ]

  module _ ⦃si : SchedulerInterface⦄ (texts : Texts) where
    -- The rest of a new allocation, once its pod could be assumed or not
    unfoldable pub settle_allocation :
        NewAllocation → App → Task → Context N × Bool → Option (Context N × Bool)
    settle_allocation alloc app held (ctx, failed) =
        let key = alloc.allocation_key in
        let task = held_now alloc.application_id key held ctx in
        if failed
        then (if task.placeholder
            then some (
              send
                  (dispatch_task
                    (fail_task_event task.application_id task.task_id texts.assume_pod_failed))
                  ctx,
              true,
            )
            else (do
              ctx₁ ←
                  run_on_held (rollback_on_assume_pod_failure key alloc.node_id)
                    alloc.application_id key app held ctx
              some (ctx₁, false)))
        else (if is_assigned_pod task.pod
            then (do
              ctx₁ ←
                  run_on_held (mark_previously_allocated key alloc.node_id) alloc.application_id key
                    app held ctx
              some (ctx₁, false))
            else some (
              send
                  (dispatch_task
                    (allocated_task_event alloc.application_id task.task_id key alloc.node_id))
                  ctx,
              false,
            ))

    -- The released allocations of UpdateAllocation
    unfoldable pub release_allocations : List ReleasedAllocation → Context N → Option (Context N)
    release_allocations [] ctx = some ctx
    release_allocations (r ∷ rs) ctx = do
      ctx₁ ← context_forget_pod r.allocation_key ctx
      release_allocations rs (
          if nat_eq r.termination_type si.stopped_by_rm
          then ctx₁
          else send (dispatch_app (release_app_allocation_event texts r)) ctx₁)

module _ {C V N : Type 0} ⦃api : NodeInfoApi N⦄ ⦃si : SchedulerInterface⦄ (texts : Texts) where
  -- One new allocation of UpdateAllocation
  unfoldable pub new_allocation :
      (ℕ → Attempt C V N) → NewAllocation → Context N → Option (Context N × Bool)
  new_allocation attempts alloc ctx = elim (get_application alloc.application_id ctx) [
    | none ↦ some (ctx, false)
    | some app ↦ elim (lookup alloc.allocation_key app.application.task_map) [
      | none ↦ some (ctx, false)
      | some task ↦ (do
        assumed ←
            assume_pod_with_retry attempts 30 alloc.allocation_key alloc.node_id (
              set_allocation_key alloc.application_id alloc.allocation_key alloc.allocation_key ctx)
        settle_allocation texts alloc app (record task { allocation_key = alloc.allocation_key })
            assumed)
    ]
  ]

  -- The new allocations of UpdateAllocation, up to one that returns an error. The first argument
  -- has the attempts of each.
  unfoldable pub new_allocations :
      (ℕ → ℕ → Attempt C V N) → List NewAllocation → Context N → Option (Context N × Bool)
  new_allocations attempts [] ctx = some (ctx, false)
  new_allocations attempts (a ∷ rest) ctx = do
    (ctx₁, failed) ← new_allocation (attempts 0) a ctx
    elim failed [
      | true ↦ some (ctx₁, true)
      | false ↦ new_allocations (λ i. attempts (suc i)) rest ctx₁
    ]

  -- UpdateAllocation
  unfoldable pub callback_update_allocation :
      (ℕ → ℕ → Attempt C V N) → AllocationResponse → Context N → Option (Context N × Bool)
  callback_update_allocation attempts response ctx = do
    (ctx₁, failed) ← new_allocations attempts response.new_allocations ctx
    elim failed [
      | true ↦ some (ctx₁, true)
      | false ↦ (do
        ctx₂ ←
            release_allocations texts response.released
              (reject_allocations texts response.rejected_allocations ctx₁)
        some (ctx₂, false))
    ]
