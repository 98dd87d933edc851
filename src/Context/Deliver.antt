-- ===== src/Context/Deliver.antt =====
-- The operations of a task on the context keep the scheduler cache valid, and return.
use yunikorn_k8shim.Prelude.{
  String, ◌≡◌, refl, Bool, true, false, Option, some, List, [], ◌∷◌, ◌==◌, eq_iff, arith,
  Option-cases, Bool-cases, inl, inr, if◌then◌else◌, ◌&&◌, ◌∙◌,
}
use yunikorn_k8shim.Prelude.Dict.{lookup, lookup-insert}
use yunikorn_k8shim.Pod.{with_node}
use yunikorn_k8shim.Fsm.{FsmApi}
use yunikorn_k8shim.Events.{
  TaskState, TaskEventType, TaskEventType-Names, TaskState-Names, TaskEvent, get_event,
}
use yunikorn_k8shim.Task.{
  Task, World, Effect, SchedulerInterface, handle, event_desc, dispatch_task as to_task,
  dispatch_app as to_app, update_allocation as ask, release, bind, revert_pod_volume_assumptions,
  forget_pod,
}
use yunikorn_k8shim.SchedulerCache.{NodeInfoApi, forget_pod as forget}
use yunikorn_k8shim.SchedulerCache.Invariant.{IsValid}
use yunikorn_k8shim.SchedulerCache.Reach.{run_op, run_op-IsValid, op_forget_pod, op_assume_pod}
use yunikorn_k8shim.Task.Handle.{handle-cannot}
use yunikorn_k8shim.Context.Defs.{App, Context, set_cache, set_app, get_application, get_task}
use yunikorn_k8shim.Context.Volumes.{
  VolumeBinder, assume_volumes, context_assume_pod, context_forget_pod,
}
use yunikorn_k8shim.Context.Reach.{CacheValid}
use yunikorn_k8shim.Context.Handlers.{
  perform, perform_all, run_on_task, task_event_handler, app_id_of, task_id_of, store_task,
  world_of,
}

module _ {N : Type 0} ⦃api : NodeInfoApi N⦄ where
  -- A call that returns a context with a valid cache, and says something beside it
  abbrev pub CacheValidWith : Option (Context N × Bool) → Type 0
  CacheValidWith r =
      (ctx : Context N) × (b : Bool) × (r ≡ some (ctx, b)) × IsValid ctx.scheduler_cache

  pub context_forget_pod-IsValid :
      (name : String) (ctx : Context N)
      → IsValid ctx.scheduler_cache
      → CacheValid (context_forget_pod name ctx)
  unfolding context_forget_pod run_op
  context_forget_pod-IsValid name ctx v =
      elim (Option-cases (lookup name ctx.scheduler_cache.pods_map)) [
        | inl absent ↦ (ctx, ground arith, v)
        | inr (pod, h) ↦
            let (same_uid, named) = (v.sound.pod_at name).pod_has_uid pod h in
            let (c, returns, v') =
              run_op-IsValid (op_forget_pod pod) ctx.scheduler_cache v
                (ground (arith, eq_iff pod.uid "", same_uid)) in
            (set_cache c ctx, ground (arith, returns), v')
      ]

  pub context_assume_pod-IsValid :
      {C V : Type 0} (binder : VolumeBinder C V N) (name node : String) (ctx : Context N)
      → IsValid ctx.scheduler_cache
      → CacheValidWith (context_assume_pod binder name node ctx)
  unfolding context_assume_pod run_op
  context_assume_pod-IsValid binder name node ctx v =
      elim (Option-cases (lookup name ctx.scheduler_cache.pods_map)) [
        | inl absent ↦ (ctx, false, ground arith, v)
        | inr (pod, h) ↦ elim (Option-cases (lookup node ctx.scheduler_cache.nodes_map)) [
          | inl absent ↦ (ctx, false, ground arith, v)
          | inr (info, k) ↦ elim (Option-cases (assume_volumes binder pod node info)) [
            | inl fails ↦ (ctx, true, ground arith, v)
            | inr (all_bound, a) ↦
                let (same_uid, named) = (v.sound.pod_at name).pod_has_uid pod h in
                let (c, returns, v') =
                  run_op-IsValid (op_assume_pod (with_node pod node) all_bound) ctx.scheduler_cache
                    v (ground (arith, eq_iff pod.uid "", same_uid)) in
                (set_cache c ctx, false, ground (arith, returns), v')
          ]
        ]
      ]

  -- A call that returns a context with a valid cache and the same applications
  abbrev pub Delivers : Context N → Option (Context N) → Type 0
  Delivers ctx r =
      (ctx' : Context N) × (r ≡ some ctx')
      × IsValid ctx'.scheduler_cache
      × (ctx'.applications ≡ ctx.applications)

  context_forget_pod-applications :
      (name : String) (ctx ctx' : Context N)
      → context_forget_pod name ctx ≡ some ctx'
      → ctx'.applications ≡ ctx.applications
  unfolding context_forget_pod
  context_forget_pod-applications name ctx ctx' e =
      elim (Option-cases (lookup name ctx.scheduler_cache.pods_map)) [
        | inl absent ↦ ground arith
        | inr (pod, h) ↦ elim (Option-cases (forget pod ctx.scheduler_cache)) [
          | inl panics ↦ absurd (ground arith)
          | inr (c, r) ↦ ground arith
        ]
      ]

  perform-Delivers :
      (e : Effect) (ctx : Context N) → IsValid ctx.scheduler_cache → Delivers ctx (perform e ctx)
  unfolding perform
  perform-Delivers (to_task ev) ctx v = (_, refl, v, refl)
  perform-Delivers (to_app ev) ctx v = (_, refl, v, refl)
  perform-Delivers (ask a) ctx v = (_, refl, v, refl)
  perform-Delivers (release r) ctx v = (_, refl, v, refl)
  perform-Delivers (bind pod node key) ctx v = (_, refl, v, refl)
  perform-Delivers (revert_pod_volume_assumptions key node) ctx v = (_, refl, v, refl)
  perform-Delivers (forget_pod key) ctx v =
      let (ctx', r, v') = context_forget_pod-IsValid key ctx v in
      (ctx', r, v', context_forget_pod-applications key ctx ctx' r)

  pub perform_all-Delivers :
      (es : List Effect) (ctx : Context N)
      → IsValid ctx.scheduler_cache
      → Delivers ctx (perform_all es ctx)
  unfolding perform_all
  perform_all-Delivers [] ctx v = (ctx, refl, v, refl)
  perform_all-Delivers (e ∷ es) ctx v =
      let (ctx₁, r, v₁, s) = perform-Delivers e ctx v in
      let (ctx₂, r', v₂, s') = perform_all-Delivers es ctx₁ v₁ in
      (ctx₂, ground (arith, r, r'), v₂, s' ∙ s)

  -- What a method does to the task is what the context has of it, and no other task is touched.
  pub run_on_task_lem :
      (method : Task → World → Task × World) (app_id task_id : String) (app : App) (task : Task)
      (ctx : Context N)
      → IsValid ctx.scheduler_cache
      → get_application app_id ctx ≡ some app
      → (ctx' : Context N) × (run_on_task method app_id task_id app task ctx ≡ some ctx')
        × IsValid ctx'.scheduler_cache
        × ((a k : String)
            → get_task a k ctx' ≡ (
                if app_id == a && task_id == k
                then some (method task (world_of app)).0
                else get_task a k ctx))
  unfolding run_on_task get_task
  run_on_task_lem method app_id task_id app task ctx v h =
      let (t, w) = method task (world_of app) in
      let (ctx', r, v', same_apps) =
        perform_all-Delivers w.effects (set_app app_id (store_task task_id t w app) ctx) v in
      (
        ctx',
        r,
        v',
        λ a k. ground (
          arith,
          same_apps,
          eq_iff app_id a,
          eq_iff task_id k,
          lookup-insert app_id (store_task task_id t w app) a ctx.applications,
          lookup-insert task_id t k app.application.task_map,
        ),
      )

  module _ ⦃si : SchedulerInterface⦄
      (fsm : FsmApi TaskState TaskEventType TaskEvent (Task × World)) where
    -- TaskEventHandler, for an event of a task that the context has, returns and leaves the cache
    -- valid. What the state machine of the task makes of the task, with the application that the
    -- context has for it, is what the context has of it then, and no other task is touched.
    pub task_event_handler_lem :
        (ev : TaskEvent) (ctx : Context N) (app : App) (task : Task)
        → IsValid ctx.scheduler_cache
        → get_application (app_id_of ev) ctx ≡ some app
        → lookup (task_id_of ev) app.application.task_map ≡ some task
        → (ctx' : Context N) × (task_event_handler fsm ev ctx ≡ some ctx')
          × IsValid ctx'.scheduler_cache
          × ((a k : String)
              → get_task a k ctx' ≡ (
                  if app_id_of ev == a && task_id_of ev == k
                  then some (handle fsm ev task (world_of app)).0.0
                  else get_task a k ctx))
    unfolding task_event_handler get_task
    task_event_handler_lem ev ctx app task v h k =
        elim (Bool-cases (fsm.can event_desc (get_event ev) task.sm)) [
          | inl can ↦
              let (ctx', r, v', tasks) =
                run_on_task_lem (λ t w. (handle fsm ev t w).0) (app_id_of ev) (task_id_of ev) app
                  task ctx v h in
              (ctx', ground arith, v', tasks)
          | inr cannot ↦ (
            ctx,
            ground arith,
            v,
            λ a j. ground (
              arith,
              handle-cannot fsm ev task (world_of app),
              eq_iff (app_id_of ev) a,
              eq_iff (task_id_of ev) j,
            ),
          )
        ]
