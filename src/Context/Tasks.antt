-- ===== src/Context/Tasks.antt =====
-- ensureAppAndTaskCreated: the pod has its application and its task, and nothing else changes.
use yunikorn_k8shim.Prelude.{
  String, ◌≡◌, refl, false, if◌then◌else◌, Option, none, some, [], ◌==◌, arith, eq_iff,
  Option-cases, inl, inr, sym, subst,
}
use yunikorn_k8shim.Prelude.Dict.{lookup, lookup-insert}
use yunikorn_k8shim.Pod.{Pod}
use yunikorn_k8shim.Resource.{Resource}
use yunikorn_k8shim.Task.{Task, SchedulerInterface, create_task, initialize}
use yunikorn_k8shim.Application.{add_task}
use yunikorn_k8shim.Gang.Defs.{QuantityApi}
use yunikorn_k8shim.SchedulerCache.{NodeInfoApi}
use yunikorn_k8shim.Context.Metadata.{
  Env, TaskMetadata, ApplicationMetadata, get_application_id_from_pod, get_task_metadata,
  get_app_metadata, task_metadata, app_metadata,
}
use yunikorn_k8shim.Context.Identity.{get_metadata_cases}
use yunikorn_k8shim.Context.Defs.{
  App, Context, get_application, get_task, set_app, new_application, add_application, is_originator,
  new_from_task_meta, context_add_task,
}
use yunikorn_k8shim.Context.Pods.{ensure_task_created, ensure_app_and_task_created}

module _ (pod_resource : Pod → Option Resource) (alias : Pod → String)
    ⦃si : SchedulerInterface⦄ where
  new_from_task_meta-task_id :
      (m : TaskMetadata) (app : App)
      → (new_from_task_meta pod_resource alias m app).task_id ≡ m.task_id
  unfolding new_from_task_meta create_task initialize
  new_from_task_meta-task_id m app = ground arith

  -- The application after addTask has added a task to it.
  abbrev with_task : TaskMetadata → App → App
  with_task m app = record app {
    application = add_task (new_from_task_meta pod_resource alias m app) app.application;
    originating_task = (if is_originator m app then some m.task_id else app.originating_task);
  }

  with_task-lookup :
      (m : TaskMetadata) (app : App) (k : String)
      → lookup m.task_id app.application.task_map ≡ none
      → lookup k (with_task m app).application.task_map ≡ (
          if m.task_id == k
          then some (new_from_task_meta pod_resource alias m app)
          else lookup k app.application.task_map)
  unfolding add_task
  with_task-lookup m app k h = ground (
    arith,
    new_from_task_meta-task_id m app,
    lookup-insert m.task_id (new_from_task_meta pod_resource alias m app) k
        app.application.task_map,
  )

  context_add_task-adds :
      {N : Type 0} (m : TaskMetadata) (app : App) (ctx : Context N)
      → get_application m.application_id ctx ≡ some app
      → lookup m.task_id app.application.task_map ≡ none
      → context_add_task pod_resource alias m ctx ≡ set_app m.application_id (with_task m app) ctx
  unfolding context_add_task
  context_add_task-adds m app ctx h k = ground arith

add_application-new :
    {Q N : Type 0} ⦃quantities : QuantityApi Q⦄ (m : ApplicationMetadata Q) (ctx : Context N)
    → get_application m.application_id ctx ≡ none
    → add_application m ctx ≡ set_app m.application_id (new_application m) ctx
unfolding add_application
add_application-new m ctx h = ground arith

module _ {Q : Type 0} ⦃quantities : QuantityApi Q⦄ (env : Env Q)
    (pod_resource : Pod → Option Resource) (alias : Pod → String) {N : Type 0} ⦃api : NodeInfoApi N⦄
    ⦃si : SchedulerInterface⦄ where
  -- The pod has its application and its task, and no other application and no other task of the
  -- application has changed.
  pub record Ensured (a : String) (p : Pod) (ctx ctx' : Context N) : Type 0 where
    pub app : App
    pub task : Task
    pub has_app : get_application a ctx' ≡ some app
    pub has_task : lookup p.uid app.application.task_map ≡ some task
    pub same_apps : (b : String) → (a == b) ≡ false → get_application b ctx' ≡ get_application b ctx
    pub same_tasks : (u : String) → (p.uid == u) ≡ false → get_task a u ctx' ≡ get_task a u ctx

  ensure_task_created-Ensured :
      (a : String) (p : Pod) (ctx : Context N) (app : App)
      → get_application a ctx ≡ some app
      → get_task_metadata env p ≡ some (task_metadata env p)
      → (task_metadata env p).application_id ≡ a
      → Ensured a p ctx (ensure_task_created env pod_resource alias a p ctx)
  unfolding ensure_task_created get_task task_metadata
  ensure_task_created-Ensured a p ctx app h k e =
      elim (Option-cases (lookup p.uid app.application.task_map)) [
        | inr (t, f) ↦
            let same : ensure_task_created env pod_resource alias a p ctx ≡ ctx = ground arith in
            subst (Ensured a p ctx) (sym same) (record {
              app = app;
              task = t;
              has_app = h;
              has_task = f;
              same_apps = λ b n. refl;
              same_tasks = λ u n. refl;
            })
        | inl f ↦
            let m = task_metadata env p in
            let app' = with_task pod_resource alias m app in
            let adds : ensure_task_created env pod_resource alias a p ctx ≡ set_app a app' ctx =
              ground (arith, context_add_task-adds pod_resource alias m app ctx) in
            subst (Ensured a p ctx) (sym adds) (record {
              app = app';
              task = new_from_task_meta pod_resource alias m app;
              has_app = ground (arith, lookup-insert a app' a ctx.applications, eq_iff a a);
              has_task =
                  ground
                    (arith, with_task-lookup pod_resource alias m app p.uid f, eq_iff p.uid p.uid);
              same_apps = λ b n. ground (arith, lookup-insert a app' b ctx.applications);
              same_tasks = λ u n. ground (
                arith,
                lookup-insert a app' a ctx.applications,
                eq_iff a a,
                with_task-lookup pod_resource alias m app u f,
              );
            })
      ]

  Ensured-new :
      (a : String) (p : Pod) (ctx ctx' : Context N) (app : App)
      → get_application a ctx ≡ none
      → app.application.task_map ≡ []
      → Ensured a p (set_app a app ctx) ctx'
      → Ensured a p ctx ctx'
  unfolding get_task lookup
  Ensured-new a p ctx ctx' app h e s = record {
    app = s.app;
    task = s.task;
    has_app = s.has_app;
    has_task = s.has_task;
    same_apps = λ b n. ground (arith, s.same_apps b n, lookup-insert a app b ctx.applications);
    same_tasks =
        λ u n. ground (arith, s.same_tasks u n, lookup-insert a app a ctx.applications, eq_iff a a);
  }

  ensure_app_and_task_created-Ensured :
      (a : String) (p : Pod) (ctx : Context N)
      → get_task_metadata env p ≡ some (task_metadata env p)
      → get_app_metadata env p ≡ some (app_metadata env p)
      → get_application_id_from_pod env p ≡ a
      → Ensured a p ctx (ensure_app_and_task_created env pod_resource alias a p ctx)
  unfolding ensure_app_and_task_created task_metadata app_metadata
  ensure_app_and_task_created-Ensured a p ctx k l e = elim (Option-cases (get_application a ctx)) [
    | inr (app, h) ↦
        let same : ensure_app_and_task_created env pod_resource alias a p ctx
            ≡ ensure_task_created env pod_resource alias a p ctx =
          ground arith in
        subst (Ensured a p ctx) (sym same) (ensure_task_created-Ensured a p ctx app h k e)
    | inl h ↦
        let app = new_application (app_metadata env p) in
        let ctx₁ = set_app a app ctx in
        let same : ensure_app_and_task_created env pod_resource alias a p ctx
            ≡ ensure_task_created env pod_resource alias a p ctx₁ =
          ground (arith, add_application-new (app_metadata env p) ctx) in
        let has : get_application a ctx₁ ≡ some app =
          ground (arith, lookup-insert a app a ctx.applications, eq_iff a a) in
        subst (Ensured a p ctx) (sym same) (
          Ensured-new a p ctx (ensure_task_created env pod_resource alias a p ctx₁) app h
            (unfold new_application in refl) (ensure_task_created-Ensured a p ctx₁ app has k e))
  ]

  ensure_again :
      (a : String) (p : Pod) (ctx ctx' : Context N)
      → Ensured a p ctx ctx'
      → get_task_metadata env p ≡ some (task_metadata env p)
      → ensure_app_and_task_created env pod_resource alias a p ctx' ≡ ctx'
  unfolding ensure_app_and_task_created ensure_task_created get_task
  ensure_again a p ctx ctx' s k = ground (arith, s.has_app, s.has_task)

  -- ensureAppAndTaskCreated on a pod of the scheduler yunikorn, whatever the context: the pod then
  -- has its application and, under its UID, its task; no other application has changed, and no
  -- other task of the application; and a second call changes nothing.
  pub ensure_app_and_task_created_lem :
      (p : Pod) (ctx : Context N)
      → p.scheduler_name ≡ "yunikorn"
      → Ensured (get_application_id_from_pod env p) p ctx (
          ensure_app_and_task_created env pod_resource alias
            (get_application_id_from_pod env p)
            p
            ctx)
        × (ensure_app_and_task_created env pod_resource alias
              (get_application_id_from_pod env p)
              p
              (ensure_app_and_task_created env pod_resource alias
                (get_application_id_from_pod env p)
                p
                ctx)
            ≡ ensure_app_and_task_created env pod_resource alias
                (get_application_id_from_pod env p)
                p
                ctx)
  ensure_app_and_task_created_lem p ctx y = elim (get_metadata_cases env p) [
    | inr (other, _, _, _) ↦ absurd (other y)
    | inl (_, _, k, l) ↦
        let s =
          ensure_app_and_task_created-Ensured (get_application_id_from_pod env p) p ctx k l refl in
        (
          s,
          ensure_again (get_application_id_from_pod env p) p ctx
              (ensure_app_and_task_created env pod_resource alias
                (get_application_id_from_pod env p) p ctx)
              s k,
        )
  ]
