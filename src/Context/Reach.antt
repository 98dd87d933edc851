-- ===== src/Context/Reach.antt =====
-- Every sequence of the events of pods and nodes, with what happens while a node waits for its
-- registration: none panics, and the scheduler cache stays valid.
use yunikorn_k8shim.Prelude.{
  String, ◌≡◌, refl, true, not, ◌&&◌, Option, none, some, ◌==◌, eq_iff, arith, if◌then◌else◌,
  Option-cases, Bool-cases, inl, inr, subst, sym,
}
use yunikorn_k8shim.Prelude.Dict.{lookup}
use yunikorn_k8shim.Pod.{Pod, is_assigned_pod, is_pod_terminated}
use yunikorn_k8shim.Resource.{Resource}
use yunikorn_k8shim.Task.{SchedulerInterface}
use yunikorn_k8shim.Gang.Defs.{QuantityApi}
use yunikorn_k8shim.SchedulerCache.{NodeInfoApi, SchedulerCache, remove_pod, is_some}
use yunikorn_k8shim.SchedulerCache.Invariant.{IsValid}
use yunikorn_k8shim.SchedulerCache.Preserve.{update_pod-IsValid}
use yunikorn_k8shim.SchedulerCache.Reach.{run_op, run_op-IsValid, op_remove_pod}
use yunikorn_k8shim.SchedulerCache.Adopted.{named}
use yunikorn_k8shim.Context.Metadata.{
  Env, TaskMetadata, ApplicationMetadata, get_task_metadata, get_app_metadata,
  get_application_id_from_pod,
}
use yunikorn_k8shim.Context.Defs.{
  App, Context, allocate_foreign, release_foreign, get_application, add_application,
  context_add_task, set_cache, send, set_task_pod, update_task_pod, notify_task_complete,
}
use yunikorn_k8shim.Context.Pods.{
  is_changed, create_release_request_for_foreign_pod, has_gates, update_foreign_pod,
  update_yunikorn_pod, context_update_pod, delete_pod, delete_foreign_pod, delete_yunikorn_pod,
  ensure_app_and_task_created, ensure_task_created,
}

module _ {N : Type 0} ⦃api : NodeInfoApi N⦄ where
  -- The context after an operation of the cache that returns.
  abbrev pub CacheValid : Option (Context N) → Type 0
  CacheValid r = (ctx : Context N) × (r ≡ some ctx) × IsValid ctx.scheduler_cache

  pub valid_at :
      (r : Option (Context N)) (ctx : Context N) (c : SchedulerCache N)
      → r ≡ some ctx
      → ctx.scheduler_cache ≡ c
      → IsValid c
      → CacheValid r
  valid_at r ctx c e f v = (ctx, e, subst IsValid (sym f) v)

  remove_pod-IsValid :
      (p : Pod) (c : SchedulerCache N)
      → IsValid c
      → named p ≡ true
      → (c' : SchedulerCache N) × (remove_pod p c ≡ some c') × IsValid c'
  unfolding run_op
  remove_pod-IsValid p c v u = run_op-IsValid (op_remove_pod p) c v u

same_cache_notify :
    {N : Type 0} (o : Option App) (t : String) (ctx : Context N)
    → (notify_task_complete o t ctx).scheduler_cache ≡ ctx.scheduler_cache
unfolding notify_task_complete
same_cache_notify none t ctx = refl
same_cache_notify (some app) t ctx = ground arith

same_cache_set :
    {N : Type 0} (pod_resource : Pod → Option Resource) (a : String) (p : Pod) (ctx : Context N)
    → (update_task_pod pod_resource a p ctx).scheduler_cache ≡ ctx.scheduler_cache
unfolding update_task_pod set_task_pod
same_cache_set pod_resource a p ctx = ground arith

-- The context after the first part of deleteYuniKornPod.
abbrev told :
    {Q : Type 0} ⦃quantities : QuantityApi Q⦄ (env : Env Q) (p : Pod) {N : Type 0}
    → Context N
    → Context N
told env p ctx = elim (get_task_metadata env p) [
  | none ↦ ctx
  | some m ↦ notify_task_complete (get_application m.application_id ctx) m.task_id ctx
]

same_cache_told :
    {Q N : Type 0} ⦃quantities : QuantityApi Q⦄ (env : Env Q) (p : Pod) (ctx : Context N)
    → (told env p ctx).scheduler_cache ≡ ctx.scheduler_cache
same_cache_told env p ctx = elim (Option-cases (get_task_metadata env p)) [
  | inl h ↦ ground arith
  | inr (m, h) ↦
      ground (arith, same_cache_notify (get_application m.application_id ctx) m.task_id ctx)
]

module _ {Q : Type 0} ⦃quantities : QuantityApi Q⦄ (env : Env Q)
    (pod_resource : Pod → Option Resource) (alias : Pod → String) {N : Type 0} ⦃api : NodeInfoApi N⦄
    ⦃si : SchedulerInterface⦄ where
  same_cache_add_task :
      (m : TaskMetadata) (ctx : Context N)
      → (context_add_task pod_resource alias m ctx).scheduler_cache ≡ ctx.scheduler_cache
  unfolding context_add_task
  same_cache_add_task m ctx = ground arith

  same_cache_task :
      (a : String) (p : Pod) (ctx : Context N)
      → (ensure_task_created env pod_resource alias a p ctx).scheduler_cache ≡ ctx.scheduler_cache
  unfolding ensure_task_created
  same_cache_task a p ctx = elim (Option-cases (get_task_metadata env p)) [
    | inl h ↦ ground arith
    | inr (m, h) ↦ ground (arith, same_cache_add_task m ctx)
  ]

  same_cache_add_app :
      (m : ApplicationMetadata Q) (ctx : Context N)
      → (add_application m ctx).scheduler_cache ≡ ctx.scheduler_cache
  unfolding add_application
  same_cache_add_app m ctx = ground arith

  same_cache_ensure :
      (a : String) (p : Pod) (ctx : Context N)
      → (ensure_app_and_task_created env pod_resource alias a p ctx).scheduler_cache
        ≡ ctx.scheduler_cache
  unfolding ensure_app_and_task_created
  same_cache_ensure a p ctx = elim (Option-cases (get_app_metadata env p)) [
    | inl h ↦ ground (arith, same_cache_task a p ctx)
    | inr (m, h) ↦ ground (
      arith,
      same_cache_task a p ctx,
      same_cache_task a p (add_application m ctx),
      same_cache_add_app m ctx,
    )
  ]

  pub update_foreign_pod-IsValid :
      (old : Option Pod) (p : Pod) (ctx : Context N)
      → IsValid ctx.scheduler_cache
      → named p ≡ true
      → CacheValid (update_foreign_pod env pod_resource alias old p ctx)
  unfolding update_foreign_pod
  update_foreign_pod-IsValid old p ctx v u =
      elim (Bool-cases (is_assigned_pod p && not (is_pod_terminated p))) [
        | inl a ↦
            let (c, accepted, returns, v') =
              update_pod-IsValid p ctx.scheduler_cache v (ground (arith, eq_iff p.uid "")) in
            valid_at _
              (if accepted && is_changed pod_resource old p
                then send (allocate_foreign p) (set_cache c ctx)
                else set_cache c ctx)
              c (ground (arith, returns)) (ground arith) v'
        | inr a ↦
            let (c, returns, v') = remove_pod-IsValid p ctx.scheduler_cache v u in
            elim (Bool-cases (
              is_some old
              && is_pod_terminated p
              && not (is_some (lookup p.uid ctx.scheduler_cache.orphaned_pods)))) [
                | inl b ↦
                    valid_at _
                      (send (release_foreign (create_release_request_for_foreign_pod p.uid))
                        (set_cache c ctx))
                      c (ground (arith, returns)) refl v'
                | inr b ↦ (ctx, ground arith, v)
              ]
      ]

  pub update_yunikorn_pod-IsValid :
      (a : String) (p : Pod) (ctx : Context N)
      → IsValid ctx.scheduler_cache
      → named p ≡ true
      → CacheValid (update_yunikorn_pod env pod_resource alias a p ctx)
  unfolding update_yunikorn_pod
  update_yunikorn_pod-IsValid a p ctx v u =
      let ctx₁ = update_task_pod pod_resource a p ctx in
      let v₁ : IsValid ctx₁.scheduler_cache =
        subst IsValid (sym (same_cache_set pod_resource a p ctx)) v in
      elim (Bool-cases (is_pod_terminated p)) [
        | inl t ↦
            let (c, returns, v') = remove_pod-IsValid p ctx₁.scheduler_cache v₁ u in
            valid_at _ (set_cache c (notify_task_complete (get_application a ctx₁) p.uid ctx₁)) c
              (ground (arith, returns)) refl v'
        | inr t ↦
            let (c, accepted, returns, v') =
              update_pod-IsValid p ctx₁.scheduler_cache v₁ (ground (arith, eq_iff p.uid "")) in
            valid_at _
              (if accepted && not (has_gates p)
                then ensure_app_and_task_created env pod_resource alias a p (set_cache c ctx₁)
                else set_cache c ctx₁)
              c (ground (arith, returns)) (ground (arith, same_cache_ensure a p (set_cache c ctx₁)))
              v'
      ]

  pub pod_event-IsValid :
      (old : Option Pod) (p : Pod) (ctx : Context N)
      → IsValid ctx.scheduler_cache
      → named p ≡ true
      → CacheValid (context_update_pod env pod_resource alias old p ctx)
  unfolding context_update_pod
  pod_event-IsValid old p ctx v u = elim (Bool-cases (get_application_id_from_pod env p == "")) [
    | inl f ↦
        let (c, returns, v') =
          update_foreign_pod-IsValid
            (if is_some (lookup p.uid ctx.scheduler_cache.pods_map) then old else none) p ctx v u in
        (c, ground (arith, returns), v')
    | inr f ↦
        let (c, returns, v') =
          update_yunikorn_pod-IsValid (get_application_id_from_pod env p) p ctx v u in
        (c, ground (arith, returns), v')
  ]

  pub delete_pod-IsValid :
      (p : Pod) (ctx : Context N)
      → IsValid ctx.scheduler_cache
      → named p ≡ true
      → CacheValid (delete_pod env pod_resource alias p ctx)
  unfolding delete_pod delete_foreign_pod delete_yunikorn_pod
  delete_pod-IsValid p ctx v u = elim (Bool-cases (get_application_id_from_pod env p == "")) [
    | inl f ↦
        let (c, returns, v') = remove_pod-IsValid p ctx.scheduler_cache v u in
        valid_at _
          (send (release_foreign (create_release_request_for_foreign_pod p.uid)) (set_cache c ctx))
          c (ground (arith, returns)) refl v'
    | inr f ↦
        let ctx₁ = told env p ctx in
        let (c, returns, v') =
          remove_pod-IsValid p ctx₁.scheduler_cache
            (subst IsValid (sym (same_cache_told env p ctx)) v) u in
        valid_at _ (set_cache c ctx₁) c (ground (arith, returns)) refl v'
  ]
