-- ===== src/Callback/Valid.antt =====
-- UpdateAllocation of pkg/cache/scheduler_callback.go on a context with a valid cache.
use yunikorn_k8shim.Prelude.{
  ℕ, zero, suc, String, ◌≡◌, refl, Bool, true, false, List, [], ◌∷◌, arith, Option-cases,
  Bool-cases, inl, inr, subst, sym, if◌then◌else◌, nat_eq,
}
use yunikorn_k8shim.Prelude.Dict.{lookup}
use yunikorn_k8shim.Pod.{is_assigned_pod}
use yunikorn_k8shim.Events.{fail_task_event, allocated_task_event}
use yunikorn_k8shim.Task.{
  Task, World, SchedulerInterface, mark_previously_allocated, rollback_on_assume_pod_failure,
}
use yunikorn_k8shim.SchedulerCache.{NodeInfoApi}
use yunikorn_k8shim.SchedulerCache.Invariant.{IsValid}
use yunikorn_k8shim.Context.Defs.{App, Context, get_application, send, dispatch_app, dispatch_task}
use yunikorn_k8shim.Context.Reach.{CacheValid}
use yunikorn_k8shim.Context.Handlers.{world_of}
use yunikorn_k8shim.Context.Deliver.{
  CacheValidWith, context_forget_pod-IsValid, context_assume_pod-IsValid, perform_all-Delivers,
  run_on_task_lem,
}
use yunikorn_k8shim.Callback.Defs.{
  set_allocation_key, reject_allocations, assume_pod_with_retry, run_on_held, held_now,
  settle_allocation, release_allocations, new_allocation, new_allocations,
  callback_update_allocation,
}
use yunikorn_k8shim.Callback.Responses.{
  NewAllocation, RejectedAllocation, ReleasedAllocation, AllocationResponse, Attempt, Texts,
  release_app_allocation_event,
}

-- What others do while the callback waits keeps the cache valid, and none of it panics.
abbrev pub Keeps : {C V N : Type 0} ⦃api : NodeInfoApi N⦄ → (ℕ → Attempt C V N) → Type 0
Keeps {N = N} attempts =
    (n : ℕ) (ctx : Context N)
    → IsValid ctx.scheduler_cache
    → CacheValid ((attempts n).meanwhile ctx)

module _ {N : Type 0} ⦃api : NodeInfoApi N⦄ where
  set_allocation_key-cache :
      (a t k : String) (ctx : Context N)
      → (set_allocation_key a t k ctx).scheduler_cache ≡ ctx.scheduler_cache
  unfolding set_allocation_key
  set_allocation_key-cache a t k ctx = ground arith

  reject_allocations-cache :
      (texts : Texts) (rs : List RejectedAllocation) (ctx : Context N)
      → (reject_allocations texts rs ctx).scheduler_cache ≡ ctx.scheduler_cache
  unfolding reject_allocations
  reject_allocations-cache texts [] ctx = refl
  reject_allocations-cache texts (r ∷ rs) ctx = reject_allocations-cache texts rs _

  run_on_held-IsValid :
      (method : Task → World → Task × World) (a t : String) (app : App) (held : Task)
      (ctx : Context N)
      → IsValid ctx.scheduler_cache
      → CacheValid (run_on_held method a t app held ctx)
  unfolding run_on_held
  run_on_held-IsValid method a t app held ctx v = elim (Option-cases (get_application a ctx)) [
    | inl gone ↦
        let (ctx', r, v', _) = perform_all-Delivers (method held (world_of app)).1.effects ctx v in
        (ctx', ground (arith, r), v')
    | inr (now, h) ↦ elim (Option-cases (lookup t now.application.task_map)) [
      | inl gone ↦
          let (ctx', r, v', _) =
            perform_all-Delivers (method held (world_of now)).1.effects ctx v in
          (ctx', ground (arith, r), v')
      | inr (task, k) ↦
          let (ctx', r, v', _) = run_on_task_lem method a t now task ctx v h in
          (ctx', ground (arith, r), v')
    ]
  ]

  settle_allocation-IsValid :
      ⦃si : SchedulerInterface⦄ (texts : Texts) (alloc : NewAllocation) (app : App) (held : Task)
      (ctx : Context N) (failed : Bool)
      → IsValid ctx.scheduler_cache
      → CacheValidWith (settle_allocation texts alloc app held (ctx, failed))
  unfolding settle_allocation
  settle_allocation-IsValid texts alloc app held ctx true v =
      let key = alloc.allocation_key in
      let task = held_now alloc.application_id key held ctx in
      let (ctx', r, v') =
        run_on_held-IsValid (rollback_on_assume_pod_failure key alloc.node_id) alloc.application_id
          key app held ctx v in
      elim (Bool-cases task.placeholder) [
        | inl p ↦ (
          send
              (dispatch_task
                (fail_task_event task.application_id task.task_id texts.assume_pod_failed))
              ctx,
          true,
          ground arith,
          v,
        )
        | inr p ↦ (ctx', false, ground (arith, r), v')
      ]
  settle_allocation-IsValid texts alloc app held ctx false v =
      let key = alloc.allocation_key in
      let task = held_now alloc.application_id key held ctx in
      let (ctx', r, v') =
        run_on_held-IsValid (mark_previously_allocated key alloc.node_id) alloc.application_id key
          app held ctx v in
      elim (Bool-cases (is_assigned_pod task.pod)) [
        | inl p ↦ (ctx', false, ground (arith, r), v')
        | inr p ↦ (
          send
              (dispatch_task
                (allocated_task_event alloc.application_id task.task_id key alloc.node_id))
              ctx,
          false,
          ground arith,
          v,
        )
      ]

  release_allocations-IsValid :
      ⦃si : SchedulerInterface⦄ (texts : Texts) (rs : List ReleasedAllocation) (ctx : Context N)
      → IsValid ctx.scheduler_cache
      → CacheValid (release_allocations texts rs ctx)
  unfolding release_allocations
  release_allocations-IsValid texts [] ctx v = (ctx, refl, v)
  release_allocations-IsValid ⦃si⦄ texts (r ∷ rs) ctx v =
      let (ctx₁, e, v₁) = context_forget_pod-IsValid r.allocation_key ctx v in
      let (ctx₂, e', v₂) =
        release_allocations-IsValid texts rs
          (if nat_eq r.termination_type si.stopped_by_rm
            then ctx₁
            else send (dispatch_app (release_app_allocation_event texts r)) ctx₁)
          (elim (Bool-cases (nat_eq r.termination_type si.stopped_by_rm)) [
            | inl s ↦ rw s v₁
            | inr s ↦ rw s v₁
          ]) in
      (ctx₂, ground (arith, e, e'), v₂)

module _ {C V N : Type 0} ⦃api : NodeInfoApi N⦄ where
  assume_pod_with_retry-IsValid :
      (attempts : ℕ → Attempt C V N) (n : ℕ) (key node : String) (ctx : Context N)
      → Keeps attempts
      → IsValid ctx.scheduler_cache
      → CacheValidWith (assume_pod_with_retry attempts n key node ctx)
  unfolding assume_pod_with_retry
  assume_pod_with_retry-IsValid attempts zero key node ctx k v = (ctx, true, refl, v)
  assume_pod_with_retry-IsValid attempts (suc n) key node ctx k v =
      let (ctx₁, e₁, v₁) = k n ctx v in
      let (ctx₂, failed, e₂, v₂) =
        context_assume_pod-IsValid (attempts n).binder key node ctx₁ v₁ in
      let (ctx₃, b, e₃, v₃) = assume_pod_with_retry-IsValid attempts n key node ctx₂ k v₂ in
      elim (Bool-cases failed) [
        | inl f ↦ (ctx₃, b, ground (arith, e₁, e₂, e₃), v₃)
        | inr f ↦ (ctx₂, false, ground (arith, e₁, e₂), v₂)
      ]

  module _ ⦃si : SchedulerInterface⦄ (texts : Texts) where
    new_allocation-IsValid :
        (attempts : ℕ → Attempt C V N) (alloc : NewAllocation) (ctx : Context N)
        → Keeps attempts
        → IsValid ctx.scheduler_cache
        → CacheValidWith (new_allocation texts attempts alloc ctx)
    unfolding new_allocation
    new_allocation-IsValid attempts alloc ctx k v =
        elim (Option-cases (get_application alloc.application_id ctx)) [
          | inl unknown ↦ (ctx, false, ground arith, v)
          | inr (app, h) ↦
              elim (Option-cases (lookup alloc.allocation_key app.application.task_map)) [
                | inl unknown ↦ (ctx, false, ground arith, v)
                | inr (task, t) ↦
                    let key = alloc.allocation_key in
                    let keyed = set_allocation_key alloc.application_id key key ctx in
                    let same = set_allocation_key-cache alloc.application_id key key ctx in
                    let (ctx₁, failed, e₁, v₁) =
                      assume_pod_with_retry-IsValid attempts 30 key alloc.node_id keyed k
                        (subst IsValid (sym same) v) in
                    let (ctx₂, b, e₂, v₂) =
                      settle_allocation-IsValid texts alloc app
                        (record task { allocation_key = key }) ctx₁ failed v₁ in
                    (ctx₂, b, ground (arith, e₁, e₂), v₂)
              ]
        ]

    new_allocations-IsValid :
        (attempts : ℕ → ℕ → Attempt C V N) (rest : List NewAllocation) (ctx : Context N)
        → ((i : ℕ) → Keeps (attempts i))
        → IsValid ctx.scheduler_cache
        → CacheValidWith (new_allocations texts attempts rest ctx)
    unfolding new_allocations
    new_allocations-IsValid attempts [] ctx k v = (ctx, false, refl, v)
    new_allocations-IsValid attempts (a ∷ rest) ctx k v =
        let (ctx₁, failed, e₁, v₁) = new_allocation-IsValid (attempts 0) a ctx (k 0) v in
        let (ctx₂, b, e₂, v₂) =
          new_allocations-IsValid (λ i. attempts (suc i)) rest ctx₁ (λ i. k (suc i)) v₁ in
        elim (Bool-cases failed) [
          | inl f ↦ (ctx₁, true, ground (arith, e₁), v₁)
          | inr f ↦ (ctx₂, b, ground (arith, e₁, e₂), v₂)
        ]

    -- UpdateAllocation returns for every response, whatever the volume binder answers, and leaves
    -- the cache valid, if the cache was valid and what others do between the attempts to assume a
    -- pod does not panic and keeps the cache valid.
    pub callback_update_allocation-IsValid :
        (attempts : ℕ → ℕ → Attempt C V N) (response : AllocationResponse) (ctx : Context N)
        → ((i : ℕ) → Keeps (attempts i))
        → IsValid ctx.scheduler_cache
        → CacheValidWith (callback_update_allocation texts attempts response ctx)
    unfolding callback_update_allocation
    callback_update_allocation-IsValid attempts response ctx k v =
        let (ctx₁, failed, e₁, v₁) =
          new_allocations-IsValid attempts response.new_allocations ctx k v in
        let rejected = reject_allocations texts response.rejected_allocations ctx₁ in
        let same = reject_allocations-cache texts response.rejected_allocations ctx₁ in
        let (ctx₂, e₂, v₂) =
          release_allocations-IsValid texts response.released rejected
            (subst IsValid (sym same) v₁) in
        elim (Bool-cases failed) [
          | inl f ↦ (ctx₁, true, ground (arith, e₁), v₁)
          | inr f ↦ (ctx₂, false, ground (arith, e₁, e₂), v₂)
        ]
