-- ===== src/Context/Pods.antt =====
-- What the context does on the events of pods and nodes, in pkg/cache/context.go.
use yunikorn_k8shim.Prelude.{
  String, Bool, true, false, not, ◌&&◌, Option, none, some, [], ◌∷◌, ◌==◌, if◌then◌else◌,
}
use yunikorn_k8shim.Prelude.Dict.{lookup}
use yunikorn_k8shim.Pod.{Pod, is_pod_terminated, is_assigned_pod}
use yunikorn_k8shim.Resource.{Resource, equals}
use yunikorn_k8shim.Task.{SchedulerInterface, AllocationRelease}
use yunikorn_k8shim.Gang.Defs.{QuantityApi}
use yunikorn_k8shim.SchedulerCache.{NodeInfoApi, ◌>>=◌, update_pod, remove_pod, is_some}
use yunikorn_k8shim.Context.Metadata.{
  Env, get_application_id_from_pod, get_task_metadata, get_app_metadata,
}
use yunikorn_k8shim.Context.Defs.{
  Context, allocate_foreign, release_foreign, send, set_cache, get_application, get_task,
  notify_task_complete, update_task_pod, add_application, context_add_task,
}

-- len(pod.Spec.SchedulingGates) > 0
abbrev pub has_gates : Pod → Bool
has_gates pod = elim pod.scheduling_gates [ [] ↦ false | _ ∷ _ ↦ true ]

-- The allocation is new, or the resources of its pod have changed.
unfoldable pub is_changed : (Pod → Option Resource) → Option Pod → Pod → Bool
is_changed pod_resource none pod = true
is_changed pod_resource (some old_pod) pod =
    not (equals false (pod_resource old_pod) (pod_resource pod))

-- CreateReleaseRequestForForeignPod
unfoldable pub create_release_request_for_foreign_pod :
    ⦃si : SchedulerInterface⦄ → String → AllocationRelease
create_release_request_for_foreign_pod ⦃si⦄ uid = record {
  application_id = "";
  allocation_key = uid;
  partition_name = "default";
  termination_type = si.stopped_by_rm;
}

module _ {Q : Type 0} ⦃quantities : QuantityApi Q⦄ (env : Env Q)
    (pod_resource : Pod → Option Resource) (alias : Pod → String) {N : Type 0} ⦃api : NodeInfoApi N⦄
    ⦃si : SchedulerInterface⦄ where
  -- The second part of ensureAppAndTaskCreated, for the application of this ID.
  unfoldable pub ensure_task_created : String → Pod → Context N → Context N
  ensure_task_created app_id pod ctx = elim (get_task_metadata env pod) [
    | none ↦ ctx
    | some m ↦ elim (get_task app_id pod.uid ctx) [
      | some _ ↦ ctx
      | none ↦ context_add_task pod_resource alias m ctx
    ]
  ]

  -- ensureAppAndTaskCreated, for a pod of the application of this ID
  unfoldable pub ensure_app_and_task_created : String → Pod → Context N → Context N
  ensure_app_and_task_created app_id pod ctx = elim (get_application app_id ctx) [
    | some _ ↦ ensure_task_created app_id pod ctx
    | none ↦ elim (get_app_metadata env pod) [
      | none ↦ ctx
      | some m ↦ ensure_task_created app_id pod (add_application m ctx)
    ]
  ]

  -- updateYuniKornPod
  unfoldable pub update_yunikorn_pod : String → Pod → Context N → Option (Context N)
  update_yunikorn_pod app_id pod ctx =
      let ctx₁ = update_task_pod pod_resource app_id pod ctx in
      if is_pod_terminated pod
      then (do
        c ← remove_pod pod ctx₁.scheduler_cache
        some (set_cache c (notify_task_complete (get_application app_id ctx₁) pod.uid ctx₁)))
      else (do
        (c, accepted) ← update_pod pod ctx₁.scheduler_cache
        some (
            if accepted && not (has_gates pod)
            then ensure_app_and_task_created app_id pod (set_cache c ctx₁)
            else set_cache c ctx₁))

  -- updateForeignPod
  unfoldable pub update_foreign_pod : Option Pod → Pod → Context N → Option (Context N)
  update_foreign_pod old_pod pod ctx =
      if is_assigned_pod pod && not (is_pod_terminated pod)
      then (do
        (c, accepted) ← update_pod pod ctx.scheduler_cache
        some (
            if accepted && is_changed pod_resource old_pod pod
            then send (allocate_foreign pod) (set_cache c ctx)
            else set_cache c ctx))
      else if is_some old_pod
          && is_pod_terminated pod
          && not (is_some (lookup pod.uid ctx.scheduler_cache.orphaned_pods))
      then (do
        c ← remove_pod pod ctx.scheduler_cache
        some (
            send (release_foreign (create_release_request_for_foreign_pod pod.uid))
              (set_cache c ctx)))
      else some ctx

  -- UpdatePod, where a nil old object is AddPod. An old pod is dropped if the cache has no pod.
  unfoldable pub context_update_pod : Option Pod → Pod → Context N → Option (Context N)
  context_update_pod old_pod pod ctx =
      let old_pod' =
        (if is_some (lookup pod.uid ctx.scheduler_cache.pods_map) then old_pod else none) in
      let app_id = get_application_id_from_pod env pod in
      if app_id == ""
      then update_foreign_pod old_pod' pod ctx
      else update_yunikorn_pod app_id pod ctx

  -- deleteYuniKornPod
  unfoldable pub delete_yunikorn_pod : Pod → Context N → Option (Context N)
  delete_yunikorn_pod pod ctx =
      let ctx₁ : Context N = elim (get_task_metadata env pod) [
        | none ↦ ctx
        | some m ↦ notify_task_complete (get_application m.application_id ctx) m.task_id ctx
      ] in
      (do c ← remove_pod pod ctx₁.scheduler_cache; some (set_cache c ctx₁))

  -- deleteForeignPod
  unfoldable pub delete_foreign_pod : Pod → Context N → Option (Context N)
  delete_foreign_pod pod ctx = do
    c ← remove_pod pod ctx.scheduler_cache
    some (send (release_foreign (create_release_request_for_foreign_pod pod.uid)) (set_cache c ctx))

  -- DeletePod
  unfoldable pub delete_pod : Pod → Context N → Option (Context N)
  delete_pod pod ctx =
      if get_application_id_from_pod env pod == ""
      then delete_foreign_pod pod ctx
      else delete_yunikorn_pod pod ctx
