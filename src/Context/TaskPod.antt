-- ===== src/Context/TaskPod.antt =====
-- SetTaskPod of pkg/cache/task.go, as updateYuniKornPod of pkg/cache/context.go calls it.
use yunikorn_k8shim.Prelude.{
  String, ◌≡◌, false, if◌then◌else◌, Option, some, [], ◌∷◌, ◌++◌, ◌==◌, arith, eq_iff, append-nil,
}
use yunikorn_k8shim.Prelude.Dict.{lookup, insert, lookup-insert}
use yunikorn_k8shim.Pod.{Pod}
use yunikorn_k8shim.Resource.{Resource, equals}
use yunikorn_k8shim.Task.{Task, allocation_for_task}
use yunikorn_k8shim.Context.Defs.{
  App, Context, update_allocation, get_application, get_task, set_task_pod, update_task_pod,
}

module _ (pod_resource : Pod → Option Resource) (pod : Pod) where
  -- The task with the new pod, and with the resources of that where they differ.
  abbrev with_pod : Task → Task
  with_pod t = record t {
    pod = pod;
    resource = if equals false t.resource (pod_resource pod) then t.resource else pod_resource pod;
  }

  -- After the update of a pod that has a task: this task has the new pod, and the resources of
  -- that unless its own were equal to them; another task is as it was; and the core is sent the new
  -- allocation of the task exactly if the resources differ.
  update_task_pod_lem :
      {N : Type 0} (app_id : String) (app : App) (t : Task) (ctx : Context N)
      → get_application app_id ctx ≡ some app
      → lookup pod.uid app.application.task_map ≡ some t
      → let after = update_task_pod pod_resource app_id pod ctx in
        ((a k : String)
          → get_task a k after ≡ (
              if app_id == a
              then (if pod.uid == k then some (with_pod t) else get_task a k ctx)
              else get_task a k ctx))
        × (after.messages
            ≡ ctx.messages
              ++ (if equals false t.resource (pod_resource pod)
                  then []
                  else update_allocation (allocation_for_task (with_pod t)) ∷ []))
  unfolding update_task_pod set_task_pod get_task
  update_task_pod_lem app_id app t ctx h l =
      let app' : App = record app {
        application = record app.application {
          task_map = insert pod.uid (with_pod t) app.application.task_map;
        };
      } in
      (
        λ a k. ground (
          arith,
          eq_iff app_id a,
          lookup-insert app_id app' a ctx.applications,
          lookup-insert pod.uid (with_pod t) k app.application.task_map,
        ),
        ground (arith, append-nil ctx.messages),
      )
