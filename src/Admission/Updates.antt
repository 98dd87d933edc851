-- ===== src/Admission/Updates.antt =====
-- Which updates of pods processPodUpdate of pkg/admission/admission_controller.go lets through.
use yunikorn_k8shim.Prelude.{String, ◌≡◌, ◌↔◌, true, not, ◌||◌, ◌==◌, inr, arith}
use yunikorn_k8shim.Prelude.Dict.{lookup}
use yunikorn_k8shim.Pod.{Pod}
use yunikorn_k8shim.Context.Metadata.{Env}
use yunikorn_k8shim.Admission.Defs.{
  process_pod_update, text_of, should_process_admission_review, user_info_annotation,
}
use yunikorn_k8shim.Admission.Requests.{
  AdmissionController, AdmissionRequest, admission_response_builder,
}

module _ {Q : Type 0} (env : Env Q) (c : AdmissionController) (req : AdmissionRequest)
    (namespace : String) (old_pod new_pod : Pod) where
  -- An update of a pod is let through exactly if the user information is the same before and after,
  -- or the pod is not looked at: after the update its namespace and labels are such that it is not
  -- processed, or it is labelled as a pod of YuniKorn itself. What is read to pass a pod over is
  -- what the update makes of it.
  pub process_pod_update_iff :
      req.object ≡ inr new_pod
      → req.old_object ≡ inr old_pod
      → ((process_pod_update env c req namespace).allowed ≡ true) ↔ (
          (text_of (lookup (user_info_annotation env) old_pod.annotations)
              == text_of (lookup (user_info_annotation env) new_pod.annotations)
            || not (should_process_admission_review env c namespace new_pod.labels)
            || text_of (lookup "app" new_pod.labels) == "yunikorn")
          ≡ true)
  unfolding process_pod_update admission_response_builder
  process_pod_update_iff n o = (λ h. ground arith, λ h. ground arith)
