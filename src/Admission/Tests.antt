-- ===== src/Admission/Tests.antt =====
-- An admission controller that labels every namespace, and its theorems at a pod and a workload.
use yunikorn_k8shim.Prelude.{
  ℕ, ◌≡◌, ◌↔◌, refl, true, false, not, ◌||◌, ◌==◌, eq_iff, none, some, [], ◌∷◌, inl, inr, arith,
}
use yunikorn_k8shim.Prelude.Dict.{lookup, insert}
use yunikorn_k8shim.Prelude.Unique.{copy_into}
use yunikorn_k8shim.Pod.{Pod, pod_pending}
use yunikorn_k8shim.SchedulerCache.Plain.{pod_on}
use yunikorn_k8shim.Context.Metadata.{Env}
use yunikorn_k8shim.Admission.Defs.{
  text_of, process_pod, process_pod_update, should_process_admission_review, user_info_annotation,
}
use yunikorn_k8shim.Admission.Requests.{
  AdmissionController, AdmissionRequest, UserInfoJson, create, update, entries,
  admission_response_builder, should_process_namespace, should_label_namespace,
}
use yunikorn_k8shim.Admission.Caches.{enable_yunikorn_of, generate_app_id_of}
use yunikorn_k8shim.Admission.Labels.{DistinctKeys}
use yunikorn_k8shim.Admission.Pods.{Answered, process_pod_lem}
use yunikorn_k8shim.Admission.Updates.{process_pod_update_iff}
use yunikorn_k8shim.Admission.Mutate.{
  Template, annotations_path, process_workload, should_process_workload,
}
use yunikorn_k8shim.Admission.Identity.{KeepsUser, patched_template, process_pod-process_workload}

abbrev env : Env ℕ
env = record {
  domain_yunikorn = "yunikorn.apache.org/";
  domain_yunikorn_internal = "yunikorn.apache.org/";
  generate_unique_app_ids = true;
  disable_gang_scheduling = false;
  unmarshal = λ s. none;
}

env-DistinctKeys : DistinctKeys env
env-DistinctKeys = record {
  id_ne_application_id = λ e. ground (arith, eq_iff "yunikorn.apache.org/app-id" "applicationId");
  id_ne_spark = λ e. ground (arith, eq_iff "yunikorn.apache.org/app-id" "spark-app-selector");
  id_ne_queue = λ e. ground (arith, eq_iff "yunikorn.apache.org/app-id" "queue");
  id_ne_user =
      λ e. ground (arith, eq_iff "yunikorn.apache.org/app-id" "yunikorn.apache.org/user.info");
  id_ne_preemption = λ e.
      ground (arith, eq_iff "yunikorn.apache.org/app-id" "yunikorn.apache.org/allow-preemption");
  user_ne_preemption = λ e.
      ground (arith, eq_iff "yunikorn.apache.org/user.info" "yunikorn.apache.org/allow-preemption");
}

abbrev json : UserInfoJson
json = record {
  marshal = λ user groups. user;
  unmarshal_error = λ s. none;
  not_allowed = λ user groups. "not allowed";
}

abbrev controller : AdmissionController
controller = record {
  conf = record {
    process_namespaces = [];
    bypass_namespaces = (λ n. n == "kube-system") ∷ [];
    label_namespaces = [];
    no_label_namespaces = [];
    system_users = (λ u. u == "system:job-controller") ∷ [];
    external_users = [];
    external_groups = [];
    trust_controllers = true;
    bypass_auth = false;
  };
  pc_cache = [];
  ns_cache = [];
}

abbrev plain_pod : Pod
plain_pod = pod_on "worker" "" pod_pending

abbrev request : AdmissionRequest
request = record {
  uid = "request-1";
  namespace = "default";
  operation = create;
  username = "alice";
  groups = [];
  object = inr plain_pod;
  old_object = inl "none";
}

process_pod_lem_example :
    Answered env json controller request "default" plain_pod
      (process_pod env json controller request "default")
process_pod_lem_example =
    process_pod_lem env json controller request "default" plain_pod env-DistinctKeys tt tt refl

-- The pod as another user would have it, and an update that hides this
abbrev forged : Pod
forged = record plain_pod {
  annotations = ("yunikorn.apache.org/user.info", "bob") ∷ [];
  labels = ("app", "yunikorn") ∷ [];
}

abbrev forging : AdmissionRequest
forging = record request { operation = update; object = inr forged; old_object = inr plain_pod }

process_pod_update_iff_example :
    ((process_pod_update env controller forging "default").allowed ≡ true) ↔ (
      (text_of (lookup (user_info_annotation env) plain_pod.annotations)
          == text_of (lookup (user_info_annotation env) forged.annotations)
        || not (should_process_admission_review env controller "default" forged.labels)
        || text_of (lookup "app" forged.labels) == "yunikorn")
      ≡ true)
process_pod_update_iff_example =
    process_pod_update_iff env controller forging "default" plain_pod forged refl refl

-- The update that changes the user is let through.
forged_update : (process_pod_update env controller forging "default").allowed ≡ true
unfolding process_pod_update admission_response_builder lookup
forged_update = refl

abbrev template : Template
template = record { annotations = []; labels = [] }

abbrev of_job : Pod
of_job = record plain_pod { annotations = ("yunikorn.apache.org/user.info", "alice") ∷ [] }

abbrev job_request : AdmissionRequest
job_request = record request { username = "system:job-controller"; object = inr of_job }

process_pod-process_workload_example :
    (process_workload env json controller request "Job" (inr template) "default"
      ≡ admission_response_builder "request-1" true "" (
          some (
            record {
              op = "add";
              path = annotations_path "Job";
              value = entries (patched_template env json controller request template);
            }
            ∷ [])))
    × KeepsUser env json controller job_request "default" of_job "alice"
unfolding should_process_workload should_process_admission_review should_process_namespace
    should_label_namespace enable_yunikorn_of generate_app_id_of lookup insert copy_into
process_pod-process_workload_example =
    process_pod-process_workload env json controller request job_request "Job" "default" template
      of_job env-DistinctKeys refl refl refl refl refl refl refl refl refl tt (refl, tt) refl
