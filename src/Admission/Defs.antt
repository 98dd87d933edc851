-- ===== src/Admission/Defs.antt =====
-- The admission of pods: pkg/admission/admission_controller.go, pkg/admission/util.go and
-- pkg/admission/metadata/usergroup.go. A regular expression is the test that MatchString makes.
use yunikorn_k8shim.Prelude.{
  String, Bool, true, false, not, ◌&&◌, ◌||◌, ◌==◌, if◌then◌else◌, Option, none, some, List, [],
  ◌∷◌, ◌++◌, inl, inr,
}
use yunikorn_k8shim.Prelude.Dict.{Dict, lookup, insert}
use yunikorn_k8shim.Prelude.Unique.{copy_into}
use yunikorn_k8shim.Pod.{Pod}
use yunikorn_k8shim.Task.{get_pod_annotation_value}
use yunikorn_k8shim.Context.Metadata.{Env, get_pod_label_value, generate_application_id}
use yunikorn_k8shim.Admission.Caches.{PriorityClassCache, domain_key, is_preempt_self_allowed}
use yunikorn_k8shim.Admission.Requests.{
  AdmissionConf, AdmissionController, AdmissionRequest, AdmissionResponse, PatchOperation,
  UserInfoJson, admission_response_builder, entries, is_annotation_allowed, should_label_namespace,
  should_process_namespace, text,
}

-- A key of a map that is read as a text
abbrev pub text_of : Option String → String
text_of none = ""
text_of (some s) = s

module _ {Q : Type 0} (env : Env Q) where
  abbrev pub user_info_annotation : String
  user_info_annotation = domain_key env "user.info"

  -- shouldProcessAdmissionReview
  unfoldable pub should_process_admission_review : AdmissionController → String → Dict String → Bool
  should_process_admission_review c namespace labels =
      should_process_namespace c namespace
      && (not (text_of (lookup (domain_key env "app-id") labels) == "")
          || not (text_of (lookup "applicationId" labels) == "")
          || not (text_of (lookup "spark-app-selector" labels) == "")
          || should_label_namespace c namespace)

  -- The application IDs that updatePodLabel looks for are all empty.
  abbrev pub no_app_id : Pod → Bool
  no_app_id pod =
      (get_pod_label_value pod (domain_key env "app-id") == "")
      && (get_pod_label_value pod "spark-app-selector" == "")
      && (get_pod_label_value pod "applicationId" == "")
      && (get_pod_annotation_value pod (domain_key env "app-id") == "")

  -- The labels of updatePodLabel before the label of the queue
  unfoldable pub label_app_id : Pod → String → Dict String → Dict String
  label_app_id pod namespace labels =
      let canonical = get_pod_label_value pod (domain_key env "app-id") in
      let id = generate_application_id namespace env.generate_unique_app_ids pod.uid in
      if no_app_id pod
      then insert "applicationId" id (insert (domain_key env "app-id") id labels)
      else (if canonical == "" then labels else insert "applicationId" canonical labels)

  -- updatePodLabel
  unfoldable pub update_pod_label : Pod → String → Dict String
  update_pod_label pod namespace =
      let queue = get_pod_label_value pod (domain_key env "queue") in
      let labels = label_app_id pod namespace (copy_into pod.labels []) in
      if queue == "" then labels else insert "queue" queue labels

  -- updatePodAnnotation
  unfoldable pub update_pod_annotation : Pod → String → String → Dict String
  update_pod_annotation pod key value = insert key value (copy_into pod.annotations [])

  -- updateSchedulerName
  unfoldable pub update_scheduler_name : List PatchOperation → List PatchOperation
  update_scheduler_name patch =
      patch ++ record { op = "add"; path = "/spec/schedulerName"; value = text "yunikorn" } ∷ []

  -- updateLabels
  unfoldable pub update_labels : String → Pod → List PatchOperation → List PatchOperation
  update_labels namespace pod patch =
      patch
      ++ record {
        op = "add";
        path = "/metadata/labels";
        value = entries (update_pod_label pod namespace);
      }
        ∷ []

  -- The first patch of the annotations gets the entry, in the map that it holds; `none` if there
  -- is no such patch.
  unfoldable pub into_annotations :
      String → String → List PatchOperation → Option (List PatchOperation)
  into_annotations key value [] = none
  into_annotations key value (p ∷ ps) =
      let rest = into_annotations key value ps in
      let skipped : Option (List PatchOperation) = elim rest [
        | none ↦ none
        | some qs ↦ some (p ∷ qs)
      ] in
      if p.op == "add" && p.path == "/metadata/annotations"
      then (elim p.value [
        | entries annotations ↦
            some (record p { value = entries (insert key value annotations) } ∷ ps)
        | text _ ↦ skipped
      ])
      else skipped

  -- updatePreemptionInfo
  unfoldable pub update_preemption_info :
      PriorityClassCache → Pod → List PatchOperation → List PatchOperation
  update_preemption_info cache pod patch =
      let key = domain_key env "allow-preemption" in
      let set = get_pod_annotation_value pod key in
      let value =
        if is_preempt_self_allowed cache pod.priority_class_name then "true" else "false" in
      if set == "true" || set == "false" then patch else (elim (into_annotations key value patch) [
        | some patched ↦ patched
        | none ↦
            patch
            ++ record {
              op = "add";
              path = "/metadata/annotations";
              value = entries (update_pod_annotation pod key value);
            }
              ∷ []
      ])

  -- GetPatchForPod
  unfoldable pub get_patch_for_pod :
      UserInfoJson → Dict String → String → List String → PatchOperation
  get_patch_for_pod json annotations user groups = record {
    op = "add";
    path = "/metadata/annotations";
    value =
        entries (insert user_info_annotation (json.marshal user groups) (copy_into annotations []));
  }

  -- checkUserInfoAnnotation: the text of a failure, and whether the annotation is set
  unfoldable pub check_user_info_annotation :
      UserInfoJson → AdmissionConf → Option String → String → List String → Option String × Bool
  check_user_info_annotation json conf none user groups = (none, false)
  check_user_info_annotation json conf (some annotation) user groups =
      if conf.bypass_auth
      then (none, true)
      else (if is_annotation_allowed conf user groups
          then (json.unmarshal_error annotation, true)
          else (some (json.not_allowed user groups), true))

  -- The patch of processPod, for a pod that is not passed over
  unfoldable pub pod_patch :
      AdmissionController → String → Pod → List PatchOperation → List PatchOperation
  pod_patch c namespace pod patch =
      let named = update_scheduler_name patch in
      if should_label_namespace c namespace
      then update_preemption_info c.pc_cache pod (update_labels namespace pod named)
      else named

  -- processPod
  unfoldable pub process_pod :
      UserInfoJson → AdmissionController → AdmissionRequest → String → AdmissionResponse
  process_pod json c req namespace = elim req.object [
    | inl error ↦ admission_response_builder req.uid false error none
    | inr pod ↦
        let (failure, user_info_set) =
          check_user_info_annotation json c.conf (lookup user_info_annotation pod.annotations)
            req.username req.groups in
        let patch =
          if not user_info_set && not c.conf.bypass_auth
          then get_patch_for_pod json pod.annotations req.username req.groups ∷ []
          else [] in
        elim failure [
          | some error ↦ admission_response_builder req.uid false error none
          | none ↦
              if get_pod_label_value pod "app" == "yunikorn"
              then admission_response_builder req.uid true "" none
              else (if should_process_namespace c namespace
                  then admission_response_builder req.uid true ""
                      (some (pod_patch c namespace pod patch))
                  else admission_response_builder req.uid true "" none)
        ]
  ]

  -- processPodUpdate
  unfoldable pub process_pod_update :
      AdmissionController → AdmissionRequest → String → AdmissionResponse
  process_pod_update c req namespace = elim req.object [
    | inl error ↦ admission_response_builder req.uid false error none
    | inr new_pod ↦ elim req.old_object [
      | inl error ↦ admission_response_builder req.uid false error none
      | inr old_pod ↦
          if text_of (lookup "app" new_pod.labels) == "yunikorn"
          then admission_response_builder req.uid true "" none
          else (if should_process_admission_review c namespace new_pod.labels
              then (if text_of (lookup user_info_annotation old_pod.annotations)
                    == text_of (lookup user_info_annotation new_pod.annotations)
                  then admission_response_builder req.uid true "" none
                  else admission_response_builder req.uid false
                      "user info annotation change is not allowed" none)
              else admission_response_builder req.uid true "" none)
    ]
  ]
