-- ===== src/Admission/Mutate.antt =====
-- mutate of pkg/admission/admission_controller.go, with processWorkload on top of
-- pkg/admission/metadata: a workload is what extract.go reads of the template of its pods.
use yunikorn_k8shim.Prelude.{
  String, Bool, true, false, not, ◌&&◌, ◌||◌, ◌==◌, if◌then◌else◌, Option, none, some, List, [],
  ◌∷◌, ◌⊎◌, inl, inr, member,
}
use yunikorn_k8shim.Prelude.Dict.{Dict, lookup, insert}
use yunikorn_k8shim.Prelude.Unique.{copy_into}
use yunikorn_k8shim.Context.Metadata.{Env}
use yunikorn_k8shim.Admission.Defs.{
  should_process_admission_review, check_user_info_annotation, user_info_annotation, process_pod,
  process_pod_update,
}
use yunikorn_k8shim.Admission.Requests.{
  AdmissionConf, AdmissionController, AdmissionRequest, AdmissionResponse, PatchOperation, entries,
  UserInfoJson, update, admission_response_builder, matches,
}

-- extractResult, without the path
pub record Template : Type 0 where
  pub annotations : Dict String
  pub labels : Dict String

-- The kinds of the map extractors
abbrev pub is_workload : String → Bool
is_workload kind =
    member kind ("Deployment" ∷ "DaemonSet" ∷ "StatefulSet" ∷ "ReplicaSet" ∷ "Job" ∷ "CronJob" ∷ [])

-- The path of extractResult
abbrev pub annotations_path : String → String
annotations_path kind =
    if kind == "CronJob"
    then "/spec/jobTemplate/spec/template/metadata/annotations"
    else "/spec/template/metadata/annotations"

-- shouldProcessWorkload
unfoldable pub should_process_workload : AdmissionConf → String → String → Bool
should_process_workload conf kind user =
    not (kind == "ReplicaSet" && matches conf.system_users user)

module _ {Q : Type 0} (env : Env Q) (json : UserInfoJson) (c : AdmissionController) where
  -- getPatchOperation, for a workload
  unfoldable pub get_patch_operation : Dict String → String → String → List String → PatchOperation
  get_patch_operation annotations path user groups = record {
    op = "add";
    path = path;
    value =
        entries
          (insert (user_info_annotation env) (json.marshal user groups) (copy_into annotations []));
  }

  -- processWorkload. The template is the text of the error if the object cannot be read.
  unfoldable pub process_workload :
      AdmissionRequest → String → String ⊎ Template → String → AdmissionResponse
  process_workload req kind template namespace =
      let pass = admission_response_builder req.uid true "" none in
      if not (should_process_workload c.conf kind req.username) || not (is_workload kind)
      then pass
      else (elim template [
        | inl error ↦ admission_response_builder req.uid false error none
        | inr t ↦
            let (failure, user_info_set) =
              check_user_info_annotation env json c.conf
                (lookup (user_info_annotation env) t.annotations) req.username req.groups in
            if not (should_process_admission_review env c namespace t.labels)
            then pass
            else (elim failure [
              | some error ↦ admission_response_builder req.uid false error none
              | none ↦
                  if not user_info_set && not c.conf.bypass_auth
                  then admission_response_builder req.uid true "" (
                      some (
                        get_patch_operation t.annotations (annotations_path kind) req.username
                          req.groups
                        ∷ []))
                  else pass
            ])
      ])

  -- mutate. An empty request is none; the kind and the template come with the request.
  unfoldable pub mutate : Option AdmissionRequest → String → String ⊎ Template → AdmissionResponse
  mutate none kind template = admission_response_builder "" false "" none
  mutate (some req) kind template =
      let namespace = if req.namespace == "" then "default" else req.namespace in
      elim req.operation [
        | update ↦
            if kind == "Pod"
            then process_pod_update env c req namespace
            else admission_response_builder req.uid true "" none
        | _ ↦
            if kind == "Pod"
            then process_pod env json c req namespace
            else process_workload req kind template namespace
      ]
