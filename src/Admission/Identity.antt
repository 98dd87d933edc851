-- ===== src/Admission/Identity.antt =====
-- The user of a workload is the user of its pods: processWorkload and processPod of
-- pkg/admission/admission_controller.go together.
use yunikorn_k8shim.Prelude.{
  String, ◌≡◌, ◌⊎◌, true, false, eq_iff, none, some, List, [], ◌∷◌, inl, inr, arith, ◌∙◌,
}
use yunikorn_k8shim.Prelude.Dict.{Dict, lookup, insert, lookup-insert_self}
use yunikorn_k8shim.Prelude.Unique.{Unique, copy_into}
use yunikorn_k8shim.Pod.{Pod}
use yunikorn_k8shim.Context.Metadata.{Env}
use yunikorn_k8shim.Admission.Caches.{domain_key}
use yunikorn_k8shim.Admission.Defs.{
  check_user_info_annotation, process_pod, should_process_admission_review, user_info_annotation,
}
use yunikorn_k8shim.Admission.Requests.{
  AdmissionController, AdmissionRequest, PatchOperation, UserInfoJson, entries, matches,
  admission_response_builder, is_annotation_allowed,
}
use yunikorn_k8shim.Admission.Labels.{DistinctKeys, apply_patch}
use yunikorn_k8shim.Admission.Pods.{may_submit, process_pod_lem}
use yunikorn_k8shim.Admission.Mutate.{
  Template, is_workload, annotations_path, should_process_workload, get_patch_operation,
  process_workload,
}

module _ {Q : Type 0} (env : Env Q) (json : UserInfoJson) (c : AdmissionController) where
  -- The annotations that the patch of a workload gives to the template of its pods
  abbrev pub patched_template : AdmissionRequest → Template → Dict String
  patched_template req t =
      insert (user_info_annotation env) (json.marshal req.username req.groups)
        (copy_into t.annotations [])

  -- The answer to a pod that comes with user information that stays on it
  abbrev pub KeepsUser : AdmissionRequest → String → Pod → String → Type 0
  KeepsUser req namespace pod info =
      let r = process_pod env json c req namespace in
      (r.allowed ≡ true)
      × ((r.patch ≡ none)
          ⊎ ((ops : List PatchOperation) × (r.patch ≡ some ops)
              × (lookup (user_info_annotation env) (apply_patch ops pod).annotations ≡ some info)))

  process_workload-patch :
      (req : AdmissionRequest) (kind namespace : String) (t : Template)
      → should_process_workload c.conf kind req.username ≡ true
      → is_workload kind ≡ true
      → should_process_admission_review env c namespace t.labels ≡ true
      → c.conf.bypass_auth ≡ false
      → lookup (user_info_annotation env) t.annotations ≡ none
      → process_workload env json c req kind (inr t) namespace
        ≡ admission_response_builder req.uid true "" (
            some (
              record {
                op = "add";
                path = annotations_path kind;
                value = entries (patched_template req t);
              }
              ∷ []))
  unfolding process_workload get_patch_operation check_user_info_annotation
  process_workload-patch req kind namespace t w k s b n = ground arith

  pod-KeepsUser :
      (req : AdmissionRequest) (namespace info : String) (pod : Pod)
      → DistinctKeys env
      → Unique pod.labels
      → Unique pod.annotations
      → req.object ≡ inr pod
      → lookup (user_info_annotation env) pod.annotations ≡ some info
      → json.unmarshal_error info ≡ none
      → is_annotation_allowed c.conf req.username req.groups ≡ true
      → KeepsUser req namespace pod info
  pod-KeepsUser req namespace info pod d lu au o has valid allowed =
      let may : may_submit env json c req namespace pod ≡ true = ground arith in
      elim (process_pod_lem env json c req namespace pod d lu au o) [
        | inl (_, refused) ↦ absurd (ground arith)
        | inr (a, _, inl (unpatched, _)) ↦ (a, inl unpatched)
        | inr (a, _, inr (ops, patched, _, admitted)) ↦ (
          a,
          inr (
            ops,
            patched,
            ground (
              arith,
              admitted.patched.annotations (user_info_annotation env),
              d.user_ne_preemption,
              eq_iff (domain_key env "allow-preemption") (user_info_annotation env),
            ),
          ),
        )
      ]

  -- A workload that its submitter sends without user information, in a namespace that is processed,
  -- where users are checked. Its patch gives the template of its pods the submitter's user
  -- information. A pod with that annotation, sent by a controller of the cluster that is trusted,
  -- is let through, and if it is patched the user information on it stays the submitter's.
  pub process_pod-process_workload :
      (req pod_req : AdmissionRequest) (kind namespace : String) (t : Template) (pod : Pod)
      → DistinctKeys env
      → should_process_workload c.conf kind req.username ≡ true
      → is_workload kind ≡ true
      → should_process_admission_review env c namespace t.labels ≡ true
      → c.conf.bypass_auth ≡ false
      → lookup (user_info_annotation env) t.annotations ≡ none
      → json.unmarshal_error (json.marshal req.username req.groups) ≡ none
      → c.conf.trust_controllers ≡ true
      → matches c.conf.system_users pod_req.username ≡ true
      → pod_req.object ≡ inr pod
      → Unique pod.labels
      → Unique pod.annotations
      → lookup (user_info_annotation env) pod.annotations
        ≡ lookup (user_info_annotation env) (patched_template req t)
      → (process_workload env json c req kind (inr t) namespace
          ≡ admission_response_builder req.uid true "" (
              some (
                record {
                  op = "add";
                  path = annotations_path kind;
                  value = entries (patched_template req t);
                }
                ∷ [])))
        × KeepsUser pod_req namespace pod (json.marshal req.username req.groups)
  unfolding is_annotation_allowed
  process_pod-process_workload req pod_req kind namespace t pod d w k s b n j trust sys o lu au
        same =
      let info = json.marshal req.username req.groups in
      let set : lookup (user_info_annotation env) (patched_template req t) ≡ some info =
        lookup-insert_self (user_info_annotation env) info _ in
      let may : is_annotation_allowed c.conf pod_req.username pod_req.groups ≡ true =
        ground (arith, trust, sys) in
      (
        process_workload-patch req kind namespace t w k s b n,
        pod-KeepsUser pod_req namespace info pod d lu au o (same ∙ set) j may,
      )
