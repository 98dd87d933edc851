-- ===== src/Admission/Pods.antt =====
-- The answer of processPod of pkg/admission/admission_controller.go to every pod.
use yunikorn_k8shim.Prelude.{
  String, ◌≡◌, refl, ap, ◌∙◌, ◌⊎◌, Bool, true, false, not, ◌&&◌, ◌||◌, ◌==◌, if◌then◌else◌, Option,
  none, some, List, inl, inr, arith, Bool-cases, eq_iff,
}
use yunikorn_k8shim.Prelude.Dict.{lookup}
use yunikorn_k8shim.Prelude.Unique.{Unique}
use yunikorn_k8shim.Pod.{Pod}
use yunikorn_k8shim.Task.{get_pod_annotation_value}
use yunikorn_k8shim.Context.Metadata.{
  Env, get_pod_label_value, generate_application_id, named_application_id, or_text, replace_suffix,
  get_application_id_from_pod,
}
use yunikorn_k8shim.Admission.Caches.{domain_key}
use yunikorn_k8shim.Admission.Defs.{
  check_user_info_annotation, pod_patch, process_pod, user_info_annotation,
}
use yunikorn_k8shim.Admission.Requests.{
  AdmissionController, AdmissionRequest, AdmissionResponse, PatchOperation, UserInfoJson,
  admission_response_builder, should_process_namespace, should_label_namespace,
  is_annotation_allowed,
}
use yunikorn_k8shim.Admission.Labels.{apply_patch, DistinctKeys, label_after, named-label_after}
use yunikorn_k8shim.Admission.Patched.{Patched, user_patch, pod_patch-Patched}

module _ {Q : Type 0} (env : Env Q) (json : UserInfoJson) (c : AdmissionController)
    (req : AdmissionRequest) (namespace : String) (pod : Pod) where
  -- The user information on the pod
  abbrev pub submitted : Option String
  submitted = lookup (user_info_annotation env) pod.annotations

  -- The submitter may give the user information that is on the pod, and it is read without error.
  abbrev pub may_submit : Bool
  may_submit = c.conf.bypass_auth || (elim submitted [
    | none ↦ true
    | some annotation ↦
        is_annotation_allowed c.conf req.username req.groups
        && (elim (json.unmarshal_error annotation) [ none ↦ true | some _ ↦ false ])
  ])

  -- The controller adds the user information of the submitter.
  abbrev pub adds_user : Bool
  adds_user = not c.conf.bypass_auth && (elim submitted [ none ↦ true | some _ ↦ false ])

  -- The application ID on the patched pod: the one that the pod named, or else the generated one.
  abbrev pub id_after : String
  id_after = or_text (named_application_id env pod) (
      if should_label_namespace c namespace
      then generate_application_id namespace env.generate_unique_app_ids pod.uid
      else "")

  -- The pod that the patch makes is for YuniKorn, with labels and annotations as described. The
  -- shim reads it once it has its UID: the ID on it then gets the UID in place of a suffix
  -- -uniqueautogen, and where there is none the shim generates one.
  pub record Admitted (ops : List PatchOperation) : Type 0 where
    pub patched :
        Patched env json c adds_user req.username req.groups namespace pod (apply_patch ops pod)
    pub application : named_application_id env (apply_patch ops pod) ≡ id_after
    pub read_by_shim :
        (uid : String)
        → get_application_id_from_pod env (record (apply_patch ops pod) { uid = uid })
          ≡ or_text
              (replace_suffix id_after uid)
              (generate_application_id pod.namespace env.generate_unique_app_ids uid)

  abbrev pub Answered : AdmissionResponse → Type 0
  Answered r =
      ((r.allowed ≡ false) × (may_submit ≡ false))
      ⊎ ((r.allowed ≡ true)
          × (may_submit ≡ true)
          × (((r.patch ≡ none)
                × ((get_pod_label_value pod "app" == "yunikorn"
                      || not (should_process_namespace c namespace))
                    ≡ true))
              ⊎ ((ops : List PatchOperation) × (r.patch ≡ some ops)
                  × (should_process_namespace c namespace ≡ true)
                  × Admitted ops)))

  same_id_annotation :
      (p' : Pod)
      → DistinctKeys env
      → Patched env json c adds_user req.username req.groups namespace pod p'
      → lookup (domain_key env "app-id") p'.annotations
        ≡ lookup (domain_key env "app-id") pod.annotations
  same_id_annotation p' d h = ground (
    arith,
    h.annotations (domain_key env "app-id"),
    d.id_ne_user,
    d.id_ne_preemption,
    eq_iff (domain_key env "allow-preemption") (domain_key env "app-id"),
    eq_iff (user_info_annotation env) (domain_key env "app-id"),
  )

  same_label :
      (p' : Pod) (k : String)
      → should_label_namespace c namespace ≡ false
      → Patched env json c adds_user req.username req.groups namespace pod p'
      → get_pod_label_value p' k ≡ get_pod_label_value pod k
  unfolding get_pod_label_value
  same_label p' k bare h = ground (arith, h.labels k)

  named-Patched :
      (p' : Pod)
      → DistinctKeys env
      → Patched env json c adds_user req.username req.groups namespace pod p'
      → named_application_id env p' ≡ id_after
  unfolding named_application_id get_pod_annotation_value
  named-Patched p' d h = elim (Bool-cases (should_label_namespace c namespace)) [
    | inl labelled ↦
        let l : (k : String) → lookup k p'.labels ≡ label_after env pod namespace k =
          λ k. ground (arith, h.labels k) in
        ground (arith, named-label_after env pod p' namespace d l (same_id_annotation p' d h))
    | inr bare ↦ ground (
      arith,
      same_id_annotation p' d h,
      same_label p' (domain_key env "app-id") bare h,
      same_label p' "applicationId" bare h,
      same_label p' "spark-app-selector" bare h,
      eq_iff (named_application_id env pod) "",
    )
  ]

  named-with_uid :
      (p' : Pod) (uid : String)
      → named_application_id env (record p' { uid = uid }) ≡ named_application_id env p'
  unfolding named_application_id get_pod_label_value get_pod_annotation_value
  named-with_uid p' uid = refl

  if_yunikorn :
      (name : String)
      → name ≡ "yunikorn"
      → (s : String) → (if name == "yunikorn" then s else "") ≡ s
  if_yunikorn name e s = ground (arith, eq_iff name "yunikorn")

  read-Patched :
      (p' : Pod)
      → DistinctKeys env
      → Patched env json c adds_user req.username req.groups namespace pod p'
      → (uid : String)
      → get_application_id_from_pod env (record p' { uid = uid })
        ≡ or_text
            (replace_suffix id_after uid)
            (generate_application_id pod.namespace env.generate_unique_app_ids uid)
  unfolding get_application_id_from_pod
  read-Patched p' d h uid =
      let named = named-with_uid p' uid ∙ named-Patched p' d h in
      (if_yunikorn p'.scheduler_name h.scheduler _)
      ∙ (ap
          (λ n.
            or_text (replace_suffix n uid)
              (generate_application_id p'.namespace env.generate_unique_app_ids uid))
          named)
      ∙ ap
          (λ n.
            or_text (replace_suffix id_after uid)
              (generate_application_id n env.generate_unique_app_ids uid))
          h.same_namespace

  -- processPod, on a request for a pod whose maps have each key once. The pod is refused exactly if
  -- it comes with user information that its submitter may not give or that is not valid. Else it is
  -- let through unchanged if it is a pod of YuniKorn itself or its namespace is not processed, and
  -- otherwise with a patch. The patched pod is for YuniKorn; of its annotations only those for the
  -- user and for preemption may have changed, and of its labels only those for the application and
  -- the queue; the user is the submitter, unless the submitter may give another. The application ID
  -- on it is the one that the pod named, and if it named none, in namespaces that are labelled, the
  -- one generated at admission. From the created pod, whatever its UID, GetApplicationIDFromPod
  -- reads this ID with the UID in place of a suffix -uniqueautogen, and if there is no ID on it the
  -- one generated from the UID.
  pub process_pod_lem :
      DistinctKeys env
      → Unique pod.labels
      → Unique pod.annotations
      → req.object ≡ inr pod
      → Answered (process_pod env json c req namespace)
  unfolding process_pod check_user_info_annotation admission_response_builder
  process_pod_lem d lu au o =
      let ops =
        pod_patch env c namespace pod
          (user_patch env json c adds_user req.username req.groups pod) in
      let patched =
        pod_patch-Patched env json c req.username req.groups namespace pod lu au adds_user in
      let admitted : Admitted ops = record {
        patched = patched;
        application = named-Patched _ d patched;
        read_by_shim = read-Patched _ d patched;
      } in
      elim (Bool-cases may_submit) [
        | inr refused ↦ inl (ground arith, refused)
        | inl allowed ↦
            elim (Bool-cases (
              get_pod_label_value pod "app" == "yunikorn"
              || not (should_process_namespace c namespace))) [
                | inl passed ↦ inr (ground arith, allowed, inl (ground arith, passed))
                | inr taken ↦
                    inr (ground arith, allowed, inr (ops, ground arith, ground arith, admitted))
              ]
      ]
