-- ===== src/Admission/Patched.antt =====
-- The pod that processPod of pkg/admission/admission_controller.go makes of a pod.
use yunikorn_k8shim.Prelude.{
  String, ◌≡◌, refl, Bool, true, false, not, ◌&&◌, ◌||◌, ◌==◌, if◌then◌else◌, Option, some, List,
  [], ◌∷◌, inl, inr, arith, Bool-cases, subst,
}
use yunikorn_k8shim.Prelude.Dict.{Dict, lookup, insert, lookup-insert}
use yunikorn_k8shim.Prelude.Unique.{Unique, copy_into}
use yunikorn_k8shim.Pod.{Pod}
use yunikorn_k8shim.Task.{get_pod_annotation_value}
use yunikorn_k8shim.Context.Metadata.{Env}
use yunikorn_k8shim.Admission.Caches.{domain_key, is_preempt_self_allowed}
use yunikorn_k8shim.Admission.Defs.{
  update_pod_label, update_pod_annotation, update_scheduler_name, update_labels, into_annotations,
  update_preemption_info, get_patch_for_pod, pod_patch, user_info_annotation,
}
use yunikorn_k8shim.Admission.Requests.{
  AdmissionController, PatchOperation, UserInfoJson, should_label_namespace,
}
use yunikorn_k8shim.Admission.Labels.{
  apply_patch, label_after, lookup-copied, lookup-update_pod_label,
}

module _ {Q : Type 0} (env : Env Q) (json : UserInfoJson) (c : AdmissionController) where
  -- The value of the annotation on preemption, where updatePreemptionInfo sets it
  abbrev pub preemption_value : Pod → String
  preemption_value pod =
      if is_preempt_self_allowed c.pc_cache pod.priority_class_name then "true" else "false"

  abbrev pub sets_preemption : Pod → Bool
  sets_preemption pod =
      let set = get_pod_annotation_value pod (domain_key env "allow-preemption") in
      not (set == "true" || set == "false")

  -- What becomes of an annotation
  abbrev pub annotation_after :
      (with_user : Bool) (user : String) (groups : List String) (namespace : String)
      → Pod
      → String
      → Option String
  annotation_after with_user user groups namespace pod k =
      if should_label_namespace c namespace
        && sets_preemption pod
        && domain_key env "allow-preemption" == k
      then some (preemption_value pod)
      else (if with_user && user_info_annotation env == k
          then some (json.marshal user groups)
          else lookup k pod.annotations)

  -- The pod after the patch
  pub record Patched (with_user : Bool) (user : String) (groups : List String) (namespace : String)
      (pod p' : Pod) : Type 0 where
    pub scheduler : p'.scheduler_name ≡ "yunikorn"
    pub labels :
        (k : String)
        → lookup k p'.labels ≡ (
            if should_label_namespace c namespace
            then label_after env pod namespace k
            else lookup k pod.labels)
    pub annotations :
        (k : String)
        → lookup k p'.annotations ≡ annotation_after with_user user groups namespace pod k
    pub same_uid : p'.uid ≡ pod.uid
    pub same_namespace : p'.namespace ≡ pod.namespace

  -- The patch that the user information makes
  abbrev pub user_patch : Bool → String → List String → Pod → List PatchOperation
  user_patch with_user user groups pod =
      if with_user then get_patch_for_pod env json pod.annotations user groups ∷ [] else []

  module _ (user : String) (groups : List String) (namespace : String) (pod : Pod) where
    abbrev pub result : Bool → Pod
    result with_user =
        apply_patch (pod_patch env c namespace pod (user_patch with_user user groups pod)) pod

    -- A patched pod has all that is not patched from the pod.
    Patched-of_parts :
        (with_user : Bool) (ns ls : Dict String)
        → record pod { labels = ls; annotations = ns; scheduler_name = "yunikorn" }
          ≡ result with_user
        → ((k : String)
            → lookup k ls ≡ (
                if should_label_namespace c namespace
                then label_after env pod namespace k
                else lookup k pod.labels))
        → ((k : String) → lookup k ns ≡ annotation_after with_user user groups namespace pod k)
        → Patched with_user user groups namespace pod (result with_user)
    Patched-of_parts with_user ns ls e labels annotations =
        subst (Patched with_user user groups namespace pod) e (record {
          scheduler = refl;
          labels = labels;
          annotations = annotations;
          same_uid = refl;
          same_namespace = refl;
        })

    module _ (labels_unique : Unique pod.labels) (annotations_unique : Unique pod.annotations) where
      with_info : Dict String
      with_info =
          insert (user_info_annotation env) (json.marshal user groups)
            (copy_into pod.annotations [])

      labels-bare :
          should_label_namespace c namespace ≡ false
          → (k : String)
          → lookup k pod.labels ≡ (
              if should_label_namespace c namespace
              then label_after env pod namespace k
              else lookup k pod.labels)
      labels-bare h k = ground arith

      labels-labelled :
          should_label_namespace c namespace ≡ true
          → (k : String)
          → lookup k (update_pod_label env pod namespace) ≡ (
              if should_label_namespace c namespace
              then label_after env pod namespace k
              else lookup k pod.labels)
      labels-labelled h k = rw h (lookup-update_pod_label env pod namespace k labels_unique)

      lookup-with_info :
          (k : String)
          → lookup k with_info ≡ (
              if user_info_annotation env == k
              then some (json.marshal user groups)
              else lookup k pod.annotations)
      unfolding with_info
      lookup-with_info k = ground (
        arith,
        lookup-insert (user_info_annotation env) (json.marshal user groups) k
            (copy_into pod.annotations []),
        lookup-copied k pod.annotations annotations_unique,
      )

      pub pod_patch-Patched :
          (with_user : Bool) → Patched with_user user groups namespace pod (result with_user)
      unfolding pod_patch update_scheduler_name update_labels update_preemption_info
          into_annotations get_patch_for_pod update_pod_annotation with_info
      pod_patch-Patched true = elim (Bool-cases (should_label_namespace c namespace)) [
        | inr bare ↦
            Patched-of_parts true with_info pod.labels (ground arith) (labels-bare bare)
              (λ k. ground (arith, lookup-with_info k))
        | inl labelled ↦ elim (Bool-cases (sets_preemption pod)) [
          | inr kept ↦
              Patched-of_parts true with_info (update_pod_label env pod namespace) (ground arith)
                (labels-labelled labelled) (λ k. ground (arith, lookup-with_info k))
          | inl sets ↦
              Patched-of_parts true
                (insert (domain_key env "allow-preemption") (preemption_value pod) with_info)
                (update_pod_label env pod namespace) (ground arith) (labels-labelled labelled)
                (λ k. ground (
                  arith,
                  lookup-with_info k,
                  lookup-insert (domain_key env "allow-preemption") (preemption_value pod) k
                      with_info,
                ))
        ]
      ]
      pod_patch-Patched false = elim (Bool-cases (should_label_namespace c namespace)) [
        | inr bare ↦
            Patched-of_parts false pod.annotations pod.labels (ground arith) (labels-bare bare)
              (λ k. ground arith)
        | inl labelled ↦ elim (Bool-cases (sets_preemption pod)) [
          | inr kept ↦
              Patched-of_parts false pod.annotations (update_pod_label env pod namespace)
                (ground arith) (labels-labelled labelled) (λ k. ground arith)
          | inl sets ↦
              Patched-of_parts false
                (insert (domain_key env "allow-preemption") (preemption_value pod)
                  (copy_into pod.annotations []))
                (update_pod_label env pod namespace) (ground arith) (labels-labelled labelled)
                (λ k. ground (
                  arith,
                  lookup-copied k pod.annotations annotations_unique,
                  lookup-insert (domain_key env "allow-preemption") (preemption_value pod) k
                      (copy_into pod.annotations []),
                ))
        ]
      ]
