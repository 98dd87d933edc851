-- ===== src/Admission/Labels.antt =====
-- What the patch of a pod comes to, and that the shim finds the application of the patched pod.
use yunikorn_k8shim.Prelude.{
  String, ◌≡◌, ◌≢◌, not, ◌&&◌, ◌||◌, ◌==◌, eq_iff, if◌then◌else◌, Option, some, List, [], ◌∷◌,
  arith,
}
use yunikorn_k8shim.Prelude.Dict.{Dict, lookup, insert, lookup-insert}
use yunikorn_k8shim.Prelude.Unique.{Unique, copy_into, lookup-copy_into}
use yunikorn_k8shim.Pod.{Pod}
use yunikorn_k8shim.Task.{get_pod_annotation_value}
use yunikorn_k8shim.Context.Metadata.{
  Env, get_pod_label_value, generate_application_id, named_application_id, or_text,
}
use yunikorn_k8shim.Admission.Caches.{domain_key}
use yunikorn_k8shim.Admission.Defs.{update_pod_label, label_app_id, no_app_id}
use yunikorn_k8shim.Admission.Requests.{PatchOperation, text, entries}

-- One operation of a JSON patch on the three members of a pod that are patched: "add" sets the
-- member, also if there is one.
abbrev pub apply_operation : PatchOperation → Pod → Pod
apply_operation p pod = elim p.value [
  | text s ↦
      if p.op == "add" && p.path == "/spec/schedulerName"
      then record pod { scheduler_name = s }
      else pod
  | entries d ↦
      if p.op == "add" && p.path == "/metadata/labels"
      then record pod { labels = d }
      else (if p.op == "add" && p.path == "/metadata/annotations"
          then record pod { annotations = d }
          else pod)
]

abbrev pub apply_patch : List PatchOperation → Pod → Pod
apply_patch [] pod = pod
apply_patch (p ∷ ps) pod = apply_patch ps (apply_operation p pod)

-- The keys that the patch reads and writes are different texts.
pub record DistinctKeys {Q : Type 0} (env : Env Q) : Type 0 where
  pub id_ne_application_id : domain_key env "app-id" ≢ "applicationId"
  pub id_ne_spark : domain_key env "app-id" ≢ "spark-app-selector"
  pub id_ne_queue : domain_key env "app-id" ≢ "queue"
  pub id_ne_user : domain_key env "app-id" ≢ domain_key env "user.info"
  pub id_ne_preemption : domain_key env "app-id" ≢ domain_key env "allow-preemption"
  pub user_ne_preemption : domain_key env "user.info" ≢ domain_key env "allow-preemption"

pub lookup-copied :
    (k : String) (m : Dict String) → Unique m → lookup k (copy_into m []) ≡ lookup k m
unfolding lookup
lookup-copied k m u = ground (arith, lookup-copy_into k m [] u)

module _ {Q : Type 0} (env : Env Q) where
  -- What updatePodLabel does to the label of a key
  abbrev pub label_after : Pod → String → String → Option String
  label_after pod namespace k =
      let queue = get_pod_label_value pod (domain_key env "queue") in
      let canonical = get_pod_label_value pod (domain_key env "app-id") in
      let id = generate_application_id namespace env.generate_unique_app_ids pod.uid in
      if not (queue == "") && "queue" == k
      then some queue
      else (if no_app_id env pod
          then (if "applicationId" == k || domain_key env "app-id" == k
              then some id
              else lookup k pod.labels)
          else (if not (canonical == "") && "applicationId" == k
              then some canonical
              else lookup k pod.labels))

  lookup-label_app_id :
      (pod : Pod) (namespace k : String) (labels : Dict String)
      → lookup k (label_app_id env pod namespace labels) ≡ (
          let canonical = get_pod_label_value pod (domain_key env "app-id") in
          let id = generate_application_id namespace env.generate_unique_app_ids pod.uid in
          if no_app_id env pod
          then (if "applicationId" == k || domain_key env "app-id" == k
              then some id
              else lookup k labels)
          else (if not (canonical == "") && "applicationId" == k
              then some canonical
              else lookup k labels))
  unfolding label_app_id
  lookup-label_app_id pod namespace k labels =
      let canonical = get_pod_label_value pod (domain_key env "app-id") in
      let id = generate_application_id namespace env.generate_unique_app_ids pod.uid in
      ground (
        arith,
        lookup-insert "applicationId" id k (insert (domain_key env "app-id") id labels),
        lookup-insert (domain_key env "app-id") id k labels,
        lookup-insert "applicationId" canonical k labels,
      )

  pub lookup-update_pod_label :
      (pod : Pod) (namespace k : String)
      → Unique pod.labels
      → lookup k (update_pod_label env pod namespace) ≡ label_after pod namespace k
  unfolding update_pod_label
  lookup-update_pod_label pod namespace k u =
      let queue = get_pod_label_value pod (domain_key env "queue") in
      let labels = label_app_id env pod namespace (copy_into pod.labels []) in
      ground (
        arith,
        lookup-insert "queue" queue k labels,
        lookup-label_app_id pod namespace k (copy_into pod.labels []),
        lookup-copied k pod.labels u,
      )

  module _ (pod p' : Pod) (namespace : String) (d : DistinctKeys env)
      (labels : (k : String) → lookup k p'.labels ≡ label_after pod namespace k) where
    generated : String
    generated = generate_application_id namespace env.generate_unique_app_ids pod.uid

    id-after : get_pod_label_value p' (domain_key env "app-id") ≡ (
        if no_app_id env pod then generated else get_pod_label_value pod (domain_key env "app-id"))
    unfolding get_pod_label_value generated
    id-after = ground (
      arith,
      labels (domain_key env "app-id"),
      d.id_ne_application_id,
      d.id_ne_queue,
      eq_iff "queue" (domain_key env "app-id"),
      eq_iff "applicationId" (domain_key env "app-id"),
      eq_iff (domain_key env "app-id") (domain_key env "app-id"),
    )

    label-after : get_pod_label_value p' "applicationId" ≡ (
        let canonical = get_pod_label_value pod (domain_key env "app-id") in
        if no_app_id env pod
        then generated
        else (if canonical == "" then get_pod_label_value pod "applicationId" else canonical))
    unfolding get_pod_label_value generated
    label-after = ground (arith, labels "applicationId")

    spark-after :
        get_pod_label_value p' "spark-app-selector" ≡ get_pod_label_value pod "spark-app-selector"
    unfolding get_pod_label_value
    spark-after = ground (
      arith,
      labels "spark-app-selector",
      d.id_ne_spark,
      eq_iff (domain_key env "app-id") "spark-app-selector",
    )

-- The chain of the places where an ID may stand, before and after
or_text-after :
    (a b c s id : String)
    → (let e = (a == "") && (s == "") && (c == "") && (b == "") in
        or_text
          (if e then id else a)
          (or_text b (or_text (if e then id else (if a == "" then c else a)) s))
        ≡ or_text (or_text a (or_text b (or_text c s))) id)
or_text-after a b c s id = ground (arith, eq_iff s "", eq_iff id "")

module _ {Q : Type 0} (env : Env Q) where
  -- The labels of a patched pod give it the application that its pod names, and the generated one
  -- if that names none.
  pub named-label_after :
      (pod p' : Pod) (namespace : String)
      → DistinctKeys env
      → ((k : String) → lookup k p'.labels ≡ label_after env pod namespace k)
      → lookup (domain_key env "app-id") p'.annotations
        ≡ lookup (domain_key env "app-id") pod.annotations
      → named_application_id env p'
        ≡ or_text
            (named_application_id env pod)
            (generate_application_id namespace env.generate_unique_app_ids pod.uid)
  unfolding named_application_id generated get_pod_annotation_value
  named-label_after pod p' namespace d labels annotated =
      let id_key = domain_key env "app-id" in
      let id = generate_application_id namespace env.generate_unique_app_ids pod.uid in
      ground (
        arith,
        id-after env pod p' namespace d labels,
        label-after env pod p' namespace d labels,
        spark-after env pod p' namespace d labels,
        or_text-after (get_pod_label_value pod id_key) (get_pod_annotation_value pod id_key)
            (get_pod_label_value pod "applicationId") (get_pod_label_value pod "spark-app-selector")
            id,
      )
