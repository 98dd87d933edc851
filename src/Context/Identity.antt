-- ===== src/Context/Identity.antt =====
-- Which pods have an application: those of the scheduler.
use Prim.Native.String.{◌++◌, count}
use text.Mathlib.TextLemmas.{append-eq-nil_iff, append-ne-nil_of_right_ne-nil}
use yunikorn_k8shim.Prelude.{
  ◌≤◌, String, ◌≡◌, ◌≢◌, refl, Bool, false, ◌==◌, none, some, eq_iff, arith, String-cases, ◌⊎◌, inl,
  inr,
}
use yunikorn_k8shim.Prelude.Text.{truncate, truncate-ne, count-truncate}
use yunikorn_k8shim.Pod.{Pod}
use yunikorn_k8shim.Gang.Defs.{QuantityApi}
use yunikorn_k8shim.Context.Metadata.{
  Env, generated_id, task_metadata, app_metadata, generate_application_id, replace_suffix,
  named_application_id, get_application_id_from_pod, get_task_metadata, get_app_metadata,
}

append-ne-nil_of_left : (s t : String) → s ≢ "" → s ++ t ≢ ""
append-ne-nil_of_left s t h = λ e. h ((append-eq-nil_iff.0 e).0)

text_ne : (s : String) → (s == "") ≡ false → s ≢ ""
text_ne s h = ground (arith, eq_iff s "")

generated_id-ne : (namespace uid : String) (unique : Bool) → generated_id namespace unique uid ≢ ""
unfolding generated_id
generated_id-ne namespace uid unique =
    let suffix = text_ne "-uniqueautogen" refl in
    let dash = text_ne "-" refl in
    let start = text_ne "yunikorn-" refl in
    ground (
      arith,
      append-ne-nil_of_right_ne-nil (truncate 26 namespace) {t = "-uniqueautogen"} suffix,
      append-ne-nil_of_right_ne-nil (truncate 26 namespace) {t = "-" ++ uid}
          (append-ne-nil_of_left "-" uid dash),
      append-ne-nil_of_left "yunikorn-" (namespace ++ "-autogen") start,
    )

-- A generated application ID is not empty and has 63 characters at most.
pub generate_application_id_lem :
    (namespace uid : String) (unique : Bool)
    → (generate_application_id namespace unique uid ≢ "")
      × (count (generate_application_id namespace unique uid) ≤ 63)
unfolding generate_application_id
generate_application_id_lem namespace uid unique = (
  truncate-ne 62 (generated_id namespace unique uid) (generated_id-ne namespace uid unique),
  count-truncate 63 (generated_id namespace unique uid),
)

module _ {Q : Type 0} ⦃api : QuantityApi Q⦄ where
  get_application_id_from_pod-ne :
      (env : Env Q) (p : Pod)
      → p.scheduler_name ≡ "yunikorn"
      → get_application_id_from_pod env p ≢ ""
  unfolding get_application_id_from_pod
  get_application_id_from_pod-ne env p h = ground (
    arith,
    eq_iff p.scheduler_name "yunikorn",
    eq_iff (replace_suffix (named_application_id env p) p.uid) "",
    generate_application_id_lem p.namespace p.uid env.generate_unique_app_ids,
  )

  get_application_id_from_pod-other :
      (env : Env Q) (p : Pod)
      → p.scheduler_name ≢ "yunikorn"
      → get_application_id_from_pod env p ≡ ""
  unfolding get_application_id_from_pod
  get_application_id_from_pod-other env p h = ground (arith, eq_iff p.scheduler_name "yunikorn")

  -- A pod of the scheduler yunikorn has an application ID that is not empty, and both its task's
  -- and its application's metadata, which carry that ID. Any other pod has neither, and no ID.
  pub get_metadata_cases :
      (env : Env Q) (p : Pod)
      → ((p.scheduler_name ≡ "yunikorn")
          × (get_application_id_from_pod env p ≢ "")
          × (get_task_metadata env p ≡ some (task_metadata env p))
          × (get_app_metadata env p ≡ some (app_metadata env p)))
        ⊎ ((p.scheduler_name ≢ "yunikorn")
            × (get_application_id_from_pod env p ≡ "")
            × (get_task_metadata env p ≡ none)
            × (get_app_metadata env p ≡ none))
  unfolding get_task_metadata get_app_metadata
  get_metadata_cases env p = elim (String-cases p.scheduler_name "yunikorn") [
    | inl h ↦ inl (
        ground (
          arith,
          get_application_id_from_pod-ne env p h,
          eq_iff (get_application_id_from_pod env p) "",
        ))
    | inr h ↦
        let other : p.scheduler_name ≢ "yunikorn" =
          ground (arith, eq_iff p.scheduler_name "yunikorn") in
        inr (
          ground (
            arith,
            get_application_id_from_pod-other env p other,
            eq_iff (get_application_id_from_pod env p) "",
          ))
  ]
