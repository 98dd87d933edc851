-- ===== src/Admission/Requests.antt =====
-- Requests of the admission webhook and their answers, and the tests of namespaces and users that
-- pkg/admission/admission_controller.go makes.
use yunikorn_k8shim.Prelude.{
  is_empty, String, Bool, true, false, not, ◌&&◌, ◌||◌, Option, List, ◌⊎◌, any,
}
use yunikorn_k8shim.Prelude.Dict.{Dict}
use yunikorn_k8shim.Pod.{Pod}
use yunikorn_k8shim.Admission.Caches.{
  TriState, tri_unset, tri_false, tri_true, NamespaceCache, PriorityClassCache, enable_yunikorn_of,
  generate_app_id_of,
}

-- What is read of AdmissionControllerConf. GenerateUniqueAppIds is that of Env.
pub record AdmissionConf : Type 0 where
  pub process_namespaces : List (String → Bool)
  pub bypass_namespaces : List (String → Bool)
  pub label_namespaces : List (String → Bool)
  pub no_label_namespaces : List (String → Bool)
  pub system_users : List (String → Bool)
  pub external_users : List (String → Bool)
  pub external_groups : List (String → Bool)
  pub trust_controllers : Bool
  pub bypass_auth : Bool

pub record AdmissionController : Type 0 where
  pub conf : AdmissionConf
  pub pc_cache : PriorityClassCache
  pub ns_cache : NamespaceCache

-- encoding/json on user information: the text of Marshal, and the error of Unmarshal. Marshal has
-- no error on texts and lists of them.
pub record UserInfoJson : Type 0 where
  pub marshal : (user : String) (groups : List String) → String
  pub unmarshal_error : String → Option String
  -- The text of the error for a submitter who may not set the annotation
  pub not_allowed : (user : String) (groups : List String) → String

-- The value of a patch: a text, or a map that Go shares with the patch
pub data PatchValue : Type 0 where
  text : String → PatchValue
  entries : Dict String → PatchValue

pub record PatchOperation : Type 0 where
  pub op : String
  pub path : String
  pub value : PatchValue

pub data Operation : Type 0 where
  create update delete connect : Operation

-- admissionv1.AdmissionRequest. Each object is the pod that json.Unmarshal reads of it, or the text
-- of the error.
pub record AdmissionRequest : Type 0 where
  pub uid : String
  pub namespace : String
  pub operation : Operation
  pub username : String
  pub groups : List String
  pub object : String ⊎ Pod
  pub old_object : String ⊎ Pod

-- admissionv1.AdmissionResponse, before the patch is encoded. An empty message is no Result.
pub record AdmissionResponse : Type 0 where
  pub uid : String
  pub allowed : Bool
  pub message : String
  pub patch : Option (List PatchOperation)

-- admissionResponseBuilder
unfoldable pub admission_response_builder :
    String → Bool → String → Option (List PatchOperation) → AdmissionResponse
admission_response_builder uid allowed message patch = record {
  uid = uid;
  allowed = allowed;
  message = message;
  patch = patch;
}

-- A list of patterns matches a text if one of them does.
abbrev pub matches : List (String → Bool) → String → Bool
matches patterns s = any (λ re. re s) patterns

-- The answer of a flag of the namespace, if it has one
abbrev pub flag_or : TriState → Bool → Bool
flag_or tri_unset b = b
flag_or tri_false b = false
flag_or tri_true b = true

-- shouldProcessNamespace, with namespaceMatchesProcessList and namespaceMatchesBypassList
unfoldable pub should_process_namespace : AdmissionController → String → Bool
should_process_namespace c namespace = flag_or (enable_yunikorn_of c.ns_cache namespace) (
    (is_empty c.conf.process_namespaces || matches c.conf.process_namespaces namespace)
    && not (matches c.conf.bypass_namespaces namespace))

-- shouldLabelNamespace, with namespaceMatchesLabelList and namespaceMatchesNoLabelList
unfoldable pub should_label_namespace : AdmissionController → String → Bool
should_label_namespace c namespace = flag_or (generate_app_id_of c.ns_cache namespace) (
    (is_empty c.conf.label_namespaces || matches c.conf.label_namespaces namespace)
    && not (matches c.conf.no_label_namespaces namespace))

-- IsAnnotationAllowed
unfoldable pub is_annotation_allowed : AdmissionConf → String → List String → Bool
is_annotation_allowed conf user groups =
    (conf.trust_controllers && matches conf.system_users user)
    || matches conf.external_users user
    || any (λ re. any re groups) conf.external_groups
