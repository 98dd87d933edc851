-- ===== src/Context/Metadata.antt =====
-- What the shim reads off a pod for its application and its task: pkg/common/utils/utils.go and
-- pkg/cache/metadata.go.
use Prim.Native.String.{◌++◌}
use yunikorn_k8shim.Prelude.{
  String, Bool, ◌==◌, if◌then◌else◌, Option, none, some, List, [], ◌∷◌, member, inl, inr,
}
use yunikorn_k8shim.Prelude.Dict.{lookup}
use yunikorn_k8shim.Prelude.Text.{truncate, trim_suffix}
use yunikorn_k8shim.Pod.{Pod, is_assigned_pod}
use yunikorn_k8shim.Task.{get_pod_annotation_value}
use yunikorn_k8shim.Gang.Defs.{QuantityApi, TaskGroup, get_task_groups}

-- The domains of the scheduler interface, the two settings that are read, and json.Unmarshal into
-- task groups.
pub record Env (Q : Type 0) : Type 0 where
  pub domain_yunikorn : String
  pub domain_yunikorn_internal : String
  pub generate_unique_app_ids : Bool
  pub disable_gang_scheduling : Bool
  pub unmarshal : String → Option (List (TaskGroup Q))

-- GetPodLabelValue
unfoldable pub get_pod_label_value : Pod → String → String
get_pod_label_value p k = elim (lookup k p.labels) [ none ↦ "" | some v ↦ v ]

-- The ID of GenerateApplicationID before it is cut to 63 characters.
unfoldable pub generated_id : String → Bool → String → String
generated_id namespace unique pod_uid =
    if unique
    then (if pod_uid == ""
        then truncate 26 namespace ++ "-uniqueautogen"
        else truncate 26 namespace ++ ("-" ++ pod_uid))
    else "yunikorn-" ++ (namespace ++ "-autogen")

-- GenerateApplicationID
unfoldable pub generate_application_id : String → Bool → String → String
generate_application_id namespace unique pod_uid =
    truncate 63 (generated_id namespace unique pod_uid)

-- The first of two texts that is not empty, as a chain of the getters tries them.
abbrev pub or_text : String → String → String
or_text a b = if a == "" then b else a

-- An ID that ends in -uniqueautogen gets the UID of the pod in place of that.
unfoldable pub replace_suffix : String → String → String
replace_suffix app_id pod_uid = elim (trim_suffix "-uniqueautogen" app_id) [
  | none ↦ app_id
  | some start ↦ start ++ ("-" ++ pod_uid)
]

module _ {Q : Type 0} where
  -- The application ID that labels and annotations give, before its suffix is replaced.
  unfoldable pub named_application_id : Env Q → Pod → String
  named_application_id env p = or_text (get_pod_label_value p (env.domain_yunikorn ++ "app-id")) (
      or_text (get_pod_annotation_value p (env.domain_yunikorn ++ "app-id")) (
        or_text (get_pod_label_value p "applicationId")
          (get_pod_label_value p "spark-app-selector")))

  -- GetApplicationIDFromPod
  unfoldable pub get_application_id_from_pod : Env Q → Pod → String
  get_application_id_from_pod env p =
      if p.scheduler_name == "yunikorn"
      then or_text (replace_suffix (named_application_id env p) p.uid)
          (generate_application_id p.namespace env.generate_unique_app_ids p.uid)
      else ""

  -- GetQueueNameFromPod
  unfoldable pub get_queue_name_from_pod : Env Q → Pod → String
  get_queue_name_from_pod env p = or_text (get_pod_label_value p (env.domain_yunikorn ++ "queue")) (
      or_text (get_pod_annotation_value p (env.domain_yunikorn ++ "queue"))
        (get_pod_label_value p "queue"))

  -- GetPlaceholderFlagFromPodSpec: the texts that strconv.ParseBool reads as true
  unfoldable pub get_placeholder_flag_from_pod_spec : Env Q → Pod → Bool
  get_placeholder_flag_from_pod_spec env p =
      member (get_pod_annotation_value p (env.domain_yunikorn_internal ++ "placeholder"))
        ("1" ∷ "t" ∷ "T" ∷ "true" ∷ "TRUE" ∷ "True" ∷ [])

  -- GetTaskGroupFromPodSpec
  unfoldable pub get_task_group_from_pod_spec : Env Q → Pod → String
  get_task_group_from_pod_spec env p =
      get_pod_annotation_value p (env.domain_yunikorn ++ "task-group-name")

pub record TaskMetadata : Type 0 where
  pub application_id : String
  pub task_id : String
  pub pod : Pod
  pub placeholder : Bool
  pub task_group_name : String

-- ApplicationMetadata, without the user, the groups, the policy parameters and the creation time.
-- Of the tags it has the namespace, the flag that forces creation and the definition of the task
-- groups; an owner is its UID.
pub record ApplicationMetadata (Q : Type 0) : Type 0 where
  pub application_id : String
  pub queue_name : String
  pub namespace : String
  pub create_force : Bool
  pub task_groups_definition : String
  pub task_groups : List (TaskGroup Q)
  pub owner_references : List String

module _ {Q : Type 0} ⦃api : QuantityApi Q⦄ where
  -- What getTaskMetadata returns of a pod that has an application.
  unfoldable pub task_metadata : Env Q → Pod → TaskMetadata
  task_metadata env p = record {
    application_id = get_application_id_from_pod env p;
    task_id = p.uid;
    pod = p;
    placeholder = get_placeholder_flag_from_pod_spec env p;
    task_group_name =
        (if env.disable_gang_scheduling then "" else get_task_group_from_pod_spec env p);
  }

  -- getTaskMetadata
  unfoldable pub get_task_metadata : Env Q → Pod → Option TaskMetadata
  get_task_metadata env p =
      if get_application_id_from_pod env p == "" then none else some (task_metadata env p)

  -- The task groups of getAppMetadata: an error leaves none.
  unfoldable pub task_groups_of : Env Q → Pod → List (TaskGroup Q)
  task_groups_of env p =
      if env.disable_gang_scheduling
      then []
      else elim (get_task_groups env.unmarshal
          (get_pod_annotation_value p (env.domain_yunikorn ++ "task-groups"))) [
            | inl _ ↦ []
            | inr groups ↦ groups
          ]

  -- What getAppMetadata, with getOwnerReference, returns of a pod that has an application.
  unfoldable pub app_metadata : Env Q → Pod → ApplicationMetadata Q
  app_metadata env p = record {
    application_id = get_application_id_from_pod env p;
    queue_name = get_queue_name_from_pod env p;
    namespace = or_text p.namespace "default";
    create_force = is_assigned_pod p;
    task_groups_definition =
        (if env.disable_gang_scheduling
          then ""
          else get_pod_annotation_value p (env.domain_yunikorn ++ "task-groups"));
    task_groups = task_groups_of env p;
    owner_references =
        (if get_placeholder_flag_from_pod_spec env p then p.owner_references else p.uid ∷ []);
  }

  -- getAppMetadata
  unfoldable pub get_app_metadata : Env Q → Pod → Option (ApplicationMetadata Q)
  get_app_metadata env p =
      if get_application_id_from_pod env p == "" then none else some (app_metadata env p)
