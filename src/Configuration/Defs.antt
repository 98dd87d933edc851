-- ===== src/Configuration/Defs.antt =====
-- SchedulerConf of pkg/conf/schedulerconf.go, its defaults, the settings that a reload keeps, and
-- the holder of the configuration in use.
use Prim.Native.String.{◌++◌}
use yunikorn_k8shim.Prelude.{
  ℕ, String, Bool, true, false, Option, none, some, ◌==◌, ◌*◌, nat_eq, if◌then◌else◌,
}

-- The int64 of a user or group is a 64-bit word.
pub record PlaceHolderConfig : Type 0 where
  pub image : String
  pub run_as_user : ℕ
  pub run_as_group : ℕ
  pub fs_group : ℕ

-- An int or time.Duration is a 64-bit word, a duration in nanoseconds. The pointer to the
-- PlaceHolderConfig is that of one configuration, but for the clone of the defaults, which replaces
-- them.
pub record SchedulerConf : Type 0 where
  pub scheduler_name : String
  pub cluster_id : String
  pub cluster_version : String
  pub policy_group : String
  pub interval : ℕ
  pub kube_config : String
  pub volume_bind_timeout : ℕ
  pub event_channel_capacity : ℕ
  pub dispatch_timeout : ℕ
  pub kube_qps : ℕ
  pub kube_burst : ℕ
  pub enable_config_hot_refresh : Bool
  pub disable_gang_scheduling : Bool
  pub place_holder_config : PlaceHolderConfig
  pub instance_type_node_label_key : String
  pub namespace : String
  pub generate_unique_app_ids : Bool

-- What the process is built and started with: buildVersion, and os.LookupEnv
pub record Process : Type 0 where
  pub build_version : String
  pub lookup_env : String → Option String

abbrev pub second : ℕ
second = 1000 * (1000 * 1000)

module _ (process : Process) where
  unfoldable pub get_scheduler_namespace : String
  get_scheduler_namespace = elim (process.lookup_env "NAMESPACE") [
    | none ↦ "default"
    | some value ↦ value
  ]

  unfoldable pub get_default_kube_config_path : String
  get_default_kube_config_path = elim (process.lookup_env "KUBECONFIG") [
    | some conf ↦ conf
    | none ↦ elim (process.lookup_env "HOME") [ none ↦ "" | some home ↦ home ] ++ "/.kube/config"
  ]

  unfoldable pub create_default_config : SchedulerConf
  create_default_config = record {
    scheduler_name = "yunikorn";
    namespace = get_scheduler_namespace;
    cluster_id = "mycluster";
    cluster_version = process.build_version;
    policy_group = "queues";
    interval = second;
    kube_config = get_default_kube_config_path;
    volume_bind_timeout = 600 * second;
    event_channel_capacity = 1024 * 1024;
    dispatch_timeout = 300 * second;
    kube_qps = 1000;
    kube_burst = 1000;
    enable_config_hot_refresh = true;
    disable_gang_scheduling = false;
    instance_type_node_label_key = "node.kubernetes.io/instance-type";
    generate_unique_app_ids = false;
    place_holder_config = record {
      image = "registry.k8s.io/pause:3.7";
      run_as_user = 0;
      run_as_group = 0;
      fs_group = 0;
    };
  }

  -- confHolder, which is empty until once.Do runs
  unfoldable pub get_scheduler_conf : Option SchedulerConf → SchedulerConf
  get_scheduler_conf none = create_default_config
  get_scheduler_conf (some conf) = conf

-- checkNonReloadableString and its siblings: what *new is in the end
unfoldable pub check_non_reloadable_string : String → String → String
check_non_reloadable_string old new = if old == new then new else old

unfoldable pub check_non_reloadable_number : ℕ → ℕ → ℕ
check_non_reloadable_number old new = if nat_eq old new then new else old

unfoldable pub check_non_reloadable_bool : Bool → Bool → Bool
check_non_reloadable_bool true true = true
check_non_reloadable_bool true false = true
check_non_reloadable_bool false true = false
check_non_reloadable_bool false false = false

-- handleNonReloadableConfig, with what it makes of its argument new
unfoldable pub handle_non_reloadable_config : SchedulerConf → SchedulerConf → SchedulerConf
handle_non_reloadable_config old new =
    let old_placeholder = old.place_holder_config in
    let placeholder = new.place_holder_config in
    record new {
      cluster_id = check_non_reloadable_string old.cluster_id new.cluster_id;
      policy_group = check_non_reloadable_string old.policy_group new.policy_group;
      interval = check_non_reloadable_number old.interval new.interval;
      volume_bind_timeout =
          check_non_reloadable_number old.volume_bind_timeout new.volume_bind_timeout;
      event_channel_capacity =
          check_non_reloadable_number old.event_channel_capacity new.event_channel_capacity;
      dispatch_timeout = check_non_reloadable_number old.dispatch_timeout new.dispatch_timeout;
      kube_qps = check_non_reloadable_number old.kube_qps new.kube_qps;
      kube_burst = check_non_reloadable_number old.kube_burst new.kube_burst;
      disable_gang_scheduling =
          check_non_reloadable_bool old.disable_gang_scheduling new.disable_gang_scheduling;
      instance_type_node_label_key =
          check_non_reloadable_string old.instance_type_node_label_key
            new.instance_type_node_label_key;
      generate_unique_app_ids =
          check_non_reloadable_bool old.generate_unique_app_ids new.generate_unique_app_ids;
      place_holder_config = record {
        run_as_user =
            check_non_reloadable_number old_placeholder.run_as_user placeholder.run_as_user;
        run_as_group =
            check_non_reloadable_number old_placeholder.run_as_group placeholder.run_as_group;
        fs_group = check_non_reloadable_number old_placeholder.fs_group placeholder.fs_group;
        image = check_non_reloadable_string old_placeholder.image placeholder.image;
      };
    }
