-- ===== src/Configuration/Parse.antt =====
-- parseConfig of pkg/conf/schedulerconf.go with the methods of its parser.
use yunikorn_k8shim.Prelude.{ℕ, String, Bool, none, some, List, [], ◌∷◌, ◌++◌, ◌⊎◌, inl, inr}
use yunikorn_k8shim.Prelude.Dict.{Dict, lookup}
use yunikorn_k8shim.Configuration.Defs.{SchedulerConf}
use yunikorn_k8shim.Configuration.Settings.{Parsers}

-- configParser, with the configuration whose fields its methods write through pointers
pub record ConfigParser : Type 0 where
  pub errors : List String
  pub config : Dict String
  pub conf : SchedulerConf

-- A pointer to a field of the configuration
pub record Field (A : Type 0) : Type 0 where
  pub get : SchedulerConf → A
  pub set : A → SchedulerConf → SchedulerConf

unfoldable pub string_var : Field String → String → ConfigParser → ConfigParser
string_var p name cp = elim (lookup name cp.config) [
  | none ↦ cp
  | some v ↦ record cp { conf = p.set v cp.conf }
]

module _ {A : Type 0} (parse : String → String ⊎ A) where
  -- intVar, boolVar, durationVar and int64Var, for the call that parses
  unfoldable pub parsed_var : Field A → String → ConfigParser → ConfigParser
  parsed_var p name cp = elim (lookup name cp.config) [
    | none ↦ cp
    | some v ↦ elim (parse v) [
      | inl err ↦ record cp { errors = cp.errors ++ err ∷ [] }
      | inr value ↦ record cp { conf = p.set value cp.conf }
    ]
  ]

module _ (api : Parsers) where
  abbrev pub int_var : Field ℕ → String → ConfigParser → ConfigParser
  int_var = parsed_var (λ v. api.parse_int v 32)

  abbrev pub int64_var : Field ℕ → String → ConfigParser → ConfigParser
  int64_var = parsed_var (λ v. api.parse_int v 64)

  abbrev pub bool_var : Field Bool → String → ConfigParser → ConfigParser
  bool_var = parsed_var api.parse_bool

  abbrev pub duration_var : Field ℕ → String → ConfigParser → ConfigParser
  duration_var = parsed_var api.parse_duration

-- The pointers that parseConfig passes
abbrev pub at_cluster_id : Field String
at_cluster_id = record { get = λ c. c.cluster_id; set = λ x c. record c { cluster_id = x } }

abbrev pub at_policy_group : Field String
at_policy_group = record { get = λ c. c.policy_group; set = λ x c. record c { policy_group = x } }

abbrev pub at_interval : Field ℕ
at_interval = record { get = λ c. c.interval; set = λ x c. record c { interval = x } }

abbrev pub at_volume_bind_timeout : Field ℕ
at_volume_bind_timeout = record {
  get = λ c. c.volume_bind_timeout;
  set = λ x c. record c { volume_bind_timeout = x };
}

abbrev pub at_event_channel_capacity : Field ℕ
at_event_channel_capacity = record {
  get = λ c. c.event_channel_capacity;
  set = λ x c. record c { event_channel_capacity = x };
}

abbrev pub at_dispatch_timeout : Field ℕ
at_dispatch_timeout = record {
  get = λ c. c.dispatch_timeout;
  set = λ x c. record c { dispatch_timeout = x };
}

abbrev pub at_disable_gang_scheduling : Field Bool
at_disable_gang_scheduling = record {
  get = λ c. c.disable_gang_scheduling;
  set = λ x c. record c { disable_gang_scheduling = x };
}

abbrev pub at_enable_config_hot_refresh : Field Bool
at_enable_config_hot_refresh = record {
  get = λ c. c.enable_config_hot_refresh;
  set = λ x c. record c { enable_config_hot_refresh = x };
}

abbrev pub at_image : Field String
at_image = record {
  get = λ c. c.place_holder_config.image;
  set = λ x c. record c { place_holder_config = record c.place_holder_config { image = x } };
}

abbrev pub at_run_as_user : Field ℕ
at_run_as_user = record {
  get = λ c. c.place_holder_config.run_as_user;
  set = λ x c. record c { place_holder_config = record c.place_holder_config { run_as_user = x } };
}

abbrev pub at_run_as_group : Field ℕ
at_run_as_group = record {
  get = λ c. c.place_holder_config.run_as_group;
  set = λ x c. record c { place_holder_config = record c.place_holder_config { run_as_group = x } };
}

abbrev pub at_fs_group : Field ℕ
at_fs_group = record {
  get = λ c. c.place_holder_config.fs_group;
  set = λ x c. record c { place_holder_config = record c.place_holder_config { fs_group = x } };
}

abbrev pub at_instance_type_node_label_key : Field String
at_instance_type_node_label_key = record {
  get = λ c. c.instance_type_node_label_key;
  set = λ x c. record c { instance_type_node_label_key = x };
}

abbrev pub at_kube_qps : Field ℕ
at_kube_qps = record { get = λ c. c.kube_qps; set = λ x c. record c { kube_qps = x } }

abbrev pub at_kube_burst : Field ℕ
at_kube_burst = record { get = λ c. c.kube_burst; set = λ x c. record c { kube_burst = x } }

abbrev pub at_generate_unique_app_ids : Field Bool
at_generate_unique_app_ids = record {
  get = λ c. c.generate_unique_app_ids;
  set = λ x c. record c { generate_unique_app_ids = x };
}

module _ (api : Parsers) where
  -- The calls of the parser, in their order
  unfoldable pub parse_settings : ConfigParser → ConfigParser
  parse_settings cp0 =
      let cp1 = string_var at_cluster_id "service.clusterId" cp0 in
      let cp2 = string_var at_policy_group "service.policyGroup" cp1 in
      let cp3 = duration_var api at_interval "service.schedulingInterval" cp2 in
      let cp4 = duration_var api at_volume_bind_timeout "service.volumeBindTimeout" cp3 in
      let cp5 = int_var api at_event_channel_capacity "service.eventChannelCapacity" cp4 in
      let cp6 = duration_var api at_dispatch_timeout "service.dispatchTimeout" cp5 in
      let cp7 = bool_var api at_disable_gang_scheduling "service.disableGangScheduling" cp6 in
      let cp8 = bool_var api at_enable_config_hot_refresh "service.enableConfigHotRefresh" cp7 in
      let cp9 = string_var at_image "service.placeholderImage" cp8 in
      let cp10 = int64_var api at_run_as_user "service.placeholderRunAsUser" cp9 in
      let cp11 = int64_var api at_run_as_group "service.placeholderRunAsGroup" cp10 in
      let cp12 = int64_var api at_fs_group "service.placeholderFsGroup" cp11 in
      let cp13 =
        string_var at_instance_type_node_label_key "service.nodeInstanceTypeNodeLabelKey" cp12 in
      let cp14 = int_var api at_kube_qps "kubernetes.qps" cp13 in
      let cp15 = int_var api at_kube_burst "kubernetes.burst" cp14 in
      bool_var api at_generate_unique_app_ids "admissionController.filtering.generateUniqueAppId"
        cp15

  -- parseConfig. The clone of the configuration that it starts with is the one that it writes.
  unfoldable pub parse_config : Dict String → SchedulerConf → List String ⊎ SchedulerConf
  parse_config [] prev = inr prev
  parse_config ((k, v) ∷ config) prev =
      let parser = parse_settings (record { errors = []; config = (k, v) ∷ config; conf = prev }) in
      elim parser.errors [ [] ↦ inr parser.conf | e ∷ es ↦ inl (e ∷ es) ]
