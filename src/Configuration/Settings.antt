-- ===== src/Configuration/Settings.antt =====
-- What the settings of a map of texts mean for a configuration: which of them parse, and the
-- configuration that they make. This is an independent description of parseConfig.
use yunikorn_k8shim.Prelude.{ℕ, String, Bool, true, false, ◌&&◌, none, some, ◌⊎◌, inl, inr}
use yunikorn_k8shim.Prelude.Dict.{Dict, lookup}
use yunikorn_k8shim.Configuration.Defs.{SchedulerConf}

-- strconv.ParseInt in base 10 with a bit size, strconv.ParseBool and time.ParseDuration: the text
-- of an error, or the value
pub record Parsers : Type 0 where
  pub parse_int : String → ℕ → String ⊎ ℕ
  pub parse_bool : String → String ⊎ Bool
  pub parse_duration : String → String ⊎ ℕ

unfoldable pub text_setting : String → Dict String → String → String
text_setting name config old = elim (lookup name config) [ none ↦ old | some v ↦ v ]

module _ {A : Type 0} (parse : String → String ⊎ A) where
  -- A setting is missing or parses.
  unfoldable pub parses : String → Dict String → Bool
  parses name config = elim (lookup name config) [
    | none ↦ true
    | some v ↦ elim (parse v) [ inl _ ↦ false | inr _ ↦ true ]
  ]

  -- What a setting is, where it was `old` before
  unfoldable pub setting : String → Dict String → A → A
  setting name config old = elim (lookup name config) [
    | none ↦ old
    | some v ↦ elim (parse v) [ inl _ ↦ old | inr x ↦ x ]
  ]

module _ (api : Parsers) where
  -- Every setting that is a number, a truth value or a duration parses.
  unfoldable pub readable : Dict String → Bool
  readable config =
      (((((((((((true && parses api.parse_duration "service.schedulingInterval" config)
                          && parses api.parse_duration "service.volumeBindTimeout" config)
                        && parses (λ v. api.parse_int v 32) "service.eventChannelCapacity" config)
                      && parses api.parse_duration "service.dispatchTimeout" config)
                    && parses api.parse_bool "service.disableGangScheduling" config)
                  && parses api.parse_bool "service.enableConfigHotRefresh" config)
                && parses (λ v. api.parse_int v 64) "service.placeholderRunAsUser" config)
              && parses (λ v. api.parse_int v 64) "service.placeholderRunAsGroup" config)
            && parses (λ v. api.parse_int v 64) "service.placeholderFsGroup" config)
          && parses (λ v. api.parse_int v 32) "kubernetes.qps" config)
        && parses (λ v. api.parse_int v 32) "kubernetes.burst" config)
      && parses api.parse_bool "admissionController.filtering.generateUniqueAppId" config

  -- The configuration with the settings of a map
  unfoldable pub configured : Dict String → SchedulerConf → SchedulerConf
  configured config c = record c {
    cluster_id = text_setting "service.clusterId" config c.cluster_id;
    policy_group = text_setting "service.policyGroup" config c.policy_group;
    interval = setting api.parse_duration "service.schedulingInterval" config c.interval;
    volume_bind_timeout =
        setting api.parse_duration "service.volumeBindTimeout" config c.volume_bind_timeout;
    event_channel_capacity =
        setting (λ v. api.parse_int v 32) "service.eventChannelCapacity" config
          c.event_channel_capacity;
    dispatch_timeout =
        setting api.parse_duration "service.dispatchTimeout" config c.dispatch_timeout;
    disable_gang_scheduling =
        setting api.parse_bool "service.disableGangScheduling" config c.disable_gang_scheduling;
    enable_config_hot_refresh =
        setting api.parse_bool "service.enableConfigHotRefresh" config c.enable_config_hot_refresh;
    instance_type_node_label_key =
        text_setting "service.nodeInstanceTypeNodeLabelKey" config c.instance_type_node_label_key;
    kube_qps = setting (λ v. api.parse_int v 32) "kubernetes.qps" config c.kube_qps;
    kube_burst = setting (λ v. api.parse_int v 32) "kubernetes.burst" config c.kube_burst;
    generate_unique_app_ids =
        setting api.parse_bool "admissionController.filtering.generateUniqueAppId" config
          c.generate_unique_app_ids;
    place_holder_config = record {
      image = text_setting "service.placeholderImage" config c.place_holder_config.image;
      run_as_user =
          setting (λ v. api.parse_int v 64) "service.placeholderRunAsUser" config
            c.place_holder_config.run_as_user;
      run_as_group =
          setting (λ v. api.parse_int v 64) "service.placeholderRunAsGroup" config
            c.place_holder_config.run_as_group;
      fs_group =
          setting (λ v. api.parse_int v 64) "service.placeholderFsGroup" config
            c.place_holder_config.fs_group;
    };
  }
