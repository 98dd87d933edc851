-- ===== src/Configuration/Read.antt =====
-- parseConfig of pkg/conf/schedulerconf.go, step by step, against `Settings`.
use yunikorn_k8shim.Prelude.{
  is_empty, String, Bool, true, false, ◌&&◌, Option, none, some, List, [], ◌∷◌, ◌++◌, ◌⊎◌, inl, inr,
  ◌≡◌, refl, arith, Option-cases, if◌then◌else◌,
}
use yunikorn_k8shim.Prelude.Dict.{Dict, lookup}
use yunikorn_k8shim.Configuration.Defs.{SchedulerConf}
use yunikorn_k8shim.Configuration.Settings.{
  Parsers, readable, configured, parses, setting, text_setting,
}
use yunikorn_k8shim.Configuration.Parse.{
  ConfigParser, Field, string_var, parsed_var, parse_settings, parse_config, at_cluster_id,
  at_policy_group, at_interval, at_volume_bind_timeout, at_event_channel_capacity,
  at_dispatch_timeout, at_disable_gang_scheduling, at_enable_config_hot_refresh, at_image,
  at_run_as_user, at_run_as_group, at_fs_group, at_instance_type_node_label_key, at_kube_qps,
  at_kube_burst, at_generate_unique_app_ids,
}

is_empty-snoc : {A : Type 0} (x : A) (xs : List A) → is_empty (xs ++ x ∷ []) ≡ false
is_empty-snoc x [] = refl
is_empty-snoc x (_ ∷ xs) = refl

-- A parser that stands at a configuration, and whether it has no error
record StandsAt (config : Dict String) (ok : Bool) (c : SchedulerConf) (cp : ConfigParser)
    : Type 0 where
  reads : cp.config ≡ config
  errors_empty : is_empty cp.errors ≡ ok
  writes : cp.conf ≡ c

module _ (config : Dict String) {ok : Bool} {c : SchedulerConf} {cp : ConfigParser} where
  string_var_lem :
      (p : Field String) (name : String)
      → p.set (p.get c) c ≡ c
      → StandsAt config ok c cp
      → StandsAt config ok (p.set (text_setting name config (p.get c)) c) (string_var p name cp)
  unfolding string_var text_setting
  string_var_lem p name law h = elim (Option-cases (lookup name config)) [
    | inl e ↦ record {
      reads = ground (arith, h.reads);
      errors_empty = ground (arith, h.reads, h.errors_empty);
      writes = ground (arith, h.reads, h.writes, law);
    }
    | inr (v, e) ↦ record {
      reads = ground (arith, h.reads);
      errors_empty = ground (arith, h.reads, h.errors_empty);
      writes = ground (arith, h.reads, h.writes);
    }
  ]

  parsed_var_lem :
      {A : Type 0} (parse : String → String ⊎ A) (p : Field A) (name : String)
      → p.set (p.get c) c ≡ c
      → StandsAt config ok c cp
      → StandsAt config
          (ok && parses parse name config)
          (p.set (setting parse name config (p.get c)) c)
          (parsed_var parse p name cp)
  unfolding parsed_var parses setting
  parsed_var_lem parse p name law h = record {
    reads = ground (arith, h.reads);
    errors_empty = ground (arith, h.reads, h.errors_empty, is_empty-snoc _ cp.errors);
    writes = ground (arith, h.reads, h.writes, law);
  }

module _ (api : Parsers) (config : Dict String) where
  parse_settings_lem :
      {c : SchedulerConf} {cp : ConfigParser}
      → StandsAt config true c cp
      → StandsAt config (readable api config) (configured api config c) (parse_settings api cp)
  unfolding parse_settings readable configured
  parse_settings_lem h0 =
      let h1 = string_var_lem config at_cluster_id "service.clusterId" refl h0 in
      let h2 = string_var_lem config at_policy_group "service.policyGroup" refl h1 in
      let h3 =
        parsed_var_lem config api.parse_duration at_interval "service.schedulingInterval" refl h2 in
      let h4 =
        parsed_var_lem config api.parse_duration at_volume_bind_timeout "service.volumeBindTimeout"
          refl h3 in
      let h5 =
        parsed_var_lem config (λ v. api.parse_int v 32) at_event_channel_capacity
          "service.eventChannelCapacity" refl h4 in
      let h6 =
        parsed_var_lem config api.parse_duration at_dispatch_timeout "service.dispatchTimeout" refl
          h5 in
      let h7 =
        parsed_var_lem config api.parse_bool at_disable_gang_scheduling
          "service.disableGangScheduling" refl h6 in
      let h8 =
        parsed_var_lem config api.parse_bool at_enable_config_hot_refresh
          "service.enableConfigHotRefresh" refl h7 in
      let h9 = string_var_lem config at_image "service.placeholderImage" refl h8 in
      let h10 =
        parsed_var_lem config (λ v. api.parse_int v 64) at_run_as_user
          "service.placeholderRunAsUser" refl h9 in
      let h11 =
        parsed_var_lem config (λ v. api.parse_int v 64) at_run_as_group
          "service.placeholderRunAsGroup" refl h10 in
      let h12 =
        parsed_var_lem config (λ v. api.parse_int v 64) at_fs_group "service.placeholderFsGroup"
          refl h11 in
      let h13 =
        string_var_lem config at_instance_type_node_label_key "service.nodeInstanceTypeNodeLabelKey"
          refl h12 in
      let h14 =
        parsed_var_lem config (λ v. api.parse_int v 32) at_kube_qps "kubernetes.qps" refl h13 in
      let h15 =
        parsed_var_lem config (λ v. api.parse_int v 32) at_kube_burst "kubernetes.burst" refl h14 in
      parsed_var_lem config api.parse_bool at_generate_unique_app_ids
        "admissionController.filtering.generateUniqueAppId" refl h15

abbrev pub parsed : List String ⊎ SchedulerConf → Option SchedulerConf
parsed (inl _) = none
parsed (inr conf) = some conf

parsed_of_errors :
    (es : List String) (c : SchedulerConf)
    → parsed (elim es [ [] ↦ inr c | e ∷ es ↦ inl (e ∷ es) ])
      ≡ (if is_empty es then some c else none)
parsed_of_errors [] c = refl
parsed_of_errors (_ ∷ es) c = refl

pub parse_config_lem :
    (api : Parsers) (config : Dict String) (prev : SchedulerConf)
    → parsed (parse_config api config prev)
      ≡ (if readable api config then some (configured api config prev) else none)
unfolding parse_config
parse_config_lem api [] prev = unfold readable configured parses setting text_setting lookup in refl
parse_config_lem api ((k, v) ∷ config) prev =
    let cp : ConfigParser = record { errors = []; config = (k, v) ∷ config; conf = prev } in
    let start : StandsAt ((k, v) ∷ config) true prev cp = record {
      reads = refl;
      errors_empty = refl;
      writes = refl;
    } in
    let h = parse_settings_lem api ((k, v) ∷ config) start in
    ground (
      arith,
      h.errors_empty,
      h.writes,
      parsed_of_errors (parse_settings api cp).errors (parse_settings api cp).conf,
    )
