-- ===== src/Configuration/Tests.antt =====
-- A scheduler that is started with one config map, and the theorems at it.
use yunikorn_k8shim.Prelude.{
  ◌*◌, String, true, false, ◌==◌, Option, none, some, List, [], ◌∷◌, ◌≡◌, ◌↔◌, refl, inl, inr,
  if◌then◌else◌,
}
use yunikorn_k8shim.Prelude.Dict.{lookup, insert}
use yunikorn_k8shim.Prelude.Unique.{copy_into}
use yunikorn_k8shim.Prelude.Text.{trim_suffix, after_dot}
use yunikorn_k8shim.Configuration.Defs.{
  SchedulerConf, second, create_default_config, get_scheduler_conf, get_scheduler_namespace,
  get_default_kube_config_path,
}
use yunikorn_k8shim.Configuration.Maps.{
  ConfigMap, flatten_config_maps, flatten_into, decompress_into, decompress, last_of_split, is_gzip,
  cut_suffix,
}
use yunikorn_k8shim.Configuration.Settings.{readable, configured, setting, text_setting, parses}
use yunikorn_k8shim.Configuration.Parse.{parse_config, parse_settings, string_var, parsed_var}
use yunikorn_k8shim.Configuration.Update.{Source, update_config_maps, update_config_maps_lem}
use yunikorn_k8shim.Configuration.Handlers.{
  ConfigContext, ConfigEvent, config_updated, config_deleted, config_map,
  deleted_final_state_unknown, GetError, not_found, set_at, conf_of, bootstrap,
  load_bootstrap_config_maps, get_config_map, run_config_events, trigger_reload_config,
  delete_config_maps, filter_config_maps,
}
use yunikorn_k8shim.Configuration.Reload.{trigger_reload_config_lem}
use yunikorn_k8shim.Configuration.Runs.{IsReady}
use yunikorn_k8shim.Configuration.Bootstrap.{
  initial_conf, bootstrap-Boots, is_missed, delete_config_maps_iff, run_config_events-bootstrap,
}

abbrev source : Source
source = record {
  process = record { build_version = "1.7.0"; lookup_env = λ name. none };
  parsers = record {
    parse_int = λ v bits. if v == "5000" then inr 5000 else inl "invalid syntax";
    parse_bool = λ v.
        if v == "true"
        then inr true
        else (if v == "false" then inr false else inl "invalid syntax");
    parse_duration = λ v. if v == "5s" then inr (5 * second) else inl "invalid duration";
  };
  gunzip = λ s. if s == "packed" then some "5s" else none;
}

abbrev defaults : ConfigMap
defaults = record {
  name = "yunikorn-defaults";
  namespace = "default";
  text_data = ("kubernetes.qps", "5000") ∷ [];
  binary_data = ("service.schedulingInterval.gz", "packed") ∷ [];
}

abbrev bad : ConfigMap
bad = record {
  name = "yunikorn-configs";
  namespace = "default";
  text_data = ("service.dispatchTimeout", "soon") ∷ [];
  binary_data = [];
}

abbrev get_defaults : String → String → Option ConfigMap × Option GetError
get_defaults namespace name =
    if name == "yunikorn-defaults" then (some defaults, none) else (none, some not_found)

abbrev first_conf : SchedulerConf
first_conf = record (create_default_config source.process) {
  kube_qps = 5000;
  interval = 5 * second;
}

abbrev first_context : ConfigContext
first_context = record {
  namespace = "default";
  config_maps = some defaults ∷ none ∷ [];
  holder = some (initial_conf source (some defaults ∷ none ∷ []));
  requests = [];
}

started : bootstrap get_defaults source ≡ inr first_context
unfolding bootstrap load_bootstrap_config_maps get_config_map get_scheduler_namespace
    get_scheduler_conf configured create_default_config update_config_maps flatten_config_maps
    flatten_into decompress_into decompress last_of_split after_dot is_gzip cut_suffix trim_suffix
    copy_into insert lookup parse_config parse_settings string_var parsed_var setting text_setting
    get_default_kube_config_path
started = refl

first_conf_read : initial_conf source (some defaults ∷ none ∷ []) ≡ first_conf
unfolding configured setting text_setting flatten_config_maps flatten_into decompress_into
    decompress last_of_split after_dot is_gzip cut_suffix trim_suffix copy_into insert lookup
    create_default_config get_scheduler_namespace get_default_kube_config_path
first_conf_read = refl

abbrev first : SchedulerConf
first = initial_conf source (some defaults ∷ none ∷ [])

-- A config map that turns reloads off, and sets what a reload keeps
abbrev switch_off : ConfigMap
switch_off = record {
  name = "yunikorn-configs";
  namespace = "default";
  text_data = ("service.enableConfigHotRefresh", "false") ∷ ("service.dispatchTimeout", "5s") ∷ [];
  binary_data = [];
}

first-IsReady : IsReady source first_context
first-IsReady = (bootstrap-Boots source get_defaults first_context started).boots_ready

update_config_maps_lem_example :
    update_config_maps source (some defaults ∷ some switch_off ∷ []) false (some first)
    ≡ (some (record first { enable_config_hot_refresh = false }), none)
unfolding configured setting text_setting flatten_config_maps flatten_into decompress_into
    decompress last_of_split after_dot is_gzip cut_suffix trim_suffix copy_into insert lookup
    readable parses create_default_config get_scheduler_conf
update_config_maps_lem_example =
    update_config_maps_lem source (some defaults ∷ some switch_off ∷ []) false (some first)
      first-IsReady.started

-- A config map that does not parse stays among those of the context.
trigger_reload_config_lem_example :
    trigger_reload_config source 1 (some bad) first_context
    ≡ some (record first_context { config_maps = some defaults ∷ some bad ∷ [] })
unfolding configured setting text_setting flatten_config_maps flatten_into decompress_into
    decompress last_of_split after_dot is_gzip cut_suffix trim_suffix copy_into insert lookup
    readable parses create_default_config get_scheduler_conf set_at
trigger_reload_config_lem_example =
    trigger_reload_config_lem source 1 (some bad) first_context (some defaults ∷ some bad ∷ [])
      first-IsReady.started refl

-- The filter lets the final state of a config map through.
filtered :
    filter_config_maps first_context (deleted_final_state_unknown (config_map defaults)) ≡ true
unfolding filter_config_maps
filtered = refl

delete_config_maps_iff_example :
    (delete_config_maps source (deleted_final_state_unknown (config_map defaults)) first_context
      ≡ none)
    ↔ (is_missed (deleted_final_state_unknown (config_map defaults)) ≡ true)
delete_config_maps_iff_example =
    delete_config_maps_iff source first_context (deleted_final_state_unknown (config_map defaults))
      first-IsReady

abbrev events : List ConfigEvent
events =
    config_updated (config_map bad) (config_map switch_off)
    ∷ config_deleted (config_map switch_off)
    ∷ []

run_config_events-bootstrap_example :
    (later : ConfigContext) × (run_config_events source events first_context ≡ some later)
    × (conf_of source later ≡ record first {
      enable_config_hot_refresh = (conf_of source later).enable_config_hot_refresh;
    })
    × (first.enable_config_hot_refresh ≡ false → later ≡ first_context)
run_config_events-bootstrap_example =
    run_config_events-bootstrap source get_defaults first_context events started refl
