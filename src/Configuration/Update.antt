-- ===== src/Configuration/Update.antt =====
-- UpdateConfigMaps of pkg/conf/schedulerconf.go: what a reload changes of the configuration.
use yunikorn_k8shim.Prelude.{
  String, Bool, true, false, Option, none, some, List, inl, inr, ◌≡◌, refl, arith, if◌then◌else◌,
  eq_iff,
}
use yunikorn_k8shim.Configuration.Defs.{
  SchedulerConf, Process, create_default_config, get_scheduler_conf, get_scheduler_namespace,
  get_default_kube_config_path, handle_non_reloadable_config, check_non_reloadable_string,
  check_non_reloadable_number, check_non_reloadable_bool,
}
use yunikorn_k8shim.Configuration.Maps.{ConfigMap, flatten_config_maps}
use yunikorn_k8shim.Configuration.Settings.{Parsers, readable, configured, setting}
use yunikorn_k8shim.Configuration.Parse.{parse_config}
use yunikorn_k8shim.Configuration.Read.{parse_config_lem}

-- What the configuration is read with: the process, its libraries, and gzip
pub record Source : Type 0 where
  pub process : Process
  pub parsers : Parsers
  pub gunzip : String → Option String

-- UpdateConfigMaps, with the holder of the configuration, and an error. Loggers are left aside.
unfoldable pub update_config_maps :
    Source
    → List (Option ConfigMap)
    → Bool
    → Option SchedulerConf
    → Option SchedulerConf × Option String
update_config_maps source maps initial holder =
    let prev = create_default_config source.process in
    let config = flatten_config_maps source.gunzip maps in
    elim (parse_config source.parsers config prev) [
      | inl _ ↦ (holder, some "failed to load configmap")
      | inr new ↦
          let old = get_scheduler_conf source.process holder in
          (some (if initial then new else handle_non_reloadable_config old new), none)
    ]

check_non_reloadable_string_lem : (old new : String) → check_non_reloadable_string old new ≡ old
unfolding check_non_reloadable_string
check_non_reloadable_string_lem old new = ground (arith, eq_iff old new)

check_non_reloadable_number_lem : (old new : _) → check_non_reloadable_number old new ≡ old
unfolding check_non_reloadable_number
check_non_reloadable_number_lem old new = ground arith

check_non_reloadable_bool_lem : (old new : Bool) → check_non_reloadable_bool old new ≡ old
unfolding check_non_reloadable_bool
check_non_reloadable_bool_lem true true = refl
check_non_reloadable_bool_lem true false = refl
check_non_reloadable_bool_lem false true = refl
check_non_reloadable_bool_lem false false = refl

-- What is not read from config maps is as the process was started.
pub record IsStarted (process : Process) (c : SchedulerConf) : Type 0 where
  pub same_scheduler_name : c.scheduler_name ≡ "yunikorn"
  pub same_version : c.cluster_version ≡ process.build_version
  pub same_kube_config : c.kube_config ≡ get_default_kube_config_path process
  pub same_namespace : c.namespace ≡ get_scheduler_namespace process

handle_non_reloadable_config_lem :
    (old new : SchedulerConf)
    → handle_non_reloadable_config old new ≡ record old {
      scheduler_name = new.scheduler_name;
      cluster_version = new.cluster_version;
      kube_config = new.kube_config;
      namespace = new.namespace;
      enable_config_hot_refresh = new.enable_config_hot_refresh;
    }
unfolding handle_non_reloadable_config
handle_non_reloadable_config_lem old new = simp (
  check_non_reloadable_string_lem, check_non_reloadable_number_lem, check_non_reloadable_bool_lem,
)

-- The setting that a reload may change
abbrev pub hot_refresh : Source → List (Option ConfigMap) → Bool
hot_refresh source maps =
    setting source.parsers.parse_bool "service.enableConfigHotRefresh"
      (flatten_config_maps source.gunzip maps) true

abbrev pub are_readable : Source → List (Option ConfigMap) → Bool
are_readable source maps = readable source.parsers (flatten_config_maps source.gunzip maps)

reload_keeps :
    (source : Source) (maps : List (Option ConfigMap)) (old : SchedulerConf)
    → IsStarted source.process old
    → handle_non_reloadable_config old (
        configured source.parsers
          (flatten_config_maps source.gunzip maps)
          (create_default_config source.process))
      ≡ record old { enable_config_hot_refresh = hot_refresh source maps }
unfolding configured create_default_config
reload_keeps source maps old h = ground (
  arith,
  handle_non_reloadable_config_lem old (
      configured source.parsers (flatten_config_maps source.gunzip maps)
        (create_default_config source.process)),
  h.same_scheduler_name,
  h.same_version,
  h.same_kube_config,
  h.same_namespace,
)

-- UpdateConfigMaps, where what is not read from config maps is as the process was started. If a
-- number, a truth value or a duration of the flattened maps does not parse, there is an error and
-- the configuration stays as it is. Otherwise there is none: at first the configuration is that of
-- the defaults with the settings of the maps, and later it is the one before in everything but
-- EnableConfigHotRefresh, which is that of the maps, or true if they have none.
pub update_config_maps_lem :
    (source : Source) (maps : List (Option ConfigMap)) (initial : Bool)
    (holder : Option SchedulerConf)
    → IsStarted source.process (get_scheduler_conf source.process holder)
    → update_config_maps source maps initial holder ≡ (
        if are_readable source maps
        then (
          some (
              if initial
              then configured source.parsers
                  (flatten_config_maps source.gunzip maps)
                  (create_default_config source.process)
              else record (get_scheduler_conf source.process holder) {
                enable_config_hot_refresh = hot_refresh source maps;
              }),
          none,
        )
        else (holder, some "failed to load configmap"))
unfolding update_config_maps
update_config_maps_lem source maps initial holder h =
    let lem =
      parse_config_lem source.parsers (flatten_config_maps source.gunzip maps)
        (create_default_config source.process) in
    let keeps = reload_keeps source maps (get_scheduler_conf source.process holder) h in
    ground (arith, lem, keeps)
