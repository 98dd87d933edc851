-- ===== src/Configuration/Bootstrap.antt =====
-- The configuration from the start of the process on: pkg/cmd/shim/main.go with the handlers of
-- config maps.
use yunikorn_k8shim.Prelude.{
  String, Bool, true, false, Option, none, some, List, ◌≡◌, ◌↔◌, ◌⊎◌, refl, arith, inl, inr, all,
  length,
}
use yunikorn_k8shim.Configuration.Defs.{SchedulerConf, create_default_config, get_scheduler_conf}
use yunikorn_k8shim.Configuration.Maps.{ConfigMap, flatten_config_maps}
use yunikorn_k8shim.Configuration.Settings.{configured}
use yunikorn_k8shim.Configuration.Update.{Source, IsStarted, are_readable, update_config_maps_lem}
use yunikorn_k8shim.Configuration.Handlers.{
  ConfigContext, ConfigEvent, GetError, Object, config_map, deleted_final_state_unknown,
  other_object, conf_of, bootstrap, load_bootstrap_config_maps, run_config_events,
  delete_config_maps, convert_to_config_map,
}
use yunikorn_k8shim.Configuration.Runs.{
  IsReady, carries_map, run_config_events-Returns, reload_named-Returns,
}

-- The final state of an object that the informer has missed
abbrev pub is_missed : Object → Bool
is_missed (config_map _) = false
is_missed (deleted_final_state_unknown _) = true
is_missed other_object = false

-- In a context in which reloads work, deleteConfigMaps dereferences a nil pointer exactly if it
-- gets the final state of an object whose deletion the informer has missed, whatever that is.
pub delete_config_maps_iff :
    (source : Source) (ctx : ConfigContext) (obj : Object)
    → IsReady source ctx
    → (delete_config_maps source obj ctx ≡ none) ↔ (is_missed obj ≡ true)
unfolding delete_config_maps convert_to_config_map
delete_config_maps_iff source ctx (config_map m) h =
    let (later, e, f) = reload_named-Returns source m.name none ctx h in ground arith
delete_config_maps_iff source ctx (deleted_final_state_unknown obj) h = ground arith
delete_config_maps_iff source ctx other_object h = ground arith

sum_cases : {A B : Type 0} (x : A ⊎ B) → ((a : A) × (x ≡ inl a)) ⊎ ((b : B) × (x ≡ inr b))
sum_cases (inl a) = inl (a, refl)
sum_cases (inr b) = inr (b, refl)

module _ (source : Source) where
  abbrev pub initial_conf : List (Option ConfigMap) → SchedulerConf
  initial_conf maps =
      configured source.parsers (flatten_config_maps source.gunzip maps)
        (create_default_config source.process)

  pub default-IsStarted : IsStarted source.process (create_default_config source.process)
  unfolding create_default_config
  default-IsStarted = record {
    same_scheduler_name = refl;
    same_version = refl;
    same_kube_config = refl;
    same_namespace = refl;
  }

  initial_conf-IsStarted :
      (maps : List (Option ConfigMap)) → IsStarted source.process (initial_conf maps)
  unfolding configured
  initial_conf-IsStarted maps =
      let h = default-IsStarted in
      record {
        same_scheduler_name = h.same_scheduler_name;
        same_version = h.same_version;
        same_kube_config = h.same_kube_config;
        same_namespace = h.same_namespace;
      }

  -- The context that main starts with
  pub record Boots (ctx : ConfigContext) : Type 0 where
    pub boots_ready : IsReady source ctx
    pub boots_conf : conf_of source ctx ≡ initial_conf ctx.config_maps
    pub boots_readable : are_readable source ctx.config_maps ≡ true

  module _ (get : (namespace name : String) → Option ConfigMap × Option GetError) where
    load_bootstrap_config_maps_lem :
        (maps : List (Option ConfigMap))
        → load_bootstrap_config_maps get source ≡ inr maps
        → length maps ≡ 2
    unfolding load_bootstrap_config_maps
    load_bootstrap_config_maps_lem maps e = ground arith

    pub bootstrap-Boots : (ctx : ConfigContext) → bootstrap get source ≡ inr ctx → Boots ctx
    unfolding bootstrap get_scheduler_conf
    bootstrap-Boots ctx e = elim (sum_cases (load_bootstrap_config_maps get source)) [
      | inl (err, l) ↦ absurd (ground arith)
      | inr (maps, l) ↦
          let two = load_bootstrap_config_maps_lem maps l in
          let lem = update_config_maps_lem source maps true none default-IsStarted in
          let start = initial_conf-IsStarted maps in
          record {
            boots_ready = record {
              two_maps = ground (arith, two, lem);
              started = record {
                same_scheduler_name = ground (arith, lem, start.same_scheduler_name);
                same_version = ground (arith, lem, start.same_version);
                same_kube_config = ground (arith, lem, start.same_kube_config);
                same_namespace = ground (arith, lem, start.same_namespace);
              };
            };
            boots_conf = ground (arith, lem);
            boots_readable = ground (arith, lem);
          }
    ]

-- From the context that main starts with, whichever config maps Get answers with, whatever config
-- maps are added, updated and deleted, where no event carries the final state that the informer has
-- missed: every handler returns, and the configuration is that of the defaults with the settings of
-- the first config maps, but for EnableConfigHotRefresh. If that is false at the start, nothing
-- changes any more.
pub run_config_events-bootstrap :
    (source : Source) (get : (namespace name : String) → Option ConfigMap × Option GetError)
    (ctx : ConfigContext) (events : List ConfigEvent)
    → bootstrap get source ≡ inr ctx
    → all carries_map events ≡ true
    → (later : ConfigContext) × (run_config_events source events ctx ≡ some later)
      × (conf_of source later ≡ record (initial_conf source ctx.config_maps) {
        enable_config_hot_refresh = (conf_of source later).enable_config_hot_refresh;
      })
      × ((initial_conf source ctx.config_maps).enable_config_hot_refresh ≡ false → later ≡ ctx)
run_config_events-bootstrap source get ctx events e c =
    let b = bootstrap-Boots source get ctx e in
    let (later, r, f) = run_config_events-Returns source events ctx c b.boots_ready in
    (
      later,
      r,
      ground (arith, f.same_conf, b.boots_conf),
      λ off. f.stays_off (ground (arith, b.boots_conf, off)),
    )
