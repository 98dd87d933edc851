-- ===== src/Configuration/Reload.antt =====
-- triggerReloadConfig of pkg/cache/context.go on top of UpdateConfigMaps.
use yunikorn_k8shim.Prelude.{ℕ, false, Option, some, List, [], ◌∷◌, ◌++◌, ◌≡◌, arith, if◌then◌else◌}
use yunikorn_k8shim.Configuration.Defs.{SchedulerConf, get_scheduler_conf}
use yunikorn_k8shim.Configuration.Maps.{ConfigMap, flatten_config_maps}
use yunikorn_k8shim.Configuration.Update.{
  Source, IsStarted, are_readable, hot_refresh, update_config_maps_lem,
}
use yunikorn_k8shim.Configuration.Handlers.{
  ConfigContext, set_at, conf_of, set_config_map, request_of, trigger_reload_config,
}

module _ (source : Source) where
  -- The context after a reload of the maps
  abbrev pub reloaded : List (Option ConfigMap) → ConfigContext → ConfigContext
  reloaded maps ctx =
      let conf : SchedulerConf = record (conf_of source ctx) {
        enable_config_hot_refresh = hot_refresh source maps;
      } in
      if are_readable source maps
      then record ctx {
        config_maps = maps;
        holder = some conf;
        requests = ctx.requests ++ request_of conf (flatten_config_maps source.gunzip maps) ∷ [];
      }
      else record ctx { config_maps = maps }

  -- triggerReloadConfig in a context where what is not read from config maps is as the process was
  -- started. If EnableConfigHotRefresh is false, nothing changes. Otherwise the config map takes its
  -- place among those of the context in any case. If the settings of all of them do not parse, that
  -- is all. If they do, EnableConfigHotRefresh is theirs, nothing else of the configuration changes,
  -- and the core is sent one request, with the settings of the flattened maps.
  pub trigger_reload_config_lem :
      (index : ℕ) (m : Option ConfigMap) (ctx : ConfigContext) (maps : List (Option ConfigMap))
      → IsStarted source.process (conf_of source ctx)
      → set_at index m ctx.config_maps ≡ some maps
      → trigger_reload_config source index m ctx
        ≡ some (if (conf_of source ctx).enable_config_hot_refresh then reloaded maps ctx else ctx)
  unfolding trigger_reload_config set_config_map get_scheduler_conf
  trigger_reload_config_lem index m ctx maps h e =
      ground (arith, update_config_maps_lem source maps false ctx.holder h)
