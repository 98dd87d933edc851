-- ===== src/Configuration/Handlers.antt =====
-- The handlers of config maps in pkg/cache/context.go, and how cmd/shim/main.go loads the first
-- ones through pkg/client. `none` is a nil pointer that is dereferenced, or an index out of range.
use yunikorn_k8shim.Prelude.{
  ℕ, zero, suc, String, Bool, true, false, ◌&&◌, ◌||◌, ◌==◌, Option, none, some, List, [], ◌∷◌,
  ◌++◌, ◌⊎◌, inl, inr, if◌then◌else◌,
}
use yunikorn_k8shim.Prelude.Dict.{Dict}
use yunikorn_k8shim.Configuration.Defs.{SchedulerConf, get_scheduler_conf, get_scheduler_namespace}
use yunikorn_k8shim.Configuration.Maps.{
  ConfigMap, flatten_config_maps, get_core_scheduler_config_from_config_map,
  get_extra_config_from_config_map,
}
use yunikorn_k8shim.Configuration.Update.{Source, update_config_maps}

-- What an informer hands over; a v1.ConfigMap is never a nil pointer.
pub data Object : Type 0 where
  config_map : ConfigMap → Object
  deleted_final_state_unknown : Object → Object
  other_object : Object

-- si.UpdateConfigurationRequest, without the ID of the resource manager, which is the cluster's
pub record UpdateConfigurationRequest : Type 0 where
  pub cluster_id : String
  pub policy_group : String
  pub config : String
  pub extra_config : Dict String

-- The fields of the Context that the handlers use, the holder of the configuration, and the
-- requests that the core was sent
pub record ConfigContext : Type 0 where
  pub namespace : String
  pub config_maps : List (Option ConfigMap)
  pub holder : Option SchedulerConf
  pub requests : List UpdateConfigurationRequest

-- s[i] = x
unfoldable pub set_at {ℓ} : {A : Type ℓ} → ℕ → A → List A → Option (List A)
set_at i x [] = none
set_at zero x (_ ∷ ys) = some (x ∷ ys)
set_at (suc i) x (y ∷ ys) = elim (set_at i x ys) [ none ↦ none | some zs ↦ some (y ∷ zs) ]

unfoldable pub filter_config_maps : ConfigContext → Object → Bool
filter_config_maps ctx (config_map m) =
    (m.name == "yunikorn-defaults" || m.name == "yunikorn-configs") && m.namespace == ctx.namespace
filter_config_maps ctx (deleted_final_state_unknown obj) = filter_config_maps ctx obj
filter_config_maps ctx other_object = false

-- Convert2ConfigMap
unfoldable pub convert_to_config_map : Object → Option ConfigMap
convert_to_config_map (config_map m) = some m
convert_to_config_map (deleted_final_state_unknown _) = none
convert_to_config_map other_object = none

-- The request that a reload sends
unfoldable pub request_of : SchedulerConf → Dict String → UpdateConfigurationRequest
request_of conf conf_map = record {
  cluster_id = conf.cluster_id;
  policy_group = conf.policy_group;
  config = get_core_scheduler_config_from_config_map conf.policy_group conf_map;
  extra_config = get_extra_config_from_config_map conf_map;
}

pub data ConfigEvent : Type 0 where
  config_added : Object → ConfigEvent
  config_updated : Object → Object → ConfigEvent
  config_deleted : Object → ConfigEvent

module _ (source : Source) where
  abbrev pub conf_of : ConfigContext → SchedulerConf
  conf_of ctx = get_scheduler_conf source.process ctx.holder

  -- setConfigMap, whose maps stay changed also where nothing is returned
  unfoldable pub set_config_map :
      ℕ → Option ConfigMap → ConfigContext → Option (ConfigContext × Option (Dict String))
  set_config_map index m ctx = elim (set_at index m ctx.config_maps) [
    | none ↦ none
    | some maps ↦
        let (holder, err) = update_config_maps source maps false ctx.holder in
        let ctx = record ctx { config_maps = maps; holder = holder } in
        elim err [
          | some _ ↦ some (ctx, none)
          | none ↦ some (ctx, some (flatten_config_maps source.gunzip maps))
        ]
  ]

  -- triggerReloadConfig. An error of UpdateConfiguration is only logged.
  unfoldable pub trigger_reload_config : ℕ → Option ConfigMap → ConfigContext → Option ConfigContext
  trigger_reload_config index m ctx =
      if (conf_of ctx).enable_config_hot_refresh
      then elim (set_config_map index m ctx) [
        | none ↦ none
        | some result ↦
            let (ctx, conf_map) = result in
            elim conf_map [
              | none ↦ some ctx
              | some flat ↦
                  some
                    (record ctx { requests = ctx.requests ++ request_of (conf_of ctx) flat ∷ [] })
            ]
      ]
      else some ctx

  -- The switch on the name of the three handlers; the map is nil if it was deleted.
  unfoldable pub reload_named : String → Option ConfigMap → ConfigContext → Option ConfigContext
  reload_named name m ctx =
      if name == "yunikorn-defaults"
      then trigger_reload_config 0 m ctx
      else (if name == "yunikorn-configs" then trigger_reload_config 1 m ctx else some ctx)

  unfoldable pub add_config_maps : Object → ConfigContext → Option ConfigContext
  add_config_maps obj ctx = elim (convert_to_config_map obj) [
    | none ↦ none
    | some m ↦ reload_named m.name (some m) ctx
  ]

  unfoldable pub update_config_maps_handler : Object → Object → ConfigContext → Option ConfigContext
  update_config_maps_handler old new ctx = elim (convert_to_config_map new) [
    | none ↦ none
    | some m ↦ reload_named m.name (some m) ctx
  ]

  unfoldable pub delete_config_maps : Object → ConfigContext → Option ConfigContext
  delete_config_maps (config_map m) ctx = reload_named m.name none ctx
  delete_config_maps (deleted_final_state_unknown obj) ctx =
      elim (convert_to_config_map (deleted_final_state_unknown obj)) [
        | none ↦ none
        | some m ↦ reload_named m.name none ctx
      ]
  delete_config_maps other_object ctx = some ctx

  -- What the informer tells the handlers
  unfoldable pub handle_config_event : ConfigEvent → ConfigContext → Option ConfigContext
  handle_config_event (config_added obj) = add_config_maps obj
  handle_config_event (config_updated old new) = update_config_maps_handler old new
  handle_config_event (config_deleted obj) = delete_config_maps obj

  unfoldable pub run_config_events : List ConfigEvent → ConfigContext → Option ConfigContext
  run_config_events [] ctx = some ctx
  run_config_events (e ∷ es) ctx = elim (handle_config_event e ctx) [
    | none ↦ none
    | some ctx' ↦ run_config_events es ctx'
  ]

-- An error of Get of the config maps of a namespace
pub data GetError : Type 0 where
  not_found : GetError
  get_failed : String → GetError

module _ (get : (namespace name : String) → Option ConfigMap × Option GetError) where
  -- GetConfigMap of SchedulerKubeClient
  unfoldable pub get_config_map : String → String → String ⊎ Option ConfigMap
  get_config_map namespace name =
      let (m, err) = get namespace name in
      elim err [ none ↦ inr m | some e ↦ elim e [ not_found ↦ inr m | get_failed text ↦ inl text ] ]

  -- LoadBootstrapConfigMaps
  unfoldable pub load_bootstrap_config_maps : Source → String ⊎ List (Option ConfigMap)
  load_bootstrap_config_maps source =
      let namespace = get_scheduler_namespace source.process in
      elim (get_config_map namespace "yunikorn-defaults") [
        | inl err ↦ inl err
        | inr defaults ↦ elim (get_config_map namespace "yunikorn-configs") [
          | inl err ↦ inl err
          | inr config ↦ inr (defaults ∷ config ∷ [])
        ]
      ]

  -- What main does before the services start, with NewContextWithBootstrapConfigMaps: the text of
  -- Fatal, or the context
  unfoldable pub bootstrap : Source → String ⊎ ConfigContext
  bootstrap source = elim (load_bootstrap_config_maps source) [
    | inl err ↦ inl err
    | inr maps ↦
        let (holder, err) = update_config_maps source maps true none in
        elim err [
          | some text ↦ inl text
          | none ↦ inr (record {
            namespace = (get_scheduler_conf source.process holder).namespace;
            config_maps = maps;
            holder = holder;
            requests = [];
          })
        ]
  ]
