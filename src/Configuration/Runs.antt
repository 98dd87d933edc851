-- ===== src/Configuration/Runs.antt =====
-- Runs of the handlers of config maps.
use yunikorn_k8shim.Prelude.{
  ℕ, String, Bool, true, false, ◌==◌, Option, none, some, List, [], ◌∷◌, ◌≡◌, ◌<◌, refl, arith, inl,
  inr, zero, suc, length, Bool-cases, all,
}
use yunikorn_k8shim.Configuration.Defs.{get_scheduler_conf}
use yunikorn_k8shim.Configuration.Maps.{ConfigMap}
use yunikorn_k8shim.Configuration.Update.{Source, IsStarted}
use yunikorn_k8shim.Configuration.Handlers.{
  ConfigContext, ConfigEvent, config_added, config_updated, config_deleted, config_map, set_at,
  conf_of, trigger_reload_config, reload_named, add_config_maps, update_config_maps_handler,
  delete_config_maps, convert_to_config_map, handle_config_event, run_config_events,
}
use yunikorn_k8shim.Configuration.Reload.{reloaded, trigger_reload_config_lem}

-- An event carries a config map, rather than the final state that the informer has missed.
abbrev pub carries_map : ConfigEvent → Bool
carries_map (config_added (config_map _)) = true
carries_map (config_updated _ (config_map _)) = true
carries_map (config_deleted (config_map _)) = true
carries_map _ = false

set_at_lem :
    {A : Type 0} (i : ℕ) (x : A) (xs : List A)
    → i < length xs
    → (ys : List A) × (set_at i x xs ≡ some ys) × (length ys ≡ length xs)
unfolding set_at
set_at_lem i x [] h = absurd (omega arith)
set_at_lem zero x (_ ∷ xs) h = (x ∷ xs, refl, refl)
set_at_lem (suc i) x (y ∷ xs) h =
    let (ys, e, l) = set_at_lem i x xs (omega arith) in (y ∷ ys, ground arith, ground arith)

module _ (source : Source) where
  -- A context in which reloads work
  pub record IsReady (ctx : ConfigContext) : Type 0 where
    pub two_maps : length ctx.config_maps ≡ 2
    pub started : IsStarted source.process (conf_of source ctx)

  -- What may change from one context to a later one
  pub record Follows (ctx later : ConfigContext) : Type 0 where
    pub ready : IsReady later
    pub same_conf : conf_of source later ≡ record (conf_of source ctx) {
      enable_config_hot_refresh = (conf_of source later).enable_config_hot_refresh;
    }
    pub stays_off : (conf_of source ctx).enable_config_hot_refresh ≡ false → later ≡ ctx

  Follows-refl : (ctx : ConfigContext) → IsReady ctx → Follows ctx ctx
  Follows-refl ctx h = record { ready = h; same_conf = refl; stays_off = λ _. refl }

  Follows-trans : (a b c : ConfigContext) → Follows a b → Follows b c → Follows a c
  Follows-trans a b c f g = record {
    ready = g.ready;
    same_conf = ground (arith, f.same_conf, g.same_conf);
    stays_off = λ e. ground (arith, f.stays_off e, g.stays_off);
  }

  reloaded-Follows :
      (ctx : ConfigContext) (maps : List (Option ConfigMap))
      → IsReady ctx
      → length maps ≡ 2
      → (conf_of source ctx).enable_config_hot_refresh ≡ true
      → Follows ctx (reloaded source maps ctx)
  unfolding get_scheduler_conf
  reloaded-Follows ctx maps h l e = record {
    ready = record {
      two_maps = ground (arith, l);
      started = record {
        same_scheduler_name = ground (arith, h.started.same_scheduler_name);
        same_version = ground (arith, h.started.same_version);
        same_kube_config = ground (arith, h.started.same_kube_config);
        same_namespace = ground (arith, h.started.same_namespace);
      };
    };
    same_conf = ground arith;
    stays_off = λ off. absurd (cc);
  }

  -- It returns, and the context follows.
  abbrev pub Returns : ConfigContext → Option ConfigContext → Type 0
  Returns ctx result = (later : ConfigContext) × (result ≡ some later) × Follows ctx later

  trigger-Returns :
      (index : ℕ) (m : Option ConfigMap) (ctx : ConfigContext)
      → index < 2
      → IsReady ctx
      → Returns ctx (trigger_reload_config source index m ctx)
  trigger-Returns index m ctx lt h =
      let (maps, e, l) = set_at_lem index m ctx.config_maps (ground (arith, h.two_maps)) in
      let lem = trigger_reload_config_lem source index m ctx maps h.started e in
      elim (Bool-cases (conf_of source ctx).enable_config_hot_refresh) [
        | inl on ↦ (
          reloaded source maps ctx,
          ground arith,
          reloaded-Follows ctx maps h (ground (arith, h.two_maps)) on,
        )
        | inr off ↦ (ctx, ground arith, Follows-refl ctx h)
      ]

  pub reload_named-Returns :
      (name : String) (m : Option ConfigMap) (ctx : ConfigContext)
      → IsReady ctx
      → Returns ctx (reload_named source name m ctx)
  unfolding reload_named
  reload_named-Returns name m ctx h = elim (Bool-cases (name == "yunikorn-defaults")) [
    | inl e ↦
        let (later, r, f) = trigger-Returns 0 m ctx (omega arith) h in (later, ground arith, f)
    | inr e ↦ elim (Bool-cases (name == "yunikorn-configs")) [
      | inl e' ↦
          let (later, r, f) = trigger-Returns 1 m ctx (omega arith) h in (later, ground arith, f)
      | inr e' ↦ (ctx, ground arith, Follows-refl ctx h)
    ]
  ]

  handle_config_event-Returns :
      (e : ConfigEvent) (ctx : ConfigContext)
      → carries_map e ≡ true
      → IsReady ctx
      → Returns ctx (handle_config_event source e ctx)
  unfolding handle_config_event add_config_maps update_config_maps_handler delete_config_maps
      convert_to_config_map
  handle_config_event-Returns (config_added (config_map m)) ctx c h =
      reload_named-Returns m.name (some m) ctx h
  handle_config_event-Returns (config_updated old (config_map m)) ctx c h =
      reload_named-Returns m.name (some m) ctx h
  handle_config_event-Returns (config_deleted (config_map m)) ctx c h =
      reload_named-Returns m.name none ctx h
  handle_config_event-Returns _ ctx c h = absurd (cc)

  pub run_config_events-Returns :
      (es : List ConfigEvent) (ctx : ConfigContext)
      → all carries_map es ≡ true
      → IsReady ctx
      → Returns ctx (run_config_events source es ctx)
  unfolding run_config_events
  run_config_events-Returns [] ctx c h = (ctx, refl, Follows-refl ctx h)
  run_config_events-Returns (e ∷ es) ctx c h =
      let (next, r, f) = handle_config_event-Returns e ctx (ground arith) h in
      let (later, r', g) = run_config_events-Returns es next (ground arith) f.ready in
      (later, ground arith, Follows-trans ctx next later f g)
