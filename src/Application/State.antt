-- ===== src/Application/State.antt =====
-- The table of the state machine of an application, newAppState of
-- pkg/cache/application_state.go, and what follows from it alone, whatever the callbacks do.
use yunikorn_k8shim.Prelude.{
  ◌≡◌, refl, sym, ap, subst, ◌∙◌, Bool, true, false, none, some, List, [], ◌∷◌, arith, Option-cases,
  Bool-cases, inl, inr,
}
use yunikorn_k8shim.Fsm.{
  EventDesc, Callbacks, FsmApi, same, destination, run_event, event-run_event,
}
use yunikorn_k8shim.Events.{
  AppState, AppState-Names, app_new, app_submitted, app_accepted, app_reserving, app_running,
  app_rejected, app_completed, app_killing, app_killed, app_failing, app_failed, app_resuming,
  AppEventType, AppEventType-Names, submit_application, accept_application, try_reserve,
  update_reservation, run_application, reject_application, complete_application, fail_application,
  kill_application, app_was_killed, release_app_allocation, resuming_application,
  app_task_completed, AppEvent,
}

abbrev app_row : AppEventType → List AppState → AppState → EventDesc AppState AppEventType
app_row e s d = record { event = e; src = s; dst = d }

-- The fsm.Events of newAppState
abbrev pub app_event_desc : List (EventDesc AppState AppEventType)
app_event_desc =
    app_row submit_application (app_new ∷ []) app_submitted
    ∷ app_row accept_application (app_submitted ∷ []) app_accepted
    ∷ app_row try_reserve (app_accepted ∷ []) app_reserving
    ∷ app_row update_reservation (app_reserving ∷ []) app_reserving
    ∷ app_row resuming_application (app_reserving ∷ []) app_resuming
    ∷ app_row app_task_completed (app_resuming ∷ []) app_resuming
    ∷ app_row run_application (app_accepted ∷ app_reserving ∷ app_resuming ∷ app_running ∷ [])
        app_running
    ∷ app_row release_app_allocation (app_running ∷ app_accepted ∷ app_reserving ∷ []) app_running
    ∷ app_row release_app_allocation (app_failing ∷ []) app_failing
    ∷ app_row release_app_allocation (app_resuming ∷ []) app_resuming
    ∷ app_row complete_application (app_running ∷ []) app_completed
    ∷ app_row reject_application (app_submitted ∷ []) app_rejected
    ∷ app_row fail_application (app_submitted ∷ app_accepted ∷ app_running ∷ app_reserving ∷ [])
        app_failing
    ∷ app_row fail_application (app_failing ∷ app_rejected ∷ []) app_failed
    ∷ app_row kill_application (app_accepted ∷ app_running ∷ app_reserving ∷ []) app_killing
    ∷ app_row app_was_killed (app_killing ∷ []) app_killed
    ∷ []

-- An application that failed, or is bound to.
abbrev pub is_lost : AppState → Bool
is_lost app_rejected = true
is_lost app_failing = true
is_lost app_failed = true
is_lost _ = false

-- An application that is over.
abbrev pub is_over : AppState → Bool
is_over app_completed = true
is_over app_killed = true
is_over app_failed = true
is_over _ = false

abbrev pub next_app_state : AppEventType → AppState → AppState
next_app_state e s = elim (destination app_event_desc e s) [ none ↦ s | some d ↦ d ]

is_lost-next_app_state :
    (e : AppEventType) (s : AppState) → is_lost s ≡ true → is_lost (next_app_state e s) ≡ true
unfolding destination
is_lost-next_app_state e app_new h = absurd (cc h)
is_lost-next_app_state e app_submitted h = absurd (cc h)
is_lost-next_app_state e app_accepted h = absurd (cc h)
is_lost-next_app_state e app_reserving h = absurd (cc h)
is_lost-next_app_state e app_running h = absurd (cc h)
is_lost-next_app_state e app_rejected h =
    elim e as (λ e. is_lost (next_app_state e app_rejected) ≡ true) [
      | submit_application ↦ refl
      | _ ↦ refl
    ]
is_lost-next_app_state e app_completed h = absurd (cc h)
is_lost-next_app_state e app_killing h = absurd (cc h)
is_lost-next_app_state e app_killed h = absurd (cc h)
is_lost-next_app_state e app_failing h =
    elim e as (λ e. is_lost (next_app_state e app_failing) ≡ true) [
      | submit_application ↦ refl
      | _ ↦ refl
    ]
is_lost-next_app_state e app_failed h =
    elim e as (λ e. is_lost (next_app_state e app_failed) ≡ true) [
      | submit_application ↦ refl
      | _ ↦ refl
    ]
is_lost-next_app_state e app_resuming h = absurd (cc h)

no_way_out :
    (e : AppEventType) (s : AppState) → is_over s ≡ true → destination app_event_desc e s ≡ none
unfolding destination
no_way_out e app_new h = absurd (cc h)
no_way_out e app_submitted h = absurd (cc h)
no_way_out e app_accepted h = absurd (cc h)
no_way_out e app_reserving h = absurd (cc h)
no_way_out e app_running h = absurd (cc h)
no_way_out e app_rejected h = absurd (cc h)
no_way_out e app_completed h = elim e as (λ e. destination app_event_desc e app_completed ≡ none) [
  | submit_application ↦ refl
  | _ ↦ refl
]
no_way_out e app_killing h = absurd (cc h)
no_way_out e app_killed h = elim e as (λ e. destination app_event_desc e app_killed ≡ none) [
  | submit_application ↦ refl
  | _ ↦ refl
]
no_way_out e app_failing h = absurd (cc h)
no_way_out e app_failed h = elim e as (λ e. destination app_event_desc e app_failed ≡ none) [
  | submit_application ↦ refl
  | _ ↦ refl
]
no_way_out e app_resuming h = absurd (cc h)

module _ {C : Type 0} where
  -- The events that an application handles one after the other, from a given state.
  unfoldable pub run_app_events :
      FsmApi AppState AppEventType AppEvent C
      → Callbacks AppState AppEvent C
      → List AppEvent
      → AppState
      → C
      → AppState × C
  run_app_events fsm cb [] s c = (s, c)
  run_app_events fsm cb (v ∷ vs) s c =
      let (s', c', _) = fsm.event app_event_desc cb (λ v. v.event) v s c in
      run_app_events fsm cb vs s' c'

  lost_stays :
      (cb : Callbacks AppState AppEvent C) (v : AppEvent) (s : AppState) (c : C)
      → is_lost s ≡ true
      → is_lost (run_event app_event_desc cb (λ v. v.event) v s c).0 ≡ true
  unfolding run_event
  lost_stays cb v s c h = elim (Option-cases (destination app_event_desc v.event s)) [
    | inl a ↦ ground arith
    | inr (d, a) ↦ elim (Bool-cases (same d s)) [
      | inl b ↦ ground arith
      | inr b ↦ ground (arith, is_lost-next_app_state v.event s h)
    ]
  ]

  -- An application that is Rejected, Failing or Failed stays among these states, whatever events it
  -- handles and whatever its callbacks do: it never runs or completes again.
  pub run_app_events-is_lost :
      (fsm : FsmApi AppState AppEventType AppEvent C) (cb : Callbacks AppState AppEvent C)
      (vs : List AppEvent) (s : AppState) (c : C)
      → is_lost s ≡ true
      → is_lost (run_app_events fsm cb vs s c).0 ≡ true
  unfolding run_app_events
  run_app_events-is_lost fsm cb [] s c h = h
  run_app_events-is_lost fsm cb (v ∷ vs) s c h =
      let r = fsm.event app_event_desc cb (λ v. v.event) v s c in
      run_app_events-is_lost fsm cb vs r.0 r.1 (
        subst (λ r. is_lost r.0 ≡ true)
          (sym (event-run_event fsm app_event_desc cb (λ v. v.event) v s c))
          (lost_stays cb v s c h))

  -- An application that is Completed, Killed or Failed refuses every event: no sequence of events
  -- changes its state or runs a callback.
  pub run_app_events-is_over :
      (fsm : FsmApi AppState AppEventType AppEvent C) (cb : Callbacks AppState AppEvent C)
      (vs : List AppEvent) (s : AppState) (c : C)
      → is_over s ≡ true
      → run_app_events fsm cb vs s c ≡ (s, c)
  unfolding run_app_events
  run_app_events-is_over fsm cb [] s c h = refl
  run_app_events-is_over fsm cb (v ∷ vs) s c h =
      ap (λ r. run_app_events fsm cb vs r.0 r.1)
        (fsm.event-invalid app_event_desc cb (λ v. v.event) v s c (no_way_out v.event s h))
      ∙ run_app_events-is_over fsm cb vs s c h
