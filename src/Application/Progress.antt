-- ===== src/Application/Progress.antt =====
-- How often an application changes its state, by the table of newAppState.
use yunikorn_k8shim.Prelude.{
  ℕ, ◌+◌, ◌≤◌, ◌≡◌, List, [], ◌∷◌, arith, if◌then◌else◌, Option-cases, Bool-cases, inl, inr, refl,
  subst, sym, eq_refl,
}
use yunikorn_k8shim.Fsm.{Callbacks, FsmApi, same, destination, run_event, event-run_event}
use yunikorn_k8shim.Events.{
  AppState, AppState-Names, app_new, app_submitted, app_accepted, app_reserving, app_running,
  app_rejected, app_completed, app_killing, app_killed, app_failing, app_failed, app_resuming,
  AppEventType, AppEventType-Names, submit_application, AppEvent,
}
use yunikorn_k8shim.Application.State.{app_event_desc, next_app_state}

-- The length of the longest way on from a state
abbrev pub steps_left : AppState → ℕ
steps_left app_new = 7
steps_left app_submitted = 6
steps_left app_accepted = 5
steps_left app_reserving = 4
steps_left app_running = 2
steps_left app_rejected = 1
steps_left app_completed = 0
steps_left app_killing = 1
steps_left app_killed = 0
steps_left app_failing = 1
steps_left app_failed = 0
steps_left app_resuming = 3

abbrev pub changed : AppState → AppState → ℕ
changed s s' = if same s' s then 0 else 1

step_uses :
    (e : AppEventType) (s : AppState)
    → changed s (next_app_state e s) + steps_left (next_app_state e s) ≤ steps_left s
unfolding destination
step_uses e app_new =
    elim e
      as (λ e.
        changed app_new (next_app_state e app_new) + steps_left (next_app_state e app_new) ≤ 7) [
          | submit_application ↦ omega arith
          | _ ↦ omega arith
        ]
step_uses e app_submitted =
    elim e
      as (λ e.
        changed app_submitted (next_app_state e app_submitted)
          + steps_left (next_app_state e app_submitted)
        ≤ 6) [ submit_application ↦ omega arith | _ ↦ omega arith ]
step_uses e app_accepted =
    elim e
      as (λ e.
        changed app_accepted (next_app_state e app_accepted)
          + steps_left (next_app_state e app_accepted)
        ≤ 5) [ submit_application ↦ omega arith | _ ↦ omega arith ]
step_uses e app_reserving =
    elim e
      as (λ e.
        changed app_reserving (next_app_state e app_reserving)
          + steps_left (next_app_state e app_reserving)
        ≤ 4) [ submit_application ↦ omega arith | _ ↦ omega arith ]
step_uses e app_running =
    elim e
      as (λ e.
        changed app_running (next_app_state e app_running)
          + steps_left (next_app_state e app_running)
        ≤ 2) [ submit_application ↦ omega arith | _ ↦ omega arith ]
step_uses e app_rejected =
    elim e
      as (λ e.
        changed app_rejected (next_app_state e app_rejected)
          + steps_left (next_app_state e app_rejected)
        ≤ 1) [ submit_application ↦ omega arith | _ ↦ omega arith ]
step_uses e app_completed =
    elim e
      as (λ e.
        changed app_completed (next_app_state e app_completed)
          + steps_left (next_app_state e app_completed)
        ≤ 0) [ submit_application ↦ omega arith | _ ↦ omega arith ]
step_uses e app_killing =
    elim e
      as (λ e.
        changed app_killing (next_app_state e app_killing)
          + steps_left (next_app_state e app_killing)
        ≤ 1) [ submit_application ↦ omega arith | _ ↦ omega arith ]
step_uses e app_killed =
    elim e
      as (λ e.
        changed app_killed (next_app_state e app_killed) + steps_left (next_app_state e app_killed)
        ≤ 0) [ submit_application ↦ omega arith | _ ↦ omega arith ]
step_uses e app_failing =
    elim e
      as (λ e.
        changed app_failing (next_app_state e app_failing)
          + steps_left (next_app_state e app_failing)
        ≤ 1) [ submit_application ↦ omega arith | _ ↦ omega arith ]
step_uses e app_failed =
    elim e
      as (λ e.
        changed app_failed (next_app_state e app_failed) + steps_left (next_app_state e app_failed)
        ≤ 0) [ submit_application ↦ omega arith | _ ↦ omega arith ]
step_uses e app_resuming =
    elim e
      as (λ e.
        changed app_resuming (next_app_state e app_resuming)
          + steps_left (next_app_state e app_resuming)
        ≤ 3) [ submit_application ↦ omega arith | _ ↦ omega arith ]

changed_self : (s : AppState) → changed s s ≡ 0
changed_self s = rw (eq_refl (AppState-Names.name s)) refl

module _ {C : Type 0} (fsm : FsmApi AppState AppEventType AppEvent C)
    (cb : Callbacks AppState AppEvent C) where
  -- How many of the events that an application handles change its state
  unfoldable pub count_changes : List AppEvent → AppState → C → ℕ
  count_changes [] s c = 0
  count_changes (v ∷ vs) s c =
      let (s', c', _) = fsm.event app_event_desc cb (λ v. v.event) v s c in
      changed s s' + count_changes vs s' c'

  abbrev state_after : AppEvent → AppState → C → AppState
  state_after v s c = (run_event app_event_desc cb (λ v. v.event) v s c).0

  abbrev Uses : AppState → AppState → Type 0
  Uses s s' = changed s s' + steps_left s' ≤ steps_left s

  run-Uses : (v : AppEvent) (s : AppState) (c : C) → Uses s (state_after v s c)
  unfolding run_event
  run-Uses v s c =
      let stay : Uses s s = omega (arith, changed_self s) in
      elim (Option-cases (destination app_event_desc v.event s)) [
        | inl a ↦ subst (Uses s) (sym (ground arith)) stay
        | inr (d, a) ↦ elim (Bool-cases (same d s)) [
          | inl b ↦ subst (Uses s) (sym (ground arith)) stay
          | inr b ↦ subst (Uses s) (ground arith) (step_uses v.event s)
        ]
      ]

  handled-Uses :
      (v : AppEvent) (s : AppState) (c : C)
      → (let s' = (fsm.event app_event_desc cb (λ v. v.event) v s c).0 in
          changed s s' + steps_left s')
        ≤ steps_left s
  handled-Uses v s c =
      subst (λ r. Uses s r.0) (sym (event-run_event fsm app_event_desc cb (λ v. v.event) v s c))
        (run-Uses v s c)

  -- However many events an application handles, and whatever they and its callbacks do: they change
  -- its state at most as often as the longest way on from the state that it is in has steps, which
  -- is seven times for a new application.
  pub count_changes-le :
      (vs : List AppEvent) (s : AppState) (c : C) → count_changes vs s c ≤ steps_left s
  unfolding count_changes
  count_changes-le [] s c = omega arith
  count_changes-le (v ∷ vs) s c =
      let (s', c', _) = fsm.event app_event_desc cb (λ v. v.event) v s c in
      omega (arith, count_changes-le vs s' c', handled-Uses v s c)
