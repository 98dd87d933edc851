-- ===== src/Task/Release.antt =====
-- releaseAllocation and the list of releases that wait for the application.
use yunikorn_k8shim.Prelude.{
  ℕ, ◌+◌, ◌≤◌, String, ◌≡◌, refl, Bool, true, false, ◌||◌, not, List, [], ◌∷◌, ◌++◌, ◌==◌,
  if◌then◌else◌, any, arith, eq_iff, Bool-cases, inl, inr,
}
use yunikorn_k8shim.Fsm.{same}
use yunikorn_k8shim.Events.{AppState, AppState-Names, app_new, app_submitted}
use yunikorn_k8shim.Task.Defs.{
  release_for_task, send_release, try_add_releasable_task, release_allocation,
}
use yunikorn_k8shim.Task.Types.{Task, World, SchedulerInterface, emit, release}

-- The core does not know the application yet.
abbrev pub is_unaccepted : AppState → Bool
is_unaccepted app_new = true
is_unaccepted app_submitted = true
is_unaccepted _ = false

unaccepted_lem : (s : AppState) → (same s app_new || same s app_submitted) ≡ is_unaccepted s
unaccepted_lem s = elim s as (λ s. (same s app_new || same s app_submitted) ≡ is_unaccepted s) [
  | app_new ↦ refl
  | _ ↦ refl
]

-- How often the task waits in the list.
abbrev pub waiting : String → List String → ℕ
waiting k [] = 0
waiting k (j ∷ js) = (if j == k then 1 else 0) + waiting k js

waiting-append :
    (k j : String) (js : List String)
    → waiting k (js ++ j ∷ []) ≡ waiting k js + (if j == k then 1 else 0)
waiting-append k j [] = omega arith
waiting-append k j (i ∷ js) = omega (arith, waiting-append k j js)

waiting-any : (k : String) (js : List String) → any (λ j. j == k) js ≡ false → waiting k js ≡ 0
waiting-any k [] h = refl
waiting-any k (j ∷ js) h = ground (arith, waiting-any k js)

waiting-any-true : (k : String) (js : List String) → any (λ j. j == k) js ≡ true → 1 ≤ waiting k js
waiting-any-true k [] h = absurd (cc h)
waiting-any-true k (j ∷ js) h = ground (arith, waiting-any-true k js)

module _ ⦃si : SchedulerInterface⦄ where
  -- What releaseAllocation leaves behind: the release was sent, or it waits and nothing was sent.
  pub record Released (force : Bool) (t : Task) (w w' : World) : Type 0 where
    pub sent :
        (force || not (is_unaccepted w.app_state)) ≡ true
        → w' ≡ (if w.has_scheduler_api then emit (release (release_for_task t w)) w else w)
    pub kept :
        (force || not (is_unaccepted w.app_state)) ≡ false
        → (w'.effects ≡ w.effects)
          × (waiting t.task_id w'.releaseable_tasks ≡ 1)
          × ((k : String)
              → (t.task_id == k) ≡ false
              → waiting k w'.releaseable_tasks ≡ waiting k w.releaseable_tasks)

  -- A release is sent to the core, as the one request and with nothing else changed, if it is forced
  -- or the application is past Submitted. Otherwise nothing is sent, and the task waits in the list
  -- of the application exactly once, provided that it stood there at most once; no other task comes
  -- or goes.
  pub release_allocation_lem :
      (force : Bool) (t : Task) (w : World)
      → waiting t.task_id w.releaseable_tasks ≤ 1
      → Released force t w (release_allocation force t w)
  unfolding release_allocation try_add_releasable_task send_release
  release_allocation_lem force t w h = record {
    sent = λ e. ground (arith, unaccepted_lem w.app_state);
    kept = λ e. elim (Bool-cases (any (λ j. j == t.task_id) w.releaseable_tasks)) [
      | inl a ↦ (
        ground (arith, unaccepted_lem w.app_state),
        ground (arith, unaccepted_lem w.app_state, waiting-any-true t.task_id w.releaseable_tasks),
        λ k n. ground (arith, unaccepted_lem w.app_state),
      )
      | inr a ↦ (
        ground (arith, unaccepted_lem w.app_state),
        ground (
          arith,
          unaccepted_lem w.app_state,
          waiting-any t.task_id w.releaseable_tasks,
          waiting-append t.task_id t.task_id w.releaseable_tasks,
          eq_iff t.task_id t.task_id,
        ),
        λ k n.
            ground
              (arith, unaccepted_lem w.app_state, waiting-append k t.task_id w.releaseable_tasks),
      )
    ];
  }
