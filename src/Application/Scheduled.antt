-- ===== src/Application/Scheduled.antt =====
-- Schedule in the states Reserving and Running.
use yunikorn_k8shim.Prelude.{
  ℕ, String, ◌≡◌, refl, Bool, true, false, not, ◌&&◌, Option, none, some, List, [], ◌∷◌, ◌++◌,
  append_assoc, append-nil, any, all, if◌then◌else◌, arith, eq_iff, Bool-cases, Option-cases, inl,
  inr, subst, sym,
}
use yunikorn_k8shim.Prelude.Dict.{lookup, insert, lookup-insert}
use yunikorn_k8shim.Fsm.{FsmApi, Callbacks, same}
use yunikorn_k8shim.Events.{
  TaskState, TaskState-Names, task_new, task_pending, TaskEventType, TaskEventType-Names, TaskEvent,
  submit_task_event, AppState, AppState-Names, app_reserving, app_running, app_new, AppEventType,
  AppEventType-Names, AppEvent,
}
use yunikorn_k8shim.Task.{
  Task, World, SchedulerInterface, Effect, emit, post_task_pending, dispatch_task, is_terminated,
}
use yunikorn_k8shim.Task.Handle.{handle-init_task}
use yunikorn_k8shim.Application.Tasks.{
  IsKeyed, insert-IsKeyed, lookup-remove_completed_tasks, remove_completed_tasks-same_app, same_new,
}
use yunikorn_k8shim.Application.Schedule.{
  AppStore, get_tasks, schedule_each, schedule_tasks, schedule_and_clean, schedule,
}
use yunikorn_k8shim.Application.Sorted.{find, Distinct, get_tasks-Lists, is_empty-get_tasks}

-- What InitTask makes of a new task, and what it sends
abbrev pub initiated : Task → Task
initiated t = record t { sm = task_pending }

abbrev pub submission : Task → Effect
submission t = dispatch_task (submit_task_event t.application_id t.task_id)

-- The submissions of the tasks of a list that pass a test, in its order
abbrev pub submissions : (Task → Bool) → List Task → List Effect
submissions p [] = []
submissions p (t ∷ ts) = if p t then submission t ∷ submissions p ts else submissions p ts

module _ (create_time : Task → ℕ) ⦃si : SchedulerInterface⦄ (passes_sanity_check : Task → Bool)
    (fsm : FsmApi TaskState TaskEventType TaskEvent (Task × World)) (condition : Task → Bool) where
  abbrev chosen : Task → Bool
  chosen t = condition t && passes_sanity_check t

  abbrev each : List Task → AppStore → AppStore
  each = schedule_each create_time passes_sanity_check fsm condition

  -- What becomes of an entry of the map of tasks, if a task of the list has its ID
  abbrev after_each : Option Task → Option Task → Option Task
  after_each none o = o
  after_each (some t) o = if chosen t then some (initiated t) else o

  -- What scheduling the tasks of a list comes to
  record Scheduled (ts : List Task) (st st' : AppStore) : Type 0 where
    entries :
        (k : String) → lookup k st'.app.task_map ≡ after_each (find k ts) (lookup k st.app.task_map)
    keyed : IsKeyed st'.app.task_map
    keeps_app : st'.app ≡ record st.app { task_map = st'.app.task_map }
    world_is : st'.world ≡ record st.world { effects = st.world.effects ++ submissions chosen ts }

  schedule_each-Scheduled :
      (ts : List Task) (st : AppStore)
      → Distinct ts
      → all (λ t. same t.sm task_new) ts ≡ true
      → IsKeyed st.app.task_map
      → Scheduled ts st (each ts st)
  unfolding schedule_each post_task_pending
  schedule_each-Scheduled [] st d n v = record {
    entries = λ k. refl;
    keyed = v;
    keeps_app = refl;
    world_is = ground (arith, append-nil st.world.effects);
  }
  schedule_each-Scheduled (t ∷ ts) st d n v = elim (Bool-cases (chosen t)) [
    | inl b ↦
        let next : AppStore = record {
          app = record st.app { task_map = insert t.task_id (initiated t) st.app.task_map };
          world = emit (submission t) st.world;
        } in
        let rest =
          schedule_each-Scheduled ts next d.1 (ground arith)
            (insert-IsKeyed (initiated t) st.app.task_map v) in
        let started =
          handle-init_task fsm t.application_id t.task_id t st.world
            (same_new t.sm (ground arith)) in
        let e : each (t ∷ ts) st ≡ each ts next = ground (arith, started) in
        subst (Scheduled (t ∷ ts) st) (sym e) (record {
          entries = λ k. ground (
            arith,
            rest.entries k,
            lookup-insert t.task_id (initiated t) k st.app.task_map,
            eq_iff t.task_id k,
            d.0,
          );
          keyed = rest.keyed;
          keeps_app = ground (arith, rest.keeps_app);
          world_is = ground (
            arith,
            rest.world_is,
            append_assoc st.world.effects (submission t ∷ []) (submissions chosen ts),
          );
        })
    | inr b ↦
        let rest = schedule_each-Scheduled ts st d.1 (ground arith) v in
        let e : each (t ∷ ts) st ≡ each ts st = ground arith in
        subst (Scheduled (t ∷ ts) st) (sym e) (record {
          entries = λ k. ground (arith, rest.entries k, eq_iff t.task_id k, d.0);
          keyed = rest.keyed;
          keeps_app = ground (arith, rest.keeps_app);
          world_is = ground (arith, rest.world_is);
        })
  ]

new_stays : (t : Task) → same t.sm task_new ≡ true → is_terminated t ≡ false
new_stays t h = rw (same_new t.sm h) refl

-- The tasks that Schedule starts in a state
abbrev pub eligible : AppState → Task → Bool
eligible app_reserving t = t.placeholder
eligible app_running t = not t.placeholder
eligible _ t = false

abbrev pub is_scheduling : AppState → Bool
is_scheduling app_reserving = true
is_scheduling app_running = true
is_scheduling _ = false

module _ (create_time : Task → ℕ) ⦃si : SchedulerInterface⦄ (passes_sanity_check : Task → Bool)
    (fsm : FsmApi TaskState TaskEventType TaskEvent (Task × World))
    (app_fsm : FsmApi AppState AppEventType AppEvent AppStore)
    (cb : Callbacks AppState AppEvent AppStore) where
  abbrev pub is_started : AppState → Task → Bool
  is_started s t = eligible s t && passes_sanity_check t

  -- What is left of an entry of the map of tasks
  abbrev pub scheduled_entry : AppState → Option Task → Option Task
  scheduled_entry s none = none
  scheduled_entry s (some t) =
      if is_terminated t
      then none
      else (if same t.sm task_new && is_started s t then some (initiated t) else some t)

  pub record IsScheduled (st : AppStore) (result : AppStore × Bool) : Type 0 where
    pub tasks :
        (k : String)
        → lookup k result.0.app.task_map
          ≡ scheduled_entry st.world.app_state (lookup k st.app.task_map)
    pub sends : result.0.world ≡ record st.world {
      effects =
          st.world.effects
          ++ submissions
              (is_started st.world.app_state)
              (get_tasks create_time task_new st.app.task_map);
    }
    pub same_app : result.0.app ≡ record st.app { task_map = result.0.app.task_map }
    pub answers : result.1 ≡ any (λ (_, t). same t.sm task_new) result.0.app.task_map

  abbrev clean : (Task → Bool) → AppStore → AppStore × Bool
  clean condition = schedule_and_clean create_time passes_sanity_check fsm condition

  cleans :
      (s : AppState) (st : AppStore)
      → st.world.app_state ≡ s
      → is_scheduling s ≡ true
      → schedule create_time passes_sanity_check fsm app_fsm cb st ≡ clean (eligible s) st
  unfolding schedule
  cleans app_reserving st e h = rw e refl
  cleans app_running st e h = rw e refl
  cleans app_new st e h = absurd (cc)
  cleans _ st e h = absurd (cc h)

  abbrev clean_input : AppStore → AppStore
  clean_input st =
      schedule_each create_time passes_sanity_check fsm (eligible st.world.app_state)
        (get_tasks create_time task_new st.app.task_map) st

  clean_lem :
      (st : AppStore)
      → IsKeyed st.app.task_map
      → IsScheduled st (clean (eligible st.world.app_state) st)
  unfolding schedule_and_clean schedule_tasks
  clean_lem st v =
      let s = st.world.app_state in
      let news = get_tasks create_time task_new st.app.task_map in
      let l = get_tasks-Lists create_time task_new st.app.task_map v in
      let r =
        schedule_each-Scheduled create_time passes_sanity_check fsm (eligible s) news st l.distinct
          l.in_that_state v in
      let cleaned = λ (k : String). lookup-remove_completed_tasks k (clean_input st).app r.keyed in
      record {
        tasks = λ k. elim (Option-cases (lookup k st.app.task_map)) [
          | inl e ↦ ground (arith, cleaned k, r.entries k, l.finds k)
          | inr (t, e) ↦ ground (arith, cleaned k, r.entries k, l.finds k, new_stays t)
        ];
        sends = r.world_is;
        same_app =
            ground (arith, remove_completed_tasks-same_app (clean_input st).app, r.keeps_app);
        answers = is_empty-get_tasks create_time task_new _;
      }

  -- Schedule in the states Reserving and Running, where every task is kept under its own ID, once.
  -- The terminated tasks are gone. Of the others, exactly those that are new, pass the sanity check,
  -- and are placeholders while the application reserves or no placeholders while it runs, become
  -- pending, and nothing else changes of any task. For each of them one event to submit it is sent,
  -- in the order of getTasks; nothing else is sent, and nothing else changes of the application. The
  -- answer is whether a new task is left. What the callbacks of the application do plays no part.
  pub schedule_lem :
      (st : AppStore)
      → IsKeyed st.app.task_map
      → is_scheduling st.world.app_state ≡ true
      → IsScheduled st (schedule create_time passes_sanity_check fsm app_fsm cb st)
  schedule_lem st v h =
      subst (IsScheduled st) (sym (cleans st.world.app_state st refl h)) (clean_lem st v)
