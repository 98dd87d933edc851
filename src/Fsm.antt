-- ===== src/Fsm.antt =====
-- What the shim uses of github.com/looplab/fsm, as a parameter: an event looks the current state
-- up in a table and runs callbacks. States and events are told apart by their names.
use yunikorn_k8shim.Prelude.{
  String, ◌≡◌, refl, Bool, true, false, ◌&&◌, Option, none, some, List, [], ◌∷◌, ◌==◌,
  if◌then◌else◌, any, arith, Option-cases, Bool-cases, inl, inr,
}

pub record Names (S : Type 0) : Type 0 where
  pub name : S → String

abbrev pub same : {S : Type 0} ⦃ns : Names S⦄ → S → S → Bool
same ⦃ns⦄ s t = ns.name s == ns.name t

-- fsm.EventDesc
pub record EventDesc (S E : Type 0) : Type 0 where
  pub event : E
  pub src : List S
  pub dst : S

-- What an event `V` does to a context `C`: before_EVENT with the state that it leaves, enter_STATE,
-- and after_EVENT, which may set event.Err.
pub record Callbacks (S V C : Type 0) : Type 0 where
  pub before : V → S → C → C
  pub enter : V → S → C → C
  pub after : V → C → C × Option String

pub data FsmError : Type 0 where
  invalid_event : FsmError
  no_transition : Option String → FsmError
  event_error : String → FsmError

-- An error that a callback sets is the error of the event.
abbrev pub failed : Option String → Option FsmError
failed none = none
failed (some e) = some (event_error e)

-- There is a state that the event leads to.
abbrev pub leads : {S : Type 0} → Option S → Bool
leads none = false
leads (some _) = true

module _ {S E : Type 0} ⦃states : Names S⦄ ⦃events : Names E⦄ where
  -- The state that the event leads to. The table is a map, so the last row counts.
  unfoldable pub destination : List (EventDesc S E) → E → S → Option S
  destination [] e s = none
  destination (r ∷ rs) e s =
      let rest = destination rs e s in
      elim rest [
        | some d ↦ some d
        | none ↦ if same r.event e && any (same s) r.src then some r.dst else none
      ]

  -- The documented run of an event: an error if the table has no row, no change of state and a
  -- "no transition" error if the row leads back, and a transition otherwise.
  unfoldable pub run_event :
      {V C : Type 0}
      → List (EventDesc S E)
      → Callbacks S V C
      → (V → E)
      → V
      → S
      → C
      → S × C × Option FsmError
  run_event rows cb kind v s c = elim (destination rows (kind v) s) [
    | none ↦ (s, c, some invalid_event)
    | some d ↦
        if same d s
        then (let (c', e) = cb.after v (cb.before v s c) in (s, c', some (no_transition e)))
        else (let (c', e) = cb.after v (cb.enter v d (cb.before v s c)) in (d, c', failed e))
  ]

module _ (S E : Type 0) ⦃states : Names S⦄ ⦃events : Names E⦄ where
  pub record FsmApi (V C : Type 0) : Type 0 where
    -- FSM.Event from the given current state: the state after it, the context and the error
    pub event :
        List (EventDesc S E) → Callbacks S V C → (V → E) → V → S → C → S × C × Option FsmError
    -- FSM.Can
    pub can : List (EventDesc S E) → E → S → Bool
    pub can-destination :
        (rows : List (EventDesc S E)) (e : E) (s : S) → can rows e s ≡ leads (destination rows e s)
    pub event-invalid :
        (rows : List (EventDesc S E)) (cb : Callbacks S V C) (kind : V → E) (v : V) (s : S) (c : C)
        → destination rows (kind v) s ≡ none
        → event rows cb kind v s c ≡ (s, c, some invalid_event)
    pub event-stays :
        (rows : List (EventDesc S E)) (cb : Callbacks S V C) (kind : V → E) (v : V) (s d : S)
        (c : C)
        → destination rows (kind v) s ≡ some d
        → same d s ≡ true
        → event rows cb kind v s c
          ≡ (let (c', e) = cb.after v (cb.before v s c) in (s, c', some (no_transition e)))
    pub event-moves :
        (rows : List (EventDesc S E)) (cb : Callbacks S V C) (kind : V → E) (v : V) (s d : S)
        (c : C)
        → destination rows (kind v) s ≡ some d
        → same d s ≡ false
        → event rows cb kind v s c
          ≡ (let (c', e) = cb.after v (cb.enter v d (cb.before v s c)) in (d, c', failed e))

module _ {S E : Type 0} ⦃states : Names S⦄ ⦃events : Names E⦄ where
  pub event-run_event :
      {V C : Type 0} (fsm : FsmApi S E V C) (rows : List (EventDesc S E)) (cb : Callbacks S V C)
      (kind : V → E) (v : V) (s : S) (c : C)
      → fsm.event rows cb kind v s c ≡ run_event rows cb kind v s c
  unfolding run_event
  event-run_event fsm rows cb kind v s c = elim (Option-cases (destination rows (kind v) s)) [
    | inl a ↦ ground (arith, fsm.event-invalid rows cb kind v s c)
    | inr (d, a) ↦ elim (Bool-cases (same d s)) [
      | inl b ↦ ground (arith, fsm.event-stays rows cb kind v s d c)
      | inr b ↦ ground (arith, fsm.event-moves rows cb kind v s d c)
    ]
  ]

  pub run_event-invalid :
      {V C : Type 0} (rows : List (EventDesc S E)) (cb : Callbacks S V C) (kind : V → E) (v : V)
      (s : S) (c : C)
      → destination rows (kind v) s ≡ none
      → run_event rows cb kind v s c ≡ (s, c, some invalid_event)
  unfolding run_event
  run_event-invalid rows cb kind v s c a = ground arith

  pub run_event-stays :
      {V C : Type 0} (rows : List (EventDesc S E)) (cb : Callbacks S V C) (kind : V → E) (v : V)
      (s d : S) (c : C)
      → destination rows (kind v) s ≡ some d
      → same d s ≡ true
      → run_event rows cb kind v s c
        ≡ (let (c', e) = cb.after v (cb.before v s c) in (s, c', some (no_transition e)))
  unfolding run_event
  run_event-stays rows cb kind v s d c a b = ground arith

  pub run_event-moves :
      {V C : Type 0} (rows : List (EventDesc S E)) (cb : Callbacks S V C) (kind : V → E) (v : V)
      (s d : S) (c : C)
      → destination rows (kind v) s ≡ some d
      → same d s ≡ false
      → run_event rows cb kind v s c
        ≡ (let (c', e) = cb.after v (cb.enter v d (cb.before v s c)) in (d, c', failed e))
  unfolding run_event
  run_event-moves rows cb kind v s d c a b = ground arith

  -- The documented run of an event is such a machine.
  abbrev pub documented : {V C : Type 0} → FsmApi S E V C
  documented = record {
    event = run_event;
    can = λ rows e s. leads (destination rows e s);
    can-destination = λ rows e s. refl;
    event-invalid = run_event-invalid;
    event-stays = run_event-stays;
    event-moves = run_event-moves;
  }
