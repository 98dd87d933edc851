-- ===== src/Dispatcher/Defs.antt =====
-- The dispatcher of pkg/dispatcher/dispatcher.go, with the callers of Dispatch, Start and Stop, the
-- event loops and the goroutines of asyncDispatch as the threads of a step relation. A step touches
-- shared state once, where a read of the field stopChan goes with what is done to the channel.
use Prim.Native.Nat.{◌/◌}
use yunikorn_k8shim.Prelude.{
  ℕ, leb, ◌+◌, ◌-◌, ◌%◌, ltb, Bool, true, false, if◌then◌else◌, not, ◌&&◌, ◌||◌, List, [], ◌∷◌,
  ◌++◌, length,
}

-- Where a goroutine of asyncDispatch is: before its test of isRunning, in its select, or before the
-- deferred Add(-1).
pub data GoroutineAt : Type 0 where
  at_test in_select at_leave : GoroutineAt

-- What asyncDispatch starts: the event, and the stopChan at that time.
pub record Goroutine (E : Type 0) : Type 0 where
  pub event : E
  pub stop : ℕ
  pub at : GoroutineAt

-- Where a call of dispatch is: before its select, before the Add(1) of asyncDispatch, or with the
-- count that this returned.
pub data CallerAt : Type 0 where
  at_select at_add : CallerAt
  at_limit : (count : ℕ) → CallerAt

pub record Caller (E : Type 0) : Type 0 where
  pub event : E
  pub at : CallerAt

-- What becomes of the events, oldest first: those that Dispatch took, those of them that were left
-- to a goroutine, those that were put into the channel, that an event loop received from it and
-- hands to the handlers, and that a goroutine gave up.
pub record History (E : Type 0) : Type 0 where
  pub accepted : List E
  pub detached : List E
  pub enqueued : List E
  pub delivered : List E
  pub dropped : List E

-- The channels for stopping are numbered in the order in which they are made, and `stopped` is the
-- wait group. Threads that hold no data are counted by the place where they are: the calls of Start
-- before each of its four effects, those of Stop before close, and the event loops before their
-- select, where an event may be handled, before setRunning(false) and before Done. An event loop in
-- its select waits for the stopChan that it read on entering it.
pub record Dispatcher (E : Type 0) : Type 0 where
  pub event_chan : List E
  pub event_channel_capacity : ℕ
  pub stop_chan : ℕ
  pub stop_closed : ℕ → Bool
  pub running : Bool
  pub stopped : ℕ
  pub async_dispatch_limit : ℕ
  pub dispatch_timeout : ℕ
  pub async_dispatch_count : ℕ
  pub callers : List (Caller E)
  pub starts_at_make : ℕ
  pub starts_at_add : ℕ
  pub starts_at_go : ℕ
  pub starts_at_set : ℕ
  pub stops_at_close : ℕ
  pub loops_at_top : ℕ
  pub loops_in_select : List ℕ
  pub loops_at_set : ℕ
  pub loops_at_done : ℕ
  pub goroutines : List (Goroutine E)
  pub history : History E

-- int32(n), as the signed value where that is positive and otherwise 0
unfoldable pub positive_int32 : ℕ → ℕ
positive_int32 n = let low = n % 4294967296 in if ltb low 2147483648 then low else 0

-- atomic.Int32, as a bit pattern; -1 is 4294967295
unfoldable pub add_int32 : ℕ → ℕ → ℕ
add_int32 a b = (a + b) % 4294967296

-- max(10000, int32(eventChannelCapacity/10))
unfoldable pub limit_of : ℕ → ℕ
limit_of capacity =
    let tenth = positive_int32 (capacity / 10) in if ltb 10000 tenth then tenth else 10000

module _ {E : Type 0} where
  -- initDispatcher
  unfoldable pub init_dispatcher : ℕ → ℕ → Dispatcher E
  init_dispatcher capacity timeout = record {
    event_chan = [];
    event_channel_capacity = capacity;
    stop_chan = 0;
    stop_closed = λ _. false;
    running = false;
    stopped = 0;
    async_dispatch_limit = limit_of capacity;
    dispatch_timeout = timeout;
    async_dispatch_count = 0;
    callers = [];
    starts_at_make = 0;
    starts_at_add = 0;
    starts_at_go = 0;
    starts_at_set = 0;
    stops_at_close = 0;
    loops_at_top = 0;
    loops_in_select = [];
    loops_at_set = 0;
    loops_at_done = 0;
    goroutines = [];
    history = record { accepted = []; detached = []; enqueued = []; delivered = []; dropped = [] };
  }

  unfoldable pub has_room : Dispatcher E → Bool
  has_room p = ltb (length p.event_chan) p.event_channel_capacity

  -- p.eventChan <- event
  unfoldable pub send : E → Dispatcher E → Dispatcher E
  send event p = record p {
    event_chan = p.event_chan ++ event ∷ [];
    history = record p.history { enqueued = p.history.enqueued ++ event ∷ [] };
  }

  abbrev accept : E → Dispatcher E → Dispatcher E
  accept event p = record p {
    history = record p.history { accepted = p.history.accepted ++ event ∷ [] };
  }

module _ {E : Type 0} where
  -- go func in asyncDispatch
  unfoldable pub spawn : E → Dispatcher E → Dispatcher E
  spawn event p = record p {
    goroutines = p.goroutines ++ record { event = event; stop = p.stop_chan; at = at_test } ∷ [];
    history = record p.history { detached = p.history.detached ++ event ∷ [] };
  }

  -- A call of dispatch, between `before` and `after` in the list of them, that goes on or ends.
  abbrev pub go_on :
      CallerAt → Caller E → List (Caller E) → List (Caller E) → Dispatcher E → Dispatcher E
  go_on at c before after p = record p { callers = before ++ record c { at = at } ∷ after }

  abbrev pub return : List (Caller E) → List (Caller E) → Dispatcher E → Dispatcher E
  return before after p = record p { callers = before ++ after }

  -- dispatch: its test of isRunning
  unfoldable pub dispatch : E → Dispatcher E → Dispatcher E
  dispatch event p =
      if not p.running
      then p
      else record p { callers = p.callers ++ record { event = event; at = at_select } ∷ [] }

  -- dispatch: its select
  unfoldable pub dispatch_select :
      Caller E → List (Caller E) → List (Caller E) → Dispatcher E → Dispatcher E
  dispatch_select c before after p =
      if has_room p
      then return before after (send c.event (accept c.event p))
      else go_on at_add c before after p

  -- asyncDispatch: count := p.asyncDispatchCount.Add(1)
  unfoldable pub async_dispatch :
      Caller E → List (Caller E) → List (Caller E) → Dispatcher E → Dispatcher E
  async_dispatch c before after p =
      let n = add_int32 p.async_dispatch_count 1 in
      go_on (at_limit n) c before after (record p { async_dispatch_count = n })

  -- asyncDispatch: the test of the count, which is undone before the panic, and the goroutine
  unfoldable pub async_dispatch_limited :
      ℕ → Caller E → List (Caller E) → List (Caller E) → Dispatcher E → Dispatcher E
  async_dispatch_limited n c before after p =
      if ltb p.async_dispatch_limit (positive_int32 n)
      then return before after
          (record p { async_dispatch_count = add_int32 p.async_dispatch_count 4294967295 })
      else return before after (spawn c.event (accept c.event p))

  -- Start: its test of isRunning
  unfoldable pub start : Dispatcher E → Dispatcher E
  start p = if p.running then p else record p { starts_at_make = p.starts_at_make + 1 }

  -- Start: stopChan = make(chan struct{})
  unfoldable pub start_make : Dispatcher E → Dispatcher E
  start_make p = record p {
    starts_at_make = p.starts_at_make - 1;
    stop_chan = p.stop_chan + 1;
    stop_closed = λ c. if leb c p.stop_chan then p.stop_closed c else false;
    starts_at_add = p.starts_at_add + 1;
  }

  -- Start: stopped.Add(1)
  unfoldable pub start_add : Dispatcher E → Dispatcher E
  start_add p = record p {
    starts_at_add = p.starts_at_add - 1;
    stopped = p.stopped + 1;
    starts_at_go = p.starts_at_go + 1;
  }

  -- Start: go func
  unfoldable pub start_go : Dispatcher E → Dispatcher E
  start_go p = record p {
    starts_at_go = p.starts_at_go - 1;
    loops_at_top = p.loops_at_top + 1;
    starts_at_set = p.starts_at_set + 1;
  }

  -- Start: setRunning(true)
  unfoldable pub start_set : Dispatcher E → Dispatcher E
  start_set p = record p { starts_at_set = p.starts_at_set - 1; running = true }

  -- Stop: its test of stopChan
  unfoldable pub stop : Dispatcher E → Dispatcher E
  stop p =
      if p.stop_closed p.stop_chan then p else record p { stops_at_close = p.stops_at_close + 1 }

  -- Stop: close(getDispatcher().stopChan), which panics where another call has closed it
  unfoldable pub stop_close : Dispatcher E → Dispatcher E
  stop_close p =
      let p₁ : Dispatcher E = record p { stops_at_close = p.stops_at_close - 1 } in
      if p.stop_closed p.stop_chan then p₁ else record p₁ {
        stop_closed = λ c. (leb c p.stop_chan && leb p.stop_chan c) || p.stop_closed c;
      }

  -- the event loop: select, which reads stopChan
  unfoldable pub enter_select : Dispatcher E → Dispatcher E
  enter_select p = record p {
    loops_at_top = p.loops_at_top - 1;
    loops_in_select = p.loops_in_select ++ p.stop_chan ∷ [];
  }

  -- the event loop: case event := <-eventChan
  unfoldable pub deliver : E → List E → List ℕ → List ℕ → Dispatcher E → Dispatcher E
  deliver event rest before after p = record p {
    event_chan = rest;
    loops_in_select = before ++ after;
    loops_at_top = p.loops_at_top + 1;
    history = record p.history { delivered = p.history.delivered ++ event ∷ [] };
  }

  -- the event loop: case <-stopChan
  unfoldable pub see_stop_chan : List ℕ → List ℕ → Dispatcher E → Dispatcher E
  see_stop_chan before after p = record p {
    loops_in_select = before ++ after;
    loops_at_set = p.loops_at_set + 1;
  }

  -- the event loop: setRunning(false)
  unfoldable pub shut_down : Dispatcher E → Dispatcher E
  shut_down p = record p {
    running = false;
    loops_at_set = p.loops_at_set - 1;
    loops_at_done = p.loops_at_done + 1;
  }

  -- the event loop: stopped.Done()
  unfoldable pub loop_done : Dispatcher E → Dispatcher E
  loop_done p = record p { loops_at_done = p.loops_at_done - 1; stopped = p.stopped - 1 }

  -- A goroutine of asyncDispatch, between `before` and `after` in the list of them, that ends:
  -- defer p.asyncDispatchCount.Add(-1)
  unfoldable pub leave : List (Goroutine E) → List (Goroutine E) → Dispatcher E → Dispatcher E
  leave before after p = record p {
    async_dispatch_count = add_int32 p.async_dispatch_count 4294967295;
    goroutines = before ++ after;
  }

  unfoldable pub give_up : E → Dispatcher E → Dispatcher E
  give_up event p = record p {
    history = record p.history { dropped = p.history.dropped ++ event ∷ [] };
  }

  abbrev pub move_to :
      GoroutineAt
      → Goroutine E
      → List (Goroutine E)
      → List (Goroutine E)
      → Dispatcher E
      → Dispatcher E
  move_to at g before after p = record p { goroutines = before ++ record g { at = at } ∷ after }

  -- `for p.isRunning()`
  unfoldable pub check_running :
      Goroutine E → List (Goroutine E) → List (Goroutine E) → Dispatcher E → Dispatcher E
  check_running g before after p =
      if p.running
      then move_to in_select g before after p
      else move_to at_leave g before after (give_up g.event p)

  -- `case p.eventChan <- event`
  unfoldable pub send_late :
      Goroutine E → List (Goroutine E) → List (Goroutine E) → Dispatcher E → Dispatcher E
  send_late g before after p = move_to at_leave g before after (send g.event p)

  -- `case <-stop`
  unfoldable pub see_stop :
      Goroutine E → List (Goroutine E) → List (Goroutine E) → Dispatcher E → Dispatcher E
  see_stop g before after p = move_to at_leave g before after (give_up g.event p)

  -- `case <-time.After(p.asyncDispatchCheckInterval)`, with the time since the start
  unfoldable pub time_after :
      ℕ → Goroutine E → List (Goroutine E) → List (Goroutine E) → Dispatcher E → Dispatcher E
  time_after elapse_time g before after p =
      if leb p.dispatch_timeout elapse_time
      then move_to at_leave g before after (give_up g.event p)
      else move_to at_test g before after p
