-- ===== src/Dispatcher/Steps.antt =====
-- What the threads of the dispatcher of pkg/dispatcher/dispatcher.go may do next, and the states
-- that they reach.
use yunikorn_k8shim.Prelude.{ℕ, suc, ◌≡◌, true, List, ◌∷◌, ◌++◌}
use yunikorn_k8shim.Dispatcher.Defs.{
  Dispatcher, Goroutine, at_test, in_select, at_leave, Caller, at_select, at_add, at_limit,
  init_dispatcher, has_room, dispatch, dispatch_select, async_dispatch, async_dispatch_limited,
  start, start_make, start_add, start_go, start_set, stop, stop_close, enter_select, deliver,
  see_stop_chan, shut_down, loop_done, check_running, send_late, see_stop, time_after, leave,
}

module _ {E : Type 0} where
  -- What the threads do: a caller, a goroutine and an event loop in its select, between two parts of
  -- the list of them, and the threads that are counted. The channel is sent to only where it has room.
  pub data Step (p : Dispatcher E) (q : Dispatcher E) : Type 0 where
    by_dispatch : (event : E) → q ≡ dispatch event p → Step p q
    by_select :
        (c : Caller E) (before after : List (Caller E))
        → p.callers ≡ before ++ c ∷ after
        → c.at ≡ at_select
        → q ≡ dispatch_select c before after p
        → Step p q
    by_count :
        (c : Caller E) (before after : List (Caller E))
        → p.callers ≡ before ++ c ∷ after
        → c.at ≡ at_add
        → q ≡ async_dispatch c before after p
        → Step p q
    by_limit :
        (n : ℕ) (c : Caller E) (before after : List (Caller E))
        → p.callers ≡ before ++ c ∷ after
        → c.at ≡ at_limit n
        → q ≡ async_dispatch_limited n c before after p
        → Step p q
    by_start : q ≡ start p → Step p q
    by_make : (n : ℕ) → p.starts_at_make ≡ suc n → q ≡ start_make p → Step p q
    by_add : (n : ℕ) → p.starts_at_add ≡ suc n → q ≡ start_add p → Step p q
    by_go : (n : ℕ) → p.starts_at_go ≡ suc n → q ≡ start_go p → Step p q
    by_set : (n : ℕ) → p.starts_at_set ≡ suc n → q ≡ start_set p → Step p q
    by_stop : q ≡ stop p → Step p q
    by_close : (n : ℕ) → p.stops_at_close ≡ suc n → q ≡ stop_close p → Step p q
    by_enter : (n : ℕ) → p.loops_at_top ≡ suc n → q ≡ enter_select p → Step p q
    by_deliver :
        (event : E) (rest : List E) (stop : ℕ) (before after : List ℕ)
        → p.loops_in_select ≡ before ++ stop ∷ after
        → p.event_chan ≡ event ∷ rest
        → q ≡ deliver event rest before after p
        → Step p q
    by_stop_chan :
        (stop : ℕ) (before after : List ℕ)
        → p.loops_in_select ≡ before ++ stop ∷ after
        → p.stop_closed stop ≡ true
        → q ≡ see_stop_chan before after p
        → Step p q
    by_shut_down : (n : ℕ) → p.loops_at_set ≡ suc n → q ≡ shut_down p → Step p q
    by_done : (n : ℕ) → p.loops_at_done ≡ suc n → q ≡ loop_done p → Step p q
    by_check :
        (g : Goroutine E) (before after : List (Goroutine E))
        → p.goroutines ≡ before ++ g ∷ after
        → g.at ≡ at_test
        → q ≡ check_running g before after p
        → Step p q
    by_send :
        (g : Goroutine E) (before after : List (Goroutine E))
        → p.goroutines ≡ before ++ g ∷ after
        → g.at ≡ in_select
        → has_room p ≡ true
        → q ≡ send_late g before after p
        → Step p q
    by_see_stop :
        (g : Goroutine E) (before after : List (Goroutine E))
        → p.goroutines ≡ before ++ g ∷ after
        → g.at ≡ in_select
        → p.stop_closed g.stop ≡ true
        → q ≡ see_stop g before after p
        → Step p q
    by_time :
        (elapse_time : ℕ) (g : Goroutine E) (before after : List (Goroutine E))
        → p.goroutines ≡ before ++ g ∷ after
        → g.at ≡ in_select
        → q ≡ time_after elapse_time g before after p
        → Step p q
    by_leave :
        (g : Goroutine E) (before after : List (Goroutine E))
        → p.goroutines ≡ before ++ g ∷ after
        → g.at ≡ at_leave
        → q ≡ leave before after p
        → Step p q

  -- The dispatchers that are reached from the one that initDispatcher makes.
  pub data Reach (capacity timeout : ℕ) : Dispatcher E → Type 0 where
    here : Reach capacity timeout (init_dispatcher capacity timeout)
    next : {p q : Dispatcher E} → Reach capacity timeout p → Step p q → Reach capacity timeout q
