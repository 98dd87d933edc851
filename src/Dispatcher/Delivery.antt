-- ===== src/Dispatcher/Delivery.antt =====
-- What becomes of the events that Dispatch takes: none is lost or received twice, and those
-- that the channel had room for are received in order.
use yunikorn_k8shim.Prelude.{
  ℕ, ◌+◌, ◌≡◌, ◌≢◌, refl, Bool, List, [], ◌∷◌, ◌++◌, count, count-append, snoc-ne, append_assoc,
  arith, ap, sym, ◌∙◌,
}
use yunikorn_k8shim.Dispatcher.Defs.{
  Dispatcher, Goroutine, GoroutineAt, at_test, in_select, at_leave, init_dispatcher, has_room, send,
  spawn, dispatch, dispatch_select, async_dispatch, async_dispatch_limited, start, start_make,
  start_add, start_go, start_set, stop, stop_close, enter_select, deliver, see_stop_chan, shut_down,
  loop_done, leave, give_up, check_running, send_late, see_stop, time_after,
}
use yunikorn_k8shim.Dispatcher.Steps.{
  by_leave, Step, by_dispatch, by_select, by_count, by_limit, by_start, by_make, by_add, by_go,
  by_set, by_stop, by_close, by_enter, by_deliver, by_stop_chan, by_shut_down, by_done, by_check,
  by_send, by_see_stop, by_time, Reach, here, next,
}

module _ {E : Type 0} where
  -- The events that goroutines of asyncDispatch hold.
  abbrev pub held_at : GoroutineAt → E → List E
  held_at at_leave event = []
  held_at at_test event = event ∷ []
  held_at in_select event = event ∷ []

  abbrev pub held : List (Goroutine E) → List E
  held [] = []
  held (g ∷ gs) = held_at g.at g.event ++ held gs

  abbrev pub Conserved : (E → Bool) → Dispatcher E → Type 0
  Conserved t p =
      count t p.history.accepted
      ≡ count t p.history.delivered
        + count t p.event_chan
        + count t (held p.goroutines)
        + count t p.history.dropped

  count-held :
      (t : E → Bool) (before after : List (Goroutine E))
      → count t (held (before ++ after)) ≡ count t (held before) + count t (held after)
  count-held t [] after = omega arith
  count-held t (g ∷ before) after = ground (
    arith,
    count-held t before after,
    count-append t (held_at g.at g.event) (held before),
    count-append t (held_at g.at g.event) (held (before ++ after)),
  )

  count-zip :
      (t : E → Bool) (g : Goroutine E) (a : GoroutineAt) (before after l : List (Goroutine E))
      → l ≡ before ++ g ∷ after
      → (count t (held l) ≡ count t (held_at g.at g.event) + count t (held (before ++ after)))
        × (count t (held (before ++ record g { at = a } ∷ after))
            ≡ count t (held_at a g.event) + count t (held (before ++ after)))
  count-zip t g a before after l e = ground (
    arith,
    ap (λ x. count t (held x)) e,
    count-held t before (g ∷ after),
    count-held t before (record g { at = a } ∷ after),
    count-held t before after,
    count-append t (held_at g.at g.event) (held after),
    count-append t (held_at a g.event) (held after),
  )

  Step-Conserved : (t : E → Bool) (p q : Dispatcher E) → Conserved t p → Step p q → Conserved t q
  unfolding dispatch dispatch_select async_dispatch async_dispatch_limited spawn send has_room start
      start_make start_add start_go start_set stop stop_close enter_select deliver see_stop_chan
      shut_down loop_done leave give_up check_running send_late see_stop time_after
  Step-Conserved t p q c (by_dispatch event e) = ground arith
  Step-Conserved t p q c (by_select a before after l f e) = ground (
    arith,
    count-append t p.history.accepted (a.event ∷ []),
    count-append t p.event_chan (a.event ∷ []),
  )
  Step-Conserved t p q c (by_count a before after l f e) = ground arith
  Step-Conserved t p q c (by_limit n a before after l f e) = ground (
    arith,
    count-append t p.history.accepted (a.event ∷ []),
    count-held t p.goroutines (record { event = a.event; stop = p.stop_chan; at = at_test } ∷ []),
  )
  Step-Conserved t p q c (by_start e) = ground arith
  Step-Conserved t p q c (by_make n l e) = ground arith
  Step-Conserved t p q c (by_add n l e) = ground arith
  Step-Conserved t p q c (by_go n l e) = ground arith
  Step-Conserved t p q c (by_set n l e) = ground arith
  Step-Conserved t p q c (by_stop e) = ground arith
  Step-Conserved t p q c (by_close n l e) = ground arith
  Step-Conserved t p q c (by_enter n l e) = ground arith
  Step-Conserved t p q c (by_deliver event rest h before after l f e) =
      ground (arith, count-append t p.history.delivered (event ∷ []), ap (count t) f)
  Step-Conserved t p q c (by_stop_chan h before after l f e) = ground arith
  Step-Conserved t p q c (by_shut_down n l e) = ground arith
  Step-Conserved t p q c (by_done n l e) = ground arith
  Step-Conserved t p q c (by_check g before after l w e) = ground (
    arith,
    count-zip t g in_select before after p.goroutines l,
    count-zip t g at_leave before after p.goroutines l,
    count-append t p.history.dropped (g.event ∷ []),
  )
  Step-Conserved t p q c (by_send g before after l w r e) = ground (
    arith,
    count-zip t g at_leave before after p.goroutines l,
    count-append t p.event_chan (g.event ∷ []),
  )
  Step-Conserved t p q c (by_see_stop g before after l w f e) = ground (
    arith,
    count-zip t g at_leave before after p.goroutines l,
    count-append t p.history.dropped (g.event ∷ []),
  )
  Step-Conserved t p q c (by_time n g before after l w e) = ground (
    arith,
    count-zip t g at_test before after p.goroutines l,
    count-zip t g at_leave before after p.goroutines l,
    count-append t p.history.dropped (g.event ∷ []),
  )
  Step-Conserved t p q c (by_leave g before after l w e) =
      ground (arith, count-zip t g at_leave before after p.goroutines l)

  -- In every state that the threads reach, whichever events are told apart: as many were received
  -- by an event loop, which hands them to the handlers, are in the channel, are held by a goroutine
  -- or were given up as Dispatch took. So no event that was taken is lost without being given up,
  -- and none is received twice.
  pub Reach-Conserved :
      (capacity timeout : ℕ) (p : Dispatcher E) (t : E → Bool)
      → Reach capacity timeout p
      → Conserved t p
  unfolding init_dispatcher
  Reach-Conserved capacity timeout p t here = refl
  Reach-Conserved capacity timeout p t (next r s) =
      Step-Conserved t _ _ (Reach-Conserved capacity timeout _ t r) s

  -- The order of the channel, and what holds while no event was left to a goroutine.
  abbrev pub InOrder : Dispatcher E → Type 0
  InOrder p =
      (p.history.enqueued ≡ p.history.delivered ++ p.event_chan)
      × (p.history.detached ≡ []
          → (p.goroutines ≡ [])
            × (p.history.dropped ≡ [])
            × (p.history.accepted ≡ p.history.enqueued))

  no_goroutine :
      (p : Dispatcher E) (g : Goroutine E) (before after : List (Goroutine E))
      → InOrder p
      → p.goroutines ≡ before ++ g ∷ after
      → p.history.detached ≢ []
  no_goroutine p g before after c l h = snoc-ne g before after (sym l ∙ (c.1 h).0)

  Step-InOrder : (p q : Dispatcher E) → InOrder p → Step p q → InOrder q
  unfolding dispatch dispatch_select async_dispatch async_dispatch_limited spawn send has_room start
      start_make start_add start_go start_set stop stop_close enter_select deliver see_stop_chan
      shut_down loop_done leave give_up check_running send_late see_stop time_after
  Step-InOrder p q c (by_dispatch event e) = ground arith
  Step-InOrder p q c (by_select a before after l f e) =
      ground (arith, append_assoc p.history.delivered p.event_chan (a.event ∷ []))
  Step-InOrder p q c (by_count a before after l f e) = ground arith
  Step-InOrder p q c (by_limit n a before after l f e) =
      ground (arith, snoc-ne a.event p.history.detached [])
  Step-InOrder p q c (by_start e) = ground arith
  Step-InOrder p q c (by_make n l e) = ground arith
  Step-InOrder p q c (by_add n l e) = ground arith
  Step-InOrder p q c (by_go n l e) = ground arith
  Step-InOrder p q c (by_set n l e) = ground arith
  Step-InOrder p q c (by_stop e) = ground arith
  Step-InOrder p q c (by_close n l e) = ground arith
  Step-InOrder p q c (by_enter n l e) = ground arith
  Step-InOrder p q c (by_deliver event rest h before after l f e) =
      ground (arith, append_assoc p.history.delivered (event ∷ []) rest)
  Step-InOrder p q c (by_stop_chan h before after l f e) = ground arith
  Step-InOrder p q c (by_shut_down n l e) = ground arith
  Step-InOrder p q c (by_done n l e) = ground arith
  Step-InOrder p q c (by_check g before after l w e) =
      ground (arith, no_goroutine p g before after c l)
  Step-InOrder p q c (by_send g before after l w r e) = ground (
    arith,
    no_goroutine p g before after c l,
    append_assoc p.history.delivered p.event_chan (g.event ∷ []),
  )
  Step-InOrder p q c (by_see_stop g before after l w f e) =
      ground (arith, no_goroutine p g before after c l)
  Step-InOrder p q c (by_time n g before after l w e) =
      ground (arith, no_goroutine p g before after c l)
  Step-InOrder p q c (by_leave g before after l w e) =
      ground (arith, no_goroutine p g before after c l)

  Reach-InOrder : (capacity timeout : ℕ) (p : Dispatcher E) → Reach capacity timeout p → InOrder p
  unfolding init_dispatcher
  Reach-InOrder capacity timeout p here = (refl, λ _. (refl, refl, refl))
  Reach-InOrder capacity timeout p (next r s) =
      Step-InOrder _ _ (Reach-InOrder capacity timeout _ r) s

  -- In every state that the threads reach without having left an event to a goroutine, the events
  -- that Dispatch took are those that event loops received followed by those in the channel, in
  -- this order: the dispatcher is a queue, and gives up none.
  pub Reach-fifo :
      (capacity timeout : ℕ) (p : Dispatcher E)
      → Reach capacity timeout p
      → p.history.detached ≡ []
      → (p.history.accepted ≡ p.history.delivered ++ p.event_chan) × (p.history.dropped ≡ [])
  Reach-fifo capacity timeout p r h =
      let (order, direct) = Reach-InOrder capacity timeout p r in
      let (_, none_dropped, same) = direct h in (same ∙ order, none_dropped)
