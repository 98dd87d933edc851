-- ===== src/Dispatcher/Safety.antt =====
-- What holds of the dispatcher in every state that its threads reach: the bounds of the channel
-- and of the goroutines, and the wait group.
use yunikorn_k8shim.Prelude.{
  ℕ, ◌+◌, ◌≤◌, ◌<◌, ◌≡◌, if◌then◌else◌, ltb, List, [], ◌∷◌, ◌++◌, length, length-append, arith, ap,
}
use yunikorn_k8shim.Dispatcher.Defs.{
  Dispatcher, Goroutine, at_test, in_select, at_leave, Caller, init_dispatcher, has_room, send,
  spawn, dispatch, dispatch_select, async_dispatch, async_dispatch_limited, start, start_make,
  start_add, start_go, start_set, stop, stop_close, enter_select, deliver, see_stop_chan, shut_down,
  loop_done, leave, give_up, check_running, send_late, see_stop, time_after, CallerAt, at_select,
  at_add, at_limit, limit_of, positive_int32, add_int32,
}
use yunikorn_k8shim.Dispatcher.Steps.{
  by_leave, Step, by_dispatch, by_select, by_count, by_limit, by_start, by_make, by_add, by_go,
  by_set, by_stop, by_close, by_enter, by_deliver, by_stop_chan, by_shut_down, by_done, by_check,
  by_send, by_see_stop, by_time, Reach, here, next,
}

module _ {A : Type 0} where
  abbrev pub total : (A → ℕ) → List A → ℕ
  total f [] = 0
  total f (x ∷ xs) = f x + total f xs

  total-append : (f : A → ℕ) (xs ys : List A) → total f (xs ++ ys) ≡ total f xs + total f ys
  total-append f [] ys = omega arith
  total-append f (x ∷ xs) ys = ground (arith, total-append f xs ys)

  total-le : (f g : A → ℕ) → ((x : A) → f x ≤ g x) → (xs : List A) → total f xs ≤ total g xs
  total-le f g h [] = omega arith
  total-le f g h (x ∷ xs) = ground (arith, h x, total-le f g h xs)

  total-zip :
      (f : A → ℕ) (g h : A) (before after l : List A)
      → l ≡ before ++ g ∷ after
      → (total f l ≡ f g + total f (before ++ after))
        × (total f (before ++ h ∷ after) ≡ f h + total f (before ++ after))
  total-zip f g h before after l e = ground (
    arith,
    ap (total f) e,
    total-append f before (g ∷ after),
    total-append f before (h ∷ after),
    total-append f before after,
  )

  length-zip :
      (g h : A) (before after l : List A)
      → l ≡ before ++ g ∷ after
      → (length l ≡ length (before ++ h ∷ after)) × (length l ≡ length (before ++ after) + 1)
  length-zip g h before after l e = ground (
    arith,
    ap length e,
    length-append before (g ∷ after),
    length-append before (h ∷ after),
    length-append before after,
  )

-- The calls of asyncDispatch that have added to the count and not yet tested it, and those of them
-- that the test will let through
abbrev pub counted_at : CallerAt → ℕ
counted_at at_select = 0
counted_at at_add = 0
counted_at (at_limit n) = 1

abbrev pub admitted_at : ℕ → CallerAt → ℕ
admitted_at limit at_select = 0
admitted_at limit at_add = 0
admitted_at limit (at_limit n) = if ltb limit (positive_int32 n) then 0 else 1

admitted_le : (limit : ℕ) (a : CallerAt) → admitted_at limit a ≤ counted_at a
admitted_le limit at_select = omega arith
admitted_le limit at_add = omega arith
admitted_le limit (at_limit n) = ground arith

counted_le : (a : CallerAt) → counted_at a ≤ 1
counted_le at_select = omega arith
counted_le at_add = omega arith
counted_le (at_limit n) = omega arith

module _ {E : Type 0} where
  abbrev pub counted : List (Caller E) → ℕ
  counted = total (λ c. counted_at c.at)

  abbrev pub admitted : ℕ → List (Caller E) → ℕ
  admitted limit = total (λ c. admitted_at limit c.at)

  admitted-le-counted : (limit : ℕ) (cs : List (Caller E)) → admitted limit cs ≤ counted cs
  admitted-le-counted limit cs =
      total-le (λ c. admitted_at limit c.at) (λ c. counted_at c.at) (λ c. admitted_le limit c.at) cs

  counted-le-length : (cs : List (Caller E)) → counted cs ≤ length cs
  counted-le-length [] = omega arith
  counted-le-length (c ∷ cs) = ground (arith, counted_le c.at, counted-le-length cs)

  abbrev pub IsSafe : ℕ → Dispatcher E → Type 0
  IsSafe capacity p =
      (p.event_channel_capacity ≡ capacity)
      × (p.async_dispatch_limit ≡ limit_of capacity)
      × (length p.event_chan ≤ capacity)
      × (p.async_dispatch_count ≡ length p.goroutines + counted p.callers)
      × (length p.goroutines + admitted (limit_of capacity) p.callers ≤ limit_of capacity)
      × (p.stopped
          ≡ p.starts_at_go
            + p.loops_at_top
            + length p.loops_in_select
            + p.loops_at_set
            + p.loops_at_done)

  -- What a call of asyncDispatch does to the two sums, where it goes on or ends.
  callers_lem :
      (limit : ℕ) (c d : Caller E) (before after l : List (Caller E))
      → l ≡ before ++ c ∷ after
      → (counted l ≡ counted_at c.at + counted (before ++ after))
        × (counted (before ++ d ∷ after) ≡ counted_at d.at + counted (before ++ after))
        × (admitted limit l ≡ admitted_at limit c.at + admitted limit (before ++ after))
        × (admitted limit (before ++ d ∷ after)
            ≡ admitted_at limit d.at + admitted limit (before ++ after))
        × (admitted limit (before ++ after) ≤ counted (before ++ after))
        × (counted (before ++ after) + 1 ≤ length l)
  callers_lem limit c d before after l e = ground (
    arith,
    total-zip (λ c. counted_at c.at) c d before after l e,
    total-zip (λ c. admitted_at limit c.at) c d before after l e,
    admitted-le-counted limit (before ++ after),
    counted-le-length (before ++ after),
    length-zip c d before after l e,
  )

  move_lem :
      (g : Goroutine E) (before after l : List (Goroutine E))
      → l ≡ before ++ g ∷ after
      → (length (before ++ record g { at = at_test } ∷ after) ≡ length l)
        × (length (before ++ record g { at = in_select } ∷ after) ≡ length l)
        × (length (before ++ record g { at = at_leave } ∷ after) ≡ length l)
  move_lem g before after l e = ground (
    arith,
    length-zip g (record g { at = at_test }) before after l e,
    length-zip g (record g { at = in_select }) before after l e,
    length-zip g (record g { at = at_leave }) before after l e,
  )

  Step-IsSafe :
      (capacity callers : ℕ) (p q : Dispatcher E)
      → limit_of capacity + callers < 2147483648
      → length p.callers ≤ callers
      → IsSafe capacity p
      → Step p q
      → IsSafe capacity q
  unfolding add_int32 positive_int32 dispatch dispatch_select async_dispatch async_dispatch_limited
      spawn send has_room start start_make start_add start_go start_set stop stop_close enter_select
      deliver see_stop_chan shut_down loop_done leave give_up check_running send_late see_stop
      time_after
  Step-IsSafe capacity m p q k few s (by_dispatch event e) =
      let c : Caller E = record { event = event; at = at_select } in
      ground (
        arith,
        total-append (λ c. counted_at c.at) p.callers (c ∷ []),
        total-append (λ c. admitted_at (limit_of capacity) c.at) p.callers (c ∷ []),
      )
  Step-IsSafe capacity m p q k few s (by_select c before after l a e) = ground (
    arith,
    callers_lem (limit_of capacity) c (record c { at = at_add }) before after p.callers l,
    length-append p.event_chan (c.event ∷ []),
  )
  Step-IsSafe capacity m p q k few s (by_count c before after l a e) =
      let n = add_int32 p.async_dispatch_count 1 in
      ground (
        arith,
        callers_lem (limit_of capacity) c (record c { at = at_limit n }) before after p.callers l,
      )
  Step-IsSafe capacity m p q k few s (by_limit n c before after l a e) = ground (
    arith,
    callers_lem (limit_of capacity) c c before after p.callers l,
    length-append p.goroutines (record { event = c.event; stop = p.stop_chan; at = at_test } ∷ []),
    counted-le-length p.callers,
  )
  Step-IsSafe capacity m p q k few s (by_start e) = ground arith
  Step-IsSafe capacity m p q k few s (by_make n l e) = ground arith
  Step-IsSafe capacity m p q k few s (by_add n l e) = ground arith
  Step-IsSafe capacity m p q k few s (by_go n l e) = ground arith
  Step-IsSafe capacity m p q k few s (by_set n l e) = ground arith
  Step-IsSafe capacity m p q k few s (by_stop e) = ground arith
  Step-IsSafe capacity m p q k few s (by_close n l e) = ground arith
  Step-IsSafe capacity m p q k few s (by_enter n l e) =
      ground (arith, length-append p.loops_in_select (p.stop_chan ∷ []))
  Step-IsSafe capacity m p q k few s (by_deliver event rest h before after l c e) =
      ground (arith, length-zip h h before after p.loops_in_select l)
  Step-IsSafe capacity m p q k few s (by_stop_chan h before after l c e) =
      ground (arith, length-zip h h before after p.loops_in_select l)
  Step-IsSafe capacity m p q k few s (by_shut_down n l e) = ground arith
  Step-IsSafe capacity m p q k few s (by_done n l e) = ground arith
  Step-IsSafe capacity m p q k few s (by_check g before after l w e) =
      ground (arith, move_lem g before after p.goroutines l)
  Step-IsSafe capacity m p q k few s (by_send g before after l w r e) =
      ground
        (arith, move_lem g before after p.goroutines l, length-append p.event_chan (g.event ∷ []))
  Step-IsSafe capacity m p q k few s (by_see_stop g before after l w c e) =
      ground (arith, move_lem g before after p.goroutines l)
  Step-IsSafe capacity m p q k few s (by_time t g before after l w e) =
      ground (arith, move_lem g before after p.goroutines l)
  Step-IsSafe capacity m p q k few s (by_leave g before after l w e) =
      ground (arith, length-zip g g before after p.goroutines l, counted-le-length p.callers)

  -- No step of the run starts with more than this many calls of dispatch in progress.
  abbrev pub Few :
      (capacity timeout callers : ℕ) (p : Dispatcher E) → Reach capacity timeout p → Type 0
  Few capacity timeout callers p here = Unit
  Few capacity timeout callers q (next {p} r s) =
      (length p.callers ≤ callers) × Few capacity timeout callers p r

  -- In every state that the threads reach by steps that each start with at most `callers` calls of
  -- dispatch in progress, where this number and the limit computed from the capacity stay below
  -- 2 ^ 31 together: the channel holds no more than the capacity; the count is that of the
  -- goroutines that have not run their deferred Add(-1), and of the calls between their Add(1) and
  -- their test of it; those goroutines and the calls that will pass the test are no more than the
  -- limit; and the wait group counts the event loops that have not called Done and the calls of
  -- Start that are about to start one.
  pub Reach-IsSafe :
      (capacity timeout callers : ℕ) (p : Dispatcher E)
      → limit_of capacity + callers < 2147483648
      → (r : Reach capacity timeout p) → Few capacity timeout callers p r
      → IsSafe capacity p
  unfolding init_dispatcher
  Reach-IsSafe capacity timeout callers p k here few = ground arith
  Reach-IsSafe capacity timeout callers q k (next {p} r s) few =
      Step-IsSafe capacity callers p q k few.0 (Reach-IsSafe capacity timeout callers p k r few.1) s
