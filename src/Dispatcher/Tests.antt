-- ===== src/Dispatcher/Tests.antt =====
-- Runs of the dispatcher, and its theorems at them.
use yunikorn_k8shim.Prelude.{ℕ, ◌≡◌, refl, String, List, [], ◌∷◌, ◌++◌, ◌==◌, arith, none}
use yunikorn_k8shim.Dispatcher.Handlers.{
  event_type_app, event_type_task, HandlerOp, op_register, op_unregister, registered_in,
  run_handler_ops, run_handler_ops-meanings, meanings, NoneEmpty, unregister_all_event_handlers,
}
use yunikorn_k8shim.Dispatcher.Defs.{
  Dispatcher, Goroutine, GoroutineAt, at_test, in_select, at_leave, Caller, CallerAt, at_select,
  at_add, at_limit, init_dispatcher, dispatch, dispatch_select, async_dispatch,
  async_dispatch_limited, start, start_make, start_add, start_go, start_set, enter_select, deliver,
  check_running, send_late, limit_of, has_room, send, positive_int32, add_int32, spawn, leave,
}
use yunikorn_k8shim.Dispatcher.Steps.{
  by_leave, by_dispatch, by_select, by_count, by_limit, by_start, by_make, by_add, by_go, by_set,
  by_enter, by_deliver, by_check, by_send, Reach, here, next,
}
use yunikorn_k8shim.Dispatcher.Safety.{IsSafe, Few, Reach-IsSafe}
use yunikorn_k8shim.Dispatcher.Delivery.{Conserved, Reach-Conserved, Reach-fifo}

abbrev started : Dispatcher String
started = start_set (start_go (start_add (start_make (start (init_dispatcher 1 60)))))

abbrev calls : String → CallerAt → Caller String
calls event at = record { event = event; at = at }

abbrev one_waits : Dispatcher String
one_waits = dispatch_select (calls "a" at_select) [] [] (dispatch "a" started)

abbrev one_finds_no_room : Dispatcher String
one_finds_no_room = dispatch_select (calls "b" at_select) [] [] (dispatch "b" one_waits)

abbrev one_counted : Dispatcher String
one_counted = async_dispatch (calls "b" at_add) [] [] one_finds_no_room

abbrev one_late : Dispatcher String
one_late = async_dispatch_limited 1 (calls "b" (at_limit 1)) [] [] one_counted

abbrev late : GoroutineAt → Goroutine String
late at = record { event = "b"; stop = 1; at = at }

abbrev one_selects : Dispatcher String
one_selects = check_running (late at_test) [] [] one_late

abbrev second_sent : Dispatcher String
second_sent =
    leave [] [] (send_late (late in_select) [] [] (deliver "a" [] [] [] (enter_select one_selects)))

unfoldable starts : Reach 1 60 started
unfolding init_dispatcher limit_of positive_int32 add_int32 has_room send spawn dispatch
    dispatch_select async_dispatch async_dispatch_limited start start_make start_add start_go
    start_set enter_select deliver check_running send_late leave
starts =
    next
      (next (next (next (next here (by_start refl)) (by_make 0 refl refl)) (by_add 0 refl refl))
        (by_go 0 refl refl))
      (by_set 0 refl refl)

unfoldable reaches_one_waits : Reach 1 60 one_waits
unfolding init_dispatcher limit_of positive_int32 add_int32 has_room send spawn dispatch
    dispatch_select async_dispatch async_dispatch_limited start start_make start_add start_go
    start_set enter_select deliver check_running send_late leave
reaches_one_waits =
    next (next starts (by_dispatch "a" refl)) (by_select (calls "a" at_select) [] [] refl refl refl)

unfoldable reaches_one_late : Reach 1 60 one_late
unfolding init_dispatcher limit_of positive_int32 add_int32 has_room send spawn dispatch
    dispatch_select async_dispatch async_dispatch_limited start start_make start_add start_go
    start_set enter_select deliver check_running send_late leave
reaches_one_late =
    next
      (next
        (next (next reaches_one_waits (by_dispatch "b" refl))
          (by_select (calls "b" at_select) [] [] refl refl refl))
        (by_count (calls "b" at_add) [] [] refl refl refl))
      (by_limit 1 (calls "b" (at_limit 1)) [] [] refl refl refl)

unfoldable all_sent : Reach 1 60 second_sent
unfolding init_dispatcher limit_of positive_int32 add_int32 has_room send spawn dispatch
    dispatch_select async_dispatch async_dispatch_limited start start_make start_add start_go
    start_set enter_select deliver check_running send_late leave
all_sent =
    next
      (next
        (next
          (next (next reaches_one_late (by_check (late at_test) [] [] refl refl refl))
            (by_enter 0 refl refl))
          (by_deliver "a" [] 1 [] [] refl refl refl))
        (by_send (late in_select) [] [] refl refl refl refl))
      (by_leave (late at_leave) [] [] refl refl refl)

second_waits : second_sent.event_chan ≡ "b" ∷ []
unfolding init_dispatcher limit_of positive_int32 add_int32 has_room send spawn dispatch
    dispatch_select async_dispatch async_dispatch_limited start start_make start_add start_go
    start_set enter_select deliver check_running send_late leave
second_waits = refl

all_sent-Few : Few 1 60 5 second_sent all_sent
unfolding init_dispatcher limit_of positive_int32 add_int32 has_room send spawn dispatch
    dispatch_select async_dispatch async_dispatch_limited start start_make start_add start_go
    start_set enter_select deliver check_running send_late leave starts reaches_one_waits
    reaches_one_late all_sent
all_sent-Few = ground arith

Reach-IsSafe_example : IsSafe 1 second_sent
unfolding limit_of positive_int32
Reach-IsSafe_example = Reach-IsSafe 1 60 5 second_sent (omega arith) all_sent all_sent-Few

Reach-Conserved_example : Conserved (λ e. e == "b") second_sent
Reach-Conserved_example = Reach-Conserved 1 60 second_sent (λ e. e == "b") all_sent

Reach-fifo_example :
    (one_waits.history.accepted ≡ one_waits.history.delivered ++ one_waits.event_chan)
    × (one_waits.history.dropped ≡ [])
unfolding init_dispatcher limit_of positive_int32 add_int32 has_room send spawn dispatch
    dispatch_select async_dispatch async_dispatch_limited start start_make start_add start_go
    start_set enter_select deliver check_running send_late leave
Reach-fifo_example = Reach-fifo 1 60 one_waits reaches_one_waits refl

abbrev ops : List (HandlerOp ℕ)
ops =
    op_register "a" event_type_app 1
    ∷ op_register "b" event_type_task 2
    ∷ op_register "a" event_type_app 3
    ∷ op_unregister "b" event_type_task
    ∷ []

run_handler_ops-meanings_example :
    (registered_in (run_handler_ops ops unregister_all_event_handlers) ≡ meanings ops (λ _ _. none))
    × NoneEmpty (run_handler_ops ops unregister_all_event_handlers)
run_handler_ops-meanings_example = run_handler_ops-meanings ops
