-- ===== src/Dispatcher/Handlers.antt =====
-- The event handlers of the dispatcher: RegisterEventHandler, UnregisterEventHandler,
-- UnregisterAllEventHandlers and getEventHandler of pkg/dispatcher/dispatcher.go. Go's map of maps
-- is a function from the type of the events to the dictionary of its handlers, where it has one.
use yunikorn_k8shim.Prelude.{
  String, ◌≡◌, refl, ◌∙◌, ap, fun_ext, Bool, ◌&&◌, true, false, if◌then◌else◌, Option, none, some,
  List, [], ◌∷◌, ◌≢◌, ◌==◌, arith,
}
use yunikorn_k8shim.Prelude.Dict.{
  Dict, lookup, insert, delete, lookup-insert, lookup-delete, lookup-nil,
}

pub data EventType : Type 0 where
  event_type_app event_type_task event_type_node : EventType

unfoldable pub same_type : EventType → EventType → Bool
same_type event_type_app event_type_app = true
same_type event_type_task event_type_task = true
same_type event_type_node event_type_node = true
same_type _ _ = false

same_type_self : (t : EventType) → same_type t t ≡ true
unfolding same_type
same_type_self event_type_app = refl
same_type_self event_type_task = refl
same_type_self event_type_node = refl

same_type-eq : (t u : EventType) → same_type t u ≡ true → t ≡ u
unfolding same_type
same_type-eq event_type_app event_type_app h = refl
same_type-eq event_type_task event_type_task h = refl
same_type-eq event_type_node event_type_node h = refl
same_type-eq _ _ h = absurd (ground arith)

-- H is the type of the handler functions.
module _ {H : Type 0} where
  unfoldable pub set_handlers :
      EventType → Option (Dict H) → (EventType → Option (Dict H)) → EventType → Option (Dict H)
  set_handlers t d handlers u = if same_type t u then d else handlers u

  abbrev pub or_empty : Option (Dict H) → Dict H
  or_empty none = []
  or_empty (some d) = d

  -- RegisterEventHandler
  unfoldable pub register_event_handler :
      String → EventType → H → (EventType → Option (Dict H)) → EventType → Option (Dict H)
  register_event_handler handler_id t handler handlers =
      set_handlers t (some (insert handler_id handler (or_empty (handlers t)))) handlers

  -- delete(handlers[eventType], handlerID), and the map of the type with its last handler
  abbrev without : String → Dict H → Option (Dict H)
  without handler_id d = elim (delete handler_id d) [ [] ↦ none | h ∷ rest ↦ some (h ∷ rest) ]

  -- UnregisterEventHandler
  unfoldable pub unregister_event_handler :
      String → EventType → (EventType → Option (Dict H)) → EventType → Option (Dict H)
  unregister_event_handler handler_id t handlers = elim (handlers t) [
    | none ↦ handlers
    | some d ↦ set_handlers t (without handler_id d) handlers
  ]

  -- UnregisterAllEventHandlers
  unfoldable pub unregister_all_event_handlers : EventType → Option (Dict H)
  unregister_all_event_handlers t = none

  abbrev pub functions : Dict H → List H
  functions [] = []
  functions ((_, f) ∷ d) = f ∷ functions d

  -- getEventHandler: the handlers that the function it returns calls, in this order
  unfoldable pub get_event_handler : EventType → (EventType → Option (Dict H)) → List H
  get_event_handler t handlers = functions (or_empty (handlers t))

  -- The handler that is registered under a type and an ID.
  abbrev pub registered : EventType → String → (EventType → Option (Dict H)) → Option H
  registered t handler_id handlers = lookup handler_id (or_empty (handlers t))

  abbrev pub registered_in : (EventType → Option (Dict H)) → EventType → String → Option H
  registered_in handlers t handler_id = registered t handler_id handlers

  -- A type that has a map of handlers has a handler.
  abbrev pub NoneEmpty : (EventType → Option (Dict H)) → Type 0
  NoneEmpty handlers = (t : EventType) → handlers t ≢ some []

pub data HandlerOp (H : Type 0) : Type 0 where
  op_register : String → EventType → H → HandlerOp H
  op_unregister : String → EventType → HandlerOp H
  op_unregister_all : HandlerOp H

module _ {H : Type 0} where
  unfoldable pub run_handler_op :
      HandlerOp H → (EventType → Option (Dict H)) → EventType → Option (Dict H)
  run_handler_op (op_register i t f) handlers = register_event_handler i t f handlers
  run_handler_op (op_unregister i t) handlers = unregister_event_handler i t handlers
  run_handler_op op_unregister_all handlers = unregister_all_event_handlers

  -- What an operation means: the handler of each type and ID afterwards.
  unfoldable pub meaning :
      HandlerOp H → (EventType → String → Option H) → EventType → String → Option H
  meaning (op_register i t f) view u j = if same_type t u && i == j then some f else view u j
  meaning (op_unregister i t) view u j = if same_type t u && i == j then none else view u j
  meaning op_unregister_all view u j = none

  without-lookup :
      (i j : String) (d : Dict H)
      → lookup j (or_empty (without i d)) ≡ (if i == j then none else lookup j d)
  without-lookup i j d = ground (arith, lookup-delete i j d, lookup-nil {V = H} j)

  without-NoneEmpty : (i : String) (d : Dict H) → without i d ≢ some []
  without-NoneEmpty i d =
      elim (delete i d) as (λ x. elim x [ [] ↦ none | h ∷ rest ↦ some (h ∷ rest) ] ≢ some []) [
        | [] ↦ λ e. absurd (cc)
        | _ ↦ λ e. absurd (cc)
      ]

  insert-ne : (i : String) (f : H) (d : Dict H) → insert i f d ≢ []
  unfolding insert
  insert-ne i f [] = λ e. absurd (cc)
  insert-ne i f ((j, g) ∷ d) = ground arith

  run_handler_op-meaning :
      (op : HandlerOp H) (handlers : EventType → Option (Dict H)) (t : EventType) (i : String)
      → registered t i (run_handler_op op handlers)
        ≡ meaning op (λ u j. registered u j handlers) t i
  unfolding run_handler_op meaning register_event_handler unregister_event_handler set_handlers
      unregister_all_event_handlers
  run_handler_op-meaning (op_register j u f) handlers t i =
      ground
        (arith, lookup-insert j f i (or_empty (handlers u)), lookup-nil {V = H} i, same_type-eq u t)
  run_handler_op-meaning (op_unregister j u) handlers t i =
      ground
        (arith, without-lookup j i (or_empty (handlers u)), lookup-nil {V = H} i, same_type-eq u t)
  run_handler_op-meaning op_unregister_all handlers t i = ground (arith, lookup-nil {V = H} i)

  run_handler_op-NoneEmpty :
      (op : HandlerOp H) (handlers : EventType → Option (Dict H))
      → NoneEmpty handlers
      → NoneEmpty (run_handler_op op handlers)
  unfolding run_handler_op register_event_handler unregister_event_handler set_handlers
      unregister_all_event_handlers
  run_handler_op-NoneEmpty (op_register j u f) handlers h t =
      ground (arith, h t, insert-ne j f (or_empty (handlers u)))
  run_handler_op-NoneEmpty (op_unregister j u) handlers h t =
      ground (arith, h t, h u, without-NoneEmpty j (or_empty (handlers u)))
  run_handler_op-NoneEmpty op_unregister_all handlers h t = λ e. absurd (cc)

  unfoldable pub run_handler_ops :
      List (HandlerOp H) → (EventType → Option (Dict H)) → EventType → Option (Dict H)
  run_handler_ops [] handlers = handlers
  run_handler_ops (o ∷ os) handlers = run_handler_ops os (run_handler_op o handlers)

  unfoldable pub meanings :
      List (HandlerOp H) → (EventType → String → Option H) → EventType → String → Option H
  meanings [] view = view
  meanings (o ∷ os) view = meanings os (meaning o view)

  run_handler_ops-from :
      (os : List (HandlerOp H)) (handlers : EventType → Option (Dict H))
      → NoneEmpty handlers
      → (registered_in (run_handler_ops os handlers) ≡ meanings os (registered_in handlers))
        × NoneEmpty (run_handler_ops os handlers)
  unfolding run_handler_ops meanings
  run_handler_ops-from [] handlers h = (refl, h)
  run_handler_ops-from (o ∷ os) handlers h =
      let (same, rest) =
        run_handler_ops-from os (run_handler_op o handlers)
          (run_handler_op-NoneEmpty o handlers h) in
      (
        same
            ∙ ap (meanings os)
                (fun_ext (λ t. fun_ext (λ i. run_handler_op-meaning o handlers t i))),
        rest,
      )

  -- Whatever handlers are registered and unregistered, in whatever order, from the empty maps on:
  -- each type and ID has the handler that was registered for it last, if it was not unregistered
  -- since, alone or with all of them; and no type is left with an empty map.
  pub run_handler_ops-meanings :
      (os : List (HandlerOp H))
      → (registered_in (run_handler_ops os unregister_all_event_handlers)
          ≡ meanings os (λ _ _. none))
        × NoneEmpty (run_handler_ops os unregister_all_event_handlers)
  unfolding unregister_all_event_handlers lookup
  run_handler_ops-meanings os =
      run_handler_ops-from os unregister_all_event_handlers (λ t e. absurd (cc))
