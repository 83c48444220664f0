-- ===== src/Server/Client.antt =====
-- server/src/client.rs: a client of the server. A component is a value of `C` and a task one of `T`: what
-- they do is a parameter, as a list of calls of the client's functions. A component is shared (`Arc`),
-- so the client's map leads to an object, and the objects hold the components. The map's keys,
-- which are type ids, are numbers.
pub mod Polling
pub mod Setup
pub mod Sending
pub mod Later
pub mod Closing
pub mod Ending
use protanki_protocol_rs.Common.{
  ℕ, zero, suc, ◌+◌, Bool, true, false, not, Option, none, some, List, [], ◌∷◌, ◌++◌, ◌==◌,
  if◌then◌else◌,
}
use protanki_protocol_rs.Common.Bytes.{Bytes}
use protanki_protocol_rs.Common.Text.{codes}
use protanki_protocol_rs.Common.Dict.{Dict, lookup, insert}
use protanki_protocol_rs.Protocol.Error.{
  ProtocolResult, ok, err, panic, ProtocolError, connection_closed,
}
use protanki_protocol_rs.Protocol.Codec.Primitives.{ByteOrder}
use protanki_protocol_rs.Protocol.Connection
use protanki_protocol_rs.Protocol.Connection.{Connection}
use protanki_protocol_rs.Server.Run.{Run, done, panicked, out_of_fuel, ◌>>=◌}
use protanki_protocol_rs.Server.Tasks.{Tasks, enqueue}

pub data AuthenticationState : Type 0 where
  unauthenticated : AuthenticationState
  authenticated : Bytes → AuthenticationState

-- server/src/server.rs
pub data ServerEvent : Type 0 where
  client_authenticated : ℕ → ServerEvent
  client_disconnected : ℕ → ServerEvent

-- `closing` has the number of callbacks: their receivers are dropped by `disconnect`.
pub data ConnectionState : Type 0 where
  opened : ConnectionState
  closing : ℕ → ConnectionState
  closed : ConnectionState

-- `issued` holds what was put on the server's channel, where the client has one. `borrowed` is the
-- object whose component runs, which is borrowed then.
pub record Client (P C T : Type 0) : Type 0 where
  pub client_id : ℕ
  pub server_events : Bool
  pub issued : List ServerEvent
  pub connection : Connection P
  pub connection_state : ConnectionState
  pub components : Dict ℕ
  pub objects : Dict C
  pub next_object : ℕ
  pub borrowed : Option ℕ
  pub language : Bytes
  pub tasks : Tasks T
  pub waker : Bool
  pub authentication_state : AuthenticationState

-- What a component or a task does to its client: the calls of the client's functions. The state that
-- another component is left in is a call of `with_component_mut`, and the end of
-- `register_component`, after the component's own calls, is `insert_component`.
pub data ClientCall (P C T : Type 0) : Type 0 where
  send : P → ClientCall P C T
  close : Bool → ClientCall P C T
  run_async : T → ClientCall P C T
  insert_component : ℕ → C → ClientCall P C T
  with_component_mut : ℕ → C → ClientCall P C T
  set_authentication_state : AuthenticationState → ClientCall P C T
  issue_server_event : ServerEvent → ClientCall P C T

-- What a function of a component leaves: its state, its calls, and whether it returned without error.
pub record Handled (P C T : Type 0) : Type 0 where
  pub component : C
  pub calls : List (ClientCall P C T)
  pub is_ok : Bool

abbrev pub is_opened : ConnectionState → Bool
is_opened opened = true
is_opened (closing n) = false
is_opened closed = false

abbrev pub is_closed : ConnectionState → Bool
is_closed opened = false
is_closed (closing n) = false
is_closed closed = true

abbrev pub is_connection_closed : ProtocolError → Bool
is_connection_closed (connection_closed e) = true
is_connection_closed _ = false

abbrev pub is_object : ℕ → Option ℕ → Bool
is_object object none = false
is_object object (some o) = object == o

abbrev pub values : Dict ℕ → List ℕ
values [] = []
values ((key, object) ∷ entries) = object ∷ values entries

-- An alert is sent at most once more than the packet.
abbrev pub send_depth : ℕ
send_depth = 2

module _ {P C T : Type 0} where
  unfoldable pub user_id : Client P C T → Option Bytes
  user_id c = elim c.authentication_state [ authenticated id ↦ some id | unauthenticated ↦ none ]

  -- `assert_eq!(self.client_id, 0)`
  unfoldable pub setup_client : Client P C T → ℕ → Run (Client P C T)
  setup_client c client_id = elim c.client_id [
    | zero ↦ done (record c { client_id = client_id; server_events = true })
    | suc n ↦ panicked
  ]

  unfoldable pub do_connection_close : Client P C T → Client P C T
  do_connection_close c = record c { connection_state = closed }

  unfoldable pub disconnect_flush : ConnectionState → Client P C T → Client P C T
  disconnect_flush opened c = record c { connection_state = closing 1; waker = false }
  disconnect_flush (closing callbacks) c = record c { connection_state = closing (callbacks + 1) }
  disconnect_flush closed c = c

  unfoldable pub disconnect : Client P C T → Bool → Client P C T
  unfolding disconnect_flush
  disconnect c true = disconnect_flush c.connection_state c
  disconnect c false = record c { connection_state = closed; waker = false }

  unfoldable pub issue : Client P C T → ServerEvent → Client P C T
  issue c e = if c.server_events then record c { issued = c.issued ++ (e ∷ []) } else c

  unfoldable pub store_component : Client P C T → ℕ → C → Client P C T
  unfolding insert
  store_component c key component = record c {
    components = insert key c.next_object c.components;
    objects = insert c.next_object component c.objects;
    next_object = c.next_object + 1;
    waker = false;
  }

  -- A component that is borrowed already cannot be borrowed again.
  unfoldable pub update_component : Client P C T → ℕ → C → Run (Client P C T)
  unfolding lookup insert
  update_component c key component = elim (lookup key c.components) [
    | none ↦ done c
    | some object ↦
        if is_object object c.borrowed
        then panicked
        else done (record c { objects = insert object component c.objects })
  ]

  module _ ⦃order : ByteOrder⦄ (packet_id : P → ℕ) (encode : P → ProtocolResult Bytes)
      (alert : Bytes → P) where
    -- `handle_protocol_error` with the function that sends.
    unfoldable pub handle_protocol_error :
        (Client P C T → P → Run (Client P C T)) → Client P C T → ProtocolError → Run (Client P C T)
    unfolding do_connection_close disconnect
    handle_protocol_error retry c e =
        if is_connection_closed e then done (do_connection_close c) else do
          c' ← retry c (alert (codes "Protocol error. Closing connection."))
          done (disconnect c' true)

    -- `send_packet` and `handle_protocol_error` call one another: the number bounds how deep.
    unfoldable pub send_packet : ℕ → Client P C T → P → Run (Client P C T)
    unfolding handle_protocol_error Connection.send_packet
    send_packet zero c p = out_of_fuel
    send_packet (suc depth) c p = elim (is_opened c.connection_state) [
      | false ↦ done c
      | true ↦ elim (Connection.send_packet packet_id encode c.connection p) [
        | ok connection ↦ done (record c { connection = connection })
        | err e ↦ handle_protocol_error (send_packet depth) c e
        | panic ↦ panicked
      ]
    ]

    unfoldable pub handle_handle_error : Client P C T → Run (Client P C T)
    unfolding send_packet disconnect
    handle_handle_error c = do
      c' ← send_packet send_depth c (alert (codes "Handling error. Closing connection."))
      done (disconnect c' true)

    unfoldable pub run_call : Client P C T → ClientCall P C T → Run (Client P C T)
    unfolding send_packet disconnect enqueue store_component update_component issue
    run_call c (send p) = send_packet send_depth c p
    run_call c (close flush) = done (disconnect c flush)
    run_call c (run_async t) = done (record c { tasks = enqueue c.tasks t })
    run_call c (insert_component key component) = done (store_component c key component)
    run_call c (with_component_mut key component) = update_component c key component
    run_call c (set_authentication_state s) = done (record c { authentication_state = s })
    run_call c (issue_server_event e) = done (issue c e)

    unfoldable pub run_calls : Client P C T → List (ClientCall P C T) → Run (Client P C T)
    unfolding run_call
    run_calls c [] = done c
    run_calls c (call ∷ calls) = run_call c call >>= λ c'. run_calls c' calls

    -- `register_component`, with what the component's `initialize` does, and whether it succeeded.
    unfoldable pub register_component :
        Client P C T → ℕ → (Client P C T → Handled P C T) → Run (Client P C T × Bool)
    unfolding run_calls store_component
    register_component c key initialize =
        let handled = initialize c in
        do
          c' ← run_calls c handled.calls
          done (
              if handled.is_ok
              then (store_component c' key handled.component, true)
              else (c', false))

    -- The body of the loops over the components, for `on_packet` and for `poll`.
    unfoldable pub visit :
        (C → Client P C T → Handled P C T) → Client P C T → ℕ → Run (Client P C T)
    unfolding lookup insert run_calls handle_handle_error
    visit act c object = elim (lookup object c.objects) [
      | none ↦ done c
      | some component ↦
          let handled = act component c in
          do
            c' ←
                run_calls
                  (record c {
                    objects = insert object handled.component c.objects;
                    borrowed = some object;
                  })
                  handled.calls
            let released = record c' { borrowed = none }
            if handled.is_ok then done released else handle_handle_error released
    ]

    unfoldable pub visit_all :
        (C → Client P C T → Handled P C T) → Client P C T → List ℕ → Run (Client P C T)
    unfolding visit
    visit_all act c [] = done c
    visit_all act c (object ∷ objects) = visit act c object >>= λ c'. visit_all act c' objects

    -- The loop over `components.values()`, which are collected before.
    unfoldable pub visit_components :
        (C → Client P C T → Handled P C T) → Client P C T → Run (Client P C T)
    unfolding visit_all
    visit_components act c = visit_all act c (values c.components)
