-- ===== src/Server/Server.antt =====
-- server/src/server.rs: the server. Its clients are in locks, shared with the tasks that poll them. The
-- components that it registers, the tasks that it gives a client and the packets that it sends are
-- parameters; the futures that only wait are left out.
pub mod Clients
pub mod Registration
use protanki_protocol_rs.Common.{
  ℕ, ◌+◌, ◌%◌, ◌^◌, Bool, true, false, Option, none, some, List, [], ◌∷◌, ◌++◌, if◌then◌else◌,
}
use protanki_protocol_rs.Common.Bytes.{Bytes}
use protanki_protocol_rs.Common.Text.{codes}
use protanki_protocol_rs.Common.Dict.{Dict, lookup, insert, remove}
use protanki_protocol_rs.Protocol.Error.{ProtocolResult}
use protanki_protocol_rs.Protocol.Codec.Primitives.{ByteOrder}
use protanki_protocol_rs.Server.Run.{Run, done, panicked, ◌>>=◌}
use protanki_protocol_rs.Server.Client.{
  Client, ClientCall, run_async, Handled, ServerEvent, client_authenticated, client_disconnected,
  setup_client, disconnect, user_id, send_packet, send_depth, run_calls, run_call,
  register_component,
}

-- A lock is poisoned where the thread that held it panicked.
pub record ClientLock (P C T : Type 0) : Type 0 where
  pub client : Client P C T
  pub is_poisoned : Bool

pub record Server (P C T : Type 0) : Type 0 where
  pub server_id : ℕ
  pub clients : Dict (ClientLock P C T)
  pub client_id_index : ℕ
  pub is_shutdown : Bool

-- `await_resources_loaded` of the resource component, called on the client: the component, its calls, and
-- the task that waits for the resources, or an error.
pub record Awaited (P C T : Type 0) : Type 0 where
  pub component : C
  pub calls : List (ClientCall P C T)
  pub resource_task : Option T

-- What the server registers and sends. The tasks have their callbacks with them.
pub record Setup (P C T : Type 0) : Type 0 where
  pub alert : Bytes → P
  pub halt : P
  pub layout_switch_start : P
  pub resources_key : ℕ
  pub initialize_resources : Client P C T → Handled P C T
  pub settings_key : ℕ
  pub initialize_settings : Client P C T → Handled P C T
  pub await_connect : C → Client P C T → Awaited P C T
  pub await_lobby : C → Client P C T → Awaited P C T
  pub with_connect_callback : T → T
  pub with_lobby_callback : T → T
  pub find_user : Bytes → T

module _ {P C T : Type 0} where
  unfoldable pub new_server : Server P C T
  new_server = record { server_id = 1; clients = []; client_id_index = 0; is_shutdown = false }

  -- `client_id_index += 1` wraps, as it does without overflow checks.
  unfoldable pub next_client_id : Server P C T → ℕ
  next_client_id s = (s.client_id_index + 1) % 2 ^ 32

  abbrev pub unlocked : Client P C T → ClientLock P C T
  unlocked c = record { client = c; is_poisoned = false }

  module _ ⦃order : ByteOrder⦄ (packet_id : P → ℕ) (encode : P → ProtocolResult Bytes)
      (setup : Setup P C T) where
    abbrev pub send_to : Client P C T → P → Run (Client P C T)
    send_to = send_packet packet_id encode setup.alert send_depth

    -- The body of the loop of `shutdown`.
    unfoldable pub halt_client : Client P C T → Run (Client P C T)
    unfolding send_packet disconnect
    halt_client c = do
      c' ← send_to c (setup.alert (codes "server stopped"))
      c'' ← send_to c' setup.halt
      done (disconnect c'' true)

    unfoldable pub halt_clients : Dict (ClientLock P C T) → Run (Dict (ClientLock P C T))
    unfolding halt_client
    halt_clients [] = done []
    halt_clients ((id, lock) ∷ clients) =
        if lock.is_poisoned
        then (do clients' ← halt_clients clients; done ((id, lock) ∷ clients'))
        else (do
          c ← halt_client lock.client
          clients' ← halt_clients clients
          done ((id, unlocked c) ∷ clients'))

    -- The flag is what the future returns.
    unfoldable pub shutdown : Server P C T → Run (Server P C T × Bool)
    unfolding halt_clients
    shutdown s = if s.is_shutdown then done (s, false) else (do
      clients ← halt_clients s.clients
      done (record s { is_shutdown = true; clients = clients }, true))

    -- `with_component_mut` on the resource component, and the task enqueued with its callback. The flag is
    -- whether the component was there and gave a task.
    unfoldable pub enqueue_awaited :
        (C → Client P C T → Awaited P C T) → (T → T) → Client P C T → Run (Client P C T × Bool)
    unfolding lookup insert run_calls run_call
    enqueue_awaited await with_callback c = elim (lookup setup.resources_key c.components) [
      | none ↦ done (c, false)
      | some object ↦ elim (lookup object c.objects) [
        | none ↦ done (c, false)
        | some component ↦
            let awaited = await component c in
            do
              c' ←
                  run_calls packet_id encode setup.alert
                    (record c {
                      objects = insert object awaited.component c.objects;
                      borrowed = some object;
                    })
                    awaited.calls
              let released = record c' { borrowed = none }
              elim awaited.resource_task [
                | none ↦ done (released, false)
                | some task ↦ do
                  c'' ←
                      run_call packet_id encode setup.alert released
                        (run_async (with_callback task))
                  done (c'', true)
              ]
      ]
    ]

    -- The result of `register_component` is ignored. A client that comes after the shutdown is not kept,
    -- but returned: it is polled until it is flushed. The flag is whether there was no error.
    unfoldable pub register_client :
        Server P C T → Client P C T → Run (Server P C T × Bool × Option (Client P C T))
    unfolding next_client_id setup_client register_component enqueue_awaited disconnect insert
    register_client s c =
        if s.is_shutdown
        then (do c' ← send_to c setup.halt; done (s, true, some (disconnect c' true)))
        else (do
          let id = next_client_id s
          c1 ← setup_client c id
          c2 ←
              register_component packet_id encode setup.alert c1 setup.resources_key
                setup.initialize_resources
          c3 ← enqueue_awaited setup.await_connect setup.with_connect_callback c2.0
          done (
              if c3.1
              then (
                record s { client_id_index = id; clients = insert id (unlocked c3.0) s.clients },
                true,
                none,
              )
              else (record s { client_id_index = id }, false, none)))

    -- What `handle_client_authenticated` does with the client, once it is locked.
    unfoldable pub enter_lobby : Client P C T → Run (Client P C T × Bool)
    unfolding user_id run_call register_component enqueue_awaited
    enter_lobby c = do
      c1 ← send_to c setup.layout_switch_start
      elim (user_id c1) [
        | none ↦ done (c1, false)
        | some id ↦ do
          c2 ← run_call packet_id encode setup.alert c1 (run_async (setup.find_user id))
          c3 ←
              register_component packet_id encode setup.alert c2 setup.settings_key
                setup.initialize_settings
          enqueue_awaited setup.await_lobby setup.with_lobby_callback c3.0
      ]

    unfoldable pub handle_client_authenticated : Server P C T → ℕ → Run (Server P C T × Bool)
    unfolding lookup insert enter_lobby
    handle_client_authenticated s id = elim (lookup id s.clients) [
      | none ↦ done (s, true)
      | some lock ↦ if lock.is_poisoned then panicked else (do
        entered ← enter_lobby lock.client
        done (record s { clients = insert id (unlocked entered.0) s.clients }, entered.1))
    ]

    unfoldable pub handle_event : Server P C T → ServerEvent → Run (Server P C T × Bool)
    unfolding remove handle_client_authenticated
    handle_event s (client_disconnected id) =
        done (record s { clients = remove id s.clients }, true)
    handle_event s (client_authenticated id) = handle_client_authenticated s id

    -- `poll`, with the events that the channel gives before it is pending. Errors are only logged.
    unfoldable pub poll : Server P C T → List ServerEvent → Run (Server P C T)
    unfolding handle_event
    poll s [] = done s
    poll s (event ∷ events) = do handled ← handle_event s event; poll handled.0 events
