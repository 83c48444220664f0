-- ===== src/Server/Client/Polling.antt =====
-- `Future for Client` in server/src/client.rs. What the socket answers is a list, one entry for each poll
-- of the connection; where it ends, the socket is pending.
use protanki_protocol_rs.Common.{
  ℕ, zero, suc, Bool, true, false, ◌&&◌, Option, none, some, List, [], ◌∷◌, ◌++◌, if◌then◌else◌,
}
use protanki_protocol_rs.Common.Bytes.{Bytes}
use protanki_protocol_rs.Protocol.Error.{ProtocolResult, ok, err, panic}
use protanki_protocol_rs.Protocol.Codec.Primitives.{ByteOrder}
use protanki_protocol_rs.Protocol.Packets.{Packet}
use protanki_protocol_rs.Protocol.Connection.{ready, pending}
use protanki_protocol_rs.Protocol.Connection.Polling.{
  RecvEvent, SendEvent, poll_next, is_send_buffer_clear,
}
use protanki_protocol_rs.Server.Run.{Run, done, panicked, out_of_fuel, ◌>>=◌}
use protanki_protocol_rs.Server.Tasks
use protanki_protocol_rs.Server.Tasks.{Tasks, Polled}
use protanki_protocol_rs.Server.Client.{
  Client, ConnectionState, opened, closing, closed, is_closed, ClientCall, Handled,
  do_connection_close, handle_protocol_error, send_packet, send_depth, run_calls, visit_components,
}

abbrev pub SocketAnswers : Type 0
SocketAnswers = List (List SendEvent × List RecvEvent)

abbrev pub answers_now : SocketAnswers → List SendEvent × List RecvEvent
answers_now [] = ([], [])
answers_now (a ∷ answers) = a

abbrev pub answers_later : SocketAnswers → SocketAnswers
answers_later [] = []
answers_later (a ∷ answers) = answers

abbrev pub is_closing : ConnectionState → Bool
is_closing opened = false
is_closing (closing n) = true
is_closing closed = false

-- The client, whether its future is ready, and the bytes that the socket took.
pub record PolledClient (P C T : Type 0) : Type 0 where
  pub client : Client P C T
  pub is_ready : Bool
  pub wire : Bytes

module _ {P C T : Type 0} where
  -- The end of `poll`, once the connection is pending.
  unfoldable pub finish_closing : Client P C T → Client P C T
  unfolding do_connection_close is_send_buffer_clear
  finish_closing c =
      if is_closing c.connection_state && is_send_buffer_clear c.connection
      then do_connection_close c
      else c

module _ ⦃order : ByteOrder⦄ {P C T : Type 0} (packet_id : P → ℕ)
    (encode : P → ProtocolResult Bytes) (alert : Bytes → P)
    (on_packet : C → Client P C T → Packet P → Handled P C T)
    (poll_component : C → Client P C T → Handled P C T)
    (poll_task : T → Client P C T → Option T × List (ClientCall P C T)) where
  unfoldable pub handle_packet : Client P C T → Packet P → Run (Client P C T)
  unfolding visit_components
  handle_packet c p =
      visit_components packet_id encode alert (λ component c'. on_packet component c' p) c

  -- A task does its calls while the tasks are borrowed: what it enqueues goes to the new tasks.
  unfoldable pub poll_one : T → Run (Client P C T) → Polled T (Run (Client P C T))
  unfolding run_calls
  poll_one t panicked = record { left = some t; state = panicked; enqueued = [] }
  poll_one t out_of_fuel = record { left = some t; state = out_of_fuel; enqueued = [] }
  poll_one t (done c) =
      let polled = poll_task t c in
      elim (run_calls packet_id encode alert c polled.1) [
        | panicked ↦ record { left = polled.0; state = panicked; enqueued = [] }
        | out_of_fuel ↦ record { left = polled.0; state = out_of_fuel; enqueued = [] }
        | done c' ↦ record {
          left = polled.0;
          state = done (record c' { tasks = record c'.tasks { new_tasks = [] } });
          enqueued = c'.tasks.new_tasks;
        }
      ]

  unfoldable pub poll_tasks : ℕ → Client P C T → Run (Client P C T)
  unfolding Tasks.poll poll_one
  poll_tasks fuel c =
      let borrowed = record c {
        tasks = record { tasks = []; new_tasks = []; waker = false; is_borrowed = true };
      } in
      elim (Tasks.poll poll_one fuel c.tasks (done borrowed)) [
        | none ↦ out_of_fuel
        | some (tasks, r) ↦ r >>= λ c'. done (record c' { tasks = tasks })
      ]

  -- The loop over the connection, with fuel.
  unfoldable pub poll_connection :
      ℕ → Client P C T → SocketAnswers → Bytes → Run (PolledClient P C T)
  unfolding poll_next handle_packet handle_protocol_error finish_closing
  poll_connection zero c answers wire = out_of_fuel
  poll_connection (suc fuel) c answers wire =
      let now = answers_now answers in
      let polled = poll_next c.connection now.0 now.1 in
      let c' = record c { connection = polled.0 } in
      let wire' = wire ++ polled.2 in
      elim polled.1 [
        | pending ↦ done (record { client = finish_closing c'; is_ready = false; wire = wire' })
        | ready none ↦
            done (record { client = do_connection_close c'; is_ready = true; wire = wire' })
        | ready (some (ok p)) ↦
            handle_packet c' p >>= λ c''. poll_connection fuel c'' (answers_later answers) wire'
        | ready (some (err e)) ↦
            handle_protocol_error packet_id encode alert
              (send_packet packet_id encode alert send_depth) c' e
            >>= λ c''. poll_connection fuel c'' (answers_later answers) wire'
        | ready (some panic) ↦ panicked
      ]

  unfoldable pub poll : ℕ → ℕ → Client P C T → SocketAnswers → Run (PolledClient P C T)
  unfolding poll_tasks visit_components poll_connection
  poll task_fuel fuel c answers = do
    polled ← poll_tasks task_fuel (record c { waker = true })
    c' ← visit_components packet_id encode alert poll_component polled
    if is_closed c'.connection_state
        then done (record { client = c'; is_ready = true; wire = [] })
        else poll_connection fuel c' answers []
