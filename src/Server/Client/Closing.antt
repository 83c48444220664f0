-- ===== src/Server/Client/Closing.antt =====
-- How a client of server/src/client.rs is closed.
use protanki_protocol_rs.Common.{
  ℕ, suc, ◌≡◌, refl, arith, true, none, some, List, [], ◌∷◌, if◌then◌else◌, Bool-cases,
  Option-cases, inl, inr,
}
use protanki_protocol_rs.Common.Bytes.{Bytes}
use protanki_protocol_rs.Common.Dict.{lookup, insert}
use protanki_protocol_rs.Protocol.Error.{ProtocolResult, ok, err, panic, ProtocolError}
use protanki_protocol_rs.Protocol.Codec.Primitives.{ByteOrder}
use protanki_protocol_rs.Protocol.Connection
use protanki_protocol_rs.Protocol.Connection.{Connection}
use protanki_protocol_rs.Server.Run.{Run, done, panicked, ◌>>=◌, Returns, Returns-bind, Returns-map}
use protanki_protocol_rs.Server.Client.{
  Client, is_opened, is_connection_closed, ClientCall, send, close, run_async, insert_component,
  with_component_mut, set_authentication_state, issue_server_event, Handled, handle_protocol_error,
  send_packet, send_depth, handle_handle_error, run_call, run_calls, visit, visit_all,
  visit_components, values, issue, store_component, update_component, is_object,
}
use protanki_protocol_rs.Server.Client.Sending.{Ends, Ends-any, KeepsInput, connection_send-Ends}
use protanki_protocol_rs.Server.Client.Later.{
  level_opened, Later, Later-refl, Later-trans, Later-connection_state, do_connection_close-Later,
  disconnect-Later,
}

-- The alerts can be encoded.
abbrev pub AlertsEncode : {P : Type 0} → (P → ProtocolResult Bytes) → (Bytes → P) → Type 0
AlertsEncode encode alert = (text : Bytes) → (b : Bytes) × (encode (alert text) ≡ ok b)

module _ {P C T : Type 0} where
  module _ ⦃order : ByteOrder⦄ (packet_id : P → ℕ) (encode : P → ProtocolResult Bytes)
      (alert : Bytes → P) where
    protocol_error-Later :
        (retry : Client P C T → P → Run (Client P C T)) (c : Client P C T) (e : ProtocolError)
        → ((text : Bytes) → Returns (Later c) (retry c (alert text)))
        → Returns (Later c) (handle_protocol_error packet_id encode alert retry c e)
    unfolding handle_protocol_error
    protocol_error-Later retry c e later = elim (Bool-cases (is_connection_closed e)) [
      | inl h ↦ rw h (do_connection_close-Later c)
      | inr h ↦ rw h (
          Returns-bind (Later c) (Later c) (retry c _) _ (later _)
            λ d l. Later-trans l (disconnect-Later d true))
    ]

    -- What is done with the result of the connection's function.
    sent-Later :
        (E : Type 0) (depth : ℕ) (c : Client P C T) (r : ProtocolResult (Connection P))
        → is_opened c.connection_state ≡ true
        → Ends (KeepsInput c.connection) E r
        → (E
            → (e : ProtocolError)
            → Returns (Later c) (
                handle_protocol_error packet_id encode alert
                  (send_packet packet_id encode alert depth)
                  c
                  e))
        → Returns (Later c) (elim r [
          | ok connection ↦ done (record c { connection = connection })
          | err e ↦
              handle_protocol_error packet_id encode alert
                (send_packet packet_id encode alert depth)
                c
                e
          | panic ↦ panicked
        ])
    sent-Later E depth c (ok d) o k h = record {
      forward = omega arith;
      quiet = λ l. absurd (omega (arith, level_opened c.connection_state o));
      same_input = k;
      same = (refl, refl);
    }
    sent-Later E depth c (err e) o k h = h k e
    sent-Later E depth c panic o k h = tt

    send_alert-Later :
        AlertsEncode encode alert
        → (depth : ℕ) (c : Client P C T) (text : Bytes)
        → Returns (Later c) (send_packet packet_id encode alert (suc depth) c (alert text))
    unfolding send_packet
    send_alert-Later alerts depth c text = elim (Bool-cases (is_opened c.connection_state)) [
      | inl o ↦
          rw (o, send_packet)
            (sent-Later ⊥ depth c
              (Connection.send_packet packet_id encode c.connection (alert text)) o
              (connection_send-Ends packet_id encode ⊥ c.connection (alert text)
                (rw (alerts text).1 tt))
              λ h e. elim h [ ])
      | inr o ↦ rw (o, send_packet) (Later-refl c)
    ]

    pub send_packet-Later :
        AlertsEncode encode alert
        → (c : Client P C T) (p : P)
        → Returns (Later c) (send_packet packet_id encode alert send_depth c p)
    unfolding send_packet
    send_packet-Later alerts c p = elim (Bool-cases (is_opened c.connection_state)) [
      | inl o ↦
          rw (o, send_packet)
            (sent-Later (Unit {0}) 1 c (Connection.send_packet packet_id encode c.connection p) o
              (connection_send-Ends packet_id encode (Unit {0}) c.connection p
                (Ends-any (encode p)))
              λ h e.
                protocol_error-Later (send_packet packet_id encode alert 1) c e
                  (send_alert-Later alerts 0 c))
      | inr o ↦ rw (o, send_packet) (Later-refl c)
    ]

    pub handle_protocol_error-Later :
        AlertsEncode encode alert
        → (c : Client P C T) (e : ProtocolError)
        → Returns (Later c) (
            handle_protocol_error packet_id encode alert
              (send_packet packet_id encode alert send_depth)
              c
              e)
    handle_protocol_error-Later alerts c e =
        protocol_error-Later _ c e (send_alert-Later alerts 1 c)

    -- One run after another.
    then-Later :
        (c : Client P C T) (m : Run (Client P C T)) (f : Client P C T → Run (Client P C T))
        → Returns (Later c) m
        → ((d : Client P C T) → Returns (Later d) (f d))
        → Returns (Later c) (m >>= f)
    then-Later c m f h k =
        Returns-bind (Later c) (Later c) m f h λ d l. Returns-map (λ e. Later-trans l) (f d) (k d)

    handle_error-Later :
        AlertsEncode encode alert
        → (c : Client P C T) → Returns (Later c) (handle_handle_error packet_id encode alert c)
    unfolding handle_handle_error
    handle_error-Later alerts c =
        then-Later c (send_packet packet_id encode alert send_depth c _) _
          (send_packet-Later alerts c _) λ d. disconnect-Later d true

    run_call-Later :
        AlertsEncode encode alert
        → (c : Client P C T) (call : ClientCall P C T)
        → Returns (Later c) (run_call packet_id encode alert c call)
    unfolding run_call issue store_component update_component
    run_call-Later alerts c (send p) = send_packet-Later alerts c p
    run_call-Later alerts c (close flush) = disconnect-Later c flush
    run_call-Later alerts c (run_async t) =
        Later-connection_state c _ refl (refl, refl) (omega arith)
    run_call-Later alerts c (insert_component key component) =
        Later-connection_state c _ refl (refl, refl) (omega arith)
    run_call-Later alerts c (with_component_mut key component) =
        elim (Option-cases (lookup key c.components)) [
          | inl e ↦ rw (e, update_component) (Later-refl c)
          | inr (o, e) ↦ elim (Bool-cases (is_object o c.borrowed)) [
            | inl b ↦ rw (e, update_component, b) tt
            | inr b ↦
                rw (e, update_component, b)
                  (Later-connection_state c _ refl (refl, refl) (omega arith))
          ]
        ]
    run_call-Later alerts c (set_authentication_state s) =
        Later-connection_state c _ refl (refl, refl) (omega arith)
    run_call-Later alerts c (issue_server_event e) = elim (Bool-cases c.server_events) [
      | inl h ↦
          Later-connection_state c _ (ground arith) (ground arith, ground arith) (ground arith)
      | inr h ↦
          Later-connection_state c _ (ground arith) (ground arith, ground arith) (ground arith)
    ]

    pub run_calls-Later :
        AlertsEncode encode alert
        → (calls : List (ClientCall P C T)) (c : Client P C T)
        → Returns (Later c) (run_calls packet_id encode alert c calls)
    unfolding run_calls
    run_calls-Later alerts [] c = Later-refl c
    run_calls-Later alerts (call ∷ calls) c =
        then-Later c (run_call packet_id encode alert c call) _ (run_call-Later alerts c call)
          (run_calls-Later alerts calls)

    visit_missing :
        (act : C → Client P C T → Handled P C T) (c : Client P C T) (object : ℕ)
        → lookup object c.objects ≡ none
        → visit packet_id encode alert act c object ≡ done c
    unfolding visit
    visit_missing act c object e = rw (e, visit) refl

    visit_found :
        (act : C → Client P C T → Handled P C T) (c : Client P C T) (object : ℕ) (component : C)
        → lookup object c.objects ≡ some component
        → let handled = act component c in
          visit packet_id encode alert act c object ≡ (
            run_calls packet_id encode alert
              (record c {
                objects = insert object handled.component c.objects;
                borrowed = some object;
              })
              handled.calls
            >>= λ d.
                let released = record d { borrowed = none } in
                if handled.is_ok
                then done released
                else handle_handle_error packet_id encode alert released)
    unfolding visit
    visit_found act c object component e = rw (e, visit) refl

    visit-Later :
        AlertsEncode encode alert
        → (act : C → Client P C T → Handled P C T) (object : ℕ) (c : Client P C T)
        → Returns (Later c) (visit packet_id encode alert act c object)
    visit-Later alerts act object c = elim (Option-cases (lookup object c.objects)) [
      | inl e ↦ rw (visit_missing act c object e) (Later-refl c)
      | inr (component, e) ↦
          let handled = act component c in
          let c' = record c {
            objects = insert object handled.component c.objects;
            borrowed = some object;
          } in
          rw (visit_found act c object component e) (
            then-Later c (run_calls packet_id encode alert c' handled.calls) _
              (Returns-map
                (λ d. Later-trans (Later-connection_state c c' refl (refl, refl) (omega arith)))
                (run_calls packet_id encode alert c' handled.calls)
                (run_calls-Later alerts handled.calls c'))
              λ d.
                let released = record d { borrowed = none } in
                let l = Later-connection_state d released refl (refl, refl) (omega arith) in
                elim (Bool-cases handled.is_ok) [
                  | inl h ↦ rw h l
                  | inr h ↦ rw h (
                      Returns-map (λ e. Later-trans l)
                        (handle_handle_error packet_id encode alert released)
                        (handle_error-Later alerts released))
                ])
    ]

    visit_all-Later :
        AlertsEncode encode alert
        → (act : C → Client P C T → Handled P C T) (objects : List ℕ) (c : Client P C T)
        → Returns (Later c) (visit_all packet_id encode alert act c objects)
    unfolding visit_all
    visit_all-Later alerts act [] c = Later-refl c
    visit_all-Later alerts act (object ∷ objects) c =
        then-Later c (visit packet_id encode alert act c object) _ (visit-Later alerts act object c)
          (visit_all-Later alerts act objects)

    -- Where the client's own alerts can be encoded, and whatever the components do when a packet is
    -- handed to them or when they are polled: the loop over them ends, and unless it panics, the state of
    -- the client's connection does not go back, a client that was closing or closed before sends nothing,
    -- the bytes received and not parsed are as many as before, and the client keeps its id.
    pub visit_components-Later :
        AlertsEncode encode alert
        → (act : C → Client P C T → Handled P C T) (c : Client P C T)
        → Returns (Later c) (visit_components packet_id encode alert act c)
    unfolding visit_components
    visit_components-Later alerts act c = visit_all-Later alerts act (values c.components) c
