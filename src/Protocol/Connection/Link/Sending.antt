-- ===== src/Protocol/Connection/Link/Sending.antt =====
-- `send_packet` and `poll_outgoing` of protocol/src/connection.rs: what joins the bytes on their way.
use mathlib.Core.Path.{subst}
use protanki_protocol_rs.Common.{
  ℕ, ◌+◌, ◌-◌, ◌%◌, ◌^◌, ◌≤◌, ◌≡◌, refl, sym, ap, ◌∙◌, arith, false, inl, inr, List, [], ◌∷◌, ◌++◌,
  append_assoc, append-nil, length, length-append, length-drop, take, drop, take_at, drop_at,
  take-append-drop, leb, Bool-cases,
}
use protanki_protocol_rs.Common.Bytes.{Bytes}
use protanki_protocol_rs.Protocol.Error.{ProtocolResult, ok}
use protanki_protocol_rs.Protocol.Crypto.{Cipher, encrypt}
use protanki_protocol_rs.Protocol.Crypto.KeySync.{Paired, decrypt-encrypt}
use protanki_protocol_rs.Protocol.Codec.Primitives.{ByteOrder}
use protanki_protocol_rs.Protocol.Packets.{known, PacketRegistry}
use protanki_protocol_rs.Protocol.Connection.{
  Connection, slice, copy_within, clear_frame, max_packet_length, send_packet,
}
use protanki_protocol_rs.Protocol.Connection.Polling.{
  SendEvent, accepted, send_failed, send_pending, poll_outgoing, is_send_buffer_clear,
}
use protanki_protocol_rs.Protocol.Connection.Parsing.{IsFrame, header, length-header}
use protanki_protocol_rs.Protocol.Connection.Link.{IsSendable}

rejoin :
    (n : ℕ) (b wire : Bytes)
    → n ≤ length b
    → (wire ++ take n b) ++ take (length b - n) (copy_within n b) ≡ wire ++ b
unfolding copy_within
rejoin n b wire h =
    ap (λ (x : Bytes). (wire ++ take n b) ++ x)
      (take_at (length b - n) (drop n b) (drop (length b - n) b) (length-drop n b))
    ∙ append_assoc wire (take n b) (drop n b)
    ∙ ap (λ (x : Bytes). wire ++ x) (take-append-drop n b)

module _ ⦃order : ByteOrder⦄ where
  clear_frame_lem :
      (id : ℕ) (payload : Bytes)
      → 8 + length payload ≤ max_packet_length
      → clear_frame id payload ≡ header (8 + length payload) id ++ payload
  unfolding clear_frame
  clear_frame_lem id payload h =
      ap (λ (k : ℕ). order.to_bytes 4 k ++ drop 4 buffer) measured
      ∙ ap (λ (b : Bytes). order.to_bytes 4 (8 + length payload) ++ b)
          (drop_at 4 (order.to_bytes 4 0) _ (order.length-to_bytes 4 0))
      ∙ sym (append_assoc (order.to_bytes 4 (8 + length payload)) (order.to_bytes 4 id) payload)
    where
      buffer : Bytes
      buffer = order.to_bytes 4 0 ++ (order.to_bytes 4 id ++ payload)

      measured : length buffer % 2 ^ 32 ≡ 8 + length payload
      measured = omega (
        arith,
        length-append (order.to_bytes 4 0) (order.to_bytes 4 id ++ payload),
        length-append (order.to_bytes 4 id) payload,
        order.length-to_bytes 4 0,
        order.length-to_bytes 4 id,
      )

  module _ {P : Type 0} (packet_id : P → ℕ) (encode : P → ProtocolResult Bytes) where
    send_packet_lem :
        (c : Connection P) (p : P) (payload wire : Bytes) (cipher : Cipher)
        → encode p ≡ ok payload
        → 8 + length payload ≤ max_packet_length
        → encrypt c.crypt_context payload ≡ ok (cipher, wire)
        → send_packet packet_id encode c p
          ≡ ok (record c {
            crypt_context = cipher;
            send_buffer = c.send_buffer ++ (header (8 + length payload) (packet_id p) ++ wire);
            send_waker = false;
          })
    unfolding send_packet slice
    send_packet_lem c p payload wire cipher e h k =
        let head = header (8 + length payload) (packet_id p) in
        ground (
          arith,
          e,
          k,
          clear_frame_lem (packet_id p) payload h,
          length-append head payload,
          length-header (8 + length payload) (packet_id p),
          take_at 8 head payload (length-header (8 + length payload) (packet_id p)),
          drop_at 8 head payload (length-header (8 + length payload) (packet_id p)),
          take_at (length (head ++ payload) - 8) payload [] (
              omega (
                arith,
                length-append head payload,
                length-header (8 + length payload) (packet_id p),
              )),
          append-nil payload,
        )

    -- The bytes on their way, as frames for the receiver from its cipher on to the sender's.
    pub data InFlight (registry : PacketRegistry P)
        : Cipher → Cipher → List P → Bytes → Type 0 where
      nothing : {r s : Cipher} → Paired s r → InFlight registry r s [] []
      frame_of :
          {r s after : Cipher} {ps : List P} {bytes : Bytes} (p : P) (frame rest : Bytes)
          → IsFrame registry r after (known p) frame
          → InFlight registry after s ps rest
          → bytes ≡ frame ++ rest
          → InFlight registry r s (p ∷ ps) bytes

    -- A packet sent joins the end.
    pub record Appended (c d : Connection P) (registry : PacketRegistry P) (r : Cipher)
        (ps : List P) (bytes : Bytes) (p : P) : Type 0 where
      pub frame : Bytes
      pub chain : InFlight registry r d.crypt_context (ps ++ (p ∷ [])) (bytes ++ frame)
      pub written : d.send_buffer ≡ c.send_buffer ++ frame

    module _ (registry : PacketRegistry P) (c d : Connection P) (p : P)
        (ok_to_send : IsSendable packet_id encode registry p)
        (sends : send_packet packet_id encode c p ≡ ok d) where
      append_last : (r : Cipher) → Paired c.crypt_context r → Appended c d registry r [] [] p
      append_last r pr =
          let s = decrypt-encrypt c.crypt_context r ok_to_send.payload pr ok_to_send.bytes in
          let l = 8 + length ok_to_send.payload in
          let f : Bytes = header l (packet_id p) ++ s.wire in
          let e =
            send_packet_lem c p ok_to_send.payload s.wire s.sender' ok_to_send.encodes
              ok_to_send.small s.encrypts in
          let same : d ≡ record c {
            crypt_context = s.sender';
            send_buffer = c.send_buffer ++ f;
            send_waker = false;
          } =
            cc (sends, e) in
          let whole : header l (packet_id p) ++ s.wire
              ≡ header (8 + length s.wire) (packet_id p) ++ s.wire =
            ap (λ (k : ℕ). header (8 + k) (packet_id p) ++ s.wire) (sym s.same_length) in
          record {
            frame = f;
            chain =
                frame_of p f []
                  (record {
                    id = packet_id p;
                    payload = ok_to_send.payload;
                    unread = ok_to_send.unread;
                    wire = s.wire;
                    shape = whole;
                    decrypts = s.decrypts;
                    decodes = ok_to_send.decodes;
                    same_length = sym s.same_length;
                    small = omega (arith, s.same_length, ok_to_send.small);
                    id_u32 = ok_to_send.id_u32;
                  })
                  (nothing (subst (λ x. Paired x.crypt_context s.receiver') (sym same) s.paired))
                  (sym (append-nil f));
            written = ap (λ x. x.send_buffer) same;
          }

      pub append :
          {r s : Cipher} {ps : List P} {bytes : Bytes}
          → s ≡ c.crypt_context
          → InFlight registry r s ps bytes
          → Appended c d registry r ps bytes p
      append {r} e (nothing pr) = append_last r (subst (λ s. Paired s r) e pr)
      append e (frame_of q f rest isf i b) =
          let a = append e i in
          record {
            frame = a.frame;
            chain =
                frame_of q f (rest ++ a.frame) isf a.chain
                  (ap (λ (x : Bytes). x ++ a.frame) b ∙ append_assoc f rest a.frame);
            written = a.written;
          }

    pub flushed :
        (es : List SendEvent) (c : Connection P) (wire : Bytes)
        → ((poll_outgoing c es wire).2 ++ (poll_outgoing c es wire).0.send_buffer
            ≡ wire ++ c.send_buffer)
          × ((poll_outgoing c es wire).0.crypt_context ≡ c.crypt_context)
    unfolding poll_outgoing
    flushed [] c wire = (refl, refl)
    flushed (send_failed x ∷ es) c wire = ground arith
    flushed (send_pending ∷ es) c wire = ground arith
    flushed (accepted n ∷ es) c wire =
        let b = c.send_buffer in
        let c' = record c { send_buffer = take (length b - n) (copy_within n b) } in
        elim (Bool-cases (is_send_buffer_clear c)) [
          | inl h ↦ rw (h, poll_outgoing) (refl, refl)
          | inr h ↦ elim (Bool-cases (leb n (length b))) [
            | inl k ↦
                let (whole, cipher) = flushed es c' (wire ++ take n b) in
                rw (h, poll_outgoing)
                  (rw (k, poll_outgoing) (whole ∙ rejoin n b wire (ground (arith, k)), cipher))
            | inr k ↦ rw (h, poll_outgoing) (rw (k, poll_outgoing) (refl, refl))
          ]
        ]
