-- ===== src/Protocol/Connection/Link/Delivery.antt =====
-- What a reachable `Link` of two connections has returned.
use mathlib.Core.Path.{subst, subst₂, subst₃}
use mathlib.Core.List.{map-append}
use native.Mathlib.Decide.{dec_lt}
use protanki_protocol_rs.Common.{
  ℕ, ◌+◌, ◌-◌, ◌≤◌, ◌≡◌, refl, sym, ap, ◌∙◌, arith, ◌⊎◌, inl, inr, List, [], ◌∷◌, ◌++◌, map,
  append_assoc, append-nil, length, length-append, length-take, length-drop, take, drop, take_at,
  take_all, take-append_le, Bool-cases, ltb, All, All-parts,
}
use protanki_protocol_rs.Common.Bytes.{Bytes}
use protanki_protocol_rs.Protocol.Error.{ProtocolResult, ok}
use protanki_protocol_rs.Protocol.Crypto.{Cipher}
use protanki_protocol_rs.Protocol.Codec.Primitives.{ByteOrder}
use protanki_protocol_rs.Protocol.Packets.{Packet, known, PacketRegistry}
use protanki_protocol_rs.Protocol.Connection.{Connection, Poll, try_parse_read_buffer}
use protanki_protocol_rs.Protocol.Connection.Polling.{poll_outgoing, fill, reserve}
use protanki_protocol_rs.Protocol.Connection.Parsing.{
  received_bytes, HasRoom, IsFrame, Parsed, Waits, try_parse-frame, try_parse-part, nothing-Waits,
  header, length-header, resize_larger,
}
use protanki_protocol_rs.Protocol.Connection.Link.{
  IsSendable, Link, Step, send, flush, make_room, arrive, parse, Reach, here, next, IsFresh,
  note_result,
}
use protanki_protocol_rs.Protocol.Connection.Link.Sending.{
  InFlight, nothing, frame_of, append, flushed,
}

-- The longer front contains the shorter one.
front_of :
    (zs xs ws ys : Bytes)
    → xs ++ ys ≡ zs ++ ws
    → length zs ≤ length xs
    → (xs ≡ zs ++ drop (length zs) xs) × (drop (length zs) xs ++ ys ≡ ws)
front_of [] xs ws ys e h = (refl, e)
front_of (z ∷ zs) [] ws ys e h = elim h [ ]
front_of (z ∷ zs) (x ∷ xs) ws ys e h =
    let (p, q) = front_of zs xs ws ys (cc) (omega arith) in (cc, q)

empty_front : (xs ys : Bytes) → xs ++ ys ≡ [] → xs ≡ []
empty_front [] ys e = refl
empty_front (x ∷ xs) ys e = cc

fill_lem :
    (n : ℕ) (b chunk : Bytes)
    → n + length chunk ≤ length b
    → (take
          (n + length chunk)
          (take n b ++ (take (length b - n) chunk ++ drop (n + length chunk) b))
        ≡ take n b ++ chunk)
      × (n + length chunk
          ≤ length (take n b ++ (take (length b - n) chunk ++ drop (n + length chunk) b)))
fill_lem n b chunk h =
    let tail : Bytes = drop (n + length chunk) b in
    let shape : take n b ++ (take (length b - n) chunk ++ tail) ≡ (take n b ++ chunk) ++ tail =
      ap (λ (x : Bytes). take n b ++ (x ++ tail)) (take_all (length b - n) chunk (omega arith))
      ∙ sym (append_assoc (take n b) chunk tail) in
    let measured : length (take n b ++ chunk) ≡ n + length chunk =
      length-append (take n b) chunk ∙ omega (arith, length-take n b) in
    (
      ap (take (n + length chunk)) shape
          ∙ take_at (n + length chunk) (take n b ++ chunk) tail measured,
      omega (arith, ap length shape, length-append (take n b ++ chunk) tail, measured),
    )

module _ {P : Type 0} where
  received_bytes-fill :
      (c : Connection P) (chunk : Bytes)
      → c.recv_buffer_index + length chunk ≤ length c.recv_buffer
      → (received_bytes (fill c chunk) ≡ received_bytes c ++ chunk) × HasRoom (fill c chunk)
  unfolding fill
  received_bytes-fill c chunk h = fill_lem c.recv_buffer_index c.recv_buffer chunk h

  received_bytes-reserve :
      (c : Connection P)
      → HasRoom c
      → (received_bytes (reserve c) ≡ received_bytes c) × HasRoom (reserve c)
  unfolding reserve
  received_bytes-reserve c room =
      elim (Bool-cases (ltb (length c.recv_buffer - c.recv_buffer_index) 1024)) [
        | inl k ↦
            let (zeros, shape, long) =
              resize_larger (length c.recv_buffer + 1024) c.recv_buffer (omega arith) in
            rw k (
              ap (take c.recv_buffer_index) shape
                  ∙ take-append_le c.recv_buffer_index c.recv_buffer zeros room,
              omega (arith, long),
            )
        | inr k ↦ rw k (refl, room)
      ]

  reserve_keeps :
      (c : Connection P)
      → ((reserve c).packet_registry ≡ c.packet_registry)
        × ((reserve c).crypt_context ≡ c.crypt_context)
  unfolding reserve
  reserve_keeps c = ground arith

  fill_keeps :
      (c : Connection P) (chunk : Bytes)
      → ((fill c chunk).packet_registry ≡ c.packet_registry)
        × ((fill c chunk).crypt_context ≡ c.crypt_context)
  unfolding fill
  fill_keeps c chunk = (refl, refl)

module _ ⦃order : ByteOrder⦄ {P : Type 0} (packet_id : P → ℕ)
    (encode : P → ProtocolResult Bytes) where
  -- One packet comes off the front of what is on its way.
  record Delivers (c : Connection P) (s : Cipher) (ps : List P) (behind : Bytes) : Type 0 where
    first : P
    others : List P
    in_order : ps ≡ first ∷ others
    after : Cipher
    rest : Bytes
    parsed : Parsed c (known first) after rest
    chain : InFlight packet_id encode c.packet_registry after s others (rest ++ behind)

  outcome :
      (c : Connection P) {r s : Cipher} {ps : List P} {bytes : Bytes} (behind : Bytes)
      → HasRoom c
      → r ≡ c.crypt_context
      → bytes ≡ received_bytes c ++ behind
      → InFlight packet_id encode c.packet_registry r s ps bytes
      → Waits c ⊎ Delivers c s ps behind
  outcome c behind room er e (nothing pr) =
      inl (nothing-Waits c room (empty_front (received_bytes c) behind (sym e)))
  outcome c {s} behind room er e (frame_of {after} {ps} p frame rest f i b) =
      elim (dec_lt (length (received_bytes c)) (length frame)) [
        | yes h ↦
            let split = front_of (received_bytes c) frame behind rest (sym b ∙ e) (omega arith) in
            inl (
              try_parse-part c frame (drop (length (received_bytes c)) frame) after (known p) room
                (sym split.0) (omega (arith, length-drop (length (received_bytes c)) frame))
                (subst (λ x. IsFrame c.packet_registry x after (known p) frame) er f))
        | no h ↦
            let split = front_of frame (received_bytes c) rest behind (sym e ∙ b) (omega arith) in
            inr (record {
              first = p;
              others = ps;
              in_order = refl;
              after = after;
              rest = drop (length frame) (received_bytes c);
              parsed =
                  try_parse-frame c frame (drop (length frame) (received_bytes c)) after (known p)
                    room split.0
                    (subst (λ x. IsFrame c.packet_registry x after (known p) frame) er f);
              chain =
                  subst (InFlight packet_id encode c.packet_registry after s ps) (sym split.1) i;
            })
      ]

  abbrev pub results : List P → List (ProtocolResult (Packet P))
  results = map λ p. ok (known p)

  -- The bytes between the two parsers' ends.
  abbrev pub on_the_way : Link packet_id encode → Bytes
  on_the_way l = received_bytes l.receiver ++ (l.wire ++ l.sender.send_buffer)

  later_output : (a b c f d : Bytes) → d ≡ c ++ f → (a ++ (b ++ c)) ++ f ≡ a ++ (b ++ d)
  later_output a b c f d e =
      append_assoc a (b ++ c) f
      ∙ ap (λ (x : Bytes). a ++ x) (append_assoc b c f ∙ ap (λ (x : Bytes). b ++ x) (sym e))

  arrived :
      (a a' w chunk rest sb : Bytes)
      → a' ≡ a ++ chunk
      → w ≡ chunk ++ rest
      → a ++ (w ++ sb) ≡ a' ++ (rest ++ sb)
  arrived a a' w chunk rest sb e f =
      ap (λ (x : Bytes). a ++ (x ++ sb)) f
      ∙ ap (λ (x : Bytes). a ++ x) (append_assoc chunk rest sb)
      ∙ sym (append_assoc a chunk (rest ++ sb))
      ∙ ap (λ (x : Bytes). x ++ (rest ++ sb)) (sym e)

  -- The chain seen by a receiver with the same registry.
  carry_over :
      {s : Cipher} {ps : List P} {r : Cipher} {bytes : Bytes} (g h : PacketRegistry P) (r' : Cipher)
      (bytes' : Bytes)
      → h ≡ g
      → r' ≡ r
      → bytes ≡ bytes'
      → InFlight packet_id encode g r s ps bytes
      → InFlight packet_id encode h r' s ps bytes'
  carry_over {s} {ps} g h r' bytes' e f b i =
      subst₃ (λ x y z. InFlight packet_id encode x y s ps z) (sym e) (sym f) b i

  record Inv (registry : PacketRegistry P) (l : Link packet_id encode) : Type 0 where
    remaining : List P
    split : results l.sent ≡ l.returned ++ results remaining
    chain :
        InFlight packet_id encode l.receiver.packet_registry l.receiver.crypt_context
          l.sender.crypt_context remaining
          (on_the_way l)
    room : HasRoom l.receiver
    same_registry : l.receiver.packet_registry ≡ registry

  -- The link after the receiver's call answered `q`.
  abbrev answered :
      Link packet_id encode
      → Connection P × Poll (ProtocolResult (Packet P))
      → Link packet_id encode
  answered l q = record l { receiver = q.0; returned = note_result packet_id encode q.1 l.returned }

  parse-Inv :
      {registry : PacketRegistry P} (l : Link packet_id encode) (v : Inv registry l)
      → Waits l.receiver
        ⊎ Delivers l.receiver l.sender.crypt_context v.remaining (l.wire ++ l.sender.send_buffer)
      → Inv registry (answered l (try_parse_read_buffer l.receiver))
  parse-Inv {registry} l v (inl w) =
      subst (λ q. Inv registry (answered l q)) (sym w.returns)
        (record {
          remaining = v.remaining;
          split = v.split;
          chain =
              carry_over _ _ _ _ w.same_registry w.same_cipher
                (ap (λ (x : Bytes). x ++ (l.wire ++ l.sender.send_buffer)) (sym w.kept)) v.chain;
          room = w.room;
          same_registry = w.same_registry ∙ v.same_registry;
        })
  parse-Inv {registry} l v (inr d) =
      subst (λ q. Inv registry (answered l q)) (sym d.parsed.returns)
        (record {
          remaining = d.others;
          split =
              v.split
              ∙ ap (λ ps. l.returned ++ results ps) d.in_order
              ∙ sym (append_assoc l.returned (ok (known d.first) ∷ []) (results d.others));
          chain =
              carry_over _ _ _ _ d.parsed.same_registry d.parsed.moved
                (ap (λ (x : Bytes). x ++ (l.wire ++ l.sender.send_buffer)) (sym d.parsed.left))
                d.chain;
          room = d.parsed.room;
          same_registry = d.parsed.same_registry ∙ v.same_registry;
        })

  -- All of these packets can be sent to a receiver with this registry.
  abbrev pub AreSendable : PacketRegistry P → List P → Type 0
  AreSendable registry = All (IsSendable packet_id encode registry)

  Step-AreSendable :
      {l m : Link packet_id encode} (registry : PacketRegistry P)
      → Step packet_id encode l m
      → AreSendable registry m.sent
      → AreSendable registry l.sent
  Step-AreSendable registry (send l p d e) h = (All-parts _ l.sent (p ∷ []) h).0
  Step-AreSendable registry (flush l es) h = h
  Step-AreSendable registry (make_room l) h = h
  Step-AreSendable registry (arrive l chunk rest e f) h = h
  Step-AreSendable registry (parse l) h = h

  Step-Inv :
      {registry : PacketRegistry P} {l m : Link packet_id encode}
      → Step packet_id encode l m
      → AreSendable registry m.sent
      → Inv registry l
      → Inv registry m
  Step-Inv (send l p d e) h v =
      let s =
        subst (λ g. IsSendable packet_id encode g p) (sym v.same_registry)
          (All-parts _ l.sent (p ∷ []) h).1.0 in
      let a = append packet_id encode l.receiver.packet_registry l.sender d p s e refl v.chain in
      record {
        remaining = v.remaining ++ (p ∷ []);
        split =
            map-append _ l.sent (p ∷ [])
            ∙ ap (λ (x : List (ProtocolResult (Packet P))). x ++ results (p ∷ [])) v.split
            ∙ append_assoc l.returned (results v.remaining) (results (p ∷ []))
            ∙ ap (λ (x : List (ProtocolResult (Packet P))). l.returned ++ x)
                (sym (map-append _ v.remaining (p ∷ [])));
        chain =
            subst (InFlight packet_id encode _ _ _ _)
              (later_output (received_bytes l.receiver) l.wire l.sender.send_buffer a.frame
                d.send_buffer a.written)
              a.chain;
        room = v.room;
        same_registry = v.same_registry;
      }
  Step-Inv (flush l es) h v =
      let (whole, same) = flushed packet_id encode es l.sender [] in
      record {
        remaining = v.remaining;
        split = v.split;
        chain =
            subst₂
              (λ s b.
                InFlight packet_id encode l.receiver.packet_registry l.receiver.crypt_context s
                  v.remaining b)
              (sym same)
              (ap (λ (x : Bytes). received_bytes l.receiver ++ x)
                (ap (λ (x : Bytes). l.wire ++ x) (sym whole)
                  ∙ sym (append_assoc l.wire (poll_outgoing l.sender es []).2 _)))
              v.chain;
        room = v.room;
        same_registry = v.same_registry;
      }
  Step-Inv (make_room l) h v =
      let (kept, room) = received_bytes-reserve l.receiver v.room in
      let (registry, cipher) = reserve_keeps l.receiver in
      record {
        remaining = v.remaining;
        split = v.split;
        chain =
            carry_over _ _ _ _ registry cipher
              (ap (λ (x : Bytes). x ++ (l.wire ++ l.sender.send_buffer)) (sym kept)) v.chain;
        room = room;
        same_registry = registry ∙ v.same_registry;
      }
  Step-Inv (arrive l chunk rest e f) h v =
      let (filled, room) = received_bytes-fill l.receiver chunk f in
      let (registry, cipher) = fill_keeps l.receiver chunk in
      record {
        remaining = v.remaining;
        split = v.split;
        chain =
            carry_over _ _ _ _ registry cipher
              (arrived (received_bytes l.receiver) _ l.wire chunk rest l.sender.send_buffer filled
                e)
              v.chain;
        room = room;
        same_registry = registry ∙ v.same_registry;
      }
  Step-Inv (parse l) h v =
      parse-Inv l v (outcome l.receiver (l.wire ++ l.sender.send_buffer) v.room refl refl v.chain)

  Reach-Inv :
      {registry : PacketRegistry P} {l m : Link packet_id encode}
      → Inv registry l
      → AreSendable registry m.sent
      → Reach packet_id encode l m
      → Inv registry m
  Reach-Inv v h here = v
  Reach-Inv v h (next r s) = Step-Inv s h (Reach-Inv v (Step-AreSendable _ s h) r)

  fresh-Inv :
      (l : Link packet_id encode) → IsFresh packet_id encode l → Inv l.receiver.packet_registry l
  fresh-Inv l f = record {
    remaining = [];
    split =
        ap results f.no_sent
        ∙ ap (λ (x : List (ProtocolResult (Packet P))). x ++ []) (sym f.no_returned);
    chain =
        subst
          (InFlight packet_id encode l.receiver.packet_registry l.receiver.crypt_context
            l.sender.crypt_context [])
          (sym clear) (nothing f.paired);
    room = omega (arith, f.no_input);
    same_registry = refl;
  }
    where
      clear : on_the_way l ≡ []
      clear =
          ap (λ (n : ℕ). take n l.receiver.recv_buffer ++ (l.wire ++ l.sender.send_buffer))
            f.no_input
          ∙ ap (λ (x : Bytes). x ++ l.sender.send_buffer) f.no_wire
          ∙ f.no_output

  all_delivered :
      {g : PacketRegistry P} {r s : Cipher} {ps : List P} {bytes : Bytes}
      → bytes ≡ []
      → InFlight packet_id encode g r s ps bytes
      → ps ≡ []
  all_delivered e (nothing pr) = refl
  all_delivered e (frame_of p frame rest f i b) = absurd (
      omega (
        arith,
        ap length (sym b ∙ e),
        length-append frame rest,
        ap length f.shape,
        length-append (header (8 + length f.wire) f.id) f.wire,
        length-header (8 + length f.wire) f.id,
      ))

  nothing_remains :
      {registry : PacketRegistry P} (m : Link packet_id encode)
      → Inv registry m
      → on_the_way m ≡ []
      → m.returned ≡ results m.sent
  nothing_remains m v e = sym (
      v.split
      ∙ ap (λ ps. m.returned ++ results ps) (all_delivered e v.chain)
      ∙ append-nil m.returned)

  -- From two fresh ends with paired ciphers, if every packet sent on the way encodes, with its header
  -- fits 64 MiB, has an id of 32 bits, and is read back from its encoding by the registry that the
  -- receiver starts with. However the sends, the polls of the sender's socket, the resizes at the
  -- start of `poll_incoming`, the arrivals of bytes that fit the receiver's buffer and the parses are
  -- ordered, and the bytes cut: the results that the receiver has returned are the first of the
  -- packets sent, in order, and no error. Once nothing is left between the ends, they are all of them.
  pub Reach-in_order :
      (l m : Link packet_id encode)
      → IsFresh packet_id encode l
      → AreSendable l.receiver.packet_registry m.sent
      → Reach packet_id encode l m
      → ((remaining : List P) × (results m.sent ≡ m.returned ++ results remaining))
        × (on_the_way m ≡ [] → m.returned ≡ results m.sent)
  Reach-in_order l m f h r =
      let v = Reach-Inv (fresh-Inv l f) h r in ((v.remaining, v.split), λ e. nothing_remains m v e)
