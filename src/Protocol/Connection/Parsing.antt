-- ===== src/Protocol/Connection/Parsing.antt =====
-- `try_parse_read_buffer` of protocol/src/connection.rs on bytes that hold a whole frame, and on bytes
-- that hold a part of one.
use mathlib.Core.Path.{subst}
use protanki_protocol_rs.Common.{
  ℕ, ◌+◌, ◌-◌, ◌≤◌, ◌<◌, ◌≡◌, refl, sym, ap, ◌∙◌, arith, true, [], ◌++◌, append_assoc, length,
  length-append, length-take, length-replicate, replicate, Bool-cases, inl, inr, take, drop,
  take_at, drop_at, take_past, take_all, take-append_le, take-append-drop, ltb,
}
use protanki_protocol_rs.Common.Bytes.{Bytes, IsU32}
use protanki_protocol_rs.Protocol.Error.{ok}
use protanki_protocol_rs.Protocol.Crypto.{Cipher, decrypt}
use protanki_protocol_rs.Protocol.Codec.Primitives.{ByteOrder, u32, u32-RoundTrips}
use protanki_protocol_rs.Protocol.Packets.{Packet, PacketRegistry}
use protanki_protocol_rs.Protocol.Packets
use protanki_protocol_rs.Protocol.Connection.{
  Connection, ready, pending, slice, resize, copy_within, max_packet_length, read_header,
  finish_packet, take_packet, grow, parse_frame, try_parse_read_buffer,
}

module _ {P : Type 0} where
  -- The bytes received and not yet parsed.
  abbrev pub received_bytes : Connection P → Bytes
  received_bytes c = take c.recv_buffer_index c.recv_buffer

  abbrev pub HasRoom : Connection P → Type 0
  HasRoom c = c.recv_buffer_index ≤ length c.recv_buffer

  -- A frame of `p` for a receiver whose cipher goes from `before` to `after`.
  pub record IsFrame ⦃order : ByteOrder⦄ (registry : PacketRegistry P) (before after : Cipher)
      (p : Packet P) (bytes : Bytes) : Type 0 where
    pub id : ℕ
    pub payload : Bytes
    pub unread : Bytes
    pub wire : Bytes
    pub shape : bytes ≡ (order.to_bytes 4 (8 + length wire) ++ order.to_bytes 4 id) ++ wire
    pub decrypts : decrypt before wire ≡ ok (after, payload)
    pub decodes : Packets.decode registry id payload ≡ ok (p, unread)
    pub same_length : length payload ≡ length wire
    pub small : 8 + length wire ≤ max_packet_length
    pub id_u32 : IsU32 id

left_behind :
    (l n : ℕ) (front rest tail : Bytes)
    → length front ≡ l
    → n ≡ l + length rest
    → (take (n - l) (copy_within l (front ++ (rest ++ tail))) ≡ rest)
      × (n - l ≤ length (copy_within l (front ++ (rest ++ tail))))
unfolding copy_within
left_behind l n front rest tail e k = (
  ap (take (n - l)) (shape ∙ append_assoc rest tail junk)
      ∙ take_at (n - l) rest (tail ++ junk) (omega arith),
  omega (arith, ap length shape, length-append (rest ++ tail) junk, length-append rest tail),
)
  where
    junk : Bytes
    junk = drop (length (front ++ (rest ++ tail)) - l) (front ++ (rest ++ tail))

    shape : copy_within l (front ++ (rest ++ tail)) ≡ (rest ++ tail) ++ junk
    shape = ap (λ (d : Bytes). d ++ junk) (drop_at l front (rest ++ tail) e)

pub resize_larger :
    (n : ℕ) (buffer : Bytes)
    → length buffer ≤ n
    → (zeros : Bytes) × (resize n buffer ≡ buffer ++ zeros) × (length (resize n buffer) ≡ n)
unfolding resize
resize_larger n buffer h =
    let zeros : Bytes = replicate (n - length buffer) 0 in
    (
      zeros,
      ap (λ (b : Bytes). b ++ zeros) (take_all n buffer h),
      omega (
        arith,
        ap length (take_all n buffer h),
        length-append (take n buffer) zeros,
        length-replicate {A = ℕ} (n - length buffer) 0,
      ),
    )

module _ ⦃order : ByteOrder⦄ where
  u32_reads :
      (v : ℕ) (rest : Bytes) → IsU32 v → u32.decode (order.to_bytes 4 v ++ rest) ≡ ok (v, rest)
  unfolding u32
  u32_reads v rest h =
      let c = u32-RoundTrips v h in
      subst (λ w. u32.decode (w ++ rest) ≡ ok (v, rest)) (cc (c.writes)) (c.reads rest)

  read_header_lem :
      (n packet_length id : ℕ) (buffer body : Bytes)
      → n ≤ length buffer
      → take n buffer ≡ (order.to_bytes 4 packet_length ++ order.to_bytes 4 id) ++ body
      → IsU32 packet_length
      → IsU32 id
      → read_header n buffer ≡ ok (packet_length, id)
  unfolding read_header slice
  read_header_lem n l id buffer body h e hl hi = ground (
    arith,
    e ∙ append_assoc (order.to_bytes 4 l) (order.to_bytes 4 id) body,
    u32_reads l (order.to_bytes 4 id ++ body) hl,
    u32_reads id body hi,
    ap (λ (k : ℕ). take k buffer) whole,
  )
    where
      whole : n - 0 ≡ n
      whole = omega arith

  -- The eight bytes before the payload.
  abbrev pub header : ℕ → ℕ → Bytes
  header l id = order.to_bytes 4 l ++ order.to_bytes 4 id

  pub length-header : (l id : ℕ) → length (header l id) ≡ 8
  length-header l id =
      length-append (order.to_bytes 4 l) (order.to_bytes 4 id)
      ∙ omega (arith, order.length-to_bytes 4 l, order.length-to_bytes 4 id)

  module _ {P : Type 0} where
    -- The connection after a packet of `l` bytes was cut off the front.
    abbrev cut : Connection P → Cipher → Bytes → ℕ → Connection P
    cut c cipher buffer l = record c {
      crypt_context = cipher;
      recv_buffer = copy_within l buffer;
      recv_buffer_index = c.recv_buffer_index - l;
    }

    take_packet_lem :
        (c : Connection P) (h : Bytes) (wire behind payload unread : Bytes) (id : ℕ)
        (after : Cipher) (p : Packet P)
        → length h ≡ 8
        → c.recv_buffer ≡ h ++ (wire ++ behind)
        → decrypt c.crypt_context wire ≡ ok (after, payload)
        → Packets.decode c.packet_registry id payload ≡ ok (p, unread)
        → take_packet c (8 + length wire) id
          ≡ (cut c after (h ++ (payload ++ behind)) (8 + length wire), ready (ok p))
    unfolding take_packet finish_packet slice
    take_packet_lem c h wire behind payload unread id after p e b d k = ground (
      arith,
      d,
      k,
      ap length b,
      length-append h (wire ++ behind),
      length-append wire behind,
      ap (take 8) b ∙ take_at 8 h (wire ++ behind) e,
      ap (drop 8) b ∙ drop_at 8 h (wire ++ behind) e,
      take_at (8 + length wire - 8) wire behind (omega arith),
      ap (drop (8 + length wire)) (b ∙ sym (append_assoc h wire behind)),
      drop_at (8 + length wire) (h ++ wire) behind (length-append h wire ∙ omega (arith, e)),
    )

    try_parse_whole :
        (c : Connection P) (l id : ℕ)
        → 8 ≤ l
        → l ≤ max_packet_length
        → l ≤ c.recv_buffer_index
        → read_header c.recv_buffer_index c.recv_buffer ≡ ok (l, id)
        → try_parse_read_buffer c ≡ take_packet c l id
    unfolding try_parse_read_buffer parse_frame
    try_parse_whole c l id h k m e = ground (arith, e)

    try_parse_part :
        (c : Connection P) (l id : ℕ)
        → 8 ≤ c.recv_buffer_index
        → l ≤ max_packet_length
        → c.recv_buffer_index < l
        → read_header c.recv_buffer_index c.recv_buffer ≡ ok (l, id)
        → try_parse_read_buffer c ≡ (grow c l, pending)
    unfolding try_parse_read_buffer parse_frame
    try_parse_part c l id h k m e = ground (arith, e)

    -- What a call that returns the packet `p` leaves behind: the bytes `rest`, the receiver's cipher
    -- moved on to `after`, and nothing else changed.
    pub record Parsed (c : Connection P) (p : Packet P) (after : Cipher) (rest : Bytes)
        : Type 0 where
      pub next : Connection P
      pub returns : try_parse_read_buffer c ≡ (next, ready (ok p))
      pub left : received_bytes next ≡ rest
      pub moved : next.crypt_context ≡ after
      pub same_registry : next.packet_registry ≡ c.packet_registry
      pub same_output : next.send_buffer ≡ c.send_buffer
      pub room : HasRoom next

    -- If the buffer holds all that was received and this begins with a frame (a header with the length
    -- and an id of 32 bits, at most 64 MiB, and a payload that the cipher decrypts and the registry
    -- decodes), one call returns the packet and leaves the bytes behind the frame.
    pub try_parse-frame :
        (c : Connection P) (bytes rest : Bytes) (after : Cipher) (p : Packet P)
        → HasRoom c
        → received_bytes c ≡ bytes ++ rest
        → IsFrame c.packet_registry c.crypt_context after p bytes
        → Parsed c p after rest
    try_parse-frame c bytes rest after p room e f = record {
      next = cut c after (h ++ (f.payload ++ (rest ++ tail))) l;
      returns =
          try_parse_whole c l f.id (omega arith) f.small (omega (arith, enough)) (
            read_header_lem n l f.id c.recv_buffer (f.wire ++ rest) room view
              (omega (arith, f.small)) f.id_u32)
          ∙ take_packet_lem c h f.wire (rest ++ tail) f.payload f.unread f.id after p hl buffer
              f.decrypts f.decodes;
      left = ap (λ (b : Bytes). take (n - l) (copy_within l b)) (sym regroup) ∙ behind.0;
      moved = refl;
      same_registry = refl;
      same_output = refl;
      room = subst (λ b. n - l ≤ length (copy_within l b)) regroup behind.1;
    }
      where
        n : ℕ
        n = c.recv_buffer_index

        l : ℕ
        l = 8 + length f.wire

        h : Bytes
        h = header l f.id

        tail : Bytes
        tail = drop n c.recv_buffer

        hl : length h ≡ 8
        hl = length-header l f.id

        view : received_bytes c ≡ h ++ (f.wire ++ rest)
        view = e ∙ ap (λ (b : Bytes). b ++ rest) f.shape ∙ append_assoc h f.wire rest

        buffer : c.recv_buffer ≡ h ++ (f.wire ++ (rest ++ tail))
        buffer =
            sym (take-append-drop n c.recv_buffer)
            ∙ ap (λ (b : Bytes). b ++ tail) view
            ∙ append_assoc h (f.wire ++ rest) tail
            ∙ ap (λ (b : Bytes). h ++ b) (append_assoc f.wire rest tail)

        enough : n ≡ l + length rest
        enough = omega (
          arith,
          hl,
          ap length view,
          length-take n c.recv_buffer,
          length-append h (f.wire ++ rest),
          length-append f.wire rest,
        )

        front : Bytes
        front = h ++ f.payload

        front_length : length front ≡ l
        front_length = length-append h f.payload ∙ omega (arith, hl, f.same_length)

        behind :
            (take (n - l) (copy_within l (front ++ (rest ++ tail))) ≡ rest)
            × (n - l ≤ length (copy_within l (front ++ (rest ++ tail))))
        behind = left_behind l n front rest tail front_length enough

        regroup : front ++ (rest ++ tail) ≡ h ++ (f.payload ++ (rest ++ tail))
        regroup = append_assoc h f.payload (rest ++ tail)

    -- What a call that waits for more leaves behind: the same bytes received, and room for more.
    pub record Waits (c : Connection P) : Type 0 where
      pub next : Connection P
      pub returns : try_parse_read_buffer c ≡ (next, pending)
      pub kept : received_bytes next ≡ received_bytes c
      pub same_cipher : next.crypt_context ≡ c.crypt_context
      pub same_registry : next.packet_registry ≡ c.packet_registry
      pub same_output : next.send_buffer ≡ c.send_buffer
      pub room : HasRoom next
      pub space : 8 ≤ length c.recv_buffer → next.recv_buffer_index < length next.recv_buffer

    grow-Waits :
        (c : Connection P) (l : ℕ)
        → HasRoom c
        → c.recv_buffer_index < l
        → try_parse_read_buffer c ≡ (grow c l, pending)
        → Waits c
    unfolding grow
    grow-Waits c l room h e = elim (Bool-cases (ltb (length c.recv_buffer) l)) [
      | inl k ↦ record {
        next = record c { recv_buffer = resize l c.recv_buffer };
        returns = ground (arith, e, k);
        kept =
            ap (take c.recv_buffer_index) (larger k).1
            ∙ take-append_le c.recv_buffer_index c.recv_buffer (larger k).0 room;
        same_cipher = refl;
        same_registry = refl;
        same_output = refl;
        room = omega (arith, (larger k).2);
        space = λ _. omega (arith, (larger k).2);
      }
      | inr k ↦ record {
        next = c;
        returns = ground (arith, e, k);
        kept = refl;
        same_cipher = refl;
        same_registry = refl;
        same_output = refl;
        room = room;
        space = λ _. ground (arith, k);
      }
    ]
      where
        larger :
            ltb (length c.recv_buffer) l ≡ true
            → (zeros : Bytes) × (resize l c.recv_buffer ≡ c.recv_buffer ++ zeros)
              × (length (resize l c.recv_buffer) ≡ l)
        larger k = resize_larger l c.recv_buffer (ground (arith, k))

    too_short :
        (c : Connection P)
        → ltb c.recv_buffer_index 8 ≡ true
        → try_parse_read_buffer c ≡ (c, pending)
    unfolding try_parse_read_buffer
    too_short c k = ground (arith, k)

    -- If the buffer holds all that was received and this is a part of such a frame, and not all of it,
    -- one call asks for more and keeps the bytes; the free room afterwards is not empty, if the buffer
    -- had at least 8 bytes.
    pub try_parse-part :
        (c : Connection P) (bytes more : Bytes) (after : Cipher) (p : Packet P)
        → HasRoom c
        → received_bytes c ++ more ≡ bytes
        → 0 < length more
        → IsFrame c.packet_registry c.crypt_context after p bytes
        → Waits c
    try_parse-part c bytes more after p room e m f = elim (Bool-cases (ltb c.recv_buffer_index 8)) [
      | inl k ↦ record {
        next = c;
        returns = too_short c k;
        kept = refl;
        same_cipher = refl;
        same_registry = refl;
        same_output = refl;
        room = room;
        space = λ s. ground (arith, k, s);
      }
      | inr k ↦ grow-Waits c l room short (
          try_parse_part c l f.id (ground (arith, k)) f.small short (
            read_header_lem n l f.id c.recv_buffer (take (n - length h) f.wire) room
              (view (ground (arith, k))) (omega (arith, f.small)) f.id_u32))
    ]
      where
        n : ℕ
        n = c.recv_buffer_index

        l : ℕ
        l = 8 + length f.wire

        h : Bytes
        h = header l f.id

        hl : length h ≡ 8
        hl = length-header l f.id

        whole : received_bytes c ++ more ≡ h ++ f.wire
        whole = e ∙ f.shape

        seen : length (received_bytes c) ≡ n
        seen = omega (arith, length-take n c.recv_buffer)

        short : n < l
        short = omega (
          arith,
          seen,
          hl,
          ap length whole,
          length-append (received_bytes c) more,
          length-append h f.wire,
        )

        view : 8 ≤ n → received_bytes c ≡ h ++ take (n - length h) f.wire
        view k =
            sym (take_at n (received_bytes c) more seen)
            ∙ ap (take n) whole
            ∙ take_past n h f.wire (omega (arith, hl))

    -- Without any bytes a call waits too.
    pub nothing-Waits : (c : Connection P) → HasRoom c → received_bytes c ≡ [] → Waits c
    nothing-Waits c room e =
        let seen : c.recv_buffer_index ≡ 0 =
          omega (arith, ap length e, length-take c.recv_buffer_index c.recv_buffer) in
        record {
          next = c;
          returns = too_short c (ground (arith, seen));
          kept = refl;
          same_cipher = refl;
          same_registry = refl;
          same_output = refl;
          room = room;
          space = λ s. omega arith;
        }
