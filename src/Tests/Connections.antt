-- ===== src/Tests/Connections.antt =====
-- A packet of protocol/src/connection.rs sent, cut on the way, and parsed, over the XOR cipher.
use protanki_protocol_rs.Common.{
  ℕ, ◌≡◌, refl, arith, true, false, some, List, [], ◌∷◌, ◌++◌, replicate, All, length-replicate,
}
use protanki_protocol_rs.Common.Bytes.{Bytes, IsByte}
use protanki_protocol_rs.Protocol.Error.{ProtocolResult, ok}
use protanki_protocol_rs.Protocol.Crypto.{
  CipherMode, Cipher, xor, new, encrypt, decrypt, encrypt_loop, decrypt_loop,
}
use protanki_protocol_rs.Protocol.Crypto.KeySync.{Paired, Sent, new-Paired, decrypt-encrypt}
use protanki_protocol_rs.Protocol.Codec.Reader.{Reader, pure, ◌>>=◌}
use protanki_protocol_rs.Protocol.Packets.{known, PacketRegistry, decode}
use protanki_protocol_rs.Protocol.Connection.{
  Connection, resize, send_packet, try_parse_read_buffer,
}
use protanki_protocol_rs.Protocol.Connection.Polling.{
  accepted, poll_outgoing, reserve, RecvEvent, received, poll_incoming, init_server_encryption,
  init_client_encryption,
}
use protanki_protocol_rs.Protocol.Connection.Parsing.{
  IsFrame, Parsed, Waits, try_parse-frame, try_parse-part,
}
use protanki_protocol_rs.Protocol.Connection.Link.{
  IsSendable, Link, send, flush, Reach, here, next, IsFresh,
}
use protanki_protocol_rs.Protocol.Connection.Link.Polls.{
  Feeds, fed, ended, polled, poll_incoming-Reach,
}
use protanki_protocol_rs.Protocol.Connection.Link.Delivery.{Reach-in_order, results, on_the_way}
use protanki_protocol_rs.Protocol.Connection.Handshake.{init_encryption-Paired}
use protanki_protocol_rs.Tests.Order.{big_endian, to_bytes}

abbrev key : Bytes
key = 1 ∷ 2 ∷ 3 ∷ 200 ∷ []

key-bytes : All IsByte key
key-bytes = omega arith

-- The packets are texts under id 7, and a text takes all of its payload.
abbrev pub text_id : Bytes → ℕ
text_id p = 7

abbrev pub text_encode : Bytes → ProtocolResult Bytes
text_encode p = ok p

abbrev text_decode : Reader Bytes
text_decode bytes = ok (bytes, [])

abbrev registry : PacketRegistry Bytes
registry = record { packets = (7, text_decode) ∷ []; decode_as_unknown = false }

abbrev pub end_of : CipherMode → Connection Bytes
end_of mode = record {
  is_server = true;
  crypt_context = xor (new mode key);
  is_disconnected = false;
  recv_buffer = replicate 32 0;
  recv_buffer_index = 0;
  send_buffer = [];
  send_waker = false;
  packet_registry = registry;
}

abbrev pub hello : Bytes
hello = 104 ∷ 101 ∷ 108 ∷ 108 ∷ 111 ∷ []

abbrev cipher_after : ProtocolResult (Connection Bytes) → Connection Bytes
cipher_after r = elim r [ ok c ↦ c | _ ↦ end_of CipherMode.server ]

abbrev start : Link text_id text_encode
start = record {
  sender = end_of CipherMode.server;
  wire = [];
  receiver = record (end_of CipherMode.client) { recv_buffer = [] };
  sent = [];
  returned = [];
}

start-IsFresh : IsFresh text_id text_encode start
start-IsFresh = record {
  paired = (new-Paired key key-bytes).0;
  no_output = refl;
  no_wire = refl;
  no_input = refl;
  no_sent = refl;
  no_returned = refl;
}

hello-IsSendable : IsSendable text_id text_encode registry hello
unfolding decode ◌>>=◌ pure
hello-IsSendable = record {
  payload = hello;
  unread = [];
  encodes = refl;
  bytes = omega arith;
  decodes = refl;
  id_u32 = omega arith;
  small = omega arith;
}

abbrev sent_link : Link text_id text_encode
sent_link = record start {
  sender = cipher_after (send_packet text_id text_encode start.sender hello);
  sent = [] ++ (hello ∷ []);
}

abbrev flushed_link : Link text_id text_encode
flushed_link = record sent_link {
  sender = (poll_outgoing sent_link.sender (accepted 13 ∷ []) []).0;
  wire = [] ++ (poll_outgoing sent_link.sender (accepted 13 ∷ []) []).2;
}

sends : send_packet text_id text_encode start.sender hello ≡ ok sent_link.sender
unfolding send_packet encrypt encrypt_loop new to_bytes
sends = refl

abbrev cipher_text : Bytes
cipher_text = 160 ∷ 13 ∷ 140 ∷ 172 ∷ 3 ∷ []

abbrev pub frame : Bytes
frame = 0 ∷ 0 ∷ 0 ∷ 13 ∷ 0 ∷ 0 ∷ 0 ∷ 7 ∷ cipher_text

flushed : flushed_link.wire ≡ frame
unfolding send_packet encrypt encrypt_loop new to_bytes poll_outgoing
flushed = refl

-- The receiver begins with an empty buffer; one poll of it takes everything in one piece.
abbrev frame_event : List RecvEvent
frame_event = received frame ∷ []

abbrev polled_link : Link text_id text_encode
polled_link =
    polled text_id text_encode flushed_link [] (poll_incoming flushed_link.receiver frame_event)

frame_event-Feeds : Feeds (reserve flushed_link.receiver) frame_event (frame ++ [])
unfolding reserve resize try_parse_read_buffer
frame_event-Feeds = fed _ _ _ _ _ refl (omega (arith, length-replicate {A = ℕ} 1024 0)) (ended _)

hello-Reach : Reach text_id text_encode start polled_link
hello-Reach =
    poll_incoming-Reach text_id text_encode start flushed_link [] flushed frame_event-Feeds
      (next (next here (send start hello _ sends)) (flush sent_link (accepted 13 ∷ [])))

Reach-in_order_example :
    ((remaining : List Bytes) × (results text_id text_encode polled_link.sent
        ≡ polled_link.returned ++ results text_id text_encode remaining))
    × (on_the_way text_id text_encode polled_link ≡ []
        → polled_link.returned ≡ results text_id text_encode polled_link.sent)
Reach-in_order_example =
    Reach-in_order text_id text_encode start polled_link start-IsFresh (hello-IsSendable, tt)
      hello-Reach

-- A receiver that holds a frame and the first byte of another.
abbrev holding : ℕ → Connection Bytes
holding n = record (end_of CipherMode.client) {
  recv_buffer = frame ++ (0 ∷ replicate 18 0);
  recv_buffer_index = n;
}

abbrev cipher_then : ProtocolResult (Cipher × Bytes) → Cipher
cipher_then r = elim r [ ok (c, b) ↦ c | _ ↦ xor (new CipherMode.client key) ]

abbrev after : Cipher
after = cipher_then (decrypt (xor (new CipherMode.client key)) cipher_text)

frame-IsFrame : IsFrame registry (xor (new CipherMode.client key)) after (known hello) frame
unfolding decode ◌>>=◌ pure new decrypt decrypt_loop to_bytes
frame-IsFrame = record {
  id = 7;
  payload = hello;
  unread = [];
  wire = cipher_text;
  shape = refl;
  decrypts = refl;
  decodes = refl;
  same_length = refl;
  small = omega arith;
  id_u32 = omega arith;
}

try_parse-frame_example : Parsed (holding 14) (known hello) after (0 ∷ [])
try_parse-frame_example =
    try_parse-frame (holding 14) frame (0 ∷ []) after (known hello) (omega arith) refl frame-IsFrame

try_parse-part_example : Waits (holding 10)
try_parse-part_example =
    try_parse-part (holding 10) frame (140 ∷ 172 ∷ 3 ∷ []) after (known hello) (omega arith) refl
      (omega arith) frame-IsFrame

decrypt-encrypt_example :
    Sent (xor (new CipherMode.server key)) (xor (new CipherMode.client key)) hello
decrypt-encrypt_example =
    decrypt-encrypt (xor (new CipherMode.server key)) (xor (new CipherMode.client key)) hello
      (new-Paired key key-bytes).0 (omega arith)

new-Paired_example :
    Paired (xor (new CipherMode.server key)) (xor (new CipherMode.client key))
    × Paired (xor (new CipherMode.client key)) (xor (new CipherMode.server key))
new-Paired_example = new-Paired key key-bytes

-- The packet that carries the key is the key itself.
abbrev server_done : ProtocolResult (Connection Bytes)
server_done = init_server_encryption text_id text_encode (λ k. k) (end_of CipherMode.server) key

abbrev client_done : Connection Bytes
client_done = record (end_of CipherMode.server) { crypt_context = xor (new CipherMode.client key) }

server_succeeds : server_done ≡ ok (cipher_after server_done)
unfolding init_server_encryption encrypt_loop to_bytes
server_succeeds = refl

client_succeeds :
    init_client_encryption {P = Bytes} some (end_of CipherMode.server) (some (ok (known key)))
    ≡ ok client_done
unfolding init_client_encryption
client_succeeds = refl

init_encryption-Paired_example :
    Paired (cipher_after server_done).crypt_context client_done.crypt_context
    × Paired client_done.crypt_context (cipher_after server_done).crypt_context
init_encryption-Paired_example =
    init_encryption-Paired text_id text_encode (λ k. k) some (end_of CipherMode.server)
      (end_of CipherMode.server) (cipher_after server_done) client_done key key key-bytes
      server_succeeds refl client_succeeds
