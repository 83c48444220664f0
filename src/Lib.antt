-- ===== src/Lib.antt =====
-- A model of the ProTanki protocol library (the crate in protocol/), of the game server's core
-- (server/), of the session of the client library (client-utils/) and of the bots over it
-- (applications/crystal-bot and applications/register-bot). The two sides exchange packets over a
-- stream of bytes: a connection writes a packet with its length and id in front, encrypts the
-- payload with a stream cipher and keeps the bytes until the socket takes them; the other side
-- collects bytes until a frame is whole, decrypts it in place, looks the id up in a registry and
-- decodes the payload with the codecs of the packet's fields.
--
-- Parts, and the files that model them:
-- - Protocol.Error: protocol/src/error.rs. A fallible function returns `ok`, `err` with the
--   source's error, or `panic` where the source would panic.
-- - Protocol.Crypto: protocol/src/crypto/*.rs. `derive_keys`, `encrypt_loop` and `decrypt_loop` are
--   the loops of `XOrCipher::new`, `encrypt` and `decrypt`; `Cipher` is the trait object.
--   Crypto.KeySync says when two ciphers are paired and what follows.
-- - Protocol.Codec: protocol/src/codec/*.rs. A codec is a writer of bytes and a reader
--   (Codec.Reader). Codec.Primitives has the fixed-width numbers, Codec.Basics bool, String, Vec
--   and Option, Codec.Length the variable-length number, Codec.Enums and Codec.Structs the two
--   macros and all they define, one codec for each enum and struct. Codec.Structs.RoundTrips puts
--   the parts together, and Codec.Enums.Numbering has the variants of each enum in their order.
-- - Protocol.ResourcePath: protocol/src/resources.rs, with a reader of paths in
--   ResourcePath.Injective.
-- - Protocol.Packets: protocol/src/packets/*.rs. The registry maps an id to a decoder.
-- - Protocol.Connection: protocol/src/connection.rs. `send_packet` and `try_parse_read_buffer` with
--   its steps `read_header`, `parse_frame`, `grow`, `take_packet` and `finish_packet`;
--   Connection.Polling has the loops over the socket and the exchange of the key,
--   Connection.Filters the filters for the log. Connection.Parsing has the laws of one parse,
--   Connection.Link a sender and a receiver with the bytes between them as a step relation, the
--   resize at the start of `poll_incoming` included, Connection.Link.Delivery what holds in every
--   state, and Connection.Link.Polls a whole `poll_incoming` as such steps. Connection.Input and Connection.Progress
--   say how much of its input one poll of the stream uses up.
-- - Server.Client: server/src/client.rs. The operations of a client, with the components as shared
--   objects; Client.Polling has `Future for Client`, Client.Setup `Client::new`. Client.Sending
--   says when sending fails, Client.Later and Client.Closing how the connection's state moves on,
--   and Client.Ending that the loop over the connection ends. Server.Run is the result of what may
--   panic or run out of fuel.
-- - Server.Server: server/src/server.rs. The clients by their ids, the registration, the shutdown
--   and the events; Server.Server.Clients is about the shutdown, Server.Server.Registration about
--   the ids. Server.Ping: server/src/client_components/ping.rs.
-- - Server.Tasks: server/src/tasks.rs, the tasks that a client polls; Tasks.Rounds has the end of
--   the loop.
-- - Server.Chat: server/src/chat.rs. `ServerChat` with its history and subscribers, Chat.Component
--   the chat of one client, Chat.History what is remembered, Chat.Delivery what a client is shown.
-- - ClientUtils.Handlers: client-utils/src/handler.rs, the registry of packet handlers;
--   Handlers.Deferral compares updates that wait with updates made at once, Handlers.Awaiting has
--   the handlers that send a result and Handlers.Answers those that answer a packet.
-- - ClientUtils.Session: client-utils/src/session.rs, a connection with its handlers and its poll;
--   Session.Ending has the end of the poll, Session.Builder the builder.
-- - Server.Rank: server/src/rank.rs. Server.Captcha: server/src/client_components/captcha.rs.
--   Server.Loading: server/src/client_components/resources.rs, the queue of load requests.
-- - Server.Resources: server/src/resources.rs. `ServerResource` with its json form,
--   Resources.Registry the registry by stages.
-- - Server.Users: server/src/users.rs, the registry of the users over a database; Users.Registered
--   has what is relied on of the database, and the logins after a registration.
-- - Server.Authentication: server/src/client_components/authenticate.rs and register.rs, the
--   packets and the ends of the tasks that they start. Authentication.Steps has the steps of a
--   client, of which those of the captcha component are a part, and Authentication.Sound what holds
--   after any of them.
-- - CrystalBot: applications/crystal-bot/src/main.rs. CrystalBot.Tanks has the tanks of a battle,
--   CrystalBot.Spawner the state machine that brings the bot's tank into the battle,
--   CrystalBot.Actions the tasks, CrystalBot.Shooter one tick of the two timers,
--   CrystalBot.UserList the list of users.
-- - RegisterBot: applications/register-bot/src/main.rs, the worker and the names that it takes.
-- - Common: lists, Boolean tests, bytes, bits, decimal and octal numbers and association lists that
--   the parts share. Tests: concrete runs.
--
-- Numbers: an integer of w bits is a natural number below 2 ^ w, a signed one and a float by its
-- bits. `usize` is not bounded; the lengths that the code checks are far below its range. A string
-- is its bytes in UTF-8. Text inside an error (type names, the position of a bad byte) is left out.
--
-- Parameters: the byteorder crate (an instance of `ByteOrder`, whose laws are that a number of n
-- bytes is written as n bytes and read back, and that a byte more is read as 256 times the rest and
-- the byte; Tests.Order has the big-endian one), the packet types that protocol/build.rs generates
-- (a type with an id and an encoder, and its decoders in the registry), the socket (a list of
-- answers), the key from the random generator, the captcha's image, and the json and the clock of a
-- load request (its id is not wrapped at 2 ^ 32, nor are the listeners more than numbers). The
-- database of the users is a record of its queries, each of which may fail; Users.Registered names
-- what a query that succeeds does to the rows. The wait for the first item of a stream is a
-- function of the connection. The hash of the passwords, random texts and the clocks are parameters
-- too, and so are what serde reads from a json text, the conversion of an integer to a float, and
-- the distance of two tanks with its order. The connection that the bot's handlers send on, the
-- proxies, and an attempt to register over one of them are functions. What a component, a task or a
-- packet handler does is a parameter: a function that returns its new state and the calls that it
-- makes of the client or of the registry. A channel of tokio is a number or a flag, and what is put
-- on it a part of the result. A waker is a flag that says whether one is kept.
--
-- Fuel: `from_score` runs at most 30 rounds, one for each rank, and is shown to need no more. The
-- loops over buffers and over the socket's answers are recursive in the list. `send_packet` of a
-- client and `handle_protocol_error` call one another: 2 calls of `send_packet` are enough, where
-- the alert that the second sends can be encoded. The loop over a client's connection and the loop
-- over its tasks have bounds of their own, in Client.Ending and Tasks.Rounds; 2 rounds are enough
-- for a session's poll, 4 for the poll of the bot's spawner, and one more than the names for a
-- worker of the register bot. A number of 64 bits has at most 20 decimal and 22 octal digits.
--
-- Not modelled: the generator of the packets, timers of tokio, the log's output, the engine of the
-- database, the callbacks that the server gives with its tasks, the spawned task that polls a
-- client and reports its end, `LoginKickoff`, the settings and the battle list, which send fixed
-- packets, the futures of a session, the scripts of the two bots (they log, sleep and send fixed
-- packets), and the proxy server. Of the two timers of the crystal bot one tick is modelled; an
-- error of the connection there ends the poll.
pub mod ClientUtils
pub mod Common
pub mod CrystalBot
pub mod Protocol
pub mod RegisterBot
pub mod Server
pub mod Tests
