-- ===== src/Tests/ServerLoop.antt =====
-- The server and the pings of a connection at concrete inputs.
use protanki_protocol_rs.Common.{
  ℕ, ◌+◌, ◌≤◌, ◌≡◌, refl, arith, true, false, some, List, [], ◌∷◌, map, All,
}
use protanki_protocol_rs.Common.Bytes.{Bytes}
use protanki_protocol_rs.Server.Run.{Returns}
use protanki_protocol_rs.Server.Client.{Client, run_async}
use protanki_protocol_rs.Server.Ping.{PingEvent, packet, ticks, new_ping, sent_pings, sent_pings-le}
use protanki_protocol_rs.Server.Server.{Server, Setup, Awaited, shutdown, register_client}
use protanki_protocol_rs.Server.Server.Clients.{IsHalted, shutdown-AreHalted}
use protanki_protocol_rs.Server.Server.Registration.{IsRegistered, register_client-IsRegistered}
use protanki_protocol_rs.Tests.Order.{big_endian}
use protanki_protocol_rs.Tests.Connections.{text_id, text_encode, hello}
use protanki_protocol_rs.Tests.Clients.{a_client, clumsy}

abbrev ping_events : List PingEvent
ping_events = ticks (1 ∷ 2 ∷ []) ∷ packet true ∷ packet false ∷ ticks (3 ∷ []) ∷ []

two_pings : sent_pings new_ping ping_events ≡ 2
unfolding sent_pings new_ping
two_pings = refl

sent_pings-le_example : sent_pings new_ping ping_events + 0 ≤ 2
unfolding new_ping
sent_pings-le_example = sent_pings-le ping_events new_ping

abbrev clumsy_await : ℕ → Client Bytes ℕ ℕ → Awaited Bytes ℕ ℕ
clumsy_await component c = record {
  component = component;
  calls = run_async 3 ∷ [];
  resource_task = some 4;
}

abbrev a_setup : Setup Bytes ℕ ℕ
a_setup = record {
  alert = λ text. text;
  halt = hello;
  layout_switch_start = hello;
  resources_key = 1;
  initialize_resources = λ c. record { component = 0; calls = []; is_ok = true };
  settings_key = 2;
  initialize_settings = clumsy 0;
  await_connect = clumsy_await;
  await_lobby = clumsy_await;
  with_connect_callback = λ t. t + 1;
  with_lobby_callback = λ t. t + 2;
  find_user = λ id. 0;
}

abbrev a_server : Server Bytes ℕ ℕ
a_server = record {
  server_id = 1;
  clients = (3, record { client = a_client; is_poisoned = false }) ∷ [];
  client_id_index = 4;
  is_shutdown = false;
}

shutdown-AreHalted_example :
    Returns
      (λ r.
        (r.0.is_shutdown ≡ true)
        × (r.1 ≡ true)
        × (map (λ e. e.0) r.0.clients ≡ 3 ∷ [])
        × All IsHalted r.0.clients)
      (shutdown text_id text_encode a_setup a_server)
shutdown-AreHalted_example =
    shutdown-AreHalted text_id text_encode a_setup (λ text. (text, refl)) a_server refl

register_client-IsRegistered_example :
    Returns
      (λ r. IsRegistered a_setup a_server r.0 r.1)
      (register_client text_id text_encode a_setup a_server (record a_client { client_id = 0 }))
register_client-IsRegistered_example =
    register_client-IsRegistered text_id text_encode a_setup (λ text. (text, refl)) a_server
      (record a_client { client_id = 0 }) refl (omega arith, tt) (omega arith)
