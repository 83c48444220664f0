-- ===== src/Server/Client/Later.antt =====
-- In which order the states of a client of server/src/client.rs follow one another.
use protanki_protocol_rs.Common.{ℕ, ◌≤◌, ◌<◌, ◌≡◌, refl, ◌∙◌, arith, Bool, true, false}
use protanki_protocol_rs.Server.Client.{
  Client, ConnectionState, opened, closing, closed, is_opened, do_connection_close, disconnect,
  disconnect_flush,
}
use protanki_protocol_rs.Server.Client.Sending.{KeepsInput}

-- Opened, closing, closed.
abbrev pub level : ConnectionState → ℕ
level opened = 0
level (closing n) = 1
level closed = 2

pub level-le : (s : ConnectionState) → level s ≤ 2
level-le opened = omega arith
level-le (closing n) = omega arith
level-le closed = omega arith

pub level_opened : (s : ConnectionState) → is_opened s ≡ true → level s ≡ 0
level_opened opened e = refl
level_opened (closing n) e = cc
level_opened closed e = cc

module _ {P C T : Type 0} where
  -- The client keeps its id and its channel to the server.
  abbrev pub IsSame : Client P C T → Client P C T → Type 0
  IsSame c d = (d.client_id ≡ c.client_id) × (d.server_events ≡ c.server_events)

  -- The connection's state does not go back, what was received stays, unless the connection was opened
  -- nothing is sent, and the client is the same.
  pub record Later (c d : Client P C T) : Type 0 where
    pub forward : level c.connection_state ≤ level d.connection_state
    pub quiet : 0 < level c.connection_state → d.connection ≡ c.connection
    pub same_input : KeepsInput c.connection d.connection
    pub same : IsSame c d

  pub Later-refl : (c : Client P C T) → Later c c
  Later-refl c = record {
    forward = omega arith;
    quiet = λ h. refl;
    same_input = (refl, refl);
    same = (refl, refl);
  }

  pub Later-trans : {c d e : Client P C T} → Later c d → Later d e → Later c e
  Later-trans p q = record {
    forward = omega (arith, p.forward, q.forward);
    quiet = λ h. q.quiet (omega (arith, p.forward)) ∙ p.quiet h;
    same_input = (q.same_input.0 ∙ p.same_input.0, q.same_input.1 ∙ p.same_input.1);
    same = (q.same.0 ∙ p.same.0, q.same.1 ∙ p.same.1);
  }

  -- A change of all but the connection, to a state that is not before.
  pub Later-connection_state :
      (c d : Client P C T)
      → d.connection ≡ c.connection
      → IsSame c d
      → level c.connection_state ≤ level d.connection_state
      → Later c d
  Later-connection_state c d e i h = record {
    forward = h;
    quiet = λ _. e;
    same_input = rw e (refl, refl);
    same = i;
  }

  pub do_connection_close-Later : (c : Client P C T) → Later c (do_connection_close c)
  unfolding do_connection_close
  do_connection_close-Later c =
      Later-connection_state c _ refl (refl, refl) (level-le c.connection_state)

  pub flush-Later :
      (s : ConnectionState) (c : Client P C T)
      → c.connection_state ≡ s
      → Later c (disconnect_flush s c)
  unfolding disconnect_flush
  flush-Later opened c e = Later-connection_state c _ refl (refl, refl) (rw e (omega arith))
  flush-Later (closing n) c e = Later-connection_state c _ refl (refl, refl) (rw e (omega arith))
  flush-Later closed c e = Later-refl c

  pub disconnect-Later : (c : Client P C T) (flush : Bool) → Later c (disconnect c flush)
  unfolding disconnect
  disconnect-Later c true = flush-Later c.connection_state c refl
  disconnect-Later c false =
      Later-connection_state c _ refl (refl, refl) (level-le c.connection_state)
