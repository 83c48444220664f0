-- ===== src/Server/Authentication/Steps.antt =====
-- The steps of a client that logs in, by server/src/client_components/authenticate.rs and register.rs.
use protanki_protocol_rs.Common.{ℕ, zero, suc, Option, none, some, List, [], ◌∷◌}
use protanki_protocol_rs.Common.Bytes.{Bytes}
use protanki_protocol_rs.Server.Captcha.{CaptchaProvider, CaptchaRequest}
use protanki_protocol_rs.Server.Captcha
use protanki_protocol_rs.Server.Users.{Database}
use protanki_protocol_rs.Server.Authentication.{
  LoginRequest, LoginTask, LoginSession, new_session, on_login_packet, on_register_packet, complete,
}

-- A task, and the others.
unfoldable pub pick : ℕ → List LoginTask → Option (LoginTask × List LoginTask)
pick n [] = none
pick zero (task ∷ tasks) = some (task, tasks)
pick (suc n) (task ∷ tasks) = elim (pick n tasks) [
  | none ↦ none
  | some (picked, others) ↦ some (picked, task ∷ others)
]

-- A packet of the two components, one of the captcha component, or the end of one of the tasks, with the
-- database then.
pub data LoginEvent (S : Type 0) : Type 0 where
  received : LoginRequest → LoginEvent S
  captcha_packet : CaptchaRequest → LoginEvent S
  completed : (index : ℕ) (database : S) (now : ℕ) (text : Bytes) → LoginEvent S

module _ {S T E : Type 0} (db : Database S T E) (hash : Bytes → Bytes) (image : Bytes) where
  unfoldable pub captcha_step : LoginSession → CaptchaRequest → LoginSession
  unfolding Captcha.on_packet
  captcha_step s p = elim s.captcha [
    | none ↦ s
    | some provider ↦ record s { captcha = some (Captcha.on_packet image provider p).0 }
  ]

  unfoldable pub complete_picked :
      LoginSession → Option (LoginTask × List LoginTask) → S → ℕ → Bytes → LoginSession
  unfolding complete
  complete_picked s none database now text = s
  complete_picked s (some (task, others)) database now text =
      complete db hash (record s { tasks = others }) task database now text

  unfoldable pub step : LoginSession → LoginEvent S → LoginSession
  unfolding on_login_packet on_register_packet captcha_step complete_picked pick
  step s (received p) = (on_register_packet (on_login_packet s p).0 p).0
  step s (captcha_packet p) = captcha_step s p
  step s (completed index database now text) =
      complete_picked s (pick index s.tasks) database now text

  -- What a client can come to, with what happened, the last first.
  pub data Reach (client_id : ℕ) (captcha : Option CaptchaProvider)
      : List (LoginEvent S) → LoginSession → Type 0 where
    start : Reach client_id captcha [] (new_session client_id captcha)
    next :
        (events : List (LoginEvent S)) (s : LoginSession) (e : LoginEvent S)
        → Reach client_id captcha events s
        → Reach client_id captcha (e ∷ events) (step s e)
