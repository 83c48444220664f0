-- ===== src/Server/Authentication/Sound.antt =====
-- Who is logged in, for server/src/client_components/authenticate.rs and register.rs.
use protanki_protocol_rs.Common.{ℕ, ◌≡◌, refl, Option, List, ◌∷◌, Option-cases, inl, inr}
use protanki_protocol_rs.Common.Bytes.{Bytes}
use protanki_protocol_rs.Server.Captcha.{CaptchaProvider, CaptchaRequest}
use protanki_protocol_rs.Server.Users.{Database}
use protanki_protocol_rs.Server.Authentication.{LoginSession, new_session}
use protanki_protocol_rs.Server.Authentication.Steps.{
  pick, LoginEvent, received, captcha_packet, completed, captcha_step, complete_picked, step, Reach,
  start, next,
}
use protanki_protocol_rs.Server.Authentication.Justified.{
  logins, bit, pick_lem, IsTold, IsAsked, IsSound, IsSound-later, IsAsked-later,
}
use protanki_protocol_rs.Server.Authentication.Received.{received_lem}
use protanki_protocol_rs.Server.Authentication.Completed.{complete_lem}

module _ {S T E : Type 0} (db : Database S T E) (hash : Bytes → Bytes) (image : Bytes) where
  captcha_lem :
      (events : List (LoginEvent S)) (s : LoginSession) (p : CaptchaRequest)
      → IsSound db hash events s
      → IsSound db hash events (captcha_step db hash image s p)
  unfolding captcha_step
  captcha_lem events s p k = elim (Option-cases s.captcha) [
    | inl c ↦ rw (c, captcha_step) k
    | inr (provider, c) ↦
        rw (c, captcha_step) (record { one_login = k.one_login; asked = k.asked; told = k.told })
  ]

  step_lem :
      (events : List (LoginEvent S)) (s : LoginSession) (e : LoginEvent S)
      → IsSound db hash events s
      → IsSound db hash (e ∷ events) (step db hash image s e)
  unfolding step complete_picked
  step_lem events s (received p) k =
      received_lem db hash _ s p (IsSound-later db hash (received p) events s k) (inl refl)
  step_lem events s (captcha_packet p) k =
      captcha_lem _ s p (IsSound-later db hash (captcha_packet p) events s k)
  step_lem events s (completed index database now text) k =
      let k' = IsSound-later db hash (completed index database now text) events s k in
      elim (Option-cases (pick index s.tasks)) [
        | inl h ↦ rw (h, step) k'
        | inr ((task, others), h) ↦
            let (i, a, c) = pick_lem (IsAsked db hash events) index s.tasks task others k.asked h in
            let a' = IsAsked-later db hash (completed index database now text) events others a in
            rw (h, step)
              (complete_lem db hash events s task others index database now text k' i a' c)
      ]

  sound :
      (client_id : ℕ) (captcha : Option CaptchaProvider) (events : List (LoginEvent S))
      (s : LoginSession)
      → Reach db hash image client_id captcha events s
      → IsSound db hash events s
  unfolding new_session
  sound client_id captcha _ _ start = record { one_login = refl; asked = tt; told = refl }
  sound client_id captcha _ _ (next events s e r) =
      step_lem events s e (sound client_id captcha events s r)

  -- Whatever packets come and whenever the tasks end: a client is logged in as a user only if it sent the
  -- user's name with a password, and a task that ended later found the password to match in the database
  -- that it had then; or a token, which such a task found to be the user's; or the user's registration,
  -- which such a task made. Before the client is logged in, the server is not told of a login; and at most
  -- one login with credentials is on its way, just while the flag is set.
  pub Reach-IsJustified :
      (client_id : ℕ) (captcha : Option CaptchaProvider) (events : List (LoginEvent S))
      (s : LoginSession)
      → Reach db hash image client_id captcha events s
      → IsTold db hash events s.authentication_state s.issued
        × (logins s.tasks ≡ bit s.login_pending)
  Reach-IsJustified client_id captcha events s r =
      let k = sound client_id captcha events s r in (k.told, k.one_login)
