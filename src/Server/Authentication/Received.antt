-- ===== src/Server/Authentication/Received.antt =====
-- The packets keep the invariant of the logins, for server/src/client_components/authenticate.rs and register.rs.
use protanki_protocol_rs.Common.{
  refl, ap, ◌∙◌, All-append, arith, Bool, some, List, Bool-cases, Option-cases, inl, inr,
}
use protanki_protocol_rs.Common.Bytes.{Bytes}
use protanki_protocol_rs.Protocol.Codec.Enums.Lobby.{CaptchaLocation}
use protanki_protocol_rs.Server.Captcha.{solved_for}
use protanki_protocol_rs.Server.Users.{Database}
use protanki_protocol_rs.Server.Authentication.{
  LoginRequest, account_login_execute, account_login_hash_login, account_register_validate_uid,
  account_register_submit, other_packet, by_token, check_name, registration, is_unauthenticated,
  LoginSession, run_call, on_login_packet, submit, on_register_packet,
}
use protanki_protocol_rs.Server.Authentication.Steps.{LoginEvent, received}
use protanki_protocol_rs.Server.Authentication.Justified.{
  bit, logins-append, IsEvent, IsAsked, IsSound, send_lem, run_lem,
}

module _ {S T E : Type 0} (db : Database S T E) (hash : Bytes → Bytes) where
  execute_lem :
      (events : List (LoginEvent S)) (s : LoginSession) (login password : Bytes) (remember : Bool)
      → IsSound db hash events s
      → IsEvent db hash (received (account_login_execute login password remember)) events
      → IsSound db hash events (on_login_packet s (account_login_execute login password remember)).0
  unfolding on_login_packet run_call
  execute_lem events s login password remember k i =
      elim (Bool-cases (is_unauthenticated s.authentication_state)) [
        | inr u ↦ rw (u, on_login_packet) k
        | inl u ↦ elim (Bool-cases s.login_pending) [
          | inl p ↦
              rw (u, p, on_login_packet)
                (record { one_login = k.one_login ∙ ap bit p; asked = k.asked; told = k.told })
          | inr p ↦
              rw (u, p, on_login_packet)
                (record {
                  one_login = logins-append s.tasks _ ∙ omega (arith, k.one_login ∙ ap bit p);
                  asked = All-append (IsAsked db hash events) s.tasks _ k.asked (i, tt);
                  told = k.told;
                })
        ]
      ]

  submit_lem :
      (events : List (LoginEvent S)) (s : LoginSession) (uid password : Bytes) (remember : Bool)
      → IsSound db hash events s
      → IsEvent db hash (received (account_register_submit uid password remember)) events
      → IsSound db hash events (submit s uid password remember).0
  unfolding submit
  submit_lem events s uid password remember k i = elim (Option-cases s.captcha) [
    | inl c ↦ rw (c, submit) k
    | inr (provider, c) ↦
        let solved = solved_for provider CaptchaLocation.register_form in
        let s' : LoginSession = record s { captcha = some solved.0 } in
        let k' : IsSound db hash events s' = record {
          one_login = k.one_login;
          asked = k.asked;
          told = k.told;
        } in
        elim (Bool-cases solved.1) [
          | inl h ↦
              rw (c, h, submit)
                (run_lem db hash events s' (registration uid password remember) k' i refl)
          | inr h ↦ rw (c, h, submit) (send_lem db hash events s' _ k')
        ]
  ]

  pub received_lem :
      (events : List (LoginEvent S)) (s : LoginSession) (p : LoginRequest)
      → IsSound db hash events s
      → IsEvent db hash (received p) events
      → IsSound db hash events (on_register_packet (on_login_packet s p).0 p).0
  unfolding on_register_packet on_login_packet
  received_lem events s (account_login_execute login password remember) k i =
      execute_lem events s login password remember k i
  received_lem events s (account_login_hash_login token) k i =
      run_lem db hash events s (by_token token) k i refl
  received_lem events s (account_register_validate_uid uid) k i =
      elim (Bool-cases (is_unauthenticated s.authentication_state)) [
        | inl u ↦ rw (u, on_register_packet) (run_lem db hash events s (check_name uid) k tt refl)
        | inr u ↦ rw (u, on_register_packet) k
      ]
  received_lem events s (account_register_submit uid password remember) k i =
      elim (Bool-cases (is_unauthenticated s.authentication_state)) [
        | inl u ↦ rw (u, on_register_packet) (submit_lem events s uid password remember k i)
        | inr u ↦ rw (u, on_register_packet) k
      ]
  received_lem events s other_packet k i = k
