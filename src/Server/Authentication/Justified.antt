-- ===== src/Server/Authentication/Justified.antt =====
-- What the invariant of the logins says, for server/src/client_components/authenticate.rs and register.rs.
use protanki_protocol_rs.Common.{
  ℕ, zero, suc, ◌+◌, ◌≡◌, refl, ◌∙◌, All-append, arith, Bool, true, false, some, List, [], ◌∷◌,
  ◌++◌, All, Option-cases, ◌⊎◌, inl, inr,
}
use protanki_protocol_rs.Common.Bytes.{Bytes}
use protanki_protocol_rs.Server.Client.{
  AuthenticationState, unauthenticated, authenticated, ServerEvent,
}
use protanki_protocol_rs.Server.Users.{
  AuthenticationResult, success, invalid_credentials, invalid_token, Database,
  authenticate_with_credentials, authenticate_with_token, register_user,
}
use protanki_protocol_rs.Server.Authentication.{
  LoginRequest, account_login_execute, account_login_hash_login, account_register_submit,
  LoginReply, LoginTask, by_credentials, by_token, new_token, check_name, registration, send,
  run_async, LoginSession, run_call, run_calls, handle_user_authenticated,
  handle_authentication_result,
}
use protanki_protocol_rs.Server.Authentication.Steps.{pick, LoginEvent, received, completed}

-- How many logins with credentials are among the tasks.
abbrev pub logins : List LoginTask → ℕ
logins [] = 0
logins (by_credentials username password remember ∷ tasks) = suc (logins tasks)
logins (by_token hash ∷ tasks) = logins tasks
logins (new_token user_id ∷ tasks) = logins tasks
logins (check_name uid ∷ tasks) = logins tasks
logins (registration username password remember ∷ tasks) = logins tasks

abbrev pub bit : Bool → ℕ
bit true = 1
bit false = 0

pub logins-append : (ts us : List LoginTask) → logins (ts ++ us) ≡ logins ts + logins us
logins-append [] us = omega arith
logins-append (by_credentials username password remember ∷ ts) us =
    omega (arith, logins-append ts us)
logins-append (by_token hash ∷ ts) us = logins-append ts us
logins-append (new_token user_id ∷ ts) us = logins-append ts us
logins-append (check_name uid ∷ ts) us = logins-append ts us
logins-append (registration username password remember ∷ ts) us = logins-append ts us

-- What is true of all tasks is true of a picked one and of the others, and the logins are among them.
pub pick_lem :
    (P : LoginTask → Type 0) (n : ℕ) (ts : List LoginTask) (t : LoginTask) (others : List LoginTask)
    → All P ts
    → pick n ts ≡ some (t, others)
    → P t × All P others × (logins ts ≡ logins (t ∷ []) + logins others)
unfolding pick
pick_lem P n [] t others a e = cc e
pick_lem P zero (first ∷ ts) t others a e =
    let p : first ≡ t = cc e in
    let q : ts ≡ others = cc e in
    (rw (← p) a.0, rw (← q) a.1, rw (← p, ← q) (logins-append (first ∷ []) ts))
pick_lem P (suc n) (first ∷ ts) t others a e = elim (Option-cases (pick n ts)) [
  | inl h ↦ let g = rw (h, pick) at e in cc g
  | inr ((picked, rest), h) ↦
      let g = rw (h, pick) at e in
      let p : picked ≡ t = cc g in
      let q : (first ∷ rest) ≡ others = cc g in
      let r = pick_lem P n ts picked rest a.1 h in
      (
        rw (← p) r.0,
        rw (← q) (a.0, r.1),
        rw (← p, ← q)
            (omega (arith, logins-append (first ∷ []) ts, logins-append (first ∷ []) rest, r.2)),
      )
]

module _ {S T E : Type 0} (db : Database S T E) (hash : Bytes → Bytes) where
  -- Something that happened.
  abbrev pub IsEvent : LoginEvent S → List (LoginEvent S) → Type 0
  IsEvent e [] = ⊥
  IsEvent e (x ∷ events) = (e ≡ x) ⊎ IsEvent e events

  -- A request was received, and later a task ended with this database, time and text.
  abbrev pub IsAnswered : LoginRequest → S → ℕ → Bytes → List (LoginEvent S) → Type 0
  IsAnswered request database now text [] = ⊥
  IsAnswered request database now text (e ∷ events) =
      ((index : ℕ) × (e ≡ completed index database now text) × IsEvent (received request) events)
      ⊎ IsAnswered request database now text events

  -- The client sent a name and a password, and a task that ended later found them in its database; or a
  -- token, which a later one found to be the user's; or the user's registration, which a later one made.
  abbrev pub IsJustified : List (LoginEvent S) → Bytes → Type 0
  IsJustified events user =
      ((password : Bytes) × (remember : Bool) × (database : S) × (now : ℕ) × (text : Bytes)
        × IsAnswered (account_login_execute user password remember) database now text events
        × (authenticate_with_credentials db hash user password database ≡ success user))
      ⊎ (((token : Bytes) × (database : S) × (now : ℕ) × (text : Bytes) × IsAnswered
              (account_login_hash_login token) database now text events
            × ((authenticate_with_token db hash now token database).1 ≡ success user))
          ⊎ ((password : Bytes) × (remember : Bool) × (database : S) × (now : ℕ) × (salt : Bytes)
              × IsAnswered (account_register_submit user password remember) database now salt events
              × ((register_user db hash salt now user password database).1 ≡ true)))

  -- The state of a client, with what was told to the server.
  abbrev pub IsTold : List (LoginEvent S) → AuthenticationState → List ServerEvent → Type 0
  IsTold events unauthenticated issued = issued ≡ []
  IsTold events (authenticated user) issued = IsJustified events user

  -- Each task was asked for by a packet.
  abbrev pub IsAsked : List (LoginEvent S) → LoginTask → Type 0
  IsAsked events (by_credentials username password remember) =
      IsEvent (received (account_login_execute username password remember)) events
  IsAsked events (by_token token) = IsEvent (received (account_login_hash_login token)) events
  IsAsked events (new_token user_id) = Unit {0}
  IsAsked events (check_name uid) = Unit {0}
  IsAsked events (registration username password remember) =
      IsEvent (received (account_register_submit username password remember)) events

  pub record IsSound (events : List (LoginEvent S)) (s : LoginSession) : Type 0 where
    pub one_login : logins s.tasks ≡ bit s.login_pending
    pub asked : All (IsAsked events) s.tasks
    pub told : IsTold events s.authentication_state s.issued

  IsJustified-later :
      (e : LoginEvent S) (events : List (LoginEvent S)) (user : Bytes)
      → IsJustified events user
      → IsJustified (e ∷ events) user
  IsJustified-later e events user (inl (password, remember, database, now, text, i, h)) =
      inl (password, remember, database, now, text, inr i, h)
  IsJustified-later e events user (inr (inl (token, database, now, text, i, h))) =
      inr (inl (token, database, now, text, inr i, h))
  IsJustified-later e events user (inr (inr (password, remember, database, now, salt, i, h))) =
      inr (inr (password, remember, database, now, salt, inr i, h))

  IsTold-later :
      (e : LoginEvent S) (events : List (LoginEvent S)) (state : AuthenticationState)
      → (issued : List ServerEvent) → IsTold events state issued
      → IsTold (e ∷ events) state issued
  IsTold-later e events unauthenticated issued h = h
  IsTold-later e events (authenticated user) issued h = IsJustified-later e events user h

  pub IsAsked-later :
      (e : LoginEvent S) (events : List (LoginEvent S)) (tasks : List LoginTask)
      → All (IsAsked events) tasks
      → All (IsAsked (e ∷ events)) tasks
  IsAsked-later e events [] h = tt
  IsAsked-later e events (by_credentials username password remember ∷ tasks) h =
      (inr h.0, IsAsked-later e events tasks h.1)
  IsAsked-later e events (by_token token ∷ tasks) h = (inr h.0, IsAsked-later e events tasks h.1)
  IsAsked-later e events (new_token user_id ∷ tasks) h = (tt, IsAsked-later e events tasks h.1)
  IsAsked-later e events (check_name uid ∷ tasks) h = (tt, IsAsked-later e events tasks h.1)
  IsAsked-later e events (registration username password remember ∷ tasks) h =
      (inr h.0, IsAsked-later e events tasks h.1)

  pub IsSound-later :
      (e : LoginEvent S) (events : List (LoginEvent S)) (s : LoginSession)
      → IsSound events s
      → IsSound (e ∷ events) s
  IsSound-later e events s k = record {
    one_login = k.one_login;
    asked = IsAsked-later e events s.tasks k.asked;
    told = IsTold-later e events s.authentication_state s.issued k.told;
  }

  pub send_lem :
      (events : List (LoginEvent S)) (s : LoginSession) (reply : LoginReply)
      → IsSound events s
      → IsSound events (run_call s (send reply))
  unfolding run_call
  send_lem events s reply k = record { one_login = k.one_login; asked = k.asked; told = k.told }

  pub run_lem :
      (events : List (LoginEvent S)) (s : LoginSession) (task : LoginTask)
      → IsSound events s
      → IsAsked events task
      → logins (task ∷ []) ≡ 0
      → IsSound events (run_call s (run_async task))
  unfolding run_call
  run_lem events s task k a e = record {
    one_login = logins-append s.tasks (task ∷ []) ∙ omega (arith, e, k.one_login);
    asked = All-append (IsAsked events) s.tasks (task ∷ []) k.asked (a, tt);
    told = k.told;
  }

  pub authenticated_lem :
      (events : List (LoginEvent S)) (s : LoginSession) (user : Bytes) (remember : Bool)
      → IsSound events s
      → IsJustified events user
      → IsSound events (run_calls s (handle_user_authenticated s.client_id user remember))
  unfolding run_calls run_call handle_user_authenticated
  authenticated_lem events s user true k j =
      let r = run_lem events s (new_token user) k tt refl in
      record { one_login = r.one_login; asked = r.asked; told = j }
  authenticated_lem events s user false k j = record {
    one_login = k.one_login;
    asked = k.asked;
    told = j;
  }

  -- The end of a login, by its result.
  pub result_lem :
      (events : List (LoginEvent S)) (s : LoginSession) (result : AuthenticationResult)
      (remember : Bool)
      → IsSound events s
      → ((user : Bytes) → result ≡ success user → IsJustified events user)
      → IsSound events (run_calls s (handle_authentication_result s.client_id result remember))
  unfolding run_calls handle_authentication_result
  result_lem events s invalid_credentials remember k j = send_lem events s _ k
  result_lem events s invalid_token remember k j = send_lem events s _ k
  result_lem events s (success user) remember k j =
      authenticated_lem events (run_call s (send _)) user remember (send_lem events s _ k)
        (j user refl)
