-- ===== src/Server/Authentication/Completed.antt =====
-- The ends of the tasks keep the invariant of the logins, for server/src/client_components/authenticate.rs and register.rs.
use protanki_protocol_rs.Common.{
  ℕ, suc, ◌+◌, ◌≤◌, ◌≡◌, refl, sym, ap, ◌∙◌, arith, Bool, true, false, List, [], ◌∷◌, All,
  Bool-cases, Option-cases, inl, inr,
}
use protanki_protocol_rs.Common.Bytes.{Bytes}
use protanki_protocol_rs.Server.Users.{
  success, Database, authenticate_with_credentials, authenticate_with_token,
  create_authentication_token, register_user,
}
use protanki_protocol_rs.Server.Authentication.{
  account_login_success, LoginTask, by_credentials, by_token, new_token, check_name, registration,
  send, LoginSession, run_call, run_calls, handle_user_authenticated, handle_authentication_result,
  complete,
}
use protanki_protocol_rs.Server.Authentication.Steps.{LoginEvent, completed}
use protanki_protocol_rs.Server.Authentication.Justified.{
  logins, bit, IsJustified, IsAsked, IsSound, send_lem, authenticated_lem, result_lem,
}

module _ {S T E : Type 0} (db : Database S T E) (hash : Bytes → Bytes) where
  registered_lem :
      (events : List (LoginEvent S)) (s : LoginSession) (user : Bytes) (remember : Bool)
      → IsSound db hash events s
      → IsJustified db hash events user
      → IsSound db hash events (
          run_calls s
            (send account_login_success ∷ handle_user_authenticated s.client_id user remember))
  unfolding run_calls
  registered_lem events s user remember k j =
      authenticated_lem db hash events (run_call s (send _)) user remember
        (send_lem db hash events s _ k) j

  credentials_user :
      (username password user : Bytes) (database : S)
      → authenticate_with_credentials db hash username password database ≡ success user
      → username ≡ user
  unfolding authenticate_with_credentials
  credentials_user username password user database e = ground arith

  bit_le : (b : Bool) → bit b ≤ 1
  bit_le true = omega arith
  bit_le false = omega arith

  credentials_lem :
      (events : List (LoginEvent S)) (s : LoginSession) (username password : Bytes)
      (remember : Bool)
      → (others : List LoginTask) (index : ℕ) (database : S) (now : ℕ) (text : Bytes)
      → IsSound db hash (completed index database now text ∷ events) s
      → IsAsked db hash events (by_credentials username password remember)
      → All (IsAsked db hash (completed index database now text ∷ events)) others
      → logins s.tasks ≡ suc (logins others)
      → IsSound db hash (completed index database now text ∷ events) (
          run_calls
            (record s { tasks = others; login_pending = false })
            (handle_authentication_result s.client_id
              (authenticate_with_credentials db hash username password database)
              remember))
  credentials_lem events s username password remember others index database now text k i a c =
      result_lem db hash (completed index database now text ∷ events)
        (record s { tasks = others; login_pending = false })
        (authenticate_with_credentials db hash username password database) remember
        (record {
          one_login = omega (arith, c, k.one_login, bit_le s.login_pending);
          asked = a;
          told = k.told;
        })
        λ user e.
          let p = credentials_user username password user database e in
          rw (← p) (
            inl (
              password,
              remember,
              database,
              now,
              text,
              inl (index, refl, i),
              e ∙ ap success (sym p),
            ))

  -- The end of a task that was asked for before it leaves a sound session.
  pub complete_lem :
      (events : List (LoginEvent S)) (s : LoginSession) (task : LoginTask) (others : List LoginTask)
      → (index : ℕ) (database : S) (now : ℕ) (text : Bytes)
      → IsSound db hash (completed index database now text ∷ events) s
      → IsAsked db hash events task
      → All (IsAsked db hash (completed index database now text ∷ events)) others
      → logins s.tasks ≡ logins (task ∷ []) + logins others
      → IsSound db hash
          (completed index database now text ∷ events)
          (complete db hash (record s { tasks = others }) task database now text)
  unfolding complete
  complete_lem events s (by_credentials username password remember) others index database now text k
        i a c =
      credentials_lem events s username password remember others index database now text k i a
        (omega (arith, c))
  complete_lem events s (by_token token) others index database now text k i a c =
      result_lem db hash (completed index database now text ∷ events) (record s { tasks = others })
        (authenticate_with_token db hash now token database).1 true
        (record { one_login = omega (arith, c, k.one_login); asked = a; told = k.told })
        λ user e. inr (inl (token, database, now, text, inl (index, refl, i), e))
  complete_lem events s (new_token user_id) others index database now text k i a c =
      let k' : IsSound db hash (completed index database now text ∷ events)
          (record s { tasks = others }) =
        record { one_login = omega (arith, c, k.one_login); asked = a; told = k.told } in
      elim (Option-cases (create_authentication_token db hash text now user_id database).1) [
        | inl h ↦ rw (h, complete) k'
        | inr (token, h) ↦
            rw (h, complete)
              (send_lem db hash (completed index database now text ∷ events)
                (record s { tasks = others }) _ k')
      ]
  complete_lem events s (check_name uid) others index database now text k i a c =
      send_lem db hash (completed index database now text ∷ events) (record s { tasks = others }) _
        (record { one_login = omega (arith, c, k.one_login); asked = a; told = k.told })
  complete_lem events s (registration username password remember) others index database now text k i
        a c =
      let k' : IsSound db hash (completed index database now text ∷ events)
          (record s { tasks = others }) =
        record { one_login = omega (arith, c, k.one_login); asked = a; told = k.told } in
      elim (Bool-cases (register_user db hash text now username password database).1) [
        | inr h ↦
            rw (h, complete)
              (send_lem db hash (completed index database now text ∷ events)
                (record s { tasks = others }) _ k')
        | inl h ↦
            rw (h, complete)
              (registered_lem (completed index database now text ∷ events)
                (record s { tasks = others }) username remember k'
                (inr (inr (password, remember, database, now, text, inl (index, refl, i), h))))
      ]
