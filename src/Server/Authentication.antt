-- ===== src/Server/Authentication.antt =====
-- server/src/client_components/authenticate.rs and register.rs: the components that log a client in and
-- that register a user, with the callbacks of their tasks. Both are components of the client, as
-- `Server::register_client` makes them. The lock of the registry is not poisoned. Of the client there is
-- here what these components see.

pub mod Steps
pub mod Justified
pub mod Received
pub mod Completed
pub mod Sound
use protanki_protocol_rs.Common.{
  ℕ, zero, suc, ◌+◌, Bool, true, false, Option, none, some, List, [], ◌∷◌, ◌++◌, ◌⊎◌, inl, inr,
  if◌then◌else◌,
}
use protanki_protocol_rs.Common.Bytes.{Bytes}
use protanki_protocol_rs.Protocol.Codec.Enums.Lobby.{CaptchaLocation}
use protanki_protocol_rs.Server.Captcha.{CaptchaProvider, CaptchaRequest, solved_for}
use protanki_protocol_rs.Server.Captcha
use protanki_protocol_rs.Server.Client.{
  AuthenticationState, unauthenticated, authenticated, ServerEvent, client_authenticated,
}
use protanki_protocol_rs.Server.Users.{
  AuthenticationResult, success, invalid_credentials, invalid_token, Database,
  authenticate_with_credentials, authenticate_with_token, create_authentication_token,
  is_username_free, register_user,
}

-- The packets of the two components, received and sent, with the fields that they read.
pub data LoginRequest : Type 0 where
  account_login_execute : (login password : Bytes) (remember : Bool) → LoginRequest
  account_login_hash_login : (hash : Bytes) → LoginRequest
  account_register_validate_uid : (uid : Bytes) → LoginRequest
  account_register_submit : (uid password : Bytes) (remember_me : Bool) → LoginRequest
  other_packet : LoginRequest

pub data LoginReply : Type 0 where
  account_login_failure account_login_hash_login_failed account_login_success : LoginReply
  account_login_hash_update : (hash : Bytes) → LoginReply
  account_register_parameters :
      (bg_resource : ℕ) (enable_required_email : Bool) (max_password_length min_password_length : ℕ)
      → LoginReply
  account_register_uid_free account_register_captcha_required : LoginReply
  account_register_uid_busy : (adviced_uids : List Bytes) → LoginReply
  account_register_uid_incorrect : LoginReply

-- The futures of the registry that run for the client, with what their callbacks keep.
pub data LoginTask : Type 0 where
  by_credentials : (username password : Bytes) (remember : Bool) → LoginTask
  by_token : (hash : Bytes) → LoginTask
  new_token : (user_id : Bytes) → LoginTask
  check_name : (uid : Bytes) → LoginTask
  registration : (username password : Bytes) (remember : Bool) → LoginTask

pub data LoginCall : Type 0 where
  send : LoginReply → LoginCall
  run_async : LoginTask → LoginCall
  set_authentication_state : AuthenticationState → LoginCall
  issue_server_event : ServerEvent → LoginCall

-- The client, with the components' state: the flag of the one and the captcha component. `sent` and
-- `issued` are in order.
pub record LoginSession : Type 0 where
  pub client_id : ℕ
  pub authentication_state : AuthenticationState
  pub login_pending : Bool
  pub captcha : Option CaptchaProvider
  pub tasks : List LoginTask
  pub sent : List LoginReply
  pub issued : List ServerEvent

unfoldable pub run_call : LoginSession → LoginCall → LoginSession
run_call s (send reply) = record s { sent = s.sent ++ (reply ∷ []) }
run_call s (run_async task) = record s { tasks = s.tasks ++ (task ∷ []) }
run_call s (set_authentication_state state) = record s { authentication_state = state }
run_call s (issue_server_event e) = record s { issued = s.issued ++ (e ∷ []) }

unfoldable pub run_calls : LoginSession → List LoginCall → LoginSession
unfolding run_call
run_calls s [] = s
run_calls s (call ∷ calls) = run_calls (run_call s call) calls

unfoldable pub send_login_token : AuthenticationState → List LoginCall × Bool
send_login_token unauthenticated = ([], false)
send_login_token (authenticated user_id) = (run_async (new_token user_id) ∷ [], true)

-- The result of `send_login_token` is not looked at.
unfoldable pub handle_user_authenticated : ℕ → Bytes → Bool → List LoginCall
unfolding send_login_token
handle_user_authenticated client_id user_id remember =
    set_authentication_state (authenticated user_id)
    ∷ ((if remember then (send_login_token (authenticated user_id)).0 else [])
        ++ (issue_server_event (client_authenticated client_id) ∷ []))

unfoldable pub handle_authentication_result : ℕ → AuthenticationResult → Bool → List LoginCall
unfolding handle_user_authenticated
handle_authentication_result client_id invalid_credentials remember =
    send account_login_failure ∷ []
handle_authentication_result client_id invalid_token remember =
    send account_login_hash_login_failed ∷ []
handle_authentication_result client_id (success user_id) remember =
    send account_login_success ∷ handle_user_authenticated client_id user_id remember

abbrev pub is_unauthenticated : AuthenticationState → Bool
is_unauthenticated unauthenticated = true
is_unauthenticated (authenticated user_id) = false

-- A new session, with what `UserRegister` sends first.
unfoldable pub new_session : ℕ → Option CaptchaProvider → LoginSession
new_session client_id captcha = record {
  client_id = client_id;
  authentication_state = unauthenticated;
  login_pending = false;
  captcha = captcha;
  tasks = [];
  sent = account_register_parameters 122842 false 100 5 ∷ [];
  issued = [];
}

-- The first component's `on_packet`, and whether it returned without error. `swap` sets the flag also
-- where it is set already.
unfoldable pub on_login_packet : LoginSession → LoginRequest → LoginSession × Bool
unfolding run_call
on_login_packet s (account_login_execute login password remember) =
    if is_unauthenticated s.authentication_state
    then (let swapped = record s { login_pending = true } in
        if s.login_pending
        then (swapped, false)
        else (run_call swapped (run_async (by_credentials login password remember)), true))
    else (s, false)
on_login_packet s (account_login_hash_login hash) = (run_call s (run_async (by_token hash)), true)
on_login_packet s _ = (s, true)

-- A submission, with the captcha component that is looked up first.
unfoldable pub submit : LoginSession → Bytes → Bytes → Bool → LoginSession × Bool
unfolding run_call solved_for
submit s uid password remember = elim s.captcha [
  | none ↦ (s, false)
  | some provider ↦
      let solved = solved_for provider CaptchaLocation.register_form in
      let s' = record s { captcha = some solved.0 } in
      (
        run_call s' (
            if solved.1
            then run_async (registration uid password remember)
            else send account_register_captcha_required),
        true,
      )
]

-- The second component's.
unfoldable pub on_register_packet : LoginSession → LoginRequest → LoginSession × Bool
unfolding run_call submit
on_register_packet s (account_register_validate_uid uid) =
    if is_unauthenticated s.authentication_state
    then (run_call s (run_async (check_name uid)), true)
    else (s, false)
on_register_packet s (account_register_submit uid password remember) =
    if is_unauthenticated s.authentication_state then submit s uid password remember else (s, false)
on_register_packet s _ = (s, true)

module _ {S T E : Type 0} (db : Database S T E) (hash : Bytes → Bytes) where
  -- The callbacks of the tasks, with the database when the task runs, the clock and the random text. The
  -- flag is reset only after a login with credentials.
  unfoldable pub complete : LoginSession → LoginTask → S → ℕ → Bytes → LoginSession
  unfolding run_call run_calls handle_authentication_result handle_user_authenticated
      authenticate_with_credentials authenticate_with_token create_authentication_token
      is_username_free register_user
  complete s (by_credentials username password remember) database now text =
      run_calls (record s { login_pending = false })
        (handle_authentication_result s.client_id
          (authenticate_with_credentials db hash username password database) remember)
  complete s (by_token token) database now text = run_calls s (
      handle_authentication_result s.client_id
        (authenticate_with_token db hash now token database).1 true)
  complete s (new_token user_id) database now text =
      elim (create_authentication_token db hash text now user_id database).1 [
        | none ↦ s
        | some token ↦ run_call s (send (account_login_hash_update token))
      ]
  complete s (check_name uid) database now text = run_call s (
      send (
        if is_username_free db hash uid database
        then account_register_uid_free
        else account_register_uid_busy []))
  complete s (registration username password remember) database now text =
      if (register_user db hash text now username password database).1
      then run_calls s
          (send account_login_success ∷ handle_user_authenticated s.client_id username remember)
      else run_call s (send account_register_uid_incorrect)
