-- ===== src/Tests/Logins.antt =====
-- A database in memory, and the users' logins with it.
use protanki_protocol_rs.Common.{
  ◌≡◌, refl, Bool, true, false, Option, none, some, List, [], ◌∷◌, All, Bool-cases, ◌⊎◌, inl, inr,
  if◌then◌else◌,
}
use protanki_protocol_rs.Common.Bytes.{Bytes, bytes_eq, bytes_eq→eq, bytes_eq_refl}
use protanki_protocol_rs.Protocol.Codec.Enums.Lobby.{CaptchaLocation}
use protanki_protocol_rs.Server.Captcha.{
  new_provider, validate_captcha, request_location, captcha_code,
}
use protanki_protocol_rs.Server.Client.{authenticated}
use protanki_protocol_rs.Server.Users.{UserAuthentication, Database, register_user}
use protanki_protocol_rs.Server.Users.Registered.{
  IsRow, Tables, Registered, register_user-authenticates,
}
use protanki_protocol_rs.Server.Authentication.{LoginSession, account_register_submit, new_session}
use protanki_protocol_rs.Server.Authentication.Justified.{IsTold, logins, bit}
use protanki_protocol_rs.Server.Authentication.Steps.{
  LoginEvent, received, captcha_packet, completed, step, Reach, start, next,
}
use protanki_protocol_rs.Server.Authentication.Sound.{Reach-IsJustified}

abbrev Rows : Type 0
Rows = List UserAuthentication

abbrev find_login : Bytes → Rows → Option UserAuthentication
find_login login [] = none
find_login login (row ∷ rows) =
    let rest = find_login login rows in if bytes_eq row.login_user login then some row else rest

abbrev has_user : Bytes → Rows → Bool
has_user user [] = false
has_user user (row ∷ rows) =
    let rest = has_user user rows in if bytes_eq row.user_id user then true else rest

abbrev insert_row : UserAuthentication → Rows → (Unit {0}) ⊎ Rows
insert_row row rows = if has_user row.user_id rows then inl tt else inr (row ∷ rows)

-- Without tokens, and with the rows of `user_authentication` only.
abbrev memory : Database Rows Rows (Unit {0})
memory = record {
  select_authentication = λ login s. inr (find_login login s);
  update_token = λ now token s. (s, inr none);
  insert_token = λ token s. (s, none);
  select_user = λ user s. inr none;
  begin = λ s. inr s;
  insert_user = λ user t. inr t;
  insert_authentication = insert_row;
  commit = λ t s. (t, none);
}

found-IsRow :
    (login : Bytes) (rows : Rows) (row : UserAuthentication)
    → find_login login rows ≡ some row
    → IsRow row rows × (row.login_user ≡ login)
found-IsRow login [] row e = cc e
found-IsRow login (first ∷ rows) row e = elim (Bool-cases (bytes_eq first.login_user login)) [
  | inl h ↦
      let p : first ≡ row = cc (rw (h) at e) in
      rw (← p) (inl refl, bytes_eq→eq first.login_user login h)
  | inr h ↦ let r = found-IsRow login rows row (rw (h) at e) in (inr r.0, r.1)
]

missing_row :
    (login : Bytes) (rows : Rows)
    → find_login login rows ≡ none
    → All (λ row. ¬ (row.login_user ≡ login)) rows
missing_row login [] e = tt
missing_row login (first ∷ rows) e = elim (Bool-cases (bytes_eq first.login_user login)) [
  | inl h ↦ cc (rw (h) at e)
  | inr h ↦ (λ p. cc (rw p at h, bytes_eq_refl login), missing_row login rows (rw (h) at e))
]

no_user :
    (user : Bytes) (rows : Rows)
    → has_user user rows ≡ false
    → All (λ row. ¬ (row.user_id ≡ user)) rows
no_user user [] e = tt
no_user user (first ∷ rows) e = elim (Bool-cases (bytes_eq first.user_id user)) [
  | inl h ↦ cc (rw (h) at e)
  | inr h ↦ (λ p. cc (rw p at h, bytes_eq_refl user), no_user user rows (rw (h) at e))
]

inserted_row :
    (row : UserAuthentication) (t t' : Rows)
    → insert_row row t ≡ inr t'
    → (t' ≡ row ∷ t) × All (λ r. ¬ (r.user_id ≡ row.user_id)) t
inserted_row row t t' e = elim (Bool-cases (has_user row.user_id t)) [
  | inl h ↦ cc (rw (h) at e)
  | inr h ↦ let g : inr (row ∷ t) ≡ inr t' = rw (h) at e in (cc g, no_user row.user_id t h)
]

memory_tables : Tables memory
memory_tables = record {
  rows = λ s. s;
  rows_in = λ t. t;
  found = λ login s row e. found-IsRow login s row (cc e);
  missing = λ login s e. missing_row login s (cc e);
  begun = λ s t e. cc e;
  user_inserted = λ user t t' e. cc e;
  authentication_inserted = inserted_row;
  committed = λ t s e. refl;
  rolled_back = λ t s e h. cc h;
}

abbrev plain : Bytes → Bytes
plain text = text

abbrev alice : Bytes
alice = 97 ∷ []

abbrev secret : Bytes
secret = 115 ∷ 51 ∷ []

abbrev salt : Bytes
salt = 120 ∷ []

abbrev alice_row : UserAuthentication
alice_row = record {
  user_id = alice;
  login_user = alice;
  password_hash = 120 ∷ 115 ∷ 51 ∷ 120 ∷ [];
  password_salt = salt;
}

register_alice : register_user memory plain salt 5 alice secret [] ≡ (alice_row ∷ [], true)
unfolding register_user
register_alice = refl

register_user-authenticates_example :
    Registered memory memory_tables plain salt alice secret secret []
      (register_user memory plain salt 5 alice secret [])
unfolding memory_tables bytes_eq
register_user-authenticates_example =
    register_user-authenticates memory memory_tables plain salt alice secret secret 5 []
      (some alice_row) tt (rw register_alice refl)

-- The captcha is asked for and solved, and the user registers.
abbrev logged_in_events : List (LoginEvent Rows)
logged_in_events =
    completed 0 [] 6 salt
    ∷ received (account_register_submit alice secret false)
    ∷ captcha_packet (validate_captcha CaptchaLocation.register_form captcha_code)
    ∷ captcha_packet (request_location CaptchaLocation.register_form)
    ∷ []

abbrev run_events : List (LoginEvent Rows) → LoginSession
run_events [] = new_session 3 (some new_provider)
run_events (e ∷ events) = step memory plain [] (run_events events) e

events-Reach :
    (events : List (LoginEvent Rows))
    → Reach memory plain [] 3 (some new_provider) events (run_events events)
events-Reach [] = start
events-Reach (e ∷ events) = next events (run_events events) e (events-Reach events)

registers : (run_events logged_in_events).authentication_state ≡ authenticated alice
unfolding step new_session new_provider
registers = refl

Reach-IsJustified_example :
    let s = run_events logged_in_events in
    IsTold memory plain logged_in_events s.authentication_state s.issued
    × (logins s.tasks ≡ bit s.login_pending)
Reach-IsJustified_example =
    Reach-IsJustified memory plain [] 3 (some new_provider) logged_in_events
      (run_events logged_in_events) (events-Reach logged_in_events)
