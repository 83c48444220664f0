-- ===== src/Server/Users/Registered.antt =====
-- What a user that server/src/users.rs registered can log in with.
use protanki_protocol_rs.Common.{
  ℕ, ◌≡◌, Sum-cases, Option-cases, refl, sym, ap, ◌∙◌, Bool, true, false, Option, none, some, List,
  [], ◌∷◌, All, ◌⊎◌, inl, inr, if◌then◌else◌,
}
use protanki_protocol_rs.Common.Bytes.{Bytes, bytes_eq}
use protanki_protocol_rs.Server.Users.{
  User, UserAuthentication, success, invalid_credentials, Database, hash_password, inserted_user,
  authenticate_with_credentials, insert_both, register_user,
}

-- A row of a table.
abbrev pub IsRow : UserAuthentication → List UserAuthentication → Type 0
IsRow row [] = ⊥
IsRow row (r ∷ rows) = (row ≡ r) ⊎ IsRow row rows

-- Users log in with their ids.
abbrev pub LoginsAreIds : List UserAuthentication → Type 0
LoginsAreIds rows = All (λ row. row.login_user ≡ row.user_id) rows

-- What the code relies on of the queries that succeed, with the rows of `user_authentication`, whose
-- primary key is the user's id.
pub record Tables {S T E : Type 0} (db : Database S T E) : Type 0 where
  pub rows : S → List UserAuthentication
  pub rows_in : T → List UserAuthentication
  pub found :
      (login : Bytes) (s : S) (row : UserAuthentication)
      → db.select_authentication login s ≡ inr (some row)
      → IsRow row (rows s) × (row.login_user ≡ login)
  pub missing :
      (login : Bytes) (s : S)
      → db.select_authentication login s ≡ inr none
      → All (λ row. ¬ (row.login_user ≡ login)) (rows s)
  pub begun : (s : S) (t : T) → db.begin s ≡ inr t → rows_in t ≡ rows s
  pub user_inserted :
      (user : User) (t t' : T) → db.insert_user user t ≡ inr t' → rows_in t' ≡ rows_in t
  pub authentication_inserted :
      (row : UserAuthentication) (t t' : T)
      → db.insert_authentication row t ≡ inr t'
      → (rows_in t' ≡ row ∷ rows_in t) × All (λ r. ¬ (r.user_id ≡ row.user_id)) (rows_in t)
  pub committed : (t : T) (s : S) → (db.commit t s).1 ≡ none → rows (db.commit t s).0 ≡ rows_in t
  pub rolled_back :
      (t : T) (s : S) (e : E) → (db.commit t s).1 ≡ some e → rows (db.commit t s).0 ≡ rows s

module _ {S T E : Type 0} (db : Database S T E) (tables : Tables db) (hash : Bytes → Bytes) where
  new_row : Bytes → Bytes → Bytes → UserAuthentication
  new_row salt username password = record {
    user_id = username;
    login_user = username;
    password_hash = hash_password hash password salt;
    password_salt = salt;
  }

  -- What the transaction holds before it is committed.
  insert_both_lem :
      (salt : Bytes) (now : ℕ) (username password : Bytes) (t t' : T)
      → insert_both db hash salt now username password t ≡ inr t'
      → (tables.rows_in t' ≡ new_row salt username password ∷ tables.rows_in t)
        × All (λ r. ¬ (r.user_id ≡ username)) (tables.rows_in t)
  unfolding insert_both new_row
  insert_both_lem salt now username password t t' h =
      elim (Sum-cases (db.insert_user (inserted_user username now) t)) [
        | inl (e, k) ↦ let g = rw (k, insert_both) at h in cc g
        | inr (u, k) ↦
            let i =
              tables.authentication_inserted (new_row salt username password) u t'
                (rw (k, insert_both) at h) in
            rw (← tables.user_inserted (inserted_user username now) t u k) i
      ]

  -- Of the rows with the new one, no other has its login name.
  is_new :
      (salt username password : Bytes) (row : UserAuthentication) (rows : List UserAuthentication)
      → LoginsAreIds rows
      → All (λ r. ¬ (r.user_id ≡ username)) rows
      → IsRow row rows
      → row.login_user ≡ username
      → ⊥
  is_new salt username password row [] l n i e = i
  is_new salt username password row (r ∷ rows) l n (inl i) e =
      n.0 (sym l.0 ∙ ap (λ x. x.login_user) (sym i) ∙ e)
  is_new salt username password row (r ∷ rows) l n (inr i) e =
      is_new salt username password row rows l.1 n.1 i e

  -- A login with the new name, from rows of which the new one is the first.
  login_lem :
      (salt username password given : Bytes) (s' : S) (rows : List UserAuthentication)
      → (o : Option UserAuthentication) → LoginsAreIds rows
      → All (λ r. ¬ (r.user_id ≡ username)) rows
      → tables.rows s' ≡ new_row salt username password ∷ rows
      → db.select_authentication username s' ≡ inr o
      → authenticate_with_credentials db hash username given s' ≡ (
          if bytes_eq (hash_password hash given salt) (hash_password hash password salt)
          then success username
          else invalid_credentials)
  unfolding authenticate_with_credentials new_row
  login_lem salt username password given s' rows none l n r e =
      let absent : ¬ (username ≡ username) = (rw r at (tables.missing username s' e)).0 in
      elim (absent refl) [ ]
  login_lem salt username password given s' rows (some row) l n r e =
      let (i, u) = tables.found username s' row e in
      elim (rw r at i) [
        | inl first ↦ rw (e, authenticate_with_credentials, first) refl
        | inr i' ↦ elim (is_new salt username password row rows l n i' u) [ ]
      ]

  -- What a registration ended in: the user can log in, or the table is as it was.
  abbrev pub Registered : (salt username password given : Bytes) (s : S) → S × Bool → Type 0
  Registered salt username password given s r =
      ((r.1 ≡ true)
        × LoginsAreIds (tables.rows r.0)
        × (authenticate_with_credentials db hash username given r.0 ≡ (
            if bytes_eq (hash_password hash given salt) (hash_password hash password salt)
            then success username
            else invalid_credentials)))
      ⊎ ((r.1 ≡ false) × (tables.rows r.0 ≡ tables.rows s))

  committed_lem :
      (salt username password given : Bytes) (s s' : S) (rows : List UserAuthentication)
      → (o : Option UserAuthentication) → LoginsAreIds rows
      → All (λ r. ¬ (r.user_id ≡ username)) rows
      → tables.rows s' ≡ new_row salt username password ∷ rows
      → db.select_authentication username s' ≡ inr o
      → Registered salt username password given s (s', true)
  unfolding new_row
  committed_lem salt username password given s s' rows o l n r e =
      inl (refl, rw r (refl, l), login_lem salt username password given s' rows o l n r e)

  -- From users that log in with their ids, and with a database whose queries do what they say: a
  -- registration that returns true leaves such users, and the new user logs in with a password (when the
  -- query of that login does not fail) just if it hashes, with the user's salt, to what the password of the
  -- registration does; one that returns false leaves the users' passwords as they were.
  pub register_user-authenticates :
      (salt username password given : Bytes) (now : ℕ) (s : S) (o : Option UserAuthentication)
      → LoginsAreIds (tables.rows s)
      → db.select_authentication username (register_user db hash salt now username password s).0
        ≡ inr o
      → Registered salt username password given s
          (register_user db hash salt now username password s)
  unfolding register_user
  register_user-authenticates salt username password given now s o l q =
      elim (Sum-cases (db.begin s)) [
        | inl (e, k) ↦ rw (k, register_user) (inr (refl, refl))
        | inr (t, k) ↦ elim (Sum-cases (insert_both db hash salt now username password t)) [
          | inl (e, h) ↦ rw (k, h, register_user) (inr (refl, refl))
          | inr (t', h) ↦ elim (Option-cases (db.commit t' s).1) [
            | inr (e, c) ↦ rw (k, h, c, register_user) (inr (refl, tables.rolled_back t' s e c))
            | inl c ↦
                let (w, n) = insert_both_lem salt now username password t t' h in
                let logins : LoginsAreIds (tables.rows_in t) = rw (tables.begun s t k) l in
                rw (k, h, c, register_user)
                  (committed_lem salt username password given s (db.commit t' s).0
                    (tables.rows_in t) o logins n (tables.committed t' s c ∙ w)
                    (rw (k, h, register_user) at q))
          ]
        ]
      ]
