-- ===== src/Server/Users.antt =====
-- server/src/users.rs: the users' registry. The database is a parameter, an operation for each query of the
-- source and for the transaction; so are the hash function, the random texts and the clock. A query
-- fails with a value of `E`.
pub mod Registered
use protanki_protocol_rs.Common.{
  ℕ, Bool, true, false, Option, none, some, List, [], ◌∷◌, ◌++◌, ◌⊎◌, inl, inr, if◌then◌else◌,
}
use protanki_protocol_rs.Common.Bytes.{Bytes, bytes_eq}

pub record User : Type 0 where
  pub user_id : Bytes
  pub email : Option Bytes
  pub email_confirmed : Bool
  pub timestamp_register : ℕ
  pub timestamp_active : ℕ
  pub crystals : ℕ
  pub double_crystals : Option ℕ
  pub experience : ℕ
  pub premium : Option ℕ

pub record UserAuthentication : Type 0 where
  pub user_id : Bytes
  pub login_user : Bytes
  pub password_hash : Bytes
  pub password_salt : Bytes

pub record UserAuthenticationToken : Type 0 where
  pub user_id : Bytes
  pub timestamp_created : ℕ
  pub timestamp_last_used : ℕ
  pub token : Bytes

pub data AuthenticationResult : Type 0 where
  success : (user_id : Bytes) → AuthenticationResult
  invalid_credentials invalid_token : AuthenticationResult

-- The queries, over a state `S` of the database, a state `T` of a transaction that has begun, and the
-- errors `E`. A transaction that is dropped leaves the database as it is.
pub record Database (S T E : Type 0) : Type 0 where
  pub select_authentication : (login_user : Bytes) → S → E ⊎ Option UserAuthentication
  pub update_token : (now : ℕ) (token : Bytes) → S → S × (E ⊎ Option UserAuthenticationToken)
  pub insert_token : UserAuthenticationToken → S → S × Option E
  pub select_user : (user_id : Bytes) → S → E ⊎ Option User
  pub begin : S → E ⊎ T
  pub insert_user : User → T → E ⊎ T
  pub insert_authentication : UserAuthentication → T → E ⊎ T
  pub commit : T → S → S × Option E

module _ (hash : Bytes → Bytes) where
  -- The hasher is updated three times, which hashes what is put together.
  unfoldable pub hash_password : Bytes → Bytes → Bytes
  hash_password password salt = hash (salt ++ password ++ salt)

-- What an insertion of a user sets; the other columns have the defaults of the table.
unfoldable pub inserted_user : Bytes → ℕ → User
inserted_user username now = record {
  user_id = username;
  email = none;
  email_confirmed = false;
  timestamp_register = now;
  timestamp_active = now;
  crystals = 0;
  double_crystals = none;
  experience = 0;
  premium = none;
}

module _ {S T E : Type 0} (db : Database S T E) (hash : Bytes → Bytes) where
  -- The id of the result is the login name.
  unfoldable pub authenticate_with_credentials : Bytes → Bytes → S → AuthenticationResult
  unfolding hash_password bytes_eq
  authenticate_with_credentials username password s = elim (db.select_authentication username s) [
    | inl e ↦ invalid_credentials
    | inr o ↦ elim o [
      | none ↦ invalid_credentials
      | some row ↦
          if bytes_eq (hash_password hash password row.password_salt) row.password_hash
          then success username
          else invalid_credentials
    ]
  ]

  unfoldable pub authenticate_with_token : ℕ → Bytes → S → S × AuthenticationResult
  authenticate_with_token now token s =
      let updated = db.update_token now token s in
      (
        updated.0,
        elim updated.1 [
          | inl e ↦ invalid_token
          | inr o ↦ elim o [ none ↦ invalid_token | some row ↦ success row.user_id ]
        ],
      )

  unfoldable pub create_authentication_token : Bytes → ℕ → Bytes → S → S × Option Bytes
  create_authentication_token token now user s =
      let inserted =
        db.insert_token
          (record {
            user_id = user;
            timestamp_created = now;
            timestamp_last_used = now;
            token = token;
          })
          s in
      (inserted.0, elim inserted.1 [ none ↦ some token | some e ↦ none ])

  unfoldable pub is_username_free : Bytes → S → Bool
  is_username_free username s = elim (db.select_user username s) [
    | inl e ↦ false
    | inr o ↦ elim o [ none ↦ true | some user ↦ false ]
  ]

  -- The two insertions of the transaction.
  unfoldable pub insert_both : Bytes → ℕ → Bytes → Bytes → T → E ⊎ T
  unfolding hash_password inserted_user
  insert_both salt now username password t = elim (db.insert_user (inserted_user username now) t) [
    | inl e ↦ inl e
    | inr t' ↦
        db.insert_authentication
          (record {
            user_id = username;
            login_user = username;
            password_hash = hash_password hash password salt;
            password_salt = salt;
          })
          t'
  ]

  unfoldable pub register_user : Bytes → ℕ → Bytes → Bytes → S → S × Bool
  unfolding insert_both
  register_user salt now username password s = elim (db.begin s) [
    | inl e ↦ (s, false)
    | inr t ↦ elim (insert_both salt now username password t) [
      | inl e ↦ (s, false)
      | inr t' ↦
          let committed = db.commit t' s in
          (committed.0, elim committed.1 [ none ↦ true | some e ↦ false ])
    ]
  ]

  unfoldable pub find_user : Bytes → S → Option User
  find_user user_id s = elim (db.select_user user_id s) [ inl e ↦ none | inr o ↦ o ]
