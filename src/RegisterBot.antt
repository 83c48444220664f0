-- ===== src/RegisterBot.antt =====
-- applications/register-bot/src/main.rs: a worker that registers the names of a file, one by one, over the
-- proxies that it is given. The proxies are a parameter, and what an attempt to register a name over a
-- proxy does to the world `W`.
pub mod Lines
use protanki_protocol_rs.Common.{
  ℕ, zero, suc, ◌+◌, Option, none, some, List, [], ◌∷◌, ◌⊎◌, inl, inr, length, get_elem?, leb,
  if◌then◌else◌, Bool,
}
use protanki_protocol_rs.Common.Bytes.{Bytes}

pub data RegisterResult : Type 0 where
  success username_busy username_invalid captcha_required : RegisterResult

-- The packets that the matcher of `register_account` looks at.
pub data RegisterPacket : Type 0 where
  uid_busy uid_incorrect registration_captcha_required uid_free other_packet : RegisterPacket

unfoldable pub match_register : RegisterPacket → Option RegisterResult
match_register uid_busy = some username_busy
match_register uid_incorrect = some username_invalid
match_register registration_captcha_required = some captcha_required
match_register uid_free = some success
match_register other_packet = none

pub record FileUserNameGenerator : Type 0 where
  pub user_names : List Bytes
  pub user_name_index : ℕ

-- From the lines of the file; a line that cannot be read is an error.
unfoldable pub read_names : {E : Type 0} → List (E ⊎ Bytes) → E ⊎ List Bytes
read_names [] = inr []
read_names (inl e ∷ lines) = inl e
read_names (inr name ∷ lines) = elim (read_names lines) [
  | inl e ↦ inl e
  | inr names ↦ inr (name ∷ names)
]

unfoldable pub new_generator : {E : Type 0} → List (E ⊎ Bytes) → E ⊎ FileUserNameGenerator
unfolding read_names
new_generator lines = elim (read_names lines) [
  | inl e ↦ inl e
  | inr names ↦ inr (record { user_names = names; user_name_index = 0 })
]

-- An index that is out of range would be a panic; the test before excludes it.
unfoldable pub next_username : FileUserNameGenerator → FileUserNameGenerator × Option Bytes
next_username g = if leb (length g.user_names) g.user_name_index then (g, none) else (
  record g { user_name_index = suc g.user_name_index },
  get_elem? g.user_names g.user_name_index,
)

-- What is written to the output.
pub data Line (E : Type 0) : Type 0 where
  result_line : Bytes → RegisterResult → Line E
  error_line : Bytes → E → Line E

pub data WorkerEnd : Type 0 where
  no_more_names no_more_proxies out_of_fuel : WorkerEnd

-- `max_attempts - 1`
abbrev pub further_attempts : ℕ
further_attempts = 2

module _ {X P W E : Type 0} (next_proxy : X → X × Option P)
    (register_account_loop : P → Bytes → W → W × (E ⊎ RegisterResult)) where
  -- One attempt, unless the proxies are used up.
  unfoldable pub attempt : Bytes → X → W → X × W × Option (E ⊎ RegisterResult)
  attempt name x w =
      let proxy = next_proxy x in
      elim proxy.1 [
        | none ↦ (proxy.0, w, none)
        | some p ↦
            let registered = register_account_loop p name w in
            (proxy.0, registered.0, some registered.1)
      ]

  -- The loop over the attempts, by how many may follow, with the line that is written.
  unfoldable pub attempts : ℕ → Bytes → X → W → X × W × Option (Line E)
  unfolding attempt
  attempts zero name x w =
      let tried = attempt name x w in
      elim tried.2 [
        | none ↦ (tried.0, tried.1, none)
        | some (inr result) ↦ (tried.0, tried.1, some (result_line name result))
        | some (inl e) ↦ (tried.0, tried.1, some (error_line name e))
      ]
  attempts (suc n) name x w =
      let tried = attempt name x w in
      elim tried.2 [
        | none ↦ (tried.0, tried.1, none)
        | some (inr result) ↦ (tried.0, tried.1, some (result_line name result))
        | some (inl e) ↦ attempts n name tried.0 tried.1
      ]

  -- The worker's loop, with fuel for the names: the lines that it writes, and how it ends.
  unfoldable pub worker : ℕ → FileUserNameGenerator → X → W → List (Line E) × WorkerEnd
  unfolding next_username attempts
  worker zero g x w = ([], out_of_fuel)
  worker (suc fuel) g x w =
      let taken = next_username g in
      elim taken.1 [
        | none ↦ ([], no_more_names)
        | some name ↦
            let tried = attempts further_attempts name x w in
            elim tried.2 [
              | none ↦ ([], no_more_proxies)
              | some line ↦
                  let rest = worker fuel taken.0 tried.0 tried.1 in (line ∷ rest.0, rest.1)
            ]
      ]
