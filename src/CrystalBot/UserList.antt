-- ===== src/CrystalBot/UserList.antt =====
-- applications/crystal-bot/src/main.rs: the list of users, and the loop over one user's runs. The lines
-- are those of the file, as they are read.
use protanki_protocol_rs.Common.{
  ℕ, suc, Bool, true, false, Option, none, some, List, [], ◌∷◌, ◌==◌, ◌||◌, if◌then◌else◌, ◌&&◌,
}
use protanki_protocol_rs.Common.Bytes.{Bytes}
use protanki_protocol_rs.Common.Text.{codes}

unfoldable pub starts_with : Bytes → Bytes → Bool
starts_with [] text = true
starts_with (c ∷ cs) [] = false
starts_with (c ∷ cs) (d ∷ ds) = c == d && starts_with cs ds

-- `split_once(":")`
unfoldable pub split_once : Bytes → Option (Bytes × Bytes)
split_once [] = none
split_once (c ∷ cs) =
    let rest = split_once cs in
    if c == b':' then some ([], cs) else elim rest [ none ↦ none | some (a, b) ↦ some (c ∷ a, b) ]

-- `UserList::from_file`; an entry without `:` is an error.
unfoldable pub read_users : List Bytes → Option (List (Bytes × Bytes))
unfolding starts_with split_once
read_users [] = some []
read_users (line ∷ lines) =
    let rest = read_users lines in
    if starts_with (codes ";") line
    then rest
    else if starts_with (codes "--- END") line
    then some []
    else elim (split_once line) [
      | none ↦ none
      | some user ↦ elim rest [ none ↦ none | some users ↦ some (user ∷ users) ]
    ]

-- `str::contains`
unfoldable pub has_part : Bytes → Bytes → Bool
unfolding starts_with
has_part part [] = starts_with part []
has_part part (c ∷ cs) = starts_with part (c ∷ cs) || has_part part cs

-- The loop of a user, over how its runs end: an error by its text, or nothing. It ends where an error
-- tells of a permanent ban; the result is how many runs there were.
unfoldable pub bot_loop : List (Option Bytes) → ℕ
unfolding has_part
bot_loop [] = 0
bot_loop (none ∷ runs) = suc (bot_loop runs)
bot_loop (some error ∷ runs) =
    if has_part (codes "BanPermanent") error then 1 else suc (bot_loop runs)
