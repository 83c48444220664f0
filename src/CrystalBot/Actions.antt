-- ===== src/CrystalBot/Actions.antt =====
-- applications/crystal-bot/src/main.rs: `TaskSimpleAction`, a task that does something once and waits for
-- a packet, and the tasks of the bot that are made of it. Errors are values of `E`. Both ends of the
-- channel for the result are in the task, so a value can always be sent; `value` is what waits in it.
pub mod Result
use protanki_protocol_rs.Common.{
  ℕ, Bool, true, false, Option, none, some, List, [], ◌∷◌, ◌⊎◌, inl, inr, if◌then◌else◌,
}
use protanki_protocol_rs.Common.Bytes.{Bytes, bytes_eq}
use protanki_protocol_rs.Protocol.Codec.Enums.Lobby.{LayoutState}

pub record TaskSimpleAction (E R : Type 0) : Type 0 where
  pub executor : Bool
  pub tx : Bool
  pub value : Option (E ⊎ R)

-- The errors that the task makes itself, next to those of its two functions.
pub data ActionError (E : Type 0) : Type 0 where
  of_action : E → ActionError E
  missing_result_sender matcher_gone : ActionError E

pub data ActionPoll (E R : Type 0) : Type 0 where
  pending : ActionPoll E R
  failed : ActionError E → ActionPoll E R
  finished : R → ActionPoll E R

module _ {E R : Type 0} where
  unfoldable pub create : TaskSimpleAction E R
  create = record { executor = true; tx = true; value = none }

  unfoldable pub submit_result :
      TaskSimpleAction E R → E ⊎ R → TaskSimpleAction E R × Option (ActionError E)
  submit_result t result =
      if t.tx
      then (record t { tx = false; value = some result }, none)
      else (t, some missing_result_sender)

  -- What the matcher says of the packet is an argument.
  unfoldable pub handle_packet :
      TaskSimpleAction E R → E ⊎ Option R → TaskSimpleAction E R × Option (ActionError E)
  unfolding submit_result
  handle_packet t matched =
      if t.executor
      then (t, none)
      else if t.tx
      then elim matched [
        | inl e ↦ submit_result t (inl e)
        | inr o ↦ elim o [ none ↦ (t, none) | some r ↦ submit_result t (inr r) ]
      ]
      else (t, none)

  -- The poll of the channel. It fails where the sender is gone and no value waits.
  unfoldable pub poll_value : TaskSimpleAction E R → TaskSimpleAction E R × ActionPoll E R
  poll_value t = elim t.value [
    | some v ↦
        (record t { value = none }, elim v [ inl e ↦ failed (of_action e) | inr r ↦ finished r ])
    | none ↦ (t, if t.tx then pending else failed matcher_gone)
  ]

  -- The executor's function is called on the session.
  unfoldable pub poll :
      {S : Type 0}
      → (S → S × Option E)
      → TaskSimpleAction E R
      → S
      → TaskSimpleAction E R × S × ActionPoll E R
  unfolding poll_value
  poll execute t s =
      if t.executor
      then (let executed = execute s in
          let t' = record t { executor = false } in
          elim executed.1 [
            | some e ↦ (t', executed.0, failed (of_action e))
            | none ↦ let polled = poll_value t' in (polled.0, executed.0, polled.1)
          ])
      else (let polled = poll_value t in (polled.0, s, polled.1))

pub data LoginResult : Type 0 where
  success failure : LoginResult
  ban_temporary ban_permanent : Bytes → LoginResult

-- The packets that the matchers look at, with the fields that they read.
pub data BotPacket : Type 0 where
  account_login_failure account_login_success : BotPacket
  ban_permanent_packet ban_temporary_packet : (reason_for_user : Bytes) → BotPacket
  lobby_layout_switch_start : LayoutState → BotPacket
  battle_list_battle_select link_result_dead : (battle : Bytes) → BotPacket
  other_packet : BotPacket

unfoldable pub match_login : BotPacket → Option LoginResult
match_login account_login_failure = some failure
match_login account_login_success = some success
match_login (ban_permanent_packet reason) = some (ban_permanent reason)
match_login (ban_temporary_packet reason) = some (ban_temporary reason)
match_login (lobby_layout_switch_start state) = none
match_login (battle_list_battle_select battle) = none
match_login (link_result_dead battle) = none
match_login other_packet = none

unfoldable pub is_battle : LayoutState → Bool
is_battle LayoutState.battle = true
is_battle _ = false

unfoldable pub match_join : BotPacket → Option (Unit {0})
unfolding is_battle
match_join (lobby_layout_switch_start state) = if is_battle state then some tt else none
match_join _ = none

unfoldable pub match_select : Bytes → BotPacket → Option Bool
unfolding bytes_eq
match_select battle_id (battle_list_battle_select item) =
    if bytes_eq item battle_id then some true else none
match_select battle_id (link_result_dead battle) =
    if bytes_eq battle battle_id then some false else none
match_select battle_id _ = none
