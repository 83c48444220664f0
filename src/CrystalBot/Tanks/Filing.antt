-- ===== src/CrystalBot/Tanks/Filing.antt =====
-- Which tanks a packet of applications/crystal-bot/src/main.rs changes.
use protanki_protocol_rs.Common.{
  ℕ, ◌≡◌, refl, ◌∙◌, arith, Bool, false, Option, none, some, All, Option-cases, inl, inr,
}
use protanki_protocol_rs.Common.Bytes.{Bytes, bytes_eq}
use protanki_protocol_rs.Common.TextDict.{
  lookup, insert, lookup-insert_other, lookup-remove_other, insert-All, remove-All, lookup-All,
}
use protanki_protocol_rs.Protocol.Codec.Primitives.{Vector3}
use protanki_protocol_rs.Protocol.Codec.Enums.Battle.{BattleTeam}
use protanki_protocol_rs.Protocol.Codec.Structs.Tanks.{MoveCommand}
use protanki_protocol_rs.CrystalBot.Tanks.{
  BattleTank, BattleTanks, BattleUserInit, TankError, TankPacket, battle_user_init, tank_spawn,
  tank_health, tank_activated, tank_kill, tank_destroy, tank_move_control_flags,
  tank_move_turret_command, tank_move_command, tank_spawn_location, tank_turret_command,
  other_packet, with_tank, insert_user_tank, spawn_tank, locate_tank, locate_local,
  update_from_move_command, update_from_turret_command, team_of, state_of, handle_packet, new_tank,
}

-- Every tank is filed under its own id.
abbrev pub IsFiled : BattleTanks → Type 0
IsFiled ts = All (λ e. e.1.tank_id ≡ e.0) ts.tanks

-- The tanks that the test leaves out stay as they are, the others are filed, and the bot's own id stays.
pub record Updates (about : Bytes → Bool) (ts us : BattleTanks) : Type 0 where
  pub filed : IsFiled ts → IsFiled us
  pub others : (id : Bytes) → about id ≡ false → lookup id us.tanks ≡ lookup id ts.tanks
  pub same_local : us.local_tank_id ≡ ts.local_tank_id

Updates-refl : (about : Bytes → Bool) (ts : BattleTanks) → Updates about ts ts
Updates-refl about ts = record { filed = λ f. f; others = λ id h. refl; same_local = refl }

Updates-insert :
    (ts : BattleTanks) (id : Bytes) (tank : BattleTank)
    → (IsFiled ts → tank.tank_id ≡ id)
    → Updates (bytes_eq id) ts (record ts { tanks = insert id tank ts.tanks })
Updates-insert ts id tank e = record {
  filed = λ f. insert-All (λ e. e.1.tank_id ≡ e.0) id tank ts.tanks f (e f);
  others = λ asked h. lookup-insert_other id asked tank ts.tanks h;
  same_local = refl;
}

with_tank-Updates :
    (ts : BattleTanks) (id : Bytes) (update : BattleTank → BattleTank × Option TankError)
    → ((tank : BattleTank) → (update tank).0.tank_id ≡ tank.tank_id)
    → Updates (bytes_eq id) ts (with_tank ts id update).0
unfolding with_tank
with_tank-Updates ts id update keeps = elim (Option-cases (lookup id ts.tanks)) [
  | inl e ↦ rw (e, with_tank) (Updates-refl (bytes_eq id) ts)
  | inr (tank, e) ↦
      rw (e, with_tank)
        (Updates-insert ts id (update tank).0
          λ f. keeps tank ∙ lookup-All (λ e. e.1.tank_id ≡ e.0) id ts.tanks tank f e)
]

move_command_id :
    (tank : BattleTank) (command : MoveCommand)
    → (update_from_move_command tank command).0.tank_id ≡ tank.tank_id
unfolding update_from_move_command
move_command_id tank command = ground arith

locate_id :
    (position orientation : Option Vector3) (tank : BattleTank)
    → (locate_tank position orientation tank).0.tank_id ≡ tank.tank_id
unfolding locate_tank
locate_id position orientation tank = ground arith

locate_local-Updates :
    (ts : BattleTanks) (position orientation : Option Vector3)
    → Updates (bytes_eq ts.local_tank_id) ts (locate_local ts position orientation).0
unfolding locate_local
locate_local-Updates ts position orientation =
    elim (Option-cases (lookup ts.local_tank_id ts.tanks)) [
      | inl e ↦ rw (e, locate_local) (Updates-refl (bytes_eq ts.local_tank_id) ts)
      | inr (tank, e) ↦
          rw (e, locate_local)
            (Updates-insert ts ts.local_tank_id (locate_tank position orientation tank).0 λ f.
              locate_id position orientation tank
              ∙ lookup-All (λ e. e.1.tank_id ≡ e.0) ts.local_tank_id ts.tanks tank f e)
    ]

insert_user_tank-Updates :
    (ts : BattleTanks) (payload : BattleUserInit)
    → Updates (bytes_eq payload.tank_id) ts (insert_user_tank ts payload).0
unfolding insert_user_tank new_tank
insert_user_tank-Updates ts payload = elim (Option-cases (team_of payload.team_type)) [
  | inl e ↦ rw (e, insert_user_tank) (Updates-refl _ ts)
  | inr (team, e) ↦ elim (Option-cases (state_of payload.state)) [
    | inl f ↦ rw (e, f, insert_user_tank) (Updates-refl _ ts)
    | inr (state, f) ↦ rw (e, f, insert_user_tank) (Updates-insert ts payload.tank_id _ λ g. refl)
  ]
]

spawn_tank-Updates :
    (ts : BattleTanks) (tank_id : Bytes) (team : BattleTeam) (health incarnation_id : ℕ)
    (position orientation : Option Vector3)
    → Updates
        (bytes_eq tank_id)
        ts
        (spawn_tank ts tank_id team health incarnation_id position orientation).0
unfolding spawn_tank new_tank
spawn_tank-Updates ts tank_id team health incarnation_id none orientation = Updates-refl _ ts
spawn_tank-Updates ts tank_id team health incarnation_id (some p) none = Updates-refl _ ts
spawn_tank-Updates ts tank_id team health incarnation_id (some p) (some o) =
    Updates-insert ts tank_id _ λ g. refl

module _ (to_f32 : ℕ → ℕ) (read_json : Bytes → Option BattleUserInit) where
  -- Whether a packet is about the tank of an id, where the bot's own tank is `local`.
  unfoldable pub is_about : Bytes → TankPacket → Bytes → Bool
  unfolding bytes_eq
  is_about own (battle_user_init json) id = elim (read_json json) [
    | none ↦ false
    | some payload ↦ bytes_eq payload.tank_id id
  ]
  is_about own (tank_spawn tank_id team health incarnation_id position orientation) id =
      bytes_eq tank_id id
  is_about own (tank_health tank_id health) id = bytes_eq tank_id id
  is_about own (tank_activated tank_id) id = bytes_eq tank_id id
  is_about own (tank_kill tank_id) id = bytes_eq tank_id id
  is_about own (tank_destroy tank_id) id = bytes_eq tank_id id
  is_about own (tank_move_control_flags tank_id control) id = bytes_eq tank_id id
  is_about own (tank_move_turret_command tank_id command turret_direction) id = bytes_eq tank_id id
  is_about own (tank_move_command tank_id command) id = bytes_eq tank_id id
  is_about own (tank_spawn_location position orientation) id = bytes_eq own id
  is_about own (tank_turret_command tank_id command) id = bytes_eq tank_id id
  is_about own other_packet id = false

  -- Whatever packet comes, and also where it is refused: the tanks stay filed under their own ids, the
  -- tanks that the packet is not about stay as they were, and so does the bot's own id.
  pub handle_packet-Updates :
      (ts : BattleTanks) (p : TankPacket)
      → Updates (is_about ts.local_tank_id p) ts (handle_packet to_f32 read_json ts p).0
  unfolding handle_packet is_about update_from_turret_command
  handle_packet-Updates ts (battle_user_init json) = elim (Option-cases (read_json json)) [
    | inl e ↦ rw (e, handle_packet, is_about) (Updates-refl _ ts)
    | inr (payload, e) ↦ rw (e, handle_packet, is_about) (insert_user_tank-Updates ts payload)
  ]
  handle_packet-Updates ts (tank_spawn tank_id team health incarnation_id position orientation) =
      spawn_tank-Updates ts tank_id team (to_f32 health) incarnation_id position orientation
  handle_packet-Updates ts (tank_health id health) = with_tank-Updates ts id _ λ tank. refl
  handle_packet-Updates ts (tank_activated id) = with_tank-Updates ts id _ λ tank. refl
  handle_packet-Updates ts (tank_kill id) = with_tank-Updates ts id _ λ tank. refl
  handle_packet-Updates ts (tank_destroy id) = record {
    filed = λ f. remove-All (λ e. e.1.tank_id ≡ e.0) id ts.tanks f;
    others = λ asked h. lookup-remove_other id asked ts.tanks h;
    same_local = refl;
  }
  handle_packet-Updates ts (tank_move_control_flags id control) =
      with_tank-Updates ts id _ λ tank. refl
  handle_packet-Updates ts (tank_move_turret_command id command turret_direction) =
      with_tank-Updates ts id _ λ tank. ground arith
  handle_packet-Updates ts (tank_move_command id command) =
      with_tank-Updates ts id _ λ tank. move_command_id tank command
  handle_packet-Updates ts (tank_spawn_location position orientation) =
      locate_local-Updates ts position orientation
  handle_packet-Updates ts (tank_turret_command id command) = with_tank-Updates ts id _ λ tank. refl
  handle_packet-Updates ts other_packet = Updates-refl _ ts
