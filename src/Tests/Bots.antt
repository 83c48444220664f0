-- ===== src/Tests/Bots.antt =====
-- The programs of applications/crystal-bot and applications/register-bot at concrete inputs.
use protanki_protocol_rs.Common.{
  ℕ, zero, suc, ◌+◌, ◌-◌, ◌≡◌, refl, arith, Bool, true, false, ltb, Option, none, some, List, [],
  ◌∷◌, ◌⊎◌, inl, inr,
}
use protanki_protocol_rs.Common.Bytes.{Bytes}
use protanki_protocol_rs.Common.TextDict.{TextDict}
use protanki_protocol_rs.Protocol.Codec.Primitives.{Vector3}
use protanki_protocol_rs.Protocol.Codec.Enums.Battle.{BattleTeam}
use protanki_protocol_rs.CrystalBot.Tanks.{
  BattleTank, BattleTanks, active, zero_vector, tank_health, handle_packet,
}
use protanki_protocol_rs.CrystalBot.Tanks.Filing.{Updates, is_about, handle_packet-Updates}
use protanki_protocol_rs.CrystalBot.Spawner.{SpawnPacket, new_spawner}
use protanki_protocol_rs.CrystalBot.Spawner.Order.{
  SpawnEvent, polled, packet, IsOrdered, run, run-IsOrdered,
}
use protanki_protocol_rs.CrystalBot.Actions.{create, poll, pending, finished}
use protanki_protocol_rs.CrystalBot.Actions.Result.{handle_all, action-first_result}
use protanki_protocol_rs.CrystalBot.Shooter.{best_target, values}
use protanki_protocol_rs.CrystalBot.Shooter.Nearest.{IsNearest, best_target-IsNearest}
use protanki_protocol_rs.RegisterBot.{RegisterResult, success, worker}
use protanki_protocol_rs.RegisterBot.Lines.{IsWorked, worker-IsWorked}

abbrev own_id : Bytes
own_id = 109 ∷ []

abbrev enemy_id : Bytes
enemy_id = 101 ∷ []

abbrev tank_at : Bytes → ℕ → BattleTank
tank_at id x = record {
  tank_id = id;
  team = BattleTeam.none;
  health = 100;
  incarnation_id = 0;
  state = active;
  control = 0;
  position = record { x = x; y = 0; z = 0 };
  orientation = zero_vector;
  velocity = zero_vector;
  angular_velocity = zero_vector;
  turret_rotation = 0;
}

abbrev two_tanks : TextDict BattleTank
two_tanks = (enemy_id, tank_at enemy_id 7) ∷ (own_id, tank_at own_id 2) ∷ []

abbrev battle : BattleTanks
battle = record { local_tank_id = own_id; tanks = two_tanks }

handle_packet-Updates_example :
    Updates
      (is_about (λ n. n) (λ json. none) own_id (tank_health enemy_id 5))
      battle
      (handle_packet (λ n. n) (λ json. none) battle (tank_health enemy_id 5)).0
handle_packet-Updates_example =
    handle_packet-Updates (λ n. n) (λ json. none) battle (tank_health enemy_id 5)

-- A connection that counts what it sends.
abbrev counts : SpawnPacket → ℕ → (Unit {0}) ⊎ ℕ
counts p n = inr (n + 1)

-- A kill comes after the tank has been placed.
abbrev spawn_events : List SpawnEvent
spawn_events =
    polled (λ round. 0)
    ∷ polled (λ round. 3000)
    ∷ packet 4000 (some own_id)
    ∷ polled (λ round. 4000)
    ∷ polled (λ round. 6500)
    ∷ []

run-IsOrdered_example :
    let r = run counts spawn_events (new_spawner own_id) 0 in IsOrdered none r.0 × (r.1 ≡ false)
run-IsOrdered_example = run-IsOrdered counts spawn_events own_id 0

-- An action that counts how often it is executed, and packets that answer with numbers.
abbrev execute : ℕ → ℕ × Option (Unit {0})
execute n = (n + 1, none)

abbrev before_packets : List ((Unit {0}) ⊎ Option ℕ)
before_packets = inr (some 1) ∷ []

abbrev after_packets : List ((Unit {0}) ⊎ Option ℕ)
after_packets = inr none ∷ inr (some 2) ∷ inr (some 3) ∷ []

action-first_result_example :
    let t = handle_all create before_packets in
    let polled = poll execute t.0 0 in
    let u = handle_all polled.0 after_packets in
    (t.1 ≡ false) × (polled.2 ≡ pending) × (u.1 ≡ false) × ((poll execute u.0 1).2 ≡ finished 2)
action-first_result_example = action-first_result execute before_packets after_packets 0 1 refl

-- How far apart two tanks are on the x axis.
abbrev apart : Vector3 → Vector3 → ℕ
apart a b = (a.x - b.x) + (b.x - a.x)

ltb_irreflexive : (a : ℕ) → ltb a a ≡ false
ltb_irreflexive a = ground arith

ltb_transitive : (a b c : ℕ) → ltb a b ≡ true → ltb b c ≡ true → ltb a c ≡ true
ltb_transitive a b c h k = ground arith

best_target-IsNearest_example :
    IsNearest apart ltb
      (tank_at own_id 2)
      (values two_tanks)
      none
      1000
      (best_target apart ltb 1000 (tank_at own_id 2) two_tanks)
best_target-IsNearest_example =
    best_target-IsNearest apart ltb 1000 ltb_irreflexive ltb_transitive (tank_at own_id 2) two_tanks

shoots_enemy : best_target apart ltb 1000 (tank_at own_id 2) two_tanks ≡ some (tank_at enemy_id 7)
unfolding best_target
shoots_enemy = refl

-- A supply of proxies that ends, and a registration that fails at each other attempt.
abbrev supply : ℕ → ℕ × Option ℕ
supply zero = (0, none)
supply (suc n) = (n, some n)

abbrev every_other : ℕ → Bytes → Bool → Bool × ((Unit {0}) ⊎ RegisterResult)
every_other proxy name true = (false, inl tt)
every_other proxy name false = (true, inr success)

abbrev three_names : List Bytes
three_names = own_id ∷ enemy_id ∷ (98 ∷ []) ∷ []

worker-IsWorked_example :
    IsWorked supply every_other three_names (
      worker supply every_other 4 (record { user_names = three_names; user_name_index = 0 }) 5 true)
worker-IsWorked_example = worker-IsWorked supply every_other three_names 5 true
