-- ===== src/CrystalBot/Shooter/Nearest.antt =====
-- Which tank the bot of applications/crystal-bot/src/main.rs shoots at.
use mathlib.Core.List.{Mem, mem-cons_self, mem-cons_of_mem}
use protanki_protocol_rs.Common.{
  ◌≡◌, refl, arith, Bool, true, false, ◌&&◌, Option, none, some, List, [], ◌∷◌, All, Bool-cases,
  inl, inr, ◌⊎◌,
}
use protanki_protocol_rs.Common.TextDict.{TextDict}
use protanki_protocol_rs.Protocol.Codec.Primitives.{Vector3}
use protanki_protocol_rs.Common.Bytes.{bytes_eq, bytes_eq→eq, bytes_eq_refl}
use protanki_protocol_rs.Protocol.Codec.Enums.Battle.{BattleTeam}
use protanki_protocol_rs.CrystalBot.Tanks.{TankState, active, BattleTank}
use protanki_protocol_rs.CrystalBot.Shooter.{
  is_active, same_team, is_target, values, best_of, best_target,
}

and_true : (a b : Bool) → (a && b) ≡ true → (a ≡ true) × (b ≡ true)
and_true true b h = (refl, h)
and_true false b h = cc h

other : {a b : Bool} → a ≡ true → (a && b) ≡ false → b ≡ false
other {a = true} k h = h
other {a = false} k h = cc k

-- What the bot may shoot at: an active tank that is not its own, and that has no team or another one.
abbrev pub IsTarget : BattleTank → BattleTank → Type 0
IsTarget own tank =
    (¬ (tank.tank_id ≡ own.tank_id))
    × (tank.state ≡ active)
    × ((tank.team ≡ BattleTeam.none) ⊎ (¬ (tank.team ≡ own.team)))

same_team-true : (a b : BattleTeam) → same_team a b ≡ true → (¬ (a ≡ BattleTeam.none)) × (a ≡ b)
unfolding same_team
same_team-true a b h = ((λ e. cc (rw e at h)), ground arith)

same_team-false : (a b : BattleTeam) → same_team a b ≡ false → (a ≡ BattleTeam.none) ⊎ (¬ (a ≡ b))
unfolding same_team
same_team-false BattleTeam.none b h = inl refl
same_team-false BattleTeam.red b h = inr (λ e. cc (rw (← e) at h))
same_team-false BattleTeam.blue b h = inr (λ e. cc (rw (← e) at h))
same_team-false BattleTeam.unknown b h = inr (λ e. cc (rw (← e) at h))

is_active-true : (s : TankState) → is_active s ≡ true → s ≡ active
unfolding is_active
is_active-true s h = ground arith

is_target-IsTarget : (own tank : BattleTank) → is_target own tank ≡ true → IsTarget own tank
unfolding is_target
is_target-IsTarget own tank h = elim (Bool-cases (bytes_eq tank.tank_id own.tank_id)) [
  | inl i ↦ cc (rw (i, is_target) at h)
  | inr i ↦ elim (Bool-cases (is_active tank.state)) [
    | inr a ↦ cc (rw (i, a, is_target) at h)
    | inl a ↦ elim (Bool-cases (same_team tank.team own.team)) [
      | inl t ↦ cc (rw (i, a, t, is_target) at h)
      | inr t ↦ (
        λ e. cc (rw e at i, bytes_eq_refl own.tank_id),
        is_active-true tank.state a,
        same_team-false tank.team own.team t,
      )
    ]
  ]
]

IsTarget-is_target : (own tank : BattleTank) → IsTarget own tank → is_target own tank ≡ true
unfolding is_target
IsTarget-is_target own tank (n, a, t) = elim (Bool-cases (bytes_eq tank.tank_id own.tank_id)) [
  | inl i ↦ elim (n (bytes_eq→eq tank.tank_id own.tank_id i)) [ ]
  | inr i ↦ elim (Bool-cases (same_team tank.team own.team)) [
    | inr u ↦ rw (i, a, u, is_active) refl
    | inl u ↦
        let (m, e) = same_team-true tank.team own.team u in
        elim t [ inl x ↦ elim (m x) [ ] | inr x ↦ elim (x e) [ ] ]
  ]
]

-- A target of the list.
abbrev pub IsFound : BattleTank → BattleTank → List BattleTank → Type 0
IsFound own best tanks = Mem best tanks × IsTarget own best

module _ {D : Type 0} (distance : Vector3 → Vector3 → D) (lt : D → D → Bool) where
  -- No target of a list is nearer than a distance.
  abbrev pub NoneNearer : BattleTank → D → List BattleTank → Type 0
  NoneNearer own d tanks =
      All (λ tank. IsTarget own tank → lt (distance tank.position own.position) d ≡ false) tanks

  -- From a best tank so far at a distance, either it stays and no target is nearer, or one of the list
  -- is nearer, and no target is nearer than it.
  abbrev pub IsNearest :
      BattleTank → List BattleTank → Option BattleTank → D → Option BattleTank → Type 0
  IsNearest own tanks best d r =
      ((r ≡ best) × NoneNearer own d tanks)
      ⊎ ((t : BattleTank) × (r ≡ some t)
          × IsFound own t tanks
          × (lt (distance t.position own.position) d ≡ true)
          × NoneNearer own (distance t.position own.position) tanks)

module _ {D : Type 0} (distance : Vector3 → Vector3 → D) (lt : D → D → Bool) (farthest : D)
    (irreflexive : (a : D) → lt a a ≡ false)
    (transitive : (a b c : D) → lt a b ≡ true → lt b c ≡ true → lt a c ≡ true) where
  asymmetric : {a b : D} → lt a b ≡ true → lt b a ≡ false
  asymmetric {a = a} {b = b} h = elim (Bool-cases (lt b a)) [
    | inl l ↦ cc (transitive a b a h l, irreflexive a)
    | inr l ↦ l
  ]

  keeps : {a b d : D} → lt a d ≡ false → lt b d ≡ true → lt a b ≡ false
  keeps {a = a} {b = b} {d = d} h h' = elim (Bool-cases (lt a b)) [
    | inl l ↦ cc (transitive a b d l h', h)
    | inr l ↦ l
  ]

  -- A nearer target becomes the best one.
  outcome_nearer :
      (own t : BattleTank) (tanks : List BattleTank) (best : Option BattleTank) (d : D)
      → (r : Option BattleTank) → is_target own t ≡ true
      → lt (distance t.position own.position) d ≡ true
      → IsNearest distance lt own tanks (some t) (distance t.position own.position) r
      → IsNearest distance lt own (t ∷ tanks) best d r
  outcome_nearer own t tanks best d r k l (inl (e, n)) = inr (
    t,
    e,
    (mem-cons_self, is_target-IsTarget own t k),
    l,
    ((λ _. irreflexive (distance t.position own.position)), n),
  )
  outcome_nearer own t tanks best d r k l (inr (x, e, (m, k'), l', n)) = inr (
    x,
    e,
    (mem-cons_of_mem t m, k'),
    transitive (distance x.position own.position) (distance t.position own.position) d l' l,
    ((λ _. asymmetric l'), n),
  )

  -- Another tank changes nothing.
  outcome_other :
      (own t : BattleTank) (tanks : List BattleTank) (best : Option BattleTank) (d : D)
      → (r : Option BattleTank)
      → (is_target own t && lt (distance t.position own.position) d) ≡ false
      → IsNearest distance lt own tanks best d r
      → IsNearest distance lt own (t ∷ tanks) best d r
  outcome_other own t tanks best d r h (inl (e, n)) =
      inl (e, ((λ k. other (IsTarget-is_target own t k) h), n))
  outcome_other own t tanks best d r h (inr (x, e, (m, k'), l', n)) = inr (
    x,
    e,
    (mem-cons_of_mem t m, k'),
    l',
    ((λ k. keeps (other (IsTarget-is_target own t k) h) l'), n),
  )

  best_of_lem :
      (own : BattleTank) (tanks : List BattleTank) (best : Option BattleTank) (d : D)
      → IsNearest distance lt own tanks best d (best_of distance lt farthest own tanks best d)
  unfolding best_of
  best_of_lem own [] best d = inl (refl, tt)
  best_of_lem own (t ∷ tanks) best d =
      elim (Bool-cases (is_target own t && lt (distance t.position own.position) d)) [
        | inl h ↦ rw h (
            outcome_nearer own t tanks best d _ (and_true (is_target own t) _ h).0
              (and_true (is_target own t) _ h).1
              (best_of_lem own tanks (some t) (distance t.position own.position)))
        | inr h ↦ rw h (outcome_other own t tanks best d _ h (best_of_lem own tanks best d))
      ]

  -- With an order of the distances that is irreflexive and transitive: where the bot finds a tank to shoot
  -- at, it is one of the tanks, an active one that is neither its own nor in its team, and nearer than the
  -- largest distance, and no such tank is nearer than it; where it finds none, no such tank is nearer than
  -- the largest distance.
  pub best_target-IsNearest :
      (own : BattleTank) (tanks : TextDict BattleTank)
      → IsNearest distance lt own
          (values tanks)
          none
          farthest
          (best_target distance lt farthest own tanks)
  unfolding best_target
  best_target-IsNearest own tanks = best_of_lem own (values tanks) none farthest
