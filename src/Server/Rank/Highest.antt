-- ===== src/Server/Rank/Highest.antt =====
-- `Rank::from_score` of server/src/rank.rs answers the highest rank that the score reaches.
use protanki_protocol_rs.Common.{
  ℕ, zero, suc, ◌+◌, ◌%◌, ◌≤◌, ◌<◌, ◌≡◌, ◌≢◌, refl, arith, Bool, true, leb, ltb, if◌then◌else◌,
  none, some, Option-cases, Bool-cases, inl, inr,
}
use native.Mathlib.Decide.{dec_lt}
use protanki_protocol_rs.Common.Bytes.{all_below, all_below_sound}
use protanki_protocol_rs.Server.Rank.{
  Rank, recruit, value, score, from_value, next_rank, from_score_loop, from_score,
}

-- The value names the rank.
pub from_value-value : (r : Rank) → from_value (value r) ≡ some r
unfolding value from_value
from_value-value Rank.recruit = refl
from_value-value _ = refl

pub value-from_value : (v : ℕ) (r : Rank) → from_value v ≡ some r → value r ≡ v
unfolding value from_value
value-from_value v r e = ground arith

value_range : (r : Rank) → (1 ≤ value r) × (value r ≤ 30)
unfolding value
value_range Rank.recruit = omega arith
value_range _ = omega arith

-- What the table says at a value.
abbrev score_at : ℕ → ℕ
score_at v = elim (from_value v) [ none ↦ 0 | some r ↦ score r ]

abbrev rising_row : ℕ → Bool
rising_row i = all_below 31 λ j. if leb i j then leb (score_at i) (score_at j) else true

rising_table : all_below 31 rising_row ≡ true
unfolding all_below from_value score
rising_table = refl

-- A higher rank takes at least as many points.
pub score_mono : (a b : Rank) → value a ≤ value b → score a ≤ score b
score_mono a b h = ground (
  arith,
  value_range a,
  value_range b,
  from_value-value a,
  from_value-value b,
  all_below_sound 31 _ (value b)
      (all_below_sound 31 rising_row (value a) rising_table (omega (arith, value_range a)))
      (omega (arith, value_range b)),
)

next_rank-value : (a b : Rank) → next_rank a ≡ some b → value b ≡ value a + 1
unfolding next_rank
next_rank-value a b e = omega (arith, value_range a, value-from_value ((value a + 1) % 256) b e)

from_value-total : (v : ℕ) → 1 ≤ v → v ≤ 30 → from_value v ≢ none
unfolding from_value
from_value-total v h k e = ground arith

last_rank : (a : Rank) → next_rank a ≡ none → value a ≡ 30
unfolding next_rank
last_rank a e = elim (dec_lt (value a) 30) [
  | yes h ↦ absurd (from_value-total ((value a + 1) % 256) (omega arith) (omega arith) e)
  | no h ↦ omega (arith, value_range a)
]

-- The rank is reached, and no higher one is.
abbrev pub IsHighest : ℕ → Rank → Type 0
IsHighest points r = (score r ≤ points) × ((q : Rank) → score q ≤ points → value q ≤ value r)

stops_below :
    (points : ℕ) (a b q : Rank)
    → next_rank a ≡ some b
    → points < score b
    → score q ≤ points
    → value q ≤ value a
stops_below points a b q e h k = elim (dec_lt (value a) (value q)) [
  | yes l ↦ absurd (omega (arith, score_mono b q (omega (arith, next_rank-value a b e))))
  | no l ↦ omega arith
]

loop-IsHighest :
    (fuel points : ℕ) (a : Rank)
    → 31 ≤ fuel + value a
    → score a ≤ points
    → (r : Rank) × (from_score_loop fuel points a ≡ some r) × IsHighest points r
unfolding from_score_loop
loop-IsHighest zero points a f h = absurd (omega (arith, value_range a))
loop-IsHighest (suc fuel) points a f h = elim (Option-cases (next_rank a)) [
  | inl e ↦ (a, ground (arith, e), (h, λ q k. omega (arith, last_rank a e, value_range q)))
  | inr (b, e) ↦ elim (Bool-cases (ltb points (score b))) [
    | inl l ↦ (a, ground (arith, e, l), (h, λ q k. stops_below points a b q e (ground arith) k))
    | inr l ↦
        let (r, p, s) =
          loop-IsHighest fuel points b (omega (arith, next_rank-value a b e)) (ground arith) in
        (r, ground (arith, e, l, p), s)
  ]
]

-- On every score the loop ends within its fuel, and answers the highest rank that the score reaches.
pub from_score-IsHighest :
    (points : ℕ) → (r : Rank) × (from_score points ≡ some r) × IsHighest points r
unfolding from_score
from_score-IsHighest points =
    loop-IsHighest 30 points recruit (unfold value in omega arith) (unfold score in omega arith)
