-- ===== src/Server/Rank.antt =====
-- server/src/rank.rs: the table of ranks, and the rank that a score earns.
pub mod Highest
use protanki_protocol_rs.Common.{
  ℕ, zero, suc, ◌+◌, ◌%◌, Bool, ◌==◌, ltb, if◌then◌else◌, Option, none, some, List, [], ◌∷◌,
}

pub data Rank : Type 0 where
  recruit private gefreiter corporal master_corporal : Rank
  sergeant staff_sergeant master_sergeant first_sergeant sergeant_major : Rank
  warrant_officer_1 warrant_officer_2 warrant_officer_3 warrant_officer_4 warrant_officer_5 : Rank
  third_lieutenant second_lieutenant first_lieutenant captain major : Rank
  lieutenant_colonel colonel brigadier major_general lieutenant_general : Rank
  general marshal field_marshal commander generalissimo : Rank

unfoldable pub bonus : Rank → ℕ
bonus recruit = 0
bonus private = 10
bonus gefreiter = 40
bonus corporal = 120
bonus master_corporal = 230
bonus sergeant = 420
bonus staff_sergeant = 740
bonus master_sergeant = 950
bonus first_sergeant = 1400
bonus sergeant_major = 2000
bonus warrant_officer_1 = 2500
bonus warrant_officer_2 = 3100
bonus warrant_officer_3 = 3900
bonus warrant_officer_4 = 4600
bonus warrant_officer_5 = 5600
bonus third_lieutenant = 6600
bonus second_lieutenant = 7900
bonus first_lieutenant = 8900
bonus captain = 10000
bonus major = 12000
bonus lieutenant_colonel = 14000
bonus colonel = 16000
bonus brigadier = 17000
bonus major_general = 20000
bonus lieutenant_general = 22000
bonus general = 24000
bonus marshal = 28000
bonus field_marshal = 31000
bonus commander = 34000
bonus generalissimo = 37000

unfoldable pub score : Rank → ℕ
score recruit = 0
score private = 100
score gefreiter = 500
score corporal = 1500
score master_corporal = 3700
score sergeant = 7100
score staff_sergeant = 12300
score master_sergeant = 20000
score first_sergeant = 29000
score sergeant_major = 41000
score warrant_officer_1 = 57000
score warrant_officer_2 = 76000
score warrant_officer_3 = 98000
score warrant_officer_4 = 125000
score warrant_officer_5 = 156000
score third_lieutenant = 192000
score second_lieutenant = 233000
score first_lieutenant = 280000
score captain = 332000
score major = 390000
score lieutenant_colonel = 455000
score colonel = 527000
score brigadier = 606000
score major_general = 692000
score lieutenant_general = 787000
score general = 889000
score marshal = 1000000
score field_marshal = 1122000
score commander = 1255000
score generalissimo = 1400000

unfoldable pub value : Rank → ℕ
value recruit = 1
value private = 2
value gefreiter = 3
value corporal = 4
value master_corporal = 5
value sergeant = 6
value staff_sergeant = 7
value master_sergeant = 8
value first_sergeant = 9
value sergeant_major = 10
value warrant_officer_1 = 11
value warrant_officer_2 = 12
value warrant_officer_3 = 13
value warrant_officer_4 = 14
value warrant_officer_5 = 15
value third_lieutenant = 16
value second_lieutenant = 17
value first_lieutenant = 18
value captain = 19
value major = 20
value lieutenant_colonel = 21
value colonel = 22
value brigadier = 23
value major_general = 24
value lieutenant_general = 25
value general = 26
value marshal = 27
value field_marshal = 28
value commander = 29
value generalissimo = 30

unfoldable pub values : List Rank
values =
    recruit ∷ private ∷ gefreiter ∷ corporal ∷ master_corporal ∷ sergeant ∷ staff_sergeant
    ∷ master_sergeant ∷ first_sergeant ∷ sergeant_major ∷ warrant_officer_1 ∷ warrant_officer_2
    ∷ warrant_officer_3 ∷ warrant_officer_4 ∷ warrant_officer_5 ∷ third_lieutenant
    ∷ second_lieutenant ∷ first_lieutenant ∷ captain ∷ major ∷ lieutenant_colonel ∷ colonel
    ∷ brigadier ∷ major_general ∷ lieutenant_general ∷ general ∷ marshal ∷ field_marshal ∷ commander
    ∷ generalissimo ∷ []

unfoldable pub from_value : ℕ → Option Rank
from_value v =
    if v == 1
    then some recruit
    else if v == 2
    then some private
    else if v == 3
    then some gefreiter
    else if v == 4
    then some corporal
    else if v == 5
    then some master_corporal
    else if v == 6
    then some sergeant
    else if v == 7
    then some staff_sergeant
    else if v == 8
    then some master_sergeant
    else if v == 9
    then some first_sergeant
    else if v == 10
    then some sergeant_major
    else if v == 11
    then some warrant_officer_1
    else if v == 12
    then some warrant_officer_2
    else if v == 13
    then some warrant_officer_3
    else if v == 14
    then some warrant_officer_4
    else if v == 15
    then some warrant_officer_5
    else if v == 16
    then some third_lieutenant
    else if v == 17
    then some second_lieutenant
    else if v == 18
    then some first_lieutenant
    else if v == 19
    then some captain
    else if v == 20
    then some major
    else if v == 21
    then some lieutenant_colonel
    else if v == 22
    then some colonel
    else if v == 23
    then some brigadier
    else if v == 24
    then some major_general
    else if v == 25
    then some lieutenant_general
    else if v == 26
    then some general
    else if v == 27
    then some marshal
    else if v == 28
    then some field_marshal
    else if v == 29
    then some commander
    else if v == 30
    then some generalissimo
    else none

-- `value + 1` of a `u8`.
unfoldable pub next_rank : Rank → Option Rank
unfolding value from_value
next_rank r = from_value ((value r + 1) % 256)

-- The loop of `from_score`; `none` is a loop that ran out of fuel.
unfoldable pub from_score_loop : ℕ → ℕ → Rank → Option Rank
from_score_loop zero points current = none
from_score_loop (suc fuel) points current = elim (next_rank current) [
  | none ↦ some current
  | some next ↦
      let rest = from_score_loop fuel points next in
      if ltb points (score next) then some current else rest
]

-- There are thirty ranks, so thirty rounds are enough.
unfoldable pub from_score : ℕ → Option Rank
unfolding from_score_loop next_rank score
from_score points = from_score_loop 30 points recruit
