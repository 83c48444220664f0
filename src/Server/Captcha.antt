-- ===== src/Server/Captcha.antt =====
-- server/src/client_components/captcha.rs. What is sent to the client is a list of packets; the image
-- is a file included in the program, and a parameter here.
pub mod Solving
use protanki_protocol_rs.Common.{
  ℕ, zero, suc, ◌+◌, Bool, true, false, Option, none, some, List, [], ◌∷◌, map, if◌then◌else◌,
}
use protanki_protocol_rs.Common.Bytes.{Bytes, bytes_eq}
use protanki_protocol_rs.Common.Dict.{Dict, lookup, insert, contains_key}
use protanki_protocol_rs.Protocol.Codec.Enums.Lobby.{
  CaptchaLocation, captcha_location_ordinal, captcha_location_of,
}

pub data SolveState : Type 0 where
  invalid : SolveState
  pending : Bytes → SolveState
  solved : SolveState

-- The map's order is the order of the variants, `Unknown` first.
unfoldable pub location_key : CaptchaLocation → ℕ
unfolding captcha_location_ordinal
location_key location = elim (captcha_location_ordinal location) [ none ↦ 0 | some n ↦ n + 1 ]

unfoldable pub location_of : ℕ → CaptchaLocation
unfolding captcha_location_of
location_of zero = CaptchaLocation.unknown
location_of (suc n) = elim (captcha_location_of n) [
  | none ↦ CaptchaLocation.unknown
  | some location ↦ location
]

pub record CaptchaProvider : Type 0 where
  pub solve_states : Dict SolveState

-- The packets of this component, received and sent.
pub data CaptchaRequest : Type 0 where
  request_location : CaptchaLocation → CaptchaRequest
  validate_captcha : CaptchaLocation → Bytes → CaptchaRequest
  other_packet : CaptchaRequest

pub data CaptchaReply : Type 0 where
  captcha_parameters : List CaptchaLocation → CaptchaReply
  captcha_show : CaptchaLocation → Bytes → CaptchaReply
  captcha_failed : CaptchaLocation → Bytes → CaptchaReply
  captcha_validated : CaptchaLocation → CaptchaReply

unfoldable pub state_at : CaptchaProvider → CaptchaLocation → Option SolveState
unfolding lookup location_key
state_at p location = lookup (location_key location) p.solve_states

unfoldable pub set_state : CaptchaProvider → CaptchaLocation → SolveState → CaptchaProvider
unfolding insert location_key
set_state p location s = record p { solve_states = insert (location_key location) s p.solve_states }

unfoldable pub require_for : CaptchaProvider → CaptchaLocation → CaptchaProvider
unfolding set_state
require_for p location = set_state p location invalid

unfoldable pub new_provider : CaptchaProvider
unfolding require_for
new_provider =
    require_for (require_for (record { solve_states = [] }) CaptchaLocation.register_form)
      CaptchaLocation.client_startup

unfoldable pub required_for : CaptchaProvider → CaptchaLocation → Bool
unfolding contains_key location_key
required_for p location = contains_key (location_key location) p.solve_states

unfoldable pub invalidate_for : CaptchaProvider → CaptchaLocation → CaptchaProvider
unfolding state_at set_state
invalidate_for p location = elim (state_at p location) [
  | none ↦ p
  | some s ↦ set_state p location invalid
]

unfoldable pub solved_for : CaptchaProvider → CaptchaLocation → CaptchaProvider × Bool
unfolding state_at invalidate_for
solved_for p location = elim (state_at p location) [
  | none ↦ (p, true)
  | some invalid ↦ (p, false)
  | some (pending code) ↦ (p, false)
  | some solved ↦ (invalidate_for p location, true)
]

-- "WolverinDEV"
abbrev pub captcha_code : Bytes
captcha_code = 87 ∷ 111 ∷ 108 ∷ 118 ∷ 101 ∷ 114 ∷ 105 ∷ 110 ∷ 68 ∷ 69 ∷ 86 ∷ []

module _ (image : Bytes) where
  unfoldable pub send_new_captcha :
      CaptchaProvider → CaptchaLocation → Bool → CaptchaProvider × List CaptchaReply
  unfolding set_state
  send_new_captcha p location is_show = (
    set_state p location (pending captcha_code),
    (if is_show then captcha_show location image else captcha_failed location image) ∷ [],
  )

  unfoldable pub initialize : CaptchaProvider → List CaptchaReply
  unfolding location_of
  initialize p = captcha_parameters (map (λ e. location_of e.0) p.solve_states) ∷ []

  unfoldable pub validate :
      CaptchaProvider → CaptchaLocation → Bytes → CaptchaProvider × List CaptchaReply
  unfolding state_at set_state send_new_captcha bytes_eq
  validate p location code = elim (state_at p location) [
    | none ↦ (p, captcha_validated location ∷ [])
    | some invalid ↦ send_new_captcha p location false
    | some (pending expected) ↦
        if bytes_eq expected code
        then (set_state p location solved, captcha_validated location ∷ [])
        else send_new_captcha p location false
    | some solved ↦ (p, [])
  ]

  unfoldable pub on_packet : CaptchaProvider → CaptchaRequest → CaptchaProvider × List CaptchaReply
  unfolding send_new_captcha validate
  on_packet p (request_location location) = send_new_captcha p location true
  on_packet p (validate_captcha location code) = validate p location code
  on_packet p other_packet = (p, [])
