-- ===== src/Server/Captcha/Solving.antt =====
-- When a captcha of server/src/client_components/captcha.rs counts as solved.
use protanki_protocol_rs.Common.{
  ◌≡◌, ◌⊎◌, inl, inr, refl, arith, true, false, some, Option-cases, ◌==◌, if◌then◌else◌,
}
use protanki_protocol_rs.Common.Bytes.{Bytes, bytes_eq→eq}
use protanki_protocol_rs.Common.Dict.{lookup-insert}
use protanki_protocol_rs.Protocol.Codec.Enums.Lobby.{CaptchaLocation}
use protanki_protocol_rs.Server.Captcha.{
  SolveState, invalid, pending, solved, location_key, CaptchaProvider, CaptchaRequest,
  request_location, validate_captcha, other_packet, captcha_code, state_at, set_state,
  invalidate_for, solved_for, send_new_captcha, validate, on_packet,
}

state_at-set_state :
    (p : CaptchaProvider) (m l : CaptchaLocation) (s : SolveState)
    → state_at (set_state p m s) l
      ≡ (if location_key m == location_key l then some s else state_at p l)
unfolding state_at set_state
state_at-set_state p m l s = lookup-insert (location_key m) (location_key l) s p.solve_states

-- If a place has a captcha and the check passes there, the next check of the same place fails, and the
-- captcha is there still, not solved.
pub solved_for_once :
    (p : CaptchaProvider) (l : CaptchaLocation) (s : SolveState)
    → state_at p l ≡ some s
    → (solved_for p l).1 ≡ true
    → ((solved_for (solved_for p l).0 l).1 ≡ false) × (state_at (solved_for p l).0 l ≡ some invalid)
unfolding solved_for invalidate_for
solved_for_once p l s e h = ground (arith, e, h, state_at-set_state p l l invalid)

-- What a validation does, by the state at its place.
validated_state :
    (image : Bytes) (p : CaptchaProvider) (m l : CaptchaLocation) (code : Bytes)
    → state_at (validate image p m code).0 l ≡ some solved
    → (state_at p l ≡ some solved)
      ⊎ ((location_key m ≡ location_key l) × (state_at p m ≡ some (pending code)))
unfolding validate send_new_captcha
validated_state image p m l code e = elim (Option-cases (state_at p m)) [
  | inl h ↦ inl (ground (arith, h, e))
  | inr (invalid, h) ↦ inl (ground (arith, h, e, state_at-set_state p m l (pending captcha_code)))
  | inr (solved, h) ↦ inl (ground (arith, h, e))
  | inr (pending x, h) ↦ ground (
    arith,
    h,
    e,
    bytes_eq→eq x code,
    state_at-set_state p m l (pending captcha_code),
    state_at-set_state p m l solved,
  )
]

-- Only the code that was pending at a place makes its captcha solved: if it is solved after a packet,
-- it was so before, or the packet was a validation at a place of the same key with that code.
pub solved_by_code :
    (image : Bytes) (p : CaptchaProvider) (q : CaptchaRequest) (l : CaptchaLocation)
    → state_at (on_packet image p q).0 l ≡ some solved
    → (state_at p l ≡ some solved)
      ⊎ ((m : CaptchaLocation) × (code : Bytes) × (q ≡ validate_captcha m code)
          × (location_key m ≡ location_key l)
          × (state_at p m ≡ some (pending code)))
unfolding on_packet send_new_captcha validate
solved_by_code image p (request_location m) l e =
    inl (ground (arith, e, state_at-set_state p m l (pending captcha_code)))
solved_by_code image p other_packet l e = inl e
solved_by_code image p (validate_captcha m code) l e = elim (validated_state image p m l code e) [
  | inl h ↦ inl h
  | inr (k, h) ↦ inr (m, code, refl, k, h)
]
