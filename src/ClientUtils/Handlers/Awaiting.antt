-- ===== src/ClientUtils/Handlers/Awaiting.antt =====
-- client-utils/src/handler.rs: the handlers that end with a result, which goes to a oneshot channel. `sent`
-- is what was put on it, and whether its receiver is still there is an argument.
use protanki_protocol_rs.Common.{
  ◌≡◌, refl, ap, Bool, true, false, Option, none, some, List, [], ◌∷◌, if◌then◌else◌, Option-cases,
  inl, inr,
}
use protanki_protocol_rs.ClientUtils.Handlers.{HandlerPoll, finished, failed, waiting}

pub record HandlerAwaitMatching (R : Type 0) : Type 0 where
  pub sender : Bool
  pub sent : Option R

pub data TaskError : Type 0 where
  emit_failed sender_missing : TaskError

pub record TaskHandler (T R : Type 0) : Type 0 where
  pub task : T
  pub tx : Bool
  pub result : Option R

module _ {R : Type 0} where
  -- As it is registered by `await_match`.
  unfoldable pub new_matching : HandlerAwaitMatching R
  new_matching = record { sender = true; sent = none }

  -- The flag is whether the receiver is gone.
  unfoldable pub poll_matching : HandlerAwaitMatching R → Bool → HandlerPoll TaskError
  poll_matching h is_closed = if h.sender then if is_closed then finished else waiting else finished

  abbrev pub poll_of : Option R → HandlerPoll TaskError
  poll_of none = waiting
  poll_of (some r) = finished

module _ {P R : Type 0} where
  unfoldable pub handle_matching :
      (P → Option R) → HandlerAwaitMatching R → P → HandlerAwaitMatching R
  handle_matching matcher h p = elim (matcher p) [
    | none ↦ h
    | some r ↦ if h.sender then record { sender = false; sent = some r } else h
  ]

  unfoldable pub handle_matching_all :
      (P → Option R) → HandlerAwaitMatching R → List P → HandlerAwaitMatching R
  unfolding handle_matching
  handle_matching_all matcher h [] = h
  handle_matching_all matcher h (p ∷ ps) =
      handle_matching_all matcher (handle_matching matcher h p) ps

  -- The first result that is found in a list.
  abbrev pub first_match : (P → Option R) → List P → Option R
  first_match matcher [] = none
  first_match matcher (p ∷ ps) = elim (matcher p) [
    | some r ↦ some r
    | none ↦ first_match matcher ps
  ]

  -- Nothing is sent after the first result.
  handle_matching_sent :
      (matcher : P → Option R) (r : R) (ps : List P)
      → handle_matching_all matcher (record { sender = false; sent = some r }) ps
        ≡ record { sender = false; sent = some r }
  unfolding handle_matching_all handle_matching
  handle_matching_sent matcher r [] = refl
  handle_matching_sent matcher r (p ∷ ps) = elim (Option-cases (matcher p)) [
    | inl e ↦ rw (handle_matching_all, handle_matching, e) (handle_matching_sent matcher r ps)
    | inr (x, e) ↦ rw (handle_matching_all, handle_matching, e) (handle_matching_sent matcher r ps)
  ]

  -- Whatever packets come, the result that is sent is the one of the first packet that matches, and while
  -- the receiver is there the handler waits until then and is finished from then on.
  pub handle_matching_all-first_match :
      (matcher : P → Option R) (ps : List P)
      → let h = handle_matching_all matcher new_matching ps in
        (h.sent ≡ first_match matcher ps)
        × (poll_matching h false ≡ poll_of (first_match matcher ps))
  unfolding handle_matching_all handle_matching new_matching poll_matching
  handle_matching_all-first_match matcher [] = (refl, refl)
  handle_matching_all-first_match matcher (p ∷ ps) = elim (Option-cases (matcher p)) [
    | inl e ↦
        rw (handle_matching_all, handle_matching, first_match, e)
          (handle_matching_all-first_match matcher ps)
    | inr (r, e) ↦
        rw (handle_matching_all, handle_matching, first_match, e)
          (
            ap (λ (h : HandlerAwaitMatching R). h.sent) (handle_matching_sent matcher r ps),
            ap (λ (h : HandlerAwaitMatching R). poll_matching h false)
                (handle_matching_sent matcher r ps),
          )
  ]

module _ {T S R : Type 0} where
  -- What a poll of the task leaves, and its result, where it is ready. The last flag is whether the result
  -- can be sent.
  unfoldable pub poll_task_handler :
      (T → S → T × S × Option R)
      → TaskHandler T R
      → S
      → Bool
      → TaskHandler T R × S × HandlerPoll TaskError
  poll_task_handler poll_task h s receives =
      let polled = poll_task h.task s in
      let h' = record h { task = polled.0 } in
      elim polled.2 [
        | none ↦ (h', polled.1, waiting)
        | some r ↦
            if h.tx
            then if receives
              then (record h' { tx = false; result = some r }, polled.1, finished)
              else (record h' { tx = false }, polled.1, failed emit_failed)
            else (h', polled.1, failed sender_missing)
      ]
