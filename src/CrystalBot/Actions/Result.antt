-- ===== src/CrystalBot/Actions/Result.antt =====
-- What a `TaskSimpleAction` of applications/crystal-bot/src/main.rs returns.
use mathlib.Core.Path.{subst}
use protanki_protocol_rs.Common.{
  ◌≡◌, refl, sym, ap, Bool, true, false, Option, none, some, List, [], ◌∷◌, ◌⊎◌, inl, inr,
}
use protanki_protocol_rs.CrystalBot.Actions.{
  TaskSimpleAction, of_action, ActionPoll, pending, failed, finished, create, handle_packet,
  submit_result, poll,
}

module _ {E R : Type 0} where
  -- Packets one after another, by what the matcher says of each, and whether one was refused.
  unfoldable pub handle_all :
      TaskSimpleAction E R → List (E ⊎ Option R) → TaskSimpleAction E R × Bool
  unfolding handle_packet
  handle_all t [] = (t, false)
  handle_all t (m ∷ ms) =
      let handled = handle_packet t m in
      let rest = handle_all handled.0 ms in
      (rest.0, elim handled.1 [ none ↦ rest.1 | some e ↦ true ])

  -- The first packet that the matcher does not pass over.
  abbrev pub first_result : List (E ⊎ Option R) → ActionPoll E R
  first_result [] = pending
  first_result (inl e ∷ ms) = failed (of_action e)
  first_result (inr none ∷ ms) = first_result ms
  first_result (inr (some r) ∷ ms) = finished r

  before_poll : (ms : List (E ⊎ Option R)) → handle_all create ms ≡ (create, false)
  unfolding handle_all handle_packet create
  before_poll [] = refl
  before_poll (m ∷ ms) = before_poll ms

  abbrev delivered : E ⊎ R → TaskSimpleAction E R
  delivered v = record { executor = false; tx = false; value = some v }

  after_result :
      (v : E ⊎ R) (ms : List (E ⊎ Option R)) → handle_all (delivered v) ms ≡ (delivered v, false)
  unfolding handle_all handle_packet
  after_result v [] = refl
  after_result v (m ∷ ms) = after_result v ms

  abbrev started : TaskSimpleAction E R
  started = record { executor = false; tx = true; value = none }

module _ {E R S : Type 0} (execute : S → S × Option E) where
  waits :
      (ms : List (E ⊎ Option R)) (s : S)
      → let r = handle_all started ms in (r.1 ≡ false) × ((poll execute r.0 s).2 ≡ first_result ms)
  unfolding handle_all handle_packet submit_result poll
  waits [] s = (refl, refl)
  waits (inl e ∷ ms) s =
      let k = after_result (inl e) ms in (ap (λ r. r.1) k, ap (λ r. (poll execute r.0 s).2) k)
  waits (inr none ∷ ms) s = waits ms s
  waits (inr (some r) ∷ ms) s =
      let k = after_result (inr r) ms in (ap (λ r. r.1) k, ap (λ r. (poll execute r.0 s).2) k)

  -- What a poll gave, and what follows from it.
  abbrev Outcome : List (E ⊎ Option R) → S → TaskSimpleAction E R × S × ActionPoll E R → Type 0
  Outcome after s' polled =
      let u = handle_all polled.0 after in
      (polled.2 ≡ pending) × (u.1 ≡ false) × ((poll execute u.0 s').2 ≡ first_result after)

  poll-create :
      (s : S)
      → (execute s).1 ≡ none
      → poll execute (create {E = E} {R = R}) s ≡ (started, (execute s).0, pending)
  unfolding poll create
  poll-create s e = rw (poll, e) refl

  -- The task after its first poll, and whether a packet was refused before it.
  abbrev Follows : List (E ⊎ Option R) → S → S → TaskSimpleAction E R × Bool → Type 0
  Follows after s s' x = (x.1 ≡ false) × Outcome after s' (poll execute x.0 s)

  first_poll :
      (after : List (E ⊎ Option R)) (s s' : S)
      → (execute s).1 ≡ none
      → Follows after s s' (create, false)
  first_poll after s s' e = (
    refl,
    subst (Outcome after s') (sym (poll-create s e)) (refl, (waits after s').0, (waits after s').1),
  )

  -- A task that is created, and that is polled while its first function succeeds, then returns at the next
  -- poll what the matcher said of the first packet that it did not pass over since: its result or its
  -- error; without such a packet it waits. The packets before the first poll do not count, and no packet is
  -- refused.
  pub action-first_result :
      (before after : List (E ⊎ Option R)) (s s' : S)
      → (execute s).1 ≡ none
      → let t = handle_all create before in
        let polled = poll execute t.0 s in
        let u = handle_all polled.0 after in
        (t.1 ≡ false)
        × (polled.2 ≡ pending)
        × (u.1 ≡ false)
        × ((poll execute u.0 s').2 ≡ first_result after)
  action-first_result before after s s' e =
      let f = subst (Follows after s s') (sym (before_poll before)) (first_poll after s s' e) in
      (f.0, f.1.0, f.1.1, f.1.2)
