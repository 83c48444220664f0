-- ===== src/ClientUtils/Handlers.antt =====
-- client-utils/src/handler.rs: the registry of packet handlers. A handler is a value of `H`, and the
-- session one of `S`; what a handler does is a parameter. It may call the registry while the registry
-- goes through the handlers, which are borrowed then.
pub mod Deferral
pub mod Awaiting
pub mod Answers
use protanki_protocol_rs.Common.{
  ℕ, ◌+◌, ◌%◌, ◌^◌, Bool, true, false, Option, none, some, List, [], ◌∷◌, ◌++◌, ◌==◌, if◌then◌else◌,
}
use protanki_protocol_rs.Common.Dict.{Dict, insert, remove}

pub data PendingUpdate (H : Type 0) : Type 0 where
  unregister : ℕ → PendingUpdate H
  register : ℕ → H → PendingUpdate H

pub record PacketHandlerRegistry (H : Type 0) : Type 0 where
  pub handler : Dict H
  pub handler_index : ℕ
  pub pending_handler_updates : List (PendingUpdate H)

-- A call of the registry that a handler makes.
pub data RegistryCall (H : Type 0) : Type 0 where
  call_register : H → RegistryCall H
  call_remove : ℕ → RegistryCall H

-- What a function of a handler leaves: the handler, the session, its calls, and what it returned.
pub record Visited (H S R : Type 0) : Type 0 where
  pub visited : H
  pub session : S
  pub calls : List (RegistryCall H)
  pub returned : R

-- `Poll<anyhow::Result<()>>` of a handler.
pub data HandlerPoll (E : Type 0) : Type 0 where
  finished : HandlerPoll E
  failed : E → HandlerPoll E
  waiting : HandlerPoll E

module _ {H : Type 0} where
  unfoldable pub new_handlers : PacketHandlerRegistry H
  new_handlers = record { handler = []; handler_index = 0; pending_handler_updates = [] }

  -- The sum wraps, as it does without overflow checks.
  unfoldable pub next_handler_id : PacketHandlerRegistry H → ℕ
  next_handler_id r = (1 + r.handler_index) % 2 ^ 32

  -- The flag, here and below, is whether the handlers are borrowed.
  unfoldable pub register_handler : Bool → PacketHandlerRegistry H → H → PacketHandlerRegistry H × ℕ
  unfolding insert next_handler_id
  register_handler borrowed r h =
      let id = next_handler_id r in
      (
        if borrowed
            then record r {
              handler_index = id;
              pending_handler_updates = r.pending_handler_updates ++ (register id h ∷ []);
            }
            else record r { handler_index = id; handler = insert id h r.handler },
        id,
      )

  unfoldable pub remove_handler : Bool → PacketHandlerRegistry H → ℕ → PacketHandlerRegistry H
  unfolding remove
  remove_handler borrowed r id =
      if borrowed
      then record r { pending_handler_updates = r.pending_handler_updates ++ (unregister id ∷ []) }
      else record r { handler = remove id r.handler }

  unfoldable pub apply_updates : List (PendingUpdate H) → Dict H → Dict H
  unfolding insert remove
  apply_updates [] handlers = handlers
  apply_updates (register id h ∷ updates) handlers = apply_updates updates (insert id h handlers)
  apply_updates (unregister id ∷ updates) handlers = apply_updates updates (remove id handlers)

  unfoldable pub commit_post_handle_updates : PacketHandlerRegistry H → PacketHandlerRegistry H
  unfolding apply_updates
  commit_post_handle_updates r = record r {
    handler = apply_updates r.pending_handler_updates r.handler;
    pending_handler_updates = [];
  }

  unfoldable pub call_registry :
      Bool → PacketHandlerRegistry H → RegistryCall H → PacketHandlerRegistry H
  unfolding register_handler remove_handler
  call_registry borrowed r (call_register h) = (register_handler borrowed r h).0
  call_registry borrowed r (call_remove id) = remove_handler borrowed r id

  unfoldable pub call_registry_all :
      Bool → PacketHandlerRegistry H → List (RegistryCall H) → PacketHandlerRegistry H
  unfolding call_registry
  call_registry_all borrowed r [] = r
  call_registry_all borrowed r (call ∷ calls) =
      call_registry_all borrowed (call_registry borrowed r call) calls

module _ {H S E : Type 0} where
  -- The loop of `handle`: the handlers, the registry with its pending updates, the session, and the
  -- error that ended it.
  unfoldable pub handle_each :
      (H → S → Visited H S (Option E))
      → Dict H
      → PacketHandlerRegistry H
      → S
      → Dict H × PacketHandlerRegistry H × S × Option E
  unfolding call_registry_all
  handle_each act [] r s = ([], r, s, none)
  handle_each act ((id, h) ∷ handlers) r s =
      let v = act h s in
      let r' = call_registry_all true r v.calls in
      let rest = handle_each act handlers r' v.session in
      elim v.returned [
        | some e ↦ ((id, v.visited) ∷ handlers, r', v.session, some e)
        | none ↦ ((id, v.visited) ∷ rest.0, rest.1, rest.2, rest.3)
      ]

  -- An error leaves the updates pending.
  unfoldable pub handle :
      (H → S → Visited H S (Option E))
      → PacketHandlerRegistry H
      → S
      → PacketHandlerRegistry H × S × Option E
  unfolding handle_each commit_post_handle_updates
  handle act r s =
      let (handlers, r', s', e) = handle_each act r.handler r s in
      let r'' = record r' { handler = handlers } in
      elim e [ some x ↦ (r'', s', some x) | none ↦ (commit_post_handle_updates r'', s', none) ]

  -- What the registry does with a handler that was polled, as a function of its packets.
  unfoldable pub poll_one :
      (H → S → Visited H S (HandlerPoll E)) → ℕ → H → S → Visited H S (Option E)
  poll_one act id h s =
      let v = act h s in
      elim v.returned [
        | finished ↦ record {
          visited = v.visited;
          session = v.session;
          calls = v.calls ++ (call_remove id ∷ []);
          returned = none;
        }
        | failed e ↦ record {
          visited = v.visited;
          session = v.session;
          calls = v.calls;
          returned = some e;
        }
        | waiting ↦ record {
          visited = v.visited;
          session = v.session;
          calls = v.calls;
          returned = none;
        }
      ]

  unfoldable pub poll_each :
      (H → S → Visited H S (HandlerPoll E))
      → Dict H
      → PacketHandlerRegistry H
      → S
      → Dict H × PacketHandlerRegistry H × S × Option E
  unfolding call_registry_all poll_one
  poll_each act [] r s = ([], r, s, none)
  poll_each act ((id, h) ∷ handlers) r s =
      let v = poll_one act id h s in
      let r' = call_registry_all true r v.calls in
      let rest = poll_each act handlers r' v.session in
      elim v.returned [
        | some e ↦ ((id, v.visited) ∷ handlers, r', v.session, some e)
        | none ↦ ((id, v.visited) ∷ rest.0, rest.1, rest.2, rest.3)
      ]

  unfoldable pub poll :
      (H → S → Visited H S (HandlerPoll E))
      → PacketHandlerRegistry H
      → S
      → PacketHandlerRegistry H × S × Option E
  unfolding poll_each commit_post_handle_updates
  poll act r s =
      let (handlers, r', s', e) = poll_each act r.handler r s in
      let r'' = record r' { handler = handlers } in
      elim e [ some x ↦ (r'', s', some x) | none ↦ (commit_post_handle_updates r'', s', none) ]
