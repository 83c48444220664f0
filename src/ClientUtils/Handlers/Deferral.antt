-- ===== src/ClientUtils/Handlers/Deferral.antt =====
-- Updates of the registry of client-utils/src/handler.rs that are made while the handlers are borrowed.
use protanki_protocol_rs.Common.{
  ◌≡◌, refl, ap, ◌∙◌, true, false, Option, none, some, List, [], ◌∷◌, ◌++◌, Option-cases, inl, inr,
}
use protanki_protocol_rs.Common.Dict.{Dict, insert, remove}
use protanki_protocol_rs.ClientUtils.Handlers.{
  PendingUpdate, unregister, register, PacketHandlerRegistry, RegistryCall, call_register,
  call_remove, Visited, apply_updates, commit_post_handle_updates, call_registry, call_registry_all,
  handle_each, handle, next_handler_id,
}

module _ {H : Type 0} where
  apply_updates-append :
      (us vs : List (PendingUpdate H)) (handlers : Dict H)
      → apply_updates (us ++ vs) handlers ≡ apply_updates vs (apply_updates us handlers)
  unfolding apply_updates
  apply_updates-append [] vs handlers = refl
  apply_updates-append (register id h ∷ us) vs handlers =
      apply_updates-append us vs (insert id h handlers)
  apply_updates-append (unregister id ∷ us) vs handlers =
      apply_updates-append us vs (remove id handlers)

  -- A call made while the handlers are borrowed, and committed, is the call made after the commit.
  commit-call_registry :
      (r : PacketHandlerRegistry H) (call : RegistryCall H)
      → commit_post_handle_updates (call_registry true r call)
        ≡ call_registry false (commit_post_handle_updates r) call
  unfolding commit_post_handle_updates call_registry apply_updates
  commit-call_registry r (call_register h) =
      ap
        (λ (d : Dict H). record r {
          handler = d;
          handler_index = next_handler_id r;
          pending_handler_updates = [];
        })
        (apply_updates-append r.pending_handler_updates (register (next_handler_id r) h ∷ [])
          r.handler)
  commit-call_registry r (call_remove id) =
      ap (λ (d : Dict H). record r { handler = d; pending_handler_updates = [] })
        (apply_updates-append r.pending_handler_updates (unregister id ∷ []) r.handler)

  -- The same of several calls.
  commit-call_registry_all :
      (r : PacketHandlerRegistry H) (calls : List (RegistryCall H))
      → commit_post_handle_updates (call_registry_all true r calls)
        ≡ call_registry_all false (commit_post_handle_updates r) calls
  unfolding call_registry_all
  commit-call_registry_all r [] = refl
  commit-call_registry_all r (call ∷ calls) =
      commit-call_registry_all (call_registry true r call) calls
      ∙ ap (λ (q : PacketHandlerRegistry H). call_registry_all false q calls)
          (commit-call_registry r call)

  -- While the handlers are borrowed they stay as they are, whatever is called.
  call_registry_all-borrowed :
      (r : PacketHandlerRegistry H) (handlers : Dict H) (calls : List (RegistryCall H))
      → record (call_registry_all true r calls) { handler = handlers }
        ≡ call_registry_all true (record r { handler = handlers }) calls
  unfolding call_registry_all call_registry
  call_registry_all-borrowed r handlers [] = refl
  call_registry_all-borrowed r handlers (call_register h ∷ calls) =
      call_registry_all-borrowed (call_registry true r (call_register h)) handlers calls
  call_registry_all-borrowed r handlers (call_remove id ∷ calls) =
      call_registry_all-borrowed (call_registry true r (call_remove id)) handlers calls

  call_registry_all-append :
      (r : PacketHandlerRegistry H) (xs ys : List (RegistryCall H))
      → call_registry_all true (call_registry_all true r xs) ys
        ≡ call_registry_all true r (xs ++ ys)
  unfolding call_registry_all
  call_registry_all-append r [] ys = refl
  call_registry_all-append r (x ∷ xs) ys = call_registry_all-append (call_registry true r x) xs ys

module _ {H S E : Type 0} (act : H → S → Visited H S (Option E)) where
  -- The handlers one after another, until one fails: the handlers afterwards, the calls that they make of
  -- the registry, the session, and the error.
  unfoldable pub collect : Dict H → S → Dict H × List (RegistryCall H) × S × Option E
  collect [] s = ([], [], s, none)
  collect ((id, h) ∷ handlers) s =
      let v = act h s in
      let rest = collect handlers v.session in
      elim v.returned [
        | some e ↦ ((id, v.visited) ∷ handlers, v.calls, v.session, some e)
        | none ↦ ((id, v.visited) ∷ rest.0, v.calls ++ rest.1, rest.2, rest.3)
      ]

  handle_each-collect :
      (handlers : Dict H) (r : PacketHandlerRegistry H) (s : S)
      → let k = collect handlers s in
        handle_each act handlers r s ≡ (k.0, call_registry_all true r k.1, k.2, k.3)
  unfolding handle_each collect call_registry_all
  handle_each-collect [] r s = refl
  handle_each-collect ((id, h) ∷ handlers) r s =
      let v = act h s in
      let r' = call_registry_all true r v.calls in
      elim (Option-cases v.returned) [
        | inl e ↦
            rw (handle_each, collect, e)
              (ap
                  (λ (rest : Dict H × PacketHandlerRegistry H × S × Option E).
                    ((id, v.visited) ∷ rest.0, rest.1, rest.2, rest.3))
                  (handle_each-collect handlers r' v.session)
                ∙ ap
                    (λ (q : PacketHandlerRegistry H). (
                      (id, v.visited) ∷ (collect handlers v.session).0,
                      q,
                      (collect handlers v.session).2,
                      (collect handlers v.session).3,
                    ))
                    (call_registry_all-append r v.calls (collect handlers v.session).1))
        | inr (x, e) ↦ rw (handle_each, collect, e) refl
      ]

  -- What `handle` does after its loop.
  finish_handle :
      Dict H × PacketHandlerRegistry H × S × Option E → PacketHandlerRegistry H × S × Option E
  finish_handle (handlers, r, s, some e) = (record r { handler = handlers }, s, some e)
  finish_handle (handlers, r, s, none) =
      (commit_post_handle_updates (record r { handler = handlers }), s, none)

  finish_handle_lem :
      (x : Dict H × PacketHandlerRegistry H × S × Option E)
      → (elim x.3 as (λ y. PacketHandlerRegistry H × S × Option E) [
        | some e ↦ (record x.1 { handler = x.0 }, x.2, some e)
        | none ↦ (commit_post_handle_updates (record x.1 { handler = x.0 }), x.2, none)
      ])
        ≡ finish_handle x
  unfolding finish_handle
  finish_handle_lem (handlers, r, s, some e) = refl
  finish_handle_lem (handlers, r, s, none) = refl

  handle-finish :
      (r : PacketHandlerRegistry H) (s : S)
      → handle act r s ≡ finish_handle (handle_each act r.handler r s)
  unfolding handle
  handle-finish r s = finish_handle_lem (handle_each act r.handler r s)

  -- A packet that all handlers take without error: the registry is left as if the handlers' calls of it
  -- had been made at once, in order, after the last handler, and after the updates that were pending.
  pub handle-calls :
      (r : PacketHandlerRegistry H) (s : S)
      → let k = collect r.handler s in
        k.3 ≡ none
        → handle act r s ≡ (
          call_registry_all false (commit_post_handle_updates (record r { handler = k.0 })) k.1,
          k.2,
          none,
        )
  unfolding finish_handle
  handle-calls r s e =
      let k = collect r.handler s in
      handle-finish r s
      ∙ ap finish_handle (handle_each-collect r.handler r s)
      ∙ (rw (finish_handle, e)
          (ap (λ (q : PacketHandlerRegistry H). (commit_post_handle_updates q, k.2, none))
              (call_registry_all-borrowed r k.0 k.1)
            ∙ ap (λ (q : PacketHandlerRegistry H). (q, k.2, none))
                (commit-call_registry_all (record r { handler = k.0 }) k.1)))
