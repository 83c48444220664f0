-- ===== src/Server/Server/Registration.antt =====
-- Which id a client gets from server/src/server.rs.
use protanki_protocol_rs.Common.{
  ℕ, zero, suc, ◌+◌, ◌^◌, ◌≤◌, ◌<◌, ◌≡◌, refl, ◌∙◌, arith, Bool, true, false, none, some, [], ◌∷◌,
  All, Bool-cases, Option-cases, ◌⊎◌, inl, inr, ◌==◌, ltb,
}
use protanki_protocol_rs.Common.Bytes.{Bytes}
use protanki_protocol_rs.Common.Dict.{Dict, lookup, insert, lookup-insert}
use protanki_protocol_rs.Protocol.Error.{ProtocolResult}
use protanki_protocol_rs.Protocol.Codec.Primitives.{ByteOrder}
use protanki_protocol_rs.Server.Run.{Returns, Returns-bind}
use protanki_protocol_rs.Server.Client.{
  Client, setup_client, store_component, run_call, register_component, run_calls,
}
use protanki_protocol_rs.Server.Client.Later.{Later, IsSame}
use protanki_protocol_rs.Server.Client.Closing.{AlertsEncode, run_calls-Later}
use protanki_protocol_rs.Server.Server.{
  Server, Setup, next_client_id, enqueue_awaited, register_client, unlocked,
}

module _ {V : Type 0} where
  -- All keys are up to a number.
  abbrev pub KeysUpTo : ℕ → Dict V → Type 0
  KeysUpTo n entries = All (λ e. e.0 ≤ n) entries

  more-KeysUpTo : (n : ℕ) (entries : Dict V) → KeysUpTo n entries → KeysUpTo (n + 1) entries
  more-KeysUpTo n [] a = tt
  more-KeysUpTo n (e ∷ entries) a = (omega (arith, a.0), more-KeysUpTo n entries a.1)

  insert-KeysUpTo :
      (n : ℕ) (value : V) (entries : Dict V)
      → KeysUpTo n entries
      → KeysUpTo (n + 1) (insert (n + 1) value entries)
  unfolding insert
  insert-KeysUpTo n value [] a = (omega arith, tt)
  insert-KeysUpTo n value ((j, v) ∷ entries) a = elim (Bool-cases (j == n + 1)) [
    | inl h ↦ rw h (omega arith, more-KeysUpTo n entries a.1)
    | inr h ↦ elim (Bool-cases (ltb (n + 1) j)) [
      | inl l ↦ absurd (ground (arith, a.0, l))
      | inr l ↦ rw (h, l) (omega (arith, a.0), insert-KeysUpTo n value entries a.1)
    ]
  ]

  lookup_fresh : (n : ℕ) (entries : Dict V) → KeysUpTo n entries → lookup (n + 1) entries ≡ none
  unfolding lookup
  lookup_fresh n [] a = refl
  lookup_fresh n ((j, v) ∷ entries) a = ground (arith, a.0, lookup_fresh n entries a.1)

module _ {P C T : Type 0} where
  -- The resource component always comes to be, and always gives a task that waits for the resources.
  abbrev pub Loads : Setup P C T → Type 0
  Loads setup =
      ((c : Client P C T) → (setup.initialize_resources c).is_ok ≡ true)
      × ((component : C) (c : Client P C T)
          → (task : T) × ((setup.await_connect component c).resource_task ≡ some task))

  -- What a registration leaves, under the next id: no client more, and only where the resource component
  -- can fail; or one more, which has that id and the server's channel, and which overrides nobody.
  abbrev pub IsRegistered : Setup P C T → Server P C T → Server P C T → Bool → Type 0
  IsRegistered setup s r success =
      (r.is_shutdown ≡ false)
      × (r.client_id_index ≡ s.client_id_index + 1)
      × KeysUpTo r.client_id_index r.clients
      × (((success ≡ false) × (r.clients ≡ s.clients) × (¬ Loads setup))
          ⊎ ((success ≡ true)
              × (lookup r.client_id_index s.clients ≡ none)
              × (c : Client P C T) × (r.clients ≡ insert r.client_id_index (unlocked c) s.clients)
              × (c.client_id ≡ r.client_id_index)
              × (c.server_events ≡ true)))

  -- The client has an object for the component.
  record Has (key : ℕ) (c : Client P C T) : Type 0 where
    object : ℕ
    component : C
    in_components : lookup key c.components ≡ some object
    in_objects : lookup object c.objects ≡ some component

  store_component-Has :
      (c : Client P C T) (key : ℕ) (component : C)
      → Has key (store_component c key component) × IsSame c (store_component c key component)
  unfolding store_component
  store_component-Has c key component = (
    record {
      object = c.next_object;
      component = component;
      in_components = lookup-insert key key c.next_object c.components ∙ ground arith;
      in_objects = lookup-insert c.next_object c.next_object component c.objects ∙ ground arith;
    },
    (refl, refl),
  )

  setup_client-Returns :
      (n : ℕ) (c : Client P C T) (id : ℕ)
      → c.client_id ≡ n
      → Returns (λ d. (d.client_id ≡ id) × (d.server_events ≡ true)) (setup_client c id)
  unfolding setup_client
  setup_client-Returns zero c id e = rw (e, setup_client) (refl, refl)
  setup_client-Returns (suc n) c id e = rw (e, setup_client) tt

module _ {P C T : Type 0} ⦃order : ByteOrder⦄ (packet_id : P → ℕ)
    (encode : P → ProtocolResult Bytes) (setup : Setup P C T)
    (alerts : AlertsEncode encode setup.alert) where
  register_component-Returns :
      (c : Client P C T)
      → Returns
          (λ r. IsSame c r.0 × (Loads setup → Has setup.resources_key r.0))
          (register_component packet_id encode setup.alert c setup.resources_key
            setup.initialize_resources)
  unfolding register_component
  register_component-Returns c =
      Returns-bind (Later c)
        (λ (r : Client P C T × Bool). IsSame c r.0 × (Loads setup → Has setup.resources_key r.0))
        (run_calls packet_id encode setup.alert c (setup.initialize_resources c).calls) _
        (run_calls-Later packet_id encode setup.alert alerts (setup.initialize_resources c).calls c)
        λ d l. elim (Bool-cases (setup.initialize_resources c).is_ok) [
          | inl h ↦
              let (has, same) =
                store_component-Has d setup.resources_key
                  (setup.initialize_resources c).component in
              rw h ((same.0 ∙ l.same.0, same.1 ∙ l.same.1), λ _. has)
          | inr h ↦ rw h (l.same, λ loads. cc (loads.0 c, h))
        ]

  enqueue_awaited-Returns :
      (c : Client P C T)
      → Returns
          (λ r. IsSame c r.0 × (Loads setup → Has setup.resources_key c → r.1 ≡ true))
          (enqueue_awaited packet_id encode setup setup.await_connect setup.with_connect_callback c)
  unfolding enqueue_awaited run_call
  enqueue_awaited-Returns c = elim (Option-cases (lookup setup.resources_key c.components)) [
    | inl e ↦ rw (e, enqueue_awaited) ((refl, refl), λ loads has. cc (has.in_components, e))
    | inr (object, e) ↦ elim (Option-cases (lookup object c.objects)) [
      | inl l ↦
          rw (e, l, enqueue_awaited)
            ((refl, refl), λ loads has. cc (has.in_components, e, has.in_objects, l))
      | inr (component, l) ↦
          let awaited = setup.await_connect component c in
          let c' = record c {
            objects = insert object awaited.component c.objects;
            borrowed = some object;
          } in
          rw (e, l, enqueue_awaited)
            (Returns-bind (Later c')
              (λ (r : Client P C T × Bool).
                IsSame c r.0 × (Loads setup → Has setup.resources_key c → r.1 ≡ true))
              (run_calls packet_id encode setup.alert c' awaited.calls) _
              (run_calls-Later packet_id encode setup.alert alerts awaited.calls c')
              λ d l. elim (Option-cases awaited.resource_task) [
                | inl t ↦ rw t (l.same, λ loads has. cc ((loads.1 component c).1, t))
                | inr (task, t) ↦ rw t (l.same, λ loads has. refl)
              ])
    ]
  ]

  -- Where the client's own alerts can be encoded, the server is not shut down, no id is above the last one
  -- given, and ids do not wrap yet: a registration that does not panic takes the next id, which nobody
  -- has. Where the resource component of a client cannot fail, the client is stored, under that id, with
  -- it as its own, and with the server's channel, so it overrides no client; a registration that fails
  -- stores nobody. No id is above the last one then.
  pub register_client-IsRegistered :
      (s : Server P C T) (c : Client P C T)
      → s.is_shutdown ≡ false
      → KeysUpTo s.client_id_index s.clients
      → s.client_id_index + 1 < 2 ^ 32
      → Returns (λ r. IsRegistered setup s r.0 r.1) (register_client packet_id encode setup s c)
  unfolding register_client
  register_client-IsRegistered s c h a w =
      let e : next_client_id s ≡ s.client_id_index + 1 = omega (arith, w) in
      rw (h, register_client)
        (Returns-bind
          (λ (d : Client P C T). (d.client_id ≡ next_client_id s) × (d.server_events ≡ true))
          (λ r. IsRegistered setup s r.0 r.1) (setup_client c (next_client_id s)) _
          (setup_client-Returns c.client_id c (next_client_id s) refl)
          λ c1 i1.
            Returns-bind
              (λ (r : Client P C T × Bool).
                IsSame c1 r.0 × (Loads setup → Has setup.resources_key r.0))
              (λ r. IsRegistered setup s r.0 r.1) _ _ (register_component-Returns c1)
              λ c2 i2.
                Returns-bind
                  (λ (r : Client P C T × Bool).
                    IsSame c2.0 r.0 × (Loads setup → Has setup.resources_key c2.0 → r.1 ≡ true))
                  (λ r. IsRegistered setup s r.0 r.1) _ _ (enqueue_awaited-Returns c2.0)
                  λ c3 i3. elim (Bool-cases c3.1) [
                    | inl t ↦
                        rw (t, e)
                          (
                            refl,
                            refl,
                            insert-KeysUpTo s.client_id_index (unlocked c3.0) s.clients a,
                            inr (
                              refl,
                              lookup_fresh s.client_id_index s.clients a,
                              c3.0,
                              refl,
                              i3.0.0 ∙ i2.0.0 ∙ i1.0 ∙ e,
                              i3.0.1 ∙ i2.0.1 ∙ i1.1,
                            ),
                          )
                    | inr t ↦
                        rw (t, e)
                          (
                            refl,
                            refl,
                            more-KeysUpTo s.client_id_index s.clients a,
                            inl (refl, refl, λ loads. cc (i3.1 loads (i2.1 loads), t)),
                          )
                  ])
