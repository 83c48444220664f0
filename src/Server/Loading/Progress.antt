-- ===== src/Server/Loading/Progress.antt =====
-- No load request of server/src/client_components/resources.rs is forgotten.
use protanki_protocol_rs.Common.{
  ℕ, ◌+◌, false, none, some, List, [], ◌∷◌, ◌++◌, ◌≡◌, refl, ◌∙◌, arith, ◌⊎◌, inl, inr,
  if◌then◌else◌, Option-cases, Bool-cases, Sum-cases,
}
use protanki_protocol_rs.Common.Bytes.{Bytes}
use protanki_protocol_rs.Server.Loading.{
  LoadRequestState, enqueued, pending, finished, LoadRequest, ClientResources, RegisterResources,
  new_resources, LoadError, start_first, try_send_next_load_request, enqueue_load_request,
  knows_stage, listen, await_resources_loaded, finish, on_registered,
}

abbrev sent : LoadRequestState → ℕ
sent (enqueued json) = 0
sent (pending t) = 1
sent (finished d) = 0

abbrev waiting : LoadRequestState → ℕ
waiting (enqueued json) = 1
waiting (pending t) = 0
waiting (finished d) = 0

abbrev pending_count : List LoadRequest → ℕ
pending_count [] = 0
pending_count (r ∷ rs) = sent r.state + pending_count rs

abbrev enqueued_count : List LoadRequest → ℕ
enqueued_count [] = 0
enqueued_count (r ∷ rs) = waiting r.state + enqueued_count rs

-- One request is pending exactly if the flag says so, and else none is enqueued.
pub record IsMoving (c : ClientResources) : Type 0 where
  pub one : pending_count c.requests ≡ (if c.request_pending then 1 else 0)
  pub none_waits : c.request_pending ≡ false → enqueued_count c.requests ≡ 0

start_first-none :
    (now : ℕ) (rs : List LoadRequest) → start_first now rs ≡ none → enqueued_count rs ≡ 0
unfolding start_first
start_first-none now [] e = refl
start_first-none now (r ∷ rs) e = ground (arith, start_first-none now rs)

start_first-some :
    (now : ℕ) (rs : List LoadRequest) (o : List LoadRequest × RegisterResources)
    → start_first now rs ≡ some o
    → pending_count o.0 ≡ pending_count rs + 1
unfolding start_first
start_first-some now [] o e = ground arith
start_first-some now (r ∷ rs) o e = elim (Option-cases (start_first now rs)) [
  | inl h ↦ ground (arith, h)
  | inr (q, h) ↦ ground (arith, h, start_first-some now rs q h)
]

try_send-IsMoving :
    (c : ClientResources) (now : ℕ)
    → pending_count c.requests ≡ (if c.request_pending then 1 else 0)
    → IsMoving (try_send_next_load_request c now).0
unfolding try_send_next_load_request
try_send-IsMoving c now h = elim (Bool-cases c.request_pending) [
  | inl b ↦ record { one = ground (arith, b, h); none_waits = ground (arith, b) }
  | inr b ↦ elim (Option-cases (start_first now c.requests)) [
    | inl e ↦ record {
      one = ground (arith, b, e, h);
      none_waits = ground (arith, b, e, start_first-none now c.requests e);
    }
    | inr (o, e) ↦ record {
      one = ground (arith, b, e, h, start_first-some now c.requests o e);
      none_waits = ground (arith, b, e);
    }
  ]
]

finish-cases :
    (o : LoadError ⊎ List LoadRequest × List ℕ)
    → ((e : LoadError) × (o ≡ inl e)) ⊎ ((q : List LoadRequest × List ℕ) × (o ≡ inr q))
finish-cases (inl e) = inl (e, refl)
finish-cases (inr q) = inr (q, refl)

finish-pending :
    (id now : ℕ) (rs : List LoadRequest) (o : List LoadRequest × List ℕ)
    → finish id now rs ≡ inr o
    → pending_count rs ≡ pending_count o.0 + 1
unfolding finish
finish-pending id now [] o e = ground arith
finish-pending id now (r ∷ rs) o e = elim (finish-cases (finish id now rs)) [
  | inl (x, h) ↦ ground (arith, h)
  | inr (q, h) ↦ ground (arith, h, finish-pending id now rs q h)
]

listen-same :
    (stage listener : ℕ) (rs : List LoadRequest)
    → (pending_count (listen stage listener rs).0 ≡ pending_count rs)
      × (enqueued_count (listen stage listener rs).0 ≡ enqueued_count rs)
unfolding listen
listen-same stage listener [] = (refl, refl)
listen-same stage listener (r ∷ rs) = ground (arith, listen-same stage listener rs)

add-pending :
    (rs qs : List LoadRequest) → pending_count (rs ++ qs) ≡ pending_count rs + pending_count qs
add-pending [] qs = omega arith
add-pending (r ∷ rs) qs = omega (arith, add-pending rs qs)

-- What a listener adds to a request changes no request's state.
heard-IsMoving :
    (c : ClientResources) (stage listener : ℕ)
    → IsMoving c
    → IsMoving (record c { requests = (listen stage listener c.requests).0 })
heard-IsMoving c stage listener m = record {
  one = (listen-same stage listener c.requests).0 ∙ m.one;
  none_waits = λ f. (listen-same stage listener c.requests).1 ∙ m.none_waits f;
}

enqueue-IsMoving :
    (c : ClientResources) (now stage : ℕ) (json : Bytes)
    → IsMoving c
    → IsMoving (enqueue_load_request c now stage json).0
unfolding enqueue_load_request
enqueue-IsMoving c now stage json m =
    let added =
      record { id = c.request_id + 1; stage = stage; state = enqueued json; finish_listener = [] }
      ∷ [] in
    try_send-IsMoving (record c { request_id = c.request_id + 1; requests = c.requests ++ added })
      now (omega (arith, add-pending c.requests added, m.one))

-- If exactly one request is pending or else none is enqueued, and the flag says which, this holds
-- after a caller asks for a stage too.
await_resources_loaded-IsMoving :
    (c : ClientResources) (now stage : ℕ) (json : Bytes) (listener : ℕ)
    → IsMoving c
    → IsMoving (await_resources_loaded c now stage json listener).0
unfolding await_resources_loaded
await_resources_loaded-IsMoving c now stage json listener m =
    elim (Bool-cases (knows_stage stage c.requests)) [
      | inl b ↦ rw b (heard-IsMoving c stage listener m)
      | inr b ↦ rw b (heard-IsMoving _ stage listener (enqueue-IsMoving c now stage json m))
    ]

on_registered-next :
    (c : ClientResources) (now id : ℕ) (q : List LoadRequest × List ℕ)
    (o : ClientResources × List RegisterResources × List ℕ)
    → finish id now c.requests ≡ inr q
    → on_registered c now id ≡ inr o
    → o.0
      ≡ (try_send_next_load_request (record c { requests = q.0; request_pending = false }) now).0
unfolding on_registered
on_registered-next c now id q o h e = ground (arith, h, e)

-- If exactly one request is pending or else none is enqueued, and the flag says which, this holds
-- after the client's answer too, where the answer is accepted: the next request has been sent, or
-- none is left.
on_registered-IsMoving :
    (c : ClientResources) (now id : ℕ) (o : ClientResources × List RegisterResources × List ℕ)
    → IsMoving c
    → on_registered c now id ≡ inr o
    → IsMoving o.0
unfolding on_registered
on_registered-IsMoving c now id o m e = elim (finish-cases (finish id now c.requests)) [
  | inl (x, h) ↦ ground (arith, h)
  | inr (q, h) ↦ rw (on_registered-next c now id q o h e) (
      try_send-IsMoving (record c { requests = q.0; request_pending = false }) now
        (ground (arith, m.one, finish-pending id now c.requests q h)))
]

-- A caller that asks for a stage, or a packet of the client that says that a request is registered.
pub data LoadEvent : Type 0 where
  awaits : (now stage : ℕ) (json : Bytes) (listener : ℕ) → LoadEvent
  answered : (now id : ℕ) → LoadEvent

-- A packet that is refused changes nothing.
unfoldable pub after : ClientResources → LoadEvent → ClientResources
unfolding await_resources_loaded on_registered
after c (awaits now stage json listener) = (await_resources_loaded c now stage json listener).0
after c (answered now id) = elim (on_registered c now id) [ inl e ↦ c | inr o ↦ o.0 ]

unfoldable pub run : ClientResources → List LoadEvent → ClientResources
unfolding after
run c [] = c
run c (e ∷ events) = run (after c e) events

after-IsMoving : (c : ClientResources) (e : LoadEvent) → IsMoving c → IsMoving (after c e)
unfolding after
after-IsMoving c (awaits now stage json listener) m =
    await_resources_loaded-IsMoving c now stage json listener m
after-IsMoving c (answered now id) m = elim (Sum-cases (on_registered c now id)) [
  | inl (e, h) ↦ rw (h, after) m
  | inr (o, h) ↦ rw (h, after) (on_registered-IsMoving c now id o m h)
]

run_lem : (c : ClientResources) (events : List LoadEvent) → IsMoving c → IsMoving (run c events)
unfolding run
run_lem c [] m = m
run_lem c (e ∷ events) m = run_lem (after c e) events (after-IsMoving c e m)

-- Whatever stages are asked for, and whatever answers come: exactly one request is pending or else none is
-- enqueued, so that nothing waits while nothing is pending, and the flag says which.
pub run-IsMoving : (events : List LoadEvent) → IsMoving (run new_resources events)
unfolding new_resources
run-IsMoving events = run_lem new_resources events (record { one = refl; none_waits = λ f. refl })
