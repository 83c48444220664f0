-- ===== src/Server/Loading.antt =====
-- server/src/client_components/resources.rs: the queue of load requests of a client. What the server
-- has for a stage, as json, and the times are arguments; a listener is a number.
pub mod Progress
use protanki_protocol_rs.Common.{
  ℕ, ◌+◌, Bool, true, false, Option, none, some, List, [], ◌∷◌, ◌++◌, ◌==◌, if◌then◌else◌, ◌⊎◌, inl,
  inr, ◌-◌,
}
use protanki_protocol_rs.Common.Bytes.{Bytes}

pub data LoadRequestState : Type 0 where
  enqueued : Bytes → LoadRequestState
  pending : ℕ → LoadRequestState
  finished : ℕ → LoadRequestState

-- A stage is its number.
pub record LoadRequest : Type 0 where
  pub id : ℕ
  pub stage : ℕ
  pub state : LoadRequestState
  pub finish_listener : List ℕ

pub record ClientResources : Type 0 where
  pub requests : List LoadRequest
  pub request_id : ℕ
  pub request_pending : Bool

-- The packet that starts a request: its callback's id and the json.
pub data RegisterResources : Type 0 where
  register_resources : ℕ → Bytes → RegisterResources

pub data LoadError : Type 0 where
  invalid_callback_id not_sent already_completed : LoadError

unfoldable pub new_resources : ClientResources
new_resources = record { requests = []; request_id = 0; request_pending = false }

-- The first request that waits becomes pending.
unfoldable pub start_first : ℕ → List LoadRequest → Option (List LoadRequest × RegisterResources)
start_first now [] = none
start_first now (r ∷ requests) =
    let rest = start_first now requests in
    elim r.state [
      | enqueued json ↦
          some (record r { state = pending now } ∷ requests, register_resources r.id json)
      | pending t ↦ elim rest [ none ↦ none | some (rs, packet) ↦ some (r ∷ rs, packet) ]
      | finished t ↦ elim rest [ none ↦ none | some (rs, packet) ↦ some (r ∷ rs, packet) ]
    ]

unfoldable pub try_send_next_load_request :
    ClientResources → ℕ → ClientResources × List RegisterResources
unfolding start_first
try_send_next_load_request c now =
    if c.request_pending then (c, []) else elim (start_first now c.requests) [
      | none ↦ (c, [])
      | some (requests, packet) ↦
          (record c { requests = requests; request_pending = true }, packet ∷ [])
    ]

unfoldable pub enqueue_load_request :
    ClientResources → ℕ → ℕ → Bytes → ClientResources × List RegisterResources
unfolding try_send_next_load_request
enqueue_load_request c now stage json =
    try_send_next_load_request
      (record c {
        request_id = c.request_id + 1;
        requests =
            c.requests
            ++ (record {
              id = c.request_id + 1;
              stage = stage;
              state = enqueued json;
              finish_listener = [];
            }
                ∷ []);
      })
      now

unfoldable pub is_finished : LoadRequestState → Bool
is_finished (enqueued json) = false
is_finished (pending t) = false
is_finished (finished d) = true

unfoldable pub knows_stage : ℕ → List LoadRequest → Bool
knows_stage stage [] = false
knows_stage stage (r ∷ requests) = if r.stage == stage then true else knows_stage stage requests

-- The listener is added to the first request of the stage, if that is not finished. The second
-- component is whether the caller has to wait.
unfoldable pub listen : ℕ → ℕ → List LoadRequest → List LoadRequest × Bool
unfolding is_finished
listen stage listener [] = ([], false)
listen stage listener (r ∷ requests) =
    let rest = listen stage listener requests in
    if r.stage == stage
    then if is_finished r.state
      then (r ∷ requests, false)
      else (record r { finish_listener = r.finish_listener ++ (listener ∷ []) } ∷ requests, true)
    else (r ∷ rest.0, rest.1)

-- `await_resources_loaded`: the packets sent, and whether the caller has to wait.
unfoldable pub await_resources_loaded :
    ClientResources → ℕ → ℕ → Bytes → ℕ → ClientResources × List RegisterResources × Bool
unfolding knows_stage enqueue_load_request listen
await_resources_loaded c now stage json listener =
    let (d, packets) =
      if knows_stage stage c.requests then (c, []) else enqueue_load_request c now stage json in
    let (requests, waits) = listen stage listener d.requests in
    (record d { requests = requests }, packets, waits)

-- The first request with the id is finished, and its listeners are taken out.
unfoldable pub finish : ℕ → ℕ → List LoadRequest → LoadError ⊎ (List LoadRequest × List ℕ)
finish id now [] = inl invalid_callback_id
finish id now (r ∷ requests) =
    let rest = finish id now requests in
    if r.id == id
    then elim r.state [
      | enqueued json ↦ inl not_sent
      | finished d ↦ inl already_completed
      | pending t ↦ inr (
        record r { state = finished (now - t); finish_listener = [] } ∷ requests,
        r.finish_listener,
      )
    ]
    else elim rest [ inl e ↦ inl e | inr (rs, woken) ↦ inr (r ∷ rs, woken) ]

-- `on_packet`, for a packet of the component's type: the packets sent and the listeners woken.
unfoldable pub on_registered :
    ClientResources → ℕ → ℕ → LoadError ⊎ (ClientResources × List RegisterResources × List ℕ)
unfolding finish try_send_next_load_request
on_registered c now id = elim (finish id now c.requests) [
  | inl e ↦ inl e
  | inr (requests, woken) ↦
      let (d, packets) =
        try_send_next_load_request (record c { requests = requests; request_pending = false })
          now in
      inr (d, packets, woken)
]
