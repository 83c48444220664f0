-- ===== src/Server/Tasks/Rounds.antt =====
-- The loop of `Tasks::poll` in server/src/tasks.rs.
use protanki_protocol_rs.Common.{
  ℕ, zero, suc, ◌+◌, ◌≤◌, ◌<◌, ◌≡◌, refl, ap, ◌∙◌, sym, arith, Bool, true, false, Option, none,
  some, List, [], ◌∷◌, ◌++◌, All, Option-cases, List-cases, inl, inr, append-nil, append_assoc,
}
use protanki_protocol_rs.Server.Tasks.{
  Tasks, Polled, enqueue, enqueue_all, keep, poll_each, round, poll_rounds,
}

module _ {T : Type 0} where
  abbrev pub total : (T → ℕ) → List T → ℕ
  total weight [] = 0
  total weight (t ∷ ts) = weight t + total weight ts

  total-append :
      (weight : T → ℕ) (xs ys : List T)
      → total weight (xs ++ ys) ≡ total weight xs + total weight ys
  total-append weight [] ys = omega arith
  total-append weight (x ∷ xs) ys = omega (arith, total-append weight xs ys)

  -- While the tasks are borrowed, what is enqueued waits behind the new tasks.
  enqueue_borrowed :
      (ts : Tasks T) (x : T)
      → ts.is_borrowed ≡ true
      → enqueue ts x ≡ record ts { new_tasks = ts.new_tasks ++ (x ∷ []); waker = false }
  unfolding enqueue
  enqueue_borrowed ts x b = ground (arith, b)

  enqueue_all_borrowed :
      (ts : Tasks T) (xs : List T)
      → ts.is_borrowed ≡ true
      → ((enqueue_all ts xs).new_tasks ≡ ts.new_tasks ++ xs)
        × ((enqueue_all ts xs).is_borrowed ≡ true)
  unfolding enqueue_all
  enqueue_all_borrowed ts [] b = (sym (append-nil ts.new_tasks), b)
  enqueue_all_borrowed ts (x ∷ xs) b =
      let next = record ts { new_tasks = ts.new_tasks ++ (x ∷ []); waker = false } in
      let (p, q) = enqueue_all_borrowed next xs b in
      rw (enqueue_all, enqueue_borrowed ts x b) (p ∙ append_assoc ts.new_tasks (x ∷ []) xs, q)

  -- Tasks that are enqueued cost one more than their weight.
  abbrev pub cost : (T → ℕ) → List T → ℕ
  cost weight [] = 0
  cost weight (x ∷ xs) = 1 + total weight (x ∷ xs)

  cost-append :
      (weight : T → ℕ) (xs ys : List T) → cost weight (xs ++ ys) ≤ cost weight xs + cost weight ys
  cost-append weight [] ys = omega arith
  cost-append weight (x ∷ xs) [] = omega (arith, total-append weight xs [])
  cost-append weight (x ∷ xs) (y ∷ ys) = omega (arith, total-append weight xs (y ∷ ys))

module _ {T S : Type 0} (poll_task : T → S → Polled T S) (weight : T → ℕ) where
  -- A task that enqueues others gets lighter by more than they weigh, and no task gets heavier.
  abbrev pub GetsLighter : Type 0
  GetsLighter =
      (t : T) (s : S)
      → total weight (keep (poll_task t s).left []) + cost weight (poll_task t s).enqueued
        ≤ weight t

  -- The task was polled, and is pending.
  abbrev pub IsPending : T → Type 0
  IsPending t = (u : T) × (s : S) × ((poll_task u s).left ≡ some t)

  keep-IsPending :
      (t : T) (s : S) (ts : List T)
      → All IsPending ts
      → All IsPending (keep (poll_task t s).left ts)
  keep-IsPending t s ts a = elim (Option-cases (poll_task t s).left) [
    | inl e ↦ rw e a
    | inr (u, e) ↦ rw e ((t, s, e), a)
  ]

  total-keep :
      (o : Option T) (ts : List T)
      → total weight (keep o ts) ≡ total weight (keep o []) + total weight ts
  total-keep none ts = omega arith
  total-keep (some t) ts = omega arith

  poll_each_lem :
      GetsLighter
      → (tasks : List T) (s : S) (ts : Tasks T) → ts.is_borrowed ≡ true
      → let r = poll_each poll_task tasks s ts in
        (spawned : List T) × (r.2.new_tasks ≡ ts.new_tasks ++ spawned)
        × (total weight r.0 + cost weight spawned ≤ total weight tasks)
        × All IsPending r.0
  unfolding poll_each
  poll_each_lem lighter [] s ts b = ([], sym (append-nil ts.new_tasks), omega arith, tt)
  poll_each_lem lighter (t ∷ tasks) s ts b =
      let polled = poll_task t s in
      let (p, q) = enqueue_all_borrowed ts polled.enqueued b in
      let (spawned, e, l, a) =
        poll_each_lem lighter tasks polled.state (enqueue_all ts polled.enqueued) q in
      (
        polled.enqueued ++ spawned,
        e ∙ (rw p (append_assoc ts.new_tasks polled.enqueued spawned)),
        omega (
          arith,
          lighter t s,
          l,
          cost-append weight polled.enqueued spawned,
          total-keep polled.left
              (poll_each poll_task tasks polled.state (enqueue_all ts polled.enqueued)).0,
        ),
        keep-IsPending t s _ a,
      )

  -- A round by whether tasks were enqueued in it.
  round_last :
      (ts : Tasks T) (s : S)
      → let r = poll_each poll_task ts.tasks s (record ts { tasks = []; is_borrowed = true }) in
        r.2.new_tasks ≡ []
        → round poll_task ts s ≡ (record r.2 { tasks = r.0; is_borrowed = false }, r.1, false)
  unfolding round
  round_last ts s e = ground (arith, e)

  round_again :
      (ts : Tasks T) (s : S) (x : T) (xs : List T)
      → let r = poll_each poll_task ts.tasks s (record ts { tasks = []; is_borrowed = true }) in
        r.2.new_tasks ≡ x ∷ xs
        → round poll_task ts s
          ≡ (record r.2 { tasks = r.0 ++ (x ∷ xs); new_tasks = []; is_borrowed = false }, r.1, true)
  unfolding round
  round_again ts s x xs e = ground (arith, e)

  -- Where no task gets heavier, enqueuing costs a task more weight than it enqueues, and no new task
  -- waits before, the loop ends within as many rounds as the tasks weigh, and one. Then no new task is
  -- left over, and each task that is left has been polled and is pending.
  pub poll-ends :
      (fuel : ℕ) (ts : Tasks T) (s : S)
      → GetsLighter
      → ts.new_tasks ≡ []
      → total weight ts.tasks < fuel
      → (r : Tasks T × S) × (poll_rounds poll_task fuel ts s ≡ some r)
        × (r.0.new_tasks ≡ [])
        × All IsPending r.0.tasks
  unfolding poll_rounds
  poll-ends zero ts s lighter e h = elim h [ ]
  poll-ends (suc fuel) ts s lighter e h =
      let queue = record ts { tasks = []; is_borrowed = true } in
      let r = poll_each poll_task ts.tasks s queue in
      let (spawned, n, l, a) = poll_each_lem lighter ts.tasks s queue refl in
      let n' : r.2.new_tasks ≡ spawned = n ∙ rw e refl in
      elim (List-cases spawned) [
        | inl k ↦
            let last = round_last ts s (n' ∙ k) in
            (
              (record r.2 { tasks = r.0; is_borrowed = false }, r.1),
              rw (poll_rounds, last) (ap (λ (q : Tasks T × S × Bool). some (q.0, q.1)) last),
              n' ∙ k,
              a,
            )
        | inr (x, xs, k) ↦
            let again = round_again ts s x xs (n' ∙ k) in
            let next = record r.2 {
              tasks = r.0 ++ (x ∷ xs);
              new_tasks = [];
              is_borrowed = false;
            } in
            let (o, p, q, z) =
              poll-ends fuel next r.1 lighter refl
                (omega (arith, l, h, ap (cost weight) k, total-append weight r.0 (x ∷ xs))) in
            (
              o,
              rw (poll_rounds, again)
                  (ap (λ (n : Tasks T × S × Bool). poll_rounds poll_task fuel n.0 n.1) again ∙ p),
              q,
              z,
            )
      ]
