-- ===== src/Server/Tasks.antt =====
-- server/src/tasks.rs: the tasks of a client. A task with its callback is a value of `T`, and the client
-- a state of `S`: what one poll of a task does to them is a parameter, as the futures are the callers'.
pub mod Rounds
use protanki_protocol_rs.Common.{
  ℕ, zero, suc, Bool, true, false, Option, none, some, List, [], ◌∷◌, ◌++◌, if◌then◌else◌,
}

-- `is_borrowed` says that `tasks` is borrowed, which is so while its tasks are polled.
pub record Tasks (T : Type 0) : Type 0 where
  pub tasks : List T
  pub new_tasks : List T
  pub waker : Bool
  pub is_borrowed : Bool

-- What a poll of one task leaves: the task, where it is not ready, the state, and the tasks that were
-- enqueued meanwhile. The callback of a task that is ready has run.
pub record Polled (T S : Type 0) : Type 0 where
  pub left : Option T
  pub state : S
  pub enqueued : List T

module _ {T : Type 0} where
  unfoldable pub new_tasks : Tasks T
  new_tasks = record { tasks = []; new_tasks = []; waker = false; is_borrowed = false }

  unfoldable pub enqueue : Tasks T → T → Tasks T
  enqueue ts task =
      if ts.is_borrowed
      then record ts { new_tasks = ts.new_tasks ++ (task ∷ []); waker = false }
      else record ts { tasks = ts.tasks ++ (task ∷ []); waker = false }

  unfoldable pub enqueue_all : Tasks T → List T → Tasks T
  unfolding enqueue
  enqueue_all ts [] = ts
  enqueue_all ts (task ∷ tasks) = enqueue_all (enqueue ts task) tasks

  abbrev pub keep : Option T → List T → List T
  keep none tasks = tasks
  keep (some task) tasks = task ∷ tasks

module _ {T S : Type 0} (poll_task : T → S → Polled T S) where
  -- `retain_mut` over the tasks, which are borrowed: what is left, the state, and the queue.
  unfoldable pub poll_each : List T → S → Tasks T → List T × S × Tasks T
  unfolding enqueue_all
  poll_each [] state ts = ([], state, ts)
  poll_each (task ∷ tasks) state ts =
      let polled = poll_task task state in
      let rest = poll_each tasks polled.state (enqueue_all ts polled.enqueued) in
      (keep polled.left rest.0, rest.1, rest.2)

  -- One round of the loop: the flag is whether the loop goes on.
  unfoldable pub round : Tasks T → S → Tasks T × S × Bool
  unfolding poll_each
  round ts state =
      let (left, state', ts') =
        poll_each ts.tasks state (record ts { tasks = []; is_borrowed = true }) in
      elim ts'.new_tasks [
        | [] ↦ (record ts' { tasks = left; is_borrowed = false }, state', false)
        | task ∷ tasks ↦ (
          record ts' { tasks = left ++ (task ∷ tasks); new_tasks = []; is_borrowed = false },
          state',
          true,
        )
      ]

  -- `Tasks::poll`, with fuel for the rounds. `none` is out of fuel.
  unfoldable pub poll_rounds : ℕ → Tasks T → S → Option (Tasks T × S)
  unfolding round
  poll_rounds zero ts state = none
  poll_rounds (suc fuel) ts state =
      let next = round ts state in
      elim next.2 [ true ↦ poll_rounds fuel next.0 next.1 | false ↦ some (next.0, next.1) ]

  unfoldable pub poll : ℕ → Tasks T → S → Option (Tasks T × S)
  unfolding poll_rounds
  poll fuel ts state = poll_rounds fuel (record ts { waker = true }) state
