-- ===== src/App/Bench/Phase.antt =====
-- The page's state and the task's in benchmark.rs, and the task that is left when the page goes.
use wraft.Base.{
  zero, none, ◌⊎◌, ℕ, suc, ◌+◌, ◌%◌, ◌≡◌, refl, Bool, true, false, List, [], ◌∷◌, ◌++◌, Option,
  some, arith, inl, inr, All,
}
use wraft.App.Bench.{
  BenchState, stopped, running, Task, idle, starting, iterating, Model, Effect, Event, message,
  debugged, dropped, polled, returned, Msg, toggle_benchmark, dump_state, bench_result,
  state_dumped, created, step, run, update, answered, go_on, round,
}
use wraft.App.Bench as Bench
use wraft.Raft.Client.{Result}

abbrev pub shown : BenchState → ℕ
shown stopped = 0
shown running = 1

abbrev pub busy : Task → ℕ
busy idle = 0
busy starting = 1
busy iterating = 1

abbrev pub failing : Task → Event → ℕ
failing starting (returned false) = 1
failing _ _ = 0

-- The sends of Start in a run that fail.
abbrev pub failed_starts : Model → List Event → ℕ
failed_starts m [] = 0
failed_starts m (ev ∷ evs) = failing m.task ev + failed_starts (step m ev).0 evs

abbrev pub IsOpen : Event → Type 0
IsOpen dropped = ⊥
IsOpen _ = Unit {0}

shown_cases : (st : BenchState) → (shown st ≡ 0) ⊎ (shown st ≡ 1)
shown_cases stopped = inl refl
shown_cases running = inr refl

step-phase :
    (m : Model) (ev : Event)
    → m.closed ≡ false
    → IsOpen ev
    → ((step m ev).0.closed ≡ false)
      × (((shown (step m ev).0.state + busy (step m ev).0.task) + (step m ev).0.toggles) % 2
          ≡ (((shown m.state + busy m.task) + m.toggles) + failing m.task ev) % 2)
unfolding step update Bench.dumped answered go_on round
step-phase m (message toggle_benchmark) open_now kept = ground arith
step-phase m (message dump_state) open_now kept = ground arith
step-phase m (message (bench_result r)) open_now kept = ground arith
step-phase m (message (state_dumped d)) open_now kept = ground arith
step-phase m (debugged (Result.ok d)) open_now kept = ground arith
step-phase m (debugged (Result.err e)) open_now kept = ground arith
step-phase m dropped open_now kept = absurd kept
step-phase m polled open_now kept = ground arith
step-phase m (returned good) open_now kept = ground arith

run-phase :
    (m : Model) (evs : List Event)
    → m.closed ≡ false
    → All IsOpen evs
    → ((shown (run m evs).0.state + busy (run m evs).0.task) + (run m evs).0.toggles) % 2
      ≡ (((shown m.state + busy m.task) + m.toggles) + failed_starts m evs) % 2
unfolding run
run-phase m [] open_now kept = ground arith
run-phase m (ev ∷ evs) open_now (first, rest) =
    let (still, here) = step-phase m ev open_now first in
    omega (arith, here, run-phase (step m ev).0 evs still rest)

-- While the page stays, whatever else happens to it and to its task: once the task has taken every
-- toggle, the page shows a running benchmark just when the task runs one if the sends of Start that
-- failed are even in number, and just when it runs none if they are odd.
pub shown-busy :
    (evs : List Event)
    → All IsOpen evs
    → (run created evs).0.toggles ≡ 0
    → shown (run created evs).0.state
      ≡ (busy (run created evs).0.task + failed_starts created evs) % 2
shown-busy evs kept taken =
    omega (arith, run-phase created evs refl kept, taken, shown_cases (run created evs).0.state)

-- Rounds of the loop of `run_benchmarker`; none when one waits.
unfoldable pub rounds : ℕ → Model → Option (Model × List Effect)
unfolding round
rounds zero m = some (m, [])
rounds (suc n) m = elim (round m) [
  | none ↦ none
  | some r ↦ elim (rounds n r.0) [ none ↦ none | some q ↦ some (q.0, r.1 ++ q.1) ]
]

rounds-gone : (m : Model) (n : ℕ) → m.closed ≡ true → m.toggles ≡ 0 → rounds n m ≡ some (m, [])
unfolding rounds round
rounds-gone m zero gone taken = refl
rounds-gone m (suc n) gone taken = ground (arith, rounds-gone m n gone taken)

-- When the page has gone and no toggle is left, the task goes back to the loop that waits for
-- toggles with the answer to what it has sent, if to anything, and then that loop goes round any
-- number of times without waiting, and changes and sends nothing: it never yields again.
pub spins :
    (m : Model) (good : Bool) (n : ℕ)
    → m.closed ≡ true
    → m.toggles ≡ 0
    → ((answered m good).0.task ≡ idle)
      × (rounds n (answered m good).0 ≡ some ((answered m good).0, []))
unfolding answered go_on
spins m good n gone taken =
    let closed : (answered m good).0.closed ≡ true = ground arith in
    let none_left : (answered m good).0.toggles ≡ 0 = ground arith in
    (ground arith, rounds-gone (answered m good).0 n closed none_left)
