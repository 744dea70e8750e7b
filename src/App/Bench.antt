-- ===== src/App/Bench.antt =====
-- wraft/src/benchmark.rs: the page's state, the task that sends the benchmark's commands, and the
-- task that counts what the cluster applies. A time is what `performance.now()` gives; it is kept.
pub mod Phase
pub mod Results
use wraft.Base.{
  ℕ, suc, ◌-◌, ◌%◌, Bool, true, false, ◌||◌, Option, none, some, List, [], ◌∷◌, ◌++◌, if◌then◌else◌,
  ltb, ◌==◌, add_usize,
}
use wraft.Raft.Types.{RaftStateDump}
use wraft.Raft.Client.{Result}
use wraft.Raft.StateMachine.{Replicated}

pub data BenchMsg : Type 0 where
  start iter : BenchMsg

pub record BenchResult : Type 0 where
  pub start_time : ℕ
  pub end_time : ℕ
  pub iters : ℕ

-- `impl raft::State for State`: there is nothing to keep.
abbrev pub bench_state : Replicated (Unit {0}) BenchMsg (Unit {0}) BenchResult BenchMsg
bench_state = record { default = tt; apply = λ st cmd. (st, cmd); get = λ st key. none }

pub data BenchState : Type 0 where
  stopped running : BenchState

pub data Msg : Type 0 where
  toggle_benchmark dump_state : Msg
  bench_result : BenchResult → Msg
  state_dumped : RaftStateDump → Msg

-- Where the task of `run_benchmarker` waits: for a toggle, or in `run_benchmark` for the answer to a
-- Start or to an Iter.
pub data Task : Type 0 where
  idle starting iterating : Task

-- `Model`, its channel of toggles with what waits in it, and the task at the other end.
pub record Model : Type 0 where
  pub state : BenchState
  pub result : Option BenchResult
  pub state_dump : Option RaftStateDump
  pub toggles : ℕ
  pub closed : Bool
  pub task : Task

pub data Effect : Type 0 where
  send : BenchMsg → Effect
  log_error ask_debug : Effect

abbrev pub flipped : BenchState → BenchState
flipped running = stopped
flipped stopped = running

-- `create`
abbrev pub created : Model
created = record {
  state = stopped;
  result = none;
  state_dump = none;
  toggles = 0;
  closed = false;
  task = idle;
}

unfoldable pub update : Model → Msg → Model × List Effect
update m toggle_benchmark = (record m { state = flipped m.state; toggles = suc m.toggles }, [])
update m (bench_result r) = (record m { result = some r }, [])
update m dump_state = (m, ask_debug ∷ [])
update m (state_dumped dump) = (record m { state_dump = some dump }, [])

-- What the task that `DumpState` spawns sends to the page.
unfoldable pub dumped : Model → Result RaftStateDump → Model × List Effect
unfolding update
dumped m (Result.ok dump) = update m (state_dumped dump)
dumped m (Result.err e) = (m, [])

-- The loop of `run_benchmark`, from its head to the next answer: `try_next` is no error when a
-- toggle waits or when the channel is closed.
unfoldable pub go_on : Model → Model × List Effect
go_on m =
    if ltb 0 m.toggles
    then (record m { toggles = m.toggles - 1; task = idle }, [])
    else if m.closed
    then (record m { task = idle }, [])
    else (record m { task = iterating }, send iter ∷ [])

-- The answer to what the task has sent.
abbrev pub answered_by : Task → Model → Bool → Model × List Effect
answered_by idle m good = (m, [])
answered_by starting m true = go_on m
answered_by starting m false = (record m { task = idle }, log_error ∷ [])
answered_by iterating m true = go_on m
answered_by iterating m false = let (m', out) = go_on m in (m', log_error ∷ out)

unfoldable pub answered : Model → Bool → Model × List Effect
answered m good = answered_by m.task m good

-- One round of the loop of `run_benchmarker`, from `bench_toggle.next()`; none when the task waits.
unfoldable pub round : Model → Option (Model × List Effect)
round m =
    if ltb 0 m.toggles
    then some (record m { toggles = m.toggles - 1; task = starting }, send start ∷ [])
    else if m.closed
    then some (m, [])
    else none

abbrev pub or_wait : Model → Option (Model × List Effect) → Model × List Effect
or_wait m none = (m, [])
or_wait m (some r) = r

-- What happens to the page and the task: a message, a dump that comes, the page that goes and with it
-- the sender of toggles, the task that is polled for a toggle, an answer.
pub data Event : Type 0 where
  message : Msg → Event
  debugged : Result RaftStateDump → Event
  dropped polled : Event
  returned : Bool → Event

abbrev pub polled_by : Task → Model → Model × List Effect
polled_by idle m = or_wait m (round m)
polled_by starting m = (m, [])
polled_by iterating m = (m, [])

unfoldable pub step : Model → Event → Model × List Effect
step m (message msg) = update m msg
step m (debugged res) = dumped m res
step m dropped = (record m { closed = true }, [])
step m polled = polled_by m.task m
step m (returned good) = answered m good

unfoldable pub run : Model → List Event → Model × List Effect
run m [] = (m, [])
run m (ev ∷ evs) = let (m', out) = step m ev in let (m'', more) = run m' evs in (m'', out ++ more)

-- `start` and `iters` of `run_update_notifier`
pub record Notifier : Type 0 where
  pub start_time : ℕ
  pub iters : ℕ

-- One round of its loop, at a time.
unfoldable pub notify : Notifier → BenchMsg → ℕ → Notifier × List Msg
notify n start now = (record { start_time = now; iters = 0 }, [])
notify n iter now =
    let iters = add_usize n.iters 1 in
    (
      record n { iters = iters },
      if iters % 50 == 0
          then bench_result (record { start_time = n.start_time; end_time = now; iters = iters })
            ∷ []
          else [],
    )

-- Its loop over updates, each with its time.
unfoldable pub notify_all : Notifier → List (BenchMsg × ℕ) → Notifier × List Msg
notify_all n [] = (n, [])
notify_all n ((msg, now) ∷ updates) =
    let (n', out) = notify n msg now in
    let (n'', more) = notify_all n' updates in (n'', out ++ more)

-- What `view` draws; a button starts or stops the benchmark.
pub record View : Type 0 where
  pub stops : Bool
  pub onclick_toggle : Msg
  pub onclick_dump : Msg
  pub result : Option BenchResult
  pub state_dump : Option RaftStateDump

abbrev pub is_running : BenchState → Bool
is_running stopped = false
is_running running = true

unfoldable pub view : Model → View
view m = record {
  stops = is_running m.state;
  onclick_toggle = toggle_benchmark;
  onclick_dump = dump_state;
  result = m.result;
  state_dump = m.state_dump;
}
