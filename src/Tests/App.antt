-- ===== src/Tests/App.antt =====
-- A browser, a page of the todo list and runs of the benchmark.
use wraft.Base.{
  ◌≢◌, ℕ, ◌+◌, ◌%◌, ◌≡◌, refl, Bool, true, false, Option, some, none, List, [], ◌∷◌, ◌++◌, arith,
  ok, All, ◌==◌, if◌then◌else◌,
}
use wraft.Todo.{Str, Entry, Filter, State, toggle, edit, fits}
use wraft.Todo as Todo
use wraft.App.Startup.{
  hash_sign, get_session_key, waiting, render_waiting, start_raft, update_session_key, join_cluster,
}
use wraft.App.Startup as Startup
use wraft.App.Startup.Links.{IsFragment, Joins, links_join}
use wraft.App.Page.{view, view_entry, raft_callback}
use wraft.App.Page.Clicks.{Draws, row-Draws}
use wraft.App.Page.Retries.{late, in_time, apply_all, late_edit_removes}
use wraft.App.Bench.{
  Event, message, polled, returned, dropped, toggle_benchmark, Model, created, run, answered, idle,
  Notifier, notify_all, start,
}
use wraft.App.Bench.Phase.{shown, busy, failed_starts, shown-busy, rounds, spins}

-- What stands behind the first hash sign, with it.
fragment : Str → Option Str
fragment [] = none
fragment (c ∷ cs) = let rest = fragment cs in if c == hash_sign then some (c ∷ cs) else rest

-- An address in which no hash sign stands.
abbrev IsPlain : Str → Type 0
IsPlain [] = Unit {0}
IsPlain (c ∷ cs) = (c ≢ hash_sign) × IsPlain cs

fragment-IsFragment : IsFragment IsPlain fragment
unfolding fragment
fragment-IsFragment [] rest plain digits some_rest = refl
fragment-IsFragment (c ∷ cs) rest (first, plain) digits some_rest =
    ground (arith, fragment-IsFragment cs rest plain digits some_rest, first)

-- "wraft1.eu" and "/todo"
abbrev hostname : Str
hostname = 119 ∷ 114 ∷ 97 ∷ 102 ∷ 116 ∷ 49 ∷ 46 ∷ 101 ∷ 117 ∷ []

abbrev path : Str
path = 47 ∷ 116 ∷ 111 ∷ 100 ∷ 111 ∷ []

abbrev page : Startup.Model ℕ
page = record { session_key = []; state = waiting 48879 }

links_join_example :
    (shown : Str) × (links : List Str) × (Startup.view hostname path 3 page
      ≡ render_waiting shown links)
    × All (λ link. Joins ℕ 48879 (get_session_key (fragment link))) links
    × (Startup.update (Startup.update page 5 (update_session_key shown)).0 5 join_cluster
        ≡ (record { session_key = shown; state = waiting 48879 }, true, start_raft 48879 ∷ []))
unfolding wraft.App.Startup.split_once
links_join_example =
    links_join ℕ IsPlain fragment hostname path 3 5 48879 page page fragment-IsFragment
      (ground arith) (omega arith) refl

abbrev entry : ℕ → Bool → Entry
entry c done = record { description = c ∷ []; completed = done; editing = false }

abbrev list : State
list = record {
  entries = entry 65 true ∷ entry 66 false ∷ entry 67 false ∷ [];
  filter = Filter.active;
  value = [];
  edit_value = 68 ∷ [];
}

row-Draws_example :
    (xs : List Entry) × (e : Entry) × (ys : List Entry) × Draws list 1
      (view_entry list 1 (entry 67 false))
      xs
      e
      ys
unfolding view
row-Draws_example = row-Draws list 1 (view_entry list 1 (entry 67 false)) refl

late_edit_removes_example :
    (raft_callback (edit 0) (late ∷ in_time ∷ []) ≡ edit 0 ∷ edit 0 ∷ [])
    × (apply_all list (raft_callback (edit 0) (late ∷ in_time ∷ []))
        ≡ ok (record list {
          entries = (entry 65 true ∷ []) ++ entry 67 false ∷ [];
          edit_value = [];
        }))
unfolding Todo.trim Todo.trim_end Todo.trim_start Todo.is_whitespace
late_edit_removes_example =
    late_edit_removes list 0 (entry 65 true ∷ []) (entry 67 false ∷ []) (entry 66 false) []
      (refl, refl, refl) refl

-- The benchmark starts, but the cluster does not take its Start; the user stops it, and starts it so.
abbrev events : List Event
events =
    message toggle_benchmark
    ∷ polled
    ∷ returned false
    ∷ message toggle_benchmark
    ∷ polled
    ∷ returned true
    ∷ []

shown-busy_example :
    shown (run created events).0.state
    ≡ (busy (run created events).0.task + failed_starts created events) % 2
unfolding run wraft.App.Bench.step answered wraft.App.Bench.update wraft.App.Bench.round
    wraft.App.Bench.go_on
shown-busy_example = shown-busy events (ground arith) refl

events-shown : (shown (run created events).0.state ≡ 0) × (busy (run created events).0.task ≡ 1)
unfolding run wraft.App.Bench.step answered wraft.App.Bench.update wraft.App.Bench.round
    wraft.App.Bench.go_on
events-shown = (refl, refl)

abbrev left : Model
left = (run created (message toggle_benchmark ∷ polled ∷ returned true ∷ dropped ∷ [])).0

spins_example :
    ((answered left true).0.task ≡ idle)
    × (rounds 1000 (answered left true).0 ≡ some ((answered left true).0, []))
unfolding run wraft.App.Bench.step answered wraft.App.Bench.update wraft.App.Bench.round
    wraft.App.Bench.go_on
spins_example = spins left true 1000 refl refl
