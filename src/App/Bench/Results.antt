-- ===== src/App/Bench/Results.antt =====
-- The results that `run_update_notifier` of benchmark.rs sends to the page.
use wraft.Base.{
  ℕ, ◌+◌, ◌/◌, ◌%◌, ◌<◌, ◌^◌, ◌≡◌, List, [], ◌∷◌, map, length, arith, All, refl, ◌==◌, Bool-cases,
  inl, inr,
}
use wraft.App.Bench.{
  add_usize, BenchMsg, start, iter, Msg, bench_result, toggle_benchmark, dump_state, state_dumped,
  Notifier, notify, notify_all,
}

-- A result of a benchmark that started at a time: fifty iterations or a multiple of them.
abbrev pub IsResultOf : ℕ → Msg → Type 0
IsResultOf begun (bench_result r) = (r.start_time ≡ begun) × (r.iters % 50 ≡ 0)
IsResultOf begun toggle_benchmark = ⊥
IsResultOf begun dump_state = ⊥
IsResultOf begun (state_dumped d) = ⊥

-- Updates of applied Iters, each at its time.
abbrev pub iterations : List ℕ → List (BenchMsg × ℕ)
iterations times = map (λ now. (iter, now)) times

notify_all-iterations :
    (n : Notifier) (times : List ℕ)
    → n.iters + length times < 2 ^ 32
    → ((notify_all n (iterations times)).0 ≡ record n { iters = n.iters + length times })
      × (length (notify_all n (iterations times)).1 + n.iters / 50 ≡ (n.iters + length times) / 50)
      × All (IsResultOf n.start_time) (notify_all n (iterations times)).1
unfolding notify_all notify
notify_all-iterations n [] few = (ground arith, omega arith, tt)
notify_all-iterations n (now ∷ times) few =
    let next : Notifier = record n { iters = n.iters + 1 } in
    let (counted, sent, all) = notify_all-iterations next times (omega (arith, few)) in
    let same : add_usize n.iters 1 ≡ n.iters + 1 = omega (arith, few) in
    elim (Bool-cases ((n.iters + 1) % 50 == 0)) [
      | inl due ↦
          rw same
            (rw due (ground (arith, counted), ground (arith, sent), ((refl, ground arith), all)))
      | inr soon ↦ rw same (rw soon (ground (arith, counted), ground (arith, sent), all))
    ]

-- After a Start every fiftieth Iter brings a result, as long as a usize counts them: as many results
-- as fifty goes into the number of the Iters, each over a multiple of fifty, from the time of the
-- Start.
pub results_shown :
    (n : Notifier) (begun : ℕ) (times : List ℕ)
    → length times < 2 ^ 32
    → let r = notify_all n ((start, begun) ∷ iterations times) in
      (r.0.iters ≡ length times) × (length r.1 ≡ length times / 50) × All (IsResultOf begun) r.1
unfolding notify_all notify
results_shown n begun times few =
    let fresh : Notifier = record { start_time = begun; iters = 0 } in
    let (counted, sent, all) = notify_all-iterations fresh times (omega (arith, few)) in
    (ground (arith, counted), omega (arith, sent), all)
