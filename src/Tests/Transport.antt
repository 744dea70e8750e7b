-- ===== src/Tests/Transport.antt =====
-- A request manager with nothing in flight, and one with a request.
use wraft.Base.{
  ℕ, ◌≢◌, ◌+◌, ◌<◌, ◌^◌, ◌≡◌, refl, Option, none, some, List, [], ◌∷◌, arith, ok, zero, suc,
  get_elem?,
}
use wraft.Raft.Types.{TransportError}
use wraft.RingBuf.{with_capacity}
use wraft.RingBuf.Window.{IsValid, SlotFits, find, with_capacity-IsValid}
use wraft.Transport.{
  replied, request, response, send_message, answer, start_timeout, Event, requested, received,
  timed_out, Manager, step, max_in_flight_requests, Handled,
}
use wraft.Transport.{Reply, Message}
use wraft.Transport.Calls.{serve_passed, on_message, to_manager, call_returns}

abbrev idle : Manager
idle = with_capacity max_in_flight_requests

idle-IsValid : IsValid idle
idle-IsValid = (with_capacity-IsValid ℕ 1024 (omega arith) (omega arith)).0

idle_next : idle.next_idx + 1 < 2 ^ 32
unfolding with_capacity
idle_next = omega arith

-- The data channel takes the message.
abbrev accepted : Option TransportError
accepted = none

abbrev handled : Handled ℕ ℕ
handled = step idle (requested 8 5 accepted)

-- Two numbers given out: the first is settled, a sender waits under the second.
abbrev waiting : Manager
waiting = record { slots = none ∷ some (1, 6) ∷ none ∷ []; capacity = 3; min_idx = 1; next_idx = 2 }

waiting_fits :
    (i : ℕ) (slot : Option (ℕ × ℕ))
    → get_elem? waiting.slots i ≡ some slot
    → SlotFits waiting i slot
waiting_fits i none here = tt
waiting_fits zero (some (j, v)) here = cc
waiting_fits (suc zero) (some (j, v)) here = ground arith
waiting_fits (suc (suc zero)) (some (j, v)) here = cc
waiting_fits (suc (suc (suc i))) (some (j, v)) here = cc

waiting-IsValid : IsValid waiting
waiting-IsValid = record {
  room = omega arith;
  small = omega arith;
  size = refl;
  ordered = omega arith;
  narrow = omega arith;
  word = omega arith;
  fits = waiting_fits;
}

abbrev events : List (Event ℕ ℕ)
events = received (response 1 (replied 9)) ∷ requested 8 7 none ∷ timed_out 1 ∷ []

idle_free : idle.next_idx ≢ idle.min_idx + idle.capacity
unfolding with_capacity
idle_free = omega arith

-- The other end answers a number with the next one.
abbrev next_number : ℕ → Reply ℕ
next_number n = replied (n + 1)

call_returns_example :
    (idx : ℕ) × (m1 : Manager) × (m2 : Manager) × (back : Message ℕ ℕ) × (step {Req = ℕ} {Resp = ℕ}
        idle
        (requested 8 5 none)
      ≡ ok (m1, send_message (request idx 8) ∷ start_timeout idx ∷ []))
    × (serve_passed {Req = ℕ} {Resp = ℕ} next_number (on_message (request idx 8)) ≡ back ∷ [])
    × (on_message back ≡ to_manager back)
    × (step {Req = ℕ} {Resp = ℕ} m1 (received back) ≡ ok (m2, answer 5 (replied 9) ∷ []))
    × ((j : ℕ) → find m2 j ≡ find idle j)
call_returns_example = call_returns idle 8 5 next_number idle-IsValid idle_next idle_free
