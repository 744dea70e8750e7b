-- ===== src/Transport/Answers.antt =====
-- The answers that `RequestManager` gives to the senders of requests.
use wraft.Base.{
  ℕ, ◌+◌, ◌<◌, ◌≤◌, ◌^◌, ◌≡◌, refl, ◌∙◌, ◌⊎◌, inl, inr, Option, none, some, List, [], ◌∷◌, ◌++◌,
  arith, ok, ◌>>=◌, if◌then◌else◌, ◌==◌, length,
}
use wraft.Raft.Types.{TransportError, request_timeout, too_many_in_flight_requests}
use wraft.RingBuf
use wraft.RingBuf.{added, overflow}
use wraft.RingBuf.Window.{IsValid, find}
use wraft.RingBuf.Laws.{add_lem}
use wraft.RingBuf.Remove.{remove_lem}
use wraft.Transport.{
  Reply, failed, request, response, Sent, send_message, answer, start_timeout, Event, requested,
  received, timed_out, Manager, Handled, after_send, after_add, handle_request, answer_to,
  handle_response, handle_timeout, step, run,
}

module _ {Req Resp : Type 0} where
  -- The end of a request: what waits under `idx` is answered with `resp` and waits no more; if
  -- nothing waits there, nothing happens.
  abbrev pub Settles : Manager → ℕ → Reply Resp → Handled Req Resp → Type 0
  Settles m idx resp h =
      ((find m idx ≡ none) × (h ≡ ok (m, [])))
      ⊎ ((tx : ℕ) × (m' : Manager) × (find m idx ≡ some tx)
          × (h ≡ ok (m', answer tx resp ∷ []))
          × IsValid m'
          × (m'.next_idx ≡ m.next_idx)
          × ((j : ℕ) → find m' j ≡ (if idx == j then none else find m j)))

  settles :
      (m : Manager) (idx : ℕ) (resp : Reply Resp)
      → IsValid m
      → Settles m idx resp (RingBuf.remove m idx >>= λ (m', found). ok (m', answer_to found resp))
  unfolding answer_to
  settles m idx resp v = elim (remove_lem m idx v) [
    | inl (nothing, same) ↦ inl (nothing, rw same refl)
    | inr (tx, m', waits, ran, valid, rest, skipped) ↦
        inr (tx, m', waits, rw ran refl, valid, skipped.2, rest)
  ]

  -- A response, and a timeout, settle the request of their index and no other.
  pub response_lem :
      (m : Manager) (idx : ℕ) (resp : Reply Resp)
      → IsValid m
      → Settles m idx resp (step m (received (response idx resp)))
        × Settles m idx (failed request_timeout) (step m (timed_out idx))
  unfolding step handle_response handle_timeout
  response_lem m idx resp v = (settles m idx resp v, settles m idx (failed request_timeout) v)

  -- A request that finds the window full is answered at once, and so is one whose message the data
  -- channel refuses; both leave what waits as it was. Any other request is sent under a new number,
  -- with a timeout, and its sender waits under that number.
  pub request_lem :
      (m : Manager) (req : Req) (tx : ℕ) (error : Option TransportError)
      → IsValid m
      → m.next_idx + 1 < 2 ^ 32
      → let h : Handled Req Resp = step m (requested req tx error) in
        ((m.next_idx ≡ m.min_idx + m.capacity)
          × (h ≡ ok (m, answer tx (failed too_many_in_flight_requests) ∷ [])))
        ⊎ ((m' : Manager) × IsValid m'
            × (m'.next_idx ≡ m.next_idx + 1)
            × (find m m.next_idx ≡ none)
            × (((error ≡ none)
                  × (h
                      ≡ ok (
                        m',
                        send_message (request m.next_idx req) ∷ start_timeout m.next_idx ∷ [],
                      ))
                  × ((j : ℕ) → find m' j ≡ (if m.next_idx == j then some tx else find m j)))
                ⊎ ((e : TransportError) × (error ≡ some e)
                    × (h ≡ ok (m', answer tx (failed e) ∷ []))
                    × ((j : ℕ) → find m' j ≡ find m j))))
  unfolding step handle_request after_add after_send
  request_lem m req tx none v room = elim (add_lem m tx v room) [
    | inl (full, ran) ↦ inl (full, rw ran refl)
    | inr (narrow, (m', ran, valid, next, fresh, rest)) ↦
        inr (m', valid, next, fresh, inl (refl, rw ran refl, rest))
  ]
  request_lem m req tx (some e) v room = elim (add_lem m tx v room) [
    | inl (full, ran) ↦ inl (full, rw ran refl)
    | inr (narrow, (m', ran, valid, next, fresh, rest)) ↦ elim (remove_lem m' m.next_idx valid) [
      | inl (nothing, same) ↦ absurd (ground (arith, rest m.next_idx))
      | inr (sender, m'', waits, removed, valid', rest', skipped) ↦
          let same : sender ≡ tx = ground (arith, rest m.next_idx) in
          inr (
            m'',
            valid',
            skipped.2 ∙ next,
            fresh,
            inr (
              e,
              refl,
              rw (ran, removed, same) refl,
              λ j. ground (arith, rest j, rest' j, fresh),
            ),
          )
    ]
  ]

  -- A round of a valid manager: it goes well, and what no longer waits stays so.
  round :
      (m : Manager) (ev : Event Req Resp)
      → IsValid m
      → m.next_idx + 1 < 2 ^ 32
      → (m' : Manager) × (out : List (Sent Req Resp)) × (step m ev ≡ ok (m', out))
        × IsValid m'
        × (m.next_idx ≤ m'.next_idx)
        × (m'.next_idx ≤ m.next_idx + 1)
        × ((idx : ℕ) → idx < m.next_idx → find m idx ≡ none → find m' idx ≡ none)
  unfolding step handle_response
  round m (requested req tx error) v room = elim (request_lem m req tx error v room) [
    | inl (full, ran) ↦ (m, _, ran, v, omega arith, omega arith, λ idx lt gone. gone)
    | inr (m', valid, next, fresh, inl (none_left, ran, rest)) ↦
        (m', _, ran, valid, omega arith, omega arith, λ idx lt gone. ground (arith, rest idx))
    | inr (m', valid, next, fresh, inr (e, is_e, ran, rest)) ↦
        (m', _, ran, valid, omega arith, omega arith, λ idx lt gone. ground (arith, rest idx))
  ]
  round m (received (request idx req)) v room =
      (m, [], refl, v, omega arith, omega arith, λ j lt gone. gone)
  round m (received (response idx resp)) v room = elim ((response_lem m idx resp v).0) [
    | inl (nothing, ran) ↦ (m, [], ran, v, omega arith, omega arith, λ j lt gone. gone)
    | inr (tx, m', waits, ran, valid, next, rest) ↦
        (m', _, ran, valid, omega arith, omega arith, λ j lt gone. ground (arith, rest j))
  ]
  round m (timed_out idx) v room = elim ((response_lem m idx (failed request_timeout) v).1) [
    | inl (nothing, ran) ↦ (m, [], ran, v, omega arith, omega arith, λ j lt gone. gone)
    | inr (tx, m', waits, ran, valid, next, rest) ↦
        (m', _, ran, valid, omega arith, omega arith, λ j lt gone. ground (arith, rest j))
  ]

  -- A run of a valid manager, as long as the numbers last, does not panic and leaves it valid.
  rounds :
      (m : Manager) (evs : List (Event Req Resp))
      → IsValid m
      → m.next_idx + length evs < 2 ^ 32
      → (m' : Manager) × (out : List (Sent Req Resp)) × (run m evs ≡ ok (m', out))
        × IsValid m'
        × ((idx : ℕ) → idx < m.next_idx → find m idx ≡ none → find m' idx ≡ none)
  unfolding run
  rounds m [] v room = (m, [], refl, v, λ idx lt gone. gone)
  rounds m (ev ∷ evs) v room =
      let (m1, out1, ran1, v1, above, below, keeps1) = round m ev v (omega arith) in
      let (m2, out2, ran2, v2, keeps2) = rounds m1 evs v1 (omega arith) in
      (
        m2,
        out1 ++ out2,
        rw (ran1, ran2) refl,
        v2,
        λ idx lt gone. keeps2 idx (omega arith) (keeps1 idx lt gone),
      )

  -- Once a request is settled, whatever happens then, as long as the numbers last: nothing panics,
  -- and its response and its timeout, when they come, send nothing and change nothing.
  pub settled_once :
      (m : Manager) (idx : ℕ) (evs : List (Event Req Resp)) (resp : Reply Resp)
      → IsValid m
      → m.next_idx + length evs < 2 ^ 32
      → idx < m.next_idx
      → find m idx ≡ none
      → (m' : Manager) × (out : List (Sent Req Resp)) × (run m evs ≡ ok (m', out))
        × (step {Req = Req} m' (received (response idx resp)) ≡ ok (m', []))
        × (step {Req = Req} {Resp = Resp} m' (timed_out idx) ≡ ok (m', []))
  settled_once m idx evs resp v room old gone =
      let (m', out, ran, v', keeps) = rounds m evs v room in
      let (late, timeout) = response_lem m' idx resp v' in
      (
        m',
        out,
        ran,
        settled m' idx resp _ (keeps idx old gone) late,
        settled m' idx (failed request_timeout) _ (keeps idx old gone) timeout,
      )
    where
      settled :
          (m : Manager) (idx : ℕ) (resp : Reply Resp) (h : Handled Req Resp)
          → find m idx ≡ none
          → Settles m idx resp h
          → h ≡ ok (m, [])
      settled m idx resp h gone (inl (nothing, ran)) = ran
      settled m idx resp h gone (inr (tx, m', waits, ran, v, next, rest)) = cc
