-- ===== src/Transport/Peer/Runs.antt =====
-- No round of one end of a data channel panics.
use wraft.Base.{
  ◌||◌, not, ℕ, ◌+◌, ◌<◌, ◌^◌, ◌≡◌, refl, Option, inl, inr, none, some, List, [], ◌∷◌, Outcome, ok,
  arith, Bool-cases,
}
use wraft.Raft.Types.{TransportError}
use wraft.RingBuf as RingBuf
use wraft.RingBuf.{added, overflow}
use wraft.RingBuf.Window.{IsValid, find}
use wraft.RingBuf.Laws.{add_lem}
use wraft.RingBuf.Remove.{remove_lem}
use wraft.Transport.{
  Message, request, response, Sent, Manager, handle_request, handle_response, handle_timeout,
  after_add, after_send,
}
use wraft.Transport.Peer.{
  Peer, Event, called, messaged, request_round, response_round, timeout_round, serve_round, lost,
  dropped, Out, Round, step, take_request, take_response, after_round, manager_step, stop,
}
use wraft.Transport.Peer.Managed.{HasRoom, IsManaged}
use wraft.Transport.Peer.Settled.{IsPeer}

abbrev Returns : {A : Type 0} → Outcome A → Type 0
Returns {A} r = (a : A) × (r ≡ ok a)

remove-Returns : (m : Manager) (idx : ℕ) → IsValid m → Returns (RingBuf.remove m idx)
remove-Returns m idx v = elim (remove_lem m idx v) [
  | inl (nothing, ran) ↦ (_, ran)
  | inr (value, u, waits, ran, valid, others, skipped) ↦ (_, ran)
]

module _ {Req Resp : Type 0} where
  response-Returns :
      (m : Manager) (msg : Message Req Resp) → IsValid m → Returns (handle_response m msg)
  unfolding handle_response
  response-Returns m (response idx resp) v =
      let (r, ran) = remove-Returns m idx v in rw ran (_, refl)
  response-Returns m (request idx req) v = (_, refl)

  timeout-Returns :
      (m : Manager) (idx : ℕ) → IsValid m → Returns (handle_timeout {Req = Req} {Resp = Resp} m idx)
  unfolding handle_timeout
  timeout-Returns m idx v = let (r, ran) = remove-Returns m idx v in rw ran (_, refl)

  sent-Returns :
      (m : Manager) (idx : ℕ) (msg : Message Req Resp) (tx : ℕ) (error : Option TransportError)
      → IsValid m
      → find m idx ≡ some tx
      → Returns (after_send m idx msg error)
  unfolding after_send
  sent-Returns m idx msg tx none v here = (_, refl)
  sent-Returns m idx msg tx (some error) v here = elim (remove_lem m idx v) [
    | inl (nothing, ran) ↦ absurd (ground (arith, nothing, here))
    | inr (value, u, waits, ran, valid, others, skipped) ↦ rw ran (_, refl)
  ]

  request-Returns :
      (m : Manager) (req : Req) (tx : ℕ) (error : Option TransportError)
      → IsValid m
      → m.next_idx + 1 < 2 ^ 32
      → Returns (handle_request {Resp = Resp} m req tx error)
  unfolding handle_request after_add
  request-Returns m req tx error v room = elim (add_lem m tx v room) [
    | inl (full, ran) ↦ rw ran (_, refl)
    | inr (narrow, (r, ran, valid, next, free, others)) ↦
        let here : find r m.next_idx ≡ some tx = ground (arith, others m.next_idx) in
        rw ran (sent-Returns r m.next_idx (request m.next_idx req) tx error valid here)
  ]

  after_round-Returns :
      (q : Peer Req Resp) (r : Outcome (Manager × List (Sent Req Resp)))
      → Returns r
      → Returns (after_round q r)
  after_round-Returns q r (s, ran) = rw ran (_, refl)

  take_request-Returns :
      (requests : List (Req × ℕ)) (p : Peer Req Resp) (m : Manager) (error : Option TransportError)
      → IsValid m
      → m.next_idx + 1 < 2 ^ 32
      → Returns (take_request requests p m error)
  unfolding take_request
  take_request-Returns [] p m error v room = elim (Bool-cases p.closed) [
    | inl gone ↦ (stop p m, ground (arith, gone))
    | inr open_still ↦ ((p, []), ground (arith, open_still))
  ]
  take_request-Returns ((req, tx) ∷ rest) p m error v room =
      after_round-Returns (record p { requests = rest }) (handle_request m req tx error)
        (request-Returns m req tx error v room)

  take_response-Returns :
      (responses : List (Message Req Resp)) (p : Peer Req Resp) (m : Manager)
      → IsValid m
      → Returns (take_response responses p m)
  unfolding take_response
  take_response-Returns [] p m v = elim (Bool-cases (p.closed || not p.serving)) [
    | inl gone ↦ (stop p m, ground (arith, gone))
    | inr open_still ↦ ((p, []), ground (arith, open_still))
  ]
  take_response-Returns (msg ∷ rest) p m v =
      after_round-Returns (record p { responses = rest }) (handle_response m msg)
        (response-Returns m msg v)

  managed-Returns :
      (p : Peer Req Resp) (manager : Option Manager) (go : Manager → Round Req Resp)
      → IsManaged manager
      → HasRoom manager
      → ((m : Manager) → IsValid m → m.next_idx + 1 < 2 ^ 32 → Returns (go m))
      → Returns (manager_step manager p go)
  managed-Returns p none go valid room returns = (_, refl)
  managed-Returns p (some m) go valid room returns = returns m valid room

  pub step-Returns :
      (p : Peer Req Resp) (ev : Event Req Resp)
      → IsPeer p
      → HasRoom p.manager
      → (r : Peer Req Resp × List (Out Req Resp)) × (step p ev ≡ ok r)
  unfolding step
  step-Returns p (called req tx) good room = (_, refl)
  step-Returns p (messaged msg) good room = (_, refl)
  step-Returns p (request_round error) good room =
      managed-Returns p p.manager _ good.0 room
        (λ m v fits. take_request-Returns p.requests p m error v fits)
  step-Returns p response_round good room =
      managed-Returns p p.manager _ good.0 room
        (λ m v fits. take_response-Returns p.responses p m v)
  step-Returns p (timeout_round idx) good room =
      managed-Returns p p.manager _ good.0 room
        (λ m v fits. after_round-Returns p (handle_timeout m idx) (timeout-Returns m idx v))
  step-Returns p (serve_round resp) good room = (_, refl)
  step-Returns p lost good room = (_, refl)
  step-Returns p dropped good room = (_, refl)
