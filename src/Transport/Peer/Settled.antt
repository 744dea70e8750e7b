-- ===== src/Transport/Peer/Settled.antt =====
-- The calls of one end of a data channel, and what becomes of them.
use wraft.Base.{
  ◌||◌, not, subst, Bool-cases, ℕ, ◌+◌, ◌<◌, ◌^◌, ◌≡◌, refl, inl, inr, Bool, false, Option, none,
  some, List, [], ◌∷◌, map, arith, Outcome, ok, >>=-ok, ◌==◌, count, count-append,
}
use wraft.Raft.Types.{TransportError}
use wraft.RingBuf.Window.{IsValid}
use wraft.RingBuf.Contents.{slot_counts}
use wraft.Transport.{
  Message, Sent, send_message, answer, start_timeout, Manager, handle_request, handle_response,
}
use wraft.Transport.Peer.{
  has_returned, Peer, Event, called, Out, managed, disconnect, respond, send_done, close_connection,
  call, senders, senders_of, stop, after_round, take_request, take_response,
}
use wraft.Transport.Peer.Managed.{
  in_channel, managed_by, IsManaged, answers, Manages, request-Manages, response-Manages,
}

module _ {Req Resp : Type 0} where
  -- The call of the sender ends.
  abbrev pub ends : ℕ → Out Req Resp → Bool
  ends t (managed s) = answers t s
  ends t (disconnect tx) = tx == t
  ends t (respond msg) = false
  ends t send_done = false
  ends t close_connection = false

  abbrev pub ended : ℕ → List (Out Req Resp) → ℕ
  ended t out = count (ends t) out

  abbrev pub waits : ℕ → Peer Req Resp → ℕ
  waits t p = in_channel t p.requests + managed_by t p.manager

  -- The manager's buffer is valid, and without a manager no request waits in the channel.
  abbrev pub IsPeer : Peer Req Resp → Type 0
  IsPeer p = IsManaged p.manager × (p.manager ≡ none → p.requests ≡ [])

  -- A call that the event brings.
  abbrev pub calls : ℕ → Event Req Resp → ℕ
  calls t (called req tx) = count (λ s. s == t) (tx ∷ [])
  calls t _ = 0

  -- What waits and comes, waits on or is ended.
  abbrev pub Keeps : ℕ → Peer Req Resp → ℕ → Peer Req Resp × List (Out Req Resp) → Type 0
  Keeps t p came (p', out) = IsPeer p' × (waits t p' + ended t out ≡ waits t p + came)

  ended-managed :
      (t : ℕ) (out : List (Sent Req Resp)) → ended t (map managed out) ≡ count (answers t) out
  ended-managed t [] = refl
  ended-managed t (answer tx resp ∷ out) = ground (arith, ended-managed t out)
  ended-managed t (send_message msg ∷ out) = ended-managed t out
  ended-managed t (start_timeout idx ∷ out) = ended-managed t out

ended-senders :
    {Req : Type 0} (Resp : Type 0) (t : ℕ) (requests : List (Req × ℕ))
    → ended t (senders {Resp = Resp} requests) ≡ in_channel t requests
ended-senders Resp t [] = refl
ended-senders Resp t ((req, tx) ∷ rest) = ground (arith, ended-senders Resp t rest)

ended-senders_of :
    (Req Resp : Type 0) (t : ℕ) (slots : List (Option (ℕ × ℕ)))
    → ended t (senders_of {Req = Req} {Resp = Resp} slots)
      ≡ count (slot_counts (λ tx. tx == t)) slots
ended-senders_of Req Resp t [] = refl
ended-senders_of Req Resp t (none ∷ slots) = ended-senders_of Req Resp t slots
ended-senders_of Req Resp t (some (idx, tx) ∷ slots) =
    ground (arith, ended-senders_of Req Resp t slots)

module _ {Req Resp : Type 0} where
  stop-Keeps :
      (t : ℕ) (p : Peer Req Resp) (m : Manager) → p.manager ≡ some m → Keeps t p 0 (stop p m)
  unfolding stop
  stop-Keeps t p m here =
      let buffered : managed_by t p.manager ≡ count (slot_counts (λ tx. tx == t)) m.slots =
        rw here refl in
      let both = count-append (ends t) (senders {Resp = Resp} p.requests) (senders_of m.slots) in
      (
        (tt, λ stopped. refl),
        omega (
          arith,
          buffered,
          both,
          ended-senders Resp t p.requests,
          ended-senders_of Req Resp t m.slots,
        ),
      )

  pub after_round-Keeps :
      (t : ℕ) (p q : Peer Req Resp) (m : Manager) (new : List ℕ)
      (r : Outcome (Manager × List (Sent Req Resp))) (p' : Peer Req Resp)
      (out : List (Out Req Resp))
      → p.manager ≡ some m
      → ((m' : Manager) (sent : List (Sent Req Resp))
          → r ≡ ok (m', sent)
          → Manages t m new (m', sent))
      → in_channel t q.requests + count (λ s. s == t) new ≡ in_channel t p.requests
      → after_round q r ≡ ok (p', out)
      → Keeps t p 0 (p', out)
  after_round-Keeps t p q m new r p' out here manages taken h =
      let (s, ran, rest) = >>=-ok r _ h in
      let (valid, even) = manages s.0 s.1 ran in
      let to : p' ≡ record q { manager = some s.0 } = ground arith in
      rw to (
        (valid, λ stopped. absurd (ground arith)),
        ground (arith, even, taken, here, ended-managed t s.1),
      )

  pub call-Keeps :
      (t : ℕ) (p : Peer Req Resp) (req : Req) (tx : ℕ)
      → IsPeer p
      → Keeps t p (count (λ s. s == t) (tx ∷ [])) (call p req tx)
  unfolding call
  call-Keeps t p req tx (valid, gone) = elim (Bool-cases p.connected) [
    | inr not_connected ↦ rw not_connected ((valid, gone), ground arith)
    | inl connected ↦ elim (Bool-cases (p.closed || has_returned p.manager)) [
      | inl shut ↦ rw (connected, shut) ((valid, λ stopped. gone stopped), ground arith)
      | inr open_still ↦
          rw (connected, open_still)
            (
              (valid, λ stopped. absurd (ground (arith, stopped, open_still))),
              ground (arith, count-append (λ r. r.1 == t) p.requests ((req, tx) ∷ [])),
            )
    ]
  ]

  pub request-Keeps :
      (t : ℕ) (p p' : Peer Req Resp) (m : Manager) (requests : List (Req × ℕ))
      (error : Option TransportError) (out : List (Out Req Resp))
      → p.manager ≡ some m
      → p.requests ≡ requests
      → IsPeer p
      → IsValid m
      → m.next_idx + 1 < 2 ^ 32
      → take_request requests p m error ≡ ok (p', out)
      → Keeps t p 0 (p', out)
  unfolding take_request
  request-Keeps t p p' m [] error out here queue good valid room h = elim (Bool-cases p.closed) [
    | inl gone ↦
        let same : stop p m ≡ (p', out) = ground (arith, gone) in
        subst (Keeps t p 0) same (stop-Keeps t p m here)
    | inr open_still ↦
        let same : (p, []) ≡ (p', out) = ground (arith, open_still) in
        subst (Keeps t p 0) same (good, ground arith)
  ]
  request-Keeps t p p' m ((req, tx) ∷ rest) error out here queue good valid room h =
      after_round-Keeps t p (record p { requests = rest }) m (tx ∷ [])
        (handle_request m req tx error) p' out here
        (λ m' sent ran. request-Manages t m m' req tx error sent valid room ran)
        (ground (arith, queue)) h

  pub response-Keeps :
      (t : ℕ) (p p' : Peer Req Resp) (m : Manager) (responses : List (Message Req Resp))
      (out : List (Out Req Resp))
      → p.manager ≡ some m
      → IsPeer p
      → IsValid m
      → take_response responses p m ≡ ok (p', out)
      → Keeps t p 0 (p', out)
  unfolding take_response
  response-Keeps t p p' m [] out here good valid h = elim (Bool-cases (p.closed || not p.serving)) [
    | inl gone ↦
        let same : stop p m ≡ (p', out) = ground (arith, gone) in
        subst (Keeps t p 0) same (stop-Keeps t p m here)
    | inr open_still ↦
        let same : (p, []) ≡ (p', out) = ground (arith, open_still) in
        subst (Keeps t p 0) same (good, ground arith)
  ]
  response-Keeps t p p' m (msg ∷ rest) out here good valid h =
      after_round-Keeps t p (record p { responses = rest }) m [] (handle_response m msg) p' out here
        (λ m' sent ran. response-Manages t m m' msg sent valid ran) (ground arith) h
