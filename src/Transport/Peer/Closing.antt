-- ===== src/Transport/Peer/Closing.antt =====
-- Courses of one end of a data channel, until its manager returns.
use wraft.Base.{
  ◌||◌, not, ℕ, ◌+◌, ◌≡◌, refl, subst, Option-cases, Bool-cases, inl, inr, none, some, List, [],
  ◌∷◌, ◌++◌, arith, ok, ◌==◌, count-append,
}
use wraft.RingBuf.Contents.{contents-with_capacity}
use wraft.Transport.Calls.{on_answer}
use wraft.RingBuf.Window.{with_capacity-IsValid}
use wraft.Transport.{
  Message, request, response, Manager, handle_timeout, max_in_flight_requests, new_manager, Reply,
}
use wraft.Transport.Peer.{
  onclose, manager_step, on_answer, Round, Peer, Event, called, messaged, request_round,
  response_round, timeout_round, serve_round, lost, dropped, Out, start, call, onmessage, serve,
  drop, step, take_request, take_response, after_round,
}
use wraft.Transport.Peer.Managed.{IsManaged, HasRoom, timeout-Manages}
use wraft.Transport.Peer.Settled.{
  IsPeer, Keeps, waits, ends, ended, calls, call-Keeps, request-Keeps, response-Keeps,
  after_round-Keeps,
}
use wraft.Transport.Peer.Runs.{step-Returns}

module _ {Req Resp : Type 0} where
  onmessage-Keeps :
      (t : ℕ) (p : Peer Req Resp) (msg : Message Req Resp)
      → IsPeer p
      → Keeps t p 0 (onmessage p msg, [])
  unfolding onmessage
  onmessage-Keeps t p (request idx req) good = elim (Bool-cases (p.closed || not p.serving)) [
    | inl shut ↦ rw shut (good, ground arith)
    | inr taken ↦ rw taken (good, ground arith)
  ]
  onmessage-Keeps t p (response idx resp) good = elim (Bool-cases (p.closed || not p.serving)) [
    | inl shut ↦
        let same : (p, []) ≡ (onmessage p (response idx resp), []) = ground (arith, shut) in
        subst (Keeps t p 0) same (good, ground arith)
    | inr taken ↦
        let q : Peer Req Resp = record p { responses = p.responses ++ response idx resp ∷ [] } in
        let same : (q, []) ≡ (onmessage p (response idx resp), []) = ground (arith, taken) in
        subst (Keeps t p 0) same (good, ground arith)
  ]

  serve-Keeps :
      (t : ℕ) (p : Peer Req Resp) (passed : List (ℕ × Req)) (resp : Reply Resp)
      → IsPeer p
      → Keeps t p 0 (serve passed p resp)
  unfolding serve on_answer
  serve-Keeps t p [] resp good = (good, ground arith)
  serve-Keeps t p ((idx, req) ∷ rest) resp good = (good, ground arith)

  drop-Keeps : (t : ℕ) (p : Peer Req Resp) → IsPeer p → Keeps t p 0 (drop p)
  unfolding drop
  drop-Keeps t p good = elim (Bool-cases p.serving) [
    | inl there ↦ rw there (good, ground arith)
    | inr gone ↦ rw gone (good, ground arith)
  ]

  onclose-Keeps : (t : ℕ) (p : Peer Req Resp) → IsPeer p → Keeps t p 0 (onclose p, [])
  unfolding onclose
  onclose-Keeps t p good = elim (Bool-cases p.serving) [
    | inl there ↦ rw there (good, ground arith)
    | inr gone ↦ rw gone (good, ground arith)
  ]

  -- A round on a manager that is there; without one nothing happens.
  managed-Keeps :
      (t : ℕ) (p p' : Peer Req Resp) (out : List (Out Req Resp)) (go : Manager → Round Req Resp)
      → IsPeer p
      → ((m : Manager) → p.manager ≡ some m → go m ≡ ok (p', out) → Keeps t p 0 (p', out))
      → manager_step p.manager p go ≡ ok (p', out)
      → Keeps t p 0 (p', out)
  managed-Keeps t p p' out go good keeps h = elim (Option-cases p.manager) [
    | inl stopped ↦
        let same : (p, []) ≡ (p', out) = ground (arith, stopped) in
        subst (Keeps t p 0) same (good, ground arith)
    | inr (m, here) ↦ keeps m here (subst (λ o. manager_step o p go ≡ ok (p', out)) here h)
  ]

  step-Keeps :
      (t : ℕ) (p p' : Peer Req Resp) (ev : Event Req Resp) (out : List (Out Req Resp))
      → IsPeer p
      → HasRoom p.manager
      → step p ev ≡ ok (p', out)
      → Keeps t p (calls t ev) (p', out)
  unfolding step
  step-Keeps t p p' (called req tx) out good room h =
      let same : call p req tx ≡ (p', out) = ground arith in
      subst (Keeps t p _) same (call-Keeps t p req tx good)
  step-Keeps t p p' (messaged msg) out good room h =
      let same : (onmessage p msg, []) ≡ (p', out) = ground arith in
      subst (Keeps t p 0) same (onmessage-Keeps t p msg good)
  step-Keeps t p p' (request_round error) out good room h =
      managed-Keeps t p p' out (λ m. take_request p.requests p m error) good
        (λ m here ran.
          request-Keeps t p p' m p.requests error out here refl good (subst IsManaged here good.0)
            (subst HasRoom here room) ran)
        h
  step-Keeps t p p' response_round out good room h =
      managed-Keeps t p p' out (λ m. take_response p.responses p m) good
        (λ m here ran.
          response-Keeps t p p' m p.responses out here good (subst IsManaged here good.0) ran)
        h
  step-Keeps t p p' (timeout_round idx) out good room h =
      managed-Keeps t p p' out (λ m. after_round p (handle_timeout m idx)) good
        (λ m here ran.
          after_round-Keeps t p p m [] (handle_timeout m idx) p' out here
            (λ m' sent timed. timeout-Manages t m m' idx sent (subst IsManaged here good.0) timed)
            (ground arith) ran)
        h
  step-Keeps t p p' (serve_round resp) out good room h =
      let same : serve p.passed p resp ≡ (p', out) = ground arith in
      subst (Keeps t p 0) same (serve-Keeps t p p.passed resp good)
  step-Keeps t p p' lost out good room h =
      let same : (onclose p, []) ≡ (p', out) = ground arith in
      subst (Keeps t p 0) same (onclose-Keeps t p good)
  step-Keeps t p p' dropped out good room h =
      let same : drop p ≡ (p', out) = ground arith in subst (Keeps t p 0) same (drop-Keeps t p good)

  -- Rounds with what they send, each begun with a number left for a request.
  pub data Course : List (Event Req Resp) → List (Out Req Resp) → Peer Req Resp → Type 0 where
    started : Course [] [] start
    further :
        {evs : List (Event Req Resp)} {out : List (Out Req Resp)} {mid : Peer Req Resp}
        → Course evs out mid
        → HasRoom mid.manager
        → (ev : Event Req Resp) (p : Peer Req Resp) (more : List (Out Req Resp))
        → step mid ev ≡ ok (p, more)
        → Course (evs ++ ev ∷ []) (out ++ more) p

  abbrev pub all_calls : ℕ → List (Event Req Resp) → ℕ
  all_calls t [] = 0
  all_calls t (ev ∷ evs) = calls t ev + all_calls t evs

  all_calls-snoc :
      (t : ℕ) (evs : List (Event Req Resp)) (ev : Event Req Resp)
      → all_calls t (evs ++ ev ∷ []) ≡ all_calls t evs + calls t ev
  all_calls-snoc t [] ev = omega arith
  all_calls-snoc t (x ∷ evs) ev = omega (arith, all_calls-snoc t evs ev)

  course-Keeps :
      (t : ℕ)
      → {evs : List (Event Req Resp)} {out : List (Out Req Resp)} {p : Peer Req Resp}
      → Course evs out p
      → IsPeer p × (waits t p + ended t out ≡ all_calls t evs)
  unfolding start new_manager
  course-Keeps t started = (
    (
      (with_capacity-IsValid ℕ max_in_flight_requests (omega arith) (omega arith)).0,
      λ stopped. absurd (ground arith),
    ),
    omega (arith, contents-with_capacity (λ tx. tx == t) max_in_flight_requests),
  )
  course-Keeps t (further {evs} {out} {mid} course room ev p more ran) =
      let (good, even) = course-Keeps t course in
      let (good', even') = step-Keeps t mid p ev more good room ran in
      (good', omega (arith, even, even', all_calls-snoc t evs ev, count-append (ends t) out more))

  -- In any course of one end of a data channel from its start, each round of which is begun with a
  -- number left for a request: the calls of a sender that have ended, with an answer or as
  -- disconnected, are together with those that wait as many as were made; when the manager has
  -- returned, after the data channel closed or the server was dropped, every call that was made has ended; and no next round
  -- panics while a number is left for a request.
  pub calls_end :
      (t : ℕ)
      → {evs : List (Event Req Resp)} {out : List (Out Req Resp)} {p : Peer Req Resp}
      → Course evs out p
      → (waits t p + ended t out ≡ all_calls t evs)
        × (p.manager ≡ none → ended t out ≡ all_calls t evs)
        × ((ev : Event Req Resp)
            → HasRoom p.manager
            → (r : Peer Req Resp × List (Out Req Resp)) × (step p ev ≡ ok r))
  calls_end t {evs} {out} {p} course =
      let ((valid, gone), even) = course-Keeps t course in
      (
        even,
        (λ stopped.
            let empty : waits t p ≡ 0 = rw (gone stopped, stopped) refl in
            omega (arith, even, empty)),
        λ ev room. step-Returns p ev (valid, gone) room,
      )
