-- ===== src/Transport/Calls.antt =====
-- transport.rs: a call from one end of a data channel to the other, with `Client::call`, the
-- callback on messages and `Server::serve`.
use wraft.Base.{
  ℕ, ◌+◌, ◌<◌, ◌^◌, ◌≡◌, ◌≢◌, refl, inl, inr, Bool, true, false, Option, none, some, List, [], ◌∷◌,
  ok, arith,
}
use wraft.Raft.Types.{disconnected}
use wraft.RingBuf.Window.{IsValid, find}
use wraft.Transport.{
  Reply, failed, Message, request, response, send_message, answer, start_timeout, requested,
  received, Manager, step,
}
use wraft.Transport.Answers.{request_lem, response_lem}

-- What comes of a request that a client sends to the manager: the channel is closed, the sender is
-- dropped, or there is an answer.
pub data Called (Resp : Type 0) : Type 0 where
  closed dropped : Called Resp
  answered : Reply Resp → Called Resp

-- What the callback passes on: a request, to the server, or a response, to the manager.
pub data Passed (Req Resp : Type 0) : Type 0 where
  to_server : ℕ → Req → Passed Req Resp
  to_manager : Message Req Resp → Passed Req Resp

-- `Client::call`: whether it is still connected, and the result
unfoldable pub call : {Resp : Type 0} → Bool → Called Resp → Bool × Reply Resp
call false called = (false, failed disconnected)
call true closed = (false, failed disconnected)
call true dropped = (true, failed disconnected)
call true (answered resp) = (true, resp)

module _ {Req Resp : Type 0} where
  -- The callback of `set_onmessage_callback`
  unfoldable pub on_message : Message Req Resp → Passed Req Resp
  on_message (request idx req) = to_server idx req
  on_message (response idx resp) = to_manager (response idx resp)

  -- The callback goes on when the server has answered, or has dropped the sender.
  unfoldable pub on_answer : ℕ → Option (Reply Resp) → List (Message Req Resp)
  on_answer idx none = []
  on_answer idx (some resp) = response idx resp ∷ []

  -- A round of `Server::serve`, and what its callback sends: the handler's result
  abbrev pub serve_passed : (Req → Reply Resp) → Passed Req Resp → List (Message Req Resp)
  serve_passed handler (to_server idx req) = on_answer idx (some (handler req))
  serve_passed handler (to_manager msg) = []

  -- A call comes back, if the manager is valid, its window has room, its next number is less than 2 ^ 32 - 1 and
  -- the data channel takes the message: the manager sends one message, to which the callback of an end
  -- whose server handles the request sends one message back, and when the manager takes that next, it gives the
  -- caller the handler's result, and what waited before the call waits as it did.
  pub call_returns :
      (m : Manager) (req : Req) (tx : ℕ) (handler : Req → Reply Resp)
      → IsValid m
      → m.next_idx + 1 < 2 ^ 32
      → m.next_idx ≢ m.min_idx + m.capacity
      → (idx : ℕ) × (m1 : Manager) × (m2 : Manager) × (back : Message Req Resp) × (step {Req = Req}
            {Resp = Resp} m
            (requested req tx none)
          ≡ ok (m1, send_message (request idx req) ∷ start_timeout idx ∷ []))
        × (serve_passed handler (on_message (request idx req)) ≡ back ∷ [])
        × (on_message back ≡ to_manager back)
        × (step m1 (received back) ≡ ok (m2, answer tx (handler req) ∷ []))
        × ((j : ℕ) → find m2 j ≡ find m j)
  unfolding on_message on_answer
  call_returns m req tx handler v room free =
      elim (request_lem {Resp = Resp} m req tx none v room) [
        | inl (full, ran) ↦ absurd (free full)
        | inr (m1, valid, next, fresh, inl (no_error, ran, waits)) ↦
            let idx = m.next_idx in
            let here : find m1 idx ≡ some tx = ground (arith, waits idx) in
            let back : Message Req Resp = response idx (handler req) in
            elim (response_lem {Req = Req} m1 idx (handler req) valid).0 [
              | inl (gone, same) ↦ absurd (ground (arith, here, gone))
              | inr (tx', m2, found, ran2, valid2, next2, rest) ↦
                  let mine : tx' ≡ tx = ground (arith, here, found) in
                  (
                    idx,
                    m1,
                    m2,
                    back,
                    ran,
                    refl,
                    refl,
                    rw (← mine) ran2,
                    λ j. ground (arith, rest j, waits j, fresh),
                  )
            ]
        | inr (m1, valid, next, fresh, inr (e, error, ran, waits)) ↦ absurd (ground (arith, error))
      ]
