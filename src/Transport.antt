-- ===== src/Transport.antt =====
-- wraft/src/webrtc_rpc/transport.rs: the client's side of a data channel, `RequestManager`.
-- A sender of a oneshot channel is a number. Whether the data channel takes a message, `None` or
-- the error, comes with the request.
pub mod Answers
pub mod Calls
pub mod Peer
use wraft.Base.{
  ℕ, ◌+◌, Bool, true, false, Option, none, some, List, [], ◌∷◌, ◌++◌, Outcome, ok, panic, ◌>>=◌,
  unwrap,
}
use wraft.Raft.Types.{TransportError, request_timeout, too_many_in_flight_requests}
use wraft.RingBuf
use wraft.RingBuf.{RingBuf, Added, added, overflow}

-- `Result<Resp, Error>`
pub data Reply (Resp : Type 0) : Type 0 where
  replied : Resp → Reply Resp
  failed : TransportError → Reply Resp

pub data Message (Req Resp : Type 0) : Type 0 where
  request : ℕ → Req → Message Req Resp
  response : ℕ → Reply Resp → Message Req Resp

pub data Sent (Req Resp : Type 0) : Type 0 where
  -- `dc.send_with_u8_array`
  send_message : Message Req Resp → Sent Req Resp
  -- `tx.send`
  answer : ℕ → Reply Resp → Sent Req Resp
  -- the task that sends the index back after the timeout
  start_timeout : ℕ → Sent Req Resp

-- What `select!` wakes on: a request with its sender and the data channel's error, a message from
-- the other side, an index whose time is over.
pub data Event (Req Resp : Type 0) : Type 0 where
  requested : Req → ℕ → Option TransportError → Event Req Resp
  received : Message Req Resp → Event Req Resp
  timed_out : ℕ → Event Req Resp

abbrev pub max_in_flight_requests : ℕ
max_in_flight_requests = 1024

-- `RequestManager`, whose other fields are channels
abbrev pub Manager : Type 0
Manager = RingBuf ℕ

abbrev pub Handled : Type 0 → Type 0 → Type 0
Handled Req Resp = Outcome (Manager × List (Sent Req Resp))

unfoldable pub new_manager : Manager
new_manager = RingBuf.with_capacity max_in_flight_requests

module _ {Req Resp : Type 0} where
  -- The rest of `handle_request` when the buffer took the sender, after the send.
  unfoldable pub after_send :
      Manager → ℕ → Message Req Resp → Option TransportError → Handled Req Resp
  after_send m idx msg none = ok (m, send_message msg ∷ start_timeout idx ∷ [])
  after_send m idx msg (some error) = do
    (m', found) ← RingBuf.remove m idx
    tx ← unwrap found
    ok (m', answer tx (failed error) ∷ [])

  unfoldable pub after_add : Manager → Added ℕ → Req → Option TransportError → Handled Req Resp
  unfolding after_send
  after_add m (added idx) req error = after_send m idx (request idx req) error
  after_add m (overflow tx) req error = ok (m, answer tx (failed too_many_in_flight_requests) ∷ [])

  unfoldable pub handle_request : Manager → Req → ℕ → Option TransportError → Handled Req Resp
  unfolding after_add
  handle_request m req tx error = do (m', res) ← RingBuf.add m tx; after_add m' res req error

  unfoldable pub answer_to : Option ℕ → Reply Resp → List (Sent Req Resp)
  answer_to none resp = []
  answer_to (some tx) resp = answer tx resp ∷ []

  unfoldable pub handle_response : Manager → Message Req Resp → Handled Req Resp
  unfolding answer_to
  handle_response m (response idx resp) = do
    (m', found) ← RingBuf.remove m idx
    ok (m', answer_to found resp)
  handle_response m (request idx req) = ok (m, [])

  unfoldable pub handle_timeout : Manager → ℕ → Handled Req Resp
  unfolding answer_to
  handle_timeout m idx = do
    (m', found) ← RingBuf.remove m idx
    ok (m', answer_to found (failed request_timeout))

  unfoldable pub step : Manager → Event Req Resp → Handled Req Resp
  unfolding handle_request handle_response handle_timeout
  step m (requested req tx error) = handle_request m req tx error
  step m (received msg) = handle_response m msg
  step m (timed_out idx) = handle_timeout m idx

  -- The rounds of a run, with all that they send.
  unfoldable pub run : Manager → List (Event Req Resp) → Handled Req Resp
  run m [] = ok (m, [])
  run m (ev ∷ evs) = do (m', out) ← step m ev; (m'', more) ← run m' evs; ok (m'', out ++ more)
