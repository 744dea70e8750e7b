-- ===== src/Transport/Peer.antt =====
-- transport.rs: one end of a data channel as a whole, as `PeerTransport::start` makes it: the
-- client, the channels of requests and responses, the manager's task, the server.
pub mod Managed
pub mod Settled
pub mod Runs
pub mod Closing
use wraft.Base.{
  ℕ, Bool, true, false, not, ◌||◌, Option, none, some, List, [], ◌∷◌, ◌++◌, map, Outcome, ok, ◌>>=◌,
  if◌then◌else◌,
}
use wraft.Raft.Types.{TransportError}
use wraft.RingBuf.{RingBuf}
use wraft.Transport.{
  Reply, Message, request, response, Sent, Manager, new_manager, handle_request, handle_response,
  handle_timeout,
}
use wraft.Transport.Calls.{on_answer}

-- The client's `connected`; whether the channels are closed, and what waits in them; the manager,
-- until its task returns; whether the server is there.
pub record Peer (Req Resp : Type 0) : Type 0 where
  pub connected : Bool
  pub closed : Bool
  pub requests : List (Req × ℕ)
  pub responses : List (Message Req Resp)
  pub passed : List (ℕ × Req)
  pub manager : Option Manager
  pub serving : Bool

-- A call of the client, which has its sender; a message on the data channel; a round of the manager
-- on each of its channels; a round of the server, with the handler's result; the data channel's
-- close; the drop of the server.
pub data Event (Req Resp : Type 0) : Type 0 where
  called : Req → ℕ → Event Req Resp
  messaged : Message Req Resp → Event Req Resp
  request_round : Option TransportError → Event Req Resp
  response_round : Event Req Resp
  timeout_round : ℕ → Event Req Resp
  serve_round : Reply Resp → Event Req Resp
  lost dropped : Event Req Resp

-- What the manager sends; the error Disconnected for a call whose request is not taken, or whose
-- sender is dropped; a response on the data channel; the end of the server.
pub data Out (Req Resp : Type 0) : Type 0 where
  managed : Sent Req Resp → Out Req Resp
  disconnect : ℕ → Out Req Resp
  respond : Message Req Resp → Out Req Resp
  send_done close_connection : Out Req Resp

abbrev pub Round : Type 0 → Type 0 → Type 0
Round Req Resp = Outcome (Peer Req Resp × List (Out Req Resp))

-- The manager's task has returned: its receivers are gone.
abbrev pub has_returned : Option Manager → Bool
has_returned none = true
has_returned (some m) = false

module _ {Req Resp : Type 0} where
  -- `PeerTransport::start`
  unfoldable pub start : Peer Req Resp
  unfolding new_manager
  start = record {
    connected = true;
    closed = false;
    requests = [];
    responses = [];
    passed = [];
    manager = some new_manager;
    serving = true;
  }

  -- `Client::call`, up to the answer
  unfoldable pub call : Peer Req Resp → Req → ℕ → Peer Req Resp × List (Out Req Resp)
  call p req tx =
      if not p.connected
      then (p, disconnect tx ∷ [])
      else if p.closed || has_returned p.manager
      then (record p { connected = false }, disconnect tx ∷ [])
      else (record p { requests = p.requests ++ (req, tx) ∷ [] }, [])

  -- The callback of `set_onmessage_callback`, which the server keeps; a closed channel takes
  -- nothing.
  unfoldable pub onmessage : Peer Req Resp → Message Req Resp → Peer Req Resp
  onmessage p (request idx req) =
      if p.closed || not p.serving then p else record p { passed = p.passed ++ (idx, req) ∷ [] }
  onmessage p (response idx resp) =
      if p.closed || not p.serving
      then p
      else record p { responses = p.responses ++ response idx resp ∷ [] }

  abbrev pub senders : List (Req × ℕ) → List (Out Req Resp)
  senders [] = []
  senders ((req, tx) ∷ rest) = disconnect tx ∷ senders rest

  abbrev pub senders_of : List (Option (ℕ × ℕ)) → List (Out Req Resp)
  senders_of [] = []
  senders_of (none ∷ slots) = senders_of slots
  senders_of (some (idx, tx) ∷ slots) = disconnect tx ∷ senders_of slots

  -- The manager's `run` returns: its channels and its buffer go, with the senders in them.
  unfoldable pub stop : Peer Req Resp → Manager → Peer Req Resp × List (Out Req Resp)
  stop p m = (
    record p { manager = none; requests = []; responses = [] },
    senders p.requests ++ senders_of m.slots,
  )

  -- What a round of the manager leaves and sends.
  abbrev pub after_round : Peer Req Resp → Outcome (Manager × List (Sent Req Resp)) → Round Req Resp
  after_round p r = r >>= λ (m, out). ok (record p { manager = some m }, map managed out)

  -- `req_rx.next()`
  unfoldable pub take_request :
      List (Req × ℕ) → Peer Req Resp → Manager → Option TransportError → Round Req Resp
  unfolding stop
  take_request [] p m error = if p.closed then ok (stop p m) else ok (p, [])
  take_request ((req, tx) ∷ rest) p m error =
      after_round (record p { requests = rest }) (handle_request m req tx error)

  -- `resp_rx.next()`: the callbacks, which the server keeps, have the senders.
  unfoldable pub take_response : List (Message Req Resp) → Peer Req Resp → Manager → Round Req Resp
  unfolding stop
  take_response [] p m = if p.closed || not p.serving then ok (stop p m) else ok (p, [])
  take_response (msg ∷ rest) p m =
      after_round (record p { responses = rest }) (handle_response m msg)

  -- A round of `Server::serve`, and what its callback sends.
  unfoldable pub serve :
      List (ℕ × Req) → Peer Req Resp → Reply Resp → Peer Req Resp × List (Out Req Resp)
  serve [] p resp = (p, [])
  serve ((idx, req) ∷ rest) p resp =
      (record p { passed = rest }, map respond (on_answer idx (some resp)))

  -- `drop` of the server, and of its fields
  unfoldable pub drop : Peer Req Resp → Peer Req Resp × List (Out Req Resp)
  drop p =
      if p.serving
      then (record p { serving = false; passed = [] }, send_done ∷ close_connection ∷ [])
      else (p, [])

  -- The callback of `set_onclose_callback`, which the server keeps
  unfoldable pub onclose : Peer Req Resp → Peer Req Resp
  onclose p = if p.serving then record p { closed = true } else p

  abbrev pub manager_step :
      Option Manager → Peer Req Resp → (Manager → Round Req Resp) → Round Req Resp
  manager_step none p go = ok (p, [])
  manager_step (some m) p go = go m

  unfoldable pub step : Peer Req Resp → Event Req Resp → Round Req Resp
  unfolding call onmessage serve drop onclose
  step p (called req tx) = ok (call p req tx)
  step p (messaged msg) = ok (onmessage p msg, [])
  step p (request_round error) = manager_step p.manager p (λ m. take_request p.requests p m error)
  step p response_round = manager_step p.manager p (λ m. take_response p.responses p m)
  step p (timeout_round idx) = manager_step p.manager p (λ m. after_round p (handle_timeout m idx))
  step p (serve_round resp) = ok (serve p.passed p resp)
  step p lost = ok (onclose p, [])
  step p dropped = ok (drop p)
