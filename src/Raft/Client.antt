-- ===== src/Raft/Client.antt =====
-- wraft/src/raft/client.rs and rpc_server.rs: the ends of the worker's channels. Whether a channel
-- takes a message, and what comes back before the timeout, is given.
use wraft.Base.{Bool, true, false, Option, none, some, Outcome, panic}
use wraft.Base as Base
use wraft.Raft.Types.{
  ClientResponse, ClientError, ClientResult, RaftStateDump, RpcResult, TransportError,
}

-- What the receiving end of a oneshot channel hears: a value, that the sender is gone, or nothing
-- within CLIENT_REQUEST_TIMEOUT_MILLIS.
pub data Answer (A : Type 0) : Type 0 where
  received : A → Answer A
  canceled timed_out : Answer A

-- Result<A, ClientError>
pub data Result (A : Type 0) : Type 0 where
  ok : A → Result A
  err : ClientError → Result A

-- `select!` of the answer and the timeout
abbrev pub selected : Answer ClientResult → ClientResult
selected (received (ClientResult.ok resp)) = ClientResult.ok resp
selected (received (ClientResult.err e)) = ClientResult.err e
selected canceled = ClientResult.err ClientError.unavailable
selected timed_out = ClientResult.err ClientError.timeout

unfoldable pub do_client_request : Bool → Answer ClientResult → ClientResult
do_client_request false answer = ClientResult.err ClientError.unavailable
do_client_request true answer = selected answer

-- `map(|_| ())`
abbrev pub without_response : ClientResult → Result (Unit {0})
without_response (ClientResult.ok resp) = Result.ok tt
without_response (ClientResult.err e) = Result.err e

unfoldable pub send : Bool → Answer ClientResult → Result (Unit {0})
send sent answer = without_response (do_client_request sent answer)

-- `get` has no timeout.
unfoldable pub get : {Item : Type 0} → Bool → Option (Option Item) → Result (Option Item)
get false answer = Result.err ClientError.unavailable
get true none = Result.err ClientError.unavailable
get true (some item) = Result.ok item

abbrev pub only_debug : ClientResult → Outcome (Result RaftStateDump)
only_debug (ClientResult.ok (ClientResponse.debug d)) = Base.ok (Result.ok d)
only_debug (ClientResult.err e) = Base.ok (Result.err e)
only_debug (ClientResult.ok ClientResponse.ack) = panic

unfoldable pub debug_request : Bool → Answer ClientResult → Outcome (Result RaftStateDump)
debug_request sent answer = only_debug (do_client_request sent answer)

-- `RpcServer::handle`
unfoldable pub handle : Bool → Option RpcResult → Outcome RpcResult
handle false answer = panic
handle true (some resp) = Base.ok resp
handle true none = Base.ok (RpcResult.err TransportError.unavailable)
