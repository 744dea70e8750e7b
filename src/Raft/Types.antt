-- ===== src/Raft/Types.antt =====
-- wraft/src/raft/mod.rs and errors.rs: the messages of the cluster and of its clients.
-- Node ids, terms and log indices are u64, and a session key is a u128: natural numbers.
use wraft.Base.{ℕ, Bool, Option, List, IsU64}

pub record LogEntry (Cmd : Type 0) : Type 0 where
  pub cmd : Cmd
  pub term : ℕ
  pub idx : ℕ

-- The numbers of an entry fit their machine words.
abbrev pub FitsU64 : {Cmd : Type 0} → LogEntry Cmd → Type 0
FitsU64 e = IsU64 e.term × IsU64 e.idx

pub record AppendEntriesRequest (Cmd : Type 0) : Type 0 where
  pub term : ℕ
  pub leader_id : ℕ
  pub prev_log_index : ℕ
  pub prev_log_term : ℕ
  pub entries : List (LogEntry Cmd)
  pub leader_commit : ℕ

pub record RequestVoteRequest : Type 0 where
  pub term : ℕ
  pub candidate : ℕ
  pub last_log_index : ℕ
  pub last_log_term : ℕ

pub record RequestVoteResponse : Type 0 where
  pub term : ℕ
  pub vote_granted : Bool

pub record AppendEntriesResponse : Type 0 where
  pub term : ℕ
  pub success : Bool

pub data ClientRequest (Cmd : Type 0) : Type 0 where
  apply : Cmd → ClientRequest Cmd
  debug : ClientRequest Cmd

pub data ClientError : Type 0 where
  unavailable timeout : ClientError

-- What the `Debug` instances of `Follower`, `Candidate` and `Leader` print.
pub data StateName : Type 0 where
  follower candidate : StateName
  leader : List (ℕ × ℕ) → List (ℕ × ℕ) → List ℕ → StateName

pub record RaftStateDump : Type 0 where
  pub state : StateName
  pub leader_id : Option ℕ
  pub node_id : ℕ
  pub session_key : ℕ
  pub cluster_size : ℕ
  pub peers : List ℕ
  pub online_peers : List ℕ
  pub voted_for : Option ℕ
  pub current_term : ℕ
  pub last_log_index : ℕ
  pub commit_index : ℕ
  pub last_applied : ℕ

-- `ClientResponse`; nothing makes its two `Get` variants.
pub data ClientResponse : Type 0 where
  ack : ClientResponse
  debug : RaftStateDump → ClientResponse

-- `Result<ClientResponse, ClientError>`
pub data ClientResult : Type 0 where
  ok : ClientResponse → ClientResult
  err : ClientError → ClientResult

pub data RpcRequest (Cmd : Type 0) : Type 0 where
  append_entries : AppendEntriesRequest Cmd → RpcRequest Cmd
  request_vote : RequestVoteRequest → RpcRequest Cmd
  forward_client_request : ClientRequest Cmd → RpcRequest Cmd

pub data RpcResponse : Type 0 where
  append_entries : AppendEntriesResponse → RpcResponse
  request_vote : RequestVoteResponse → RpcResponse
  forward_client_request : ClientResult → RpcResponse

-- `transport::Error`, without the text of a JavaScript error
pub data TransportError : Type 0 where
  js request_timeout too_many_in_flight_requests disconnected : TransportError
  unavailable : TransportError

-- `Result<RpcResponse, transport::Error>`
pub data RpcResult : Type 0 where
  ok : RpcResponse → RpcResult
  err : TransportError → RpcResult
