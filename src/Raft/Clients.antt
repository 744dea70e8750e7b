-- ===== src/Raft/Clients.antt =====
-- The senders that a node of worker.rs gets with requests, of clients and of peers: which effects
-- settle one, and where one waits.
pub mod Effects
pub mod Acks
pub mod Handlers
pub mod Branches
pub mod Rounds
pub mod Replies
pub mod Silent
pub mod Committed
use wraft.Base.{
  ℕ, ◌+◌, ◌≤◌, ◌≡◌, Bool, true, false, Option, none, List, [], ◌∷◌, if◌then◌else◌, ◌==◌, count, get,
}
use wraft.Raft.Worker.{
  ClientSender, local, forwarded, Effect, reply, answer, drop_sender, send_command, call_vote,
  call_append, call_forward, serve, reset_timer,
}
use wraft.Raft.Worker.Leader.{Leader}
use wraft.Raft.Worker.Machine.{Event, State, follower, candidate, leader}

abbrev pub same_sender : ClientSender → ClientSender → Bool
same_sender (local a) (local b) = a == b
same_sender (forwarded a) (forwarded b) = a == b
same_sender _ _ = false

-- An effect uses the sender up: the sender of an RPC is that of what it forwards.
abbrev pub settles : {Cmd : Type 0} → ClientSender → Effect Cmd → Bool
settles s (reply n resp) = same_sender s (forwarded n)
settles s (answer tx res) = same_sender s tx
settles s (drop_sender tx) = same_sender s tx
settles s (call_forward peer req tx) = same_sender s tx
settles s (send_command cmd) = false
settles s (call_vote peer req) = false
settles s (call_append peer first last req) = false
settles s (serve peer) = false
settles s reset_timer = false

abbrev pub settled : {Cmd : Type 0} → ClientSender → List (Effect Cmd) → ℕ
settled s out = count (settles s) out

abbrev pub one_if : Bool → ℕ
one_if true = 1
one_if false = 0

abbrev pub arrives : {Cmd : Type 0} → ClientSender → Event Cmd → ℕ
arrives s (Event.rpc req tx) = one_if (same_sender s (forwarded tx))
arrives s (Event.client req tx) = one_if (same_sender s tx)
arrives s _ = 0

abbrev pub waits_in : ClientSender → List (ℕ × ClientSender) → ℕ
waits_in s m = count (λ e. same_sender s e.1) m

-- The senders that wait for their entries are those of a leader.
abbrev pub waiting : {Text Cmd : Type 0} → ClientSender → State Text Cmd → ℕ
waiting s (follower w) = 0
waiting s (candidate w votes) = 0
waiting s (leader w l) = waits_in s l.in_flight_client_requests

-- No index has two senders, and none is behind the end of the log.
abbrev pub IsKeyed : ℕ → List (ℕ × ClientSender) → Type 0
IsKeyed last [] = Unit {0}
IsKeyed last ((k, tx) ∷ m) = (get k m ≡ none) × (k ≤ last) × IsKeyed last m

abbrev pub AreKeyed : {Text Cmd : Type 0} → State Text Cmd → Type 0
AreKeyed (follower w) = Unit {0}
AreKeyed (candidate w votes) = Unit {0}
AreKeyed (leader w l) = IsKeyed w.storage.last_log_index l.in_flight_client_requests
