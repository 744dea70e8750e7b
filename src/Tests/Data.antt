-- ===== src/Tests/Data.antt =====
-- A codec that keeps what it encodes, and storages, nodes and leaders made from a log.
use wraft.Base.{
  ℕ, zero, suc, ◌+◌, ◌<◌, ◌^◌, ◌≡◌, refl, true, Option, none, some, List, [], ◌∷◌, arith, Outcome,
  ok, panic, length, get_elem?,
}
use wraft.Raft.Types.{LogEntry}
use wraft.Raft.Storage.{Codec, Storage, log_key, LocalStorage, read_item}
use wraft.Raft.Storage.Log.{entry_at, Holds}
use wraft.Raft.Worker.{Inner}
use wraft.Raft.Worker.Leader.{Leader}
use wraft.Raft.Replication.Agreement.{Consecutive}

pub data Text : Type 0 where
  number : ℕ → Text
  entry : LogEntry ℕ → Text

abbrev parse : Text → Option ℕ
parse (number n) = some n
parse (entry e) = none

abbrev decode : Text → Option (LogEntry ℕ)
decode (number n) = none
decode (entry e) = some e

instance abbrev pub text_codec : Codec Text ℕ
text_codec = record {
  show = number;
  parse = parse;
  encode = entry;
  decode = decode;
  parse-show = λ n h. refl;
  decode-encode = λ e h. refl;
}

abbrev encoded : Option (LogEntry ℕ) → Option Text
encoded none = none
encoded (some e) = some (entry e)

abbrev stored : List (LogEntry ℕ) → LocalStorage Text
stored log (log_key k i) = encoded (entry_at log i)
stored log _ = none

abbrev pub storage_of : List (LogEntry ℕ) → ℕ → Option ℕ → Storage Text ℕ
storage_of log term vote = record {
  session_key = 7;
  last_log_index = length log;
  current_term = term;
  voted_for = vote;
  storage = stored log;
}

Consecutive-idx :
    (k : ℕ) (log : List (LogEntry ℕ)) (i : ℕ) (e : LogEntry ℕ)
    → Consecutive k log
    → get_elem? log i ≡ some e
    → e.idx ≡ k + i
Consecutive-idx k [] i e run here = cc
Consecutive-idx k (x ∷ xs) zero e run here = ground (arith, run.0)
Consecutive-idx k (x ∷ xs) (suc i) e run here =
    ground (arith, Consecutive-idx (suc k) xs i e run.1 here)

pub storage_of-Holds :
    (log : List (LogEntry ℕ)) (term : ℕ) (vote : Option ℕ)
    → Consecutive 1 log
    → length log < 2 ^ 64
    → Holds (storage_of log term vote) log
unfolding read_item
storage_of-Holds log term vote run small = record {
  last = refl;
  small = small;
  reads = λ i e here. rw here refl;
  indexed = λ i e here. ground (arith, Consecutive-idx 1 log i e run here);
}

abbrev pub log_entry : ℕ → ℕ → ℕ → LogEntry ℕ
log_entry cmd term idx = record { cmd = cmd; term = term; idx = idx }

-- Node 1 of a cluster of three, with node 2 connected.
abbrev pub node : Storage Text ℕ → ℕ → ℕ → Inner Text ℕ
node s commit applied = record {
  leader_id = none;
  node_id = 1;
  session_key = 7;
  cluster_size = 3;
  peers = 2 ∷ 3 ∷ [];
  peer_clients = (2, record { node_id = 2; connected = true }) ∷ [];
  commit_index = commit;
  last_applied = applied;
  storage = s;
}

-- A leader that knows of its two peers what it sends next and what they hold.
abbrev pub leading : ℕ → ℕ → Leader
leading next held = record {
  next_indices = (2, next) ∷ (3, next) ∷ [];
  match_indices = (2, held) ∷ (3, 0) ∷ [];
  in_flight_client_requests = [];
  in_flight_peers = [];
}

-- The result of code that does not panic.
abbrev pub result_or : {A : Type 0} → A → Outcome A → A
result_or a (ok b) = b
result_or a panic = a
