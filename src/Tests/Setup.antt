-- ===== src/Tests/Setup.antt =====
-- Node 1 starts a cluster of three, and is started again; a map of one key.
use wraft.Base.{
  contains, length, ℕ, zero, suc, ◌+◌, ◌≡◌, ◌≢◌, refl, Bool, true, false, Option, none, some, List,
  [], ◌∷◌, Outcome, ok, arith, ◌==◌, if◌then◌else◌,
}
use wraft.Raft.Types.{LogEntry}
use wraft.Raft.Storage.{Codec, Storage, new}
use wraft.Raft.Worker.{quorum, Client}
use wraft.Raft.Worker.Machine.{State, inner}
use wraft.Raft.Setup.{
  PeersCodec, Browser, Started, started, start, keys, wait_for_peers, client_of,
  store_peer_configuration,
}
use wraft.Raft.Setup.Gathering.{start-size, start-twice, fresh_worker}
use wraft.Raft.Setup.Restart.{restart}
use wraft.Raft.StateMachine.{
  Event, command, state_get, Sending, Sent, Task, value, handle_state_machine, hash_map,
  HashMapCommand, set, delete, step,
}
use wraft.Raft.StateMachine.Gets.{gets_last}

data Text : Type 0 where
  number : ℕ → Text
  entry : LogEntry ℕ → Text
  peers : List ℕ → Text

abbrev parse : Text → Option ℕ
parse (number n) = some n
parse _ = none

abbrev decode : Text → Option (LogEntry ℕ)
decode (entry e) = some e
decode _ = none

abbrev deserialize : Text → Option (List ℕ)
deserialize (peers ns) = some ns
deserialize _ = none

instance abbrev setup_codec : Codec Text ℕ
setup_codec = record {
  show = number;
  parse = parse;
  encode = entry;
  decode = decode;
  parse-show = λ n h. refl;
  decode-encode = λ e h. refl;
}

instance abbrev peers_codec : PeersCodec Text
peers_codec = record {
  serialize = peers;
  deserialize = deserialize;
  deserialize-serialize = λ ns small. refl;
}

abbrev empty_browser : Browser Text
empty_browser = record { worker = λ key. none; peer_configuration = λ key. none }

abbrev empty_storage : Storage Text ℕ
empty_storage = record {
  session_key = 7;
  last_log_index = 0;
  current_term = 0;
  voted_for = none;
  storage = λ key. none;
}

stored : new empty_browser.worker 7 ≡ ok empty_storage
unfolding new
stored = refl

start-size_example :
    (r : Started Text ℕ) × (start empty_browser 1 7 3 (2 ∷ 3 ∷ []) ≡ ok (started r))
    × ((inner r.worker).cluster_size ≡ 3)
    × ((inner r.worker).peers ≡ keys (inner r.worker).peer_clients)
    × (length r.served + 1 ≡ 3)
unfolding wraft.Base.contains
start-size_example =
    start-size empty_browser 1 7 3 (2 ∷ 3 ∷ []) empty_storage (omega arith) (omega arith) refl
      stored (refl, (refl, tt)) (omega arith)

start-twice_example :
    (r : Started Text ℕ) × (start empty_browser 1 7 5 (2 ∷ 2 ∷ 3 ∷ 3 ∷ 4 ∷ []) ≡ ok (started r))
    × (length (inner r.worker).peers ≡ 2)
    × (contains 2 (inner r.worker).peers ≡ true)
    × (contains 3 (inner r.worker).peers ≡ true)
    × (quorum (inner r.worker) ≡ 2)
start-twice_example =
    start-twice empty_browser 1 7 2 3 (4 ∷ []) empty_storage refl stored (omega arith)

abbrev gathered_peers : List (ℕ × Client)
gathered_peers = (2, client_of 2) ∷ (3, client_of 3) ∷ []

abbrev first : Started Text ℕ
first = record {
  browser = store_peer_configuration empty_browser 7 (2 ∷ 3 ∷ []);
  worker = fresh_worker empty_storage 1 7 (2 ∷ 3 ∷ []) gathered_peers;
  served = 3 ∷ 2 ∷ [];
}

first_starts : start empty_browser 1 7 3 (2 ∷ 3 ∷ []) ≡ ok (started first)
unfolding start wraft.Raft.Setup.load_peer_configuration wait_for_peers
    wraft.Raft.Worker.Machine.start new store_peer_configuration wraft.Base.insert
first_starts = refl

restart_example :
    (r' : Started Text ℕ) × (start first.browser 1 7 3 (3 ∷ []) ≡ ok (started r'))
    × (r'.browser ≡ first.browser)
    × (inner r'.worker ≡ record (inner first.worker) { peer_clients = [] })
    × (r'.served ≡ [])
restart_example =
    restart empty_browser 1 7 3 3 (2 ∷ 3 ∷ []) (3 ∷ []) first (omega arith, (omega arith, tt)) refl
      first_starts

abbrev taken : List (Event (HashMapCommand ℕ) ℕ)
taken =
    command (set 1 5) Sending.full
    ∷ command (delete 2) Sending.sent
    ∷ command (set 1 6) Sending.sent
    ∷ []

gets_last_example :
    (task : Task (List (ℕ × ℕ))) × (out : List (Sent ℕ (Unit {0}))) × (handle_state_machine
        (hash_map ℕ)
        taken
      ≡ ok (task, out))
    × (step (hash_map ℕ) task (state_get 1 9) ≡ ok (task, value 9 (some 6) ∷ []))
gets_last_example = gets_last taken 1 9 tt
