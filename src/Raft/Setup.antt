-- ===== src/Raft/Setup.antt =====
-- wraft/src/raft/mod.rs, `Raft::start`: the peers of a cluster, and its start.
-- `generate_node_id` is a hash of the standard library; the node's id is given.
pub mod Gathering
pub mod Restart
use wraft.Base.{
  All, IsU64, true, ℕ, ◌≡◌, ◌+◌, Option, none, some, List, [], ◌∷◌, Outcome, ok, panic, ◌>>=◌,
  unwrap, if◌then◌else◌, ltb, ◌==◌, length, map, insert, sub_usize,
}
use wraft.Raft.Storage.{Codec, LocalStorage}
use wraft.Raft.Worker.{Client}
use wraft.Raft.Worker.Machine
use wraft.Raft.Worker.Machine.{State}

-- The bincode and base64 of `Vec<NodeId>`
pub record PeersCodec (Text : Type 0) : Type 0 where
  pub serialize : List ℕ → Text
  pub deserialize : Text → Option (List ℕ)
  pub deserialize-serialize :
      (peers : List ℕ) → All IsU64 peers → deserialize (serialize peers) ≡ some peers

-- The browser's storage: the items of the worker, and `peer-configuration-{}`.
pub record Browser (Text : Type 0) : Type 0 where
  pub worker : LocalStorage Text
  pub peer_configuration : ℕ → Option Text

-- What a wait for peers comes to: `Error::NotEnoughPeers` when no more peers come, or the servers,
-- the last one first, and the clients.
pub data Gathered : Type 0 where
  not_enough_peers : Gathered
  gathered : List ℕ → List (ℕ × Client) → Gathered

-- A node that runs, with the peers that it serves.
pub record Started (Text Cmd : Type 0) : Type 0 where
  pub browser : Browser Text
  pub worker : State Text Cmd
  pub served : List ℕ

pub data Result (Text Cmd : Type 0) : Type 0 where
  started : Started Text Cmd → Result Text Cmd
  not_started : Result Text Cmd

abbrev pub client_of : ℕ → Client
client_of peer = record { node_id = peer; connected = true }

-- The loop takes the peers that arrive, in their order, until there are enough servers.
unfoldable pub wait_for_peers : ℕ → List ℕ → List (ℕ × Client) → List ℕ → Gathered
wait_for_peers target servers clients [] =
    if ltb (length servers) target then not_enough_peers else gathered servers clients
wait_for_peers target servers clients (peer ∷ arriving) =
    let rest =
      wait_for_peers target (peer ∷ servers) (insert peer (client_of peer) clients) arriving in
    if ltb (length servers) target then rest else gathered servers clients

abbrev pub keys : List (ℕ × Client) → List ℕ
keys [] = []
keys (e ∷ m) = e.0 ∷ keys m

module _ {Text : Type 0} ⦃peers_codec : PeersCodec Text⦄ where
  abbrev pub parsed : Option Text → Outcome (Option (List ℕ))
  parsed none = ok none
  parsed (some text) = do conf ← unwrap (peers_codec.deserialize text); ok (some conf)

  unfoldable pub load_peer_configuration : Browser Text → ℕ → Outcome (Option (List ℕ))
  load_peer_configuration b session_key = parsed (b.peer_configuration session_key)

  unfoldable pub store_peer_configuration : Browser Text → ℕ → List ℕ → Browser Text
  store_peer_configuration b session_key peers = record b {
    peer_configuration = λ key.
        if key == session_key then some (peers_codec.serialize peers) else b.peer_configuration key;
  }

module _ {Text Cmd : Type 0} ⦃codec : Codec Text Cmd⦄ ⦃peers_codec : PeersCodec Text⦄ where
  abbrev pub with_worker :
      Browser Text → ℕ → ℕ → List ℕ → List (ℕ × Client) → List ℕ → Outcome (Result Text Cmd)
  with_worker b node_id session_key peers clients served = do
    worker ← Machine.start b.worker node_id session_key peers clients
    ok (started (record { browser = b; worker = worker; served = served }))

  abbrev pub with_peers : Browser Text → ℕ → ℕ → Gathered → Outcome (Result Text Cmd)
  with_peers b node_id session_key not_enough_peers = ok not_started
  with_peers b node_id session_key (gathered servers clients) =
      with_worker (store_peer_configuration b session_key (keys clients)) node_id session_key
        (keys clients) clients servers

  -- With a configuration the node rejoins its cluster.
  abbrev pub start_with :
      Browser Text → ℕ → ℕ → ℕ → List ℕ → Option (List ℕ) → Outcome (Result Text Cmd)
  start_with b node_id session_key cluster_size arriving (some peers) =
      with_worker b node_id session_key peers [] []
  start_with b node_id session_key cluster_size arriving none =
      with_peers b node_id session_key (wait_for_peers (sub_usize cluster_size 1) [] [] arriving)

  unfoldable pub start : Browser Text → ℕ → ℕ → ℕ → List ℕ → Outcome (Result Text Cmd)
  start b node_id session_key cluster_size arriving = do
    conf ← load_peer_configuration b session_key
    start_with b node_id session_key cluster_size arriving conf
