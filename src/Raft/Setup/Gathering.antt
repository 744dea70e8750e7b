-- ===== src/Raft/Setup/Gathering.antt =====
-- wraft/src/raft/mod.rs, `Raft::start`: how many peers a node waits for, and who they are.
use wraft.Base.{
  ℕ, ◌+◌, ◌≤◌, ◌<◌, ◌^◌, ◌≡◌, ◌≢◌, refl, true, false, ◌||◌, none, List, [], ◌∷◌, ok, arith, ◌==◌,
  ltb, length, insert, contains, sub_usize, Bool-cases, inl, inr,
}
use wraft.Raft.Storage.{Codec, Storage, new}
use wraft.Raft.Worker.{Client, quorum}
use wraft.Raft.Worker.Machine
use wraft.Raft.Worker.Machine.{follower, State, inner}
use wraft.Raft.Setup.{
  PeersCodec, Browser, gathered, Started, started, client_of, wait_for_peers, keys,
  load_peer_configuration, store_peer_configuration, start,
}

-- Each peer of the list comes once.
abbrev pub AreDistinct : List ℕ → Type 0
AreDistinct [] = Unit {0}
AreDistinct (p ∷ ps) = (contains p ps ≡ false) × AreDistinct ps

abbrev pub AreNew : List ℕ → List (ℕ × Client) → Type 0
AreNew arriving clients = (p : ℕ) → contains p arriving ≡ true → contains p (keys clients) ≡ false

keys-insert :
    (p : ℕ) (x : Client) (m : List (ℕ × Client))
    → (contains p (keys m) ≡ false → length (keys (insert p x m)) ≡ length (keys m) + 1)
      × ((q : ℕ) → contains q (keys (insert p x m)) ≡ (q == p || contains q (keys m)))
unfolding insert contains
keys-insert p x [] = (λ h. refl, λ q. ground arith)
keys-insert p x ((j, y) ∷ m) =
    (ground (arith, (keys-insert p x m).0), λ q. ground (arith, (keys-insert p x m).1 q))

-- Peers that arrive once each are all kept.
wait_for_peers-distinct :
    (target : ℕ) (servers : List ℕ) (clients : List (ℕ × Client)) (arriving : List ℕ)
    → AreDistinct arriving
    → AreNew arriving clients
    → length (keys clients) ≡ length servers
    → length servers ≤ target
    → target ≤ length servers + length arriving
    → (servers' : List ℕ) × (clients' : List (ℕ × Client)) × (wait_for_peers target servers clients
          arriving
        ≡ gathered servers' clients')
      × (length servers' ≡ target)
      × (length (keys clients') ≡ target)
unfolding wait_for_peers contains
wait_for_peers-distinct target servers clients [] once fresh same low enough =
    (servers, clients, ground arith, omega arith, omega arith)
wait_for_peers-distinct target servers clients (p ∷ ps) once fresh same low enough =
    elim (Bool-cases (ltb (length servers) target)) [
      | inl more ↦
          let here : contains p (keys clients) ≡ false = fresh p (ground arith) in
          let (kept, who) = keys-insert p (client_of p) clients in
          let (s, c, waits, full, all) =
            wait_for_peers-distinct target (p ∷ servers) (insert p (client_of p) clients) ps once.1
              (λ q h. ground (arith, who q, fresh q, once.0, h)) (ground (arith, kept here, same))
              (ground arith) (ground (arith, enough)) in
          (s, c, rw (more, waits) refl, full, all)
      | inr done ↦ (servers, clients, rw done refl, ground arith, ground arith)
    ]

four :
    (p q : ℕ) (arriving : List ℕ)
    → p ≢ q
    → wait_for_peers 4 [] [] (p ∷ p ∷ q ∷ q ∷ arriving)
      ≡ gathered (q ∷ q ∷ p ∷ p ∷ []) ((p, client_of p) ∷ (q, client_of q) ∷ [])
unfolding wait_for_peers insert
four p q [] apart = ground arith
four p q (x ∷ xs) apart = ground arith

module _ {Text Cmd : Type 0} ⦃codec : Codec Text Cmd⦄ where
  -- The worker that starts on a storage that can be read.
  abbrev pub fresh_worker : Storage Text Cmd → ℕ → ℕ → List ℕ → List (ℕ × Client) → State Text Cmd
  fresh_worker s n key peers clients = follower (record {
    leader_id = none;
    node_id = n;
    session_key = key;
    cluster_size = length peers + 1;
    peers = peers;
    peer_clients = clients;
    commit_index = 0;
    last_applied = 0;
    storage = s;
  })

module _ {Text Cmd : Type 0} ⦃codec : Codec Text Cmd⦄ ⦃peers_codec : PeersCodec Text⦄ where
  -- A node that is to start a cluster of `k` nodes, 1 ≤ k < 2 ^ 32, and that at least `k - 1` peers reach, all
  -- different, starts a worker that counts `k` nodes and has a client for each of its peers and no other, and
  -- serves `k - 1` peers, if there is no configuration for the session yet and what the
  -- worker has stored can be read.
  pub start-size :
      (b : Browser Text) (n key k : ℕ) (arriving : List ℕ) (s : Storage Text Cmd)
      → 1 ≤ k
      → k < 2 ^ 32
      → b.peer_configuration key ≡ none
      → new b.worker key ≡ ok s
      → AreDistinct arriving
      → k ≤ length arriving + 1
      → (r : Started Text Cmd) × (start b n key k arriving ≡ ok (started r))
        × ((inner r.worker).cluster_size ≡ k)
        × ((inner r.worker).peers ≡ keys (inner r.worker).peer_clients)
        × (length r.served + 1 ≡ k)
  unfolding start load_peer_configuration Machine.start store_peer_configuration contains
  start-size b n key k arriving s some_nodes fits fresh stored once enough =
      let target = sub_usize k 1 in
      let is_target : target + 1 ≡ k = omega arith in
      let (servers, clients, waits, full, all) =
        wait_for_peers-distinct target [] [] arriving once (λ p h. refl) refl (omega arith)
          (omega (arith, is_target)) in
      let b' = store_peer_configuration b key (keys clients) in
      let r : Started Text Cmd = record {
        browser = b';
        worker = fresh_worker s n key (keys clients) clients;
        served = servers;
      } in
      (
        r,
        rw (fresh, waits, stored) refl,
        omega (arith, all, is_target),
        refl,
        omega (arith, full, is_target),
      )

  -- If two different peers are the first to connect, each twice in a row, to a node that is to start a
  -- cluster of five, then it starts with these two as its peers and takes two nodes for a quorum, if there is no
  -- configuration for the session yet and what the worker has stored can be read.
  pub start-twice :
      (b : Browser Text) (n key p q : ℕ) (arriving : List ℕ) (s : Storage Text Cmd)
      → b.peer_configuration key ≡ none
      → new b.worker key ≡ ok s
      → p ≢ q
      → (r : Started Text Cmd) × (start b n key 5 (p ∷ p ∷ q ∷ q ∷ arriving) ≡ ok (started r))
        × (length (inner r.worker).peers ≡ 2)
        × (contains p (inner r.worker).peers ≡ true)
        × (contains q (inner r.worker).peers ≡ true)
        × (quorum (inner r.worker) ≡ 2)
  unfolding start load_peer_configuration Machine.start store_peer_configuration quorum contains
  start-twice b n key p q arriving s fresh stored apart =
      let clients = (p, client_of p) ∷ (q, client_of q) ∷ [] in
      let b' = store_peer_configuration b key (p ∷ q ∷ []) in
      let r : Started Text Cmd = record {
        browser = b';
        worker = fresh_worker s n key (p ∷ q ∷ []) clients;
        served = q ∷ q ∷ p ∷ p ∷ [];
      } in
      let waits : wait_for_peers 4 [] [] (p ∷ p ∷ q ∷ q ∷ arriving)
          ≡ gathered (q ∷ q ∷ p ∷ p ∷ []) clients =
        four p q arriving apart in
      (r, rw (fresh, waits, stored) refl, refl, ground arith, ground arith, refl)
