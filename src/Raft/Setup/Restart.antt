-- ===== src/Raft/Setup/Restart.antt =====
-- wraft/src/raft/mod.rs, `Raft::start`: a node that is started again.
use wraft.Base.{
  IsU64, ◌∷◌, All, subst, insert, Bool-cases, inl, inr, ltb, length, sym, sub_usize, false, ℕ, ◌≡◌,
  refl, ◌∙◌, none, some, List, [], ok, arith, ◌==◌, >>=-ok,
}
use wraft.Raft.Storage.{Codec, Storage, new}
use wraft.Raft.Worker.{Client}
use wraft.Raft.Worker.Machine
use wraft.Raft.Worker.Machine.{State, inner}
use wraft.Raft.Setup.Gathering.{fresh_worker}
use wraft.Raft.Setup.{
  client_of, with_peers, PeersCodec, Browser, Gathered, not_enough_peers, gathered, Started,
  started, wait_for_peers, load_peer_configuration, store_peer_configuration, start, keys,
}

keys-insert-IsU64 :
    (p : ℕ) (x : Client) (m : List (ℕ × Client))
    → IsU64 p
    → All IsU64 (keys m)
    → All IsU64 (keys (insert p x m))
unfolding insert
keys-insert-IsU64 p x [] small h = (small, tt)
keys-insert-IsU64 p x ((j, y) ∷ m) small h = ground (arith, keys-insert-IsU64 p x m small h.1)

gathered-IsU64 :
    (target : ℕ) (servers : List ℕ) (clients : List (ℕ × Client)) (arriving servers' : List ℕ)
    (clients' : List (ℕ × Client))
    → All IsU64 arriving
    → All IsU64 (keys clients)
    → wait_for_peers target servers clients arriving ≡ gathered servers' clients'
    → All IsU64 (keys clients')
unfolding wait_for_peers
gathered-IsU64 target servers clients [] servers' clients' small h ran =
    let same : clients ≡ clients' = ground (arith, ran) in subst (λ m. All IsU64 (keys m)) same h
gathered-IsU64 target servers clients (p ∷ ps) servers' clients' (first, small) h ran =
    elim (Bool-cases (ltb (length servers) target)) [
      | inl more ↦
          gathered-IsU64 target (p ∷ servers) (insert p (client_of p) clients) ps servers' clients'
            small (keys-insert-IsU64 p (client_of p) clients first h) (ground (arith, more, ran))
      | inr done ↦
          let same : clients ≡ clients' = ground (arith, done, ran) in
          subst (λ m. All IsU64 (keys m)) same h
    ]

module _ {Text : Type 0} ⦃peers_codec : PeersCodec Text⦄ where
  -- Peers that are stored, with ids of 64 bits, are loaded again, and other sessions keep theirs.
  pub load-store :
      (b : Browser Text) (key : ℕ) (peers : List ℕ)
      → All IsU64 peers
      → (load_peer_configuration (store_peer_configuration b key peers) key ≡ ok (some peers))
        × ((other : ℕ)
            → (other == key) ≡ false
            → load_peer_configuration (store_peer_configuration b key peers) other
              ≡ load_peer_configuration b other)
  unfolding load_peer_configuration store_peer_configuration
  load-store b key peers small =
      (ground (arith, peers_codec.deserialize-serialize peers small), λ other h. ground arith)

module _ {Text Cmd : Type 0} ⦃codec : Codec Text Cmd⦄ ⦃peers_codec : PeersCodec Text⦄ where
  -- What a node that has started a cluster is.
  with_peers-started :
      (b : Browser Text) (n key : ℕ) (g : Gathered) (r : Started Text Cmd)
      → with_peers b n key g ≡ ok (started r)
      → (s : Storage Text Cmd) × (servers : List ℕ) × (clients : List (ℕ × Client)) × (g
          ≡ gathered servers clients)
        × (new b.worker key ≡ ok s)
        × (r.browser ≡ store_peer_configuration b key (keys clients))
        × (r.worker ≡ fresh_worker s n key (keys clients) clients)
  unfolding Machine.start store_peer_configuration
  with_peers-started b n key not_enough_peers r h = cc
  with_peers-started b n key (gathered servers clients) r h =
      let (w, begun, rest) = >>=-ok (Machine.start b.worker n key (keys clients) clients) _ h in
      let (s, read, last) = >>=-ok (new b.worker key) _ begun in
      (s, servers, clients, refl, read, ground arith, ground arith)

  first_start :
      (b : Browser Text) (n key k : ℕ) (arriving : List ℕ)
      → b.peer_configuration key ≡ none
      → start b n key k arriving
        ≡ with_peers {Text = Text} {Cmd = Cmd} b n key
            (wait_for_peers (sub_usize k 1) [] [] arriving)
  unfolding start load_peer_configuration
  first_start b n key k arriving fresh = rw fresh refl

  rejoins :
      (b : Browser Text) (n key k : ℕ) (arriving peers : List ℕ) (s : Storage Text Cmd)
      → load_peer_configuration b key ≡ ok (some peers)
      → new b.worker key ≡ ok s
      → start b n key k arriving
        ≡ ok (started (record { browser = b; worker = fresh_worker s n key peers []; served = [] }))
  unfolding start Machine.start
  rejoins b n key k arriving peers s loaded read = rw (loaded, read) refl

  -- A node that has started a cluster of peers with ids of 64 bits, with no configuration for the
  -- session before, and is started again
  -- on the browser storage as the start left it, rejoins that cluster, whatever size it is told and whoever
  -- connects: the storage stays, the worker is the one of the first start without any clients,
  -- and it serves nobody.
  pub restart :
      (b : Browser Text) (n key k k' : ℕ) (arriving arriving' : List ℕ) (r : Started Text Cmd)
      → All IsU64 arriving
      → b.peer_configuration key ≡ none
      → start b n key k arriving ≡ ok (started r)
      → (r' : Started Text Cmd) × (start r.browser n key k' arriving' ≡ ok (started r'))
        × (r'.browser ≡ r.browser)
        × (inner r'.worker ≡ record (inner r.worker) { peer_clients = [] })
        × (r'.served ≡ [])
  unfolding store_peer_configuration
  restart b n key k k' arriving arriving' r ids fresh ran =
      let target = sub_usize k 1 in
      let first = sym (first_start b n key k arriving fresh) ∙ ran in
      let (s, servers, clients, waits, read, kept, worker) =
        with_peers-started b n key (wait_for_peers target [] [] arriving) r first in
      let small = gathered-IsU64 target [] [] arriving servers clients ids tt waits in
      let r' : Started Text Cmd = record {
        browser = r.browser;
        worker = fresh_worker s n key (keys clients) [];
        served = [];
      } in
      (
        r',
        rw kept (
            rejoins (store_peer_configuration b key (keys clients)) n key k' arriving'
              (keys clients) s (load-store b key (keys clients) small).0 read),
        refl,
        rw worker refl,
        refl,
      )
