-- ===== src/Raft/Leading/Progress.antt =====
-- What a leader sends to a peer, and what it learns from the response.
use wraft.Base.{
  drop-get_elem?, drop_all, get_elem?-some, Option-cases, get_elem?, ltb, ℕ, zero, suc, ◌+◌, ◌-◌,
  ◌<◌, ◌≤◌, ◌^◌, ◌≡◌, ◌≢◌, refl, subst, ◌∙◌, ap, ◌⊎◌, inl, inr, none, some, List, [], ◌∷◌, arith,
  ok, Bool-cases, length, take, drop, head?, last?, add64, sub64, get, insert_set, remove_set,
  range,
}
use wraft.Raft.Types.{LogEntry, AppendEntriesRequest, AppendEntriesResponse, RpcResponse, RpcResult}
use wraft.Raft.Storage.{Codec, Storage, sublog, update_term}
use wraft.Raft.Storage.Log.{entry_at, entry_at-some, Holds, get_log_lem, sublog_lem}
use wraft.Raft.Worker.{Inner, call_append, continue, become_follower, idx_or}
use wraft.Raft.Worker.Leader.{Leader, send_entries, term_before, max_batch_size}
use wraft.Raft.Worker.Leader.Handlers.{handle_append_entries_response}
use wraft.Raft.Replication.Agreement.{Consecutive}
use wraft.Raft.Replication.Applied.{slice-Consecutive}
use wraft.Raft.Replication.Reply.{Matches}
use wraft.Raft.Votes.{update_term_lem}

module _ {Text Cmd : Type 0} where
  -- What a leader with the log asks of a peer whose next index is `next`.
  abbrev pub Asks : Inner Text Cmd → List (LogEntry Cmd) → ℕ → AppendEntriesRequest Cmd → Type 0
  Asks w log next req =
      (req.term ≡ w.storage.current_term)
      × (req.leader_id ≡ w.node_id)
      × (req.leader_commit ≡ w.commit_index)
      × (req.prev_log_index + 1 ≡ next)
      × Matches log req
      × (req.entries ≡ take max_batch_size (drop (next - 1) log))
      × Consecutive next req.entries

module _ {Cmd : Type 0} where
  last_run :
      (k d : ℕ) (e : LogEntry Cmd) (es : List (LogEntry Cmd))
      → Consecutive k (e ∷ es)
      → idx_or (last? (e ∷ es)) d + 1 ≡ k + length (e ∷ es)
  last_run k d e [] run = omega (arith, run.0)
  last_run k d e (x ∷ es) run = omega (arith, last_run (suc k) d x es run.1)

  last_sent :
      (log : List (LogEntry Cmd)) (n prev d : ℕ)
      → ((i : ℕ) (e : LogEntry Cmd) → get_elem? log i ≡ some e → e.idx ≡ suc i)
      → prev ≤ length log
      → d ≡ length log
      → idx_or (last? (take (suc n) (drop prev log))) d
        ≡ prev + length (take (suc n) (drop prev log))
  last_sent log n prev d indexed within ends = elim (Option-cases (get_elem? log prev)) [
    | inl gone ↦
        let behind : length log ≤ prev = ground (arith, get_elem?-some log prev) in
        rw (drop_all log prev behind) (omega arith)
    | inr (e, here) ↦
        let rest = drop-get_elem? log prev here in
        let part = take n (drop (suc prev) log) in
        let run : Consecutive (suc prev) (e ∷ part) =
          subst (λ es. Consecutive (suc prev) (take (suc n) es)) rest
            (slice-Consecutive log (suc n) prev indexed) in
        rw rest (omega (arith, last_run (suc prev) d e part run))
  ]

module _ {Text Cmd : Type 0} ⦃codec : Codec Text Cmd⦄ where
  -- The term before a position in the log is that of the log's entry there.
  term_before_lem :
      (w : Inner Text Cmd) (log : List (LogEntry Cmd)) (prev : ℕ)
      → Holds w.storage log
      → prev ≤ length log
      → (t : ℕ) × (term_before w prev ≡ ok t)
        × ((prev ≡ 0) ⊎ ((x : LogEntry Cmd) × (entry_at log prev ≡ some x) × (x.term ≡ t)))
  unfolding term_before
  term_before_lem w log zero h within = (0, refl, inl refl)
  term_before_lem w log (suc i) h within =
      let (x, here) = entry_at-some log (suc i) (omega arith) within in
      (x.term, ground (arith, get_log_lem w.storage log (suc i) h), inr (x, here, refl))

  pub sends :
      (w : Inner Text Cmd) (l : Leader) (peer next prev t : ℕ) (part : List (LogEntry Cmd))
      → get peer l.next_indices ≡ some next
      → sub64 next 1 ≡ prev
      → term_before w prev ≡ ok t
      → sublog w.storage (range next (add64 next max_batch_size)) ≡ ok part
      → send_entries w l peer
        ≡ ok (
          record l { in_flight_peers = insert_set peer l.in_flight_peers },
          call_append peer
                (idx_or (head? part) (idx_or (last? part) w.storage.last_log_index))
                (idx_or (last? part) w.storage.last_log_index)
                (record {
                  term = w.storage.current_term;
                  leader_id = w.node_id;
                  prev_log_index = prev;
                  prev_log_term = t;
                  entries = part;
                  leader_commit = w.commit_index;
                })
              ∷ [],
        )
  unfolding send_entries
  sends w l peer next prev t part known at_prev read sub =
      rw (known, at_prev) (rw read (rw sub refl))

  -- The request, with the last index that the leader keeps for it.
  pub sent_request :
      (w : Inner Text Cmd) (l : Leader) (log : List (LogEntry Cmd)) (peer next : ℕ)
      → Holds w.storage log
      → get peer l.next_indices ≡ some next
      → 0 < next
      → next ≤ length log + 1
      → next + max_batch_size < 2 ^ 64
      → (req : AppendEntriesRequest Cmd) × (first : ℕ) × (last : ℕ) × (send_entries w l peer
          ≡ ok (
            record l { in_flight_peers = insert_set peer l.in_flight_peers },
            call_append peer first last req ∷ [],
          ))
        × Asks w log next req
        × (last ≡ req.prev_log_index + length req.entries)
  unfolding send_entries
  sent_request w l log peer next h known pos within room =
      let prev = next - 1 in
      let at_prev : sub64 next 1 ≡ prev = omega arith in
      let (t, read, before) = term_before_lem w log prev h (omega arith) in
      let n = add64 next max_batch_size - next in
      let size : n ≡ max_batch_size = omega arith in
      let part = take max_batch_size (drop prev log) in
      let sub =
        sublog_lem w.storage log n prev next h (omega arith)
        ∙ ap (λ k. ok (take k (drop prev log))) size in
      let last = idx_or (last? part) w.storage.last_log_index in
      (
        record {
          term = w.storage.current_term;
          leader_id = w.node_id;
          prev_log_index = prev;
          prev_log_term = t;
          entries = part;
          leader_commit = w.commit_index;
        },
        idx_or (head? part) last,
        last,
        sends w l peer next prev t part known at_prev read sub,
        (
          refl,
          refl,
          refl,
          omega arith,
          before,
          refl,
          subst (λ k. Consecutive k part) (omega arith)
              (slice-Consecutive log max_batch_size prev h.indexed),
        ),
        last_sent log 99 prev w.storage.last_log_index h.indexed (omega arith) h.last,
      )

  -- A leader whose next index for a peer lies within its log, or right behind it, sends without a
  -- panic: the entries of its log from that index on, a hundred at most, behind the entry that its
  -- log has before them; and it marks the peer as busy.
  pub send_entries_lem :
      (w : Inner Text Cmd) (l : Leader) (log : List (LogEntry Cmd)) (peer next : ℕ)
      → Holds w.storage log
      → get peer l.next_indices ≡ some next
      → 0 < next
      → next ≤ length log + 1
      → next + max_batch_size < 2 ^ 64
      → (req : AppendEntriesRequest Cmd) × (first : ℕ) × (last : ℕ) × (send_entries w l peer
          ≡ ok (
            record l { in_flight_peers = insert_set peer l.in_flight_peers },
            call_append peer first last req ∷ [],
          ))
        × Asks w log next req
  send_entries_lem w l log peer next h known pos within room =
      let (req, first, last, ran, asks, ends) =
        sent_request w l log peer next h known pos within room in
      (req, first, last, ran, asks)

  -- A response to append from a newer term makes the leader step down into that term, with its
  -- vote free; one from an older term changes nothing but that the peer is free again.
  pub response_other_term :
      (w : Inner Text Cmd) (l : Leader) (peer first last : ℕ) (resp : AppendEntriesResponse)
      → resp.term ≢ w.storage.current_term
      → let l' = record l { in_flight_peers = remove_set peer l.in_flight_peers } in
        let r =
          handle_append_entries_response w l peer first last
            (RpcResult.ok (RpcResponse.append_entries resp)) in
        ((w.storage.current_term < resp.term)
          × ((s : Storage Text Cmd) × (r ≡ ok (become_follower, record w { storage = s }, l', []))
              × (s.current_term ≡ resp.term)
              × (s.voted_for ≡ none)))
        ⊎ ((resp.term < w.storage.current_term) × (r ≡ ok (continue, w, l', [])))
  unfolding handle_append_entries_response
  response_other_term w l peer first last resp other =
      elim (Bool-cases (ltb w.storage.current_term resp.term)) [
        | inl newer ↦ inl (
          ground arith,
          (
            (update_term w.storage resp.term).0,
            ground (arith, update_term_lem w.storage resp.term),
            ground (arith, update_term_lem w.storage resp.term),
            ground (arith, update_term_lem w.storage resp.term),
          ),
        )
        | inr older ↦ inr (ground arith, ground (arith, update_term_lem w.storage resp.term))
      ]
