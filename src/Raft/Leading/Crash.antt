-- ===== src/Raft/Leading/Crash.antt =====
-- A leader after a follower's refusal: `*next = min(*next, indices.start() - 1)`.
use wraft.Base.{
  ℕ, ◌+◌, ◌<◌, ◌^◌, ◌≡◌, ◌∙◌, ap, refl, true, false, some, List, [], ◌∷◌, arith, ok, panic, length,
  min, sub64, get, insert, get-insert, contains-remove_set, insert_set, remove_set,
}
use wraft.Raft.Types.{LogEntry, AppendEntriesRequest, AppendEntriesResponse, RpcResponse, RpcResult}
use wraft.Raft.Storage.{Codec, get_log}
use wraft.Raft.Storage.Log.{sublog_lem, Holds, get_log_lem}
use wraft.Raft.Worker.{Inner, Client, call_append}
use wraft.Raft.Worker.Leader.{Leader, send_entries, term_before, append_entries}
use wraft.Raft.Worker.Leader.Handlers.{record_progress, handle_append_entries_response}
use wraft.Raft.Votes.{update_term_lem}
use wraft.Raft.Leading.Progress.{sends}

module _ {Text Cmd : Type 0} ⦃codec : Codec Text Cmd⦄ where
  -- The log has no entry at the last number of a u64.
  term_before_wrapped :
      (w : Inner Text Cmd) (log : List (LogEntry Cmd))
      → Holds w.storage log
      → length log + 1 < 2 ^ 64
      → term_before w (sub64 0 1) ≡ panic
  unfolding term_before get_log
  term_before_wrapped w log h room = ground (arith, h.last)

  send_from_zero :
      (w : Inner Text Cmd) (l : Leader) (log : List (LogEntry Cmd)) (peer : ℕ)
      → Holds w.storage log
      → length log + 1 < 2 ^ 64
      → get peer l.next_indices ≡ some 0
      → send_entries w l peer ≡ panic
  unfolding send_entries
  send_from_zero w l log peer h room known = rw known (rw (term_before_wrapped w log h room) refl)

  -- A refusal in the leader's own term, for a call whose first index was 1, makes the leader panic
  -- whenever the peer is still connected.
  pub refused_at_one_panics :
      (w : Inner Text Cmd) (l : Leader) (log : List (LogEntry Cmd)) (peer last next : ℕ)
      (client : Client) (resp : AppendEntriesResponse)
      → Holds w.storage log
      → length log + 1 < 2 ^ 64
      → get peer l.next_indices ≡ some next
      → get peer w.peer_clients ≡ some client
      → client.connected ≡ true
      → resp.term ≡ w.storage.current_term
      → resp.success ≡ false
      → handle_append_entries_response w l peer 1 last
          (RpcResult.ok (RpcResponse.append_entries resp))
        ≡ panic
  unfolding handle_append_entries_response record_progress append_entries
  refused_at_one_panics w l log peer last next client resp h room known reached up same refused =
      let l' : Leader = record l {
        next_indices = insert peer (min next 0) l.next_indices;
        in_flight_peers = remove_set peer l.in_flight_peers;
      } in
      ground (
        arith,
        update_term_lem w.storage resp.term,
        contains-remove_set peer l.in_flight_peers,
        send_from_zero w l' log peer h room,
        get-insert peer peer (min next 0) l.next_indices,
      )

  heartbeat_sent :
      (w : Inner Text Cmd) (l : Leader) (e : LogEntry Cmd) (peer : ℕ)
      → Holds w.storage (e ∷ [])
      → get peer l.next_indices ≡ some 2
      → send_entries w l peer
        ≡ ok (
          record l { in_flight_peers = insert_set peer l.in_flight_peers },
          call_append peer 1 1 (record {
            term = w.storage.current_term;
            leader_id = w.node_id;
            prev_log_index = 1;
            prev_log_term = e.term;
            entries = [];
            leader_commit = w.commit_index;
          })
              ∷ [],
        )
  unfolding term_before
  heartbeat_sent w l e peer h known =
      let req : AppendEntriesRequest Cmd = record {
        term = w.storage.current_term;
        leader_id = w.node_id;
        prev_log_index = 1;
        prev_log_term = e.term;
        entries = [];
        leader_commit = w.commit_index;
      } in
      let busy : Leader = record l { in_flight_peers = insert_set peer l.in_flight_peers } in
      sends w l peer 2 1 e.term [] known refl (ground (arith, get_log_lem w.storage (e ∷ []) 1 h))
        (sublog_lem w.storage (e ∷ []) 100 1 2 h refl)
      ∙ ap (λ (n : ℕ). ok (busy, call_append peer n n req ∷ [])) h.last

  -- A leader with one log entry, whose next index for a peer is 2, panics when a connected peer that lacks the entry refuses the
  -- first heartbeat: that call carries no entry and has 1 as its first and its last index.
  pub lone_entry_crash :
      (w : Inner Text Cmd) (l : Leader) (e : LogEntry Cmd) (peer : ℕ) (client : Client)
      (resp : AppendEntriesResponse)
      → Holds w.storage (e ∷ [])
      → get peer l.next_indices ≡ some 2
      → get peer w.peer_clients ≡ some client
      → client.connected ≡ true
      → resp.term ≡ w.storage.current_term
      → resp.success ≡ false
      → let l' = record l { in_flight_peers = insert_set peer l.in_flight_peers } in
        ((req : AppendEntriesRequest Cmd) × (send_entries w l peer
            ≡ ok (l', call_append peer 1 1 req ∷ []))
          × (req.entries ≡ [])
          × (req.prev_log_index ≡ 1))
        × (handle_append_entries_response w l' peer 1 1
              (RpcResult.ok (RpcResponse.append_entries resp))
            ≡ panic)
  lone_entry_crash w l e peer client resp h known reached up same refused = (
    (
      record {
        term = w.storage.current_term;
        leader_id = w.node_id;
        prev_log_index = 1;
        prev_log_term = e.term;
        entries = [];
        leader_commit = w.commit_index;
      },
      heartbeat_sent w l e peer h known,
      refl,
      refl,
    ),
    refused_at_one_panics w (record l { in_flight_peers = insert_set peer l.in_flight_peers })
        (e ∷ []) peer 1 2 client resp h (omega arith) known reached up same refused,
  )
