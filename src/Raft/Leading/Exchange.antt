-- ===== src/Raft/Leading/Exchange.antt =====
-- A leader and a peer over one exchange: the leader's request, the peer's success, and what the
-- leader then knows of the peer.
use wraft.Base.{
  zero, ℕ, suc, ◌+◌, ◌-◌, ◌<◌, ◌≤◌, ◌^◌, ◌≡◌, subst, sym, ◌∙◌, ap, true, false, some, List, [], ◌∷◌,
  arith, ok, length, take, drop, max, get, insert, get-insert, insert_set, remove_set, contains,
  contains-remove_set, All,
}
use wraft.Raft.Types.{
  LogEntry, FitsU64, AppendEntriesRequest, AppendEntriesResponse, RpcResponse, RpcResult,
}
use wraft.Raft.Storage.{Codec}
use wraft.Raft.Storage.Log.{Holds}
use wraft.Raft.Worker.{Inner, call_append, continue, handle_append_entries}
use wraft.Raft.Worker.Leader.{Leader, send_entries, max_batch_size}
use wraft.Raft.Worker.Leader.Handlers.{record_progress, handle_append_entries_response}
use wraft.Raft.Replication.Matching.{Matching, SameUpTo}
use wraft.Raft.Leading.Progress.{Asks, sent_request}
use wraft.Raft.Leading.Sharing.{log-Matching, All-take, All-drop}
use wraft.Raft.Votes.{update_term_lem}

length-take_le : {A : Type 0} (n : ℕ) (xs : List A) → length (take n xs) ≤ n
length-take_le zero xs = omega arith
length-take_le (suc n) [] = omega arith
length-take_le (suc n) (x ∷ xs) = omega (arith, length-take_le n xs)

module _ {Text Cmd : Type 0} ⦃codec : Codec Text Cmd⦄ where
  success_recorded :
      (u : Inner Text Cmd) (l : Leader) (peer first last next m : ℕ) (resp : AppendEntriesResponse)
      → resp.term ≡ u.storage.current_term
      → resp.success ≡ true
      → get peer l.next_indices ≡ some next
      → get peer l.match_indices ≡ some m
      → last + 1 < 2 ^ 64
      → handle_append_entries_response u l peer first last
          (RpcResult.ok (RpcResponse.append_entries resp))
        ≡ ok (
          continue,
          u,
          record l {
            next_indices = insert peer (max next (last + 1)) l.next_indices;
            match_indices = insert peer (max m last) l.match_indices;
            in_flight_peers = remove_set peer l.in_flight_peers;
          },
          [],
        )
  unfolding handle_append_entries_response record_progress
  success_recorded u l peer first last next m resp same good known matched room =
      ground (arith, update_term_lem u.storage resp.term)

  -- What a leader writes down of a peer is true. The leader sends to the peer from its next index,
  -- which lies within its log or right behind it, and behind its match index; where both logs have
  -- an entry of one term, they are the same up to there; the peer takes the request with a success,
  -- and its reply has the leader's term. Then the leader takes the reply without a panic or a
  -- message, and the peer's match index is one up to which the peer's log is the leader's, not
  -- before the old one, its next index is the one behind that, and the peer is free again; and
  -- where both logs have an entry of one term they are still the same up to there.
  pub match_index_holds :
      (u w w' : Inner Text Cmd) (l l1 : Leader) (log f : List (LogEntry Cmd))
      (peer next m first last : ℕ) (req : AppendEntriesRequest Cmd) (resp : AppendEntriesResponse)
      → Holds u.storage log
      → Holds w.storage f
      → Matching f log
      → All FitsU64 log
      → get peer l.next_indices ≡ some next
      → get peer l.match_indices ≡ some m
      → m < next
      → next ≤ length log + 1
      → next + max_batch_size < 2 ^ 64
      → length f + max_batch_size < 2 ^ 64
      → send_entries u l peer ≡ ok (l1, call_append peer first last req ∷ [])
      → handle_append_entries w req ≡ ok (w', resp)
      → resp.success ≡ true
      → resp.term ≡ u.storage.current_term
      → (f' : List (LogEntry Cmd)) × (l2 : Leader) × (m' : ℕ) × (handle_append_entries_response u l1
            peer first last
            (RpcResult.ok (RpcResponse.append_entries resp))
          ≡ ok (continue, u, l2, []))
        × Holds w'.storage f'
        × (get peer l2.match_indices ≡ some m')
        × SameUpTo m' f' log
        × (m ≤ m')
        × (get peer l2.next_indices ≡ some (m' + 1))
        × (contains peer l2.in_flight_peers ≡ false)
        × Matching f' log
  match_index_holds u w w' l l1 log f peer next m first last req resp holds fh matching fits known
        matched before within room roomy sent replied good same =
      let (asked, first_asked, last_asked, ran, asks, ends) =
        sent_request u l log peer next holds known (omega (arith, before)) within room in
      let both = sym ran ∙ sent in
      let same_request : asked ≡ req = cc in
      let same_last : last_asked ≡ last = cc in
      let busy : l1 ≡ record l { in_flight_peers = insert_set peer l.in_flight_peers } = cc in
      let asks' : Asks u log next req = subst (Asks u log next) same_request asks in
      let ends' : last ≡ req.prev_log_index + length req.entries =
        sym same_last ∙ ends ∙ ap (λ r. r.prev_log_index + length r.entries) same_request in
      let few : length req.entries ≤ max_batch_size =
        subst (λ es. length es ≤ max_batch_size) (sym asks'.5)
          (length-take_le max_batch_size (drop (next - 1) log)) in
      let behind : req.prev_log_index + 1 ≡ next = asks'.3 in
      let fits' : All FitsU64 req.entries = subst (All FitsU64) (sym asks'.5) (
        All-take FitsU64 max_batch_size (drop (next - 1) log)
          (All-drop FitsU64 (next - 1) log fits)) in
      let (f', held, still, upto) =
        log-Matching w w' u req resp f log next fh holds asks' matching fits'
          (omega (arith, few, roomy)) replied good in
      let largest : max m last ≡ last = omega (arith, before, behind, ends') in
      let further : max next (last + 1) ≡ max m last + 1 =
        omega (arith, largest, before, behind, ends') in
      (
        f',
        record l1 {
          next_indices = insert peer (max next (last + 1)) l1.next_indices;
          match_indices = insert peer (max m last) l1.match_indices;
          in_flight_peers = remove_set peer l1.in_flight_peers;
        },
        max m last,
        success_recorded u l1 peer first last next m resp same good
            (ap (λ k. get peer k.next_indices) busy ∙ known)
            (ap (λ k. get peer k.match_indices) busy ∙ matched)
            (omega (arith, ends', few, behind, room)),
        held,
        ground (arith, get-insert peer peer (max m last) l1.match_indices),
        subst (λ k. SameUpTo k f' log) (sym (largest ∙ ends')) upto,
        omega arith,
        ground (arith, get-insert peer peer (max next (last + 1)) l1.next_indices, further),
        contains-remove_set peer l1.in_flight_peers,
        still,
      )
