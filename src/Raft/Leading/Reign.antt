-- ===== src/Raft/Leading/Reign.antt =====
-- The log of a leader of worker.rs while it leads.
use wraft.Base.{
  get, unwrap, remove_set, Bool, ℕ, ◌+◌, ◌<◌, ◌^◌, ◌≡◌, refl, subst, ◌∙◌, ◌⊎◌, inl, inr, List, [],
  ◌∷◌, ◌++◌, append-nil, append_assoc, arith, ok, >>=-ok, add64, IsU64, All, true, false, Bool,
}
use wraft.Raft.Types.{LogEntry, ClientRequest, RpcRequest, RpcResult, RpcResponse}
use wraft.Raft.Storage.{Codec, Storage, append_log, update_term}
use wraft.Raft.Storage.Log.{Holds, append_log_lem}
use wraft.Raft.Worker.{
  forwarded, Inner, ClientSender, Effect, StateChange, continue, become_follower, apply_log,
  handle_new_peer, set_disconnected,
}
use wraft.Raft.Worker.Leader
use wraft.Raft.Worker.Leader.{Leader}
use wraft.Raft.Worker.Leader.Handlers
use wraft.Raft.Worker.Machine.{Event, leader, leader_after, leader_branch, step}
use wraft.Raft.Votes.{update_term_lem}
use wraft.Raft.Votes.Handlers.{apply_log-storage}
use wraft.Raft.Votes.Runs.{advance_commit_index-storage}

All-snoc :
    {Cmd : Type 0} (term : ℕ) (es : List (LogEntry Cmd)) (e : LogEntry Cmd)
    → All (λ d. d.term ≡ term) es
    → e.term ≡ term
    → All (λ d. d.term ≡ term) (es ++ e ∷ [])
All-snoc term [] e h own = (own, tt)
All-snoc term (d ∷ es) e (first, h) own = (first, All-snoc term es e h own)

module _ {Text Cmd : Type 0} ⦃codec : Codec Text Cmd⦄ where
  -- Nothing changes, or an entry of the own term with the next index is appended.
  abbrev pub Grows : Storage Text Cmd → Storage Text Cmd → Type 0
  Grows s t =
      (t ≡ s)
      ⊎ ((e : LogEntry Cmd) × (append_log s e ≡ ok t)
          × (e.term ≡ s.current_term)
          × (e.idx ≡ add64 s.last_log_index 1))

  client_request-Grows :
      (w w' : Inner Text Cmd) (l l' : Leader) (out : List (Effect Cmd)) (req : ClientRequest Cmd)
      (tx : ClientSender)
      → Handlers.handle_client_request w l req tx ≡ ok (w', l', out)
      → Grows w.storage w'.storage
  unfolding Handlers.handle_client_request Handlers.handle_log_update
  client_request-Grows w w' l l' out (ClientRequest.apply cmd) tx h =
      let (r, updated, rest) = >>=-ok (Handlers.handle_log_update w l cmd tx) _ h in
      let e : LogEntry Cmd = record {
        cmd = cmd;
        term = w.storage.current_term;
        idx = add64 w.storage.last_log_index 1;
      } in
      let (t, appended, sent) = >>=-ok (append_log w.storage e) _ updated in
      let (q, all, done) = >>=-ok (Leader.append_all (record w { storage = t }) _ w.peers) _ sent in
      let to : w'.storage ≡ t = ground arith in inr (e, rw to appended, refl, refl)
  client_request-Grows w w' l l' out ClientRequest.debug tx h = inl (ground arith)

  leader-rpc-Grows :
      (w w' : Inner Text Cmd) (l l' : Leader) (req : RpcRequest Cmd) (tx : ℕ)
      (out : List (Effect Cmd))
      → Handlers.handle_rpc w l req tx ≡ ok (continue, w', l', out)
      → Grows w.storage w'.storage
  unfolding Handlers.handle_rpc Handlers.obey
  leader-rpc-Grows w w' l l' (RpcRequest.append_entries req) tx out h =
      inl (ground (arith, update_term_lem w.storage req.term))
  leader-rpc-Grows w w' l l' (RpcRequest.request_vote req) tx out h =
      inl (ground (arith, update_term_lem w.storage req.term))
  leader-rpc-Grows w w' l l' (RpcRequest.forward_client_request req) tx out h =
      let (r, handled, rest) = >>=-ok (Handlers.handle_client_request w l req (forwarded tx)) _ h in
      let to : w' ≡ r.0 = ground arith in
      rw to (client_request-Grows w r.0 l r.1 r.2 req (forwarded tx) handled)

  record_progress-inner :
      (good : Bool) (change : StateChange) (w w' : Inner Text Cmd) (l l' : Leader)
      (peer first last : ℕ) (out : List (Effect Cmd))
      → Handlers.record_progress good w l peer first last ≡ ok (change, w', l', out)
      → w' ≡ w
  unfolding Handlers.record_progress
  record_progress-inner true change w w' l l' peer first last out h = ground arith
  record_progress-inner false change w w' l l' peer first last out h =
      let (next, known, more) = >>=-ok (unwrap (get peer l.next_indices)) _ h in
      let (r, sent, rest) = >>=-ok (Leader.append_entries w _ peer) _ more in ground arith

  response-storage :
      (w w' : Inner Text Cmd) (l l' : Leader) (peer first last : ℕ) (res : RpcResult)
      (out : List (Effect Cmd))
      → Handlers.handle_append_entries_response w l peer first last res ≡ ok (continue, w', l', out)
      → w'.storage ≡ w.storage
  unfolding Handlers.handle_append_entries_response Handlers.handle_result
  response-storage w w' l l' peer first last (RpcResult.ok (RpcResponse.append_entries resp)) out
        h =
      let u : Inner Text Cmd = record w { storage = (update_term w.storage resp.term).0 } in
      let free : Leader = record l { in_flight_peers = remove_set peer l.in_flight_peers } in
      ground (
        arith,
        record_progress-inner resp.success continue u w' free l' peer first last out,
        update_term_lem w.storage resp.term,
      )
  response-storage w w' l l' peer first last _ out h = ground arith

  leader_after-leads :
      (change : StateChange) (w w' : Inner Text Cmd) (l l' : Leader) (out out' : List (Effect Cmd))
      → leader_after change w l out ≡ ok (leader w' l', out')
      → (change ≡ continue) × (w' ≡ w)
  unfolding leader_after
  leader_after-leads become_follower w w' l l' out out' h = absurd (ground arith)
  leader_after-leads continue w w' l l' out out' h = (refl, ground arith)

  leader_branch-Grows :
      (w w' : Inner Text Cmd) (l l' : Leader) (ev : Event Cmd) (out : List (Effect Cmd))
      → leader_branch w l ev ≡ ok (leader w' l', out)
      → Grows w.storage w'.storage
  unfolding leader_branch handle_new_peer set_disconnected
  leader_branch-Grows w w' l l' (Event.rpc req tx) out h =
      let (r, handled, rest) = >>=-ok (Handlers.handle_rpc w l req tx) _ h in
      let (on, to) = leader_after-leads r.0 r.1 w' r.2 l' r.3 out rest in
      rw to (leader-rpc-Grows w r.1 l r.2 req tx r.3 (ground (arith, handled, on)))
  leader_branch-Grows w w' l l' (Event.client req tx) out h =
      let (r, handled, rest) = >>=-ok (Handlers.handle_client_request w l req tx) _ h in
      let to : w' ≡ r.0 = ground arith in
      rw to (client_request-Grows w r.0 l r.1 r.2 req tx handled)
  leader_branch-Grows w w' l l' (Event.new_peer p) out h = inl (ground arith)
  leader_branch-Grows w w' l l' (Event.disconnected p) out h = inl (ground arith)
  leader_branch-Grows w w' l l' Event.timeout out h =
      let (r, sent, rest) = >>=-ok (Leader.heartbeat w l) _ h in inl (ground arith)
  leader_branch-Grows w w' l l' Event.vote out h = inl (ground arith)
  leader_branch-Grows w w' l l' (Event.append_response p first last res) out h =
      let (r, handled, rest) =
        >>=-ok (Handlers.handle_append_entries_response w l p first last res) _ h in
      let (on, to) = leader_after-leads r.0 r.1 w' r.2 l' r.3 out rest in
      inl (rw to (response-storage w r.1 l r.2 p first last res r.3 (ground (arith, handled, on))))

  step-Grows :
      (w w' : Inner Text Cmd) (l l' : Leader) (ev : Event Cmd) (out : List (Effect Cmd))
      → step (leader w l) ev ≡ ok (leader w' l', out)
      → Grows w.storage w'.storage
  unfolding step
  step-Grows w w' l l' ev out h =
      let (p, advanced, most) = >>=-ok (Leader.advance_commit_index w l) _ h in
      let (r, applied, more) = >>=-ok (apply_log p.0) _ most in
      let (q, branch, rest) = >>=-ok (leader_branch r.0 p.1 ev) _ more in
      let stored : r.0.storage ≡ w.storage =
        apply_log-storage p.0 r.0 r.1 applied
        ∙ advance_commit_index-storage w p.0 l p.1 p.2 advanced in
      let leads : leader_branch r.0 p.1 ev ≡ ok (leader w' l', q.1) = ground (arith, branch) in
      subst (λ s. Grows s w'.storage) stored (leader_branch-Grows r.0 w' p.1 l' ev q.1 leads)

  -- Rounds in which the node leads throughout, each begun with room for an entry behind the log.
  pub data Reign (w : Inner Text Cmd) (l : Leader) : Inner Text Cmd → Leader → Type 0 where
    begun : Reign w l w l
    further :
        {u : Inner Text Cmd} {k : Leader}
        → Reign w l u k
        → u.storage.last_log_index + 1 < 2 ^ 64
        → (ev : Event Cmd) (w' : Inner Text Cmd) (l' : Leader) (out : List (Effect Cmd))
        → step (leader u k) ev ≡ ok (leader w' l', out)
        → Reign w l w' l'

  -- The storage holds the log with entries of a term behind it, and is in that term.
  abbrev pub HoldsMore : Storage Text Cmd → List (LogEntry Cmd) → ℕ → Type 0
  HoldsMore s log term =
      (new : List (LogEntry Cmd)) × Holds s (log ++ new)
      × (s.current_term ≡ term)
      × All (λ e. e.term ≡ term) new

  Grows-HoldsMore :
      (s t : Storage Text Cmd) (log : List (LogEntry Cmd)) (term : ℕ)
      → s.last_log_index + 1 < 2 ^ 64
      → IsU64 term
      → HoldsMore s log term
      → Grows s t
      → HoldsMore t log term
  Grows-HoldsMore s t log term room fits (new, holds, at_term, own) (inl same) =
      rw same (new, holds, at_term, own)
  Grows-HoldsMore s t log term room fits (new, holds, at_term, own)
        (inr (e, appended, own_term, next)) =
      let (u, ran, longer, keeps) =
        append_log_lem s (log ++ new) e holds (omega arith, omega arith)
          (omega (arith, holds.last)) in
      let to : u ≡ t = ground (arith, ran) in
      let joined : (log ++ new) ++ e ∷ [] ≡ log ++ (new ++ e ∷ []) =
        append_assoc log new (e ∷ []) in
      (
        new ++ e ∷ [],
        subst (λ v. Holds v (log ++ (new ++ e ∷ []))) to (subst (Holds u) joined longer),
        ground (arith, to, keeps.term),
        All-snoc term new e own (own_term ∙ at_term),
      )

  -- Over any rounds in which a node leads throughout, its term stays, and its log only grows, by
  -- entries of that term at its end: of what a leader's log holds nothing is overwritten or removed.
  pub leader_appends_only :
      (w : Inner Text Cmd) (l : Leader) (log : List (LogEntry Cmd))
      → Holds w.storage log
      → IsU64 w.storage.current_term
      → {w' : Inner Text Cmd} {l' : Leader} → Reign w l w' l'
      → (new : List (LogEntry Cmd)) × Holds w'.storage (log ++ new)
        × (w'.storage.current_term ≡ w.storage.current_term)
        × All (λ e. e.term ≡ w.storage.current_term) new
  leader_appends_only w l log holds fits begun = ([], rw (append-nil log) holds, refl, tt)
  leader_appends_only w l log holds fits (further {u} {k} reign room ev v j out ran) =
      Grows-HoldsMore u.storage v.storage log w.storage.current_term room fits
        (leader_appends_only w l log holds fits reign) (step-Grows u v k j ev out ran)
