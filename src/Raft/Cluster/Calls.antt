-- ===== src/Raft/Cluster/Calls.antt =====
-- The calls for votes among what a node sends.
use wraft.Base.{
  ℕ, ◌≤◌, ◌≡◌, refl, Bool, false, ◌&&◌, List, [], ◌∷◌, ◌++◌, arith, ok, >>=-ok, ◌==◌, count, All,
  remove, range_inclusive, add64,
}
use wraft.Raft.Types.{LogEntry}
use wraft.Raft.Storage.{Codec, sublog, last_log_term}
use wraft.Raft.Worker.{
  Inner, ClientSender, Effect, reply, answer, drop_sender, send_command, call_vote, call_append,
  call_forward, serve, reset_timer, apply_log, apply_entries,
}
use wraft.Raft.Worker.Candidate
use wraft.Raft.Worker.Leader
use wraft.Raft.Worker.Leader.{Leader}
use wraft.Raft.Cluster.{Ballot, ballots}

pub ballots-append :
    {Cmd : Type 0} (xs ys : List (Effect Cmd)) → ballots (xs ++ ys) ≡ ballots xs ++ ballots ys
ballots-append [] ys = refl
ballots-append (call_vote p req ∷ xs) ys = ground (arith, ballots-append xs ys)
ballots-append (reply tx resp ∷ xs) ys = ballots-append xs ys
ballots-append (answer tx res ∷ xs) ys = ballots-append xs ys
ballots-append (drop_sender tx ∷ xs) ys = ballots-append xs ys
ballots-append (send_command cmd ∷ xs) ys = ballots-append xs ys
ballots-append (call_append p i j req ∷ xs) ys = ballots-append xs ys
ballots-append (call_forward p req tx ∷ xs) ys = ballots-append xs ys
ballots-append (serve p ∷ xs) ys = ballots-append xs ys
ballots-append (reset_timer ∷ xs) ys = ballots-append xs ys

-- The ballots that ask a voter for its vote for a candidate in a term.
abbrev pub is_ballot : ℕ → ℕ → ℕ → Ballot → Bool
is_ballot v n t b = b.voter == v && b.req.candidate == n && b.req.term == t

-- A new ballot of the candidate in the term, for a voter with the property.
abbrev pub Calls : (ℕ → Type 0) → ℕ → ℕ → Ballot → Type 0
Calls Q n t b = (b.granted ≡ false) × (b.req.candidate ≡ n) × (b.req.term ≡ t) × Q b.voter

module _ {Text Cmd : Type 0} where
  apply_entries-ballots :
      (w : Inner Text Cmd) (es : List (LogEntry Cmd)) → ballots (apply_entries w es).1 ≡ []
  unfolding apply_entries
  apply_entries-ballots w [] = refl
  apply_entries-ballots w (e ∷ es) = apply_entries-ballots (record w { last_applied = e.idx }) es

module _ (Cmd : Type 0) where
  ack_range-ballots :
      (l : Leader) (ns : List ℕ) → ballots (Leader.ack_range {Cmd = Cmd} l ns).1 ≡ []
  unfolding Leader.ack_range
  ack_range-ballots l [] = refl
  ack_range-ballots l (n ∷ ns) =
      let rest = record l { in_flight_client_requests = remove n l.in_flight_client_requests } in
      ground (arith, ack_range-ballots l ns, ack_range-ballots rest ns)

  pub drop_senders-ballots :
      (m : List (ℕ × ClientSender)) → ballots (Leader.drop_senders {Cmd = Cmd} m) ≡ []
  unfolding Leader.drop_senders
  drop_senders-ballots [] = refl
  drop_senders-ballots (x ∷ m) = drop_senders-ballots m

module _ {Text Cmd : Type 0} ⦃codec : Codec Text Cmd⦄ where
  pub apply_log-ballots :
      (w w' : Inner Text Cmd) (out : List (Effect Cmd))
      → apply_log w ≡ ok (w', out)
      → ballots out ≡ []
  unfolding apply_log
  apply_log-ballots w w' out h =
      let (es, read, rest) = >>=-ok (sublog w.storage _) _ h in
      ground (arith, apply_entries-ballots w es)

  pub advance-ballots :
      (w w' : Inner Text Cmd) (l l' : Leader) (out : List (Effect Cmd))
      → Leader.advance_commit_index w l ≡ ok (w', l', out)
      → ballots out ≡ []
  unfolding Leader.advance_commit_index
  advance-ballots w w' l l' out h =
      let (r, ranged, rest) = >>=-ok (Leader.commit_range w l _) _ h in
      ground
        (arith, ack_range-ballots Cmd l (range_inclusive (add64 w.commit_index 1) r.commit_index))

  send_entries-ballots :
      (w : Inner Text Cmd) (l l' : Leader) (peer : ℕ) (out : List (Effect Cmd))
      → Leader.send_entries w l peer ≡ ok (l', out)
      → ballots out ≡ []
  unfolding Leader.send_entries
  send_entries-ballots w l l' peer out h = ground arith

  pub append_entries-ballots :
      (w : Inner Text Cmd) (l l' : Leader) (peer : ℕ) (out : List (Effect Cmd))
      → Leader.append_entries w l peer ≡ ok (l', out)
      → ballots out ≡ []
  unfolding Leader.append_entries Leader.append_entries_by
  append_entries-ballots w l l' peer out h = ground (arith, send_entries-ballots w l l' peer out)

  pub append_all-ballots :
      (w : Inner Text Cmd) (l l' : Leader) (peers : List ℕ) (out : List (Effect Cmd))
      → Leader.append_all w l peers ≡ ok (l', out)
      → ballots out ≡ []
  unfolding Leader.append_all
  append_all-ballots w l l' [] out h = ground arith
  append_all-ballots w l l' (p ∷ ps) out h =
      let (r, first, more) = >>=-ok (Leader.append_entries w l p) _ h in
      let (q, others, rest) = >>=-ok (Leader.append_all w r.0 ps) _ more in
      ground (
        arith,
        append_entries-ballots w l r.0 p r.1 first,
        append_all-ballots w r.0 q.0 ps q.1 others,
        ballots-append r.1 q.1,
      )

  -- Each peer that is asked gets one ballot, of the node's term.
  pub request_votes_of-ballots :
      (Q : ℕ → Type 0) (w : Inner Text Cmd) (peers : List ℕ) (out : List (Effect Cmd))
      → All Q peers
      → Candidate.request_votes_of w peers ≡ ok out
      → All (Calls Q w.node_id w.storage.current_term) (ballots out)
        × ((v n t : ℕ) → count (is_ballot v n t) (ballots out) ≤ count (λ p. p == v) peers)
  unfolding Candidate.request_votes_of
  request_votes_of-ballots Q w [] out all h = (ground arith, λ v n t. ground arith)
  request_votes_of-ballots Q w (p ∷ ps) out (here, all) h =
      let (last, read, more) = >>=-ok (last_log_term w.storage) _ h in
      let (rest, others, done) = >>=-ok (Candidate.request_votes_of w ps) _ more in
      let (calls, few) = request_votes_of-ballots Q w ps rest all others in
      (ground (arith, calls, here), λ v n t. ground (arith, few v n t))
