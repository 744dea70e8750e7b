-- ===== src/Raft/Clients/Effects.antt =====
-- What a node of worker.rs sends that settles no request.
use wraft.Base.{ℕ, ◌+◌, ◌≡◌, refl, List, [], ◌∷◌, ◌++◌, arith, ok, >>=-ok, count-append}
use wraft.Raft.Storage.{Codec, sublog, last_log_term, increment_term}
use wraft.Raft.Types.{LogEntry}
use wraft.Raft.Worker.{Inner, ClientSender, Effect, reset_timer, apply_log, apply_entries, online}
use wraft.Raft.Worker.Candidate
use wraft.Raft.Worker.Leader
use wraft.Raft.Worker.Leader.{Leader}
use wraft.Raft.Worker.Machine.{State, candidate, start_election}
use wraft.Raft.Clients.{settled, settles, waits_in}

pub settled-append :
    {Cmd : Type 0} (s : ClientSender) (xs ys : List (Effect Cmd))
    → settled s (xs ++ ys) ≡ settled s xs + settled s ys
settled-append s xs ys = count-append (settles s) xs ys

module _ {Text Cmd : Type 0} where
  settled-apply_entries :
      (s : ClientSender) (w : Inner Text Cmd) (es : List (LogEntry Cmd))
      → settled s (apply_entries w es).1 ≡ 0
  unfolding apply_entries
  settled-apply_entries s w [] = refl
  settled-apply_entries s w (e ∷ es) =
      settled-apply_entries s (record w { last_applied = e.idx }) es

-- The senders that a leader drops are those that wait.
pub settled-drop_senders :
    (Cmd : Type 0) (s : ClientSender) (m : List (ℕ × ClientSender))
    → settled s (Leader.drop_senders {Cmd = Cmd} m) ≡ waits_in s m
unfolding Leader.drop_senders
settled-drop_senders Cmd s [] = refl
settled-drop_senders Cmd s ((k, tx) ∷ m) = ground (arith, settled-drop_senders Cmd s m)

module _ {Text Cmd : Type 0} ⦃codec : Codec Text Cmd⦄ where
  pub settled-apply_log :
      (s : ClientSender) (w w' : Inner Text Cmd) (out : List (Effect Cmd))
      → apply_log w ≡ ok (w', out)
      → settled s out ≡ 0
  unfolding apply_log
  settled-apply_log s w w' out h =
      let (es, read, rest) = >>=-ok (sublog w.storage _) _ h in
      ground (arith, settled-apply_entries s w es)

  settled-request_votes_of :
      (s : ClientSender) (w : Inner Text Cmd) (peers : List ℕ) (out : List (Effect Cmd))
      → Candidate.request_votes_of w peers ≡ ok out
      → settled s out ≡ 0
  unfolding Candidate.request_votes_of
  settled-request_votes_of s w [] out h = ground arith
  settled-request_votes_of s w (p ∷ ps) out h =
      let (last, read, more) = >>=-ok (last_log_term w.storage) _ h in
      let (rest, others, done) = >>=-ok (Candidate.request_votes_of w ps) _ more in
      ground (arith, settled-request_votes_of s w ps rest others)

  -- A new election settles nothing, and its candidate has nothing waiting.
  pub settled-start_election :
      (s : ClientSender) (w : Inner Text Cmd) (st : State Text Cmd) (out : List (Effect Cmd))
      → start_election w ≡ ok (st, out)
      → (settled s out ≡ 0) × ((w' : Inner Text Cmd) × (st ≡ candidate w' 1))
  unfolding start_election Candidate.start Candidate.request_votes
  settled-start_election s w st out h =
      let (r, began, rest) = >>=-ok (Candidate.start w) _ h in
      let u : Inner Text Cmd =
        Candidate.vote_for_self (record w { storage = increment_term w.storage }) in
      let (calls, asked, last) = >>=-ok (Candidate.request_votes u) _ began in
      (
        ground (
          arith,
          settled-request_votes_of s u (online u.peer_clients) calls asked,
          settled-append s r.1 (reset_timer ∷ []),
        ),
        (r.0, ground arith),
      )

  -- Calls to append settle nothing, and leave what waits as it was.
  pub settled-append_entries :
      (s : ClientSender) (w : Inner Text Cmd) (l l' : Leader) (peer : ℕ) (out : List (Effect Cmd))
      → Leader.append_entries w l peer ≡ ok (l', out)
      → (settled s out ≡ 0) × (l'.in_flight_client_requests ≡ l.in_flight_client_requests)
  unfolding Leader.append_entries Leader.append_entries_by Leader.send_entries
  settled-append_entries s w l l' peer out h = ground arith

  pub settled-append_all :
      (s : ClientSender) (w : Inner Text Cmd) (l l' : Leader) (peers : List ℕ)
      (out : List (Effect Cmd))
      → Leader.append_all w l peers ≡ ok (l', out)
      → (settled s out ≡ 0) × (l'.in_flight_client_requests ≡ l.in_flight_client_requests)
  unfolding Leader.append_all
  settled-append_all s w l l' [] out h = ground arith
  settled-append_all s w l l' (p ∷ ps) out h =
      let (r, first, more) = >>=-ok (Leader.append_entries w l p) _ h in
      let (q, others, rest) = >>=-ok (Leader.append_all w r.0 ps) _ more in
      ground (
        arith,
        settled-append_entries s w l r.0 p r.1 first,
        settled-append_all s w r.0 q.0 ps q.1 others,
        settled-append s r.1 q.1,
      )
