-- ===== src/Raft/Cluster.antt =====
-- The cluster: the nodes of worker.rs, and the votes that are on their way between them.
-- A call for a vote is a ballot until its task ends: `granted` says whether the voter has answered
-- and the candidate has not counted it yet. What else the nodes send comes back as any event.
pub mod Identity
pub mod Calls
pub mod Quiet
pub mod Rounds
pub mod Roles
pub mod Step
pub mod Invariant
pub mod Update
pub mod Lists
pub mod Ballots
pub mod Acts
pub mod Safety
pub mod Moves
pub mod Election
use wraft.Base.{
  ℕ, ◌+◌, ◌<◌, ◌≤◌, ◌≡◌, ◌≢◌, Bool, true, false, List, [], ◌∷◌, ◌++◌, ok, if◌then◌else◌, ◌==◌,
  contains,
}
use wraft.Raft.Types.{RequestVoteRequest, RpcRequest}
use wraft.Raft.Storage.{Codec}
use wraft.Raft.Worker.{Effect, call_vote}
use wraft.Raft.Worker.Machine.{Event, State, inner, candidate, step}
use wraft.Raft.Votes.Steps.{event_term}
use wraft.Raft.Votes.Grants.{granted}

pub record Ballot : Type 0 where
  pub voter : ℕ
  pub req : RequestVoteRequest
  pub granted : Bool

pub record Cluster (Text Cmd : Type 0) : Type 0 where
  pub node : ℕ → State Text Cmd
  pub pending : List Ballot

-- The calls for votes among what a node sends.
abbrev pub ballots : {Cmd : Type 0} → List (Effect Cmd) → List Ballot
ballots [] = []
ballots (call_vote peer req ∷ out) =
    record { voter = peer; req = req; granted = false } ∷ ballots out
ballots (_ ∷ out) = ballots out

-- What is left of a ballot when the voter has answered.
abbrev pub answered : Ballot → Bool → List Ballot
answered b true = record b { granted = true } ∷ []
answered b false = []

abbrev pub put : {A : Type 0} → (ℕ → A) → ℕ → A → ℕ → A
put f n a m = if m == n then a else f m

-- Peers that connect are other nodes of the cluster, and votes come by ballots only.
abbrev pub Allowed : {Cmd : Type 0} → List ℕ → ℕ → Event Cmd → Type 0
Allowed members n Event.vote = ⊥
Allowed members n (Event.new_peer p) = (contains p members ≡ true) × (p ≢ n)
Allowed members n _ = Unit {0}

-- The node runs for office in the term: its `votes_rx` is that of the term's election.
abbrev pub RunsIn : {Text Cmd : Type 0} → ℕ → State Text Cmd → Type 0
RunsIn term (candidate w votes) = w.storage.current_term ≡ term
RunsIn term _ = ⊥

module _ {Text Cmd : Type 0} ⦃codec : Codec Text Cmd⦄ where
  -- One round of one node; messages that are no calls for votes have terms of `b` at most.
  pub data Move (members : List ℕ) (b : ℕ) (c c' : Cluster Text Cmd) : Type 0 where
    -- A node takes an event from outside.
    acts :
        (n : ℕ) (ev : Event Cmd) (st : State Text Cmd) (out : List (Effect Cmd))
        → contains n members ≡ true
        → event_term ev ≤ b
        → Allowed members n ev
        → step (c.node n) ev ≡ ok (st, out)
        → c' ≡ record { node = put c.node n st; pending = ballots out ++ c.pending }
        → Move members b c c'
    -- A voter takes a call for its vote.
    answers :
        (before after : List Ballot) (v : Ballot) (tx : ℕ) (st : State Text Cmd)
        (out : List (Effect Cmd))
        → c.pending ≡ before ++ v ∷ after
        → v.granted ≡ false
        → step (c.node v.voter) (Event.rpc (RpcRequest.request_vote v.req) tx) ≡ ok (st, out)
        → c' ≡ record {
          node = put c.node v.voter st;
          pending = ballots out ++ (before ++ answered v (granted out) ++ after);
        }
        → Move members b c c'
    -- A candidate takes a vote of its running election.
    counts :
        (before after : List Ballot) (v : Ballot) (st : State Text Cmd) (out : List (Effect Cmd))
        → c.pending ≡ before ++ v ∷ after
        → v.granted ≡ true
        → RunsIn v.req.term (c.node v.req.candidate)
        → step (c.node v.req.candidate) Event.vote ≡ ok (st, out)
        → c' ≡ record {
          node = put c.node v.req.candidate st;
          pending = ballots out ++ (before ++ after);
        }
        → Move members b c c'
    -- A call or its answer gets lost, times out, or comes when the election is over.
    loses :
        (before after : List Ballot) (v : Ballot)
        → c.pending ≡ before ++ v ∷ after
        → c' ≡ record c { pending = before ++ after }
        → Move members b c c'

  -- A course of so many moves.
  pub data Reach (members : List ℕ) (b : ℕ) (c : Cluster Text Cmd)
      : ℕ → Cluster Text Cmd → Type 0 where
    here : Reach members b c 0 c
    next :
        {k : ℕ} {d e : Cluster Text Cmd}
        → Reach members b c k d
        → Move members b d e
        → Reach members b c (k + 1) e
