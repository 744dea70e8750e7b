-- ===== src/Introduction/Races.antt =====
-- introduction.rs: news of a session that come while a peer is being introduced.
use wraft.Base.{
  ℕ, ◌≡◌, ◌<◌, refl, false, Option, none, some, List, [], ◌∷◌, ok, panic, arith, contains, get,
  insert, remove, get-insert, get-remove,
}
use wraft.Introducer.{answer, Offer, Str, Session, session_status}
use wraft.Introduction.{
  returns, fail, set_remote_description, describe_local, State, Effect, message, local_described,
  channel_initiated, insert_peer, send_peer, introductions, introduce_all, handle_message, step,
  run,
}

abbrev pub answer_of : State → ℕ → Str → Offer
answer_of st p sdp = record {
  session_id = st.session_id;
  node_id = p;
  target_id = st.node_id;
  sdp_data = sdp;
}

abbrev pub news : State → ℕ → Session
news st p = record { session_id = st.session_id; online = p ∷ [] }

step-news :
    (st : State) (connections : ℕ → Option ℕ) (p pc : ℕ)
    → st.node_id < p
    → contains p st.online ≡ false
    → connections p ≡ some pc
    → step st (message connections (some (session_status (news st p))))
      ≡ ok (st, describe_local p pc ∷ [])
unfolding step handle_message introductions introduce_all
step-news st connections p pc less new made = ground (arith, less, new, made)

-- The description of a connection, and the answer to its offer
step-described :
    (st : State) (p pc : ℕ) (sdp : Str)
    → (out : List Effect) × (step st (local_described p pc sdp) ≡ ok (insert_peer st p pc, out))
unfolding step
step-described st p pc sdp = (_, refl)

step-answer :
    (st at : State) (connections : ℕ → Option ℕ) (p pc : ℕ) (sdp : Str)
    → (out : List Effect) × (step
          (insert_peer st p pc)
          (message connections (some (answer (answer_of at p sdp))))
        ≡ ok (insert_peer st p pc, out))
unfolding step handle_message insert_peer
step-answer st at connections p pc sdp =
    let here : get p (insert p pc st.peers) ≡ some pc =
      ground (arith, get-insert p p pc st.peers) in
    (set_remote_description pc sdp ∷ [], rw here refl)

-- The first channel takes the peer, and the second finds none.
run-channels :
    (st : State) (p pc : ℕ)
    → run (insert_peer st p pc) (channel_initiated p ∷ channel_initiated p ∷ []) ≡ panic
unfolding run step insert_peer send_peer
run-channels st p pc =
    let here : get p (insert p pc st.peers) ≡ some pc =
      ground (arith, get-insert p p pc st.peers) in
    let gone : get p (remove p (insert p pc st.peers)) ≡ none =
      ground (arith, get-remove p p (insert p pc st.peers)) in
    rw (here, gone) refl

-- A node that does not know a peer of a greater id, and for which the browser makes connections to it, gets
-- the news that this peer is online twice before its first connection to it is described. If then either
-- connection is described and its offer answered, one after the other, and both data
-- channels open, the node panics.
pub introduced_twice :
    (st : State) (connections connections' : ℕ → Option ℕ) (p pc pc' : ℕ) (sdp sdp' x x' : Str)
    → st.node_id < p
    → contains p st.online ≡ false
    → connections p ≡ some pc
    → connections' p ≡ some pc'
    → run st (
        message connections (some (session_status (news st p)))
        ∷ message connections' (some (session_status (news st p)))
        ∷ local_described p pc sdp
        ∷ message connections (some (answer (answer_of st p x)))
        ∷ local_described p pc' sdp'
        ∷ message connections (some (answer (answer_of st p x')))
        ∷ channel_initiated p
        ∷ channel_initiated p
        ∷ [])
      ≡ panic
unfolding run
introduced_twice st connections connections' p pc pc' sdp sdp' x x' less new made made' =
    let first = step-news st connections p pc less new made in
    let second = step-news st connections' p pc' less new made' in
    let st1 = insert_peer st p pc in
    let (out1, described) = step-described st p pc sdp in
    let (out2, answered) = step-answer st st connections p pc x in
    let (out3, described') = step-described st1 p pc' sdp' in
    let (out4, answered') = step-answer st1 st connections p pc' x' in
    let last = run-channels st1 p pc' in
    rw (first, second, described, answered, described', answered', last) refl

-- If a node that has a connection to a peer opens its data channel, and then takes another answer of that
-- peer, then the node panics when `initiate` takes the error.
pub late_answer :
    (st : State) (connections : ℕ → Option ℕ) (pc : ℕ) (o : Offer)
    → get o.node_id st.peers ≡ some pc
    → run st (channel_initiated o.node_id ∷ message connections (some (answer o)) ∷ returns ∷ [])
      ≡ panic
unfolding run step handle_message fail send_peer
late_answer st connections pc o known =
    let gone : get o.node_id (remove o.node_id st.peers) ≡ none =
      ground (arith, get-remove o.node_id o.node_id st.peers) in
    rw (known, gone) refl
