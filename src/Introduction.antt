-- ===== src/Introduction.antt =====
-- wraft/src/webrtc_rpc/introduction.rs, and `introduce` of mod.rs beside it: how a node finds its peers through the introducer. Objects of the
-- browser are numbers, and what their promises give comes back as events.
pub mod Pairs
pub mod Races
use wraft.Base.{
  zero, suc, suc, ℕ, ◌+◌, Bool, true, false, not, ◌&&◌, Option, none, some, List, [], ◌∷◌, ◌++◌,
  Outcome, ok, panic, ◌>>=◌, if◌then◌else◌, ltb, get, insert, remove, contains, insert_set,
  remove_set,
}
use wraft.Introducer.{
  Str, Command, Offer, IceCandidate, Session, join, session_status, offer, answer, ice_candidate,
}

-- `errors` counts what is in the channel of errors that `initiate` reads.
pub record State : Type 0 where
  pub node_id : ℕ
  pub session_id : ℕ
  pub peers : List (ℕ × ℕ)
  pub online : List ℕ
  pub errors : ℕ

abbrev pub new : ℕ → ℕ → State
new node_id session_id = record {
  node_id = node_id;
  session_id = session_id;
  peers = [];
  online = [];
  errors = 0;
}

pub data Effect : Type 0 where
  -- `local_description` and `remote_description` begin, on a peer's connection
  describe_local : ℕ → ℕ → Effect
  describe_remote : ℕ → ℕ → Str → Effect
  send_command : Command → Effect
  set_remote_description : ℕ → Str → Effect
  add_ice_candidate : ℕ → IceCandidate → Effect
  -- the transport of a peer, on its connection
  transport : ℕ → ℕ → Effect

pub data Event : Type 0 where
  -- a message, as bincode reads it, and the connections that the browser makes for peers
  message : (ℕ → Option ℕ) → Option Command → Event
  -- `introduce`: the description is there, 5 seconds are over, the data channel is open
  local_described : ℕ → ℕ → Str → Event
  retry : ℕ → Str → Event
  channel_initiated : ℕ → Event
  -- `handle_offer`: the answer is there, the data channel is there
  remote_described : ℕ → Str → Event
  channel_received : ℕ → Event
  -- a promise of a message's handler is rejected
  rejected : Event
  -- a transport is done
  done : ℕ → Event
  -- `initiate` takes an error
  returns : Event

abbrev pub Handled : Type 0
Handled = Outcome (State × List Effect)

unfoldable pub insert_peer : State → ℕ → ℕ → State
insert_peer st peer_id pc = record st {
  peers = insert peer_id pc st.peers;
  online = insert_set peer_id st.online;
}

-- `handle_message` gives an error.
unfoldable pub fail : State → Handled
fail st = ok (record st { errors = suc st.errors }, [])

abbrev pub sent_by : State → ℕ → Option ℕ → Handled
sent_by st peer_id none = panic
sent_by st peer_id (some pc) =
    ok (record st { peers = remove peer_id st.peers }, transport peer_id pc ∷ [])

unfoldable pub send_peer : State → ℕ → Handled
send_peer st peer_id = sent_by st peer_id (get peer_id st.peers)

-- `filter`
abbrev pub is_introduced : State → ℕ → Bool
is_introduced st p = ltb st.node_id p && not (contains p st.online)

unfoldable pub introductions : State → List ℕ → List ℕ
introductions st [] = []
introductions st (p ∷ ps) =
    if is_introduced st p then p ∷ introductions st ps else introductions st ps

-- `introduce` as far as its first wait
abbrev pub introduce : ℕ → Option ℕ → List Effect
introduce peer_id none = []
introduce peer_id (some pc) = describe_local peer_id pc ∷ []

unfoldable pub introduce_all : (ℕ → Option ℕ) → List ℕ → List Effect
introduce_all connections [] = []
introduce_all connections (p ∷ ps) = introduce p (connections p) ++ introduce_all connections ps

abbrev pub handle_session_update : State → (ℕ → Option ℕ) → Session → Handled
handle_session_update st connections session =
    ok (st, introduce_all connections (introductions st session.online))

abbrev pub handle_offer : State → Offer → Option ℕ → Handled
handle_offer st o none = fail st
handle_offer st o (some pc) =
    ok (insert_peer st o.node_id pc, describe_remote o.node_id pc o.sdp_data ∷ [])

abbrev pub handle_answer : State → Offer → Option ℕ → Handled
handle_answer st o none = fail st
handle_answer st o (some pc) = ok (st, set_remote_description pc o.sdp_data ∷ [])

abbrev pub handle_ice_candidate : State → IceCandidate → Option ℕ → Handled
handle_ice_candidate st candidate none = ok (st, [])
handle_ice_candidate st candidate (some pc) = ok (st, add_ice_candidate pc candidate ∷ [])

unfoldable pub handle_message : State → (ℕ → Option ℕ) → Option Command → Handled
handle_message st connections none = fail st
handle_message st connections (some (session_status session)) =
    handle_session_update st connections session
handle_message st connections (some (offer o)) = handle_offer st o (connections o.node_id)
handle_message st connections (some (answer o)) = handle_answer st o (get o.node_id st.peers)
handle_message st connections (some (ice_candidate c)) =
    handle_ice_candidate st c (get c.node_id st.peers)
handle_message st connections (some (join j)) = panic

-- `send_offer` and `send_answer`
abbrev pub offer_to : State → ℕ → Str → Offer
offer_to st peer_id sdp = record {
  session_id = st.session_id;
  node_id = st.node_id;
  target_id = peer_id;
  sdp_data = sdp;
}

-- `initiate` returns the error, and `introduce` unwraps it.
abbrev pub returned : State → ℕ → Handled
returned st zero = ok (st, [])
returned st (suc n) = panic

unfoldable pub step : State → Event → Handled
step st (message connections command) = handle_message st connections command
step st (local_described p pc sdp) =
    ok (insert_peer st p pc, send_command (offer (offer_to st p sdp)) ∷ [])
step st (retry p sdp) = ok (st, send_command (offer (offer_to st p sdp)) ∷ [])
step st (channel_initiated p) = send_peer st p
step st (remote_described p sdp) = ok (st, send_command (answer (offer_to st p sdp)) ∷ [])
step st (channel_received p) = send_peer st p
step st rejected = fail st
step st (done p) = ok (record st { online = remove_set p st.online }, [])
step st returns = returned st st.errors

unfoldable pub run : State → List Event → Handled
run st [] = ok (st, [])
run st (ev ∷ evs) = do (st', out) ← step st ev; (last, more) ← run st' evs; ok (last, out ++ more)
