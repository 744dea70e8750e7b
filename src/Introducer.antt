-- ===== src/Introducer.antt =====
-- webrtc-introducer/src/main.rs: the service that tells the nodes of a session of each other and
-- passes their offers, answers and candidates on; the commands are those of
-- webrtc-introducer-types/src/lib.rs.
-- A `String` is the list of its characters' code points.
pub mod Socket
pub mod Online
pub mod Routing
pub mod Leaving
pub mod Waiting
use wraft.Base.{
  ℕ, ◌≡◌, ◌≢◌, Bool, true, false, ◌&&◌, Option, none, some, List, [], ◌∷◌, Outcome, ok, panic,
  ◌>>=◌, if◌then◌else◌, ◌==◌, get, insert, insert_set, remove_set,
}

abbrev pub Str : Type 0
Str = List ℕ

pub record Join : Type 0 where
  pub node_id : ℕ
  pub session_id : ℕ

pub record Session : Type 0 where
  pub session_id : ℕ
  pub online : List ℕ

pub record Offer : Type 0 where
  pub session_id : ℕ
  pub node_id : ℕ
  pub target_id : ℕ
  pub sdp_data : Str

pub record IceCandidate : Type 0 where
  pub session_id : ℕ
  pub node_id : ℕ
  pub target_id : ℕ
  pub candidate : Str
  pub sdp_mid : Option Str

pub data Command : Type 0 where
  join : Join → Command
  session_status : Session → Command
  offer answer : Offer → Command
  ice_candidate : IceCandidate → Command

-- errors.rs: what is boxed in a RustError is not looked at.
pub data Error : Type 0 where
  session_not_found : ℕ → Error
  rust_error : Error

-- Result<(), Error>
pub data Result : Type 0 where
  success : Result
  failure : Error → Result

-- The broadcast channel of tokio: a channel changes by what is done to
-- it, and `send` fails only if there is no receiver.
pub record Broadcasting (Tx : Type 0) : Type 0 where
  pub channel : ℕ → Tx
  pub subscribe : Tx → Tx
  pub drop_receiver : Tx → Tx
  pub send : Tx → Command → Option Tx
  pub send-subscribe : (tx : Tx) (cmd : Command) → send (subscribe tx) cmd ≢ none

pub record Channels (Tx : Type 0) : Type 0 where
  pub messages : List (ℕ × Tx)
  pub online : List (ℕ × List ℕ)

abbrev pub get_messages : {Tx : Type 0} → Channels Tx → ℕ → Option Tx
get_messages ch session_id = get session_id ch.messages

-- `or_insert_with(HashSet::new)`
abbrev pub or_empty : Option (List ℕ) → List ℕ
or_empty none = []
or_empty (some nodes) = nodes

module _ {Tx : Type 0} ⦃broadcasting : Broadcasting Tx⦄ where
  abbrev pub sent : Channels Tx → ℕ → Option Tx → Channels Tx × Result
  sent ch session_id none = (ch, failure rust_error)
  sent ch session_id (some tx) =
      (record ch { messages = insert session_id tx ch.messages }, success)

  abbrev pub broadcast_by : Channels Tx → ℕ → Command → Option Tx → Channels Tx × Result
  broadcast_by ch session_id command none = (ch, failure (session_not_found session_id))
  broadcast_by ch session_id command (some tx) = sent ch session_id (broadcasting.send tx command)

  unfoldable pub broadcast : Channels Tx → ℕ → Command → Channels Tx × Result
  broadcast ch session_id command = broadcast_by ch session_id command (get session_id ch.messages)

  abbrev pub session_info : Channels Tx → ℕ → Option (List ℕ) → Outcome (Channels Tx × Result)
  session_info ch session_id none = panic
  session_info ch session_id (some nodes) = ok (
      broadcast ch session_id (session_status (record { session_id = session_id; online = nodes })))

  unfoldable pub broadcast_session_info : Channels Tx → ℕ → Outcome (Channels Tx × Result)
  broadcast_session_info ch session_id = session_info ch session_id (get session_id ch.online)

  unfoldable pub joined : Channels Tx → ℕ → ℕ → Outcome (Channels Tx × Result)
  joined ch node_id session_id =
      let nodes = insert_set node_id (or_empty (get session_id ch.online)) in
      broadcast_session_info (record ch { online = insert session_id nodes ch.online }) session_id

  abbrev pub left_by : Channels Tx → ℕ → ℕ → Option (List ℕ) → Outcome (Channels Tx × Result)
  left_by ch node_id session_id none = panic
  left_by ch node_id session_id (some nodes) =
      broadcast_session_info
        (record ch { online = insert session_id (remove_set node_id nodes) ch.online }) session_id

  unfoldable pub left : Channels Tx → ℕ → ℕ → Outcome (Channels Tx × Result)
  left ch node_id session_id = left_by ch node_id session_id (get session_id ch.online)

  abbrev pub with_session : Channels Tx → ℕ → Option Tx → Channels Tx
  with_session ch session_id (some tx) = ch
  with_session ch session_id none = record ch {
    messages = insert session_id (broadcasting.channel 10) ch.messages;
  }

  unfoldable pub ensure_session : Channels Tx → ℕ → Channels Tx
  ensure_session ch session_id = with_session ch session_id (get session_id ch.messages)
