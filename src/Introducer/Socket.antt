-- ===== src/Introducer/Socket.antt =====
-- main.rs, `process_socket`: a connection, which is a loop that reads its socket and a task that
-- writes to it. The events come in any order; one that nothing waits for changes nothing.
use wraft.Base.{
  ℕ, Bool, true, false, ◌&&◌, Option, none, some, List, [], ◌∷◌, Outcome, ok, panic, ◌>>=◌,
  if◌then◌else◌, ◌==◌, insert,
}
use wraft.Introducer.{
  Command, join, session_status, offer, answer, ice_candidate, Result, success, failure, Error,
  Broadcasting, Channels, get_messages, broadcast, joined, left, ensure_session,
}

-- The node and the session of a Join.
abbrev pub Info : Type 0
Info = ℕ × ℕ

-- The task `recv_handle`: before and after it has taken a Join, and when it has returned.
pub data Task : Type 0 where
  waiting : Task
  serving : Info → Task
  returned : Task

-- `join_slot` is the channel of joins, which holds one; `joining` is a Join that waits for room in it;
-- `held` is whether `process_socket` has its sender `join_tx`, which it has until it returns.
pub record Connection : Type 0 where
  pub ids : Option Info
  pub join_slot : Option Info
  pub joining : Option Info
  pub reads : Bool
  pub held : Bool
  pub task : Task

abbrev pub accepted : Connection
accepted = record {
  ids = none;
  join_slot = none;
  joining = none;
  reads = true;
  held = true;
  task = waiting;
}

-- A frame of the socket; `binary` has what bincode makes of the bytes.
pub data Frame : Type 0 where
  binary : Option Command → Frame
  pong close other broken : Frame

pub data Event : Type 0 where
  frame : Frame → Event
  -- the task takes a Join, a broadcast command or a tick of its timer, or cannot write
  take_join : Event
  command : Command → Event
  tick write_fails : Event
  -- the socket has no more frames; the task, if it serves, hears of it
  ends : Event
  hears : Event
  -- the channel of joins has no sender and nothing in it
  joins_closed : Event

pub data Sent : Type 0 where
  sends : Command → Sent
  ping : Sent

-- Ok(info), Err(err), or a wait for the channel of joins
pub data Processed : Type 0 where
  info : Option Info → Processed
  error : Error → Processed
  waits : Info → Processed

abbrev pub processed : Result → Processed
processed success = info none
processed (failure e) = error e

-- The loop takes what `process_message` returns.
abbrev pub noted : Connection → Processed → Connection
noted c (info ids) = record c { ids = ids }
noted c (error e) = c
noted c (waits i) = record c { joining = some i }

abbrev pub send_join : Connection → Info → Task → Option Info → Connection × Processed
send_join c i returned slot = (c, error Error.rust_error)
send_join c i task none = (record c { join_slot = some i }, info (some i))
send_join c i task (some j) = (c, waits i)

-- The loop is over, unless it still waits.
abbrev pub ending : Connection → Option Info → Connection
ending c none = record c { reads = false }
ending c (some i) = c

-- Offer and Answer are one type, and an IceCandidate has the same fields.
abbrev pub is_for_node : Info → ℕ → ℕ → Bool
is_for_node (node_id, session) session_id target_id = session_id == session && target_id == node_id

unfoldable pub forward : Info → Command → Outcome (List Sent)
forward i (join j) = panic
forward i (session_status s) = ok (sends (session_status s) ∷ [])
forward i (offer o) =
    ok (if is_for_node i o.session_id o.target_id then sends (offer o) ∷ [] else [])
forward i (answer o) =
    ok (if is_for_node i o.session_id o.target_id then sends (answer o) ∷ [] else [])
forward i (ice_candidate o) =
    ok (if is_for_node i o.session_id o.target_id then sends (ice_candidate o) ∷ [] else [])

-- A Join that waited has room now.
abbrev pub slot_taken : Connection → Option Info → Connection
slot_taken c none = record c { join_slot = none }
slot_taken c (some i) = record c { join_slot = some i; joining = none; ids = some i }

-- `join_rx.recv()` gives None: the task, which waits for it, returns.
abbrev pub joins_end : Connection → Task → Option Info → Bool → Connection
joins_end c waiting none false = record c { task = returned }
joins_end c task slot held = c

abbrev pub writes : Task → Command → Outcome (List Sent)
writes (serving i) cmd = forward i cmd
writes task cmd = ok []

abbrev pub pings : Task → List Sent
pings (serving i) = ping ∷ []
pings task = []

module _ {Tx : Type 0} ⦃broadcasting : Broadcasting Tx⦄ where
  abbrev pub passed : Channels Tx × Result → Connection → Channels Tx × Connection × Processed
  passed (ch, result) c = (ch, c, processed result)

  unfoldable pub process_message :
      Channels Tx → Connection → Command → Outcome (Channels Tx × Connection × Processed)
  process_message ch c (join j) =
      let (c', p) = send_join c (j.node_id, j.session_id) c.task c.join_slot in ok (ch, c', p)
  process_message ch c (session_status s) = panic
  process_message ch c (offer o) = ok (passed (broadcast ch o.session_id (offer o)) c)
  process_message ch c (answer o) = ok (passed (broadcast ch o.session_id (answer o)) c)
  process_message ch c (ice_candidate o) =
      ok (passed (broadcast ch o.session_id (ice_candidate o)) c)

  unfoldable pub read_frame : Channels Tx → Connection → Frame → Outcome (Channels Tx × Connection)
  read_frame ch c (binary (some cmd)) = do
    (ch', c', p) ← process_message ch c cmd
    ok (ch', noted c' p)
  read_frame ch c f = ok (ch, c)

  abbrev pub reading :
      Channels Tx → Connection → Frame → Bool → Option Info → Outcome (Channels Tx × Connection)
  reading ch c f true none = read_frame ch c f
  reading ch c f reads joining = ok (ch, c)

  -- `subscribe` on the session's channel
  abbrev pub subscribed : Channels Tx → ℕ → Option Tx → Outcome (Channels Tx)
  subscribed ch session_id none = panic
  subscribed ch session_id (some tx) =
      ok (record ch { messages = insert session_id (broadcasting.subscribe tx) ch.messages })

  -- The task's receiver goes.
  abbrev pub unsubscribed : Channels Tx → ℕ → Option Tx → Channels Tx
  unsubscribed ch session_id none = ch
  unsubscribed ch session_id (some tx) = record ch {
    messages = insert session_id (broadcasting.drop_receiver tx) ch.messages;
  }

  abbrev pub unsubscribe : Channels Tx → Info → Channels Tx
  unsubscribe ch i = unsubscribed ch i.1 (get_messages ch i.1)

  abbrev pub served : Connection → Info → Channels Tx × Result → Channels Tx × Connection
  served c i (ch, success) = (ch, record c { task = serving i })
  served c i (ch, failure e) = (unsubscribe ch i, record c { task = returned })

  unfoldable pub start_serving :
      Channels Tx → Connection → Info → Outcome (Channels Tx × Connection)
  start_serving ch c i = do
    let ensured = ensure_session ch i.1
    ch' ← subscribed ensured i.1 (get_messages ensured i.1)
    r ← joined ch' i.0 i.1
    ok (served c i r)

  abbrev pub taking :
      Channels Tx → Connection → Task → Option Info → Outcome (Channels Tx × Connection)
  taking ch c waiting (some i) = start_serving ch (slot_taken c c.joining) i
  taking ch c task slot = ok (ch, c)

  -- The end of `process_socket`, when the task has returned Ok.
  abbrev pub finished : Channels Tx → Connection → Option Info → Outcome (Channels Tx × Connection)
  finished ch c none = ok (ch, c)
  finished ch c (some (node_id, session_id)) = do
    (ch', result) ← left ch node_id session_id
    ok (ch', c)

  -- From `left_tx.send` on: a task that waits for a Join goes on waiting, and `process_socket` with
  -- it; without a task the send is an error, with which `process_socket` returns.
  abbrev pub hearing : Channels Tx → Connection → Task → Bool → Outcome (Channels Tx × Connection)
  hearing ch c (serving i) false =
      finished (unsubscribe ch i) (record c { task = returned; held = false }) c.ids
  hearing ch c returned false = ok (ch, record c { held = false })
  hearing ch c task reads = ok (ch, c)

  abbrev pub stopped : Channels Tx → Connection → Task → Channels Tx × Connection
  stopped ch c (serving i) = (unsubscribe ch i, record c { task = returned })
  stopped ch c task = (ch, c)

  abbrev pub silent :
      Outcome (Channels Tx × Connection) → Outcome (Channels Tx × Connection × List Sent)
  silent m = m >>= λ r. ok (r.0, r.1, [])

  unfoldable pub step :
      Channels Tx → Connection → Event → Outcome (Channels Tx × Connection × List Sent)
  step ch c (frame f) = silent (reading ch c f c.reads c.joining)
  step ch c take_join = silent (taking ch c c.task c.join_slot)
  step ch c (command cmd) = do out ← writes c.task cmd; ok (ch, c, out)
  step ch c tick = ok (ch, c, pings c.task)
  step ch c write_fails = silent (ok (stopped ch c c.task))
  step ch c ends = ok (ch, ending c c.joining, [])
  step ch c hears = silent (hearing ch c c.task c.reads)
  step ch c joins_closed = ok (ch, joins_end c c.task c.join_slot c.held, [])

  unfoldable pub run : Channels Tx → Connection → List Event → Outcome (Channels Tx × Connection)
  run ch c [] = ok (ch, c)
  run ch c (ev ∷ evs) = do (ch', c', out) ← step ch c ev; run ch' c' evs
