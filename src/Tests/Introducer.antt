-- ===== src/Tests/Introducer.antt =====
-- A socket of a node that joins a session and sends an offer.
use wraft.Base.{
  ◌++◌, zero, suc, ◌-◌, suc, ℕ, ◌≡◌, refl, false, ◌&&◌, ◌||◌, Option, none, some, List, [], ◌∷◌, ok,
  ◌==◌, get,
}
use wraft.Introducer.{Command, offer, Broadcasting, Channels}
use wraft.Introducer.Socket.{
  waiting, joins_closed, Event, serving, returned, Connection, accepted, frame, take_join, ends,
  hears, tick, binary, step, run,
}
use wraft.Introducer.Online.{is_online}
use wraft.Introducer.Routing.{take_join_lem}
use wraft.Introducer.Leaving.{forgets}
use wraft.Introducer.Waiting.{never_returns}

-- A channel that counts its receivers, and keeps what was sent.
record Tx : Type 0 where
  receivers : ℕ
  sent : List Command

abbrev send_on : Tx → Command → ℕ → Option Tx
send_on tx cmd zero = none
send_on tx cmd (suc n) = some (record tx { sent = cmd ∷ tx.sent })

instance abbrev counting : Broadcasting Tx
counting = record {
  channel = λ n. record { receivers = 0; sent = [] };
  subscribe = λ tx. record tx { receivers = suc tx.receivers };
  drop_receiver = λ tx. record tx { receivers = tx.receivers - 1 };
  send = λ tx cmd. send_on tx cmd tx.receivers;
  send-subscribe = λ tx cmd h. cc;
}

abbrev line : Tx
line = record { receivers = 1; sent = [] }

-- Node 4 is online in session 7, and node 3 joins.
abbrev channels : Channels Tx
channels = record { messages = (7, line) ∷ []; online = (7, 4 ∷ 3 ∷ []) ∷ [] }

abbrev joining_node : Connection
joining_node = record accepted { join_slot = some (3, 7); ids = some (3, 7) }

abbrev serving_node : Connection
serving_node = record joining_node { join_slot = none; task = serving (3, 7) }

abbrev offered : Command
offered = offer (record { session_id = 7; node_id = 3; target_id = 4; sdp_data = [] })

abbrev line_after : Tx
line_after = record { receivers = 1; sent = offered ∷ [] }

take_join_lem_example :
    (ch' : Channels Tx) × (step channels joining_node take_join ≡ ok (ch', serving_node, []))
    × ((t m : ℕ) → is_online ch' t m ≡ ((t == 7 && m == 3) || is_online channels t m))
take_join_lem_example = take_join_lem channels joining_node 3 7 refl refl

forgets_example :
    (ch' : Channels Tx) × (c' : Connection) × (run channels serving_node
        (frame (binary (some offered)) ∷ ends ∷ hears ∷ [])
      ≡ ok (ch', c'))
    × (c'.task ≡ returned)
    × (ch'.online ≡ channels.online)
unfolding get
forgets_example =
    forgets channels serving_node (3, 7) offered 7 4 line line_after refl refl refl refl refl refl

-- A frame that is no command, an offer, a tick of the timer; then the socket ends.
abbrev before : List Event
before = frame (binary none) ∷ frame (binary (some offered)) ∷ tick ∷ []

abbrev after_end : List Event
after_end = hears ∷ joins_closed ∷ take_join ∷ []

never_returns_example :
    (ch' : Channels Tx) × (c' : Connection) × (run channels accepted (before ++ ends ∷ after_end)
      ≡ ok (ch', c'))
    × (c'.task ≡ waiting)
    × (step ch' (record c' { held = false }) joins_closed
        ≡ ok (ch', record c' { held = false; task = returned }, []))
never_returns_example = never_returns channels before after_end (tt, (tt, (tt, tt)))
