-- ===== src/Tests/Peer.antt =====
-- One end of a data channel that is lost, with a call before that and one after.
use wraft.Base.{false, ℕ, ◌+◌, ◌≡◌, refl, none, List, [], ◌∷◌, ◌++◌, arith, ok}
use wraft.Transport.Peer.{Peer, Event, called, lost, response_round, Out, start, step}
use wraft.Transport.Peer.Managed.{HasRoom}
use wraft.Transport.Peer.Settled.{waits, ended}
use wraft.Transport.Peer.Closing.{started, further, all_calls, calls_end}
use wraft.Tests.Data.{result_or}

abbrev after : Peer ℕ ℕ → Event ℕ ℕ → Peer ℕ ℕ × List (Out ℕ ℕ)
after p ev = result_or (p, []) (step p ev)

abbrev asked : Peer ℕ ℕ × List (Out ℕ ℕ)
asked = after start (called 8 5)

abbrev cut : Peer ℕ ℕ × List (Out ℕ ℕ)
cut = after asked.0 lost

abbrev halted : Peer ℕ ℕ × List (Out ℕ ℕ)
halted = after cut.0 response_round

abbrev late : Peer ℕ ℕ × List (Out ℕ ℕ)
late = after halted.0 (called 9 5)

abbrev events : List (Event ℕ ℕ)
events = ((([] ++ called 8 5 ∷ []) ++ lost ∷ []) ++ response_round ∷ []) ++ called 9 5 ∷ []

abbrev outs : List (Out ℕ ℕ)
outs = ((([] ++ asked.1) ++ cut.1) ++ halted.1) ++ late.1

calls_end_example :
    (waits 5 late.0 + ended 5 outs ≡ all_calls 5 events)
    × (late.0.manager ≡ none → ended 5 outs ≡ all_calls 5 events)
    × ((ev : Event ℕ ℕ)
        → HasRoom late.0.manager
        → (r : Peer ℕ ℕ × List (Out ℕ ℕ)) × (step late.0 ev ≡ ok r))
unfolding start wraft.RingBuf.with_capacity step wraft.Transport.Peer.take_response
calls_end_example = calls_end 5 (
    further
      (further
        (further (further started (omega arith) (called 8 5) asked.0 asked.1 refl) (omega arith)
          lost cut.0 cut.1 refl)
        (omega arith) response_round halted.0 halted.1 refl)
      tt (called 9 5) late.0 late.1 refl)

late_stopped : (late.0.manager ≡ none) × (all_calls 5 events ≡ 2)
unfolding start wraft.RingBuf.with_capacity step wraft.Transport.Peer.take_response
late_stopped = (refl, refl)

-- The server is dropped while the call waits: the manager returns, and the call is disconnected.
abbrev dropped_peer : Peer ℕ ℕ × List (Out ℕ ℕ)
dropped_peer = after asked.0 Event.dropped

abbrev halted_too : Peer ℕ ℕ × List (Out ℕ ℕ)
halted_too = after dropped_peer.0 response_round

dropped_stops :
    (halted_too.0.manager ≡ none) × (halted_too.0.closed ≡ false) × (ended 5 halted_too.1 ≡ 1)
unfolding start wraft.RingBuf.with_capacity step wraft.Transport.Peer.take_response
dropped_stops = (refl, refl, refl)
