-- ===== src/Introducer/Waiting.antt =====
-- main.rs: a socket that ends while its task waits for a Join.
use wraft.Base.{
  ap, Bool, Option, ◌≡◌, refl, true, false, none, some, List, [], ◌∷◌, ◌++◌, ok, All, ◌∙◌,
}
use wraft.Introducer.{
  Command, join, session_status, offer, answer, ice_candidate, Result, success, failure,
  Broadcasting, Channels, broadcast,
}
use wraft.Introducer.Socket.{
  Info, waiting, returned, Connection, accepted, Event, frame, take_join, command, tick,
  write_fails, ends, hears, joins_closed, binary, pong, close, other, broken, step, run, read_frame,
  process_message, noted, processed,
}

-- A frame other than a Join, or a SessionStatus, which no node sends.
abbrev pub IsQuiet : Event → Type 0
IsQuiet (frame (binary (some (join j)))) = ⊥
IsQuiet (frame (binary (some (session_status s)))) = ⊥
IsQuiet ev = Unit {0}

-- The task waits, no Join is on its way to it, and one can still come.
abbrev idle : Option Info → Bool → Connection
idle ids reads = record {
  ids = ids;
  join_slot = none;
  joining = none;
  reads = reads;
  held = true;
  task = waiting;
}

noted-idle :
    (ids : Option Info) (reads : Bool) (r : Result)
    → (ids' : Option Info) × (noted (idle ids reads) (processed r) ≡ idle ids' reads)
noted-idle ids reads success = (none, refl)
noted-idle ids reads (failure e) = (ids, refl)

module _ {Tx : Type 0} ⦃broadcasting : Broadcasting Tx⦄ where
  -- The connection is idle again after the event.
  abbrev Idles : Channels Tx → Option Info → Bool → Event → Type 0
  Idles ch ids reads ev =
      (ch' : Channels Tx) × (ids' : Option Info) × (reads' : Bool) × (step ch (idle ids reads) ev
        ≡ ok (ch', idle ids' reads', []))

  signal_read :
      (ch ch' : Channels Tx) (ids : Option Info) (cmd : Command) (r : Result)
      → step ch (idle ids true) (frame (binary (some cmd)))
        ≡ ok (ch', noted (idle ids true) (processed r), [])
      → Idles ch ids true (frame (binary (some cmd)))
  signal_read ch ch' ids cmd r ran =
      let (ids', same) = noted-idle ids true r in
      (ch', ids', true, ran ∙ ap (λ c. ok (ch', c, [])) same)

  unmoved :
      (ch : Channels Tx) (ids : Option Info) (ev : Event)
      → step ch (idle ids false) ev ≡ ok (ch, idle ids false, [])
  unfolding step
  unmoved ch ids (frame f) = refl
  unmoved ch ids take_join = refl
  unmoved ch ids (command cmd) = refl
  unmoved ch ids tick = refl
  unmoved ch ids write_fails = refl
  unmoved ch ids ends = refl
  unmoved ch ids hears = refl
  unmoved ch ids joins_closed = refl

  step-Idles :
      (ch : Channels Tx) (ids : Option Info) (reads : Bool) (ev : Event)
      → IsQuiet ev
      → Idles ch ids reads ev
  unfolding step read_frame process_message
  step-Idles ch ids false ev quiet = (ch, ids, false, unmoved ch ids ev)
  step-Idles ch ids true (frame (binary (some (join j)))) quiet = absurd quiet
  step-Idles ch ids true (frame (binary (some (session_status s)))) quiet = absurd quiet
  step-Idles ch ids true (frame (binary (some (offer o)))) quiet =
      let (ch', r) = broadcast ch o.session_id (offer o) in signal_read ch ch' ids (offer o) r refl
  step-Idles ch ids true (frame (binary (some (answer o)))) quiet =
      let (ch', r) = broadcast ch o.session_id (answer o) in
      signal_read ch ch' ids (answer o) r refl
  step-Idles ch ids true (frame (binary (some (ice_candidate o)))) quiet =
      let (ch', r) = broadcast ch o.session_id (ice_candidate o) in
      signal_read ch ch' ids (ice_candidate o) r refl
  step-Idles ch ids true (frame (binary none)) quiet = (ch, ids, true, refl)
  step-Idles ch ids true (frame pong) quiet = (ch, ids, true, refl)
  step-Idles ch ids true (frame close) quiet = (ch, ids, true, refl)
  step-Idles ch ids true (frame other) quiet = (ch, ids, true, refl)
  step-Idles ch ids true (frame broken) quiet = (ch, ids, true, refl)
  step-Idles ch ids true take_join quiet = (ch, ids, true, refl)
  step-Idles ch ids true (command cmd) quiet = (ch, ids, true, refl)
  step-Idles ch ids true tick quiet = (ch, ids, true, refl)
  step-Idles ch ids true write_fails quiet = (ch, ids, true, refl)
  step-Idles ch ids true ends quiet = (ch, ids, false, refl)
  step-Idles ch ids true hears quiet = (ch, ids, true, refl)
  step-Idles ch ids true joins_closed quiet = (ch, ids, true, refl)

  stays :
      (ch : Channels Tx) (ids : Option Info) (evs : List Event)
      → run ch (idle ids false) evs ≡ ok (ch, idle ids false)
  unfolding run
  stays ch ids [] = refl
  stays ch ids (ev ∷ evs) = rw (unmoved ch ids ev) (stays ch ids evs)

  lingers :
      (ch : Channels Tx) (ids : Option Info) (reads : Bool) (before after : List Event)
      → All IsQuiet before
      → (ch' : Channels Tx) × (ids' : Option Info) × (run ch
            (idle ids reads)
            (before ++ ends ∷ after)
          ≡ ok (ch', idle ids' false))
  unfolding run step
  lingers ch ids reads [] after quiet = (ch, ids, stays ch ids after)
  lingers ch ids reads (ev ∷ before) after (now, quiet) =
      let (ch1, ids1, reads1, ran) = step-Idles ch ids reads ev now in
      let (ch', ids', rest) = lingers ch1 ids1 reads1 before after quiet in (ch', ids', rw ran rest)

  -- A socket that ends before it has read a Join: after its acceptance come any events but frames
  -- with a Join or a SessionStatus, then its end, and then any events. The run does not panic, and
  -- after it the task still waits and has not returned. It would return at once if
  -- `process_socket`, which waits for it, had given up its sender of joins.
  pub never_returns :
      (ch : Channels Tx) (before after : List Event)
      → All IsQuiet before
      → (ch' : Channels Tx) × (c' : Connection) × (run ch accepted (before ++ ends ∷ after)
          ≡ ok (ch', c'))
        × (c'.task ≡ waiting)
        × (step ch' (record c' { held = false }) joins_closed
            ≡ ok (ch', record c' { held = false; task = returned }, []))
  unfolding step
  never_returns ch before after quiet =
      let (ch', ids, ran) = lingers ch none true before after quiet in
      (ch', idle ids false, ran, refl, refl)
