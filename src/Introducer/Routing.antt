-- ===== src/Introducer/Routing.antt =====
-- main.rs: signals that a loop reads, and Joins that a task takes.
use wraft.Base.{
  ◌∙◌, inr, ◌⊎◌, inl, ℕ, ◌≡◌, refl, true, ◌&&◌, ◌||◌, Option, none, some, [], ok, arith, ◌==◌, get,
  insert, get-insert,
}
use wraft.Introducer.{
  Command, join, session_status, offer, answer, ice_candidate, Broadcasting, Channels, broadcast,
  ensure_session,
}
use wraft.Introducer.Socket.{
  taking, Info, Task, waiting, serving, Connection, frame, take_join, binary, slot_taken,
  process_message, read_frame, start_serving, step,
}
use wraft.Introducer.Online.{joined-success, is_online, joined_lem}

-- The session and the target of an offer, an answer or a candidate.
abbrev pub signal_of : Command → Option (ℕ × ℕ)
signal_of (join j) = none
signal_of (session_status s) = none
signal_of (offer o) = some (o.session_id, o.target_id)
signal_of (answer o) = some (o.session_id, o.target_id)
signal_of (ice_candidate o) = some (o.session_id, o.target_id)

option_cases : {A : Type 0} (o : Option A) → (o ≡ none) ⊎ ((a : A) × (o ≡ some a))
option_cases none = inl refl
option_cases (some a) = inr (a, refl)

module _ {Tx : Type 0} ⦃broadcasting : Broadcasting Tx⦄ where
  -- A loop that reads an offer, an answer or a candidate puts it into the channel of its session, if
  -- it takes it, and forgets its `ids`.
  pub signal_sent :
      (ch : Channels Tx) (c : Connection) (cmd : Command) (s t : ℕ) (tx tx' : Tx)
      → c.reads ≡ true
      → c.joining ≡ none
      → signal_of cmd ≡ some (s, t)
      → get s ch.messages ≡ some tx
      → broadcasting.send tx cmd ≡ some tx'
      → step ch c (frame (binary (some cmd)))
        ≡ ok (record ch { messages = insert s tx' ch.messages }, record c { ids = none }, [])
  unfolding step read_frame process_message broadcast
  signal_sent ch c (join j) s t tx tx' reads free signal here takes = cc
  signal_sent ch c (session_status x) s t tx tx' reads free signal here takes = cc
  signal_sent ch c (offer o) s t tx tx' reads free signal here takes =
      rw (reads, free) (ground arith)
  signal_sent ch c (answer o) s t tx tx' reads free signal here takes =
      rw (reads, free) (ground arith)
  signal_sent ch c (ice_candidate o) s t tx tx' reads free signal here takes =
      rw (reads, free) (ground arith)

  ensured_lem :
      (ch : Channels Tx) (s : ℕ)
      → (tx : Tx) × (get s (ensure_session ch s).messages ≡ some tx)
        × ((ensure_session ch s).online ≡ ch.online)
  unfolding ensure_session
  ensured_lem ch s = elim (option_cases (get s ch.messages)) [
    | inl missing ↦ (
      broadcasting.channel 10,
      ground (arith, get-insert s s (broadcasting.channel 10) ch.messages),
      ground arith,
    )
    | inr (tx, here) ↦ (tx, ground arith, ground arith)
  ]

  starts :
      (ch : Channels Tx) (c : Connection) (n s : ℕ)
      → (ch' : Channels Tx) × (start_serving ch c (n, s)
          ≡ ok (ch', record c { task = serving (n, s) }))
        × ((t m : ℕ) → is_online ch' t m ≡ ((t == s && m == n) || is_online ch t m))
  unfolding start_serving
  starts ch c n s =
      let (tx, ready, same) = ensured_lem ch s in
      let ensured = ensure_session ch s in
      let now : Channels Tx = record ensured {
        messages = insert s (broadcasting.subscribe tx) ensured.messages;
      } in
      let (ch', r, ran, online) = joined_lem now n s in
      let done =
        joined-success now ch' n s tx r
          (ground (arith, get-insert s s (broadcasting.subscribe tx) ensured.messages)) ran in
      (ch', rw (ready, ran, done) refl, λ t m. ground (arith, online t m, same))

  taken :
      (ch : Channels Tx) (c : Connection) (i : Info) (task : Task) (slot : Option Info)
      → task ≡ waiting
      → slot ≡ some i
      → taking ch c task slot ≡ start_serving ch (slot_taken c c.joining) i
  taken ch c i task slot is_waiting full = rw (is_waiting, full) refl

  -- A task that waits and has a Join in its channel takes it without a panic or an error, whatever the
  -- channels are: it serves that node from then on, the node is online in its session, and every other
  -- node of every session is online if it was before.
  pub take_join_lem :
      (ch : Channels Tx) (c : Connection) (n s : ℕ)
      → c.task ≡ waiting
      → c.join_slot ≡ some (n, s)
      → (ch' : Channels Tx) × (step ch c take_join
          ≡ ok (ch', record (slot_taken c c.joining) { task = serving (n, s) }, []))
        × ((t m : ℕ) → is_online ch' t m ≡ ((t == s && m == n) || is_online ch t m))
  unfolding step
  take_join_lem ch c n s task slot =
      let (ch', ran, online) = starts ch (slot_taken c c.joining) n s in
      let begins = taken ch c (n, s) c.task c.join_slot task slot ∙ ran in
      (ch', rw begins refl, online)
