-- ===== src/Introducer/Leaving.antt =====
-- main.rs: what happens when the socket of a node ends.
use wraft.Base.{
  ℕ, ◌≡◌, refl, true, false, ◌&&◌, not, Option, none, some, List, [], ◌∷◌, ok, arith, ◌==◌, get,
  insert,
}
use wraft.Introducer.{get_messages, Command, Broadcasting, Channels}
use wraft.Introducer.Socket.{
  unsubscribed, unsubscribe, Info, serving, returned, Connection, frame, ends, hears, binary, step,
  run,
}
use wraft.Introducer.Online.{is_online, left_lem}
use wraft.Introducer.Routing.{signal_of, signal_sent}

module _ {Tx : Type 0} ⦃broadcasting : Broadcasting Tx⦄ where
  unsubscribed-online :
      (ch : Channels Tx) (s : ℕ) (tx : Option Tx) → (unsubscribed ch s tx).online ≡ ch.online
  unsubscribed-online ch s none = refl
  unsubscribed-online ch s (some tx) = refl

  -- If a connection serves a node, and the loop's `ids` still name a node of a session that has a set of nodes
  -- online, then the end of the socket takes that node off the set and leaves every other node of every
  -- session as it was, and the task returns.
  pub leaves :
      (ch : Channels Tx) (c : Connection) (i : Info) (n s : ℕ) (nodes : List ℕ)
      → c.joining ≡ none
      → c.task ≡ serving i
      → c.ids ≡ some (n, s)
      → get s ch.online ≡ some nodes
      → (ch' : Channels Tx) × (c' : Connection) × (run ch c (ends ∷ hears ∷ []) ≡ ok (ch', c'))
        × (c'.task ≡ returned)
        × ((t m : ℕ) → is_online ch' t m ≡ (is_online ch t m && not (t == s && m == n)))
  unfolding run step
  leaves ch c i n s nodes free task ids here =
      let gone = unsubscribe ch i in
      let (missing, leaving) = left_lem gone n s in
      let (ch', r, ran, online) =
        leaving nodes (rw (unsubscribed-online ch i.1 (get_messages ch i.1)) here) in
      (
        ch',
        record c { reads = false; held = false; task = returned },
        rw (free, task, ids, ran) refl,
        refl,
        λ t m. ground (arith, online t m, unsubscribed-online ch i.1 (get_messages ch i.1)),
      )

  -- If a connection that serves a node and reads takes an offer, an answer or a candidate that the
  -- channel of its session takes, and then the socket ends, the task returns and nobody is taken off those
  -- online, the node that was served included.
  pub forgets :
      (ch : Channels Tx) (c : Connection) (i : Info) (cmd : Command) (s t : ℕ) (tx tx' : Tx)
      → c.reads ≡ true
      → c.joining ≡ none
      → c.task ≡ serving i
      → signal_of cmd ≡ some (s, t)
      → get s ch.messages ≡ some tx
      → broadcasting.send tx cmd ≡ some tx'
      → (ch' : Channels Tx) × (c' : Connection) × (run ch c
            (frame (binary (some cmd)) ∷ ends ∷ hears ∷ [])
          ≡ ok (ch', c'))
        × (c'.task ≡ returned)
        × (ch'.online ≡ ch.online)
  unfolding run step
  forgets ch c i cmd s t tx tx' reads free task signal here sent =
      let takes = signal_sent ch c cmd s t tx tx' reads free signal here sent in
      let ch1 : Channels Tx = record ch { messages = insert s tx' ch.messages } in
      (
        unsubscribe ch1 i,
        record c { ids = none; reads = false; held = false; task = returned },
        rw (takes, free, task) refl,
        refl,
        unsubscribed-online ch1 i.1 (get_messages ch1 i.1),
      )
