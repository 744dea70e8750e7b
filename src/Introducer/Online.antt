-- ===== src/Introducer/Online.antt =====
-- main.rs: who is online in a session, through `joined`, `left` and `broadcast`.
use wraft.Base.{
  ℕ, ◌≡◌, refl, Bool, ◌&&◌, ◌||◌, not, none, some, List, [], ◌∷◌, ok, panic, arith, ◌==◌, get,
  insert, insert_set, remove_set, contains, get-insert, contains-insert_set,
}
use wraft.Introducer.{
  session_status, Command, Broadcasting, Channels, Result, success, or_empty, broadcast,
  broadcast_session_info, joined, left,
}

abbrev pub is_online : {Tx : Type 0} → Channels Tx → ℕ → ℕ → Bool
is_online ch session_id node_id = contains node_id (or_empty (get session_id ch.online))

-- The other numbers of a set stay when one goes.
pub remove_set-contains :
    (k j : ℕ) (s : List ℕ) → contains j (remove_set k s) ≡ (contains j s && not (j == k))
unfolding contains remove_set
remove_set-contains k j [] = refl
remove_set-contains k j (i ∷ s) = ground (arith, remove_set-contains k j s)

module _ {Tx : Type 0} ⦃broadcasting : Broadcasting Tx⦄ where
  pub broadcast-online :
      (ch : Channels Tx) (session_id : ℕ) (cmd : Command)
      → (broadcast ch session_id cmd).0.online ≡ ch.online
  unfolding broadcast
  broadcast-online ch session_id cmd = ground arith

  -- The news of a session whose set has been written.
  told :
      (ch : Channels Tx) (s : ℕ) (nodes : List ℕ)
      → (ch' : Channels Tx) × (r : Result) × (broadcast_session_info
            (record ch { online = insert s nodes ch.online })
            s
          ≡ ok (ch', r))
        × (ch'.online ≡ insert s nodes ch.online)
  unfolding broadcast_session_info
  told ch s nodes =
      let now : Channels Tx = record ch { online = insert s nodes ch.online } in
      let here : get s now.online ≡ some nodes = ground (arith, get-insert s s nodes ch.online) in
      let news : Command = session_status (record { session_id = s; online = nodes }) in
      let (ch', r) = broadcast now s news in (ch', r, rw here refl, broadcast-online now s news)

  -- `joined` puts the node online in its session, whether or not the session's news gets out, and
  -- leaves every other node of every session as it was.
  pub joined_lem :
      (ch : Channels Tx) (n s : ℕ)
      → (ch' : Channels Tx) × (r : Result) × (joined ch n s ≡ ok (ch', r))
        × ((t m : ℕ) → is_online ch' t m ≡ ((t == s && m == n) || is_online ch t m))
  unfolding joined broadcast_session_info
  joined_lem ch n s =
      let nodes = insert_set n (or_empty (get s ch.online)) in
      let (ch', r, ran, online) = told ch s nodes in
      (
        ch',
        r,
        ran,
        λ t m. ground (
          arith,
          online,
          get-insert s t nodes ch.online,
          contains-insert_set n m (or_empty (get s ch.online)),
        ),
      )

  -- `left` of a node takes it off the nodes that are online in its session, if the session has any
  -- such set, and leaves every other node of every session as it was. Without one it panics.
  pub left_lem :
      (ch : Channels Tx) (n s : ℕ)
      → ((get s ch.online ≡ none) → left ch n s ≡ panic)
        × ((nodes : List ℕ)
            → get s ch.online ≡ some nodes
            → (ch' : Channels Tx) × (r : Result) × (left ch n s ≡ ok (ch', r))
              × ((t m : ℕ) → is_online ch' t m ≡ (is_online ch t m && not (t == s && m == n))))
  unfolding left broadcast_session_info
  left_lem ch n s = (
    λ missing. rw missing refl,
    λ nodes here.
        let (ch', r, ran, online) = told ch s (remove_set n nodes) in
        (
          ch',
          r,
          rw here ran,
          λ t m. ground (
            arith,
            online,
            here,
            get-insert s t (remove_set n nodes) ch.online,
            remove_set-contains n m nodes,
          ),
        ),
  )

  broadcast-success :
      (ch : Channels Tx) (s : ℕ) (tx : Tx) (cmd : Command)
      → get s ch.messages ≡ some (broadcasting.subscribe tx)
      → (broadcast ch s cmd).1 ≡ success
  unfolding broadcast
  broadcast-success ch s tx cmd here = rw here (ground (arith, broadcasting.send-subscribe tx cmd))

  -- The news of a node that has subscribed gets out.
  pub joined-success :
      (ch ch' : Channels Tx) (n s : ℕ) (tx : Tx) (r : Result)
      → get s ch.messages ≡ some (broadcasting.subscribe tx)
      → joined ch n s ≡ ok (ch', r)
      → r ≡ success
  unfolding joined broadcast_session_info
  joined-success ch ch' n s tx r here ran =
      let nodes = insert_set n (or_empty (get s ch.online)) in
      let now : Channels Tx = record ch { online = insert s nodes ch.online } in
      let told_to : get s now.online ≡ some nodes =
        ground (arith, get-insert s s nodes ch.online) in
      ground (
        arith,
        told_to,
        broadcast-success now s tx (session_status (record { session_id = s; online = nodes }))
            here,
      )
