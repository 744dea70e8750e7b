-- ===== src/Introduction/Pairs.antt =====
-- introduction.rs: of two nodes that are to meet, who introduces itself.
use wraft.Base.{
  Bool-cases, ap, ℕ, ◌≡◌, ◌≢◌, ◌<◌, refl, inl, inr, Bool, true, false, ◌&&◌, ◌||◌, Option, none,
  some, List, [], ◌∷◌, ◌++◌, ok, arith, ◌==◌, contains,
}
use wraft.Introducer.{Session, session_status}
use wraft.Introduction.{
  State, Effect, describe_local, message, is_introduced, introductions, introduce, introduce_all,
  handle_message, step,
}

-- A description begins for the peer.
abbrev pub introduces : ℕ → List Effect → Bool
introduces p [] = false
introduces p (describe_local q pc ∷ out) = q == p || introduces p out
introduces p (_ ∷ out) = introduces p out

introduces-introduce :
    (p q : ℕ) (connection : Option ℕ) (out : List Effect)
    → (q ≡ p → connection ≢ none)
    → introduces p (introduce q connection ++ out) ≡ (q == p || introduces p out)
introduces-introduce p q none out made = ground (arith, made)
introduces-introduce p q (some pc) out made = refl

introduces-all :
    (connections : ℕ → Option ℕ) (st : State) (p pc : ℕ) (ps : List ℕ)
    → connections p ≡ some pc
    → introduces p (introduce_all connections (introductions st ps))
      ≡ (contains p ps && is_introduced st p)
unfolding introduce_all introductions contains
introduces-all connections st p pc [] made = refl
introduces-all connections st p pc (q ∷ ps) made =
    let rest = introduces-all connections st p pc ps made in
    let there : q ≡ p → connections q ≢ none = λ e none_made. ground (arith, ap connections e) in
    let same : q ≡ p → is_introduced st q ≡ is_introduced st p = λ e. ap (is_introduced st) e in
    elim (Bool-cases (is_introduced st q)) [
      | inl wanted ↦
          let first =
            introduces-introduce p q (connections q)
              (introduce_all connections (introductions st ps)) there in
          rw wanted (ground (arith, first, rest, wanted, same))
      | inr unwanted ↦ rw unwanted (ground (arith, rest, unwanted, same))
    ]

-- If two nodes get the same news of their session, in which both are online, neither knows the other yet, and
-- the browser makes each a connection to the other, then the one with the lesser id begins to
-- describe a connection to the other, the other one none, and neither state changes.
pub one_introduces :
    (a b : State) (connections connections' : ℕ → Option ℕ) (pc pc' : ℕ) (session : Session)
    → a.node_id < b.node_id
    → contains a.node_id session.online ≡ true
    → contains b.node_id session.online ≡ true
    → contains b.node_id a.online ≡ false
    → contains a.node_id b.online ≡ false
    → connections b.node_id ≡ some pc
    → connections' a.node_id ≡ some pc'
    → (out out' : List Effect) × (step a (message connections (some (session_status session)))
        ≡ ok (a, out))
      × (step b (message connections' (some (session_status session))) ≡ ok (b, out'))
      × (introduces b.node_id out ≡ true)
      × (introduces a.node_id out' ≡ false)
unfolding step handle_message
one_introduces a b connections connections' pc pc' session less a_in b_in new_to_a new_to_b made
      made' =
    let begins = introduces-all connections a b.node_id pc session.online made in
    let begins' = introduces-all connections' b a.node_id pc' session.online made' in
    (
      introduce_all connections (introductions a session.online),
      introduce_all connections' (introductions b session.online),
      refl,
      refl,
      ground (arith, begins),
      ground (arith, begins'),
    )
