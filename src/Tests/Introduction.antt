-- ===== src/Tests/Introduction.antt =====
-- Nodes 3 and 4 of session 7, of which the first introduces itself to the other.
use wraft.Base.{
  ℕ, ◌+◌, ◌≡◌, ◌≢◌, refl, Bool, true, false, Option, none, some, List, [], ◌∷◌, Outcome, ok, panic,
  arith, contains,
}
use wraft.Introducer.{Session, session_status, Offer, answer}
use wraft.Introduction.{
  State, new, Effect, message, local_described, channel_initiated, returns, step, run,
}
use wraft.Introduction.Pairs.{introduces, one_introduces}
use wraft.Introduction.Races.{introduced_twice, late_answer, answer_of, news}

abbrev connections : ℕ → Option ℕ
connections p = some (p + 100)

abbrev pair : Session
pair = record { session_id = 7; online = 4 ∷ 3 ∷ [] }

one_introduces_example :
    (out out' : List Effect) × (step (new 3 7) (message connections (some (session_status pair)))
      ≡ ok (new 3 7, out))
    × (step (new 4 7) (message connections (some (session_status pair))) ≡ ok (new 4 7, out'))
    × (introduces 4 out ≡ true)
    × (introduces 3 out' ≡ false)
unfolding contains
one_introduces_example =
    one_introduces (new 3 7) (new 4 7) connections connections 104 103 pair (omega arith) refl refl
      refl refl refl refl

introduced_twice_example :
    run (new 3 7) (
      message connections (some (session_status (news (new 3 7) 4)))
      ∷ message connections (some (session_status (news (new 3 7) 4)))
      ∷ local_described 4 104 []
      ∷ message connections (some (answer (answer_of (new 3 7) 4 [])))
      ∷ local_described 4 104 []
      ∷ message connections (some (answer (answer_of (new 3 7) 4 [])))
      ∷ channel_initiated 4
      ∷ channel_initiated 4
      ∷ [])
    ≡ panic
unfolding contains
introduced_twice_example =
    introduced_twice (new 3 7) connections connections 4 104 104 [] [] [] [] (omega arith) refl refl
      refl

abbrev late : Offer
late = answer_of (new 3 7) 4 []

abbrev meeting : State
meeting = record (new 3 7) { peers = (4, 104) ∷ []; online = 4 ∷ [] }

late_answer_example :
    run meeting (channel_initiated 4 ∷ message connections (some (answer late)) ∷ returns ∷ [])
    ≡ panic
unfolding wraft.Base.get
late_answer_example = late_answer meeting connections 104 late refl
