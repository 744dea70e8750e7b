-- ===== src/Raft/Clients/Acks.antt =====
-- The acknowledgements of `advance_commit_index` of worker.rs.
use wraft.Base.{
  Option-cases, sym, subst, ℕ, ◌+◌, ◌<◌, ◌≡◌, refl, none, some, List, [], ◌∷◌, arith, ok, >>=-ok,
  get, insert, remove, get-remove, get-insert, add64, range_inclusive, inl, inr,
}
use wraft.Raft.Types.{ClientResult, ClientResponse}
use wraft.Raft.Storage.{Codec}
use wraft.Raft.Worker.{Inner, ClientSender, Effect, answer}
use wraft.Raft.Worker.Leader
use wraft.Raft.Worker.Leader.{Leader}
use wraft.Raft.Clients.{settled, same_sender, waits_in, one_if, IsKeyed}

IsKeyed-remove :
    (last k : ℕ) (m : List (ℕ × ClientSender)) → IsKeyed last m → IsKeyed last (remove k m)
unfolding remove
IsKeyed-remove last k [] h = tt
IsKeyed-remove last k ((j, tx) ∷ m) (fresh, low, rest) =
    ground (arith, IsKeyed-remove last k m rest, get-remove k j m, fresh, low)

remove-none : (k : ℕ) (m : List (ℕ × ClientSender)) → get k m ≡ none → remove k m ≡ m
unfolding get remove
remove-none k [] h = refl
remove-none k ((j, tx) ∷ m) h = ground (arith, remove-none k m)

-- The sender of an index goes once.
waits_in-remove :
    (s : ClientSender) (last k : ℕ) (tx : ClientSender) (m : List (ℕ × ClientSender))
    → IsKeyed last m
    → get k m ≡ some tx
    → waits_in s (remove k m) + one_if (same_sender s tx) ≡ waits_in s m
unfolding get remove
waits_in-remove s last k tx [] h here = cc
waits_in-remove s last k tx ((j, x) ∷ m) (fresh, low, rest) here =
    ground (arith, waits_in-remove s last k tx m rest, remove-none k m)

pub IsKeyed-insert :
    (last idx : ℕ) (tx : ClientSender) (m : List (ℕ × ClientSender))
    → last < idx
    → IsKeyed last m
    → IsKeyed idx (insert idx tx m)
unfolding insert get
IsKeyed-insert last idx tx [] above h = (refl, omega arith, tt)
IsKeyed-insert last idx tx ((j, x) ∷ m) above (fresh, low, rest) =
    ground (arith, IsKeyed-insert last idx tx m above rest, get-insert idx j tx m, fresh, low)

pub waits_in-insert :
    (s : ClientSender) (last idx : ℕ) (tx : ClientSender) (m : List (ℕ × ClientSender))
    → last < idx
    → IsKeyed last m
    → waits_in s (insert idx tx m) ≡ waits_in s m + one_if (same_sender s tx)
unfolding insert
waits_in-insert s last idx tx [] above h = ground arith
waits_in-insert s last idx tx ((j, x) ∷ m) above (fresh, low, rest) =
    ground (arith, waits_in-insert s last idx tx m above rest, low)

-- What waited is acknowledged, or waits on.
abbrev pub Accounts :
    {Cmd : Type 0} → ClientSender → ℕ → Leader → Leader × List (Effect Cmd) → Type 0
Accounts s last l (l', out) =
    IsKeyed last l'.in_flight_client_requests
    × (waits_in s l'.in_flight_client_requests + settled s out
        ≡ waits_in s l.in_flight_client_requests)

module _ (Cmd : Type 0) where
  ack_range-Accounts :
      (s : ClientSender) (last : ℕ) (l : Leader) (is : List ℕ)
      → IsKeyed last l.in_flight_client_requests
      → Accounts s last l (Leader.ack_range {Cmd = Cmd} l is)
  unfolding Leader.ack_range
  ack_range-Accounts s last l [] keyed = (keyed, omega arith)
  ack_range-Accounts s last l (i ∷ is) keyed =
      elim (Option-cases (get i l.in_flight_client_requests)) [
        | inl free ↦
            let same : Leader.ack_range {Cmd = Cmd} l (i ∷ is) ≡ Leader.ack_range l is =
              ground (arith, free) in
            subst (Accounts s last l) (sym same) (ack_range-Accounts s last l is keyed)
        | inr (tx, here) ↦
            let l1 = record l {
              in_flight_client_requests = remove i l.in_flight_client_requests;
            } in
            let (keyed', rest) =
              ack_range-Accounts s last l1 is
                (IsKeyed-remove last i l.in_flight_client_requests keyed) in
            let r = Leader.ack_range {Cmd = Cmd} l1 is in
            let same : Leader.ack_range {Cmd = Cmd} l (i ∷ is)
                ≡ (r.0, answer tx (ClientResult.ok ClientResponse.ack) ∷ r.1) =
              ground (arith, here) in
            let gone = waits_in-remove s last i tx l.in_flight_client_requests keyed here in
            subst (Accounts s last l) (sym same) (keyed', ground (arith, rest, gone))
      ]

module _ {Text Cmd : Type 0} ⦃codec : Codec Text Cmd⦄ where
  pub settled-advance :
      (s : ClientSender) (last : ℕ) (w w' : Inner Text Cmd) (l l' : Leader)
      (out : List (Effect Cmd))
      → Leader.advance_commit_index w l ≡ ok (w', l', out)
      → IsKeyed last l.in_flight_client_requests
      → Accounts s last l (l', out)
  unfolding Leader.advance_commit_index
  settled-advance s last w w' l l' out h keyed =
      let (r, ranged, rest) = >>=-ok (Leader.commit_range w l _) _ h in
      let is = range_inclusive (add64 w.commit_index 1) r.commit_index in
      let same : Leader.ack_range l is ≡ (l', out) = ground (arith, rest) in
      subst (Accounts s last l) same (ack_range-Accounts Cmd s last l is keyed)
