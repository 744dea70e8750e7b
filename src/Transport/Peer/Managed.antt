-- ===== src/Transport/Peer/Managed.antt =====
-- The requests that the manager of a data channel has.
use wraft.Base.{
  unwrap, ℕ, ◌+◌, ◌<◌, ◌^◌, ◌≡◌, refl, inl, inr, Bool, false, Option, none, some, List, [], ◌∷◌,
  arith, ok, >>=-ok, ◌==◌, count,
}
use wraft.Raft.Types.{TransportError}
use wraft.RingBuf as RingBuf
use wraft.RingBuf.{RingBuf, added, overflow}
use wraft.RingBuf.Window.{find, IsValid}
use wraft.RingBuf.Laws.{add_lem}
use wraft.RingBuf.Contents.{contents, found_count, contents-add, contents-remove}
use wraft.Transport.{
  Reply, Message, request, response, Sent, send_message, answer, start_timeout, Manager,
  handle_request, handle_response, handle_timeout, after_add, after_send, answer_to,
}

-- Where a sender waits: with its request in the channel, or in the manager's buffer.
abbrev pub in_channel : {Req : Type 0} → ℕ → List (Req × ℕ) → ℕ
in_channel t requests = count (λ r. r.1 == t) requests

abbrev pub managed_by : ℕ → Option Manager → ℕ
managed_by t none = 0
managed_by t (some m) = contents (λ tx. tx == t) m

abbrev pub IsManaged : Option Manager → Type 0
IsManaged none = Unit {0}
IsManaged (some m) = IsValid m

module _ {Req Resp : Type 0} where
  -- The manager answers the sender.
  abbrev pub answers : ℕ → Sent Req Resp → Bool
  answers t (answer tx resp) = tx == t
  answers t (send_message msg) = false
  answers t (start_timeout idx) = false

abbrev pub HasRoom : Option Manager → Type 0
HasRoom none = Unit {0}
HasRoom (some m) = m.next_idx + 1 < 2 ^ 32

answer_to-count :
    (Req : Type 0) {Resp : Type 0} (t : ℕ) (found : Option ℕ) (resp : Reply Resp)
    → count (answers {Req = Req} t) (answer_to found resp) ≡ found_count (λ tx. tx == t) found
unfolding answer_to
answer_to-count Req t none resp = refl
answer_to-count Req t (some tx) resp = refl

module _ {Req Resp : Type 0} where
  -- What waits in the buffer and the new sender, if there is one, waits on or is answered.
  abbrev pub Manages : ℕ → Manager → List ℕ → Manager × List (Sent Req Resp) → Type 0
  Manages t m new (m', out) =
      IsValid m'
      × (contents (λ tx. tx == t) m' + count (answers t) out
          ≡ contents (λ tx. tx == t) m + count (λ tx. tx == t) new)

  pub response-Manages :
      (t : ℕ) (m m' : Manager) (msg : Message Req Resp) (out : List (Sent Req Resp))
      → IsValid m
      → handle_response m msg ≡ ok (m', out)
      → Manages t m [] (m', out)
  unfolding handle_response
  response-Manages t m m' (response idx resp) out v h =
      let (r, removed, rest) = >>=-ok (RingBuf.remove m idx) _ h in
      let (kept, valid) = contents-remove (λ tx. tx == t) m r.0 idx r.1 v removed in
      let to : m' ≡ r.0 = ground arith in
      rw to (valid, ground (arith, kept, answer_to-count Req t r.1 resp))
  response-Manages t m m' (request idx req) out v h =
      let to : m' ≡ m = ground arith in rw to (v, ground arith)

  pub timeout-Manages :
      (t : ℕ) (m m' : Manager) (idx : ℕ) (out : List (Sent Req Resp))
      → IsValid m
      → handle_timeout m idx ≡ ok (m', out)
      → Manages t m [] (m', out)
  unfolding handle_timeout
  timeout-Manages t m m' idx out v h =
      let (r, removed, rest) = >>=-ok (RingBuf.remove m idx) _ h in
      let (kept, valid) = contents-remove (λ tx. tx == t) m r.0 idx r.1 v removed in
      let to : m' ≡ r.0 = ground arith in
      rw to (valid, ground (arith, kept, answer_to-count Req t r.1 _))

  added-Manages :
      (t : ℕ) (m m' : Manager) (idx : ℕ) (msg : Message Req Resp) (tx : ℕ)
      (error : Option TransportError) (out : List (Sent Req Resp))
      → IsValid m
      → find m idx ≡ some tx
      → after_send m idx msg error ≡ ok (m', out)
      → Manages t m [] (m', out)
  unfolding after_send
  added-Manages t m m' idx msg tx none out v here h =
      let to : m' ≡ m = ground arith in rw to (v, ground arith)
  added-Manages t m m' idx msg tx (some error) out v here h =
      let (r, removed, more) = >>=-ok (RingBuf.remove m idx) _ h in
      let (s, found, rest) = >>=-ok (unwrap r.1) _ more in
      let (kept, valid) = contents-remove (λ s. s == t) m r.0 idx r.1 v removed in
      let to : m' ≡ r.0 = ground arith in
      let one : r.1 ≡ some s = ground (arith, found) in rw to (valid, ground (arith, kept, one))

  pub request-Manages :
      (t : ℕ) (m m' : Manager) (req : Req) (tx : ℕ) (error : Option TransportError)
      (out : List (Sent Req Resp))
      → IsValid m
      → m.next_idx + 1 < 2 ^ 32
      → handle_request m req tx error ≡ ok (m', out)
      → Manages t m (tx ∷ []) (m', out)
  unfolding handle_request after_add after_send
  request-Manages t m m' req tx error out v room h = elim (add_lem m tx v room) [
    | inl (full, ran) ↦ let to : m' ≡ m = ground (arith, ran) in rw to (v, ground (arith, ran))
    | inr (narrow, (r, ran, valid, next, free, others)) ↦
        let more = contents-add (λ s. s == t) m r tx m.next_idx v room ran in
        let here : find r m.next_idx ≡ some tx = ground (arith, others m.next_idx) in
        let sent : after_send {Resp = Resp} r m.next_idx (request m.next_idx req) error
            ≡ ok (m', out) =
          ground (arith, ran) in
        let (valid', even) =
          added-Manages t r m' m.next_idx (request m.next_idx req) tx error out valid here sent in
        (valid', omega (arith, even, more))
  ]
