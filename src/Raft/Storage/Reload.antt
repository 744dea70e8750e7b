-- ===== src/Raft/Storage/Reload.antt =====
-- What survives a restart of the browser: the storage after calls, and `Storage::new`.
use wraft.Base.{
  subst, add64, ℕ, ◌≡◌, ◌-◌, ◌∙◌, subst, refl, Option, none, some, List, [], ◌∷◌, arith, Outcome,
  ok, ◌>>=◌, All, IsU64, >>=-ok,
}
use wraft.Raft.Types.{LogEntry, FitsU64}
use wraft.Raft.Storage.{
  Codec, Storage, LocalStorage, current_term_key, voted_for_key, last_log_index_key, key_eq,
  set_item, remove_item, parse_or, parse_vote, new, set_last_log_index, increment_last_log_index,
  set_current_term, set_voted_for, update_term, increment_term, append_log, overwrite_log,
}

-- The calls of the storage that change it.
pub data Op (Cmd : Type 0) : Type 0 where
  updates_term : ℕ → Op Cmd
  increments_term : Op Cmd
  sets_vote : Option ℕ → Op Cmd
  appends : LogEntry Cmd → Op Cmd
  overwrites : LogEntry Cmd → Op Cmd

abbrev VoteFits : Option ℕ → Type 0
VoteFits none = Unit
VoteFits (some v) = IsU64 v

-- The numbers of a call fit their machine words.
abbrev pub OpFits : {Cmd : Type 0} → Op Cmd → Type 0
OpFits (updates_term t) = IsU64 t
OpFits increments_term = Unit
OpFits (sets_vote v) = VoteFits v
OpFits (appends e) = FitsU64 e
OpFits (overwrites e) = FitsU64 e

module _ {Text Cmd : Type 0} ⦃codec : Codec Text Cmd⦄ where
  unfoldable pub run_op : Storage Text Cmd → Op Cmd → Outcome (Storage Text Cmd)
  run_op s (updates_term t) = ok (update_term s t).0
  run_op s increments_term = ok (increment_term s)
  run_op s (sets_vote v) = ok (set_voted_for s v)
  run_op s (appends e) = append_log s e
  run_op s (overwrites e) = overwrite_log s e

  unfoldable pub run_ops : Storage Text Cmd → List (Op Cmd) → Outcome (Storage Text Cmd)
  run_ops s [] = ok s
  run_ops s (o ∷ os) = run_op s o >>= λ t. run_ops t os

  pub record Synced (s : Storage Text Cmd) : Type 0 where
    pub term :
        parse_or codec.parse (s.storage (current_term_key s.session_key)) 0 ≡ ok s.current_term
    pub vote : parse_vote codec.parse (s.storage (voted_for_key s.session_key)) ≡ ok s.voted_for
    pub last :
        parse_or codec.parse (s.storage (last_log_index_key s.session_key)) 0 ≡ ok s.last_log_index

  Synced-new : (s : Storage Text Cmd) → Synced s → new s.storage s.session_key ≡ ok s
  unfolding new
  Synced-new s y = rw (y.term, y.vote, y.last)

  new-Synced :
      (ls : LocalStorage Text) (key : ℕ) (s : Storage Text Cmd) → new ls key ≡ ok s → Synced s
  unfolding new
  new-Synced ls key s h = ground arith

  new-key :
      (ls : LocalStorage Text) (key : ℕ) (s : Storage Text Cmd)
      → new ls key ≡ ok s
      → s.session_key ≡ key
  unfolding new
  new-key ls key s h = ground arith

  set_last_log_index-Synced :
      (s : Storage Text Cmd) (n : ℕ) → IsU64 n → Synced s → Synced (set_last_log_index s n)
  unfolding set_last_log_index set_item key_eq
  set_last_log_index-Synced s n u y = ground (arith, codec.parse-show n u)

  set_current_term-Synced :
      (s : Storage Text Cmd) (n : ℕ) → IsU64 n → Synced s → Synced (set_current_term s n)
  unfolding set_current_term set_item key_eq
  set_current_term-Synced s n u y = ground (arith, codec.parse-show n u)

  set_voted_for-Synced :
      (s : Storage Text Cmd) (v : Option ℕ) → VoteFits v → Synced s → Synced (set_voted_for s v)
  unfolding set_voted_for set_item remove_item key_eq
  set_voted_for-Synced s none u y = ground arith
  set_voted_for-Synced s (some v) u y = ground (arith, codec.parse-show v u)

  append_log-Synced :
      (s t : Storage Text Cmd) (e : LogEntry Cmd) → Synced s → append_log s e ≡ ok t → Synced t
  unfolding append_log increment_last_log_index set_item key_eq
  append_log-Synced s t e y h =
      ground (arith, set_last_log_index-Synced s (add64 s.last_log_index 1) (omega arith) y)

  update_term-Synced :
      (s : Storage Text Cmd) (n : ℕ) → IsU64 n → Synced s → Synced (update_term s n).0
  unfolding update_term
  update_term-Synced s n u y = ground (
    arith,
    y,
    set_current_term-Synced (set_voted_for s none) n u (set_voted_for-Synced s none tt y),
  )

  increment_term-Synced : (s : Storage Text Cmd) → Synced s → Synced (increment_term s)
  unfolding increment_term
  increment_term-Synced s y =
      set_current_term-Synced (set_voted_for s none) (add64 s.current_term 1) (omega arith)
        (set_voted_for-Synced s none tt y)

  overwrite_log-Synced :
      (s t : Storage Text Cmd) (e : LogEntry Cmd)
      → FitsU64 e
      → Synced s
      → overwrite_log s e ≡ ok t
      → Synced t
  unfolding overwrite_log
  overwrite_log-Synced s t e u y h =
      append_log-Synced (set_last_log_index s (e.idx - 1)) t e
        (set_last_log_index-Synced s (e.idx - 1) (omega arith) y) (ground arith)

  run_op-Synced :
      (s t : Storage Text Cmd) (o : Op Cmd) → OpFits o → Synced s → run_op s o ≡ ok t → Synced t
  unfolding run_op
  run_op-Synced s t (updates_term n) u y h =
      subst Synced (ground arith) (update_term-Synced s n u y)
  run_op-Synced s t increments_term u y h = subst Synced (ground arith) (increment_term-Synced s y)
  run_op-Synced s t (sets_vote v) u y h = subst Synced (ground arith) (set_voted_for-Synced s v u y)
  run_op-Synced s t (appends e) u y h = append_log-Synced s t e y h
  run_op-Synced s t (overwrites e) u y h = overwrite_log-Synced s t e u y h

  set_voted_for-key :
      (s : Storage Text Cmd) (v : Option ℕ) → (set_voted_for s v).session_key ≡ s.session_key
  unfolding set_voted_for
  set_voted_for-key s none = refl
  set_voted_for-key s (some v) = refl

  run_op-key :
      (s t : Storage Text Cmd) (o : Op Cmd) → run_op s o ≡ ok t → t.session_key ≡ s.session_key
  unfolding run_op update_term increment_term append_log overwrite_log set_last_log_index
      set_current_term increment_last_log_index
  run_op-key s t (updates_term n) h = ground (arith, set_voted_for-key s none)
  run_op-key s t increments_term h = ground (arith, set_voted_for-key s none)
  run_op-key s t (sets_vote v) h = ground (arith, set_voted_for-key s v)
  run_op-key s t (appends e) h = ground arith
  run_op-key s t (overwrites e) h = ground arith

  run_ops-Synced :
      (s t : Storage Text Cmd) (os : List (Op Cmd))
      → All OpFits os
      → Synced s
      → run_ops s os ≡ ok t
      → Synced t × (t.session_key ≡ s.session_key)
  unfolding run_ops
  run_ops-Synced s t [] u y h = (subst Synced (ground arith) y, ground arith)
  run_ops-Synced s t (o ∷ os) u y h =
      let (r, first, rest) = >>=-ok (run_op s o) (λ r. run_ops r os) h in
      let (done, key) = run_ops-Synced r t os u.1 (run_op-Synced s r o u.0 y first) rest in
      (done, key ∙ run_op-key s r o first)

  -- A storage that `Storage::new` opened, after any calls with numbers that fit their machine
  -- words, and without a panic, is what `Storage::new` opens on the browser's storage that it left.
  pub run_ops-reload :
      (ls : LocalStorage Text) (key : ℕ) (s t : Storage Text Cmd) (os : List (Op Cmd))
      → All OpFits os
      → new ls key ≡ ok s
      → run_ops s os ≡ ok t
      → new t.storage key ≡ ok t
  run_ops-reload ls key s t os u opened ran =
      let (y, same) = run_ops-Synced s t os u (new-Synced ls key s opened) ran in
      subst (λ k. new t.storage k ≡ ok t) (same ∙ new-key ls key s opened) (Synced-new t y)
