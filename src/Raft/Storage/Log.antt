-- ===== src/Raft/Storage/Log.antt =====
-- The log that a storage holds, and what the log operations of storage.rs do to it.
use wraft.Base.{
  drop-get_elem?, take-nil, get_elem?-append_left, drop_all, get_elem?-lt, get_elem?-some,
  get_elem?-snoc, ℕ, zero, suc, ◌+◌, ◌-◌, ◌≤◌, ◌<◌, ◌^◌, ◌≡◌, refl, ◌∙◌, Option, none, some, List,
  [], ◌∷◌, ◌++◌, ◌⊎◌, arith, ok, panic, length, get_elem?, length-append, Option-cases, inl, inr,
  count_up, take, drop,
}
use wraft.Raft.Types.{LogEntry, FitsU64}
use wraft.Raft.Storage.{
  term_or_zero, last_log_term, last_log_index_key, Codec, Storage, log_key, key_eq, set_item,
  read_item, get_log, append_log, overwrite_log, sublog, increment_last_log_index,
  set_last_log_index,
}

-- The entry at a log index, which counts from 1.
abbrev pub entry_at : {Cmd : Type 0} → List (LogEntry Cmd) → ℕ → Option (LogEntry Cmd)
entry_at log zero = none
entry_at log (suc i) = get_elem? log i

pub entry_at-some :
    {Cmd : Type 0} (log : List (LogEntry Cmd)) (i : ℕ)
    → 0 < i
    → i ≤ length log
    → (x : LogEntry Cmd) × (entry_at log i ≡ some x)
entry_at-some log zero pos h = absurd (omega arith)
entry_at-some log (suc i) pos h = get_elem?-some log i (omega arith)

-- A log whose entries stand under their own indices, made longer by the next entry.
snoc-indexed :
    {Cmd : Type 0} (log : List (LogEntry Cmd)) (e : LogEntry Cmd)
    → ((i : ℕ) (d : LogEntry Cmd) → get_elem? log i ≡ some d → d.idx ≡ suc i)
    → e.idx ≡ suc (length log)
    → (i : ℕ) (d : LogEntry Cmd) → get_elem? (log ++ e ∷ []) i ≡ some d
    → d.idx ≡ suc i
snoc-indexed log e indexed next i d at = elim (get_elem?-snoc log e d i at) [
  | inl old ↦ indexed i d old
  | inr (at_end, same) ↦ ground arith
]

module _ {Text Cmd : Type 0} ⦃codec : Codec Text Cmd⦄ where
  -- The storage holds the log: its length is the last index, each entry stands under its own
  -- index, and its text decodes.
  pub record Holds (s : Storage Text Cmd) (log : List (LogEntry Cmd)) : Type 0 where
    pub last : s.last_log_index ≡ length log
    pub small : length log < 2 ^ 64
    pub reads : (i : ℕ) (e : LogEntry Cmd) → get_elem? log i ≡ some e → read_item s (suc i) ≡ ok e
    pub indexed : (i : ℕ) (e : LogEntry Cmd) → get_elem? log i ≡ some e → e.idx ≡ suc i

  -- The term, the vote and the session are as they were.
  pub record Keeps (s t : Storage Text Cmd) : Type 0 where
    pub key : t.session_key ≡ s.session_key
    pub term : t.current_term ≡ s.current_term
    pub vote : t.voted_for ≡ s.voted_for

  pub get_log_lem :
      (s : Storage Text Cmd) (log : List (LogEntry Cmd)) (idx : ℕ)
      → Holds s log
      → get_log s idx ≡ ok (entry_at log idx)
  unfolding get_log
  get_log_lem s log zero h = ground arith
  get_log_lem s log (suc i) h = elim (Option-cases (get_elem? log i)) [
    | inl e ↦ ground (arith, get_elem?-some log i, h.last)
    | inr (d, e) ↦ ground (arith, get_elem?-lt log i e, h.reads i d e, h.last)
  ]

  -- Reading back what was written under the next index, and under the others.
  read_item_written :
      (s : Storage Text Cmd) (log : List (LogEntry Cmd)) (e d : LogEntry Cmd) (i n : ℕ)
      → ((j : ℕ) (c : LogEntry Cmd) → get_elem? log j ≡ some c → read_item s (suc j) ≡ ok c)
      → FitsU64 e
      → get_elem? (log ++ e ∷ []) i ≡ some d
      → read_item
          (record s {
            last_log_index = n;
            storage =
                set_item
                  (set_item s.storage (last_log_index_key s.session_key) (codec.show n))
                  (log_key s.session_key (suc (length log)))
                  (codec.encode e);
          })
          (suc i)
        ≡ ok d
  unfolding read_item set_item key_eq
  read_item_written s log e d i n reads fits h = elim (get_elem?-snoc log e d i h) [
    | inl old ↦ ground (arith, get_elem?-lt log i old, reads i d old)
    | inr (at_end, same) ↦ ground (arith, codec.decode-encode e fits)
  ]

  -- Appending the entry with the next index makes the log longer by it.
  pub append_log_lem :
      (s : Storage Text Cmd) (log : List (LogEntry Cmd)) (e : LogEntry Cmd)
      → Holds s log
      → FitsU64 e
      → e.idx ≡ suc (length log)
      → (t : Storage Text Cmd) × (append_log s e ≡ ok t) × Holds t (log ++ e ∷ []) × Keeps s t
  unfolding append_log increment_last_log_index set_last_log_index
  append_log_lem s log e h fits next = (
    t,
    ground (arith, h.last),
    record {
      last = omega (arith, length-append log (e ∷ []));
      small = omega (arith, length-append log (e ∷ []));
      reads = λ i d at. read_item_written s log e d i (suc (length log)) h.reads fits at;
      indexed = λ i d at. snoc-indexed log e (h.indexed) next i d at;
    },
    record { key = refl; term = refl; vote = refl },
  )
    where
      t : Storage Text Cmd
      t = record s {
        last_log_index = suc (length log);
        storage =
            set_item
              (set_item s.storage (last_log_index_key s.session_key)
                (codec.show (suc (length log))))
              (log_key s.session_key (suc (length log))) (codec.encode e);
      }

  pub Keeps-trans : {s t u : Storage Text Cmd} → Keeps s t → Keeps t u → Keeps s u
  Keeps-trans k l = record { key = l.key ∙ k.key; term = l.term ∙ k.term; vote = l.vote ∙ k.vote }

  -- Setting the last index back drops the entries behind it.
  set_last_log_index-Holds :
      (s : Storage Text Cmd) (log rest : List (LogEntry Cmd)) (n : ℕ)
      → n ≡ length log
      → Holds s (log ++ rest)
      → Holds (set_last_log_index s n) log
  unfolding set_last_log_index read_item set_item key_eq
  set_last_log_index-Holds s log rest n e h = record {
    last = e;
    small = omega (arith, h.small, length-append log rest);
    reads = λ i d at. h.reads i d (get_elem?-append_left log rest i at);
    indexed = λ i d at. h.indexed i d (get_elem?-append_left log rest i at);
  }

  set_back-Keeps : (s : Storage Text Cmd) (n : ℕ) → Keeps s (set_last_log_index s n)
  unfolding set_last_log_index
  set_back-Keeps s n = record { key = refl; term = refl; vote = refl }

  -- `overwrite_log` replaces the last entry, or appends, when at most one entry stands at or
  -- behind its index.
  pub overwrite_log_lem :
      (s : Storage Text Cmd) (log rest : List (LogEntry Cmd)) (e : LogEntry Cmd)
      → Holds s (log ++ rest)
      → length rest ≤ 1
      → FitsU64 e
      → e.idx ≡ suc (length log)
      → (t : Storage Text Cmd) × (overwrite_log s e ≡ ok t) × Holds t (log ++ e ∷ []) × Keeps s t
  unfolding overwrite_log
  overwrite_log_lem s log rest e h one fits next =
      let back =
        append_log_lem (set_last_log_index s (e.idx - 1)) log e
          (set_last_log_index-Holds s log rest (e.idx - 1) (omega arith) h) fits next in
      (
        back.0,
        ground (arith, h.last, length-append log rest, back.1),
        back.2,
        Keeps-trans (set_back-Keeps s (e.idx - 1)) back.3,
      )

  -- `overwrite_log` panics at every index before the last, and at index 0.
  pub overwrite_log_panics :
      (s : Storage Text Cmd) (e : LogEntry Cmd)
      → (e.idx < s.last_log_index) ⊎ (e.idx ≡ 0)
      → overwrite_log s e ≡ panic
  unfolding overwrite_log
  overwrite_log_panics s e h = ground arith

  -- A run of indices reads that part of the log, as far as the log goes, and does not panic.
  pub sublog_lem :
      (s : Storage Text Cmd) (log : List (LogEntry Cmd)) (n i k : ℕ)
      → Holds s log
      → k ≡ suc i
      → sublog s (count_up k n) ≡ ok (take n (drop i log))
  unfolding sublog
  sublog_lem s log zero i k h e = refl
  sublog_lem s log (suc n) i k h e =
      rw (e, get_log_lem s log (suc i) h, sublog_lem s log n (suc i) (suc i + 1) h (omega arith))
        (elim (Option-cases (get_elem? log i)) [
          | inl gone ↦ ground (
            arith,
            get_elem?-some log i,
            drop_all log i,
            drop_all log (suc i),
            take-nil (LogEntry Cmd) n,
            take-nil (LogEntry Cmd) (suc n),
          )
          | inr (d, here) ↦ ground (arith, drop-get_elem? log i here)
        ])

  pub last_log_term_lem :
      (s : Storage Text Cmd) (log : List (LogEntry Cmd))
      → Holds s log
      → last_log_term s ≡ ok (term_or_zero (entry_at log (length log)))
  unfolding last_log_term
  last_log_term_lem s log h = ground (arith, get_log_lem s log s.last_log_index h, h.last)
