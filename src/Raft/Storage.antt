-- ===== src/Raft/Storage.antt =====
-- wraft/src/raft/storage.rs: the log, the term and the vote in the browser's local storage.
-- The browser's storage is a function from keys to texts. A key stands for the text that `format!`
-- makes. Decimal numbers, and bincode in base64, are a `Codec`.
pub mod Log
pub mod Reload
use wraft.Base.{
  ℕ, ◌≡◌, ◌+◌, ◌-◌, Bool, true, false, not, ◌&&◌, ◌||◌, Option, none, some, List, [], ◌∷◌, Outcome,
  ok, panic, ◌>>=◌, ◌>>◌, unwrap, assert, if◌then◌else◌, ltb, leb, ◌==◌, add64, sub64, IsU64,
}
use wraft.Raft.Types.{LogEntry, FitsU64}

-- What the code relies on of `to_string`, `parse`, bincode and base64.
pub record Codec (Text Cmd : Type 0) : Type 0 where
  pub show : ℕ → Text
  pub parse : Text → Option ℕ
  pub encode : LogEntry Cmd → Text
  pub decode : Text → Option (LogEntry Cmd)
  pub parse-show : (n : ℕ) → IsU64 n → parse (show n) ≡ some n
  pub decode-encode : (e : LogEntry Cmd) → FitsU64 e → decode (encode e) ≡ some e

-- `current-term-{}`, `voted-for-{}`, `last-log-index-{}` and `log-{}-{}`
pub data Key : Type 0 where
  current_term_key voted_for_key last_log_index_key : ℕ → Key
  log_key : ℕ → ℕ → Key

unfoldable pub key_eq : Key → Key → Bool
key_eq (current_term_key a) (current_term_key b) = a == b
key_eq (voted_for_key a) (voted_for_key b) = a == b
key_eq (last_log_index_key a) (last_log_index_key b) = a == b
key_eq (log_key a i) (log_key b j) = a == b && i == j
key_eq _ _ = false

-- `web_sys::Storage`
abbrev pub LocalStorage : Type 0 → Type 0
LocalStorage Text = Key → Option Text

module _ {Text : Type 0} where
  unfoldable pub set_item : LocalStorage Text → Key → Text → LocalStorage Text
  set_item ls k v = λ j. if key_eq k j then some v else ls j

  unfoldable pub remove_item : LocalStorage Text → Key → LocalStorage Text
  remove_item ls k = λ j. if key_eq k j then none else ls j

pub record Storage (Text Cmd : Type 0) : Type 0 where
  pub session_key : ℕ
  pub last_log_index : ℕ
  pub current_term : ℕ
  pub voted_for : Option ℕ
  pub storage : LocalStorage Text

-- `filter(Option::is_some).flatten()`, one step
abbrev pub push_some :
    {Cmd : Type 0} → Option (LogEntry Cmd) → List (LogEntry Cmd) → List (LogEntry Cmd)
push_some none es = es
push_some (some e) es = e ∷ es

abbrev pub term_or_zero : {Cmd : Type 0} → Option (LogEntry Cmd) → ℕ
term_or_zero none = 0
term_or_zero (some e) = e.term

-- An absent item leaves the default, one that does not parse is a panic.
abbrev pub parse_or : {Text : Type 0} → (Text → Option ℕ) → Option Text → ℕ → Outcome ℕ
parse_or parse none d = ok d
parse_or parse (some t) d = unwrap (parse t)

abbrev pub parse_vote : {Text : Type 0} → (Text → Option ℕ) → Option Text → Outcome (Option ℕ)
parse_vote parse none = ok none
parse_vote parse (some t) = unwrap (parse t) >>= λ v. ok (some v)

module _ {Text Cmd : Type 0} ⦃codec : Codec Text Cmd⦄ where
  unfoldable pub new : LocalStorage Text → ℕ → Outcome (Storage Text Cmd)
  new ls key = do
    term ← parse_or codec.parse (ls (current_term_key key)) 0
    vote ← parse_vote codec.parse (ls (voted_for_key key))
    idx ← parse_or codec.parse (ls (last_log_index_key key)) 0
    ok (record {
      session_key = key;
      last_log_index = idx;
      current_term = term;
      voted_for = vote;
      storage = ls;
    })

  unfoldable pub set_last_log_index : Storage Text Cmd → ℕ → Storage Text Cmd
  set_last_log_index s idx = record s {
    last_log_index = idx;
    storage = set_item s.storage (last_log_index_key s.session_key) (codec.show idx);
  }

  -- The storage with the index counted up, and the new index.
  unfoldable pub increment_last_log_index : Storage Text Cmd → Storage Text Cmd × ℕ
  increment_last_log_index s = let idx = add64 s.last_log_index 1 in (set_last_log_index s idx, idx)

  unfoldable pub set_current_term : Storage Text Cmd → ℕ → Storage Text Cmd
  set_current_term s term = record s {
    current_term = term;
    storage = set_item s.storage (current_term_key s.session_key) (codec.show term);
  }

  unfoldable pub set_voted_for : Storage Text Cmd → Option ℕ → Storage Text Cmd
  set_voted_for s (some v) = record s {
    voted_for = some v;
    storage = set_item s.storage (voted_for_key s.session_key) (codec.show v);
  }
  set_voted_for s none = record s {
    voted_for = none;
    storage = remove_item s.storage (voted_for_key s.session_key);
  }

  -- True if the term had to be updated.
  unfoldable pub update_term : Storage Text Cmd → ℕ → Storage Text Cmd × Bool
  update_term s term =
      if ltb s.current_term term
      then (set_current_term (set_voted_for s none) term, true)
      else (s, false)

  unfoldable pub increment_term : Storage Text Cmd → Storage Text Cmd
  increment_term s = set_current_term (set_voted_for s none) (add64 s.current_term 1)

  unfoldable pub append_log : Storage Text Cmd → LogEntry Cmd → Outcome (Storage Text Cmd)
  append_log s entry = do
    let (s', idx) = increment_last_log_index s
    assert (idx == entry.idx)
    ok (record s' {
      storage = set_item s'.storage (log_key s'.session_key idx) (codec.encode entry);
    })

  unfoldable pub overwrite_log : Storage Text Cmd → LogEntry Cmd → Outcome (Storage Text Cmd)
  overwrite_log s entry = do
    assert (leb s.last_log_index entry.idx)
    assert (not (entry.idx == 0))
    append_log (set_last_log_index s (entry.idx - 1)) entry

  -- `get_item(..).unwrap().unwrap()`, decoded
  unfoldable pub read_item : Storage Text Cmd → ℕ → Outcome (LogEntry Cmd)
  read_item s idx = do
    text ← unwrap (s.storage (log_key s.session_key idx))
    unwrap (codec.decode text)

  unfoldable pub get_log : Storage Text Cmd → ℕ → Outcome (Option (LogEntry Cmd))
  get_log s idx =
      if idx == 0 || ltb s.last_log_index idx then ok none else read_item s idx >>= λ e. ok (some e)

  unfoldable pub sublog : Storage Text Cmd → List ℕ → Outcome (List (LogEntry Cmd))
  sublog s [] = ok []
  sublog s (i ∷ indices) = do
    entry ← get_log s i
    rest ← sublog s indices
    ok (push_some entry rest)

  unfoldable pub last_log_term : Storage Text Cmd → Outcome ℕ
  last_log_term s = get_log s s.last_log_index >>= λ entry. ok (term_or_zero entry)
