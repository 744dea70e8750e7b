-- ===== src/Todo.antt =====
-- wraft/src/todo_state.rs: the todo list that the cluster replicates.
-- A `String` is the list of its characters' code points.

pub mod Visible
pub mod Marks
pub mod Texts
pub mod Described
use wraft.Base.{
  ℕ, zero, suc, ◌+◌, ◌-◌, Bool, true, false, not, ◌&&◌, ◌||◌, Option, none, some, List, [], ◌∷◌,
  ◌++◌, map, Outcome, ok, panic, ◌>>=◌, unwrap, if◌then◌else◌, leb, ◌==◌, length, get_elem?, count,
}

abbrev pub Str : Type 0
Str = List ℕ

abbrev pub is_empty : {A : Type 0} → List A → Bool
is_empty [] = true
is_empty (x ∷ xs) = false

-- `char::is_whitespace`: the Unicode property White_Space
unfoldable pub is_whitespace : ℕ → Bool
is_whitespace c =
    (leb 9 c && leb c 13)
    || c == 32
    || c == 133
    || c == 160
    || c == 5760
    || (leb 8192 c && leb c 8202)
    || c == 8232
    || c == 8233
    || c == 8239
    || c == 8287
    || c == 12288

unfoldable pub trim_start : Str → Str
trim_start [] = []
trim_start (c ∷ cs) = let rest = trim_start cs in if is_whitespace c then rest else c ∷ cs

unfoldable pub trim_end : Str → Str
trim_end [] = []
trim_end (c ∷ cs) =
    let rest = trim_end cs in if is_whitespace c && is_empty rest then [] else c ∷ rest

unfoldable pub trim : Str → Str
trim cs = trim_end (trim_start cs)

pub record Entry : Type 0 where
  pub description : Str
  pub completed : Bool
  pub editing : Bool

pub data Filter : Type 0 where
  all active completed : Filter

pub record State : Type 0 where
  pub entries : List Entry
  pub filter : Filter
  pub value : Str
  pub edit_value : Str

pub data Msg : Type 0 where
  add clear_completed toggle_all : Msg
  edit toggle_edit toggle remove : ℕ → Msg
  update update_edit : Str → Msg
  set_filter : Filter → Msg

abbrev pub fits : Filter → Entry → Bool
fits Filter.all e = true
fits Filter.active e = not e.completed
fits Filter.completed e = e.completed

-- `iter().filter(p)`
abbrev pub keep : (Entry → Bool) → List Entry → List Entry
keep p [] = []
keep p (e ∷ es) = if p e then e ∷ keep p es else keep p es

abbrev pub every : (Entry → Bool) → List Entry → Bool
every p [] = true
every p (e ∷ es) = p e && every p es

-- `iter_mut().filter(p).nth(n).unwrap()`, with the entry changed by `f`
unfoldable pub change_nth : (Entry → Bool) → (Entry → Entry) → ℕ → List Entry → Outcome (List Entry)
change_nth p f n [] = panic
change_nth p f zero (e ∷ es) =
    let rest = change_nth p f zero es in if p e then ok (f e ∷ es) else rest >>= λ es'. ok (e ∷ es')
change_nth p f (suc n) (e ∷ es) =
    let later = change_nth p f n es in
    let rest = change_nth p f (suc n) es in (if p e then later else rest) >>= λ es'. ok (e ∷ es')

-- The places in the list of the entries that fit, counted from `i`.
unfoldable pub places : (Entry → Bool) → ℕ → List Entry → List ℕ
places p i [] = []
places p i (e ∷ es) = if p e then i ∷ places p (i + 1) es else places p (i + 1) es

-- `Vec::remove`
unfoldable pub remove_at : ℕ → List Entry → Outcome (List Entry)
remove_at n [] = panic
remove_at zero (e ∷ es) = ok es
remove_at (suc n) (e ∷ es) = remove_at n es >>= λ es'. ok (e ∷ es')

unfoldable pub total : State → ℕ
total s = length s.entries

unfoldable pub total_completed : State → ℕ
total_completed s = length (keep (fits Filter.completed) s.entries)

unfoldable pub is_all_completed : State → Bool
is_all_completed s =
    let filtered = keep (fits s.filter) s.entries in
    not (is_empty filtered) && every (λ e. e.completed) filtered

unfoldable pub with_entries : State → Outcome (List Entry) → Outcome State
with_entries s r = r >>= λ es. ok (record s { entries = es })

unfoldable pub toggle_entry : State → ℕ → Outcome State
unfolding with_entries
toggle_entry s idx =
    with_entries s
      (change_nth (fits s.filter) (λ e. record e { completed = not e.completed }) idx s.entries)

unfoldable pub toggle_all_entries : State → Bool → State
toggle_all_entries s value = record s {
  entries = map (λ e. if fits s.filter e then record e { completed = value } else e) s.entries;
}

unfoldable pub toggle_edit_entry : State → ℕ → Outcome State
unfolding with_entries
toggle_edit_entry s idx =
    with_entries s
      (change_nth (fits s.filter) (λ e. record e { editing = not e.editing }) idx s.entries)

unfoldable pub clear_all_edit : State → State
clear_all_edit s = record s {
  entries = map {A = Entry} (λ e. record e { editing = false }) s.entries;
}

unfoldable pub remove_entry : State → ℕ → Outcome State
unfolding with_entries places
remove_entry s idx = do
  place ← unwrap (get_elem? (places (fits s.filter) 0 s.entries) idx)
  with_entries s (remove_at place s.entries)

unfoldable pub complete_edit : State → ℕ → Str → Outcome State
unfolding with_entries
complete_edit s idx val =
    if is_empty val
    then remove_entry s idx
    else with_entries s (
        change_nth (fits s.filter) (λ e. record e { description = val; editing = not e.editing })
          idx s.entries)

-- The entry that `Msg::Add` pushes, if there is one.
unfoldable pub pushed : State → List Entry
pushed s =
    let description = trim s.value in
    if is_empty description
    then s.entries
    else s.entries ++ record { description = description; completed = false; editing = false } ∷ []

unfoldable pub apply : State → Msg → Outcome State
unfolding pushed
apply s add = ok (record s { entries = pushed s; value = [] })
apply s (edit idx) = do
  s' ← complete_edit s idx (trim s.edit_value)
  ok (record s' { edit_value = [] })
apply s (update val) = ok (record s { value = val })
apply s (update_edit val) = ok (record s { edit_value = val })
apply s (remove idx) = remove_entry s idx
apply s (set_filter filter) = ok (record s { filter = filter })
apply s (toggle_edit idx) = do
  entry ← unwrap (get_elem? s.entries idx)
  toggle_edit_entry (clear_all_edit (record s { edit_value = entry.description })) idx
apply s toggle_all = ok (toggle_all_entries s (not (is_all_completed s)))
apply s (toggle idx) = toggle_entry s idx
apply s clear_completed = ok (record s { entries = keep (fits Filter.active) s.entries })
