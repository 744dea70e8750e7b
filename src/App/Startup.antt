-- ===== src/App/Startup.antt =====
-- wraft/src/raft_init.rs and `get_session_key` of lib.rs: the page that starts or joins a cluster.
-- A `String` is the list of its characters' code points; the window and its storage are effects.
pub mod Hex
pub mod Links
use wraft.Base.{
  ℕ, suc, zero, ◌+◌, ◌-◌, ◌*◌, ◌/◌, ◌%◌, ◌^◌, Bool, true, false, not, ◌&&◌, Option, none, some,
  List, [], ◌∷◌, ◌++◌, map, Outcome, ok, panic, ◌>>=◌, unwrap, if◌then◌else◌, ltb, leb, ◌==◌,
}
use wraft.Todo.{Str, is_empty, keep}

-- `char::to_digit(16)`
unfoldable pub to_digit : ℕ → Option ℕ
to_digit c =
    if leb 48 c && leb c 57
    then some (c - 48)
    else if leb 97 c && leb c 102
    then some (c - 87)
    else if leb 65 c && leb c 70
    then some (c - 55)
    else none

-- The digits of `u128::from_str_radix(s, 16)`, an overflow being an error.
unfoldable pub from_digits : ℕ → Str → Option ℕ
from_digits n [] = some n
from_digits n (c ∷ cs) = elim (to_digit c) [
  | none ↦ none
  | some d ↦
      let rest = from_digits (n * 16 + d) cs in if ltb (n * 16 + d) (2 ^ 128) then rest else none
]

-- `u128::from_str_radix(s, 16)`, which takes a leading plus sign.
unfoldable pub from_str_radix : Str → Option ℕ
from_str_radix [] = none
from_str_radix (c ∷ cs) =
    if c == 43 then (if is_empty cs then none else from_digits 0 cs) else from_digits 0 (c ∷ cs)

abbrev pub digit : ℕ → ℕ
digit d = if ltb d 10 then 48 + d else 87 + d

-- The last digits of a number.
unfoldable pub digits : ℕ → ℕ → Str
digits zero n = []
digits (suc k) n = digits k (n / 16) ++ digit (n % 16) ∷ []

-- `{:032x}`: a u128 has no more than 32 digits.
abbrev pub format_key : ℕ → Str
format_key key = digits 32 key

abbrev pub hash_sign : ℕ
hash_sign = 35

abbrev pub dot : ℕ
dot = 46

abbrev pub strip_prefix : ℕ → Str → Option Str
strip_prefix p [] = none
strip_prefix p (c ∷ cs) = if c == p then some cs else none

-- `get_session_key`, from what `location().hash()` gives.
abbrev pub get_session_key : Option Str → Option ℕ
get_session_key none = none
get_session_key (some hash) = elim (strip_prefix hash_sign hash) [
  | none ↦ none
  | some key ↦ from_str_radix key
]

module _ (Raft : Type 0) where
  -- `RaftWrapper`: what all of its clones share.
  abbrev pub Wrapper : Type 0
  Wrapper = Option Raft

  pub data State : Type 0 where
    setup : State
    waiting : ℕ → State
    running : Wrapper → State

  pub data Msg : Type 0 where
    update_session_key : Str → Msg
    start_cluster join_cluster clear_storage : Msg
    cluster_started : Wrapper → Msg

  pub record Model : Type 0 where
    pub session_key : Str
    pub state : State

pub data Effect : Type 0 where
  start_raft : ℕ → Effect
  alert_invalid alert_cleared clear_items : Effect

module _ {Raft : Type 0} where
  -- `RaftWrapper::take`: what it gives, and what is left.
  abbrev pub take : Wrapper Raft → Option Raft × Wrapper Raft
  take r = (r, none)

  -- `props.raft.take().unwrap()` of the component that runs on the cluster.
  abbrev pub mounted : Wrapper Raft → Outcome (Raft × Wrapper Raft)
  mounted r = unwrap (take r).0 >>= λ raft. ok (raft, (take r).1)

  unfoldable pub create : Option ℕ → Model Raft × List Effect
  create (some key) = (record { session_key = []; state = waiting key }, start_raft key ∷ [])
  create none = (record { session_key = []; state = setup }, [])

  abbrev pub joined : Model Raft → Option ℕ → Model Raft × Bool × List Effect
  joined m (some key) = (record m { state = waiting key }, true, start_raft key ∷ [])
  joined m none = (m, false, alert_invalid ∷ [])

  -- `update`, with the key that `generate_session_key` would make.
  unfoldable pub update : Model Raft → ℕ → Msg Raft → Model Raft × Bool × List Effect
  update m generated (update_session_key key) = (record m { session_key = key }, true, [])
  update m generated start_cluster =
      (record m { state = waiting generated }, true, start_raft generated ∷ [])
  update m generated join_cluster = joined m (from_str_radix m.session_key)
  update m generated clear_storage = (m, true, clear_items ∷ alert_cleared ∷ [])
  update m generated (cluster_started raft) = (record m { state = running raft }, true, [])

  -- The task of `start_raft`, from what `Raft::start` gives to its message.
  unfoldable pub started : Option Raft → Outcome (Msg Raft)
  started raft = unwrap raft >>= λ r. ok (cluster_started (some r))

-- `split_once`
unfoldable pub split_once : ℕ → Str → Option (Str × Str)
split_once p [] = none
split_once p (c ∷ cs) =
    let rest = split_once p cs in
    if c == p then some ([], cs) else elim rest [ none ↦ none | some r ↦ some (c ∷ r.0, r.1) ]

abbrev pub split_or : Str → Option (Str × Str) → Str × Str
split_or hostname none = (hostname, [])
split_or hostname (some r) = r

unfoldable pub same : Str → Str → Bool
same [] [] = true
same [] (c ∷ cs) = false
same (c ∷ cs) [] = false
same (c ∷ cs) (d ∷ ds) = c == d && same cs ds

-- `filter(|&t| t != &me)`
unfoldable pub others : Str → List Str → List Str
unfolding same
others me [] = []
others me (t ∷ ts) = let rest = others me ts in if same t me then rest else t ∷ rest

-- "wraft0" and so on
abbrev pub target : ℕ → Str
target n = 119 ∷ 114 ∷ 97 ∷ 102 ∷ 116 ∷ (48 + n) ∷ []

abbrev pub all_targets : List Str
all_targets = target 0 ∷ target 1 ∷ target 2 ∷ []

-- "https://"
abbrev pub scheme : Str
scheme = 104 ∷ 116 ∷ 116 ∷ 112 ∷ 115 ∷ 58 ∷ 47 ∷ 47 ∷ []

abbrev pub link_to : Str → Str → ℕ → Str → Str
link_to domain path key t =
    (scheme ++ t ++ (dot ∷ []) ++ domain ++ path) ++ hash_sign ∷ format_key key

-- The links of `other_cluster_members`.
unfoldable pub other_cluster_members : Str → Str → ℕ → List Str
unfolding split_once others
other_cluster_members hostname path key =
    let (me, domain) = split_or hostname (split_once dot hostname) in
    map (link_to domain path key) (others me all_targets)

-- `render_setup`, with the number of items in the storage.
pub record Setup (Raft : Type 0) : Type 0 where
  pub onclick_start : Msg Raft
  pub value : Str
  pub oninput : Str → Msg Raft
  pub onkeypress : Bool → Option (Msg Raft)
  pub onclick_clear : Msg Raft
  pub items : ℕ

-- What `view` draws: of `render_waiting` the key and the links, of `render_running` what the
-- component gets.
pub data View (Raft : Type 0) : Type 0 where
  render_setup : Setup Raft → View Raft
  render_waiting : Str → List Str → View Raft
  render_running : Wrapper Raft → View Raft

module _ {Raft : Type 0} where
  -- `e.key() == "Enter"`
  abbrev pub join_on : Bool → Option (Msg Raft)
  join_on true = some join_cluster
  join_on false = none

  abbrev pub view_state : Str → Str → ℕ → Model Raft → State Raft → View Raft
  view_state hostname path items m setup = render_setup (record {
    onclick_start = start_cluster;
    value = m.session_key;
    oninput = update_session_key;
    onkeypress = join_on;
    onclick_clear = clear_storage;
    items = items;
  })
  view_state hostname path items m (waiting key) =
      render_waiting (format_key key) (other_cluster_members hostname path key)
  view_state hostname path items m (running raft) = render_running raft

  -- `view`, in a window with a host, a path and a number of stored items.
  unfoldable pub view : Str → Str → ℕ → Model Raft → View Raft
  unfolding other_cluster_members digits
  view hostname path items m = view_state hostname path items m m.state
