-- ===== src/App/Startup/Links.antt =====
-- The links of raft_init.rs, and the window that opens one.
use wraft.Base.{
  ◌/◌, ◌%◌, zero, suc, ◌⊎◌, ◌≤◌, inr, inl, Bool-cases, ◌≢◌, ℕ, ◌<◌, ◌^◌, ◌≡◌, refl, Option, some,
  List, [], ◌∷◌, ◌++◌, arith, All, map,
}
use wraft.Todo.{Str}
use wraft.App.Startup.{
  suc, digits, digit, true, view, render_waiting, format_key, hash_sign, dot, get_session_key,
  Model, waiting, start_raft, create, split_once, split_or, same, others, scheme, all_targets,
  link_to, other_cluster_members, update_session_key, join_cluster, update,
}
use wraft.App.Startup.Hex.{format_key-some, from_str_radix-format_key}

-- A digit as `{:x}` writes it.
abbrev pub IsHexDigit : ℕ → Type 0
IsHexDigit c = ((48 ≤ c) × (c ≤ 57)) ⊎ ((97 ≤ c) × (c ≤ 102))

-- `location().hash()` of a window with an address that has a fragment of such digits is the
-- fragment with its sign; `IsAddress` holds of the absolute addresses without a fragment.
abbrev pub IsFragment : (Str → Type 0) → (Str → Option Str) → Type 0
IsFragment IsAddress hash =
    (address rest : Str)
    → IsAddress address
    → All IsHexDigit rest
    → rest ≢ []
    → hash (address ++ hash_sign ∷ rest) ≡ some (hash_sign ∷ rest)

-- The address of a link, without its fragment.
abbrev pub page_of : Str → Str → Str → Str
page_of domain path t = scheme ++ t ++ (dot ∷ []) ++ domain ++ path

abbrev pub domain_of : Str → Str
domain_of hostname = (split_or hostname (split_once dot hostname)).1

digit-IsHexDigit : (d : ℕ) → d < 16 → IsHexDigit (digit d)
digit-IsHexDigit d h = ground arith

digits_on : (xs ys : Str) → All IsHexDigit xs → All IsHexDigit ys → All IsHexDigit (xs ++ ys)
digits_on [] ys h g = g
digits_on (x ∷ xs) ys (first, h) g = (first, digits_on xs ys h g)

digits-IsHexDigit : (n key : ℕ) → All IsHexDigit (digits n key)
unfolding digits
digits-IsHexDigit zero key = tt
digits-IsHexDigit (suc n) key =
    digits_on (digits n (key / 16)) (digit (key % 16) ∷ []) (digits-IsHexDigit n (key / 16))
      (digit-IsHexDigit (key % 16) (omega arith), tt)

module _ (Raft : Type 0) where
  -- The window waits for the cluster of the session.
  abbrev pub Joins : ℕ → Option ℕ → Type 0
  Joins key given =
      create {Raft = Raft} given
      ≡ (record { session_key = []; state = waiting key }, start_raft key ∷ [])

  link_to-Joins :
      (IsAddress : Str → Type 0) (hash : Str → Option Str) (t domain path : Str) (key : ℕ)
      → IsFragment IsAddress hash
      → IsAddress (page_of domain path t)
      → key < 2 ^ 128
      → Joins key (get_session_key (hash (link_to domain path key t)))
  unfolding create
  link_to-Joins IsAddress hash t domain path key fragment address small =
      let given : hash (link_to domain path key t) ≡ some (hash_sign ∷ format_key key) =
        fragment (page_of domain path t) (format_key key) address (digits-IsHexDigit 32 key)
          (format_key-some key) in
      rw given (rw (from_str_radix-format_key key small) refl)

  links_to-Joins :
      (IsAddress : Str → Type 0) (hash : Str → Option Str) (me domain path : Str) (key : ℕ)
      (ts : List Str)
      → IsFragment IsAddress hash
      → key < 2 ^ 128
      → All (λ t. IsAddress (page_of domain path t)) ts
      → All
          (λ link. Joins key (get_session_key (hash link)))
          (map (link_to domain path key) (others me ts))
  unfolding others
  links_to-Joins IsAddress hash me domain path key [] fragment small valid = tt
  links_to-Joins IsAddress hash me domain path key (t ∷ ts) fragment small (first, valid) =
      let rest = links_to-Joins IsAddress hash me domain path key ts fragment small valid in
      elim (Bool-cases (same t me)) [
        | inl own ↦ rw own rest
        | inr other ↦
            rw other (link_to-Joins IsAddress hash t domain path key fragment first small, rest)
      ]

  -- With a browser that gives the fragment of an address when it is of hexadecimal digits, and with
  -- links to addresses: the page of a node that waits for the cluster of a key of 128 bits shows the
  -- key, and links; a window that opens one of the links waits for the cluster of the same key and
  -- starts its node with it, and so does one whose user types the key as it is shown and joins.
  pub links_join :
      (IsAddress : Str → Type 0) (hash : Str → Option Str) (hostname path : Str)
      (items generated key : ℕ) (m other : Model Raft)
      → IsFragment IsAddress hash
      → All (λ t. IsAddress (page_of (domain_of hostname) path t)) all_targets
      → key < 2 ^ 128
      → m.state ≡ waiting key
      → (shown : Str) × (links : List Str) × (view hostname path items m
          ≡ render_waiting shown links)
        × All (λ link. Joins key (get_session_key (hash link))) links
        × (update (update other generated (update_session_key shown)).0 generated join_cluster
            ≡ (record { session_key = shown; state = waiting key }, true, start_raft key ∷ []))
  unfolding other_cluster_members view update
  links_join IsAddress hash hostname path items generated key m other fragment valid small waits =
      let r = split_or hostname (split_once dot hostname) in
      (
        format_key key,
        other_cluster_members hostname path key,
        rw waits refl,
        links_to-Joins IsAddress hash r.0 r.1 path key all_targets fragment small valid,
        rw (from_str_radix-format_key key small) refl,
      )
