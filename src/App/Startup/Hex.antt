-- ===== src/App/Startup/Hex.antt =====
-- Session keys as text in raft_init.rs and lib.rs.
use wraft.Base.{
  Option-cases, inl, inr, ap, inr, Option-cases, inl, ap, ℕ, zero, suc, ◌+◌, ◌*◌, ◌/◌, ◌%◌, ◌^◌,
  ◌<◌, ◌≡◌, ◌≢◌, refl, some, [], ◌∷◌, ◌++◌, arith, ◌∙◌,
}
use wraft.Todo.{Str}
use wraft.App.Startup.{to_digit, from_digits, from_str_radix, digit, digits, format_key}

to_digit-digit : (d : ℕ) → d < 16 → to_digit (digit d) ≡ some d
unfolding to_digit
to_digit-digit d small = ground arith

div-fits : (k n : ℕ) → n < 16 ^ suc k → n / 16 < 16 ^ k
div-fits k n fits = omega (arith, fits)

from_digits-snoc :
    (n a c d : ℕ) (cs : Str)
    → from_digits n cs ≡ some a
    → to_digit c ≡ some d
    → a * 16 + d < 2 ^ 128
    → from_digits n (cs ++ c ∷ []) ≡ some (a * 16 + d)
unfolding from_digits
from_digits-snoc n a c d [] read known fits = ground arith
from_digits-snoc n a c d (x ∷ cs) read known fits = elim (Option-cases (to_digit x)) [
  | inl bad ↦ ground (arith, bad)
  | inr (e, good) ↦ ground (arith, good, from_digits-snoc (n * 16 + e) a c d cs)
]

from_digits-digits : (k n : ℕ) → n < 16 ^ k → n < 2 ^ 128 → from_digits 0 (digits k n) ≡ some n
unfolding digits from_digits
from_digits-digits zero n fits small = ground arith
from_digits-digits (suc k) n fits small =
    let upper = from_digits-digits k (n / 16) (div-fits k n fits) (omega arith) in
    let whole : n / 16 * 16 + n % 16 ≡ n = omega arith in
    from_digits-snoc 0 (n / 16) (digit (n % 16)) (n % 16) (digits k (n / 16)) upper
      (to_digit-digit (n % 16) (omega arith)) (omega arith)
    ∙ ap (λ m. some m) whole

from_str_radix-digits :
    (cs : Str) (n : ℕ) → cs ≢ [] → from_digits 0 cs ≡ some n → from_str_radix cs ≡ some n
unfolding from_str_radix from_digits to_digit
from_str_radix-digits [] n some_digit read = absurd (some_digit refl)
from_str_radix-digits (c ∷ cs) n some_digit read = ground arith

snoc_some : (xs : Str) (c : ℕ) → xs ++ c ∷ [] ≢ []
snoc_some [] c = λ h. cc
snoc_some (x ∷ xs) c = λ h. cc

pub format_key-some : (key : ℕ) → format_key key ≢ []
unfolding digits
format_key-some key = snoc_some (digits 31 (key / 16)) (digit (key % 16))

pub from_str_radix-format_key :
    (key : ℕ) → key < 2 ^ 128 → from_str_radix (format_key key) ≡ some key
from_str_radix-format_key key small =
    from_str_radix-digits (format_key key) key (format_key-some key)
      (from_digits-digits 32 key (omega arith) small)
