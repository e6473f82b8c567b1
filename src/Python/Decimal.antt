-- ===== src/Python/Decimal.antt =====
-- `str(int)` and `int(...)` in base ten. CPython's limit of 4300 digits is not modelled.
use nasdaq_protocols.Prelude.{
  ℕ, zero, suc, ◌+◌, ◌-◌, ◌*◌, ◌/◌, ◌%◌, ◌≤◌, ◌<◌, ◌≡◌, Bool, true, false, ◌&&◌, Option, none, some,
  List, [], ◌∷◌, ◌++◌, append_assoc, append-nil, arith, ltb, leb, ◌==◌, if◌then◌else◌, ℤ, pos,
  negsuc, Result, ok, raised, value_error, All, All-append,
}
use nasdaq_protocols.Python.Text.{
  Str, strip, is_int_space, is_blank_or_nul, ascii, IsEncodable, IsTrimmed, IsTrimmed-of_none,
}

unfoldable pub digits : ℕ → ℕ → Str
digits zero n = []
digits (suc fuel) n =
    let front = digits fuel (n / 10) in
    if ltb n 10 then (48 + n) ∷ [] else front ++ (48 + n % 10) ∷ []

-- str(n) of a natural number, and of an integer
unfoldable pub str_nat : ℕ → Str
unfolding digits
str_nat n = digits (suc n) n

unfoldable pub str_int : ℤ → Str
unfolding str_nat
str_int (pos n) = str_nat n
str_int (negsuc n) = b'-' ∷ str_nat (suc n)

unfoldable pub is_digit : ℕ → Bool
is_digit c = leb 48 c && leb c 57

-- The digits of a literal: single `_` may stand between two digits.
unfoldable pub read_digits : Bool → ℕ → Str → Option ℕ
unfolding is_digit
read_digits after_digit acc [] = if after_digit then some acc else none
read_digits after_digit acc (c ∷ cs) =
    let more = read_digits true (acc * 10 + (c - 48)) cs in
    let skipped = read_digits false acc cs in
    if is_digit c then more else if after_digit && (c == b'_') then skipped else none

abbrev pub as_int : (ℕ → ℤ) → Option ℕ → Result ℤ
as_int f none = raised value_error
as_int f (some n) = ok (f n)

abbrev pub negated : ℕ → ℤ
negated zero = pos 0
negated (suc n) = negsuc n

unfoldable pub read_signed : Str → Result ℤ
unfolding read_digits
read_signed [] = raised value_error
read_signed (c ∷ cs) =
    if c == b'-'
    then as_int negated (read_digits false 0 cs)
    else if c == b'+'
    then as_int pos (read_digits false 0 cs)
    else as_int pos (read_digits false 0 (c ∷ cs))

-- int(s), of an ASCII `str` or of `bytes`
unfoldable pub parse_int : Str → Result ℤ
unfolding read_signed strip is_int_space
parse_int s = read_signed (strip is_int_space s)

abbrev pub IsDigit : ℕ → Type 0
IsDigit c = (48 ≤ c) × (c ≤ 57)

digits-IsDigit : (fuel n : ℕ) → All IsDigit (digits fuel n)
unfolding digits
digits-IsDigit zero n = tt
digits-IsDigit (suc fuel) n = ground (
  arith,
  All-append IsDigit (digits fuel (n / 10)) ((48 + n % 10) ∷ []) (digits-IsDigit fuel (n / 10))
      (omega arith),
)

read_digits-digits :
    (fuel n : ℕ) (b : Bool) (rest : Str)
    → n < fuel
    → read_digits b 0 (digits fuel n ++ rest) ≡ read_digits true n rest
unfolding digits read_digits
read_digits-digits zero n b rest h = absurd (omega arith)
read_digits-digits (suc fuel) n b rest h = ground (
  arith,
  append_assoc (digits fuel (n / 10)) ((48 + n % 10) ∷ []) rest,
  read_digits-digits fuel (n / 10) b ((48 + n % 10) ∷ rest),
)

pub str_nat-IsDigit : (n : ℕ) → All IsDigit (str_nat n)
unfolding str_nat
str_nat-IsDigit n = digits-IsDigit (suc n) n

read_digits-str_nat : (n : ℕ) → read_digits false 0 (str_nat n) ≡ some n
unfolding str_nat read_digits
read_digits-str_nat n =
    rw (← append-nil (digits (suc n) n)) (read_digits-digits (suc n) n false [] (omega arith))

read_signed-digits :
    (s : Str) (n : ℕ) → All IsDigit s → read_digits false 0 s ≡ some n → read_signed s ≡ ok (pos n)
unfolding read_signed
read_signed-digits [] n d h = ground arith
read_signed-digits (c ∷ cs) n d h = ground arith

read_signed-str_int : (z : ℤ) → read_signed (str_int z) ≡ ok z
unfolding str_int
read_signed-str_int (pos n) =
    read_signed-digits (str_nat n) n (str_nat-IsDigit n) (read_digits-str_nat n)
read_signed-str_int (negsuc n) = unfold read_signed in rw (read_digits-str_nat (suc n))

pub All-map {ℓ κ} :
    (P : ℕ → Type ℓ) (Q : ℕ → Type κ) (s : List ℕ) → ((c : ℕ) → P c → Q c) → All P s → All Q s
All-map P Q [] f h = tt
All-map P Q (c ∷ cs) f h = (f c h.0, All-map P Q cs f h.1)

-- The characters that `str` of an integer writes.
abbrev pub IsIntChar : ℕ → Type 0
IsIntChar c = (45 ≤ c) × (c ≤ 57)

pub str_int-IsIntChar : (z : ℤ) → All IsIntChar (str_int z)
unfolding str_int
str_int-IsIntChar (pos n) =
    All-map IsDigit IsIntChar (str_nat n) (λ c h. omega arith) (str_nat-IsDigit n)
str_int-IsIntChar (negsuc n) = (
  omega arith,
  All-map IsDigit IsIntChar (str_nat (suc n)) (λ c h. omega arith) (str_nat-IsDigit (suc n)),
)

-- `str` of an integer is ASCII text that no `strip` shortens.
pub str_int-IsEncodable : (z : ℤ) → IsEncodable ascii (str_int z)
str_int-IsEncodable z =
    All-map IsIntChar (λ c. c < 128) (str_int z) (λ c h. omega arith) (str_int-IsIntChar z)

pub str_int-IsTrimmed : (z : ℤ) → IsTrimmed is_blank_or_nul (str_int z)
str_int-IsTrimmed z = IsTrimmed-of_none is_blank_or_nul (str_int z) (
    All-map IsIntChar (λ c. is_blank_or_nul c ≡ false) (str_int z)
      (λ c h. unfold is_blank_or_nul in ground arith) (str_int-IsIntChar z))

-- `int` reads back what `str` wrote.
pub parse_int-str_int : (z : ℤ) → parse_int (str_int z) ≡ ok z
unfolding parse_int
parse_int-str_int z =
    let t : IsTrimmed is_int_space (str_int z) = IsTrimmed-of_none is_int_space (str_int z) (
      All-map IsIntChar (λ c. is_int_space c ≡ false) (str_int z)
        (λ c h. unfold is_int_space in ground arith) (str_int-IsIntChar z)) in
    rw (t.left, t.right) (read_signed-str_int z)
