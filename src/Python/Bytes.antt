-- ===== src/Python/Bytes.antt =====
-- `int.to_bytes` and `int.from_bytes`, in both byte orders, signed and unsigned.
use nasdaq_protocols.Prelude.{
  ℕ, zero, suc, ◌+◌, ◌-◌, ◌*◌, ◌/◌, ◌%◌, ◌^◌, ◌<◌, ◌≡◌, refl, ap, Bool, true, false, List, [], ◌∷◌,
  arith, ltb, if◌then◌else◌, ℤ, pos, negsuc, Result, ok, raised, overflow_error, length,
  length-append, All, ◌>>=◌, >>=-eq-ok, reverse,
}
use mathlib.Core.List.{reverse-append, reverse-reverse}
use native.Mathlib.Nat.{pow-suc, mul_comm}

abbrev pub Bytes : Type 0
Bytes = List ℕ

abbrev pub IsByte : ℕ → Type 0
IsByte b = b < 256

-- The `size` low bytes of `n`, lowest first, and the number that such bytes stand for.
unfoldable pub le_bytes : ℕ → ℕ → Bytes
le_bytes zero n = []
le_bytes (suc size) n = (n % 256) ∷ le_bytes size (n / 256)

unfoldable pub le_value : Bytes → ℕ
le_value [] = 0
le_value (b ∷ bs) = b + 256 * le_value bs

pub data Endian : Type 0 where
  little big : Endian

-- One byte order or the other, over the bytes that stand lowest first.
unfoldable pub ordered : Endian → Bytes → Bytes
ordered little bs = bs
ordered big bs = reverse bs

-- The pattern of an integer on `size` bytes, for a value in range: two's complement when signed.
unfoldable pub int_pattern : Bool → ℕ → ℤ → Result ℕ
int_pattern true size (pos n) = if ltb (2 * n) (256 ^ size) then ok n else raised overflow_error
int_pattern true size (negsuc n) =
    if ltb (2 * n) (256 ^ size) then ok (256 ^ size - n - 1) else raised overflow_error
int_pattern false size (pos n) = if ltb n (256 ^ size) then ok n else raised overflow_error
int_pattern false size (negsuc n) = raised overflow_error

-- The integer of a pattern on `size` bytes.
unfoldable pub pattern_int : Bool → ℕ → ℕ → ℤ
pattern_int true size w = if ltb (2 * w) (256 ^ size) then pos w else negsuc (256 ^ size - w - 1)
pattern_int false size w = pos w

-- value.to_bytes(size, endian, signed=signed)
unfoldable pub to_bytes : Endian → Bool → ℕ → ℤ → Result Bytes
unfolding int_pattern le_bytes ordered
to_bytes endian signed size value = do
  w ← int_pattern signed size value
  ok (ordered endian (le_bytes size w))

-- int.from_bytes(value, endian, signed=signed); the size is the length of what is given
unfoldable pub from_bytes : Endian → Bool → Bytes → ℤ
unfolding pattern_int le_value ordered
from_bytes endian signed bs = pattern_int signed (length bs) (le_value (ordered endian bs))

pub length-le_bytes : (size n : ℕ) → length (le_bytes size n) ≡ size
unfolding le_bytes
length-le_bytes zero n = refl
length-le_bytes (suc size) n = ap suc (length-le_bytes size (n / 256))

pub le_bytes-IsByte : (size n : ℕ) → All IsByte (le_bytes size n)
unfolding le_bytes
le_bytes-IsByte zero n = tt
le_bytes-IsByte (suc size) n = (omega arith, le_bytes-IsByte size (n / 256))

pow_256 : (size : ℕ) → 256 ^ suc size ≡ 256 * 256 ^ size
pow_256 size = rw pow-suc (mul_comm _ _)

pub le_value-le_bytes : (size n : ℕ) → n < 256 ^ size → le_value (le_bytes size n) ≡ n
unfolding le_bytes le_value
le_value-le_bytes zero n h = omega arith
le_value-le_bytes (suc size) n h =
    omega (arith, le_value-le_bytes size (n / 256) (omega (arith, pow_256 size)))

pub le_value-lt : (bs : Bytes) → All IsByte bs → le_value bs < 256 ^ length bs
unfolding le_value
le_value-lt [] h = omega arith
le_value-lt (b ∷ bs) h = omega (arith, le_value-lt bs h.1, pow_256 (length bs))

pub length-reverse {ℓ} : {A : Type ℓ} (xs : List A) → length (reverse xs) ≡ length xs
length-reverse [] = refl
length-reverse (x ∷ xs) =
    rw (reverse-append (x ∷ []) xs) (rw length-append (omega (arith, length-reverse xs)))

pub length-ordered : (e : Endian) (bs : Bytes) → length (ordered e bs) ≡ length bs
unfolding ordered
length-ordered little bs = refl
length-ordered big bs = length-reverse bs

pub ordered-ordered : (e : Endian) (bs : Bytes) → ordered e (ordered e bs) ≡ bs
unfolding ordered
ordered-ordered little bs = refl
ordered-ordered big bs = reverse-reverse bs

int_pattern-lt :
    (signed : Bool) (size : ℕ) (v : ℤ) (w : ℕ) → int_pattern signed size v ≡ ok w → w < 256 ^ size
unfolding int_pattern
int_pattern-lt true size (pos n) w h = ground arith
int_pattern-lt true size (negsuc n) w h = ground arith
int_pattern-lt false size (pos n) w h = ground arith
int_pattern-lt false size (negsuc n) w h = cc

pattern_int-int_pattern :
    (signed : Bool) (size : ℕ) (v : ℤ) (w : ℕ)
    → int_pattern signed (suc size) v ≡ ok w
    → pattern_int signed (suc size) w ≡ v
unfolding int_pattern pattern_int
pattern_int-int_pattern true size (pos n) w h = ground arith
pattern_int-int_pattern true size (negsuc n) w h = ground (arith, pow_256 size)
pattern_int-int_pattern false size (pos n) w h = ground arith
pattern_int-int_pattern false size (negsuc n) w h = cc

-- What `to_bytes` returns has the size asked for, and `from_bytes` reads the integer back from it.
pub length-to_bytes :
    (e : Endian) (signed : Bool) (size : ℕ) (v : ℤ) (bs : Bytes)
    → to_bytes e signed size v ≡ ok bs
    → length bs ≡ size
unfolding to_bytes
length-to_bytes e signed size v bs h =
    let (w, _, p) = >>=-eq-ok (int_pattern signed size v) _ h in
    ground (arith, p, length-ordered e (le_bytes size w), length-le_bytes size w)

pub from_bytes-to_bytes :
    (e : Endian) (signed : Bool) (size : ℕ) (v : ℤ) (bs : Bytes)
    → to_bytes e signed (suc size) v ≡ ok bs
    → from_bytes e signed bs ≡ v
unfolding to_bytes from_bytes
from_bytes-to_bytes e signed size v bs h =
    let (w, in_range, p) = >>=-eq-ok (int_pattern signed (suc size) v) _ h in
    let q : bs ≡ ordered e (le_bytes (suc size) w) = cc in
    rw
      (
        q,
        length-ordered e (le_bytes (suc size) w),
        length-le_bytes (suc size) w,
        ordered-ordered e (le_bytes (suc size) w),
        le_value-le_bytes (suc size) w (int_pattern-lt signed (suc size) v w in_range),
      )
      (pattern_int-int_pattern signed size v w in_range)

-- int.from_bytes(value, endian) of a `bytes`, which is never negative
unfoldable pub unsigned_value : Endian → Bytes → ℕ
unfolding le_value ordered
unsigned_value endian bs = le_value (ordered endian bs)
