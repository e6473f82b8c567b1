-- ===== src/Python/Struct.antt =====
-- The formats of `struct` in use: `!h`, `c` and `Ns`.
use nasdaq_protocols.Prelude.{
  ℕ, ◌-◌, ◌/◌, ◌%◌, ◌≤◌, ◌<◌, ◌≡◌, true, [], ◌∷◌, ◌++◌, arith, ℤ, pos, Result, ok, raised,
  struct_error, length, take, replicate,
}
use nasdaq_protocols.Python.Bytes.{Bytes, big, to_bytes, from_bytes, from_bytes-to_bytes}

-- `struct.error` where the value does not fit the format
abbrev pub as_struct_error {ℓ} : {A : Type ℓ} → Result A → Result A
as_struct_error (ok a) = ok a
as_struct_error (raised e) = raised struct_error

-- '!h', a signed number on two bytes in network order
unfoldable pub pack_short : ℤ → Result Bytes
unfolding to_bytes
pack_short v = as_struct_error (to_bytes big true 2 v)

unfoldable pub unpack_short : Bytes → ℤ
unfolding from_bytes
unpack_short bs = from_bytes big true bs

-- 'Ns': cut to N bytes, and filled up with NUL
unfoldable pub pack_string : ℕ → Bytes → Bytes
pack_string n bs = take n bs ++ replicate (n - length bs) 0

-- The two bytes of a length, high byte first.
abbrev pub short_bytes : ℕ → Bytes
short_bytes n = (n / 256) ∷ (n % 256) ∷ []

to_bytes-pos : (n : ℕ) → n < 32768 → to_bytes big true 2 (pos n) ≡ ok (short_bytes n)
unfolding to_bytes
to_bytes-pos n h = let e : n / 256 % 256 ≡ n / 256 = omega arith in ground (arith, e)

pub pack_short_pos : (n : ℕ) → n < 32768 → pack_short (pos n) ≡ ok (short_bytes n)
pack_short_pos n h = unfold pack_short in rw (to_bytes-pos n h)

pub unpack_short_bytes : (n : ℕ) → n < 32768 → unpack_short (short_bytes n) ≡ pos n
unpack_short_bytes n h =
    unfold unpack_short in from_bytes-to_bytes big true 1 (pos n) (short_bytes n) (to_bytes-pos n h)

-- A length outside the signed range is refused.
pub pack_short_overflow : (n : ℕ) → 32768 ≤ n → pack_short (pos n) ≡ raised struct_error
unfolding pack_short
pack_short_overflow n h = ground arith
