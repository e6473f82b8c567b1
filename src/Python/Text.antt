-- ===== src/Python/Text.antt =====
-- Python's `str` methods: `encode` and `decode`, `ljust`, `rjust` and `strip`.
use Prim.Native.Char.{code}
use Prim.Native.String.{String}
use mathlib.Core.Logic.{◌↔◌}
use nasdaq_protocols.Prelude.{
  ℕ, zero, suc, ◌-◌, ◌≤◌, ◌<◌, ◌≡◌, refl, ap, ◌∙◌, inl, inr, Bool, true, false, ◌&&◌, ◌||◌, List,
  [], ◌∷◌, ◌++◌, append-nil, arith, ltb, leb, ◌==◌, if◌then◌else◌, Bool-cases, Result, ok, raised,
  unicode_error, ◌>>=◌, length, length-append, replicate, length-replicate, All, All-append,
}
use nasdaq_protocols.Python.Bytes.{Bytes}

abbrev pub Str : Type 0
Str = List ℕ

-- The code points of a literal.
abbrev pub codes : String → Str
codes String.[] = []
codes (String.◌∷◌ c s) = code c ∷ codes s

-- s == t
unfoldable pub str_equal : Str → Str → Bool
str_equal [] [] = true
str_equal (a ∷ s) (b ∷ t) = (a == b) && str_equal s t
str_equal s t = false

pub str_equal_iff : (s t : Str) → (str_equal s t ≡ true) ↔ (s ≡ t)
unfolding str_equal
str_equal_iff [] [] = ground arith
str_equal_iff [] (b ∷ t) = ground arith
str_equal_iff (a ∷ s) [] = ground arith
str_equal_iff (a ∷ s) (b ∷ t) = ground (arith, str_equal_iff s t)

pub data Encoding : Type 0 where
  ascii iso8859_1 : Encoding

abbrev pub code_limit : Encoding → ℕ
code_limit ascii = 128
code_limit iso8859_1 = 256

-- A code point above the limit raises UnicodeEncodeError, such a byte UnicodeDecodeError. Below it
-- byte and code point agree, in both encodings.
unfoldable pub transcode : Encoding → List ℕ → Result (List ℕ)
transcode e [] = ok []
transcode e (c ∷ cs) = do
  rest ← transcode e cs
  if ltb c (code_limit e) then ok (c ∷ rest) else raised unicode_error

abbrev pub encode : Encoding → Str → Result Bytes
encode e s = transcode e s

abbrev pub decode : Encoding → Bytes → Result Str
decode e bs = transcode e bs

abbrev pub IsEncodable : Encoding → List ℕ → Type 0
IsEncodable e s = All (λ c. c < code_limit e) s

pub transcode_lem : (e : Encoding) (s : List ℕ) → IsEncodable e s → transcode e s ≡ ok s
unfolding transcode
transcode_lem e [] h = refl
transcode_lem e (c ∷ cs) h = rw (transcode_lem e cs h.1) (ground (arith, h.0))

pub transcode-IsEncodable :
    (e : Encoding) (s t : List ℕ) → transcode e s ≡ ok t → IsEncodable e s × (t ≡ s)
unfolding transcode
transcode-IsEncodable e [] t h = (tt, cc)
transcode-IsEncodable e (c ∷ cs) [] h = ground arith
transcode-IsEncodable e (c ∷ cs) (d ∷ ds) h = ground (arith, transcode-IsEncodable e cs ds)

-- s.ljust(n) and s.rjust(n)
unfoldable pub ljust : ℕ → Str → Str
ljust n s = s ++ replicate (n - length s) 32

unfoldable pub rjust : ℕ → Str → Str
rjust n s = replicate (n - length s) 32 ++ s

pub length-ljust : (n : ℕ) (s : Str) → length s ≤ n → length (ljust n s) ≡ n
unfolding ljust
length-ljust n s h = omega (
  arith,
  length-append s (replicate (n - length s) 32),
  length-replicate {A = ℕ} (n - length s) 32,
)

pub length-rjust : (n : ℕ) (s : Str) → length s ≤ n → length (rjust n s) ≡ n
unfolding rjust
length-rjust n s h = omega (
  arith,
  length-append (replicate (n - length s) 32) s,
  length-replicate {A = ℕ} (n - length s) 32,
)

pub All-replicate {κ} : (P : ℕ → Type κ) (n c : ℕ) → P c → All P (replicate n c)
All-replicate P zero c h = tt
All-replicate P (suc n) c h = (h, All-replicate P n c h)

pub ljust-IsEncodable :
    (e : Encoding) (n : ℕ) (s : Str) → IsEncodable e s → IsEncodable e (ljust n s)
unfolding ljust
ljust-IsEncodable e n s h =
    All-append (λ c. c < code_limit e) s (replicate (n - length s) 32) h
      (All-replicate (λ c. c < code_limit e) (n - length s) 32 (blank e))
  where
    blank : (e : Encoding) → 32 < code_limit e
    blank ascii = omega arith
    blank iso8859_1 = omega arith

pub rjust-IsEncodable :
    (e : Encoding) (n : ℕ) (s : Str) → IsEncodable e s → IsEncodable e (rjust n s)
unfolding rjust
rjust-IsEncodable e n s h =
    All-append (λ c. c < code_limit e) (replicate (n - length s) 32) s
      (All-replicate (λ c. c < code_limit e) (n - length s) 32 (blank e)) h
  where
    blank : (e : Encoding) → 32 < code_limit e
    blank ascii = omega arith
    blank iso8859_1 = omega arith

-- What `str.strip()` takes off, among the code points below 256.
unfoldable pub is_space : ℕ → Bool
is_space c = (leb 9 c && leb c 13) || (leb 28 c && leb c 32) || (c == 0x85) || (c == 0xa0)

-- What `int()` skips on both sides.
unfoldable pub is_int_space : ℕ → Bool
is_int_space c = (leb 9 c && leb c 13) || (c == 32)

-- bytes_.strip(b' \x00')
unfoldable pub is_blank_or_nul : ℕ → Bool
is_blank_or_nul c = (c == 32) || (c == 0)

module _ (p : ℕ → Bool) where
  unfoldable pub lstrip : List ℕ → List ℕ
  lstrip [] = []
  lstrip (c ∷ cs) = let rest = lstrip cs in if p c then rest else c ∷ cs

  abbrev pub trim : Bool → ℕ → List ℕ → List ℕ
  trim true c [] = []
  trim true c (d ∷ ds) = c ∷ d ∷ ds
  trim false c ds = c ∷ ds

  unfoldable pub rstrip : List ℕ → List ℕ
  rstrip [] = []
  rstrip (c ∷ cs) = trim (p c) c (rstrip cs)

  unfoldable pub strip : List ℕ → List ℕ
  unfolding lstrip rstrip
  strip s = rstrip (lstrip s)

  -- Nothing to take off on either side.
  pub record IsTrimmed (s : List ℕ) : Type 0 where
    pub left : lstrip s ≡ s
    pub right : rstrip s ≡ s

module _ (p : ℕ → Bool) where
  pub IsTrimmed-of_none : (s : List ℕ) → All (λ c. p c ≡ false) s → IsTrimmed p s
  unfolding lstrip rstrip
  IsTrimmed-of_none [] h = record { left = refl; right = refl }
  IsTrimmed-of_none (c ∷ cs) h = record {
    left = rw h.0;
    right = rw h.0 (ap (λ (t : List ℕ). c ∷ t) (IsTrimmed-of_none cs h.1).right);
  }

  length-lstrip : (s : List ℕ) → length (lstrip p s) ≤ length s
  unfolding lstrip
  length-lstrip [] = omega arith
  length-lstrip (c ∷ cs) = ground (arith, length-lstrip cs)

  trimmed_head : (c : ℕ) (cs : List ℕ) → lstrip p (c ∷ cs) ≡ c ∷ cs → p c ≡ false
  unfolding lstrip
  trimmed_head c cs h = elim (Bool-cases (p c)) [
    | inl t ↦ absurd (omega (arith, ap (λ (l : List ℕ). length l) (rw t at h), length-lstrip cs))
    | inr f ↦ f
  ]

  lstrip-replicate :
      (n c : ℕ) (s : List ℕ) → p c ≡ true → lstrip p (replicate n c ++ s) ≡ lstrip p s
  unfolding lstrip
  lstrip-replicate zero c s h = refl
  lstrip-replicate (suc n) c s h = rw h (lstrip-replicate n c s h)

  rstrip-replicate : (n c : ℕ) → p c ≡ true → rstrip p (replicate n c) ≡ []
  unfolding rstrip
  rstrip-replicate zero c h = refl
  rstrip-replicate (suc n) c h = rw (rstrip-replicate n c h) (rw h)

  rstrip-append : (s : List ℕ) (n c : ℕ) → p c ≡ true → rstrip p (s ++ replicate n c) ≡ rstrip p s
  unfolding rstrip
  rstrip-append [] n c h = rstrip-replicate n c h
  rstrip-append (d ∷ s) n c h = rw (rstrip-append s n c h)

  -- Padding by what `strip` takes off is taken off again.
  pub strip-append :
      (s : List ℕ) (n c : ℕ) → p c ≡ true → IsTrimmed p s → strip p (s ++ replicate n c) ≡ s
  unfolding strip
  strip-append [] n c h t =
      rw (← append-nil (replicate n c))
        (rw (lstrip-replicate n c [] h) (unfold lstrip rstrip in refl))
  strip-append (d ∷ s) n c h t =
      rw (untouched d (s ++ replicate n c) (trimmed_head d s t.left))
        (rstrip-append (d ∷ s) n c h ∙ t.right)
    where
      untouched : (d : ℕ) (s : List ℕ) → p d ≡ false → lstrip p (d ∷ s) ≡ d ∷ s
      untouched d s f = unfold lstrip in rw f

  pub strip-prepend :
      (s : List ℕ) (n c : ℕ) → p c ≡ true → IsTrimmed p s → strip p (replicate n c ++ s) ≡ s
  unfolding strip
  strip-prepend s n c h t = rw (lstrip-replicate n c s h) (rw t.left t.right)

pub strip-ljust : (n : ℕ) (s : Str) → IsTrimmed is_space s → strip is_space (ljust n s) ≡ s
unfolding ljust
strip-ljust n s t = strip-append is_space s (n - length s) 32 (unfold is_space in refl) t

pub strip-rjust : (n : ℕ) (s : Str) → IsTrimmed is_space s → strip is_space (rjust n s) ≡ s
unfolding rjust
strip-rjust n s t = strip-prepend is_space s (n - length s) 32 (unfold is_space in refl) t
