-- ===== src/Python/Find.antt =====
-- Slices and searches in `bytes`.
use nasdaq_protocols.Prelude.{
  ℕ, suc, ◌-◌, ◌<◌, ◌≡◌, refl, inl, inr, ◌+◌, Bool, true, false, ◌&&◌, Option, none, some, [], ◌∷◌,
  ◌++◌, ◌==◌, if◌then◌else◌, take, drop, length, ◌≤◌, length-drop, drop-append_le, Bool-cases, All,
  arith, Option-cases,
}
use nasdaq_protocols.Python.Bytes.{Bytes}

-- bytes_[start:end], for bounds that are not negative
abbrev pub slice : ℕ → ℕ → Bytes → Bytes
slice start end bs = take (end - start) (drop start bs)

abbrev pub next_index : Option ℕ → Option ℕ
next_index none = none
next_index (some i) = some (suc i)

-- bytes_.find(c) for one byte; `none` is -1
unfoldable pub find_byte : ℕ → Bytes → Option ℕ
find_byte c [] = none
find_byte c (b ∷ bs) = if b == c then some 0 else next_index (find_byte c bs)

-- A byte that does not stand in front is found where it stands.
abbrev pub Lacks : ℕ → Bytes → Type 0
Lacks c bs = All (λ b. (b == c) ≡ false) bs

pub find_byte-append :
    (c : ℕ) (s rest : Bytes) → Lacks c s → find_byte c (s ++ c ∷ rest) ≡ some (length s)
unfolding find_byte
find_byte-append c [] rest h = ground arith
find_byte-append c (b ∷ s) rest h = rw (h.0, find_byte-append c s rest h.1)

pub find_byte-none : (c : ℕ) (s : Bytes) → Lacks c s → find_byte c s ≡ none
unfolding find_byte
find_byte-none c [] h = refl
find_byte-none c (b ∷ s) h = rw (h.0, find_byte-none c s h.1)

pub find_byte-lt : (c : ℕ) (s : Bytes) (i : ℕ) → find_byte c s ≡ some i → i < length s
unfolding find_byte
find_byte-lt c [] i h = cc
find_byte-lt c (b ∷ s) i h = elim (Option-cases (find_byte c s)) [
  | inl no_more ↦ ground arith
  | inr (j, found) ↦ ground (arith, find_byte-lt c s j found)
]

-- What is found stays found where it was, whatever bytes follow.
pub find_byte_stable :
    (c : ℕ) (s t : Bytes) (i : ℕ) → find_byte c s ≡ some i → find_byte c (s ++ t) ≡ some i
unfolding find_byte
find_byte_stable c [] t i h = cc
find_byte_stable c (b ∷ s) t i h = elim (Option-cases (find_byte c s)) [
  | inl no_more ↦ ground arith
  | inr (j, found) ↦ ground (arith, find_byte_stable c s t j found)
]

-- bytes_.find(c, start), and bytes_.find(pattern)
abbrev pub shifted : ℕ → Option ℕ → Option ℕ
shifted n none = none
shifted n (some i) = some (n + i)

unfoldable pub find_from : ℕ → ℕ → Bytes → Option ℕ
find_from c start bs = shifted start (find_byte c (drop start bs))

unfoldable pub starts_with : Bytes → Bytes → Bool
starts_with [] bs = true
starts_with (p ∷ ps) [] = false
starts_with (p ∷ ps) (b ∷ bs) = (p == b) && starts_with ps bs

unfoldable pub find_sub : Bytes → Bytes → Option ℕ
unfolding starts_with
find_sub pattern_ [] = if starts_with pattern_ [] then some 0 else none
find_sub pattern_ (b ∷ bs) =
    if starts_with pattern_ (b ∷ bs) then some 0 else next_index (find_sub pattern_ bs)

-- bytes_.endswith(c) for one byte
unfoldable pub ends_with : ℕ → Bytes → Bool
ends_with c [] = false
ends_with c (b ∷ []) = b == c
ends_with c (b ∷ d ∷ bs) = ends_with c (d ∷ bs)

pub ends_with-append : (c b : ℕ) (s t : Bytes) → ends_with c (s ++ b ∷ t) ≡ ends_with c (b ∷ t)
unfolding ends_with
ends_with-append c b [] t = refl
ends_with-append c b (d ∷ []) t = refl
ends_with-append c b (d ∷ e ∷ s) t = ends_with-append c b (e ∷ s) t

pub ends_with-Lacks : (c : ℕ) (s : Bytes) → Lacks c s → ends_with c s ≡ false
unfolding ends_with
ends_with-Lacks c [] h = refl
ends_with-Lacks c (b ∷ []) h = h.0
ends_with-Lacks c (b ∷ d ∷ bs) h = ends_with-Lacks c (d ∷ bs) h.1

pub find_from-lt :
    (c start : ℕ) (s : Bytes) (i : ℕ) → find_from c start s ≡ some i → (start ≤ i) × (i < length s)
unfolding find_from
find_from-lt c start s i h = elim (Option-cases (find_byte c (drop start s))) [
  | inl no_more ↦ absurd (cc (rw no_more at h))
  | inr (j, found) ↦
      let e : start + j ≡ i = ground (arith, rw found at h) in
      omega (arith, find_byte-lt c (drop start s) j found, length-drop start s)
]

pub find_from_stable :
    (c start : ℕ) (s t : Bytes) (i : ℕ)
    → find_from c start s ≡ some i
    → find_from c start (s ++ t) ≡ some i
find_from_stable c start s t i h =
    let bounds = find_from-lt c start s i h in
    unfold find_from in
    rw (drop-append_le start s t (omega arith)) (elim (Option-cases (find_byte c (drop start s))) [
      | inl no_more ↦ absurd (cc (rw no_more at h))
      | inr (j, found) ↦ rw (find_byte_stable c (drop start s) t j found) (rw found at h)
    ])

starts_with_stable : (p s t : Bytes) → starts_with p s ≡ true → starts_with p (s ++ t) ≡ true
unfolding starts_with
starts_with_stable [] s t h = refl
starts_with_stable (a ∷ p) [] t h = absurd (cc)
starts_with_stable (a ∷ p) (b ∷ s) t h = ground (arith, starts_with_stable p s t)

find_sub_here : (p s : Bytes) → starts_with p s ≡ true → find_sub p s ≡ some 0
unfolding find_sub
find_sub_here p [] h = rw h refl
find_sub_here p (b ∷ s) h = rw h refl

find_sub_nil : (p : Bytes) → starts_with p [] ≡ false → find_sub p [] ≡ none
unfolding find_sub
find_sub_nil p h = rw h refl

find_sub-none :
    (p : Bytes) (b : ℕ) (s : Bytes)
    → starts_with p (b ∷ s) ≡ false
    → find_sub p s ≡ none
    → find_sub p (b ∷ s) ≡ none
unfolding find_sub
find_sub-none p b s h k = rw (h, k) refl

find_sub_next :
    (p : Bytes) (b : ℕ) (s : Bytes) (j : ℕ)
    → find_sub p s ≡ some j
    → (k : ℕ) × (find_sub p (b ∷ s) ≡ some k)
find_sub_next p b s j h = elim (Bool-cases (starts_with p (b ∷ s))) [
  | inl here ↦ (0, find_sub_here p (b ∷ s) here)
  | inr behind ↦ (suc j, unfold find_sub in rw (behind, h) refl)
]

-- A pattern that occurs still does with more bytes.
pub find_sub_stable :
    (p s t : Bytes) (i : ℕ) → find_sub p s ≡ some i → (j : ℕ) × (find_sub p (s ++ t) ≡ some j)
find_sub_stable p [] t i h = elim (Bool-cases (starts_with p [])) [
  | inl here ↦ (0, find_sub_here p t (starts_with_stable p [] t here))
  | inr never ↦ absurd (cc (find_sub_nil p never))
]
find_sub_stable p (b ∷ s) t i h = elim (Bool-cases (starts_with p (b ∷ s))) [
  | inl here ↦ (0, find_sub_here p (b ∷ (s ++ t)) (starts_with_stable p (b ∷ s) t here))
  | inr behind ↦ elim (Option-cases (find_sub p s)) [
    | inl no_more ↦ absurd (cc (find_sub-none p b s behind no_more))
    | inr (j, found) ↦
        let (k, later) = find_sub_stable p s t j found in find_sub_next p b (s ++ t) k later
  ]
]
