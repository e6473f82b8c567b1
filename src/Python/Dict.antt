-- ===== src/Python/Dict.antt =====
-- Dicts keyed by texts or None, in the order of insertion.
use nasdaq_protocols.Prelude.{
  ◌≡◌, refl, sym, ap, inl, inr, Bool, true, false, ◌||◌, Option, none, some, List, [], ◌∷◌, ◌++◌,
  if◌then◌else◌, Bool-cases, All, arith,
}
use nasdaq_protocols.Python.Text.{Str, str_equal, str_equal_iff}

abbrev pub Dict {ℓ} : Type ℓ → Type ℓ
Dict A = List (Option Str × A)

-- Equality of texts or None.
abbrev pub same_name : Option Str → Option Str → Bool
same_name none none = true
same_name (some a) (some b) = str_equal a b
same_name _ _ = false

pub same_name-eq : (a b : Option Str) → same_name a b ≡ true → a ≡ b
same_name-eq none none h = refl
same_name-eq (some a) (some b) h = ap some ((str_equal_iff a b).0 h)
same_name-eq none (some b) h = cc
same_name-eq (some a) none h = cc

pub same_name_self : (a : Option Str) → same_name a a ≡ true
same_name_self none = refl
same_name_self (some a) = (str_equal_iff a a).1 refl

str_equal_comm : (s t : Str) → str_equal s t ≡ str_equal t s
unfolding str_equal
str_equal_comm [] [] = refl
str_equal_comm [] (b ∷ t) = refl
str_equal_comm (a ∷ s) [] = refl
str_equal_comm (a ∷ s) (b ∷ t) = ground (arith, str_equal_comm s t)

pub same_name_comm : (a b : Option Str) → same_name a b ≡ same_name b a
same_name_comm none none = refl
same_name_comm none (some b) = refl
same_name_comm (some a) none = refl
same_name_comm (some a) (some b) = str_equal_comm a b

-- name in names
unfoldable pub is_in : Option Str → List (Option Str) → Bool
is_in name [] = false
is_in name (n ∷ ns) = same_name name n || is_in name ns

abbrev pub keys {ℓ} : {A : Type ℓ} → Dict A → List (Option Str)
keys [] = []
keys ((n, a) ∷ rest) = n ∷ keys rest

abbrev pub values {ℓ} : {A : Type ℓ} → Dict A → List A
values [] = []
values ((n, a) ∷ rest) = a ∷ values rest

unfoldable pub find {ℓ} : {A : Type ℓ} → Option Str → Dict A → Option A
find name [] = none
find name ((n, a) ∷ rest) = if same_name name n then some a else find name rest

-- d[name] = a
unfoldable pub put {ℓ} : {A : Type ℓ} → Option Str → A → Dict A → Dict A
put name a [] = (name, a) ∷ []
put name a ((n, b) ∷ rest) = if same_name name n then (n, a) ∷ rest else (n, b) ∷ put name a rest

-- A dict whose entries have a property.
module _ {ℓ κ} {A : Type ℓ} (P : Option Str × A → Type κ) where
  pub find-All :
      (name : Option Str) (d : Dict A) {a : A} → All P d → find name d ≡ some a → P (name, a)
  unfolding find
  find-All name [] h same = cc
  find-All name ((n, b) ∷ rest) {a} h same = elim (Bool-cases (same_name name n)) [
    | inl here ↦ let e : b ≡ a = cc (rw here at same) in rw (same_name-eq name n here, sym e) h.0
    | inr behind ↦ find-All name rest h.1 (rw behind at same)
  ]

  pub put-All :
      (name : Option Str) (a : A) (d : Dict A) → P (name, a) → All P d → All P (put name a d)
  unfolding put
  put-All name a [] p h = (p, tt)
  put-All name a ((n, b) ∷ rest) p h = elim (Bool-cases (same_name name n)) [
    | inl here ↦ rw here (rw (same_name-eq name n here) at p, h.1)
    | inr behind ↦ rw behind (h.0, put-All name a rest p h.1)
  ]

module _ {ℓ} {A : Type ℓ} where
  pub find-put :
      (k name : Option Str) (a : A) (d : Dict A)
      → find k (put name a d) ≡ (if same_name k name then some a else find k d)
  unfolding find put
  find-put k name a [] = refl
  find-put k name a ((n, b) ∷ rest) = elim (Bool-cases (same_name name n)) [
    | inl here ↦ rw here (rw (same_name-eq name n here) (at_head (same_name k n)))
    | inr behind ↦ rw behind (elim (Bool-cases (same_name k n)) [
      | inl found ↦
          let e : k ≡ n = same_name-eq k n found in
          let other : same_name k name ≡ false = rw e (rw (same_name_comm n name) behind) in
          rw (found, other) refl
      | inr deeper ↦ rw deeper (find-put k name a rest)
    ])
  ]
    where
      at_head :
          (c : Bool)
          → (if c then some a else find k rest)
            ≡ (if c then some a else (if c then some b else find k rest))
      at_head true = refl
      at_head false = refl

  pub put-new :
      (name : Option Str) (a : A) (d : Dict A)
      → is_in name (keys d) ≡ false
      → put name a d ≡ d ++ (name, a) ∷ []
  unfolding is_in put
  put-new name a [] h = refl
  put-new name a ((n, b) ∷ rest) h = elim (Bool-cases (same_name name n)) [
    | inl here ↦ absurd (cc (rw here at h))
    | inr behind ↦ rw behind (ap (λ d. (n, b) ∷ d) (put-new name a rest (rw behind at h)))
  ]
