-- ===== src/Fix/Parser/Refusal.antt =====
-- The outcomes of the parser of fix/parser/parser.py, and how deep the trees nest that it reads.
use nasdaq_protocols.Prelude.{
  ◌≡◌, inl, inr, ℕ, zero, suc, Bool, true, false, Option, none, some, [], ◌∷◌, if◌then◌else◌,
  Bool-cases, ◌⊎◌, Error, value_error, key_error, Result, ok, raised, ◌>>=◌,
}
use nasdaq_protocols.Python.Text.{Str, codes, str_equal}
use nasdaq_protocols.Python.Xml.{Element, Elements, no_elements, child, tag_of, children_of, get}
use nasdaq_protocols.Fix.Parser.{
  SupportedTypes, get_supported_types, find_type, component_elements, named,
}

-- The exceptions by which a definition is refused.
abbrev pub IsRefusal : Error → Type 0
IsRefusal e = (e ≡ value_error) ⊎ (e ≡ key_error)

-- A call returns a value with a property, or it refuses the definition.
abbrev pub Returns {ℓ} : {V : Type ℓ} → (V → Type 0) → Result V → Type 0
Returns P (raised e) = IsRefusal e
Returns P (ok v) = P v

pub Returns->>= {ℓ κ} :
    {V : Type ℓ} {W : Type κ} (P : V → Type 0) (Q : W → Type 0) (call : Result V)
    (next : V → Result W)
    → Returns P call
    → ((v : V) → P v → Returns Q (next v))
    → Returns Q (call >>= next)
Returns->>= P Q (raised e) next h each = h
Returns->>= P Q (ok v) next h each = each v h

pub Returns-if {ℓ} :
    {V : Type ℓ} (P : V → Type 0) (b : Bool) {H H' : Type 0} (x y : Result V)
    → (H → Returns P x)
    → (H' → Returns P y)
    → (if b then H else H')
    → Returns P (if b then x else y)
Returns-if P true x y then_ else_ h = then_ h
Returns-if P false x y then_ else_ h = else_ h

-- How deep the entries of a container nest, where a component stands for what it holds. A component
-- that holds itself fits in no depth.
module _ (root : Element) where
  abbrev pub ComponentFits : (Elements → Type 0) → Option Element → Type 0
  ComponentFits fits none = Unit {0}
  ComponentFits fits (some x) = fits (children_of x)

  abbrev pub EntryFits : (Elements → Type 0) → Element → Type 0
  EntryFits fits x =
      if str_equal (tag_of x) (codes "field")
      then Unit {0}
      else if str_equal (tag_of x) (codes "group")
      then fits (children_of x)
      else if str_equal (tag_of x) (codes "component")
      then ComponentFits fits (named (get (codes "name") x) (component_elements root))
      else Unit {0}

  abbrev pub Fits : ℕ → Elements → Type 0
  Fits depth no_elements = Unit {0}
  Fits zero (child x xs) = ⊥
  Fits (suc depth) (child x xs) = EntryFits (λ ys. Fits depth ys) x × Fits (suc depth) xs

  abbrev pub EachFits : ℕ → Elements → Type 0
  EachFits depth no_elements = Unit {0}
  EachFits depth (child x xs) = Fits depth (children_of x) × EachFits depth xs

  abbrev pub PartFits : ℕ → Element → Type 0
  PartFits depth x =
      if str_equal (tag_of x) (codes "fields")
      then Unit {0}
      else if str_equal (tag_of x) (codes "components")
      then EachFits depth (children_of x)
      else if str_equal (tag_of x) (codes "header")
      then Fits depth (children_of x)
      else if str_equal (tag_of x) (codes "trailer")
      then Fits depth (children_of x)
      else if str_equal (tag_of x) (codes "messages")
      then EachFits depth (children_of x)
      else Unit {0}

  -- All parts of the tree.
  abbrev pub AllFit : ℕ → Elements → Type 0
  AllFit depth no_elements = Unit {0}
  AllFit depth (child x xs) = PartFits depth x × AllFit depth xs

pub supported-refuses :
    (version : Str) (e : Error) → get_supported_types version ≡ raised e → IsRefusal e
unfolding get_supported_types
supported-refuses version e h = elim (Bool-cases (str_equal version (codes "4.2"))) [
  | inl a ↦ absurd (cc (rw a at h))
  | inr a ↦ elim (Bool-cases (str_equal version (codes "4.4"))) [
    | inl b ↦ absurd (cc (rw (a, b) at h))
    | inr b ↦ elim (Bool-cases (str_equal version (codes "5.0"))) [
      | inl c ↦ absurd (cc (rw (a, b, c) at h))
      | inr c ↦ elim (Bool-cases (str_equal version (codes "5.0SP2"))) [
        | inl d ↦ absurd (cc (rw (a, b, c, d) at h))
        | inr d ↦ inl (cc (rw (a, b, c, d) at h))
      ]
    ]
  ]
]

pub find_type-refuses :
    (types : SupportedTypes) (name : Option Str) (e : Error)
    → find_type types name ≡ raised e
    → IsRefusal e
unfolding find_type
find_type-refuses types none e h = inr cc
find_type-refuses [] (some name) e h = inr cc
find_type-refuses ((n, t) ∷ types) (some name) e h = elim (Bool-cases (str_equal name n)) [
  | inl here ↦ absurd (cc (rw here at h))
  | inr behind ↦ find_type-refuses types (some name) e (rw behind at h)
]
