-- ===== src/Fix/Segment/Represented.antt =====
-- Which objects the wire format of fix/core.py represents.
use nasdaq_protocols.Prelude.{
  ◌≡◌, refl, ◌⊎◌, inl, inr, true, false, Option, none, some, List, [], ◌∷◌, Bool-cases, ℤ, eqb_ℤ,
  eqb_ℤ_iff,
}
use nasdaq_protocols.Python.Text.{Str}
use nasdaq_protocols.Fix.Field.{FieldClass, Atom}
use nasdaq_protocols.Fix.Field.RoundTrip.{IsFieldValue}
use nasdaq_protocols.Fix.Segment.{
  EntryDef, field, container, Entries, entry_of, Node, Values, value, empty, Groups, no_groups,
  group, keys, is_in,
}
use nasdaq_protocols.Fix.Segment.Lines.{defined_among, AreDistinct}

module _ {F : Type 0} where
  -- The first tag of some values, or of some groups, before what follows them.
  abbrev pub first_tag : Values F → Option ℤ → Option ℤ
  first_tag empty next = next
  first_tag (value tag node rest) next = some tag

  abbrev pub first_group : Groups F → Option ℤ → Option ℤ
  first_group no_groups next = next
  first_group (group values rest) next = first_tag values next

-- The next tag is one that the segment has already, or that its class does not have.
abbrev pub Stops : Entries → List ℤ → Option ℤ → Type 0
Stops es seen none = Unit
Stops es seen (some tag) = (is_in tag seen ≡ true) ⊎ (entry_of es tag ≡ none)

-- The objects that the format represents, with the tag that follows them. The tags of a segment are
-- different entries of its class; each group has a value, and its values in the order of the
-- definition; a segment's end is seen by the next tag.
mutual
  pub data IsSegment {F : Type 0} : Entries → List ℤ → Values F → Option ℤ → Type 0 where
    last :
        (es : Entries) (seen : List ℤ) (next : Option ℤ)
        → Stops es seen next
        → IsSegment es seen empty next
    values :
        (es : Entries) (seen : List ℤ) (tag : ℤ) (def : EntryDef) (node : Node F) (rest : Values F)
        (next : Option ℤ)
        → entry_of es tag ≡ some def
        → is_in tag seen ≡ false
        → IsNode def node (first_tag rest next)
        → IsSegment es (tag ∷ seen) rest next
        → IsSegment es seen (value tag node rest) next

  pub data IsNode {F : Type 0} : EntryDef → Node F → Option ℤ → Type 0 where
    a_field :
        (c : FieldClass) (v : Atom F) (next : Option ℤ)
        → IsFieldValue c v
        → IsNode (field c) (field c v) next
    a_container :
        (tag : ℤ) (name class_name : Str) (es : Entries) (groups : Groups F) (next : Option ℤ)
        → AreGroups es groups next
        → IsNode (container tag name class_name es) (container tag name es groups) next

  pub data AreGroups {F : Type 0} : Entries → Groups F → Option ℤ → Type 0 where
    end : (es : Entries) (next : Option ℤ) → AreGroups es no_groups next
    groups :
        (es : Entries) (tag : ℤ) (node : Node F) (rest : Values F) (more : Groups F)
        (next : Option ℤ)
        → defined_among es (keys (value tag node rest)) ≡ keys (value tag node rest)
        → IsSegment es [] (value tag node rest) (first_group more next)
        → AreGroups es more next
        → AreGroups es (group (value tag node rest) more) next

-- The keys of a segment are different, and none of those before it.
seen_not_key :
    {F : Type 0} {es : Entries} {seen : List ℤ} {vs : Values F} {next : Option ℤ} (t : ℤ)
    → IsSegment es seen vs next
    → is_in t seen ≡ true
    → is_in t (keys vs) ≡ false
seen_not_key t (last es seen next stops) h = refl
seen_not_key t (values es seen tag def node rest next e new n s) h =
    elim (Bool-cases (eqb_ℤ t tag)) [
      | inl same ↦ absurd (cc (rw ((eqb_ℤ_iff t tag).0 same) at h))
      | inr differs ↦ rw differs (seen_not_key t s (rw differs h))
    ]

pub keys-AreDistinct :
    {F : Type 0} {es : Entries} {seen : List ℤ} {vs : Values F} {next : Option ℤ}
    → IsSegment es seen vs next
    → AreDistinct (keys vs)
keys-AreDistinct (last es seen next stops) = tt
keys-AreDistinct (values es seen tag def node rest next e new n s) =
    (seen_not_key tag s (rw ((eqb_ℤ_iff tag tag).1 refl) refl), keys-AreDistinct s)
