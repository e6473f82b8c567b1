-- ===== src/Fix/Segment/Lines.antt =====
-- Segments as lines: fields that end in SOH, and how `from_bytes` goes over them.
use nasdaq_protocols.Prelude.{
  ℕ, suc, ◌+◌, ◌<◌, ◌≡◌, refl, sym, ap, ◌∙◌, ◌⊎◌, inl, inr, Bool, true, false, ◌||◌, Option, none,
  some, List, [], ◌∷◌, ◌++◌, append_assoc, arith, if◌then◌else◌, Bool-cases, Option-cases, ℤ, eqb_ℤ,
  eqb_ℤ_iff, Result, ok, length, length-append, drop, take-append, All,
}
use nasdaq_protocols.Python.Bytes.{Bytes}
use nasdaq_protocols.Python.Text.{ascii, transcode_lem}
use nasdaq_protocols.Python.Decimal.{str_int, parse_int-str_int, str_int-IsEncodable}
use nasdaq_protocols.Python.Find.{find_byte-append, ends_with, ends_with-append}
use nasdaq_protocols.Fix.Field.{Floats, separator, soh}
use nasdaq_protocols.Fix.Field.RoundTrip.{tag_clean}
use nasdaq_protocols.Fix.Segment.{
  EntryDef, Entries, no_entries, entry, entry_of, def_tag, later, Node, Values, value, empty,
  Groups, group, keys, is_in, join, written_at, by_definition, results, written, Reads, Indexed,
  read_tag, read_values, read_groups, node_reads, indexed_entries, node_to_bytes,
}

-- The parts, each with SOH behind it.
abbrev pub lines : List Bytes → Bytes
lines [] = []
lines (p ∷ ps) = p ++ soh ∷ lines ps

pub join-lines :
    (p : Bytes) (ps : List Bytes) (rest : Bytes)
    → join (p ∷ ps) ++ soh ∷ rest ≡ lines (p ∷ ps) ++ rest
unfolding join
join-lines p [] rest = sym (append_assoc p (soh ∷ []) rest)
join-lines p (q ∷ ps) rest =
    append_assoc p (soh ∷ join (q ∷ ps)) (soh ∷ rest)
    ∙ rw (join-lines q ps rest) (sym (append_assoc p (soh ∷ lines (q ∷ ps)) rest))

pub lines-append : (ps qs : List Bytes) → lines (ps ++ qs) ≡ lines ps ++ lines qs
lines-append [] qs = refl
lines-append (p ∷ ps) qs =
    rw (lines-append ps qs) (sym (append_assoc p (soh ∷ lines ps) (lines qs)))

-- What a field or a container is written to: some bytes, of which the last is not SOH.
abbrev pub IsPart : Bytes → Type 0
IsPart p = (0 < length p) × (ends_with soh p ≡ false)

pub join-IsPart : (p : Bytes) (ps : List Bytes) → All IsPart (p ∷ ps) → IsPart (join (p ∷ ps))
unfolding join
join-IsPart p [] h = h.0
join-IsPart p (q ∷ ps) h = behind (join (q ∷ ps)) (join-IsPart q ps h.1)
  where
    behind : (bs : Bytes) → IsPart bs → IsPart (p ++ soh ∷ bs)
    behind [] k = absurd (omega arith)
    behind (b ∷ bs) k = (
      omega (arith, length-append p (soh ∷ b ∷ bs)),
      ends_with-append soh soh p (b ∷ bs) ∙ ends_with-append soh b (soh ∷ []) bs ∙ k.1,
    )

-- The bytes begin with a field of this tag, or are at their end.
abbrev pub Follows : Option ℤ → Bytes → Type 0
Follows none bs = bs ≡ []
Follows (some tag) bs = (rest : Bytes) × (bs ≡ str_int tag ++ separator ∷ rest)

pub read_tag_lem : (tag : ℤ) (rest : Bytes) → read_tag (str_int tag ++ separator ∷ rest) ≡ ok tag
unfolding read_tag
read_tag_lem tag rest = rw (find_byte-append separator (str_int tag) rest (tag_clean tag).0) (
    rw (take-append (str_int tag) (separator ∷ rest))
      (rw (transcode_lem ascii (str_int tag) (str_int-IsEncodable tag)) (parse_int-str_int tag)))

pub entry_of-tag :
    (es : Entries) (t : ℤ) (def : EntryDef) → entry_of es t ≡ some def → def_tag def ≡ t
entry_of-tag no_entries t def h = absurd (cc)
entry_of-tag (entry d required es) t def h = elim (Option-cases (entry_of es t)) [
  | inr (e, found) ↦ entry_of-tag es t def (found ∙ rw found at h)
  | inl other ↦ elim (Bool-cases (eqb_ℤ t (def_tag d))) [
    | inl same ↦
        let is_d : d ≡ def = cc (rw (other, same) at h) in
        rw (← is_d) (sym ((eqb_ℤ_iff t (def_tag d)).0 same))
    | inr differs ↦ absurd (cc (rw (other, differs) at h))
  ]
]

module _ (fl : Floats) where
  abbrev pub reader_of : Option EntryDef → Option (Reads (Node (Floats.Float fl)))
  reader_of none = none
  reader_of (some def) = some (λ bs. node_reads fl def bs)

  pub indexed_entries-entry_of :
      (es : Entries) (t : ℤ) → indexed_entries fl es t ≡ reader_of (entry_of es t)
  unfolding node_reads
  indexed_entries-entry_of no_entries t = refl
  indexed_entries-entry_of (entry def required es) t =
      rw (indexed_entries-entry_of es t) (found (entry_of es t) (eqb_ℤ t (def_tag def)))
    where
      found :
          (o : Option EntryDef) (b : Bool)
          → later (reader_of o) (if b then some (λ (bs : Bytes). node_reads fl def bs) else none)
            ≡ reader_of (later o (if b then some def else none))
      found (some d) b = refl
      found none true = refl
      found none false = refl

module _ {F : Type 0} where
  -- One more value is read.
  pub read_values-step :
      (indexed : Indexed F) (fuel : ℕ) (seen : List ℤ) (bs : Bytes) (tag : ℤ)
      (read : Reads (Node F)) (n m : ℕ) (node : Node F) (values : Values F)
      → 0 < length bs
      → read_tag bs ≡ ok tag
      → is_in tag seen ≡ false
      → indexed tag ≡ some read
      → read bs ≡ ok (n, node)
      → read_values indexed fuel (tag ∷ seen) (drop n bs) ≡ ok (m, values)
      → read_values indexed (suc fuel) seen bs ≡ ok (n + m, value tag node values)
  unfolding read_values
  read_values-step indexed fuel seen [] tag read n m node values l t i e r s = absurd (omega arith)
  read_values-step indexed fuel seen (b ∷ bs) tag read n m node values l t i e r s =
      rw t (rw i (rw e (rw r (rw s refl))))

  -- A tag that was seen, or that the class does not have, ends the segment.
  pub read_values_stop :
      (indexed : Indexed F) (fuel : ℕ) (seen : List ℤ) (bs : Bytes) (tag : ℤ)
      → 0 < length bs
      → read_tag bs ≡ ok tag
      → (is_in tag seen ≡ true) ⊎ (indexed tag ≡ none)
      → read_values indexed (suc fuel) seen bs ≡ ok (0, empty)
  unfolding read_values
  read_values_stop indexed fuel seen [] tag l t i = absurd (omega arith)
  read_values_stop indexed fuel seen (b ∷ bs) tag l t (inl i) = rw t (rw i refl)
  read_values_stop indexed fuel seen (b ∷ bs) tag l t (inr e) =
      rw t (elim (Bool-cases (is_in tag seen)) [ inl i ↦ rw i refl | inr i ↦ rw i (rw e refl) ])

  pub read_groups-step :
      (read : Reads (Values F)) (missing : ℕ) (bs : Bytes) (n m : ℕ) (values : Values F)
      (groups : Groups F)
      → 0 < length bs
      → read bs ≡ ok (n, values)
      → read_groups read missing (drop n bs) ≡ ok (m, groups)
      → read_groups read (suc missing) bs ≡ ok (n + m, group values groups)
  unfolding read_groups
  read_groups-step read missing [] n m values found l r s = absurd (omega arith)
  read_groups-step read missing (b ∷ bs) n m values found l r s = rw r (rw s refl)

-- The tags of the definition that are among some tags, in the order of the definition.
abbrev pub defined_among : Entries → List ℤ → List ℤ
defined_among no_entries tags = []
defined_among (entry def required es) tags =
    if is_in (def_tag def) tags then def_tag def ∷ defined_among es tags else defined_among es tags

abbrev pub AreDistinct : List ℤ → Type 0
AreDistinct [] = Unit
AreDistinct (t ∷ ts) = (is_in t ts ≡ false) × AreDistinct ts

abbrev pub Written : Type 0
Written = List (ℤ × Result (ℕ × Bytes))

abbrev pub tags_of : Written → List ℤ
tags_of [] = []
tags_of ((t, r) ∷ w) = t ∷ tags_of w

abbrev collect : List ℤ → Written → List (Result (ℕ × Bytes))
collect [] w = []
collect (t ∷ ts) w = written_at t w ++ collect ts w

written_at_none : (t : ℤ) (w : Written) → is_in t (tags_of w) ≡ false → written_at t w ≡ []
written_at_none t [] h = refl
written_at_none t ((u, r) ∷ w) h = elim (Bool-cases (eqb_ℤ t u)) [
  | inl same ↦ absurd (cc (rw same at h))
  | inr differs ↦ rw differs (written_at_none t w (rw differs at h))
]

by_definition-collect :
    (es : Entries) (w : Written) → by_definition es w ≡ collect (defined_among es (tags_of w)) w
by_definition-collect no_entries w = refl
by_definition-collect (entry def required es) w =
    elim (Bool-cases (is_in (def_tag def) (tags_of w))) [
      | inl there ↦ rw there (rw (by_definition-collect es w) refl)
      | inr missing ↦
          rw (missing, written_at_none (def_tag def) w missing) (by_definition-collect es w)
    ]

pub or_false : (a b : Bool) → (a || b) ≡ false → (a ≡ false) × (b ≡ false)
or_false true b h = absurd (cc)
or_false false b h = (refl, h)

collect_other :
    (ts : List ℤ) (t : ℤ) (r : Result (ℕ × Bytes)) (w : Written)
    → is_in t ts ≡ false
    → collect ts ((t, r) ∷ w) ≡ collect ts w
collect_other [] t r w h = refl
collect_other (u ∷ ts) t r w h = elim (Bool-cases (eqb_ℤ u t)) [
  | inl same ↦
      let e : u ≡ t = (eqb_ℤ_iff u t).0 same in
      let e' : eqb_ℤ t u ≡ true = (eqb_ℤ_iff t u).1 (sym e) in absurd (cc (rw e' at h))
  | inr differs ↦ rw (differs, collect_other ts t r w (or_false (eqb_ℤ t u) (is_in t ts) h).1) refl
]

collect-tags_of : (w : Written) → AreDistinct (tags_of w) → collect (tags_of w) w ≡ results w
collect-tags_of [] h = refl
collect-tags_of ((t, r) ∷ w) h = rw ((eqb_ℤ_iff t t).1 refl) (
    ap (λ (x : List (Result (ℕ × Bytes))). r ∷ x)
      (collect_other (tags_of w) t r w h.0 ∙ collect-tags_of w h.1))

-- A group whose values stand in the order of the definition is written like a segment.
pub by_definition-results :
    (es : Entries) (w : Written)
    → AreDistinct (tags_of w)
    → defined_among es (tags_of w) ≡ tags_of w
    → by_definition es w ≡ results w
by_definition-results es w distinct ordered =
    by_definition-collect es w ∙ rw ordered (collect-tags_of w distinct)

pub tags_of-written :
    (fl : Floats) (values : Values (Floats.Float fl)) → tags_of (written fl values) ≡ keys values
unfolding node_to_bytes
tags_of-written fl empty = refl
tags_of-written fl (value tag node rest) = ap (◌∷◌ tag) (tags_of-written fl rest)
