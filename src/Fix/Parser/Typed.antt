-- ===== src/Fix/Parser/Typed.antt =====
-- Invariant of the parser of fix/parser/parser.py: what it has collected is defined and has a type.
use nasdaq_protocols.Prelude.{
  ◌≡◌, refl, inl, inr, ℕ, zero, suc, Bool, true, false, Option, none, some, if◌then◌else◌,
  Bool-cases, value_error, Result, ok, raised, Result-cases, All, All-append,
}
use nasdaq_protocols.Python.Text.{Str, codes, str_equal}
use nasdaq_protocols.Python.Dict.{find, find-All, put-All}
use nasdaq_protocols.Python.Xml.{Element, Elements, no_elements, child, tag_of, children_of, get}
use nasdaq_protocols.Fix.Parser.{
  SupportedTypes, get_supported_types, find_type, FieldDef, Entry, Entries, field, group,
  no_entries, entry, append, Definitions, Parsed, field_entry, group_entry, component_added,
  component_entries, component_elements, named, handle_entry, handle_entries, field_added,
  handle_fields, handle_header, handle_trailer, handle_messages, handle_components, handle,
  handle_reversed, new_definitions, parse, field_def, message_added,
}
use nasdaq_protocols.Fix.Parser.Refusal.{
  Returns, Returns->>=, Returns-if, ComponentFits, EntryFits, Fits, EachFits, PartFits, AllFit,
  supported-refuses, find_type-refuses,
}

module _ (types : SupportedTypes) where
  -- The type of a field is one of the version's.
  abbrev HasType : FieldDef → Type 0
  HasType f = (name : Option Str) × (find_type types name ≡ ok f.field_type)

  mutual
    pub EntryIsTyped : Entry → Type 0
    EntryIsTyped (field f required) = HasType f
    EntryIsTyped (group name required es) = EntriesAreTyped es

    pub EntriesAreTyped : Entries → Type 0
    EntriesAreTyped no_entries = Unit {0}
    EntriesAreTyped (entry e es) = EntryIsTyped e × EntriesAreTyped es

  abbrev FieldIsTyped : Option Str × FieldDef → Type 0
  FieldIsTyped (name, f) = (f.name ≡ name) × HasType f

  abbrev ComponentIsTyped : Option Str × Entries → Type 0
  ComponentIsTyped (name, es) = EntriesAreTyped es

  -- Each field that is defined, and each that a component, the header, the trailer or a message
  -- holds, in groups as well.
  abbrev pub IsTyped : Definitions → Type 0
  IsTyped defs =
      All FieldIsTyped defs.fields
      × All ComponentIsTyped defs.components
      × EntriesAreTyped defs.header
      × EntriesAreTyped defs.trailer
      × All (λ m. EntriesAreTyped m.entries) defs.messages

  abbrev ParsedIsTyped : Definitions × Entries → Type 0
  ParsedIsTyped (defs, es) = IsTyped defs × EntriesAreTyped es

  append-EntriesAreTyped :
      (es later : Entries)
      → EntriesAreTyped es
      → EntriesAreTyped later
      → EntriesAreTyped (append es later)
  unfolding EntriesAreTyped
  append-EntriesAreTyped no_entries later h h' = h'
  append-EntriesAreTyped (entry e es) later h h' = (h.0, append-EntriesAreTyped es later h.1 h')

  -- A call for the entries of a container keeps the invariant.
  abbrev Keeps : (Elements → Type 0) → (Definitions → Elements → Parsed) → Type 0
  Keeps fits handle =
      (defs : Definitions) (xs : Elements)
      → IsTyped defs
      → fits xs
      → Returns ParsedIsTyped (handle defs xs)

  component_added-IsTyped :
      (name : Option Str) (parsed : Parsed)
      → Returns ParsedIsTyped parsed
      → Returns ParsedIsTyped (component_added name parsed)
  component_added-IsTyped name (raised e) h = h
  component_added-IsTyped name (ok (defs, es)) ((fs, cs, hs, ts, ms), typed) =
      ((fs, put-All ComponentIsTyped name es defs.components typed cs, hs, ts, ms), typed)

  field_entry-IsTyped :
      (defs : Definitions) (x : Element) (name : Option Str)
      → IsTyped defs
      → Returns ParsedIsTyped (field_entry defs x (find name defs.fields))
  unfolding EntryIsTyped EntriesAreTyped
  field_entry-IsTyped defs x name h =
      found (find name defs.fields) (λ f. find-All FieldIsTyped name defs.fields h.0)
    where
      found :
          (f : Option FieldDef)
          → ((g : FieldDef) → f ≡ some g → FieldIsTyped (name, g))
          → Returns ParsedIsTyped (field_entry defs x f)
      found none each = inl refl
      found (some f) each = (h, ((each f refl).1, tt))

  module _ (root : Element) (fits : Elements → Type 0) (handle : Definitions → Elements → Parsed)
      (keeps : Keeps fits handle) where
    group_entry-IsTyped :
        (defs : Definitions) (x : Element)
        → IsTyped defs
        → fits (children_of x)
        → Returns ParsedIsTyped (group_entry x (handle defs (children_of x)))
    unfolding EntryIsTyped EntriesAreTyped
    group_entry-IsTyped defs x h fit =
        Returns->>= ParsedIsTyped ParsedIsTyped (handle defs (children_of x)) _
          (keeps defs (children_of x) h fit) λ parsed typed. (typed.0, (typed.1, tt))

    component_entries-IsTyped :
        (defs : Definitions) (x : Option Element) (name : Option Str)
        → IsTyped defs
        → ComponentFits root fits x
        → Returns ParsedIsTyped (component_entries handle defs x (find name defs.components))
    component_entries-IsTyped defs x name h fit =
        found x fit (find name defs.components)
          (λ es. find-All ComponentIsTyped name defs.components h.1)
      where
        found :
            (x : Option Element)
            → ComponentFits root fits x
            → (es : Option Entries) → ((es' : Entries) → es ≡ some es' → EntriesAreTyped es')
            → Returns ParsedIsTyped (component_entries handle defs x es)
        found x fit (some es) each = (h, each es refl)
        found none fit none each = inl refl
        found (some x) fit none each =
            component_added-IsTyped (get (codes "name") x) (handle defs (children_of x))
              (keeps defs (children_of x) h fit)

    handle_entry-IsTyped :
        (defs : Definitions) (x : Element)
        → IsTyped defs
        → EntryFits root fits x
        → Returns ParsedIsTyped (handle_entry handle root defs x)
    unfolding handle_entry EntriesAreTyped
    handle_entry-IsTyped defs x h =
        Returns-if ParsedIsTyped (str_equal (tag_of x) (codes "field")) _ _
          (λ fit. field_entry-IsTyped defs x (get (codes "name") x) h)
          (Returns-if ParsedIsTyped (str_equal (tag_of x) (codes "group")) _ _
            (group_entry-IsTyped defs x h)
            (Returns-if ParsedIsTyped (str_equal (tag_of x) (codes "component")) _ _
              (component_entries-IsTyped defs
                (named (get (codes "name") x) (component_elements root)) (get (codes "name") x) h)
              (λ fit. (h, tt))))

  handle_entries-IsTyped :
      (depth : ℕ) (root : Element) → Keeps (Fits root depth) (handle_entries depth root)
  unfolding handle_entries EntriesAreTyped
  handle_entries-IsTyped depth root defs no_elements h fit = (h, tt)
  handle_entries-IsTyped zero root defs (child x xs) h fit = absurd fit
  handle_entries-IsTyped (suc depth) root defs (child x xs) h (fit, fits) =
      Returns->>= ParsedIsTyped ParsedIsTyped (handle_entry (handle_entries depth root) root defs x)
        _
        (handle_entry-IsTyped root (Fits root depth) (handle_entries depth root)
          (handle_entries-IsTyped depth root) defs x h fit)
        λ first typed.
          Returns->>= ParsedIsTyped ParsedIsTyped (handle_entries (suc depth) root first.0 xs) _
            (handle_entries-IsTyped (suc depth) root first.0 xs typed.0 fits)
            λ others more. (more.0, append-EntriesAreTyped first.1 others.1 typed.1 more.1)

  handle_fields-IsTyped :
      (defs : Definitions) (xs : Elements)
      → IsTyped defs
      → Returns IsTyped (handle_fields types defs xs)
  unfolding handle_fields
  handle_fields-IsTyped defs no_elements h = h
  handle_fields-IsTyped defs (child x xs) h =
      Returns->>= IsTyped IsTyped
        (if str_equal (tag_of x) (codes "field") then field_added types defs x else _) _
        (if_refused (str_equal (tag_of x) (codes "field")) _ added)
        λ defs' h'. handle_fields-IsTyped defs' xs h'
    where
      if_refused :
          (b : Bool) (r : Result Definitions)
          → Returns IsTyped r
          → Returns IsTyped (if b then r else raised value_error)
      if_refused true r h = h
      if_refused false r h = inl refl

      added : Returns IsTyped (field_added types defs x)
      added = elim (Result-cases (find_type types (get (codes "type") x))) [
        | inl (t, found) ↦ rw found (
          put-All FieldIsTyped (get (codes "name") x) (field_def x t) defs.fields
              (refl, (get (codes "type") x, found)) h.0,
          h.1,
          h.2,
          h.3,
          h.4,
        )
        | inr (e, none_found) ↦
            rw none_found (find_type-refuses types (get (codes "type") x) e none_found)
      ]

  module _ (depth : ℕ) (root : Element) where
    handle_header-IsTyped :
        (defs : Definitions) (xs : Elements)
        → IsTyped defs
        → Fits root depth xs
        → Returns IsTyped (handle_header depth root defs xs)
    handle_header-IsTyped defs xs h fit =
        Returns->>= ParsedIsTyped IsTyped (handle_entries depth root defs xs) _
          (handle_entries-IsTyped depth root defs xs h fit)
          λ parsed ((fs, cs, hs, ts, ms), typed).
            (fs, cs, append-EntriesAreTyped parsed.0.header parsed.1 hs typed, ts, ms)

    handle_trailer-IsTyped :
        (defs : Definitions) (xs : Elements)
        → IsTyped defs
        → Fits root depth xs
        → Returns IsTyped (handle_trailer depth root defs xs)
    handle_trailer-IsTyped defs xs h fit =
        Returns->>= ParsedIsTyped IsTyped (handle_entries depth root defs xs) _
          (handle_entries-IsTyped depth root defs xs h fit)
          λ parsed ((fs, cs, hs, ts, ms), typed).
            (fs, cs, hs, append-EntriesAreTyped parsed.0.trailer parsed.1 ts typed, ms)

    handle_messages-IsTyped :
        (defs : Definitions) (xs : Elements)
        → IsTyped defs
        → EachFits root depth xs
        → Returns IsTyped (handle_messages depth root defs xs)
    unfolding handle_messages
    handle_messages-IsTyped defs no_elements h fit = h
    handle_messages-IsTyped defs (child x xs) h (fit, fits) =
        Returns->>= ParsedIsTyped IsTyped (handle_entries depth root defs (children_of x)) _
          (handle_entries-IsTyped depth root defs (children_of x) h fit)
          λ parsed ((fs, cs, hs, ts, ms), typed).
            handle_messages-IsTyped (message_added x parsed.1 parsed.0) xs
              (
                fs,
                cs,
                hs,
                ts,
                All-append (λ m. EntriesAreTyped m.entries) parsed.0.messages _ ms (typed, tt),
              )
              fits

    handle_components-IsTyped :
        (defs : Definitions) (xs : Elements)
        → IsTyped defs
        → EachFits root depth xs
        → Returns IsTyped (handle_components depth root defs xs)
    unfolding handle_components
    handle_components-IsTyped defs no_elements h fit = h
    handle_components-IsTyped defs (child x xs) h (fit, fits) =
        Returns->>= ParsedIsTyped IsTyped
          (component_added (get (codes "name") x) (handle_entries depth root defs (children_of x)))
          _
          (component_added-IsTyped (get (codes "name") x) _
            (handle_entries-IsTyped depth root defs (children_of x) h fit))
          λ parsed typed. handle_components-IsTyped parsed.0 xs typed.0 fits

    handle-IsTyped :
        (defs : Definitions) (x : Element)
        → IsTyped defs
        → PartFits root depth x
        → Returns IsTyped (handle depth root types defs x)
    unfolding handle
    handle-IsTyped defs x h =
        Returns-if IsTyped (str_equal (tag_of x) (codes "fields")) _ _
          (λ fit. handle_fields-IsTyped defs (children_of x) h)
          (Returns-if IsTyped (str_equal (tag_of x) (codes "components")) _ _
            (handle_components-IsTyped defs (children_of x) h)
            (Returns-if IsTyped (str_equal (tag_of x) (codes "header")) _ _
              (handle_header-IsTyped defs (children_of x) h)
              (Returns-if IsTyped (str_equal (tag_of x) (codes "trailer")) _ _
                (handle_trailer-IsTyped defs (children_of x) h)
                (Returns-if IsTyped (str_equal (tag_of x) (codes "messages")) _ _
                  (handle_messages-IsTyped defs (children_of x) h) (λ fit. inr refl)))))

    handle_reversed-IsTyped :
        (defs : Definitions) (xs : Elements)
        → IsTyped defs
        → AllFit root depth xs
        → Returns IsTyped (handle_reversed depth root types defs xs)
    unfolding handle_reversed
    handle_reversed-IsTyped defs no_elements h fit = h
    handle_reversed-IsTyped defs (child x xs) h (fit, fits) =
        Returns->>= IsTyped IsTyped (handle_reversed depth root types defs xs) _
          (handle_reversed-IsTyped defs xs h fits) λ defs' h'. handle-IsTyped defs' x h' fit

abbrev pub DefinitionsAreTyped : Str → Definitions → Type 0
DefinitionsAreTyped version defs =
    (types : SupportedTypes) × (get_supported_types version ≡ ok types) × IsTyped types defs

-- Where the entries of the tree fit in the depth of calls, as those of each tree without a component
-- inside itself do in some depth, the parser raises ValueError or KeyError, or it returns definitions
-- of a version that has a table of types: each field that they define is found under its own name, and
-- its type is one of that table; and so is the type of each field that a component, the header, the
-- trailer or a message holds, however deep in groups.
pub parse-AreTyped :
    (depth : ℕ) (version : Str) (root : Element)
    → AllFit root depth (children_of root)
    → Returns (DefinitionsAreTyped version) (parse depth version root)
unfolding parse EntriesAreTyped
parse-AreTyped depth version root fit = elim (Bool-cases (str_equal (tag_of root) (codes "fix"))) [
  | inr other ↦ rw other (inl refl)
  | inl is_fix ↦ rw is_fix (elim (Result-cases (get_supported_types version)) [
    | inr (e, unknown) ↦ rw unknown (supported-refuses version e unknown)
    | inl (types, supported) ↦ rw supported (
        weaken types supported _ (
          handle_reversed-IsTyped types depth root (new_definitions version) (children_of root)
            (tt, tt, tt, tt, tt) fit))
  ])
]
  where
    weaken :
        (types : SupportedTypes)
        → get_supported_types version ≡ ok types
        → (r : Result Definitions) → Returns (IsTyped types) r
        → Returns (DefinitionsAreTyped version) r
    weaken types supported (raised e) h = h
    weaken types supported (ok defs) h = (types, supported, h)
