-- ===== src/Fix/Parser/Contexts/Repeated.antt =====
-- Which groups of fix/parser/definitions.py are handed to the templates, and how often.
use nasdaq_protocols.Prelude.{
  ℕ, ◌+◌, ◌≡◌, refl, ap, ◌∙◌, arith, Bool, true, false, if◌then◌else◌, Option, List, [], ◌∷◌, ◌++◌,
  ok,
}
use nasdaq_protocols.Python.Text.{Str}
use nasdaq_protocols.Fix.Parser.{
  Entry, Entries, field, group, no_entries, entry, Message, Definitions, client_session,
}
use nasdaq_protocols.Fix.Parser.Contexts.{
  EntryContext, EntryContexts, field_entry, group_entry, no_contexts, context, field_context,
  required_shown, GroupContext, Groups, Context, counted, entry_context, entry_contexts,
  message_contexts, codegen_context,
}

-- The contexts of entries without the unique names of the groups in them: of the entries themselves,
-- and of contexts that have such names.
unfoldable mutual
  unfolding field_context

  pub plain_entry : Entry → EntryContext
  plain_entry (field f required) = field_entry (required_shown required) (field_context f)
  plain_entry (group name required es) = group_entry (required_shown required) name [] (plain es)

  pub plain : Entries → EntryContexts
  plain no_entries = no_contexts
  plain (entry e es) = context (plain_entry e) (plain es)

unfoldable mutual
  pub unnamed_entry : EntryContext → EntryContext
  unnamed_entry (field_entry required f) = field_entry required f
  unnamed_entry (group_entry required name unique es) = group_entry required name [] (unnamed es)

  pub unnamed : EntryContexts → EntryContexts
  unnamed no_contexts = no_contexts
  unnamed (context e es) = context (unnamed_entry e) (unnamed es)

mutual
  unfolding plain plain_entry unnamed unnamed_entry entry_context entry_contexts

  unnamed-entry_context :
      (e : Entry) (s : Groups) → unnamed_entry (entry_context e s).0 ≡ plain_entry e
  unnamed-entry_context (field f required) s = refl
  unnamed-entry_context (group name required es) s =
      ap (λ (x : EntryContexts). group_entry (required_shown required) name [] x)
        (unnamed-entry_contexts es (counted name s))

  unnamed-entry_contexts : (es : Entries) (s : Groups) → unnamed (entry_contexts es s).0 ≡ plain es
  unnamed-entry_contexts no_entries s = refl
  unnamed-entry_contexts (entry e es) s =
      rw (unnamed-entry_context e s) (rw (unnamed-entry_contexts es (entry_context e s).1) refl)

-- A test of a group, by its name and its entries.
abbrev pub Test : Type 0
Test = Option Str → EntryContexts → Bool

module _ (p : Test) where
  abbrev pub if_passes : Option Str → EntryContexts → ℕ → ℕ
  if_passes name es n = if p name es then n else 0

  -- How many of the listed groups pass the test.
  abbrev pub number_of : List GroupContext → ℕ
  number_of [] = 0
  number_of (g ∷ gs) = if_passes g.name (unnamed g.entries) 1 + number_of gs

  -- The groups in a list of entries that pass the test, each counted `n` times, and twice as often
  -- those inside one.
  unfoldable mutual
    unfolding plain

    pub entry_weight : ℕ → Entry → ℕ
    entry_weight n (field f required) = 0
    entry_weight n (group name required es) = if_passes name (plain es) n + weight (n + n) es

    pub weight : ℕ → Entries → ℕ
    weight n no_entries = 0
    weight n (entry e es) = entry_weight n e + weight n es

  abbrev pub message_weight : List Message → ℕ
  message_weight [] = 0
  message_weight (m ∷ ms) = weight 1 m.entries + message_weight ms

  if_passes-add :
      (name : Option Str) (es : EntryContexts) (m n : ℕ)
      → if_passes name es (m + n) ≡ if_passes name es m + if_passes name es n
  if_passes-add name es m n = passed (p name es)
    where
      passed : (b : Bool) → (if b then m + n else 0) ≡ (if b then m else 0) + (if b then n else 0)
      passed true = refl
      passed false = refl

  number_of-append :
      (gs hs : List GroupContext) → number_of (gs ++ hs) ≡ number_of gs + number_of hs
  number_of-append [] hs = omega arith
  number_of-append (g ∷ gs) hs = let a = number_of-append gs hs in omega arith

  mutual
    unfolding weight entry_weight

    entry_weight-add :
        (m n : ℕ) (e : Entry) → entry_weight (m + n) e ≡ entry_weight m e + entry_weight n e
    entry_weight-add m n (field f required) = refl
    entry_weight-add m n (group name required es) =
        let a : weight ((m + n) + (m + n)) es ≡ weight (m + n) es + weight (m + n) es =
          weight-add (m + n) (m + n) es in
        let b = weight-add m n es in
        let c = weight-add m m es in
        let d = weight-add n n es in let e = if_passes-add name (plain es) m n in omega arith

    weight-add : (m n : ℕ) (es : Entries) → weight (m + n) es ≡ weight m es + weight n es
    weight-add m n no_entries = refl
    weight-add m n (entry e es) =
        let a = entry_weight-add m n e in let b = weight-add m n es in omega arith

  mutual
    unfolding weight entry_weight entry_context entry_contexts

    number_of-entry_context :
        (e : Entry) (s : Groups)
        → number_of (entry_context e s).1.contexts ≡ number_of s.contexts + entry_weight 1 e
    number_of-entry_context (field f required) s = omega arith
    number_of-entry_context (group name required es) s =
        let first = entry_contexts es (counted name s) in
        let again = entry_contexts es first.1 in
        let a = number_of-entry_contexts es (counted name s) in
        let b = number_of-entry_contexts es first.1 in
        let c : weight 2 es ≡ weight 1 es + weight 1 es = weight-add 1 1 es in
        let same = unnamed-entry_contexts es first.1 in
        let one : if_passes name (unnamed again.0) 1 ≡ if_passes name (plain es) 1 =
          ap (λ (x : EntryContexts). if_passes name x 1) same in
        number_of-append again.1.contexts _ ∙ omega arith

    number_of-entry_contexts :
        (es : Entries) (s : Groups)
        → number_of (entry_contexts es s).1.contexts ≡ number_of s.contexts + weight 1 es
    number_of-entry_contexts no_entries s = omega arith
    number_of-entry_contexts (entry e es) s =
        let a = number_of-entry_context e s in
        let b = number_of-entry_contexts es (entry_context e s).1 in omega arith

  number_of-message_contexts :
      (ms : List Message) (s : Groups)
      → number_of (message_contexts ms s).1.contexts ≡ number_of s.contexts + message_weight ms
  unfolding message_contexts
  number_of-message_contexts [] s = omega arith
  number_of-message_contexts (m ∷ ms) s =
      let a = number_of-entry_contexts m.entries s in
      let b = number_of-message_contexts ms (entry_contexts m.entries s).1 in omega arith

  -- For a version with a client session the definitions give a context, whose list of groups holds
  -- those that were collected before and each group of the header, the trailer and the messages: for
  -- every test of a group's name and of the contexts of its entries, apart from the unique names, as
  -- many groups in the list pass as there are such groups, where one that stands in no other group
  -- counts once, and one that stands in a group counts twice as often as the group around it.
  pub number_of-codegen_context :
      (defs : Definitions) (s : Groups) (session : Str)
      → client_session defs.version ≡ ok session
      → (c : Context) × ((codegen_context defs s).0 ≡ ok c)
        × (number_of c.groups
            ≡ number_of s.contexts
              + (message_weight defs.messages + (weight 1 defs.header + weight 1 defs.trailer)))
  unfolding codegen_context
  number_of-codegen_context defs s session h = rw h (
    _,
    refl,
    let messages = message_contexts defs.messages s in
        let header = entry_contexts defs.header messages.1 in
        let a = number_of-message_contexts defs.messages s in
        let b = number_of-entry_contexts defs.header messages.1 in
        let c = number_of-entry_contexts defs.trailer header.1 in omega arith,
  )
