-- ===== src/Common/Message/Context/Resolved.antt =====
-- When the definitions of common/message/parser.py give a context to the code generator.
use nasdaq_protocols.Prelude.{
  ◌≡◌, refl, ◌↔◌, zero, Bool, true, false, Option, none, some, List, [], ◌∷◌, if◌then◌else◌, Result,
  ok, ◌>>=◌, >>=-eq-ok, Succeeds, Succeeds->>=, Succeeds-map_results, All, map_results,
}
use nasdaq_protocols.Python.Text.{Str, codes}
use nasdaq_protocols.Python.Find.{starts_with}
use nasdaq_protocols.Python.Dict.{find, values}
use nasdaq_protocols.Common.Message.Parser.{EnumDef, FieldDef, RecordDef, MessageDef, Definitions}
use nasdaq_protocols.Common.Message.Context.{
  TypeClass, TypeClasses, Context, context_of, class_of, or_raise, without, Named, enum_named,
  record_named, type_named, base_named, array_named, in_array, field_context, enum_context,
  message_context, record_context, codegen_context,
}

through {ℓ κ μ} : {A : Type ℓ} {B : Type κ} {C : Type μ} → A ↔ B → B ↔ C → A ↔ C
through f g = (λ a. g.0 (f.0 a), λ c. f.1 (g.1 c))

either {ℓ} :
    {V : Type ℓ} {P Q : Type 0} (b : Bool) {x y : Result V}
    → Succeeds x ↔ P
    → Succeeds y ↔ Q
    → Succeeds (if b then x else y) ↔ (if b then P else Q)
either true f g = f
either false f g = g

module _ (types : TypeClasses) where
  -- A class is registered under a name.
  abbrev pub IsRegistered : Option Str → Type 0
  IsRegistered name = (c : TypeClass) × (find name types ≡ some c)

  abbrev pub EnumIsFound : EnumDef → Type 0
  EnumIsFound e = IsRegistered e.enum_type

  module _ (defs : Definitions) where
    -- A type names an enum of a registered type, a record, or a registered class.
    abbrev pub TypeIsFound : Str → Type 0
    TypeIsFound t =
        if starts_with (codes "enum:") t
        then ((e : EnumDef) × (find (some (without (codes "enum:") zero t)) defs.enums ≡ some e)
            × EnumIsFound e)
        else if starts_with (codes "record:") t
        then ((r : RecordDef) × (find (some (without (codes "record:") zero t)) defs.records
              ≡ some r))
        else IsRegistered (some t)

    -- Either a type or a ref is given, and the ref is not empty: it is not looked up.
    abbrev pub BaseIsFound : Option Str → Option Str → Type 0
    BaseIsFound (some t) none = TypeIsFound t
    BaseIsFound none (some (c ∷ s)) = Unit {0}
    BaseIsFound _ _ = ⊥

    -- The length of an array has a registered type.
    abbrev pub ArrayIsFound : Option Str → Option Str → Type 0
    ArrayIsFound none length_type = Unit {0}
    ArrayIsFound (some array) length_type = IsRegistered length_type

    abbrev pub FieldIsFound : FieldDef → Type 0
    FieldIsFound f = BaseIsFound f.field_type f.ref × ArrayIsFound f.array f.length_type

    abbrev pub NamesAreFound : Type 0
    NamesAreFound =
        All EnumIsFound (values defs.enums)
        × All (λ m. All FieldIsFound m.fields) defs.messages
        × All (λ r. All FieldIsFound r.fields) (values defs.records)

  class_of_lem : (name : Option Str) → Succeeds (class_of types name) ↔ IsRegistered name
  class_of_lem name = found (find name types)
    where
      found : (o : Option TypeClass) → Succeeds (or_raise o) ↔ ((c : TypeClass) × (o ≡ some c))
      found none = (λ (c, same). cc, λ (c, same). cc)
      found (some c) = (λ h. (c, refl), λ h. (c, refl))

  -- A call behind the search for a class that only computes.
  behind_class {κ} :
      {W : Type κ} (name : Option Str) (next : TypeClass → W)
      → Succeeds (class_of types name >>= λ c. ok (next c)) ↔ IsRegistered name
  behind_class name next =
      through (Succeeds->>= (class_of types name) (λ c. ok (next c)) (λ c. (next c, refl)))
        (class_of_lem name)

  module _ (defs : Definitions) where
    enum_named_lem :
        (name : Str) (o : Option EnumDef)
        → Succeeds (enum_named types name o) ↔ ((e : EnumDef) × (o ≡ some e) × EnumIsFound e)
    enum_named_lem name none = (λ (n, same). cc, λ (e, same, h). cc)
    enum_named_lem name (some e) =
        let behind = behind_class e.enum_type (λ c. (c.class_name, name)) in
        (
          λ h. (e, refl, behind.0 h),
          λ (e', same, h). behind.1 (let again : e' ≡ e = cc in rw again at h),
        )

    record_named_lem :
        (o : Option RecordDef) → Succeeds (record_named o) ↔ ((r : RecordDef) × (o ≡ some r))
    record_named_lem none = (λ (n, same). cc, λ (r, same). cc)
    record_named_lem (some r) = (λ h. (r, refl), λ h. (_, refl))

    type_named_lem : (t : Str) → Succeeds (type_named types defs t) ↔ TypeIsFound defs t
    unfolding type_named
    type_named_lem t =
        either (starts_with (codes "enum:") t) (enum_named_lem _ (find _ defs.enums)) (
          either (starts_with (codes "record:") t) (record_named_lem (find _ defs.records))
            (behind_class (some t) (λ c. (c.class_name, c.hint))))

    base_named_lem :
        (t ref : Option Str) → Succeeds (base_named types defs t ref) ↔ BaseIsFound defs t ref
    unfolding base_named
    base_named_lem none none = (λ (n, same). cc, λ h. absurd h)
    base_named_lem none (some []) = (λ (n, same). cc, λ h. absurd h)
    base_named_lem none (some (c ∷ s)) = (λ h. tt, λ h. (_, refl))
    base_named_lem (some t) none = type_named_lem t
    base_named_lem (some t) (some r) = (λ (n, same). cc, λ h. absurd h)

    array_named_lem :
        (array length_type : Option Str) (named : Named)
        → Succeeds (array_named types array length_type named) ↔ ArrayIsFound defs array length_type
    unfolding array_named
    array_named_lem none length_type named = (λ h. tt, λ h. (named, refl))
    array_named_lem (some array) length_type named =
        behind_class length_type (λ c. in_array array c.class_name named)

    field_context_lem : (f : FieldDef) → Succeeds (field_context types defs f) ↔ FieldIsFound defs f
    unfolding field_context
    field_context_lem f = (
      λ (c, same).
          let (base, named, then_array) =
            >>=-eq-ok (base_named types defs f.field_type f.ref) _ same in
          let (n, arrayed, _) =
            >>=-eq-ok (array_named types f.array f.length_type base) _ then_array in
          (
            (base_named_lem f.field_type f.ref).0 (base, named),
            (array_named_lem f.array f.length_type base).0 (n, arrayed),
          ),
      λ (h, h').
          let (base, named) = (base_named_lem f.field_type f.ref).1 h in
          let (n, arrayed) = (array_named_lem f.array f.length_type base).1 h' in
          (context_of f n, rw named (rw arrayed refl)),
    )

    fields_lem :
        (fs : List FieldDef)
        → Succeeds (map_results (field_context types defs) fs) ↔ All (FieldIsFound defs) fs
    fields_lem fs =
        Succeeds-map_results (field_context types defs) (FieldIsFound defs) field_context_lem fs

    message_context_lem :
        (m : MessageDef)
        → Succeeds (message_context types defs m) ↔ All (FieldIsFound defs) m.fields
    message_context_lem m =
        through (Succeeds->>= (map_results (field_context types defs) m.fields) _ (λ cs. (_, refl)))
          (fields_lem m.fields)

    record_context_lem :
        (r : RecordDef) → Succeeds (record_context types defs r) ↔ All (FieldIsFound defs) r.fields
    record_context_lem r =
        through (Succeeds->>= (map_results (field_context types defs) r.fields) _ (λ cs. (_, refl)))
          (fields_lem r.fields)

    -- The definitions give a context to the generator where, and only where, each name that is looked
    -- up for an enum, a message or a record is found: the type of an enum is registered; a field has a type or else a
    -- ref that is not empty, whatever it names, since a ref is not looked up; the type names an enum that is defined and has a registered type, or a
    -- record that is defined, or a registered class; and the length of an array has a registered type.
    -- Otherwise an exception is raised.
    pub codegen_context_iff : Succeeds (codegen_context types defs) ↔ NamesAreFound defs
    unfolding codegen_context
    codegen_context_iff =
        let enums =
          Succeeds-map_results (enum_context types) EnumIsFound (λ e. behind_class e.enum_type _)
            (values defs.enums) in
        let messages =
          Succeeds-map_results (message_context types defs) (λ m. All (FieldIsFound defs) m.fields)
            message_context_lem defs.messages in
        let records =
          Succeeds-map_results (record_context types defs) (λ r. All (FieldIsFound defs) r.fields)
            record_context_lem (values defs.records) in
        (
          λ (c, same).
              let (es, is_es, then_messages) =
                >>=-eq-ok (map_results (enum_context types) (values defs.enums)) _ same in
              let (ms, is_ms, then_records) =
                >>=-eq-ok (map_results (message_context types defs) defs.messages) _
                  then_messages in
              let (rs, is_rs, _) =
                >>=-eq-ok (map_results (record_context types defs) (values defs.records)) _
                  then_records in
              (enums.0 (es, is_es), messages.0 (ms, is_ms), records.0 (rs, is_rs)),
          λ (h, h', h'').
              let (es, is_es) = enums.1 h in
              let (ms, is_ms) = messages.1 h' in
              let (rs, is_rs) = records.1 h'' in
              let c : Context = record { enums = es; messages = ms; records = rs } in
              (c, rw is_es (rw is_ms (rw is_rs refl))),
        )
