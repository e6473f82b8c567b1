-- ===== src/Fix/Access/Laws.antt =====
-- What a segment of fix/core.py gives back of what was set, and what `validate` accepts.
use nasdaq_protocols.Prelude.{
  ◌≡◌, refl, sym, ◌∙◌, ◌⊎◌, inl, inr, Bool, true, false, ◌||◌, some, ◌∷◌, if◌then◌else◌, Bool-cases,
  ℤ, eqb_ℤ, eqb_ℤ_iff, Result, ok, raised, value_error, >>=-eq-ok,
}
use nasdaq_protocols.Fix.Field.{Floats}
use nasdaq_protocols.Fix.Segment.{
  EntryDef, field, container, Entries, no_entries, entry, def_tag, Node, Values, value, empty, keys,
  is_in,
}
use nasdaq_protocols.Fix.Access.{
  FieldDefs, Key, key_to_tag, put, get, Given, from_given, indexed, set_item, get_item, contains,
  got, required_tags, missing, fail_if_any, validate,
}

or_true : (a b : Bool) → b ≡ true → (a || b) ≡ true
or_true true b h = refl
or_true false b h = h

module _ {F : Type 0} where
  pub get-put :
      (t u : ℤ) (node : Node F) (vs : Values F)
      → get t (put u node vs) ≡ (if eqb_ℤ t u then some node else get t vs)
  unfolding get put
  get-put t u node empty = refl
  get-put t u node (value v other rest) = elim (Bool-cases (eqb_ℤ u v)) [
    | inl same ↦ let e : u ≡ v = (eqb_ℤ_iff u v).0 same in rw same (rw e (at_head (eqb_ℤ t v)))
    | inr differs ↦ rw differs (elim (Bool-cases (eqb_ℤ t v)) [
      | inl here ↦
          let e : t ≡ v = (eqb_ℤ_iff t v).0 here in
          let not_u : eqb_ℤ t u ≡ false = rw e (flipped u v differs) in rw (here, not_u) refl
      | inr behind ↦ rw behind (get-put t u node rest)
    ])
  ]
    where
      at_head :
          (b : Bool)
          → (if b then some node else get t rest)
            ≡ (if b then some node else (if b then some other else get t rest))
      at_head true = refl
      at_head false = refl

      flipped : (u v : ℤ) → eqb_ℤ u v ≡ false → eqb_ℤ v u ≡ false
      flipped u v h = elim (Bool-cases (eqb_ℤ v u)) [
        | inl same ↦ absurd (cc ((eqb_ℤ_iff u v).1 (sym ((eqb_ℤ_iff v u).0 same))))
        | inr other ↦ other
      ]

  is_in-put_self : (t : ℤ) (node : Node F) (vs : Values F) → is_in t (keys (put t node vs)) ≡ true
  unfolding put
  is_in-put_self t node empty = rw ((eqb_ℤ_iff t t).1 refl) refl
  is_in-put_self t node (value v other rest) = elim (Bool-cases (eqb_ℤ t v)) [
    | inl same ↦ rw same (rw same refl)
    | inr differs ↦ rw differs (rw differs (is_in-put_self t node rest))
  ]

  -- Each entry of the class that is required, a field or a container of groups, has a value.
  abbrev pub HasRequired : Entries → Values F → Type 0
  HasRequired no_entries vs = Unit {0}
  HasRequired (entry def true es) vs = (is_in (def_tag def) (keys vs) ≡ true) × HasRequired es vs
  HasRequired (entry def false es) vs = HasRequired es vs

  -- One of them has none.
  abbrev pub LacksRequired : Entries → Values F → Type 0
  LacksRequired no_entries vs = ⊥
  LacksRequired (entry def true es) vs =
      (is_in (def_tag def) (keys vs) ≡ false) ⊎ LacksRequired es vs
  LacksRequired (entry def false es) vs = LacksRequired es vs

  abbrev pub Validated : Entries → Values F → Result (Unit {0}) → Type 0
  Validated es vs r =
      ((r ≡ ok tt) × HasRequired es vs) ⊎ ((r ≡ raised value_error) × LacksRequired es vs)

  -- A required entry in front.
  required_lem :
      (def : EntryDef) (es : Entries) (vs : Values F)
      → Validated es vs (validate es vs)
      → Validated (entry def true es) vs (fail_if_any (missing (def_tag def ∷ required_tags es) vs))
  unfolding validate
  required_lem def es vs h = elim (Bool-cases (is_in (def_tag def) (keys vs))) [
    | inr not_there ↦ rw not_there (inr (refl, inl refl))
    | inl there ↦ rw there (elim h [
      | inl (accepted, all) ↦ inl (accepted, (refl, all))
      | inr (refused, lacks) ↦ inr (refused, inr lacks)
    ])
  ]

  -- `validate` returns where each required field and each required container of the class has a
  -- value, and raises ValueError where one of them has none.
  pub validate_lem : (es : Entries) (vs : Values F) → Validated es vs (validate es vs)
  unfolding validate
  validate_lem no_entries vs = inl (refl, tt)
  validate_lem (entry (field c) true es) vs = required_lem (field c) es vs (validate_lem es vs)
  validate_lem (entry (container t n class_name sub) true es) vs =
      required_lem (container t n class_name sub) es vs (validate_lem es vs)
  validate_lem (entry (field c) false es) vs = validate_lem es vs
  validate_lem (entry (container t n class_name sub) false es) vs = validate_lem es vs

module _ (fl : Floats) (defs : FieldDefs) where
  -- An item that was set is the one that is got by its key, and contained; any other key gives what
  -- it gave before.
  pub get_item-set_item :
      (es : Entries) (key other : Key) (given : Given (Floats.Float fl))
      (vs vs' : Values (Floats.Float fl))
      → set_item fl defs es key given vs ≡ ok vs'
      → (t : ℤ) × (def : EntryDef) × (node : Node (Floats.Float fl)) × (key_to_tag defs key ≡ ok t)
        × (from_given fl defs def given ≡ ok node)
        × (get_item defs es key vs' ≡ ok (got def (some node)))
        × (contains defs key vs' ≡ ok true)
        × ((u : ℤ)
            → key_to_tag defs other ≡ ok u
            → eqb_ℤ u t ≡ false
            → get_item defs es other vs' ≡ get_item defs es other vs)
  unfolding set_item get_item contains
  get_item-set_item es key other given vs vs' h =
      let (t, is_t, then_def) = >>=-eq-ok (key_to_tag defs key) _ h in
      let (def, is_def, then_node) = >>=-eq-ok (indexed es t) _ then_def in
      let (node, is_node, same) = >>=-eq-ok (from_given fl defs def given) _ then_node in
      let vs'_is : vs' ≡ put t node vs = cc in
      let gets : get t vs' ≡ some node =
        rw vs'_is (get-put t t node vs ∙ rw ((eqb_ℤ_iff t t).1 refl) refl) in
      let has : is_in t (keys vs') ≡ true = rw vs'_is (is_in-put_self t node vs) in
      (
        t,
        def,
        node,
        is_t,
        is_node,
        rw is_t (rw is_def (rw gets refl)),
        rw is_t (rw has refl),
        λ u is_u differs.
            let kept : get u vs' ≡ get u vs = rw vs'_is (get-put u t node vs ∙ rw differs refl) in
            rw is_u (rw kept refl),
      )
