-- ===== src/Common/Message/Parser/Distinct.antt =====
-- `_parse_messages` of common/message/parser.py against a description of what it keeps.
use mathlib.Core.Path.{subst}
use nasdaq_protocols.Prelude.{
  ◌≡◌, refl, sym, ap, ◌∙◌, ◌⊎◌, inl, inr, Bool, true, false, ◌||◌, Option, none, some, List, [],
  ◌∷◌, ◌++◌, append_assoc, append-nil, if◌then◌else◌, Bool-cases, Result, Result-cases, >>=-eq-ok,
  ok, raised, value_error, ◌>>=◌, All,
}
use nasdaq_protocols.Python.Text.{Str}
use nasdaq_protocols.Python.Dict.{
  Dict, same_name, same_name-eq, is_in, keys, values, find, put, find-put, put-new,
}
use nasdaq_protocols.Python.Xml.{Elements, no_elements, child}
use nasdaq_protocols.Common.Message.Parser.{
  FieldDef, MessageDef, create_msg, message_key, add_message, collect, parse_messages,
}

-- The message of each child, before any is compared with another.
unfoldable pub create_all : Dict FieldDef → Elements → Result (List MessageDef)
create_all known no_elements = ok []
create_all known (child x xs) = do m ← create_msg known x; ms ← create_all known xs; ok (m ∷ ms)

-- No name stands twice.
abbrev pub Distinct : List (Option Str) → Type 0
Distinct [] = Unit {0}
Distinct (k ∷ ks) = All (λ j. same_name j k ≡ false) ks × Distinct ks

abbrev pub message_keys : List MessageDef → List (Option Str)
message_keys [] = []
message_keys (m ∷ ms) = message_key m ∷ message_keys ms

-- The last message with a key.
abbrev pub or_else : Option MessageDef → Option MessageDef → Option MessageDef
or_else (some m) other = some m
or_else none other = other

abbrev pub last_with : Option Str → List MessageDef → Option MessageDef
last_with k [] = none
last_with k (m ∷ ms) =
    or_else (last_with k ms) (if same_name k (message_key m) then some m else none)

abbrev pub keyed : List MessageDef → Dict MessageDef
keyed [] = []
keyed (m ∷ ms) = (message_key m, m) ∷ keyed ms

values-keyed : (ms : List MessageDef) → values (keyed ms) ≡ ms
values-keyed [] = refl
values-keyed (m ∷ ms) = ap (λ l. m ∷ l) (values-keyed ms)

keys-keyed : (ms : List MessageDef) → keys (keyed ms) ≡ message_keys ms
keys-keyed [] = refl
keys-keyed (m ∷ ms) = ap (λ l. message_key m ∷ l) (keys-keyed ms)

keyed-append :
    (ms : List MessageDef) (m : MessageDef)
    → keyed ms ++ (message_key m, m) ∷ [] ≡ keyed (ms ++ m ∷ [])
keyed-append [] m = refl
keyed-append (n ∷ ms) m = ap (λ l. (message_key n, n) ∷ l) (keyed-append ms m)

-- None of `ks` is among those seen, and none stands twice.
abbrev Fresh : List (Option Str) → List (Option Str) → Type 0
Fresh seen ks = All (λ k. is_in k seen ≡ false) ks × Distinct ks

is_in-append :
    (j k : Option Str) (seen : List (Option Str))
    → is_in j (seen ++ k ∷ []) ≡ (is_in j seen || same_name j k)
unfolding is_in
is_in-append j k [] = elim (Bool-cases (same_name j k)) [ inl a ↦ rw a refl | inr a ↦ rw a refl ]
is_in-append j k (n ∷ seen) = elim (Bool-cases (same_name j n)) [
  | inl a ↦ rw a refl
  | inr a ↦ rw a (is_in-append j k seen)
]

or_false : (a b : Bool) → (a || b) ≡ false → (a ≡ false) × (b ≡ false)
or_false false b h = (refl, h)
or_false true b h = cc

-- One more name seen.
seen_more :
    (k : Option Str) (seen ks : List (Option Str))
    → All (λ j. is_in j seen ≡ false) ks
    → All (λ j. same_name j k ≡ false) ks
    → All (λ j. is_in j (seen ++ k ∷ []) ≡ false) ks
seen_more k seen [] a b = tt
seen_more k seen (j ∷ ks) a b =
    (rw (is_in-append j k seen) (rw (a.0, b.0) refl), seen_more k seen ks a.1 b.1)

seen_less :
    (k : Option Str) (seen ks : List (Option Str))
    → All (λ j. is_in j (seen ++ k ∷ []) ≡ false) ks
    → All (λ j. is_in j seen ≡ false) ks × All (λ j. same_name j k ≡ false) ks
seen_less k seen [] h = (tt, tt)
seen_less k seen (j ∷ ks) h =
    let here = or_false (is_in j seen) (same_name j k) (rw (is_in-append j k seen) at h.0) in
    let rest = seen_less k seen ks h.1 in ((here.0, rest.0), (here.1, rest.1))

-- The loop without overriding, on messages that were created.
abbrev add_all : Bool → List MessageDef → Dict MessageDef → Result (Dict MessageDef)
add_all o [] d = ok d
add_all o (m ∷ ms) d = add_message o d m >>= λ d'. add_all o ms d'

collect_lem :
    (known : Dict FieldDef) (o : Bool) (xs : Elements) (ms : List MessageDef) (d : Dict MessageDef)
    → create_all known xs ≡ ok ms
    → collect known o xs d ≡ add_all o ms d
unfolding create_all collect
collect_lem known o no_elements ms d h =
    let e : [] ≡ ms = cc in subst (λ ms. ok d ≡ add_all o ms d) e refl
collect_lem known o (child x xs) ms d h =
    let (m, made, then_rest) = >>=-eq-ok (create_msg known x) _ h in
    let (ms', others, same) = >>=-eq-ok (create_all known xs) _ then_rest in
    let e : m ∷ ms' ≡ ms = cc in
    subst (λ ms. collect known o (child x xs) d ≡ add_all o ms d) e
      (rw made (elim (Result-cases (add_message o d m)) [
        | inl (d', added) ↦ rw added (collect_lem known o xs ms' d' others)
        | inr (e, not_added) ↦ rw not_added refl
      ]))

message_keys-append :
    (ms : List MessageDef) (m : MessageDef)
    → message_keys (ms ++ m ∷ []) ≡ message_keys ms ++ message_key m ∷ []
message_keys-append [] m = refl
message_keys-append (n ∷ ms) m = ap (λ l. message_key n ∷ l) (message_keys-append ms m)

add_message-new :
    (before : List MessageDef) (m : MessageDef)
    → is_in (message_key m) (message_keys before) ≡ false
    → add_message false (keyed before) m ≡ ok (keyed (before ++ m ∷ []))
add_message-new before m h =
    let new : is_in (message_key m) (keys (keyed before)) ≡ false = rw (keys-keyed before) h in
    rw new (ap ok (put-new (message_key m) m (keyed before) new ∙ keyed-append before m))

-- The loop without overriding, on messages of which the first have been added.
abbrev Collected : List MessageDef → List MessageDef → Result (Dict MessageDef) → Type 0
Collected before ms r =
    (Fresh (message_keys before) (message_keys ms) × (r ≡ ok (keyed (before ++ ms))))
    ⊎ ((Fresh (message_keys before) (message_keys ms) → ⊥) × (r ≡ raised value_error))

Collected-next :
    (before ms : List MessageDef) (m : MessageDef) (r : Result (Dict MessageDef))
    → is_in (message_key m) (message_keys before) ≡ false
    → Collected (before ++ m ∷ []) ms r
    → Collected before (m ∷ ms) r
Collected-next before ms m r not_there (inl ((unseen, distinct), same)) =
    let (a, b) =
      seen_less (message_key m) (message_keys before) (message_keys ms)
        (rw (message_keys-append before m) at unseen) in
    inl (
      ((not_there, a), (b, distinct)),
      same ∙ ap (λ l. ok (keyed l)) (append_assoc before (m ∷ []) ms),
    )
Collected-next before ms m r not_there (inr (not_fresh, same)) = inr (
  λ fresh. not_fresh (
    rw (message_keys-append before m)
        (seen_more (message_key m) (message_keys before) (message_keys ms) fresh.0.1 fresh.1.0),
    fresh.1.1,
  ),
  same,
)

add_all-Collected :
    (ms before : List MessageDef) → Collected before ms (add_all false ms (keyed before))
add_all-Collected [] before = inl ((tt, tt), ap (λ l. ok (keyed l)) (sym (append-nil before)))
add_all-Collected (m ∷ ms) before =
    elim (Bool-cases (is_in (message_key m) (message_keys before))) [
      | inl there ↦ inr (λ fresh. absurd (cc (fresh.0.0)), rw (keys-keyed before) (rw there refl))
      | inr not_there ↦
          Collected-next before ms m _ not_there
            (rw (add_message-new before m not_there) (add_all-Collected ms (before ++ m ∷ [])))
    ]

-- The loop with overriding.
replaced : MessageDef → List MessageDef → List MessageDef
replaced m [] = m ∷ []
replaced m (n ∷ ms) =
    if same_name (message_key m) (message_key n) then m ∷ ms else n ∷ replaced m ms

put-keyed :
    (m : MessageDef) (ms : List MessageDef)
    → put (message_key m) m (keyed ms) ≡ keyed (replaced m ms)
unfolding put replaced
put-keyed m [] = refl
put-keyed m (n ∷ ms) = elim (Bool-cases (same_name (message_key m) (message_key n))) [
  | inl here ↦ rw here (rw (same_name-eq (message_key m) (message_key n) here) refl)
  | inr behind ↦ rw behind (ap (λ d. (message_key n, n) ∷ d) (put-keyed m ms))
]

replaced-All :
    (P : Option Str → Type 0) (m : MessageDef) (ms : List MessageDef)
    → P (message_key m)
    → All P (message_keys ms)
    → All P (message_keys (replaced m ms))
unfolding replaced
replaced-All P m [] p h = (p, tt)
replaced-All P m (n ∷ ms) p h = elim (Bool-cases (same_name (message_key m) (message_key n))) [
  | inl here ↦ rw here (p, h.1)
  | inr behind ↦ rw behind (h.0, replaced-All P m ms p h.1)
]

replaced-Distinct :
    (m : MessageDef) (ms : List MessageDef)
    → Distinct (message_keys ms)
    → Distinct (message_keys (replaced m ms))
unfolding replaced
replaced-Distinct m [] h = (tt, tt)
replaced-Distinct m (n ∷ ms) h = elim (Bool-cases (same_name (message_key m) (message_key n))) [
  | inl here ↦ rw here (rw (same_name-eq (message_key m) (message_key n) here) h)
  | inr behind ↦ rw behind (
    replaced-All (λ j. same_name j (message_key n) ≡ false) m ms behind h.0,
    replaced-Distinct m ms h.1,
  )
]

add_message-true :
    (m : MessageDef) (ms : List MessageDef)
    → add_message true (keyed ms) m ≡ ok (keyed (replaced m ms))
add_message-true m ms = elim (Bool-cases (is_in (message_key m) (keys (keyed ms)))) [
  | inl there ↦ rw there (ap ok (put-keyed m ms))
  | inr not_there ↦ rw not_there (ap ok (put-keyed m ms))
]

find_last :
    (k : Option Str) (m : MessageDef) (ms : List MessageDef) (other : Option MessageDef)
    → or_else (last_with k ms) (if same_name k (message_key m) then some m else other)
      ≡ or_else (last_with k (m ∷ ms)) other
find_last k m ms other = ended (last_with k ms) (same_name k (message_key m))
  where
    ended :
        (l : Option MessageDef) (b : Bool)
        → or_else l (if b then some m else other)
          ≡ or_else (or_else l (if b then some m else none)) other
    ended (some n) b = refl
    ended none true = refl
    ended none false = refl

add_all-last :
    (ms ds : List MessageDef)
    → Distinct (message_keys ds)
    → (es : List MessageDef) × (add_all true ms (keyed ds) ≡ ok (keyed es))
      × Distinct (message_keys es)
      × ((k : Option Str) → find k (keyed es) ≡ or_else (last_with k ms) (find k (keyed ds)))
add_all-last [] ds h = (ds, refl, h, λ k. refl)
add_all-last (m ∷ ms) ds h =
    let (es, same, distinct, found) = add_all-last ms (replaced m ds) (replaced-Distinct m ds h) in
    (
      es,
      rw (add_message-true m ds) same,
      distinct,
      λ k. found k ∙ (rw (find_replaced k) (find_last k m ms (find k (keyed ds)))),
    )
  where
    find_replaced :
        (k : Option Str)
        → find k (keyed (replaced m ds))
          ≡ (if same_name k (message_key m) then some m else find k (keyed ds))
    find_replaced k = ap (find k) (sym (put-keyed m ds)) ∙ find-put k (message_key m) m (keyed ds)

-- Where a message can be made of each child: without overriding the parser returns all of them, in
-- their order, where no key of id, group and direction stands twice, and raises ValueError where one
-- does; with overriding it returns messages whose keys stand once each and which hold, under each key, the last
-- message with it, and none under a key that no child has.
pub parse_messages_lem :
    (known : Dict FieldDef) (xs : Elements) (ms : List MessageDef)
    → create_all known xs ≡ ok ms
    → ((Distinct (message_keys ms) × (parse_messages known false xs ≡ ok ms))
        ⊎ ((Distinct (message_keys ms) → ⊥) × (parse_messages known false xs ≡ raised value_error)))
      × (es : List MessageDef) × (parse_messages known true xs ≡ ok es)
      × Distinct (message_keys es)
      × ((k : Option Str) → find k (keyed es) ≡ last_with k ms)
unfolding parse_messages is_in find
parse_messages_lem known xs ms made =
    let (es, same, distinct, found) = add_all-last ms [] tt in
    (
      without (add_all false ms []) (collect_lem known false xs ms [] made)
          (add_all-Collected ms []),
      es,
      rw (collect_lem known true xs ms [] made) (rw same (ap ok (values-keyed es))),
      distinct,
      λ k. found k ∙ or_else_none (last_with k ms),
    )
  where
    or_else_none : (l : Option MessageDef) → or_else l none ≡ l
    or_else_none none = refl
    or_else_none (some m) = refl

    never_seen : (ks : List (Option Str)) → All (λ k. is_in k [] ≡ false) ks
    never_seen [] = tt
    never_seen (k ∷ ks) = (refl, never_seen ks)

    without :
        (r : Result (Dict MessageDef))
        → collect known false xs [] ≡ r
        → Collected [] ms r
        → (Distinct (message_keys ms) × (parse_messages known false xs ≡ ok ms))
          ⊎ ((Distinct (message_keys ms) → ⊥)
              × (parse_messages known false xs ≡ raised value_error))
    without r same (inl (fresh, e)) = inl (fresh.1, rw same (rw e (ap ok (values-keyed ms))))
    without r same (inr (not_fresh, e)) =
        inr (λ distinct. not_fresh (never_seen (message_keys ms), distinct), rw same (rw e refl))
