-- ===== src/Common/Message/Registry/Laws.antt =====
-- Registering message classes, and messages by their id: common/message/structures.py.
use text.Mathlib.TextEquality.{eq_iff}
use text.Mathlib.TextPositions.{eq_refl}
use nasdaq_protocols.Prelude.{
  ℕ, ◌+◌, ◌≡◌, ◌≢◌, ◌⊎◌, refl, sym, ap, ◌∙◌, inl, inr, Bool, true, false, ◌&&◌, Bool-cases,
  Option-cases, Option, none, some, List, [], ◌∷◌, ◌++◌, append_assoc, arith, ◌==◌, ℤ, pos, negsuc,
  Result, ok, raised, >>=-eq-ok, duplicate_message, length, length-append, drop, drop-append_eq,
}
use nasdaq_protocols.Python.Bytes
use nasdaq_protocols.Python.Bytes.{Bytes, from_bytes-to_bytes}
use nasdaq_protocols.Common.Message.Types
use nasdaq_protocols.Common.Message.Types.{from_index}
use nasdaq_protocols.Common.Message.Types.RoundTrip.{unpack_int-pack_int, pos-+ℤ}
use nasdaq_protocols.Common.Message.Structures
use nasdaq_protocols.Common.Message.Structures.{Value}
use nasdaq_protocols.Common.Message.Structures.Wire.{IsWire}
use nasdaq_protocols.Common.Message.Structures.RoundTrip.{value_round_trip}
use nasdaq_protocols.Common.Message.Structures.RoundTrip
use nasdaq_protocols.Common.Message.Registry.{
  MessageId, AppName, same_app, record_given, same_int, same_id, id_from_bytes, id_to_bytes,
  MessageClass, Registry, find_id, find_name, found, add, register, to_bytes, from_bytes,
}

same_int_refl : (z : ℤ) → same_int z z ≡ true
unfolding same_int
same_int_refl (pos n) = ground arith
same_int_refl (negsuc n) = ground arith

same_app_refl : (a : AppName) → same_app a a ≡ true
unfolding same_app
same_app_refl none = refl
same_app_refl (some a) = eq_refl a

same_id_refl : (m : MessageId) → same_id m m ≡ true
same_id_refl m = unfold same_id in simp (same_int_refl, eq_refl)

-- No other class object has the application and the id.
abbrev pub IsFree : AppName → MessageClass → Registry → Type 0
IsFree app c r =
    (find_id app c.msg_id r.by_id ≡ none)
    ⊎ ((d : MessageClass) × (find_id app c.msg_id r.by_id ≡ some d) × (d.identity ≡ c.identity))

-- What `register` gives.
abbrev pub Registered : AppName → MessageClass → Registry → Result Registry → Type 0
Registered app c r (ok r') =
    IsFree app c r
    × (find_id app c.msg_id r'.by_id ≡ some c)
    × (find_name app c.name r'.by_name ≡ some c)
Registered app c r (raised e) =
    (e ≡ duplicate_message)
    × ((d : MessageClass) × (find_id app c.msg_id r.by_id ≡ some d) × (d.identity ≢ c.identity))

-- A class is registered only where no other class object has its application and id, and then both
-- its id and its name lead to it; it is refused, as a duplicate, only where another one has them.
pub register_lem :
    (app : AppName) (c : MessageClass) (r : Registry) → Registered app c r (register app c r)
register_lem app c r = elim (Option-cases (find_id app c.msg_id r.by_id)) [
  | inl e ↦ unfold register in rw e (inl e, (found_again app c r).0, (found_again app c r).1)
  | inr (d, e) ↦ elim (Bool-cases (d.identity == c.identity)) [
    | inl same ↦
        unfold register in
        rw e (rw same (inr (d, e, ground arith), (found_again app c r).0, (found_again app c r).1))
    | inr other ↦ unfold register in rw e (rw other (refl, (d, e, ground arith)))
  ]
]
  where
    found_again :
        (app : AppName) (c : MessageClass) (r : Registry)
        → (find_id app c.msg_id (add app c r).by_id ≡ some c)
          × (find_name app c.name (add app c r).by_name ≡ some c)
    found_again app c r = (
      unfold find_id in simp (same_app_refl, same_id_refl),
      unfold find_name in simp (same_app_refl, eq_refl),
    )

pack_int_size :
    (t : Types.IntType) (v : ℤ) (n : ℕ) (bs : Bytes) → Types.pack_int t v ≡ ok (n, bs) → n ≡ t.size
unfolding Types.pack_int
pack_int_size t v n bs h =
    let (ds, p, q) = >>=-eq-ok (Bytes.to_bytes t.endian t.signed t.size v) _ h in ground arith

and_parts : (a b : Bool) → (a && b) ≡ true → (a ≡ true) × (b ≡ true)
and_parts true b h = (refl, h)
and_parts false b h = cc

same_some : (d c : MessageClass) → some d ≡ some c → d ≡ c
same_some d c h = cc

id_from_bytes-id_to_bytes :
    (m : MessageId) (n : ℕ) (head rest : Bytes)
    → id_to_bytes m ≡ ok (n, head)
    → m.direction ≡ "outgoing"
    → (length head ≡ 1) × (id_from_bytes (head ++ rest) ≡ (pos 1, m))
unfolding id_to_bytes id_from_bytes
id_from_bytes-id_to_bytes m n head rest h out =
    let read = unpack_int-pack_int Types.byte 0 m.indicator n head rest refl h in
    (sym read.0 ∙ pack_int_size Types.byte m.indicator n head h, rw (read.1, sym out) refl)

-- A message of a registered class is packed, with the size that is returned, and unpacked again to
-- the class and the value, whatever follows, where an absent body comes back as an empty record: for a class found under its id, with the direction
-- 'outgoing', whose indicator fits in a byte, and a value that fits the body.
pub message_round_trip :
    (app : AppName) (r : Registry) (c : MessageClass) (v : Value) (n : ℕ) (head : Bytes)
    → find_id app c.msg_id r.by_id ≡ some c
    → c.msg_id.direction ≡ "outgoing"
    → id_to_bytes c.msg_id ≡ ok (n, head)
    → IsWire c.body v
    → (bs : Bytes) × (to_bytes c v ≡ ok (length bs, bs))
      × ((rest : Bytes)
          → from_bytes app r (bs ++ rest) ≡ ok (pos (length bs), c, record_given c.body v))
message_round_trip app r c v n head registered out packed w =
    let (body, p, q) = RoundTrip.value_round_trip w in
    (
      head ++ body,
      unfold to_bytes in rw packed (rw p refl),
      λ rest.
          let (one, read) = id_from_bytes-id_to_bytes c.msg_id n head (body ++ rest) packed out in
          let behind : drop 1 (head ++ (body ++ rest)) ≡ body ++ rest =
            drop-append_eq 1 head (body ++ rest) (sym one) in
          let total : 1 + length body ≡ length (head ++ body) =
            omega (arith, length-append head body, one) in
          unfold from_bytes in
          rw append_assoc (rw read (rw registered (rw behind (rw (q rest) (rw (pos-+ℤ, total)))))),
    )

find_id-same :
    (app : AppName) (m : MessageId) (cs : List (AppName × MessageClass)) (c : MessageClass)
    → find_id app m cs ≡ some c
    → same_id c.msg_id m ≡ true
unfolding find_id
find_id-same app m [] c h = cc
find_id-same app m ((a, d) ∷ rest) c h = elim (Bool-cases (same_app a app && same_id d.msg_id m)) [
  | inl e ↦
      ap (λ (x : MessageClass). same_id x.msg_id m) (sym (same_some d c (rw e at h)))
      ∙ (and_parts _ _ e).1
  | inr e ↦ find_id-same app m rest c (rw e at h)
]

found-some : (o : Option MessageClass) (c : MessageClass) → found o ≡ ok c → o ≡ some c
found-some none c h = cc
found-some (some d) c h = cc

-- What is decoded is of a class with the direction 'outgoing' and the indicator of the first byte:
-- a class that is registered with another direction is never found.
pub from_bytes_direction :
    (app : AppName) (r : Registry) (bs : Bytes) (n : ℤ) (c : MessageClass) (v : Value)
    → from_bytes app r bs ≡ ok (n, c, v)
    → (c.msg_id.direction ≡ "outgoing")
      × (same_int c.msg_id.indicator (id_from_bytes bs).1.indicator ≡ true)
unfolding from_bytes id_from_bytes same_id
from_bytes_direction app r bs n c v h =
    let (d, p, q) = >>=-eq-ok (found (find_id app (id_from_bytes bs).1 r.by_id)) _ h in
    let (pair, p', q') =
      >>=-eq-ok (Structures.from_bytes d.body (from_index (id_from_bytes bs).0 bs)) _ q in
    let same : d ≡ c = let (_, e) = pair in cc in
    let parts =
      and_parts _ _
        (find_id-same app (id_from_bytes bs).1 r.by_id c (found-some _ c (p ∙ ap ok same))) in
    ((eq_iff c.msg_id.direction "outgoing").0 parts.1, parts.0)
