-- ===== src/Fix/Reader/Stable.antt =====
-- What the reader of fix/_reader.py knows of a message's length does not change with more bytes.
use nasdaq_protocols.Prelude.{
  ℕ, ◌+◌, ◌-◌, ◌<◌, ◌≤◌, ◌≡◌, refl, ◌⊎◌, inl, inr, none, ◌++◌, arith, Option-cases, ok, length,
  length-drop, drop, take-append_le, drop-append_le,
}
use nasdaq_protocols.Python.Bytes.{Bytes}
use nasdaq_protocols.Python.Find.{
  find_from, find_sub, find_from-lt, find_from_stable, find_sub_stable, slice,
}
use nasdaq_protocols.Fix.Field.{soh, separator}
use nasdaq_protocols.Fix.Message.{msg_type_tag}
use nasdaq_protocols.Fix.Reader.{announced, announced_from, announced_at}

slice_stable :
    (start end : ℕ) (u w : Bytes)
    → start ≤ end
    → end < length u
    → slice (start + 1) end (u ++ w) ≡ slice (start + 1) end u
slice_stable start end u w h k = rw (drop-append_le (start + 1) u w (omega arith)) (
    take-append_le (end - (start + 1)) (drop (start + 1) u) w
      (omega (arith, length-drop (start + 1) u)))

announced_at_stable :
    (start : ℕ) (u w : Bytes)
    → (announced_at start (find_from soh start u) u ≡ ok none)
      ⊎ (announced_at start (find_from soh start (u ++ w)) (u ++ w)
          ≡ announced_at start (find_from soh start u) u)
announced_at_stable start u w = elim (Option-cases (find_from soh start u)) [
  | inl no_end ↦ inl (rw no_end refl)
  | inr (end, found) ↦
      let bounds = find_from-lt soh start u end found in
      inr (
        rw
          (
            find_from_stable soh start u w end found,
            found,
            slice_stable start end u w bounds.0 bounds.1,
          )
          refl)
]

announced_from_stable :
    (u w : Bytes)
    → (announced_from (find_from separator 2 u) u ≡ ok none)
      ⊎ (announced_from (find_from separator 2 (u ++ w)) (u ++ w)
          ≡ announced_from (find_from separator 2 u) u)
announced_from_stable u w = elim (Option-cases (find_from separator 2 u)) [
  | inl no_start ↦ inl (rw no_start refl)
  | inr (start, found) ↦
      rw (found, find_from_stable separator 2 u w start found) (announced_at_stable start u w)
]

-- Unless nothing is announced yet, more bytes announce the same.
pub announced_stable : (u w : Bytes) → (announced u ≡ ok none) ⊎ (announced (u ++ w) ≡ announced u)
announced_stable u w = elim (Option-cases (find_sub msg_type_tag u)) [
  | inl no_type ↦ inl (unfold announced in rw no_type refl)
  | inr (i, found) ↦
      let (j, still) = find_sub_stable msg_type_tag u w i found in
      elim (announced_from_stable u w) [
        | inl nothing ↦ inl (unfold announced in rw found nothing)
        | inr same ↦ inr (unfold announced in rw (found, still) same)
      ]
]
