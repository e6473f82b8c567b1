-- ===== src/Fix/Session/Delivery.antt =====
-- A message that a FIX session sends, as the reader of the other side takes it off its buffer.
use nasdaq_protocols.Prelude.{
  ℕ, ◌+◌, ◌<◌, ◌≡◌, refl, sym, ap, ◌∙◌, true, false, some, [], ◌∷◌, ◌++◌, append_assoc, append-nil,
  arith, inl, inr, ℤ, pos, ◌+ℤ◌, ltb_ℤ, ok, length, length-append, take-append, All,
}
use nasdaq_protocols.Python.Bytes.{Bytes}
use nasdaq_protocols.Python.Decimal.{str_nat, str_int, digits, parse_int-str_int}
use nasdaq_protocols.Fix.Field.{Floats, soh}
use nasdaq_protocols.Fix.Field.RoundTrip.{IsClean, tag_key, tag_clean}
use nasdaq_protocols.Fix.Message as Messages
use nasdaq_protocols.Fix.Message.{
  MessageDefs, Message, msg_type_tag, get_msg_type, class_of, class_from_bytes, is_logout,
  is_heartbeat,
}
use nasdaq_protocols.Fix.Reader.{
  Cursor, view, announced, calc_msg_len, move_on, deserialize, empty_response,
}
use nasdaq_protocols.Fix.Reader.RoundTrip.{
  header_bytes, announced-header_bytes, get_msg_type-header_bytes, length-tag_key_9,
}
use nasdaq_protocols.Fix.Reader.Stable.{announced_stable}
use nasdaq_protocols.Fix.Session.{Version, begin_string}
use nasdaq_protocols.Fix.Session.Completion.{front, line, checksum_of, IsComplete}

tag_key_35 : tag_key (pos 35) ≡ msg_type_tag
unfolding str_int str_nat digits
tag_key_35 = refl

flat_layout :
    (first tag9 size tag35 msg_type written trailer v : Bytes)
    → ((first ++ ((tag9 ++ size) ++ soh ∷ []))
          ++ ((((tag35 ++ msg_type) ++ soh ∷ []) ++ written) ++ trailer))
        ++ v
      ≡ first
        ++ (tag9 ++ (size ++ soh ∷ (tag35 ++ (msg_type ++ soh ∷ (written ++ (trailer ++ v))))))
flat_layout first tag9 size tag35 msg_type written trailer v = simp append_assoc

calc_msg_len_pos : (i n : ℕ) → calc_msg_len i (pos n) ≡ pos (i + n + 7)
unfolding calc_msg_len ◌+ℤ◌
calc_msg_len_pos i n = ground arith

-- A completed message, and what stands behind it, in the order in which the reader looks at it.
complete-header_bytes :
    (version : Version) (msg_type written bs : Bytes) (c : IsComplete version msg_type written bs)
    (v : Bytes)
    → (behind : Bytes) × (bs ++ v
        ≡ header_bytes version (str_int (pos (length c.body))) (msg_type ++ soh ∷ behind))
complete-header_bytes version msg_type written bs c v =
    let first = line (pos 8) (begin_string version) in
    let size = str_int (pos (length c.body)) in
    let trailer = line (pos 10) (checksum_of (front version (length c.body) ++ c.body)) in
    (
      written ++ (trailer ++ v),
      ap (λ (b : Bytes). b ++ v) c.layout
          ∙ ap (λ (b : Bytes). (front version (length c.body) ++ (b ++ trailer)) ++ v) c.body_is
          ∙ flat_layout first (tag_key (pos 9)) size (tag_key (pos 35)) msg_type written trailer v
          ∙ ap
              (λ (t : Bytes).
                first
                ++ (tag_key (pos 9)
                    ++ (size ++ soh ∷ (t ++ (msg_type ++ soh ∷ (written ++ (trailer ++ v)))))))
              tag_key_35,
    )

module _ (fl : Floats) (classes : MessageDefs) where
  -- The reader knows the length of a completed message from its first fields.
  announced_complete :
      (version : Version) (msg_type written bs : Bytes) (c : IsComplete version msg_type written bs)
      (v : Bytes)
      → announced (bs ++ v) ≡ ok (some (pos (length bs)))
  announced_complete version msg_type written bs c v =
      let (behind, flat) = complete-header_bytes version msg_type written bs c v in
      let n = length c.body in
      let first = line (pos 8) (begin_string version) in
      let size = str_int (pos n) in
      let trailer = line (pos 10) (checksum_of (front version n ++ c.body)) in
      rw flat (
        announced-header_bytes version (str_int (pos n)) n (msg_type ++ soh ∷ behind)
          (tag_clean (pos n)).0 (tag_clean (pos n)).1 (parse_int-str_int (pos n))
        ∙ ap (λ (z : ℤ). ok (some z))
            (calc_msg_len_pos (length first + (length size + 3)) n
              ∙ ap pos (
                  omega (
                    arith,
                    ap (λ (b : Bytes). length b) c.layout,
                    length-append (front version n) (c.body ++ trailer),
                    length-append first (line (pos 9) size),
                    length-append (tag_key (pos 9) ++ size) (soh ∷ []),
                    length-append (tag_key (pos 9)) size,
                    length-append c.body trailer,
                    length-tag_key_9,
                    c.trailer_size,
                  ))))

  -- While the end of a completed message is missing, wherever it was cut, the reader answers that
  -- there is no message, and leaves the buffer as it is.
  pub deserialize_waits :
      (version : Version) (msg_type written bs : Bytes) (c : IsComplete version msg_type written bs)
      (u w : Bytes) (cursor : Cursor)
      → bs ≡ u ++ w
      → 0 < length w
      → view cursor ≡ u
      → deserialize fl classes cursor ≡ (ok empty_response, cursor)
  unfolding deserialize
  deserialize_waits version msg_type written bs c u w cursor cut some_missing seen =
      let whole : announced (u ++ w) ≡ ok (some (pos (length bs))) =
        sym (ap (λ (b : Bytes). announced b) cut)
        ∙ rw append-nil at (announced_complete version msg_type written bs c []) in
      rw seen (elim (announced_stable u w) [
        | inl nothing ↦ rw nothing refl
        | inr same ↦ rw (sym same ∙ whole) (rw (seen, too_short) refl)
      ])
    where
      too_short : ltb_ℤ (pos (length u)) (pos (length bs)) ≡ true
      too_short = ground (arith, length-append u w, ap (λ (b : Bytes). length b) cut)

  -- The reader on a message that was completed and is read back by its registered class.
  pub deserialize_complete :
      (version : Version) (written bs : Bytes) (full : Message (Floats.Float fl))
      (c : IsComplete version full.cls.msg_type written bs) (v : Bytes) (cursor : Cursor)
      → All IsClean full.cls.msg_type
      → class_of classes full.cls.msg_type ≡ ok full.cls
      → class_from_bytes fl full.cls bs ≡ ok (length bs, full)
      → view cursor ≡ bs ++ v
      → deserialize fl classes cursor
        ≡ (ok (some full, is_logout full, is_heartbeat full), move_on (pos (length bs)) cursor)
  unfolding deserialize Messages.from_bytes
  deserialize_complete version written bs full c v cursor clean registered reads seen = rw seen (
      rw (announced_complete version full.cls.msg_type written bs c v)
        (rw (seen, enough, take-append bs v, msg_type_is, registered, reads) refl))
    where
      enough : ltb_ℤ (pos (length (bs ++ v))) (pos (length bs)) ≡ false
      enough = ground (arith, length-append bs v)

      msg_type_is : get_msg_type bs ≡ ok full.cls.msg_type
      msg_type_is =
          let (behind, flat) = complete-header_bytes version full.cls.msg_type written bs c [] in
          rw (← append-nil bs, flat)
            (get_msg_type-header_bytes version (str_int (pos (length c.body))) full.cls.msg_type
              behind (tag_clean (pos (length c.body))).0 clean)
