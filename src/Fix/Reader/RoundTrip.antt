-- ===== src/Fix/Reader/RoundTrip.antt =====
-- The reader of fix/_reader.py on messages that the session completed.
use nasdaq_protocols.Prelude.{
  ℕ, suc, ◌+◌, ◌-◌, ◌<◌, ◌≡◌, refl, sym, ap, ◌∙◌, false, Option, none, some, [], ◌∷◌, ◌++◌,
  append_assoc, arith, ◌==◌, pos, ok, length, length-append, take, drop, take-append,
  drop-append_add, All,
}
use nasdaq_protocols.Python.Bytes.{Bytes}
use nasdaq_protocols.Python.Text.{Str, ascii, transcode_lem}
use nasdaq_protocols.Python.Decimal.{str_nat, str_int, digits, parse_int, All-map}
use nasdaq_protocols.Python.Find.{
  Lacks, find_byte, find_byte-append, find_from, find_sub, starts_with, next_index, shifted,
}
use nasdaq_protocols.Fix.Field.{soh, separator}
use nasdaq_protocols.Fix.Field.RoundTrip.{tag_key, IsClean}
use nasdaq_protocols.Fix.Message.{msg_type_tag, get_msg_type}
use nasdaq_protocols.Fix.Reader.{announced, calc_msg_len}
use nasdaq_protocols.Fix.Session.{Version, fix44, fix50, begin_string}
use nasdaq_protocols.Fix.Session.Completion.{line}

shifted_zero : (o : Option ℕ) → shifted 0 o ≡ o
shifted_zero none = refl
shifted_zero (some i) = ap some (omega arith)

shifted-suc : (n : ℕ) (o : Option ℕ) → next_index (shifted n o) ≡ shifted (suc n) o
shifted-suc n none = refl
shifted-suc n (some i) = ap some (omega arith)

-- Characters among which there is no separator are no place for `35=`.
skip_one :
    (c : ℕ) (s t : Bytes)
    → starts_with msg_type_tag (c ∷ (s ++ soh ∷ t)) ≡ false
    → find_sub msg_type_tag (c ∷ (s ++ soh ∷ t)) ≡ next_index (find_sub msg_type_tag (s ++ soh ∷ t))
unfolding find_sub
skip_one c s t h = rw h refl

skip_value :
    (s t : Bytes)
    → Lacks separator s
    → find_sub msg_type_tag (s ++ soh ∷ t) ≡ shifted (length s) (find_sub msg_type_tag (soh ∷ t))
skip_value [] t h = sym (shifted_zero (find_sub msg_type_tag (soh ∷ t)))
skip_value (c ∷ s) t h =
    rw (shifted-suc (length s) (find_sub msg_type_tag (soh ∷ t))) at
      (skip_one c s t (not_here c s t h) ∙ ap next_index (skip_value s t h.1))
  where
    not_here :
        (c : ℕ) (s t : Bytes)
        → Lacks separator (c ∷ s)
        → starts_with msg_type_tag (c ∷ (s ++ soh ∷ t)) ≡ false
    not_here c [] t h = unfold starts_with in ground arith
    not_here c (d ∷ []) t h = unfold starts_with in ground arith
    not_here c (d ∷ e ∷ s) t h = unfold starts_with in ground arith

type_found :
    (s rest : Bytes)
    → Lacks separator s
    → find_sub msg_type_tag (s ++ soh ∷ (msg_type_tag ++ rest)) ≡ some (length s + 1)
unfolding find_sub
type_found s rest h = skip_value s (msg_type_tag ++ rest) h

size_is :
    (size behind : Bytes) (k : ℕ) → take (k + suc (length size) - suc k) (size ++ behind) ≡ size
size_is size behind k =
    let e : k + suc (length size) - suc k ≡ length size = omega arith in
    rw e (take-append size behind)

-- The bytes of a message from the body length on, behind the begin string of a version.
abbrev pub header_bytes : Version → Str → Bytes → Bytes
header_bytes version size rest =
    line (pos 8) (begin_string version)
    ++ (tag_key (pos 9) ++ (size ++ soh ∷ (msg_type_tag ++ rest)))

pub announced-header_bytes :
    (version : Version) (size : Str) (n : ℕ) (rest : Bytes)
    → Lacks separator size
    → Lacks soh size
    → parse_int size ≡ ok (pos n)
    → announced (header_bytes version size rest)
      ≡ ok (
          some (
            calc_msg_len
              (length (line (pos 8) (begin_string version)) + (length size + 3))
              (pos n)))
unfolding announced str_int str_nat digits find_from find_byte
announced-header_bytes fix44 size n rest h k e =
    unfold find_sub in
    rw (type_found size rest h) (
      rw (find_byte-append soh size (msg_type_tag ++ rest) k) (
        rw (size_is size (soh ∷ (msg_type_tag ++ rest)) 11)
          (rw e (ap (λ (i : ℕ). ok (some (calc_msg_len i (pos n)))) (omega arith)))))
announced-header_bytes fix50 size n rest h k e =
    unfold find_sub in
    rw (type_found size rest h) (
      rw (find_byte-append soh size (msg_type_tag ++ rest) k) (
        rw (size_is size (soh ∷ (msg_type_tag ++ rest)) 12)
          (rw e (ap (λ (i : ℕ). ok (some (calc_msg_len i (pos n)))) (omega arith)))))

-- The message type is what stands behind the first `35=`.
type_at-header_bytes :
    (version : Version) (size : Str) (rest : Bytes)
    → Lacks separator size
    → find_sub msg_type_tag (header_bytes version size rest)
      ≡ some (length (line (pos 8) (begin_string version)) + (length size + 3))
unfolding str_int str_nat digits
type_at-header_bytes fix44 size rest h =
    unfold find_sub in rw (type_found size rest h) (ap some (omega arith))
type_at-header_bytes fix50 size rest h =
    unfold find_sub in rw (type_found size rest h) (ap some (omega arith))

type_behind :
    (prefix_ msg_type rest : Bytes)
    → find_sub msg_type_tag (prefix_ ++ (msg_type_tag ++ (msg_type ++ soh ∷ rest)))
      ≡ some (length prefix_)
    → All IsClean msg_type
    → get_msg_type (prefix_ ++ (msg_type_tag ++ (msg_type ++ soh ∷ rest))) ≡ ok msg_type
unfolding get_msg_type
type_behind prefix_ msg_type rest found clean =
    let behind = msg_type ++ soh ∷ rest in
    let lacks : Lacks soh msg_type =
      All-map IsClean (λ c. (c == soh) ≡ false) msg_type (λ c k. k.1) clean in
    let at_separator : drop (length prefix_ + 2) (prefix_ ++ (msg_type_tag ++ behind))
        ≡ separator ∷ behind =
      drop-append_add (length prefix_ + 2) 2 prefix_ (msg_type_tag ++ behind) refl in
    let at_type : drop (length prefix_ + 2 + 1) (prefix_ ++ (msg_type_tag ++ behind)) ≡ behind =
      drop-append_add (length prefix_ + 2 + 1) 3 prefix_ (msg_type_tag ++ behind) (omega arith) in
    let size : (length prefix_ + 2 + suc (length msg_type)) - (length prefix_ + 2 + 1)
        ≡ length msg_type =
      omega arith in
    rw found (
      rw at_separator (
        unfold find_byte in
        rw (find_byte-append soh msg_type rest lacks) (
          rw (at_type, size, take-append msg_type (soh ∷ rest))
            (transcode_lem ascii msg_type
              (All-map IsClean (λ c. c < 128) msg_type (λ c k. k.0) clean)))))

pub length-tag_key_9 : length (tag_key (pos 9)) ≡ 2
unfolding str_int str_nat digits
length-tag_key_9 = refl

pub get_msg_type-header_bytes :
    (version : Version) (size msg_type rest : Bytes)
    → Lacks separator size
    → All IsClean msg_type
    → get_msg_type (header_bytes version size (msg_type ++ soh ∷ rest)) ≡ ok msg_type
get_msg_type-header_bytes version size msg_type rest h clean =
    let first = line (pos 8) (begin_string version) in
    let prefix_ = first ++ (tag_key (pos 9) ++ (size ++ soh ∷ [])) in
    let behind = msg_type_tag ++ (msg_type ++ soh ∷ rest) in
    let flat : header_bytes version size (msg_type ++ soh ∷ rest) ≡ prefix_ ++ behind = sym (
      append_assoc first (tag_key (pos 9) ++ (size ++ soh ∷ [])) behind
      ∙ ap (λ (b : Bytes). first ++ b)
          (append_assoc (tag_key (pos 9)) (size ++ soh ∷ []) behind
            ∙ ap (λ (b : Bytes). tag_key (pos 9) ++ b) (append_assoc size (soh ∷ []) behind))) in
    let n : length prefix_ ≡ length first + (length size + 3) = omega (
      arith,
      length-append first (tag_key (pos 9) ++ (size ++ soh ∷ [])),
      length-append (tag_key (pos 9)) (size ++ soh ∷ []),
      length-append size (soh ∷ []),
      length-tag_key_9,
    ) in
    rw flat (
      type_behind prefix_ msg_type rest
        (rw (n, ← flat) (type_at-header_bytes version size (msg_type ++ soh ∷ rest) h)) clean)
