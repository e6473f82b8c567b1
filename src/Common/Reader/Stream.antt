-- ===== src/Common/Reader/Stream.antt =====
-- The messages that a reader dispatches against those of the byte stream: common/session.py.
use nasdaq_protocols.Prelude.{
  ℕ, zero, suc, ◌≤◌, ◌≡◌, refl, sym, ap, ◌∙◌, inl, inr, Bool, true, false, none, some, List, [],
  ◌∷◌, ◌++◌, append-nil, append_assoc, arith, Bool-cases, Option-cases, if◌then◌else◌, ok, Error,
  length, length-drop, drop, drop-append_le,
}
use nasdaq_protocols.Python.Bytes.{Bytes}
use nasdaq_protocols.Common.Buffer.{
  advance, unread, Scan-cases, IsCompact, advance-IsCompact, extend-IsCompact, unread-advance,
  unread-extend, Scan, incomplete, message, failed, Framing,
}
use nasdaq_protocols.Common.Reader.{
  Reader, is_running, on_data, stop, held, dispatch, handle, process_1,
}

module _ {M : Type 0} where
  -- Everything that has arrived and is not yet dispatched.
  abbrev pub pending : Reader M → Bytes
  pending s = unread s.buffer ++ held s.drain_buffer

module _ {M : Type 0} (f : Framing M) where
  -- The messages of a byte stream that reach the application: those before the first logout and the
  -- first bytes that raise, heartbeats left out. Every message takes a byte at least, so the length
  -- of the stream is fuel enough.
  abbrev next : Scan M → (Bytes → List M) → Bytes → List M
  next incomplete rest u = []
  next (failed e) rest u = []
  next (message n m) rest u =
      if f.is_logout m
      then []
      else if f.is_heartbeat m
      then rest (drop n u)
      else m ∷ rest (drop n u)

  unfoldable pub messages_within : ℕ → Bytes → List M
  messages_within zero u = []
  messages_within (suc fuel) u = next (f.scan u) (messages_within fuel) u

  unfoldable pub messages : Bytes → List M
  messages u = messages_within (length u) u

  messages_within_empty : (l : ℕ) (u : Bytes) → length u ≡ 0 → messages_within l u ≡ []
  unfolding messages_within
  messages_within_empty zero u e = refl
  messages_within_empty (suc l) u e = elim (Scan-cases (f.scan u)) [
    | inl p ↦ rw p
    | inr (inl (n, m, p)) ↦ absurd (omega (arith, f.scan_bounds u n m p))
    | inr (inr (x, p)) ↦ rw p
  ]

  -- More fuel than bytes changes nothing.
  messages_fuel :
      (k l : ℕ) (u : Bytes)
      → length u ≤ k
      → length u ≤ l
      → messages_within k u ≡ messages_within l u
  unfolding messages_within
  messages_fuel zero l u hk hl =
      messages_within_empty zero u (omega arith) ∙ sym (messages_within_empty l u (omega arith))
  messages_fuel (suc k) zero u hk hl =
      messages_within_empty (suc k) u (omega arith)
      ∙ sym (messages_within_empty zero u (omega arith))
  messages_fuel (suc k) (suc l) u hk hl = elim (Scan-cases (f.scan u)) [
    | inl p ↦ rw p
    | inr (inl (n, m, p)) ↦
        let (a, b) = f.scan_bounds u n m p in
        let size = length-drop n u in
        let ih = messages_fuel k l (drop n u) (omega arith) (omega arith) in rw p (rw ih)
    | inr (inr (x, p)) ↦ rw p
  ]

  -- One step of the specification.
  pub messages_message :
      (u : Bytes) (n : ℕ) (m : M)
      → f.scan u ≡ message n m
      → messages u ≡ next (message n m) messages u
  messages_message u n m p =
      let (a, b) = f.scan_bounds u n m p in
      let size = length-drop n u in
      let step : messages_within (suc (length u)) u
          ≡ next (message n m) (messages_within (length u)) u =
        unfold messages_within in rw p in
      let ih : messages_within (length u) (drop n u) ≡ messages (drop n u) =
        unfold messages in
        messages_fuel (length u) (length (drop n u)) (drop n u) (omega arith) (omega arith) in
      let more : messages u ≡ messages_within (suc (length u)) u =
        unfold messages in
        messages_fuel (length u) (suc (length u)) u (omega arith) (omega arith) in
      more ∙ step ∙ rw ih

  pub messages_failed : (u : Bytes) (e : Error) → f.scan u ≡ failed e → messages u ≡ []
  messages_failed u e p =
      let more : messages u ≡ messages_within (suc (length u)) u =
        unfold messages in
        messages_fuel (length u) (suc (length u)) u (omega arith) (omega arith) in
      more ∙ (unfold messages_within in rw p)

  pub messages_incomplete : (u : Bytes) → f.scan u ≡ incomplete → messages u ≡ []
  messages_incomplete u p =
      let more : messages u ≡ messages_within (suc (length u)) u =
        unfold messages in
        messages_fuel (length u) (suc (length u)) u (omega arith) (omega arith) in
      more ∙ (unfold messages_within in rw p)

  -- What a reader that was fed the bytes `received` has done. Whatever bytes `more` come next, the
  -- messages dispatched so far are the first ones of the whole stream, and while the reader runs
  -- the rest are those of what is pending.
  pub record IsFaithful (received : Bytes) (s : Reader M) : Type 0 where
    pub compact : IsCompact s.buffer
    pub idle : s.drain_mode ≡ none → s.drain_buffer ≡ none
    pub follows :
        (more : Bytes)
        → (rest : List M) × (messages (received ++ more) ≡ s.dispatched ++ rest)
          × (is_running s ≡ true → rest ≡ messages (pending s ++ more))

module _ {M : Type 0} where
  pending-on_data :
      (bs : Bytes) (s : Reader M) → IsCompact s.buffer → pending (on_data bs s) ≡ pending s ++ bs
  pending-on_data bs s h = elim (Option-cases s.drain_buffer) [
    | inl e ↦ unfold on_data in rw e (rw append-nil (rw append-nil (unread-extend bs s.buffer h)))
    | inr (d, e) ↦ unfold on_data in rw e (sym (append_assoc (unread s.buffer) d bs))
  ]

  on_data_same :
      (bs : Bytes) (s : Reader M)
      → ((on_data bs s).dispatched ≡ s.dispatched)
        × (is_running (on_data bs s) ≡ is_running s)
        × (IsCompact s.buffer → IsCompact (on_data bs s).buffer)
        × ((on_data bs s).drain_mode ≡ s.drain_mode)
        × (s.drain_buffer ≡ none → (on_data bs s).drain_buffer ≡ none)
  unfolding on_data
  on_data_same bs s = ground (arith, extend-IsCompact bs s.buffer)

module _ {M : Type 0} (f : Framing M) where
  -- Data moves from what comes next to what is pending.
  pub on_data-IsFaithful :
      (bs received : Bytes) (s : Reader M)
      → IsFaithful f received s
      → IsFaithful f (received ++ bs) (on_data bs s)
  on_data-IsFaithful bs received s h =
      let (same, running, compact, mode, buffer) = on_data_same bs s in
      let moved = pending-on_data bs s h.compact in
      record {
        compact = compact h.compact;
        idle = λ e. buffer (h.idle (sym mode ∙ e));
        follows = λ more.
            let (rest, p, q) = h.follows (bs ++ more) in
            (
              rest,
              ap (messages f) (append_assoc received bs more)
                  ∙ p
                  ∙ ap (λ (l : List M). l ++ rest) (sym same),
              λ run.
                  q (sym running ∙ run)
                  ∙ ap (messages f) (
                      sym (append_assoc (pending s) bs more)
                      ∙ ap (λ (l : Bytes). l ++ more) (sym moved)),
            );
      }

  stop_same :
      (s : Reader M)
      → ((stop s).dispatched ≡ s.dispatched)
        × ((stop s).buffer ≡ s.buffer)
        × ((stop s).drain_mode ≡ s.drain_mode)
        × ((stop s).drain_buffer ≡ s.drain_buffer)
        × (is_running (stop s) ≡ false)
  unfolding stop
  stop_same s = ground arith

  -- A reader that stops keeps what it has dispatched.
  pub stop-IsFaithful :
      (received : Bytes) (s : Reader M)
      → IsCompact s.buffer
      → (s.drain_mode ≡ none → s.drain_buffer ≡ none)
      → ((more : Bytes) → (rest : List M) × (messages f (received ++ more) ≡ s.dispatched ++ rest))
      → IsFaithful f received (stop s)
  stop-IsFaithful received s compact idle follows =
      let (same, buffer, mode, drain, halted) = stop_same s in
      record {
        compact = rw buffer compact;
        idle = λ e. drain ∙ idle (sym mode ∙ e);
        follows = λ more. let (rest, p) = follows more in (rest, rw same p, λ r. cc);
      }

  -- Taking a message off the buffer, seen on everything that is pending and that still comes.
  pending_message :
      (s : Reader M) (n : ℕ) (m : M) (more : Bytes)
      → f.scan (unread s.buffer) ≡ message n m
      → messages f (pending s ++ more) ≡ (
          if f.is_logout m
          then []
          else if f.is_heartbeat m
          then messages f (pending (record s { buffer = advance n s.buffer }) ++ more)
          else m ∷ messages f (pending (record s { buffer = advance n s.buffer }) ++ more))
  pending_message s n m more p =
      let u = unread s.buffer in
      let x = held s.drain_buffer ++ more in
      let whole = f.message_stable u x n m p in
      let (_, fits) = f.scan_bounds u n m p in
      let left : drop n (u ++ x) ≡ (unread (advance n s.buffer) ++ held s.drain_buffer) ++ more =
        drop-append_le n u x fits
        ∙ ap (λ (l : Bytes). l ++ x) (sym (unread-advance n s.buffer))
        ∙ sym (append_assoc (unread (advance n s.buffer)) (held s.drain_buffer) more) in
      ap (messages f) (append_assoc u (held s.drain_buffer) more)
      ∙ messages_message f (u ++ x) n m whole
      ∙ rw left

  module _ (on_msg : M → Bool) (received : Bytes) (s : Reader M) (run : is_running s ≡ true)
      (h : IsFaithful f received s) where
    crashed-IsFaithful : IsFaithful f received (record s { crashed = true })
    crashed-IsFaithful = record {
      compact = h.compact;
      idle = h.idle;
      follows = λ more. let (rest, p, _) = h.follows more in (rest, p, λ r. ground arith);
    }

    -- What is dispatched is the next message of the stream.
    dispatch-IsFaithful :
        (n : ℕ) (m : M)
        → f.scan (unread s.buffer) ≡ message n m
        → f.is_logout m ≡ false
        → f.is_heartbeat m ≡ false
        → IsFaithful f received (dispatch f on_msg m (record s { buffer = advance n s.buffer }))
    dispatch-IsFaithful n m e t b =
        let s1 : Reader M = record s { buffer = advance n s.buffer } in
        let then_ = λ (more : Bytes). messages f (pending s1 ++ more) in
        let split : (more : Bytes)
            → messages f (received ++ more) ≡ (s.dispatched ++ m ∷ []) ++ then_ more =
          λ more.
            let (rest, p, q) = h.follows more in
            let front : rest ≡ m ∷ then_ more = q run ∙ pending_message s n m more e ∙ rw (t, b) in
            p ∙ rw front (sym (append_assoc s.dispatched (m ∷ []) (then_ more))) in
        elim (Bool-cases (on_msg m)) [
          | inl returns ↦ rw returns (record {
            compact = advance-IsCompact n s.buffer;
            idle = h.idle;
            follows = λ more. (then_ more, split more, λ _. refl);
          })
          | inr raises ↦ rw raises (
              stop-IsFaithful received _ (advance-IsCompact n s.buffer) h.idle
                (λ more. (then_ more, split more)))
        ]

    -- A message is taken off; where the reader stops, what it dispatched stands.
    message-IsFaithful :
        (n : ℕ) (m : M)
        → f.scan (unread s.buffer) ≡ message n m
        → IsFaithful f received (
            handle f on_msg
              (ok (some m, f.is_logout m, f.is_heartbeat m))
              (record s { buffer = advance n s.buffer }))
    message-IsFaithful n m e = elim (Bool-cases (f.is_logout m)) [
      | inl t ↦ rw t (
          stop-IsFaithful received _ (advance-IsCompact n s.buffer) h.idle
            (λ more. let (rest, p, _) = h.follows more in (rest, p)))
      | inr t ↦ elim (Bool-cases (f.is_heartbeat m)) [
        | inl b ↦
            rw (t, b)
              (record {
                compact = advance-IsCompact n s.buffer;
                idle = h.idle;
                follows = λ more.
                    let (rest, p, q) = h.follows more in
                    (rest, p, λ _. q run ∙ pending_message s n m more e ∙ rw (t, b));
              })
        | inr b ↦ rw (t, b) (dispatch-IsFaithful n m e t b)
      ]
    ]

    pub process_1-IsFaithful : IsFaithful f received (process_1 f on_msg s)
    process_1-IsFaithful =
        let step = f.refines s.buffer h.compact in
        elim (Scan-cases (f.scan (unread s.buffer))) [
          | inl p ↦ unfold process_1 in rw step (rw p h)
          | inr (inl (n, m, p)) ↦ unfold process_1 in rw step (rw p (message-IsFaithful n m p))
          | inr (inr (e, p)) ↦ unfold process_1 in rw step (rw p crashed-IsFaithful)
        ]
