-- ===== src/Common/Reader/Schedule.antt =====
-- Any interleaving of arriving data, rounds of the reader task and drains: common/session.py.
use nasdaq_protocols.Prelude.{
  ℕ, ◌≡◌, refl, sym, ap, ◌∙◌, inl, inr, Bool, true, false, not, ◌&&◌, some, List, [], ◌∷◌, ◌++◌,
  append-nil, append_assoc, arith, ltb, ◌==◌, Bool-cases, Option-cases, Result, ok, raised,
  state_error,
}
use nasdaq_protocols.Python.Bytes.{Bytes}
use nasdaq_protocols.Common.Buffer.{incomplete, Framing}
use nasdaq_protocols.Common.Reader.{
  Reader, start, is_running, is_waiting, on_data, enter_drain, leave_drain, process_1, process,
  mark_drained, available,
}
use nasdaq_protocols.Common.Reader.Stream.{
  pending, messages, messages_incomplete, IsFaithful, on_data-IsFaithful, process_1-IsFaithful,
}

pub data Event : Type 0 where
  arrive : Bytes → Event
  poll : Event
  begin_drain end_drain : Event

abbrev pub arrived : Event → Bytes
arrived (arrive bs) = bs
arrived _ = []

abbrev pub received : List Event → Bytes
received [] = []
received (e ∷ es) = arrived e ++ received es

module _ {M : Type 0} where
  -- A nested drain raises StateError and leaves the reader alone.
  abbrev pub drained : Reader M → Result (Reader M) → Reader M
  drained s (ok s') = s'
  drained s (raised e) = s

  enter_drain_nested :
      (s : Reader M) (b : Bool) → s.drain_mode ≡ some b → enter_drain s ≡ raised state_error
  unfolding enter_drain
  enter_drain_nested s b e = ground arith

module _ {M : Type 0} (f : Framing M) (on_msg : M → Bool) where
  unfoldable pub apply : Event → Reader M → Reader M
  apply (arrive bs) s = on_data bs s
  apply poll s = process f on_msg s
  apply begin_drain s = drained s (enter_drain s)
  apply end_drain s = leave_drain false s

  unfoldable pub run : List Event → Reader M → Reader M
  unfolding apply
  run [] s = s
  run (e ∷ es) s = run es (apply e s)

  mark_drained-IsFaithful :
      (bs : Bytes) (before : ℕ) (s : Reader M)
      → IsFaithful f bs s
      → IsFaithful f bs (mark_drained before s)
  mark_drained-IsFaithful bs before s h =
      elim (Bool-cases (not s.crashed && is_waiting s.drain_mode && (available s == before))) [
        | inl t ↦ rw t (record { compact = h.compact; idle = λ e. cc; follows = h.follows })
        | inr t ↦ rw t h
      ]

  pub process-IsFaithful :
      (bs : Bytes) (s : Reader M) → IsFaithful f bs s → IsFaithful f bs (process f on_msg s)
  process-IsFaithful bs s h = elim (Bool-cases (is_running s)) [
    | inl r ↦ elim (Bool-cases (ltb 0 (available s))) [
      | inl t ↦
          let read = process_1-IsFaithful f on_msg bs s r h in
          unfold process in
          rw r (rw t (mark_drained-IsFaithful bs (available s) (process_1 f on_msg s) read))
      | inr t ↦ unfold process in rw r (rw t (mark_drained-IsFaithful bs (available s) s h))
    ]
    | inr r ↦ unfold process in rw r h
  ]

  pub enter_drain-IsFaithful :
      (bs : Bytes) (s : Reader M) → IsFaithful f bs s → IsFaithful f bs (drained s (enter_drain s))
  enter_drain-IsFaithful bs s h = elim (Option-cases s.drain_mode) [
    | inl e ↦
        let nothing = h.idle e in
        unfold enter_drain in
        rw e (record {
          compact = h.compact;
          idle = λ q. cc;
          follows = λ more. let (rest, p, q) = h.follows more in (rest, p, rw nothing at q);
        })
    | inr (b, e) ↦ rw (enter_drain_nested s b e) h
  ]

  leave_drain-IsFaithful :
      (bs : Bytes) (s : Reader M) → IsFaithful f bs s → IsFaithful f bs (leave_drain false s)
  unfolding leave_drain
  leave_drain-IsFaithful bs s h = record {
    compact = omega arith;
    idle = λ _. refl;
    follows = λ more. let (rest, p, q) = h.follows more in (rest, p, rw append-nil q);
  }

  apply-IsFaithful :
      (e : Event) (bs : Bytes) (s : Reader M)
      → IsFaithful f bs s
      → IsFaithful f (bs ++ arrived e) (apply e s)
  unfolding apply
  apply-IsFaithful (arrive data') bs s h = on_data-IsFaithful f data' bs s h
  apply-IsFaithful poll bs s h = rw append-nil (process-IsFaithful bs s h)
  apply-IsFaithful begin_drain bs s h = rw append-nil (enter_drain-IsFaithful bs s h)
  apply-IsFaithful end_drain bs s h = rw append-nil (leave_drain-IsFaithful bs s h)

  run-IsFaithful_from :
      (es : List Event) (bs : Bytes) (s : Reader M)
      → IsFaithful f bs s
      → IsFaithful f (bs ++ received es) (run es s)
  unfolding run
  run-IsFaithful_from [] bs s h = rw append-nil h
  run-IsFaithful_from (e ∷ es) bs s h =
      rw (← append_assoc bs (arrived e) (received es))
        (run-IsFaithful_from es (bs ++ arrived e) (apply e s) (apply-IsFaithful e bs s h))

  pub start-IsFaithful : IsFaithful f [] (start {M = M})
  start-IsFaithful = record {
    compact = omega arith;
    idle = λ _. refl;
    follows = λ more. (messages f more, refl, λ _. refl);
  }

  -- Whatever the interleaving of chunks, rounds and drains: what has been dispatched is the front of
  -- the messages of the byte stream, and all of them if the reader runs and nothing whole is pending.
  pub run-IsFaithful : (es : List Event) → IsFaithful f (received es) (run es start)
  run-IsFaithful es = run-IsFaithful_from es [] start start-IsFaithful

  -- Two schedules that deliver the same bytes, cut in whatever way, dispatch the same messages, if
  -- both readers still run and neither has a whole message pending.
  pub run_chunking :
      (es fs : List Event)
      → received es ≡ received fs
      → is_running (run es start) ≡ true
      → is_running (run fs start) ≡ true
      → f.scan (pending (run es start)) ≡ incomplete
      → f.scan (pending (run fs start)) ≡ incomplete
      → (run es start).dispatched ≡ (run fs start).dispatched
  run_chunking es fs same run1 run2 idle1 idle2 =
      sym (settled es run1 idle1) ∙ ap (messages f) same ∙ settled fs run2 idle2
    where
      settled :
          (es : List Event)
          → is_running (run es start) ≡ true
          → f.scan (pending (run es start)) ≡ incomplete
          → messages f (received es) ≡ (run es start).dispatched
      settled es r idle =
          let (rest, p, q) = (run-IsFaithful es).follows [] in
          let none_left : rest ≡ [] =
            q r
            ∙ ap (messages f) (append-nil (pending (run es start)))
            ∙ messages_incomplete f (pending (run es start)) idle in
          ap (messages f) (sym (append-nil (received es)))
          ∙ p
          ∙ rw none_left (append-nil (run es start).dispatched)
