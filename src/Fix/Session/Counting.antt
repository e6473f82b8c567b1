-- ===== src/Fix/Session/Counting.antt =====
-- What `send_msg` of fix/session.py writes, and how it counts.
use mathlib.Core.Path.{subst}
use nasdaq_protocols.Prelude.{
  ◌≡◌, refl, sym, ap, ◌∙◌, ◌⊎◌, inl, inr, Bool, true, false, Option, none, some, ◌++◌,
  if◌then◌else◌, ℤ, pos, ◌+ℤ◌, Result, ok, raised, Error, type_error,
}
use nasdaq_protocols.Python.Bytes.{Bytes}
use nasdaq_protocols.Python.Text.{Str, codes}
use nasdaq_protocols.Fix.Field.{Floats, int, text}
use nasdaq_protocols.Fix.Segment.{Values}
use nasdaq_protocols.Fix.Access.{FieldDefs, Given, set_attr, validate}
use nasdaq_protocols.Fix.Message.{Message}
use nasdaq_protocols.Fix.Session.{
  Version, FixSession, Sending, Outcome, ◌then_◌, header_set, checked, write_to, write_if, pinged,
  set_header, set_sequence, set_headers, send_msg, prepare_complete_msg,
}

-- The session has used the next number of its sequence.
abbrev pub Advanced : {F : Type 0} → FixSession F → FixSession F → Type 0
Advanced s s' = (n : ℤ) × (s.sequence ≡ some n) × (s' ≡ record s { sequence = some (n +ℤ pos 1) })

module _ {F : Type 0} where
  abbrev Kept : FixSession F → Outcome (Sending F) → Type 0
  Kept s o = o.1.session ≡ s

  -- All fields were set, or an exception came before or after the number was used.
  abbrev HeadersSet : FixSession F → Outcome (Sending F) → Type 0
  HeadersSet s o =
      ((o.0 ≡ ok tt) × Advanced s o.1.session)
      ⊎ ((e : Error) × (o.0 ≡ raised e) × ((o.1.session ≡ s) ⊎ Advanced s o.1.session))

  before_number :
      (s : FixSession F) (o : Outcome (Sending F)) (f : Sending F → Outcome (Sending F))
      → Kept s o
      → ((s' : Sending F) → s'.session ≡ s → HeadersSet s (f s'))
      → HeadersSet s (o then_ f)
  before_number s (ok tt, s') f kept next = next s' kept
  before_number s (raised e, s') f kept next = inr (e, refl, inl kept)

  after_number :
      (s : FixSession F) (o : Outcome (Sending F)) (f : Sending F → Outcome (Sending F))
      → Advanced s o.1.session
      → ((s' : Sending F) → Kept s'.session (f s'))
      → HeadersSet s (o then_ f)
  after_number s (raised e, s') f advanced next = inr (e, refl, inr advanced)
  after_number s (ok tt, s') f advanced next = ended (f s') (next s')
    where
      ended : (o : Outcome (Sending F)) → o.1.session ≡ s'.session → HeadersSet s o
      ended (ok tt, s'') same = inl (refl, rw same advanced)
      ended (raised e, s'') same = inr (e, refl, inr (rw same advanced))

  header_set-Kept : (s : Sending F) (r : Result (Values F)) → Kept s.session (header_set s r)
  header_set-Kept s (ok vs) = refl
  header_set-Kept s (raised e) = refl

module _ (fl : Floats) (defs : FieldDefs) where
  set_header-Kept :
      (name : Str) (given : Given (Floats.Float fl)) (s : Sending (Floats.Float fl))
      → Kept s.session (set_header fl defs name given s)
  set_header-Kept name given s =
      header_set-Kept s (set_attr fl defs s.msg.cls.header name given s.msg.header)

  -- The number is taken, if there is one, before the field is set.
  set_sequence-Advanced :
      (o : Option ℤ) (s : Sending (Floats.Float fl))
      → s.session.sequence ≡ o
      → ((set_sequence fl defs o s ≡ (raised type_error, s)) × (o ≡ none))
        ⊎ Advanced s.session (set_sequence fl defs o s).1.session
  set_sequence-Advanced none s e = inl (refl, refl)
  set_sequence-Advanced (some n) s e =
      inr (n, e, set_header-Kept (codes "MsgSeqNum") (Given.atom (int n)) _)

  abbrev set_time : Str → Sending (Floats.Float fl) → Outcome (Sending (Floats.Float fl))
  set_time now s = set_header fl defs (codes "SendingTime") (Given.atom (text now)) s

  number_then_time :
      (now : Str) (s : FixSession (Floats.Float fl)) (s3 : Sending (Floats.Float fl))
      → s3.session ≡ s
      → HeadersSet s (set_sequence fl defs s3.session.sequence s3 then_ set_time now)
  number_then_time now s s3 kept = elim (set_sequence-Advanced s3.session.sequence s3 refl) [
    | inl (stops, no_number) ↦
        subst (λ (o : Outcome (Sending (Floats.Float fl))). HeadersSet s (o then_ set_time now))
          (sym stops) (inr (type_error, refl, inl kept))
    | inr advanced ↦
        after_number s (set_sequence fl defs s3.session.sequence s3) (set_time now)
          (subst
            (λ (a : FixSession (Floats.Float fl)).
              Advanced a (set_sequence fl defs s3.session.sequence s3).1.session)
            kept advanced)
          (λ s4. set_header-Kept (codes "SendingTime") (Given.atom (text now)) s4)
  ]

  set_headers_lem :
      (now : Str) (s : Sending (Floats.Float fl)) → HeadersSet s.session (set_headers fl defs now s)
  unfolding set_headers
  set_headers_lem now s =
      before_number s.session (set_header fl defs (codes "SenderSubID") s.session.sender_sub_id s) _
        (set_header-Kept (codes "SenderSubID") s.session.sender_sub_id s)
        λ s1 k1.
          before_number s.session
            (set_header fl defs (codes "TargetCompID") s.session.target_comp_id s1) _
            (set_header-Kept (codes "TargetCompID") s.session.target_comp_id s1 ∙ k1)
            λ s2 k2.
              before_number s.session
                (set_header fl defs (codes "SenderCompID") s.session.sender_comp_id s2) _
                (set_header-Kept (codes "SenderCompID") s.session.sender_comp_id s2 ∙ k2)
                λ s3 k3. number_then_time now s.session s3 k3

-- The header of the message has the five fields of the session, one set after the other, with `n` as
-- its sequence number; the rest of the message is as it was given.
abbrev pub HeaderIsSet :
    (fl : Floats)
    → FieldDefs
    → Str
    → FixSession (Floats.Float fl)
    → ℤ
    → (m m' : Message (Floats.Float fl)) → Type 0
HeaderIsSet fl defs now s n m m' =
    (h1 : Values (Floats.Float fl)) × (h2 : Values (Floats.Float fl)) × (h3 : Values
      (Floats.Float fl))
    × (h4 : Values (Floats.Float fl)) × (h5 : Values (Floats.Float fl)) × (set_attr fl defs
          m.cls.header (codes "SenderSubID") s.sender_sub_id m.header
        ≡ ok h1)
    × (set_attr fl defs m.cls.header (codes "TargetCompID") s.target_comp_id h1 ≡ ok h2)
    × (set_attr fl defs m.cls.header (codes "SenderCompID") s.sender_comp_id h2 ≡ ok h3)
    × (set_attr fl defs m.cls.header (codes "MsgSeqNum") (Given.atom (int n)) h3 ≡ ok h4)
    × (set_attr fl defs m.cls.header (codes "SendingTime") (Given.atom (text now)) h4 ≡ ok h5)
    × (m' ≡ record m { header = h5 })

module _ {F : Type 0} where
  -- A field was set, and what follows starts from the new header.
  set_then :
      (s : Sending F) (r : Result (Values F)) (f : Sending F → Outcome (Sending F))
      → (header_set s r then_ f).0 ≡ ok tt
      → (h : Values F) × (r ≡ ok h)
        × ((header_set s r then_ f) ≡ f (record s { msg = record s.msg { header = h } }))
  set_then s (ok h) f returns = (h, refl, refl)
  set_then s (raised e) f returns = absurd (cc)

  set_last :
      (s : Sending F) (r : Result (Values F))
      → (header_set s r).0 ≡ ok tt
      → (h : Values F) × (r ≡ ok h)
        × (header_set s r ≡ (ok tt, record s { msg = record s.msg { header = h } }))
  set_last s (ok h) returns = (h, refl, refl)
  set_last s (raised e) returns = absurd (cc)

  returns_too : (o o' : Outcome (Sending F)) → o ≡ o' → o.0 ≡ ok tt → o'.0 ≡ ok tt
  returns_too o o' same returns = sym (ap (λ (x : Outcome (Sending F)). x.0) same) ∙ returns

module _ (fl : Floats) (defs : FieldDefs) (now : Str) (s : Sending (Floats.Float fl)) where
  abbrev with_header : Values (Floats.Float fl) → Sending (Floats.Float fl)
  with_header h = record s { msg = record s.msg { header = h } }

  abbrev numbered : Option ℤ → Values (Floats.Float fl) → Outcome (Sending (Floats.Float fl))
  numbered o h3 = set_sequence fl defs o (with_header h3) then_ λ s4.
      set_header fl defs (codes "SendingTime") (Given.atom (text now)) s4

  numbered_lem :
      (o : Option ℤ) (h3 : Values (Floats.Float fl))
      → (numbered o h3).0 ≡ ok tt
      → (n : ℤ) × (h4 : Values (Floats.Float fl)) × (h5 : Values (Floats.Float fl)) × (o ≡ some n)
        × (set_attr fl defs s.msg.cls.header (codes "MsgSeqNum") (Given.atom (int n)) h3 ≡ ok h4)
        × (set_attr fl defs s.msg.cls.header (codes "SendingTime") (Given.atom (text now)) h4
            ≡ ok h5)
        × ((numbered o h3).1.msg ≡ record s.msg { header = h5 })
  numbered_lem none h3 returns = absurd (cc)
  numbered_lem (some n) h3 returns =
      let (h4, is_h4, same4) = set_then _ _ _ returns in
      let (h5, is_h5, same5) = set_last _ _ (returns_too _ _ same4 returns) in
      (
        n,
        h4,
        h5,
        refl,
        is_h4,
        is_h5,
        ap (λ (x : Outcome (Sending (Floats.Float fl))). x.1.msg) (same4 ∙ same5),
      )

  set_headers-HeaderIsSet :
      (set_headers fl defs now s).0 ≡ ok tt
      → (n : ℤ) × (s.session.sequence ≡ some n)
        × HeaderIsSet fl defs now s.session n s.msg (set_headers fl defs now s).1.msg
  unfolding set_headers
  set_headers-HeaderIsSet returns =
      let (h1, is_h1, same1) = set_then s _ _ returns in
      let returns1 = returns_too _ _ same1 returns in
      let (h2, is_h2, same2) = set_then (with_header h1) _ _ returns1 in
      let returns2 = returns_too _ _ same2 returns1 in
      let (h3, is_h3, same3) = set_then (with_header h2) _ _ returns2 in
      let returns3 = returns_too _ _ same3 returns2 in
      let (n, h4, h5, is_n, is_h4, is_h5, same) = numbered_lem s.session.sequence h3 returns3 in
      (
        n,
        is_n,
        (
          h1,
          h2,
          h3,
          h4,
          h5,
          is_h1,
          is_h2,
          is_h3,
          is_h4,
          is_h5,
          ap (λ (x : Outcome (Sending (Floats.Float fl))). x.1.msg) (same1 ∙ same2 ∙ same3) ∙ same,
        ),
      )

abbrev pub is_open : Option Bool → Bool
is_open (some true) = true
is_open _ = false

-- An exception and nothing written, or the completed message under the next number.
abbrev pub IsSent :
    (fl : Floats)
    → FieldDefs
    → Str
    → Message (Floats.Float fl)
    → FixSession (Floats.Float fl)
    → Outcome (Sending (Floats.Float fl))
    → Type 0
IsSent fl defs now m s o =
    ((e : Error) × (o.0 ≡ raised e)
      × (o.1.session.sent ≡ s.sent)
      × ((o.1.session.sequence ≡ s.sequence)
          ⊎ ((n : ℤ) × (s.sequence ≡ some n) × (o.1.session.sequence ≡ some (n +ℤ pos 1)))))
    ⊎ ((o.0 ≡ ok tt)
        × (n : ℤ) × (s.sequence ≡ some n)
        × (o.1.session.sequence ≡ some (n +ℤ pos 1))
        × HeaderIsSet fl defs now s n m o.1.msg
        × (bs : Bytes) × (prepare_complete_msg fl defs s.version o.1.msg ≡ ok bs)
        × (o.1.session.sent ≡ (if is_open s.common.transport then s.sent ++ bs else s.sent)))

module _ (fl : Floats) (defs : FieldDefs) (now : Str) (m : Message (Floats.Float fl)) where
  abbrev finish : Sending (Floats.Float fl) → Outcome (Sending (Floats.Float fl))
  finish s = (ok tt, pinged s)

  module _ (s : FixSession (Floats.Float fl)) (n : ℤ) (s2 : Sending (Floats.Float fl))
      (is_n : s.sequence ≡ some n) (is_s2 : s2.session ≡ record s { sequence = some (n +ℤ pos 1) })
      (is_set : HeaderIsSet fl defs now s n m s2.msg) where
    counted : s2.session.sequence ≡ some (n +ℤ pos 1)
    counted = ap (λ (a : FixSession (Floats.Float fl)). a.sequence) is_s2

    not_written : s2.session.sent ≡ s.sent
    not_written = ap (λ (a : FixSession (Floats.Float fl)). a.sent) is_s2

    written_at :
        (bs : Bytes) (transport : Option Bool)
        → s.common.transport ≡ transport
        → prepare_complete_msg fl defs s.version s2.msg ≡ ok bs
        → IsSent fl defs now m s (write_to transport bs s2 then_ finish)
    written_at bs none t p = inl (_, refl, not_written, inr (n, is_n, counted))
    written_at bs (some false) t p = inr (refl, n, is_n, counted, is_set, bs, p, rw t not_written)
    written_at bs (some true) t p =
        inr (refl, n, is_n, counted, is_set, bs, p, rw t (ap (λ (b : Bytes). b ++ bs) not_written))

    written-IsSent :
        (r : Result Bytes)
        → prepare_complete_msg fl defs s.version s2.msg ≡ r
        → IsSent fl defs now m s (write_if r s2 then_ finish)
    written-IsSent (raised e) p = inl (e, refl, not_written, inr (n, is_n, counted))
    written-IsSent (ok bs) p =
        subst (λ (t : Option Bool). IsSent fl defs now m s (write_to t bs s2 then_ finish))
          (sym (ap (λ (a : FixSession (Floats.Float fl)). a.common.transport) is_s2))
          (written_at bs s.common.transport refl p)

  module _ (s : FixSession (Floats.Float fl)) where
    abbrev write : Sending (Floats.Float fl) → Outcome (Sending (Floats.Float fl))
    write s2 = write_if (prepare_complete_msg fl defs s2.session.version s2.msg) s2 then_ finish

    headers_then_write :
        (o : Outcome (Sending (Floats.Float fl)))
        → HeadersSet s o
        → (o.0 ≡ ok tt → (n : ℤ) × (s.sequence ≡ some n) × HeaderIsSet fl defs now s n m o.1.msg)
        → IsSent fl defs now m s (o then_ write)
    headers_then_write (ok tt, s2) (inl (_, (n, is_n, is_s2))) set =
        let (k, is_k, k_set) = set refl in
        let same : k ≡ n = cc (is_k, is_n) in
        let is_set = subst (λ (j : ℤ). HeaderIsSet fl defs now s j m s2.msg) same k_set in
        subst
          (λ (v : Version).
            IsSent fl defs now m s
              (write_if (prepare_complete_msg fl defs v s2.msg) s2 then_ finish))
          (sym (ap (λ (a : FixSession (Floats.Float fl)). a.version) is_s2))
          (written-IsSent s n s2 is_n is_s2 is_set (prepare_complete_msg fl defs s.version s2.msg)
            refl)
    headers_then_write (ok tt, s2) (inr (e, impossible, _)) set = absurd (cc)
    headers_then_write (raised e, s2) (inl (impossible, _)) set = absurd (cc)
    headers_then_write (raised e, s2) (inr (_, _, inl same)) set = inl (
      e,
      refl,
      ap (λ (a : FixSession (Floats.Float fl)). a.sent) same,
      inl (ap (λ (a : FixSession (Floats.Float fl)). a.sequence) same),
    )
    headers_then_write (raised e, s2) (inr (_, _, inr (n, is_n, is_s2))) set = inl (
      e,
      refl,
      ap (λ (a : FixSession (Floats.Float fl)). a.sent) is_s2,
      inr (n, is_n, ap (λ (a : FixSession (Floats.Float fl)). a.sequence) is_s2),
    )

  -- A call of `send_msg` writes the whole message or nothing. If it returns, the session had a
  -- number `n`, which has gone up by one; the message that was given has got the five fields of the
  -- session in its header, where `MsgSeqNum` was set to `n`, and is otherwise as it was; and this
  -- message was completed and written to the transport, unless this is closed. If it raises, nothing
  -- was written, and the number is the same or has gone up by one.
  pub send_msg-IsSent :
      (s : FixSession (Floats.Float fl)) → IsSent fl defs now m s (send_msg fl defs now m s)
  unfolding send_msg
  send_msg-IsSent s = sent (validate m.cls.body m.body)
    where
      start : Sending (Floats.Float fl)
      start = record { session = s; msg = m }

      sent :
          (r : Result (Unit {0}))
          → IsSent fl defs now m s
              (checked start r then_ λ s1. (set_headers fl defs now s1 then_ write s))
      sent (raised e) = inl (e, refl, refl, inl refl)
      sent (ok tt) =
          headers_then_write s (set_headers fl defs now start) (set_headers_lem fl defs now start)
            (set_headers-HeaderIsSet fl defs now start)
