-- ===== src/SoupApp/Delivery.antt =====
-- Application messages through `_on_soup_message` of soup/soup_app.py.
use nasdaq_protocols.Prelude.{
  ℕ, ◌≡◌, refl, sym, ap, ◌∙◌, some, List, [], ◌∷◌, ◌++◌, append-nil, append_assoc, ℤ, pos, Result,
  ok, length, All,
}
use nasdaq_protocols.Python.Bytes.{Bytes}
use nasdaq_protocols.Common.Queue
use nasdaq_protocols.Common.Queue.{Queue}
use nasdaq_protocols.Common.Queue.Order.{all, push-all}
use nasdaq_protocols.Common.Message.Structures.{Value}
use nasdaq_protocols.Common.Message.Structures.Wire.{IsWire}
use nasdaq_protocols.Common.Message.Registry.{
  AppName, record_given, MessageClass, Registry, find_id, id_to_bytes, to_bytes, from_bytes,
}
use nasdaq_protocols.Common.Message.Registry.Laws.{message_round_trip}
use nasdaq_protocols.Soup.Core.{sequenced_data}
use nasdaq_protocols.SoupApp.{Message, AppSession, decoded, on_soup_message}

-- A message that the application can decode: its class is found under its id, is an 'outgoing' one
-- whose indicator fits in a byte, and the value fits the body and is, as in each message object, not
-- None.
abbrev pub Known : AppName → Registry → Message → Type 0
Known app r (c, v) =
    (find_id app c.msg_id r.by_id ≡ some c)
    × (c.msg_id.direction ≡ "outgoing")
    × ((n : ℕ) × (head : Bytes) × (id_to_bytes c.msg_id ≡ ok (n, head)))
    × IsWire c.body v
    × (record_given c.body v ≡ v)

-- The payloads are the messages packed, one each.
abbrev pub Packed : List Message → List Bytes → Type 0
Packed [] [] = Unit
Packed ((c, v) ∷ ms) (p ∷ ps) = (to_bytes c v ≡ ok (length p, p)) × Packed ms ps
Packed _ _ = ⊥

module _ (app : AppName) (r : Registry) where
  unfoldable pub receive : List Bytes → AppSession → AppSession
  receive [] a = a
  receive (p ∷ ps) a = receive ps (on_soup_message (from_bytes app r) (sequenced_data p) a).1

  one :
      (m : Message) (a : AppSession)
      → Known app r m
      → (p : Bytes) × (to_bytes m.0 m.1 ≡ ok (length p, p))
        × ((on_soup_message (from_bytes app r) (sequenced_data p) a).1
            ≡ record a { message_queue = Queue.put m a.message_queue })
  unfolding on_soup_message
  one (c, v) a (found, out, (n, head, packed), w, given) =
      let (p, q, read) = message_round_trip app r c v n head found out packed w in
      let whole : from_bytes app r (p ++ []) ≡ ok (pos (length p), c, v) = rw given at (read []) in
      (
        p,
        q,
        ap (λ (x : Result (ℤ × MessageClass × Value)). (decoded (from_bytes app r) x a).1)
            (ap (from_bytes app r) (sym (append-nil p)) ∙ whole),
      )

  -- The packed messages, as the payloads of sequenced data, come into the application's queue one
  -- for one and in order, behind what it held: for messages that the application can decode.
  pub receive-packed :
      (ms : List Message) (a : AppSession)
      → All (Known app r) ms
      → (ps : List Bytes) × Packed ms ps
        × (all (receive ps a).message_queue ≡ all a.message_queue ++ ms)
  unfolding receive
  receive-packed [] a h = ([], tt, sym (append-nil (all a.message_queue)))
  receive-packed (m ∷ ms) a (h, hs) =
      let (p, q, e) = one m a h in
      let a' : AppSession = record a { message_queue = Queue.put m a.message_queue } in
      let (ps, qs, es) = receive-packed ms a' hs in
      (
        p ∷ ps,
        (q, qs),
        ap (λ (x : AppSession). all (receive ps x).message_queue) e
            ∙ es
            ∙ ap (λ (l : List Message). l ++ ms) (put_all m a.message_queue)
            ∙ append_assoc (all a.message_queue) (m ∷ []) ms,
      )
    where
      put_all : (m : Message) (q : Queue Message) → all (Queue.put m q) ≡ all q ++ m ∷ []
      put_all m q = unfold Queue.put in push-all m q q.buffer_msg_queue refl
