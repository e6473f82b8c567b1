-- ===== src/Soup/Session/Server.antt =====
-- How a soup server takes a login: `_on_msg` and `_handle_login` of soup/session.py.
use nasdaq_protocols.Prelude.{
  ℕ, ◌≡◌, ◌⊎◌, refl, sym, ◌∙◌, inl, inr, Bool, true, false, Bool-cases, Option, none, some, List,
  [], ◌∷◌, ℤ, Result, ok, raised,
}
use nasdaq_protocols.Python.Bytes.{Bytes}
use nasdaq_protocols.Python.Text.{Str}
use nasdaq_protocols.Common.Session.Stages.{branch}
use nasdaq_protocols.Soup.Core.{
  SoupMessage, login_request, login_accepted, unsequenced_data, debug, logout_request, to_bytes,
}
use nasdaq_protocols.Soup.Session.{
  SoupSession, Outcome, ◌then_◌, write_to, sent_msg, send_packed, send_msg, update_id, answered,
  reply_to, handle_login, on_msg,
}

abbrev pub Occurs : SoupMessage → List SoupMessage → Type 0
Occurs m [] = ⊥
Occurs m (x ∷ xs) = (m ≡ x) ⊎ Occurs m xs

send_packed_logged_in :
    (m : SoupMessage) (r : Result (ℕ × Bytes)) (s : SoupSession)
    → (send_packed m r s).1.logged_in ≡ s.logged_in
send_packed_logged_in m (raised e) s = refl
send_packed_logged_in m (ok (n, bs)) s = written bs s.common.transport
  where
    written :
        (bs : Bytes) (t : Option Bool)
        → (write_to t bs s then_ λ s'. (ok tt, sent_msg m s')).1.logged_in ≡ s.logged_in
    written bs none = refl
    written bs (some false) = refl
    written bs (some true) = refl

module _ (on_login : SoupMessage → Result SoupMessage) (on_unsequenced : Bytes → Bool) where
  -- The dispatcher gives the messages to `_on_msg`; an exception is logged and the next is given.
  unfoldable pub serve : List SoupMessage → SoupSession → SoupSession
  serve [] s = s
  serve (m ∷ ms) s = serve ms (on_msg on_login on_unsequenced m s).1

  abbrev pub Accepted : SoupMessage → Type 0
  Accepted m =
      (session_id : Str) × (sequence : ℤ) × (on_login m ≡ ok (login_accepted session_id sequence))

  abbrev Reason : SoupMessage → SoupSession → SoupSession → Type 0
  Reason m s s' = s'.logged_in ≡ true → (s.logged_in ≡ true) ⊎ Accepted m

  answered-Reason :
      (m reply : SoupMessage) (s : SoupSession) (o : Outcome)
      → on_login m ≡ ok reply
      → o.1.logged_in ≡ s.logged_in
      → Reason m s (o then_ answered reply).1
  answered-Reason m reply s (raised x, s') e same h = inl (sym same ∙ h)
  answered-Reason m (login_accepted session_id sequence) s (ok u, s') e same h =
      inr (session_id, sequence, e)
  answered-Reason m _ s (ok u, s') e same h = inl (sym same ∙ h)

  reply-Reason :
      (m : SoupMessage) (r : Result SoupMessage) (s : SoupSession)
      → on_login m ≡ r
      → Reason m s (reply_to on_login on_unsequenced r s).1
  reply-Reason m (raised x) s e h = inl h
  reply-Reason m (ok reply) s e h =
      answered-Reason m reply s (send_msg reply s) e
        (unfold send_msg in send_packed_logged_in reply (to_bytes reply) s) h

  handle_login-Reason :
      (m : SoupMessage) (s : SoupSession) → Reason m s (handle_login on_login on_unsequenced m s).1
  unfolding handle_login
  handle_login-Reason m s =
      branch (λ (o : Outcome). Reason m s o.1) s.logged_in _ _ (λ e h. inl e)
        (λ _. reply-Reason m (on_login m) s refl)

  on_msg-Reason :
      (m : SoupMessage) (s : SoupSession) → Reason m s (on_msg on_login on_unsequenced m s).1
  unfolding on_msg
  on_msg-Reason (login_request user password session sequence) s h =
      let m = login_request user password session sequence in
      handle_login-Reason m (update_id m s) h
  on_msg-Reason (unsequenced_data payload) s h = inl h
  on_msg-Reason (debug text) s h = inl h
  on_msg-Reason logout_request s h = inl h
  on_msg-Reason _ s h = inl h

  -- A server session that was not logged in is so later, after whatever messages came, only if one
  -- of them was accepted by `on_login`.
  pub serve_login :
      (ms : List SoupMessage) (s : SoupSession)
      → s.logged_in ≡ false
      → (serve ms s).logged_in ≡ true
      → (m : SoupMessage) × Occurs m ms × Accepted m
  unfolding serve
  serve_login [] s h k = cc
  serve_login (m ∷ ms) s h k =
      let after = (on_msg on_login on_unsequenced m s).1 in
      elim (Bool-cases after.logged_in) [
        | inl e ↦ elim (on_msg-Reason m s e) [ inl before ↦ cc | inr a ↦ (m, inl refl, a) ]
        | inr e ↦ let (x, o, a) = serve_login ms after e k in (x, inr o, a)
      ]
