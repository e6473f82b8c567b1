-- ===== src/Common/Monitor/Trips.antt =====
-- When the monitor of common/session.py trips.
use nasdaq_protocols.Prelude.{
  ℕ, zero, suc, ◌+◌, ◌≤◌, ◌≡◌, refl, ap, ◌∙◌, arith, true, false, not, leb,
}
use nasdaq_protocols.Common.Monitor.{Monitor, tick, ticks}

-- A silent stretch: so many ticks after the last ping was consumed, none has tripped it.
silent :
    (n : ℕ) (m : Monitor)
    → m.is_running ≡ true
    → m.pinged ≡ false
    → m.missed_heartbeats + n ≤ m.tolerate_missed_heartbeats
    → ticks n m ≡ record m { missed_heartbeats = m.missed_heartbeats + n }
unfolding ticks tick
silent zero m r p h = ap (λ (k : ℕ). record m { missed_heartbeats = k }) (omega arith)
silent (suc n) m r p h =
    let next : Monitor = record m { missed_heartbeats = m.missed_heartbeats + 1 } in
    let below : leb m.tolerate_missed_heartbeats m.missed_heartbeats ≡ false = ground arith in
    let step : tick true m ≡ next = simp (r, p, below) in
    let more : m.missed_heartbeats + 1 + n ≡ m.missed_heartbeats + suc n = omega arith in
    ap (ticks n) step
    ∙ silent n next r p (omega arith)
    ∙ ap (λ (k : ℕ). record m { missed_heartbeats = k }) more

ticks_last : (n : ℕ) (m : Monitor) → ticks (suc n) m ≡ tick true (ticks n m)
unfolding ticks
ticks_last zero m = refl
ticks_last (suc n) m = ticks_last n (tick true m)

trip :
    (m : Monitor)
    → m.is_running ≡ true
    → m.pinged ≡ false
    → leb m.tolerate_missed_heartbeats m.missed_heartbeats ≡ true
    → ((tick true m).no_activity ≡ m.no_activity + 1)
      × ((tick true m).is_running ≡ not m.stop_when_no_activity)
unfolding tick
trip m r p h = (simp (r, p, h), simp (r, p, h))

-- A running monitor that has just been pinged, and whose coroutine returns, trips on tick
-- `tolerate + 1` after the ping and on no earlier one, for any tolerated number of missed
-- heartbeats above 0. It then goes on only if it does not stop when there is no activity.
pub trips_after :
    (m : Monitor) (k : ℕ)
    → m.is_running ≡ true
    → m.pinged ≡ true
    → m.tolerate_missed_heartbeats ≡ suc k
    → (ticks (suc k) m).no_activity ≡ m.no_activity
      × ((ticks (suc k) m).is_running ≡ true)
      × ((ticks (suc (suc k)) m).no_activity ≡ m.no_activity + 1)
      × ((ticks (suc (suc k)) m).is_running ≡ not m.stop_when_no_activity)
trips_after m k r p t =
    let consumed : Monitor = record m { pinged = false; missed_heartbeats = 1 } in
    let waited : Monitor = record consumed { missed_heartbeats = 1 + k } in
    let first : tick true m ≡ consumed = unfold tick in simp (r, p) in
    let rest : ticks (suc k) m ≡ ticks k consumed = unfold ticks in ap (ticks k) first in
    let still : ticks (suc k) m ≡ waited = rest ∙ silent k consumed r refl (omega arith) in
    let last : ticks (suc (suc k)) m ≡ tick true waited =
      ticks_last (suc k) m ∙ ap (tick true) still in
    let above : leb m.tolerate_missed_heartbeats (1 + k) ≡ true = ground arith in
    (
      ap (λ (x : Monitor). x.no_activity) still,
      ap (λ (x : Monitor). x.is_running) still ∙ r,
      ap (λ (x : Monitor). x.no_activity) last ∙ (trip waited r refl above).0,
      ap (λ (x : Monitor). x.is_running) last ∙ (trip waited r refl above).1,
    )
