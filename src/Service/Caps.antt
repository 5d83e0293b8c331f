-- ===== src/Service/Caps.antt =====
-- The slots of the models in src/keziah/service.py: no model runs more than its cap.
use keziah.Base.{
  ℕ, suc, ◌-◌, ◌≤◌, ◌≡◌, ap, String, arith, leb, if◌then◌else◌, lookup-insert, ◌==◌, string_eq,
}
use keziah.Service.{Slots, active_or, try_reserve, release}

-- No model is over its cap.
abbrev pub Capped : (String → ℕ) → Slots → Type 0
Capped cap s = (model : String) → active_or 0 model s.active ≤ cap model

-- Reserving a slot and giving one back keep every model within its cap; a slot is refused exactly
-- when the model is at its cap, and a granted one makes one more run of that model and of no other.
pub slots-Capped :
    (cap : String → ℕ) (model : String) (s : Slots)
    → Capped cap s
    → Capped cap (try_reserve (cap model) model s).1
      × Capped cap (release model s)
      × ((try_reserve (cap model) model s).0 ≡ leb (suc (active_or 0 model s.active)) (cap model))
      × ((other : String)
          → active_or 0 other (try_reserve (cap model) model s).1.active ≡ (
              if (try_reserve (cap model) model s).0
              then (if model == other
                  then suc (active_or 0 model s.active)
                  else active_or 0 other s.active)
              else active_or 0 other s.active))
unfolding try_reserve release
slots-Capped cap model s capped = (
  λ other. ground (
    arith,
    capped other,
    string_eq.beq_iff model other,
    ap cap,
    lookup-insert model other (suc (active_or 0 model s.active)) s.active,
  ),
  λ other. ground (
    arith,
    capped other,
    capped model,
    string_eq.beq_iff model other,
    ap cap,
    lookup-insert model other (active_or 1 model s.active - 1) s.active,
  ),
  ground arith,
  λ other. ground (arith, lookup-insert model other (suc (active_or 0 model s.active)) s.active),
)
