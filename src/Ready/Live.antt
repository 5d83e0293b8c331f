-- ===== src/Ready/Live.antt =====
-- What the operations of the ready index do to the table of live jobs.
use keziah.Base.{ℕ, ◌≡◌, refl, ◌∙◌, inl, inr, String, List, [], ◌∷◌, Bool-cases, ◌==◌, string_eq}
use keziah.Types.{Candidate}
use keziah.Scheduler.Numbers.{Float}
use keziah.Scheduler.{Weights, PickerState}
use keziah.Ready.{Index, Lane, Entry, settle_lane, pop_dead, heads_from, heads, propose}

settle_lane-live :
    (lane : Lane) (heap : List Entry) (i : Index) (found : List Candidate)
    → (settle_lane lane heap i found).0.live ≡ i.live
settle_lane-live lane [] i found = refl
settle_lane-live lane (e ∷ heap) i found = refl

heads_from-live :
    (model : String) (lanes : List (Lane × List Entry)) (i : Index) (found : List Candidate)
    → (heads_from model lanes i found).0.live ≡ i.live
unfolding heads_from
heads_from-live model [] i found = refl
heads_from-live model ((lane, heap) ∷ rest) i found =
    let next = settle_lane lane (pop_dead i.live lane heap) i found in
    elim (Bool-cases (lane.0 == model)) [
      | inl e ↦
          rw (e, heads_from)
            (heads_from-live model rest next.0 next.1
              ∙ settle_lane-live lane (pop_dead i.live lane heap) i found)
      | inr e ↦ rw (e, heads_from) (heads_from-live model rest i found)
    ]

-- Looking at the heads pops dead entries, and changes no job's place.
pub propose-live :
    (F : Float) (settings : Weights F) (model : String) (state : PickerState F) (now : ℕ)
    (i : Index)
    → (propose F settings model state now i).0.live ≡ i.live
unfolding propose heads
propose-live F settings model state now i = heads_from-live model i.heaps i []
