-- ===== src/Ready/Turns.antt =====
-- One turn of `heads` of src/keziah/queue/ready.py: what the lane shows, and the index it leaves.
use keziah.Base.{
  ◌≡◌, ◌≢◌, refl, sym, ap, ◌∙◌, inl, inr, String, true, false, Option, none, some, List, [], ◌∷◌,
  ◌++◌, arith, if◌then◌else◌, Bool-cases, split_option, Eq, Dict, lookup, erase, keys, contains,
  Distinct, All, lookup-erase, insert-Distinct, erase-Distinct, ◌==◌, string_eq, pair_eq, option_eq,
}
use keziah.Types.{Candidate}
use keziah.Scheduler.{is_empty}
use keziah.Ready.{Index, Lane, Entry, lane_of, heap_at, pop_dead, settle_lane}
use keziah.Ready.Heaps.{
  has_entry, HintOk, HintsOk, IndexOk, regrow-HintOk, heap_at-insert, pop_dead-keeps,
}

-- The first entry that `_pop_dead` leaves is live in the lane.
abbrev HeadLive : Dict String Lane → Lane → List Entry → Type 0
HeadLive live lane [] = Unit
HeadLive live lane (e ∷ heap) = lookup e.job_id live ≡ some lane

eq_lanes : (x y : Option Lane) → (x == y) ≡ true → x ≡ y
eq_lanes x y h = let o : Eq (Option Lane) = option_eq in (o.beq_iff x y).0 h

pub pop_dead-HeadLive :
    (live : Dict String Lane) (lane : Lane) (heap : List Entry)
    → HeadLive live lane (pop_dead live lane heap)
unfolding pop_dead
pop_dead-HeadLive live lane [] = tt
pop_dead-HeadLive live lane (e ∷ heap) = elim (Bool-cases (lookup e.job_id live == some lane)) [
  | inl h ↦ rw (h, pop_dead) (eq_lanes (lookup e.job_id live) (some lane) h)
  | inr h ↦ rw (h, pop_dead) (pop_dead-HeadLive live lane heap)
]

heap_at-erase :
    (lane l : Lane) (heaps : Dict Lane (List Entry))
    → heap_at l (erase lane heaps) ≡ (if lane == l then [] else heap_at l heaps)
heap_at-erase lane l heaps = ground (arith, lookup-erase lane l heaps)

-- The heap of a lane after its turn, and the heaps of the others.
settle_lane-heap_at :
    (lane l : Lane) (heap : List Entry) (i : Index) (found : List Candidate)
    → heap_at l (settle_lane lane heap i found).0.heaps
      ≡ (if lane == l then heap else heap_at l i.heaps)
settle_lane-heap_at lane l [] i found = heap_at-erase lane l i.heaps
settle_lane-heap_at lane l (e ∷ heap) i found = heap_at-insert lane l (e ∷ heap) i.heaps

settle_lane-lanes :
    (lane : Lane) (heap : List Entry) (i : Index) (found : List Candidate)
    → Distinct (keys i.heaps)
    → Distinct (keys (settle_lane lane heap i found).0.heaps)
settle_lane-lanes lane [] i found d = erase-Distinct lane i.heaps d
settle_lane-lanes lane (e ∷ heap) i found d = insert-Distinct lane (e ∷ heap) i.heaps d

pub settle_lane-hints :
    (lane : Lane) (heap : List Entry) (i : Index) (found : List Candidate)
    → ((settle_lane lane heap i found).0.live ≡ i.live)
      × ((settle_lane lane heap i found).0.meta ≡ i.meta)
settle_lane-hints lane [] i found = (refl, refl)
settle_lane-hints lane (e ∷ heap) i found = (refl, refl)

module _ (live : Dict String Lane) (meta : Dict String Candidate) where
  -- One turn keeps the hints good.
  pub turn-HintsOk :
      (lane : Lane) (heap : List Entry) (i : Index) (found : List Candidate)
      → HintsOk i.heaps live meta
      → heap_at lane i.heaps ≡ heap
      → HintsOk (settle_lane lane (pop_dead live lane heap) i found).0.heaps live meta
  turn-HintsOk lane heap i found ok e = record {
    lanes = settle_lane-lanes lane (pop_dead live lane heap) i found ok.lanes;
    hint = λ k.
        regrow-HintOk i.heaps _ k (lookup k live) (lookup k meta) (λ l h has. grows k l h has)
          (ok.hint k);
  }
    where
      grows :
          (k : String) (l : Lane)
          → lookup k live ≡ some l
          → has_entry k (heap_at l i.heaps) ≡ true
          → has_entry k (heap_at l (settle_lane lane (pop_dead live lane heap) i found).0.heaps)
            ≡ true
      grows k l h has =
          rw (settle_lane-heap_at lane l (pop_dead live lane heap) i found)
            (elim (Bool-cases (lane == l)) [
              | inl same ↦
                  let q : Eq Lane = pair_eq in
                  let s : lane ≡ l = (q.beq_iff lane l).0 same in
                  rw same (
                    pop_dead-keeps live lane heap k (h ∙ ap some (sym s))
                    ∙ ap (has_entry k) (sym e ∙ ap (λ x. heap_at x i.heaps) s)
                    ∙ has)
              | inr other ↦ rw other has
            ])

  -- The lanes still to come are as in the snapshot.
  abbrev pub AsListed : Dict Lane (List Entry) → List (Lane × List Entry) → Type 0
  AsListed heaps [] = Unit
  AsListed heaps ((lane, heap) ∷ rest) = (heap_at lane heaps ≡ heap) × AsListed heaps rest

  pub other_lanes :
      (lane : Lane) (heap : List Entry) (i : Index) (found : List Candidate)
      (rest : List (Lane × List Entry))
      → contains (keys rest) lane ≡ false
      → AsListed i.heaps rest
      → AsListed (settle_lane lane heap i found).0.heaps rest
  unfolding contains keys
  other_lanes lane heap i found [] h a = tt
  other_lanes lane heap i found ((l, x) ∷ rest) h a =
      let q : Eq Lane = pair_eq in
      (
        ground (
          arith,
          settle_lane-heap_at lane l heap i found,
          q.beq_iff lane l,
          q.beq_iff l lane,
          a.0,
          h,
        ),
        other_lanes lane heap i found rest (ground arith) a.1,
      )

  -- A candidate that `heads` shows is live, in its own lane.
  abbrev pub Shown : Candidate → Type 0
  Shown c = lookup c.job_id live ≡ some (lane_of c)

  shown_of :
      (heaps : Dict Lane (List Entry)) (id : String) (lane : Lane) (c : Candidate) (l : Option Lane)
      (o : Option Candidate)
      → HintOk heaps id l o
      → l ≡ some lane
      → o ≡ some c
      → (c.job_id ≡ id) × (lane_of c ≡ lane)
  shown_of heaps id lane c none o h e f = cc
  shown_of heaps id lane c (some l) none h e f = cc
  shown_of heaps id lane c (some l) (some d) h e f = ground (arith, h.0, h.1)

  All-snoc :
      (found : List Candidate) (c : Candidate)
      → All Shown found
      → Shown c
      → All Shown (found ++ c ∷ [])
  All-snoc [] c a s = (s, tt)
  All-snoc (x ∷ xs) c a s = (a.0, All-snoc xs c a.1 s)

  pub turn-Shown :
      (lane : Lane) (heap : List Entry) (i : Index) (found : List Candidate)
      → HintsOk i.heaps live meta
      → i.meta ≡ meta
      → HeadLive live lane heap
      → All Shown found
      → All Shown (settle_lane lane heap i found).1
  turn-Shown lane [] i found ok m h a = a
  turn-Shown lane (e ∷ heap) i found ok m h a =
      split_option (All Shown) (lookup e.job_id i.meta) (λ _. a)
        λ c n.
          let n' : lookup e.job_id meta ≡ some c = ap (lookup e.job_id) (sym m) ∙ n in
          let (same, lane') = shown_of i.heaps e.job_id lane c _ _ (ok.hint e.job_id) h n' in
          All-snoc found c a (ap (λ x. lookup x live) same ∙ h ∙ ap some (sym lane'))

snoc-is_empty : (found : List Candidate) (c : Candidate) → is_empty (found ++ c ∷ []) ≡ false
snoc-is_empty [] c = refl
snoc-is_empty (x ∷ xs) c = refl

-- A heap with a live head shows a candidate, and no turn takes one back.
pub turn-is_empty :
    (lane : Lane) (heap : List Entry) (i : Index) (found : List Candidate)
    → is_empty found ≡ false
    → is_empty (settle_lane lane heap i found).1 ≡ false
turn-is_empty lane [] i found h = h
turn-is_empty lane (e ∷ heap) i found h =
    split_option (λ (f : List Candidate). is_empty f ≡ false) (lookup e.job_id i.meta) (λ _. h)
      (λ c _. snoc-is_empty found c)

meta_there :
    (heaps : Dict Lane (List Entry)) (id : String) (lane : Lane) (l : Option Lane)
    (o : Option Candidate)
    → HintOk heaps id l o
    → l ≡ some lane
    → o ≢ none
meta_there heaps id lane none o h e n = cc
meta_there heaps id lane (some l) none h e n = h
meta_there heaps id lane (some l) (some c) h e n = cc

-- The turn of a lane that has a live job.
pub turn_shows :
    (lane : Lane) (heap : List Entry) (i : Index) (found : List Candidate) (id : String)
    → IndexOk i
    → HeadLive i.live lane heap
    → has_entry id heap ≡ true
    → is_empty (settle_lane lane heap i found).1 ≡ false
unfolding has_entry
turn_shows lane [] i found id ok h has = cc
turn_shows lane (e ∷ heap) i found id ok h has =
    split_option (λ (f : List Candidate). is_empty f ≡ false) (lookup e.job_id i.meta)
      (λ n. absurd (meta_there i.heaps e.job_id lane _ _ (ok.hint e.job_id) h n))
      (λ c _. snoc-is_empty found c)

-- What the loop of `heads` keeps, and what it finds.
