-- ===== src/Ready/Heads.antt =====
-- `heads` of the ready index: each lane of the model that has a live job shows one candidate.
use keziah.Base.{
  ◌≡◌, refl, sym, ap, subst, ◌∙◌, inl, inr, String, true, false, Option, none, some, List, [], ◌∷◌,
  arith, Bool-cases, Eq, Dict, lookup, keys, contains, Distinct, All, ◌==◌, string_eq, pair_eq,
  option_eq, eq_self,
}
use keziah.Types.{Candidate}
use keziah.Scheduler.{is_empty}
use keziah.Ready.{Index, Lane, Entry, heap_at, pop_dead, settle_lane, heads_from, heads}
use keziah.Ready.Heaps.{has_entry, HintOk, HintsOk, IndexOk, pop_dead-keeps}
use keziah.Ready.Turns.{
  pop_dead-HeadLive, settle_lane-hints, turn-HintsOk, AsListed, other_lanes, Shown, turn-Shown,
  turn-is_empty, turn_shows,
}

pub record HeadsOk (i : Index) (r : Index × List Candidate) : Type 0 where
  pub live_same : r.0.live ≡ i.live
  pub meta_same : r.0.meta ≡ i.meta
  pub index_ok : HintsOk r.0.heaps i.live i.meta
  pub shown : All (Shown i.live i.meta) r.1

pub moved-HintsOk :
    (heaps : Dict Lane (List Entry)) (live live' : Dict String Lane)
    (meta meta' : Dict String Candidate)
    → live ≡ live'
    → meta ≡ meta'
    → HintsOk heaps live meta
    → HintsOk heaps live' meta'
moved-HintsOk heaps live live' meta meta' e f ok =
    subst (λ m. HintsOk heaps live' m) f (subst (λ l. HintsOk heaps l meta) e ok)

moved-Shown :
    (live live' : Dict String Lane) (meta meta' : Dict String Candidate) (found : List Candidate)
    → live ≡ live'
    → All (Shown live meta) found
    → All (Shown live' meta') found
moved-Shown live live' meta meta' [] e a = tt
moved-Shown live live' meta meta' (c ∷ cs) e a =
    (ap (lookup c.job_id) (sym e) ∙ a.0, moved-Shown live live' meta meta' cs e a.1)

after_turn :
    (i next : Index) (r : Index × List Candidate)
    → next.live ≡ i.live
    → next.meta ≡ i.meta
    → HeadsOk next r
    → HeadsOk i r
after_turn i next r e f ok = record {
  live_same = ok.live_same ∙ e;
  meta_same = ok.meta_same ∙ f;
  index_ok = moved-HintsOk r.0.heaps next.live i.live next.meta i.meta e f ok.index_ok;
  shown = moved-Shown next.live i.live next.meta i.meta r.1 e ok.shown;
}

next-IndexOk :
    (lane : Lane) (heap : List Entry) (i : Index) (found : List Candidate)
    → IndexOk i
    → heap_at lane i.heaps ≡ heap
    → IndexOk (settle_lane lane (pop_dead i.live lane heap) i found).0
next-IndexOk lane heap i found ok e =
    let popped = pop_dead i.live lane heap in
    let next = (settle_lane lane popped i found).0 in
    let (l, m) = settle_lane-hints lane popped i found in
    moved-HintsOk next.heaps i.live next.live i.meta next.meta (sym l) (sym m)
      (turn-HintsOk i.live i.meta lane heap i found ok e)

module _ (model : String) where
  heads_from-HeadsOk :
      (lanes : List (Lane × List Entry)) (i : Index) (found : List Candidate)
      → IndexOk i
      → Distinct (keys lanes)
      → AsListed i.live i.meta i.heaps lanes
      → All (Shown i.live i.meta) found
      → HeadsOk i (heads_from model lanes i found)
  unfolding heads_from keys
  heads_from-HeadsOk [] i found ok d a s = record {
    live_same = refl;
    meta_same = refl;
    index_ok = ok;
    shown = s;
  }
  heads_from-HeadsOk ((lane, heap) ∷ rest) i found ok d a s = elim (Bool-cases (lane.0 == model)) [
    | inl e ↦
        let popped = pop_dead i.live lane heap in
        let next = settle_lane lane popped i found in
        let (l, m) = settle_lane-hints lane popped i found in
        rw (e, heads_from)
          (after_turn i next.0 (heads_from model rest next.0 next.1) l m (
            heads_from-HeadsOk rest next.0 next.1 (next-IndexOk lane heap i found ok a.0) d.1
              (other_lanes i.live i.meta lane popped i found rest d.0 a.1)
              (moved-Shown i.live next.0.live i.meta next.0.meta next.1 (sym l) (
                turn-Shown i.live i.meta lane popped i found ok refl
                  (pop_dead-HeadLive i.live lane heap) s))))
    | inr e ↦ rw (e, heads_from) (heads_from-HeadsOk rest i found ok d.1 a.1 s)
  ]

  -- Candidates found stay found.
  heads_from-is_empty :
      (lanes : List (Lane × List Entry)) (i : Index) (found : List Candidate)
      → is_empty found ≡ false
      → is_empty (heads_from model lanes i found).1 ≡ false
  unfolding heads_from
  heads_from-is_empty [] i found h = h
  heads_from-is_empty ((lane, heap) ∷ rest) i found h = elim (Bool-cases (lane.0 == model)) [
    | inl e ↦
        let next = settle_lane lane (pop_dead i.live lane heap) i found in
        rw (e, heads_from)
          (heads_from-is_empty rest next.0 next.1
            (turn-is_empty lane (pop_dead i.live lane heap) i found h))
    | inr e ↦ rw (e, heads_from) (heads_from-is_empty rest i found h)
  ]

  -- A lane of the model with a live job shows a candidate.
  heads_from-shows :
      (lanes : List (Lane × List Entry)) (i : Index) (found : List Candidate) (id : String)
      (l : Lane)
      → IndexOk i
      → Distinct (keys lanes)
      → AsListed i.live i.meta i.heaps lanes
      → lookup id i.live ≡ some l
      → (l.0 == model) ≡ true
      → has_entry id (heap_at l lanes) ≡ true
      → is_empty (heads_from model lanes i found).1 ≡ false
  unfolding heads_from keys lookup has_entry
  heads_from-shows [] i found id l ok d a h m has = cc
  heads_from-shows ((lane, heap) ∷ rest) i found id l ok d a h m has =
      elim (Bool-cases (lane == l)) [
        | inl e ↦
            let q : Eq Lane = pair_eq in
            let same : lane ≡ l = (q.beq_iff lane l).0 e in
            let popped = pop_dead i.live lane heap in
            let next = settle_lane lane popped i found in
            let has' : has_entry id heap ≡ true = ground (arith, e, has) in
            let h' : lookup id i.live ≡ some lane = h ∙ ap some (sym same) in
            let m' : (lane.0 == model) ≡ true = ap (λ (x : Lane). x.0 == model) same ∙ m in
            rw (m', heads_from)
              (heads_from-is_empty rest next.0 next.1 (
                turn_shows lane popped i found id ok (pop_dead-HeadLive i.live lane heap)
                  (pop_dead-keeps i.live lane heap id h' ∙ has')))
        | inr e ↦
            let has' : has_entry id (heap_at l rest) ≡ true = ground (arith, e, has) in
            elim (Bool-cases (lane.0 == model)) [
              | inl f ↦
                  let popped = pop_dead i.live lane heap in
                  let next = settle_lane lane popped i found in
                  let (same, _) = settle_lane-hints lane popped i found in
                  rw (f, heads_from)
                    (heads_from-shows rest next.0 next.1 id l
                      (next-IndexOk lane heap i found ok a.0) d.1
                      (other_lanes i.live i.meta lane popped i found rest d.0 a.1)
                      (ap (lookup id) same ∙ h) m has')
              | inr f ↦ rw (f, heads_from) (heads_from-shows rest i found id l ok d.1 a.1 h m has')
            ]
      ]

-- The snapshot lists each lane with its heap.
shift_listed :
    (live : Dict String Lane) (meta : Dict String Candidate) (lane : Lane) (heap : List Entry)
    (heaps lanes : Dict Lane (List Entry))
    → contains (keys lanes) lane ≡ false
    → AsListed live meta heaps lanes
    → AsListed live meta ((lane, heap) ∷ heaps) lanes
unfolding lookup contains keys
shift_listed live meta lane heap heaps [] h a = tt
shift_listed live meta lane heap heaps ((l, x) ∷ lanes) h a =
    let q : Eq Lane = pair_eq in
    (
      ground (arith, q.beq_iff lane l, q.beq_iff l lane, a.0, h),
      shift_listed live meta lane heap heaps lanes (ground arith) a.1,
    )

first_lane :
    (lane : Lane) (heap : List Entry) (heaps : Dict Lane (List Entry))
    → heap_at lane ((lane, heap) ∷ heaps) ≡ heap
unfolding lookup
first_lane lane heap heaps = ground (arith, eq_self lane)

snapshot :
    (live : Dict String Lane) (meta : Dict String Candidate) (heaps : Dict Lane (List Entry))
    → Distinct (keys heaps)
    → AsListed live meta heaps heaps
unfolding keys
snapshot live meta [] d = tt
snapshot live meta ((lane, heap) ∷ heaps) d = (
  first_lane lane heap heaps,
  shift_listed live meta lane heap heaps heaps d.0 (snapshot live meta heaps d.1),
)

pub heads-HeadsOk : (model : String) (i : Index) → IndexOk i → HeadsOk i (heads model i)
unfolding heads
heads-HeadsOk model i ok =
    heads_from-HeadsOk model i.heaps i [] ok ok.lanes (snapshot i.live i.meta i.heaps ok.lanes) tt

entry_there :
    (heaps : Dict Lane (List Entry)) (id : String) (lane : Lane) (l : Option Lane)
    (o : Option Candidate)
    → HintOk heaps id l o
    → l ≡ some lane
    → has_entry id (heap_at lane heaps) ≡ true
entry_there heaps id lane none o h e = cc
entry_there heaps id lane (some l) none h e = absurd h
entry_there heaps id lane (some l) (some c) h e = ground (arith, h.2)

-- In an index in order, a model whose lane holds a live job shows a candidate, however many dead
-- entries lie above the job's.
pub heads-is_empty :
    (model id : String) (l : Lane) (i : Index)
    → IndexOk i
    → lookup id i.live ≡ some l
    → l.0 ≡ model
    → is_empty (heads model i).1 ≡ false
unfolding heads
heads-is_empty model id l i ok h m =
    heads_from-shows model i.heaps i [] id l ok ok.lanes (snapshot i.live i.meta i.heaps ok.lanes) h
      ((string_eq.beq_iff l.0 model).1 m)
      (entry_there i.heaps id l (lookup id i.live) (lookup id i.meta) (ok.hint id) h)
