-- ===== src/Ready/Heaps.antt =====
-- The heaps of the ready index: every live job has an entry in the heap of its lane, whatever dead
-- entries stand above it.
use keziah.Base.{
  ◌≡◌, refl, subst, inl, inr, String, Bool, true, false, ◌||◌, Option, none, some, List, [], ◌∷◌,
  arith, if◌then◌else◌, Bool-cases, split_if, Eq, Dict, lookup, insert, keys, Distinct,
  lookup-insert, lookup-erase, insert-Distinct, ◌==◌, string_eq, pair_eq, option_eq, eq_self,
}
use keziah.Types.{Candidate}
use keziah.Ready.{
  Index, Lane, Entry, lane_of, entry_of, heap_at, heappush, push_live, add, remove, pop_dead,
}

unfoldable pub has_entry : String → List Entry → Bool
has_entry id [] = false
has_entry id (e ∷ heap) = e.job_id == id || has_entry id heap

-- What the index keeps for one id.
abbrev pub HintOk : Dict Lane (List Entry) → String → Option Lane → Option Candidate → Type 0
HintOk heaps id none none = Unit
HintOk heaps id none (some c) = ⊥
HintOk heaps id (some lane) none = ⊥
HintOk heaps id (some lane) (some c) =
    (c.job_id ≡ id) × (lane_of c ≡ lane) × (has_entry id (heap_at lane heaps) ≡ true)

pub record HintsOk (heaps : Dict Lane (List Entry)) (live : Dict String Lane)
    (meta : Dict String Candidate) : Type 0 where
  pub lanes : Distinct (keys heaps)
  pub hint : (id : String) → HintOk heaps id (lookup id live) (lookup id meta)

abbrev pub IndexOk : Index → Type 0
IndexOk i = HintsOk i.heaps i.live i.meta

has_entry-heappush :
    (id : String) (e : Entry) (heap : List Entry)
    → has_entry id (heappush e heap) ≡ (e.job_id == id || has_entry id heap)
unfolding has_entry heappush
has_entry-heappush id e [] = refl
has_entry-heappush id e (x ∷ heap) = ground (arith, has_entry-heappush id e heap)

pub heap_at-insert :
    (lane l : Lane) (heap : List Entry) (heaps : Dict Lane (List Entry))
    → heap_at l (insert lane heap heaps) ≡ (if lane == l then heap else heap_at l heaps)
heap_at-insert lane l heap heaps = ground (arith, lookup-insert lane l heap heaps)

-- Where no heap loses a live entry, the hints stay good.
pub regrow-HintOk :
    (heaps heaps' : Dict Lane (List Entry)) (id : String) (lane : Option Lane)
    (c : Option Candidate)
    → ((l : Lane)
        → lane ≡ some l
        → has_entry id (heap_at l heaps) ≡ true
        → has_entry id (heap_at l heaps') ≡ true)
    → HintOk heaps id lane c
    → HintOk heaps' id lane c
regrow-HintOk heaps heaps' id none none grows h = tt
regrow-HintOk heaps heaps' id none (some c) grows h = h
regrow-HintOk heaps heaps' id (some lane) none grows h = h
regrow-HintOk heaps heaps' id (some lane) (some c) grows h = (h.0, h.1, grows lane refl h.2)

pub remove-IndexOk : (id : String) (i : Index) → IndexOk i → IndexOk (remove id i)
unfolding remove
remove-IndexOk id i ok = record {
  lanes = ok.lanes;
  hint = λ k.
      rw (lookup-erase id k i.live, lookup-erase id k i.meta)
        (split_if (λ l. HintOk i.heaps k l (if id == k then none else lookup k i.meta)) (id == k)
          (λ e. rw e tt) (λ e. rw e (ok.hint k)));
}

push_grows :
    (c : Candidate) (i : Index) (k : String) (l : Lane)
    → has_entry k (heap_at l i.heaps) ≡ true
    → has_entry k (heap_at l (push_live c i).heaps) ≡ true
push_grows c i k l h =
    let e : Eq Lane = pair_eq in
    ground (
      arith,
      heap_at-insert (lane_of c) l (heappush (entry_of i.next_seq c) (heap_at (lane_of c) i.heaps))
          i.heaps,
      has_entry-heappush k (entry_of i.next_seq c) (heap_at (lane_of c) i.heaps),
      e.beq_iff (lane_of c) l,
      h,
    )

pushed :
    (c : Candidate) (i : Index)
    → has_entry c.job_id (heap_at (lane_of c) (push_live c i).heaps) ≡ true
pushed c i = ground (
  arith,
  heap_at-insert (lane_of c) (lane_of c)
      (heappush (entry_of i.next_seq c) (heap_at (lane_of c) i.heaps)) i.heaps,
  has_entry-heappush c.job_id (entry_of i.next_seq c) (heap_at (lane_of c) i.heaps),
  eq_self (lane_of c),
  eq_self c.job_id,
)

push_live-IndexOk : (c : Candidate) (i : Index) → IndexOk i → IndexOk (push_live c i)
push_live-IndexOk c i ok = record {
  lanes = insert-Distinct _ _ i.heaps ok.lanes;
  hint = λ k.
      rw (lookup-insert c.job_id k (lane_of c) i.live, lookup-insert c.job_id k c i.meta)
        (elim (Bool-cases (c.job_id == k)) [
          | inl e ↦
              let same : c.job_id ≡ k = (string_eq.beq_iff c.job_id k).0 e in
              rw e (
                same,
                refl,
                subst (λ x. has_entry x (heap_at (lane_of c) (push_live c i).heaps) ≡ true) same
                    (pushed c i),
              )
          | inr e ↦ rw e (
              regrow-HintOk i.heaps (push_live c i).heaps k (lookup k i.live) (lookup k i.meta)
                (λ l _. push_grows c i k l) (ok.hint k))
        ]);
}

pub add-IndexOk : (c : Candidate) (i : Index) → IndexOk i → IndexOk (add c i)
unfolding add
add-IndexOk c i ok = push_live-IndexOk c (remove c.job_id i) (remove-IndexOk c.job_id i ok)

-- Popping the dead loses no live entry.
pub pop_dead-keeps :
    (live : Dict String Lane) (lane : Lane) (heap : List Entry) (id : String)
    → lookup id live ≡ some lane
    → has_entry id (pop_dead live lane heap) ≡ has_entry id heap
unfolding pop_dead has_entry
pop_dead-keeps live lane [] id h = refl
pop_dead-keeps live lane (e ∷ heap) id h =
    let o : Eq (Option Lane) = option_eq in
    ground (
      arith,
      pop_dead-keeps live lane heap id h,
      string_eq.beq_iff e.job_id id,
      o.beq_iff (lookup e.job_id live) (some lane),
    )
