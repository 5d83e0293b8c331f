-- ===== src/Ready.antt =====
-- src/keziah/queue/ready.py: the in-memory ready index.
-- A heap of `heapq` is read at its least entry only, so it stands as the list of its entries in
-- order: `heap[0]` is the head, `heappop` the tail, and `heappush` an insertion by the order of
-- the tuples. Sequence numbers are distinct, so that order never reaches the job id.
pub mod Live
pub mod Heaps
pub mod Heads
pub mod Turns
use keziah.Base.{
  ℕ, suc, String, Bool, true, false, Option, none, some, List, [], ◌∷◌, ◌++◌, ltb, if◌then◌else◌,
  Dict, lookup, insert, erase, ◌==◌, string_eq, option_eq, pair_eq,
}
use keziah.Base.Int.{ℤ, neg, ltb_ℤ}
use keziah.Types.{Candidate}
use keziah.Scheduler.Numbers.{Float}
use keziah.Scheduler.{Weights, PickerState, select}

-- A lane is (model, scheduling class, client).
abbrev pub Lane : Type 0
Lane = String × (String × String)

abbrev pub lane_of : Candidate → Lane
lane_of c = (c.model, (c.scheduling_class, c.client_id))

pub record Entry : Type 0 where
  pub neg_priority : ℤ
  pub created_at : ℕ
  pub seq : ℕ
  pub job_id : String

-- `<` on the tuples.
unfoldable pub entry_lt : Entry → Entry → Bool
entry_lt a b =
    if ltb_ℤ a.neg_priority b.neg_priority
    then true
    else if ltb_ℤ b.neg_priority a.neg_priority
    then false
    else if ltb a.created_at b.created_at
    then true
    else if ltb b.created_at a.created_at
    then false
    else ltb a.seq b.seq

-- `heapq.heappush`.
unfoldable pub heappush : Entry → List Entry → List Entry
heappush e [] = e ∷ []
heappush e (x ∷ heap) = if entry_lt e x then e ∷ x ∷ heap else x ∷ heappush e heap

pub record Index : Type 0 where
  pub next_seq : ℕ
  pub heaps : Dict Lane (List Entry)
  pub live : Dict String Lane
  pub meta : Dict String Candidate

abbrev pub empty_index : Index
empty_index = record { next_seq = 0; heaps = []; live = []; meta = [] }

-- `remove` leaves the heap entry behind.
unfoldable pub remove : String → Index → Index
remove job_id i = record i { live = erase job_id i.live; meta = erase job_id i.meta }

-- `self._heaps.setdefault(lane, [])`.
abbrev pub heap_at : Lane → Dict Lane (List Entry) → List Entry
heap_at lane heaps = elim (lookup lane heaps) [ none ↦ [] | some heap ↦ heap ]

abbrev pub entry_of : ℕ → Candidate → Entry
entry_of seq c = record {
  neg_priority = neg c.priority;
  created_at = c.created_at;
  seq = seq;
  job_id = c.job_id;
}

abbrev pub push_live : Candidate → Index → Index
push_live c i = record {
  next_seq = suc i.next_seq;
  heaps =
      insert (lane_of c) (heappush (entry_of i.next_seq c) (heap_at (lane_of c) i.heaps)) i.heaps;
  live = insert c.job_id (lane_of c) i.live;
  meta = insert c.job_id c i.meta;
}

unfoldable pub add : Candidate → Index → Index
unfolding remove
add c i = push_live c (remove c.job_id i)

unfoldable pub add_all : List Candidate → Index → Index
add_all [] i = i
add_all (c ∷ cs) i = add_all cs (add c i)

-- `rebuild` clears everything but the sequence counter.
unfoldable pub rebuild : List Candidate → Index → Index
unfolding add_all
rebuild cs i = add_all cs (record { next_seq = i.next_seq; heaps = []; live = []; meta = [] })

-- The heap that `_pop_dead` leaves: entries that are not live in this lane are popped off the top.
unfoldable pub pop_dead : Dict String Lane → Lane → List Entry → List Entry
pop_dead live lane [] = []
pop_dead live lane (e ∷ heap) = elim (lookup e.job_id live == some lane) [
  | true ↦ e ∷ heap
  | false ↦ pop_dead live lane heap
]

-- One lane of `heads`: an empty heap is dropped, and the head's candidate is found.
abbrev pub settle_lane : Lane → List Entry → Index → List Candidate → Index × List Candidate
settle_lane lane [] i found = (record i { heaps = erase lane i.heaps }, found)
settle_lane lane (e ∷ heap) i found = (
  record i { heaps = insert lane (e ∷ heap) i.heaps },
  elim (lookup e.job_id i.meta) [ none ↦ found | some c ↦ found ++ c ∷ [] ],
)

-- The loop of `heads` over the lanes of a snapshot.
unfoldable pub heads_from :
    String → List (Lane × List Entry) → Index → List Candidate → Index × List Candidate
heads_from model [] i found = (i, found)
heads_from model ((lane, heap) ∷ rest) i found = elim (lane.0 == model) [
  | true ↦
      let next = settle_lane lane (pop_dead i.live lane heap) i found in
      heads_from model rest next.0 next.1
  | false ↦ heads_from model rest i found
]

unfoldable pub heads : String → Index → Index × List Candidate
unfolding heads_from
heads model i = heads_from model i.heaps i []

module _ (F : Float) (settings : Weights F) where
  unfoldable pub propose :
      String → PickerState F → ℕ → Index → Index × (Option Candidate × PickerState F)
  unfolding heads
  propose model state now i =
      let found = heads model i in (found.0, select F settings state model found.1 now)
