-- ===== src/Index/TopK.antt =====
-- crates/aicortex-index/src/topk.rs: the bounded heap of the best entries. A score, an `f64` under
-- `total_cmp`, is its place in that total order; a chunk id is its code points, whose order is that
-- of its UTF-8 bytes. The `BinaryHeap` of the standard library is the bag of its entries, a list in
-- whatever order they came: `peek` looks for an entry that is worst, `pop` removes it, and
-- `into_sorted_vec` sorts them.
use Prim.Native.Nat.{Ordering, compare}
use aicortex.Prelude.{
  ℕ, ◌+◌, ◌≡◌, Bool, true, false, not, List, [], ◌∷◌, ◌++◌, ltb, leb, ◌==◌, if◌then◌else◌, length,
}
use aicortex.Prelude.Order.{then_with, compare_keys, is_gt}
use aicortex.Text.{Text}
pub mod Order
pub mod Heap
pub mod Sorted
pub mod Best

pub record Entry (T : Type 0) : Type 0 where
  pub score : ℕ
  pub chunk_id : Text
  pub payload : T

module _ {T : Type 0} where
  -- Greater is better: the higher score, then the smaller chunk id.
  unfoldable pub rank : Entry T → Entry T → Ordering
  rank a b = then_with (compare a.score b.score) (compare_keys b.chunk_id a.chunk_id)

  unfoldable pub beats : Entry T → Entry T → Bool
  unfolding rank
  beats a b = is_gt (rank a b)

pub record TopK (T : Type 0) : Type 0 where
  pub k : ℕ
  pub heap : List (Entry T)

module _ {T : Type 0} where
  unfoldable pub new_top : ℕ → TopK T
  new_top k = record { k = k; heap = [] }

  -- `BinaryHeap::push`.
  unfoldable pub push_heap : Entry T → List (Entry T) → List (Entry T)
  push_heap e ds = e ∷ ds

  -- `BinaryHeap::peek`, of a heap that is not empty.
  unfoldable pub worst_of : Entry T → List (Entry T) → Entry T
  worst_of d [] = d
  worst_of d (e ∷ es) = let w = worst_of e es in if beats d w then w else d

  abbrev pub beats_worst : Entry T → List (Entry T) → Bool
  beats_worst e [] = false
  beats_worst e (d ∷ ds) = beats e (worst_of d ds)

  unfoldable pub admits : TopK T → Entry T → Bool
  unfolding worst_of
  admits top e =
      if top.k == 0
      then false
      else if ltb (length top.heap) top.k
      then true
      else beats_worst e top.heap

  -- `BinaryHeap::pop`, of a heap that is not empty.
  unfoldable pub pop_from : Entry T → List (Entry T) → List (Entry T)
  unfolding worst_of
  pop_from d [] = []
  pop_from d (e ∷ es) =
      let rest = pop_from e es in if beats d (worst_of e es) then d ∷ rest else e ∷ es

  abbrev pub pop_heap : List (Entry T) → List (Entry T)
  pop_heap [] = []
  pop_heap (d ∷ ds) = pop_from d ds

  unfoldable pub offer : TopK T → Entry T → TopK T
  unfolding admits push_heap pop_from
  offer top e = if not (admits top e) then top else record top {
    heap = push_heap e (if leb top.k (length top.heap) then pop_heap top.heap else top.heap);
  }

  unfoldable pub offer_all : TopK T → List (Entry T) → TopK T
  unfolding offer
  offer_all top [] = top
  offer_all top (e ∷ es) = offer_all (offer top e) es

  -- `BinaryHeap::into_sorted_vec`, which is ascending in `Reverse`: the best first.
  unfoldable pub insert_sorted : Entry T → List (Entry T) → List (Entry T)
  insert_sorted e [] = e ∷ []
  insert_sorted e (d ∷ ds) =
      let rest = insert_sorted e ds in if beats d e then d ∷ rest else e ∷ d ∷ ds

  unfoldable pub into_sorted : List (Entry T) → List (Entry T)
  unfolding insert_sorted
  into_sorted [] = []
  into_sorted (e ∷ es) = insert_sorted e (into_sorted es)
