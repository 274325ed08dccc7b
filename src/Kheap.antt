-- ===== src/Kheap.antt =====
-- The kernel heap, kernel/kheap.c and include/yaos/kheap.h: two lists of holes, one of 4K units
-- ordered by address, one for small blocks, each refilled from the allocator below it.
--
-- A loop `while (!p)` runs on a number of rounds, and the wait inside `alloc_phy_page` on `fuel`.
-- The debugging output is left out.
pub mod Alloc
pub mod Free
pub mod Inv
pub mod Limits
pub mod Refill
pub mod Supply
mod Tests
use yaos.Prelude.{
  ℕ, zero, suc, ◌+◌, ◌-◌, ◌*◌, ◌/◌, ◌%◌, ◌^◌, Bool, true, false, ◌&&◌, Option, none, some, List, [],
  ◌∷◌, ltb, leb, ◌==◌, if◌then◌else◌,
}
use yaos.Prelude.Outcome.{Outcome, ok, halt, spin, Action, ◌>>=◌, ◌>>◌, pure, assert}
use yaos.Phymem.{Phymem, page_size, alloc_phy_page}
use yaos.Holes.{
  Hole, Holes, init_holes, spin_lock, spin_unlock, first_free, link_sorted, first_fit, add_hole,
  carve,
}

-- the state that the heap works on: its two lists and the pages below them
pub record Kmem : Type 0 where
  pub phys : Phymem
  pub heap : Holes
  pub small : Holes

abbrev pub max_heap_hole : ℕ
max_heap_hole = 10

abbrev pub max_small_hole : ℕ
max_small_hole = 100

pub init_kheap : Kmem → Kmem
init_kheap s = record s { heap = init_holes max_heap_hole; small = init_holes max_small_hole }

module _ {A : Type 0} where
  abbrev pub on_phys : Action Phymem A → Action Kmem A
  on_phys m s = elim (m s.phys) [
    | ok (a, p) ↦ ok (a, record s { phys = p })
    | halt ↦ halt
    | spin ↦ spin
  ]

  abbrev pub on_heap : Action Holes A → Action Kmem A
  on_heap m s = elim (m s.heap) [
    | ok (a, h) ↦ ok (a, record s { heap = h })
    | halt ↦ halt
    | spin ↦ spin
  ]

  abbrev pub on_small : Action Holes A → Action Kmem A
  on_small m s = elim (m s.small) [
    | ok (a, h) ↦ ok (a, record s { small = h })
    | halt ↦ halt
    | spin ↦ spin
  ]

-- `(x & 0xfff) == 0`
abbrev pub aligned_4k : ℕ → Bool
aligned_4k x = x % 0x1000 == 0

unfoldable pub free_kheap_4k : ℕ → ℕ → Action Holes (Unit {0})
free_kheap_4k addr size = do
  assert (aligned_4k addr && aligned_4k size)
  p ← first_free
  spin_lock
  add_hole link_sorted p addr size
  spin_unlock

-- `if (size & 0xfff) size = (size & ~0xfff) + 0x1000;`
abbrev pub round_4k : ℕ → ℕ
round_4k size = if aligned_4k size then size else (size / 0x1000 * 0x1000 + 0x1000) % 2 ^ 64

-- `if (!newaddr) return (void *)0;`, and the page added to the holes with the lock taken again.
pub donate : ℕ → Action Kmem Bool
donate newaddr =
    if newaddr == 0
    then pure false
    else do on_heap (free_kheap_4k newaddr page_size); on_heap spin_lock; pure true

-- The body of the loop `while (!p)`, run with the lock held; `false` is the null result.
pub refill : ℕ → Action Kmem Bool
refill fuel = do on_heap spin_unlock; newaddr ← on_phys (alloc_phy_page fuel); donate newaddr

-- After the body of the loop: the search again, or the null result.
abbrev pub refilled :
    Action Kmem (Option Hole) → Outcome (Bool × Kmem) → Outcome (Option Hole × Kmem)
refilled again (ok (true, s)) = again s
refilled again (ok (false, s)) = ok (none, s)
refilled again halt = halt
refilled again spin = spin

-- The search for a hole, with a refill after each that fails; `none` is `return (void *)0`.
pub find_hole : ℕ → ℕ → ℕ → Action Kmem (Option Hole)
find_hole zero fuel size s = elim (first_fit size s.heap.phead) [
  | some p ↦ ok (some p, s)
  | none ↦ spin
]
find_hole (suc rounds) fuel size s = elim (first_fit size s.heap.phead) [
  | some p ↦ ok (some p, s)
  | none ↦ refilled (find_hole rounds fuel size) (refill fuel s)
]

-- `if (p->size == 0)`: the node goes back to `pfree`.
abbrev pub exhausted : ℕ → Bool
exhausted left = left == 0

pub take_hole : ℕ → Hole → Action Holes ℕ
take_hole size p = do addr ← carve exhausted size p; spin_unlock; pure addr

-- what follows the search; 0 is the null pointer
abbrev pub take_found : ℕ → Option Hole → Action Kmem ℕ
take_found size none = pure 0
take_found size (some p) = on_heap (take_hole size p)

pub alloc_kheap_4k : ℕ → ℕ → ℕ → Action Kmem ℕ
alloc_kheap_4k rounds fuel size = do
  on_heap spin_lock
  found ← find_hole rounds fuel (round_4k size)
  take_found (round_4k size) found

pub free_kheap_small : ℕ → ℕ → Action Holes (Unit {0})
free_kheap_small addr size = do
  assert (aligned_4k addr && aligned_4k size)
  spin_lock
  p ← first_free
  add_hole ◌∷◌ p addr size
  spin_unlock

-- The body of the loop `while (!p)` of `alloc_kheap_small`.
pub refill_small : ℕ → ℕ → Action Kmem Bool
refill_small rounds fuel = do
  on_small spin_unlock
  newaddr ← alloc_kheap_4k rounds fuel 0x1000
  if newaddr == 0
      then pure false
      else do on_small (free_kheap_small newaddr 0x1000); on_small spin_lock; pure true

pub find_small : ℕ → ℕ → ℕ → Action Kmem (Option Hole)
find_small zero fuel size s = elim (first_fit size s.small.phead) [
  | some p ↦ ok (some p, s)
  | none ↦ spin
]
find_small (suc rounds) fuel size s = elim (first_fit size s.small.phead) [
  | some p ↦ ok (some p, s)
  | none ↦ refilled (find_small rounds fuel size) (refill_small rounds fuel s)
]

-- `if (p->size <= 16)`: what is left is dropped with the hole.
abbrev pub too_small : ℕ → Bool
too_small left = leb left 16

pub take_small : ℕ → Hole → Action Holes ℕ
take_small size p = do addr ← carve too_small size p; spin_unlock; pure addr

abbrev pub take_found_small : ℕ → Option Hole → Action Kmem ℕ
take_found_small size none = pure 0
take_found_small size (some p) = on_small (take_small size p)

pub alloc_kheap_small : ℕ → ℕ → ℕ → Action Kmem ℕ
alloc_kheap_small rounds fuel size = do
  assert (ltb size 0x1000)
  on_small spin_lock
  found ← find_small rounds fuel size
  take_found_small size found

abbrev pub max_small_heap : ℕ
max_small_heap = 2048

pub kalloc : ℕ → ℕ → ℕ → Action Kmem ℕ
kalloc rounds fuel size =
    if ltb size max_small_heap
    then alloc_kheap_small rounds fuel size
    else alloc_kheap_4k rounds fuel size
