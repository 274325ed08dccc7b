-- ===== src/Vm.antt =====
-- Areas of virtual addresses, kernel/vm.c: a list of holes of whole pages, ordered by address, on
-- ten nodes.
--
-- The debugging output is left out.
pub mod Area
pub mod Linear
pub mod Release
mod Tests
use yaos.Prelude.{
  ℕ, ◌+◌, ◌*◌, ◌/◌, ◌%◌, ◌^◌, Bool, ◌&&◌, Option, none, some, List, ◌==◌, if◌then◌else◌,
}
use yaos.Prelude.Outcome.{Outcome, ok, Action, ◌>>=◌, ◌>>◌, pure, assert}
use yaos.Phymem.{page_size}
use yaos.Holes.{
  Hole, Holes, init_holes, spin_lock, spin_unlock, first_free, link_sorted, first_fit, add_hole,
  carve,
}

abbrev pub max_linear_hole : ℕ
max_linear_hole = 10

-- `(x & PAGE_MASK) == 0`
abbrev pub aligned_page : ℕ → Bool
aligned_page x = x % page_size == 0

pub free_linear : ℕ → ℕ → Action Holes (Unit {0})
free_linear addr size = do
  assert (aligned_page addr && aligned_page size)
  p ← first_free
  spin_lock
  add_hole link_sorted p addr size
  spin_unlock

-- `if (size & PAGE_MASK) size = (size & ~PAGE_MASK) + PAGE_SIZE;`
abbrev pub round_page : ℕ → ℕ
round_page size =
    if aligned_page size then size else (size / page_size * page_size + page_size) % 2 ^ 64

-- `if (p->size == 0)`: the node goes back to `pfreeh`.
abbrev pub used_up : ℕ → Bool
used_up left = left == 0

-- what follows the search; without a hole the null result comes with the lock held
abbrev pub take_linear : ℕ → Option Hole → Action Holes ℕ
take_linear size none = pure 0
take_linear size (some p) = do addr ← carve used_up size p; spin_unlock; pure addr

pub search_linear : ℕ → Action Holes (Option Hole)
search_linear size s = ok (first_fit size s.phead, s)

pub alloc_linear : ℕ → Action Holes ℕ
alloc_linear size = do
  spin_lock
  found ← search_linear (round_page size)
  take_linear (round_page size) found

-- The loop and the assignments are those of `init_holes`.
pub init_vm : ℕ → ℕ → Action Holes (Unit {0})
init_vm addr size s = free_linear addr size (init_holes max_linear_hole)
