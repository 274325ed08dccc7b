-- ===== src/Holes.antt =====
-- Lists of free regions ("holes") on a fixed array of nodes: what kernel/kheap.c (`struct kheap_t`)
-- and kernel/vm.c (`struct linear_t`) do alike.
--
-- A node is an element of the static array, and `slot` is its index there: two pointers are equal
-- when their slots are. `pfree` chains the nodes that are not in use, `phead` the holes.
pub mod Weigh
pub mod Order
pub mod Region
use yaos.Prelude.{
  ℕ, zero, suc, ◌+◌, ◌-◌, ◌%◌, ◌^◌, Bool, true, false, Option, none, some, List, [], ◌∷◌, ltb, ◌==◌,
  if◌then◌else◌,
}
use yaos.Prelude.Outcome.{Outcome, ok, halt, spin, Action, ◌>>=◌, ◌>>◌, pure}

pub record Hole : Type 0 where
  pub slot : ℕ
  pub addr : ℕ
  pub size : ℕ
  pub orgin_size : ℕ

-- `locked` is bit 0 of the spin lock.
pub record Holes : Type 0 where
  pub pfree : List Hole
  pub phead : List Hole
  pub locked : Bool

-- the nodes `slot .. slot + count - 1` of the array, each linked to the next
abbrev pub chain : ℕ → ℕ → List Hole
chain slot zero = []
chain slot (suc count) =
    record { slot = slot; addr = 0; size = 0; orgin_size = 0 } ∷ chain (slot + 1) count

-- the lists after the initialisation loop over an array of `count` nodes
unfoldable pub init_holes : ℕ → Holes
init_holes count = record { pfree = chain 0 count; phead = []; locked = false }

-- `while (test_and_set_bit_lock(0, t)) {}`: on one processor nobody else will release it.
abbrev pub spin_lock : Action Holes (Unit {0})
spin_lock s = if s.locked then spin else ok (tt, record s { locked = true })

abbrev pub spin_unlock : Action Holes (Unit {0})
spin_unlock s = ok (tt, record s { locked = false })

-- `p = pfree; if (!p) panic(…);`
abbrev pub first_free : Action Holes Hole
first_free s = elim s.pfree [ [] ↦ halt | p ∷ rest ↦ ok (p, s) ]

abbrev pub tail : List Hole → List Hole
tail [] = []
tail (h ∷ t) = t

-- The walk `while (ph->pnext && ph->pnext->addr < p->addr)` behind the first hole, and the link.
pub link_after : Hole → List Hole → List Hole
link_after p [] = p ∷ []
link_after p (n ∷ rest) = if ltb n.addr p.addr then n ∷ link_after p rest else p ∷ n ∷ rest

pub link_sorted : Hole → List Hole → List Hole
link_sorted p [] = p ∷ []
link_sorted p (h ∷ rest) = if ltb p.addr h.addr then p ∷ h ∷ rest else h ∷ link_after p rest

-- `while (p && p->size < size) p = p->pnext;`
unfoldable pub first_fit : ℕ → List Hole → Option Hole
first_fit size [] = none
first_fit size (p ∷ rest) = if ltb p.size size then first_fit size rest else some p

-- The three ways to take the node out of the list; `none` is the "corrupted link" panic.
pub unlink : ℕ → List Hole → Option (List Hole)
unlink slot [] = none
unlink slot (h ∷ rest) =
    if h.slot == slot
    then some rest
    else elim (unlink slot rest) [ none ↦ none | some r ↦ some (h ∷ r) ]

-- a write through the pointer `p` to a node of the list
unfoldable pub store : Hole → List Hole → List Hole
store p [] = []
store p (h ∷ rest) = if h.slot == p.slot then p ∷ rest else h ∷ store p rest

-- `p->addr = addr; p->orgin_size = size; p->size = size;` on the node taken off `pfree`, which
-- `link` then puts among the holes
abbrev pub add_hole : (Hole → List Hole → List Hole) → Hole → ℕ → ℕ → Action Holes (Unit {0})
add_hole link p addr size s =
    let p' : Hole = record p { addr = addr; size = size; orgin_size = size } in
    ok (tt, record s { pfree = tail s.pfree; phead = link p' s.phead })

-- `p->size -= size`, the move of the node to `pfree` if the rest is to be dropped, `pret = p->addr`
-- and `p->addr += size`, on 64 bits.
unfoldable pub carve : (ℕ → Bool) → ℕ → Hole → Action Holes ℕ
carve drop size p s =
    let p' : Hole = record p { addr = (p.addr + size) % 2 ^ 64; size = p.size - size } in
    if drop (p.size - size)
    then elim (unlink p.slot s.phead) [
      | none ↦ halt
      | some rest ↦ ok (p.addr, record s { pfree = p' ∷ s.pfree; phead = rest })
    ]
    else ok (p.addr, record s { phead = store p' s.phead })
