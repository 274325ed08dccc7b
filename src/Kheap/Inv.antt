-- ===== src/Kheap/Inv.antt =====
-- The invariant of the kernel's memory, and the ledger: who holds an address.
use yaos.Prelude.{
  ℕ, ◌+◌, ◌-◌, ◌%◌, ◌^◌, ◌≤◌, ◌<◌, ◌≡◌, ◌≢◌, refl, false, some, arith, Bool-cases, inl, inr,
  count_if, All,
}
use yaos.Prelude.Outcome.{ok}
use yaos.Holes.{Hole, Holes, init_holes, first_fit, carve}
use yaos.Holes.Weigh.{within, cover, size-first_fit}
use yaos.Holes.Order.{Ordered, All-first_fit, All-unlink, All-store, unlink-Ordered, store-Ordered}
use yaos.Holes.Region.{HasNodes, Fits, once, shrunk, carve-drop, carve-keep, init_holes-HasNodes}
use yaos.Kheap.{Kmem, max_heap_hole, max_small_hole, init_kheap, exhausted}

-- A hole of the 4K list. Its address is not 0, which stands for no memory.
pub record IsBlock (h : Hole) : Type 0 where
  pub nonempty : 0 < h.size
  pub positive : 0 < h.addr
  pub fits : Fits h
  pub aligned : h.addr % 0x1000 ≡ 0
  pub whole : h.size % 0x1000 ≡ 0

pub record IsHeap (s : Holes) : Type 0 where
  pub nodes : HasNodes max_heap_hole s
  pub ordered : Ordered s.phead
  pub blocks : All IsBlock s.phead

-- Carving a multiple of 4K off the first hole that fits.
module _ (s : Holes) (v : IsHeap s) (size : ℕ) (p : Hole) (found : first_fit size s.phead ≡ some p)
    (pos : 0 < size) (whole : size % 0x1000 ≡ 0) where
  block : IsBlock p
  block = All-first_fit IsBlock size s.phead p found v.blocks

  shrunk-IsBlock : exhausted (p.size - size) ≡ false → IsBlock (shrunk size p)
  shrunk-IsBlock left =
      let enough : size ≤ p.size = size-first_fit size s.phead p found in
      let some_left : p.size - size ≢ 0 = ground arith in
      let at : (p.addr + size) % 2 ^ 64 ≡ p.addr + size = omega (arith, block.fits) in
      record {
        nonempty = omega arith;
        positive = omega (arith, block.positive);
        fits = omega (arith, block.fits);
        aligned = omega (arith, block.aligned);
        whole = omega (arith, block.whole);
      }

  -- the outcome: the start of the hole is handed out and is no longer covered
  abbrev pub Handed : Holes → Type 0
  Handed s' =
      IsHeap s'
      × (s'.locked ≡ s.locked)
      × ((a : ℕ) → cover a s.phead ≡ cover a s'.phead + count_if (within p.addr size a))

  pub carve-Handed : (s' : Holes) × (carve exhausted size p s ≡ ok (p.addr, s')) × Handed s'
  carve-Handed = elim (Bool-cases (exhausted (p.size - size))) [
    | inl gone ↦
        let (r, e, (out, (nodes, lock, ledger))) =
          carve-drop max_heap_hole s v.nodes exhausted size p found block.fits gone in
        (
          _,
          out,
          (
            record {
              nodes = nodes;
              ordered = unlink-Ordered p.slot s.phead r e v.ordered;
              blocks = All-unlink IsBlock p.slot s.phead r e v.blocks;
            },
            lock,
            λ a. ground (arith, ledger a),
          ),
        )
    | inr left ↦
        let (out, (nodes, lock, ledger)) =
          carve-keep max_heap_hole s v.nodes exhausted size p found block.fits left in
        let q : Hole = shrunk size p in
        let enough : size ≤ p.size = size-first_fit size s.phead p found in
        (
          _,
          out,
          (
            record {
              nodes = nodes;
              ordered =
                  store-Ordered size s.phead p q found (once max_heap_hole s v.nodes p.slot) refl
                    (omega (arith, block.fits)) (omega (arith, block.fits)) v.ordered;
              blocks = All-store IsBlock q s.phead (shrunk-IsBlock left) v.blocks;
            },
            lock,
            λ a. omega (arith, ledger a),
          ),
        )
  ]

-- After `init_kheap` both lists are well formed and released, no address is free in either, and the
-- page allocator is as before.
pub init_kheap-IsHeap :
    (s : Kmem)
    → IsHeap (init_kheap s).heap
      × HasNodes max_small_hole (init_kheap s).small
      × ((a : ℕ)
          → (cover a (init_kheap s).heap.phead ≡ 0) × (cover a (init_kheap s).small.phead ≡ 0))
      × ((init_kheap s).heap.locked ≡ false)
      × ((init_kheap s).small.locked ≡ false)
      × ((init_kheap s).phys ≡ s.phys)
unfolding init_kheap init_holes
init_kheap-IsHeap s = (
  record { nodes = init_holes-HasNodes max_heap_hole; ordered = tt; blocks = tt },
  init_holes-HasNodes max_small_hole,
  (λ a. (refl, refl)),
  refl,
  refl,
  refl,
)
