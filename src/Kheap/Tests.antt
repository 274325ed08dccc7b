-- ===== src/Kheap/Tests.antt =====
-- Runs of the kernel heap, and its theorems at a memory with one free page and one hole.
use yaos.Prelude.{ℕ, ◌+◌, ◌/◌, ◌≡◌, ◌≢◌, refl, false, [], ◌∷◌, arith}
use yaos.Prelude.Outcome.{ok, Returns, WhenOk}
use yaos.Phymem.{page_size}
use yaos.Phymem.Samples.{low, memory, memory-IsValid, memory_pages}
use yaos.Holes.{Hole, Holes, chain, first_fit, store, carve}
use yaos.Holes.Region.{HasNodes, slots-chain}
use yaos.Holes.Weigh.{cover}
use yaos.Kheap.{
  Kmem, init_kheap, free_kheap_4k, find_hole, take_hole, alloc_kheap_4k, max_small_hole, round_4k,
}
use yaos.Kheap.Inv.{IsHeap, init_kheap-IsHeap}
use yaos.Kheap.Free.{Added, free_kheap_4k-Added}
use yaos.Kheap.Refill.{IsMem}
use yaos.Kheap.Alloc.{Gave, alloc_kheap_4k-Gave}
use yaos.Kheap.Supply.{room, alloc_kheap_4k-room}
use yaos.Kheap.Limits.{alloc_kheap_4k-too_large, alloc_kheap_4k-rounds}

-- 64K at 6M
abbrev block : Hole
block = record { slot = 0; addr = 0x600000; size = 0x10000; orgin_size = 0x10000 }

abbrev holes : Holes
holes = record { pfree = chain 1 9; phead = block ∷ []; locked = false }

abbrev mem : Kmem
mem = record {
  phys = memory low 1;
  heap = holes;
  small = record { pfree = []; phead = []; locked = false };
}

holes-IsHeap : IsHeap holes
holes-IsHeap = record {
  nodes = λ k. ground (arith, slots-chain k 1 9);
  ordered = (tt, tt);
  blocks = (
    record {
      nonempty = omega arith;
      positive = omega arith;
      fits = omega arith;
      aligned = refl;
      whole = refl;
    },
    tt,
  );
}

mem-IsMem : IsMem mem
mem-IsMem = record {
  phys = memory-IsValid;
  heap = holes-IsHeap;
  single = λ a. ground (arith, memory_pages (a / page_size));
}

-- Three pages of 4K come from the hole, and its rest stays.
alloc_runs :
    alloc_kheap_4k 1 1 0x2fff mem
    ≡ ok (
      0x600000,
      record mem {
        heap = record holes { phead = record block { addr = 0x603000; size = 0xd000 } ∷ [] };
      },
    )
unfolding alloc_kheap_4k find_hole take_hole first_fit carve store
alloc_runs = refl

alloc_kheap_4k-Gave_example : WhenOk (Gave mem (round_4k 0x2fff)) (alloc_kheap_4k 1 1 0x2fff mem)
alloc_kheap_4k-Gave_example = alloc_kheap_4k-Gave 1 1 0x2fff mem (omega arith) mem-IsMem refl

alloc_kheap_4k-room_example :
    Returns
      (λ (p, t). (p ≢ 0) × (room mem.heap.phead ≡ 4096 + room t.heap.phead) × (t.phys ≡ mem.phys))
      (alloc_kheap_4k 1 1 4096 mem)
alloc_kheap_4k-room_example = alloc_kheap_4k-room 1 1 mem mem-IsMem refl (omega arith)

free_kheap_4k-Added_example :
    (s' : Holes) × (free_kheap_4k 0x700000 0x1000 holes ≡ ok (tt, s'))
    × Added holes 0x700000 0x1000 s'
free_kheap_4k-Added_example =
    free_kheap_4k-Added holes holes-IsHeap refl 0x700000 0x1000
      (record {
        nonempty = omega arith;
        positive = omega arith;
        fits = omega arith;
        aligned = refl;
        whole = refl;
        vacant = λ a i. ground arith;
      })
      (record { slot = 1; addr = 0; size = 0; orgin_size = 0 }) (chain 2 8) refl

init_kheap_runs :
    let s : Kmem = init_kheap mem in
    IsHeap s.heap
    × HasNodes max_small_hole s.small
    × ((a : ℕ) → (cover a s.heap.phead ≡ 0) × (cover a s.small.phead ≡ 0))
    × (s.heap.locked ≡ false)
    × (s.small.locked ≡ false)
    × (s.phys ≡ memory low 1)
init_kheap_runs = init_kheap-IsHeap mem

alloc_kheap_4k-too_large_example : WhenOk (λ (addr, _). addr ≡ 0) (alloc_kheap_4k 2 1 0x200001 mem)
alloc_kheap_4k-too_large_example =
    alloc_kheap_4k-too_large 2 1 0x200001 mem (omega arith) (omega arith)

alloc_kheap_4k_rounds_agree : alloc_kheap_4k 50 1 4 mem ≡ alloc_kheap_4k 10 1 4 mem
alloc_kheap_4k_rounds_agree = alloc_kheap_4k-rounds 10 50 1 4 mem (omega arith) (omega arith)
