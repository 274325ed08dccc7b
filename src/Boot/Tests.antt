-- ===== src/Boot/Tests.antt =====
-- Runs of the memory map on a memory of 200M of which one page is free, and its theorems there.
use yaos.Prelude.{
  ℕ, ◌+◌, ◌*◌, ◌/◌, ◌^◌, ◌<◌, ◌≡◌, refl, inl, inr, Bool, true, ◌&&◌, ◌||◌, List, [], ◌∷◌, ◌++◌, All,
  arith, Bool-cases, leb,
}
use yaos.Prelude.Outcome.{ok, halt, Action, WhenOk, Returns, ◌>>◌}
use yaos.Phymem.{page_size}
use yaos.Phymem.Samples.{memory_pages}
use yaos.Holes.{init_holes}
use yaos.Kheap.{alloc_kheap_4k}
use yaos.Pgtable.Alloc.{IsPaging}
use yaos.Pgtable.Heap.{IsIdle, Taken, alloc_kheap_4k-IsAllocator}
use yaos.Pgtable.Map.{translation}
use yaos.Pgtable.Remap.{io_virtual}
use yaos.Pgtable.Samples.{heap, heap-IsIdle, empty, empty-IsPaging}
use yaos.Boot.{
  Region, Boot, add_map, add_maps, is_in, on_iomem, on_iomem_pages, remap_iomem, deal_reverse,
  first_reverse, on_mem,
}
use yaos.Boot.Table.{IsCovered}
use yaos.Boot.Io.{first_page, last_page, on_iomem-IsCovered}
use yaos.Boot.Remap.{remapped, remap_iomem-Mapped}
use yaos.Boot.Reverse.{IsClear, deal_reverse-IsClear, deal_reverse-lost}
use yaos.Boot.Gain.{Gained}
use yaos.Boot.Mem.{IsPart, on_mem-Gained}
use yaos.Boot.Unaligned.{on_mem-unaligned}

abbrev boot : Boot
boot = record {
  io_remap_pages = 2047 ∷ [];
  revmem = [];
  max_reverse_addr = 0;
  max_phy_mem_addr = 0x8000000;
  paging = empty;
}

-- A region that starts and ends inside pages enters three of them, one of which is there already.
iomem_runs :
    on_iomem 0xffd00000 0x500000 boot
    ≡ ok (tt, record boot { io_remap_pages = 2047 ∷ 2048 ∷ 2049 ∷ [] })
unfolding on_iomem on_iomem_pages add_maps add_map is_in
iomem_runs = refl

on_iomem-IsCovered_example :
    Returns
      (λ (_, t). IsCovered (first_page 0xffd00000) (last_page 0xffd00000 0x500000 + 1) boot t)
      (on_iomem 0xffd00000 0x500000 boot)
on_iomem-IsCovered_example =
    on_iomem-IsCovered 0xffd00000 0x500000 boot (omega arith) (omega arith) (omega arith)
      (omega arith)

remap_iomem-Mapped_example :
    WhenOk
      (λ (_, t).
        IsPaging IsIdle Taken 0x1000 t.paging
        × ((y : ℕ)
            → y < 2 ^ 47
            → translation (io_virtual y) t.paging
              ≡ remapped (2047 ∷ []) y (translation (io_virtual y) boot.paging)))
      (remap_iomem (alloc_kheap_4k 11 1) boot)
remap_iomem-Mapped_example =
    remap_iomem-Mapped IsIdle Taken 0x1000 (alloc_kheap_4k 11 1) (alloc_kheap_4k-IsAllocator 11 1)
      boot ((omega arith, omega arith), tt) empty-IsPaging

abbrev kernel : Region
kernel = record { addr = 0x100000; size = 0x200000 }

-- what is passed on
abbrev record_it : ℕ → ℕ → Action (List Region) (Unit {0})
record_it addr size s = ok (tt, s ++ (record { addr = addr; size = size } ∷ []))

-- Of a region around the kernel what lies behind the kernel is lost, and memory behind the region is passed on.
reverse_runs :
    deal_reverse record_it (kernel ∷ []) 0x300000 2 0x10000 0x7ff0000 []
    ≡ ok (
      tt,
      record { addr = 0x10000; size = 0xf0000 }
          ∷ record { addr = 0x80f0000; size = 0x7f00000 }
          ∷ [],
    )
unfolding deal_reverse first_reverse
reverse_runs = refl

deal_reverse-lost_example :
    deal_reverse record_it (kernel ∷ []) 0x300000 2 0x10000 0x7ff0000 []
    ≡ (record_it 0x10000 0xf0000 >> record_it 0x80f0000 0x7f00000) []
deal_reverse-lost_example =
    deal_reverse-lost record_it kernel 0 0x10000 0x7ff0000 [] (omega arith) (omega arith)
      (omega arith)

-- whether all that is passed on is apart from the kernel
abbrev judge : ℕ → ℕ → Action Bool (Unit {0})
judge addr size b =
    ok (tt, b && (leb (2 ^ 64) (addr + size) || (leb (addr + size) 0x100000 || leb 0x300000 addr)))

judge-true :
    (addr size : ℕ) (b : Bool)
    → b ≡ true
    → All (IsClear addr size) (kernel ∷ [])
    → WhenOk (λ (_, b'). b' ≡ true) (judge addr size b)
judge-true addr size b e (h, _) = elim (Bool-cases (leb (2 ^ 64) (addr + size))) [
  | inl w ↦ ground (arith, e, w)
  | inr w ↦ elim (h (ground (arith, w))) [
    | inl a ↦ ground (arith, e, a)
    | inr a ↦ ground (arith, e, a)
  ]
]

deal_reverse-IsClear_example :
    WhenOk (λ (_, b). b ≡ true) (deal_reverse judge (kernel ∷ []) 0x300000 5 0x10000 0x7ff0000 true)
deal_reverse-IsClear_example =
    deal_reverse-IsClear judge (λ b. b ≡ true) (kernel ∷ []) 0x300000
      ((omega arith, omega arith), tt) judge-true 5 0x10000 0x7ff0000 true refl

boot-IsPart : IsPart 0x5ff000 (0x402800 / 0x1000 * 0x1000) boot
unfolding init_holes
boot-IsPart = record {
  idle = heap-IsIdle;
  unowned = λ a i. ground (arith, i, memory_pages (a / page_size));
  positive = omega arith;
  aligned = refl;
  whole = refl;
  below = omega arith;
  small = omega arith;
}

on_mem-Gained_example :
    WhenOk
      (λ (_, t). Gained 0x5ff000 0x402000 heap t.paging.heap × (t.max_phy_mem_addr ≡ 0x8000000))
      (on_mem 2 0x5ff000 0x402800 boot)
on_mem-Gained_example = on_mem-Gained 2 0x5ff000 0x402800 boot (omega arith) boot-IsPart

on_mem-unaligned_example : on_mem 3 0x9fc00 0x400 boot ≡ halt
on_mem-unaligned_example = on_mem-unaligned 0x9fc00 (omega arith) 2 0x400 boot
