-- ===== src/Vm/Area/Tests.antt =====
-- Runs of the areas of virtual memory, and their theorems at small spaces.
use yaos.Prelude.{ℕ, ◌*◌, ◌≡◌, refl, false, [], ◌∷◌, arith, ◌==◌, if◌then◌else◌}
use yaos.Prelude.Outcome.{ok, Action, Returns}
use yaos.Phymem.{Phymem, page_size}
use yaos.Phymem.Samples.{clear, low, memory, memory-IsValid}
use yaos.Holes.{Hole, Holes, chain}
use yaos.Holes.Region.{slots-chain}
use yaos.Kheap.{Kmem}
use yaos.Pgtable.{get_pte_with_addr}
use yaos.Vm.Linear.{IsLinear}
use yaos.Vm.Area.{Space, free_vm_page, alloc_vm}
use yaos.Pgtable.Samples.{stocked_tables}
use yaos.Vm.Area.Lost.{IsLost, alloc_vm-IsLost}
use yaos.Vm.Area.Release.{IsBacked, IsFreed, with_phys, free_vm_page-IsFreed}

abbrev area : Hole
area = record { slot = 0; addr = 0x8000000000; size = 4 * page_size; orgin_size = 4 * page_size }

abbrev holes : Holes
holes = record { pfree = chain 1 9; phead = area ∷ []; locked = false }

abbrev no_pages : Phymem
no_pages = record {
  pgbits = clear ∷ clear ∷ [];
  pnow = 0;
  pmax = 1;
  pages = 0;
  max_phy_addr = 100 * page_size;
}

-- One table on each level; the entry for the start of the area has page 3.
abbrev tables : ℕ → ℕ
tables a =
    if a == 0x1008
    then 0x2007
    else if a == 0x2000
    then 0x3007
    else if a == 0x3000
    then 0x600083
    else 0

abbrev space : Phymem → Space
space p = record {
  linear = holes;
  paging = record {
    mem = tables;
    pml4 = 0x1000;
    cr3 = 0x1000;
    heap = record {
      phys = p;
      heap = record { pfree = []; phead = []; locked = false };
      small = record { pfree = []; phead = []; locked = false };
    };
  };
}

holes-IsLinear : IsLinear holes
holes-IsLinear = record {
  heap = record {
    nodes = λ k. ground (arith, slots-chain k 1 9);
    ordered = (tt, tt);
    blocks = (
      record {
        nonempty = omega arith;
        positive = omega arith;
        fits = omega arith;
        aligned = refl;
        whole = refl;
      },
      tt,
    );
  };
  paged = ((refl, refl), tt);
}

abbrev no_table : ℕ → Action Kmem ℕ
no_table size w = ok (0, w)

alloc_vm-IsLost_example :
    Returns (IsLost 0x400000 (space no_pages)) (alloc_vm no_table 1 1 0x400000 (space no_pages))
alloc_vm-IsLost_example =
    alloc_vm-IsLost no_table 0 0 0x400000 (space no_pages) holes-IsLinear refl (omega arith)
      (omega arith) refl

start-IsBacked : IsBacked 0x8000000000 (space (memory low 1))
unfolding get_pte_with_addr
start-IsBacked = record { entry = omega arith; some_page = omega arith; low = omega arith }

free_vm_page-IsFreed_example :
    (q : Phymem) × (free_vm_page 4 0x8000000000 0x400000 (space (memory low 1))
      ≡ ok (tt, with_phys (space (memory low 1)) q))
    × IsFreed 0x8000000000 (space (memory low 1)) start-IsBacked (memory low 1) q
free_vm_page-IsFreed_example =
    free_vm_page-IsFreed 0x8000000000 (space (memory low 1)) start-IsBacked 3 0x400000
      memory-IsValid (omega arith) (omega arith)

abbrev whole : Space
whole = record { linear = holes; paging = stocked_tables }
