-- ===== src/Pgtable/Samples.antt =====
-- A memory with one free page, another with two and a hole of 64K, and an empty root table, for the tests.
use yaos.Prelude.{ℕ, ◌/◌, ◌≡◌, ◌≢◌, refl, false, [], ◌∷◌, arith, ◌==◌, if◌then◌else◌}
use yaos.Phymem.{page_size}
use yaos.Phymem.Samples.{low, pair, memory, memory-IsValid, memory_pages, pair-IsValid, pair_pages}
use yaos.Holes.{Hole, chain, init_holes}
use yaos.Holes.Region.{init_holes-HasNodes, slots-chain}
use yaos.Kheap.{Kmem, max_heap_hole}
use yaos.Pgtable.{Paging}
use yaos.Pgtable.Tables.{Role, no_table, root_table}
use yaos.Pgtable.Alloc.{IsPaging}
use yaos.Pgtable.Heap.{IsIdle, Taken}

abbrev pub heap : Kmem
heap = record { phys = memory low 1; heap = init_holes 10; small = init_holes 100 }

pub heap-IsIdle : IsIdle heap
unfolding init_holes
heap-IsIdle = (
  record {
    phys = memory-IsValid;
    heap = record { nodes = init_holes-HasNodes max_heap_hole; ordered = tt; blocks = tt };
    single = λ a. ground (arith, memory_pages (a / page_size));
  },
  refl,
)

abbrev pub empty : Paging Kmem
empty = record { mem = λ a. 0; pml4 = 0x1000; cr3 = 0x1000; heap = heap }

abbrev root_role : ℕ → Role
root_role q = if q == 0x1000 then root_table else no_table

root_role-ne : (q : ℕ) → root_role q ≢ no_table → q ≡ 0x1000
root_role-ne q = ground arith

root-Taken : (q : ℕ) → root_role q ≢ no_table → Taken heap q
unfolding init_holes
root-Taken q ne a le lt = ground (arith, root_role-ne q ne, le, lt, memory_pages (a / page_size))

pub empty-IsPaging : IsPaging IsIdle Taken 0x1000 empty
empty-IsPaging = record {
  root_at = refl;
  in_use = refl;
  tree = record {
    role = root_role;
    aligned = refl;
    root_role = refl;
    pdp_role = λ i lt ne. absurd (ne refl);
    pd_role = λ i j lt lt' ne ne'. absurd (ne refl);
    held = root-Taken;
  };
  good = heap-IsIdle;
}

-- 64K at 6M
abbrev block : Hole
block = record { slot = 0; addr = 0x600000; size = 0x10000; orgin_size = 0x10000 }

abbrev pub stocked : Kmem
stocked = record {
  phys = memory pair 2;
  heap = record { pfree = chain 1 9; phead = block ∷ []; locked = false };
  small = init_holes 100;
}

pub stocked-IsIdle : IsIdle stocked
unfolding init_holes
stocked-IsIdle = (
  record {
    phys = pair-IsValid;
    heap = record {
      nodes = λ k. ground (arith, slots-chain k 1 9);
      ordered = (tt, tt);
      blocks = (
        record {
          nonempty = omega arith;
          positive = omega arith;
          fits = omega arith;
          aligned = refl;
          whole = refl;
        },
        tt,
      );
    };
    single = λ a. ground (arith, pair_pages (a / page_size));
  },
  refl,
)

abbrev pub stocked_tables : Paging Kmem
stocked_tables = record empty { heap = stocked }

stocked_root-Taken : (q : ℕ) → root_role q ≢ no_table → Taken stocked q
unfolding init_holes
stocked_root-Taken q ne a le lt =
    ground (arith, root_role-ne q ne, le, lt, pair_pages (a / page_size))

pub stocked-IsPaging : IsPaging IsIdle Taken 0x1000 stocked_tables
stocked-IsPaging = record {
  root_at = refl;
  in_use = refl;
  tree = record {
    role = root_role;
    aligned = refl;
    root_role = refl;
    pdp_role = λ i lt ne. absurd (ne refl);
    pd_role = λ i j lt lt' ne ne'. absurd (ne refl);
    held = stocked_root-Taken;
  };
  good = stocked-IsIdle;
}
