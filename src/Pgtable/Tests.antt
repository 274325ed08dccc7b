-- ===== src/Pgtable/Tests.antt =====
-- Runs of the page tables on an empty root table, with tables from a region that is used up in order, and
-- their theorems with tables from the kernel heap.
use yaos.Prelude.{ℕ, ◌+◌, ◌*◌, ◌≡◌, refl, arith}
use yaos.Prelude.Outcome.{Outcome, ok, halt, spin, Action, Returns}
use yaos.Kheap.{alloc_kheap_4k}
use yaos.Pgtable.{
  Paging, get_pte_with_addr, map_page_p2v, table_of, new_table, ioremap_nocache, remap_loop,
}
use yaos.Pgtable.Alloc.{IsAllocator}
use yaos.Pgtable.Heap.{IsIdle, Taken, Stocked, alloc_kheap_4k-IsAllocator, alloc_kheap_4k-IsSupply}
use yaos.Pgtable.Samples.{stocked_tables, stocked-IsIdle, stocked-IsPaging}
use yaos.Pgtable.Map.{translation, Mapped}
use yaos.Pgtable.Remap.{io_virtual, Remapped}
use yaos.Pgtable.Total.{Stored, map_page_p2v-Returns, ioremap_nocache-Returns}

abbrev next_page : ℕ → Action ℕ ℕ
next_page size w = ok (w * 4096, w + 1)

abbrev empty : Paging ℕ
empty = record { mem = λ a. 0; pml4 = 0x1000; cr3 = 0x1000; heap = 2 }

-- what an action leaves at an address
abbrev found : ℕ → Outcome (ℕ × Paging ℕ) → ℕ × ℕ
found a (ok (r, s)) = (r, translation a s)
found a halt = (2, 0)
found a spin = (3, 0)

-- A page mapped on an empty tree is found, with what lies in it.
map_runs :
    found 0x8000654321 (map_page_p2v next_page 0x600000 0x8000600000 0x83 empty) ≡ (0, 0x600083)
unfolding map_page_p2v table_of new_table get_pte_with_addr
map_runs = refl

-- A remapping of one whole page maps the page behind it too.
ioremap_runs :
    found 0xfffffff8fee00000 (ioremap_nocache next_page 10 0xfec00000 0x200000 empty)
    ≡ (0xfffffff8fec00000, 0xfee0009b)
unfolding ioremap_nocache remap_loop map_page_p2v table_of new_table get_pte_with_addr
ioremap_runs = refl

alloc_kheap_4k-IsAllocator_example : IsAllocator (alloc_kheap_4k 11 1) IsIdle Taken
alloc_kheap_4k-IsAllocator_example = alloc_kheap_4k-IsAllocator 11 1

map_page_p2v-Returns_example :
    Returns
      (λ out.
        Stored (alloc_kheap_4k 11 1) Stocked (alloc_kheap_4k-IsSupply 11 1) 0 out
        × Mapped IsIdle Taken 0x1000
            (alloc_kheap_4k 11 1)
            (alloc_kheap_4k-IsAllocator 11 1)
            0x8000600000
            0x600083
            stocked_tables
            out)
      (map_page_p2v (alloc_kheap_4k 11 1) 0x600000 0x8000600000 0x83 stocked_tables)
map_page_p2v-Returns_example =
    map_page_p2v-Returns (alloc_kheap_4k 11 1) Stocked (alloc_kheap_4k-IsSupply 11 1) IsIdle Taken
      0x1000 (alloc_kheap_4k-IsAllocator 11 1) 0 0x600000 0x8000600000 0x83 stocked_tables refl
      (omega arith) (stocked-IsIdle, omega arith) stocked-IsPaging

ioremap_nocache-Returns_example :
    Returns
      (λ (r, t).
        (r ≡ io_virtual 0xfec00000)
        × Remapped IsIdle Taken 0x1000
            (alloc_kheap_4k 11 1)
            (alloc_kheap_4k-IsAllocator 11 1)
            0xfec00000
            0xfee00000
            stocked_tables
            t)
      (ioremap_nocache (alloc_kheap_4k 11 1) 3 0xfec00000 0x200000 stocked_tables)
ioremap_nocache-Returns_example =
    ioremap_nocache-Returns (alloc_kheap_4k 11 1) Stocked (alloc_kheap_4k-IsSupply 11 1) IsIdle
      Taken 0x1000 (alloc_kheap_4k-IsAllocator 11 1) 2 0xfec00000 0x200000 stocked_tables
      (omega arith) (omega arith) (stocked-IsIdle, omega arith) stocked-IsPaging
