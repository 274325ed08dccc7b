-- ===== src/Boot.antt =====
-- The memory map that the boot loader hands over, arch/x86_64/multiboot.c: which memory goes to the
-- allocators, and which pages of input and output are mapped.
--
-- An `int` that becomes a `long` is kept as the word of 64 bits. Recursion runs on a number of rounds.
pub mod E820
pub mod Gain
pub mod Io
pub mod Mem
pub mod Remap
pub mod Reverse
pub mod Table
pub mod Unaligned
mod Tests
use yaos.Prelude.{
  ℕ, zero, suc, ◌+◌, ◌-◌, ◌*◌, ◌/◌, ◌%◌, ◌^◌, Bool, true, false, ◌&&◌, Option, none, some, List, [],
  ◌∷◌, ◌++◌, length, ltb, leb, ◌==◌, if◌then◌else◌,
}
use yaos.Prelude.Outcome.{Outcome, ok, halt, spin, Action, ◌>>=◌, ◌>>◌, pure, assert}
use yaos.Phymem.{Phymem, free_phy_pages}
use yaos.Holes.{Holes}
use yaos.Kheap.{Kmem, free_kheap_4k, free_kheap_small, on_phys, on_heap, on_small}
use yaos.Pgtable.{Paging, page_2m, io_mem_base, io_flags, success, map_page_p2v}

-- `struct reverse_addr`
pub record Region : Type 0 where
  pub addr : ℕ
  pub size : ℕ

-- `memory_map_t`, without the size of the entry that the walk uses
pub record MemoryMap : Type 0 where
  pub base_addr_low : ℕ
  pub base_addr_high : ℕ
  pub length_low : ℕ
  pub length_high : ℕ
  pub type_of : ℕ

-- `io_remap_pages` up to `remaped`, and `revmem` up to `reversed_nr`
pub record Boot : Type 0 where
  pub io_remap_pages : List ℕ
  pub revmem : List Region
  pub max_reverse_addr : ℕ
  pub max_phy_mem_addr : ℕ
  pub paging : Paging Kmem

abbrev pub max_io_remaps : ℕ
max_io_remaps = 2000

abbrev pub max_reverse : ℕ
max_reverse = 10

-- `IOAPIC_BASE`
abbrev pub ioapic_base : ℕ
ioapic_base = 0xfec00000

-- an `int` argument, as a word of 64 bits
abbrev pub to_int : ℕ → ℕ
to_int x = if ltb (x % 2 ^ 32) (2 ^ 31) then x % 2 ^ 32 else x % 2 ^ 32 + (2 ^ 64 - 2 ^ 32)

-- `a - b` on 64 bits
abbrev pub minus : ℕ → ℕ → ℕ
minus a b = (a + (2 ^ 64 - b % 2 ^ 64)) % 2 ^ 64

pub is_in : ℕ → List ℕ → Bool
is_in x [] = false
is_in x (y ∷ rest) = if y == x then true else is_in x rest

pub add_map : ℕ → Action Boot (Unit {0})
add_map pg s =
    if is_in (to_int pg) s.io_remap_pages
    then ok (tt, s)
    else if leb max_io_remaps (length s.io_remap_pages)
    then halt
    else ok (tt, record s { io_remap_pages = s.io_remap_pages ++ (to_int pg ∷ []) })

-- `while (size >= PAGE_SIZE)` takes a page off each time: `count` rounds.
pub add_maps : ℕ → ℕ → Action Boot (Unit {0})
add_maps zero addr = pure tt
add_maps (suc count) addr =
    add_map (addr / page_2m + 1) >> add_maps count ((addr + page_2m) % 2 ^ 64)

-- The part of `on_iomem` for an address at the start of a page.
pub on_iomem_pages : ℕ → ℕ → Action Boot (Unit {0})
on_iomem_pages addr size = do
  add_maps (size / page_2m) addr
  if size % page_2m == 0
      then pure tt
      else add_map ((addr + size / page_2m * page_2m) % 2 ^ 64 / page_2m + 1)

-- The call of itself has the start of a page, or 0 after the end of the address space.
pub on_iomem : ℕ → ℕ → Action Boot (Unit {0})
on_iomem addr size =
    let low = addr % page_2m in
    let pg = (addr + page_2m - 1) % 2 ^ 64 / page_2m in
    let next = (addr + (page_2m - low)) % 2 ^ 64 in
    if addr == 0
    then pure tt
    else if low == 0
    then on_iomem_pages addr size
    else if leb size (page_2m - low)
    then add_map pg
    else add_map pg >> (if next == 0 then pure tt else on_iomem_pages next (size - (page_2m - low)))

module _ {A : Type 0} where
  abbrev pub on_paging : Action (Paging Kmem) A → Action Boot A
  on_paging m s = elim (m s.paging) [
    | ok (a, p) ↦ ok (a, record s { paging = p })
    | halt ↦ halt
    | spin ↦ spin
  ]

  abbrev pub on_kmem : Action Kmem A → Action Boot A
  on_kmem m s = elim (m s.paging.heap) [
    | ok (a, h) ↦ ok (a, record s { paging = record s.paging { heap = h } })
    | halt ↦ halt
    | spin ↦ spin
  ]

module _ {W : Type 0} (alloc_4k : ℕ → Action W ℕ) where
  -- the loop of `remap_iomem`; the panic is a halt
  pub remap_pages : List ℕ → Action (Paging W) (Unit {0})
  remap_pages [] = pure tt
  remap_pages (pg ∷ rest) =
      let addr = (pg - 1) * page_2m % 2 ^ 64 in
      let others = remap_pages rest in
      if ltb 0 pg
      then (do
        r ← map_page_p2v alloc_4k addr ((addr + io_mem_base) % 2 ^ 64) io_flags
        assert (r == success)
        others)
      else others

pub remap_iomem : (ℕ → Action Kmem ℕ) → Action Boot (Unit {0})
remap_iomem alloc_4k s = on_paging (remap_pages alloc_4k s.io_remap_pages) s

pub add_reverse : ℕ → ℕ → Action Boot (Unit {0})
add_reverse addr size s =
    let stop = (addr + size) % 2 ^ 64 in
    if leb max_reverse (length s.revmem)
    then halt
    else ok (
      tt,
      record s {
        revmem = s.revmem ++ (record { addr = addr; size = size } ∷ []);
        max_reverse_addr = if ltb s.max_reverse_addr stop then stop else s.max_reverse_addr;
      },
    )

abbrev pub stop_of : Region → ℕ
stop_of r = (r.addr + r.size) % 2 ^ 64

-- the first reserved region that the loop does not pass over
pub first_reverse : ℕ → ℕ → List Region → Option Region
first_reverse addr size [] = none
first_reverse addr size (r ∷ rest) =
    if leb (stop_of r) addr
    then first_reverse addr size rest
    else if leb ((addr + size) % 2 ^ 64) r.addr
    then first_reverse addr size rest
    else some r

module _ {S : Type 0} (report : ℕ → ℕ → Action S (Unit {0})) where
  -- the three cases of a region that meets a reserved one
  abbrev pub deal_over : (ℕ → ℕ → Action S (Unit {0})) → ℕ → ℕ → Region → Action S (Unit {0})
  deal_over again addr size r =
      if leb r.addr addr && leb ((addr + size) % 2 ^ 64) (stop_of r)
      then pure tt
      else if leb r.addr addr
      then again (stop_of r) (minus (size + addr) (stop_of r))
      else do
        assert (leb addr r.addr)
        again addr (minus r.addr addr)
        again ((r.addr + size) % 2 ^ 64) (minus (size + addr) r.addr)

  -- `report` is `on_mem` or `on_iomem`; `rev` and `max` are revmem and max_reverse_addr.
  pub deal_reverse : List Region → ℕ → ℕ → ℕ → ℕ → Action S (Unit {0})
  deal_reverse rev max zero addr size s = spin
  deal_reverse rev max (suc rounds) addr size s =
      let again : ℕ → ℕ → Action S (Unit {0}) = deal_reverse rev max rounds in
      if ltb max addr then report addr size s else elim (first_reverse addr size rev) [
        | none ↦ report addr size s
        | some r ↦ deal_over again addr size r s
      ]

abbrev pub give_4k : ℕ → ℕ → Action Boot (Unit {0})
give_4k addr size s =
    if ltb ((addr + size) % 2 ^ 64) s.max_phy_mem_addr
    then on_kmem (on_heap (free_kheap_4k addr size)) s
    else ok (tt, s)

abbrev pub give_small : ℕ → ℕ → Action Boot (Unit {0})
give_small addr size s =
    if ltb ((addr + size) % 2 ^ 64) s.max_phy_mem_addr
    then on_kmem (on_small (free_kheap_small addr size)) s
    else ok (tt, s)

-- The part of `on_mem` for an address at the start of a page of 2M: the pages, and what is left.
pub on_mem_pages : ℕ → ℕ → Action Boot (Unit {0})
on_mem_pages addr size = do
  on_kmem (on_phys (free_phy_pages addr (size / page_2m * page_2m)))
  if size % page_2m == 0
      then pure tt
      else give_4k ((addr + size / page_2m * page_2m) % 2 ^ 64) (size % page_2m)

-- The part of `on_mem` for an address at the start of a unit of 4K, and a size in whole units.
pub on_mem_units : (ℕ → ℕ → Action Boot (Unit {0})) → ℕ → ℕ → Action Boot (Unit {0})
on_mem_units again addr size =
    let lowsize = page_2m - addr % page_2m in
    if size == 0
    then pure tt
    else if ltb size page_2m
    then give_4k addr size
    else if addr % page_2m == 0
    then on_mem_pages addr size
    else if leb size lowsize
    then give_4k addr size
    else do give_4k addr lowsize; again ((addr + lowsize) % 2 ^ 64) (size - lowsize)

pub on_mem : ℕ → ℕ → ℕ → Action Boot (Unit {0})
on_mem zero addr size s = spin
on_mem (suc rounds) addr size s =
    let again : ℕ → ℕ → Action Boot (Unit {0}) = on_mem rounds in
    let low4ksize = 0x1000 - addr % 0x1000 in
    if addr % 0x1000 == 0
    then on_mem_units again addr (size / 0x1000 * 0x1000) s
    else (do
      if leb size low4ksize then give_small addr size else pure tt
      on_kmem (on_small (free_kheap_small addr low4ksize))
      again ((addr + low4ksize) % 2 ^ 64) (minus size low4ksize))
        s
