-- ===== src/Pgtable.antt =====
-- The page tables, arch/x86_64/pgtable.c: three levels of tables of 512 words, with pages of 2M.
--
-- `mem` is the memory by words of 8 bytes: `mem a` is the word at the address a. The static table
-- `pml4` is known by its address. Where the source makes an entry by `|` of a multiple of 4096 and
-- of flags below 4096, which its assertions ensure, the model adds. The allocator of the tables is
-- `alloc_4k`, on the rest of the kernel's state; `Pgtable.Heap` puts the kernel heap in its place.
pub mod Alloc
pub mod Entry
pub mod Grow
pub mod Heap
pub mod Init
pub mod Keep
pub mod Leaf
pub mod Map
pub mod Remap
pub mod Samples
pub mod Stage
pub mod Tables
pub mod Total
mod Tests
use yaos.Prelude.{
  ℕ, zero, suc, ◌+◌, ◌-◌, ◌*◌, ◌/◌, ◌%◌, ◌^◌, Bool, true, false, ◌&&◌, Option, none, some, ltb, leb,
  ◌==◌, if◌then◌else◌,
}
use yaos.Prelude.Outcome.{Outcome, ok, halt, spin, Action, ◌>>=◌, ◌>>◌, pure, assert}

pub record Paging (W : Type 0) : Type 0 where
  pub mem : ℕ → ℕ
  pub pml4 : ℕ
  pub cr3 : ℕ
  pub heap : W

abbrev pub page_2m : ℕ
page_2m = 0x200000

abbrev pub io_mem_base : ℕ
io_mem_base = 0xfffffff800000000

-- `OK` and `E_NOMEM`
abbrev pub success : ℕ
success = 0

abbrev pub e_nomem : ℕ
e_nomem = 1

-- `PTE_P | PTE_W | PTE_U`
abbrev pub table_flags : ℕ
table_flags = 7

-- `PTE_P | PTE_W | PTE_PWT | PTE_PCD | PTE_PS`
abbrev pub io_flags : ℕ
io_flags = 0x9b

-- `PTE_P | PTE_W | PTE_PS`
abbrev pub rw_flags : ℕ
rw_flags = 0x83

-- `x & ~0xfff`
abbrev pub base_of : ℕ → ℕ
base_of x = x / 4096 * 4096

abbrev pub pml4_index : ℕ → ℕ
pml4_index vaddr = vaddr / 2 ^ 39 % 512

abbrev pub pdp_index : ℕ → ℕ
pdp_index vaddr = vaddr / 2 ^ 30 % 512

abbrev pub pd_index : ℕ → ℕ
pd_index vaddr = vaddr / 2 ^ 21 % 512

-- the address of the word `i` of the table at `table`
abbrev pub entry_at : ℕ → ℕ → ℕ
entry_at table i = table + 8 * i

abbrev pub write_word : (ℕ → ℕ) → ℕ → ℕ → ℕ → ℕ
write_word mem a v b = if a == b then v else mem b

-- `memset(p, 0, 4096)`
abbrev pub clear_table : (ℕ → ℕ) → ℕ → ℕ → ℕ
clear_table mem p b = if leb p b && ltb b (p + 4096) then 0 else mem b

module _ {W : Type 0} where
  abbrev pub store : ℕ → ℕ → Action (Paging W) (Unit {0})
  store a v s = ok (tt, record s { mem = write_word s.mem a v })

  -- The address of the entry for `addr`, or 0 if a table is missing.
  unfoldable pub get_pte_with_addr : ℕ → Paging W → ℕ
  get_pte_with_addr addr s =
      let p_pdp = base_of (s.mem (entry_at (base_of s.cr3) (pml4_index addr))) in
      let p_pd = base_of (s.mem (entry_at p_pdp (pdp_index addr))) in
      if p_pdp == 0 then 0 else if p_pd == 0 then 0 else entry_at p_pd (pd_index addr)

  module _ (alloc_4k : ℕ → Action W ℕ) where
    abbrev pub on_heap : {A : Type 0} → Outcome (A × W) → Action (Paging W) A
    on_heap (ok (a, w)) s = ok (a, record s { heap = w })
    on_heap halt s = halt
    on_heap spin s = spin

    -- `memset(p, 0, 4096); *slot = p | PTE_P | PTE_W | PTE_U;`, or E_NOMEM as `none`
    abbrev pub link_table : ℕ → ℕ → Action (Paging W) (Option ℕ)
    link_table slot p s =
        if p == 0
        then ok (none, s)
        else ok (some p, record s { mem = write_word (clear_table s.mem p) slot (p + table_flags) })

    pub new_table : ℕ → Action (Paging W) (Option ℕ)
    new_table slot s =
        (on_heap (alloc_4k 4096 s.heap) >>= λ p. assert (p % 4096 == 0) >> link_table slot p) s

    -- the table that the entry at `slot` points to, or a new one
    pub table_of : ℕ → Action (Paging W) (Option ℕ)
    table_of slot s =
        if base_of (s.mem slot) == 0 then new_table slot s else ok (some (base_of (s.mem slot)), s)

    abbrev pub with_table : (ℕ → Action (Paging W) ℕ) → Option ℕ → Action (Paging W) ℕ
    with_table go none s = ok (e_nomem, s)
    with_table go (some p) s = go p s

    pub map_page_p2v : ℕ → ℕ → ℕ → Action (Paging W) ℕ
    map_page_p2v paddr vaddr flag s =
        (do
          assert (paddr % 4096 == 0)
          assert (ltb flag 4096)
          pdp ← table_of (entry_at s.pml4 (pml4_index vaddr))
          with_table
              (λ p_pdp. do
                pd ← table_of (entry_at p_pdp (pdp_index vaddr))
                with_table
                    (λ p_pd. do store (entry_at p_pd (pd_index vaddr)) (paddr + flag); pure success)
                    pd)
              pdp)
          s

    pub map_page_p2v_rw : ℕ → ℕ → Action (Paging W) ℕ
    map_page_p2v_rw paddr vaddr = map_page_p2v paddr vaddr rw_flags

    -- `for (added = 0; added <= size; added += PAGE_SIZE)`, on 64 bits; what map_page_p2v returns is
    -- not looked at.
    pub remap_loop : ℕ → ℕ → ℕ → ℕ → Action (Paging W) (Unit {0})
    remap_loop zero added size paddr s = spin
    remap_loop (suc rounds) added size paddr s =
        let rest : Action (Paging W) (Unit {0}) =
          remap_loop rounds ((added + page_2m) % 2 ^ 64) size ((paddr + page_2m) % 2 ^ 64) in
        if leb added size
        then (map_page_p2v paddr ((paddr + io_mem_base) % 2 ^ 64) io_flags >>= λ r. rest) s
        else ok (tt, s)

    pub ioremap_nocache : ℕ → ℕ → ℕ → Action (Paging W) ℕ
    ioremap_nocache rounds addr size =
        let paddr = addr / page_2m * page_2m in
        remap_loop rounds 0 ((size + (addr - paddr)) % 2 ^ 64) paddr
        >> pure ((addr + io_mem_base) % 2 ^ 64)
