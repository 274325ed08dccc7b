-- ===== src/Pgtable/Init.antt =====
-- `init_pml4`, arch/x86_64/pgtable.c: the first tables, and the memory above 4G.
--
-- The products in the entries are of type `int`: they wrap at 32 bits and are extended by their sign.
pub mod First
pub mod Identity
mod Tests
use yaos.Prelude.{ℕ, zero, suc, ◌+◌, ◌-◌, ◌*◌, ◌%◌, ◌^◌, ltb, ◌==◌, if◌then◌else◌}
use yaos.Prelude.Outcome.{ok, spin, Action, ◌>>=◌, ◌>>◌, pure, assert}
use yaos.Pgtable.{
  Paging, page_2m, success, rw_flags, entry_at, write_word, clear_table, map_page_p2v,
}

-- the addresses of the static tables
pub record Statics : Type 0 where
  pub first_pdp : ℕ
  pub first_pd : ℕ
  pub second_pd : ℕ
  pub third_pd : ℕ
  pub fourth_pd : ℕ

-- an `int` that becomes a word of 64 bits
abbrev pub int_to_ulong : ℕ → ℕ
int_to_ulong x = if ltb (x % 2 ^ 32) (2 ^ 31) then x % 2 ^ 32 else x % 2 ^ 32 + (2 ^ 64 - 2 ^ 32)

-- `(i + n * PD_PER_PTE) * PAGE_SIZE | PTE_PS | PTE_W | PTE_P`
abbrev pub first_entry : ℕ → ℕ → ℕ
first_entry n i = int_to_ulong ((i + n * 512) * page_2m) + rw_flags

abbrev pub write_row : Statics → ℕ → (ℕ → ℕ) → ℕ → ℕ
write_row st i mem =
    let m1 = write_word mem (entry_at st.first_pd i) (first_entry 0 i) in
    let m2 = write_word m1 (entry_at st.second_pd i) (first_entry 1 i) in
    let m3 = write_word m2 (entry_at st.third_pd i) (first_entry 2 i) in
    write_word m3 (entry_at st.fourth_pd i) (first_entry 3 i)

-- the loop over `i`, with `count` rounds left
pub write_rows : Statics → ℕ → ℕ → (ℕ → ℕ) → ℕ → ℕ
write_rows st zero i mem = mem
write_rows st (suc count) i mem = write_rows st count (i + 1) (write_row st i mem)

-- `PTE_P | PTE_W`
abbrev pub link_to : (ℕ → ℕ) → ℕ → ℕ → ℕ → ℕ
link_to mem slot table = write_word mem slot (table + 3)

-- The entries of the root table and of the first table of the second level.
abbrev pub first_links : Statics → ℕ → (ℕ → ℕ) → ℕ → ℕ
first_links st pml4 mem =
    let m0 =
      link_to (clear_table (clear_table mem pml4) st.first_pdp) (entry_at pml4 0) st.first_pdp in
    let m1 = link_to m0 (entry_at st.first_pdp 0) st.first_pd in
    let m2 = link_to m1 (entry_at st.first_pdp 1) st.second_pd in
    let m3 = link_to m2 (entry_at st.first_pdp 2) st.third_pd in
    link_to m3 (entry_at st.first_pdp 3) st.fourth_pd

module _ {W : Type 0} where
  pub init_first_4g : Statics → Action (Paging W) (Unit {0})
  init_first_4g st s = ok (tt, record s { mem = write_rows st 512 0 (first_links st s.pml4 s.mem) })

  abbrev pub check_aligned : Statics → Action (Paging W) (Unit {0})
  check_aligned st s =
      (assert (s.pml4 % 4096 == 0)
          >> (assert (st.first_pdp % 4096 == 0) >> assert (st.first_pd % 4096 == 0)))
        s

  pub write_cr3 : Action (Paging W) (Unit {0})
  write_cr3 s = ok (tt, record s { cr3 = s.pml4 })

  module _ (alloc_4k : ℕ → Action W ℕ) where
    -- `for (; addr + PAGE_SIZE < __max_phy_mem_addr; addr += PAGE_SIZE)`
    pub map_above : ℕ → ℕ → ℕ → Action (Paging W) (Unit {0})
    map_above zero addr max s = spin
    map_above (suc rounds) addr max s =
        let rest : Action (Paging W) (Unit {0}) =
          map_above rounds ((addr + page_2m) % 2 ^ 64) max in
        if ltb ((addr + page_2m) % 2 ^ 64) max
        then (do r ← map_page_p2v alloc_4k addr addr rw_flags; assert (r == success); rest) s
        else ok (tt, s)

    pub init_pml4 : Statics → ℕ → ℕ → Action (Paging W) (Unit {0})
    init_pml4 st rounds max = do
      check_aligned st
      init_first_4g st
      if ltb (2 ^ 32) max then map_above rounds (2 ^ 32) max else pure tt
      write_cr3
