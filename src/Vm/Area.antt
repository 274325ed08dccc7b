-- ===== src/Vm/Area.antt =====
-- Areas of virtual memory with pages below them, kernel/vm.c: addresses from the list of holes, pages from
-- the page allocator, and entries in the page tables.
--
-- The loops run on a number of rounds. What map_page_p2v_rw returns is not looked at.
pub mod Fill
pub mod Loop
pub mod Lost
pub mod Release
pub mod Whole
mod Tests
use yaos.Prelude.{
  ℕ, zero, suc, ◌+◌, ◌-◌, ◌*◌, ◌/◌, ◌%◌, ◌^◌, Bool, true, false, leb, ◌==◌, if◌then◌else◌,
}
use yaos.Prelude.Outcome.{Outcome, ok, halt, spin, Action, ◌>>=◌, ◌>>◌, pure}
use yaos.Phymem.{Phymem, page_size, alloc_phy_page, free_phy_one_page}
use yaos.Holes.{Holes}
use yaos.Kheap.{Kmem}
use yaos.Pgtable.{Paging, get_pte_with_addr, map_page_p2v_rw}
use yaos.Vm.{alloc_linear, free_linear}

pub record Space : Type 0 where
  pub linear : Holes
  pub paging : Paging Kmem

module _ {A : Type 0} where
  abbrev pub on_linear : Action Holes A → Action Space A
  on_linear m s = elim (m s.linear) [
    | ok (a, h) ↦ ok (a, record s { linear = h })
    | halt ↦ halt
    | spin ↦ spin
  ]

  abbrev pub on_tables : Action (Paging Kmem) A → Action Space A
  on_tables m s = elim (m s.paging) [
    | ok (a, p) ↦ ok (a, record s { paging = p })
    | halt ↦ halt
    | spin ↦ spin
  ]

  abbrev pub on_pages : Action Phymem A → Action Space A
  on_pages m s = elim (m s.paging.heap.phys) [
    | ok (a, p) ↦
        ok (a, record s { paging = record s.paging { heap = record s.paging.heap { phys = p } } })
    | halt ↦ halt
    | spin ↦ spin
  ]

-- `(*pte) & ~PAGE_MASK`, for an entry that is there
abbrev pub page_at : ℕ → Space → ℕ
page_at addr s = s.paging.mem (get_pte_with_addr addr s.paging) / page_size * page_size

-- one round of the loop of `free_vm_page`
pub free_entry : ℕ → Action Space (Unit {0})
free_entry addr s =
    if get_pte_with_addr addr s.paging == 0
    then halt
    else on_pages (free_phy_one_page (page_at addr s)) s

-- `while (phsize <= size)`: the address stays what it was.
pub free_entries : ℕ → ℕ → ℕ → ℕ → Action Space (Unit {0})
free_entries zero phsize addr size s = spin
free_entries (suc rounds) phsize addr size s =
    let rest : Action Space (Unit {0}) =
      free_entries rounds ((phsize + page_size) % 2 ^ 64) addr size in
    if leb phsize size then (free_entry addr >> rest) s else ok (tt, s)

pub free_vm_page : ℕ → ℕ → ℕ → Action Space (Unit {0})
free_vm_page rounds addr size = free_entries rounds 0 addr size

pub free_vm : ℕ → ℕ → ℕ → Action Space (Unit {0})
free_vm rounds addr size = do free_vm_page rounds addr size; on_linear (free_linear addr size)

pub free_vm_stack : ℕ → ℕ → ℕ → Action Space (Unit {0})
free_vm_stack rounds addr size = do
  free_vm_page rounds addr size
  on_linear (free_linear ((addr + (2 ^ 64 - page_size)) % 2 ^ 64) ((size + page_size) % 2 ^ 64))

-- `rounds` bounds the loops, `fuel` the wait in alloc_phy_page.
module _ (alloc_4k : ℕ → Action Kmem ℕ) (fuel : ℕ) where
  -- What follows when no page is left.
  pub give_up : ℕ → ℕ → ℕ → ℕ → Action Space Bool
  give_up rounds phsize addr size = do
    if phsize == 0
        then pure tt
        else do free_vm_page rounds addr phsize; on_linear (free_linear addr size)
    pure false

  -- The loop of alloc_vm and alloc_vm_stack; `false` is the null result.
  pub fill_pages : ℕ → ℕ → ℕ → ℕ → Action Space Bool
  fill_pages zero phsize addr size s = spin
  fill_pages (suc rounds) phsize addr size s =
      let rest : Action Space Bool =
        fill_pages rounds ((phsize + page_size) % 2 ^ 64) ((addr + page_size) % 2 ^ 64) size in
      if leb phsize size
      then (do
        pg ← on_pages (alloc_phy_page fuel)
        if pg == 0
            then give_up (suc rounds) phsize addr size
            else do on_tables (map_page_p2v_rw alloc_4k pg addr) >>= λ r. rest)
          s
      else ok (true, s)

  -- what is returned: the address, or null
  abbrev pub answer : ℕ → Bool → Action Space ℕ
  answer addr done = pure (if done then addr else 0)

  pub alloc_vm : ℕ → ℕ → Action Space ℕ
  alloc_vm rounds size = do
    p ← on_linear (alloc_linear size)
    if p == 0 then pure 0 else do fill_pages rounds 0 p size >>= answer p

  pub alloc_vm_stack : ℕ → ℕ → Action Space ℕ
  alloc_vm_stack rounds size = do
    p ← on_linear (alloc_linear ((size + page_size) % 2 ^ 64))
    if p == 0 then pure 0 else do
      fill_pages rounds 0 ((p + page_size) % 2 ^ 64) size >>= answer ((p + page_size) % 2 ^ 64)
