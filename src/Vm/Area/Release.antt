-- ===== src/Vm/Area/Release.antt =====
-- `free_vm_page`: which pages it gives back.
use yaos.Prelude.{
  ℕ, zero, suc, ◌+◌, ◌*◌, ◌/◌, ◌%◌, ◌^◌, ◌≤◌, ◌<◌, ◌≡◌, ◌≢◌, refl, sym, ap, ◌∙◌, inl, inr, ◌||◌,
  arith, Bool-cases, leb, ◌==◌, if_true, if_false,
}
use yaos.Prelude.Outcome.{ok, Action, >>-ok}
use yaos.Phymem.{Phymem, page_size, free_phy_one_page}
use yaos.Phymem.Inv.{IsValid, is_free}
use yaos.Phymem.Free.{free_phy_one_page-Freed}
use yaos.Pgtable.{get_pte_with_addr}
use yaos.Pgtable.Alloc.{==_ne}
use yaos.Pgtable.Map.{get_pte-heap}
use yaos.Vm.Area.{Space, on_pages, page_at, free_entry, free_entries, free_vm_page}

-- the state with another state of the page allocator
abbrev pub with_phys : Space → Phymem → Space
with_phys s p = record s { paging = record s.paging { heap = record s.paging.heap { phys = p } } }

-- There is an entry for the address, and it has a page of the memory.
pub record IsBacked (addr : ℕ) (s : Space) : Type 0 where
  pub entry : get_pte_with_addr addr s.paging ≢ 0
  pub some_page : page_at addr s ≢ 0
  pub low : page_at addr s < s.paging.heap.phys.max_phy_addr

module _ (addr : ℕ) (s : Space) (b : IsBacked addr s) where
  -- the page is free, and otherwise the pages are as before
  pub record IsFreed (p q : Phymem) : Type 0 where
    pub valid : IsValid q
    pub limit : q.max_phy_addr ≡ s.paging.heap.phys.max_phy_addr
    pub freed : (k : ℕ) → is_free q k ≡ ((page_at addr s / page_size == k) || is_free p k)

  same_page_at : (p : Phymem) → page_at addr (with_phys s p) ≡ page_at addr s
  same_page_at p =
      ap (λ x. s.paging.mem x / page_size * page_size)
        (get_pte-heap addr s.paging (record s.paging.heap { phys = p }))

  entry-IsFreed :
      (p : Phymem)
      → IsValid p
      → p.max_phy_addr ≡ s.paging.heap.phys.max_phy_addr
      → (q : Phymem) × (free_entry addr (with_phys s p) ≡ ok (tt, with_phys s q)) × IsFreed p q
  unfolding free_entry
  entry-IsFreed p v limit =
      let (q, out, v', limit', freed) =
        free_phy_one_page-Freed p (page_at addr s) v b.some_page (omega arith)
          (omega (arith, b.low, limit)) in
      let some : get_pte_with_addr addr
            (record s.paging { heap = record s.paging.heap { phys = p } })
          ≢ 0 =
        λ z. b.entry (sym (get_pte-heap addr s.paging (record s.paging.heap { phys = p })) ∙ z) in
      (
        q,
        if_false
              (get_pte_with_addr addr (record s.paging { heap = record s.paging.heap { phys = p } })
                == 0)
              _ _ (==_ne _ 0 some)
            ∙ ap (λ x. on_pages (free_phy_one_page x) (with_phys s p)) (same_page_at p)
            ∙ rw (out, on_pages) refl,
        record { valid = v'; limit = limit' ∙ limit; freed = freed },
      )

  IsFreed-trans : (p q r : Phymem) → IsFreed p q → IsFreed q r → IsFreed p r
  IsFreed-trans p q r f g = record {
    valid = g.valid;
    limit = g.limit;
    freed = λ k. ground (arith, f.freed k, g.freed k);
  }

  loop_lem :
      (rounds phsize size : ℕ) (p : Phymem)
      → IsValid p
      → p.max_phy_addr ≡ s.paging.heap.phys.max_phy_addr
      → phsize ≤ size
      → size < phsize + rounds * page_size
      → size + page_size < 2 ^ 64
      → (q : Phymem) × (free_entries (suc rounds) phsize addr size (with_phys s p)
          ≡ ok (tt, with_phys s q))
        × IsFreed p q
  unfolding free_entries
  loop_lem zero phsize size p v limit le enough fits = absurd (omega (arith, le, enough))
  loop_lem (suc rounds) phsize size p v limit le enough fits =
      let (q, out, f) = entry-IsFreed p v limit in
      let again : Action Space (Unit {0}) =
        free_entries (suc rounds) ((phsize + page_size) % 2 ^ 64) addr size in
      let first : free_entries (suc (suc rounds)) phsize addr size (with_phys s p)
          ≡ again (with_phys s q) =
        if_true (leb phsize size) _ _ (ground (arith, le))
        ∙ >>-ok (free_entry addr) again (with_phys s p) (with_phys s q) out in
      let next : (phsize + page_size) % 2 ^ 64 ≡ phsize + page_size = omega (arith, le, fits) in
      elim (Bool-cases (leb (phsize + page_size) size)) [
        | inr e ↦ (
          q,
          first
              ∙ ap (λ x. free_entries (suc rounds) x addr size (with_phys s q)) next
              ∙ if_false (leb (phsize + page_size) size) _ _ e,
          f,
        )
        | inl e ↦
            let (r, out', g) =
              loop_lem rounds (phsize + page_size) size q f.valid f.limit (ground (arith, e))
                (omega (arith, enough)) fits in
            (
              r,
              first ∙ ap (λ x. free_entries (suc rounds) x addr size (with_phys s q)) next ∙ out',
              IsFreed-trans p q r f g,
            )
      ]

  -- free_vm_page of an address with a page of the memory below it, with the page allocator well formed and
  -- a size below 2^64 less 2M, returns, with one round for each page of the size and one
  -- more. For each such size it frees one page only, that of the address itself, and nothing else changes.
  pub free_vm_page-IsFreed :
      (rounds size : ℕ)
      → IsValid s.paging.heap.phys
      → size < rounds * page_size
      → size + page_size < 2 ^ 64
      → (q : Phymem) × (free_vm_page (suc rounds) addr size s ≡ ok (tt, with_phys s q))
        × IsFreed s.paging.heap.phys q
  unfolding free_vm_page
  free_vm_page-IsFreed rounds size v enough fits =
      loop_lem rounds 0 size s.paging.heap.phys v refl (omega arith) (omega (arith, enough)) fits
