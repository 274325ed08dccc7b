-- ===== src/Pgtable/Total.antt =====
-- The routines on the page tables return when the allocator of the tables has enough in stock.
use yaos.Prelude.{
  ℕ, zero, suc, ◌+◌, ◌-◌, ◌*◌, ◌/◌, ◌%◌, ◌^◌, ◌≤◌, ◌<◌, ◌≡◌, ◌≢◌, refl, sym, ap, ◌∙◌, subst, inl,
  inr, Bool, true, Option, none, some, arith, Bool-cases, leb, ltb, ◌==◌, ==_iff, if_true, if_false,
}
use yaos.Prelude.Outcome.{
  Outcome, ok, halt, spin, Action, ◌>>◌, pure, assert, Returns, Returns->>=, Returns-and,
  Returns-mono, >>-ok,
}
use yaos.Pgtable.{
  Paging, page_2m, success, base_of, entry_at, pml4_index, pdp_index, on_heap, new_table,
  link_table, table_of, with_table, map_page_p2v, map_page_p2v_rw, remap_loop, rw_flags, io_flags,
  ioremap_nocache,
}
use yaos.Pgtable.Alloc.{==_ne, IsAllocator, IsPaging}
use yaos.Pgtable.Map.{Mapped, map_page_p2v-Mapped}
use yaos.Pgtable.Remap.{io_virtual, io_entry-none, Remapped, one-Remapped}

-- `Stock n w` says that the allocator serves the next n calls for 4K: it returns an aligned address, not null.
pub record IsSupply {W : Type 0} (alloc_4k : ℕ → Action W ℕ) (Stock : ℕ → W → Type 0) : Type 0 where
  pub gives :
      (n : ℕ) (w : W)
      → Stock (suc n) w
      → Returns (λ (p, t). (p ≢ 0) × (p % 4096 ≡ 0) × Stock n t) (alloc_4k 4096 w)
  pub fewer : (n : ℕ) (w : W) → Stock (suc n) w → Stock n w

asserted : {S : Type 0} (b : Bool) (s : S) → b ≡ true → assert b s ≡ ok (tt, s)
asserted b s e = ap (λ b. assert b s) e

module _ {W : Type 0} (alloc_4k : ℕ → Action W ℕ) (Stock : ℕ → W → Type 0)
    (supply : IsSupply alloc_4k Stock) where
  -- a table was found or made
  abbrev Found : ℕ → Option ℕ × Paging W → Type 0
  Found n (none, t) = ⊥
  Found n (some p, t) = Stock n t.heap

  -- the page was mapped
  abbrev pub Stored : ℕ → ℕ × Paging W → Type 0
  Stored n (r, t) = (r ≡ success) × Stock n t.heap

  abbrev Page : ℕ → ℕ × W → Type 0
  Page n (p, w) = (p ≢ 0) × (p % 4096 ≡ 0) × Stock n w

  given :
      (n : ℕ) (s : Paging W) (r : Outcome (ℕ × W))
      → Returns (Page n) r
      → Returns (λ (p, t). Page n (p, t.heap)) (on_heap alloc_4k r s)
  given n s (ok (p, w)) h = h
  given n s halt h = h
  given n s spin h = h

  new_table-Found :
      (n slot : ℕ) (s : Paging W)
      → Stock (suc n) s.heap
      → Returns (Found n) (new_table alloc_4k slot s)
  unfolding new_table
  new_table-Found n slot s stock =
      Returns->>= (λ (p, t). Page n (p, t.heap)) (Found n) (on_heap alloc_4k (alloc_4k 4096 s.heap))
        (λ p. assert (p % 4096 == 0) >> link_table alloc_4k slot p) s
        (given n s (alloc_4k 4096 s.heap) (supply.gives n s.heap stock))
        (λ p t (some_page, al, left).
          subst (Returns (Found n))
            (sym (
              >>-ok (assert (p % 4096 == 0)) (link_table alloc_4k slot p) t t
                (asserted (p % 4096 == 0) t ((==_iff (p % 4096) 0).1 al))
              ∙ if_false (p == 0) _ _ (==_ne p 0 some_page)))
            left)

  table_of-Found :
      (n slot : ℕ) (s : Paging W)
      → Stock (suc n) s.heap
      → Returns (Found n) (table_of alloc_4k slot s)
  unfolding table_of
  table_of-Found n slot s stock = elim (Bool-cases (base_of (s.mem slot) == 0)) [
    | inl e ↦
        subst (Returns (Found n)) (sym (if_true (base_of (s.mem slot) == 0) _ _ e))
          (new_table-Found n slot s stock)
    | inr e ↦
        subst (Returns (Found n)) (sym (if_false (base_of (s.mem slot) == 0) _ _ e))
          (supply.fewer n s.heap stock)
  ]

  with_table-Stored :
      (m n : ℕ) (go : ℕ → Action (Paging W) ℕ)
      → ((p : ℕ) (s : Paging W) → Stock m s.heap → Returns (Stored n) (go p s))
      → (o : Option ℕ) (s : Paging W) → Found m (o, s)
      → Returns (Stored n) (with_table alloc_4k go o s)
  with_table-Stored m n go h none s found = absurd found
  with_table-Stored m n go h (some p) s found = h p s found

  -- map_page_p2v of an aligned address, with flags below 4096 and two tables in stock, returns OK.
  pub map_page_p2v-Stored :
      (n paddr vaddr flag : ℕ) (s : Paging W)
      → paddr % 4096 ≡ 0
      → flag < 4096
      → Stock (suc (suc n)) s.heap
      → Returns (Stored n) (map_page_p2v alloc_4k paddr vaddr flag s)
  unfolding map_page_p2v
  map_page_p2v-Stored n paddr vaddr flag s al lt stock =
      subst (Returns (Stored n))
        (sym (
          >>-ok (assert (paddr % 4096 == 0)) _ s s
            (asserted (paddr % 4096 == 0) s ((==_iff (paddr % 4096) 0).1 al))
          ∙ >>-ok (assert (ltb flag 4096)) _ s s (asserted (ltb flag 4096) s (ground (arith, lt)))))
        (Returns->>= (Found (suc n)) (Stored n)
          (table_of alloc_4k (entry_at s.pml4 (pml4_index vaddr))) _ s
          (table_of-Found (suc n) (entry_at s.pml4 (pml4_index vaddr)) s stock)
          (with_table-Stored (suc n) n _ (λ p t left.
            Returns->>= (Found n) (Stored n) (table_of alloc_4k (entry_at p (pdp_index vaddr))) _ t
              (table_of-Found n (entry_at p (pdp_index vaddr)) t left)
              (with_table-Stored n n _ (λ p u last. (refl, last))))))

  module _ (Good : W → Type 0) (Held : W → ℕ → Type 0) (root : ℕ)
      (law : IsAllocator alloc_4k Good Held) where
    -- `map_page_p2v` of an aligned address, with flags below 4096, tables that are a tree and an allocator that has
    -- two tables in stock (of which a call takes at most two), returns OK and keeps the tables a
    -- tree. What `get_pte_with_addr` finds for an address is then the new entry if the address
    -- lies in the page of 2M that was mapped, and is what it was for every other address.
    pub map_page_p2v-Returns :
        (n paddr vaddr flag : ℕ) (s : Paging W)
        → paddr % 4096 ≡ 0
        → flag < 4096
        → Stock (suc (suc n)) s.heap
        → IsPaging Good Held root s
        → Returns
            (λ out. Stored n out × Mapped Good Held root alloc_4k law vaddr (paddr + flag) s out)
            (map_page_p2v alloc_4k paddr vaddr flag s)
    map_page_p2v-Returns n paddr vaddr flag s al lt stock v =
        Returns-and (Stored n) (Mapped Good Held root alloc_4k law vaddr (paddr + flag) s)
          (map_page_p2v alloc_4k paddr vaddr flag s)
          (map_page_p2v-Stored n paddr vaddr flag s al lt stock)
          (map_page_p2v-Mapped Good Held root alloc_4k law paddr vaddr flag s v)

    pub map_page_p2v_rw-Returns :
        (n paddr vaddr : ℕ) (s : Paging W)
        → paddr % 4096 ≡ 0
        → Stock (suc (suc n)) s.heap
        → IsPaging Good Held root s
        → Returns
            (λ out.
              Stored n out × Mapped Good Held root alloc_4k law vaddr (paddr + rw_flags) s out)
            (map_page_p2v_rw alloc_4k paddr vaddr s)
    unfolding map_page_p2v_rw
    map_page_p2v_rw-Returns n paddr vaddr s al stock v =
        map_page_p2v-Returns n paddr vaddr rw_flags s al (omega arith) stock v

    module _ (base size : ℕ) (fits : base + size < 2 ^ 48) (start : base % page_2m ≡ 0) where
      abbrev Rest : ℕ → Paging W → Unit {0} × Paging W → Type 0
      Rest added s (_, t) = Remapped Good Held root alloc_4k law (base + added) (base + size) s t

      remap_loop-end :
          (rounds added : ℕ) (s : Paging W)
          → size < added
          → IsPaging Good Held root s
          → Returns (Rest added s) (remap_loop alloc_4k (suc rounds) added size (base + added) s)
      unfolding remap_loop
      remap_loop-end rounds added s past v =
          subst (Returns (Rest added s))
            (sym (if_false (leb added size) _ _ (ground (arith, past))))
            (v, λ a. io_entry-none (base + added) (base + size) a _ (omega (arith, past)))

      remap_loop-Remapped :
          (rounds added : ℕ) (s : Paging W)
          → added % page_2m ≡ 0
          → size < added + rounds * page_2m
          → Stock (rounds * 2) s.heap
          → IsPaging Good Held root s
          → Returns (Rest added s) (remap_loop alloc_4k (suc rounds) added size (base + added) s)
      unfolding remap_loop
      remap_loop-Remapped zero added s whole enough stock v =
          remap_loop-end zero added s (omega (arith, enough)) v
      remap_loop-Remapped (suc rounds) added s whole enough stock v =
          elim (Bool-cases (leb added size)) [
            | inr e ↦ remap_loop-end (suc rounds) added s (ground (arith, e)) v
            | inl e ↦
                let within : added ≤ size = ground (arith, e) in
                let next : Action (Paging W) (Unit {0}) =
                  remap_loop alloc_4k (suc rounds) ((added + page_2m) % 2 ^ 64) size
                    ((base + added + page_2m) % 2 ^ 64) in
                subst (Returns (Rest added s)) (sym (if_true (leb added size) _ _ e)) (
                  Returns->>= _ (Rest added s)
                    (map_page_p2v alloc_4k (base + added) (io_virtual (base + added)) io_flags)
                    (λ r. next) s
                    (map_page_p2v-Returns (rounds * 2) (base + added) (io_virtual (base + added))
                      io_flags s (omega (arith, whole, start)) (omega arith)
                      (subst (λ k. Stock k s.heap) (omega arith) stock) v)
                    (λ r t ((r_ok, left), m).
                      subst
                        (λ x. Returns (Rest added s) (
                          remap_loop alloc_4k (suc rounds) x size
                            ((base + added + page_2m) % 2 ^ 64) t))
                        (omega (arith, within, fits))
                        (subst
                          (λ y.
                            Returns (Rest added s)
                              (remap_loop alloc_4k (suc rounds) (added + page_2m) size y t))
                          (omega (arith, within, fits))
                          (Returns-mono (Rest (added + page_2m) t) (Rest added s)
                            (remap_loop alloc_4k (suc rounds) (added + page_2m) size
                              (base + (added + page_2m)) t)
                            (λ (_, u) rest.
                              one-Remapped Good Held root alloc_4k law (base + added) (base + size)
                                s t u (omega (arith, whole, start)) (omega (arith, within)) fits
                                (subst
                                  (λ r.
                                    Mapped Good Held root alloc_4k law (io_virtual (base + added))
                                      (base + added + io_flags) s (r, t))
                                  r_ok m)
                                (subst
                                  (λ x. Remapped Good Held root alloc_4k law x (base + size) t u)
                                  (omega arith) rest))
                            (remap_loop-Remapped rounds (added + page_2m) t (omega (arith, whole))
                              (omega (arith, enough)) left m.0)))))
          ]

    -- `ioremap_nocache` of a region that ends below 2^48, with tables that are a tree, one round for each page of
    -- the region and one more, and an allocator that has two tables in stock for each page, returns the
    -- address that it was given, moved by IO_MEM_BASE. The tables stay a tree. At IO_MEM_BASE each page
    -- of 2M is found from that of `addr` to that of `addr + size`, which is included, without caching;
    -- what is found for every other address is what it was.
    pub ioremap_nocache-Returns :
        (rounds addr size : ℕ) (s : Paging W)
        → addr + size < 2 ^ 48
        → size + addr % page_2m < rounds * page_2m
        → Stock (rounds * 2) s.heap
        → IsPaging Good Held root s
        → Returns
            (λ (r, t).
              (r ≡ io_virtual addr)
              × Remapped Good Held root alloc_4k law (addr / page_2m * page_2m) (addr + size) s t)
            (ioremap_nocache alloc_4k (suc rounds) addr size s)
    unfolding ioremap_nocache
    ioremap_nocache-Returns rounds addr size s fits enough stock v =
        let base : ℕ = addr / page_2m * page_2m in
        let whole : ℕ = size + addr % page_2m in
        let same : (size + (addr - base)) % 2 ^ 64 ≡ whole = omega (arith, fits) in
        let last : base + whole ≡ addr + size = omega arith in
        Returns->>= (λ (_, t). Remapped Good Held root alloc_4k law base (addr + size) s t) _
          (remap_loop alloc_4k (suc rounds) 0 ((size + (addr - base)) % 2 ^ 64) base)
          (λ _. pure (io_virtual addr)) s
          (subst
            (λ x.
              Returns (λ (_, t). Remapped Good Held root alloc_4k law base (addr + size) s t)
                (remap_loop alloc_4k (suc rounds) 0 x base s))
            (sym same)
            (subst
              (λ hi.
                Returns (λ (_, t). Remapped Good Held root alloc_4k law base hi s t)
                  (remap_loop alloc_4k (suc rounds) 0 whole base s))
              last
              (subst
                (λ x.
                  Returns (λ (_, t). Remapped Good Held root alloc_4k law x (base + whole) s t)
                    (remap_loop alloc_4k (suc rounds) 0 whole x s))
                (omega arith)
                (remap_loop-Remapped base whole (omega (arith, fits)) (omega arith) rounds 0 s refl
                  (omega (arith, enough)) stock v))))
          (λ _ t h. (refl, h))
