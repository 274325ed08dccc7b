-- ===== src/Vm/Area/Loop.antt =====
-- The loop of `alloc_vm` over the page allocator, the kernel heap and the page tables.
use yaos.Prelude.{
  ℕ, zero, suc, ◌+◌, ◌*◌, ◌/◌, ◌%◌, ◌^◌, ◌≤◌, ◌<◌, ◌≡◌, ◌≢◌, refl, sym, ap, ◌∙◌, subst, inl, inr,
  Bool, true, arith, Bool-cases, leb, ◌==◌, if◌then◌else◌, if_true, if_false,
}
use yaos.Prelude.Outcome.{
  Outcome, ok, halt, spin, Action, ◌>>=◌, Returns, Returns->>=, Returns-and, Returns-mono, WhenOk,
}
use yaos.Phymem.{Phymem, page_size, alloc_phy_page}
use yaos.Phymem.Alloc.{alloc_phy_page-Allocated}
use yaos.Kheap.{Kmem, alloc_kheap_4k}
use yaos.Pgtable.{Paging, rw_flags, map_page_p2v_rw}
use yaos.Pgtable.Alloc.{==_ne, IsPaging}
use yaos.Pgtable.Stage.{IsTree-mono}
use yaos.Pgtable.Heap.{
  IsIdle, Taken, Stocked, StockedFrom, alloc_kheap_4k-IsAllocator, from-IsSupply,
}
use yaos.Pgtable.Map.{translation, same_page, Mapped, translation-heap}
use yaos.Pgtable.Total.{Stored, map_page_p2v_rw-Returns}
use yaos.Vm.Area.{Space, on_tables, on_pages, give_up, fill_pages}
use yaos.Vm.Area.Fill.{Filled, Filled-page, Filled-none}

-- what taking a page leaves of the kernel's memory
abbrev Paged : Kmem → ℕ × Phymem → Type 0
Paged k (pg, p) =
    IsIdle (record k { phys = p })
    × ((q : ℕ) → Taken k q → Taken (record k { phys = p }) q)
    × (pg % page_size ≡ 0)
    × (pg ≢ 0 → (Taken k pg → ⊥) × Taken (record k { phys = p }) pg)

alloc_phy_page-Paged :
    (fuel : ℕ) (k : Kmem) → IsIdle k → WhenOk (Paged k) (alloc_phy_page fuel k.phys)
alloc_phy_page-Paged fuel k idle = go (alloc_phy_page fuel k.phys) refl
  where
    go : (r : Outcome (ℕ × Phymem)) → alloc_phy_page fuel k.phys ≡ r → WhenOk (Paged k) r
    go halt e = tt
    go spin e = tt
    go (ok (pg, p)) e =
        let (v, (aligned, took), limit) = alloc_phy_page-Allocated fuel k.phys pg p idle.0.phys e in
        (
          (
            record {
              phys = v;
              heap = idle.0.heap;
              single = λ a. omega (arith, took (a / page_size), idle.0.single a);
            },
            idle.1,
          ),
          (λ q held a le lt. omega (arith, took (a / page_size), held a le lt)),
          aligned,
          λ ne. (
            (λ held.
                ground (arith, took (pg / page_size), held pg (omega arith) (omega arith), ne)),
            λ a le lt.
                let same : a / page_size ≡ pg / page_size = omega (arith, aligned, le, lt) in
                ground (arith, took (a / page_size), idle.0.single a, ne, same),
          ),
        )

-- The page allocator hands out a page at each of the next n calls.
abbrev pub Serves : ℕ → ℕ → Phymem → Type 0
Serves fuel zero p = Unit
Serves fuel (suc n) p = Returns (λ (pg, q). (pg ≢ 0) × Serves fuel n q) (alloc_phy_page fuel p)

module _ (root rounds_4k fuel_4k fuel base size : ℕ) (short : size < 2 ^ 47)
    (fits : base + size + page_size < 2 ^ 64) where
  abbrev alloc_4k : ℕ → Action Kmem ℕ
  alloc_4k = alloc_kheap_4k rounds_4k fuel_4k

  -- what has happened when the loop ends
  abbrev pub Full : ℕ → Space → Bool × Space → Type 0
  Full from s (done, t) =
      (done ≡ true) × (t.linear ≡ s.linear) × Filled root base from size s.paging t.paging

  abbrev Took : ℕ → ℕ → Space → ℕ × Space → Type 0
  Took n m s (pg, t) =
      (pg ≢ 0)
      × Serves fuel m t.paging.heap.phys
      × (t.linear ≡ s.linear)
      × IsPaging IsIdle Taken root t.paging
      × ((a : ℕ) → translation a t.paging ≡ translation a s.paging)
      × (pg % page_size ≡ 0)
      × Stocked n t.paging.heap
      × ((q : ℕ) → Taken s.paging.heap q → Taken t.paging.heap q)
      × (Taken s.paging.heap pg → ⊥)
      × Taken t.paging.heap pg

  page-IsPaging :
      (s : Paging Kmem) (p : Phymem)
      → IsPaging IsIdle Taken root s
      → IsIdle (record s.heap { phys = p })
      → ((q : ℕ) → Taken s.heap q → Taken (record s.heap { phys = p }) q)
      → IsPaging IsIdle Taken root (record s { heap = record s.heap { phys = p } })
  page-IsPaging s p v idle kept = record {
    root_at = v.root_at;
    in_use = v.in_use;
    tree = IsTree-mono s.mem root kept v.tree;
    good = idle;
  }

  take_page :
      (n m : ℕ) (s : Space)
      → Stocked n s.paging.heap
      → Serves fuel (suc m) s.paging.heap.phys
      → IsPaging IsIdle Taken root s.paging
      → Returns (Took n m s) (on_pages (alloc_phy_page fuel) s)
  take_page n m s stock serves v = go (alloc_phy_page fuel s.paging.heap.phys) (
      Returns-and _ (Paged s.paging.heap) (alloc_phy_page fuel s.paging.heap.phys) serves
        (alloc_phy_page-Paged fuel s.paging.heap v.good))
    where
      go :
          (r : Outcome (ℕ × Phymem))
          → Returns (λ out. ((out.0 ≢ 0) × Serves fuel m out.1) × Paged s.paging.heap out) r
          → Returns (Took n m s) (on_pages (λ _. r) s)
      go (ok (pg, p)) ((ne, more), (idle, kept, al, own)) = (
        ne,
        more,
        refl,
        page-IsPaging s.paging p v idle kept,
        (λ a. translation-heap a s.paging (record s.paging.heap { phys = p })),
        al,
        (idle, stock.1),
        kept,
        (own ne).0,
        (own ne).1,
      )
      go halt h = h
      go spin h = h

  abbrev Placed : ℕ → ℕ → ℕ → Space → ℕ × Space → Type 0
  Placed n off pg s (r, t) =
      (t.linear ≡ s.linear)
      × IsPaging IsIdle Taken root t.paging
      × StockedFrom s.paging.heap n t.paging.heap
      × ((a : ℕ)
          → translation a t.paging
            ≡ (if same_page (base + off) a then pg + rw_flags else translation a s.paging))

  place_page :
      (n off pg : ℕ) (s : Space)
      → pg % page_size ≡ 0
      → Stocked (suc (suc n)) s.paging.heap
      → IsPaging IsIdle Taken root s.paging
      → Returns (Placed n off pg s) (on_tables (map_page_p2v_rw alloc_4k pg (base + off)) s)
  place_page n off pg s al stock v = go (map_page_p2v_rw alloc_4k pg (base + off) s.paging) (
      map_page_p2v_rw-Returns alloc_4k (StockedFrom s.paging.heap)
        (from-IsSupply rounds_4k fuel_4k s.paging.heap) IsIdle Taken root
        (alloc_kheap_4k-IsAllocator rounds_4k fuel_4k) n pg (base + off) s.paging
        (omega (arith, al)) (stock, (λ q t. t), refl) v)
    where
      go :
          (r : Outcome (ℕ × Paging Kmem))
          → Returns
              (λ out.
                Stored alloc_4k
                  (StockedFrom s.paging.heap)
                  (from-IsSupply rounds_4k fuel_4k s.paging.heap)
                  n
                  out
                × Mapped IsIdle Taken root alloc_4k
                    (alloc_kheap_4k-IsAllocator rounds_4k fuel_4k)
                    (base + off)
                    (pg + rw_flags)
                    s.paging
                    out)
              r
          → Returns (Placed n off pg s) (on_tables (λ _. r) s)
      go (ok (r, p)) ((fine, left), (tree, _, one)) = (refl, tree, left, λ a. one a ∙ rw fine refl)
      go halt h = h
      go spin h = h

  Full-before :
      (n m off pg r : ℕ) (s t u : Space) (w : Bool × Space)
      → off ≤ size
      → off % page_size ≡ 0
      → Took (suc (suc n)) m s (pg, t)
      → Placed n off pg t (r, u)
      → Full (off + page_size) u w
      → Full off s w
  Full-before n m off pg r s t u w le whole (ne, _, l, _, same, al, _, kept, fresh, taken)
        (l', _, (_, kept', _), one) (done, l'', rest) =
      (
        done,
        l'' ∙ l' ∙ l,
        Filled-page root base size short off pg s.paging u.paging w.1.paging le whole ne al fresh
            (λ q h. kept' q (kept q h)) (kept' pg taken)
            (λ a. one a ∙ ap (λ x. if same_page (base + off) a then pg + rw_flags else x) (same a))
            rest,
      )

  fill-end :
      (rounds off : ℕ) (s : Space)
      → size < off
      → IsPaging IsIdle Taken root s.paging
      → Returns (Full off s) (fill_pages alloc_4k fuel (suc rounds) off (base + off) size s)
  unfolding fill_pages
  fill-end rounds off s past v =
      subst (Returns (Full off s)) (sym (if_false (leb off size) _ _ (ground (arith, past))))
        (refl, refl, Filled-none root base size short off s.paging past v)

  pub fill-Full :
      (n off : ℕ) (s : Space)
      → off % page_size ≡ 0
      → size < off + n * page_size
      → Stocked (n * 2) s.paging.heap
      → Serves fuel n s.paging.heap.phys
      → IsPaging IsIdle Taken root s.paging
      → Returns (Full off s) (fill_pages alloc_4k fuel (suc n) off (base + off) size s)
  unfolding fill_pages
  fill-Full zero off s whole enough stock serves v = fill-end zero off s (omega (arith, enough)) v
  fill-Full (suc n) off s whole enough stock serves v = elim (Bool-cases (leb off size)) [
    | inr e ↦ fill-end (suc n) off s (ground (arith, e)) v
    | inl e ↦
        let rest : Action Space Bool =
          fill_pages alloc_4k fuel (suc n) ((off + page_size) % 2 ^ 64)
            ((base + off + page_size) % 2 ^ 64) size in
        let within : off ≤ size = ground (arith, e) in
        let two : Stocked (suc (suc (n * 2))) s.paging.heap =
          subst (λ k. Stocked k s.paging.heap) (omega arith) stock in
        subst (Returns (Full off s)) (sym (if_true (leb off size) _ _ e)) (
          Returns->>= (Took (suc (suc (n * 2))) n s) (Full off s) (on_pages (alloc_phy_page fuel))
            (λ pg.
              if pg == 0
              then give_up alloc_4k fuel (suc (suc n)) off (base + off) size
              else (on_tables (map_page_p2v_rw alloc_4k pg (base + off)) >>= λ r. rest))
            s (take_page (suc (suc (n * 2))) n s two serves v)
            λ pg t took.
              subst (λ (m : Action Space Bool). Returns (Full off s) (m t))
                (sym (if_false (pg == 0) _ _ (==_ne pg 0 took.0)))
                (Returns->>= (Placed (n * 2) off pg t) (Full off s)
                  (on_tables (map_page_p2v_rw alloc_4k pg (base + off))) (λ r. rest) t
                  (place_page (n * 2) off pg t took.5 took.6 took.3)
                  λ r u placed.
                    subst
                      (λ x. Returns (Full off s) (
                        fill_pages alloc_4k fuel (suc n) x ((base + off + page_size) % 2 ^ 64) size
                          u))
                      (omega (arith, within, fits))
                      (subst
                        (λ x.
                          Returns (Full off s)
                            (fill_pages alloc_4k fuel (suc n) (off + page_size) x size u))
                        (omega (arith, within, fits))
                        (Returns-mono (Full (off + page_size) u) (Full off s)
                          (fill_pages alloc_4k fuel (suc n) (off + page_size)
                            (base + (off + page_size)) size u)
                          (λ w full.
                            Full-before (n * 2) n off pg r s t u w within whole took placed full)
                          (fill-Full n (off + page_size) u (omega (arith, whole))
                            (omega (arith, enough)) placed.2.0
                            (subst (Serves fuel n) (sym placed.2.2) took.1) placed.1)))))
  ]
