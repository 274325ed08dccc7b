-- ===== src/Boot/Mem.antt =====
-- `on_mem`: the memory of a region goes to the allocators, each address once.
use yaos.Prelude.{
  ℕ, zero, suc, ◌+◌, ◌-◌, ◌*◌, ◌/◌, ◌%◌, ◌^◌, ◌≤◌, ◌<◌, ◌≡◌, refl, sym, ap, ◌∙◌, subst, inl, inr,
  arith, Bool-cases, leb, ltb, ◌==◌, ==_iff, if◌then◌else◌, if_true, if_false,
}
use yaos.Prelude.Outcome.{
  Outcome, ok, halt, spin, Action, ◌>>◌, pure, WhenOk, WhenOk->>=, WhenOk-mono,
}
use yaos.Phymem.{Phymem, free_phy_pages}
use yaos.Kheap.{Kmem, free_kheap_4k, on_heap, on_phys}
use yaos.Pgtable.Heap.{IsIdle}
use yaos.Pgtable.{page_2m}
use yaos.Pgtable.Alloc.{==_ne}
use native.Mathlib.Decide.{ℕ_discrete}
use yaos.Boot.{Boot, on_kmem, give_4k, on_mem_pages, on_mem_units, on_mem}
use yaos.Boot.Gain.{IsUnowned, Gained, Gained-trans, rest-IsUnowned, units-Gained, pages-Gained}

abbrev Given : ℕ → ℕ → Boot → Unit {0} × Boot → Type 0
Given lo size s (_, t) =
    Gained lo size s.paging.heap t.paging.heap × (t.max_phy_mem_addr ≡ s.max_phy_mem_addr)

lift :
    (P : Kmem → Type 0) (m : Action Kmem (Unit {0})) (s : Boot)
    → WhenOk (λ (_, k). P k) (m s.paging.heap)
    → WhenOk (λ (_, t). P t.paging.heap × (t.max_phy_mem_addr ≡ s.max_phy_mem_addr)) (on_kmem m s)
lift P m s h = go (m s.paging.heap) h
  where
    go :
        (r : Outcome (Unit {0} × Kmem))
        → WhenOk (λ (_, k). P k) r
        → WhenOk
            (λ (_, t). P t.paging.heap × (t.max_phy_mem_addr ≡ s.max_phy_mem_addr))
            (on_kmem (λ _. r) s)
    go (ok (_, k)) p = (p, refl)
    go halt p = tt
    go spin p = tt

-- Whole units of 4K that are not free and end before the end of memory.
pub record IsPart (lo size : ℕ) (s : Boot) : Type 0 where
  pub idle : IsIdle s.paging.heap
  pub unowned : IsUnowned lo size s.paging.heap
  pub positive : 0 < lo
  pub aligned : lo % 0x1000 ≡ 0
  pub whole : size % 0x1000 ≡ 0
  pub below : lo + size < s.max_phy_mem_addr
  pub small : s.max_phy_mem_addr < 2 ^ 64

give_4k-Given :
    (lo size : ℕ) (s : Boot)
    → 0 < size
    → IsPart lo size s
    → WhenOk
        (λ (_, t).
          (Gained lo size s.paging.heap t.paging.heap × (t.paging.heap.phys ≡ s.paging.heap.phys))
          × (t.max_phy_mem_addr ≡ s.max_phy_mem_addr))
        (give_4k lo size s)
give_4k-Given lo size s some h =
    subst
      (WhenOk λ (_, t).
        (Gained lo size s.paging.heap t.paging.heap × (t.paging.heap.phys ≡ s.paging.heap.phys))
        × (t.max_phy_mem_addr ≡ s.max_phy_mem_addr))
      (sym (
        if_true (ltb ((lo + size) % 2 ^ 64) s.max_phy_mem_addr) _ _
          (ground (arith, h.below, h.small))))
      (lift (λ k. Gained lo size s.paging.heap k × (k.phys ≡ s.paging.heap.phys))
        (on_heap (free_kheap_4k lo size)) s
        (units-Gained s.paging.heap h.idle lo size h.unowned h.positive some
          (omega (arith, h.below, h.small)) h.aligned h.whole))

give_4k-Given_only :
    (lo size : ℕ) (s : Boot)
    → 0 < size
    → IsPart lo size s
    → WhenOk (Given lo size s) (give_4k lo size s)
give_4k-Given_only lo size s some h =
    WhenOk-mono _ (Given lo size s) (give_4k lo size s) (λ _ r. (r.0.0, r.1))
      (give_4k-Given lo size s some h)

-- what is left of a part behind its first `n` bytes
rest-IsPart :
    (lo n m : ℕ) (s t : Boot)
    → IsPart lo (n + m) s
    → n % 0x1000 ≡ 0
    → Given lo n s (tt, t)
    → IsPart (lo + n) m t
rest-IsPart lo n m s t h whole (g, e) = record {
  idle = g.0;
  unowned = rest-IsUnowned lo n m s.paging.heap t.paging.heap h.unowned g;
  positive = omega (arith, h.positive);
  aligned = omega (arith, h.aligned, whole);
  whole = omega (arith, h.whole, whole);
  below = omega (arith, h.below, e);
  small = omega (arith, h.small, e);
}

Given-trans :
    (lo n m : ℕ) (s t u : Boot)
    → Given lo n s (tt, t)
    → Given (lo + n) m t (tt, u)
    → Given lo (n + m) s (tt, u)
Given-trans lo n m s t u (g, e) (g', e') =
    (Gained-trans lo n m s.paging.heap t.paging.heap u.paging.heap g g', e' ∙ e)

first-IsPart : (lo n m : ℕ) (s : Boot) → IsPart lo (n + m) s → n % 0x1000 ≡ 0 → IsPart lo n s
first-IsPart lo n m s h whole = record {
  idle = h.idle;
  unowned = λ a i. h.unowned a (ground (arith, i));
  positive = h.positive;
  aligned = h.aligned;
  whole = whole;
  below = omega (arith, h.below);
  small = h.small;
}

on_mem_pages-Given :
    (lo size : ℕ) (s : Boot)
    → page_2m ≤ size
    → lo % page_2m ≡ 0
    → lo + size ≤ s.paging.heap.phys.max_phy_addr
    → IsPart lo size s
    → WhenOk (Given lo size s) (on_mem_pages lo size s)
unfolding on_mem_pages
on_mem_pages-Given lo size s large al fits h =
    let n : ℕ = size / page_2m * page_2m in
    let m : ℕ = size % page_2m in
    let split : size ≡ n + m = omega arith in
    let h' : IsPart lo (n + m) s = subst (λ x. IsPart lo x s) split h in
    let first : IsPart lo n s = first-IsPart lo n m s h' (omega arith) in
    WhenOk->>= (Given lo n s) (Given lo size s) (on_kmem (on_phys (free_phy_pages lo n)))
      (λ _. if m == 0 then pure tt else give_4k ((lo + n) % 2 ^ 64) m) s
      (lift (Gained lo n s.paging.heap) (on_phys (free_phy_pages lo n)) s (
        pages-Gained s.paging.heap h.idle lo n first.unowned h.positive al (omega arith)
          (omega (arith, large)) (omega (arith, fits))))
      λ _ t g. elim (ℕ_discrete m 0) [
        | yes z ↦
            subst (λ (a : Action Boot (Unit {0})). WhenOk (Given lo size s) (a t))
              (sym (if_true (m == 0) _ _ ((==_iff m 0).1 z)))
              (subst (λ x. Given lo x s (tt, t)) (omega (arith, z)) g)
        | no some ↦
            subst (λ (a : Action Boot (Unit {0})). WhenOk (Given lo size s) (a t))
              (sym (if_false (m == 0) _ _ (==_ne m 0 some)))
              (subst (λ x. WhenOk (Given lo size s) (give_4k x m t))
                (omega (arith, h.below, h.small, large))
                (WhenOk-mono (Given (lo + n) m t) (Given lo size s) (give_4k (lo + n) m t)
                  (λ (_, u) g'.
                    subst (λ x. Given lo x s (tt, u)) (sym split) (Given-trans lo n m s t u g g'))
                  (give_4k-Given_only (lo + n) m t (omega (arith, some))
                    (rest-IsPart lo n m s t h' (omega arith) g))))
      ]

Gives : (ℕ → ℕ → Action Boot (Unit {0})) → Type 0
Gives again =
    (lo n : ℕ) (s : Boot)
    → lo + n ≤ s.paging.heap.phys.max_phy_addr
    → IsPart lo n s
    → WhenOk (Given lo n s) (again lo n s)

on_mem_units-Given :
    (again : ℕ → ℕ → Action Boot (Unit {0})) → Gives again → Gives (on_mem_units again)
unfolding Gives on_mem_units
on_mem_units-Given again ih lo n s fits h =
    let low : ℕ = page_2m - lo % page_2m in
    let done : (a b : Action Boot (Unit {0}))
        → a ≡ b
        → WhenOk (Given lo n s) (b s)
        → WhenOk (Given lo n s) (a s) =
      λ a b e r. subst (λ (m : Action Boot (Unit {0})). WhenOk (Given lo n s) (m s)) (sym e) r in
    elim (ℕ_discrete n 0) [
      | yes z ↦
          done _ _ (if_true (n == 0) _ _ ((==_iff n 0).1 z))
            ((h.idle, λ a. ground (arith, z)), refl)
      | no some ↦
          let past : (x y : Action Boot (Unit {0})) → (if n == 0 then x else y) ≡ y =
            λ x y. if_false (n == 0) x y (==_ne n 0 some) in
          elim (Bool-cases (ltb n page_2m)) [
            | inl e ↦
                done _ _ (past _ _ ∙ if_true (ltb n page_2m) _ _ e)
                  (give_4k-Given_only lo n s (omega (arith, some)) h)
            | inr e ↦ elim (ℕ_discrete (lo % page_2m) 0) [
              | yes al ↦
                  done _ _
                    (past _ _
                      ∙ if_false (ltb n page_2m) _ _ e
                      ∙ if_true (lo % page_2m == 0) _ _ ((==_iff (lo % page_2m) 0).1 al))
                    (on_mem_pages-Given lo n s (ground (arith, e)) al fits h)
              | no off ↦
                  let past' : (x y z : Action Boot (Unit {0}))
                      → (if n == 0
                          then x
                          else if ltb n page_2m
                          then y
                          else if lo % page_2m == 0
                          then z
                          else if leb n low
                          then y
                          else (give_4k lo low >> again ((lo + low) % 2 ^ 64) (n - low)))
                        ≡ (if leb n low
                            then y
                            else (give_4k lo low >> again ((lo + low) % 2 ^ 64) (n - low))) =
                    λ x y z.
                      past _ _
                      ∙ if_false (ltb n page_2m) _ _ e
                      ∙ if_false (lo % page_2m == 0) _ _ (==_ne (lo % page_2m) 0 off) in
                  elim (Bool-cases (leb n low)) [
                    | inl le ↦
                        done _ _ (past' _ _ _ ∙ if_true (leb n low) _ _ le)
                          (give_4k-Given_only lo n s (omega (arith, some)) h)
                    | inr gt ↦
                        let short : low < n = ground (arith, gt) in
                        let split : n ≡ low + (n - low) = ground (arith, gt) in
                        let h' : IsPart lo (low + (n - low)) s =
                          subst (λ x. IsPart lo x s) split h in
                        let units : low % 0x1000 ≡ 0 = omega (arith, h.aligned) in
                        done _ _ (past' _ _ _ ∙ if_false (leb n low) _ _ gt) (
                          WhenOk->>= _ (Given lo n s) (give_4k lo low)
                            (λ _. again ((lo + low) % 2 ^ 64) (n - low)) s
                            (give_4k-Given lo low s (omega arith)
                              (first-IsPart lo low (n - low) s h' units))
                            (λ _ t g.
                              subst (λ x. WhenOk (Given lo n s) (again x (n - low) t))
                                (omega (arith, short, h.below, h.small))
                                (WhenOk-mono (Given (lo + low) (n - low) t) (Given lo n s)
                                  (again (lo + low) (n - low) t)
                                  (λ (_, u) g'.
                                    subst (λ x. Given lo x s (tt, u)) (sym split)
                                      (Given-trans lo low (n - low) s t u (g.0.0, g.1) g'))
                                  (ih (lo + low) (n - low) t
                                    (omega (
                                      arith,
                                      short,
                                      fits,
                                      ap (λ (p : Phymem). p.max_phy_addr) g.0.1,
                                    ))
                                    (rest-IsPart lo low (n - low) s t h' units (g.0.0, g.1))))))
                  ]
            ]
          ]
    ]

-- on_mem, with the page allocator and the heap well formed and the lock of the heap free, of a region of memory
-- that starts at a unit of 4K, not at 0, is not free in any part of it and ends before the end of memory (the
-- last region of memory does not): if it returns, the page allocator and the heap are well formed with their locks
-- free, and exactly the addresses of the region, up to its last whole unit of 4K, are free once more.
pub on_mem-Gained :
    (rounds lo size : ℕ) (s : Boot)
    → lo + size / 0x1000 * 0x1000 ≤ s.paging.heap.phys.max_phy_addr
    → IsPart lo (size / 0x1000 * 0x1000) s
    → WhenOk
        (λ (_, t).
          Gained lo (size / 0x1000 * 0x1000) s.paging.heap t.paging.heap
          × (t.max_phy_mem_addr ≡ s.max_phy_mem_addr))
        (on_mem rounds lo size s)
unfolding on_mem Gives
on_mem-Gained zero lo size s fits h = tt
on_mem-Gained (suc rounds) lo size s fits h =
    subst (λ (m : Outcome (Unit {0} × Boot)). WhenOk (Given lo (size / 0x1000 * 0x1000) s) m)
      (sym (if_true (lo % 0x1000 == 0) _ _ ((==_iff (lo % 0x1000) 0).1 h.aligned)))
      (on_mem_units-Given (on_mem rounds)
        (λ lo n s fits h.
          let whole : n / 0x1000 * 0x1000 ≡ n = omega (arith, h.whole) in
          subst (λ x. WhenOk (Given lo x s) (on_mem rounds lo n s)) whole
            (on_mem-Gained rounds lo n s (omega (arith, whole, fits))
              (subst (λ x. IsPart lo x s) (sym whole) h)))
        lo (size / 0x1000 * 0x1000) s fits h)
