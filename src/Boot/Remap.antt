-- ===== src/Boot/Remap.antt =====
-- `remap_iomem`: the pages in the table are what the processor finds at IO_MEM_BASE.
use yaos.Prelude.{
  ℕ, ◌+◌, ◌-◌, ◌*◌, ◌/◌, ◌%◌, ◌^◌, ◌≤◌, ◌<◌, ◌≡◌, refl, sym, ap, ◌∙◌, subst, List, [], ◌∷◌, All,
  arith, ltb, ◌==◌, ==_iff, if◌then◌else◌, if_true,
}
use yaos.Prelude.Outcome.{
  Outcome, ok, halt, spin, Action, ◌>>=◌, ◌>>◌, assert, WhenOk, WhenOk->>=, WhenOk-mono, >>-ok,
}
use yaos.Kheap.{Kmem}
use yaos.Pgtable.{Paging, page_2m, io_flags, success, map_page_p2v}
use yaos.Pgtable.Alloc.{==_ne, IsAllocator, IsPaging}
use yaos.Pgtable.Map.{translation, same_page, Mapped, map_page_p2v-Mapped}
use yaos.Pgtable.Remap.{io_virtual}
use yaos.Boot.{Boot, on_paging, remap_pages, remap_iomem}
use yaos.Boot.Table.{times}
use native.Mathlib.Decide.{ℕ_discrete}

-- The entries of the table number pages from 1, of an address space of 2^47 bytes.
abbrev pub IsNumber : ℕ → Type 0
IsNumber pg = (0 < pg) × (pg ≤ 2 ^ 26)

-- what is found at IO_MEM_BASE for the physical address `y`, if `x` was before
abbrev pub remapped : List ℕ → ℕ → ℕ → ℕ
remapped pages y x =
    if times (y / page_2m + 1) pages == 0 then x else y / page_2m * page_2m + io_flags

io-same :
    (pg y : ℕ)
    → IsNumber pg
    → y < 2 ^ 47
    → same_page (io_virtual ((pg - 1) * page_2m % 2 ^ 64)) (io_virtual y) ≡ (pg == y / page_2m + 1)
io-same pg y h lt = ground (arith, h.0, h.1, lt)

remapped-one :
    (pg : ℕ) (rest : List ℕ) (y x : ℕ)
    → IsNumber pg
    → remapped rest y (if pg == y / page_2m + 1 then (pg - 1) * page_2m % 2 ^ 64 + io_flags else x)
      ≡ remapped (pg ∷ rest) y x
remapped-one pg rest y x h = elim (ℕ_discrete pg (y / page_2m + 1)) [
  | yes e ↦
      let same : (pg - 1) * page_2m % 2 ^ 64 ≡ y / page_2m * page_2m = omega (arith, e, h.0, h.1) in
      ground (arith, e, same)
  | no ne ↦ ground (arith, ne)
]

module _ {W : Type 0} (Good : W → Type 0) (Held : W → ℕ → Type 0) (root : ℕ)
    (alloc_4k : ℕ → Action W ℕ) (law : IsAllocator alloc_4k Good Held) where
  abbrev Done : List ℕ → Paging W → Unit {0} × Paging W → Type 0
  Done pages s (_, t) =
      IsPaging Good Held root t
      × ((y : ℕ)
          → y < 2 ^ 47
          → translation (io_virtual y) t ≡ remapped pages y (translation (io_virtual y) s))

  one-Done :
      (pg : ℕ) (rest : List ℕ) (s t u : Paging W)
      → IsNumber pg
      → Mapped Good Held root alloc_4k law
          (io_virtual ((pg - 1) * page_2m % 2 ^ 64))
          ((pg - 1) * page_2m % 2 ^ 64 + io_flags)
          s
          (success, t)
      → Done rest t (tt, u)
      → Done (pg ∷ rest) s (tt, u)
  one-Done pg rest s t u h (_, _, one) (v, more) = (
    v,
    λ y lt.
        more y lt
        ∙ ap (remapped rest y) (
            one (io_virtual y)
            ∙ ap
                (λ b.
                  if b
                  then (pg - 1) * page_2m % 2 ^ 64 + io_flags
                  else translation (io_virtual y) s)
                (io-same pg y h lt))
        ∙ remapped-one pg rest y (translation (io_virtual y) s) h,
  )

  remap_step : List ℕ → ℕ → Action (Paging W) (Unit {0})
  remap_step rest r = assert (r == success) >> remap_pages alloc_4k rest

  remap_pages-Done :
      (pages : List ℕ) (s : Paging W)
      → All IsNumber pages
      → IsPaging Good Held root s
      → WhenOk (Done pages s) (remap_pages alloc_4k pages s)
  unfolding remap_pages remap_step
  remap_pages-Done [] s h v = (v, λ y lt. refl)
  remap_pages-Done (pg ∷ rest) s h v =
      let addr : ℕ = (pg - 1) * page_2m % 2 ^ 64 in
      subst (λ (m : Action (Paging W) (Unit {0})). WhenOk (Done (pg ∷ rest) s) (m s))
        (sym (if_true (ltb 0 pg) _ _ (ground (arith, h.0.0))))
        (WhenOk->>= (Mapped Good Held root alloc_4k law (io_virtual addr) (addr + io_flags) s)
          (Done (pg ∷ rest) s) (map_page_p2v alloc_4k addr (io_virtual addr) io_flags)
          (remap_step rest) s
          (map_page_p2v-Mapped Good Held root alloc_4k law addr (io_virtual addr) io_flags s v)
          λ r t m. elim (ℕ_discrete r success) [
            | no ne ↦ rw (==_ne r success ne, ◌>>◌, ◌>>=◌) tt
            | yes e ↦
                subst (WhenOk (Done (pg ∷ rest) s))
                  (sym (
                    >>-ok (assert (r == success)) (remap_pages alloc_4k rest) t t
                      (ap (λ b. assert b t) ((==_iff r success).1 e))))
                  (WhenOk-mono (Done rest t) (Done (pg ∷ rest) s) (remap_pages alloc_4k rest t)
                    (λ (_, u) d.
                      one-Done pg rest s t u h.0
                        (subst
                          (λ r.
                            Mapped Good Held root alloc_4k law (io_virtual addr) (addr + io_flags) s
                              (r, t))
                          e m)
                        d)
                    (remap_pages-Done rest t h.1 m.0))
          ])

-- remap_iomem, with page numbers from 1 to 2^26 in the table and the tables of pages a tree in the memory
-- of an allocator that hands out no page twice, leaves such a tree if it returns. Then the page of every
-- physical address below 2^47 is found at IO_MEM_BASE if its number is in the table, and what is found for
-- the others there is what it was.
pub remap_iomem-Mapped :
    (Good : Kmem → Type 0) (Held : Kmem → ℕ → Type 0) (root : ℕ) (alloc_4k : ℕ → Action Kmem ℕ)
    → IsAllocator alloc_4k Good Held
    → (s : Boot) → All IsNumber s.io_remap_pages
    → IsPaging Good Held root s.paging
    → WhenOk
        (λ (_, t).
          IsPaging Good Held root t.paging
          × ((y : ℕ)
              → y < 2 ^ 47
              → translation (io_virtual y) t.paging
                ≡ remapped s.io_remap_pages y (translation (io_virtual y) s.paging)))
        (remap_iomem alloc_4k s)
unfolding remap_iomem
remap_iomem-Mapped Good Held root alloc_4k law s h v =
    go (remap_pages alloc_4k s.io_remap_pages s.paging)
      (remap_pages-Done Good Held root alloc_4k law s.io_remap_pages s.paging h v)
  where
    go :
        (r : Outcome (Unit {0} × Paging Kmem))
        → WhenOk (Done Good Held root alloc_4k law s.io_remap_pages s.paging) r
        → WhenOk
            (λ (_, t). Done Good Held root alloc_4k law s.io_remap_pages s.paging (tt, t.paging))
            (on_paging (λ _. r) s)
    go (ok (_, p)) d = d
    go halt d = tt
    go spin d = tt
