-- ===== src/Boot/Io.antt =====
-- The pages of input and output: `on_iomem` enters exactly the pages that a region meets, each once.
use yaos.Prelude.{
  ℕ, ◌+◌, ◌-◌, ◌*◌, ◌/◌, ◌%◌, ◌^◌, ◌≤◌, ◌<◌, ◌≡◌, refl, sym, ◌∙◌, subst, inl, inr, arith,
  Bool-cases, leb, ◌==◌, ==_iff, if◌then◌else◌, if_true, if_false,
}
use yaos.Prelude.Outcome.{Outcome, Action, ◌>>◌, pure, Returns, Returns->>=, Returns-mono}
use yaos.Pgtable.{page_2m}
use yaos.Boot.{Boot, add_map, add_maps, on_iomem_pages, on_iomem}
use native.Mathlib.Decide.{ℕ_discrete}
use yaos.Boot.Table.{IsCovered, HasRoom, add_map-IsCovered, IsCovered-trans, add_maps-IsCovered}

-- the first and the last page of a region, from 1
abbrev pub first_page : ℕ → ℕ
first_page addr = addr / page_2m + 1

abbrev pub last_page : ℕ → ℕ → ℕ
last_page addr size = (addr + size - 1) / page_2m + 1

abbrev Entered : ℕ → ℕ → Boot → Unit {0} × Boot → Type 0
Entered addr size s (_, t) = IsCovered (first_page addr) (last_page addr size + 1) s t

range_eq :
    (lo hi lo' hi' : ℕ) (s : Boot) (r : Outcome (Unit {0} × Boot))
    → lo ≡ lo'
    → hi ≡ hi'
    → Returns (λ (_, t). IsCovered lo hi s t) r
    → Returns (λ (_, t). IsCovered lo' hi' s t) r
range_eq lo hi lo' hi' s r e e' h =
    subst (λ x. Returns (λ (_, t). IsCovered x hi' s t) r) e
      (subst (λ x. Returns (λ (_, t). IsCovered lo x s t) r) e' h)

on_iomem_pages-IsCovered :
    (pg size : ℕ) (s : Boot)
    → 0 < size
    → pg * page_2m + size ≤ 2 ^ 51
    → HasRoom (last_page (pg * page_2m) size - pg) s
    → Returns
        (λ (_, t). IsCovered (pg + 1) (last_page (pg * page_2m) size + 1) s t)
        (on_iomem_pages (pg * page_2m) size s)
unfolding on_iomem_pages
on_iomem_pages-IsCovered pg size s pos fits room =
    Returns->>= (λ (_, t). IsCovered (pg + 1) (pg + 1 + size / page_2m) s t)
      (λ (_, t). IsCovered (pg + 1) (last_page (pg * page_2m) size + 1) s t)
      (add_maps (size / page_2m) (pg * page_2m))
      (λ _.
        if size % page_2m == 0
        then pure tt
        else add_map ((pg * page_2m + size / page_2m * page_2m) % 2 ^ 64 / page_2m + 1))
      s
      (add_maps-IsCovered (size / page_2m) pg s (omega (arith, fits))
        (omega (arith, room, pos, fits)))
      λ _ t c. elim (Bool-cases (size % page_2m == 0)) [
        | inl e ↦
            subst
              (λ (m : Action Boot (Unit {0})).
                Returns (λ (_, u). IsCovered (pg + 1) (last_page (pg * page_2m) size + 1) s u)
                  (m t))
              (sym (if_true (size % page_2m == 0) _ _ e))
              (subst (λ hi. IsCovered (pg + 1) hi s t) (ground (arith, e, pos)) c)
        | inr e ↦
            subst
              (λ (m : Action Boot (Unit {0})).
                Returns (λ (_, u). IsCovered (pg + 1) (last_page (pg * page_2m) size + 1) s u)
                  (m t))
              (sym (if_false (size % page_2m == 0) _ _ e))
              (Returns-mono _ _
                (add_map ((pg * page_2m + size / page_2m * page_2m) % 2 ^ 64 / page_2m + 1) t)
                (λ (_, u) d.
                  IsCovered-trans (pg + 1) (pg + 1 + size / page_2m)
                    (last_page (pg * page_2m) size + 1) s t u (omega arith) (ground (arith, e)) c d)
                (range_eq (pg + 1 + size / page_2m) (pg + 1 + size / page_2m + 1)
                  (pg + 1 + size / page_2m) (last_page (pg * page_2m) size + 1) t _ refl
                  (ground (arith, e, pos))
                  (subst
                    (λ x.
                      Returns
                        (λ (_, u).
                          IsCovered (pg + 1 + size / page_2m) (pg + 1 + size / page_2m + 1) t u)
                        (add_map x t))
                    (omega (arith, fits))
                    (add_map-IsCovered (pg + 1 + size / page_2m) t (omega (arith, fits))
                      (ground (arith, e, pos, c.longer, room))))))
      ]

abbrev rest_step : ℕ → ℕ → Action Boot (Unit {0})
rest_step addr size =
    if (addr + (page_2m - addr % page_2m)) % 2 ^ 64 == 0
    then pure tt
    else on_iomem_pages ((addr + (page_2m - addr % page_2m)) % 2 ^ 64)
        (size - (page_2m - addr % page_2m))

-- on_iomem of a region that is not empty, starts above 0 and ends at most at 2^51, with room for its
-- pages in the table, enters every page of 2M that the region meets: a page that was in the table stays
-- as it was, one that was not is in it once, and no other is entered. Nothing else changes.
pub on_iomem-IsCovered :
    (addr size : ℕ) (s : Boot)
    → 0 < addr
    → 0 < size
    → addr + size ≤ 2 ^ 51
    → HasRoom (last_page addr size + 1 - first_page addr) s
    → Returns
        (λ (_, t). IsCovered (first_page addr) (last_page addr size + 1) s t)
        (on_iomem addr size s)
unfolding on_iomem
on_iomem-IsCovered addr size s some_addr pos fits room = elim (ℕ_discrete (addr % page_2m) 0) [
  | yes al ↦
      let at : addr / page_2m * page_2m ≡ addr = omega (arith, al) in
      subst (λ (m : Action Boot (Unit {0})). Returns (Entered addr size s) (m s))
        (sym (
          if_false (addr == 0) _ _ (ground (arith, some_addr))
          ∙ if_true (addr % page_2m == 0) _ _ ((==_iff (addr % page_2m) 0).1 al)))
        (subst
          (λ x.
            Returns (λ (_, t). IsCovered (first_page addr) (last_page x size + 1) s t)
              (on_iomem_pages x size s))
          at
          (on_iomem_pages-IsCovered (addr / page_2m) size s pos (omega (arith, fits))
            (omega (arith, room, al))))
  | no low ↦
      let pg : (addr + page_2m - 1) % 2 ^ 64 / page_2m ≡ first_page addr =
        omega (arith, fits, low) in
      let lowsize : ℕ = page_2m - addr % page_2m in
      let begin : on_iomem addr size ≡ (
          if leb size lowsize
          then add_map ((addr + page_2m - 1) % 2 ^ 64 / page_2m)
          else add_map ((addr + page_2m - 1) % 2 ^ 64 / page_2m) >> rest_step addr size) =
        if_false (addr == 0) _ _ (ground (arith, some_addr))
        ∙ if_false (addr % page_2m == 0) _ _ (ground (arith, low)) in
      elim (Bool-cases (leb size lowsize)) [
        | inl e ↦
            let one : last_page addr size ≡ first_page addr = ground (arith, e, pos, low) in
            subst (λ (m : Action Boot (Unit {0})). Returns (Entered addr size s) (m s))
              (sym (begin ∙ if_true (leb size lowsize) _ _ e))
              (subst (λ x. Returns (Entered addr size s) (add_map x s)) (sym pg)
                (range_eq (first_page addr) (first_page addr + 1) (first_page addr)
                  (last_page addr size + 1) s _ refl (omega (arith, one))
                  (add_map-IsCovered (first_page addr) s (omega (arith, fits))
                    (omega (arith, room, one)))))
        | inr e ↦
            let next : (addr + lowsize) % 2 ^ 64 ≡ first_page addr * page_2m =
              omega (arith, fits, low) in
            let last : last_page (first_page addr * page_2m) (size - lowsize)
                ≡ last_page addr size =
              ground (arith, e, low) in
            subst (λ (m : Action Boot (Unit {0})). Returns (Entered addr size s) (m s))
              (sym (begin ∙ if_false (leb size lowsize) _ _ e))
              (Returns->>= (λ (_, t). IsCovered (first_page addr) (first_page addr + 1) s t)
                (Entered addr size s) (add_map ((addr + page_2m - 1) % 2 ^ 64 / page_2m))
                (λ _. rest_step addr size) s
                (subst
                  (λ x.
                    Returns (λ (_, t). IsCovered (first_page addr) (first_page addr + 1) s t)
                      (add_map x s))
                  (sym pg)
                  (add_map-IsCovered (first_page addr) s (omega (arith, fits))
                    (ground (arith, room, e, low))))
                (λ _ t c.
                  subst (λ (m : Action Boot (Unit {0})). Returns (Entered addr size s) (m t))
                    (sym (if_false ((addr + lowsize) % 2 ^ 64 == 0) _ _ (ground (arith, next))))
                    (Returns-mono _ _
                      (on_iomem_pages ((addr + lowsize) % 2 ^ 64) (size - lowsize) t)
                      (λ (_, u) d.
                        IsCovered-trans (first_page addr) (first_page addr + 1)
                          (last_page addr size + 1) s t u (omega arith) (ground (arith, e, low)) c
                          d)
                      (subst
                        (λ x.
                          Returns
                            (λ (_, u).
                              IsCovered (first_page addr + 1) (last_page addr size + 1) t u)
                            (on_iomem_pages x (size - lowsize) t))
                        (sym next)
                        (range_eq (first_page addr + 1)
                          (last_page (first_page addr * page_2m) (size - lowsize) + 1)
                          (first_page addr + 1) (last_page addr size + 1) t _ refl
                          (omega (arith, last))
                          (on_iomem_pages-IsCovered (first_page addr) (size - lowsize) t
                            (ground (arith, e)) (ground (arith, e, fits, low))
                            (omega (arith, last, room, c.longer))))))))
      ]
]
