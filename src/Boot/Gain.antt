-- ===== src/Boot/Gain.antt =====
-- Memory that is given to the allocators: the ledger of who holds an address.
use yaos.Prelude.{
  ℕ, ◌+◌, ◌/◌, ◌%◌, ◌^◌, ◌≤◌, ◌<◌, ◌≡◌, refl, ap, ◌∙◌, inl, inr, Bool, true, false, ◌||◌, List, [],
  ◌∷◌, arith, Bool-cases, count_if,
}
use yaos.Prelude.Outcome.{WhenOk}
use yaos.Phymem.{page_size, free_phy_pages}
use yaos.Phymem.Inv.{is_free}
use yaos.Phymem.Free.{in_range, free_phy_pages-Freed}
use yaos.Holes.{Hole}
use yaos.Holes.Weigh.{within}
use yaos.Kheap.{Kmem, free_kheap_4k, on_heap, on_phys}
use yaos.Kheap.Free.{IsVacant, free_kheap_4k-Added, free_kheap_4k-full}
use yaos.Kheap.Refill.{owned}
use yaos.Pgtable.Heap.{IsIdle}

-- No address of the region is free.
abbrev pub IsUnowned : ℕ → ℕ → Kmem → Type 0
IsUnowned lo size s = (a : ℕ) → within lo size a ≡ true → owned a s ≡ 0

-- The memory is well formed with its locks free, and the addresses of the region are free once more.
abbrev pub Gained : ℕ → ℕ → Kmem → Kmem → Type 0
Gained lo size s t = IsIdle t × ((a : ℕ) → owned a t ≡ owned a s + count_if (within lo size a))

pub Gained-trans :
    (lo n m : ℕ) (s t u : Kmem) → Gained lo n s t → Gained (lo + n) m t u → Gained lo (n + m) s u
Gained-trans lo n m s t u (_, g) (i, h) = (i, λ a. ground (arith, g a, h a))

pub rest-IsUnowned :
    (lo n m : ℕ) (s t : Kmem) → IsUnowned lo (n + m) s → Gained lo n s t → IsUnowned (lo + n) m t
rest-IsUnowned lo n m s t free (_, g) a i = ground (arith, g a, i, free a (ground (arith, i)))

module _ (s : Kmem) (idle : IsIdle s) (lo size : ℕ) (free : IsUnowned lo size s) where
  abbrev Heaped : Unit {0} × Kmem → Type 0
  Heaped (_, t) = Gained lo size s t × (t.phys ≡ s.phys)

  room : (a : ℕ) → owned a s + count_if (within lo size a) ≤ 1
  room a = elim (Bool-cases (within lo size a)) [
    | inl i ↦ omega (arith, free a i, ap count_if i)
    | inr o ↦ omega (arith, idle.0.single a, ap count_if o)
  ]

  range-within :
      (a : ℕ)
      → lo % page_size ≡ 0
      → size % page_size ≡ 0
      → in_range (lo / page_size) (size / page_size) (a / page_size) ≡ within lo size a
  range-within a al whole = ground (arith, al, whole)

  joined :
      (a : ℕ)
      → count_if (within lo size a || is_free s.phys (a / page_size))
        ≡ count_if (is_free s.phys (a / page_size)) + count_if (within lo size a)
  joined a = go (within lo size a) (is_free s.phys (a / page_size)) (omega (arith, room a))
    where
      go : (b c : Bool) → count_if c + count_if b ≤ 1 → count_if (b || c) ≡ count_if c + count_if b
      go true true le = absurd (omega (arith, le))
      go true false le = refl
      go false true le = refl
      go false false le = refl

  pub units-Gained :
      0 < lo
      → 0 < size
      → lo + size < 2 ^ 64
      → lo % 0x1000 ≡ 0
      → size % 0x1000 ≡ 0
      → WhenOk Heaped (on_heap (free_kheap_4k lo size) s)
  units-Gained pos some fits al whole = go s.heap.pfree refl
    where
      vacant : IsVacant s.heap lo size
      vacant = record {
        nonempty = some;
        positive = pos;
        fits = fits;
        aligned = al;
        whole = whole;
        vacant = λ a i. omega (arith, free a i);
      }

      go : (l : List Hole) → s.heap.pfree ≡ l → WhenOk Heaped (on_heap (free_kheap_4k lo size) s)
      go [] e = rw (free_kheap_4k-full s.heap lo size e, on_heap) tt
      go (q ∷ rest) e =
          let (h, out, (heap, unlocked, ledger)) =
            free_kheap_4k-Added s.heap idle.0.heap idle.1 lo size vacant q rest e in
          rw (out, on_heap)
            (
              (
                (
                  record {
                    phys = idle.0.phys;
                    heap = heap;
                    single = λ a. omega (arith, ledger a, room a);
                  },
                  unlocked,
                ),
                λ a. omega (arith, ledger a),
              ),
              refl,
            )

  pub pages-Gained :
      0 < lo
      → lo % page_size ≡ 0
      → size % page_size ≡ 0
      → 0 < size
      → lo + size ≤ s.phys.max_phy_addr
      → WhenOk (λ (_, t). Gained lo size s t) (on_phys (free_phy_pages lo size) s)
  pages-Gained pos al whole some fits =
      let (p, out, (v, freed)) =
        free_phy_pages-Freed idle.0.phys lo (omega (arith, pos)) size al whole
          (omega (arith, fits, some)) fits in
      let same : (a : ℕ)
          → count_if (is_free p (a / page_size))
            ≡ count_if (is_free s.phys (a / page_size)) + count_if (within lo size a) =
        λ a.
          ap count_if (
            freed (a / page_size)
            ∙ ap (λ b. b || is_free s.phys (a / page_size)) (range-within a al whole))
          ∙ joined a in
      rw (out, on_phys)
        (
          (
            record { phys = v; heap = idle.0.heap; single = λ a. omega (arith, same a, room a) },
            idle.1,
          ),
          λ a. omega (arith, same a),
        )
