-- ===== src/Kheap/Refill.antt =====
-- The refill of the 4K list by a physical page: nothing is lost and nothing is handed out twice.
use yaos.Prelude.{
  ℕ, ◌+◌, ◌/◌, ◌%◌, ◌^◌, ◌≤◌, ◌<◌, ◌≡◌, refl, ◌∙◌, Bool, true, false, List, [], ◌∷◌, arith,
  Bool-cases, inl, inr, if◌then◌else◌, ◌==◌, count_if,
}
use yaos.Prelude.Outcome.{Outcome, ok, halt, spin, ◌>>=◌, ◌>>◌, WhenOk, WhenOk-mono, WhenOk->>=}
use yaos.Phymem.{Phymem, page_size, alloc_phy_page}
use yaos.Phymem.Inv as Phys
use yaos.Phymem.Inv.{is_free, taken, Took}
use yaos.Phymem.Alloc.{alloc_phy_page-Allocated, Allocated}
use yaos.Bitmap.Laws.{test_bit-lt}
use yaos.Holes.{Hole}
use yaos.Holes.Weigh.{within, cover}
use yaos.Kheap.{Kmem, on_phys, on_heap, donate, refill}
use yaos.Kheap.Inv.{IsHeap}
use yaos.Kheap.Free.{IsVacant, free_kheap_4k-Added, free_kheap_4k-full}

-- how often the address `a` is free: as part of a page, of a hole, of a small hole
abbrev pub owned : ℕ → Kmem → ℕ
owned a s = count_if (is_free s.phys (a / page_size)) + cover a s.heap.phead + cover a s.small.phead

-- The page allocator and the 4K list are well formed, and no address is free twice.
pub record IsMem (s : Kmem) : Type 0 where
  pub phys : Phys.IsValid s.phys
  pub heap : IsHeap s.heap
  pub single : (a : ℕ) → owned a s ≤ 1

-- a region of `size` bytes that is no memory at all if its address is 0
abbrev pub given : ℕ → ℕ → ℕ → ℕ
given addr size a = if addr == 0 then 0 else count_if (within addr size a)

taken_within :
    (addr a : ℕ)
    → addr % page_size ≡ 0
    → count_if (taken addr (a / page_size)) ≡ given addr page_size a
taken_within addr a h = ground arith

-- The outcome of `donate`: the lock is held exactly if it succeeded.
abbrev Donated : Kmem → ℕ → Bool × Kmem → Type 0
Donated s addr (b, t) =
    IsMem t
    × ((a : ℕ) → owned a t ≡ owned a s + given addr page_size a)
    × (t.small ≡ s.small)
    × (t.heap.locked ≡ b)

-- a page that is free nowhere
record IsLoose (s : Kmem) (addr : ℕ) : Type 0 where
  phys : Phys.IsValid s.phys
  heap : IsHeap s.heap
  unlocked : s.heap.locked ≡ false
  single : (a : ℕ) → owned a s + given addr page_size a ≤ 1
  aligned : addr % page_size ≡ 0
  fits : addr + page_size < 2 ^ 64

module _ (s : Kmem) (addr : ℕ) (v : IsLoose s addr) where
  donate_zero : (addr == 0) ≡ true → WhenOk (Donated s addr) (donate addr s)
  unfolding donate
  donate_zero z = rw z (
    record { phys = v.phys; heap = v.heap; single = λ a. omega (arith, v.single a) },
    (λ a. rw z (omega arith)),
    refl,
    v.unlocked,
  )

  loose-IsVacant : (addr == 0) ≡ false → IsVacant s.heap addr page_size
  loose-IsVacant nz = record {
    nonempty = omega arith;
    positive = ground arith;
    fits = v.fits;
    aligned = omega (arith, v.aligned);
    whole = refl;
    vacant = λ a i. ground (arith, v.single a);
  }

  donate_page :
      (addr == 0) ≡ false
      → (free : List Hole) → s.heap.pfree ≡ free
      → WhenOk (Donated s addr) (donate addr s)
  unfolding donate
  donate_page nz [] full =
      rw (nz, free_kheap_4k-full s.heap addr page_size full, ◌>>◌, ◌>>=◌, on_heap) tt
  donate_page nz (q ∷ rest) has =
      let (h, e, (heap, unlocked, ledger)) =
        free_kheap_4k-Added s.heap v.heap v.unlocked addr page_size (loose-IsVacant nz) q rest
          has in
      let count : (a : ℕ) → given addr page_size a ≡ count_if (within addr page_size a) =
        λ a. rw nz in
      rw (nz, e, ◌>>◌, ◌>>=◌, on_heap, unlocked)
        (
          record {
            phys = v.phys;
            heap = record { nodes = heap.nodes; ordered = heap.ordered; blocks = heap.blocks };
            single = λ a. omega (arith, v.single a, ledger a, count a);
          },
          (λ a. omega (arith, ledger a, count a)),
          refl,
          refl,
        )

  donate_lem : WhenOk (Donated s addr) (donate addr s)
  donate_lem = elim (Bool-cases (addr == 0)) [
    | inl z ↦ donate_zero z
    | inr nz ↦ donate_page nz s.heap.pfree refl
  ]

-- What a refill that returns has done: a page has moved from the page allocator to the holes, or
-- there was none and nothing has changed.
abbrev pub Refilled : Kmem → Bool × Kmem → Type 0
Refilled s (b, t) =
    IsMem t × ((a : ℕ) → owned a t ≡ owned a s) × (t.small ≡ s.small) × (t.heap.locked ≡ b)

-- A page that was free lies below 2^64.
took_fits :
    (s : Phymem) (addr : ℕ) (p : Phymem)
    → Phys.IsValid s
    → addr % page_size ≡ 0
    → ((k : ℕ) → count_if (is_free s k) ≡ count_if (is_free p k) + count_if (taken addr k))
    → addr + page_size < 2 ^ 64
took_fits s addr p v aligned took = elim (Bool-cases (addr == 0)) [
  | inl z ↦ ground arith
  | inr nz ↦
      let was : is_free s (addr / page_size) ≡ true = ground (arith, took (addr / page_size)) in
      omega (arith, test_bit-lt s.pgbits (addr / page_size) was, v.bounded)
]

-- The page that was allocated is loose.
Allocated-IsLoose :
    (s : Kmem) (addr : ℕ) (p : Phymem)
    → IsMem s
    → Allocated s.phys addr p
    → IsLoose (record s { phys = p; heap = record s.heap { locked = false } }) addr
Allocated-IsLoose s addr p v (vp, (aligned, took), limit) = record {
  phys = vp;
  heap = record { nodes = v.heap.nodes; ordered = v.heap.ordered; blocks = v.heap.blocks };
  unlocked = refl;
  single = λ a. omega (arith, v.single a, took (a / page_size), taken_within addr a aligned);
  aligned = aligned;
  fits = took_fits s.phys addr p v.phys aligned took;
}

-- What the allocation of the page has done, as seen from `s`.
abbrev Paged : Kmem → ℕ × Kmem → Type 0
Paged s (addr, t) =
    IsLoose t addr
    × ((a : ℕ) → owned a t + given addr page_size a ≡ owned a s)
    × (t.small ≡ s.small)

paged :
    (fuel : ℕ) (s : Kmem)
    → IsMem s
    → (r : Outcome (ℕ × Phymem)) → alloc_phy_page fuel s.phys ≡ r
    → WhenOk (Paged s) (elim r [
      | ok (a, p) ↦ ok (a, record s { phys = p; heap = record s.heap { locked = false } })
      | halt ↦ halt
      | spin ↦ spin
    ])
paged fuel s v (ok (addr, p)) e =
    let done = alloc_phy_page-Allocated fuel s.phys addr p v.phys e in
    (
      Allocated-IsLoose s addr p v done,
      (λ a. omega (arith, done.1.1 (a / page_size), taken_within addr a done.1.0)),
      refl,
    )
paged fuel s v halt e = tt
paged fuel s v spin e = tt

pub refill_lem : (fuel : ℕ) (s : Kmem) → IsMem s → WhenOk (Refilled s) (refill fuel s)
unfolding refill
refill_lem fuel s v =
    WhenOk->>= (Paged s) (Refilled s) (on_phys (alloc_phy_page fuel)) donate
      (record s { heap = record s.heap { locked = false } }) (paged fuel s v _ refl)
      λ addr t (loose, ledger, small).
        WhenOk-mono (Donated t addr) (Refilled s) (donate addr t)
          (λ (b, u) (mem, ledger', small', lock).
            (mem, (λ a. ledger' a ∙ ledger a), small' ∙ small, lock))
          (donate_lem t addr loose)
