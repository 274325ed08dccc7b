-- ===== src/Kheap/Alloc.antt =====
-- `alloc_kheap_4k`: what it hands out, and that it hands out nothing twice.
use yaos.Prelude.{
  ℕ, zero, suc, ◌+◌, ◌-◌, ◌%◌, ◌^◌, ◌≤◌, ◌<◌, ◌≡◌, refl, ◌∙◌, Bool, true, false, Option, none, some,
  arith, Option-cases, inl, inr, count_if,
}
use yaos.Prelude.Outcome.{Outcome, ok, halt, spin, ◌>>=◌, ◌>>◌, WhenOk, WhenOk-mono, WhenOk->>=}
use yaos.Holes.{Hole, Holes, first_fit, carve}
use yaos.Holes.Weigh.{within}
use yaos.Holes.Order.{All-first_fit}
use yaos.Kheap.{
  Kmem, on_heap, refill, refilled, find_hole, take_hole, take_found, alloc_kheap_4k, round_4k,
  exhausted,
}
use yaos.Kheap.Inv.{IsBlock, carve-Handed}
use yaos.Kheap.Refill.{owned, given, IsMem, Refilled, refill_lem}

-- what the search has done: refills only, and a hole is found with the lock held
abbrev Searched : Kmem → ℕ → Option Hole × Kmem → Type 0
Searched s size (some p, t) =
    IsMem t
    × ((a : ℕ) → owned a t ≡ owned a s)
    × (t.small ≡ s.small)
    × (t.heap.locked ≡ true)
    × (first_fit size t.heap.phead ≡ some p)
Searched s size (none, t) =
    IsMem t × ((a : ℕ) → owned a t ≡ owned a s) × (t.small ≡ s.small) × (t.heap.locked ≡ false)

module _ (fuel size : ℕ) where
  Searched-trans :
      (s t : Kmem) (out : Option Hole × Kmem)
      → ((a : ℕ) → owned a t ≡ owned a s)
      → t.small ≡ s.small
      → Searched t size out
      → Searched s size out
  Searched-trans s t (some p, u) same small (mem, ledger, small', lock, found) =
      (mem, (λ a. ledger a ∙ same a), small' ∙ small, lock, found)
  Searched-trans s t (none, u) same small (mem, ledger, small', lock) =
      (mem, (λ a. ledger a ∙ same a), small' ∙ small, lock)

  -- the rest of the search behind a refill
  after_refill :
      (rounds : ℕ) (s : Kmem)
      → ((t : Kmem)
          → IsMem t
          → t.heap.locked ≡ true
          → WhenOk (Searched t size) (find_hole rounds fuel size t))
      → (r : Outcome (Bool × Kmem)) → WhenOk (Refilled s) r
      → WhenOk (Searched s size) (refilled (find_hole rounds fuel size) r)
  after_refill rounds s ih (ok (true, t)) (mem, ledger, small, lock) =
      WhenOk-mono (Searched t size) (Searched s size) (find_hole rounds fuel size t)
        (λ out. Searched-trans s t out ledger small) (ih t mem lock)
  after_refill rounds s ih (ok (false, t)) (mem, ledger, small, lock) = (mem, ledger, small, lock)
  after_refill rounds s ih halt h = tt
  after_refill rounds s ih spin h = tt

  find_hole-Searched :
      (rounds : ℕ) (s : Kmem)
      → IsMem s
      → s.heap.locked ≡ true
      → WhenOk (Searched s size) (find_hole rounds fuel size s)
  unfolding find_hole
  find_hole-Searched zero s v lock = elim (Option-cases (first_fit size s.heap.phead)) [
    | inl e ↦ rw (e, find_hole) tt
    | inr (p, e) ↦ rw (e, find_hole) (v, (λ a. refl), refl, lock, e)
  ]
  find_hole-Searched (suc rounds) s v lock = elim (Option-cases (first_fit size s.heap.phead)) [
    | inl e ↦
        rw (e, find_hole)
          (after_refill rounds s (find_hole-Searched rounds) (refill fuel s) (refill_lem fuel s v))
    | inr (p, e) ↦ rw (e, find_hole) (v, (λ a. refl), refl, lock, e)
  ]

-- What a call of `alloc_kheap_4k` that returns `addr` has done.
abbrev pub Gave : Kmem → ℕ → ℕ × Kmem → Type 0
Gave s size (addr, t) =
    IsMem t
    × (t.heap.locked ≡ false)
    × (t.small ≡ s.small)
    × (addr % 0x1000 ≡ 0)
    × ((a : ℕ) → owned a s ≡ owned a t + given addr size a)

module _ (s : Kmem) (size : ℕ) (pos : 0 < size) (whole : size % 0x1000 ≡ 0) where
  take_hole-eq :
      (h h' : Holes) (p : Hole)
      → carve exhausted size p h ≡ ok (p.addr, h')
      → take_hole size p h ≡ ok (p.addr, record h' { locked = false })
  unfolding take_hole
  take_hole-eq h h' p e = rw (e, ◌>>=◌)

  take-Gave :
      (t : Kmem) (p : Hole)
      → Searched s size (some p, t)
      → WhenOk (Gave s size) (on_heap (take_hole size p) t)
  take-Gave t p (mem, ledger, small, lock, found) =
      let (h', e, (heap, _, cover')) = carve-Handed t.heap mem.heap size p found pos whole in
      let b : IsBlock p = All-first_fit IsBlock size t.heap.phead p found mem.heap.blocks in
      let count : (a : ℕ) → given p.addr size a ≡ count_if (within p.addr size a) =
        λ a. ground (arith, b.positive) in
      rw (take_hole-eq t.heap h' p e, on_heap)
        (
          record {
            phys = mem.phys;
            heap = record { nodes = heap.nodes; ordered = heap.ordered; blocks = heap.blocks };
            single = λ a. omega (arith, mem.single a, cover' a);
          },
          refl,
          small,
          b.aligned,
          λ a. omega (arith, ledger a, cover' a, count a),
        )

  finish :
      (out : Option Hole) (t : Kmem)
      → Searched s size (out, t)
      → WhenOk (Gave s size) (take_found size out t)
  finish (some p) t found = take-Gave t p found
  finish none t (mem, ledger, small, lock) = (mem, lock, small, refl, λ a. omega (arith, ledger a))

abbrev pub Roundable : ℕ → Type 0
Roundable size = (0 < size) × (size ≤ 2 ^ 64 - 0x1000)

round_4k-whole : (size : ℕ) → Roundable size → (0 < round_4k size) × (round_4k size % 0x1000 ≡ 0)
round_4k-whole size h = ground arith

-- `alloc_kheap_4k`, if it returns, leaves the lock released and the memory well formed, and has
-- moved memory nowhere but to its caller: for every address, how often it is free (in a page, in a
-- hole, in a small hole) before the call is how often it is free after it, and once more if the
-- address lies in the block that is returned. The block is a whole number of 4K units.
pub alloc_kheap_4k-Gave :
    (rounds fuel size : ℕ) (s : Kmem)
    → Roundable size
    → IsMem s
    → s.heap.locked ≡ false
    → WhenOk (Gave s (round_4k size)) (alloc_kheap_4k rounds fuel size s)
unfolding alloc_kheap_4k
alloc_kheap_4k-Gave rounds fuel size s h v unlocked =
    let (pos, whole) = round_4k-whole size h in
    let s' : Kmem = record s { heap = record s.heap { locked = true } } in
    let v' : IsMem s' = record {
      phys = v.phys;
      heap = record { nodes = v.heap.nodes; ordered = v.heap.ordered; blocks = v.heap.blocks };
      single = v.single;
    } in
    let from_locked : (out : Option Hole) (t : Kmem)
        → Searched s' (round_4k size) (out, t)
        → Searched s (round_4k size) (out, t) =
      λ out t. Searched-trans fuel (round_4k size) s s' (out, t) (λ a. refl) refl in
    rw (unlocked, ◌>>◌, ◌>>=◌, on_heap)
      (WhenOk->>= (Searched s' (round_4k size)) (Gave s (round_4k size))
        (find_hole rounds fuel (round_4k size)) (take_found (round_4k size)) s'
        (find_hole-Searched fuel (round_4k size) rounds s' v' refl)
        λ out t found. finish s (round_4k size) pos whole out t (from_locked out t found))
