-- ===== src/Kheap/Limits.antt =====
-- The limits of `alloc_kheap_4k`: how often it refills, and what it can never serve.
use yaos.Prelude.{
  ℕ, zero, suc, ◌≤◌, ◌<◌, ◌≡◌, refl, ◌∙◌, sym, ap, subst, Bool, true, false, ◌&&◌, Option, none,
  List, [], ◌∷◌, arith, Bool-cases, Option-cases, inl, inr, ◌==◌, All, length,
}
use yaos.Prelude.Outcome.{
  Outcome, ok, halt, spin, Action, ◌>>=◌, ◌>>◌, WhenOk, WhenOk-mono, WhenOk->>=, pure,
}
use yaos.Phymem.{Phymem, page_size, alloc_phy_page}
use yaos.Holes.{Hole, Holes, spin_lock, first_fit}
use yaos.Holes.Weigh.{first_fit-nil, first_fit-skip}
use yaos.Holes.Order.{All-link_sorted}
use yaos.Kheap.{
  Kmem, on_heap, on_phys, donate, refill, refilled, find_hole, take_found, free_kheap_4k,
  alloc_kheap_4k, round_4k, aligned_4k,
}
use yaos.Kheap.Free.{free_kheap_4k-full}

-- every hole is smaller than the request
abbrev pub AllBelow : ℕ → List Hole → Type 0
AllBelow size = All (λ (h : Hole). h.size < size)

-- What a refill that succeeds has done to the list of holes: a node has gone from one list to the
-- other, as a hole of one page.
abbrev Grown : ℕ → Kmem → Bool × Kmem → Type 0
Grown size s (true, t) =
    (length s.heap.pfree ≡ suc (length t.heap.pfree))
    × (page_size < size → AllBelow size s.heap.phead → AllBelow size t.heap.phead)
Grown size s (false, t) = Unit

free-Grown :
    (size addr : ℕ) (s : Holes) (free : List Hole)
    → s.pfree ≡ free
    → WhenOk
        (λ (_, t).
          (length s.pfree ≡ suc (length t.pfree))
          × (page_size < size → AllBelow size s.phead → AllBelow size t.phead))
        (free_kheap_4k addr page_size s)
unfolding free_kheap_4k
free-Grown size addr s [] e = rw (free_kheap_4k-full s addr page_size e) tt
free-Grown size addr s (q ∷ rest) e = elim (Bool-cases (aligned_4k addr && aligned_4k page_size)) [
  | inr odd ↦ rw odd tt
  | inl units ↦ elim (Bool-cases s.locked) [
    | inl held ↦ rw (units, e, held) tt
    | inr released ↦
        rw (units, e, released) (refl, λ lt below. All-link_sorted _ _ s.phead lt below)
  ]
]

-- the effect on the list, of which the refill leaves the rest alone
abbrev GrownHoles : ℕ → Holes → Unit {0} × Holes → Type 0
GrownHoles size s (_, t) =
    (length s.pfree ≡ suc (length t.pfree))
    × (page_size < size → AllBelow size s.phead → AllBelow size t.phead)

module _ (size : ℕ) where
  Grown-from :
      (s t : Kmem)
      → t.heap.pfree ≡ s.heap.pfree
      → t.heap.phead ≡ s.heap.phead
      → (out : Bool × Kmem) → Grown size t out
      → Grown size s out
  Grown-from s t free head (true, u) (fewer, below) =
      (sym (ap length free) ∙ fewer, λ lt b. below lt (subst (AllBelow size) (sym head) b))
  Grown-from s t free head (false, u) h = tt

  on_heap-Grown :
      (m : Action Holes (Unit {0})) (s : Kmem)
      → WhenOk (GrownHoles size s.heap) (m s.heap)
      → WhenOk (λ (_, t). GrownHoles size s.heap (tt, t.heap)) (on_heap m s)
  on_heap-Grown m s h = go (m s.heap) h
    where
      go :
          (r : Outcome (Unit {0} × Holes))
          → WhenOk (GrownHoles size s.heap) r
          → WhenOk
              (λ (_, t). GrownHoles size s.heap (tt, t.heap))
              (elim r [ ok (a, h') ↦ ok (a, record s { heap = h' }) | halt ↦ halt | spin ↦ spin ])
      go (ok (a, h')) p = p
      go halt p = tt
      go spin p = tt

  relock-Grown :
      (s t : Kmem)
      → GrownHoles size s.heap (tt, t.heap)
      → WhenOk (Grown size s) ((on_heap spin_lock >> pure true) t)
  relock-Grown s t h = elim (Bool-cases t.heap.locked) [
    | inl held ↦ rw (◌>>◌, ◌>>=◌, on_heap, held) tt
    | inr released ↦ rw (◌>>◌, ◌>>=◌, on_heap, released) h
  ]

  donate-Grown : (addr : ℕ) (s : Kmem) → WhenOk (Grown size s) (donate addr s)
  unfolding donate
  donate-Grown addr s = elim (Bool-cases (addr == 0)) [
    | inl z ↦ rw z tt
    | inr nz ↦ rw nz (
        WhenOk->>= (λ (_, t). GrownHoles size s.heap (tt, t.heap)) (Grown size s)
          (on_heap (free_kheap_4k addr page_size)) (λ _. on_heap spin_lock >> pure true) s
          (on_heap-Grown (free_kheap_4k addr page_size) s (free-Grown size addr s.heap _ refl))
          λ _ t h. relock-Grown s t h)
  ]

  refill-Grown : (fuel : ℕ) (s : Kmem) → WhenOk (Grown size s) (refill fuel s)
  unfolding refill
  refill-Grown fuel s =
      WhenOk->>= (λ (_, t). (t.heap.pfree ≡ s.heap.pfree) × (t.heap.phead ≡ s.heap.phead))
        (Grown size s) (on_phys (alloc_phy_page fuel)) donate
        (record s { heap = record s.heap { locked = false } }) (paged (alloc_phy_page fuel s.phys))
        λ addr t (free, head).
          WhenOk-mono (Grown size t) (Grown size s) (donate addr t) (Grown-from s t free head)
            (donate-Grown addr t)
    where
      paged :
          (r : Outcome (ℕ × Phymem))
          → WhenOk
              (λ (_, t). (t.heap.pfree ≡ s.heap.pfree) × (t.heap.phead ≡ s.heap.phead))
              (elim r [
                | ok (a, p) ↦ ok (a, record s { phys = p; heap = record s.heap { locked = false } })
                | halt ↦ halt
                | spin ↦ spin
              ])
      paged (ok (a, p)) = (refl, refl)
      paged halt = tt
      paged spin = tt

-- A list of holes that are all too small has none that fits.
first_fit-none : (size : ℕ) (l : List Hole) → AllBelow size l → first_fit size l ≡ none
first_fit-none size [] below = first_fit-nil size
first_fit-none size (h ∷ rest) below =
    first_fit-skip size h rest below.0 ∙ first_fit-none size rest below.1

-- never a hole
abbrev Hopeless : ℕ → Option Hole × Kmem → Type 0
Hopeless size (found, t) = found ≡ none

module _ (fuel size : ℕ) (large : page_size < size) where
  after-Hopeless :
      (rounds : ℕ) (s : Kmem)
      → AllBelow size s.heap.phead
      → ((t : Kmem)
          → AllBelow size t.heap.phead
          → WhenOk (Hopeless size) (find_hole rounds fuel size t))
      → (r : Outcome (Bool × Kmem)) → WhenOk (Grown size s) r
      → WhenOk (Hopeless size) (refilled (find_hole rounds fuel size) r)
  after-Hopeless rounds s below ih (ok (true, t)) (_, keep) = ih t (keep large below)
  after-Hopeless rounds s below ih (ok (false, t)) h = refl
  after-Hopeless rounds s below ih halt h = tt
  after-Hopeless rounds s below ih spin h = tt

  find_hole-Hopeless :
      (rounds : ℕ) (s : Kmem)
      → AllBelow size s.heap.phead
      → WhenOk (Hopeless size) (find_hole rounds fuel size s)
  unfolding find_hole
  find_hole-Hopeless zero s below = rw (first_fit-none size s.heap.phead below, find_hole) tt
  find_hole-Hopeless (suc rounds) s below =
      rw (first_fit-none size s.heap.phead below, find_hole)
        (after-Hopeless rounds s below (find_hole-Hopeless rounds) (refill fuel s)
          (refill-Grown size fuel s))

-- A request for more than one physical page, when no hole is as large, never succeeds, however much
-- memory is free: `alloc_kheap_4k` returns null or does not return, since neighbouring holes are
-- never joined.
pub alloc_kheap_4k-too_large :
    (rounds fuel size : ℕ) (s : Kmem)
    → page_size < round_4k size
    → AllBelow (round_4k size) s.heap.phead
    → WhenOk (λ (addr, _). addr ≡ 0) (alloc_kheap_4k rounds fuel size s)
unfolding alloc_kheap_4k
alloc_kheap_4k-too_large rounds fuel size s large below = elim (Bool-cases s.heap.locked) [
  | inl held ↦ rw (◌>>◌, ◌>>=◌, on_heap, held) tt
  | inr released ↦
      rw (◌>>◌, ◌>>=◌, on_heap, released)
        (WhenOk->>= (Hopeless (round_4k size)) (λ (addr, _). addr ≡ 0)
          (find_hole rounds fuel (round_4k size)) (take_found (round_4k size))
          (record s { heap = record s.heap { locked = true } })
          (find_hole-Hopeless fuel (round_4k size) large rounds
            (record s { heap = record s.heap { locked = true } }) below)
          λ out t e. rw e refl)
]

-- Each refill that succeeds takes a node off `pfree`.
module _ (fuel size : ℕ) where
  enough_after :
      (rounds n : ℕ) (s : Kmem)
      → length s.heap.pfree < suc rounds
      → ((t : Kmem)
          → length t.heap.pfree < rounds
          → find_hole n fuel size t ≡ find_hole rounds fuel size t)
      → (r : Outcome (Bool × Kmem)) → WhenOk (Grown size s) r
      → refilled (find_hole n fuel size) r ≡ refilled (find_hole rounds fuel size) r
  enough_after rounds n s lt ih (ok (true, t)) (fewer, _) = ih t (omega arith)
  enough_after rounds n s lt ih (ok (false, t)) h = refl
  enough_after rounds n s lt ih halt h = refl
  enough_after rounds n s lt ih spin h = refl

  find_hole-enough :
      (rounds n : ℕ) (s : Kmem)
      → length s.heap.pfree < rounds
      → rounds ≤ n
      → find_hole n fuel size s ≡ find_hole rounds fuel size s
  unfolding find_hole
  find_hole-enough zero n s lt le = absurd (omega arith)
  find_hole-enough (suc rounds) zero s lt le = absurd (omega arith)
  find_hole-enough (suc rounds) (suc n) s lt le =
      elim (Option-cases (first_fit size s.heap.phead)) [
        | inl e ↦
            rw (e, find_hole)
              (enough_after rounds n s lt (λ t lt'. find_hole-enough rounds n t lt' (omega arith))
                (refill fuel s) (refill-Grown size fuel s))
        | inr (p, e) ↦ rw (e, find_hole)
      ]

-- The loop of `alloc_kheap_4k` ends after as many rounds as the table has nodes left, and one: a
-- larger number of rounds gives the same result.
pub alloc_kheap_4k-rounds :
    (rounds n fuel size : ℕ) (s : Kmem)
    → length s.heap.pfree < rounds
    → rounds ≤ n
    → alloc_kheap_4k n fuel size s ≡ alloc_kheap_4k rounds fuel size s
unfolding alloc_kheap_4k
alloc_kheap_4k-rounds rounds n fuel size s lt le = elim (Bool-cases s.heap.locked) [
  | inl held ↦ rw (◌>>◌, ◌>>=◌, on_heap, held)
  | inr released ↦
      rw (◌>>◌, ◌>>=◌, on_heap, released)
        (let s' : Kmem = record s { heap = record s.heap { locked = true } } in
          rw (◌>>=◌, find_hole-enough fuel (round_4k size) rounds n s' lt le))
]
