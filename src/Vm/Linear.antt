-- ===== src/Vm/Linear.antt =====
-- `alloc_linear`: what it hands out, and the lock left held.
use yaos.Prelude.{
  ℕ, ◌+◌, ◌-◌, ◌%◌, ◌^◌, ◌≤◌, ◌<◌, ◌≡◌, ◌≢◌, ◌⊎◌, inl, inr, refl, true, false, Bool, none, some,
  arith, Option-cases, Bool-cases, subst, count_if, All,
}
use yaos.Prelude.Outcome.{ok, spin, ◌>>=◌, ◌>>◌, Returns, WhenOk}
use yaos.Phymem.{page_size}
use yaos.Holes.{Hole, Holes, first_fit, carve, unlink}
use yaos.Holes.Weigh.{within, cover, size-first_fit}
use yaos.Holes.Order.{All-first_fit, All-unlink, All-store}
use yaos.Holes.Region.{shrunk}
use yaos.Kheap.Inv.{IsBlock, IsHeap, carve-Handed}
use yaos.Vm.{round_page, used_up, search_linear, alloc_linear}

abbrev pub IsPaged : Hole → Type 0
IsPaged h = (h.addr % page_size ≡ 0) × (h.size % page_size ≡ 0)

-- well-formed holes, each of whole pages
pub record IsLinear (s : Holes) : Type 0 where
  pub heap : IsHeap s
  pub paged : All IsPaged s.phead

-- The pages are handed out: the lock is released, the holes stay well formed, and an address is
-- free before the call as often as after it, plus once if it lies in the pages.
abbrev pub Lent : Holes → ℕ → ℕ → Holes → Type 0
Lent s size addr t =
    (addr ≢ 0)
    × (addr % page_size ≡ 0)
    × IsLinear t
    × (t.locked ≡ false)
    × ((a : ℕ) → cover a s.phead ≡ cover a t.phead + count_if (within addr size a))

-- There is no hole as large: null, with the lock held.
abbrev pub Missed : Holes → ℕ → ℕ → Holes → Type 0
Missed s size addr t =
    (addr ≡ 0) × (first_fit size s.phead ≡ none) × (t ≡ record s { locked = true })

abbrev pub Answered : Holes → ℕ → ℕ × Holes → Type 0
Answered s size (addr, t) = Lent s size addr t ⊎ Missed s size addr t

carve-All :
    (P : Hole → Type 0) (drop : ℕ → Bool) (size : ℕ) (p : Hole) (s : Holes)
    → P (shrunk size p)
    → All P s.phead
    → WhenOk (λ (r : ℕ × Holes). All P r.1.phead) (carve drop size p s)
unfolding carve
carve-All P drop size p s hp h = elim (Bool-cases (drop (p.size - size))) [
  | inl gone ↦ elim (Option-cases (unlink p.slot s.phead)) [
    | inl e ↦ rw (gone, e) tt
    | inr (r, e) ↦ rw (gone, e) (All-unlink P p.slot s.phead r e h)
  ]
  | inr left ↦ rw left (All-store P (shrunk size p) s.phead hp h)
]

module _ (s : Holes) (size : ℕ) (unlocked : s.locked ≡ false) where
  alloc_linear-taken :
      (p : Hole) (t : Holes)
      → first_fit (round_page size) s.phead ≡ some p
      → carve used_up (round_page size) p (record s { locked = true }) ≡ ok (p.addr, t)
      → alloc_linear size s ≡ ok (p.addr, record t { locked = false })
  unfolding alloc_linear search_linear
  alloc_linear-taken p t found e = rw (◌>>◌, ◌>>=◌, unlocked, found, e) refl

  alloc_linear-missed :
      first_fit (round_page size) s.phead ≡ none
      → alloc_linear size s ≡ ok (0, record s { locked = true })
  unfolding alloc_linear search_linear
  alloc_linear-missed e = rw (◌>>◌, ◌>>=◌, unlocked, e) refl

  module _ (pos : 0 < size) (bound : size ≤ 2 ^ 64 - page_size) (v : IsLinear s) where
    taken-Lent :
        (p : Hole)
        → first_fit (round_page size) s.phead ≡ some p
        → (t : Holes) × (alloc_linear size s ≡ ok (p.addr, t)) × Lent s (round_page size) p.addr t
    taken-Lent p e =
        let s' : Holes = record s { locked = true } in
        let v' : IsHeap s' = record {
          nodes = v.heap.nodes;
          ordered = v.heap.ordered;
          blocks = v.heap.blocks;
        } in
        let (t, out, (heap, lock, ledger)) =
          carve-Handed s' v' (round_page size) p e (ground arith) (ground arith) in
        let b : IsBlock p = All-first_fit IsBlock (round_page size) s.phead p e v.heap.blocks in
        let g : IsPaged p = All-first_fit IsPaged (round_page size) s.phead p e v.paged in
        let enough : round_page size ≤ p.size = size-first_fit (round_page size) s.phead p e in
        let whole : round_page size % page_size ≡ 0 = ground arith in
        let g' : IsPaged (shrunk (round_page size) p) =
          (omega (arith, b.fits, g.0), omega (arith, g.1)) in
        let paged : All IsPaged t.phead =
          subst (WhenOk λ (r : ℕ × Holes). All IsPaged r.1.phead) out
            (carve-All IsPaged used_up (round_page size) p s' g' v.paged) in
        (
          _,
          alloc_linear-taken p t e out,
          (
            omega (arith, b.positive),
            g.0,
            record {
              heap = record { nodes = heap.nodes; ordered = heap.ordered; blocks = heap.blocks };
              paged = paged;
            },
            refl,
            ledger,
          ),
        )

    -- With the lock free and the holes well formed and of whole pages, alloc_linear of a size above 0
    -- that can be rounded returns. Either the address is that of whole pages which were free and are so
    -- no more, nothing else has changed hands, and the lock is released; or no hole is as large, and
    -- null is returned with the lock held.
    pub alloc_linear-Answered : Returns (Answered s (round_page size)) (alloc_linear size s)
    alloc_linear-Answered = elim (Option-cases (first_fit (round_page size) s.phead)) [
      | inl e ↦ rw (Returns, alloc_linear-missed e) (inr (refl, e, refl))
      | inr (p, e) ↦ let (t, out, lent) = taken-Lent p e in rw (Returns, out) (inl lent)
    ]

spins : (s : Holes) (size : ℕ) → s.locked ≡ true → alloc_linear size s ≡ spin
unfolding alloc_linear
spins s size e = rw (◌>>◌, ◌>>=◌, e) refl

-- After a call of alloc_linear that finds no hole, with the lock free before it, every further call
-- of alloc_linear waits for the lock for ever.
pub alloc_linear-deadlock :
    (s : Holes) (size next : ℕ)
    → s.locked ≡ false
    → first_fit (round_page size) s.phead ≡ none
    → (alloc_linear size >>= λ addr. alloc_linear next) s ≡ spin
alloc_linear-deadlock s size next unlocked e =
    rw (◌>>=◌, alloc_linear-missed s size unlocked e) (spins (record s { locked = true }) next refl)
