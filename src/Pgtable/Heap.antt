-- ===== src/Pgtable/Heap.antt =====
-- The kernel heap as the allocator of the page tables.
use yaos.Prelude.{ℕ, ◌+◌, ◌*◌, ◌≤◌, ◌<◌, ◌≡◌, ◌≢◌, refl, ◌∙◌, ◌⊎◌, inl, inr, false, arith}
use yaos.Prelude.Outcome.{WhenOk-mono, Returns-and, Returns-mono}
use yaos.Kheap.{Kmem, alloc_kheap_4k}
use yaos.Kheap.Refill.{owned, given, IsMem}
use yaos.Kheap.Alloc.{Gave, alloc_kheap_4k-Gave}
use yaos.Kheap.Supply.{room, alloc_kheap_4k-room}
use yaos.Pgtable.Alloc.{IsAllocator}
use yaos.Pgtable.Total.{IsSupply}
use native.Mathlib.Decide.{ℕ_discrete}

abbrev pub IsIdle : Kmem → Type 0
IsIdle w = IsMem w × (w.heap.locked ≡ false)

-- no part of the page is free, in a page, in a hole or in a small hole
abbrev pub Taken : Kmem → ℕ → Type 0
Taken w q = (a : ℕ) → q ≤ a → a < q + 4096 → owned a w ≡ 0

given-in : (p a : ℕ) → p ≢ 0 → p ≤ a → a < p + 4096 → given p 4096 a ≡ 1
given-in p a ne le lt = ground (arith, ne, le, lt)

Gave-Taken :
    (s : Kmem)
    → IsIdle s
    → (out : ℕ × Kmem) → Gave s 4096 out
    → IsIdle out.1
      × ((q : ℕ) → Taken s q → Taken out.1 q)
      × ((out.0 ≡ 0) ⊎ ((Taken s out.0 → ⊥) × Taken out.1 out.0))
Gave-Taken s idle (p, t) (mem, lock, small, al, ledger) = (
  (mem, lock),
  (λ q held a le lt. omega (arith, ledger a, held a le lt)),
  elim (ℕ_discrete p 0) [
    | yes e ↦ inl e
    | no ne ↦ inr (
      (λ held. omega (
        arith,
        ledger p,
        held p (omega arith) (omega arith),
        given-in p p ne (omega arith) (omega arith),
      )),
      λ a le lt. omega (arith, ledger a, idle.0.single a, given-in p a ne le lt),
    )
  ],
)

-- The kernel heap, whose memory is well formed and whose lock is free, is an allocator as the page
-- tables need it: a call for 4K that returns leaves it so, what was taken stays taken, and the page
-- that it returns, if not null, was not taken before and is afterwards.
pub alloc_kheap_4k-IsAllocator :
    (rounds fuel : ℕ) → IsAllocator (alloc_kheap_4k rounds fuel) IsIdle Taken
alloc_kheap_4k-IsAllocator rounds fuel = record {
  gives = λ w idle.
      WhenOk-mono (Gave w 4096) _ (alloc_kheap_4k rounds fuel 4096 w) (Gave-Taken w idle)
        (alloc_kheap_4k-Gave rounds fuel 4096 w (omega arith, omega arith) idle.0 idle.1);
}

-- n tables of 4K in the holes
abbrev pub Stocked : ℕ → Kmem → Type 0
Stocked n w = IsIdle w × (n * 4096 ≤ room w.heap.phead)

-- the same, with what was taken in the memory `k` taken still, and its pages as they were
abbrev pub StockedFrom : Kmem → ℕ → Kmem → Type 0
StockedFrom k n w = Stocked n w × ((q : ℕ) → Taken k q → Taken w q) × (w.phys ≡ k.phys)

pub from-IsSupply :
    (rounds fuel : ℕ) (k : Kmem) → IsSupply (alloc_kheap_4k rounds fuel) (StockedFrom k)
from-IsSupply rounds fuel k = record {
  gives = λ n w ((idle, stock), kept, same).
      Returns-mono _ _ (alloc_kheap_4k rounds fuel 4096 w)
        (λ _ ((ne, left, same'), (mem, lock, small, al, ledger)).
          let (idle', kept', _) = Gave-Taken w idle _ (mem, lock, small, al, ledger) in
          (
            ne,
            al,
            ((idle', omega (arith, left, stock)), (λ q t. kept' q (kept q t)), same' ∙ same),
          ))
        (Returns-and _ _ (alloc_kheap_4k rounds fuel 4096 w)
          (alloc_kheap_4k-room rounds fuel w idle.0 idle.1 (omega (arith, stock)))
          (alloc_kheap_4k-Gave rounds fuel 4096 w (omega arith, omega arith) idle.0 idle.1));
  fewer = λ n w ((idle, stock), kept, same). ((idle, omega (arith, stock)), kept, same);
}

-- The kernel heap serves as many tables as its holes have room for.
pub alloc_kheap_4k-IsSupply : (rounds fuel : ℕ) → IsSupply (alloc_kheap_4k rounds fuel) Stocked
alloc_kheap_4k-IsSupply rounds fuel = record {
  gives = λ n w stock.
      Returns-mono _ _ (alloc_kheap_4k rounds fuel 4096 w)
        (λ _ (ne, al, (left, _, _)). (ne, al, left))
        ((from-IsSupply rounds fuel w).gives n w (stock, (λ q t. t), refl));
  fewer = λ n w (idle, stock). (idle, omega (arith, stock));
}
