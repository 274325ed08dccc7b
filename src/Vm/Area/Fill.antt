-- ===== src/Vm/Area/Fill.antt =====
-- The loop of `alloc_vm` when it does not run out of pages: what is found for the addresses of the area.
use yaos.Prelude.{
  ℕ, ◌+◌, ◌/◌, ◌%◌, ◌^◌, ◌≤◌, ◌<◌, ◌≡◌, ◌≢◌, refl, ◌∙◌, inl, inr, true, arith, Bool-cases, ==_iff,
  subst, if◌then◌else◌,
}
use yaos.Phymem.{page_size}
use yaos.Kheap.{Kmem}
use yaos.Pgtable.{Paging, rw_flags}
use yaos.Pgtable.Alloc.{IsPaging}
use yaos.Pgtable.Heap.{IsIdle, Taken}
use yaos.Pgtable.Map.{translation, same_page}
use native.Mathlib.Decide.{ℕ_discrete}

-- The address `a` lies in the page of 2M at the offset `off` of the area at `base`, from `from` to `size`,
-- which is included.
pub record InArea (base from size off a : ℕ) : Type 0 where
  pub low : from ≤ off
  pub high : off ≤ size
  pub whole : off % page_size ≡ 0
  pub page : same_page (base + off) a ≡ true

-- A page of memory is found for the address `a`, which was not taken in the memory `k`.
pub record IsBacked (a : ℕ) (k : Kmem) (t : Paging Kmem) : Type 0 where
  pub below : ℕ
  pub some_page : below ≢ 0
  pub aligned : below % page_size ≡ 0
  pub fresh : Taken k below → ⊥
  pub entry : translation a t ≡ below + rw_flags

-- Each page of the area has a page of memory of its own, and what is found elsewhere is what it was.
pub record Filled (root base from size : ℕ) (s t : Paging Kmem) : Type 0 where
  pub tree : IsPaging IsIdle Taken root t
  pub held : (q : ℕ) → Taken s.heap q → Taken t.heap q
  pub backed : (a off : ℕ) → InArea base from size off a → IsBacked a s.heap t
  pub apart :
      (a b off off' : ℕ)
      → InArea base from size off a
      → InArea base from size off' b
      → off < off'
      → translation a t ≢ translation b t
  pub others :
      (a : ℕ) → ((off : ℕ) → InArea base from size off a → ⊥) → translation a t ≡ translation a s

module _ (root base size : ℕ) (short : size < 2 ^ 47) where
  once :
      (from off a : ℕ)
      → off % page_size ≡ 0
      → off ≤ size
      → same_page (base + off) a ≡ true
      → (o : ℕ) → InArea base (off + page_size) size o a
      → ⊥
  once from off a whole le here o i =
      let one : (base + off) / page_size % 2 ^ 27 ≡ a / page_size % 2 ^ 27 = (==_iff _ _).0 here in
      let other : (base + o) / page_size % 2 ^ 27 ≡ a / page_size % 2 ^ 27 =
        (==_iff _ _).0 i.page in
      omega (arith, short, le, whole, i.low, i.high, i.whole, one, other)

  -- one page filled in front of the rest of the area
  module _ (off pg : ℕ) (s u w : Paging Kmem) (le : off ≤ size) (whole : off % page_size ≡ 0)
      (some_page : pg ≢ 0) (aligned : pg % page_size ≡ 0) (fresh : Taken s.heap pg → ⊥)
      (kept : (q : ℕ) → Taken s.heap q → Taken u.heap q) (taken : Taken u.heap pg)
      (one : (a : ℕ)
        → translation a u ≡ (if same_page (base + off) a then pg + rw_flags else translation a s))
      (rest : Filled root base (off + page_size) size u w) where
    later : (a o : ℕ) → InArea base off size o a → o ≢ off → InArea base (off + page_size) size o a
    later a o i ne = record {
      low = omega (arith, whole, i.low, i.whole, ne);
      high = i.high;
      whole = i.whole;
      page = i.page;
    }

    first_entry : (a : ℕ) → same_page (base + off) a ≡ true → translation a w ≡ pg + rw_flags
    first_entry a here = rest.others a (once off off a whole le here) ∙ one a ∙ rw here refl

    backed_lem : (a o : ℕ) → InArea base off size o a → IsBacked a s.heap w
    backed_lem a o i = elim (ℕ_discrete o off) [
      | yes e ↦ record {
        below = pg;
        some_page = some_page;
        aligned = aligned;
        fresh = fresh;
        entry = first_entry a (subst (λ o. same_page (base + o) a ≡ true) e i.page);
      }
      | no ne ↦
          let b = rest.backed a o (later a o i ne) in
          record {
            below = b.below;
            some_page = b.some_page;
            aligned = b.aligned;
            fresh = λ t. b.fresh (kept b.below t);
            entry = b.entry;
          }
    ]

    apart_lem :
        (a b o o' : ℕ)
        → InArea base off size o a
        → InArea base off size o' b
        → o < o'
        → translation a w ≢ translation b w
    apart_lem a b o o' i j lt same = elim (ℕ_discrete o off) [
      | no ne ↦
          rest.apart a b o o' (later a o i ne) (later b o' j (omega (arith, i.low, lt))) lt same
      | yes e ↦
          let k = rest.backed b o' (later b o' j (omega (arith, e, lt))) in
          let here : translation a w ≡ pg + rw_flags =
            first_entry a (subst (λ o. same_page (base + o) a ≡ true) e i.page) in
          let equal : pg ≡ k.below = omega (arith, here, k.entry, same) in
          k.fresh (subst (Taken u.heap) equal taken)
    ]

    others_lem :
        (a : ℕ) → ((o : ℕ) → InArea base off size o a → ⊥) → translation a w ≡ translation a s
    others_lem a none = elim (Bool-cases (same_page (base + off) a)) [
      | inl here ↦
          absurd (none off (record { low = omega arith; high = le; whole = whole; page = here }))
      | inr there ↦
          rest.others a (λ o i.
            none o (record {
              low = omega (arith, i.low);
              high = i.high;
              whole = i.whole;
              page = i.page;
            }))
          ∙ one a
          ∙ rw there refl
    ]

    pub Filled-page : Filled root base off size s w
    Filled-page = record {
      tree = rest.tree;
      held = λ q t. rest.held q (kept q t);
      backed = backed_lem;
      apart = apart_lem;
      others = others_lem;
    }

  pub Filled-none :
      (from : ℕ) (s : Paging Kmem)
      → size < from
      → IsPaging IsIdle Taken root s
      → Filled root base from size s s
  Filled-none from s past v = record {
    tree = v;
    held = λ q t. t;
    backed = λ a off i. absurd (omega (arith, past, i.low, i.high));
    apart = λ a b off off' i j lt same. omega (arith, past, i.low, i.high);
    others = λ a none. refl;
  }
