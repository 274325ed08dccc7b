-- ===== src/Pgtable/Alloc.antt =====
-- A table taken from an allocator: what the page tables need of it, and what a new table changes.
use yaos.Prelude.{
  ℕ, ◌+◌, ◌%◌, ◌≡◌, ◌≢◌, refl, ap, ◌⊎◌, inl, inr, false, Option, none, some, arith, Bool-cases,
  ◌==◌, ==_iff,
}
use yaos.Prelude.Outcome.{Outcome, ok, halt, spin, Action, ◌>>=◌, ◌>>◌, assert, WhenOk, WhenOk->>=}
use yaos.Pgtable.{
  Paging, base_of, write_word, clear_table, table_flags, on_heap, link_table, new_table,
}
use yaos.Pgtable.Tables.{IsTree}
use native.Mathlib.Decide.{ℕ_discrete}

pub ==_ne : (a b : ℕ) → a ≢ b → (a == b) ≡ false
==_ne a b ne = ground (arith, ne)

-- What a page that is handed out, or null, means: `Held w p` says that the allocator has given away
-- the page `p`. What is held stays held, and what is handed out was not held before.
pub record IsAllocator {W : Type 0} (alloc_4k : ℕ → Action W ℕ) (Good : W → Type 0)
    (Held : W → ℕ → Type 0) : Type 0 where
  pub gives :
      (w : W)
      → Good w
      → WhenOk
          (λ (p, w').
            Good w' × ((q : ℕ) → Held w q → Held w' q) × ((p ≡ 0) ⊎ ((Held w p → ⊥) × Held w' p)))
          (alloc_4k 4096 w)

module _ {W : Type 0} (Good : W → Type 0) (Held : W → ℕ → Type 0) (root : ℕ) where
  -- The root table is the one that the processor uses.
  pub record IsPaging (s : Paging W) : Type 0 where
    pub root_at : s.pml4 ≡ root
    pub in_use : base_of s.cr3 ≡ root
    pub tree : IsTree s.mem root (Held s.heap)
    pub good : Good s.heap

  abbrev Given : Paging W → ℕ × Paging W → Type 0
  Given s (p, t) =
      (t.mem ≡ s.mem)
      × (t.pml4 ≡ s.pml4)
      × (t.cr3 ≡ s.cr3)
      × Good t.heap
      × ((q : ℕ) → Held s.heap q → Held t.heap q)
      × ((p ≡ 0) ⊎ ((Held s.heap p → ⊥) × Held t.heap p))

  abbrev pub Made : ℕ → Paging W → Option ℕ × Paging W → Type 0
  Made slot s (none, t) =
      (t.mem ≡ s.mem)
      × (t.pml4 ≡ s.pml4)
      × (t.cr3 ≡ s.cr3)
      × Good t.heap
      × ((q : ℕ) → Held s.heap q → Held t.heap q)
  Made slot s (some p, t) =
      (t.mem ≡ write_word (clear_table s.mem p) slot (p + table_flags))
      × (t.pml4 ≡ s.pml4)
      × (t.cr3 ≡ s.cr3)
      × Good t.heap
      × ((q : ℕ) → Held s.heap q → Held t.heap q)
      × (p % 4096 ≡ 0)
      × (p ≢ 0)
      × (Held s.heap p → ⊥)
      × Held t.heap p

  module _ (alloc_4k : ℕ → Action W ℕ) (law : IsAllocator alloc_4k Good Held) where
    made :
        (slot : ℕ) (s : Paging W) (r : Outcome (ℕ × W))
        → WhenOk
            (λ (p, w').
              Good w'
              × ((q : ℕ) → Held s.heap q → Held w' q)
              × ((p ≡ 0) ⊎ ((Held s.heap p → ⊥) × Held w' p)))
            r
        → WhenOk (Given s) (on_heap alloc_4k r s)
    made slot s (ok (p, w')) (g, kept, out) = (refl, refl, refl, g, kept, out)
    made slot s halt h = tt
    made slot s spin h = tt

    link :
        (slot p : ℕ) (s t : Paging W)
        → Given s (p, t)
        → WhenOk (Made slot s) ((assert (p % 4096 == 0) >> link_table alloc_4k slot p) t)
    link slot p s t (m, r, c, g, kept, out) = elim (Bool-cases (p % 4096 == 0)) [
      | inr e ↦ rw (e, ◌>>◌, ◌>>=◌) tt
      | inl e ↦ elim (ℕ_discrete p 0) [
        | yes z ↦ rw (e, (==_iff p 0).1 z, ◌>>◌, ◌>>=◌) (m, r, c, g, kept)
        | no some_page ↦
            let page : (Held s.heap p → ⊥) × Held t.heap p = elim out [
              | inl z ↦ absurd (some_page z)
              | inr h ↦ h
            ] in
            rw (e, ==_ne p 0 some_page, ◌>>◌, ◌>>=◌)
              (
                ap (λ mem. write_word (clear_table mem p) slot (p + table_flags)) m,
                r,
                c,
                g,
                kept,
                (==_iff (p % 4096) 0).0 e,
                some_page,
                page.0,
                page.1,
              )
      ]
    ]

    pub new_table-Made :
        (slot : ℕ) (s : Paging W) → Good s.heap → WhenOk (Made slot s) (new_table alloc_4k slot s)
    unfolding new_table
    new_table-Made slot s g =
        WhenOk->>= (Given s) (Made slot s) (on_heap alloc_4k (alloc_4k 4096 s.heap))
          (λ p. assert (p % 4096 == 0) >> link_table alloc_4k slot p) s
          (made slot s (alloc_4k 4096 s.heap) (law.gives s.heap g)) (λ p t h. link slot p s t h)
