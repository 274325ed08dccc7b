-- ===== src/Vm/Area/Lost.antt =====
-- `alloc_vm` when no page is left.
use yaos.Prelude.{
  ℕ, suc, ◌-◌, ◌^◌, ◌≤◌, ◌<◌, ◌≡◌, refl, ap, ◌∙◌, ◌⊎◌, inl, inr, false, arith, leb, ◌==◌, ==_iff,
  if_true, if_false,
}
use yaos.Prelude.Outcome.{Outcome, ok, halt, spin, Action, ◌>>=◌, pure, Returns, >>=-ok}
use yaos.Phymem.{page_size, alloc_phy_page}
use yaos.Phymem.Alloc.{alloc_phy_page-empty}
use yaos.Holes.{Holes}
use yaos.Kheap.{Kmem}
use yaos.Pgtable.Alloc.{==_ne}
use native.Mathlib.Decide.{ℕ_discrete}
use yaos.Vm.{round_page, alloc_linear}
use yaos.Vm.Linear.{IsLinear, Lent, Missed, Answered, alloc_linear-Answered}
use yaos.Vm.Area.{Space, on_linear, on_pages, give_up, fill_pages, answer, alloc_vm}

-- Null, nothing changed below, and the addresses taken from the holes and not given back.
abbrev pub IsLost : ℕ → Space → ℕ × Space → Type 0
IsLost size s (r, t) =
    (r ≡ 0)
    × (t.paging ≡ s.paging)
    × (((p : ℕ) × Lent s.linear (round_page size) p t.linear)
        ⊎ Missed s.linear (round_page size) 0 t.linear)

module _ (alloc_4k : ℕ → Action Kmem ℕ) (fuel rounds size : ℕ) where
  fill_pages-empty :
      (addr : ℕ) (s : Space)
      → s.paging.heap.phys.pages ≡ 0
      → fill_pages alloc_4k (suc fuel) (suc rounds) 0 addr size s ≡ ok (false, s)
  unfolding fill_pages give_up
  fill_pages-empty addr s e =
      let none : on_pages (alloc_phy_page (suc fuel)) s ≡ ok (0, s) =
        rw (alloc_phy_page-empty fuel s.paging.heap.phys e, on_pages) refl in
      if_true (leb 0 size) _ _ (ground arith)
      ∙ >>=-ok (on_pages (alloc_phy_page (suc fuel))) _ s s 0 none

  pages_out :
      (p : ℕ) (l : Holes) (s : Space)
      → s.paging.heap.phys.pages ≡ 0
      → alloc_linear size s.linear ≡ ok (p, l)
      → alloc_vm alloc_4k (suc fuel) (suc rounds) size s ≡ ok (0, record s { linear = l })
  unfolding alloc_vm
  pages_out p l s e out =
      let s' : Space = record s { linear = l } in
      let first : on_linear (alloc_linear size) s ≡ ok (p, s') = rw (out, on_linear) refl in
      >>=-ok (on_linear (alloc_linear size)) _ s s' p first ∙ elim (ℕ_discrete p 0) [
        | yes z ↦ ap (λ (m : Action Space ℕ). m s') (if_true (p == 0) (pure 0) _ ((==_iff p 0).1 z))
        | no ne ↦
            ap (λ (m : Action Space ℕ). m s')
              (if_false (p == 0) (pure 0)
                (fill_pages alloc_4k (suc fuel) (suc rounds) 0 p size
                  >>= answer alloc_4k (suc fuel) p)
                (==_ne p 0 ne))
            ∙ >>=-ok (fill_pages alloc_4k (suc fuel) (suc rounds) 0 p size)
                (answer alloc_4k (suc fuel) p) s' s' false (fill_pages-empty p s' e)
      ]

  -- alloc_vm with no page left, for a size above 0 that can be rounded, with the holes of addresses well
  -- formed and their lock free, returns null and changes nothing below. The addresses that it had taken from
  -- the holes are not given back; or there was no hole as large, and the lock stays held.
  pub alloc_vm-IsLost :
      (s : Space)
      → IsLinear s.linear
      → s.linear.locked ≡ false
      → 0 < size
      → size ≤ 2 ^ 64 - page_size
      → s.paging.heap.phys.pages ≡ 0
      → Returns (IsLost size s) (alloc_vm alloc_4k (suc fuel) (suc rounds) size s)
  alloc_vm-IsLost s v unlocked pos bound e =
      go (alloc_linear size s.linear) refl
        (alloc_linear-Answered s.linear size unlocked pos bound v)
    where
      go :
          (r : Outcome (ℕ × Holes))
          → alloc_linear size s.linear ≡ r
          → Returns (Answered s.linear (round_page size)) r
          → Returns (IsLost size s) (alloc_vm alloc_4k (suc fuel) (suc rounds) size s)
      go halt out h = absurd h
      go spin out h = absurd h
      go (ok (p, l)) out h = rw (pages_out p l s e out) (
        refl,
        refl,
        elim h [ inl lent ↦ inl (p, lent) | inr (z, none, held) ↦ inr (refl, none, held) ],
      )
