-- ===== src/Boot/Unaligned.antt =====
-- `on_mem` and an address inside a unit of 4K.
use yaos.Prelude.{
  ℕ, suc, ◌+◌, ◌-◌, ◌%◌, ◌^◌, ◌≡◌, ◌≢◌, refl, ap, ◌∙◌, Bool-cases, ltb, leb, ◌==◌, inl, inr,
  if_true, if_false,
}
use yaos.Prelude.Outcome.{halt, Action, ◌>>◌, pure, >>-ok, >>-halt}
use yaos.Kheap.Free.{free_kheap_small-unaligned}
use yaos.Kheap.{free_kheap_small, on_small}
use yaos.Boot.{Boot, on_kmem, give_small, minus, on_mem}
use yaos.Pgtable.Alloc.{==_ne}

module _ (addr : ℕ) (unaligned : addr % 0x1000 ≢ 0) where
  small-halt : (size : ℕ) (s : Boot) → on_kmem (on_small (free_kheap_small addr size)) s ≡ halt
  small-halt size s =
      rw (free_kheap_small-unaligned addr size s.paging.heap.small unaligned, on_kmem, on_small)
        refl

  give-then-halt :
      (size n : ℕ) (k : Action Boot (Unit {0})) (s : Boot)
      → (give_small addr size >> (on_kmem (on_small (free_kheap_small addr n)) >> k)) s ≡ halt
  give-then-halt size n k s = elim (Bool-cases (ltb ((addr + size) % 2 ^ 64) s.max_phy_mem_addr)) [
    | inl e ↦
        >>-halt (give_small addr size) _ s
          (if_true (ltb ((addr + size) % 2 ^ 64) s.max_phy_mem_addr) _ _ e ∙ small-halt size s)
    | inr e ↦
        >>-ok (give_small addr size) (on_kmem (on_small (free_kheap_small addr n)) >> k) s s
          (if_false (ltb ((addr + size) % 2 ^ 64) s.max_phy_mem_addr) _ _ e)
        ∙ >>-halt (on_kmem (on_small (free_kheap_small addr n))) k s (small-halt n s)
  ]

  -- on_mem of a region that does not start at a unit of 4K halts: its head goes to free_kheap_small, which
  -- takes whole units only.
  pub on_mem-unaligned : (rounds size : ℕ) (s : Boot) → on_mem (suc rounds) addr size s ≡ halt
  unfolding on_mem
  on_mem-unaligned rounds size s =
      let low4ksize : ℕ = 0x1000 - addr % 0x1000 in
      let rest : Action Boot (Unit {0}) =
        on_mem rounds ((addr + low4ksize) % 2 ^ 64) (minus size low4ksize) in
      if_false (addr % 0x1000 == 0) _ _ (==_ne (addr % 0x1000) 0 unaligned)
      ∙ elim (Bool-cases (leb size low4ksize)) [
        | inr e ↦
            ap
              (λ (m : Action Boot (Unit {0})).
                (m >> (on_kmem (on_small (free_kheap_small addr low4ksize)) >> rest)) s)
              (if_false (leb size low4ksize) (give_small addr size) (pure tt) e)
            ∙ >>-halt (on_kmem (on_small (free_kheap_small addr low4ksize))) rest s
                (small-halt low4ksize s)
        | inl e ↦
            ap
              (λ (m : Action Boot (Unit {0})).
                (m >> (on_kmem (on_small (free_kheap_small addr low4ksize)) >> rest)) s)
              (if_true (leb size low4ksize) (give_small addr size) (pure tt) e)
            ∙ give-then-halt size low4ksize rest s
      ]
