-- ===== src/Kheap/Free.antt =====
-- `free_kheap_4k`: a region is added to the holes, or the table of holes is full.
use yaos.Prelude.{
  ℕ, ◌+◌, ◌%◌, ◌^◌, ◌<◌, ◌≡◌, ◌≢◌, refl, true, false, ◌&&◌, List, [], ◌∷◌, arith, count_if, All,
  All-map,
}
use yaos.Prelude.Outcome.{ok, halt}
use yaos.Holes.{Hole, Holes, link_sorted}
use yaos.Holes.Weigh.{within, cover, weigh-link_sorted}
use yaos.Holes.Order.{All-link_sorted, link_sorted-Ordered, Apart-of_vacant, IsNonempty}
use yaos.Holes.Region.{add_hole_lem}
use yaos.Kheap.{max_heap_hole, aligned_4k, free_kheap_4k, free_kheap_small}
use yaos.Kheap.Inv.{IsBlock, IsHeap}

-- What may be given back: whole 4K units below 2^64, none of which is free already.
pub record IsVacant (s : Holes) (addr size : ℕ) : Type 0 where
  pub nonempty : 0 < size
  pub positive : 0 < addr
  pub fits : addr + size < 2 ^ 64
  pub aligned : addr % 0x1000 ≡ 0
  pub whole : size % 0x1000 ≡ 0
  pub vacant : (a : ℕ) → within addr size a ≡ true → cover a s.phead ≡ 0

-- Adding a region to the list: the list stays well formed, and each address of the region, and no
-- other, is covered once more.
abbrev pub Added : Holes → ℕ → ℕ → Holes → Type 0
Added s addr size s' =
    IsHeap s'
    × (s'.locked ≡ false)
    × ((a : ℕ) → cover a s'.phead ≡ count_if (within addr size a) + cover a s.phead)

module _ (s : Holes) (v : IsHeap s) (unlocked : s.locked ≡ false) (addr size : ℕ)
    (free : IsVacant s addr size) where
  -- `free_kheap_4k`, on a well-formed list of holes with the lock released and a node left in the table, of
  -- a region of which no part is free already, whose address and size are multiples of 4K above 0 and which
  -- ends below 2^64: it returns with the lock released, the holes ordered and apart, and the region added
  -- to the free memory.
  pub free_kheap_4k-Added :
      (q : Hole) (rest : List Hole)
      → s.pfree ≡ q ∷ rest
      → (s' : Holes) × (free_kheap_4k addr size s ≡ ok (tt, s')) × Added s addr size s'
  unfolding free_kheap_4k
  free_kheap_4k-Added q rest e =
      let p : Hole = record q { addr = addr; size = size; orgin_size = size } in
      let full : All IsNonempty s.phead = All-map (λ h b. b.nonempty) s.phead v.blocks in
      let (_, nodes, ledger) =
        add_hole_lem max_heap_hole (record s { locked = true }) v.nodes link_sorted
          weigh-link_sorted q rest addr size e in
      let units : (aligned_4k addr && aligned_4k size) ≡ true =
        ground (arith, free.aligned, free.whole) in
      (
        record s { pfree = rest; phead = link_sorted p s.phead; locked = false },
        rw (units, e, unlocked),
        (
          record {
            nodes = nodes;
            ordered =
                link_sorted-Ordered p s.phead free.nonempty full
                  (Apart-of_vacant p s.phead free.nonempty full free.vacant) v.ordered;
            blocks =
                All-link_sorted IsBlock p s.phead
                  (record {
                    nonempty = free.nonempty;
                    positive = free.positive;
                    fits = free.fits;
                    aligned = free.aligned;
                    whole = free.whole;
                  })
                  v.blocks;
          },
          refl,
          ledger,
        ),
      )

-- With no node left `free_kheap_4k` halts, whatever it is given.
pub free_kheap_4k-full :
    (s : Holes) (addr size : ℕ) → s.pfree ≡ [] → free_kheap_4k addr size s ≡ halt
unfolding free_kheap_4k
free_kheap_4k-full s addr size e = ground arith

-- `free_kheap_small` takes whole units of 4K only, at the start of one.
pub free_kheap_small-unaligned :
    (addr size : ℕ) (s : Holes) → addr % 0x1000 ≢ 0 → free_kheap_small addr size s ≡ halt
unfolding free_kheap_small
free_kheap_small-unaligned addr size s unaligned = ground (arith, unaligned)
