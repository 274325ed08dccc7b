-- ===== src/Kheap/Supply.antt =====
-- `alloc_kheap_4k` with free holes in the list: no refill is needed.
use yaos.Prelude.{
  ℕ, zero, suc, ◌+◌, ◌-◌, ◌≤◌, ◌≡◌, ◌≢◌, refl, true, false, some, List, [], ◌∷◌, arith, Bool-cases,
  inl, inr, All,
}
use yaos.Prelude.Outcome.{ok, ◌>>=◌, ◌>>◌, Returns}
use yaos.Holes.{Hole, Holes, first_fit, carve}
use yaos.Holes.Weigh.{weigh, weigh-store, size-first_fit}
use yaos.Holes.Order.{All-first_fit}
use yaos.Holes.Region.{once, shrunk, unlink-some, carve-drop, carve-keep}
use yaos.Kheap.{
  Kmem, max_heap_hole, on_heap, find_hole, take_hole, take_found, alloc_kheap_4k, exhausted,
}
use yaos.Kheap.Inv.{IsBlock, IsHeap}
use yaos.Kheap.Refill.{IsMem}

-- the bytes in the holes
abbrev pub room : List Hole → ℕ
room = weigh (λ h. h.size)

-- A list of blocks that is not empty has one of 4K.
first_fit-room :
    (l : List Hole) → All IsBlock l → 4096 ≤ room l → (p : Hole) × (first_fit 4096 l ≡ some p)
unfolding first_fit
first_fit-room [] v some_room = absurd (omega (arith, some_room))
first_fit-room (h ∷ rest) v some_room = (h, ground (arith, v.0.nonempty, v.0.whole))

module _ (s : Holes) (v : IsHeap s) (p : Hole) (found : first_fit 4096 s.phead ≡ some p) where
  carve-room :
      (s' : Holes) × (carve exhausted 4096 p s ≡ ok (p.addr, s'))
      × (room s.phead ≡ 4096 + room s'.phead)
  carve-room =
      let b : IsBlock p = All-first_fit IsBlock 4096 s.phead p found v.blocks in
      let enough : 4096 ≤ p.size = size-first_fit 4096 s.phead p found in
      elim (Bool-cases (exhausted (p.size - 4096))) [
        | inl gone ↦
            let (r, e, (out, _)) =
              carve-drop max_heap_hole s v.nodes exhausted 4096 p found b.fits gone in
            let (r', e', w) =
              unlink-some 4096 s.phead p found (once max_heap_hole s v.nodes p.slot) in
            (_, out, ground (arith, e, e', w (λ h. h.size), gone, enough))
        | inr left ↦
            let (out, _) = carve-keep max_heap_hole s v.nodes exhausted 4096 p found b.fits left in
            (
              _,
              out,
              omega (
                arith,
                enough,
                weigh-store (λ h. h.size) 4096 s.phead p (shrunk 4096 p) found
                    (once max_heap_hole s v.nodes p.slot) refl,
              ),
            )
      ]

find_hole-found :
    (rounds fuel size : ℕ) (s : Kmem) (p : Hole)
    → first_fit size s.heap.phead ≡ some p
    → find_hole rounds fuel size s ≡ ok (some p, s)
unfolding find_hole
find_hole-found zero fuel size s p e = rw (e, find_hole) refl
find_hole-found (suc rounds) fuel size s p e = rw (e, find_hole) refl

take_hole-room :
    (s : Holes) (v : IsHeap s) (p : Hole)
    → first_fit 4096 s.phead ≡ some p
    → (s' : Holes) × (take_hole 4096 p s ≡ ok (p.addr, s')) × (room s.phead ≡ 4096 + room s'.phead)
unfolding take_hole
take_hole-room s v p found =
    let (s', e, left) = carve-room s v p found in
    (record s' { locked = false }, rw (e, ◌>>=◌, ◌>>◌) refl, left)

-- With 4K in the holes, the memory well formed and the lock of the heap released, `alloc_kheap_4k` of 4K returns an
-- address, which is not null, whatever the rounds; the holes have 4K less, and no page is asked for.
pub alloc_kheap_4k-room :
    (rounds fuel : ℕ) (s : Kmem)
    → IsMem s
    → s.heap.locked ≡ false
    → 4096 ≤ room s.heap.phead
    → Returns
        (λ (p, t). (p ≢ 0) × (room s.heap.phead ≡ 4096 + room t.heap.phead) × (t.phys ≡ s.phys))
        (alloc_kheap_4k rounds fuel 4096 s)
unfolding alloc_kheap_4k
alloc_kheap_4k-room rounds fuel s v unlocked some_room =
    let s' : Kmem = record s { heap = record s.heap { locked = true } } in
    let v' : IsHeap s'.heap = record {
      nodes = v.heap.nodes;
      ordered = v.heap.ordered;
      blocks = v.heap.blocks;
    } in
    let (p, found) = first_fit-room s.heap.phead v.heap.blocks some_room in
    let (h, e, left) = take_hole-room s'.heap v' p found in
    let b : IsBlock p = All-first_fit IsBlock 4096 s.heap.phead p found v.heap.blocks in
    rw (unlocked, ◌>>◌, ◌>>=◌, on_heap, find_hole-found rounds fuel 4096 s' p found, take_found, e)
      (omega (arith, b.positive), left, refl)
