-- ===== src/Slub/Objects.antt =====
-- The objects that a page of 4K is cut into.
use yaos.Prelude.{
  ℕ, zero, suc, ◌+◌, ◌*◌, ◌≤◌, ◌<◌, ◌≡◌, refl, ap, true, false, List, [], ◌∷◌, ◌++◌, arith, ltb,
  All, All-map, length,
}
use yaos.Slub.{link_objects, add_objects, page_4k_size}

-- `count` objects of `size` bytes, in a row
abbrev span : ℕ → ℕ → ℕ
span size zero = 0
span size (suc count) = size + span size count

span_lem : (size count : ℕ) → span size count ≡ count * size
span_lem size zero = omega arith
span_lem size (suc count) = ground (arith, span_lem size count)

span-bound : (size count : ℕ) → 8 ≤ size → 8 * count ≤ span size count
span-bound size zero large = omega arith
span-bound size (suc count) large = omega (arith, span-bound size count large)

-- Each object ends before the later ones begin.
abbrev pub Adjoining : ℕ → List ℕ → Type 0
Adjoining size [] = Unit
Adjoining size (p ∷ rest) = All (λ q. p + size ≤ q) rest × Adjoining size rest

-- What the objects of the bytes from `start` to `end` are like.
pub record Cuts (size count start end : ℕ) (l : List ℕ) : Type 0 where
  pub number : length l ≡ count
  pub inside : All (λ p. (start ≤ p) × (p + size ≤ end)) l
  pub apart : Adjoining size l

link_objects-Cuts :
    (rounds size more p pend : ℕ)
    → 0 < size
    → more ≤ rounds
    → pend ≡ p + span size (suc more)
    → Cuts size (suc more) p pend (link_objects rounds size pend p)
unfolding link_objects
link_objects-Cuts zero size zero p pend pos enough e = record {
  number = refl;
  inside = ((omega arith, omega arith), tt);
  apart = (tt, tt);
}
link_objects-Cuts zero size (suc more) p pend pos enough e = absurd (omega arith)
link_objects-Cuts (suc rounds) size zero p pend pos enough e =
    let last : ltb (p + size) pend ≡ false = ground arith in
    record {
      number = rw last refl;
      inside = rw last ((omega arith, omega arith), tt);
      apart = rw last (tt, tt);
    }
link_objects-Cuts (suc rounds) size (suc more) p pend pos enough e =
    let next : ltb (p + size) pend ≡ true = ground arith in
    let c = link_objects-Cuts rounds size more (p + size) pend pos (omega arith) (omega arith) in
    record {
      number = rw next (ap suc c.number);
      inside =
          rw next
            ((omega arith, omega arith), All-map (λ q h. (omega (arith, h.0), h.1)) _ c.inside);
      apart = rw next (All-map (λ q h. h.0) _ c.inside, c.apart);
    }

-- If so many objects of this size, of at least 8 bytes, make up 4096 bytes, slub_add_page puts as
-- many objects in front of the free list: each lies inside the page, and no two overlap.
pub add_objects-Cuts :
    (size count addr : ℕ) (freehead : List ℕ)
    → (suc count) * size ≡ page_4k_size
    → 8 ≤ size
    → (l : List ℕ) × (add_objects size addr freehead ≡ l ++ freehead)
      × Cuts size (suc count) addr (addr + page_4k_size) l
unfolding add_objects
add_objects-Cuts size count addr freehead divides large = (
  link_objects 512 size (addr + page_4k_size) addr,
  refl,
  link_objects-Cuts 512 size count addr (addr + page_4k_size) (omega arith)
      (omega (arith, span_lem size (suc count), span-bound size (suc count) large))
      (omega (arith, span_lem size (suc count))),
)
