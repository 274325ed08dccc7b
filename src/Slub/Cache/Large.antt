-- ===== src/Slub/Cache/Large.antt =====
-- A large block: the size that is freed is the size that was allocated.
use yaos.Prelude.{
  ℕ, zero, suc, ◌+◌, ◌-◌, ◌*◌, ◌/◌, ◌%◌, ◌^◌, ◌≤◌, ◌<◌, ◌≡◌, ◌≢◌, refl, sym, ap, ◌∙◌, subst, inl,
  inr, Bool, true, false, arith, Bool-cases, ◌==◌, ==_iff, if_true, if_false,
}
use yaos.Prelude.Outcome.{Outcome, ok, Action, ◌>>=◌, >>=-ok}
use native.Mathlib.Decide.{ℕ_discrete}
use yaos.Slub.{page_4k_size}
use yaos.Slub.Cache.{
  Nibbles, Slubs, large_idx, large_next, one_more, zero_size_ptr, or_bits, change_at, set_bits,
  bits_of, or_page, large_size, mark_next, mark_large, round_4k, __kmalloc_large, __kmfree,
  in_world, got_large, free_large, freed,
}

change_at_self : {A : Type 0} (f : ℕ → A) (k : ℕ) (v : A) → change_at f k v k ≡ v
change_at_self f k v = if_true (k == k) _ _ ((==_iff k k).1 refl)

change_at-ne :
    {A : Type 0} (f : ℕ → A) (k j : ℕ) (v : A) → (k == j) ≡ false → change_at f k v j ≡ f j
change_at-ne f k j v ne = if_false (k == j) _ _ ne

is_odd : ℕ → Bool
is_odd o = o % 2 == 1

keeps_low :
    (f : ℕ → Nibbles) (k i x : ℕ) → (change_at f k (record (f k) { high = x }) i).low ≡ (f i).low
keeps_low f k i x = elim (Bool-cases (k == i)) [
  | inl same ↦
      ap (λ (b : Nibbles). b.low) (if_true (k == i) _ _ same)
      ∙ ap (λ n. (f n).low) ((==_iff k i).0 same)
  | inr other ↦ ap (λ (b : Nibbles). b.low) (if_false (k == i) _ _ other)
]

keeps_high :
    (f : ℕ → Nibbles) (k i x : ℕ) → (change_at f k (record (f k) { low = x }) i).high ≡ (f i).high
keeps_high f k i x = elim (Bool-cases (k == i)) [
  | inl same ↦
      ap (λ (b : Nibbles). b.high) (if_true (k == i) _ _ same)
      ∙ ap (λ n. (f n).high) ((==_iff k i).0 same)
  | inr other ↦ ap (λ (b : Nibbles). b.high) (if_false (k == i) _ _ other)
]

set_bits_self : (f : ℕ → Nibbles) (o x : ℕ) → bits_of (set_bits f o x) o ≡ x
set_bits_self f o x = elim (Bool-cases (o % 2 == 1)) [
  | inl odd ↦
      rw odd
        (ap (λ (b : Nibbles). b.high) (change_at_self f (o / 2) (record (f (o / 2)) { high = x })))
  | inr even ↦
      rw even
        (ap (λ (b : Nibbles). b.low) (change_at_self f (o / 2) (record (f (o / 2)) { low = x })))
]

set_bits-ne : (f : ℕ → Nibbles) (o j x : ℕ) → j ≢ o → bits_of (set_bits f o x) j ≡ bits_of f j
set_bits-ne f o j x ne = elim (Bool-cases (o % 2 == 1)) [
  | inl odd ↦ elim (Bool-cases (j % 2 == 1)) [
    | inl odd' ↦
        rw (odd, odd')
          (ap (λ (b : Nibbles). b.high)
            (change_at-ne f (o / 2) (j / 2) (record (f (o / 2)) { high = x })
              (halves o j ne (same_rest o j odd odd'))))
    | inr even' ↦ rw (odd, even') (keeps_low f (o / 2) (j / 2) x)
  ]
  | inr even ↦ elim (Bool-cases (j % 2 == 1)) [
    | inl odd' ↦ rw (even, odd') (keeps_high f (o / 2) (j / 2) x)
    | inr even' ↦
        rw (even, even')
          (ap (λ (b : Nibbles). b.low)
            (change_at-ne f (o / 2) (j / 2) (record (f (o / 2)) { low = x })
              (halves o j ne (same_rest' o j even even'))))
  ]
]
  where
    same_rest : (o j : ℕ) → (o % 2 == 1) ≡ true → (j % 2 == 1) ≡ true → o % 2 ≡ j % 2
    same_rest o j a b = (==_iff (o % 2) 1).0 a ∙ sym ((==_iff (j % 2) 1).0 b)

    same_rest' : (o j : ℕ) → (o % 2 == 1) ≡ false → (j % 2 == 1) ≡ false → o % 2 ≡ j % 2
    same_rest' o j a b = grind (arith, a, b)

    halves : (o j : ℕ) → j ≢ o → o % 2 ≡ j % 2 → (o / 2 == j / 2) ≡ false
    halves o j ne e = grind (arith, ne, e)

-- the nibbles after the loop that marks the pages behind the first
mark_next-before :
    (count o : ℕ) (f : ℕ → Nibbles) (j : ℕ) → j < o → bits_of (mark_next count o f) j ≡ bits_of f j
mark_next-before zero o f j lt = refl
mark_next-before (suc count) o f j lt =
    mark_next-before count (o + 1) (or_page f o large_next) j (omega (arith, lt))
    ∙ set_bits-ne f o j (or_bits 4 (bits_of f o) large_next) (omega (arith, lt))

mark_next-behind :
    (count o : ℕ) (f : ℕ → Nibbles) (j : ℕ)
    → o + count ≤ j
    → bits_of (mark_next count o f) j ≡ bits_of f j
mark_next-behind zero o f j le = refl
mark_next-behind (suc count) o f j le =
    mark_next-behind count (o + 1) (or_page f o large_next) j (omega (arith, le))
    ∙ set_bits-ne f o j (or_bits 4 (bits_of f o) large_next) (omega (arith, le))

-- From a page on, `count` pages that follow are marked as parts of the block, if they had no mark.
mark_next-marked :
    (count o : ℕ) (f : ℕ → Nibbles) (j : ℕ)
    → ((i : ℕ) → o ≤ i → i < o + count → bits_of f i ≡ 0)
    → o ≤ j
    → j < o + count
    → bits_of (mark_next count o f) j ≡ large_next
unfolding or_bits
mark_next-marked zero o f j clear le lt = absurd (omega (arith, le, lt))
mark_next-marked (suc count) o f j clear le lt = elim (ℕ_discrete j o) [
  | yes e ↦
      mark_next-before count (o + 1) (or_page f o large_next) j (omega (arith, e))
      ∙ subst (λ i. bits_of (or_page f o large_next) i ≡ large_next) (sym e)
          (set_bits_self f o (or_bits 4 (bits_of f o) large_next)
            ∙ ap (λ n. or_bits 4 n large_next) (clear o (omega arith) (omega arith)))
  | no ne ↦
      mark_next-marked count (o + 1) (or_page f o large_next) j
        (λ i le' lt'.
          set_bits-ne f o i (or_bits 4 (bits_of f o) large_next) (omega (arith, le'))
          ∙ clear i (omega (arith, le')) (omega (arith, lt')))
        (omega (arith, le, ne)) (omega (arith, lt))
]

differ : (a b : ℕ) → a ≢ b → (a == b) ≡ false
differ a b ne = ground (arith, ne)

-- The walk over the pages of a block counts those that are marked as its parts.
large_size-counts :
    (pages count o : ℕ) (f : ℕ → Nibbles)
    → count < pages
    → ((j : ℕ) → o < j → j ≤ o + count → bits_of f j ≡ large_next)
    → bits_of f (o + count + 1) ≢ large_next
    → large_size f pages o ≡ ok ((count + 1) * page_4k_size)
unfolding large_size
large_size-counts zero count o f enough marked stop = absurd (omega (arith, enough))
large_size-counts (suc pages) zero o f enough marked stop =
    let next : o + 0 + 1 ≡ o + 1 = omega arith in
    if_false (bits_of f (o + 1) == large_next) _ _
      (differ (bits_of f (o + 1)) large_next (subst (λ k. bits_of f k ≢ large_next) next stop))
large_size-counts (suc pages) (suc count) o f enough marked stop =
    let next : o + suc count + 1 ≡ o + 1 + count + 1 = omega arith in
    let size : page_4k_size + (count + 1) * page_4k_size ≡ (suc count + 1) * page_4k_size =
      omega arith in
    if_true (bits_of f (o + 1) == large_next) _ _
      ((==_iff (bits_of f (o + 1)) large_next).1 (marked (o + 1) (omega arith) (omega arith)))
    ∙ ap one_more (
        large_size-counts pages count (o + 1) f (omega (arith, enough))
          (λ j lt le. marked j (omega (arith, lt)) (omega (arith, le)))
          (subst (λ k. bits_of f k ≢ large_next) next stop))
    ∙ ap ok size

-- The block of `k` pages at `addr` can be marked: the pages have no mark yet, and the one behind it is
-- not taken for a part of it.
pub record IsClear (f : ℕ → Nibbles) (addr k : ℕ) : Type 0 where
  pub nonzero : addr ≢ 0
  pub aligned : addr % page_4k_size ≡ 0
  pub fits : addr + k * page_4k_size < 2 ^ 64
  pub some_page : 0 < k
  pub clear : (i : ℕ) → addr / page_4k_size ≤ i → i < addr / page_4k_size + k → bits_of f i ≡ 0
  pub stop : bits_of f (addr / page_4k_size + k) ≢ large_next

end_page :
    (addr k : ℕ)
    → addr % page_4k_size ≡ 0
    → addr + k * page_4k_size < 2 ^ 64
    → (addr + k * page_4k_size) % 2 ^ 64 / page_4k_size ≡ addr / page_4k_size + k
end_page addr k aligned fits = omega (arith, aligned, fits)

module _ (f : ℕ → Nibbles) (addr k : ℕ) (c : IsClear f addr k) where
  abbrev first_marked : ℕ → Nibbles
  first_marked = or_page f (addr / page_4k_size) large_idx

  mark_large-mark_next :
      mark_large addr (k * page_4k_size) f
      ≡ mark_next (k - 1) (addr / page_4k_size + 1) first_marked
  unfolding mark_large
  mark_large-mark_next =
      ap (λ n. mark_next n (addr / page_4k_size + 1) first_marked)
        (ap (λ n. n - (addr / page_4k_size + 1)) (end_page addr k c.aligned c.fits)
          ∙ rest (addr / page_4k_size))
    where
      rest : (a : ℕ) → a + k - (a + 1) ≡ k - 1
      rest a = omega arith

  mark_large-first :
      bits_of (mark_large addr (k * page_4k_size) f) (addr / page_4k_size) ≡ large_idx
  unfolding or_bits
  mark_large-first =
      let a = addr / page_4k_size in
      ap (λ g. bits_of g a) mark_large-mark_next
      ∙ mark_next-before (k - 1) (a + 1) first_marked a (omega arith)
      ∙ set_bits_self f a (or_bits 4 (bits_of f a) large_idx)
      ∙ ap (λ n. or_bits 4 n large_idx) (c.clear a (omega arith) (omega (arith, c.some_page)))

  marked-later : (j : ℕ) → j ≢ addr / page_4k_size → bits_of first_marked j ≡ bits_of f j
  marked-later j ne =
      set_bits-ne f (addr / page_4k_size) j (or_bits 4 (bits_of f (addr / page_4k_size)) large_idx)
        ne

  mark_large-size :
      (pages : ℕ)
      → k ≤ pages
      → large_size (mark_large addr (k * page_4k_size) f) pages (addr / page_4k_size)
        ≡ ok (k * page_4k_size)
  mark_large-size pages enough =
      let a = addr / page_4k_size in
      let g = mark_next (k - 1) (a + 1) first_marked in
      let last : a + (k - 1) + 1 ≡ a + k = omega (arith, c.some_page) in
      let total : (k - 1 + 1) * page_4k_size ≡ k * page_4k_size = omega (arith, c.some_page) in
      let behind : bits_of g (a + k) ≡ bits_of f (a + k) =
        mark_next-behind (k - 1) (a + 1) first_marked (a + k) (omega (arith, c.some_page))
        ∙ marked-later (a + k) (omega (arith, c.some_page)) in
      ap (λ h. large_size h pages a) mark_large-mark_next
      ∙ large_size-counts pages (k - 1) a g (omega (arith, c.some_page, enough))
          (λ j lt le.
            mark_next-marked (k - 1) (a + 1) first_marked j
              (λ i le' lt'.
                marked-later i (omega (arith, le'))
                ∙ c.clear i (omega (arith, le')) (omega (arith, lt')))
              (omega (arith, lt)) (omega (arith, le, c.some_page)))
          (subst (λ n. bits_of g n ≢ large_next) (sym last)
            (subst (λ n. n ≢ large_next) (sym behind) c.stop))
      ∙ ap ok total

module _ {W : Type 0} (heap_alloc_4k : ℕ → Action W ℕ) (heap_free_4k : ℕ → ℕ → W → Outcome W) where
  -- Let the heap answer a request for the size rounded up with a block of at least one page that is not
  -- null, begins at a page and does not pass the end of the addresses. Let its pages, at most `pages` of
  -- them, have no mark, the page behind it not be marked as a part of a block, and element 15 of the
  -- caches have that number. Let the heap take the block back. Then __kmalloc_large and __kmfree of the
  -- address that it returns succeed, and the heap has got back the same block: its address, with the
  -- size that was taken. The marks of the block stay.
  pub kmalloc_large-kmfree :
      (pages size addr : ℕ) (w w' : W) (s : Slubs W)
      → heap_alloc_4k (round_4k size) s.world ≡ ok (addr, w)
      → IsClear s.page_bits addr (round_4k size / page_4k_size)
      → round_4k size / page_4k_size ≤ pages
      → (s.kmalloc_caches large_idx).idx ≡ large_idx
      → heap_free_4k addr (round_4k size) w ≡ ok w'
      → (__kmalloc_large heap_alloc_4k size >>= λ p. __kmfree heap_free_4k pages p) s
        ≡ ok (tt, record s { page_bits = mark_large addr (round_4k size) s.page_bits; world = w' })
  unfolding __kmalloc_large __kmfree
  kmalloc_large-kmfree pages size addr w w' s given c enough large back =
      let n = round_4k size in
      let whole : n / page_4k_size * page_4k_size ≡ n = omega arith in
      let t : Slubs W = record s { page_bits = mark_large addr n s.page_bits; world = w } in
      let first : bits_of t.page_bits (addr / page_4k_size) ≡ large_idx =
        subst (λ m. bits_of (mark_large addr m s.page_bits) (addr / page_4k_size) ≡ large_idx) whole
          (mark_large-first s.page_bits addr (n / page_4k_size) c) in
      let counted : large_size t.page_bits pages (addr / page_4k_size) ≡ ok n =
        subst (λ m. large_size (mark_large addr m s.page_bits) pages (addr / page_4k_size) ≡ ok m)
          whole (mark_large-size s.page_bits addr (n / page_4k_size) c pages enough) in
      let is_large : ((t.kmalloc_caches (bits_of t.page_bits (addr / page_4k_size))).idx
            == large_idx)
          ≡ true =
        ap (λ i. (s.kmalloc_caches i).idx == large_idx) first
        ∙ (==_iff (s.kmalloc_caches large_idx).idx large_idx).1 large in
      let not_zero_size : addr ≢ zero_size_ptr = omega (arith, c.aligned) in
      >>=-ok (__kmalloc_large heap_alloc_4k size) (λ p. __kmfree heap_free_4k pages p) s t addr
        (ap (λ r. in_world heap_alloc_4k r (got_large heap_alloc_4k n) s) given
          ∙ if_false (addr == 0) _ _ (differ addr 0 c.nonzero))
      ∙ if_false (addr == zero_size_ptr) _ _ (differ addr zero_size_ptr not_zero_size)
      ∙ if_true ((t.kmalloc_caches (bits_of t.page_bits (addr / page_4k_size))).idx == large_idx) _
          _ is_large
      ∙ ap (λ r. free_large heap_free_4k pages addr r t) counted
      ∙ ap (λ r. freed r t) back
