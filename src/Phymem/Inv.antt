-- ===== src/Phymem/Inv.antt =====
-- The invariant of the page allocator, and what one round of `alloc_phy_page` does to the bitmap.
use yaos.Prelude.{
  ℕ, ◌+◌, ◌/◌, ◌%◌, ◌^◌, ◌<◌, ◌≡◌, ◌≢◌, ◌∙◌, Bool, false, not, ◌&&◌, arith, if◌then◌else◌, ◌==◌,
  count_if, length,
}
use native.Mathlib.Decide.{ℕ_discrete}
use yaos.Bitmap.{test_bit, write_bit}
use yaos.Bitmap.Laws.{
  AreWords, length-write, write_bit-AreWords, test_bit-write_self, test_bit-write_ne,
}
use yaos.Bitmap.Ones.{all_ones, all_ones-write}
use yaos.Phymem.{Phymem, page_size}

-- `large`: at least 64 pages, so that the bitmap has two words and `pnow` cannot leave it. `origin`:
-- the page at address 0 is never free, since its address stands for no memory. `bounded`: the pages lie below 2^64.
pub record IsValid (s : Phymem) : Type 0 where
  pub words : AreWords s.pgbits
  pub counted : s.pages ≡ all_ones s.pgbits
  pub now_in : s.pnow < length s.pgbits
  pub max_in : s.pmax < length s.pgbits
  pub large : 1 < length s.pgbits
  pub fits : s.max_phy_addr / page_size / 64 < length s.pgbits
  pub origin : test_bit 0 s.pgbits ≡ false
  pub bounded : length s.pgbits < 2 ^ 37

abbrev pub is_free : Phymem → ℕ → Bool
is_free s k = test_bit k s.pgbits

-- the page that a returned address stands for
abbrev pub taken : ℕ → ℕ → Bool
taken addr k = not (addr == 0) && (addr / page_size == k)

-- `addr` was free and no longer is, and nothing else changed; all is unchanged if it is 0.
abbrev pub Took : Phymem → ℕ → Phymem → Type 0
Took s addr s' =
    (addr % page_size ≡ 0)
    × ((k : ℕ) → count_if (is_free s k) ≡ count_if (is_free s' k) + count_if (taken addr k))

module _ {s : Phymem} (v : IsValid s) where
  pub write-IsValid :
      (nr n : ℕ) (b : Bool)
      → nr ≢ 0
      → nr / 64 < length s.pgbits
      → n + count_if (test_bit nr s.pgbits) ≡ s.pages + count_if b
      → IsValid (record s { pgbits = write_bit nr b s.pgbits; pages = n })
  write-IsValid nr n b ne h e =
      let same = length-write s.pgbits nr b in
      record {
        words = write_bit-AreWords s.pgbits v.words nr b h;
        counted = omega (arith, all_ones-write s.pgbits nr b v.words h, v.counted);
        now_in = omega (arith, same, v.now_in);
        max_in = omega (arith, same, v.max_in);
        large = omega (arith, same, v.large);
        fits = omega (arith, same, v.fits);
        origin = test_bit-write_ne s.pgbits v.words nr 0 b h ne ∙ v.origin;
        bounded = omega (arith, same, v.bounded);
      }

  pub count-write :
      (nr k : ℕ) (b : Bool)
      → nr / 64 < length s.pgbits
      → count_if (test_bit k (write_bit nr b s.pgbits))
        ≡ (if nr == k then count_if b else count_if (test_bit k s.pgbits))
  count-write nr k b h = elim (ℕ_discrete nr k) [
    | yes same ↦ ground (arith, test_bit-write_self s.pgbits v.words nr b h)
    | no other ↦ ground (arith, test_bit-write_ne s.pgbits v.words nr k b h other)
  ]

  pub move-IsValid : (now : ℕ) → now < length s.pgbits → IsValid (record s { pnow = now })
  move-IsValid now h = record {
    words = v.words;
    counted = v.counted;
    now_in = h;
    max_in = v.max_in;
    large = v.large;
    fits = v.fits;
    origin = v.origin;
    bounded = v.bounded;
  }
