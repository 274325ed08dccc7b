-- ===== src/Slub/Cache/Tests.antt =====
-- A large block of 10000 bytes, from a heap that gives out the address 2M and keeps what is freed.
use yaos.Prelude.{ℕ, ◌/◌, ◌≡◌, refl, List, [], ◌∷◌, arith}
use yaos.Prelude.Outcome.{Outcome, Action, ok, ◌>>=◌}
use yaos.Slub.Cache.{
  Nibbles, KmemCache, new_kmalloc_cache, create_kmalloc_caches, create_from, Slubs, mark_large,
  bits_of, round_4k, __kmalloc_large, __kmfree,
}
use yaos.Slub.Cache.Large.{IsClear, kmalloc_large-kmfree}

-- The world is the list of the blocks freed.
abbrev Blocks : Type 0
Blocks = List (ℕ × ℕ)

abbrev give : ℕ → Action Blocks ℕ
give size w = ok (0x200000, w)

abbrev release : ℕ → ℕ → Blocks → Outcome Blocks
release p size w = ok ((p, size) ∷ w)

abbrev no_marks : ℕ → Nibbles
no_marks i = record { low = 0; high = 0 }

abbrev empty_slubs : Slubs Blocks
empty_slubs = record {
  kmalloc_caches = λ i. record { size = 0; idx = i; freehead = [] };
  page_bits = no_marks;
  world = [];
}

no_marks-IsClear : IsClear no_marks 0x200000 (round_4k 10000 / 4096)
no_marks-IsClear = record {
  nonzero = omega arith;
  aligned = refl;
  fits = omega arith;
  some_page = omega arith;
  clear = λ i le lt. unmarked i;
  stop = omega arith;
}
  where
    unmarked : (i : ℕ) → bits_of no_marks i ≡ 0
    unmarked i = ground arith

large_block_freed :
    (__kmalloc_large give 10000 >>= λ p. __kmfree release 8 p) empty_slubs
    ≡ ok (
      tt,
      record empty_slubs {
        page_bits = mark_large 0x200000 (round_4k 10000) empty_slubs.page_bits;
        world = (0x200000, 12288) ∷ [];
      },
    )
large_block_freed =
    kmalloc_large-kmfree give release 8 10000 0x200000 [] ((0x200000, 12288) ∷ []) empty_slubs refl
      no_marks-IsClear (omega arith) refl refl

abbrev class_of : KmemCache → ℕ × ℕ
class_of c = (c.idx, c.size)

-- The caches get their numbers and sizes; elements 14 and 15 stand behind the array of 13.
create_kmalloc_caches_runs :
    (class_of ((create_kmalloc_caches empty_slubs).kmalloc_caches 2) ≡ (2, 192))
    × (class_of ((create_kmalloc_caches empty_slubs).kmalloc_caches 12) ≡ (12, 4096))
    × (((create_kmalloc_caches empty_slubs).kmalloc_caches 15).idx ≡ 15)
unfolding create_kmalloc_caches create_from new_kmalloc_cache
create_kmalloc_caches_runs = (refl, refl, refl)
