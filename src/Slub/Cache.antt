-- ===== src/Slub/Cache.antt =====
-- The caches of the slab allocator, and the four bits that tell the cache of each page of 4K.
--
-- A free list is the list of its addresses. `page_bits` is kept by nibbles. The array
-- kmalloc_caches has 13 elements, and the code also writes and reads the elements 14 and 15, behind it, which
-- C leaves undefined: kmalloc_caches is a function here, as if that memory were the array's too. So nothing
-- that is proved of these elements holds of the compiled code by itself. The heap is a parameter.
pub mod Large
mod Tests
use yaos.Prelude.{
  ℕ, zero, suc, ◌+◌, ◌-◌, ◌*◌, ◌/◌, ◌%◌, ◌^◌, Bool, true, false, not, ◌&&◌, Option, none, some,
  List, [], ◌∷◌, ltb, leb, ◌==◌, get_or, if◌then◌else◌,
}
use yaos.Prelude.Outcome.{Outcome, ok, halt, spin, Action, ◌>>=◌, ◌>>◌, pure, assert}
use yaos.Slub.{
  Slab, no_slab, zero_size, cache, kmalloc_slab, kmalloc_info, page_4k_size, add_objects,
}

pub record KmemCache : Type 0 where
  pub size : ℕ
  pub idx : ℕ
  pub freehead : List ℕ

-- a byte of `page_bits`
pub record Nibbles : Type 0 where
  pub low : ℕ
  pub high : ℕ

pub record Slubs (W : Type 0) : Type 0 where
  pub kmalloc_caches : ℕ → KmemCache
  pub page_bits : ℕ → Nibbles
  pub world : W

abbrev pub large_idx : ℕ
large_idx = 15

abbrev pub large_next : ℕ
large_next = 14

abbrev pub zero_size_ptr : ℕ
zero_size_ptr = 16

-- `a | b` on the lowest `n` bits
pub or_bits : ℕ → ℕ → ℕ → ℕ
or_bits zero a b = 0
or_bits (suc n) a b = 2 * or_bits n (a / 2) (b / 2) + (if a % 2 == 0 && b % 2 == 0 then 0 else 1)

abbrev pub change_at : {A : Type 0} → (ℕ → A) → ℕ → A → ℕ → A
change_at f k v j = if k == j then v else f j

-- the nibble of the page number `offset`
abbrev pub bits_of : (ℕ → Nibbles) → ℕ → ℕ
bits_of f offset = if offset % 2 == 1 then (f (offset / 2)).high else (f (offset / 2)).low

abbrev pub set_bits : (ℕ → Nibbles) → ℕ → ℕ → ℕ → Nibbles
set_bits f offset x =
    if offset % 2 == 1
    then change_at f (offset / 2) (record (f (offset / 2)) { high = x })
    else change_at f (offset / 2) (record (f (offset / 2)) { low = x })

-- `page_bits[offset / 2] |= idx << 4`, or `|= idx`
abbrev pub or_page : (ℕ → Nibbles) → ℕ → ℕ → ℕ → Nibbles
or_page f offset idx = set_bits f offset (or_bits 4 (bits_of f offset) idx)

abbrev pub one_more : Outcome ℕ → Outcome ℕ
one_more (ok size) = ok (page_4k_size + size)
one_more halt = halt
one_more spin = spin

-- The pages of a large block from the page number `offset` on: the first is counted before the next is
-- looked at. There are at most `pages` of them.
pub large_size : (ℕ → Nibbles) → ℕ → ℕ → Outcome ℕ
large_size f zero offset = spin
large_size f (suc pages) offset =
    let rest = large_size f pages (offset + 1) in
    if bits_of f (offset + 1) == large_next then one_more rest else ok page_4k_size

-- the loop of `__kmalloc_large`, for the `count` pages from `offset` on
abbrev pub mark_next : ℕ → ℕ → (ℕ → Nibbles) → ℕ → Nibbles
mark_next zero offset f = f
mark_next (suc count) offset f = mark_next count (offset + 1) (or_page f offset large_next)

-- `(size + PAGE_4K_MASK) & ~PAGE_4K_MASK`
abbrev pub round_4k : ℕ → ℕ
round_4k size = (size + (page_4k_size - 1)) % 2 ^ 64 / page_4k_size * page_4k_size

-- what `__kmalloc_large` makes of `page_bits`
pub mark_large : ℕ → ℕ → (ℕ → Nibbles) → ℕ → Nibbles
mark_large addr size f =
    let offset = addr / page_4k_size in
    mark_next ((addr + size) % 2 ^ 64 / page_4k_size - (offset + 1)) (offset + 1)
      (or_page f offset large_idx)

module _ {W : Type 0} where
  abbrev pub set_freehead : ℕ → List ℕ → Slubs W → Slubs W
  set_freehead i l s = record s {
    kmalloc_caches = change_at s.kmalloc_caches i (record (s.kmalloc_caches i) { freehead = l });
  }

  pub new_kmalloc_cache : ℕ → Slubs W → Slubs W
  new_kmalloc_cache idx s = record s {
    kmalloc_caches =
        change_at s.kmalloc_caches idx
          (record { size = get_or kmalloc_info idx 0; idx = idx; freehead = [] });
  }

  -- the loop, for the `count` caches from `i` on
  pub create_from : ℕ → ℕ → Slubs W → Slubs W
  create_from zero i s = s
  create_from (suc count) i s =
      let s1 : Slubs W = new_kmalloc_cache i s in
      let s2 : Slubs W = if i == 6 then new_kmalloc_cache 1 s1 else s1 in
      create_from count (i + 1) (if i == 7 then new_kmalloc_cache 2 s2 else s2)

  pub create_kmalloc_caches : Slubs W → Slubs W
  create_kmalloc_caches s =
      new_kmalloc_cache large_next (new_kmalloc_cache large_idx (create_from 10 3 s))

  module _ (heap_alloc_4k : ℕ → Action W ℕ) where
    abbrev pub got_page : ℕ → ℕ → Action (Slubs W) Bool
    got_page i addr s =
        if addr == 0
        then ok (false, s)
        else (do
          assert (ltb (s.kmalloc_caches i).idx 16)
          λ t. ok (
            true,
            record (set_freehead i
                (add_objects (t.kmalloc_caches i).size addr (t.kmalloc_caches i).freehead) t) {
                  page_bits = or_page t.page_bits (addr / page_4k_size) (t.kmalloc_caches i).idx;
                },
          ))
            s

    abbrev pub in_world :
        {A B : Type 0} → Outcome (A × W) → (A → Action (Slubs W) B) → Action (Slubs W) B
    in_world (ok (a, w)) k s = k a (record s { world = w })
    in_world halt k s = halt
    in_world spin k s = spin

    pub slub_add_page : ℕ → Action (Slubs W) Bool
    slub_add_page i s = in_world (heap_alloc_4k page_4k_size s.world) (got_page i) s

    -- `s->freehead = pfree->pnext; return pfree;`
    abbrev pub take : ℕ → List ℕ → Action (Slubs W) ℕ
    take i [] s = halt
    take i (p ∷ rest) s = ok (p, set_freehead i rest s)

    abbrev pub kmalloc_from : ℕ → List ℕ → Action (Slubs W) ℕ
    kmalloc_from i (p ∷ rest) s = take i (p ∷ rest) s
    kmalloc_from i [] s =
        (slub_add_page i >>= λ got t.
        if got then take i (t.kmalloc_caches i).freehead t else ok (0, t))
          s

    pub __kmalloc : ℕ → Action (Slubs W) ℕ
    __kmalloc size s = elim (kmalloc_slab size) [
      | no_slab ↦ ok (0, s)
      | zero_size ↦ ok (zero_size_ptr, s)
      | cache i ↦ kmalloc_from i (s.kmalloc_caches i).freehead s
    ]

    abbrev pub got_large : ℕ → ℕ → Action (Slubs W) ℕ
    got_large size addr s =
        if addr == 0
        then ok (0, s)
        else ok (addr, record s { page_bits = mark_large addr size s.page_bits })

    pub __kmalloc_large : ℕ → Action (Slubs W) ℕ
    __kmalloc_large size s =
        in_world (heap_alloc_4k (round_4k size) s.world) (got_large (round_4k size)) s

    -- The result is null where the code returns ERR_YAOSCALL_NO_MEM.
    pub slub_malloc : ℕ → Action (Slubs W) ℕ
    slub_malloc size s = if ltb page_4k_size size then __kmalloc_large size s else __kmalloc size s

  abbrev pub freed : Outcome W → Action (Slubs W) (Unit {0})
  freed (ok w) s = ok (tt, record s { world = w })
  freed halt s = halt
  freed spin s = spin

  module _ (heap_free_4k : ℕ → ℕ → W → Outcome W) (pages : ℕ) where
    abbrev pub free_large : ℕ → Outcome ℕ → Action (Slubs W) (Unit {0})
    free_large p (ok size) s = freed (heap_free_4k p size s.world) s
    free_large p halt s = halt
    free_large p spin s = spin

    pub __kmfree : ℕ → Action (Slubs W) (Unit {0})
    __kmfree p s =
        if p == zero_size_ptr
        then ok (tt, s)
        else let i = bits_of s.page_bits (p / page_4k_size) in
          if (s.kmalloc_caches i).idx == large_idx
          then free_large p (large_size s.page_bits pages (p / page_4k_size)) s
          else ok (tt, set_freehead i (p ∷ (s.kmalloc_caches i).freehead) s)
