-- ===== src/Slub.antt =====
-- The slab allocator, module/mm/slub.c and module/mm/slub.h: size classes, and the objects of a page.
pub mod Cache
pub mod Classes
pub mod Objects
mod Tests
use yaos.Prelude.{
  ℕ, zero, suc, ◌+◌, ◌-◌, ◌*◌, ◌/◌, ◌%◌, ◌^◌, Bool, ◌&&◌, List, [], ◌∷◌, ◌++◌, ltb, leb, ◌==◌,
  if◌then◌else◌, get_or,
}

-- `bsr`: the position of the highest bit set among the lowest `n`, counted from 1, or 0
pub last_set : ℕ → ℕ → ℕ
last_set zero x = 0
last_set (suc n) x = let below = last_set n x in if leb (2 ^ n) x then n + 1 else below

-- on an `int`
pub fls : ℕ → ℕ
fls x = last_set 32 (x % 2 ^ 32)

abbrev pub size_index : List ℕ
size_index =
    3 ∷ 4 ∷ 5 ∷ 5 ∷ 6 ∷ 6 ∷ 6 ∷ 6 ∷ 1 ∷ 1 ∷ 1 ∷ 1 ∷ 7 ∷ 7 ∷ 7 ∷ 7 ∷ 2 ∷ 2 ∷ 2 ∷ 2 ∷ 2 ∷ 2 ∷ 2 ∷ 2
    ∷ []

-- the sizes of the caches
abbrev pub kmalloc_info : List ℕ
kmalloc_info =
    0 ∷ 96 ∷ 192 ∷ 8 ∷ 16 ∷ 32 ∷ 64 ∷ 128 ∷ 256 ∷ 512 ∷ 1024 ∷ 2048 ∷ 4096 ∷ 8192 ∷ 16384 ∷ 32768
    ∷ 65536 ∷ 131072 ∷ 262144 ∷ 524288 ∷ 1048576 ∷ 2097152 ∷ 4194304 ∷ 8388608 ∷ 16777216 ∷ 33554432
    ∷ 67108864 ∷ []

abbrev pub kmalloc_max_size : ℕ
kmalloc_max_size = 2 ^ 23

-- `size_index[size_index_elem(size)]`
pub small_index : ℕ → ℕ
small_index size = get_or size_index ((size - 1) / 8) 0

-- what `kmalloc_slab` points to: nothing, `ZERO_SIZE_PTR`, or an element of `kmalloc_caches`
pub data Slab : Type 0 where
  no_slab : Slab
  zero_size : Slab
  cache : ℕ → Slab

pub kmalloc_slab : ℕ → Slab
kmalloc_slab size =
    if ltb kmalloc_max_size size
    then no_slab
    else if leb size 192
    then (if size == 0 then zero_size else cache (small_index size))
    else cache (fls (size - 1))

-- The tests on constants (`KMALLOC_MIN_SIZE` is 8) hold; above 64M the code stops at `BUG()`, here 0.
pub kmalloc_index : ℕ → ℕ
kmalloc_index size =
    if size == 0
    then 0
    else if leb size 8
    then 3
    else if ltb 64 size && leb size 96
    then 1
    else if ltb 128 size && leb size 192
    then 2
    else if leb size 8
    then 3
    else if leb size 16
    then 4
    else if leb size 32
    then 5
    else if leb size 64
    then 6
    else if leb size 128
    then 7
    else if leb size 256
    then 8
    else if leb size 512
    then 9
    else if leb size 1024
    then 10
    else if leb size (2 * 1024)
    then 11
    else if leb size (4 * 1024)
    then 12
    else if leb size (8 * 1024)
    then 13
    else if leb size (16 * 1024)
    then 14
    else if leb size (32 * 1024)
    then 15
    else if leb size (64 * 1024)
    then 16
    else if leb size (128 * 1024)
    then 17
    else if leb size (256 * 1024)
    then 18
    else if leb size (512 * 1024)
    then 19
    else if leb size (1024 * 1024)
    then 20
    else if leb size (2 * 1024 * 1024)
    then 21
    else if leb size (4 * 1024 * 1024)
    then 22
    else if leb size (8 * 1024 * 1024)
    then 23
    else if leb size (16 * 1024 * 1024)
    then 24
    else if leb size (32 * 1024 * 1024)
    then 25
    else if leb size (64 * 1024 * 1024)
    then 26
    else 0

abbrev pub page_4k_size : ℕ
page_4k_size = 0x1000

-- The loop of `slub_add_page`: the objects linked from `pfree` on, as long as the next one starts
-- before `pend`. The smallest object has 8 bytes, so a page is done in 512 rounds.
pub link_objects : ℕ → ℕ → ℕ → ℕ → List ℕ
link_objects zero size pend pfree = pfree ∷ []
link_objects (suc rounds) size pend pfree =
    let rest = link_objects rounds size pend (pfree + size) in
    if ltb (pfree + size) pend then pfree ∷ rest else pfree ∷ []

-- the free list of a cache after `slub_add_page` has got the page at `addr`
pub add_objects : ℕ → ℕ → List ℕ → List ℕ
add_objects size addr freehead = link_objects 512 size (addr + page_4k_size) addr ++ freehead
