-- ===== src/Slub/Classes.antt =====
-- The cache that serves a size: the table and the bit search agree with the list of ranges.
use yaos.Prelude.{ℕ, ◌-◌, ◌≤◌, ◌<◌, ◌≡◌, leb, if◌then◌else◌, get_or, arith}
use yaos.Slub.{last_set, fls, kmalloc_info, small_index, cache, kmalloc_slab, kmalloc_index}

small : (size : ℕ) → 0 < size → size ≤ 192 → small_index size ≡ kmalloc_index size
unfolding small_index kmalloc_index
small size lo hi = ground arith

low_bits : (x : ℕ) → x < 4096 → fls x ≡ last_set 12 x
unfolding fls last_set
low_bits x lt = ground arith

-- the ranges of `kmalloc_index` above 192
abbrev large_index : ℕ → ℕ
large_index size =
    if leb size 256
    then 8
    else if leb size 512
    then 9
    else if leb size 1024
    then 10
    else if leb size 2048
    then 11
    else 12

large_bits : (size : ℕ) → 192 < size → size ≤ 4096 → last_set 12 (size - 1) ≡ large_index size
unfolding last_set
large_bits size lo hi = ground arith

large_range : (size : ℕ) → 192 < size → size ≤ 4096 → kmalloc_index size ≡ large_index size
unfolding kmalloc_index
large_range size lo hi = ground arith

-- For every size above 0 that the caches serve, up to 4096, the cache that kmalloc_slab takes from
-- the table of small sizes or from the highest bit is the one that kmalloc_index gives by its list
-- of ranges.
pub kmalloc_slab-kmalloc_index :
    (size : ℕ) → 0 < size → size ≤ 4096 → kmalloc_slab size ≡ cache (kmalloc_index size)
unfolding kmalloc_slab
kmalloc_slab-kmalloc_index size lo hi =
    ground (arith, small size, large_range size, large_bits size, low_bits (size - 1))

-- the caches that `create_kmalloc_caches` makes for objects
abbrev pub IsClass : ℕ → Type 0
IsClass idx = (0 < idx) × (idx ≤ 12)

abbrev pub class_size : ℕ → ℕ
class_size idx = get_or kmalloc_info idx 0

fits : (size : ℕ) → 0 < size → size ≤ 4096 → size ≤ class_size (kmalloc_index size)
unfolding kmalloc_index
fits size lo hi = ground arith

least :
    (size idx : ℕ)
    → 0 < size
    → size ≤ 4096
    → IsClass idx
    → size ≤ class_size idx
    → class_size (kmalloc_index size) ≤ class_size idx
unfolding kmalloc_index
least size idx lo hi c f = ground arith

-- The cache that kmalloc_slab gives for a size above 0 and up to 4096 has objects of at least that
-- size, and no cache of objects that are large enough has smaller ones.
pub kmalloc_slab-least :
    (size : ℕ)
    → 0 < size
    → size ≤ 4096
    → (idx : ℕ) × (kmalloc_slab size ≡ cache idx)
      × IsClass idx
      × (size ≤ class_size idx)
      × ((j : ℕ) → IsClass j → size ≤ class_size j → class_size idx ≤ class_size j)
unfolding kmalloc_index
kmalloc_slab-least size lo hi = (
  kmalloc_index size,
  kmalloc_slab-kmalloc_index size lo hi,
  (ground arith, ground arith),
  fits size lo hi,
  λ j. least size j lo hi,
)
