-- ===== src/Slub/Tests.antt =====
-- The theorems on the slab allocator at some sizes.
use yaos.Prelude.{ℕ, ◌+◌, ◌*◌, ◌≡◌, ◌≤◌, refl, length, List, [], ◌∷◌, ◌++◌, arith}
use yaos.Slub.{add_objects, link_objects, page_4k_size, cache, kmalloc_slab, kmalloc_index}
use yaos.Slub.Objects.{Cuts, add_objects-Cuts}
use yaos.Slub.Classes.{IsClass, class_size, kmalloc_slab-kmalloc_index, kmalloc_slab-least}

kmalloc_index_runs : kmalloc_slab 100 ≡ cache (kmalloc_index 100)
kmalloc_index_runs = kmalloc_slab-kmalloc_index 100 (omega arith) (omega arith)

kmalloc_slab_runs :
    (idx : ℕ) × (kmalloc_slab 600 ≡ cache idx)
    × IsClass idx
    × (600 ≤ class_size idx)
    × ((j : ℕ) → IsClass j → 600 ≤ class_size j → class_size idx ≤ class_size j)
kmalloc_slab_runs = kmalloc_slab-least 600 (omega arith) (omega arith)

add_objects-Cuts_example :
    (l : List ℕ) × (add_objects 1024 0x200000 (8 ∷ []) ≡ l ++ 8 ∷ [])
    × Cuts 1024 4 0x200000 (0x200000 + page_4k_size) l
add_objects-Cuts_example = add_objects-Cuts 1024 3 0x200000 (8 ∷ []) refl (omega arith)

-- 43 objects of 96 bytes are linked from a page of 4096: the last one ends 32 bytes behind it.
overrun : length (add_objects 96 0x200000 []) * 96 ≡ page_4k_size + 32
unfolding add_objects link_objects
overrun = refl
