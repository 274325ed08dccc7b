-- ===== src/Vm/Tests.antt =====
-- Runs of the virtual memory areas, and their theorems at a list with one hole of four pages.
use yaos.Prelude.{ℕ, ◌*◌, ◌+◌, ◌≡◌, refl, false, none, [], ◌∷◌, arith, count_if}
use yaos.Prelude.Outcome.{ok, spin, ◌>>=◌, Returns}
use yaos.Phymem.{page_size}
use yaos.Holes.{Hole, Holes, chain, first_fit, store, carve}
use yaos.Holes.Region.{slots-chain}
use yaos.Vm.{alloc_linear, search_linear, free_linear, init_vm, round_page}
use yaos.Vm.Linear.{IsLinear, Answered, alloc_linear-Answered, alloc_linear-deadlock}
use yaos.Vm.Release.{IsFreeable, Returned, free_linear-Returned, init_vm-Returned}
use yaos.Holes.Weigh.{within, cover}

abbrev area : Hole
area = record { slot = 0; addr = 8 * page_size; size = 4 * page_size; orgin_size = 4 * page_size }

abbrev areas : Holes
areas = record { pfree = chain 1 9; phead = area ∷ []; locked = false }

areas-IsLinear : IsLinear areas
areas-IsLinear = record {
  heap = record {
    nodes = λ k. ground (arith, slots-chain k 1 9);
    ordered = (tt, tt);
    blocks = (
      record {
        nonempty = omega arith;
        positive = omega arith;
        fits = omega arith;
        aligned = refl;
        whole = refl;
      },
      tt,
    );
  };
  paged = ((refl, refl), tt);
}

-- A page and a byte are rounded up to two pages.
alloc_linear_runs :
    alloc_linear (page_size + 1) areas
    ≡ ok (
      8 * page_size,
      record areas { phead = record area { addr = 10 * page_size; size = 2 * page_size } ∷ [] },
    )
unfolding alloc_linear search_linear first_fit carve store
alloc_linear_runs = refl

too_large : first_fit (round_page (5 * page_size)) areas.phead ≡ none
unfolding first_fit
too_large = refl

alloc_linear-Answered_example :
    Returns (Answered areas (2 * page_size)) (alloc_linear (page_size + 1) areas)
alloc_linear-Answered_example =
    alloc_linear-Answered areas (page_size + 1) refl (omega arith) (omega arith) areas-IsLinear

alloc_linear-deadlock_example :
    (alloc_linear (5 * page_size) >>= λ addr. alloc_linear 1) areas ≡ spin
alloc_linear-deadlock_example = alloc_linear-deadlock areas (5 * page_size) 1 refl too_large

freeable : IsFreeable areas (2 * page_size) page_size
freeable = record {
  vacant = record {
    nonempty = omega arith;
    positive = omega arith;
    fits = omega arith;
    aligned = refl;
    whole = refl;
    vacant = λ a i. ground arith;
  };
  aligned = refl;
  whole = refl;
}

free_linear_runs :
    (t : Holes) × (free_linear (2 * page_size) page_size areas ≡ ok (tt, t))
    × Returned areas (2 * page_size) page_size t
free_linear_runs =
    free_linear-Returned areas (2 * page_size) page_size
      (record { slot = 1; addr = 0; size = 0; orgin_size = 0 }) (chain 2 8) areas-IsLinear refl
      freeable refl

init_vm_runs :
    (t : Holes) × (init_vm (8 * page_size) page_size areas ≡ ok (tt, t))
    × IsLinear t
    × (t.locked ≡ false)
    × ((a : ℕ) → cover a t.phead ≡ count_if (within (8 * page_size) page_size a))
init_vm_runs =
    init_vm-Returned areas (8 * page_size) page_size (omega arith) (omega arith) (omega arith) refl
      refl
