-- ===== src/Vm/Release.antt =====
-- `free_linear` takes pages back, and `init_vm` begins with those it is given.
use yaos.Prelude.{
  ℕ, ◌+◌, ◌%◌, ◌^◌, ◌<◌, ◌≡◌, refl, true, false, ◌&&◌, List, ◌∷◌, arith, subst, count_if, All, ◌∙◌,
}
use yaos.Prelude.Outcome.{ok, WhenOk}
use yaos.Phymem.{page_size}
use yaos.Holes.{Hole, Holes, init_holes, chain}
use yaos.Holes.Weigh.{within, cover}
use yaos.Holes.Order.{All-link_sorted}
use yaos.Holes.Region.{init_holes-HasNodes}
use yaos.Kheap.{aligned_4k, free_kheap_4k}
use yaos.Kheap.Free.{IsVacant, free_kheap_4k-Added}
use yaos.Vm.{aligned_page, free_linear, init_vm, max_linear_hole}
use yaos.Vm.Linear.{IsPaged, IsLinear}

-- What may be given back: whole pages that are not free.
pub record IsFreeable (s : Holes) (addr size : ℕ) : Type 0 where
  pub vacant : IsVacant s addr size
  pub aligned : addr % page_size ≡ 0
  pub whole : size % page_size ≡ 0

free_linear-eq :
    (s : Holes) (addr size : ℕ)
    → IsFreeable s addr size
    → free_linear addr size s ≡ free_kheap_4k addr size s
unfolding free_linear free_kheap_4k
free_linear-eq s addr size f =
    let pages : (aligned_page addr && aligned_page size) ≡ true =
      ground (arith, f.aligned, f.whole) in
    let units : (aligned_4k addr && aligned_4k size) ≡ true =
      ground (arith, f.vacant.aligned, f.vacant.whole) in
    rw (pages, units) refl

free_linear-IsPaged :
    (s : Holes) (addr size : ℕ) (q : Hole) (rest : List Hole)
    → IsLinear s
    → s.locked ≡ false
    → IsFreeable s addr size
    → s.pfree ≡ q ∷ rest
    → WhenOk (λ (r : Unit {0} × Holes). All IsPaged r.1.phead) (free_linear addr size s)
unfolding free_linear
free_linear-IsPaged s addr size q rest v unlocked f e =
    let pages : (aligned_page addr && aligned_page size) ≡ true =
      ground (arith, f.aligned, f.whole) in
    rw (pages, e, unlocked)
      (All-link_sorted IsPaged (record q { addr = addr; size = size; orgin_size = size }) s.phead
        (f.aligned, f.whole) v.paged)

-- The pages are given back: the lock is released, the holes are well formed, and exactly the
-- addresses of the pages are free once more.
abbrev pub Returned : Holes → ℕ → ℕ → Holes → Type 0
Returned s addr size t =
    IsLinear t
    × (t.locked ≡ false)
    × ((a : ℕ) → cover a t.phead ≡ count_if (within addr size a) + cover a s.phead)

-- free_linear of whole pages that are not free, with the lock free, the holes well formed and a node
-- left, returns with the lock released and the holes ordered, apart and of whole pages, and exactly
-- the addresses of the pages are free once more.
pub free_linear-Returned :
    (s : Holes) (addr size : ℕ) (q : Hole) (rest : List Hole)
    → IsLinear s
    → s.locked ≡ false
    → IsFreeable s addr size
    → s.pfree ≡ q ∷ rest
    → (t : Holes) × (free_linear addr size s ≡ ok (tt, t)) × Returned s addr size t
free_linear-Returned s addr size q rest v unlocked f e =
    let (t, out, (heap, lock, ledger)) =
      free_kheap_4k-Added s v.heap unlocked addr size f.vacant q rest e in
    let out' : free_linear addr size s ≡ ok (tt, t) = free_linear-eq s addr size f ∙ out in
    let paged : All IsPaged t.phead =
      subst (WhenOk λ (r : Unit {0} × Holes). All IsPaged r.1.phead) out'
        (free_linear-IsPaged s addr size q rest v unlocked f e) in
    (t, out', (record { heap = heap; paged = paged }, lock, ledger))

-- init_vm of whole pages, not at 0 and below 2^64, returns with the lock released and the holes
-- ordered, apart and of whole pages, and exactly the addresses of the pages are free, once.
pub init_vm-Returned :
    (s : Holes) (addr size : ℕ)
    → 0 < addr
    → 0 < size
    → addr + size < 2 ^ 64
    → addr % page_size ≡ 0
    → size % page_size ≡ 0
    → (t : Holes) × (init_vm addr size s ≡ ok (tt, t))
      × IsLinear t
      × (t.locked ≡ false)
      × ((a : ℕ) → cover a t.phead ≡ count_if (within addr size a))
unfolding init_vm init_holes
init_vm-Returned s addr size positive nonempty fits aligned whole =
    let empty : Holes = init_holes max_linear_hole in
    let v : IsLinear empty = record {
      heap = record { nodes = init_holes-HasNodes max_linear_hole; ordered = tt; blocks = tt };
      paged = tt;
    } in
    let f : IsFreeable empty addr size = record {
      vacant = record {
        nonempty = nonempty;
        positive = positive;
        fits = fits;
        aligned = omega arith;
        whole = omega arith;
        vacant = λ a i. refl;
      };
      aligned = aligned;
      whole = whole;
    } in
    let (t, out, (linear, lock, ledger)) =
      free_linear-Returned empty addr size (record { slot = 0; addr = 0; size = 0; orgin_size = 0 })
        (chain 1 9) v refl f refl in
    (t, out, linear, lock, λ a. omega (arith, ledger a))
