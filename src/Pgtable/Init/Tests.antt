-- ===== src/Pgtable/Init/Tests.antt =====
-- A run of `init_pml4`, with tables from a region that is used up in order.
use yaos.Prelude.{
  ℕ, ◌+◌, ◌-◌, ◌*◌, ◌/◌, ◌%◌, ◌^◌, ◌≤◌, ◌<◌, ◌≡◌, ◌≢◌, refl, sym, subst, inl, inr, arith, ◌==◌,
  if◌then◌else◌,
}
use yaos.Prelude.Outcome.{Outcome, ok, halt, spin, Action}
use yaos.Pgtable.{Paging, get_pte_with_addr, map_page_p2v, table_of, new_table}
use yaos.Pgtable.Map.{translation}
use yaos.Pgtable.{page_2m, rw_flags}
use yaos.Pgtable.Tables.{Role, no_table, root_table, pdp_table, pd_table}
use yaos.Pgtable.Alloc.{IsPaging}
use yaos.Pgtable.Init.First.{pd_at, IsStatic, below_four}
use yaos.Pgtable.Init.Identity.{init_pml4-IsPaging}
use yaos.Pgtable.Init.{Statics, init_pml4, init_first_4g, write_rows, write_cr3, map_above}

abbrev next_page : ℕ → Action ℕ ℕ
next_page size w = ok (w * 4096, w + 1)

abbrev blank : Paging ℕ
blank = record { mem = λ a. 0; pml4 = 0x1000; cr3 = 0; heap = 2 }

abbrev found : ℕ → Outcome (Unit {0} × Paging ℕ) → ℕ
found a (ok (_, s)) = translation a s
found a halt = 2
found a spin = 3

abbrev statics : Statics
statics = record {
  first_pdp = 0x10000;
  first_pd = 0x11000;
  second_pd = 0x12000;
  third_pd = 0x13000;
  fourth_pd = 0x14000;
}

abbrev start : Action (Paging ℕ) (Unit {0})
start = init_pml4 next_page statics 4 0x100800000

-- Below 2G an address has its own page; the product for 2G overflows, and its entry is extended by its sign. Above
-- 4G the pages are mapped up to the last, which is not.
init_runs :
    (found 0x40200000 (start blank) ≡ 0x40200083)
    × (found 0x80000000 (start blank) ≡ 0xffffffff80000083)
    × (found 0x100400000 (start blank) ≡ 0x100400083)
    × (found 0x100600000 (start blank) ≡ 0)
unfolding init_pml4 init_first_4g write_rows write_cr3 map_above map_page_p2v table_of new_table
    get_pte_with_addr
init_runs = (refl, refl, refl, refl)

abbrev static_role : ℕ → Role
static_role q =
    if q == 0x1000
    then root_table
    else if q == 0x10000
    then pdp_table 0
    else if q == 0x11000
    then pd_table 0 0
    else if q == 0x12000
    then pd_table 0 1
    else if q == 0x13000
    then pd_table 0 2
    else if q == 0x14000
    then pd_table 0 3
    else no_table

abbrev Below : ℕ → ℕ → Type 0
Below w q = q < 0x20000

by_number : (P : ℕ → Type 0) → P 0 → P 1 → P 2 → P 3 → (n : ℕ) → n < 4 → P n
by_number P a b c d n lt = elim (below_four n lt) [
  | inl e ↦ subst P (sym e) a
  | inr (inl e) ↦ subst P (sym e) b
  | inr (inr (inl e)) ↦ subst P (sym e) c
  | inr (inr (inr e)) ↦ subst P (sym e) d
]

static_role-below : (q : ℕ) → static_role q ≢ no_table → q < 0x20000
static_role-below q = ground arith

statics-IsStatic : IsStatic statics 0x1000 (Below 2)
statics-IsStatic = record {
  role = static_role;
  root_role = refl;
  pdp_role = refl;
  pd_role = by_number (λ n. static_role (pd_at statics n) ≡ pd_table 0 n) refl refl refl refl;
  root_aligned = refl;
  pdp_aligned = refl;
  pd_aligned = by_number (λ n. pd_at statics n % 4096 ≡ 0) refl refl refl refl;
  some_pdp = omega arith;
  some_pd =
      by_number (λ n. pd_at statics n ≢ 0) (omega arith) (omega arith) (omega arith) (omega arith);
  held = static_role-below;
}

init_pml4-IsPaging_example :
    (t : Paging ℕ) × (init_pml4 next_page statics 9 0x8000000 blank ≡ ok (tt, t))
    × IsPaging (λ w. w ≡ 2) Below 0x1000 t
    × ((a : ℕ) → a < 2 ^ 31 → translation a t ≡ a / page_2m * page_2m + rw_flags)
    × ((a : ℕ)
        → 2 ^ 31 ≤ a
        → a < 2 ^ 32
        → translation a t ≡ a / page_2m * page_2m + (2 ^ 64 - 2 ^ 32) + rw_flags)
init_pml4-IsPaging_example =
    init_pml4-IsPaging (λ w. w ≡ 2) Below next_page statics blank statics-IsStatic 9 0x8000000
      (omega arith) refl
