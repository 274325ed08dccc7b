-- ===== src/Pgtable/Map.antt =====
-- `map_page_p2v` on the tree of tables, as `get_pte_with_addr` sees it.
use yaos.Prelude.{
  ℕ, ◌+◌, ◌/◌, ◌%◌, ◌^◌, ◌<◌, ◌≡◌, ◌≢◌, refl, sym, ap, ap₂, ◌∙◌, subst, ◌⊎◌, inl, inr, Bool, ◌&&◌,
  Option, none, some, arith, Bool-cases, ltb, ◌==◌, if◌then◌else◌,
}
use yaos.Prelude.Outcome.{Action, ◌>>=◌, ◌>>◌, pure, assert, WhenOk, WhenOk->>=, >>-ok}
use yaos.Pgtable.{
  Paging, base_of, entry_at, write_word, pml4_index, pdp_index, pd_index, page_2m, success, e_nomem,
  get_pte_with_addr, store, table_of, with_table, map_page_p2v, map_page_p2v_rw, rw_flags,
}
use yaos.Pgtable.Tables.{pdp, pd, entry}
use yaos.Pgtable.Leaf.{at_indices, leaf-IsTree, leaf-entry}
use yaos.Pgtable.Alloc.{IsAllocator, IsPaging}
use yaos.Pgtable.Stage.{Stage, First, Second, first_lem, second_lem}

-- what the processor finds for an address: the entry, or 0 where a table is missing
abbrev pub translation : {W : Type 0} → ℕ → Paging W → ℕ
translation addr s = if get_pte_with_addr addr s == 0 then 0 else s.mem (get_pte_with_addr addr s)

-- Two addresses lie in the same page of 2M; of an address, 48 bits count.
abbrev pub same_page : ℕ → ℕ → Bool
same_page a b = a / page_2m % 2 ^ 27 == b / page_2m % 2 ^ 27

three_indices :
    (x y : ℕ)
    → at_indices
        (x / 2 ^ 18 % 512)
        (x / 2 ^ 9 % 512)
        (x % 512)
        (y / 2 ^ 18 % 512)
        (y / 2 ^ 9 % 512)
        (y % 512)
      ≡ (x % 2 ^ 27 == y % 2 ^ 27)
three_indices x y = ground arith

shift :
    (a : ℕ)
    → (pml4_index a ≡ a / page_2m / 2 ^ 18 % 512) × (pdp_index a ≡ a / page_2m / 2 ^ 9 % 512)
shift a = (omega arith, omega arith)

indices-page :
    (a b : ℕ)
    → at_indices (pml4_index a) (pdp_index a) (pd_index a) (pml4_index b) (pdp_index b) (pd_index b)
      ≡ same_page a b
indices-page a b =
    ap₂ (λ n l. at_indices n l (pd_index a) (pml4_index b) (pdp_index b) (pd_index b)) (shift a).0
      (shift a).1
    ∙ ap₂
        (λ n l.
          at_indices (a / page_2m / 2 ^ 18 % 512) (a / page_2m / 2 ^ 9 % 512) (pd_index a) n l
            (pd_index b))
        (shift b).0 (shift b).1
    ∙ three_indices (a / page_2m) (b / page_2m)

follow :
    (mem : ℕ → ℕ) (x y k : ℕ)
    → (if (if x == 0 then 0 else if y == 0 then 0 else entry_at y k) == 0
        then 0
        else mem (if x == 0 then 0 else if y == 0 then 0 else entry_at y k))
      ≡ (if x == 0 then 0 else if y == 0 then 0 else mem (entry_at y k))
follow mem x y k = ground arith

pub translation-entry :
    {W : Type 0} (root addr : ℕ) (s : Paging W)
    → base_of s.cr3 ≡ root
    → translation addr s ≡ entry s.mem root (pml4_index addr) (pdp_index addr) (pd_index addr)
unfolding get_pte_with_addr
translation-entry root addr s e =
    follow s.mem (pdp s.mem (base_of s.cr3) (pml4_index addr))
      (pd s.mem (base_of s.cr3) (pml4_index addr) (pdp_index addr)) (pd_index addr)
    ∙ ap (λ r. entry s.mem r (pml4_index addr) (pdp_index addr) (pd_index addr)) e

-- What the processor finds does not hang on the allocator.
pub get_pte-heap :
    {W : Type 0} (addr : ℕ) (s : Paging W) (h : W)
    → get_pte_with_addr addr (record s { heap = h }) ≡ get_pte_with_addr addr s
unfolding get_pte_with_addr
get_pte-heap addr s h = refl

pub translation-heap :
    {W : Type 0} (addr : ℕ) (s : Paging W) (h : W)
    → translation addr (record s { heap = h }) ≡ translation addr s
unfolding get_pte_with_addr
translation-heap addr s h = refl

module _ {W : Type 0} (Good : W → Type 0) (Held : W → ℕ → Type 0) (root : ℕ)
    (alloc_4k : ℕ → Action W ℕ) (law : IsAllocator alloc_4k Good Held) where
  -- what a mapping that ends with `r` has done
  abbrev pub Mapped : ℕ → ℕ → Paging W → ℕ × Paging W → Type 0
  Mapped vaddr pte s (r, t) =
      IsPaging Good Held root t
      × ((r ≡ success) ⊎ (r ≡ e_nomem))
      × ((a : ℕ)
          → translation a t ≡ (if r == success && same_page vaddr a then pte else translation a s))

  unchanged_lem :
      (vaddr pte : ℕ) (s t : Paging W)
      → IsPaging Good Held root s
      → Stage Good Held root s t
      → Mapped vaddr pte s (e_nomem, t)
  unchanged_lem vaddr pte s t v (v', same) = (
    v',
    inr refl,
    λ a.
        translation-entry root a t v'.in_use
        ∙ same (pml4_index a) (pdp_index a) (pd_index a) (omega arith) (omega arith) (omega arith)
        ∙ sym (translation-entry root a s v.in_use),
  )

  leaf-Mapped :
      (vaddr pte : ℕ) (s t : Paging W)
      → IsPaging Good Held root s
      → Stage Good Held root s t
      → pdp t.mem root (pml4_index vaddr) ≢ 0
      → pd t.mem root (pml4_index vaddr) (pdp_index vaddr) ≢ 0
      → WhenOk (Mapped vaddr pte s) (
          (store
                (entry_at (pd t.mem root (pml4_index vaddr) (pdp_index vaddr)) (pd_index vaddr))
                pte
              >> pure success)
            t)
  leaf-Mapped vaddr pte s t v (v', same) e e' =
      let n = pml4_index vaddr in
      let l = pdp_index vaddr in
      let k = pd_index vaddr in
      let lt : n < 512 = omega arith in
      let lt' : l < 512 = omega arith in
      let lt2 : k < 512 = omega arith in
      (
        record {
          root_at = v'.root_at;
          in_use = v'.in_use;
          tree = leaf-IsTree t.mem root v'.tree n l k pte lt lt' lt2 e e';
          good = v'.good;
        },
        inl refl,
        λ a.
            translation-entry root a
              (record t { mem = write_word t.mem (entry_at (pd t.mem root n l) k) pte }) v'.in_use
            ∙ leaf-entry t.mem root v'.tree n l k pte lt lt' lt2 e e' (pml4_index a) (pdp_index a)
                (pd_index a) (omega arith) (omega arith) (omega arith)
            ∙ ap₂ (λ b x. if b then pte else x) (indices-page vaddr a)
                (same (pml4_index a) (pdp_index a) (pd_index a) (omega arith) (omega arith)
                    (omega arith)
                  ∙ sym (translation-entry root a s v.in_use)),
      )

  leaf_step : (vaddr pte : ℕ) → ℕ → Action (Paging W) ℕ
  leaf_step vaddr pte p_pd = store (entry_at p_pd (pd_index vaddr)) pte >> pure success

  pdp_step : (vaddr pte : ℕ) → ℕ → Action (Paging W) ℕ
  pdp_step vaddr pte p_pdp =
      table_of alloc_4k (entry_at p_pdp (pdp_index vaddr))
      >>= with_table alloc_4k (leaf_step vaddr pte)

  Stage-trans :
      (s t u : Paging W)
      → Stage Good Held root s t
      → Stage Good Held root t u
      → Stage Good Held root s u
  Stage-trans s t u (_, same) (v, same') = (v, λ i j k a b c. same' i j k a b c ∙ same i j k a b c)

  second-Mapped :
      (vaddr pte : ℕ) (s t : Paging W)
      → IsPaging Good Held root s
      → Stage Good Held root s t
      → pdp t.mem root (pml4_index vaddr) ≢ 0
      → WhenOk (Mapped vaddr pte s) (pdp_step vaddr pte (pdp t.mem root (pml4_index vaddr)) t)
  unfolding pdp_step leaf_step
  second-Mapped vaddr pte s t v stage ne =
      let n = pml4_index vaddr in
      let l = pdp_index vaddr in
      WhenOk->>= (Second Good Held root n l t) (Mapped vaddr pte s)
        (table_of alloc_4k (entry_at (pdp t.mem root n) l))
        (with_table alloc_4k (leaf_step vaddr pte)) t
        (second_lem Good Held root alloc_4k law n l (omega arith) (omega arith) t stage.0 ne) finish
    where
      finish :
          (o : Option ℕ) (u : Paging W)
          → Second Good Held root (pml4_index vaddr) (pdp_index vaddr) t (o, u)
          → WhenOk (Mapped vaddr pte s) (with_table alloc_4k (leaf_step vaddr pte) o u)
      finish none u h = unchanged_lem vaddr pte s u v (Stage-trans s t u stage h)
      finish (some p) u (h, there, e, some_pd) =
          subst (λ p. WhenOk (Mapped vaddr pte s) (leaf_step vaddr pte p u)) e
            (leaf-Mapped vaddr pte s u v (Stage-trans s t u stage h) there
              (λ z. some_pd (sym e ∙ z)))

  tables_step : (vaddr pte : ℕ) → ℕ → Action (Paging W) ℕ
  tables_step vaddr pte r =
      table_of alloc_4k (entry_at r (pml4_index vaddr)) >>= with_table alloc_4k (pdp_step vaddr pte)

  first-Mapped :
      (vaddr pte : ℕ) (s : Paging W)
      → IsPaging Good Held root s
      → WhenOk (Mapped vaddr pte s) (tables_step vaddr pte root s)
  unfolding tables_step
  first-Mapped vaddr pte s v =
      WhenOk->>= (First Good Held root (pml4_index vaddr) s) (Mapped vaddr pte s)
        (table_of alloc_4k (entry_at root (pml4_index vaddr)))
        (with_table alloc_4k (pdp_step vaddr pte)) s
        (first_lem Good Held root alloc_4k law (pml4_index vaddr) (omega arith) s v) finish
    where
      finish :
          (o : Option ℕ) (t : Paging W)
          → First Good Held root (pml4_index vaddr) s (o, t)
          → WhenOk (Mapped vaddr pte s) (with_table alloc_4k (pdp_step vaddr pte) o t)
      finish none t h = unchanged_lem vaddr pte s t v h
      finish (some p) t (h, e, ne) =
          subst (λ p. WhenOk (Mapped vaddr pte s) (pdp_step vaddr pte p t)) e
            (second-Mapped vaddr pte s t v h (λ z. ne (sym e ∙ z)))

  -- Mapping a page keeps the tables a tree of which no two parts share memory. It returns OK or
  -- E_NOMEM. With OK, what `get_pte_with_addr` finds for an address is the new entry if the address lies
  -- in the page of 2M that was mapped, and is what it was for every other address; with E_NOMEM, which
  -- may leave new empty tables behind, it is what it was for all.
  pub map_page_p2v-Mapped :
      (paddr vaddr flag : ℕ) (s : Paging W)
      → IsPaging Good Held root s
      → WhenOk (Mapped vaddr (paddr + flag) s) (map_page_p2v alloc_4k paddr vaddr flag s)
  unfolding map_page_p2v tables_step pdp_step leaf_step
  map_page_p2v-Mapped paddr vaddr flag s v = elim (Bool-cases (paddr % 4096 == 0)) [
    | inr e ↦ rw (e, ◌>>◌, ◌>>=◌) tt
    | inl e ↦ elim (Bool-cases (ltb flag 4096)) [
      | inr e' ↦ rw (e, e', ◌>>◌, ◌>>=◌) tt
      | inl e' ↦
          subst (WhenOk (Mapped vaddr (paddr + flag) s))
            (sym (
              >>-ok (assert (paddr % 4096 == 0)) _ s s (ap (λ b. assert b s) e)
              ∙ >>-ok (assert (ltb flag 4096)) (tables_step vaddr (paddr + flag) s.pml4) s s
                  (ap (λ b. assert b s) e')))
            (subst
              (λ r. WhenOk (Mapped vaddr (paddr + flag) s) (tables_step vaddr (paddr + flag) r s))
              (sym v.root_at) (first-Mapped vaddr (paddr + flag) s v))
    ]
  ]

  pub map_page_p2v_rw-Mapped :
      (paddr vaddr : ℕ) (s : Paging W)
      → IsPaging Good Held root s
      → WhenOk (Mapped vaddr (paddr + rw_flags) s) (map_page_p2v_rw alloc_4k paddr vaddr s)
  unfolding map_page_p2v_rw
  map_page_p2v_rw-Mapped paddr vaddr s v = map_page_p2v-Mapped paddr vaddr rw_flags s v
