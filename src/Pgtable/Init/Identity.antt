-- ===== src/Pgtable/Init/Identity.antt =====
-- After `init_pml4` the processor finds a page for every address below 4G.
use yaos.Prelude.{
  ℕ, ◌+◌, ◌-◌, ◌*◌, ◌/◌, ◌%◌, ◌^◌, ◌≤◌, ◌<◌, ◌≡◌, ◌≢◌, refl, sym, ap, ◌∙◌, subst, ◌⊎◌, inl, inr,
  arith, Bool-cases, ltb, ◌==◌, ==_iff, if◌then◌else◌, if_false,
}
use yaos.Prelude.Outcome.{ok, ◌>>◌, ◌>>=◌, Action, pure}
use yaos.Pgtable.{
  Paging, base_of, entry_at, clear_table, page_2m, rw_flags, pml4_index, pdp_index, pd_index,
}
use yaos.Pgtable.Tables.{
  root_table, pdp_table, pd_table, pdp, pd, entry, IsTree, entry_at-ne, role-ne,
}
use yaos.Pgtable.Entry.{entry-word}
use yaos.Pgtable.Map.{translation, translation-entry}
use yaos.Pgtable.Init.{
  Statics, int_to_ulong, first_entry, write_rows, first_links, init_first_4g, write_cr3, init_pml4,
}
use native.Mathlib.Decide.{ℕ_discrete}
use yaos.Prelude.Outcome.{>>-ok}
use yaos.Pgtable.Init.{check_aligned, map_above}
use yaos.Pgtable.Alloc.{IsPaging}
use yaos.Pgtable.Init.First.{pd_at, IsStatic, below_four, skip, take, rows-other, rows-here}

module _ {Held : ℕ → Type 0} (st : Statics) (root : ℕ) (v : IsStatic st root Held)
    (mem : ℕ → ℕ) where
  root-pdp : (i k : ℕ) → i < 512 → k < 512 → entry_at st.first_pdp i ≢ entry_at root k
  root-pdp i k a b =
      entry_at-ne st.first_pdp root i k v.pdp_aligned v.root_aligned
        (role-ne v.role _ _ (pdp_table 0) root_table v.pdp_role v.root_role (cc)) a b

  slots-ne : (p i k : ℕ) → i ≢ k → entry_at p i ≢ entry_at p k
  slots-ne p i k ne = omega (arith, ne)

  abbrev links : ℕ → ℕ
  links = first_links st root mem

  links-root : links (entry_at root 0) ≡ st.first_pdp + 3
  links-root =
      skip (entry_at st.first_pdp 3) (entry_at root 0) _ _
        (root-pdp 3 0 (omega arith) (omega arith))
      ∙ skip (entry_at st.first_pdp 2) (entry_at root 0) _ _
          (root-pdp 2 0 (omega arith) (omega arith))
      ∙ skip (entry_at st.first_pdp 1) (entry_at root 0) _ _
          (root-pdp 1 0 (omega arith) (omega arith))
      ∙ skip (entry_at st.first_pdp 0) (entry_at root 0) _ _
          (root-pdp 0 0 (omega arith) (omega arith))
      ∙ take (entry_at root 0) _ _

  links-root_rest : (i : ℕ) → i < 512 → i ≢ 0 → links (entry_at root i) ≡ 0
  links-root_rest i lt ne =
      skip (entry_at st.first_pdp 3) (entry_at root i) _ _ (root-pdp 3 i (omega arith) lt)
      ∙ skip (entry_at st.first_pdp 2) (entry_at root i) _ _ (root-pdp 2 i (omega arith) lt)
      ∙ skip (entry_at st.first_pdp 1) (entry_at root i) _ _ (root-pdp 1 i (omega arith) lt)
      ∙ skip (entry_at st.first_pdp 0) (entry_at root i) _ _ (root-pdp 0 i (omega arith) lt)
      ∙ skip (entry_at root 0) (entry_at root i) _ _ (slots-ne root 0 i (λ e. ne (sym e)))
      ∙ cleared
    where
      cleared : clear_table (clear_table mem root) st.first_pdp (entry_at root i) ≡ 0
      cleared = ground (arith, lt)

  links-pdp : (n : ℕ) → n < 4 → links (entry_at st.first_pdp n) ≡ pd_at st n + 3
  links-pdp n small = go (below_four n small)
    where
      past :
          (n k : ℕ) (x y : ℕ)
          → n ≢ k
          → (if entry_at st.first_pdp n == entry_at st.first_pdp k then x else y) ≡ y
      past n k x y ne =
          skip (entry_at st.first_pdp n) (entry_at st.first_pdp k) x y
            (slots-ne st.first_pdp n k ne)

      go :
          (n ≡ 0) ⊎ ((n ≡ 1) ⊎ ((n ≡ 2) ⊎ (n ≡ 3)))
          → links (entry_at st.first_pdp n) ≡ pd_at st n + 3
      go (inl e) =
          subst (λ n. links (entry_at st.first_pdp n) ≡ pd_at st n + 3) (sym e)
            (past 3 0 _ _ (omega arith)
              ∙ past 2 0 _ _ (omega arith)
              ∙ past 1 0 _ _ (omega arith)
              ∙ take (entry_at st.first_pdp 0) _ _)
      go (inr (inl e)) =
          subst (λ n. links (entry_at st.first_pdp n) ≡ pd_at st n + 3) (sym e)
            (past 3 1 _ _ (omega arith)
              ∙ past 2 1 _ _ (omega arith)
              ∙ take (entry_at st.first_pdp 1) _ _)
      go (inr (inr (inl e))) =
          subst (λ n. links (entry_at st.first_pdp n) ≡ pd_at st n + 3) (sym e)
            (past 3 2 _ _ (omega arith) ∙ take (entry_at st.first_pdp 2) _ _)
      go (inr (inr (inr e))) =
          subst (λ n. links (entry_at st.first_pdp n) ≡ pd_at st n + 3) (sym e)
            (take (entry_at st.first_pdp 3) _ _)

  links-pdp_rest : (j : ℕ) → j < 512 → 4 ≤ j → links (entry_at st.first_pdp j) ≡ 0
  links-pdp_rest j lt le =
      skip (entry_at st.first_pdp 3) (entry_at st.first_pdp j) _ _
        (slots-ne st.first_pdp 3 j (omega (arith, le)))
      ∙ skip (entry_at st.first_pdp 2) (entry_at st.first_pdp j) _ _
          (slots-ne st.first_pdp 2 j (omega (arith, le)))
      ∙ skip (entry_at st.first_pdp 1) (entry_at st.first_pdp j) _ _
          (slots-ne st.first_pdp 1 j (omega (arith, le)))
      ∙ skip (entry_at st.first_pdp 0) (entry_at st.first_pdp j) _ _
          (slots-ne st.first_pdp 0 j (omega (arith, le)))
      ∙ skip (entry_at root 0) (entry_at st.first_pdp j) _ _
          (λ e. root-pdp j 0 lt (omega arith) (sym e))
      ∙ cleared
    where
      cleared : clear_table (clear_table mem root) st.first_pdp (entry_at st.first_pdp j) ≡ 0
      cleared = ground (arith, lt)

  abbrev first : ℕ → ℕ
  first = write_rows st 512 0 links

  kept :
      (q i : ℕ)
      → q % 4096 ≡ 0
      → i < 512
      → ((n : ℕ) → n < 4 → pd_at st n ≢ q)
      → first (entry_at q i) ≡ links (entry_at q i)
  kept q i al lt ne = rows-other st root v 512 0 links (entry_at q i) (λ n j a le lt'.
      entry_at-ne (pd_at st n) q j i (v.pd_aligned n a) al (ne n a) (omega (arith, lt')) lt)

  not_root : (n : ℕ) → n < 4 → pd_at st n ≢ root
  not_root n a = role-ne v.role _ _ (pd_table 0 n) root_table (v.pd_role n a) v.root_role (cc)

  not_pdp : (n : ℕ) → n < 4 → pd_at st n ≢ st.first_pdp
  not_pdp n a = role-ne v.role _ _ (pd_table 0 n) (pdp_table 0) (v.pd_role n a) v.pdp_role (cc)

  first-pdp : pdp first root 0 ≡ st.first_pdp
  first-pdp =
      ap base_of (kept root 0 v.root_aligned (omega arith) not_root ∙ links-root)
      ∙ omega (arith, v.pdp_aligned)

  first-pdp_rest : (i : ℕ) → i < 512 → i ≢ 0 → pdp first root i ≡ 0
  first-pdp_rest i lt ne =
      ap base_of (kept root i v.root_aligned lt not_root ∙ links-root_rest i lt ne)

  first-pd : (n : ℕ) → n < 4 → pd first root 0 n ≡ pd_at st n
  first-pd n small =
      ap (λ q. base_of (first (entry_at q n))) first-pdp
      ∙ ap base_of
          (kept st.first_pdp n v.pdp_aligned (omega (arith, small)) not_pdp ∙ links-pdp n small)
      ∙ omega (arith, v.pd_aligned n small)

  first-pd_rest : (j : ℕ) → j < 512 → 4 ≤ j → pd first root 0 j ≡ 0
  first-pd_rest j lt le =
      ap (λ q. base_of (first (entry_at q j))) first-pdp
      ∙ ap base_of (kept st.first_pdp j v.pdp_aligned lt not_pdp ∙ links-pdp_rest j lt le)

  first-IsTree : IsTree first root Held
  first-IsTree = record {
    role = v.role;
    aligned = v.root_aligned;
    root_role = v.root_role;
    pdp_role = λ i lt ne. elim (ℕ_discrete i 0) [
      | yes e ↦ ap v.role (ap (pdp first root) e ∙ first-pdp) ∙ v.pdp_role ∙ ap pdp_table (sym e)
      | no some ↦ absurd (ne (first-pdp_rest i lt some))
    ];
    pd_role = λ i j lt lt' ne ne'. elim (ℕ_discrete i 0) [
      | no some ↦ absurd (ne (first-pdp_rest i lt some))
      | yes e ↦ elim (Bool-cases (ltb j 4)) [
        | inl a ↦
            ap v.role (ap (λ x. pd first root x j) e ∙ first-pd j (ground (arith, a)))
            ∙ v.pd_role j (ground (arith, a))
            ∙ ap (λ x. pd_table x j) (sym e)
        | inr a ↦
            absurd (ne' (ap (λ x. pd first root x j) e ∙ first-pd_rest j lt' (ground (arith, a))))
      ]
    ];
    held = v.held;
  }

  first-entry : (n k : ℕ) → n < 4 → k < 512 → entry first root 0 n k ≡ first_entry n k
  first-entry n k small lt =
      entry-word first root 0 n k (λ e. v.some_pdp (sym first-pdp ∙ e))
        (λ e. v.some_pd n small (sym (first-pd n small) ∙ e))
      ∙ ap (λ q. first (entry_at q k)) (first-pd n small)
      ∙ rows-here st root v 512 0 k n links small (omega arith) lt (omega arith)

module _ {W : Type 0} (Good : W → Type 0) (Held : W → ℕ → Type 0) (alloc_4k : ℕ → Action W ℕ)
    (st : Statics) (s : Paging W) (v : IsStatic st s.pml4 (Held s.heap)) where
  abbrev made : Paging W
  made = record s { mem = first st s.pml4 v s.mem; cr3 = s.pml4 }

  made-IsPaging : Good s.heap → IsPaging Good Held s.pml4 made
  made-IsPaging g = record {
    root_at = refl;
    in_use = omega (arith, v.root_aligned);
    tree = first-IsTree st s.pml4 v s.mem;
    good = g;
  }

  made-translation :
      (a : ℕ) → a < 2 ^ 32 → translation a made ≡ int_to_ulong (a / page_2m * page_2m) + rw_flags
  made-translation a lt =
      translation-entry s.pml4 a made (omega (arith, v.root_aligned))
      ∙ ap (λ i. entry made.mem s.pml4 i (pdp_index a) (pd_index a)) at_root
      ∙ first-entry st s.pml4 v s.mem (pdp_index a) (pd_index a) (omega (arith, lt)) (omega arith)
      ∙ ap (λ x. int_to_ulong x + rw_flags) whole
    where
      at_root : pml4_index a ≡ 0
      at_root = omega (arith, lt)

      whole : (pd_index a + pdp_index a * 512) * page_2m ≡ a / page_2m * page_2m
      whole = omega (arith, lt)

  run_lem :
      (rounds max : ℕ)
      → max ≤ 2 ^ 32
      → st.first_pd % 4096 ≡ 0
      → init_pml4 alloc_4k st rounds max s ≡ ok (tt, made)
  unfolding init_pml4 init_first_4g write_cr3
  run_lem rounds max le al =
      >>-ok (check_aligned st) (init_first_4g st >> (tail >> write_cr3)) s s (
        rw
          (
            (==_iff (s.pml4 % 4096) 0).1 v.root_aligned,
            (==_iff (st.first_pdp % 4096) 0).1 v.pdp_aligned,
            (==_iff (st.first_pd % 4096) 0).1 al,
            ◌>>◌,
            ◌>>=◌,
          )
          refl)
      ∙ >>-ok (init_first_4g st) (tail >> write_cr3) s next refl
      ∙ ap (λ (m : Action (Paging W) (Unit {0})). (m >> write_cr3) next)
          (if_false (ltb (2 ^ 32) max) (map_above alloc_4k rounds (2 ^ 32) max) (pure tt)
            (ground (arith, le)))
    where
      tail : Action (Paging W) (Unit {0})
      tail = if ltb (2 ^ 32) max then map_above alloc_4k rounds (2 ^ 32) max else pure tt

      next : Paging W
      next = record s { mem = first st s.pml4 v s.mem }

  -- init_pml4 with at most 4G of memory and its static tables aligned, apart and held, returns with the
  -- tables a tree. An address below 2G is found in its own page; an address from 2G on and
  -- below 4G has its page extended by the sign of 32 bits, and so not its own.
  pub init_pml4-IsPaging :
      (rounds max : ℕ)
      → max ≤ 2 ^ 32
      → Good s.heap
      → (t : Paging W) × (init_pml4 alloc_4k st rounds max s ≡ ok (tt, t))
        × IsPaging Good Held s.pml4 t
        × ((a : ℕ) → a < 2 ^ 31 → translation a t ≡ a / page_2m * page_2m + rw_flags)
        × ((a : ℕ)
            → 2 ^ 31 ≤ a
            → a < 2 ^ 32
            → translation a t ≡ a / page_2m * page_2m + (2 ^ 64 - 2 ^ 32) + rw_flags)
  init_pml4-IsPaging rounds max le g = (
    made,
    run_lem rounds max le (v.pd_aligned 0 (omega arith)),
    made-IsPaging g,
    (λ a lt. made-translation a (omega (arith, lt)) ∙ ground (arith, lt)),
    λ a low lt. made-translation a lt ∙ ground (arith, low, lt),
  )
