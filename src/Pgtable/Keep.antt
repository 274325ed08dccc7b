-- ===== src/Pgtable/Keep.antt =====
-- The tables stay a tree: with a new table, and with a word of a table of the third level written.
use yaos.Prelude.{
  ℕ, ◌%◌, ◌<◌, ◌≡◌, ◌≢◌, sym, ap, ap₂, ◌∙◌, subst, ◌⊎◌, inl, inr, arith, ◌==◌, ==_iff,
  if◌then◌else◌, if_true,
}
use yaos.Pgtable.Tables.{Role, no_table, root_table, pdp_table, pd_table, pdp, pd, IsTree, role-ne}
use yaos.Pgtable.Grow.{
  with_pdp, with_pd, p-pdp, p-pd, with_pdp_lem, with_pdp-pdp, with_pdp-pd, with_pdp-empty,
  with_pd-pdp, with_pd_lem, with_pd-pd,
}
use native.Mathlib.Decide.{ℕ_discrete}

abbrev with_role : (ℕ → Role) → ℕ → Role → ℕ → Role
with_role role p a q = if p == q then a else role q

with_role_self : (role : ℕ → Role) (p : ℕ) (a : Role) (q : ℕ) → q ≡ p → with_role role p a q ≡ a
with_role_self role p a q e = if_true (p == q) _ _ ((==_iff p q).1 (sym e))

with_role-ne : (role : ℕ → Role) (p : ℕ) (a : Role) (q : ℕ) → p ≢ q → with_role role p a q ≡ role q
with_role-ne role p a q ne = ground (arith, ne)

module _ {Held Held' : ℕ → Type 0} (m : ℕ → ℕ) (root : ℕ) (t : IsTree m root Held) (p : ℕ)
    (p_aligned : p % 4096 ≡ 0) (unused : t.role p ≡ no_table) (kept : (q : ℕ) → Held q → Held' q)
    (taken : Held' p) where
  with_role-held : (a : Role) (q : ℕ) → with_role t.role p a q ≢ no_table → Held' q
  with_role-held a q some_role = elim (ℕ_discrete q p) [
    | yes e ↦ subst Held' (sym e) taken
    | no ne ↦ kept q (t.held q (λ e. some_role (with_role-ne t.role p a q (λ e'. ne (sym e')) ∙ e)))
  ]

  pub with_pdp-IsTree :
      (n : ℕ) (lt : n < 512) (none : pdp m root n ≡ 0)
      → IsTree (with_pdp m root t p p_aligned unused n lt none) root Held'
  with_pdp-IsTree n lt none =
      let old : (i : ℕ)
          → i < 512
          → i ≢ n
          → pdp (with_pdp m root t p p_aligned unused n lt none) root i ≡ pdp m root i =
        λ i a ne. with_pdp-pdp m root t p p_aligned unused n lt none i a ne in
      record {
        role = with_role t.role p (pdp_table n);
        aligned = t.aligned;
        root_role =
            with_role-ne t.role p (pdp_table n) root
              (role-ne t.role p root no_table root_table unused t.root_role (cc))
            ∙ t.root_role;
        pdp_role = λ i a e. elim (ℕ_discrete i n) [
          | yes same ↦
              with_role_self t.role p (pdp_table n) _ (
                ap (pdp (with_pdp m root t p p_aligned unused n lt none) root) same
                ∙ with_pdp_lem m root t p p_aligned unused n lt none)
              ∙ ap pdp_table (sym same)
          | no ne ↦
              let e' : pdp m root i ≢ 0 = λ z. e (old i a ne ∙ z) in
              ap (with_role t.role p (pdp_table n)) (old i a ne)
              ∙ with_role-ne t.role p (pdp_table n) (pdp m root i)
                  (p-pdp m root t p p_aligned unused i a e')
              ∙ t.pdp_role i a e'
        ];
        pd_role = λ i j a b e e2. elim (ℕ_discrete i n) [
          | yes same ↦ absurd (
              e2 (
                ap (λ x. pd (with_pdp m root t p p_aligned unused n lt none) root x j) same
                ∙ with_pdp-empty m root t p p_aligned unused n lt none j b))
          | no ne ↦
              let e' : pdp m root i ≢ 0 = λ z. e (old i a ne ∙ z) in
              let same : pd (with_pdp m root t p p_aligned unused n lt none) root i j
                  ≡ pd m root i j =
                with_pdp-pd m root t p p_aligned unused n lt none i j a b e' in
              let e2' : pd m root i j ≢ 0 = λ z. e2 (same ∙ z) in
              ap (with_role t.role p (pdp_table n)) same
              ∙ with_role-ne t.role p (pdp_table n) (pd m root i j)
                  (p-pd m root t p p_aligned unused i j a b e' e2')
              ∙ t.pd_role i j a b e' e2'
        ];
        held = with_role-held (pdp_table n);
      }

  pub with_pd-IsTree :
      (n l : ℕ) (lt : n < 512) (lt' : l < 512) (there : pdp m root n ≢ 0) (none : pd m root n l ≡ 0)
      → IsTree (with_pd m root t p p_aligned unused n l lt lt' there none) root Held'
  with_pd-IsTree n l lt lt' there none =
      let m' = with_pd m root t p p_aligned unused n l lt lt' there none in
      let old : (i : ℕ) → i < 512 → pdp m' root i ≡ pdp m root i =
        λ i a. with_pd-pdp m root t p p_aligned unused n l lt lt' there none i a in
      record {
        role = with_role t.role p (pd_table n l);
        aligned = t.aligned;
        root_role =
            with_role-ne t.role p (pd_table n l) root
              (role-ne t.role p root no_table root_table unused t.root_role (cc))
            ∙ t.root_role;
        pdp_role = λ i a e.
            let e' : pdp m root i ≢ 0 = λ z. e (old i a ∙ z) in
            ap (with_role t.role p (pd_table n l)) (old i a)
            ∙ with_role-ne t.role p (pd_table n l) (pdp m root i)
                (p-pdp m root t p p_aligned unused i a e')
            ∙ t.pdp_role i a e';
        pd_role = λ i j a b e e2.
            let e' : pdp m root i ≢ 0 = λ z. e (old i a ∙ z) in
            let apart : (i ≢ n) ⊎ (j ≢ l)
                → with_role t.role p (pd_table n l) (pd m' root i j) ≡ pd_table i j =
              λ differ.
                let same : pd m' root i j ≡ pd m root i j =
                  with_pd-pd m root t p p_aligned unused n l lt lt' there none i j a b e' differ in
                let e2' : pd m root i j ≢ 0 = λ z. e2 (same ∙ z) in
                ap (with_role t.role p (pd_table n l)) same
                ∙ with_role-ne t.role p (pd_table n l) (pd m root i j)
                    (p-pd m root t p p_aligned unused i j a b e' e2')
                ∙ t.pd_role i j a b e' e2' in
            elim (ℕ_discrete i n) [
              | yes same ↦ elim (ℕ_discrete j l) [
                | yes same' ↦
                    with_role_self t.role p (pd_table n l) _ (
                      ap₂ (pd m' root) same same'
                      ∙ with_pd_lem m root t p p_aligned unused n l lt lt' there none)
                    ∙ ap₂ pd_table (sym same) (sym same')
                | no ne ↦ apart (inr ne)
              ]
              | no ne ↦ apart (inl ne)
            ];
        held = with_role-held (pd_table n l);
      }
