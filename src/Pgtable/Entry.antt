-- ===== src/Pgtable/Entry.antt =====
-- The entries of pages, and that empty new tables change none.
use yaos.Prelude.{ℕ, ◌<◌, ◌≡◌, ◌≢◌, sym, ap, ◌∙◌, ◌⊎◌, inl, inr, arith, ◌==◌, ==_iff, if_true}
use yaos.Pgtable.{entry_at}
use yaos.Pgtable.Tables.{Role, no_table, root_table, pdp_table, pd_table, pdp, pd, entry}
use native.Mathlib.Decide.{ℕ_discrete}

module _ (mem : ℕ → ℕ) (root : ℕ) where
  pub entry-no_pdp : (i j k : ℕ) → pdp mem root i ≡ 0 → entry mem root i j k ≡ 0
  entry-no_pdp i j k e = if_true (pdp mem root i == 0) _ _ ((==_iff (pdp mem root i) 0).1 e)

  pub entry-no_pd : (i j k : ℕ) → pd mem root i j ≡ 0 → entry mem root i j k ≡ 0
  entry-no_pd i j k e = ground (arith, e)

  pub entry-word :
      (i j k : ℕ)
      → pdp mem root i ≢ 0
      → pd mem root i j ≢ 0
      → entry mem root i j k ≡ mem (entry_at (pd mem root i j) k)
  entry-word i j k a b = ground (arith, a, b)

  pub entry-empty : (i j k : ℕ) → mem (entry_at (pd mem root i j) k) ≡ 0 → entry mem root i j k ≡ 0
  entry-empty i j k e = ground (arith, e)

abbrev pub first_index : Role → ℕ
first_index no_table = 0
first_index root_table = 0
first_index (pdp_table i) = i
first_index (pd_table i j) = i

abbrev pub second_index : Role → ℕ
second_index no_table = 0
second_index root_table = 0
second_index (pdp_table i) = 0
second_index (pd_table i j) = j

-- From `m` to `m'` the tables stay, and what is new is empty.
pub record Grown (m m' : ℕ → ℕ) (root : ℕ) : Type 0 where
  pub pdps : (i : ℕ) → i < 512 → pdp m root i ≢ 0 → pdp m' root i ≡ pdp m root i
  pub pds :
      (i j : ℕ)
      → i < 512
      → j < 512
      → pdp m root i ≢ 0
      → pd m root i j ≢ 0
      → pd m' root i j ≡ pd m root i j
  pub words :
      (i j k : ℕ)
      → i < 512
      → j < 512
      → k < 512
      → pdp m root i ≢ 0
      → pd m root i j ≢ 0
      → m' (entry_at (pd m root i j) k) ≡ m (entry_at (pd m root i j) k)
  pub new_pdp :
      (i j : ℕ) → i < 512 → j < 512 → pdp m root i ≡ 0 → (pdp m' root i ≡ 0) ⊎ (pd m' root i j ≡ 0)
  pub new_pd :
      (i j k : ℕ)
      → i < 512
      → j < 512
      → k < 512
      → pdp m root i ≢ 0
      → pd m root i j ≡ 0
      → (pd m' root i j ≡ 0) ⊎ (m' (entry_at (pd m' root i j) k) ≡ 0)

pub Grown-entry :
    (m m' : ℕ → ℕ) (root i j k : ℕ)
    → Grown m m' root
    → i < 512
    → j < 512
    → k < 512
    → entry m' root i j k ≡ entry m root i j k
Grown-entry m m' root i j k g a b c = elim (ℕ_discrete (pdp m root i) 0) [
  | yes none ↦ elim (g.new_pdp i j a b none) [
    | inl e ↦ entry-no_pdp m' root i j k e ∙ sym (entry-no_pdp m root i j k none)
    | inr e ↦ entry-no_pd m' root i j k e ∙ sym (entry-no_pdp m root i j k none)
  ]
  | no some_pdp ↦ elim (ℕ_discrete (pd m root i j) 0) [
    | yes none ↦ elim (g.new_pd i j k a b c some_pdp none) [
      | inl e ↦ entry-no_pd m' root i j k e ∙ sym (entry-no_pd m root i j k none)
      | inr e ↦ entry-empty m' root i j k e ∙ sym (entry-no_pd m root i j k none)
    ]
    | no some_pd ↦
        entry-word m' root i j k (λ e. some_pdp (sym (g.pdps i a some_pdp) ∙ e))
          (λ e. some_pd (sym (g.pds i j a b some_pdp some_pd) ∙ e))
        ∙ ap (λ p. m' (entry_at p k)) (g.pds i j a b some_pdp some_pd)
        ∙ g.words i j k a b c some_pdp some_pd
        ∙ sym (entry-word m root i j k some_pdp some_pd)
  ]
]
