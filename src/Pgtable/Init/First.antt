-- ===== src/Pgtable/Init/First.antt =====
-- The tables that `init_pml4` makes for the first 4G.
use yaos.Prelude.{
  ℕ, zero, suc, ◌+◌, ◌%◌, ◌≤◌, ◌<◌, ◌≡◌, ◌≢◌, refl, sym, ap, ◌∙◌, subst, ◌⊎◌, inl, inr, arith, ◌==◌,
  ==_iff, if◌then◌else◌, if_true, if_false,
}
use yaos.Pgtable.{entry_at}
use yaos.Pgtable.Tables.{Role, no_table, root_table, pdp_table, pd_table, entry_at-ne, role-ne}
use yaos.Pgtable.Alloc.{==_ne}
use yaos.Pgtable.Entry.{second_index}
use yaos.Pgtable.Init.{Statics, first_entry, write_row, write_rows}
use native.Mathlib.Decide.{ℕ_discrete}

abbrev pub pd_at : Statics → ℕ → ℕ
pd_at st n =
    if n == 0
    then st.first_pd
    else if n == 1
    then st.second_pd
    else if n == 2
    then st.third_pd
    else st.fourth_pd

-- The static tables are aligned, not null and apart, and held.
pub record IsStatic (st : Statics) (root : ℕ) (Held : ℕ → Type 0) : Type 0 where
  pub role : ℕ → Role
  pub root_role : role root ≡ root_table
  pub pdp_role : role st.first_pdp ≡ pdp_table 0
  pub pd_role : (n : ℕ) → n < 4 → role (pd_at st n) ≡ pd_table 0 n
  pub root_aligned : root % 4096 ≡ 0
  pub pdp_aligned : st.first_pdp % 4096 ≡ 0
  pub pd_aligned : (n : ℕ) → n < 4 → pd_at st n % 4096 ≡ 0
  pub some_pdp : st.first_pdp ≢ 0
  pub some_pd : (n : ℕ) → n < 4 → pd_at st n ≢ 0
  pub held : (p : ℕ) → role p ≢ no_table → Held p

pub below_four : (n : ℕ) → n < 4 → (n ≡ 0) ⊎ ((n ≡ 1) ⊎ ((n ≡ 2) ⊎ (n ≡ 3)))
below_four n lt = elim (ℕ_discrete n 0) [
  | yes e ↦ inl e
  | no a ↦ elim (ℕ_discrete n 1) [
    | yes e ↦ inr (inl e)
    | no b ↦ elim (ℕ_discrete n 2) [
      | yes e ↦ inr (inr (inl e))
      | no c ↦ inr (inr (inr (omega (arith, lt, a, b, c))))
    ]
  ]
]

pub skip : (a b x y : ℕ) → a ≢ b → (if a == b then x else y) ≡ y
skip a b x y ne = if_false (a == b) x y (==_ne a b ne)

pub take : (a x y : ℕ) → (if a == a then x else y) ≡ x
take a x y = if_true (a == a) x y ((==_iff a a).1 refl)

module _ {Held : ℕ → Type 0} (st : Statics) (root : ℕ) (v : IsStatic st root Held) where
  tables-ne :
      (n n' i k : ℕ)
      → n < 4
      → n' < 4
      → n ≢ n'
      → i < 512
      → k < 512
      → entry_at (pd_at st n) i ≢ entry_at (pd_at st n') k
  tables-ne n n' i k a b ne lt lt' =
      entry_at-ne (pd_at st n) (pd_at st n') i k (v.pd_aligned n a) (v.pd_aligned n' b)
        (role-ne v.role _ _ (pd_table 0 n) (pd_table 0 n') (v.pd_role n a) (v.pd_role n' b)
          (λ e. ne (ap second_index e)))
        lt lt'

  row-other :
      (i : ℕ) (mem : ℕ → ℕ) (b : ℕ)
      → ((n : ℕ) → n < 4 → entry_at (pd_at st n) i ≢ b)
      → write_row st i mem b ≡ mem b
  row-other i mem b ne =
      skip (entry_at st.fourth_pd i) b _ _ (ne 3 (omega arith))
      ∙ skip (entry_at st.third_pd i) b _ _ (ne 2 (omega arith))
      ∙ skip (entry_at st.second_pd i) b _ _ (ne 1 (omega arith))
      ∙ skip (entry_at st.first_pd i) b _ _ (ne 0 (omega arith))

  row-here :
      (i n : ℕ) (mem : ℕ → ℕ)
      → i < 512
      → n < 4
      → write_row st i mem (entry_at (pd_at st n) i) ≡ first_entry n i
  row-here i n mem lt small = go (below_four n small)
    where
      apart :
          (n n' : ℕ) → n < 4 → n' < 4 → n ≢ n' → entry_at (pd_at st n) i ≢ entry_at (pd_at st n') i
      apart n n' a b ne = tables-ne n n' i i a b ne lt lt

      go :
          (n ≡ 0) ⊎ ((n ≡ 1) ⊎ ((n ≡ 2) ⊎ (n ≡ 3)))
          → write_row st i mem (entry_at (pd_at st n) i) ≡ first_entry n i
      go (inl e) =
          subst (λ n. write_row st i mem (entry_at (pd_at st n) i) ≡ first_entry n i) (sym e)
            (skip (entry_at st.fourth_pd i) (entry_at (pd_at st 0) i) _ _
                (apart 3 0 (omega arith) (omega arith) (omega arith))
              ∙ skip (entry_at st.third_pd i) (entry_at (pd_at st 0) i) _ _
                  (apart 2 0 (omega arith) (omega arith) (omega arith))
              ∙ skip (entry_at st.second_pd i) (entry_at (pd_at st 0) i) _ _
                  (apart 1 0 (omega arith) (omega arith) (omega arith))
              ∙ take (entry_at st.first_pd i) _ _)
      go (inr (inl e)) =
          subst (λ n. write_row st i mem (entry_at (pd_at st n) i) ≡ first_entry n i) (sym e)
            (skip (entry_at st.fourth_pd i) (entry_at (pd_at st 1) i) _ _
                (apart 3 1 (omega arith) (omega arith) (omega arith))
              ∙ skip (entry_at st.third_pd i) (entry_at (pd_at st 1) i) _ _
                  (apart 2 1 (omega arith) (omega arith) (omega arith))
              ∙ take (entry_at st.second_pd i) _ _)
      go (inr (inr (inl e))) =
          subst (λ n. write_row st i mem (entry_at (pd_at st n) i) ≡ first_entry n i) (sym e)
            (skip (entry_at st.fourth_pd i) (entry_at (pd_at st 2) i) _ _
                (apart 3 2 (omega arith) (omega arith) (omega arith))
              ∙ take (entry_at st.third_pd i) _ _)
      go (inr (inr (inr e))) =
          subst (λ n. write_row st i mem (entry_at (pd_at st n) i) ≡ first_entry n i) (sym e)
            (take (entry_at st.fourth_pd i) _ _)

  pub rows-other :
      (count i : ℕ) (mem : ℕ → ℕ) (b : ℕ)
      → ((n j : ℕ) → n < 4 → i ≤ j → j < i + count → entry_at (pd_at st n) j ≢ b)
      → write_rows st count i mem b ≡ mem b
  unfolding write_rows
  rows-other zero i mem b ne = refl
  rows-other (suc count) i mem b ne =
      rows-other count (i + 1) (write_row st i mem) b
        (λ n j a le lt. ne n j a (omega (arith, le)) (omega (arith, lt)))
      ∙ row-other i mem b (λ n a. ne n i a (omega arith) (omega arith))

  pub rows-here :
      (count i k n : ℕ) (mem : ℕ → ℕ)
      → n < 4
      → i ≤ k
      → k < i + count
      → i + count ≤ 512
      → write_rows st count i mem (entry_at (pd_at st n) k) ≡ first_entry n k
  unfolding write_rows
  rows-here zero i k n mem small le lt fits = absurd (omega (arith, le, lt))
  rows-here (suc count) i k n mem small le lt fits = elim (ℕ_discrete k i) [
    | yes e ↦
        rows-other count (i + 1) (write_row st i mem) (entry_at (pd_at st n) k)
          (λ n' j a le' lt'. later n' j a le' lt' e)
        ∙ ap (λ x. write_row st i mem (entry_at (pd_at st n) x)) e
        ∙ row-here i n mem (omega (arith, fits)) small
        ∙ ap (first_entry n) (sym e)
    | no ne ↦
        rows-here count (i + 1) k n (write_row st i mem) small (omega (arith, le, ne))
          (omega (arith, lt)) (omega (arith, fits))
  ]
    where
      later :
          (n' j : ℕ)
          → n' < 4
          → i + 1 ≤ j
          → j < i + 1 + count
          → k ≡ i
          → entry_at (pd_at st n') j ≢ entry_at (pd_at st n) k
      later n' j a le' lt' e = elim (ℕ_discrete n' n) [
        | yes same ↦ λ z. omega (arith, z, ap (pd_at st) same, e, le')
        | no ne ↦ tables-ne n' n j k a small ne (omega (arith, lt', fits)) (omega (arith, lt, fits))
      ]
