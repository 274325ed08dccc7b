-- ===== src/Pgtable/Grow.antt =====
-- A new table, empty, changes no entry of a page.
use yaos.Prelude.{ℕ, ◌+◌, ◌%◌, ◌<◌, ◌≡◌, ◌≢◌, sym, ap, ap₂, ◌∙◌, ◌⊎◌, inl, inr, arith}
use yaos.Pgtable.{base_of, entry_at, write_word, clear_table, table_flags}
use yaos.Pgtable.Tables.{
  no_table, root_table, pdp_table, pd_table, pdp, pd, IsTree, base_of-aligned, entry_at-ne, role-ne,
  write_word_self, linked-new, linked-other,
}
use yaos.Pgtable.Entry.{first_index, Grown}
use native.Mathlib.Decide.{ℕ_discrete}

-- the memory after a new table `p` has been linked in the word `n` of the table `o`
abbrev pub linked : (ℕ → ℕ) → ℕ → ℕ → ℕ → ℕ → ℕ
linked m o n p = write_word (clear_table m p) (entry_at o n) (p + table_flags)

module _ (m : ℕ → ℕ) (o n p : ℕ) (o_aligned : o % 4096 ≡ 0) (p_aligned : p % 4096 ≡ 0)
    (apart : p ≢ o) (lt : n < 512) where
  pub linked-slot : base_of (linked m o n p (entry_at o n)) ≡ p
  linked-slot =
      ap base_of (write_word_self (clear_table m p) (entry_at o n) (p + table_flags))
      ∙ omega (arith, p_aligned)

  pub linked-empty : (i : ℕ) → i < 512 → linked m o n p (entry_at p i) ≡ 0
  linked-empty i lt' =
      linked-new m (entry_at o n) (p + table_flags) p i lt'
        (entry_at-ne o p n i o_aligned p_aligned (λ e. apart (sym e)) lt lt')

  pub linked-word :
      (q i : ℕ)
      → q % 4096 ≡ 0
      → p ≢ q
      → i < 512
      → (o ≢ q) ⊎ (n ≢ i)
      → linked m o n p (entry_at q i) ≡ m (entry_at q i)
  linked-word q i q_aligned ne lt' differ =
      linked-other m (entry_at o n) (p + table_flags) p q i p_aligned q_aligned ne lt'
        (other differ)
    where
      other : (o ≢ q) ⊎ (n ≢ i) → entry_at o n ≢ entry_at q i
      other (inl e) = entry_at-ne o q n i o_aligned q_aligned e lt lt'
      other (inr e) = omega (arith, o_aligned, q_aligned, e, lt, lt')

module _ {Held : ℕ → Type 0} (m : ℕ → ℕ) (root : ℕ) (t : IsTree m root Held) (p : ℕ)
    (p_aligned : p % 4096 ≡ 0) (unused : t.role p ≡ no_table) where
  pub p-root : p ≢ root
  p-root = role-ne t.role p root no_table root_table unused t.root_role (cc)

  pub p-pdp : (i : ℕ) → i < 512 → pdp m root i ≢ 0 → p ≢ pdp m root i
  p-pdp i a e =
      role-ne t.role p (pdp m root i) no_table (pdp_table i) unused (t.pdp_role i a e) (cc)

  pub p-pd :
      (i j : ℕ) → i < 512 → j < 512 → pdp m root i ≢ 0 → pd m root i j ≢ 0 → p ≢ pd m root i j
  p-pd i j a b e e' =
      role-ne t.role p (pd m root i j) no_table (pd_table i j) unused (t.pd_role i j a b e e') (cc)

  pub root-pdp : (i : ℕ) → i < 512 → pdp m root i ≢ 0 → root ≢ pdp m root i
  root-pdp i a e =
      role-ne t.role root (pdp m root i) root_table (pdp_table i) t.root_role (t.pdp_role i a e)
        (cc)

  pub root-pd :
      (i j : ℕ) → i < 512 → j < 512 → pdp m root i ≢ 0 → pd m root i j ≢ 0 → root ≢ pd m root i j
  root-pd i j a b e e' =
      role-ne t.role root (pd m root i j) root_table (pd_table i j) t.root_role
        (t.pd_role i j a b e e') (cc)

  -- a new table of the second level
  module _ (n : ℕ) (lt : n < 512) (none : pdp m root n ≡ 0) where
    abbrev pub with_pdp : ℕ → ℕ
    with_pdp = linked m root n p

    pub with_pdp_lem : pdp with_pdp root n ≡ p
    with_pdp_lem = linked-slot m root n p t.aligned p_aligned p-root lt

    pub with_pdp-pdp : (i : ℕ) → i < 512 → i ≢ n → pdp with_pdp root i ≡ pdp m root i
    with_pdp-pdp i a ne = ap base_of (
        linked-word m root n p t.aligned p_aligned p-root lt root i t.aligned p-root a
          (inr (λ e. ne (sym e))))

    pub with_pdp-pd :
        (i j : ℕ) → i < 512 → j < 512 → pdp m root i ≢ 0 → pd with_pdp root i j ≡ pd m root i j
    with_pdp-pd i j a b e =
        let ne : i ≢ n = λ same. e (ap (pdp m root) same ∙ none) in
        ap (λ q. base_of (with_pdp (entry_at q j))) (with_pdp-pdp i a ne)
        ∙ ap base_of (
            linked-word m root n p t.aligned p_aligned p-root lt (pdp m root i) j
              (base_of-aligned (m (entry_at root i))) (p-pdp i a e) b (inl (root-pdp i a e)))

    pub with_pdp-empty : (j : ℕ) → j < 512 → pd with_pdp root n j ≡ 0
    with_pdp-empty j b =
        ap (λ q. base_of (with_pdp (entry_at q j))) with_pdp_lem
        ∙ ap base_of (linked-empty m root n p t.aligned p_aligned p-root lt j b)

    pub with_pdp-Grown : Grown m with_pdp root
    with_pdp-Grown = record {
      pdps = λ i a e. with_pdp-pdp i a (λ same. e (ap (pdp m root) same ∙ none));
      pds = λ i j a b e e'. with_pdp-pd i j a b e;
      words = λ i j k a b c e e'.
          linked-word m root n p t.aligned p_aligned p-root lt (pd m root i j) k
            (base_of-aligned (m (entry_at (pdp m root i) j))) (p-pd i j a b e e') c
            (inl (root-pd i j a b e e'));
      new_pdp = λ i j a b e. elim (ℕ_discrete i n) [
        | yes same ↦ inr (ap (λ x. pd with_pdp root x j) same ∙ with_pdp-empty j b)
        | no ne ↦ inl (with_pdp-pdp i a ne ∙ e)
      ];
      new_pd = λ i j k a b c e e'. inl (with_pdp-pd i j a b e ∙ e');
    }

  -- a new table of the third level
  module _ (n l : ℕ) (lt : n < 512) (lt' : l < 512) (there : pdp m root n ≢ 0)
      (none : pd m root n l ≡ 0) where
    abbrev owner : ℕ
    owner = pdp m root n

    owner_aligned : owner % 4096 ≡ 0
    owner_aligned = base_of-aligned (m (entry_at root n))

    abbrev pub with_pd : ℕ → ℕ
    with_pd = linked m owner l p

    pub with_pd-pdp : (i : ℕ) → i < 512 → pdp with_pd root i ≡ pdp m root i
    with_pd-pdp i a = ap base_of (
        linked-word m owner l p owner_aligned p_aligned (p-pdp n lt there) lt' root i t.aligned
          p-root a (inl (λ e. root-pdp n lt there (sym e))))

    pub with_pd_lem : pd with_pd root n l ≡ p
    with_pd_lem =
        ap (λ q. base_of (with_pd (entry_at q l))) (with_pd-pdp n lt)
        ∙ linked-slot m owner l p owner_aligned p_aligned (p-pdp n lt there) lt'

    owner-pdp : (i : ℕ) → i < 512 → pdp m root i ≢ 0 → i ≢ n → owner ≢ pdp m root i
    owner-pdp i a e ne =
        role-ne t.role owner (pdp m root i) (pdp_table n) (pdp_table i) (t.pdp_role n lt there)
          (t.pdp_role i a e) (λ same. ne (sym (ap first_index same)))

    pub with_pd-pd :
        (i j : ℕ)
        → i < 512
        → j < 512
        → pdp m root i ≢ 0
        → (i ≢ n) ⊎ (j ≢ l)
        → pd with_pd root i j ≡ pd m root i j
    with_pd-pd i j a b e differ =
        ap (λ q. base_of (with_pd (entry_at q j))) (with_pd-pdp i a)
        ∙ ap base_of (
            linked-word m owner l p owner_aligned p_aligned (p-pdp n lt there) lt' (pdp m root i) j
              (base_of-aligned (m (entry_at root i))) (p-pdp i a e) b (apart differ))
      where
        apart : (i ≢ n) ⊎ (j ≢ l) → (owner ≢ pdp m root i) ⊎ (l ≢ j)
        apart (inl ne) = inl (owner-pdp i a e ne)
        apart (inr ne) = inr (λ same. ne (sym same))

    owner-pd :
        (i j : ℕ) → i < 512 → j < 512 → pdp m root i ≢ 0 → pd m root i j ≢ 0 → owner ≢ pd m root i j
    owner-pd i j a b e e' =
        role-ne t.role owner (pd m root i j) (pdp_table n) (pd_table i j) (t.pdp_role n lt there)
          (t.pd_role i j a b e e') (cc)

    pub used_differ : (i j : ℕ) → pd m root i j ≢ 0 → (i ≢ n) ⊎ (j ≢ l)
    used_differ i j e = elim (ℕ_discrete i n) [
      | yes same ↦ inr (λ same'. e (ap₂ (pd m root) same same' ∙ none))
      | no ne ↦ inl ne
    ]

    pub with_pd-Grown : Grown m with_pd root
    with_pd-Grown = record {
      pdps = λ i a e. with_pd-pdp i a;
      pds = λ i j a b e e'. with_pd-pd i j a b e (used_differ i j e');
      words = λ i j k a b c e e'.
          linked-word m owner l p owner_aligned p_aligned (p-pdp n lt there) lt' (pd m root i j) k
            (base_of-aligned (m (entry_at (pdp m root i) j))) (p-pd i j a b e e') c
            (inl (owner-pd i j a b e e'));
      new_pdp = λ i j a b e. inl (with_pd-pdp i a ∙ e);
      new_pd = λ i j k a b c e e'. elim (ℕ_discrete i n) [
        | yes same ↦ elim (ℕ_discrete j l) [
          | yes same' ↦ inr (
              ap (λ q. with_pd (entry_at q k)) (ap₂ (pd with_pd root) same same' ∙ with_pd_lem)
              ∙ linked-empty m owner l p owner_aligned p_aligned (p-pdp n lt there) lt' k c)
          | no ne ↦ inl (with_pd-pd i j a b e (inr ne) ∙ e')
        ]
        | no ne ↦ inl (with_pd-pd i j a b e (inl ne) ∙ e')
      ];
    }
