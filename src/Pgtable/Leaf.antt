-- ===== src/Pgtable/Leaf.antt =====
-- A write to a word of a table of the third level: one entry changes, and no table.
use yaos.Prelude.{
  ℕ, ◌%◌, ◌<◌, ◌≡◌, ◌≢◌, sym, ap, ap₂, ◌∙◌, ◌⊎◌, inl, inr, Bool, ◌&&◌, arith, ◌==◌, if◌then◌else◌,
  if_true, if_false,
}
use yaos.Pgtable.{base_of, entry_at, write_word}
use yaos.Pgtable.Tables.{
  root_table, pdp_table, pd_table, pdp, pd, entry, IsTree, base_of-aligned, entry_at-ne, role-ne,
  write_word_self, write_word-ne,
}
use yaos.Pgtable.Entry.{first_index, second_index, entry-no_pdp, entry-no_pd, entry-word}
use native.Mathlib.Decide.{ℕ_discrete}

-- the entry at three indices
abbrev pub at_indices : ℕ → ℕ → ℕ → ℕ → ℕ → ℕ → Bool
at_indices n l k i j o = i == n && (j == l && o == k)

module _ {Held : ℕ → Type 0} (m : ℕ → ℕ) (root : ℕ) (t : IsTree m root Held) (n l k v : ℕ)
    (a : n < 512) (b : l < 512) (c : k < 512) (e : pdp m root n ≢ 0) (e' : pd m root n l ≢ 0) where
  abbrev leaf : ℕ
  leaf = pd m root n l

  abbrev leaf_aligned : leaf % 4096 ≡ 0
  leaf_aligned = base_of-aligned (m (entry_at (pdp m root n) l))

  abbrev written : ℕ → ℕ
  written = write_word m (entry_at leaf k) v

  leaf-word :
      (q i : ℕ) → q % 4096 ≡ 0 → i < 512 → leaf ≢ q → written (entry_at q i) ≡ m (entry_at q i)
  leaf-word q i al lt ne =
      write_word-ne m (entry_at leaf k) v (entry_at q i)
        (entry_at-ne leaf q k i leaf_aligned al ne c lt)

  leaf-pdp : (i : ℕ) → i < 512 → pdp written root i ≡ pdp m root i
  leaf-pdp i lt = ap base_of (
      leaf-word root i t.aligned lt (
        role-ne t.role leaf root (pd_table n l) root_table (t.pd_role n l a b e e') t.root_role
          (cc)))

  leaf-pd : (i j : ℕ) → i < 512 → j < 512 → pdp m root i ≢ 0 → pd written root i j ≡ pd m root i j
  leaf-pd i j lt lt' ne =
      ap (λ q. base_of (written (entry_at q j))) (leaf-pdp i lt)
      ∙ ap base_of (
          leaf-word (pdp m root i) j (base_of-aligned (m (entry_at root i))) lt' (
            role-ne t.role leaf (pdp m root i) (pd_table n l) (pdp_table i) (t.pd_role n l a b e e')
              (t.pdp_role i lt ne) (cc)))

  leaf-other :
      (i j : ℕ)
      → i < 512
      → j < 512
      → pdp m root i ≢ 0
      → pd m root i j ≢ 0
      → (i ≢ n) ⊎ (j ≢ l)
      → leaf ≢ pd m root i j
  leaf-other i j lt lt' ne ne' differ =
      role-ne t.role leaf (pd m root i j) (pd_table n l) (pd_table i j) (t.pd_role n l a b e e')
        (t.pd_role i j lt lt' ne ne') (roles differ)
    where
      roles : (i ≢ n) ⊎ (j ≢ l) → pd_table n l ≢ pd_table i j
      roles (inl ne) same = ne (sym (ap first_index same))
      roles (inr ne) same = ne (sym (ap second_index same))

  pub leaf-IsTree : IsTree written root Held
  leaf-IsTree = record {
    role = t.role;
    aligned = t.aligned;
    root_role = t.root_role;
    pdp_role = λ i lt ne. ap t.role (leaf-pdp i lt) ∙ t.pdp_role i lt (λ z. ne (leaf-pdp i lt ∙ z));
    pd_role = λ i j lt lt' ne ne'.
        let old : pdp m root i ≢ 0 = λ z. ne (leaf-pdp i lt ∙ z) in
        ap t.role (leaf-pd i j lt lt' old)
        ∙ t.pd_role i j lt lt' old (λ z. ne' (leaf-pd i j lt lt' old ∙ z));
    held = t.held;
  }

  leaf-keep :
      (i j o : ℕ)
      → i < 512
      → j < 512
      → o < 512
      → ((pdp m root i ≢ 0)
          → (pd m root i j ≢ 0)
          → written (entry_at (pd m root i j) o) ≡ m (entry_at (pd m root i j) o))
      → entry written root i j o ≡ entry m root i j o
  leaf-keep i j o lt lt' lt2 words = elim (ℕ_discrete (pdp m root i) 0) [
    | yes none ↦
        entry-no_pdp written root i j o (leaf-pdp i lt ∙ none)
        ∙ sym (entry-no_pdp m root i j o none)
    | no some_pdp ↦ elim (ℕ_discrete (pd m root i j) 0) [
      | yes none ↦
          entry-no_pd written root i j o (leaf-pd i j lt lt' some_pdp ∙ none)
          ∙ sym (entry-no_pd m root i j o none)
      | no some_pd ↦
          entry-word written root i j o (λ z. some_pdp (sym (leaf-pdp i lt) ∙ z))
            (λ z. some_pd (sym (leaf-pd i j lt lt' some_pdp) ∙ z))
          ∙ ap (λ q. written (entry_at q o)) (leaf-pd i j lt lt' some_pdp)
          ∙ words some_pdp some_pd
          ∙ sym (entry-word m root i j o some_pdp some_pd)
    ]
  ]

  leaf-differ :
      (i j o : ℕ)
      → i < 512
      → j < 512
      → o < 512
      → (i ≢ n) ⊎ (j ≢ l)
      → entry written root i j o ≡ entry m root i j o
  leaf-differ i j o lt lt' lt2 differ = leaf-keep i j o lt lt' lt2 λ ne ne'.
      leaf-word (pd m root i j) o (base_of-aligned (m (entry_at (pdp m root i) j))) lt2
        (leaf-other i j lt lt' ne ne' differ)

  leaf-place : (o : ℕ) → o < 512 → o ≢ k → entry written root n l o ≡ entry m root n l o
  leaf-place o lt ne =
      leaf-keep n l o a b lt
        λ _ _. write_word-ne m (entry_at leaf k) v (entry_at leaf o) (omega (arith, ne))

  leaf-here : entry written root n l k ≡ v
  leaf-here =
      entry-word written root n l k (λ z. e (sym (leaf-pdp n a) ∙ z))
        (λ z. e' (sym (leaf-pd n l a b e) ∙ z))
      ∙ ap (λ q. written (entry_at q k)) (leaf-pd n l a b e)
      ∙ write_word_self m (entry_at leaf k) v

  pub leaf-entry :
      (i j o : ℕ)
      → i < 512
      → j < 512
      → o < 512
      → entry written root i j o ≡ (if at_indices n l k i j o then v else entry m root i j o)
  leaf-entry i j o lt lt' lt2 = elim (ℕ_discrete i n) [
    | no ne ↦ leaf-differ i j o lt lt' lt2 (inl ne) ∙ ground (arith, ne)
    | yes same ↦ elim (ℕ_discrete j l) [
      | no ne ↦ leaf-differ i j o lt lt' lt2 (inr ne) ∙ ground (arith, ne)
      | yes same' ↦ elim (ℕ_discrete o k) [
        | no ne ↦
            ap₂ (λ x y. entry written root x y o) same same'
            ∙ leaf-place o lt2 ne
            ∙ ap₂ (λ x y. entry m root x y o) (sym same) (sym same')
            ∙ sym (if_false (at_indices n l k i j o) v _ (ground (arith, ne)))
        | yes same2 ↦
            ap (λ x. entry written root x j o) same
            ∙ ap₂ (entry written root n) same' same2
            ∙ leaf-here
            ∙ sym (if_true (at_indices n l k i j o) v _ (ground (arith, same, same', same2)))
      ]
    ]
  ]
