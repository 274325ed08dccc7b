-- ===== src/Pgtable/Stage.antt =====
-- The table that an entry points to, or a new one: the tables stay a tree with the same entries.
use yaos.Prelude.{
  ℕ, ◌<◌, ◌≡◌, ◌≢◌, refl, sym, ap, ◌∙◌, subst, ◌⊎◌, inl, inr, Option, none, some, ◌==◌, ==_iff,
  if_true, if_false,
}
use yaos.Prelude.Outcome.{ok, Action, WhenOk, WhenOk-mono}
use yaos.Pgtable.{Paging, base_of, entry_at, new_table, table_of}
use yaos.Pgtable.Tables.{Role, no_table, root_table, pdp_table, pd_table, pdp, pd, entry, IsTree}
use yaos.Pgtable.Entry.{Grown-entry}
use yaos.Pgtable.Grow.{
  linked, with_pdp-Grown, with_pd-Grown, with_pdp_lem, with_pd_lem, with_pd-pdp,
}
use yaos.Pgtable.Keep.{with_pdp-IsTree, with_pd-IsTree}
use yaos.Pgtable.Alloc.{==_ne, IsAllocator, IsPaging, Made, new_table-Made}
use native.Mathlib.Decide.{ℕ_discrete}

Role-cases : (r : Role) → (r ≡ no_table) ⊎ (r ≢ no_table)
Role-cases no_table = inl refl
Role-cases root_table = inr (cc)
Role-cases (pdp_table i) = inr (cc)
Role-cases (pd_table i j) = inr (cc)

pub IsTree-mono :
    {Held Held' : ℕ → Type 0} (m : ℕ → ℕ) (root : ℕ)
    → ((q : ℕ) → Held q → Held' q)
    → IsTree m root Held
    → IsTree m root Held'
IsTree-mono m root kept t = record {
  role = t.role;
  aligned = t.aligned;
  root_role = t.root_role;
  pdp_role = t.pdp_role;
  pd_role = t.pd_role;
  held = λ p some_role. kept p (t.held p some_role);
}

module _ {W : Type 0} (Good : W → Type 0) (Held : W → ℕ → Type 0) (root : ℕ) where
  -- No entry of a page has changed.
  abbrev pub Stage : Paging W → Paging W → Type 0
  Stage s t =
      IsPaging Good Held root t
      × ((i j k : ℕ)
          → i < 512
          → j < 512
          → k < 512
          → entry t.mem root i j k ≡ entry s.mem root i j k)

  abbrev pub First : ℕ → Paging W → Option ℕ × Paging W → Type 0
  First n s (none, t) = Stage s t
  First n s (some p, t) = Stage s t × (pdp t.mem root n ≡ p) × (p ≢ 0)

  abbrev pub Second : ℕ → ℕ → Paging W → Option ℕ × Paging W → Type 0
  Second n l s (none, t) = Stage s t
  Second n l s (some p, t) = Stage s t × (pdp t.mem root n ≢ 0) × (pd t.mem root n l ≡ p) × (p ≢ 0)

  module _ (alloc_4k : ℕ → Action W ℕ) (law : IsAllocator alloc_4k Good Held) where
    table_of-none :
        (slot : ℕ) (s : Paging W)
        → base_of (s.mem slot) ≡ 0
        → table_of alloc_4k slot s ≡ new_table alloc_4k slot s
    unfolding table_of
    table_of-none slot s e =
        if_true (base_of (s.mem slot) == 0) _ _ ((==_iff (base_of (s.mem slot)) 0).1 e)

    table_of-some :
        (slot p : ℕ) (s : Paging W)
        → base_of (s.mem slot) ≡ p
        → p ≢ 0
        → table_of alloc_4k slot s ≡ ok (some p, s)
    unfolding table_of
    table_of-some slot p s e ne =
        if_false (base_of (s.mem slot) == 0) _ _
          (==_ne (base_of (s.mem slot)) 0 (λ z. ne (sym e ∙ z)))
        ∙ ap (λ p. ok (some p, s)) e

    unused :
        (s t : Paging W) (v : IsPaging Good Held root s) (p : ℕ)
        → (Held s.heap p → ⊥)
        → v.tree.role p ≡ no_table
    unused s t v p free = elim (Role-cases (v.tree.role p)) [
      | inl e ↦ e
      | inr ne ↦ absurd (free (v.tree.held p ne))
    ]

    made-Stage :
        (slot : ℕ) (s t : Paging W)
        → IsPaging Good Held root s
        → Made Good Held root slot s (none, t)
        → Stage s t
    made-Stage slot s t v (m, r, c, g, kept) = (
      record {
        root_at = r ∙ v.root_at;
        in_use = ap base_of c ∙ v.in_use;
        tree =
            subst (λ m. IsTree m root (Held t.heap)) (sym m) (IsTree-mono s.mem root kept v.tree);
        good = g;
      },
      λ i j k _ _ _. ap (λ m. entry m root i j k) m,
    )

    made-First :
        (n : ℕ)
        → n < 512
        → (s : Paging W) → IsPaging Good Held root s
        → pdp s.mem root n ≡ 0
        → (r : Option ℕ × Paging W) → Made Good Held root (entry_at root n) s r
        → First n s r
    made-First n lt s v e (none, t) h = made-Stage (entry_at root n) s t v h
    made-First n lt s v e (some p, t) (m, r, c, g, kept, al, ne, free, taken) =
        let u : v.tree.role p ≡ no_table = unused s t v p free in
        (
          (
            record {
              root_at = r ∙ v.root_at;
              in_use = ap base_of c ∙ v.in_use;
              tree =
                  subst (λ m. IsTree m root (Held t.heap)) (sym m)
                    (with_pdp-IsTree s.mem root v.tree p al u kept taken n lt e);
              good = g;
            },
            λ i j k a b d.
                ap (λ m. entry m root i j k) m
                ∙ Grown-entry s.mem (linked s.mem root n p) root i j k
                    (with_pdp-Grown s.mem root v.tree p al u n lt e) a b d,
          ),
          ap (λ m. pdp m root n) m ∙ with_pdp_lem s.mem root v.tree p al u n lt e,
          ne,
        )

    pub first_lem :
        (n : ℕ)
        → n < 512
        → (s : Paging W) → IsPaging Good Held root s
        → WhenOk (First n s) (table_of alloc_4k (entry_at root n) s)
    first_lem n lt s v = elim (ℕ_discrete (pdp s.mem root n) 0) [
      | yes e ↦ subst (WhenOk (First n s)) (sym (table_of-none (entry_at root n) s e)) (
          WhenOk-mono (Made Good Held root (entry_at root n) s) (First n s)
            (new_table alloc_4k (entry_at root n) s) (made-First n lt s v e)
            (new_table-Made Good Held root alloc_4k law (entry_at root n) s v.good))
      | no ne ↦
          subst (WhenOk (First n s))
            (sym (table_of-some (entry_at root n) (pdp s.mem root n) s refl ne))
            ((v, λ i j k _ _ _. refl), refl, ne)
    ]

    made-Second :
        (n l : ℕ)
        → n < 512
        → l < 512
        → (s : Paging W) → IsPaging Good Held root s
        → pdp s.mem root n ≢ 0
        → pd s.mem root n l ≡ 0
        → (r : Option ℕ × Paging W) → Made Good Held root (entry_at (pdp s.mem root n) l) s r
        → Second n l s r
    made-Second n l lt lt' s v there e (none, t) h =
        made-Stage (entry_at (pdp s.mem root n) l) s t v h
    made-Second n l lt lt' s v there e (some p, t) (m, r, c, g, kept, al, ne, free, taken) =
        let u : v.tree.role p ≡ no_table = unused s t v p free in
        (
          (
            record {
              root_at = r ∙ v.root_at;
              in_use = ap base_of c ∙ v.in_use;
              tree =
                  subst (λ m. IsTree m root (Held t.heap)) (sym m)
                    (with_pd-IsTree s.mem root v.tree p al u kept taken n l lt lt' there e);
              good = g;
            },
            λ i j k a b d.
                ap (λ m. entry m root i j k) m
                ∙ Grown-entry s.mem (linked s.mem (pdp s.mem root n) l p) root i j k
                    (with_pd-Grown s.mem root v.tree p al u n l lt lt' there e) a b d,
          ),
          (λ z. there (
              sym (with_pd-pdp s.mem root v.tree p al u n l lt lt' there e n lt)
              ∙ ap (λ m. pdp m root n) (sym m)
              ∙ z)),
          ap (λ m. pd m root n l) m ∙ with_pd_lem s.mem root v.tree p al u n l lt lt' there e,
          ne,
        )

    pub second_lem :
        (n l : ℕ)
        → n < 512
        → l < 512
        → (s : Paging W) → IsPaging Good Held root s
        → pdp s.mem root n ≢ 0
        → WhenOk (Second n l s) (table_of alloc_4k (entry_at (pdp s.mem root n) l) s)
    second_lem n l lt lt' s v there =
        let slot : ℕ = entry_at (pdp s.mem root n) l in
        elim (ℕ_discrete (pd s.mem root n l) 0) [
          | yes e ↦ subst (WhenOk (Second n l s)) (sym (table_of-none slot s e)) (
              WhenOk-mono (Made Good Held root slot s) (Second n l s) (new_table alloc_4k slot s)
                (made-Second n l lt lt' s v there e)
                (new_table-Made Good Held root alloc_4k law slot s v.good))
          | no ne ↦
              subst (WhenOk (Second n l s)) (sym (table_of-some slot (pd s.mem root n l) s refl ne))
                ((v, λ i j k _ _ _. refl), there, refl, ne)
        ]
