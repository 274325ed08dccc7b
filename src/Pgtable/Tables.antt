-- ===== src/Pgtable/Tables.antt =====
-- The tree of tables: no table is reached in two ways, so that a write to one changes no other.
use yaos.Prelude.{
  ℕ, ◌%◌, ◌<◌, ◌≡◌, ◌≢◌, refl, sym, ap, ◌∙◌, arith, ◌==◌, ==_iff, if◌then◌else◌, if_true,
}
use yaos.Pgtable.{base_of, entry_at, write_word, clear_table}

-- what a page of 4K serves as
pub data Role : Type 0 where
  no_table root_table : Role
  pdp_table : ℕ → Role
  pd_table : ℕ → ℕ → Role

module _ (mem : ℕ → ℕ) (root : ℕ) where
  abbrev pub pdp : ℕ → ℕ
  pdp i = base_of (mem (entry_at root i))

  abbrev pub pd : ℕ → ℕ → ℕ
  pd i j = base_of (mem (entry_at (pdp i) j))

  -- the entry of a page, 0 where a table is missing
  abbrev pub entry : ℕ → ℕ → ℕ → ℕ
  entry i j k = if pdp i == 0 then 0 else if pd i j == 0 then 0 else mem (entry_at (pd i j) k)

  -- `role` tells for each page of 4K which table it is, and the tables in use are held.
  pub record IsTree (Held : ℕ → Type 0) : Type 0 where
    pub role : ℕ → Role
    pub aligned : root % 4096 ≡ 0
    pub root_role : role root ≡ root_table
    pub pdp_role : (i : ℕ) → i < 512 → pdp i ≢ 0 → role (pdp i) ≡ pdp_table i
    pub pd_role :
        (i j : ℕ) → i < 512 → j < 512 → pdp i ≢ 0 → pd i j ≢ 0 → role (pd i j) ≡ pd_table i j
    pub held : (p : ℕ) → role p ≢ no_table → Held p

pub base_of-aligned : (x : ℕ) → base_of x % 4096 ≡ 0
base_of-aligned x = omega arith

-- Words of different tables are different words.
pub entry_at-ne :
    (p q i j : ℕ)
    → p % 4096 ≡ 0
    → q % 4096 ≡ 0
    → p ≢ q
    → i < 512
    → j < 512
    → entry_at p i ≢ entry_at q j
entry_at-ne p q i j a b ne lt lt' = omega (arith, a, b, ne, lt, lt')

pub role-ne : (role : ℕ → Role) (p q : ℕ) (a b : Role) → role p ≡ a → role q ≡ b → a ≢ b → p ≢ q
role-ne role p q a b e e' ne same = ne (sym e ∙ ap role same ∙ e')

pub write_word_self : (mem : ℕ → ℕ) (a v : ℕ) → write_word mem a v a ≡ v
write_word_self mem a v = if_true (a == a) _ _ ((==_iff a a).1 refl)

pub write_word-ne : (mem : ℕ → ℕ) (a v b : ℕ) → a ≢ b → write_word mem a v b ≡ mem b
write_word-ne mem a v b ne = ground (arith, ne)

-- A new table at `p`, linked at `slot`: what stands in the words of a table.
pub linked-new :
    (mem : ℕ → ℕ) (slot v p i : ℕ)
    → i < 512
    → slot ≢ entry_at p i
    → write_word (clear_table mem p) slot v (entry_at p i) ≡ 0
linked-new mem slot v p i lt ne = ground (arith, lt, ne)

pub linked-other :
    (mem : ℕ → ℕ) (slot v p q i : ℕ)
    → p % 4096 ≡ 0
    → q % 4096 ≡ 0
    → p ≢ q
    → i < 512
    → slot ≢ entry_at q i
    → write_word (clear_table mem p) slot v (entry_at q i) ≡ mem (entry_at q i)
linked-other mem slot v p q i a b other lt ne = ground (arith, a, b, other, lt, ne)
