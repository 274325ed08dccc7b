-- ===== src/Loader/Rounds.antt =====
-- Modules that wait for one another are all loaded if ten rounds are enough for their order.
use yaos.Prelude.{
  ℕ, suc, ◌+◌, ◌≤◌, ◌<◌, ◌≡◌, refl, sym, ap, ◌∙◌, subst, ◌⊎◌, inl, inr, Bool, true, false, not,
  ◌||◌, List, [], ◌∷◌, arith, All, All-map, length, if◌then◌else◌, if_true, if_false,
}
use yaos.Prelude.Outcome.{Outcome, Action, ok, ◌>>=◌, pure, >>=-ok}
use yaos.Loader.{
  Moduledata, Module, bp, is_zero, adding, answered, load, load_due, mod_err_nextloop, mod_bpload,
}
use native.Mathlib.Decide.{ℕ_discrete}

-- the modules of a table, from the number `i` on, before any is loaded
abbrev pub fresh : ℕ → List Moduledata → List Module
fresh i [] = []
fresh i (p ∷ rest) = if is_zero p then fresh i rest else adding i p ∷ fresh (i + 1) rest

abbrev pub Ids : ℕ → List Module → Type 0
Ids h [] = Unit
Ids h (m ∷ ms) = (m.id ≡ h) × Ids (h + 1) ms

module _ {W : Type 0} (event : ℕ → ℕ → ℕ → ℕ → Action W ℕ) (up : W → ℕ → Type 0) (rank : ℕ → ℕ)
    (n : ℕ) where
  -- The modules of lower rank are up.
  abbrev pub LowerUp : W → ℕ → Type 0
  LowerUp w p = (j : ℕ) → j < n → rank j < p → up w j

  -- A handler returns, and what was up stays up. It brings its module up and answers MOD_ERR_OK, or
  -- answers MOD_ERR_NEXTLOOP, which it does only while some module of lower rank is not up.
  pub record Answer (i : ℕ) (w : W) (r : Outcome (ℕ × W)) : Type 0 where
    pub ret : ℕ
    pub after : W
    pub returns : r ≡ ok (ret, after)
    pub stays : (j : ℕ) → up w j → up after j
    pub verdict : ((ret ≡ 0) × up after i) ⊎ ((ret ≡ mod_err_nextloop) × (LowerUp w (rank i) → ⊥))

  abbrev pub IsGraded : Type 0
  IsGraded = (h i a : ℕ) (w : W) → Answer i w (event h mod_bpload i a w)

  -- The module is loaded, or its rank is at least `p`.
  abbrev pub Good : ℕ → W → Module → Type 0
  Good p w m = ((m.status ≡ true) × up w m.id) ⊎ ((m.status ≡ false) × (p ≤ rank m.id))

  Good-stays :
      (p : ℕ) (w w' : W) (m : Module) → ((j : ℕ) → up w j → up w' j) → Good p w m → Good p w' m
  Good-stays p w w' m stays (inl (e, u)) = inl (e, stays m.id u)
  Good-stays p w w' m stays (inr h) = inr h

  -- What a round has done.
  pub record Round (p : ℕ) (ms : List Module) (w : W) (r : Outcome ((List Module × Bool) × W))
      : Type 0 where
    pub all : List Module
    pub found : Bool
    pub after : W
    pub returns : r ≡ ok ((all, found), after)
    pub stays : (j : ℕ) → up w j → up after j
    pub good : All (Good (p + 1) after) all
    pub ids : (h : ℕ) → Ids h ms → Ids h all
    pub size : length all ≡ length ms
    pub finished : found ≡ false → All (λ m. m.status ≡ true) all

  load-answered :
      (m : Module) (w w' : W) (ret : ℕ)
      → event m.handler mod_bpload m.id m.arg w ≡ ok (ret, w')
      → load event bp m w ≡ ok (answered event bp m ret, w')
  unfolding load
  load-answered m w w' ret e = rw (◌>>=◌, e) refl

  load_due-skip :
      (m : Module) (ms : List Module) (w w' : W) (all : List Module) (found : Bool)
      → m.status ≡ true
      → load_due event bp ms w ≡ ok ((all, found), w')
      → load_due event bp (m ∷ ms) w ≡ ok ((m ∷ all, found), w')
  unfolding load_due
  load_due-skip m ms w w' all found e rest =
      if_false (not m.status) _ _ (ap not e)
      ∙ >>=-ok (load_due event bp ms) (λ x. pure (m ∷ x.0, x.1)) w w' (all, found) rest

  abbrev answered_all : Module → ℕ → List Module → List Module
  answered_all m ret all = (answered event bp m ret).0 ∷ all

  abbrev answered_found : Module → ℕ → Bool → Bool
  answered_found m ret found = (answered event bp m ret).1 || found

  load_due-try :
      (m : Module) (ms : List Module) (w w1 w' : W) (ret : ℕ) (all : List Module) (found : Bool)
      → m.status ≡ false
      → event m.handler mod_bpload m.id m.arg w ≡ ok (ret, w1)
      → load_due event bp ms w1 ≡ ok ((all, found), w')
      → load_due event bp (m ∷ ms) w ≡ ok ((answered_all m ret all, answered_found m ret found), w')
  unfolding load_due
  load_due-try m ms w w1 w' ret all found e tried rest =
      if_true (not m.status) _ _ (ap not e)
      ∙ >>=-ok (load event bp m) (λ y. load_due event bp ms >>= λ x. pure (y.0 ∷ x.0, y.1 || x.1)) w
          w1 (answered event bp m ret) (load-answered m w w1 ret tried)
      ∙ >>=-ok (load_due event bp ms) (λ x. pure (answered_all m ret x.0, answered_found m ret x.1))
          w1 w' (all, found) rest

  later :
      (p : ℕ) (m : Module) (w : W)
      → p ≤ rank m.id
      → LowerUp w p
      → (LowerUp w (rank m.id) → ⊥)
      → p + 1 ≤ rank m.id
  later p m w above low waits = elim (ℕ_discrete (rank m.id) p) [
    | yes same ↦ absurd (waits (subst (LowerUp w) (sym same) low))
    | no ne ↦ omega (arith, above, ne)
  ]

  module _ (graded : IsGraded) (p : ℕ) where
    pub load_due-Round :
        (ms : List Module) (w : W)
        → LowerUp w p
        → All (Good p w) ms
        → Round p ms w (load_due event bp ms w)
    unfolding load_due
    load_due-Round [] w low good = record {
      all = [];
      found = false;
      after = w;
      returns = refl;
      stays = λ j u. u;
      good = tt;
      ids = λ h i. tt;
      size = refl;
      finished = λ e. tt;
    }
    load_due-Round (m ∷ ms) w low (inl (e, u), good) =
        let r = load_due-Round ms w low good in
        record {
          all = m ∷ r.all;
          found = r.found;
          after = r.after;
          returns = load_due-skip m ms w r.after r.all r.found e r.returns;
          stays = r.stays;
          good = (inl (e, r.stays m.id u), r.good);
          ids = λ h i. (i.0, r.ids (h + 1) i.1);
          size = ap suc r.size;
          finished = λ none. (e, r.finished none);
        }
    load_due-Round (m ∷ ms) w low (inr (e, above), good) =
        let a = graded m.handler m.id m.arg w in
        let r =
          load_due-Round ms a.after (λ j lt below. a.stays j (low j lt below))
            (All-map (λ k. Good-stays p w a.after k a.stays) ms good) in
        elim a.verdict [
          | inl (z, u) ↦ record {
            all = record m { status = true } ∷ r.all;
            found = r.found;
            after = r.after;
            returns =
                load_due-try m ms w a.after r.after a.ret r.all r.found e a.returns r.returns
                ∙ ap (λ ret. ok ((answered_all m ret r.all, answered_found m ret r.found), r.after))
                    z;
            stays = λ j v. r.stays j (a.stays j v);
            good = (inl (refl, r.stays m.id u), r.good);
            ids = λ h i. (i.0, r.ids (h + 1) i.1);
            size = ap suc r.size;
            finished = λ none. (refl, r.finished none);
          }
          | inr (z, waits) ↦ record {
            all = m ∷ r.all;
            found = true;
            after = r.after;
            returns =
                load_due-try m ms w a.after r.after a.ret r.all r.found e a.returns r.returns
                ∙ ap (λ ret. ok ((answered_all m ret r.all, answered_found m ret r.found), r.after))
                    z;
            stays = λ j v. r.stays j (a.stays j v);
            good = (inr (e, later p m w above low waits), r.good);
            ids = λ h i. (i.0, r.ids (h + 1) i.1);
            size = ap suc r.size;
            finished = λ none. absurd (cc none);
          }
        ]
