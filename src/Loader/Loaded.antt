-- ===== src/Loader/Loaded.antt =====
-- `init_module` as a whole.
use yaos.Prelude.{
  ℕ, zero, suc, ◌+◌, ◌≤◌, ◌<◌, ◌≡◌, refl, sym, ap, ◌∙◌, subst, inl, inr, Bool, true, false, List,
  [], ◌∷◌, arith, All, All-map, All-map₂, ◌||◌, Bool-cases, leb, length, if_true, if_false,
}
use yaos.Prelude.Outcome.{Action, ok, ◌>>=◌, pure, >>=-ok}
use yaos.Loader.{
  Moduledata, Module, bp, is_zero, adding, load, load_due, load_again, add_modules, init_module,
  max_module_nr,
}
use yaos.Loader.Rounds.{fresh, Ids, LowerUp, IsGraded, Good, load_due-Round}
use native.Mathlib.Decide.{ℕ_discrete}
use mathlib.Core.Path.{fun_ext}

fresh-Ids : (i : ℕ) (table : List Moduledata) → Ids i (fresh i table)
fresh-Ids i [] = tt
fresh-Ids i (p ∷ rest) = elim (Bool-cases (is_zero p)) [
  | inl skip ↦ rw skip (fresh-Ids i rest)
  | inr real ↦ rw real (refl, fresh-Ids (i + 1) rest)
]

-- The modules with numbers from `h` on have each number below `h + length ms`.
at_number :
    (P : Module → Type 0) (h : ℕ) (ms : List Module)
    → Ids h ms
    → All P ms
    → (j : ℕ) → h ≤ j
    → j < h + length ms
    → (m : Module) × (m.id ≡ j) × P m
at_number P h [] i all j le lt = absurd (omega arith)
at_number P h (m ∷ ms) i all j le lt = elim (ℕ_discrete h j) [
  | yes same ↦ (m, i.0 ∙ same, all.0)
  | no ne ↦ at_number P (h + 1) ms i.1 all.1 j (omega (arith, ne, le)) (omega (arith, lt))
]

Ids-below : (h : ℕ) (ms : List Module) → Ids h ms → All (λ m. m.id < h + length ms) ms
Ids-below h [] i = tt
Ids-below h (m ∷ ms) i =
    (omega (arith, i.0), All-map (λ k lt. omega (arith, lt)) ms (Ids-below (h + 1) ms i.1))

module _ {W : Type 0} (event : ℕ → ℕ → ℕ → ℕ → Action W ℕ) where
  add_modules-load_due :
      (i : ℕ) (table : List Moduledata) (w : W)
      → i + length (fresh i table) ≤ max_module_nr
      → add_modules event i table w ≡ load_due event bp (fresh i table) w
  unfolding add_modules load_due
  add_modules-load_due i [] w fits = refl
  add_modules-load_due i (p ∷ rest) w fits = elim (Bool-cases (is_zero p)) [
    | inl skip ↦
        let same : fresh i (p ∷ rest) ≡ fresh i rest = if_true (is_zero p) _ _ skip in
        if_true (is_zero p) _ _ skip
        ∙ add_modules-load_due i rest w (subst (λ l. i + length l ≤ max_module_nr) same fits)
        ∙ ap (λ l. load_due event bp l w) (sym same)
    | inr real ↦
        let same : fresh i (p ∷ rest) ≡ adding i p ∷ fresh (i + 1) rest =
          if_false (is_zero p) _ _ real in
        let fits' : i + length (adding i p ∷ fresh (i + 1) rest) ≤ max_module_nr =
          subst (λ l. i + length l ≤ max_module_nr) same fits in
        let room : leb max_module_nr i ≡ false = ground (arith, fits') in
        let others : add_modules event (i + 1) rest ≡ load_due event bp (fresh (i + 1) rest) =
          fun_ext (λ w'. add_modules-load_due (i + 1) rest w' (omega (arith, fits'))) in
        if_false (is_zero p) _ _ real
        ∙ if_false (leb max_module_nr i) _ _ room
        ∙ ap (λ f. (load event bp (adding i p) >>= λ y. f >>= λ x. pure (y.0 ∷ x.0, y.1 || x.1)) w)
            others
        ∙ ap (λ l. load_due event bp l w) (sym same)
  ]

  module _ (up : W → ℕ → Type 0) (rank : ℕ → ℕ) (n : ℕ) (graded : IsGraded event up rank n) where
    -- After a round every module of rank `p` is up too.
    low_next :
        (p : ℕ) (all : List Module) (w : W)
        → Ids 0 all
        → length all ≡ n
        → All (Good event up rank n (p + 1) w) all
        → LowerUp event up rank n w (p + 1)
    low_next p all w ids size good j lt below =
        let (m, at, ok_m) =
          at_number (Good event up rank n (p + 1) w) 0 all ids good j (omega arith)
            (omega (arith, lt, size)) in
        elim ok_m [
          | inl (e, u) ↦ subst (up w) at u
          | inr (e, above) ↦ absurd (not_below j p m.id (ap rank at) above below)
        ]
      where
        not_below : (j p i : ℕ) → rank i ≡ rank j → p + 1 ≤ rank i → rank j < p + 1 → ⊥
        not_below j p i e above below = omega (arith, e, above, below)

    statuses :
        (p : ℕ) (all : List Module) (w : W)
        → ((j : ℕ) → j < n → rank j < p)
        → Ids 0 all
        → length all ≡ n
        → All (Good event up rank n p w) all
        → All (λ m. m.status ≡ true) all
    statuses p all w ranks ids size good =
        All-map₂
          (λ m lt ok_m. elim ok_m [
            | inl (e, u) ↦ e
            | inr (e, above) ↦ absurd (omega (arith, above, ranks m.id (omega (arith, lt, size))))
          ])
          all (Ids-below 0 all ids) good

    load_again-Loaded :
        (left p : ℕ) (found : Bool) (all : List Module) (w : W)
        → ((j : ℕ) → j < n → rank j < p + left)
        → LowerUp event up rank n w p
        → Ids 0 all
        → length all ≡ n
        → All (Good event up rank n p w) all
        → (found ≡ false → All (λ m. m.status ≡ true) all)
        → (all' : List Module) × (w' : W) × (load_again event bp left found all w ≡ ok (all', w'))
          × All (λ m. m.status ≡ true) all'
          × (length all' ≡ n)
    unfolding load_again
    load_again-Loaded zero p found all w ranks low ids size good finished =
        (all, w, refl, statuses p all w (λ j lt. omega (arith, ranks j lt)) ids size good, size)
    load_again-Loaded (suc left) p false all w ranks low ids size good finished =
        (all, w, refl, finished refl, size)
    load_again-Loaded (suc left) p true all w ranks low ids size good finished =
        let r = load_due-Round event up rank n graded p all w low good in
        let (all', w', e, done, count) =
          load_again-Loaded left (p + 1) r.found r.all r.after (λ j lt. omega (arith, ranks j lt))
            (low_next p r.all r.after (r.ids 0 ids) (r.size ∙ size) r.good) (r.ids 0 ids)
            (r.size ∙ size) r.good r.finished in
        (
          all',
          w',
          >>=-ok (load_due event bp all) (λ x. load_again event bp left x.1 x.0) w r.after
                (r.all, r.found) r.returns
              ∙ e,
          done,
          count,
        )

    fresh-Good :
        (i : ℕ) (table : List Moduledata) (w : W) → All (Good event up rank n 0 w) (fresh i table)
    fresh-Good i [] w = tt
    fresh-Good i (p ∷ rest) w = elim (Bool-cases (is_zero p)) [
      | inl skip ↦ rw skip (fresh-Good i rest w)
      | inr real ↦ rw real (inr (refl, omega arith), fresh-Good (i + 1) rest w)
    ]

-- Let a handler always return and undo nothing, and let it bring its module up and answer MOD_ERR_OK, or
-- answer MOD_ERR_NEXTLOOP, which it does only while a module of lower rank is not up. If the table has
-- at most 256 entries that have a name and a handler, and their modules have ranks below 10, then
-- init_module returns with a module for each of these entries, and all of them are loaded.
pub init_module-Loaded :
    {W : Type 0} (event : ℕ → ℕ → ℕ → ℕ → Action W ℕ) (up : W → ℕ → Type 0) (rank : ℕ → ℕ)
    (table : List Moduledata) (w : W)
    → IsGraded event up rank (length (fresh 0 table))
    → length (fresh 0 table) ≤ max_module_nr
    → ((j : ℕ) → j < length (fresh 0 table) → rank j < 10)
    → (all : List Module) × (w' : W) × (init_module event table w ≡ ok (all, w'))
      × All (λ m. m.status ≡ true) all
      × (length all ≡ length (fresh 0 table))
unfolding init_module
init_module-Loaded event up rank table w graded fits ranks =
    let n = length (fresh 0 table) in
    let ids = fresh-Ids 0 table in
    let r =
      load_due-Round event up rank n graded 0 (fresh 0 table) w
        (λ j lt below. absurd (omega (arith, below)))
        (fresh-Good event up rank n graded 0 table w) in
    let (all, w', e, done, count) =
      load_again-Loaded event up rank n graded 9 1 r.found r.all r.after ranks
        (low_next event up rank n graded 0 r.all r.after (r.ids 0 ids) r.size r.good) (r.ids 0 ids)
        r.size r.good r.finished in
    (
      all,
      w',
      >>=-ok (add_modules event 0 table) (λ x. load_again event bp 9 x.1 x.0) w r.after
            (r.all, r.found)
            (add_modules-load_due event 0 table w (omega (arith, fits)) ∙ r.returns)
          ∙ e,
      done,
      count,
    )
