-- ===== src/Boot/Table.antt =====
-- The table of pages of input and output: a page is in it once.
use yaos.Prelude.{
  ℕ, zero, suc, ◌+◌, ◌-◌, ◌*◌, ◌/◌, ◌%◌, ◌^◌, ◌≤◌, ◌<◌, ◌≡◌, ◌≢◌, refl, sym, ap, ◌∙◌, subst, inl,
  inr, true, false, ◌&&◌, List, [], ◌∷◌, ◌++◌, length, length-append, arith, Bool-cases, leb, ltb,
  ◌==◌, if◌then◌else◌, if_true, if_false,
}
use yaos.Prelude.Outcome.{Returns, Returns->>=, Returns-mono}
use yaos.Pgtable.{page_2m}
use yaos.Boot.{Boot, max_io_remaps, to_int, is_in, add_map, add_maps}
use native.Mathlib.Decide.{ℕ_discrete}

-- how often a number is in a list
abbrev pub times : ℕ → List ℕ → ℕ
times x [] = 0
times x (y ∷ rest) = if y == x then 1 + times x rest else times x rest

times-append :
    (x y : ℕ) (l : List ℕ) → times x (l ++ (y ∷ [])) ≡ times x l + (if y == x then 1 else 0)
times-append x y [] = ground arith
times-append x y (z ∷ l) = ground (arith, times-append x y l)

is_in-times : (x : ℕ) (l : List ℕ) → is_in x l ≡ (if times x l == 0 then false else true)
unfolding is_in
is_in-times x [] = refl
is_in-times x (y ∷ l) = ground (arith, is_in-times x l)

-- From `s` to `t` the numbers from `lo` to `hi`, `hi` excluded, that were not in the list are in it once,
-- and nothing else has changed.
pub record IsCovered (lo hi : ℕ) (s t : Boot) : Type 0 where
  pub entered :
      (p : ℕ)
      → times p t.io_remap_pages ≡ (
          if leb lo p && (ltb p hi && times p s.io_remap_pages == 0)
          then 1
          else times p s.io_remap_pages)
  pub longer : length t.io_remap_pages ≤ length s.io_remap_pages + (hi - lo)
  pub kept : t ≡ record s { io_remap_pages = t.io_remap_pages }

-- there is room for that many pages
abbrev pub HasRoom : ℕ → Boot → Type 0
HasRoom count s = length s.io_remap_pages + count ≤ max_io_remaps

pub add_map-IsCovered :
    (pg : ℕ) (s : Boot)
    → pg < 2 ^ 31
    → HasRoom 1 s
    → Returns (λ (_, t). IsCovered pg (pg + 1) s t) (add_map pg s)
unfolding add_map
add_map-IsCovered pg s lt room =
    let same : to_int pg ≡ pg = ground (arith, lt) in
    let free : leb max_io_remaps (length s.io_remap_pages) ≡ false = ground (arith, room) in
    elim (Bool-cases (is_in (to_int pg) s.io_remap_pages)) [
      | inl e ↦
          let present : times pg s.io_remap_pages ≢ 0 = ground (
            arith,
            e,
            is_in-times (to_int pg) s.io_remap_pages,
            ap (λ x. times x s.io_remap_pages) same,
          ) in
          subst (Returns λ (_, t). IsCovered pg (pg + 1) s t)
            (sym (if_true (is_in (to_int pg) s.io_remap_pages) _ _ e))
            (record {
              entered = λ p. elim (ℕ_discrete p pg) [
                | yes q ↦ ground (arith, present, q, ap (λ x. times x s.io_remap_pages) q)
                | no ne ↦ ground (arith, ne)
              ];
              longer = omega arith;
              kept = refl;
            })
      | inr e ↦
          let absent : times pg s.io_remap_pages ≡ 0 = ground (
            arith,
            e,
            is_in-times (to_int pg) s.io_remap_pages,
            ap (λ x. times x s.io_remap_pages) same,
          ) in
          subst (Returns λ (_, t). IsCovered pg (pg + 1) s t)
            (sym (
              if_false (is_in (to_int pg) s.io_remap_pages) _ _ e
              ∙ if_false (leb max_io_remaps (length s.io_remap_pages)) _ _ free))
            (record {
              entered = λ p. times-append p (to_int pg) s.io_remap_pages ∙ elim (ℕ_discrete p pg) [
                | yes q ↦ ground (arith, absent, same, q, ap (λ x. times x s.io_remap_pages) q)
                | no ne ↦ ground (arith, ne, same)
              ];
              longer = omega (arith, length-append s.io_remap_pages (to_int pg ∷ []));
              kept = refl;
            })
    ]

pub IsCovered-trans :
    (lo mid hi : ℕ) (s t u : Boot)
    → lo ≤ mid
    → mid ≤ hi
    → IsCovered lo mid s t
    → IsCovered mid hi t u
    → IsCovered lo hi s u
IsCovered-trans lo mid hi s t u le le' c d = record {
  entered = λ p. ground (arith, le, le', c.entered p, d.entered p);
  longer = omega (arith, c.longer, d.longer, le, le');
  kept = d.kept ∙ ap (λ (b : Boot). record b { io_remap_pages = u.io_remap_pages }) c.kept;
}

pub add_maps-IsCovered :
    (count pg : ℕ) (s : Boot)
    → pg + count < 2 ^ 31
    → HasRoom count s
    → Returns (λ (_, t). IsCovered (pg + 1) (pg + 1 + count) s t) (add_maps count (pg * page_2m) s)
unfolding add_maps
add_maps-IsCovered zero pg s lt room = record {
  entered = λ p. ground arith;
  longer = omega arith;
  kept = refl;
}
add_maps-IsCovered (suc count) pg s lt room =
    Returns->>= (λ (_, t). IsCovered (pg + 1) (pg + 1 + 1) s t)
      (λ (_, t). IsCovered (pg + 1) (pg + 1 + suc count) s t) (add_map (pg * page_2m / page_2m + 1))
      (λ _. add_maps count ((pg * page_2m + page_2m) % 2 ^ 64)) s
      (subst (λ x. Returns (λ (_, t). IsCovered (pg + 1) (pg + 1 + 1) s t) (add_map x s))
        (omega arith) (add_map-IsCovered (pg + 1) s (omega (arith, lt)) (omega (arith, room))))
      (λ _ t c.
        Returns-mono _ _ (add_maps count ((pg * page_2m + page_2m) % 2 ^ 64) t)
          (λ (_, u) d.
            IsCovered-trans (pg + 1) (pg + 1 + 1) (pg + 1 + suc count) s t u (omega arith)
              (omega arith) c (subst (λ hi. IsCovered (pg + 1 + 1) hi t u) (omega arith) d))
          (subst
            (λ x.
              Returns (λ (_, u). IsCovered (pg + 1 + 1) (pg + 1 + 1 + count) t u)
                (add_maps count x t))
            (omega (arith, lt))
            (add_maps-IsCovered count (pg + 1) t (omega (arith, lt))
              (omega (arith, room, c.longer)))))
