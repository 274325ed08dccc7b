-- ===== src/Holes/Region.antt =====
-- What linking a region and carving one off do to the nodes and to the addresses covered.
use yaos.Prelude.{
  ℕ, zero, suc, ◌+◌, ◌-◌, ◌%◌, ◌^◌, ◌≤◌, ◌<◌, ◌≡◌, refl, ap, Bool, true, false, Option, none, some,
  List, ◌∷◌, arith, ltb, leb, ◌==◌, ◌&&◌, count_if,
}
use yaos.Prelude.Outcome.{ok}
use yaos.Holes.{Hole, Holes, chain, init_holes, tail, first_fit, unlink, store, add_hole, carve}
use yaos.Holes.Weigh.{
  weigh, slots, within, cover, unlink-Unlinked, weigh-store, size-first_fit, Unlinked,
}

-- each of the `n` nodes of the array is in one of the two lists, once
abbrev pub HasNodes : ℕ → Holes → Type 0
HasNodes n s = (k : ℕ) → slots k s.pfree + slots k s.phead ≡ count_if (ltb k n)

-- a hole ends below 2^64
abbrev pub Fits : Hole → Type 0
Fits h = h.addr + h.size < 2 ^ 64

-- The list without the hole that was found.
pub unlink-some :
    (size : ℕ) (l : List Hole) (p : Hole)
    → first_fit size l ≡ some p
    → slots p.slot l ≤ 1
    → (r : List Hole) × (unlink p.slot l ≡ some r) × ((f : Hole → ℕ) → weigh f l ≡ f p + weigh f r)
unlink-some size l p e once = go (unlink p.slot l) refl (unlink-Unlinked size l p e once)
  where
    go :
        (out : Option (List Hole))
        → unlink p.slot l ≡ out
        → Unlinked p l out
        → (r : List Hole) × (unlink p.slot l ≡ some r)
          × ((f : Hole → ℕ) → weigh f l ≡ f p + weigh f r)
    go none e' u = elim u [ ]
    go (some r) e' u = (r, e', u)

-- the node that is left of `p` when `size` bytes are carved off its start
abbrev pub shrunk : ℕ → Hole → Hole
shrunk size p = record p { addr = (p.addr + size) % 2 ^ 64; size = p.size - size }

-- What carving `size` bytes off `p` has done: `dropped` are the bytes lost with the hole.
abbrev pub Carved : ℕ → Holes → ℕ → Hole → (ℕ → ℕ) → Holes → Type 0
Carved n s size p dropped s' =
    HasNodes n s'
    × (s'.locked ≡ s.locked)
    × ((a : ℕ) → cover a s.phead ≡ cover a s'.phead + count_if (within p.addr size a) + dropped a)

module _ (n : ℕ) (s : Holes) (nodes : HasNodes n s) where
  pub once : (k : ℕ) → slots k s.phead ≤ 1
  once k = ground (arith, nodes k)

  module _ (drop : ℕ → Bool) (size : ℕ) (p : Hole) (found : first_fit size s.phead ≡ some p)
      (fits : Fits p) where
    split :
        (a : ℕ)
        → count_if (within p.addr p.size a)
          ≡ count_if (within p.addr size a) + count_if (within (p.addr + size) (p.size - size) a)
    split a = ground (arith, size-first_fit size s.phead p found)

    pub carve-drop :
        drop (p.size - size) ≡ true
        → (r : List Hole) × (unlink p.slot s.phead ≡ some r)
          × (let s' : Holes = record s { pfree = shrunk size p ∷ s.pfree; phead = r } in
              (carve drop size p s ≡ ok (p.addr, s'))
              × Carved n s size p (λ a. count_if (within (p.addr + size) (p.size - size) a)) s')
    unfolding carve
    carve-drop gone =
        let (r, e, w) = unlink-some size s.phead p found (once p.slot) in
        (
          r,
          e,
          (
            rw (gone, e),
            (
              (λ k. omega (arith, nodes k, w (λ h. count_if (h.slot == k)))),
              refl,
              λ a. omega (arith, split a, w (λ h. count_if (within h.addr h.size a))),
            ),
          ),
        )

    stored :
        (f : Hole → ℕ)
        → weigh f (store (shrunk size p) s.phead) + f p ≡ weigh f s.phead + f (shrunk size p)
    stored f = weigh-store f size s.phead p (shrunk size p) found (once p.slot) refl

    pub carve-keep :
        drop (p.size - size) ≡ false
        → let s' : Holes = record s { phead = store (shrunk size p) s.phead } in
          (carve drop size p s ≡ ok (p.addr, s')) × Carved n s size p (λ a. 0) s'
    unfolding carve
    carve-keep left =
        let at : (p.addr + size) % 2 ^ 64 ≡ p.addr + size =
          omega (arith, size-first_fit size s.phead p found) in
        (
          rw left,
          (
            (λ k. omega (arith, nodes k, stored (λ h. count_if (h.slot == k)))),
            refl,
            λ a.
                let w = stored (λ h. count_if (within h.addr h.size a)) in
                ground (arith, split a, w, at),
          ),
        )

  -- Linking a new hole on the first free node.
  pub add_hole_lem :
      (link : Hole → List Hole → List Hole)
      → ((f : Hole → ℕ) (p : Hole) (l : List Hole) → weigh f (link p l) ≡ f p + weigh f l)
      → (q : Hole) (rest : List Hole) (addr size : ℕ) → s.pfree ≡ q ∷ rest
      → let p : Hole = record q { addr = addr; size = size; orgin_size = size } in
        let s' : Holes = record s { pfree = rest; phead = link p s.phead } in
        (add_hole link q addr size s ≡ ok (tt, s'))
        × HasNodes n s'
        × ((a : ℕ) → cover a s'.phead ≡ count_if (within addr size a) + cover a s.phead)
  add_hole_lem link w q rest addr size e =
      let p : Hole = record q { addr = addr; size = size; orgin_size = size } in
      let taken_off : tail s.pfree ≡ rest = ap tail e in
      (
        ap (λ (f : List Hole). ok (tt, record s { pfree = f; phead = link p s.phead })) taken_off,
        (λ k.
            let had : slots k s.pfree ≡ slots k (q ∷ rest) = ap (slots k) e in
            omega (arith, nodes k, had, w (λ h. count_if (h.slot == k)) p s.phead)),
        λ a. w (λ h. count_if (within h.addr h.size a)) p s.phead,
      )

pub slots-chain :
    (k slot count : ℕ) → slots k (chain slot count) ≡ count_if (leb slot k && ltb k (slot + count))
slots-chain k slot zero = ground arith
slots-chain k slot (suc count) = ground (arith, slots-chain k (slot + 1) count)

-- After the initialisation each node is free, and none is a hole.
pub init_holes-HasNodes : (n : ℕ) → HasNodes n (init_holes n)
unfolding init_holes
init_holes-HasNodes n k = ground (arith, slots-chain k 0 n)
