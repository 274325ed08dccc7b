-- ===== src/Softirq/Queue.antt =====
-- The queues of tasklets as lists, and what `link_last` and the schedule functions do to them.
use yaos.Prelude.{
  ℕ, ◌≡◌, ◌≢◌, refl, sym, ap, ◌∙◌, subst, Bool, true, false, Option, none, some, List, [], ◌∷◌,
  ◌++◌, arith, All, Distinct, Distinct-append_one, ==_iff,
}
use yaos.Softirq.{
  Tasklet, Slot, head_slot, next_of, TaskletHead, TaskletVecs, Softirqs, vec_of, set_vec,
  store_next, store_head, put, link_last,
}
use native.Mathlib.Decide.{ℕ_discrete}

-- The links from `o` on pass through the tasklets `l` and end there.
abbrev pub Chain : (ℕ → Tasklet) → Option ℕ → List ℕ → Type 0
Chain f o [] = o ≡ none
Chain f o (t ∷ l) = (o ≡ some t) × Chain f (f t).next l

-- the slot behind the last tasklet
abbrev pub end_slot : Slot → List ℕ → Slot
end_slot slot [] = slot
end_slot slot (t ∷ l) = end_slot (next_of t) l

-- The queue holds the tasklets `l`, the first to run first.
pub record IsQueue (f : ℕ → Tasklet) (v : TaskletHead) (l : List ℕ) : Type 0 where
  pub chain : Chain f v.head l
  pub tail : v.tail ≡ end_slot head_slot l
  pub distinct : Distinct l

-- The tasklet `j` has changed in its link at most.
abbrev pub SameBut : (f g : ℕ → Tasklet) → ℕ → Type 0
SameBut f g j = g j ≡ record (f j) { next = (g j).next }

pub put_self : (f : ℕ → Tasklet) (k : ℕ) (t : Tasklet) → put f k t k ≡ t
put_self f k t = rw ((==_iff k k).1 refl)

pub put_ne : (f : ℕ → Tasklet) (k : ℕ) (t : Tasklet) (j : ℕ) → j ≢ k → put f k t j ≡ f j
put_ne f k t j ne = ground (arith, ne)

pub Chain-same :
    (f g : ℕ → Tasklet) (o : Option ℕ) (l : List ℕ)
    → All (λ j. (g j).next ≡ (f j).next) l
    → Chain f o l
    → Chain g o l
Chain-same f g o [] same c = c
Chain-same f g o (t ∷ l) same c =
    (c.0, subst (λ p. Chain g p l) (sym same.0) (Chain-same f g (f t).next l same.1 c.1))

end_slot-All :
    (P : ℕ → Type 0) (x : ℕ) (l : List ℕ) (k : ℕ)
    → All P (x ∷ l)
    → end_slot (next_of x) l ≡ next_of k
    → P k
end_slot-All P x [] k h e =
    subst P (ap (λ (s : Slot). elim s [ head_slot ↦ x | next_of y ↦ y ]) e) h.0
end_slot-All P x (y ∷ l) k h e = end_slot-All P y l k h.1 e

-- The chain behind `x` grows by `t` when the last link is set to it.
Chain-grow :
    (f g : ℕ → Tasklet) (t k x : ℕ) (l : List ℕ)
    → ((j : ℕ) → j ≢ k → j ≢ t → (g j).next ≡ (f j).next)
    → (g k).next ≡ some t
    → (g t).next ≡ none
    → Distinct (x ∷ l)
    → All (λ j. j ≢ t) (x ∷ l)
    → end_slot (next_of x) l ≡ next_of k
    → Chain f (f x).next l
    → Chain g (g x).next (l ++ (t ∷ []))
Chain-grow f g t k x [] same last end_of d out e c =
    let at : x ≡ k = ap (λ (s : Slot). elim s [ head_slot ↦ x | next_of y ↦ y ]) e in
    (subst (λ y. (g y).next ≡ some t) (sym at) last, end_of)
Chain-grow f g t k x (y ∷ l) same last end_of d out e c =
    let ne : x ≢ k = λ at. end_slot-All (λ j. j ≢ x) y l k d.0 e (sym at) in
    (same x ne out.0 ∙ c.0, Chain-grow f g t k y l same last end_of d.1 out.1 e c.1)

-- the links after `link_last`
abbrev pub linked : Slot → ℕ → (ℕ → Tasklet) → ℕ → Tasklet
linked slot t f = store_next slot t (put f t (record (f t) { next = none }))

abbrev pub grown : ℕ → TaskletHead → TaskletHead
grown t v = record (store_head v.tail t v) { tail = next_of t }

next_of-ne : (k : ℕ) → next_of k ≢ head_slot
next_of-ne k = cc

end_slot-next_of : (x : ℕ) (l : List ℕ) → (k : ℕ) × (end_slot (next_of x) l ≡ next_of k)
end_slot-next_of x [] = (x, refl)
end_slot-next_of x (y ∷ l) = end_slot-next_of y l

end_slot-append : (slot : Slot) (l : List ℕ) (t : ℕ) → end_slot slot (l ++ (t ∷ [])) ≡ next_of t
end_slot-append slot [] t = refl
end_slot-append slot (x ∷ l) t = end_slot-append (next_of x) l t

module _ (f : ℕ → Tasklet) (t : ℕ) where
  abbrev cleared : ℕ → Tasklet
  cleared = put f t (record (f t) { next = none })

  linked-last : (k : ℕ) → (linked (next_of k) t f k).next ≡ some t
  linked-last k =
      ap (λ (x : Tasklet). x.next) (put_self cleared k (record (cleared k) { next = some t }))

  linked-new : (k : ℕ) → t ≢ k → (linked (next_of k) t f t).next ≡ none
  linked-new k ne =
      ap (λ (x : Tasklet). x.next) (put_ne cleared k (record (cleared k) { next = some t }) t ne)
      ∙ ap (λ (x : Tasklet). x.next) (put_self f t (record (f t) { next = none }))

  linked-other : (k j : ℕ) → j ≢ k → j ≢ t → linked (next_of k) t f j ≡ f j
  linked-other k j nk nt =
      put_ne cleared k (record (cleared k) { next = some t }) j nk
      ∙ put_ne f t (record (f t) { next = none }) j nt

  cleared-SameBut : (j : ℕ) → SameBut f cleared j
  cleared-SameBut j = elim (ℕ_discrete j t) [
    | yes e ↦
        subst (λ i. SameBut f cleared i) (sym e)
          (rw (put_self f t (record (f t) { next = none })) refl)
    | no ne ↦ rw (put_ne f t (record (f t) { next = none }) j ne) refl
  ]

  pub linked-SameBut : (slot : Slot) (j : ℕ) → SameBut f (linked slot t f) j
  linked-SameBut head_slot j = cleared-SameBut j
  linked-SameBut (next_of k) j =
      let g = put cleared k (record (cleared k) { next = some t }) in
      elim (ℕ_discrete j k) [
        | yes e ↦
            let at : g j ≡ record (cleared j) { next = some t } =
              subst (λ i. g i ≡ record (cleared i) { next = some t }) (sym e)
                (put_self cleared k (record (cleared k) { next = some t })) in
            rw (at, cleared-SameBut j) refl
        | no ne ↦
            rw (put_ne cleared k (record (cleared k) { next = some t }) j ne) (cleared-SameBut j)
      ]

  -- The slots that `link_last` writes are those of `t` and of the last of the queue.
  pub linked-next :
      (l : List ℕ) (j : ℕ)
      → All (λ i. i ≢ j) l
      → j ≢ t
      → (linked (end_slot head_slot l) t f j).next ≡ (f j).next
  linked-next [] j out nt =
      ap (λ (x : Tasklet). x.next) (put_ne f t (record (f t) { next = none }) j nt)
  linked-next (x ∷ l) j out nt = go (end_slot (next_of x) l) refl
    where
      go : (slot : Slot) → end_slot (next_of x) l ≡ slot → (linked slot t f j).next ≡ (f j).next
      go head_slot e = ap (λ (x : Tasklet). x.next) (put_ne f t (record (f t) { next = none }) j nt)
      go (next_of k) e =
          ap (λ (x : Tasklet). x.next)
            (linked-other k j (λ at. end_slot-All (λ i. i ≢ j) x l k out e (sym at)) nt)

  linked_at-IsQueue :
      (o : Option ℕ) (slot : Slot) (l : List ℕ)
      → IsQueue f (record { head = o; tail = slot }) l
      → All (λ j. j ≢ t) l
      → IsQueue (linked slot t f) (grown t (record { head = o; tail = slot })) (l ++ (t ∷ []))
  linked_at-IsQueue o head_slot [] q out = record {
    chain = (refl, ap (λ (x : Tasklet). x.next) (put_self f t (record (f t) { next = none })));
    tail = refl;
    distinct = (tt, tt);
  }
  linked_at-IsQueue o (next_of k) [] q out = absurd (next_of-ne k q.tail)
  linked_at-IsQueue o head_slot (x ∷ l) q out =
      let (k, e) = end_slot-next_of x l in absurd (next_of-ne k (sym (q.tail ∙ e)))
  linked_at-IsQueue o (next_of k) (x ∷ l) q out =
      let ne : t ≢ k = λ at. end_slot-All (λ j. j ≢ t) x l k out (sym q.tail) (sym at) in
      let g = linked (next_of k) t f in
      record {
        chain = (
          q.chain.0,
          Chain-grow f g t k x l (λ j nk nt. ap (λ (y : Tasklet). y.next) (linked-other k j nk nt))
              (linked-last k) (linked-new k ne) q.distinct out (sym q.tail) q.chain.1,
        );
        tail = sym (end_slot-append head_slot (x ∷ l) t);
        distinct = Distinct-append_one (x ∷ l) t q.distinct out;
      }

  -- A tasklet that is not in the queue comes last in it.
  pub linked-IsQueue :
      (v : TaskletHead) (l : List ℕ)
      → IsQueue f v l
      → All (λ j. j ≢ t) l
      → IsQueue (linked v.tail t f) (grown t v) (l ++ (t ∷ []))
  linked-IsQueue v l q out = linked_at-IsQueue v.head v.tail l q out

pub vec_of-set : (hi : Bool) (v : TaskletHead) (q : TaskletVecs) → vec_of hi (set_vec hi v q) ≡ v
vec_of-set false v q = refl
vec_of-set true v q = refl

module _ {W : Type 0} (hi : Bool) (t : ℕ) (s : Softirqs W) where
  pub link_last-IsQueue :
      (l : List ℕ)
      → IsQueue s.tasklets (vec_of hi s.vecs) l
      → All (λ j. j ≢ t) l
      → IsQueue (link_last hi t s).tasklets (vec_of hi (link_last hi t s).vecs) (l ++ (t ∷ []))
  unfolding link_last
  link_last-IsQueue l q out =
      subst (λ v. IsQueue (link_last hi t s).tasklets v (l ++ (t ∷ [])))
        (sym (vec_of-set hi (grown t (vec_of hi s.vecs)) s.vecs))
        (linked-IsQueue s.tasklets t (vec_of hi s.vecs) l q out)

  pub link_last-SameBut : (j : ℕ) → SameBut s.tasklets (link_last hi t s).tasklets j
  unfolding link_last
  link_last-SameBut j = linked-SameBut s.tasklets t (vec_of hi s.vecs).tail j

  pub link_last-next :
      (l : List ℕ)
      → IsQueue s.tasklets (vec_of hi s.vecs) l
      → (j : ℕ) → All (λ i. i ≢ j) l
      → j ≢ t
      → ((link_last hi t s).tasklets j).next ≡ (s.tasklets j).next
  unfolding link_last
  link_last-next l q j out ne =
      subst (λ slot. (linked slot t s.tasklets j).next ≡ (s.tasklets j).next) (sym q.tail)
        (linked-next s.tasklets t l j out ne)

  pub link_last-world : (link_last hi t s).world ≡ s.world
  unfolding link_last
  link_last-world = refl

  pub link_last-pending : (link_last hi t s).softirq_pending ≡ s.softirq_pending
  unfolding link_last
  link_last-pending = refl

  pub link_last-count : (link_last hi t s).tasklet_count ≡ s.tasklet_count
  unfolding link_last
  link_last-count = refl

  pub link_last-vec : (link_last hi t s).softirq_vec ≡ s.softirq_vec
  unfolding link_last
  link_last-vec = refl

pub SameBut-trans : (f g h : ℕ → Tasklet) (j : ℕ) → SameBut f g j → SameBut g h j → SameBut f h j
SameBut-trans f g h j a b = b ∙ ap (λ (x : Tasklet). record x { next = (h j).next }) a
