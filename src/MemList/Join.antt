-- ===== src/MemList/Join.antt =====
-- The state after the four assignments that insert a header before another, in
-- pkg/libc_backends/lib/l4re_mem/mem_list.cc, and what each branch behind them does.
use kpr.Base.{
  ap, ℕ, ◌≡◌, ◌≢◌, ◌⊎◌, inl, inr, refl, sym, subst, ◌∙◌, true, false, List, ◌∷◌, ◌++◌, arith, ◌==◌,
  ◌∈◌, ◌∉◌, Distinct, count-append, Bool-cases,
}
use kpr.MemList.State.{Ptr, Mem, ok}
use kpr.MemList.Ops.{Which, processes, holes, head_of, with_head, link_before, settle, exchange}
use kpr.MemList.Ring.{Ring, Ring-rotate, Ring-link, Ring-prev_mem}
use kpr.MemList.Steps.{Live, linked, exchanged, link_before-ok}
use kpr.MemList.Invariant.{IsList, SameBut, first, head_of-other}
use kpr.MemList.Insert.{
  precedes, outranks, insert_sorted, count-insert_sorted, passes-ok, exceeds-ok,
}

-- `e` has joined the list `w`, at its place.
abbrev pub Inserted : Which → Ptr → List Ptr → Mem → Mem → Type 0
Inserted w e full s t =
    IsList w t (insert_sorted (λ x. precedes w s.size x e) e full) × SameBut w (e ∷ full) s t

-- The state after `link_before`: `e` stands before `r`, and the head is still the old one.
pub record Joined (w : Which) (s : Mem) (e : Ptr) (xs : List Ptr) (r : Ptr) (ys : List Ptr)
    (u : Mem) : Type 0 where
  pub ring : Ring u.next u.prev (e ∷ r ∷ (ys ++ xs))
  pub head : head_of w u ≡ first (xs ++ r ∷ ys)
  pub distinct : Distinct (e ∷ (xs ++ r ∷ ys))
  pub live : (a : Ptr) → a ∈ (e ∷ (xs ++ r ∷ ys)) → Live u a
  pub same : SameBut w (e ∷ (xs ++ r ∷ ys)) s u

module _ (w : Which) (s : Mem) (e : Ptr) (xs : List Ptr) (r : Ptr) (ys : List Ptr) where
  module _ (l : IsList w s (xs ++ r ∷ ys)) (out : e ∉ (xs ++ r ∷ ys)) (le : Live s e) where
    all-Distinct : Distinct (e ∷ (xs ++ r ∷ ys))
    all-Distinct a = ground (arith, l.distinct a)

    all-Live : (a : Ptr) → a ∈ (e ∷ (xs ++ r ∷ ys)) → Live s a
    all-Live a m = elim (Bool-cases (a == e)) [
      | inl h ↦ ground arith
      | inr h ↦ l.live a (ground arith)
    ]

    rotated : Ring s.next s.prev (r ∷ (ys ++ xs))
    rotated = Ring-rotate s.next s.prev xs (r ∷ ys) l.ring

    prev_in : s.prev r ∈ (xs ++ r ∷ ys)
    prev_in = ground (
      arith,
      Ring-prev_mem s.next s.prev r (ys ++ xs) rotated,
      count-append (s.prev r) ys xs,
      count-append (s.prev r) xs (r ∷ ys),
    )

    pub linked-Joined : Joined w s e xs r ys (linked s e r)
    linked-Joined = record {
      ring =
          Ring-link s.next s.prev e r (ys ++ xs)
            (λ a. ground (arith, all-Distinct a, count-append a ys xs, count-append a xs (r ∷ ys)))
            rotated;
      head = l.head;
      distinct = all-Distinct;
      live = all-Live;
      same = record {
        size = refl;
        regions = refl;
        grants = refl;
        head = refl;
        next = λ a m. ground (arith, prev_in);
        prev = λ a m. ground (arith, count-append a xs (r ∷ ys));
      };
    }

    pub link_before-Joined : link_before e r s ≡ ok tt (linked s e r)
    link_before-Joined =
        link_before-ok s e r (ground (arith, count-append r xs (r ∷ ys))) le
          (all-Live r (ground (arith, count-append r xs (r ∷ ys))))
          (all-Live (s.prev r) (ground (arith, prev_in)))

module _ (w : Which) (u : Mem) (e r : Ptr) (le : Live u e) (lr : Live u r) where
  pub settle_first :
      head_of w u ≡ r → outranks w u.size r e ≡ true → settle w r e u ≡ ok tt (with_head w e u)
  unfolding settle
  settle_first h o = ground (arith, exceeds-ok w u r e lr le)

  module _ (h : (head_of w u ≢ r) ⊎ (outranks w u.size r e ≡ false)) where
    pub settle_last :
        u.next r ≡ head_of w u → precedes w u.size r e ≡ true → settle w r e u ≡ exchange e r u
    unfolding settle
    settle_last n p = ground (arith, exceeds-ok w u r e lr le, passes-ok w u r e lr le)

    pub settle_stay :
        (u.next r ≢ head_of w u) ⊎ (precedes w u.size r e ≡ false) → settle w r e u ≡ ok tt u
    unfolding settle
    settle_stay n = ground (arith, exceeds-ok w u r e lr le, passes-ok w u r e lr le)

pub precedes_of_not-outranks :
    (w : Which) (size : Ptr → ℕ) (r e : Ptr)
    → r ≢ e
    → outranks w size r e ≡ false
    → precedes w size r e ≡ true
precedes_of_not-outranks processes size r e ne h = ground arith
precedes_of_not-outranks holes size r e ne h = ground arith

pub not-precedes_of_outranks :
    (w : Which) (size : Ptr → ℕ) (r e : Ptr)
    → outranks w size r e ≡ true
    → precedes w size r e ≡ false
not-precedes_of_outranks processes size r e h = ground arith
not-precedes_of_outranks holes size r e h = ground arith

module _ (w : Which) (s : Mem) (e : Ptr) (xs : List Ptr) (r : Ptr) (ys : List Ptr) (u : Mem)
    (j : Joined w s e xs r ys u) where
  -- The list that is left is the one that the reference gives.
  pub settled :
      (t : Mem) (zs : List Ptr)
      → insert_sorted (λ x. precedes w s.size x e) e (xs ++ r ∷ ys) ≡ zs
      → head_of w t ≡ first zs
      → Ring t.next t.prev zs
      → SameBut w (e ∷ (xs ++ r ∷ ys)) s t
      → Inserted w e (xs ++ r ∷ ys) s t
  settled t zs eq h ring same = (
    record {
      head = h ∙ ap first (sym eq);
      ring = subst (Ring t.next t.prev) (sym eq) ring;
      distinct = λ a. ground (
        arith,
        count-insert_sorted (λ x. precedes w s.size x e) e (xs ++ r ∷ ys) a,
        j.distinct a,
      );
      live = λ a m.
          rw (same.regions, ← j.same.regions)
            (j.live a (
              ground (arith, count-insert_sorted (λ x. precedes w s.size x e) e (xs ++ r ∷ ys) a)));
    },
    same,
  )

  pub Live-e : Live u e
  Live-e = j.live e (ground arith)

  pub Live-r : Live u r
  Live-r = j.live r (ground (arith, count-append r xs (r ∷ ys)))

  pub ne : r ≢ e
  ne = ground (arith, j.distinct r, count-append r xs (r ∷ ys))

  -- A change of the head `w` alone.
  pub with_head-SameBut : SameBut w (e ∷ (xs ++ r ∷ ys)) s (with_head w e u)
  with_head-SameBut = record {
    size = j.same.size;
    regions = j.same.regions;
    grants = j.same.grants;
    head = head_of-other w e u ∙ j.same.head;
    next = j.same.next;
    prev = j.same.prev;
  }

  pub exchanged-SameBut :
      u.next r ∈ (xs ++ r ∷ ys)
      → u.prev e ∈ (xs ++ r ∷ ys)
      → SameBut w (e ∷ (xs ++ r ∷ ys)) s (exchanged u e r)
  exchanged-SameBut n p = record {
    size = j.same.size;
    regions = j.same.regions;
    grants = j.same.grants;
    head = j.same.head;
    next = λ a m. ground (arith, j.same.next a, count-append a xs (r ∷ ys));
    prev = λ a m. ground (arith, j.same.prev a, count-append a xs (r ∷ ys));
  }
