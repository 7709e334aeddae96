-- ===== src/MemList/Settle.antt =====
-- `insert_into_processes` and `insert_into_holes` of pkg/libc_backends/lib/l4re_mem/mem_list.cc insert
-- as the reference does.
use kpr.Base.{
  ◌≤◌, ℕ, ◌≡◌, ◌≢◌, ◌⊎◌, inl, inr, refl, sym, subst, ◌∙◌, true, false, List, [], ◌∷◌, ◌++◌, arith,
  ◌∈◌, ◌∉◌, count-append, length, All, append-nil, Bool-cases,
}
use kpr.MemList.State.{Ptr, Mem, update, ok, ◌>>◌}
use kpr.MemList.Ops.{Which, head_of, with_head, walk, link_before, settle, exchange, insert_into}
use kpr.MemList.Ring.{Ring, Ring-rotate, Ring-exchange, chain_prev_mem}
use kpr.MemList.Steps.{Live, Ends, ends, Ends-bind, linked, exchanged, exchange-ok}
use kpr.MemList.Invariant.{IsList, head_of-with_head}
use kpr.MemList.Insert.{precedes, outranks, Stops, walk-Stops}
use kpr.MemList.Join.{
  Inserted, Joined, linked-Joined, link_before-Joined, settle_first, settle_last, settle_stay,
  precedes_of_not-outranks, not-precedes_of_outranks, settled, Live-e, Live-r, ne,
  with_head-SameBut, exchanged-SameBut,
}
use kpr.MemList.Insert.{insert_sorted-before, insert_sorted-end}

module _ (w : Which) (s : Mem) (e : Ptr) (r : Ptr) (u : Mem) where
  -- `e` becomes the head.
  settle-first :
      (ys : List Ptr)
      → Joined w s e [] r ys u
      → outranks w s.size r e ≡ true
      → Ends (λ _ t. Inserted w e (r ∷ ys) s t) (settle w r e u)
  settle-first ys j o =
      rw
        (settle_first w u e r (Live-e w s e [] r ys u j) (Live-r w s e [] r ys u j) j.head
          (rw j.same.size o))
        (ends (
          settled w s e [] r ys u j (with_head w e u) (e ∷ r ∷ ys)
            (insert_sorted-before (λ x. precedes w s.size x e) e [] r ys tt
              (not-precedes_of_outranks w s.size r e o))
            (head_of-with_head w e u)
            (subst (λ zs. Ring u.next u.prev (e ∷ r ∷ zs)) (append-nil ys) j.ring)
            (with_head-SameBut w s e [] r ys u j)))

  -- `e` follows the only header.
  settle-second :
      Joined w s e [] r [] u
      → outranks w s.size r e ≡ false
      → Ends (λ _ t. Inserted w e (r ∷ []) s t) (settle w r e u)
  settle-second j o =
      let different = ne w s e [] r [] u j in
      rw
        (settle_stay w u e r (Live-e w s e [] r [] u j) (Live-r w s e [] r [] u j)
          (inr (rw j.same.size o)) (inl (λ h. different (sym j.head ∙ sym h ∙ j.ring.2.0))))
        (ends (
          settled w s e [] r [] u j u (r ∷ e ∷ [])
            (insert_sorted-end (λ x. precedes w s.size x e) e [] r tt
              (precedes_of_not-outranks w s.size r e different o))
            j.head (Ring-rotate u.next u.prev (e ∷ []) (r ∷ []) j.ring) j.same))

  -- `e` stays before `r`, which is not the head.
  settle-inner :
      (x : Ptr) (xs ys : List Ptr)
      → Joined w s e (x ∷ xs) r ys u
      → All (λ x. precedes w s.size x e ≡ true) (x ∷ xs)
      → precedes w s.size r e ≡ false
      → Ends (λ _ t. Inserted w e (x ∷ xs ++ r ∷ ys) s t) (settle w r e u)
  settle-inner x xs ys j p o =
      rw
        (settle_stay w u e r (Live-e w s e (x ∷ xs) r ys u j) (Live-r w s e (x ∷ xs) r ys u j)
          (inl (λ h. ground (arith, j.head, j.distinct x, count-append x xs (r ∷ ys))))
          (inr (rw j.same.size o)))
        (ends (
          settled w s e (x ∷ xs) r ys u j u (x ∷ xs ++ e ∷ r ∷ ys)
            (insert_sorted-before (λ x. precedes w s.size x e) e (x ∷ xs) r ys p o) j.head
            (Ring-rotate u.next u.prev (e ∷ r ∷ ys) (x ∷ xs) j.ring) j.same))

  -- `e` and `r` change places, so that `e` is the last.
  module _ (x : Ptr) (xs : List Ptr) (j : Joined w s e (x ∷ xs) r [] u) where
    next_r : u.next r ≡ x
    next_r = j.ring.2.0

    prev_e : u.prev e ∈ (x ∷ xs)
    prev_e = chain_prev_mem u.next u.prev x xs e j.ring.2.2

    prev_e-mem : u.prev e ∈ (x ∷ xs ++ r ∷ [])
    prev_e-mem = ground (arith, prev_e, count-append (u.prev e) xs (r ∷ []))

    x-ne_r : x ≢ r
    x-ne_r = ground (arith, j.distinct x, count-append x xs (r ∷ []))

    exchanged-Ring : Ring (exchanged u e r).next (exchanged u e r).prev (r ∷ e ∷ x ∷ xs)
    exchanged-Ring =
        subst
          (λ y.
            Ring (update (update (update u.next e y) r e) (u.prev e) r)
              (update (update (update u.prev r (u.prev e)) y e) e r) (r ∷ e ∷ x ∷ xs))
          (sym next_r)
          (Ring-exchange u.next u.prev e r x xs
            (λ a. ground (arith, j.distinct a, count-append a xs (r ∷ []))) j.ring)

    exchange-exchanged : exchange e r u ≡ ok tt (exchanged u e r)
    exchange-exchanged =
        exchange-ok u e r (ne w s e (x ∷ xs) r [] u j) (λ h. ground (arith, next_r, j.distinct x))
          (λ h. x-ne_r (sym next_r ∙ h)) (Live-e w s e (x ∷ xs) r [] u j)
          (Live-r w s e (x ∷ xs) r [] u j) (rw next_r (j.live x (ground arith)))
          (j.live (u.prev e) (ground (arith, prev_e-mem)))

    settle-end :
        All (λ x. precedes w s.size x e ≡ true) (x ∷ xs)
        → precedes w s.size r e ≡ true
        → Ends (λ _ t. Inserted w e (x ∷ xs ++ r ∷ []) s t) (settle w r e u)
    settle-end p o =
        rw
          (settle_last w u e r (Live-e w s e (x ∷ xs) r [] u j) (Live-r w s e (x ∷ xs) r [] u j)
            (inl (λ h. x-ne_r (sym j.head ∙ h))) (next_r ∙ sym j.head) (rw j.same.size o))
          (rw exchange-exchanged (
            ends (
              settled w s e (x ∷ xs) r [] u j (exchanged u e r) (x ∷ xs ++ r ∷ e ∷ [])
                (insert_sorted-end (λ x. precedes w s.size x e) e (x ∷ xs) r p o) j.head
                (Ring-rotate (exchanged u e r).next (exchanged u e r).prev (r ∷ e ∷ []) (x ∷ xs)
                  exchanged-Ring)
                (exchanged-SameBut w s e (x ∷ xs) r [] u j (rw next_r (ground arith)) prev_e-mem))))

module _ (w : Which) (s : Mem) (e : Ptr) where
  settle-Inserted :
      (xs : List Ptr) (r : Ptr) (ys : List Ptr) (u : Mem)
      → Joined w s e xs r ys u
      → All (λ x. precedes w s.size x e ≡ true) xs
      → (ys ≡ []) ⊎ (precedes w s.size r e ≡ false)
      → Ends (λ _ t. Inserted w e (xs ++ r ∷ ys) s t) (settle w r e u)
  settle-Inserted [] r [] u j p stop = elim (Bool-cases (outranks w s.size r e)) [
    | inl o ↦ settle-first w s e r u [] j o
    | inr o ↦ settle-second w s e r u j o
  ]
  settle-Inserted [] r (y ∷ ys) u j p stop = elim (Bool-cases (outranks w s.size r e)) [
    | inl o ↦ settle-first w s e r u (y ∷ ys) j o
    | inr o ↦
        let on = precedes_of_not-outranks w s.size r e (ne w s e [] r (y ∷ ys) u j) o in
        absurd (elim stop [ inl h ↦ cc | inr h ↦ cc ])
  ]
  settle-Inserted (x ∷ xs) r [] u j p stop = elim (Bool-cases (precedes w s.size r e)) [
    | inl on ↦ settle-end w s e r u x xs j p on
    | inr off ↦ settle-inner w s e r u x xs [] j p off
  ]
  settle-Inserted (x ∷ xs) r (y ∷ ys) u j p stop =
      settle-inner w s e r u x xs (y ∷ ys) j p (elim stop [ inl h ↦ cc | inr off ↦ off ])

  place-Inserted :
      (full : List Ptr)
      → IsList w s full
      → e ∉ full
      → Live s e
      → (r : Ptr) → Stops (λ x. precedes w s.size x e) full r
      → Ends (λ _ t. Inserted w e full s t) ((link_before e r >> settle w r e) s)
  place-Inserted full l out le r at =
      subst (λ zs. Ends (λ _ t. Inserted w e zs s t) ((link_before e r >> settle w r e) s))
        (sym at.split)
        (rw (link_before-Joined w s e at.before r at.after l' out' le) (
          settle-Inserted at.before r at.after (linked s e r)
            (linked-Joined w s e at.before r at.after l' out' le) at.passed at.stop))
    where
      l' : IsList w s (at.before ++ r ∷ at.after)
      l' = subst (IsList w s) at.split l

      out' : e ∉ (at.before ++ r ∷ at.after)
      out' = subst (λ zs. e ∉ zs) at.split out

  -- Inserting a mapped header that is outside a non-empty well-formed list, with fuel for the list's
  -- length, returns, and the ring is then the list with the header before the first element that fails
  -- the order's test; the other list, all sizes and the links of all other headers are as before.
  pub insert_into-Inserted :
      (fuel : ℕ) (full : List Ptr)
      → IsList w s full
      → full ≢ []
      → e ∉ full
      → Live s e
      → length full ≤ fuel
      → Ends (λ _ t. Inserted w e full s t) (insert_into w fuel e s)
  unfolding insert_into
  insert_into-Inserted fuel [] l some_head out le enough = absurd (some_head refl)
  insert_into-Inserted fuel (h ∷ hs) l some_head out le enough = Ends-bind walked λ r t (same, at).
      subst (λ u. Ends (λ _ t. Inserted w e (h ∷ hs) s t) ((link_before e r >> settle w r e) u))
        (sym same) (place-Inserted (h ∷ hs) l out le r at)
    where
      walked :
          Ends
            (λ r t. (t ≡ s) × Stops (λ x. precedes w s.size x e) (h ∷ hs) r)
            (walk w fuel (head_of w s) (head_of w s) e s)
      walked =
          subst
            (λ p.
              Ends (λ r t. (t ≡ s) × Stops (λ x. precedes w s.size x e) (h ∷ hs) r)
                (walk w fuel (head_of w s) p e s))
            (sym l.head) (walk-Stops w s e (h ∷ hs) l le fuel [] h hs refl tt enough)
