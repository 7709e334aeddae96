-- ===== src/MemList/Move.antt =====
-- A block leaves one list and joins the other, as in `malloc` and in `free` of
-- pkg/libc_backends/lib/l4re_mem/mem_list.cc.
use kpr.Base.{
  ℕ, ◌+◌, ◌≤◌, ◌≡◌, refl, sym, subst, ◌∙◌, false, List, [], ◌∷◌, ◌++◌, arith, ◌==◌, if◌then◌else◌,
  ◌∈◌, ◌∉◌, count, count-append, length,
}
use kpr.MemList.State.{◌>>◌, Ptr, null, Mem}
use kpr.MemList.Ops.{remove_from, Which, processes, holes, head_of, insert_into}
use kpr.MemList.Steps.{Live, Live-ne_null, add_alone-ok, Ends, ends, Ends-bind, Ends-mono}
use kpr.MemList.Invariant.{other, IsList, head_of-with_head, head_of-other}
use kpr.MemList.Insert.{precedes, insert_sorted}
use kpr.MemList.Remove.{Removed, remove_from-Removed}
use kpr.MemList.Join.{Inserted}
use kpr.MemList.Settle.{insert_into-Inserted}
use kpr.MemList.Heap.{IsList-SameBut}
use kpr.MemList.Alloc.{add_alone, add_to}

-- A header that is added to an empty list is its own ring.
add_alone-Inserted :
    (w : Which) (s : Mem) (e : Ptr)
    → IsList w s []
    → Live s e
    → Ends (λ _ t. Inserted w e [] s t) (add_alone w e s)
unfolding insert_sorted
add_alone-Inserted w s e l le = rw (add_alone-ok s e w le) (
    ends (
      record {
        head = head_of-with_head w e s;
        ring = (ground arith, ground arith);
        distinct = λ a. ground arith;
        live = λ a m. subst (Live s) (sym (mem-one a m)) le;
      },
      record {
        size = refl;
        regions = refl;
        grants = refl;
        head = head_of-other w e s;
        next = λ a m. ground arith;
        prev = λ a m. ground arith;
      },
    ))
  where
    mem-one : (a : Ptr) → a ∈ (e ∷ []) → a ≡ e
    mem-one a m = ground arith

-- `add_to` treats the empty list apart, as `malloc` and `free` do.
pub add_to-Inserted :
    (w : Which) (s : Mem) (e : Ptr) (fuel : ℕ) (full : List Ptr)
    → IsList w s full
    → e ∉ full
    → Live s e
    → length full ≤ fuel
    → Ends (λ _ t. Inserted w e full s t) (add_to w fuel e s)
unfolding add_to
add_to-Inserted w s e fuel [] l out le enough =
    subst
      (λ h.
        Ends (λ _ t. Inserted w e [] s t)
          ((if h == null then add_alone w e else insert_into w fuel e) s))
      (sym l.head) (add_alone-Inserted w s e l le)
add_to-Inserted w s e fuel (x ∷ xs) l out le enough =
    let busy : (head_of w s == null) ≡ false =
      ground (arith, l.head, Live-ne_null s x (l.live x (ground arith))) in
    rw busy (insert_into-Inserted w s e fuel (x ∷ xs) l (λ h. cc) out le enough)

other-other : (w : Which) → other (other w) ≡ w
other-other processes = refl
other-other holes = refl

-- What a move leaves: the header has left its list and stands in the other one where the reference
-- puts it. No size, region or grant has changed.
pub record Moved (w : Which) (s : Mem) (e : Ptr) (rest zs : List Ptr) (t : Mem) : Type 0 where
  pub left : IsList w t rest
  pub joined : IsList (other w) t (insert_sorted (λ x. precedes (other w) s.size x e) e zs)
  pub size : t.size ≡ s.size
  pub regions : t.regions ≡ s.regions
  pub grants : t.grants ≡ s.grants

module _ (w : Which) (s : Mem) (e : Ptr) (xs ys zs : List Ptr) (l : IsList w s (xs ++ e ∷ ys))
    (z : IsList (other w) s zs) (apart : (a : Ptr) → count a (xs ++ e ∷ ys) + count a zs ≤ 1) where
  module _ (u : Mem) (r : Removed w e (xs ++ e ∷ ys) (xs ++ ys) s u) where
    apart_after : (a : Ptr) → count a (xs ++ ys) + count a (e ∷ zs) ≤ 1
    apart_after a = ground (arith, apart a, count-append a xs (e ∷ ys), count-append a xs ys)

    other_after : IsList (other w) u zs
    other_after = IsList-SameBut w s u (xs ++ e ∷ ys) zs z r.1 (λ a m. omega (arith, apart a))

    Live-after : Live u e
    Live-after = rw r.1.regions (l.live e (ground (arith, count-append e xs (e ∷ ys))))

    Inserted-Moved : (t : Mem) → Inserted (other w) e zs u t → Moved w s e (xs ++ ys) zs t
    Inserted-Moved t (i, same) = record {
      left =
          subst (λ v. IsList v t (xs ++ ys)) (other-other w)
            (IsList-SameBut (other w) u t (e ∷ zs) (xs ++ ys)
              (subst (λ v. IsList v u (xs ++ ys)) (sym (other-other w)) r.0) same
              (λ a m. ground (arith, apart_after a)));
      joined =
          subst (λ size. IsList (other w) t (insert_sorted (λ x. precedes (other w) size x e) e zs))
            r.1.size i;
      size = same.size ∙ r.1.size;
      regions = same.regions ∙ r.1.regions;
      grants = same.grants ∙ r.1.grants;
    }

  pub move-Moved :
      (fuel : ℕ)
      → length zs ≤ fuel
      → Ends (λ _ t. Moved w s e (xs ++ ys) zs t) ((remove_from w e >> add_to (other w) fuel e) s)
  move-Moved fuel enough = Ends-bind (remove_from-Removed w s e xs ys l) λ _ u r.
      Ends-mono
        (add_to-Inserted (other w) u e fuel zs (other_after u r) (ground (arith, apart_after u r e))
          (Live-after u r) enough)
        (λ _ t i. Inserted-Moved u r t i)
