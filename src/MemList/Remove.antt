-- ===== src/MemList/Remove.antt =====
-- `remove_from_processes` and `remove_from_holes` of pkg/libc_backends/lib/l4re_mem/mem_list.cc.
use kpr.Base.{
  append-cons_ne_nil, ◌≡◌, ◌≢◌, refl, ◌∙◌, List, [], ◌∷◌, ◌++◌, arith, ◌==◌, if◌then◌else◌, ◌∈◌,
  ◌∉◌, Distinct, count-append, Distinct-head,
}
use kpr.MemList.State.{Ptr, null, Mem}
use kpr.MemList.Ops.{Which, head_of, remove_from}
use kpr.MemList.Ring.{Ring, Ring-rotate, Ring-remove, Ring-next_mem, Ring-prev_mem, Ring-neighbours}
use kpr.MemList.Steps.{Ends, ends, emptied, unlinked, remove_from-emptied, remove_from-unlinked}
use kpr.MemList.Invariant.{IsList, SameBut, first, head_of-with_head, head_of-other}

abbrev pub Removed : Which → Ptr → List Ptr → List Ptr → Mem → Mem → Type 0
Removed w e xs ys s t = IsList w t ys × SameBut w xs s t × (t.next e ≡ null) × (t.prev e ≡ null)

module _ (s : Mem) (e : Ptr) where
  emptied-Removed : (w : Which) → IsList w s (e ∷ []) → Removed w e (e ∷ []) [] s (emptied s e w)
  emptied-Removed w l = (
    record {
      head = head_of-with_head w null s;
      ring = tt;
      distinct = λ a. omega arith;
      live = λ a m. absurd (omega arith);
    },
    record {
      size = refl;
      regions = refl;
      grants = refl;
      head = head_of-other w null s;
      next = λ a m. ground arith;
      prev = λ a m. ground arith;
    },
    ground arith,
    ground arith,
  )

  head_lem :
      (w : Which) (xs ys : List Ptr)
      → IsList w s (xs ++ e ∷ ys)
      → ys ++ xs ≢ []
      → (if e == head_of w s then s.next e else head_of w s) ≡ first (xs ++ ys)
  head_lem w [] [] l ne = absurd (ne refl)
  head_lem w [] (y ∷ ys) l ne = ground (arith, l.head, l.ring)
  head_lem w (x ∷ xs) ys l ne = ground (arith, l.head, l.distinct x, count-append x xs (e ∷ ys))

  module _ (w : Which) (xs ys : List Ptr) (l : IsList w s (xs ++ e ∷ ys)) where
    rotated : Ring s.next s.prev (e ∷ (ys ++ xs))
    rotated = Ring-rotate s.next s.prev xs (e ∷ ys) l.ring

    distinct : Distinct (e ∷ (ys ++ xs))
    distinct a = ground (arith, l.distinct a, count-append a xs (e ∷ ys), count-append a ys xs)

    mem_links : (a : Ptr) → a ∉ (xs ++ e ∷ ys) → (a ≢ e) × (a ≢ s.next e) × (a ≢ s.prev e)
    mem_links a m = (
      ground (arith, count-append a xs (e ∷ ys)),
      λ h. ground (arith, inside a m, Ring-next_mem s.next s.prev e (ys ++ xs) rotated),
      λ h. ground (arith, inside a m, Ring-prev_mem s.next s.prev e (ys ++ xs) rotated),
    )
      where
        inside : (b : Ptr) → b ∉ (xs ++ e ∷ ys) → b ∉ (e ∷ (ys ++ xs))
        inside b h = ground (arith, count-append b xs (e ∷ ys), count-append b ys xs)

    -- The ring as seen from `e`, and the list from its head.
    unlinked-Removed : ys ++ xs ≢ [] → Removed w e (xs ++ e ∷ ys) (xs ++ ys) s (unlinked s e w)
    unlinked-Removed ne = (
      record {
        head = head_of-with_head w _ s ∙ head_lem w xs ys l ne;
        ring = Ring-rotate _ _ ys xs (Ring-remove s.next s.prev e (ys ++ xs) ne distinct rotated);
        distinct =
            λ a. ground (arith, l.distinct a, count-append a xs (e ∷ ys), count-append a xs ys);
        live = λ a m. l.live a (ground (arith, count-append a xs (e ∷ ys), count-append a xs ys));
      },
      record {
        size = refl;
        regions = refl;
        grants = refl;
        head = head_of-other w _ s;
        next = λ a m. ground (arith, mem_links a m);
        prev = λ a m. ground (arith, mem_links a m);
      },
      ground arith,
      ground arith,
    )

module _ (w : Which) (s : Mem) (e : Ptr) where
  Ends-remove_only :
      IsList w s (e ∷ []) → Ends (λ _ t. Removed w e (e ∷ []) [] s t) (remove_from w e s)
  Ends-remove_only l =
      rw (remove_from-emptied s e w l.head l.ring.0 (l.live e (ground arith)))
        (ends (emptied-Removed s e w l))

  Ends-unlink :
      (xs ys : List Ptr)
      → ys ++ xs ≢ []
      → IsList w s (xs ++ e ∷ ys)
      → Ends (λ _ t. Removed w e (xs ++ e ∷ ys) (xs ++ ys) s t) (remove_from w e s)
  Ends-unlink xs ys ne l =
      let (n, p) = Ring-neighbours s.next s.prev e (ys ++ xs) ne (rotated s e w xs ys l) in
      let out = Distinct-head e (ys ++ xs) (distinct s e w xs ys l) in
      let inside = λ (a : Ptr) (m : a ∈ (ys ++ xs)).
        l.live a (ground (arith, count-append a xs (e ∷ ys), count-append a ys xs)) in
      rw
        (remove_from-unlinked s e w (λ h. ground arith) (λ h. ground arith)
          (l.live e (ground (arith, count-append e xs (e ∷ ys)))) (inside (s.next e) n)
          (inside (s.prev e) p))
        (ends (unlinked-Removed s e w xs ys l ne))

  -- Taking a header out of a well-formed list that holds it returns, and the ring is then the list
  -- without it, its own links are NULL, and the other list, all sizes and the links of all headers
  -- outside the list are as before.
  pub remove_from-Removed :
      (xs ys : List Ptr)
      → IsList w s (xs ++ e ∷ ys)
      → Ends (λ _ t. Removed w e (xs ++ e ∷ ys) (xs ++ ys) s t) (remove_from w e s)
  remove_from-Removed [] [] l = Ends-remove_only l
  remove_from-Removed [] (y ∷ ys) l = Ends-unlink [] (y ∷ ys) (λ h. cc) l
  remove_from-Removed (x ∷ xs) ys l = Ends-unlink (x ∷ xs) ys (append-cons_ne_nil ys x xs) l
