-- ===== src/MemList/Take.antt =====
-- `malloc` of pkg/libc_backends/lib/l4re_mem/mem_list.cc where a hole is large enough.
use kpr.Base.{
  none, count, ap, ℕ, ◌≤◌, ◌≡◌, ◌≢◌, inl, inr, refl, sym, subst, ◌∙◌, Bool, true, false, List, [],
  ◌∷◌, ◌++◌, arith, ◌==◌, ltb, if◌then◌else◌, count-append, add32, sub32, Bool-cases, length, some,
}
use kpr.MemList.State.{Ptr, null, header, Mem, Run, ok, pure, Cmd, bind, ◌>>◌}
use kpr.MemList.Ops.{processes, holes, split, remove_from}
use kpr.MemList.Alloc.{take_extension, add_to, take_hole, find, malloc, round_size}
use kpr.MemList.Steps.{Live, Live-ne_null, Ends, ends, Ends-bind, Ends-mono, rest_at, cut}
use kpr.MemList.Invariant.{IsList}
use kpr.MemList.Heap.{IsHeap, by_address}
use kpr.MemList.Insert.{precedes, count-insert_sorted}
use kpr.MemList.Cut.{Room, cut-IsHeap, split-ok}
use kpr.MemList.Move.{Moved, move-Moved}
use kpr.MemList.Find.{first_fit-nil, first_fit, find-first_fit, Fits, Fits-of_first_fit}

-- `malloc` cuts a block if what is left holds more than a header.
abbrev pub splits : Mem → Ptr → ℕ → Bool
splits s r size = ltb header (sub32 (s.size r) size)

-- What stays among the holes of the block `r`, and the sizes after the cut.
abbrev pub leftover : Mem → Ptr → ℕ → List Ptr
leftover s r size = if splits s r size then rest_at r size ∷ [] else []

abbrev pub sizes_after : Mem → Ptr → ℕ → Ptr → ℕ
sizes_after s r size = if splits s r size then (cut s r size).size else s.size

-- `r` gives way to `zs` in the list.
unfoldable pub replace : Ptr → List Ptr → List Ptr → List Ptr
replace r zs [] = []
replace r zs (x ∷ xs) = if x == r then zs ++ xs else x ∷ replace r zs xs

replace-split :
    (r : Ptr) (zs xs ys : List Ptr)
    → ((a : Ptr) → count a (xs ++ r ∷ ys) ≤ 1)
    → replace r zs (xs ++ r ∷ ys) ≡ xs ++ (zs ++ ys)
unfolding replace
replace-split r zs [] ys d = ground arith
replace-split r zs (x ∷ xs) ys d =
    ground
      (arith, d r, count-append r xs (r ∷ ys), replace-split r zs xs ys (λ a. ground (arith, d a)))

-- What `malloc` leaves: the block is in use, at its place, what is cut off stands where the block was.
pub record Taken (s : Mem) (ps hs : List Ptr) (r : Ptr) (size : ℕ) (p : Ptr) (t : Mem)
    : Type 0 where
  pub address : p ≡ add32 r header
  pub heap : IsHeap t (by_address r ps) (replace r (leftover s r size) hs)
  pub sizes : t.size ≡ sizes_after s r size
  pub large : size ≤ t.size r
  pub regions : t.regions ≡ s.regions
  pub grants : t.grants ≡ s.grants

bind_assoc :
    {A B C : Type 0} (r : Run A) (k : A → Cmd B) (k' : B → Cmd C)
    → bind (bind r k) k' ≡ bind r (λ a u. bind (k a u) k')
bind_assoc (ok a s) k k' = refl
bind_assoc Run.fault k k' = refl
bind_assoc Run.out_of_fuel k k' = refl

module _ (u : Mem) (ps xs zs : List Ptr) (r : Ptr) (h : IsHeap u ps (xs ++ r ∷ zs)) (fuel : ℕ)
    (enough : length ps ≤ fuel) where
  abbrev rest_of_take : Cmd Ptr
  rest_of_take = remove_from holes r >> (add_to processes fuel r >> pure (add32 r header))

  -- From the removal on, whether the block was cut or not.
  taken_from : Ends (λ p t. (p ≡ add32 r header) × Moved holes u r (xs ++ zs) ps t) (rest_of_take u)
  taken_from =
      subst (Ends (λ p t. (p ≡ add32 r header) × Moved holes u r (xs ++ zs) ps t))
        (bind_assoc (remove_from holes r u) (λ _. add_to processes fuel r)
          (λ _. pure (add32 r header)))
        (Ends-bind
          (move-Moved holes u r xs zs ps h.free h.in_use (λ a. omega (arith, h.apart a)) fuel
            enough)
          (λ _ t m. ends (refl, m)))

  Moved-IsHeap : (t : Mem) → Moved holes u r (xs ++ zs) ps t → IsHeap t (by_address r ps) (xs ++ zs)
  Moved-IsHeap t m = record {
    in_use = m.joined;
    free = m.left;
    apart = λ a. ground (
      arith,
      h.apart a,
      count-append a xs (r ∷ zs),
      count-append a xs zs,
      count-insert_sorted (λ x. precedes processes u.size x r) r ps a,
    );
  }

module _ (s : Mem) (ps xs ys : List Ptr) (r : Ptr) (size : ℕ) (h : IsHeap s ps (xs ++ r ∷ ys))
    (fuel : ℕ) (enough : length ps ≤ fuel) where
  replaced : (zs : List Ptr) → replace r zs (xs ++ r ∷ ys) ≡ xs ++ (zs ++ ys)
  replaced zs = replace-split r zs xs ys h.free.distinct

  Live-r : Live s r
  Live-r = h.free.live r (ground (arith, count-append r xs (r ∷ ys)))

  large_after : size ≤ s.size r → size ≤ sizes_after s r size r
  large_after fits = elim (Bool-cases (splits s r size)) [
    | inl c ↦ rw c (ground arith)
    | inr c ↦ rw c fits
  ]

  -- The rest of the run, from the state `u` in which `zs` is what is left of the block.
  finish :
      (fits : size ≤ s.size r) (u : Mem) (zs : List Ptr) (hu : IsHeap u ps (xs ++ r ∷ (zs ++ ys)))
      → leftover s r size ≡ zs
      → u.size ≡ sizes_after s r size
      → u.regions ≡ s.regions
      → u.grants ≡ s.grants
      → Ends
          (Taken s ps (xs ++ r ∷ ys) r size)
          ((remove_from holes r >> (add_to processes fuel r >> pure (add32 r header))) u)
  finish fits u zs hu left sizes regions grants =
      Ends-mono (taken_from u ps xs (zs ++ ys) r hu fuel enough) λ p t (at, m). record {
        address = at;
        heap =
            subst (IsHeap t (by_address r ps))
              (sym (replaced (leftover s r size) ∙ ap (λ ws. xs ++ (ws ++ ys)) left))
              (Moved-IsHeap u ps xs (zs ++ ys) r hu fuel enough t m);
        sizes = m.size ∙ sizes;
        large = rw (m.size ∙ sizes) (large_after fits);
        regions = m.regions ∙ regions;
        grants = m.grants ∙ grants;
      }

  take_hole-cut :
      splits s r size ≡ true
      → split r size s ≡ ok tt (cut s r size)
      → take_hole fuel r size s
        ≡ (remove_from holes r >> (add_to processes fuel r >> pure (add32 r header))) (cut s r size)
  unfolding take_hole
  take_hole-cut c e = rw (Live-r, c, e)

  take_hole-whole :
      splits s r size ≡ false
      → take_hole fuel r size s
        ≡ (remove_from holes r >> (add_to processes fuel r >> pure (add32 r header))) s
  unfolding take_hole
  take_hole-whole c = rw (Live-r, c)

  take_hole-Taken :
      size ≤ s.size r
      → (splits s r size ≡ true → Room s ps (xs ++ r ∷ ys) r size)
      → Ends (Taken s ps (xs ++ r ∷ ys) r size) (take_hole fuel r size s)
  take_hole-Taken fits room = elim (Bool-cases (splits s r size)) [
    | inl c ↦ rw (take_hole-cut c (split-ok s ps xs ys r size h (room c))) (
        finish fits (cut s r size) (rest_at r size ∷ []) (cut-IsHeap s ps xs ys r size h (room c))
          (rw c) (rw c) refl refl)
    | inr c ↦ rw (take_hole-whole c) (finish fits s [] h (rw c) (rw c) refl refl)
  ]

-- `malloc` with some hole runs the search, and goes by what it finds.
module _ (s : Mem) (requested fuel : ℕ) (some_hole : s.holes_head ≢ null) where
  pub malloc-found :
      (r : Ptr)
      → find fuel s.holes_head (round_size requested) s ≡ ok (some r) s
      → malloc fuel requested s ≡ take_hole fuel r (round_size requested) s
  unfolding malloc
  malloc-found r f = let busy : (s.holes_head == null) ≡ false = ground arith in rw (busy, f)

  pub malloc-exhausted :
      find fuel s.holes_head (round_size requested) s ≡ ok none s
      → malloc fuel requested s ≡ take_extension fuel (round_size requested) s
  unfolding malloc
  malloc-exhausted f = let busy : (s.holes_head == null) ≡ false = ground arith in rw (busy, f)

pub holes_head-ne_null :
    (s : Mem) (x : Ptr) (xs : List Ptr) → IsList holes s (x ∷ xs) → s.holes_head ≢ null
holes_head-ne_null s x xs l h = Live-ne_null s x (l.live x (ground arith)) (sym l.head ∙ h)

-- From a well-formed heap whose free list has a block that is large enough, with fuel for both list
-- lengths, and, if the block is split, with the rest's header in mapped memory and outside both lists:
-- `malloc` returns, the address is the one behind the header of the first block that is large enough,
-- that block is now in use at the place of its address, what was cut off stands at its place among the
-- free blocks, the sizes are those of the cut, and both lists are again disjoint rings.
pub malloc-Taken :
    (s : Mem) (ps hs : List Ptr) (requested fuel : ℕ) (r : Ptr)
    → IsHeap s ps hs
    → first_fit s.size (round_size requested) hs ≡ some r
    → (splits s r (round_size requested) ≡ true → Room s ps hs r (round_size requested))
    → length ps ≤ fuel
    → length hs ≤ fuel
    → Ends (Taken s ps hs r (round_size requested)) (malloc fuel requested s)
malloc-Taken s ps [] requested fuel r h fit room p q = absurd (none-ne_some fit)
  where
    none-ne_some : first_fit s.size (round_size requested) [] ≡ some r → ⊥
    none-ne_some e = cc (first_fit-nil s.size (round_size requested))
malloc-Taken s ps (x ∷ xs) requested fuel r h fit room p q =
    rw
      (malloc-found s requested fuel (holes_head-ne_null s x xs h.free) r
        (find-first_fit s x xs (round_size requested) fuel h.free q ∙ ap (λ o. ok o s) fit))
      (subst
        (λ hs.
          Ends (Taken s ps hs r (round_size requested)) (take_hole fuel r (round_size requested) s))
        (sym at.split)
        (take_hole-Taken s ps at.before at.after r (round_size requested)
          (subst (IsHeap s ps) at.split h) fuel p at.large
          (λ c. subst (λ hs. Room s ps hs r (round_size requested)) at.split (room c))))
  where
    at : Fits s.size (round_size requested) (x ∷ xs) r
    at = Fits-of_first_fit s.size (round_size requested) (x ∷ xs) r fit
