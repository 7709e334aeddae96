-- ===== src/MemList/Overlap.antt =====
-- How `malloc` of pkg/libc_backends/lib/l4re_mem/mem_list.cc lets blocks meet where a size is a multiple of eight.
use kpr.Base.{
  ℕ, ◌+◌, ◌-◌, ◌%◌, ◌<◌, ◌≤◌, ◌≡◌, inl, inr, subst, ap, ◌∙◌, List, [], ◌∷◌, arith, ◌==◌, count,
  count-append, count-head, Bool-cases, true, if◌then◌else◌, some, length,
}
use kpr.MemList.State.{Ptr, header, Mem, accessible}
use kpr.MemList.Alloc.{malloc, round_size}
use kpr.MemList.Steps.{rest_at, cut, Ends, Ends-mono}
use kpr.MemList.Heap.{IsHeap, by_address}
use kpr.MemList.Cut.{Room}
use kpr.MemList.Bounds.{rest_at_lem}
use kpr.MemList.Find.{first_fit}
use kpr.MemList.Take.{Taken, splits, replace, malloc-Taken}
use kpr.MemList.Spaced.{Held, Apart, Placed}
use kpr.MemList.Spread.{Covers-part, Covers-mapped}
use kpr.MemList.Settled.{count-by_address}
use kpr.MemList.Laid.{Laid, hole-Held, among}

-- What takes the place of an element is there, and what else was there still is.
count-replace_found :
    (r : Ptr) (zs xs : List Ptr) (a : Ptr)
    → 0 < count r xs
    → count a (replace r zs xs) + count a (r ∷ []) ≡ count a xs + count a zs
unfolding replace
count-replace_found r zs [] a there = absurd (omega arith)
count-replace_found r zs (x ∷ xs) a there = elim (Bool-cases (x == r)) [
  | inl e ↦ rw e (ground (arith, count-append a zs xs))
  | inr e ↦ rw e (ground (arith, count-replace_found r zs xs a))
]

-- After `malloc`, the block `b` and the one before it share four bytes.
pub record Shared (s : Mem) (ps hs : List Ptr) (r size b : ℕ) (t : Mem) : Type 0 where
  pub taken : IsHeap t (by_address r ps) (replace r (rest_at r size ∷ []) hs)
  pub rest_held : 0 < count (rest_at r size) (replace r (rest_at r size ∷ []) hs)
  pub block_held : 0 < count b (by_address r ps) + count b (replace r (rest_at r size ∷ []) hs)
  pub before : rest_at r size < b
  pub meets : rest_at r size + header + t.size (rest_at r size) ≡ b + 4

module _ (s : Mem) (ps hs : List Ptr) (requested fuel r b : ℕ) (laid : Laid s ps hs)
    (even : round_size requested % 8 ≡ 0)
    (fit : first_fit s.size (round_size requested) hs ≡ some r)
    (wide : round_size requested + 16 < s.size r) (next : b ≡ r + header + s.size r)
    (held : Held ps hs b) where
  abbrev size : ℕ
  size = round_size requested

  at_r : Placed s.size r
  at_r = laid.spread.spaced.placed r (hole-Held s ps hs size r laid.heap fit)

  rest_place : rest_at r size ≡ r + header + size + 4
  rest_place =
      rw (rest_at_lem r size at_r.aligned (omega (arith, even)) (omega (arith, at_r.low)))
        (ground arith)

  cuts : splits s r size ≡ true
  cuts = ground (arith, at_r.low)

  not_held : count (rest_at r size) ps + count (rest_at r size) hs ≡ 0
  not_held = elim (Bool-cases (count (rest_at r size) ps + count (rest_at r size) hs == 0)) [
    | inl e ↦ ground arith
    | inr e ↦ absurd (
        inside (
          laid.spread.spaced.apart r (rest_at r size) (hole-Held s ps hs size r laid.heap fit)
            (ground arith) (omega (arith, rest_place))))
  ]
    where
      inside : Apart s.size r (rest_at r size) → ⊥
      inside (inl p) = omega (arith, rest_place)
      inside (inr p) = omega (arith, rest_place)

  room : Room s ps hs r size
  unfolding accessible
  room =
      let part =
        Covers-part s.regions r (s.size r + 8) (rest_at r size) header
          (laid.spread.backed r (hole-Held s ps hs size r laid.heap fit))
          (omega (arith, rest_place)) (omega (arith, rest_place, at_r.whole, even)) in
      let mapped_there = Covers-mapped s.regions (rest_at r size) part in
      (ground (arith, mapped_there, rest_place), omega (arith, not_held), omega (arith, not_held))

  cut_size : (cut s r size).size (rest_at r size) ≡ s.size r - size - header
  cut_size = ground (arith, rest_place, at_r.low)

  shared : (p : ℕ) (t : Mem) → Taken s ps hs r size p t → Shared s ps hs r size b t
  shared p t taken = record {
    taken =
        subst
          (λ c. IsHeap t (by_address r ps) (replace r (if c then rest_at r size ∷ [] else []) hs))
          cuts taken.heap;
    rest_held = omega (
      arith,
      count-replace_found r (rest_at r size ∷ []) hs (rest_at r size)
          (among s ps hs size r laid.heap fit),
      count-head (rest_at r size) [],
      once,
    );
    block_held = omega (
      arith,
      held,
      count-by_address r ps b,
      count-replace_found r (rest_at r size ∷ []) hs b (among s ps hs size r laid.heap fit),
      behind,
    );
    before = omega (arith, rest_place);
    meets = rw (rest_size, rest_place) (omega arith);
  }
    where
      once : count (rest_at r size) (r ∷ []) ≡ 0
      once = ground (arith, rest_place)

      behind : (count b (r ∷ []) ≡ 0) × (count b ps ≤ count b (r ∷ ps))
      behind = (ground (arith, next), ground arith)

      rest_size : t.size (rest_at r size) ≡ s.size r - size - header
      rest_size =
          ap (λ f. f (rest_at r size))
            (taken.sizes ∙ ap (λ c. if c then (cut s r size).size else s.size) cuts)
          ∙ cut_size

  -- From a laid-out heap whose first hole that is large enough has more than 16 bytes beyond the size
  -- and a block directly behind it, for a request that is rounded to a multiple of eight, and with
  -- fuel for both list lengths: `malloc` returns, and what it cut off is a hole before that block
  -- whose memory ends four bytes into it, with both in the lists.
  pub malloc-Shared :
      length ps ≤ fuel
      → length hs ≤ fuel
      → Ends (λ _ t. Shared s ps hs r size b t) (malloc fuel requested s)
  malloc-Shared p q =
      Ends-mono (malloc-Taken s ps hs requested fuel r laid.heap fit (λ _. room) p q) shared
