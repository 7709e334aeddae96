-- ===== src/MemList/Life.antt =====
-- `malloc` and `free` of pkg/libc_backends/lib/l4re_mem/mem_list.cc as what their callers see: blocks that do not meet.
use kpr.Base.{
  ltb, ap, ◌≡◌, refl, subst, inl, inr, Bool-cases, ◌<◌, suc, count-head, ℕ, ◌%◌, ◌<◌, ◌≤◌, ◌≡◌, ◌≢◌,
  ◌⊎◌, inl, inr, refl, List, [], ◌∷◌, ◌++◌, arith, add32, Option, some, none, length, count-append,
}
use kpr.MemList.State.{◌>>=◌, Ptr, null, ext_mem, header, Mem}
use kpr.Env.{Grant}
use kpr.MemList.Alloc.{malloc, free, round_size}
use kpr.MemList.Steps.{Ends, Ends-mono, Ends-bind}
use kpr.MemList.Heap.{by_address, by_size}
use kpr.MemList.Insert.{insert_sorted}
use kpr.MemList.Find.{first_fit}
use kpr.MemList.Free.{free-Freed}
use kpr.MemList.Ascending.{remove-Ascending}
use kpr.MemList.Spaced.{Placed}
use kpr.MemList.Settled.{Freed-Spread}
use kpr.MemList.Reach.{none-IsHeap}
use kpr.MemList.Laid.{Laid, Offer, Served, Kept, Used, from_hole, from_extension, from_nothing}

-- There is a block in use, or there is no hole, or one that is large enough.
abbrev pub Ready : Mem → (ps hs : List Ptr) → ℕ → Type 0
Ready s ps hs size = (ps ≢ []) ⊎ (hs ≡ []) ⊎ (first_fit s.size size hs ≢ none)

option_cases : {A : Type 0} (o : Option A) → (o ≡ none) ⊎ ((a : A) × (o ≡ some a))
option_cases none = inl refl
option_cases (some a) = inr (a, refl)

-- Before the first call, the heap is laid out.
pub none-Laid : (s : Mem) → s.processes_head ≡ null → s.holes_head ≡ null → Laid s [] []
none-Laid s no_process no_hole = record {
  heap = none-IsHeap s no_process no_hole;
  ascending = tt;
  spread = record {
    spaced = record { placed = λ a h. absurd (omega arith); apart = λ a b h. absurd (omega arith) };
    backed = λ a h. absurd (omega arith);
  };
}

-- `malloc` from a laid-out heap, with what becomes of the environment's answers.
pub malloc-Supplied :
    (s : Mem) (ps hs : List Ptr) (gs : List Grant) (a requested fuel : ℕ)
    → Laid s ps hs
    → Offer s ps hs gs a
    → round_size requested % 8 ≡ 4
    → round_size requested ≤ ext_mem
    → Ready s ps hs (round_size requested)
    → length ps ≤ fuel
    → length hs ≤ fuel
    → 0 < fuel
    → Ends
        (λ p t. Served ps (suc (length hs)) (round_size requested) p t × (Kept s t ⊎ Used s gs a t))
        (malloc fuel requested s)
malloc-Supplied s ps [] gs a requested fuel laid offer exact fits ready p q some_fuel =
    Ends-mono
      (from_nothing ps requested fuel exact p laid.ascending s laid.heap laid.spread gs a offer fits
        some_fuel)
      (λ _ _ (served, used). (served, inr used))
malloc-Supplied s ps (x ∷ xs) gs a requested fuel laid offer exact fits ready p q some_fuel =
    elim (option_cases (first_fit s.size (round_size requested) (x ∷ xs))) [
      | inl no_fit ↦
          Ends-mono
            (from_extension ps requested fuel exact p laid.ascending s (x ∷ xs) laid.heap
              laid.spread q gs a offer fits (some_process no_fit) (λ e. cc) no_fit)
            (λ _ _ (served, used). (served, inr used))
      | inr (r, fit) ↦
          Ends-mono
            (from_hole ps requested fuel exact p laid.ascending s (x ∷ xs) laid.heap laid.spread q r
              fit)
            (λ _ _ (served, kept). (served, inl kept))
    ]
  where
    some_process : first_fit s.size (round_size requested) (x ∷ xs) ≡ none → ps ≢ []
    some_process no_fit = of_ready ready
      where
        of_ready : Ready s ps (x ∷ xs) (round_size requested) → ps ≢ []
        of_ready (inl process) = process
        of_ready (inr (inl no_hole)) = cc
        of_ready (inr (inr fit)) = absurd (fit no_fit)

-- From a laid-out heap, with the environment's next answer memory that is aligned for words and away
-- from NULL, from the end of the address space and from all blocks, for a request that is rounded to
-- an odd multiple of four up to EXT_MEM, where a block is in use, or there is no hole, or one that is
-- large enough, and with fuel for both list lengths and one round: `malloc` returns the address of a
-- block that was not in use and is large enough, and the heap is laid out again: both lists are
-- disjoint rings, the blocks in use ascend, and no block's memory, header included, meets another's.
pub malloc-Served :
    (s : Mem) (ps hs : List Ptr) (gs : List Grant) (a requested fuel : ℕ)
    → Laid s ps hs
    → Offer s ps hs gs a
    → round_size requested % 8 ≡ 4
    → round_size requested ≤ ext_mem
    → Ready s ps hs (round_size requested)
    → length ps ≤ fuel
    → length hs ≤ fuel
    → 0 < fuel
    → Ends (Served ps (suc (length hs)) (round_size requested)) (malloc fuel requested s)
malloc-Served s ps hs gs a requested fuel laid offer exact fits ready p q some_fuel =
    Ends-mono
      (malloc-Supplied s ps hs gs a requested fuel laid offer exact fits ready p q some_fuel)
      (λ _ _ served. served.0)

-- `free` from a laid-out heap, with what becomes of the environment's answers.
pub free-Kept :
    (s : Mem) (xs ys hs : List Ptr) (e fuel : ℕ)
    → Laid s (xs ++ e ∷ ys) hs
    → length hs ≤ fuel
    → Ends
        (λ _ t. Laid t (xs ++ ys) (by_size s.size e hs) × Kept s t)
        (free fuel (add32 e header) s)
free-Kept s xs ys hs e fuel laid enough =
    Ends-mono (free-Freed s xs ys hs e laid.heap fuel (omega (arith, placed.low)) enough)
      (λ _ t freed. (
        record {
          heap = freed.0;
          ascending = remove-Ascending e xs ys laid.ascending;
          spread = Freed-Spread s t xs ys hs e laid.spread freed;
        },
        (freed.3, freed.2),
      ))
  where
    placed : Placed s.size e
    placed =
        laid.spread.spaced.placed e (omega (arith, count-append e xs (e ∷ ys), count-head e ys))

-- From a laid-out heap, with fuel for the number of holes: `free` of the address of a block in use
-- returns, and the heap is laid out again, with that block among the holes at the place of its size.
pub free-Laid :
    (s : Mem) (xs ys hs : List Ptr) (e fuel : ℕ)
    → Laid s (xs ++ e ∷ ys) hs
    → length hs ≤ fuel
    → Ends (λ _ t. Laid t (xs ++ ys) (by_size s.size e hs)) (free fuel (add32 e header) s)
free-Laid s xs ys hs e fuel laid enough =
    Ends-mono (free-Kept s xs ys hs e fuel laid enough) (λ _ _ freed. freed.0)

-- The place of a block among the blocks in use.
record Place (e : Ptr) (ps : List Ptr) : Type 0 where
  lower : List Ptr
  upper : List Ptr
  split : by_address e ps ≡ lower ++ e ∷ upper
  others : lower ++ upper ≡ ps

by_address-Place : (e : Ptr) (ps : List Ptr) → Place e ps
unfolding insert_sorted
by_address-Place e [] = record { lower = []; upper = []; split = refl; others = refl }
by_address-Place e (x ∷ xs) = elim (Bool-cases (ltb x e)) [
  | inl before ↦
      let rest = by_address-Place e xs in
      record {
        lower = x ∷ rest.lower;
        upper = rest.upper;
        split = rw before (ap (λ ys. x ∷ ys) rest.split);
        others = ap (λ ys. x ∷ ys) rest.others;
      }
  | inr behind ↦ record { lower = []; upper = x ∷ xs; split = rw behind refl; others = refl }
]

-- From a laid-out heap, with the environment's next answer memory that is aligned for words and away
-- from NULL, from the end of the address space and from all blocks, for a request that is rounded to
-- an odd multiple of four up to EXT_MEM, where a block is in use, or there is no hole, or one that is
-- large enough, and with fuel for the blocks in use and for one hole more than there are: `malloc` and
-- then `free` of its answer return, and the heap is laid out again with the same blocks in use.
pub malloc-free :
    (s : Mem) (ps hs : List Ptr) (gs : List Grant) (a requested fuel : ℕ)
    → Laid s ps hs
    → Offer s ps hs gs a
    → round_size requested % 8 ≡ 4
    → round_size requested ≤ ext_mem
    → Ready s ps hs (round_size requested)
    → length ps ≤ fuel
    → length hs < fuel
    → Ends (λ _ t. (left : List Ptr) × Laid t ps left) ((malloc fuel requested >>= free fuel) s)
malloc-free s ps hs gs a requested fuel laid offer exact fits ready p q =
    Ends-bind
      (malloc-Served s ps hs gs a requested fuel laid offer exact fits ready p (omega arith)
        (omega arith))
      freed
  where
    freed :
        (r : Ptr) (t : Mem)
        → Served ps (suc (length hs)) (round_size requested) r t
        → Ends (λ _ u. (left : List Ptr) × Laid u ps left) (free fuel r t)
    freed r t served = rw served.address (
        Ends-mono
          (free-Laid t at.lower at.upper served.holes_left served.block fuel
            (subst (λ zs. Laid t zs served.holes_left) at.split served.laid)
            (omega (arith, served.few)))
          (λ _ u done. (
            by_size t.size served.block served.holes_left,
            subst (λ zs. Laid u zs (by_size t.size served.block served.holes_left)) at.others done,
          )))
      where
        at : Place served.block ps
        at = by_address-Place served.block ps
