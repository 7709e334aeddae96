-- ===== src/MemList/History.antt =====
-- `malloc` and `free` of pkg/libc_backends/lib/l4re_mem/mem_list.cc after any number of calls by a program.
use kpr.Base.{
  ℕ, suc, ◌%◌, ◌<◌, ◌≤◌, ◌≡◌, ◌≢◌, ◌⊎◌, inl, inr, refl, sym, subst, ap, ◌∙◌, List, [], ◌∷◌, ◌++◌,
  arith, add32, sub32, length, length-append, count-head,
}
use kpr.Env.{Grant}
use kpr.MemList.State.{Ptr, null, ext_mem, header, Mem, ok}
use kpr.MemList.Alloc.{malloc, free, round_size}
use kpr.MemList.Steps.{Ends, Ends-mono}
use kpr.MemList.Heap.{by_address, by_size}
use kpr.MemList.Insert.{insert_sorted}
use kpr.MemList.Take.{holes_head-ne_null}
use kpr.MemList.Free.{sub32-add32}
use kpr.MemList.Spaced.{Held, length-by_size}
use kpr.MemList.Settled.{count-by_address}
use kpr.MemList.Laid.{Laid, Served, Served-more}
use kpr.MemList.Life.{Ready, none-Laid, malloc-Supplied, free-Kept}
use kpr.MemList.Reach.{Ends-ok}
use kpr.MemList.Supply.{Supply, Off-Offer, Supply-left}

-- A request that the program may make: its size is rounded to an odd multiple of four that fits into new memory, an
-- answer of the environment is left, and a block is in use or there is no hole.
pub record Request (s : Mem) (ps : List Ptr) (requested : ℕ) : Type 0 where
  pub some_grant : s.grants ≢ []
  pub exact : round_size requested % 8 ≡ 4
  pub fits : round_size requested ≤ ext_mem
  pub ready : (ps ≢ []) ⊎ (s.holes_head ≡ null)

-- The states that `n` calls of a program lead to, with the blocks in use: it starts with no block, and frees
-- blocks in use.
pub data Lived : ℕ → Mem → List Ptr → Type 0 where
  begins :
      (s : Mem)
      → s.processes_head ≡ null
      → s.holes_head ≡ null
      → Supply s.grants s.regions
      → Lived 0 s []
  mallocs :
      {n : ℕ} {s t : Mem} {ps : List Ptr} (requested fuel p : ℕ)
      → Lived n s ps
      → Request s ps requested
      → n < fuel
      → malloc fuel requested s ≡ ok p t
      → Lived (suc n) t (by_address (sub32 p header) ps)
  frees :
      {n : ℕ} {s t : Mem} (xs ys : List Ptr) (e fuel : ℕ)
      → Lived n s (xs ++ e ∷ ys)
      → n ≤ fuel
      → free fuel (add32 e header) s ≡ ok tt t
      → Lived (suc n) t (xs ++ ys)

-- What holds in such a state.
record Settled (n : ℕ) (s : Mem) (ps : List Ptr) : Type 0 where
  gone : List Ptr
  laid : Laid s ps gone
  few_used : length ps ≤ n
  few_holes : length gone ≤ n
  supply : Supply s.grants s.regions

Ready-of :
    (s : Mem) (ps hs : List Ptr) (size : ℕ)
    → Laid s ps hs
    → (ps ≢ []) ⊎ (s.holes_head ≡ null)
    → Ready s ps hs size
Ready-of s ps hs size laid (inl used) = inl used
Ready-of s ps [] size laid (inr none_free) = inr (inl refl)
Ready-of s ps (x ∷ xs) size laid (inr none_free) =
    absurd (holes_head-ne_null s x xs laid.heap.free none_free)

length-by_address : (e : Ptr) (ps : List Ptr) → length (by_address e ps) ≡ suc (length ps)
unfolding insert_sorted
length-by_address e [] = omega arith
length-by_address e (x ∷ xs) = ground (arith, length-by_address e xs)

-- The block that the address is of is the one before it.
Served-block :
    (ps : List Ptr) (most size p : ℕ) (t : Mem) (served : Served ps most size p t)
    → sub32 p header ≡ served.block
Served-block ps most size p t served =
    ap (λ q. sub32 q header) served.address
    ∙ sub32-add32 served.block
        (omega (arith, (served.laid.spread.spaced.placed served.block held).low))
  where
    held : Held (by_address served.block ps) served.holes_left served.block
    held = omega (arith, count-by_address served.block ps served.block, count-head served.block ps)

malloc-Settled :
    (n : ℕ) (s : Mem) (ps : List Ptr) (requested fuel : ℕ)
    → Settled n s ps
    → Request s ps requested
    → n < fuel
    → Ends
        (λ p t.
          Served ps (suc n) (round_size requested) p t
          × Settled (suc n) t (by_address (sub32 p header) ps))
        (malloc fuel requested s)
malloc-Settled n s ps requested fuel settled request enough = answered s.grants refl settled.supply
  where
    size : ℕ
    size = round_size requested

    after :
        (p : Ptr) (t : Mem)
        → Served ps (suc (length settled.gone)) size p t
        → Supply t.grants t.regions
        → Settled (suc n) t (by_address (sub32 p header) ps)
    after p t served left =
        subst (λ e. Settled (suc n) t (by_address e ps))
          (sym (Served-block ps (suc (length settled.gone)) size p t served))
          (record {
            gone = served.holes_left;
            laid = served.laid;
            few_used = omega (arith, length-by_address served.block ps, settled.few_used);
            few_holes = omega (arith, served.few, settled.few_holes);
            supply = left;
          })

    answered :
        (grants : List Grant)
        → s.grants ≡ grants
        → Supply grants s.regions
        → Ends
            (λ p t. Served ps (suc n) size p t × Settled (suc n) t (by_address (sub32 p header) ps))
            (malloc fuel requested s)
    answered [] e all = absurd (request.some_grant e)
    answered (g ∷ gs) e (a, area, off, rest) =
        Ends-mono
          (malloc-Supplied s ps settled.gone gs a requested fuel settled.laid
            (Off-Offer s ps settled.gone settled.laid.spread g gs a e area off) request.exact
            request.fits (Ready-of s ps settled.gone size settled.laid request.ready)
            (omega (arith, settled.few_used)) (omega (arith, settled.few_holes)) (omega arith))
          (λ p t (served, supplied). (
            Served-more ps (suc (length settled.gone)) (suc n) size p t
                (omega (arith, settled.few_holes)) served,
            after p t served (Supply-left s t g gs a settled.supply rest supplied),
          ))

free-Settled :
    (n : ℕ) (s : Mem) (xs ys : List Ptr) (e fuel : ℕ)
    → Settled n s (xs ++ e ∷ ys)
    → n ≤ fuel
    → Ends (λ _ t. Settled (suc n) t (xs ++ ys)) (free fuel (add32 e header) s)
free-Settled n s xs ys e fuel settled enough =
    Ends-mono
      (free-Kept s xs ys settled.gone e fuel settled.laid (omega (arith, settled.few_holes)))
      (λ _ t (laid, kept). record {
        gone = by_size s.size e settled.gone;
        laid = laid;
        few_used = omega (arith, settled.few_used, length-append xs (e ∷ ys), length-append xs ys);
        few_holes = omega (arith, settled.few_holes, length-by_size s.size e settled.gone);
        supply = rw (kept.0, kept.1) settled.supply;
      })

Lived-Settled : (n : ℕ) (s : Mem) (ps : List Ptr) → Lived n s ps → Settled n s ps
Lived-Settled _ s _ (begins _ no_process no_hole supply) = record {
  gone = [];
  laid = none-Laid s no_process no_hole;
  few_used = omega arith;
  few_holes = omega arith;
  supply = supply;
}
Lived-Settled _ t _ (mallocs {n} {s} {ps = ps} requested fuel p before request enough ran) =
    (Ends-ok (malloc-Settled n s ps requested fuel (Lived-Settled n s ps before) request enough)
      ran).1
Lived-Settled _ t _ (frees {n} {s} xs ys e fuel before enough ran) =
    Ends-ok (free-Settled n s xs ys e fuel (Lived-Settled n s (xs ++ e ∷ ys) before) enough) ran

-- After any number of calls of `malloc` and `free` by a program that starts with no block, frees
-- blocks in use, and makes requests that are rounded to odd multiples of four up to EXT_MEM, each with
-- a block in use or with no hole, and with an answer of the environment left, where these answers are
-- areas that are aligned for words, four bytes or more apart from each other and from mapped memory,
-- and away from NULL and the end of the address space, and with more fuel than calls: a further such
-- request returns the address of a block that was not in use and is large enough, and then both lists
-- are disjoint rings, the blocks in use ascend, and no block's memory, header included, meets
-- another's.
pub Lived-malloc :
    (n : ℕ) (s : Mem) (ps : List Ptr) (requested fuel : ℕ)
    → Lived n s ps
    → Request s ps requested
    → n < fuel
    → Ends (Served ps (suc n) (round_size requested)) (malloc fuel requested s)
Lived-malloc n s ps requested fuel lived request enough =
    Ends-mono (malloc-Settled n s ps requested fuel (Lived-Settled n s ps lived) request enough)
      (λ _ _ served. served.0)
