-- ===== src/MemList/Reuse.antt =====
-- That `malloc` of pkg/libc_backends/lib/l4re_mem/mem_list.cc gives out again what `free` took back.
use kpr.Base.{
  ℕ, suc, ◌%◌, ◌<◌, ◌≤◌, ◌≡◌, refl, ap, subst, ◌∙◌, inl, inr, Bool, Bool-cases, some, List, [], ◌∷◌,
  ◌++◌, arith, leb, add32, length, count-append, count-head,
}
use kpr.MemList.State.{Ptr, header, Mem, ◌>>◌}
use kpr.MemList.Ops.{holes}
use kpr.MemList.Alloc.{malloc, free, round_size}
use kpr.MemList.Steps.{Ends, Ends-bind, Ends-mono}
use kpr.MemList.Heap.{by_size}
use kpr.MemList.Insert.{precedes, insert_sorted}
use kpr.MemList.Find.{first_fit}
use kpr.MemList.Free.{Freed, free-Freed}
use kpr.MemList.Ascending.{remove-Ascending}
use kpr.MemList.Spaced.{Placed, length-by_size}
use kpr.MemList.Settled.{Freed-Spread}
use kpr.MemList.Laid.{Laid, Served, from_hole}

-- With an element that is large enough, the search finds one.
first_fit-insert_sorted :
    (sizes : Ptr → ℕ) (size : ℕ) (before : Ptr → Bool) (e : Ptr) (xs : List Ptr)
    → size ≤ sizes e
    → (r : Ptr) × (first_fit sizes size (insert_sorted before e xs) ≡ some r)
unfolding first_fit insert_sorted
first_fit-insert_sorted sizes size before e [] fits = (e, ground arith)
first_fit-insert_sorted sizes size before e (x ∷ xs) fits =
    let rest = first_fit-insert_sorted sizes size before e xs fits in
    elim (Bool-cases (before x)) [
      | inl b ↦ rw b (elim (Bool-cases (leb size (sizes x))) [
        | inl c ↦ (x, rw c refl)
        | inr c ↦ (rest.0, rw c rest.1)
      ])
      | inr b ↦ rw b (e, ground arith)
    ]

-- From a laid-out heap, for a request that is rounded to an odd multiple of four up to the size of a
-- block in use, and with fuel for the other blocks in use and for one hole more than there are: `free`
-- of that block and then `malloc` return, without a request to the environment, what `malloc` returns
-- is the address of a block that is large enough and is not one of the others in use, and the heap is
-- laid out again.
pub free_malloc_reuses :
    (s : Mem) (xs ys hs : List Ptr) (e requested fuel : ℕ)
    → Laid s (xs ++ e ∷ ys) hs
    → round_size requested % 8 ≡ 4
    → round_size requested ≤ s.size e
    → length (xs ++ ys) ≤ fuel
    → length hs < fuel
    → Ends
        (λ p t.
          Served (xs ++ ys) (suc (suc (length hs))) (round_size requested) p t
          × (t.grants ≡ s.grants))
        ((free fuel (add32 e header) >> malloc fuel requested) s)
free_malloc_reuses s xs ys hs e requested fuel laid exact fits p q =
    Ends-bind (free-Freed s xs ys hs e laid.heap fuel (omega (arith, placed.low)) (omega arith))
      again
  where
    placed : Placed s.size e
    placed =
        laid.spread.spaced.placed e (omega (arith, count-append e xs (e ∷ ys), count-head e ys))

    again :
        (_ : Unit {0}) (t : Mem)
        → Freed s (xs ++ ys) hs e t
        → Ends
            (λ p u.
              Served (xs ++ ys) (suc (suc (length hs))) (round_size requested) p u
              × (u.grants ≡ s.grants))
            (malloc fuel requested t)
    again _ t freed =
        let (r, fit) =
          first_fit-insert_sorted s.size (round_size requested) (λ x. precedes holes s.size x e) e
            hs fits in
        Ends-mono
          (from_hole (xs ++ ys) requested fuel exact p (remove-Ascending e xs ys laid.ascending) t
            (by_size s.size e hs) freed.0 (Freed-Spread s t xs ys hs e laid.spread freed)
            (omega (arith, length-by_size s.size e hs)) r
            (ap (λ sizes. first_fit sizes (round_size requested) (by_size s.size e hs)) freed.1
              ∙ fit))
          (λ p' u (served, kept). (
            subst (λ n. Served (xs ++ ys) (suc n) (round_size requested) p' u)
                (length-by_size s.size e hs) served,
            kept.0 ∙ freed.3,
          ))
