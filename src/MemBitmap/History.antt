-- ===== src/MemBitmap/History.antt =====
-- `malloc` and `free` of pkg/libc_backends/lib/l4re_mem/mem_bitmap.cc after any number of calls.
use kpr.Base.{
  ◌≢◌, ◌∙◌, ℕ, suc, ◌+◌, ◌-◌, ◌*◌, ◌/◌, ◌<◌, ◌≤◌, ◌^◌, ◌≡◌, ◌⊎◌, refl, sym, subst, ap, true, false,
  inl, inr, ltb, ◌==◌, arith, if◌then◌else◌, Bool-cases, List, [], ◌∷◌, ◌++◌, Option, none, some,
  append-cons_ne_nil,
}
use kpr.Env.{Grant, granted}
use kpr.MemBitmap.Alloc.{Heap, ok, bits_count, page_size, init, free, malloc, round_size}
use kpr.MemBitmap.Mark.{Answer, malloc-Answer, malloc-first_Answer, free-out_of_bounds}
use kpr.MemBitmap.Leak.{without_run, clear-Cleared, free-first}
use kpr.MemBitmap.Apart.{Block, Kept, Placed-Kept, Kept-without, Kept-Given, Freed-Kept}

-- What `malloc` gave out, by the address that it returned for a size.
abbrev pub with_given : (start p size : ℕ) → List Block → List Block
with_given start p size bs = if p == 0 then bs else ((p - start) / page_size - 1, size) ∷ bs

-- Memory that the environment grants is away from NULL and from the end of the address space.
abbrev pub IsInside : Grant → Type 0
IsInside g = (a : ℕ) → granted g ≡ some a → (a ≢ 0) × (a + page_size * bits_count < 2 ^ 32)

-- The states that calls lead to, with the blocks that were given out and not taken back: `free` is given the address of
-- such a block, and returns.
pub data Calls : Heap → List Block → Type 0 where
  begins : (s : Heap) → s.start_addr ≡ 0 → Calls s []
  mallocs :
      {s t : Heap} {bs : List Block} (g : Grant) (requested p : ℕ)
      → Calls s bs
      → IsInside g
      → malloc g requested s ≡ (p, t)
      → Calls t (with_given t.start_addr p (round_size requested) bs)
  frees :
      {s t : Heap} (xs ys : List Block) (b n bitmap_end r : ℕ)
      → Calls s (xs ++ (b, n) ∷ ys)
      → free bitmap_end (s.start_addr + page_size * (b + 1)) s ≡ ok r t
      → Calls t (xs ++ ys)

-- There is memory, and the blocks are kept.
record Ready (s : Heap) (bs : List Block) : Type 0 where
  there : s.start_addr ≢ 0
  low : s.start_addr + page_size * bits_count < 2 ^ 32
  kept : Kept s bs

abbrev Sound : Heap → List Block → Type 0
Sound s bs = ((s.start_addr ≡ 0) × (bs ≡ [])) ⊎ Ready s bs

-- An answer from a state in which there is memory.
Answer-Ready :
    (s t : Heap) (bs : List Block) (n p : ℕ)
    → Ready s bs
    → Answer s n (p, t)
    → Ready t (with_given t.start_addr p n bs)
Answer-Ready s t bs n p ready (inl (b, placed)) =
    let place : (p - t.start_addr) / page_size - 1 ≡ b =
      omega (arith, placed.start_addr, placed.address, placed.run.fits, ready.low) in
    let some_address : (p == 0) ≡ false =
      ground (arith, placed.address, placed.run.fits, ready.low) in
    record {
      there = λ h. ready.there (sym placed.start_addr ∙ h);
      low = omega (arith, placed.start_addr, ready.low);
      kept = rw (some_address, place) (Placed-Kept s t b n p placed bs ready.kept);
    }
Answer-Ready s t bs n p ready (inr (full, e)) =
    subst (λ (q : ℕ × Heap). Ready q.1 (with_given q.1.start_addr q.0 n bs)) (sym e) ready

init-refused :
    (g : Grant) (s : Heap) → granted g ≡ none → init g s ≡ (false, record s { bits = λ _. false })
unfolding init
init-refused g s e = rw (e, init) refl

-- Without memory the answer is NULL.
malloc-refused :
    (g : Grant) (requested : ℕ) (s : Heap)
    → s.start_addr ≡ 0
    → granted g ≡ none
    → malloc g requested s ≡ (0, record s { bits = λ _. false })
unfolding malloc
malloc-refused g requested s none_yet refused =
    let initialised : (s.start_addr == 0) ≡ true = ground arith in
    rw (initialised, init-refused g s refused) refl

-- The first call that gets memory, with the bitmap empty.
first-Ready :
    (s t : Heap) (g : Grant) (requested p a : ℕ)
    → s.start_addr ≡ 0
    → granted g ≡ some a
    → (a ≢ 0) × (a + page_size * bits_count < 2 ^ 32)
    → malloc g requested s ≡ (p, t)
    → Ready t (with_given t.start_addr p (round_size requested) [])
first-Ready s t g requested p a none_yet there (pos, low) e =
    let fresh : Heap = record s { bits = λ _. false; start_addr = a } in
    Answer-Ready fresh t [] (round_size requested) p (record { there = pos; low = low; kept = tt })
      (subst (Answer fresh (round_size requested)) e
        (malloc-first_Answer g a requested s none_yet there))

malloc-Sound :
    (s t : Heap) (bs : List Block) (g : Grant) (requested p : ℕ)
    → Sound s bs
    → IsInside g
    → malloc g requested s ≡ (p, t)
    → Sound t (with_given t.start_addr p (round_size requested) bs)
malloc-Sound s t bs g requested p (inr ready) inside e = inr (
    Answer-Ready s t bs (round_size requested) p ready
      (subst (Answer s (round_size requested)) e (malloc-Answer g requested s ready.there)))
malloc-Sound s t bs g requested p (inl (none_yet, no_block)) inside e = by_grant (granted g) refl
  where
    size : ℕ
    size = round_size requested

    by_grant : (o : Option ℕ) → granted g ≡ o → Sound t (with_given t.start_addr p size bs)
    by_grant none refused =
        subst (λ (q : ℕ × Heap). Sound q.1 (with_given q.1.start_addr q.0 size bs))
          (sym (malloc-refused g requested s none_yet refused) ∙ e) (inl (none_yet, no_block))
    by_grant (some a) there = inr (
        subst (λ zs. Ready t (with_given t.start_addr p size zs)) (sym no_block)
          (first-Ready s t g requested p a none_yet there (inside a there) e))

-- An address behind the end that `free` compares with is no block's.
free-ignored :
    (bitmap_end addr : ℕ) (s : Heap) → ltb bitmap_end addr ≡ true → free bitmap_end addr s ≡ ok 0 s
unfolding free
free-ignored bitmap_end addr s h = ground arith

free_first-Ready :
    (s t : Heap) (xs ys : List Block) (n bitmap_end r : ℕ)
    → Ready s (xs ++ (0, n) ∷ ys)
    → s.start_addr + page_size ≤ bitmap_end
    → free bitmap_end (s.start_addr + page_size) s ≡ ok r t
    → Ready t (xs ++ ys)
free_first-Ready s t xs ys n bitmap_end r ready below e =
    let block = Kept-Given s 0 n xs ys ready.kept in
    let after = clear-Cleared (suc (s.words 0 / 32)) 0 s (omega (arith, block.word, block.fits)) in
    let same : after.left ≡ t =
      ok_state (sym after.returns ∙ sym (free-first bitmap_end s below) ∙ e) in
    subst (λ u. Ready u (xs ++ ys)) same
      (record {
        there = λ h. ready.there (sym after.start_addr ∙ h);
        low = omega (arith, after.start_addr, ready.low);
        kept =
            Freed-Kept s after.left n after.words
              (λ i. after.bits i ∙ ap (λ m. without_run 0 (suc (m / 32)) s.bits i) block.word) xs ys
              ready.kept;
      })
  where
    ok_state : {u v : Heap} {a b : ℕ} → ok a u ≡ ok b v → u ≡ v
    ok_state h = cc

free-Sound :
    (s t : Heap) (xs ys : List Block) (b n bitmap_end r : ℕ)
    → Sound s (xs ++ (b, n) ∷ ys)
    → free bitmap_end (s.start_addr + page_size * (b + 1)) s ≡ ok r t
    → Sound t (xs ++ ys)
free-Sound s t xs ys b n bitmap_end r (inl (none_yet, no_block)) e =
    absurd (append-cons_ne_nil xs (b, n) ys no_block)
free-Sound s t xs ys b n bitmap_end r (inr ready) e =
    elim (Bool-cases (ltb bitmap_end (s.start_addr + page_size * (b + 1)))) [
      | inl outside ↦
          let unchanged = free-ignored bitmap_end (s.start_addr + page_size * (b + 1)) s outside in
          let same : s ≡ t = cc in
          subst (λ u. Sound u (xs ++ ys)) same
            (inr (record {
              there = ready.there;
              low = ready.low;
              kept = Kept-without s (b, n) xs ys ready.kept;
            }))
      | inr within ↦ elim (Bool-cases (b == 0)) [
        | inl start ↦
            let first : b ≡ 0 = ground arith in
            inr (
              free_first-Ready s t xs ys n bitmap_end r
                (subst (λ c. Ready s (xs ++ (c, n) ∷ ys)) first ready) (ground (arith, first))
                (ap (λ a. free bitmap_end a s) (omega (arith, first)) ∙ e))
        | inr later ↦
            let block = Kept-Given s b n xs ys ready.kept in
            let faults =
              free-out_of_bounds bitmap_end b s (ground arith) (ground arith)
                (omega (arith, block.fits)) in
            cc
      ]
    ]

Calls-Sound : (s : Heap) (bs : List Block) → Calls s bs → Sound s bs
Calls-Sound s _ (begins _ none_yet) = inl (none_yet, refl)
Calls-Sound t _ (mallocs {s} {bs = bs} g requested p before inside e) =
    malloc-Sound s t bs g requested p (Calls-Sound s bs before) inside e
Calls-Sound t _ (frees {s} xs ys b n bitmap_end r before e) =
    free-Sound s t xs ys b n bitmap_end r (Calls-Sound s (xs ++ (b, n) ∷ ys) before) e

-- After any calls of `malloc` and `free` of the bitmap allocator that return, where the environment
-- grants memory away from NULL and the end of the address space and `free` is given blocks: each block
-- that was given out and not taken back lies in the memory, its bits are set, its first word has its
-- size, and no two of them meet.
pub Calls-Kept : (s : Heap) (bs : List Block) → Calls s bs → Kept s bs
Calls-Kept s bs calls = of_sound (Calls-Sound s bs calls)
  where
    of_sound : Sound s bs → Kept s bs
    of_sound (inl (none_yet, no_block)) = subst (Kept s) (sym no_block) tt
    of_sound (inr ready) = ready.kept
