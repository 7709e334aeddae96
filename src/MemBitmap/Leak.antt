-- ===== src/MemBitmap/Leak.antt =====
-- What `free` of pkg/libc_backends/lib/l4re_mem/mem_bitmap.cc leaves of the first block that `malloc` gave out.
use kpr.Base.{
  ◌∙◌, ℕ, zero, suc, ◌+◌, ◌*◌, ◌/◌, ◌<◌, ◌≤◌, ◌^◌, ◌≡◌, refl, sym, subst, ap, Bool, true, false,
  ◌&&◌, ◌||◌, ◌-◌, inl, inr, leb, ltb, ◌==◌, arith, if◌then◌else◌, add32, some, Bool-cases,
}
use kpr.Env.{granted, Grant}
use kpr.MemBitmap.Alloc.{
  Heap, Run, ok, bits_count, page_size, bmp_size, set_bit, clear, free, malloc, round_size,
}
use kpr.MemBitmap.Mark.{Placed, malloc-first_Answer}

-- The bits of a bitmap without those from `bit` on, `n` of them.
abbrev pub without_run : (bit n : ℕ) → (ℕ → Bool) → ℕ → Bool
without_run bit n bits i = if leb bit i && ltb i (bit + n) then false else bits i

-- `free`'s loop returns where all bits are in the bitmap, and clears as many bits as it has rounds.
pub record Cleared (s : Heap) (bit n : ℕ) (r : Run) : Type 0 where
  pub left : Heap
  pub returns : r ≡ ok 0 left
  pub bits : (i : ℕ) → left.bits i ≡ without_run bit n s.bits i
  pub words : left.words ≡ s.words
  pub start_addr : left.start_addr ≡ s.start_addr

pub clear-Cleared :
    (n bit : ℕ) (s : Heap) → bit + n ≤ 32 * bmp_size → Cleared s bit n (clear n bit s)
unfolding clear
clear-Cleared zero bit s small = record {
  left = s;
  returns = refl;
  bits = λ i. ground arith;
  words = refl;
  start_addr = refl;
}
clear-Cleared (suc n) bit s small =
    let cleared = record s { bits = set_bit s.bits bit false } in
    let next : add32 bit 1 ≡ suc bit = omega arith in
    let rest = clear-Cleared n (suc bit) cleared (omega arith) in
    let inside : ltb (bit / 32) bmp_size ≡ true = ground arith in
    record {
      left = rest.left;
      returns = rw inside (ap (λ b. clear n b cleared) next ∙ rest.returns);
      bits = λ i. rest.bits i ∙ ground arith;
      words = rest.words;
      start_addr = rest.start_addr;
    }

-- Of the block at the start, `free` clears as many bits as 32 bytes go into its size, and one more.
pub free-first :
    (bitmap_end : ℕ) (t : Heap)
    → t.start_addr + page_size ≤ bitmap_end
    → free bitmap_end (t.start_addr + page_size) t ≡ clear (suc (t.words 0 / 32)) 0 t
unfolding free
free-first bitmap_end t below =
    let index : (t.start_addr + page_size - page_size - t.start_addr) / page_size ≡ 0 =
      omega arith in
    let inside : (ltb (t.start_addr + page_size) t.start_addr
          || ltb bitmap_end (t.start_addr + page_size))
        ≡ false =
      ground arith in
    let in_bounds : (ltb (t.start_addr + page_size) (t.start_addr + page_size)) ≡ false =
      ground arith in
    rw (inside, index, in_bounds) refl

module _ (g : Grant) (addr requested bitmap_end : ℕ) (s : Heap) (none_yet : s.start_addr ≡ 0)
    (there : granted g ≡ some addr) (fits : round_size requested / page_size < bits_count)
    (low : addr + page_size < 2 ^ 32) (below : addr + page_size ≤ bitmap_end) where
  abbrev size : ℕ
  size = round_size requested

  abbrev fresh : Heap
  fresh = record s { bits = λ _. false; start_addr = addr }

  -- The first block stands at the start.
  first_place : (b : ℕ) (r : ℕ × Heap) → Placed fresh size b r → b ≡ 0
  first_place b r placed = elim (Bool-cases (b == 0)) [
    | inl e ↦ ground arith
    | inr e ↦ absurd (let taken = placed.run.earlier 0 (ground arith) in cc taken.3)
  ]

  first_Placed : Placed fresh size 0 (malloc g requested s)
  first_Placed = elim (malloc-first_Answer g addr requested s none_yet there) [
    | inl (b, placed) ↦
        subst (λ c. Placed fresh size c (malloc g requested s))
          (first_place b (malloc g requested s) placed) placed
    | inr (full, e) ↦ absurd (let taken = full 0 (omega arith) in cc taken.3)
  ]

  abbrev given : Heap
  given = (malloc g requested s).1

  -- The block is the one at the start, with its size in the first word.
  given_free : free bitmap_end (addr + page_size) given ≡ clear (suc (size / 32)) 0 given
  given_free =
      let start = first_Placed.start_addr in
      let word : given.words 0 ≡ size = ap (λ f. f 0) first_Placed.words in
      ap (λ a. free bitmap_end (a + page_size) given) (sym start)
      ∙ free-first bitmap_end given (omega (arith, start))
      ∙ ap (λ n. clear (suc (n / 32)) 0 given) word

  -- With no memory yet, memory granted below the end that `free` compares with, and a size that fits:
  -- `malloc` of the bitmap allocator returns the address behind the first word and sets the bits of
  -- the size's words and one more, and `free` of that address returns and clears those up to the
  -- size's 32nd part, so that the others stay set.
  pub malloc_free-leaks :
      (t u : Heap) × (malloc g requested s ≡ (addr + page_size, t))
      × (free bitmap_end (addr + page_size) t ≡ ok 0 u)
      × ((i : ℕ) → t.bits i ≡ leb i (size / page_size))
      × ((i : ℕ) → u.bits i ≡ (ltb (size / 32) i && leb i (size / page_size)))
  malloc_free-leaks =
      let after = clear-Cleared (suc (size / 32)) 0 given (omega (arith, fits)) in
      (
        given,
        after.left,
        ap (λ a. (a, given)) (first_Placed.address ∙ omega arith),
        given_free ∙ after.returns,
        λ i. first_Placed.bits i ∙ ground arith,
        λ i. after.bits i ∙ ground (arith, first_Placed.bits i),
      )
