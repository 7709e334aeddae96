-- ===== src/MemBitmap/Mark.antt =====
-- Which bits `malloc` of pkg/libc_backends/lib/l4re_mem/mem_bitmap.cc sets and
-- what it returns, and what `free` does.
use kpr.Base.{
  ◌≢◌, ◌%◌, ◌∙◌, ◌-◌, ap, ℕ, zero, suc, ◌+◌, ◌*◌, ◌/◌, ◌<◌, ◌≤◌, ◌^◌, ◌≡◌, refl, Bool, true, false,
  ◌&&◌, Option, none, some, leb, ◌==◌, arith, if◌then◌else◌, add32, sub32, ◌⊎◌, inl, inr,
}
use kpr.MemBitmap.Alloc.{
  init, out_of_bounds, clear, free, Heap, bits_count, page_size, set_bit, search, mark, take,
  malloc, round_size,
}
use kpr.Env.{granted, Grant}
use kpr.MemBitmap.Search.{IsFirstRun, Taken, Found, search-first}

-- The bits from `b` up to `bit` are set, and the others are as they were.
abbrev pub with_run : (b bit : ℕ) → (ℕ → Bool) → ℕ → Bool
with_run b bit bits i = if leb b i && leb i bit then true else bits i

mark-with_run :
    (gap b bit : ℕ) (bits : ℕ → Bool)
    → b + gap ≡ bit
    → bit < 2 ^ 32
    → (add32 (mark (suc gap) bit bits).0 1 ≡ b)
      × ((i : ℕ) → (mark (suc gap) bit bits).1 i ≡ with_run b bit bits i)
unfolding mark
mark-with_run zero b bit bits e small = (ground arith, λ i. ground arith)
mark-with_run (suc gap) b bit bits e small =
    let (first, all) =
      mark-with_run gap b (sub32 bit 1) (set_bit bits bit true) (omega arith) (omega arith) in
    (first, λ i. ground (arith, all i))

-- What `malloc` leaves where it finds a place: the first run of free bits that is long enough is set,
-- the size stands in the first word, and the address is the one of the second.
pub record Placed (s : Heap) (size b : ℕ) (r : ℕ × Heap) : Type 0 where
  pub run : IsFirstRun s.bits bits_count (1 + size / page_size) b
  pub address : r.0 ≡ add32 s.start_addr (page_size * (b + 1))
  pub words : r.1.words ≡ (λ i. if i == b then size else s.words i)
  pub bits : (i : ℕ) → r.1.bits i ≡ with_run b (b + size / page_size) s.bits i
  pub start_addr : r.1.start_addr ≡ s.start_addr

abbrev pub Answer : Heap → (size : ℕ) → ℕ × Heap → Type 0
Answer s size r =
    ((b : ℕ) × Placed s size b r)
    ⊎ (((c : ℕ) → c + (1 + size / page_size) ≤ bits_count → Taken s.bits (1 + size / page_size) c)
        × (r ≡ (0, s)))

module _ (size : ℕ) (s : Heap) where
  take-Answer : Answer s size (take size s)
  unfolding take
  take-Answer =
      answered (search bits_count 0 0 (1 + size / page_size) s.bits)
        (search-first s.bits (1 + size / page_size) bits_count (omega arith))
    where
      answered :
          (o : Option (ℕ × ℕ))
          → Found s.bits bits_count (1 + size / page_size) o
          → Answer s size (elim o [
            | none ↦ (0, s)
            | some (bit, gap) ↦
                let (before, bits) = mark gap bit s.bits in
                let at = add32 before 1 in
                (
                  add32 s.start_addr (page_size * (at + 1)),
                  record s { bits = bits; words = λ i. if i == at then size else s.words i },
                )
          ])
      answered none found = inr (found, refl)
      answered (some (bit, gap)) (long, b, ends, first) =
          let pages = size / page_size in
          let gap_is : gap ≡ suc pages = omega arith in
          let (lands, all) =
            mark-with_run pages b bit s.bits (omega arith) (omega (arith, first.fits)) in
          let at : add32 (mark gap bit s.bits).0 1 ≡ b =
            ap (λ g. add32 (mark g bit s.bits).0 1) gap_is ∙ lands in
          inl (
            b,
            record {
              run = first;
              address = ap (λ a. add32 s.start_addr (page_size * (a + 1))) at;
              words = ap (λ a i. if i == a then size else s.words i) at;
              bits = λ i.
                  ap (λ g. (mark g bit s.bits).1 i) gap_is
                  ∙ all i
                  ∙ ap (λ e. with_run b e s.bits i) (omega arith);
              start_addr = refl;
            },
          )

-- Once memory is there, `malloc` of the bitmap allocator either sets the bits of the first run of free
-- bits that is long enough for the size and its header, and no other, writes the size to the run's
-- first word and returns the address of the second, or returns NULL and changes nothing, where each
-- run of that length has a bit that is set.
pub malloc-Answer :
    (g : Grant) (requested : ℕ) (s : Heap)
    → s.start_addr ≢ 0
    → Answer s (round_size requested) (malloc g requested s)
unfolding malloc
malloc-Answer g requested s there =
    let initialised : (s.start_addr == 0) ≡ false = ground arith in
    rw (initialised) (take-Answer (round_size requested) s)

init-granted :
    (g : Grant) (addr : ℕ) (s : Heap)
    → granted g ≡ some addr
    → init g s ≡ (true, record s { bits = λ _. false; start_addr = addr })
unfolding init
init-granted g addr s e = rw (e, init)

-- The first call of `malloc` of the bitmap allocator, where memory is granted, does the same from an
-- empty bitmap and the memory's start.
pub malloc-first_Answer :
    (g : Grant) (addr requested : ℕ) (s : Heap)
    → s.start_addr ≡ 0
    → granted g ≡ some addr
    → Answer
        (record s { bits = λ _. false; start_addr = addr })
        (round_size requested)
        (malloc g requested s)
unfolding malloc
malloc-first_Answer g addr requested s none_yet e =
    let initialised : (s.start_addr == 0) ≡ true = ground arith in
    rw (initialised, init-granted g addr s e)
      (take-Answer (round_size requested) (record s { bits = λ _. false; start_addr = addr }))

-- Below 2 ^ 32 - 4, the bitmap allocator makes a size a multiple of four that is at least the size,
-- and at most four more.
pub round_size_covers :
    (n : ℕ) → n < 2 ^ 32 - 4 → (n ≤ round_size n) × (round_size n ≤ n + 4) × (round_size n % 4 ≡ 0)
unfolding round_size
round_size_covers n h = ground arith

-- `free` of the bitmap allocator, for a block at any place but the first and an address up to the end
-- that it is compared with, accesses the bitmap out of bounds.
pub free-out_of_bounds :
    (bitmap_end b : ℕ) (s : Heap)
    → s.start_addr + page_size * (b + 1) ≤ bitmap_end
    → 0 < b
    → b < bits_count
    → free bitmap_end (s.start_addr + page_size * (b + 1)) s ≡ out_of_bounds
unfolding free clear
free-out_of_bounds bitmap_end b s inside later small =
    let index : (s.start_addr + page_size * (b + 1) - page_size - s.start_addr) / page_size ≡ b =
      omega arith in
    ground arith
