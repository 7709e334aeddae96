-- ===== src/MemBitmap/Alloc.antt =====
-- pkg/libc_backends/lib/l4re_mem/mem_bitmap.cc: an allocator that keeps one bit for each word of its
-- memory. `bits` are the bits of `bitmap` in order, bit 0 of the first element first; `words` are the
-- words behind `start_addr`. Numbers and addresses are 32 bits wide.
use kpr.Base.{
  ℕ, zero, suc, ◌+◌, ◌-◌, ◌*◌, ◌/◌, ◌%◌, Bool, true, false, ◌||◌, Option, none, some, leb, ltb,
  ◌==◌, if◌then◌else◌, add32, sub32,
}
use kpr.Env.{Grant, granted}

abbrev pub page_size : ℕ
page_size = 4

abbrev pub bits_count : ℕ
bits_count = 32000

-- The elements of `bitmap`, each with 32 bits.
abbrev pub bmp_size : ℕ
bmp_size = 8000

pub record Heap : Type 0 where
  pub bits : ℕ → Bool
  pub words : ℕ → ℕ
  pub start_addr : ℕ

-- An access outside of `bitmap`, or outside of the memory behind `start_addr`, is not defined.
pub data Run : Type 0 where
  ok : (result : ℕ) → Heap → Run
  out_of_bounds : Run

abbrev pub set_bit : (ℕ → Bool) → ℕ → Bool → ℕ → Bool
set_bit bits bit b i = if i == bit then b else bits i

-- `init`: the bitmap is empty, whether memory is granted or not.
unfoldable pub init : Grant → Heap → Bool × Heap
init g s = elim (granted g) [
  | none ↦ (false, record s { bits = λ _. false })
  | some addr ↦ (true, record s { bits = λ _. false; start_addr = addr })
]

-- The size that is asked for, made a multiple of the page size.
unfoldable pub round_size : ℕ → ℕ
round_size size =
    if leb size page_size then page_size else add32 size (page_size - size % page_size)

-- The search, with `n` bits to go: the last bit of the first run of free bits that is long enough.
-- With the run's length, which is the number of bits to set.
unfoldable pub search : (n bit gap required : ℕ) → (ℕ → Bool) → Option (ℕ × ℕ)
search zero bit gap required bits = none
search (suc n) bit gap required bits =
    let gap' = if bits bit then 0 else suc gap in
    let rest = search n (suc bit) gap' required bits in
    if leb required gap' then some (bit, gap') else rest

-- "go backwards and set bits": what `bit` is afterwards, and the bits.
unfoldable pub mark : (gap bit : ℕ) → (ℕ → Bool) → ℕ × (ℕ → Bool)
mark zero bit bits = (bit, bits)
mark (suc gap) bit bits = mark gap (sub32 bit 1) (set_bit bits bit true)

-- What `malloc` does once there is memory.
unfoldable pub take : ℕ → Heap → ℕ × Heap
take size s = elim (search bits_count 0 0 (1 + size / page_size) s.bits) [
  | none ↦ (0, s)
  | some (bit, gap) ↦
      let (before, bits) = mark gap bit s.bits in
      let at = add32 before 1 in
      (
        add32 s.start_addr (page_size * (at + 1)),
        record s { bits = bits; words = λ i. if i == at then size else s.words i },
      )
]

unfoldable pub malloc : Grant → ℕ → Heap → ℕ × Heap
malloc g size s =
    if s.start_addr == 0
    then (let (there, s') = init g s in if there then take (round_size size) s' else (0, s'))
    else take (round_size size) s

-- The loop of `free`, which has `n` rounds to go.
unfoldable pub clear : (n bit : ℕ) → Heap → Run
clear zero bit s = ok 0 s
clear (suc n) bit s =
    let rest = clear n (add32 bit 1) (record s { bits = set_bit s.bits bit false }) in
    if ltb (bit / 32) bmp_size then rest else out_of_bounds

-- `free`: the address is compared with the start of the memory and with `bitmap_end`, the address of the
-- last element of `bitmap`. It reads the word before the address, which is the one of a word.
unfoldable pub free : (bitmap_end addr : ℕ) → Heap → Run
free bitmap_end addr s =
    let index = (addr - page_size - s.start_addr) / page_size in
    if ltb addr s.start_addr || ltb bitmap_end addr
    then ok 0 s
    else if ltb addr (s.start_addr + page_size) || leb bits_count index
    then out_of_bounds
    else clear (suc (s.words index / 32)) (sub32 0 index) s
