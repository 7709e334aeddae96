-- ===== src/MemBlocks/Pages.antt =====
-- Which pages `malloc` of pkg/libc_backends/lib/l4re_mem/mem_vFail.cc takes, and that `free` gives back.
use kpr.Base.{
  ℕ, zero, suc, ◌+◌, ◌-◌, ◌/◌, ◌<◌, ◌≤◌, ◌≡◌, refl, ap, ◌∙◌, Bool, true, false, ◌&&◌, some, List,
  [], ◌∷◌, ltb, leb, if◌then◌else◌, arith,
}
use kpr.Env.{Grant, granted}
use kpr.MemBlocks.Blocks.{clear_bit, Block, set_bit, dec_idx, inc_idx, clear_bits}
use kpr.MemBlocks.Index.{dec_idx_lem, inc_idx_lem}
use kpr.MemBlocks.Alloc.{
  Heap, ok, page_size, set_back, take_pages, answer, extend_mem, grow, scan, take_extension,
  round_size, malloc,
}

-- The bits from `low` on and below `idx`.
abbrev pub with_pages : (low idx : ℕ) → (ℕ → Bool) → ℕ → Bool
with_pages low idx bits i = if leb low i && ltb i idx then true else bits i

pub dec_idx_one : (idx : ℕ) → idx < 7 → dec_idx (suc idx) 1 ≡ idx
dec_idx_one idx h = dec_idx_lem (suc idx) 1 (omega arith) ∙ omega arith

-- Going back inside a block.
pub set_back_lem :
    (n low : ℕ) (b : Block)
    → low + n < 8
    → ((set_back n (low + n) b).0 ≡ low)
      × ((set_back n (low + n) b).1.addr ≡ b.addr)
      × ((i : ℕ) → (set_back n (low + n) b).1.bitmap i ≡ with_pages low (low + n) b.bitmap i)
unfolding set_back set_bit
set_back_lem zero low b small = (omega arith, refl, λ i. ground arith)
set_back_lem (suc n) low b small =
    let shift : low + suc n ≡ suc (low + n) = omega arith in
    let step : set_back (suc n) (suc (low + n)) b ≡ set_back n (low + n) (set_bit (low + n) b) =
      ap (λ i. set_back n i (set_bit i b)) (dec_idx_one (low + n) (omega arith)) in
    let (lands, stays, sets) = set_back_lem n low (set_bit (low + n) b) (omega arith) in
    rw (shift, step) (lands, stays, λ i. ground (arith, sets i))

pub clear_bits_more :
    (n m idx : ℕ) (b b' : Block)
    → clear_bits n idx b ≡ some b'
    → n ≤ m
    → clear_bits m idx b ≡ some b'
unfolding clear_bits
clear_bits_more zero m idx b b' e h = cc
clear_bits_more (suc n) zero idx b b' e h = absurd (omega arith)
clear_bits_more (suc n) (suc m) idx b b' e h =
    ground (arith, clear_bits_more n m (inc_idx idx 1) (clear_bit idx b) b')

-- The heap with no block, and with one.
abbrev pub empty : Heap → List Grant → Heap
empty h gs = record h { blocks = []; grants = gs }

abbrev pub single : Heap → Block → List Grant → Heap
single h b gs = record h { blocks = b ∷ []; grants = gs }

module _ (h : Heap) (g : Grant) (gs : List Grant) (a : ℕ) (there : granted g ≡ some a) where
  abbrev new_block : Block
  new_block = record { addr = a; bitmap = λ _. false }

  extend_mem-empty : extend_mem (empty h (g ∷ gs)) ≡ (some 1, single h new_block gs)
  unfolding extend_mem answer
  extend_mem-empty = rw (there, answer)

  grow-once :
      (fuel required : ℕ)
      → required ≤ 8
      → grow (suc fuel) 0 required (empty h (g ∷ gs)) ≡ ok (some 1) (single h new_block gs)
  unfolding grow
  grow-once fuel required few =
      let enough : ltb 8 required ≡ false = ground arith in rw (enough, extend_mem-empty)

  take_extension-empty :
      (fuel pages : ℕ)
      → pages ≤ 6
      → take_extension (suc fuel) 0 (2 + pages) (empty h (g ∷ gs))
        ≡ take_pages pages (suc pages) 1 (single h new_block gs)
  unfolding take_extension dec_idx
  take_extension-empty fuel pages few =
      let back : 2 + pages - 2 ≡ pages = omega arith in
      let last : inc_idx 0 (2 + pages - 1) ≡ suc pages =
        inc_idx_lem 0 (2 + pages - 1) (omega arith) ∙ omega arith in
      rw (grow-once fuel (2 + pages) (omega arith), take_extension, back, last)

  pub malloc-empty :
      (fuel size : ℕ)
      → round_size size / page_size ≤ 6
      → malloc (suc fuel) size (empty h (g ∷ gs))
        ≡ take_pages
            (round_size size / page_size)
            (suc (round_size size / page_size))
            1
            (single h new_block gs)
  unfolding malloc scan
  malloc-empty fuel size few = take_extension-empty fuel (round_size size / page_size) few
