-- ===== src/MemBlocks/Index.antt =====
-- The indexes and the clearing loop of pkg/libc_backends/lib/l4re_mem/mem_vFail.cc.
use kpr.Base.{
  ap, ltb, ◌&&◌, leb, if◌then◌else◌, ℕ, zero, suc, ◌+◌, ◌*◌, ◌%◌, ◌<◌, ◌≤◌, ◌≡◌, ◌∙◌, true, false,
  some, arith, sub32,
}
use kpr.MemBlocks.Blocks.{Block, is_zero, clear_bit, inc_idx, dec_idx, clear_bits}

pub inc_idx_lem : (idx inc : ℕ) → idx < 8 → inc_idx idx inc ≡ (idx + inc) % 8
unfolding inc_idx
inc_idx_lem idx zero h = omega arith
inc_idx_lem idx (suc inc) h = inc_idx_lem ((idx + 1) % 8) inc (omega arith) ∙ omega arith

pub dec_idx_lem : (idx dec : ℕ) → idx < 8 → dec_idx idx dec ≡ (idx + 7 * dec) % 8
unfolding dec_idx
dec_idx_lem idx zero h = omega arith
dec_idx_lem idx (suc dec) h = dec_idx_lem (sub32 idx 1 % 8) dec (omega arith) ∙ omega arith

-- From an index below eight, as many steps back as forward lead to the index again.
pub dec_idx-inc_idx : (idx n : ℕ) → idx < 8 → dec_idx (inc_idx idx n) n ≡ idx
dec_idx-inc_idx idx n h = omega (arith, inc_idx_lem idx n h, dec_idx_lem (inc_idx idx n) n)

-- The bits from `idx` on, `n` of them, are set and the next is not.
pub record IsRun (b : Block) (idx n : ℕ) : Type 0 where
  pub inside : idx + n < 8
  pub set : (i : ℕ) → idx ≤ i → i < idx + n → b.bitmap i ≡ true
  pub ends : b.bitmap (idx + n) ≡ false

inc_idx_one : (idx : ℕ) → idx < 7 → inc_idx idx 1 ≡ idx + 1
inc_idx_one idx h = inc_idx_lem idx 1 (omega arith) ∙ omega arith

-- From an index at which a run of set bits starts that ends within the block at a free bit, the
-- clearing loop of the block allocator's `free` stops after as many rounds as the run has bits, and
-- has cleared the run and no other bit.
pub clear_bits_lem :
    (n idx : ℕ) (b : Block)
    → IsRun b idx n
    → (b' : Block) × (clear_bits (suc n) idx b ≡ some b')
      × ((i : ℕ) → b'.bitmap i ≡ (if leb idx i && ltb i (idx + n) then false else b.bitmap i))
unfolding clear_bits is_zero clear_bit
clear_bits_lem zero idx b run =
    let zero_here : b.bitmap idx ≡ false = ap b.bitmap (omega arith) ∙ run.ends in
    (b, ground (arith, zero_here), λ i. ground arith)
clear_bits_lem (suc n) idx b run =
    let set_here : b.bitmap idx ≡ true = run.set idx (omega arith) (omega arith) in
    let (b', ran, cleared) = clear_bits_lem n (idx + 1) (clear_bit idx b) (record {
      inside = omega (arith, run.inside);
      set = λ i l u. ground (arith, run.set i);
      ends = ground (arith, run.ends, ap b.bitmap (moved idx n));
    }) in
    (
      b',
      rw (set_here, inc_idx_one idx (omega (arith, run.inside))) ran,
      λ i. ground (arith, cleared i, run.set i),
    )
  where
    moved : (idx n : ℕ) → idx + 1 + n ≡ idx + suc n
    moved idx n = omega arith
