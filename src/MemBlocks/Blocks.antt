-- ===== src/MemBlocks/Blocks.antt =====
-- The blocks of pkg/libc_backends/lib/l4re_mem/mem_vFail.cc, the walk over their indexes and the loop that
-- clears bits. A block has eight bits, one for each page. An index is a 32-bit number.
use kpr.Base.{
  ℕ, zero, suc, ◌+◌, ◌%◌, Bool, true, false, not, Option, none, some, ◌==◌, if◌then◌else◌, sub32,
}

-- `Dmem_elem`: where it stands, and its bitmap.
pub record Block : Type 0 where
  pub addr : ℕ
  pub bitmap : ℕ → Bool

unfoldable pub is_zero : ℕ → Block → Bool
is_zero idx b = not (b.bitmap idx)

unfoldable pub set_bit : ℕ → Block → Block
set_bit idx b = record b { bitmap = λ i. if i == idx then true else b.bitmap i }

unfoldable pub clear_bit : ℕ → Block → Block
clear_bit idx b = record b { bitmap = λ i. if i == idx then false else b.bitmap i }

-- The indexes; the block that the loops walk on to as well is a local variable that no caller reads.
unfoldable pub inc_idx : (idx inc : ℕ) → ℕ
inc_idx idx zero = idx
inc_idx idx (suc inc) = inc_idx ((idx + 1) % 8) inc

unfoldable pub dec_idx : (idx dec : ℕ) → ℕ
dec_idx idx zero = idx
dec_idx idx (suc dec) = dec_idx (sub32 idx 1 % 8) dec

-- The loop that clears a block's bits from an index on, round the end: `n` rounds at most.
unfoldable pub clear_bits : (n idx : ℕ) → Block → Option Block
clear_bits zero idx b = none
clear_bits (suc n) idx b =
    let rest = clear_bits n (inc_idx idx 1) (clear_bit idx b) in
    if is_zero idx b then some b else rest
