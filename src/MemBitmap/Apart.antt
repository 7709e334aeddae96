-- ===== src/MemBitmap/Apart.antt =====
-- The blocks that pkg/libc_backends/lib/l4re_mem/mem_bitmap.cc has given out: their bits are set and they do not meet.
use kpr.Base.{
  ◌∙◌, ℕ, suc, ◌+◌, ◌/◌, ◌<◌, ◌≤◌, ◌≡◌, ◌⊎◌, ap, true, inl, inr, leb, ltb, ◌==◌, arith,
  if◌then◌else◌, Bool-cases, List, [], ◌∷◌, ◌++◌,
}
use kpr.MemBitmap.Alloc.{Heap, bits_count, page_size}
use kpr.MemBitmap.Search.{IsFirstRun}
use kpr.MemBitmap.Mark.{Placed}
use kpr.MemBitmap.Leak.{without_run}

-- A block is the bit of its first word, and its size, which that word has.
abbrev pub Block : Type 0
Block = ℕ × ℕ

-- The words of one block, the first included, end before the other begins.
abbrev pub Apart : Block → Block → Type 0
Apart (b, n) (c, m) = (b + n / page_size < c) ⊎ (c + m / page_size < b)

abbrev pub ApartFrom : Block → List Block → Type 0
ApartFrom b [] = Unit {0}
ApartFrom b (c ∷ cs) = Apart b c × ApartFrom b cs

-- The block lies in the memory, its bits are set and its first word has its size.
pub record Given (s : Heap) (b n : ℕ) : Type 0 where
  pub fits : b + n / page_size < bits_count
  pub set : (i : ℕ) → b ≤ i → i ≤ b + n / page_size → s.bits i ≡ true
  pub word : s.words b ≡ n

abbrev pub Kept : Heap → List Block → Type 0
Kept s [] = Unit {0}
Kept s ((b, n) ∷ bs) = Given s b n × ApartFrom (b, n) bs × Kept s bs

-- A run of free bits is apart from a block that was given out.
free-Apart :
    (s : Heap) (b n c m : ℕ)
    → IsFirstRun s.bits bits_count (1 + n / page_size) b
    → Given s c m
    → Apart (b, n) (c, m)
free-Apart s b n c m run given = elim (Bool-cases (ltb (b + n / page_size) c)) [
  | inl e ↦ inl (ground arith)
  | inr e ↦ elim (Bool-cases (ltb (c + m / page_size) b)) [
    | inl e' ↦ inr (ground arith)
    | inr e' ↦ absurd (elim (Bool-cases (leb b c)) [
      | inl low ↦ meets c (ground arith) (ground arith) (omega arith) (ground arith)
      | inr high ↦ meets b (omega arith) (ground arith) (ground arith) (ground arith)
    ])
  ]
]
  where
    meets : (i : ℕ) → b ≤ i → i ≤ b + n / page_size → c ≤ i → i ≤ c + m / page_size → ⊥
    meets i p q p' q' = let free = run.free i p (omega arith) in let set = given.set i p' q' in cc

module _ (s t : Heap) (b n p : ℕ) (placed : Placed s n b (p, t)) where
  new-Given : Given t b n
  new-Given = record {
    fits = omega (arith, placed.run.fits);
    set = λ i low high. placed.bits i ∙ ground arith;
    word = ap (λ f. f b) placed.words ∙ ground arith;
  }

  old-Given : (c m : ℕ) → Given s c m → Given t c m
  old-Given c m given = record {
    fits = given.fits;
    set = λ i low high. placed.bits i ∙ ground (arith, given.set i low high);
    word = ap (λ f. f c) placed.words ∙ kept (free-Apart s b n c m placed.run given);
  }
    where
      kept : Apart (b, n) (c, m) → (if c == b then n else s.words c) ≡ m
      kept (inl q) = ground (arith, given.word)
      kept (inr q) = ground (arith, given.word)

  old-Kept : (bs : List Block) → Kept s bs → Kept t bs × ApartFrom (b, n) bs
  old-Kept [] kept = (tt, tt)
  old-Kept ((c, m) ∷ bs) (given, apart, kept) =
      let (rest, off) = old-Kept bs kept in
      ((old-Given c m given, apart, rest), (free-Apart s b n c m placed.run given, off))

  -- What `malloc` gives out is one block more.
  pub Placed-Kept : (bs : List Block) → Kept s bs → Kept t ((b, n) ∷ bs)
  Placed-Kept bs kept = let (rest, off) = old-Kept bs kept in (new-Given, off, rest)

ApartFrom-without :
    (b d : Block) (xs ys : List Block)
    → ApartFrom b (xs ++ d ∷ ys)
    → Apart b d × ApartFrom b (xs ++ ys)
ApartFrom-without b d [] ys (here, off) = (here, off)
ApartFrom-without b d (x ∷ xs) ys (here, off) =
    let (at_d, rest) = ApartFrom-without b d xs ys off in (at_d, (here, rest))

-- Without one of the blocks.
pub Kept-without :
    (s : Heap) (d : Block) (xs ys : List Block) → Kept s (xs ++ d ∷ ys) → Kept s (xs ++ ys)
Kept-without s d [] ys (given, off, kept) = kept
Kept-without s d ((c, m) ∷ xs) ys (given, off, kept) =
    (given, (ApartFrom-without (c, m) d xs ys off).1, Kept-without s d xs ys kept)

pub Kept-Given :
    (s : Heap) (b n : ℕ) (xs ys : List Block) → Kept s (xs ++ (b, n) ∷ ys) → Given s b n
Kept-Given s b n [] ys (given, off, kept) = given
Kept-Given s b n (x ∷ xs) ys (given, off, kept) = Kept-Given s b n xs ys kept

-- What `free` leaves where it takes back the block at the start.
module _ (s t : Heap) (n : ℕ) (words : t.words ≡ s.words)
    (bits : (i : ℕ) → t.bits i ≡ without_run 0 (suc (n / 32)) s.bits i) where
  other-Given : (c m : ℕ) → Apart (c, m) (0, n) → Given s c m → Given t c m
  other-Given c m apart given = record {
    fits = given.fits;
    set = λ i low high. bits i ∙ still apart i low (given.set i low high);
    word = ap (λ f. f c) words ∙ given.word;
  }
    where
      still :
          Apart (c, m) (0, n)
          → (i : ℕ) → c ≤ i
          → s.bits i ≡ true
          → without_run 0 (suc (n / 32)) s.bits i ≡ true
      still (inl q) i low set = absurd (omega arith)
      still (inr q) i low set = ground arith

  Kept-others : (bs : List Block) → ApartFrom (0, n) bs → Kept s bs → Kept t bs
  Kept-others [] off kept = tt
  Kept-others ((c, m) ∷ bs) (here, off) (given, apart, kept) =
      (other-Given c m (turned here) given, apart, Kept-others bs off kept)
    where
      turned : Apart (0, n) (c, m) → Apart (c, m) (0, n)
      turned (inl q) = inr q
      turned (inr q) = inl q

  -- The other blocks are kept.
  pub Freed-Kept : (xs ys : List Block) → Kept s (xs ++ (0, n) ∷ ys) → Kept t (xs ++ ys)
  Freed-Kept [] ys (given, off, kept) = Kept-others ys off kept
  Freed-Kept ((c, m) ∷ xs) ys (given, off, kept) =
      let (apart, rest) = ApartFrom-without (c, m) (0, n) xs ys off in
      (other-Given c m apart given, rest, Freed-Kept xs ys kept)
