-- ===== src/MemBitmap/Search.antt =====
-- The search of pkg/libc_backends/lib/l4re_mem/mem_bitmap.cc finds the first run of free bits.
use kpr.Base.{
  ==→eq, sym, subst, ◌==◌, ℕ, zero, suc, ◌+◌, ◌-◌, ◌<◌, ◌≤◌, ◌≡◌, Bool, true, false, Option, none,
  some, leb, arith, Bool-cases, inl, inr,
}
use kpr.MemBitmap.Alloc.{search}

-- One of the `required` bits from `c` on is set.
abbrev pub Taken : (ℕ → Bool) → (required c : ℕ) → Type 0
Taken bits required c = (i : ℕ) × (c ≤ i) × (i < c + required) × (bits i ≡ true)

-- All `required` bits from `b` on are free, and from no earlier bit on.
pub record IsFirstRun (bits : ℕ → Bool) (limit required b : ℕ) : Type 0 where
  pub fits : b + required ≤ limit
  pub free : (i : ℕ) → b ≤ i → i < b + required → bits i ≡ false
  pub earlier : (c : ℕ) → c < b → Taken bits required c

-- What the search answers: the last bit of the first run, or that no run fits.
abbrev pub Found : (ℕ → Bool) → (limit required : ℕ) → Option (ℕ × ℕ) → Type 0
Found bits limit required none = (c : ℕ) → c + required ≤ limit → Taken bits required c
Found bits limit required (some (bit, gap)) =
    (gap ≡ required) × (b : ℕ) × (b + required ≡ suc bit) × IsFirstRun bits limit required b

-- The loop's invariant: the `gap` bits before `bit` are free, the one before them is set, and no
-- run has been passed.
record Scanned (bits : ℕ → Bool) (required bit gap : ℕ) : Type 0 where
  short : gap < required
  inside : gap ≤ bit
  run : (i : ℕ) → bit ≤ i + gap → i < bit → bits i ≡ false
  before : (i : ℕ) → i + gap + 1 ≡ bit → bits i ≡ true
  passed : (c : ℕ) → c + required ≤ bit → Taken bits required c

module _ (bits : ℕ → Bool) (required : ℕ) where
  Scanned-set :
      (bit gap : ℕ)
      → Scanned bits required bit gap
      → bits bit ≡ true
      → Scanned bits required (suc bit) 0
  Scanned-set bit gap s h = record {
    short = omega arith;
    inside = omega arith;
    run = λ i l u. absurd (omega arith);
    before = λ i e. subst (λ j. bits j ≡ true) (at i e) h;
    passed = λ c l. elim (Bool-cases (leb (c + required) bit)) [
      | inl e ↦ s.passed c (ground arith)
      | inr e ↦ (bit, ground arith, ground arith, h)
    ];
  }
    where
      at : (i : ℕ) → i + 0 + 1 ≡ suc bit → bit ≡ i
      at i e = omega arith

  Scanned-free :
      (bit gap : ℕ)
      → Scanned bits required bit gap
      → bits bit ≡ false
      → suc gap < required
      → Scanned bits required (suc bit) (suc gap)
  Scanned-free bit gap s h more = record {
    short = more;
    inside = omega arith;
    run = λ i l u. elim (Bool-cases (i == bit)) [
      | inl e ↦ subst (λ j. bits j ≡ false) (sym (==→eq i bit e)) h
      | inr e ↦ s.run i (omega arith) (ground arith)
    ];
    before = λ i e. s.before i (omega arith);
    passed = λ c l. elim (Bool-cases (leb (c + required) bit)) [
      | inl e ↦ s.passed c (ground arith)
      | inr e ↦ (bit - gap - 1, ground arith, ground arith, s.before (bit - gap - 1) (ground arith))
    ];
  }

  Scanned-hit :
      (n bit gap : ℕ)
      → Scanned bits required bit gap
      → bits bit ≡ false
      → required ≤ suc gap
      → Found bits (bit + suc n) required (some (bit, suc gap))
  Scanned-hit n bit gap s h enough = (
    omega (arith, s.short),
    bit - gap,
    omega (arith, s.short, s.inside),
    record {
      fits = omega (arith, s.short, s.inside);
      free = λ i l u. elim (Bool-cases (i == bit)) [
        | inl e ↦ subst (λ j. bits j ≡ false) (sym (==→eq i bit e)) h
        | inr e ↦ s.run i (omega (arith, s.short, s.inside)) (ground (arith, s.short, s.inside))
      ];
      earlier = λ c l. s.passed c (omega (arith, s.short, s.inside));
    },
  )

  -- The search, from any bit on.
  search-Found :
      (n bit gap : ℕ)
      → Scanned bits required bit gap
      → Found bits (bit + n) required (search n bit gap required bits)
  unfolding search
  search-Found zero bit gap s = λ c l. s.passed c (omega arith)
  search-Found (suc n) bit gap s = elim (Bool-cases (bits bit)) [
    | inl set ↦
        let no : leb required 0 ≡ false = ground (arith, s.short) in
        rw (set, no) (further 0 (search-Found n (suc bit) 0 (Scanned-set bit gap s set)))
    | inr clear ↦ rw (clear) (elim (Bool-cases (leb required (suc gap))) [
      | inl enough ↦ rw (enough) (Scanned-hit n bit gap s clear (ground arith))
      | inr short ↦ rw (short) (
          further (suc gap)
            (search-Found n (suc bit) (suc gap) (Scanned-free bit gap s clear (ground arith))))
    ])
  ]
    where
      further :
          (g : ℕ)
          → Found bits (suc bit + n) required (search n (suc bit) g required bits)
          → Found bits (bit + suc n) required (search n (suc bit) g required bits)
      further g =
          subst (λ m. Found bits m required (search n (suc bit) g required bits)) (omega arith)

  -- The search from the first bit finds the first run that fits.
  pub search-first : (n : ℕ) → 0 < required → Found bits n required (search n 0 0 required bits)
  search-first n some_bit =
      subst (λ m. Found bits m required (search n 0 0 required bits)) (omega arith)
        (search-Found n 0 0 (record {
          short = some_bit;
          inside = omega arith;
          run = λ i l u. absurd (omega arith);
          before = λ i e. absurd (omega arith);
          passed = λ c l. absurd (omega arith);
        }))
