-- ===== src/MemList/Spaced.antt =====
-- That the blocks of pkg/libc_backends/lib/l4re_mem/mem_list.cc lie apart in memory: the lemmas on the ways in
-- which a call changes the blocks.
use kpr.Base.{
  suc, length, length-append, ℕ, ◌+◌, ◌-◌, ◌%◌, ◌<◌, ◌≤◌, ◌^◌, ◌≡◌, ◌≢◌, ◌⊎◌, inl, inr, sym, subst,
  ◌∙◌, count-append, List, [], ◌∷◌, arith, ◌==◌, count, Bool-cases,
}
use kpr.MemList.State.{Ptr, header}
use kpr.MemList.Insert.{insert_sorted}
use kpr.MemList.Heap.{by_size}
use kpr.MemList.Take.{replace}

-- The block is in one of the lists.
abbrev pub Held : (ps hs : List Ptr) → Ptr → Type 0
Held ps hs a = 0 < count a ps + count a hs

-- The memory of one block, header included, ends before the other begins.
abbrev pub Apart : (Ptr → ℕ) → Ptr → Ptr → Type 0
Apart size a b = (a + header + size a ≤ b) ⊎ (b + header + size b ≤ a)

-- A block's memory starts four bytes behind a multiple of eight, is a multiple of four, and is not at the
-- end of the address space.
pub record Placed (size : Ptr → ℕ) (a : Ptr) : Type 0 where
  pub aligned : (a + header) % 8 ≡ 0
  pub whole : size a % 4 ≡ 0
  pub low : a + size a + 40 < 2 ^ 32

pub record Spaced (size : Ptr → ℕ) (ps hs : List Ptr) : Type 0 where
  pub placed : (a : Ptr) → Held ps hs a → Placed size a
  pub apart : (a b : Ptr) → Held ps hs a → Held ps hs b → a ≢ b → Apart size a b

-- No block is new, and no size has grown.
pub Spaced-fewer :
    (f g : Ptr → ℕ) (ps hs ps' hs' : List Ptr)
    → Spaced f ps hs
    → ((a : Ptr) → Held ps hs a → (g a ≤ f a) × (g a % 4 ≡ 0))
    → ((a : Ptr) → Held ps' hs' a → Held ps hs a)
    → Spaced g ps' hs'
Spaced-fewer f g ps hs ps' hs' spaced less old = record {
  placed = λ a h.
      let p = spaced.placed a (old a h) in
      let l = less a (old a h) in
      record { aligned = p.aligned; whole = l.1; low = omega (arith, p.low, l.0) };
  apart = λ a b h k ne.
      shrink a b (spaced.apart a b (old a h) (old b k) ne) (less a (old a h)).0
        (less b (old b k)).0;
}
  where
    shrink : (a b : Ptr) → Apart f a b → g a ≤ f a → g b ≤ f b → Apart g a b
    shrink a b (inl p) l m = inl (omega arith)
    shrink a b (inr p) l m = inr (omega arith)

Apart-sym : (g : Ptr → ℕ) (a b : Ptr) → Apart g a b → Apart g b a
Apart-sym g a b (inl p) = inr p
Apart-sym g a b (inr p) = inl p

module _ (g : Ptr → ℕ) (ps hs ps' hs' : List Ptr) where
  -- One block is new.
  pub Spaced-more :
      Spaced g ps hs
      → (e : Ptr) → Placed g e
      → ((a : Ptr) → Held ps hs a → a ≢ e → Apart g e a)
      → ((a : Ptr) → Held ps' hs' a → (a ≡ e) ⊎ Held ps hs a)
      → Spaced g ps' hs'
  Spaced-more spaced e p clear old = record {
    placed = λ a h. place a (old a h);
    apart = λ a b h k ne. both a b (old a h) (old b k) ne;
  }
    where
      place : (a : Ptr) → (a ≡ e) ⊎ Held ps hs a → Placed g a
      place a (inl new) = subst (Placed g) (sym new) p
      place a (inr held) = spaced.placed a held

      both : (a b : Ptr) → (a ≡ e) ⊎ Held ps hs a → (b ≡ e) ⊎ Held ps hs b → a ≢ b → Apart g a b
      both a b (inl new) (inl new') ne = absurd (ne (new ∙ sym new'))
      both a b (inl new) (inr k) ne = rw new (clear b k (λ same. ne (new ∙ sym same)))
      both a b (inr h) (inl new') ne =
          rw new' (Apart-sym g e a (clear a h (λ same. ne (same ∙ sym new'))))
      both a b (inr h) (inr k) ne = spaced.apart a b h k ne

  module _ (f : Ptr → ℕ) (spaced : Spaced f ps hs) (r n size : ℕ) (held : Held ps hs r)
      (place : n ≡ r + header + size) (exact : size % 8 ≡ 4) (fits : size + header < f r) where
    -- No other block starts where the rest will.
    pub rest-Held : Held ps hs n → ⊥
    rest-Held h = inside (spaced.apart r n held h (omega arith))
      where
        inside : Apart f r n → ⊥
        inside (inl p) = omega arith
        inside (inr p) = omega arith

    -- One block is cut in two.
    pub Spaced-cut :
        g r ≡ size
        → g n ≡ f r - size - header
        → ((a : Ptr) → a ≢ r → a ≢ n → g a ≡ f a)
        → ((a : Ptr) → Held ps' hs' a → (a ≡ n) ⊎ Held ps hs a)
        → Spaced g ps' hs'
    Spaced-cut gr gn same old =
        Spaced-more (Spaced-fewer f g ps hs ps hs spaced less (λ a h. h)) n
          (record {
            aligned = omega (arith, at_r.aligned);
            whole = omega (arith, at_r.whole);
            low = omega (arith, at_r.low);
          })
          clear old
      where
        at_r : Placed f r
        at_r = spaced.placed r held

        not_rest : (a : Ptr) → Held ps hs a → a ≢ n
        not_rest a h e = rest-Held (subst (Held ps hs) e h)

        less : (a : Ptr) → Held ps hs a → (g a ≤ f a) × (g a % 4 ≡ 0)
        less a h = elim (Bool-cases (a == r)) [
          | inl e ↦ let here : a ≡ r = ground arith in rw (here, gr) (omega arith, omega arith)
          | inr e ↦
              rw (same a (ground arith) (not_rest a h)) (omega arith, (spaced.placed a h).whole)
        ]

        clear_of : (a : Ptr) → g a ≡ f a → Apart f r a → Apart g n a
        clear_of a e (inl p) = inl (omega arith)
        clear_of a e (inr p) = inr (omega arith)

        clear : (a : Ptr) → Held ps hs a → a ≢ n → Apart g n a
        clear a h ne = elim (Bool-cases (a == r)) [
          | inl e ↦ let here : a ≡ r = ground arith in inr (rw (here, gr) (omega arith))
          | inr e ↦
              let other : a ≢ r = ground arith in
              clear_of a (same a other ne) (spaced.apart r a held h (λ e. other (sym e)))
        ]

pub count-replace :
    (r : Ptr) (zs xs : List Ptr) (a : Ptr) → count a (replace r zs xs) ≤ count a xs + count a zs
unfolding replace
count-replace r zs [] a = omega arith
count-replace r zs (x ∷ xs) a = ground (arith, count-replace r zs xs a, count-append a zs xs)

pub length-replace :
    (r : Ptr) (zs xs : List Ptr)
    → 0 < count r xs
    → suc (length (replace r zs xs)) ≡ length xs + length zs
unfolding replace
length-replace r zs [] there = absurd (omega arith)
length-replace r zs (x ∷ xs) there = elim (Bool-cases (x == r)) [
  | inl e ↦ rw e (omega (arith, length-append zs xs))
  | inr e ↦ rw e (omega (arith, length-replace r zs xs (ground arith)))
]

pub length-by_size :
    (size : Ptr → ℕ) (e : Ptr) (hs : List Ptr) → length (by_size size e hs) ≡ suc (length hs)
unfolding insert_sorted
length-by_size size e [] = omega arith
length-by_size size e (x ∷ xs) = ground (arith, length-by_size size e xs)
