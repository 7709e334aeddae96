-- ===== src/MemList/Spread.antt =====
-- The blocks of pkg/libc_backends/lib/l4re_mem/mem_list.cc lie apart in mapped memory, and each call keeps that
-- where the sizes are odd multiples of four.
use kpr.Base.{
  ℕ, ◌+◌, ◌-◌, ◌%◌, ◌<◌, ◌≤◌, ◌≡◌, ◌≢◌, ◌⊎◌, inl, inr, ap, ◌∙◌, List, [], ◌∷◌, arith, ◌==◌, count,
  Bool-cases, true,
}
use kpr.MemList.State.{Ptr, header, Mem, mapped, accessible}
use kpr.MemList.Steps.{rest_at, cut}
use kpr.MemList.Cut.{Room}
use kpr.MemList.Bounds.{rest_at_lem}
use kpr.MemList.Take.{splits}
use kpr.MemList.Spaced.{Held, Placed, Spaced, Spaced-fewer, Spaced-cut, rest-Held}

-- One of the mapped regions has the `n` bytes from `a` on.
abbrev pub Covers : List (ℕ × ℕ) → (a n : ℕ) → Type 0
Covers [] a n = ⊥
Covers ((start, length) ∷ rs) a n = ((start ≤ a) × (a + n ≤ start + length)) ⊎ Covers rs a n

pub Covers-part :
    (rs : List (ℕ × ℕ)) (a n b m : ℕ) → Covers rs a n → a ≤ b → b + m ≤ a + n → Covers rs b m
Covers-part [] a n b m c low high = c
Covers-part ((start, length) ∷ rs) a n b m (inl c) low high = inl (omega arith, omega arith)
Covers-part ((start, length) ∷ rs) a n b m (inr c) low high =
    inr (Covers-part rs a n b m c low high)

pub Covers-mapped : (rs : List (ℕ × ℕ)) (a : ℕ) → Covers rs a header → mapped rs a ≡ true
unfolding mapped
Covers-mapped [] a c = absurd c
Covers-mapped ((start, length) ∷ rs) a (inl c) = ground arith
Covers-mapped ((start, length) ∷ rs) a (inr c) = ground (arith, Covers-mapped rs a c)

-- The blocks lie apart, and each in mapped memory but for its last four bytes: `align` may have moved
-- the header by as much.
pub record Spread (s : Mem) (ps hs : List Ptr) : Type 0 where
  pub spaced : Spaced s.size ps hs
  pub backed : (a : Ptr) → Held ps hs a → Covers s.regions a (s.size a + 8)

module _ (s : Mem) (ps hs : List Ptr) (spread : Spread s ps hs) (r size : ℕ) (held : Held ps hs r)
    (exact : size % 8 ≡ 4) (fits : size ≤ s.size r) (wide : splits s r size ≡ true) where
  at_r : Placed s.size r
  at_r = spread.spaced.placed r held

  wider : size + header < s.size r
  wider = ground (arith, at_r.low)

  rest_place : rest_at r size ≡ r + header + size
  rest_place =
      rw (rest_at_lem r size at_r.aligned (omega arith) (omega (arith, at_r.low))) (ground arith)

  part-Covers : Covers s.regions (rest_at r size) (s.size r - size - header + 8)
  part-Covers =
      Covers-part s.regions r (s.size r + 8) (rest_at r size) (s.size r - size - header + 8)
        (spread.backed r held) (omega (arith, rest_place)) (omega (arith, rest_place, wider))

  pub rest-Room : Room s ps hs r size
  unfolding accessible
  rest-Room =
      let mapped_there = Covers-mapped s.regions (rest_at r size) (
        Covers-part s.regions (rest_at r size) (s.size r - size - header + 8) (rest_at r size)
          header part-Covers (omega arith) (omega (arith, wider, at_r.whole))) in
      (ground (arith, mapped_there, rest_place), omega (arith, not_held), omega (arith, not_held))
    where
      not_held : count (rest_at r size) ps + count (rest_at r size) hs ≡ 0
      not_held = elim (Bool-cases (count (rest_at r size) ps + count (rest_at r size) hs == 0)) [
        | inl e ↦ ground arith
        | inr e ↦ absurd (
            rest-Held s.size ps hs ps hs s.size spread.spaced r (rest_at r size) size held
              rest_place exact wider (ground arith))
      ]

module _ (s t : Mem) (ps hs ps' hs' : List Ptr) (spread : Spread s ps hs)
    (regions : t.regions ≡ s.regions) where
  -- No size has changed, and no block is new.
  pub same-Spread : t.size ≡ s.size → ((a : Ptr) → Held ps' hs' a → Held ps hs a) → Spread t ps' hs'
  same-Spread sizes old = record {
    spaced =
        Spaced-fewer s.size t.size ps hs ps' hs' spread.spaced
          (λ a h. rw sizes (omega arith, (spread.spaced.placed a h).whole)) old;
    backed = λ a h. rw (regions, sizes) (spread.backed a (old a h));
  }

  module _ (r size : ℕ) (held : Held ps hs r) (exact : size % 8 ≡ 4) (fits : size ≤ s.size r)
      (wide : splits s r size ≡ true) (sizes : t.size ≡ (cut s r size).size)
      (old : (a : Ptr) → Held ps' hs' a → (a ≡ rest_at r size) ⊎ Held ps hs a) where
    abbrev n : Ptr
    n = rest_at r size

    behind : n ≡ r + header + size
    behind = rest_place s ps hs spread r size held exact fits wide

    room_for : size + header < s.size r
    room_for = wider s ps hs spread r size held exact fits wide

    size_of : (a : Ptr) → t.size a ≡ (cut s r size).size a
    size_of a = ap (λ f. f a) sizes

    first_size : t.size r ≡ size
    first_size = size_of r ∙ ground arith

    rest_size : t.size n ≡ s.size r - size - header
    rest_size = size_of n ∙ ground (arith, behind, room_for, (spread.spaced.placed r held).low)

    other_size : (a : Ptr) → a ≢ r → a ≢ n → t.size a ≡ s.size a
    other_size a ne ne' = size_of a ∙ ground arith

    backs_rest : (a : Ptr) → a ≡ n → Covers s.regions a (t.size a + 8)
    backs_rest a e = rw (e, rest_size) (part-Covers s ps hs spread r size held exact fits wide)

    backs : (a : Ptr) → (a ≡ n) ⊎ Held ps hs a → Covers s.regions a (t.size a + 8)
    backs a (inl e) = backs_rest a e
    backs a (inr h) = elim (Bool-cases (a == n)) [
      | inl e ↦ backs_rest a (ground arith)
      | inr e ↦ elim (Bool-cases (a == r)) [
        | inl e' ↦
            let here : a ≡ r = ground arith in
            rw here (
              rw first_size (
                Covers-part s.regions r (s.size r + 8) r (size + 8) (spread.backed r held)
                  (omega arith) (omega arith)))
        | inr e' ↦ rw (other_size a (ground arith) (ground arith)) (spread.backed a h)
      ]
    ]

    -- The block is cut, and the rest is held as well.
    pub cut-Spread : Spread t ps' hs'
    cut-Spread = record {
      spaced =
          Spaced-cut t.size ps hs ps' hs' s.size spread.spaced r n size held behind exact room_for
            first_size rest_size other_size old;
      backed = λ a h. rw regions (backs a (old a h));
    }
