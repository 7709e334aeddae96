-- ===== src/MemList/Settled.antt =====
-- Each way through `malloc` and `free` of pkg/libc_backends/lib/l4re_mem/mem_list.cc leaves the blocks apart in
-- mapped memory.
use kpr.Base.{
  count-head, ◌∈◌, ℕ, ◌+◌, ◌%◌, ◌<◌, ◌≤◌, ◌^◌, ◌≡◌, ◌≢◌, ◌⊎◌, inl, inr, refl, sym, subst, ap, ◌∙◌,
  List, [], ◌∷◌, ◌++◌, arith, ◌==◌, count, count-append, Bool-cases, if◌then◌else◌,
}
use kpr.MemList.State.{Ptr, ext_mem, header, Mem}
use kpr.MemList.Ops.{align, processes, holes}
use kpr.Env.{Grant}
use kpr.MemList.Steps.{rest_at, cut}
use kpr.MemList.Heap.{by_address, by_size}
use kpr.MemList.Insert.{precedes, count-insert_sorted}
use kpr.MemList.Take.{Taken, splits, leftover, replace}
use kpr.MemList.Gain.{gained}
use kpr.MemList.Extend.{Extended, holes_after}
use kpr.MemList.Free.{Freed}
use kpr.MemList.Spaced.{Held, Apart, Spaced-fewer, Spaced-more, count-replace}
use kpr.MemList.Spread.{Covers, Spread, cut-Spread, same-Spread}

pub count-by_address :
    (e : Ptr) (ps : List Ptr) (a : Ptr) → count a (by_address e ps) ≡ count a (e ∷ ps)
count-by_address e ps a = count-insert_sorted (λ x. precedes processes (λ b. b) x e) e ps a

pub count-by_size :
    (size : Ptr → ℕ) (e : Ptr) (hs : List Ptr) (a : Ptr)
    → count a (by_size size e hs) ≡ count a (e ∷ hs)
count-by_size size e hs a = count-insert_sorted (λ x. precedes holes size x e) e hs a

-- Where a block gives way to `zs` and joins the blocks in use, a block is one of `zs` or was there.
pub old_or :
    (ps hs : List Ptr) (r : Ptr)
    → Held ps hs r
    → (zs : List Ptr) (a : Ptr) → Held (by_address r ps) (replace r zs hs) a
    → (a ∈ zs) ⊎ Held ps hs a
old_or ps hs r held zs a h = elim (Bool-cases (count a zs == 0)) [
  | inl none_there ↦ elim (Bool-cases (a == r)) [
    | inl e ↦ inr (subst (Held ps hs) (sym (ground arith)) held)
    | inr e ↦ inr (ground (arith, h, count-by_address r ps a, count-replace r zs hs a))
  ]
  | inr some_there ↦ inl (ground arith)
]

-- Where a block joins the blocks in use and another the holes.
pub new_or :
    (size : Ptr → ℕ) (ps hs : List Ptr) (e n a : Ptr)
    → Held (by_address e ps) (by_size size n hs) a
    → (a ≡ n) ⊎ Held ps (e ∷ hs) a
new_or size ps hs e n a h = elim (Bool-cases (a == n)) [
  | inl same ↦ inl (ground arith)
  | inr other ↦ inr (ground (arith, h, count-by_address e ps a, count-by_size size n hs a))
]

module _ (s t : Mem) (ps hs : List Ptr) (r size p : ℕ) (spread : Spread s ps hs)
    (held : Held ps hs r) (exact : size % 8 ≡ 4) (fits : size ≤ s.size r) where
  pub Taken-Spread :
      Taken s ps hs r size p t → Spread t (by_address r ps) (replace r (leftover s r size) hs)
  Taken-Spread taken = elim (Bool-cases (splits s r size)) [
    | inl wide ↦ rw wide (
        cut-Spread s t ps hs (by_address r ps) (replace r (rest_at r size ∷ []) hs) spread
          taken.regions r size held exact fits wide
          (taken.sizes ∙ ap (λ c. if c then (cut s r size).size else s.size) wide)
          (λ a h. rest_or a (old_or ps hs r held (rest_at r size ∷ []) a h)))
    | inr narrow ↦ rw narrow (
        same-Spread s t ps hs (by_address r ps) (replace r [] hs) spread taken.regions
          (taken.sizes ∙ ap (λ c. if c then (cut s r size).size else s.size) narrow)
          (λ a h. none_or a (old_or ps hs r held [] a h)))
  ]
    where
      rest_or :
          (a : Ptr)
          → (a ∈ (rest_at r size ∷ [])) ⊎ Held ps hs a
          → (a ≡ rest_at r size) ⊎ Held ps hs a
      rest_or a (inl m) = inl (ground arith)
      rest_or a (inr h) = inr h

      none_or : (a : Ptr) → (a ∈ []) ⊎ Held ps hs a → Held ps hs a
      none_or a (inl m) = absurd (omega arith)
      none_or a (inr h) = h

-- The new block as one more hole.
module _ (u t : Mem) (ps hs : List Ptr) (e size p : ℕ) (spread : Spread u ps (e ∷ hs))
    (exact : size % 8 ≡ 4) (fits : size ≤ u.size e) where
  new-Held : Held ps (e ∷ hs) e
  new-Held = omega (arith, count-head e hs)

  pub Extended-Spread :
      Extended u ps hs e size p t → Spread t (by_address e ps) (holes_after u e size hs)
  Extended-Spread extended = elim (Bool-cases (splits u e size)) [
    | inl wide ↦ rw wide (
        cut-Spread u t ps (e ∷ hs) (by_address e ps)
          (by_size (cut u e size).size (rest_at e size) hs) spread extended.regions e size new-Held
          exact fits wide
          (extended.sizes ∙ ap (λ c. if c then (cut u e size).size else u.size) wide)
          (new_or (cut u e size).size ps hs e (rest_at e size)))
    | inr narrow ↦ rw narrow (
        same-Spread u t ps (e ∷ hs) (by_address e ps) hs spread extended.regions
          (extended.sizes ∙ ap (λ c. if c then (cut u e size).size else u.size) narrow)
          (λ a h. ground (arith, h, count-by_address e ps a)))
  ]

pub Freed-Spread :
    (s t : Mem) (xs ys hs : List Ptr) (e : Ptr)
    → Spread s (xs ++ e ∷ ys) hs
    → Freed s (xs ++ ys) hs e t
    → Spread t (xs ++ ys) (by_size s.size e hs)
Freed-Spread s t xs ys hs e spread freed =
    same-Spread s t (xs ++ e ∷ ys) hs (xs ++ ys) (by_size s.size e hs) spread freed.2 freed.1
      (λ a h.
        ground
          (arith, h, count-by_size s.size e hs a, count-append a xs (e ∷ ys), count-append a xs ys))

-- The memory of a new block at `e` meets none of the blocks.
abbrev pub Clear : Mem → (ps hs : List Ptr) → Ptr → Type 0
Clear s ps hs e =
    (b : Ptr) → Held ps hs b → (e + header + ext_mem ≤ b) ⊎ (b + header + s.size b ≤ e)

module _ (s : Mem) (ps hs : List Ptr) (gs : List Grant) (a : ℕ) (spread : Spread s ps hs)
    (clear : Clear s ps hs (align a)) (whole : a % 4 ≡ 0) (low : a + ext_mem + 48 < 2 ^ 32) where
  abbrev sizes : Ptr → ℕ
  sizes = (gained s gs a).size

  new-ne : (b : Ptr) → Held ps hs b → b ≢ align a
  new-ne b h e = apart (clear b h)
    where
      apart : (align a + header + ext_mem ≤ b) ⊎ (b + header + s.size b ≤ align a) → ⊥
      apart (inl p) = omega arith
      apart (inr p) = omega arith

  pub new-out : count (align a) ps + count (align a) hs ≡ 0
  new-out = elim (Bool-cases (count (align a) ps + count (align a) hs == 0)) [
    | inl e ↦ ground arith
    | inr e ↦ absurd (new-ne (align a) (ground arith) refl)
  ]

  old_size : (b : Ptr) → Held ps hs b → sizes b ≡ s.size b
  old_size b h = let ne = new-ne b h in ground arith

  new_size : sizes (align a) ≡ ext_mem
  new_size = ground arith

  place : ((align a + header) % 8 ≡ 0) × (align a ≤ a + 4) × (a ≤ align a)
  unfolding align
  place = ground arith

  new_clear : (b : Ptr) → Held ps hs b → Apart sizes (align a) b
  new_clear b h = at_size (clear b h)
    where
      at_size :
          (align a + header + ext_mem ≤ b) ⊎ (b + header + s.size b ≤ align a)
          → Apart sizes (align a) b
      at_size (inl p) = inl (rw new_size p)
      at_size (inr p) = inr (rw (old_size b h) p)

  grown_or : (b : Ptr) → Held ps (align a ∷ hs) b → (b ≡ align a) ⊎ Held ps hs b
  grown_or b h = elim (Bool-cases (b == align a)) [
    | inl e ↦ inl (ground arith)
    | inr e ↦ inr (ground (arith, h))
  ]

  backs : (b : Ptr) → (b ≡ align a) ⊎ Held ps hs b → Covers (gained s gs a).regions b (sizes b + 8)
  backs b (inl e) = rw (e, new_size) (inl (place.2, omega (arith, place)))
  backs b (inr h) = rw (old_size b h) (inr (spread.backed b h))

  pub gained-Spread : Spread (gained s gs a) ps (align a ∷ hs)
  gained-Spread = record {
    spaced =
        Spaced-more sizes ps hs ps (align a ∷ hs)
          (Spaced-fewer s.size sizes ps hs ps hs spread.spaced
            (λ b h. rw (old_size b h) (omega arith, (spread.spaced.placed b h).whole)) (λ b h. h))
          (align a)
          (record {
            aligned = place.0;
            whole = rw new_size refl;
            low = rw new_size (omega (arith, place));
          })
          (λ b h ne. new_clear b h) grown_or;
    backed = λ b h. backs b (grown_or b h);
  }
