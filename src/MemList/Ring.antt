-- ===== src/MemList/Ring.antt =====
-- Rings of headers, as the `next` and `prev` maps show them, and how the assignments of
-- pkg/libc_backends/lib/l4re_mem/mem_list.cc change them.
use kpr.Base.{
  ◌≢◌, Distinct-head, refl, ◌≡◌, ◌≢◌, refl, sym, List, [], ◌∷◌, ◌++◌, arith, ◌∉◌, ◌∈◌, Distinct,
  Distinct-tail, subst, append-nil,
}
use kpr.MemList.State.{Ptr, update}

-- From `a` the links lead through `xs` to `b`, and back.
abbrev pub Links : (nx pv : Ptr → Ptr) → Ptr → List Ptr → Ptr → Type 0
Links nx pv a [] b = (nx a ≡ b) × (pv b ≡ a)
Links nx pv a (x ∷ xs) b = (nx a ≡ x) × (pv x ≡ a) × Links nx pv x xs b

-- The links of the list's headers, in order and round.
abbrev pub Ring : (nx pv : Ptr → Ptr) → List Ptr → Type 0
Ring nx pv [] = Unit
Ring nx pv (x ∷ xs) = Links nx pv x xs x

module _ (nx pv : Ptr → Ptr) where
  pub Links-append :
      (a : Ptr) (xs : List Ptr) (m : Ptr) (ys : List Ptr) (b : Ptr)
      → Links nx pv a xs m
      → Links nx pv m ys b
      → Links nx pv a (xs ++ m ∷ ys) b
  Links-append a [] m ys b p q = (p.0, p.1, q)
  Links-append a (x ∷ xs) m ys b p q = (p.0, p.1, Links-append x xs m ys b p.2 q)

  pub Links-left :
      (a : Ptr) (xs : List Ptr) (m : Ptr) (ys : List Ptr) (b : Ptr)
      → Links nx pv a (xs ++ m ∷ ys) b
      → Links nx pv a xs m
  Links-left a [] m ys b p = (p.0, p.1)
  Links-left a (x ∷ xs) m ys b p = (p.0, p.1, Links-left x xs m ys b p.2)

  pub Links-right :
      (a : Ptr) (xs : List Ptr) (m : Ptr) (ys : List Ptr) (b : Ptr)
      → Links nx pv a (xs ++ m ∷ ys) b
      → Links nx pv m ys b
  Links-right a [] m ys b p = p.2
  Links-right a (x ∷ xs) m ys b p = Links-right x xs m ys b p.2

  -- A ring has no first header.
  pub Ring-rotate : (xs ys : List Ptr) → Ring nx pv (xs ++ ys) → Ring nx pv (ys ++ xs)
  Ring-rotate [] ys r = subst (Ring nx pv) (sym (append-nil ys)) r
  Ring-rotate (x ∷ xs) [] r = subst (Ring nx pv) (append-nil (x ∷ xs)) r
  Ring-rotate (x ∷ xs) (y ∷ ys) r =
      Links-append y ys x xs y (Links-right x xs y ys x r) (Links-left x xs y ys x r)

  -- The header before the end is the start, or is among those between.
  pub prev-mem : (a x : Ptr) (xs : List Ptr) (b : Ptr) → Links nx pv a (x ∷ xs) b → pv b ∈ (x ∷ xs)
  prev-mem a x [] b l = ground arith
  prev-mem a x (y ∷ xs) b l = omega (arith, prev-mem x y xs b l.2)

  -- The links of a chain depend on `next` but at its end, and on `prev` but at its start.
  pub Links-frame :
      (nx' pv' : Ptr → Ptr) (a : Ptr) (xs : List Ptr) (b : Ptr)
      → ((c : Ptr) → c ∈ (a ∷ xs) → nx' c ≡ nx c)
      → ((c : Ptr) → c ∈ (b ∷ xs) → pv' c ≡ pv c)
      → Links nx pv a xs b
      → Links nx' pv' a xs b
  Links-frame nx' pv' a [] b hn hp l = ground (arith, hn a, hp b)
  Links-frame nx' pv' a (x ∷ xs) b hn hp l = (
    ground (arith, hn a),
    ground (arith, hp x),
    Links-frame nx' pv' x xs b (λ c m. hn c (ground arith)) (λ c m. hp c (ground arith)) l.2,
  )

  -- The end of a chain is turned to `c`: the last header's `next` and `c`'s `prev` are set.
  pub Links-turn :
      (a : Ptr) (xs : List Ptr) (b c p : Ptr)
      → pv b ≡ p
      → Distinct (a ∷ xs)
      → c ∉ xs
      → Links nx pv a xs b
      → Links (update nx p c) (update pv c p) a xs c
  Links-turn a [] b c p e d out l = ground arith
  Links-turn a (x ∷ xs) b c p e d out l = (
    ground (arith, d a, prev-mem a x xs b l),
    ground arith,
    Links-turn x xs b c p e (Distinct-tail a (x ∷ xs) d) (omega arith) l.2,
  )

  pub chain_prev_mem : (y : Ptr) (ys : List Ptr) (e : Ptr) → Links nx pv y ys e → pv e ∈ (y ∷ ys)
  chain_prev_mem y [] e l = ground arith
  chain_prev_mem y (x ∷ xs) e l = omega (arith, prev-mem y x xs e l)

  pub Ring-prev_mem : (x : Ptr) (xs : List Ptr) → Ring nx pv (x ∷ xs) → pv x ∈ (x ∷ xs)
  Ring-prev_mem x xs r = chain_prev_mem x xs x r

  pub Ring-next_mem : (x : Ptr) (xs : List Ptr) → Ring nx pv (x ∷ xs) → nx x ∈ (x ∷ xs)
  Ring-next_mem x [] r = ground arith
  Ring-next_mem x (y ∷ ys) r = ground arith

  -- In a ring of at least two, the neighbours of a header are among the others.
  pub Ring-neighbours :
      (x : Ptr) (xs : List Ptr) → xs ≢ [] → Ring nx pv (x ∷ xs) → (nx x ∈ xs) × (pv x ∈ xs)
  Ring-neighbours x [] ne r = absurd (ne refl)
  Ring-neighbours x (y ∷ ys) ne r = (ground arith, prev-mem x y ys x r)

module _ (nx pv : Ptr → Ptr) where
  -- `e` is taken out of its ring: two assignments, at its neighbours.
  pub Ring-unlink :
      (e y : Ptr) (ys : List Ptr)
      → Distinct (e ∷ y ∷ ys)
      → Ring nx pv (e ∷ y ∷ ys)
      → Ring (update nx (pv e) y) (update pv y (pv e)) (y ∷ ys)
  Ring-unlink e y ys d r =
      let d' = Distinct-tail e (y ∷ ys) d in
      Links-turn nx pv y ys e y (pv e) refl d' (Distinct-head y ys d') r.2

  -- `e` is put before `r`: four assignments.
  pub Ring-link :
      (e r : Ptr) (ys : List Ptr)
      → Distinct (e ∷ r ∷ ys)
      → Ring nx pv (r ∷ ys)
      → Ring (update (update nx e r) (pv r) e) (update (update pv e (pv r)) r e) (e ∷ r ∷ ys)
  Ring-link e r ys d ring = (
    ground (arith, d e, Ring-prev_mem nx pv r ys ring),
    ground arith,
    Links-frame (update nx p e) (update pv e p) nx' pv' r ys e (λ c m. ground (arith, d e))
        (λ c m. ground (arith, d e, d r))
        (Links-turn nx pv r ys r e p refl (Distinct-tail e (r ∷ ys) d) (ground (arith, d e)) ring),
  )
    where
      p : Ptr
      p = pv r

      nx' : Ptr → Ptr
      nx' = update (update nx e r) p e

      pv' : Ptr → Ptr
      pv' = update (update pv e p) r e

  -- Two neighbours in a ring of at least three change places: six assignments.
  pub Ring-exchange :
      (e r y : Ptr) (ys : List Ptr)
      → Distinct (e ∷ r ∷ y ∷ ys)
      → Ring nx pv (e ∷ r ∷ y ∷ ys)
      → Ring
          (update (update (update nx e y) r e) (pv e) r)
          (update (update (update pv r (pv e)) y e) e r)
          (r ∷ e ∷ y ∷ ys)
  Ring-exchange e r y ys d ring = (
    ground (arith, d e, d r, Ring-prev_mem nx pv e (r ∷ y ∷ ys) ring, member),
    ground (arith, d e, d r),
    (
      ground (arith, d e, d r, member),
      ground (arith, d e, d r),
      Links-frame (update nx p r) (update pv r p) nx' pv' y ys r (λ c m. ground (arith, d e, d r))
          (λ c m. ground (arith, d e, d r, d y))
          (Links-turn nx pv y ys e r p refl
            (Distinct-tail r (y ∷ ys) (Distinct-tail e (r ∷ y ∷ ys) d)) (ground (arith, d r))
            ring.2.2),
    ),
  )
    where
      p : Ptr
      p = pv e

      nx' : Ptr → Ptr
      nx' = update (update (update nx e y) r e) p r

      pv' : Ptr → Ptr
      pv' = update (update (update pv r p) y e) e r

      member : pv e ∈ (y ∷ ys)
      member = chain_prev_mem nx pv y ys e ring.2.2

  -- The same, by the links that the code reads, and with the links of `e` cleared.
  pub Ring-remove :
      (e : Ptr) (zs : List Ptr)
      → zs ≢ []
      → Distinct (e ∷ zs)
      → Ring nx pv (e ∷ zs)
      → Ring (update (update nx (pv e) (nx e)) e 0) (update (update pv (nx e) (pv e)) e 0) zs
  Ring-remove e [] ne d r = absurd (ne refl)
  Ring-remove e (y ∷ ys) ne d r =
      Links-frame (update nx (pv e) y) (update pv y (pv e)) (update (update nx (pv e) (nx e)) e 0)
        (update (update pv (nx e) (pv e)) e 0) y ys y (λ c m. ground (arith, d e))
        (λ c m. ground (arith, d e)) (Ring-unlink e y ys d r)

module _ (nx pv : Ptr → Ptr) where
  -- `n` is put behind `r`: the four assignments of `split`.
  pub Ring-grow :
      (r n : Ptr) (ys : List Ptr)
      → Distinct (r ∷ n ∷ ys)
      → Ring nx pv (r ∷ ys)
      → Ring (update (update nx n (nx r)) r n) (update (update pv n r) (nx r) n) (r ∷ n ∷ ys)
  Ring-grow r n [] d ring =
      (ground (arith, d r), ground (arith, d r), (ground (arith, d r), ground (arith, d r)))
  Ring-grow r n (y ∷ ys) d ring = (
    ground (arith, d r),
    ground (arith, d n),
    (
      ground (arith, d n),
      ground arith,
      Links-frame nx pv (update (update nx n (nx r)) r n) (update (update pv n r) (nx r) n) y ys r
          (λ c m. ground (arith, d r, d n)) (λ c m. ground (arith, d r, d n, d y)) ring.2,
    ),
  )

pub Ring-frame :
    (nx pv nx' pv' : Ptr → Ptr) (xs : List Ptr)
    → ((c : Ptr) → c ∈ xs → nx' c ≡ nx c)
    → ((c : Ptr) → c ∈ xs → pv' c ≡ pv c)
    → Ring nx pv xs
    → Ring nx' pv' xs
Ring-frame nx pv nx' pv' [] hn hp r = tt
Ring-frame nx pv nx' pv' (x ∷ xs) hn hp r = Links-frame nx pv nx' pv' x xs x hn hp r
