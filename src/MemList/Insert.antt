-- ===== src/MemList/Insert.antt =====
-- The loop of `insert_into_processes` and `insert_into_holes` of
-- pkg/libc_backends/lib/l4re_mem/mem_list.cc, and insertion into a list as a reference for both.
use kpr.Base.{
  ap, ℕ, zero, suc, ◌<◌, ◌≡◌, ◌≢◌, ◌⊎◌, inl, inr, refl, sym, subst, ◌∙◌, Bool, true, false, List,
  [], ◌∷◌, ◌++◌, arith, ltb, leb, if◌then◌else◌, Distinct, count, count-append, length, All,
  All-last, append_assoc, Bool-cases,
}
use kpr.MemList.State.{Ptr, Mem, ok}
use kpr.MemList.Ops.{Which, processes, holes, head_of, walk, passes, exceeds}
use kpr.MemList.Ring.{Ring, Ring-rotate}
use kpr.MemList.Steps.{Live, Ends, ends}
use kpr.MemList.Invariant.{IsList, first}

-- The loop's test, and the test for a new head, on headers in mapped memory.
abbrev pub precedes : Which → (Ptr → ℕ) → Ptr → Ptr → Bool
precedes processes size runner elem = ltb runner elem
precedes holes size runner elem = leb (size runner) (size elem)

abbrev pub outranks : Which → (Ptr → ℕ) → Ptr → Ptr → Bool
outranks processes size runner elem = ltb elem runner
outranks holes size runner elem = ltb (size elem) (size runner)

-- `e` goes before the first element that fails the test.
unfoldable pub insert_sorted : (Ptr → Bool) → Ptr → List Ptr → List Ptr
insert_sorted test e [] = e ∷ []
insert_sorted test e (x ∷ xs) = if test x then x ∷ insert_sorted test e xs else e ∷ x ∷ xs

pub count-insert_sorted :
    (test : Ptr → Bool) (e : Ptr) (xs : List Ptr) (a : Ptr)
    → count a (insert_sorted test e xs) ≡ count a (e ∷ xs)
unfolding insert_sorted
count-insert_sorted test e [] a = refl
count-insert_sorted test e (x ∷ xs) a = ground (arith, count-insert_sorted test e xs a)

insert_sorted-split :
    (test : Ptr → Bool) (e : Ptr) (xs ys : List Ptr)
    → All (λ x. test x ≡ true) xs
    → insert_sorted test e (xs ++ ys) ≡ xs ++ insert_sorted test e ys
unfolding insert_sorted
insert_sorted-split test e [] ys h = refl
insert_sorted-split test e (x ∷ xs) ys h = ground (arith, insert_sorted-split test e xs ys h.1)

-- The place that the loop finds is the reference's.
pub insert_sorted-before :
    (test : Ptr → Bool) (e : Ptr) (xs : List Ptr) (r : Ptr) (ys : List Ptr)
    → All (λ x. test x ≡ true) xs
    → test r ≡ false
    → insert_sorted test e (xs ++ r ∷ ys) ≡ xs ++ e ∷ r ∷ ys
unfolding insert_sorted
insert_sorted-before test e xs r ys p h =
    insert_sorted-split test e xs (r ∷ ys) p ∙ ap (λ zs. xs ++ zs) (rw h)

pub insert_sorted-end :
    (test : Ptr → Bool) (e : Ptr) (xs : List Ptr) (r : Ptr)
    → All (λ x. test x ≡ true) xs
    → test r ≡ true
    → insert_sorted test e (xs ++ r ∷ []) ≡ xs ++ r ∷ e ∷ []
unfolding insert_sorted
insert_sorted-end test e xs r p h =
    insert_sorted-split test e xs (r ∷ []) p ∙ ap (λ zs. xs ++ zs) (rw h)

pub passes-ok :
    (w : Which) (s : Mem) (r e : Ptr)
    → Live s r
    → Live s e
    → passes w r e s ≡ ok (precedes w s.size r e) s
passes-ok processes s r e lr le = refl
passes-ok holes s r e lr le = ground arith

pub exceeds-ok :
    (w : Which) (s : Mem) (r e : Ptr)
    → Live s r
    → Live s e
    → exceeds w r e s ≡ ok (outranks w s.size r e) s
exceeds-ok processes s r e lr le = refl
exceeds-ok holes s r e lr le = ground arith

-- `next` of the last header is the first, and of any other the one behind it.
pub next_last :
    (nx pv : Ptr → Ptr) (xs : List Ptr) (r : Ptr)
    → Ring nx pv (xs ++ r ∷ [])
    → nx r ≡ first (xs ++ r ∷ [])
next_last nx pv [] r ring = ring.0
next_last nx pv (x ∷ xs) r ring = (Ring-rotate nx pv (x ∷ xs) (r ∷ []) ring).0

pub next_inner :
    (nx pv : Ptr → Ptr) (xs : List Ptr) (r y : Ptr) (ys : List Ptr)
    → Ring nx pv (xs ++ r ∷ y ∷ ys)
    → nx r ≡ y
next_inner nx pv xs r y ys ring = (Ring-rotate nx pv xs (r ∷ y ∷ ys) ring).0

-- The first header of a list is not behind another.
pub first-ne :
    (xs : List Ptr) (r y : Ptr) (ys : List Ptr)
    → Distinct (xs ++ r ∷ y ∷ ys)
    → y ≢ first (xs ++ r ∷ y ∷ ys)
first-ne [] r y ys d h = ground (arith, d y)
first-ne (x ∷ xs) r y ys d h = ground (arith, d y, count-append y xs (r ∷ y ∷ ys))

-- Where the loop stops: all headers before `r` pass the test, and `r` fails it or is the last.
pub record Stops (test : Ptr → Bool) (full : List Ptr) (r : Ptr) : Type 0 where
  pub before : List Ptr
  pub after : List Ptr
  pub split : full ≡ before ++ r ∷ after
  pub passed : All (λ x. test x ≡ true) before
  pub stop : (after ≡ []) ⊎ (test r ≡ false)

module _ (w : Which) (s : Mem) (k : ℕ) (head r e : Ptr) (lr : Live s r) where
  walk_last : s.next r ≡ head → walk w (suc k) head r e s ≡ ok r s
  unfolding walk
  walk_last h = ground arith

  walk_on :
      s.next r ≢ head
      → Live s e
      → precedes w s.size r e ≡ true
      → walk w (suc k) head r e s ≡ walk w k head (s.next r) e s
  unfolding walk
  walk_on h le p = ground (arith, passes-ok w s r e lr le)

  walk_stop :
      s.next r ≢ head
      → Live s e
      → precedes w s.size r e ≡ false
      → walk w (suc k) head r e s ≡ ok r s
  unfolding walk
  walk_stop h le p = ground (arith, passes-ok w s r e lr le)

module _ (w : Which) (s : Mem) (e : Ptr) (full : List Ptr) (l : IsList w s full)
    (le : Live s e) where
  module _ {zs : List Ptr} (eq : full ≡ zs) where
    head_at : head_of w s ≡ first zs
    head_at = l.head ∙ ap first eq

    Ring-at : Ring s.next s.prev zs
    Ring-at = subst (Ring s.next s.prev) eq l.ring

    Distinct-at : Distinct zs
    Distinct-at = subst Distinct eq l.distinct

  Live-at : (xs : List Ptr) (r : Ptr) (ys : List Ptr) → full ≡ xs ++ r ∷ ys → Live s r
  Live-at xs r ys eq = l.live r (rw eq (ground (arith, count-append r xs (r ∷ ys))))

  pub walk-Stops :
      (k : ℕ) (xs : List Ptr) (r : Ptr) (ys : List Ptr)
      → full ≡ xs ++ r ∷ ys
      → All (λ x. precedes w s.size x e ≡ true) xs
      → length ys < k
      → Ends
          (λ r' t. (t ≡ s) × Stops (λ x. precedes w s.size x e) full r')
          (walk w k (head_of w s) r e s)
  walk-Stops zero xs r ys eq p fuel = absurd (omega arith)
  walk-Stops (suc k) xs r [] eq p fuel =
      rw
        (walk_last w s k (head_of w s) r e (Live-at xs r [] eq)
          (next_last s.next s.prev xs r (Ring-at eq) ∙ sym (head_at eq)))
        (ends (refl, record { before = xs; after = []; split = eq; passed = p; stop = inl refl }))
  walk-Stops (suc k) xs r (y ∷ ys) eq p fuel =
      let lr = Live-at xs r (y ∷ ys) eq in
      let n = next_inner s.next s.prev xs r y ys (Ring-at eq) in
      let ne = λ (h : s.next r ≡ head_of w s).
        first-ne xs r y ys (Distinct-at eq) (sym n ∙ h ∙ head_at eq) in
      elim (Bool-cases (precedes w s.size r e)) [
        | inl on ↦ rw (walk_on w s k (head_of w s) r e lr ne le on) (
            rw n (
              walk-Stops k (xs ++ r ∷ []) y ys (eq ∙ sym (append_assoc xs (r ∷ []) (y ∷ ys)))
                (All-last _ xs r p on) (omega arith)))
        | inr off ↦ rw (walk_stop w s k (head_of w s) r e lr ne le off) (
            ends (
              refl,
              record { before = xs; after = y ∷ ys; split = eq; passed = p; stop = inr off },
            ))
      ]
