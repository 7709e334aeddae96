-- ===== src/MemList/Find.antt =====
-- The search of `malloc` in pkg/libc_backends/lib/l4re_mem/mem_list.cc finds the first fit.
use kpr.Base.{
  ap, ℕ, zero, suc, ◌<◌, ◌≤◌, ◌≡◌, ◌≢◌, inl, inr, refl, sym, subst, ◌∙◌, true, false, Option, some,
  none, List, [], ◌∷◌, ◌++◌, arith, leb, if◌then◌else◌, count-append, length, append_assoc,
  Bool-cases, Distinct,
}
use kpr.MemList.State.{Ptr, Mem, ok}
use kpr.MemList.Ops.{holes}
use kpr.MemList.Alloc.{find}
use kpr.MemList.Steps.{Live}
use kpr.MemList.Ring.{Ring}
use kpr.MemList.Invariant.{IsList, first}
use kpr.MemList.Insert.{next_last, next_inner, first-ne}

-- The first block of the list with at least `size` bytes.
unfoldable pub first_fit : (Ptr → ℕ) → ℕ → List Ptr → Option Ptr
first_fit sizes size [] = none
first_fit sizes size (x ∷ xs) = if leb size (sizes x) then some x else first_fit sizes size xs

pub first_fit-nil : (sizes : Ptr → ℕ) (size : ℕ) → first_fit sizes size [] ≡ none
unfolding first_fit
first_fit-nil sizes size = refl

module _ (s : Mem) (k : ℕ) (r : Ptr) (size : ℕ) (lr : Live s r) where
  find_hit : leb size (s.size r) ≡ true → find (suc k) r size s ≡ ok (some r) s
  unfolding find
  find_hit h = ground arith

  find_round :
      leb size (s.size r) ≡ false → s.next r ≡ s.holes_head → find (suc k) r size s ≡ ok none s
  unfolding find
  find_round h n = ground arith

  find_on :
      leb size (s.size r) ≡ false
      → s.next r ≢ s.holes_head
      → find (suc k) r size s ≡ find k (s.next r) size s
  unfolding find
  find_on h n = ground arith

module _ (s : Mem) (full : List Ptr) (l : IsList holes s full) (size : ℕ) where
  module _ {zs : List Ptr} (eq : full ≡ zs) where
    head_at : s.holes_head ≡ first zs
    head_at = l.head ∙ ap first eq

    Ring-at : Ring s.next s.prev zs
    Ring-at = subst (Ring s.next s.prev) eq l.ring

    Distinct-at : Distinct zs
    Distinct-at = subst Distinct eq l.distinct

  Live-at : (xs : List Ptr) (r : Ptr) (ys : List Ptr) → full ≡ xs ++ r ∷ ys → Live s r
  Live-at xs r ys eq = l.live r (rw eq (ground (arith, count-append r xs (r ∷ ys))))

  find-first_fit_from :
      (k : ℕ) (xs : List Ptr) (r : Ptr) (ys : List Ptr)
      → full ≡ xs ++ r ∷ ys
      → length ys < k
      → find k r size s ≡ ok (first_fit s.size size (r ∷ ys)) s
  unfolding first_fit
  find-first_fit_from zero xs r ys eq fuel = absurd (omega arith)
  find-first_fit_from (suc k) xs r [] eq fuel = elim (Bool-cases (leb size (s.size r))) [
    | inl hit ↦ rw (find_hit s k r size (Live-at xs r [] eq) hit, hit)
    | inr miss ↦
        let round = next_last s.next s.prev xs r (Ring-at eq) ∙ sym (head_at eq) in
        rw (find_round s k r size (Live-at xs r [] eq) miss round, miss)
  ]
  find-first_fit_from (suc k) xs r (y ∷ ys) eq fuel = elim (Bool-cases (leb size (s.size r))) [
    | inl hit ↦ rw (find_hit s k r size (Live-at xs r (y ∷ ys) eq) hit, hit)
    | inr miss ↦
        let n = next_inner s.next s.prev xs r y ys (Ring-at eq) in
        let on = λ (h : s.next r ≡ s.holes_head).
          first-ne xs r y ys (Distinct-at eq) (sym n ∙ h ∙ head_at eq) in
        rw (find_on s k r size (Live-at xs r (y ∷ ys) eq) miss on, miss, n)
          (find-first_fit_from k (xs ++ r ∷ []) y ys (eq ∙ sym (append_assoc xs (r ∷ []) (y ∷ ys)))
            (omega arith))
  ]

-- On a well-formed non-empty free list, with fuel for its length, the search from the head returns the
-- first block that is large enough, or that there is none, and changes nothing.
pub find-first_fit :
    (s : Mem) (x : Ptr) (xs : List Ptr) (size fuel : ℕ)
    → IsList holes s (x ∷ xs)
    → length (x ∷ xs) ≤ fuel
    → find fuel s.holes_head size s ≡ ok (first_fit s.size size (x ∷ xs)) s
find-first_fit s x xs size fuel l enough =
    subst (λ p. find fuel p size s ≡ ok (first_fit s.size size (x ∷ xs)) s) (sym l.head)
      (find-first_fit_from s (x ∷ xs) l size fuel [] x xs refl enough)

-- Where the reference finds a block: all before it are too small.
pub record Fits (sizes : Ptr → ℕ) (size : ℕ) (full : List Ptr) (r : Ptr) : Type 0 where
  pub before : List Ptr
  pub after : List Ptr
  pub split : full ≡ before ++ r ∷ after
  pub large : size ≤ sizes r

pub Fits-of_first_fit :
    (sizes : Ptr → ℕ) (size : ℕ) (xs : List Ptr) (r : Ptr)
    → first_fit sizes size xs ≡ some r
    → Fits sizes size xs r
unfolding first_fit
Fits-of_first_fit sizes size [] r h = cc
Fits-of_first_fit sizes size (x ∷ xs) r h = elim (Bool-cases (leb size (sizes x))) [
  | inl hit ↦
      let e : x ≡ r = ground arith in
      record { before = []; after = xs; split = ap (λ y. y ∷ xs) e; large = ground arith }
  | inr miss ↦
      let f = Fits-of_first_fit sizes size xs r (ground arith) in
      record {
        before = x ∷ f.before;
        after = f.after;
        split = ap (λ ys. x ∷ ys) f.split;
        large = f.large;
      }
]
