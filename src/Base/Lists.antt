-- ===== src/Base/Lists.antt =====
-- Lists of numbers: length, how often a number occurs, distinctness, predicates by recursion.
use Prim.Native.Nat.{ℕ, suc, ◌+◌, ◌≤◌, ◌<◌}
use mathlib.Core.Path.{◌≡◌, refl, sym, subst}
use mathlib.Core.Logic.{◌≢◌, inl, inr}
use mathlib.Core.List.{List, [], ◌∷◌, ◌++◌}
use native.Mathlib.Omega.{arith}
use kpr.Base.Tests.{◌==◌, ==→eq, Bool-cases, if◌then◌else◌}

abbrev pub length {ℓ} : {A : Type ℓ} → List A → ℕ
length [] = 0
length (x ∷ xs) = suc (length xs)

pub length-append {ℓ} : {A : Type ℓ} (xs ys : List A) → length (xs ++ ys) ≡ length xs + length ys
length-append [] ys = omega arith
length-append (x ∷ xs) ys = omega (arith, length-append xs ys)

abbrev pub All {ℓ κ} : {A : Type ℓ} → (A → Type κ) → List A → Type κ
All P [] = Unit
All P (x ∷ xs) = P x × All P xs

-- A property of all members, and of one more behind them.
pub All-last {ℓ κ} :
    {A : Type ℓ} (P : A → Type κ) (front : List A) (last : A)
    → All P front
    → P last
    → All P (front ++ last ∷ [])
All-last P [] last all one = (one, tt)
All-last P (x ∷ front) last (here, all) one = (here, All-last P front last all one)

pub All-left {ℓ κ} : {A : Type ℓ} (P : A → Type κ) (xs ys : List A) → All P (xs ++ ys) → All P xs
All-left P [] ys h = tt
All-left P (x ∷ xs) ys h = (h.0, All-left P xs ys h.1)

pub All-right {ℓ κ} : {A : Type ℓ} (P : A → Type κ) (xs ys : List A) → All P (xs ++ ys) → All P ys
All-right P [] ys h = h
All-right P (x ∷ xs) ys h = All-right P xs ys h.1

-- How often a number occurs.
abbrev pub count : ℕ → List ℕ → ℕ
count a [] = 0
count a (x ∷ xs) = (if a == x then 1 else 0) + count a xs

pub count-append :
    (n : ℕ) (front back : List ℕ) → count n (front ++ back) ≡ count n front + count n back
count-append n [] back = ground arith
count-append n (m ∷ front) back = ground (arith, count-append n front back)

infix 40 ◌∉◌ ◌∈◌
abbrev pub ◌∉◌ : ℕ → List ℕ → Type 0
a ∉ xs = count a xs ≡ 0

abbrev pub ◌∈◌ : ℕ → List ℕ → Type 0
a ∈ xs = 0 < count a xs

abbrev pub Distinct : List ℕ → Type 0
Distinct xs = (a : ℕ) → count a xs ≤ 1

pub count-head : (a : ℕ) (xs : List ℕ) → count a (a ∷ xs) ≡ 1 + count a xs
count-head a xs = ground arith

pub count-cons : (a x : ℕ) (xs : List ℕ) → count a (x ∷ xs) ≡ (if a == x then 1 else 0) + count a xs
count-cons a x xs = refl

pub count-nil : (a : ℕ) → count a [] ≡ 0
count-nil a = refl

pub not-mem-tail : (a x : ℕ) (xs : List ℕ) → a ∉ (x ∷ xs) → a ∉ xs
not-mem-tail a x xs h = omega arith

pub ne_of_not-mem : (a x : ℕ) (xs : List ℕ) → a ∉ (x ∷ xs) → a ≢ x
ne_of_not-mem a x xs h = ground arith

pub Distinct-head : (x : ℕ) (xs : List ℕ) → Distinct (x ∷ xs) → x ∉ xs
Distinct-head x xs h = omega (arith, h x, count-head x xs)

pub Distinct-tail : (x : ℕ) (xs : List ℕ) → Distinct (x ∷ xs) → Distinct xs
Distinct-tail x xs h = λ a. omega (arith, h a)

-- A property of every member, from one of all members of the list.
pub All_of_mem {ℓ} : (P : ℕ → Type ℓ) (a : ℕ) (xs : List ℕ) → All P xs → a ∈ xs → P a
All_of_mem P a [] h m = absurd (omega arith)
All_of_mem P a (x ∷ xs) h m = elim (Bool-cases (a == x)) [
  | inl same ↦ subst P (sym (==→eq a x same)) h.0
  | inr other ↦ All_of_mem P a xs h.1 (ground arith)
]

pub All-intro {ℓ} : (P : ℕ → Type ℓ) (xs : List ℕ) → ((a : ℕ) → a ∈ xs → P a) → All P xs
All-intro P [] h = tt
All-intro P (x ∷ xs) h = (h x (ground arith), All-intro P xs (λ a m. h a (omega arith)))

pub append-cons_ne_nil {ℓ} : {A : Type ℓ} (ys : List A) (x : A) (xs : List A) → ys ++ x ∷ xs ≢ []
append-cons_ne_nil [] x xs h = cc
append-cons_ne_nil (y ∷ ys) x xs h = cc
