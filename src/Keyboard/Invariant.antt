-- ===== src/Keyboard/Invariant.antt =====
-- What the list of pkg/rm_keyboard/server/src/keyboard.cc is made of, whatever was typed.
use kpr.Base.{
  ==→eq, subst, ℕ, ◌<◌, ◌≡◌, ◌≢◌, refl, some, List, [], ◌∷◌, ◌==◌, All, arith, Bool-cases, inl, inr,
}
use kpr.Keyboard.Server.{pressed, push_pressed, unique_after, unique, loop}
use kpr.Keyboard.Held.{intact, without, round-intact}

-- The five keys are the numbers below five.
abbrev pub IsKey : ℕ → Type 0
IsKey k = k < 5

-- No key stands twice in a row; in the second, none behind `k`.
abbrev pub NoTwinsAfter : ℕ → List ℕ → Type 0
NoTwinsAfter k [] = Unit
NoTwinsAfter k (x ∷ xs) = (k ≢ x) × NoTwinsAfter x xs

abbrev pub NoTwins : List ℕ → Type 0
NoTwins [] = Unit
NoTwins (x ∷ xs) = NoTwinsAfter x xs

pub record IsKeyList (ks : List ℕ) : Type 0 where
  pub keys : All IsKey ks
  pub no_twins : NoTwins ks

push_pressed-IsKey : (buf : ℕ) (ks : List ℕ) → All IsKey ks → All IsKey (push_pressed buf ks)
unfolding push_pressed pressed
push_pressed-IsKey buf ks h = ground arith

without-IsKey : (buf : ℕ) (ks : List ℕ) → All IsKey ks → All IsKey (without buf ks)
unfolding without
without-IsKey buf [] h = tt
without-IsKey buf (k ∷ ks) (here, h) = ground (arith, without-IsKey buf ks h)

unique_after-IsKey : (k : ℕ) (ks : List ℕ) → All IsKey ks → All IsKey (unique_after k ks)
unfolding unique_after
unique_after-IsKey k [] h = tt
unique_after-IsKey k (x ∷ xs) (here, h) = ground (arith, unique_after-IsKey x xs h)

unique_after-NoTwinsAfter : (k : ℕ) (ks : List ℕ) → NoTwinsAfter k (unique_after k ks)
unfolding unique_after
unique_after-NoTwinsAfter k [] = tt
unique_after-NoTwinsAfter k (x ∷ xs) = elim (Bool-cases (x == k)) [
  | inl same ↦ rw same (
      subst (λ j. NoTwinsAfter j (unique_after x xs)) (==→eq x k same)
        (unique_after-NoTwinsAfter x xs))
  | inr other ↦ rw other ((λ e. ground arith), unique_after-NoTwinsAfter x xs)
]

unique-IsKeyList : (ks : List ℕ) → All IsKey ks → IsKeyList (unique ks)
unfolding unique
unique-IsKeyList [] h = record { keys = tt; no_twins = tt }
unique-IsKeyList (k ∷ ks) (here, h) = record {
  keys = (here, unique_after-IsKey k ks h);
  no_twins = unique_after-NoTwinsAfter k ks;
}

-- From a list of keys of which none stands twice in a row, any scan codes leave such a list, if the
-- increment of the erased iterator goes on behind the erased element.
pub loop-IsKeyList :
    (bufs ks : List ℕ)
    → IsKeyList ks
    → (left : List ℕ) × (loop intact bufs ks ≡ some left) × IsKeyList left
unfolding loop
loop-IsKeyList [] ks h = (ks, refl, h)
loop-IsKeyList (buf ∷ bufs) ks h =
    let now = unique (without buf (push_pressed buf ks)) in
    let (left, ran, keeps) = loop-IsKeyList bufs now (
      unique-IsKeyList (without buf (push_pressed buf ks))
        (without-IsKey buf (push_pressed buf ks) (push_pressed-IsKey buf ks h.keys))) in
    (left, rw (round-intact buf ks) ran, keeps)
