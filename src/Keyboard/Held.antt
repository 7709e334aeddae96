-- ===== src/Keyboard/Held.antt =====
-- What the list of pkg/rm_keyboard/server/src/keyboard.cc says of the keys, whatever was typed.
use kpr.Base.{
  ap, ◌∙◌, ℕ, zero, suc, ◌≤◌, ◌≡◌, refl, Bool, true, false, ◌&&◌, ◌||◌, not, Option, none, some,
  List, [], ◌∷◌, arith, ◌==◌, if◌then◌else◌, length,
}
use kpr.Keyboard.Server.{
  pressed, push_pressed, releases, Stale, erase_released, unique_after, unique, round, loop,
}

abbrev pub holds : ℕ → List ℕ → Bool
holds k [] = false
holds k (x ∷ xs) = x == k || holds k xs

-- The memory of an erased element still leads to what stood behind it.
abbrev pub intact : Stale
intact rest = some rest

-- The keys that a scan code does not release.
unfoldable pub without : ℕ → List ℕ → List ℕ
without buf [] = []
without buf (k ∷ ks) = let rest = without buf ks in if releases buf k then rest else k ∷ rest

erase_released-without :
    (fuel buf : ℕ) (ks : List ℕ)
    → length ks ≤ fuel
    → erase_released intact fuel buf ks ≡ some (without buf ks)
unfolding erase_released without
erase_released-without fuel buf [] h = refl
erase_released-without zero buf (k ∷ ks) h = absurd (omega arith)
erase_released-without (suc fuel) buf (k ∷ ks) h =
    ground (arith, erase_released-without fuel buf ks)

holds-without :
    (k buf : ℕ) (ks : List ℕ) → holds k (without buf ks) ≡ (holds k ks && not (releases buf k))
unfolding without
holds-without k buf [] = refl
holds-without k buf (x ∷ xs) = ground (arith, holds-without k buf xs)

holds-unique_after :
    (k j : ℕ) (ks : List ℕ) → (j == k || holds k (unique_after j ks)) ≡ (j == k || holds k ks)
unfolding unique_after
holds-unique_after k j [] = refl
holds-unique_after k j (x ∷ xs) = ground (arith, holds-unique_after k x xs)

holds-unique : (k : ℕ) (ks : List ℕ) → holds k (unique ks) ≡ holds k ks
unfolding unique
holds-unique k [] = refl
holds-unique k (x ∷ xs) = holds-unique_after k x xs

-- Does the scan code press the key?
abbrev pub presses : ℕ → ℕ → Bool
presses buf k = elim (pressed buf) [ none ↦ false | some j ↦ j == k ]

-- One round, as seen from one key.
abbrev pub held_after : ℕ → ℕ → Bool → Bool
held_after buf k before = (presses buf k || before) && not (releases buf k)

abbrev pub told : Option (List ℕ) → ℕ → Option Bool
told none k = none
told (some ks) k = some (holds k ks)

pub round-intact :
    (buf : ℕ) (ks : List ℕ)
    → round intact buf ks ≡ some (unique (without buf (push_pressed buf ks)))
unfolding round
round-intact buf ks =
    rw (
      erase_released-without (length (push_pressed buf ks)) buf (push_pressed buf ks) (omega arith))

holds-push_pressed :
    (k buf : ℕ) (ks : List ℕ) → holds k (push_pressed buf ks) ≡ (presses buf k || holds k ks)
unfolding push_pressed
holds-push_pressed k buf ks = push_keys (pressed buf)
  where
    push_keys :
        (o : Option ℕ)
        → holds k (elim o [ none ↦ ks | some j ↦ j ∷ ks ])
          ≡ (elim o [ none ↦ false | some j ↦ j == k ] || holds k ks)
    push_keys none = refl
    push_keys (some j) = refl

holds-round :
    (k buf : ℕ) (ks : List ℕ)
    → holds k (unique (without buf (push_pressed buf ks))) ≡ held_after buf k (holds k ks)
holds-round k buf ks = rw (
  holds-unique k (without buf (push_pressed buf ks)),
  holds-without k buf (push_pressed buf ks),
  holds-push_pressed k buf ks,
)

-- Is the key down after the scan codes, the earliest first?
unfoldable pub held : ℕ → List ℕ → Bool → Bool
held k [] before = before
held k (buf ∷ bufs) before = held k bufs (held_after buf k before)

-- After any scan codes the driver's loop has a list, and a key is in it exactly if its last press came
-- after its last release, if the increment of the erased iterator goes on behind the erased element.
pub loop-held :
    (bufs ks : List ℕ) (k : ℕ)
    → (left : List ℕ) × (loop intact bufs ks ≡ some left)
      × (holds k left ≡ held k bufs (holds k ks))
unfolding loop held
loop-held [] ks k = (ks, refl, refl)
loop-held (buf ∷ bufs) ks k =
    let now = unique (without buf (push_pressed buf ks)) in
    let (left, ran, tells) = loop-held bufs now k in
    (left, rw (round-intact buf ks) ran, tells ∙ ap (held k bufs) (holds-round k buf ks))

erase_stops :
    (fuel buf k : ℕ) (ks : List ℕ)
    → holds k ks ≡ true
    → releases buf k ≡ true
    → erase_released (λ _. none) fuel buf ks ≡ none
unfolding erase_released
erase_stops fuel buf k [] h r = cc
erase_stops zero buf k (x ∷ xs) h r = refl
erase_stops (suc fuel) buf k (x ∷ xs) h r = ground (arith, erase_stops fuel buf k xs)

-- Where the increment of an erased iterator ends the program, the release of a key in the list does.
round_release_ends :
    (buf k : ℕ) (ks : List ℕ)
    → holds k ks ≡ true
    → releases buf k ≡ true
    → round (λ _. none) buf ks ≡ none
unfolding round
round_release_ends buf k ks h r =
    let now = push_pressed buf ks in
    rw (erase_stops (length now) buf k now (holds-push_pressed k buf ks ∙ ground arith) r)
