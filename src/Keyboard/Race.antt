-- ===== src/Keyboard/Race.antt =====
-- The two threads of pkg/rm_keyboard/server/src/keyboard.cc: `dispatch` runs in the server's, `loop` in its own, and
-- no lock guards the list. Here rounds of the loop fall between the size that `dispatch` sends and the keys behind it.
use kpr.Base.{
  ℕ, ◌≡◌, refl, ap, Option, none, some, List, [], ◌∷◌, ◌++◌, ◌==◌, if◌then◌else◌, length,
  length-append, arith,
}
use kpr.Keyboard.Server.{
  Stale, loop, pressed, push_pressed, releases, unique, unique_after, Reply, words, bad_protocol,
  keycode, dispatch,
}
use kpr.Keyboard.Held.{intact, without, round-intact}
use kpr.Keyboard.Invariant.{NoTwins, NoTwinsAfter}
use kpr.Keyboard.Client.{Stream, read_loop, read_codes}
use mathlib.Core.List.{reverse, reverse_aux}

-- The answer to a request, with the scan codes that come between the size and the keys, and the list that is left.
unfoldable pub dispatch_across :
    Stale → (label : ℕ) → (bufs : List ℕ) → List ℕ → Option (Reply × List ℕ)
dispatch_across stale label bufs keys = elim (loop stale bufs keys) [
  | none ↦ none
  | some left ↦ some (if label == keycode then words (length keys ∷ left) else bad_protocol, left)
]

-- With no scan code in between, it is the answer of `dispatch`.
dispatch_across-nil :
    (stale : Stale) (label : ℕ) (keys : List ℕ)
    → dispatch_across stale label [] keys ≡ some (dispatch label keys, keys)
unfolding dispatch_across loop dispatch
dispatch_across-nil stale label keys = refl

-- A scan code that presses a key releases none.
without-pressed : (buf k : ℕ) (ks : List ℕ) → pressed buf ≡ some k → without buf ks ≡ ks
unfolding without pressed releases
without-pressed buf k [] h = refl
without-pressed buf k (x ∷ xs) h = ground (arith, without-pressed buf k xs)

unique_after-NoTwins : (k : ℕ) (ks : List ℕ) → NoTwinsAfter k ks → unique_after k ks ≡ ks
unfolding unique_after
unique_after-NoTwins k [] h = refl
unique_after-NoTwins k (x ∷ xs) (ne, h) = ground (arith, unique_after-NoTwins x xs)

push_pressed-some : (buf k : ℕ) (ks : List ℕ) → pressed buf ≡ some k → push_pressed buf ks ≡ k ∷ ks
unfolding push_pressed
push_pressed-some buf k ks h = rw (h, push_pressed) refl

-- A new key goes to the front of the list.
loop-press :
    (buf k : ℕ) (ks : List ℕ)
    → pressed buf ≡ some k
    → NoTwins (k ∷ ks)
    → loop intact (buf ∷ []) ks ≡ some (k ∷ ks)
unfolding loop unique
loop-press buf k ks h fresh =
    rw (round-intact buf ks, push_pressed-some buf k ks h, without-pressed buf k (k ∷ ks) h)
      (ap (λ xs. some (k ∷ xs)) (unique_after-NoTwins k ks fresh))

module _ (io : Stream) where
  -- Of a longer message a client's loop reads the words that the size says.
  read_loop-append :
      (xs ys codes : List ℕ)
      → read_loop io (length xs) (io.of_words (xs ++ ys)) codes ≡ reverse_aux xs codes
  unfolding read_loop
  read_loop-append [] ys codes = refl
  read_loop-append (x ∷ xs) ys codes =
      rw (io.get-of_words x (xs ++ ys), read_loop) (read_loop-append xs ys (x ∷ codes))

  -- Where a key is pressed between the size and the keys, the client does not learn of the key that was
  -- pressed first.
  pub press-drops_oldest :
      (buf k t : ℕ) (xs : List ℕ)
      → pressed buf ≡ some k
      → NoTwins (k ∷ (xs ++ t ∷ []))
      → (ws : List ℕ) × (dispatch_across intact keycode (buf ∷ []) (xs ++ t ∷ [])
          ≡ some (words ws, k ∷ (xs ++ t ∷ [])))
        × (read_codes io (io.of_words ws) ≡ reverse (k ∷ xs))
  unfolding dispatch_across read_codes
  press-drops_oldest buf k t xs h fresh =
      let count : length (xs ++ t ∷ []) ≡ length (k ∷ xs) =
        omega (arith, length-append xs (t ∷ [])) in
      (
        length (k ∷ xs) ∷ k ∷ (xs ++ t ∷ []),
        rw (loop-press buf k (xs ++ t ∷ []) h fresh, dispatch_across)
            (ap (λ n. some (words (n ∷ k ∷ (xs ++ t ∷ [])), k ∷ (xs ++ t ∷ []))) count),
        rw (io.get-of_words (length (k ∷ xs)) (k ∷ (xs ++ t ∷ [])), read_codes)
            (read_loop-append (k ∷ xs) (t ∷ []) []),
      )
