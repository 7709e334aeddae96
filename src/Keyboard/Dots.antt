-- ===== src/Keyboard/Dots.antt =====
-- pkg/rm_keyboard/examples/rm_kb_client.cc: the example client reads the driver's reply and prints a dot for
-- each code that is a key. What it prints beside is left out.
use kpr.Base.{
  ℕ, suc, ◌+◌, ◌≡◌, refl, ap, ◌∙◌, Bool, false, ◌||◌, Option, none, some, List, [], ◌∷◌, ◌==◌,
  if◌then◌else◌, All, length, arith,
}
use kpr.Keyboard.Keys.{tab, up_1, down_1, up_2, down_2}
use kpr.Keyboard.Server.{words, keycode, dispatch, loop}
use kpr.Keyboard.Held.{intact}
use kpr.Keyboard.Invariant.{IsKey, loop-IsKeyList}
use kpr.Keyboard.Client.{Stream, read_codes, received-reverse}
use mathlib.Core.List.{reverse, reverse_aux}

abbrev is_key : ℕ → Bool
is_key code = code == tab || (code == up_1 || (code == down_1 || (code == up_2 || code == down_2)))

-- The loop over the codes: how many dots it prints.
unfoldable pub dots : List ℕ → ℕ
dots [] = 0
dots (code ∷ codes) = let rest = dots codes in if is_key code then suc rest else rest

dots-reverse_aux : (xs ys : List ℕ) → dots (reverse_aux xs ys) ≡ dots xs + dots ys
unfolding dots
dots-reverse_aux [] ys = omega arith
dots-reverse_aux (x ∷ xs) ys = ground (arith, dots-reverse_aux xs (x ∷ ys))

dots-reverse : (xs : List ℕ) → dots (reverse xs) ≡ dots xs
unfolding dots
dots-reverse xs = dots-reverse_aux xs [] ∙ omega arith

dots-eq-length : (ks : List ℕ) → All IsKey ks → dots ks ≡ length ks
unfolding dots
dots-eq-length [] h = refl
dots-eq-length (k ∷ ks) (here, h) = ground (arith, dots-eq-length ks h)

module _ (io : Stream) where
  -- A round of `main`: the dots, or `none` where the call fails and `main` returns 1.
  unfoldable pub client_round : (call_fails : Bool) → io.Message → Option ℕ
  client_round call_fails m = if call_fails then none else some (dots (read_codes io m))

  -- After any scan codes from an empty list, a round of the example client whose call succeeds prints
  -- as many dots as the driver's list has keys, if the increment of the erased iterator goes on behind
  -- the erased element and the stream gives words back as they were put in.
  client_round-loop :
      (bufs : List ℕ)
      → (left : List ℕ) × (loop intact bufs [] ≡ some left)
        × (ws : List ℕ) × (dispatch keycode left ≡ words ws)
        × (client_round false (io.of_words ws) ≡ some (length left))
  unfolding client_round
  client_round-loop bufs =
      let (left, ran, keys) = loop-IsKeyList bufs [] (record { keys = tt; no_twins = tt }) in
      let (ws, sent, read) = received-reverse io left in
      (
        left,
        ran,
        ws,
        sent,
        ap (λ codes. some (dots codes)) read
            ∙ ap some (dots-reverse left ∙ dots-eq-length left keys.keys),
      )
