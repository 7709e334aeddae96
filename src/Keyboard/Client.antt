-- ===== src/Keyboard/Client.antt =====
-- How the clients of the keyboard driver read its reply: the same loop stands in
-- pkg/rm_consoleAlt1/server/src/consoleCtrl.cc, pkg/rm_pong_client/pong_client.cc and
-- pkg/rm_keyboard/examples/rm_kb_client.cc. The message stream is not part of the repository.
use kpr.Base.{ℕ, zero, suc, ◌≡◌, refl, List, [], ◌∷◌, length}
use kpr.Keyboard.Server.{words, keycode, dispatch}
use mathlib.Core.List.{reverse, reverse_aux}

-- What the clients rely on: the words of a message come out as they were put in. A message has no bound
-- here: a list of keys that is longer than a message of L4 is not modelled.
pub record Stream : Type 1 where
  pub Message : Type 0
  pub get : Message → ℕ × Message
  pub of_words : List ℕ → Message
  pub get-of_words : (w : ℕ) (ws : List ℕ) → get (of_words (w ∷ ws)) ≡ (w, of_words ws)

module _ (io : Stream) where
  open io use {Message, get, of_words, get-of_words}

  -- `for (i = 0; i < size; ++i) { stream >> code; codes.push_front(code); }`
  unfoldable pub read_loop : ℕ → Message → List ℕ → List ℕ
  read_loop zero m codes = codes
  read_loop (suc n) m codes = let (code, rest) = get m in read_loop n rest (code ∷ codes)

  -- `stream >> size`, and the loop, into an empty list.
  unfoldable pub read_codes : Message → List ℕ
  unfolding read_loop
  read_codes m = let (size, rest) = get m in read_loop size rest []

  read_loop-reverse_aux :
      (ks codes : List ℕ) → read_loop (length ks) (of_words ks) codes ≡ reverse_aux ks codes
  unfolding read_loop
  read_loop-reverse_aux [] codes = refl
  read_loop-reverse_aux (k ∷ ks) codes =
      rw (get-of_words k ks, read_loop) (read_loop-reverse_aux ks (k ∷ codes))

  read_codes-reverse : (ks : List ℕ) → read_codes (of_words (length ks ∷ ks)) ≡ reverse ks
  unfolding read_codes
  read_codes-reverse ks = rw (get-of_words (length ks) ks, read_codes) (read_loop-reverse_aux ks [])

  -- What the driver answers to a request with its label, read by a client's loop from a stream that
  -- gives words back as they were put in, is the driver's list, the last key first.
  pub received-reverse :
      (keys : List ℕ)
      → (ws : List ℕ) × (dispatch keycode keys ≡ words ws)
        × (read_codes (of_words ws) ≡ reverse keys)
  unfolding dispatch
  received-reverse keys = (length keys ∷ keys, refl, read_codes-reverse keys)
