-- ===== src/Keyboard/Server.antt =====
-- pkg/rm_keyboard/server/src/keyboard.cc: the list of the keys that are held down.
-- Waiting for the interrupt and reading port 0x60 are not modelled: a round of the loop starts with
-- the scan code. `erase(it)` invalidates `it`, and the loop then increments it. What that yields is
-- up to the list library, so it is a parameter: from what stood behind the erased element, the rest
-- of the list that the loop goes on with, or `none` where the program ends.
use kpr.Base.{
  zero, suc, suc, ℕ, Bool, true, false, ◌&&◌, ◌||◌, Option, none, some, List, [], ◌∷◌, ◌==◌,
  if◌then◌else◌, length,
}
use kpr.Keyboard.Keys.{up_1, down_1, up_2, down_2, tab}

-- `switch(buf)`: the key that a scan code presses.
unfoldable pub pressed : ℕ → Option ℕ
pressed buf =
    if buf == 15
    then some tab
    else if buf == 30
    then some down_1
    else if buf == 31
    then some up_1
    else if buf == 38
    then some down_2
    else if buf == 39
    then some up_2
    else none

unfoldable pub push_pressed : ℕ → List ℕ → List ℕ
push_pressed buf keys = elim (pressed buf) [ none ↦ keys | some k ↦ k ∷ keys ]

-- The test of the erasing loop: the scan code releases this key.
unfoldable pub releases : ℕ → ℕ → Bool
releases buf key =
    (buf == 143 && key == tab)
    || ((buf == 158 && key == down_1)
        || ((buf == 159 && key == up_1)
            || ((buf == 166 && key == down_2) || (buf == 167 && key == up_2))))

-- `none` ends the program.
infixl 5 ◌>>=◌
abbrev pub ◌>>=◌ : {A B : Type 0} → Option A → (A → Option B) → Option B
none >>= f = none
some a >>= f = f a

-- What an increment of an erased iterator yields.
abbrev pub Stale : Type 0
Stale = List ℕ → Option (List ℕ)

-- The erasing loop, on fuel, since the loop may go on anywhere. The result is the list that is left.
unfoldable pub erase_released : Stale → ℕ → ℕ → List ℕ → Option (List ℕ)
erase_released stale fuel buf [] = some []
erase_released stale zero buf (k ∷ ks) = none
erase_released stale (suc fuel) buf (k ∷ ks) = elim (releases buf k) [
  | true ↦ stale ks >>= erase_released stale fuel buf
  | false ↦ do left ← erase_released stale fuel buf ks; some (k ∷ left)
]

-- `std::list::unique`: of equal elements in a row the first stays.
unfoldable pub unique_after : ℕ → List ℕ → List ℕ
unique_after k [] = []
unique_after k (x ∷ xs) = let rest = unique_after x xs in if x == k then rest else x ∷ rest

unfoldable pub unique : List ℕ → List ℕ
unfolding unique_after
unique [] = []
unique (x ∷ xs) = x ∷ unique_after x xs

-- One round of `Keyboard::loop`.
unfoldable pub round : Stale → ℕ → List ℕ → Option (List ℕ)
round stale buf keys =
    let now = push_pressed buf keys in
    do left ← erase_released stale (length now) buf now; some (unique left)

-- The rounds for a list of scan codes, the earliest first.
unfoldable pub loop : Stale → List ℕ → List ℕ → Option (List ℕ)
loop stale [] keys = some keys
loop stale (buf ∷ bufs) keys = round stale buf keys >>= loop stale bufs

-- `Keyboard::dispatch`: a request with another label is refused, and any other is answered by the
-- number of keys and the keys. The label is compared with `Protocol::Keycode`.
pub data Reply : Type 0 where
  bad_protocol : Reply
  words : List ℕ → Reply

abbrev pub keycode : ℕ
keycode = 0

unfoldable pub dispatch : ℕ → List ℕ → Reply
dispatch label keys = if label == keycode then words (length keys ∷ keys) else bad_protocol
