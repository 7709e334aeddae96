-- ===== src/System/Paddles.antt =====
-- The keyboard driver (pkg/rm_keyboard/server/src/keyboard.cc) and the keyboard thread of the Pong client
-- (pkg/rm_pong_client/pong_client.cc) together: how far a reply of the driver moves the paddles.
use kpr.Base.{
  ℕ, suc, ◌+◌, ◌*◌, ◌^◌, ◌<◌, ◌≡◌, ◌≢◌, length, refl, sym, subst, ◌∙◌, ap, Option, none, some, List,
  [], ◌∷◌, ◌==◌, arith, count, ltb, Bool-cases, inl, inr,
}
use kpr.Base.Int.{ℤ, pos, ◌+ℤ◌, ◌-ℤ◌}
use kpr.Keyboard.Keys.{up_1, down_1, up_2, down_2}
use kpr.Keyboard.Server.{loop, dispatch, keycode, words, bad_protocol, Reply}
use kpr.Keyboard.Held.{holds, held, intact, loop-held}
use kpr.Keyboard.Client.{Stream, read_codes, received-reverse}
use kpr.Pong.Moves.{Near, IsInt, Near-IsInt, Near-weaken, up-Near, down-Near, key_all}
use kpr.Pong.Paddle.{Paddle, Game, speed, top, up, down, key, keys}
use mathlib.Core.List.{reverse, reverse_aux}

-- One step more.
up_step :
    (x y : ℤ) (a b : ℕ) → y +ℤ pos a ≡ (x -ℤ pos speed) +ℤ pos b → y +ℤ pos (speed + a) ≡ x +ℤ pos b
unfolding ◌+ℤ◌ ◌-ℤ◌
up_step x y a b e = ground arith

down_step :
    (x y : ℤ) (a b : ℕ) → y +ℤ pos a ≡ (x +ℤ pos speed) +ℤ pos b → y +ℤ pos a ≡ x +ℤ pos (speed + b)
unfolding ◌+ℤ◌
down_step x y a b e = ground arith

-- A paddle moves by the speed down for each of one key, and up for each of another, and nothing else of it changes.
abbrev pub Moved : List ℕ → (u d : ℕ) → Paddle → Paddle → Type 0
Moved ks u d p p' =
    (p'.position +ℤ pos (speed * count u ks) ≡ p.position +ℤ pos (speed * count d ks))
    × (p'.counter ≡ p.counter)
    × (p'.sent ≡ p.sent)

abbrev pub BothMoved : List ℕ → Game → Game → Type 0
BothMoved ks g g' = Moved ks up_1 down_1 g.p0 g'.p0 × Moved ks up_2 down_2 g.p1 g'.p1

-- A code in front, for one paddle.
Moved-up :
    (k : ℕ) (ks : List ℕ) (d : ℕ) (p p' : Paddle)
    → d ≢ k
    → Moved ks k d (up p) p'
    → Moved (k ∷ ks) k d p p'
unfolding up
Moved-up k ks d p p' ne (e, c, s) = (
  ap (λ n. p'.position +ℤ pos n) (ground arith)
      ∙ up_step p.position p'.position (speed * count k ks) (speed * count d ks) e
      ∙ ap (λ n. p.position +ℤ pos n) (ground arith),
  c,
  s,
)

Moved-down :
    (k : ℕ) (ks : List ℕ) (u : ℕ) (p p' : Paddle)
    → u ≢ k
    → Moved ks u k (down p) p'
    → Moved (k ∷ ks) u k p p'
unfolding down
Moved-down k ks u p p' ne (e, c, s) = (
  ap (λ n. p'.position +ℤ pos n) (ground arith)
      ∙ down_step p.position p'.position (speed * count u ks) (speed * count k ks) e
      ∙ ap (λ n. p.position +ℤ pos n) (ground arith),
  c,
  s,
)

Moved-other :
    (k : ℕ) (ks : List ℕ) (u d : ℕ) (p p' : Paddle)
    → u ≢ k
    → d ≢ k
    → Moved ks u d p p'
    → Moved (k ∷ ks) u d p p'
Moved-other k ks u d p p' ne ne' (e, c, s) = (
  ap (λ n. p'.position +ℤ pos n) (ground arith) ∙ e ∙ ap (λ n. p.position +ℤ pos n) (ground arith),
  c,
  s,
)

module _ (ks : List ℕ) (g g' : Game) where
  abbrev Carries : ℕ → Type 0
  Carries k = BothMoved ks (key k g) g' → BothMoved (k ∷ ks) g g'

  key-Carries : (k : ℕ) → Carries k
  unfolding key
  key-Carries k = elim (Bool-cases (k == up_1)) [
    | inl e ↦
        let same : up_1 ≡ k = ground arith in
        subst Carries same (λ (a, b). (
          Moved-up up_1 ks down_1 g.p0 g'.p0 (omega arith) a,
          Moved-other up_1 ks up_2 down_2 g.p1 g'.p1 (omega arith) (omega arith) b,
        ))
    | inr n1 ↦ elim (Bool-cases (k == down_1)) [
      | inl e ↦
          let same : down_1 ≡ k = ground arith in
          subst Carries same (λ (a, b). (
            Moved-down down_1 ks up_1 g.p0 g'.p0 (omega arith) a,
            Moved-other down_1 ks up_2 down_2 g.p1 g'.p1 (omega arith) (omega arith) b,
          ))
      | inr n2 ↦ elim (Bool-cases (k == up_2)) [
        | inl e ↦
            let same : up_2 ≡ k = ground arith in
            subst Carries same (λ (a, b). (
              Moved-other up_2 ks up_1 down_1 g.p0 g'.p0 (omega arith) (omega arith) a,
              Moved-up up_2 ks down_2 g.p1 g'.p1 (omega arith) b,
            ))
        | inr n3 ↦ elim (Bool-cases (k == down_2)) [
          | inl e ↦
              let same : down_2 ≡ k = ground arith in
              subst Carries same (λ (a, b). (
                Moved-other down_2 ks up_1 down_1 g.p0 g'.p0 (omega arith) (omega arith) a,
                Moved-down down_2 ks up_2 g.p1 g'.p1 (omega arith) b,
              ))
          | inr n4 ↦
              rw (n1, n2, n3, n4)
                (λ (a, b). (
                  Moved-other k ks up_1 down_1 g.p0 g'.p0 (ground arith) (ground arith) a,
                  Moved-other k ks up_2 down_2 g.p1 g'.p1 (ground arith) (ground arith) b,
                ))
        ]
      ]
    ]
  ]

keys-BothMoved : (ks : List ℕ) (g : Game) → BothMoved ks g (keys ks g)
unfolding keys
keys-BothMoved [] g = ((refl, refl, refl), (refl, refl, refl))
keys-BothMoved (k ∷ ks) g = key-Carries ks g (keys ks (key k g)) k (keys-BothMoved ks (key k g))

count-reverse_aux : (k : ℕ) (xs ys : List ℕ) → count k (reverse_aux xs ys) ≡ count k xs + count k ys
count-reverse_aux k [] ys = omega arith
count-reverse_aux k (x ∷ xs) ys = ground (arith, count-reverse_aux k xs (x ∷ ys))

count-reverse : (k : ℕ) (xs : List ℕ) → count k (reverse xs) ≡ count k xs
count-reverse k xs = omega (arith, count-reverse_aux k xs [])

count-holds : (k : ℕ) (ks : List ℕ) → ltb 0 (count k ks) ≡ holds k ks
count-holds k [] = refl
count-holds k (x ∷ ks) = ground (arith, count-holds k ks)

length-reverse_aux : (xs ys : List ℕ) → length (reverse_aux xs ys) ≡ length xs + length ys
length-reverse_aux [] ys = omega arith
length-reverse_aux (x ∷ xs) ys = ground (arith, length-reverse_aux xs (x ∷ ys))

length-reverse : (xs : List ℕ) → length (reverse xs) ≡ length xs
length-reverse xs = omega (arith, length-reverse_aux xs [])

-- Both paddles are at most `n` steps outside the field.
abbrev pub BothNear : ℕ → Game → Type 0
BothNear n g = Near n g.p0.position × Near n g.p1.position

key-BothNear : (n k : ℕ) (g : Game) → BothNear n g → BothNear (suc n) (key k g)
unfolding up down
key-BothNear n k g (near_0, near_1) =
    let still_0 = Near-weaken n (suc n) g.p0.position (omega arith) near_0 in
    let still_1 = Near-weaken n (suc n) g.p1.position (omega arith) near_1 in
    key_all (BothNear (suc n)) k g (up-Near n g.p0 near_0, still_1)
      (down-Near n g.p0 near_0, still_1) (still_0, up-Near n g.p1 near_1)
      (still_0, down-Near n g.p1 near_1) (still_0, still_1)

keys-BothNear :
    (ks : List ℕ) (n : ℕ) (g : Game) → BothNear n g → BothNear (n + length ks) (keys ks g)
unfolding keys
keys-BothNear [] n g near =
    let same : n ≡ n + 0 = omega arith in subst (λ k. BothNear k g) same near
keys-BothNear (k ∷ ks) n g near =
    let same : suc n + length ks ≡ n + suc (length ks) = omega arith in
    subst (λ j. BothNear j (keys ks (key k g))) same
      (keys-BothNear ks (suc n) (key k g) (key-BothNear n k g near))

-- Each key is as often in the one list as in the other.
BothMoved-same :
    (ks ls : List ℕ) (g g' : Game)
    → ((k : ℕ) → count k ks ≡ count k ls)
    → BothMoved ks g g'
    → BothMoved ls g g'
BothMoved-same ks ls g g' same moved =
    rw (sym (same up_1), sym (same down_1), sym (same up_2), sym (same down_2)) moved

-- The driver's list and the two paddles.
pub record Session : Type 0 where
  pub keys : List ℕ
  pub game : Game

module _ (io : Stream) where
  -- What the keyboard thread does with a reply: it does not look at the label, and a refusal has no words.
  abbrev pub on_reply : Reply → Game → Game
  on_reply (words ws) g = keys (read_codes io (io.of_words ws)) g
  on_reply bad_protocol g = keys (read_codes io (io.of_words [])) g

  -- The scan codes that come before a request, and a round of `thread_kb`, in which no thread of a paddle
  -- reads or writes a position; kpr.Pong.Threads has the rounds where they do.
  unfoldable pub poll : List ℕ → Session → Option Session
  poll bufs s = elim (loop intact bufs s.keys) [
    | none ↦ none
    | some left ↦ some (record { keys = left; game = on_reply (dispatch keycode left) s.game })
  ]

  -- Where the driver has a list after the scan codes, which is so by kpr.Keyboard.Held, and no thread
  -- of a paddle runs in between, for positions with room for a step for each of the list's keys in an
  -- int: a round of the Pong client's keyboard thread moves each paddle down by its speed for each of
  -- its down keys in the list and up for each of its up keys, and changes nothing else of it, the
  -- positions are ints, and a key is in the list exactly if it is down by the scan codes; the
  -- iterator's increment goes on behind the erased element, and the stream gives words back as they
  -- were put in.
  pub poll-moves :
      (bufs : List ℕ) (s : Session) (left : List ℕ) (m : ℕ)
      → loop intact bufs s.keys ≡ some left
      → BothNear m s.game
      → top + (m + length left) * speed < 2 ^ 31
      → (s' : Session) × (poll bufs s ≡ some s')
        × (s'.keys ≡ left)
        × BothMoved left s.game s'.game
        × (IsInt s'.game.p0.position × IsInt s'.game.p1.position)
        × ((k : ℕ) → ltb 0 (count k left) ≡ held k bufs (holds k s.keys))
  unfolding poll
  poll-moves bufs s left m ran near small =
      let (ws, sent, read) = received-reverse io left in
      let done : on_reply (dispatch keycode left) s.game ≡ keys (reverse left) s.game =
        ap (λ r. on_reply r s.game) sent ∙ ap (λ codes. keys codes s.game) read in
      let moved : BothMoved left s.game (keys (reverse left) s.game) =
        BothMoved-same (reverse left) left s.game (keys (reverse left) s.game)
          (λ k. count-reverse k left) (keys-BothMoved (reverse left) s.game) in
      let far : BothNear (m + length left) (keys (reverse left) s.game) =
        subst (λ n. BothNear (m + n) (keys (reverse left) s.game)) (length-reverse left)
          (keys-BothNear (reverse left) m s.game near) in
      let ints : IsInt (keys (reverse left) s.game).p0.position
          × IsInt (keys (reverse left) s.game).p1.position =
        (
          Near-IsInt (m + length left) (keys (reverse left) s.game).p0.position small far.0,
          Near-IsInt (m + length left) (keys (reverse left) s.game).p1.position small far.1,
        ) in
      (
        record { keys = left; game = on_reply (dispatch keycode left) s.game },
        rw (ran, poll) refl,
        refl,
        subst (BothMoved left s.game) (sym done) moved,
        subst (λ (g : Game). IsInt g.p0.position × IsInt g.p1.position) (sym done) ints,
        λ k. count-holds k left ∙ tells k,
      )
    where
      tells : (k : ℕ) → holds k left ≡ held k bufs (holds k s.keys)
      tells k =
          let (left', ran', told) = loop-held bufs s.keys k in
          let same : left' ≡ left = cc in
          subst (λ ls. holds k ls ≡ held k bufs (holds k s.keys)) same told
