-- ===== src/Pong/Moves.antt =====
-- Where the paddles of pkg/rm_pong_client/pong_client.cc can be, under every schedule of its threads.
use kpr.Base.{
  ℕ, suc, ◌+◌, ◌-◌, ◌*◌, ◌^◌, ◌<◌, ◌≤◌, Bool, true, false, List, [], ◌∷◌, ◌==◌, if◌then◌else◌,
  arith, All,
}
use kpr.Base.Int.{ℤ, pos, ◌≤ℤ◌, ◌+ℤ◌, ◌-ℤ◌}
use kpr.Keyboard.Keys.{up_1, down_1, up_2, down_2}
use kpr.Pong.Paddle.{
  Paddle, Game, speed, top, start_position, up, down, clamp, key, Turn, code, begin_0, begin_1,
  begin, send_0, send_1, clamp_0, clamp_1, send, clamped, turn, play,
}

-- `x` is at most `n` steps of the keyboard outside the field.
abbrev pub Near : ℕ → ℤ → Type 0
Near n x = (pos 0 ≤ℤ (x +ℤ pos (n * speed))) × (x ≤ℤ pos (top + n * speed))

clamp-Near : (x : ℤ) → Near 0 (clamp x)
unfolding clamp ◌+ℤ◌
clamp-Near x = ground arith

start-Near : Near 0 (pos start_position)
unfolding ◌+ℤ◌
start-Near = ground arith

pub up-Near : (n : ℕ) (p : Paddle) → Near n p.position → Near (suc n) (up p).position
unfolding up ◌+ℤ◌ ◌-ℤ◌
up-Near n p h = ground arith

pub down-Near : (n : ℕ) (p : Paddle) → Near n p.position → Near (suc n) (down p).position
unfolding down ◌+ℤ◌
down-Near n p h = ground arith

pub Near-weaken : (n m : ℕ) (x : ℤ) → n ≤ m → Near n x → Near m x
unfolding ◌+ℤ◌
Near-weaken n m x h near = ground arith

-- In a calm schedule at most `n` codes come between two times that a paddle is clamped or begins: `a` and `b` have
-- come since the last time for each of the two.
unfoldable pub IsCalm : ℕ → ℕ → ℕ → List Turn → Type 0
IsCalm n a b [] = (a ≤ n) × (b ≤ n)
IsCalm n a b (code k ∷ ts) = IsCalm n (suc a) (suc b) ts
IsCalm n a b (begin_0 ∷ ts) = (a ≤ n) × IsCalm n 0 b ts
IsCalm n a b (begin_1 ∷ ts) = (b ≤ n) × IsCalm n a 0 ts
IsCalm n a b (send_0 ∷ ts) = (a ≤ n) × IsCalm n a b ts
IsCalm n a b (send_1 ∷ ts) = (b ≤ n) × IsCalm n a b ts
IsCalm n a b (clamp_0 ∷ ts) = (a ≤ n) × IsCalm n 0 b ts
IsCalm n a b (clamp_1 ∷ ts) = (b ≤ n) × IsCalm n a 0 ts

-- What is kept of one paddle: it is near, and so is what it has sent.
abbrev pub InReach : ℕ → ℕ → Paddle → Type 0
InReach n a p = Near a p.position × All (Near n) p.sent

if_all {ℓ κ} :
    {A : Type ℓ} (P : A → Type κ) (b : Bool) (x y : A) → P x → P y → P (if b then x else y)
if_all P true x y hx hy = hx
if_all P false x y hx hy = hy

-- Each key moves at most one paddle, by one step.
pub key_all {κ} :
    (P : Game → Type κ) (k : ℕ) (g : Game)
    → P (record g { p0 = up g.p0 })
    → P (record g { p0 = down g.p0 })
    → P (record g { p1 = up g.p1 })
    → P (record g { p1 = down g.p1 })
    → P g
    → P (key k g)
unfolding key
key_all P k g a b c d e =
    if_all P (k == up_1) _ _ a
      (if_all P (k == down_1) _ _ b (if_all P (k == up_2) _ _ c (if_all P (k == down_2) _ _ d e)))

-- Both paddles in reach.
abbrev pub BothInReach : ℕ → ℕ → ℕ → Game → Type 0
BothInReach n a b g = InReach n a g.p0 × InReach n b g.p1

key-BothInReach :
    (n a b k : ℕ) (g : Game) → BothInReach n a b g → BothInReach n (suc a) (suc b) (key k g)
unfolding up down
key-BothInReach n a b k g ((near_0, sent_0), (near_1, sent_1)) =
    let still_0 = Near-weaken a (suc a) g.p0.position (omega arith) near_0 in
    let still_1 = Near-weaken b (suc b) g.p1.position (omega arith) near_1 in
    key_all (BothInReach n (suc a) (suc b)) k g ((up-Near a g.p0 near_0, sent_0), (still_1, sent_1))
      ((down-Near a g.p0 near_0, sent_0), (still_1, sent_1))
      ((still_0, sent_0), (up-Near b g.p1 near_1, sent_1))
      ((still_0, sent_0), (down-Near b g.p1 near_1, sent_1)) ((still_0, sent_0), (still_1, sent_1))

play-reach :
    (n a b : ℕ) (ts : List Turn) (g : Game)
    → IsCalm n a b ts
    → BothInReach n a b g
    → BothInReach n n n (play ts g)
unfolding play turn begin send clamped IsCalm
play-reach n a b [] g (c, d) ((near_0, sent_0), (near_1, sent_1)) = (
  (Near-weaken a n g.p0.position c near_0, sent_0),
  (Near-weaken b n g.p1.position d near_1, sent_1),
)
play-reach n a b (code k ∷ ts) g calm h =
    play-reach n (suc a) (suc b) ts (key k g) calm (key-BothInReach n a b k g h)
play-reach n a b (begin_0 ∷ ts) g (c, calm) ((near_0, sent_0), h) =
    play-reach n 0 b ts _ calm ((start-Near, sent_0), h)
play-reach n a b (begin_1 ∷ ts) g (c, calm) (h, (near_1, sent_1)) =
    play-reach n a 0 ts _ calm (h, (start-Near, sent_1))
play-reach n a b (send_0 ∷ ts) g (c, calm) ((near_0, sent_0), h) =
    play-reach n a b ts _ calm ((near_0, (Near-weaken a n g.p0.position c near_0, sent_0)), h)
play-reach n a b (send_1 ∷ ts) g (c, calm) (h, (near_1, sent_1)) =
    play-reach n a b ts _ calm (h, (near_1, (Near-weaken b n g.p1.position c near_1, sent_1)))
play-reach n a b (clamp_0 ∷ ts) g (c, calm) ((near_0, sent_0), h) =
    play-reach n 0 b ts _ calm ((clamp-Near g.p0.position, sent_0), h)
play-reach n a b (clamp_1 ∷ ts) g (c, calm) (h, (near_1, sent_1)) =
    play-reach n a 0 ts _ calm (h, (clamp-Near g.p1.position, sent_1))

-- A position that is near enough is an `int`, on either side of zero.
abbrev pub IsInt : ℤ → Type 0
IsInt x = (pos 0 ≤ℤ (x +ℤ pos (2 ^ 31))) × (x ≤ℤ pos (2 ^ 31 - 1))

pub Near-IsInt : (n : ℕ) (x : ℤ) → top + n * speed < 2 ^ 31 → Near n x → IsInt x
unfolding ◌+ℤ◌
Near-IsInt n x small near = ground arith

-- Under any schedule of whole steps of the keyboard and whole clampings, in which at most `n` codes
-- come between two times that a paddle is clamped or begins, with `n` steps above 1023 still an int,
-- from paddles and sent positions that are as near as that: each paddle stays within `n` steps of the
-- field of 0 to 1023, and so does each position that it sends, and both positions are ints.
pub play-BothInReach :
    (n a b : ℕ) (ts : List Turn) (g : Game)
    → IsCalm n a b ts
    → BothInReach n a b g
    → top + n * speed < 2 ^ 31
    → BothInReach n n n (play ts g) × IsInt (play ts g).p0.position × IsInt (play ts g).p1.position
play-BothInReach n a b ts g calm near small =
    let (reach_0, reach_1) = play-reach n a b ts g calm near in
    (
      (reach_0, reach_1),
      Near-IsInt n (play ts g).p0.position small reach_0.0,
      Near-IsInt n (play ts g).p1.position small reach_1.0,
    )
