-- ===== src/Pong/Threads.antt =====
-- The threads of pkg/rm_pong_client/pong_client.cc, access by access: the keyboard thread reads a position and then
-- writes it, and each paddle's thread tests and writes its position in `run`. No lock guards them. A turn is one
-- read or one write of `_pos`; what a thread does to its own variables goes with the turn. Positions are
-- integers, as in kpr.Pong.Paddle.
use kpr.Base.{ℕ, List, [], ◌∷◌, ◌==◌, if◌then◌else◌}
use kpr.Base.Int.{ℤ, pos, ◌+ℤ◌, ◌-ℤ◌, ltb_ℤ}
use kpr.Keyboard.Keys.{up_1, down_1, up_2, down_2}
use kpr.Pong.Paddle.{Paddle, fresh, speed, top, begin, send}

-- Where a paddle's thread stands: before `run` sets the position, before `move`, before one of the two
-- tests, or before the write that follows the test.
pub data PaddleAt : Type 0 where
  starting sending low_test low_write high_test high_write : PaddleAt

-- Where the keyboard thread stands: before a code, or with the position that it is about to write.
pub data KeyAt : Type 0 where
  between : KeyAt
  moving_0 moving_1 : (target : ℤ) → KeyAt

pub record Threads : Type 0 where
  pub p0 : Paddle
  pub p1 : Paddle
  pub at_0 : PaddleAt
  pub at_1 : PaddleAt
  pub kb : KeyAt

abbrev pub new_threads : Threads
new_threads = record { p0 = fresh; p1 = fresh; at_0 = starting; at_1 = starting; kb = between }

abbrev pub place : ℤ → Paddle → Paddle
place x p = record p { position = x }

-- One access of `Paddle::run`.
unfoldable pub paddle_turn : PaddleAt → Paddle → PaddleAt × Paddle
paddle_turn starting p = (sending, begin p)
paddle_turn sending p = (low_test, send p)
paddle_turn low_test p = (if ltb_ℤ p.position (pos 0) then low_write else high_test, p)
paddle_turn low_write p = (high_test, place (pos 0) p)
paddle_turn high_test p = (if ltb_ℤ (pos top) p.position then high_write else sending, p)
paddle_turn high_write p = (sending, place (pos top) p)

-- The `switch` of `thread_kb`, up to the read in `up` or `down`.
unfoldable pub read_key : ℕ → (x0 x1 : ℤ) → KeyAt
read_key code x0 x1 =
    if code == up_1
    then moving_0 (x0 -ℤ pos speed)
    else if code == down_1
    then moving_0 (x0 +ℤ pos speed)
    else if code == up_2
    then moving_1 (x1 -ℤ pos speed)
    else if code == down_2
    then moving_1 (x1 +ℤ pos speed)
    else between

-- Whose turn it is; the keyboard thread with the next code, if its turn begins one.
pub data Turn : Type 0 where
  kb_turn : (code : ℕ) → Turn
  run_0 run_1 : Turn

unfoldable pub turn : Turn → Threads → Threads
turn (kb_turn code) t = elim (t.kb) [
  | between ↦ record t { kb = read_key code t.p0.position t.p1.position }
  | moving_0 x ↦ record t { p0 = place x t.p0; kb = between }
  | moving_1 x ↦ record t { p1 = place x t.p1; kb = between }
]
turn run_0 t = let (at, p) = paddle_turn t.at_0 t.p0 in record t { p0 = p; at_0 = at }
turn run_1 t = let (at, p) = paddle_turn t.at_1 t.p1 in record t { p1 = p; at_1 = at }

-- Any schedule of the three threads.
unfoldable pub play : List Turn → Threads → Threads
play [] t = t
play (x ∷ xs) t = play xs (turn x t)
