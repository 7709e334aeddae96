-- ===== src/Pong/Paddle.antt =====
-- The paddles of pkg/rm_pong_client/pong_client.cc. Each paddle has a thread that sends its position and
-- then clamps it, and the keyboard thread moves both. The threads share the positions without a lock:
-- a schedule is any list of their turns. The step of a key, and the clamping, are one turn each;
-- kpr.Pong.Threads has the reads and writes one by one. A position is an `int`, which must not overflow:
-- here it is an integer, and what is said of positions is said where they stay within an `int`.
use kpr.Base.{ℕ, ◌+◌, List, [], ◌∷◌, ◌==◌, leb, if◌then◌else◌}
use kpr.Base.Int.{ℤ, pos, ◌+ℤ◌, ◌-ℤ◌, ltb_ℤ}
use kpr.Keyboard.Keys.{up_1, down_1, up_2, down_2}

-- The two objects `p0` and `p1` have the speed 30.
abbrev pub speed : ℕ
speed = 30

abbrev pub top : ℕ
top = 1023

abbrev pub start_position : ℕ
start_position = 180

-- `Paddle`, with the counter of `run` and the positions that `move` has sent, the last first.
pub record Paddle : Type 0 where
  pub position : ℤ
  pub counter : ℕ
  pub sent : List ℤ

-- `p0` and `p1` are static objects, and the constructor leaves the position as it is.
abbrev pub fresh : Paddle
fresh = record { position = pos 0; counter = 0; sent = [] }

-- Once it is connected, `run` begins with the start position.
unfoldable pub begin : Paddle → Paddle
begin p = record p { position = pos start_position; counter = 0 }

unfoldable pub up : Paddle → Paddle
up p = record p { position = p.position -ℤ pos speed }

unfoldable pub down : Paddle → Paddle
down p = record p { position = p.position +ℤ pos speed }

unfoldable pub clamp : ℤ → ℤ
clamp x =
    let low = if ltb_ℤ x (pos 0) then pos 0 else x in if ltb_ℤ (pos top) low then pos top else low

-- `c++ >= 500`: every so often the number of lives is asked for.
unfoldable pub tick : ℕ → ℕ
tick c = if leb 500 c then 0 else c + 1

-- The two halves of a round of `Paddle::run`: `move` sends the position and sleeps, then it is clamped.
unfoldable pub send : Paddle → Paddle
send p = record p { counter = tick p.counter; sent = p.position ∷ p.sent }

unfoldable pub clamped : Paddle → Paddle
clamped p = record p { position = clamp p.position }

pub record Game : Type 0 where
  pub p0 : Paddle
  pub p1 : Paddle

-- The `switch` of `thread_kb`.
unfoldable pub key : ℕ → Game → Game
key code g =
    if code == up_1
    then record g { p0 = up g.p0 }
    else if code == down_1
    then record g { p0 = down g.p0 }
    else if code == up_2
    then record g { p1 = up g.p1 }
    else if code == down_2
    then record g { p1 = down g.p1 }
    else g

-- The loop of `thread_kb` over the codes of one reply.
unfoldable pub keys : List ℕ → Game → Game
keys [] g = g
keys (code ∷ codes) g = keys codes (key code g)

-- What a schedule is made of: one turn of the keyboard thread's inner loop, or half a round of a paddle.
pub data Turn : Type 0 where
  code : ℕ → Turn
  begin_0 : Turn
  begin_1 : Turn
  send_0 : Turn
  send_1 : Turn
  clamp_0 : Turn
  clamp_1 : Turn

unfoldable pub turn : Turn → Game → Game
turn (code k) g = key k g
turn begin_0 g = record g { p0 = begin g.p0 }
turn begin_1 g = record g { p1 = begin g.p1 }
turn send_0 g = record g { p0 = send g.p0 }
turn send_1 g = record g { p1 = send g.p1 }
turn clamp_0 g = record g { p0 = clamped g.p0 }
turn clamp_1 g = record g { p1 = clamped g.p1 }

unfoldable pub play : List Turn → Game → Game
play [] g = g
play (t ∷ ts) g = play ts (turn t g)
