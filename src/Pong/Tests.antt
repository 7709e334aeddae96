-- ===== src/Pong/Tests.antt =====
-- Schedules of the Pong client.
use kpr.Base.{◌≡◌, refl, List, [], ◌∷◌, arith}
use kpr.Base.Int.{negsuc, ◌+ℤ◌, ◌-ℤ◌}
use kpr.Keyboard.Keys.{up_1}
use kpr.Pong.Paddle.{
  Game, fresh, begin, begin_0, code, send_0, clamp_0, Turn, play, turn, key, up, clamp, send,
  clamped, tick,
}
use kpr.Pong.Moves.{IsCalm, BothInReach, IsInt, play-BothInReach}

abbrev game : Game
game = record { p0 = fresh; p1 = fresh }

-- Seven times up between two rounds takes the paddle out of the field, and it is sent so.
abbrev burst : List Turn
burst =
    begin_0
    ∷ code up_1
    ∷ code up_1
    ∷ code up_1
    ∷ code up_1
    ∷ code up_1
    ∷ code up_1
    ∷ code up_1
    ∷ send_0
    ∷ clamp_0
    ∷ []

burst_sends : (play burst game).p0.sent ≡ negsuc 29 ∷ []
unfolding play turn begin key up send clamped clamp ◌-ℤ◌ ◌+ℤ◌ tick
burst_sends = refl

play-BothInReach_example :
    BothInReach 7 7 7 (play burst game)
    × IsInt (play burst game).p0.position
    × IsInt (play burst game).p1.position
unfolding IsCalm ◌+ℤ◌
play-BothInReach_example =
    play-BothInReach 7 0 0 burst game (omega arith)
      (((omega arith, omega arith), tt), ((omega arith, omega arith), tt)) (omega arith)
