-- ===== src/System/Tests.antt =====
-- Runs of the servers and clients together.
use kpr.Base.{ltb, count, ℕ, ◌≡◌, refl, true, false, some, List, [], ◌∷◌, arith}
use kpr.Base.Int.{pos, ◌+ℤ◌}
use kpr.Keyboard.Client.{Stream}
use kpr.Keyboard.Server.{pressed, push_pressed, releases, erase_released, unique, round, loop}
use kpr.Keyboard.Held.{held, holds, intact}
use kpr.Console.Switch.{Shows}
use kpr.Pong.Moves.{IsInt}
use kpr.Pong.Paddle.{Paddle}
use kpr.System.Paddles.{Session, poll, BothMoved, BothNear, poll-moves}
use kpr.System.Tab.{System, polls, taps, polls-taps}

abbrev next_word : List ℕ → ℕ × List ℕ
next_word [] = (0, [])
next_word (w ∷ ws) = (w, ws)

abbrev io : Stream
io = record { Message = List ℕ; get = next_word; of_words = λ ws. ws; get-of_words = λ w ws. refl }

-- Two consoles, of which the first is shown, and no key is down.
abbrev start : System
start = record {
  keys = [];
  ctrl = record {
    first = record { addr = 65536; ds = 7; active = true };
    second = record { addr = 131072; ds = 8; active = false };
    last_tab = false;
  };
}

-- TAB goes down, `a` goes down while it is held, both are let go, and TAB goes down again.
abbrev typed : List (List ℕ)
typed = (15 ∷ []) ∷ (30 ∷ []) ∷ (143 ∷ 158 ∷ []) ∷ (15 ∷ []) ∷ []

two_taps : taps false typed true ≡ true
unfolding taps held pressed releases
two_taps = refl

polls-taps_example :
    (s : System) × (polls io typed start ≡ some s) × Shows s.ctrl (taps false typed true)
polls-taps_example = polls-taps io typed start refl refl

abbrev paddle : Paddle
paddle = record { position = pos 180; counter = 0; sent = [] }

abbrev session : Session
session = record { keys = []; game = record { p0 = paddle; p1 = paddle } }

-- `s` goes down, and `l`.
two_down : loop intact (31 ∷ 38 ∷ []) [] ≡ some (3 ∷ 0 ∷ [])
unfolding loop round push_pressed pressed erase_released releases unique
two_down = refl

near : BothNear 0 session.game
unfolding ◌+ℤ◌
near = ((omega arith, omega arith), (omega arith, omega arith))

poll-moves_example :
    (s : Session) × (poll io (31 ∷ 38 ∷ []) session ≡ some s)
    × (s.keys ≡ 3 ∷ 0 ∷ [])
    × BothMoved (3 ∷ 0 ∷ []) session.game s.game
    × (IsInt s.game.p0.position × IsInt s.game.p1.position)
    × ((k : ℕ) → ltb 0 (count k (3 ∷ 0 ∷ [])) ≡ held k (31 ∷ 38 ∷ []) (holds k []))
poll-moves_example = poll-moves io (31 ∷ 38 ∷ []) session (3 ∷ 0 ∷ []) 0 two_down near (omega arith)
