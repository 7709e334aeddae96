-- ===== src/System/RaceTests.antt =====
-- A key that is pressed in the middle of the keyboard driver's reply to the console.
use kpr.Base.{ℕ, ◌≡◌, refl, true, false, some, List, [], ◌∷◌, arith}
use kpr.Keyboard.Keys.{tab, down_1}
use kpr.Keyboard.Client.{Stream}
use kpr.Keyboard.Server.{pressed}
use kpr.Keyboard.Held.{holds}
use kpr.Console.Ctrl.{ConsoleCtrl}
use kpr.Console.Switch.{IsSplit}
use kpr.System.Tab.{System, poll, polls}
use kpr.System.Race.{poll_across, held_tab-switches}

abbrev next_word : List ℕ → ℕ × List ℕ
next_word [] = (0, [])
next_word (w ∷ ws) = (w, ws)

abbrev io : Stream
io = record { Message = List ℕ; get = next_word; of_words = λ ws. ws; get-of_words = λ w ws. refl }

-- TAB is down, and has made the second console the one that is shown.
abbrev after_tab : ConsoleCtrl
after_tab = record {
  first = record { addr = 65536; ds = 7; active = false };
  second = record { addr = 131072; ds = 8; active = true };
  last_tab = true;
}

abbrev tab_down : System
tab_down = record { keys = tab ∷ []; ctrl = after_tab }

-- `a` is pressed.
held_tab-switches_example :
    (s0 s1 s2 : System) × (polls io ([] ∷ [] ∷ []) tab_down ≡ some s0)
    × (s0.ctrl.first.active ≡ false)
    × (poll_across io [] (30 ∷ []) tab_down ≡ some s1)
    × (poll io [] s1 ≡ some s2)
    × (holds tab s1.keys ≡ true)
    × (holds tab s2.keys ≡ true)
    × IsSplit s2.ctrl
    × (s2.ctrl.first.active ≡ true)
unfolding pressed
held_tab-switches_example =
    held_tab-switches io 30 down_1 [] after_tab refl ((λ e. omega arith), tt) refl refl refl
