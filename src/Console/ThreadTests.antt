-- ===== src/Console/ThreadTests.antt =====
-- A schedule of the console server's threads: TAB goes down while the second console is made.
use kpr.Base.{◌≡◌, refl, true, false, ◌&&◌, List, [], ◌∷◌}
use kpr.Env.{Grant, granted}
use kpr.Keyboard.Keys.{tab}
use kpr.Console.Ctrl.{ConsoleCtrl}
use kpr.Console.Reach.{Reach}
use kpr.Console.Threads.{
  waiting, serving, Turn, switch, make, switch_turn, factory_turn, turn, play,
}
use kpr.Console.Linear.{play-Reach, play-exclusive}

abbrev grant : Grant
grant = record { cap_is_valid = true; alloc_err = 0; attach_err = 0; addr = 65536 }

abbrev tap : Turn
tap = switch (tab ∷ [])

abbrev second : Turn
second = make grant 8

abbrev schedule : List Turn
schedule =
    make grant 7
    ∷ make grant 7
    ∷ make grant 7
    ∷ make grant 7
    ∷ tap
    ∷ second
    ∷ tap
    ∷ second
    ∷ second
    ∷ second
    ∷ tap
    ∷ []

abbrev after : ConsoleCtrl
after = record {
  first = record { addr = 65536; ds = 7; active = false };
  second = record { addr = 65536; ds = 8; active = true };
  last_tab = true;
}

play-Reach_example : Reach (record { id_ctrl = 2; ctrl = after })
unfolding granted switch_turn factory_turn turn play
play-Reach_example = play-Reach schedule 2 after refl

play-exclusive_example : (after.first.active && after.second.active) ≡ false
unfolding granted switch_turn factory_turn turn play
play-exclusive_example =
    play-exclusive schedule
      (record { id_ctrl = 2; ctrl = after; switcher = waiting; factory = serving }) refl (λ e. cc)
