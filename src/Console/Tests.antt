-- ===== src/Console/Tests.antt =====
-- Runs of the console server.
use kpr.Base.{◌==◌, if◌then◌else◌, ℕ, ◌≡◌, ◌+◌, ◌≤◌, refl, true, false, List, [], ◌∷◌, arith}
use kpr.Env.{Grant, granted}
use kpr.Keyboard.Keys.{tab}
use kpr.Console.Ctrl.{
  switch_round, initial, ConsoleCtrl, switch_loop, get_ds, put_console, done, out_of_bounds,
}
use kpr.Console.Switch.{IsDark, second_console-IsDark}
use kpr.Console.Reach.{Reach, Step, IsServer, copied_from, Reach-IsServer, typed-copied_from}
use kpr.Console.Factory.{
  ConsoleAlt1, FactoryServer, Request, factory, made, make_console, factory_dispatch, get_buffer,
  send_buffer, console_dispatch, serve, creations, made-get_buffer, serve_limit,
}

abbrev grant : Grant
grant = record { cap_is_valid = true; alloc_err = 0; attach_err = 0; addr = 65536 }

-- Two consoles, and the first is shown.
abbrev both : ConsoleCtrl
both = record {
  first = record { addr = 65536; ds = 7; active = true };
  second = record { addr = 131072; ds = 8; active = false };
  last_tab = false;
}

-- The first console is there, and TAB was down once.
abbrev turned : ConsoleCtrl
turned = record {
  first = record { addr = 65536; ds = 7; active = false };
  second = record { addr = 0; ds = 0; active = true };
  last_tab = false;
}

second_console-IsDark_example :
    (c' : ConsoleCtrl) × (get_ds grant 8 1 turned ≡ done (8, c'))
    × IsDark (switch_loop ((tab ∷ []) ∷ []) c')
unfolding granted
second_console-IsDark_example =
    second_console-IsDark grant 8 65536 ((tab ∷ []) ∷ []) turned refl refl refl

abbrev factory_server : FactoryServer
factory_server = record { id_ctrl = 0; ctrl = initial }

made-get_buffer_example :
    (c : ConsoleAlt1) × (f' : FactoryServer) × (factory_dispatch grant 7 (factory 0) factory_server
      ≡ done (made c, f'))
    × (c.id ≡ 0)
    × (f'.id_ctrl ≡ 0 + 1)
    × (console_dispatch (λ x y w h. 0) (get_buffer 0) c
        ≡ send_buffer (if c.id == 0 then f'.ctrl.first.ds else f'.ctrl.second.ds))
unfolding granted
made-get_buffer_example =
    made-get_buffer grant 7 65536 factory_server (λ x y w h. 0) refl (omega arith)

abbrev requests : List (Grant × ℕ × Request)
requests = (grant, 7, factory 0) ∷ (grant, 8, factory 1) ∷ (grant, 8, factory 0) ∷ []

third_is_out_of_bounds : serve ((grant, 9, factory 0) ∷ requests) factory_server ≡ out_of_bounds
unfolding serve factory_dispatch make_console get_ds put_console granted
third_is_out_of_bounds = refl

abbrev served : FactoryServer
served = record {
  id_ctrl = 2;
  ctrl = record {
    first = record { addr = 65536; ds = 7; active = true };
    second = record { addr = 65536; ds = 8; active = false };
    last_tab = false;
  };
}

serve_limit_example : (2 ≡ 0 + creations requests) × (2 ≤ 2)
unfolding serve factory_dispatch make_console get_ds put_console granted
serve_limit_example = serve_limit requests factory_server served refl (omega arith)

-- The first console is made.
abbrev with_one : FactoryServer
with_one = record {
  id_ctrl = 1;
  ctrl = record {
    first = record { addr = 65536; ds = 7; active = true };
    second = record { addr = 0; ds = 0; active = false };
    last_tab = false;
  };
}

with_one-Reach : Reach with_one
unfolding factory_dispatch make_console get_ds put_console granted
with_one-Reach =
    Reach.later Reach.start
      (Step.request grant 7 (factory 0) (made (record { id = 0; fb_ds = 7 })) {t = with_one} refl)

Reach-IsServer_example : IsServer with_one
Reach-IsServer_example = Reach-IsServer with_one-Reach

typed-copied_from_example : copied_from (switch_round (tab ∷ []) with_one.ctrl) ≡ 0
typed-copied_from_example = typed-copied_from (tab ∷ []) with_one-Reach refl refl refl refl
