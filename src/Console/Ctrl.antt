-- ===== src/Console/Ctrl.antt =====
-- pkg/rm_consoleAlt1/server/src/consoleCtrl.cc and consoleCtrl.h. The threads, their sleeps and the
-- call of the keyboard driver are not modelled: a round of `switch_loop` starts with the list of
-- codes that was read (kpr.Keyboard.Client), a round of `refresh_loop` copies one buffer. The
-- controller is a static object, so its flags start out as false.
use kpr.Base.{ℕ, Bool, true, false, not, ◌&&◌, none, some, List, [], ◌∷◌, ◌==◌, if◌then◌else◌}
use kpr.Env.{Grant, granted}
use kpr.Keyboard.Keys.{tab}

-- `struct console`
pub record Console : Type 0 where
  pub addr : ℕ
  pub ds : ℕ
  pub active : Bool

-- The fields of `ConsoleCtrl` that the loops use, with `last_tab` of `switch_loop`.
pub record ConsoleCtrl : Type 0 where
  pub first : Console
  pub second : Console
  pub last_tab : Bool

-- The controller before any console is made.
abbrev pub blank : Console
blank = record { addr = 0; ds = 0; active = false }

abbrev pub initial : ConsoleCtrl
initial = record { first = blank; second = blank; last_tab = false }

abbrev pub set_active : ConsoleCtrl → Bool → Bool → ConsoleCtrl
set_active c a b = record c {
  first = record (c.first) { active = a };
  second = record (c.second) { active = b };
}

-- What a TAB does.
unfoldable pub switch_active : ConsoleCtrl → ConsoleCtrl
switch_active c =
    if c.first.active
    then set_active c false true
    else if c.second.active
    then set_active c true false
    else c

-- The first loop over the codes: it stops at the first TAB, if TAB was not down before.
unfoldable pub switch_on_tab : List ℕ → ConsoleCtrl → ConsoleCtrl
unfolding switch_active
switch_on_tab [] c = c
switch_on_tab (code ∷ codes) c =
    let rest = switch_on_tab codes c in
    if code == tab && not c.last_tab then switch_active c else rest

-- The second loop: is one of the codes TAB?
unfoldable pub note_tab : List ℕ → Bool → Bool
note_tab [] last = last
note_tab (code ∷ codes) last = let rest = note_tab codes false in if code == tab then true else rest

-- One round of `ConsoleCtrl::switch_loop`.
unfoldable pub switch_round : List ℕ → ConsoleCtrl → ConsoleCtrl
unfolding switch_on_tab note_tab
switch_round [] c = record c { last_tab = false }
switch_round (code ∷ codes) c =
    let c' = switch_on_tab (code ∷ codes) c in
    record c' { last_tab = note_tab (code ∷ codes) c.last_tab }

unfoldable pub switch_loop : List (List ℕ) → ConsoleCtrl → ConsoleCtrl
switch_loop [] c = c
switch_loop (codes ∷ rounds) c = switch_loop rounds (switch_round codes c)

-- The console that a round of `ConsoleCtrl::refresh_loop` copies to the screen.
unfoldable pub refreshed : ConsoleCtrl → ℕ
refreshed c = if not c.first.active then 1 else 0

-- The array has two elements, and nothing tests the index.
pub data Outcome {ℓ} (A : Type ℓ) : Type ℓ where
  done : A → Outcome A
  exit : Outcome A
  out_of_bounds : Outcome A

-- The memory of console `id`, once it is there.
unfoldable pub put_console : ℕ → (addr ds : ℕ) → ConsoleCtrl → Outcome (ℕ × ConsoleCtrl)
put_console id addr ds c =
    if id == 0
    then done (ds, record c { first = record { addr = addr; ds = ds; active = true } })
    else if id == 1
    then done (ds, record c { second = record { addr = addr; ds = ds; active = false } })
    else out_of_bounds

-- `ConsoleCtrl::get_ds`: every failure ends the program. `cap` is the capability that was allocated.
unfoldable pub get_ds : Grant → (cap id : ℕ) → ConsoleCtrl → Outcome (ℕ × ConsoleCtrl)
unfolding put_console
get_ds g cap id c = elim (granted g) [ none ↦ exit | some addr ↦ put_console id addr cap c ]
