-- ===== src/Console/Switch.antt =====
-- Which console is shown, after any rounds of the loops of
-- pkg/rm_consoleAlt1/server/src/consoleCtrl.cc.
use kpr.Base.{
  some, subst, sym, ℕ, ◌≡◌, refl, ap, Bool, true, false, not, ◌&&◌, List, [], ◌∷◌, ◌==◌,
  if◌then◌else◌, arith,
}
use kpr.Env.{Grant, granted}
use kpr.Keyboard.Keys.{tab}
use kpr.Keyboard.Held.{holds}
use kpr.Console.Ctrl.{
  out_of_bounds, ConsoleCtrl, switch_active, switch_on_tab, note_tab, switch_round, switch_loop,
  refreshed, get_ds, done,
}

-- The first loop goes by whether TAB is among the codes.
switch_on_tab-holds :
    (codes : List ℕ) (c : ConsoleCtrl)
    → switch_on_tab codes c ≡ (if holds tab codes && not c.last_tab then switch_active c else c)
unfolding switch_on_tab
switch_on_tab-holds [] c = refl
switch_on_tab-holds (code ∷ codes) c = ground (arith, switch_on_tab-holds codes c)

note_tab-holds : (codes : List ℕ) → note_tab codes false ≡ holds tab codes
unfolding note_tab
note_tab-holds [] = refl
note_tab-holds (code ∷ codes) = ground (arith, note_tab-holds codes)

-- One round, by whether TAB is down now and was down before.
abbrev pub after_round : Bool → ConsoleCtrl → ConsoleCtrl
after_round now c =
    let c' = if now && not c.last_tab then switch_active c else c in record c' { last_tab = now }

pub switch_round-after :
    (codes : List ℕ) (c : ConsoleCtrl) → switch_round codes c ≡ after_round (holds tab codes) c
unfolding switch_round
switch_round-after [] c = refl
switch_round-after (code ∷ codes) c =
    ground (arith, switch_on_tab-holds (code ∷ codes) c, note_tab-holds codes)

-- Exactly one console is active; none is.
abbrev pub IsSplit : ConsoleCtrl → Type 0
IsSplit c = c.second.active ≡ not c.first.active

abbrev pub IsDark : ConsoleCtrl → Type 0
IsDark c = (c.first.active ≡ false) × (c.second.active ≡ false)

-- The first console's flag after some rounds, as a key tap would have it: it turns at each round in
-- which TAB is down and was not down in the round before.
unfoldable pub turns : Bool → List (List ℕ) → Bool → Bool
turns last [] shown = shown
turns last (codes ∷ rounds) shown =
    turns (holds tab codes) rounds (if holds tab codes && not last then not shown else shown)

pub after_round-IsSplit : (now : Bool) (c : ConsoleCtrl) → IsSplit c → IsSplit (after_round now c)
unfolding switch_active
after_round-IsSplit now c h = ground arith

pub after_round-turns :
    (now : Bool) (c : ConsoleCtrl)
    → IsSplit c
    → (after_round now c).first.active
      ≡ (if now && not c.last_tab then not c.first.active else c.first.active)
unfolding switch_active
after_round-turns now c h = ground arith

switch_loop-cons :
    (codes : List ℕ) (rounds : List (List ℕ)) (c : ConsoleCtrl)
    → switch_loop (codes ∷ rounds) c ≡ switch_loop rounds (after_round (holds tab codes) c)
unfolding switch_loop
switch_loop-cons codes rounds c = ap (switch_loop rounds) (switch_round-after codes c)

-- Exactly one console is active, the first if `b`, and the refresh loop copies the active one.
abbrev pub Shows : ConsoleCtrl → Bool → Type 0
Shows c b = IsSplit c × (c.first.active ≡ b) × (refreshed c ≡ (if b then 0 else 1))

-- From a state with exactly one active console, any rounds leave exactly one active, which has changed
-- as often as TAB went down, and the refresh loop copies the active one.
switch_loop-turns :
    (rounds : List (List ℕ)) (c : ConsoleCtrl)
    → IsSplit c
    → Shows (switch_loop rounds c) (turns c.last_tab rounds c.first.active)
unfolding switch_loop turns refreshed
switch_loop-turns [] c h = (h, refl, ground arith)
switch_loop-turns (codes ∷ rounds) c h =
    let now = holds tab codes in
    let c' = after_round now c in
    let ih = switch_loop-turns rounds c' (after_round-IsSplit now c h) in
    subst (λ b. Shows (switch_loop (codes ∷ rounds) c) (turns now rounds b))
      (after_round-turns now c h)
      (subst (λ d. Shows d (turns now rounds c'.first.active))
        (sym (switch_loop-cons codes rounds c)) ih)

after_round-IsDark : (now : Bool) (c : ConsoleCtrl) → IsDark c → IsDark (after_round now c)
unfolding switch_active
after_round-IsDark now c h = ground arith

-- Where no console is active, none is after any rounds, and the refresh loop copies the second.
switch_loop-IsDark :
    (rounds : List (List ℕ)) (c : ConsoleCtrl)
    → IsDark c
    → IsDark (switch_loop rounds c) × (refreshed (switch_loop rounds c) ≡ 1)
unfolding switch_loop refreshed
switch_loop-IsDark [] c h = (h, ground arith)
switch_loop-IsDark (codes ∷ rounds) c h =
    let now = holds tab codes in
    subst (λ d. IsDark d × (refreshed d ≡ 1)) (sym (switch_loop-cons codes rounds c))
      (switch_loop-IsDark rounds (after_round now c) (after_round-IsDark now c h))

-- What `get_ds` does with memory that is granted: the first console becomes active and the second
-- inactive, each with its memory, and the other console is left alone; a third index is written out
-- of bounds.
pub get_ds_lem :
    (g : Grant) (cap addr id : ℕ) (c : ConsoleCtrl)
    → granted g ≡ some addr
    → get_ds g cap id c ≡ (
        if id == 0
        then done (cap, record c { first = record { addr = addr; ds = cap; active = true } })
        else (if id == 1
            then done (cap, record c { second = record { addr = addr; ds = cap; active = false } })
            else out_of_bounds))
unfolding get_ds
get_ds_lem g cap addr id c e = rw (e, get_ds)

-- Where memory is granted, and exactly one console is active and it is the second, making the second
-- console leaves no console active, after any rounds that follow.
pub second_console-IsDark :
    (g : Grant) (cap addr : ℕ) (rounds : List (List ℕ)) (c : ConsoleCtrl)
    → granted g ≡ some addr
    → IsSplit c
    → c.second.active ≡ true
    → (c' : ConsoleCtrl) × (get_ds g cap 1 c ≡ done (cap, c')) × IsDark (switch_loop rounds c')
second_console-IsDark g cap addr rounds c e one on =
    let c' = record c { second = record { addr = addr; ds = cap; active = false } } in
    (c', get_ds_lem g cap addr 1 c e, (switch_loop-IsDark rounds c' (ground arith, refl)).0)
