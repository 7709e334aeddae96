-- ===== src/System/Tab.antt =====
-- The keyboard driver (pkg/rm_keyboard/server/src/keyboard.cc) and the console's loop
-- (pkg/rm_consoleAlt1/server/src/consoleCtrl.cc) together: between two requests of the console any scan
-- codes come, and each reply goes through the message stream.
use kpr.Base.{
  ℕ, ◌≡◌, refl, sym, subst, ◌∙◌, ap, Bool, not, ◌&&◌, ◌||◌, Option, none, some, List, [], ◌∷◌,
  if◌then◌else◌, arith,
}
use kpr.Keyboard.Keys.{tab}
use kpr.Keyboard.Server.{loop, dispatch, keycode, words, bad_protocol, Reply}
use kpr.Keyboard.Held.{holds, held, intact, loop-held}
use kpr.Keyboard.Client.{Stream, read_codes, received-reverse}
use kpr.Console.Ctrl.{refreshed, ConsoleCtrl, switch_round}
use kpr.Console.Switch.{
  IsSplit, Shows, after_round, switch_round-after, after_round-IsSplit, after_round-turns,
}
use mathlib.Core.List.{reverse, reverse_aux}

pub record System : Type 0 where
  pub keys : List ℕ
  pub ctrl : ConsoleCtrl

holds-reverse_aux :
    (k : ℕ) (xs ys : List ℕ) → holds k (reverse_aux xs ys) ≡ (holds k xs || holds k ys)
holds-reverse_aux k [] ys = refl
holds-reverse_aux k (x ∷ xs) ys = ground (arith, holds-reverse_aux k xs (x ∷ ys))

pub holds-reverse : (k : ℕ) (xs : List ℕ) → holds k (reverse xs) ≡ holds k xs
holds-reverse k xs = ground (arith, holds-reverse_aux k xs [])

-- The first console's flag by the scan codes alone: it turns at each request at which TAB is down and
-- was not down at the one before.
unfoldable pub taps : (down : Bool) → List (List ℕ) → (shown : Bool) → Bool
taps down [] shown = shown
taps down (bufs ∷ rounds) shown =
    let now = held tab bufs down in taps now rounds (if now && not down then not shown else shown)

module _ (io : Stream) where
  -- What the console does with a reply: it does not look at the label, and a refusal has no words.
  abbrev pub on_reply : Reply → ConsoleCtrl → ConsoleCtrl
  on_reply (words ws) c = switch_round (read_codes io (io.of_words ws)) c
  on_reply bad_protocol c = switch_round (read_codes io (io.of_words [])) c

  -- The scan codes that come before a request, and the request.
  unfoldable pub poll : List ℕ → System → Option System
  poll bufs s = elim (loop intact bufs s.keys) [
    | none ↦ none
    | some keys ↦ some (record { keys = keys; ctrl = on_reply (dispatch keycode keys) s.ctrl })
  ]

  unfoldable pub polls : List (List ℕ) → System → Option System
  polls [] s = some s
  polls (bufs ∷ rounds) s = elim (poll bufs s) [ none ↦ none | some s' ↦ polls rounds s' ]

  pub poll-after :
      (bufs : List ℕ) (s : System)
      → (keys : List ℕ) × (poll bufs s
          ≡ some (record {
            keys = keys;
            ctrl = after_round (held tab bufs (holds tab s.keys)) s.ctrl;
          }))
        × (holds tab keys ≡ held tab bufs (holds tab s.keys))
  unfolding poll
  poll-after bufs s =
      let (keys, ran, tells) = loop-held bufs s.keys tab in
      let (ws, sent, read) = received-reverse io keys in
      let now = held tab bufs (holds tab s.keys) in
      let codes : switch_round (read_codes io (io.of_words ws)) s.ctrl ≡ after_round now s.ctrl =
        ap (λ codes. switch_round codes s.ctrl) read
        ∙ switch_round-after (reverse keys) s.ctrl
        ∙ ap (λ b. after_round b s.ctrl) (holds-reverse tab keys ∙ tells) in
      (keys, rw (ran, poll, sent, codes), tells)

  -- With exactly one active console, and the console's flag for TAB as the driver's list says, any
  -- scan codes between any requests of the console's loop leave exactly one active, which has changed
  -- as often as TAB was down at a request and not at the one before, by the scan codes alone, and the
  -- refresh loop copies the active one; the iterator's increment goes on behind the erased element,
  -- and the stream gives words back as they were put in.
  pub polls-taps :
      (rounds : List (List ℕ)) (s : System)
      → IsSplit s.ctrl
      → s.ctrl.last_tab ≡ holds tab s.keys
      → (s' : System) × (polls rounds s ≡ some s')
        × Shows s'.ctrl (taps (holds tab s.keys) rounds s.ctrl.first.active)
  unfolding polls taps refreshed
  polls-taps [] s split last = (s, refl, (split, refl, ground arith))
  polls-taps (bufs ∷ rounds) s split last =
      let now = held tab bufs (holds tab s.keys) in
      let (keys, ran, tells) = poll-after bufs s in
      let next : System = record { keys = keys; ctrl = after_round now s.ctrl } in
      let turned : next.ctrl.first.active ≡ (
          if now && not (holds tab s.keys) then not s.ctrl.first.active else s.ctrl.first.active) =
        after_round-turns now s.ctrl split
        ∙ ap (λ d. if now && not d then not s.ctrl.first.active else s.ctrl.first.active) last in
      let (s', went, shows) =
        polls-taps rounds next (after_round-IsSplit now s.ctrl split) (sym tells) in
      (
        s',
        rw (ran, polls) went,
        subst (λ b. Shows s'.ctrl (taps now rounds b)) turned
            (subst (λ b. Shows s'.ctrl (taps b rounds next.ctrl.first.active)) tells shows),
      )
