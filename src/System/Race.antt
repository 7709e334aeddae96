-- ===== src/System/Race.antt =====
-- What the lack of a lock in the keyboard driver (pkg/rm_keyboard/server/src/keyboard.cc) does to the console's loop
-- (pkg/rm_consoleAlt1/server/src/consoleCtrl.cc): a round of the console with scan codes in the middle of the reply.
use kpr.Base.{
  ℕ, ◌≡◌, sym, ap, ◌∙◌, true, false, not, Option, none, some, List, [], ◌∷◌, ◌++◌, arith,
}
use kpr.Keyboard.Keys.{tab}
use kpr.Keyboard.Server.{loop, keycode, pressed}
use kpr.Keyboard.Held.{holds, held, intact}
use kpr.Keyboard.Invariant.{NoTwins}
use kpr.Keyboard.Client.{Stream, read_codes}
use kpr.Keyboard.Race.{dispatch_across, press-drops_oldest}
use kpr.Console.Ctrl.{ConsoleCtrl, switch_round}
use kpr.Console.Switch.{
  IsSplit, after_round, switch_round-after, after_round-IsSplit, after_round-turns,
}
use kpr.System.Tab.{System, on_reply, poll, polls, poll-after, polls-taps, taps, holds-reverse}
use mathlib.Core.List.{reverse}

holds-last : (k : ℕ) (xs : List ℕ) → holds k (xs ++ k ∷ []) ≡ true
holds-last k [] = ground arith
holds-last k (x ∷ xs) = ground (arith, holds-last k xs)

module _ (io : Stream) where
  -- The scan codes before a request, and the request, with the scan codes between the size and the keys.
  unfoldable pub poll_across : (bufs across : List ℕ) → System → Option System
  poll_across bufs across s = elim (loop intact bufs s.keys) [
    | none ↦ none
    | some keys ↦ elim (dispatch_across intact keycode across keys) [
      | none ↦ none
      | some (reply, left) ↦ some (record { keys = left; ctrl = on_reply io reply s.ctrl })
    ]
  ]

  -- A console that knows that TAB is down, and does not see it in the next reply, takes it for released.
  drops_tab :
      (buf k : ℕ) (xs : List ℕ) (c : ConsoleCtrl)
      → pressed buf ≡ some k
      → NoTwins (k ∷ (xs ++ tab ∷ []))
      → holds tab (k ∷ xs) ≡ false
      → poll_across [] (buf ∷ []) (record { keys = xs ++ tab ∷ []; ctrl = c })
        ≡ some (record { keys = k ∷ (xs ++ tab ∷ []); ctrl = after_round false c })
  unfolding poll_across loop
  drops_tab buf k xs c press fresh once =
      let (ws, sent, read) = press-drops_oldest io buf k tab xs press fresh in
      let seen : switch_round (read_codes io (io.of_words ws)) c ≡ after_round false c =
        ap (λ codes. switch_round codes c) read
        ∙ switch_round-after (reverse (k ∷ xs)) c
        ∙ ap (λ b. after_round b c) (holds-reverse tab (k ∷ xs) ∙ once) in
      rw (sent, poll_across)
        (ap (λ d. some (record { keys = k ∷ (xs ++ tab ∷ []); ctrl = d })) seen)

  -- With TAB down all the time the console that knows it shows the same.
  held_tab-keeps :
      (xs : List ℕ) (c : ConsoleCtrl)
      → IsSplit c
      → c.last_tab ≡ true
      → (s0 : System) × (polls io ([] ∷ [] ∷ []) (record { keys = xs ++ tab ∷ []; ctrl = c })
          ≡ some s0)
        × (s0.ctrl.first.active ≡ c.first.active)
  unfolding taps held
  held_tab-keeps xs c split last =
      let s : System = record { keys = xs ++ tab ∷ []; ctrl = c } in
      let (s0, went, shows) =
        polls-taps io ([] ∷ [] ∷ []) s split (last ∙ sym (holds-last tab xs)) in
      (s0, went, shows.1 ∙ ground (arith, holds-last tab xs))

  -- TAB is down, the console knows it, and it was pressed before all other keys that are down: two
  -- rounds of the console show the same console as before, but where one more key is pressed between
  -- the size and the keys of the first reply, they show the other, although TAB stays down.
  pub held_tab-switches :
      (buf k : ℕ) (xs : List ℕ) (c : ConsoleCtrl)
      → pressed buf ≡ some k
      → NoTwins (k ∷ (xs ++ tab ∷ []))
      → holds tab (k ∷ xs) ≡ false
      → IsSplit c
      → c.last_tab ≡ true
      → (s0 s1 s2 : System) × (polls io ([] ∷ [] ∷ []) (record { keys = xs ++ tab ∷ []; ctrl = c })
          ≡ some s0)
        × (s0.ctrl.first.active ≡ c.first.active)
        × (poll_across [] (buf ∷ []) (record { keys = xs ++ tab ∷ []; ctrl = c }) ≡ some s1)
        × (poll io [] s1 ≡ some s2)
        × (holds tab s1.keys ≡ true)
        × (holds tab s2.keys ≡ true)
        × IsSplit s2.ctrl
        × (s2.ctrl.first.active ≡ not c.first.active)
  unfolding held
  held_tab-switches buf k xs c press fresh once split last =
      let (s0, went, same) = held_tab-keeps xs c split last in
      let s1 : System = record { keys = k ∷ (xs ++ tab ∷ []); ctrl = after_round false c } in
      let (keys, ran, tells) = poll-after io [] s1 in
      let down : holds tab s1.keys ≡ true = ground (arith, holds-last tab xs) in
      let split1 = after_round-IsSplit false c split in
      (
        s0,
        s1,
        record { keys = keys; ctrl = after_round (holds tab s1.keys) s1.ctrl },
        went,
        same,
        drops_tab buf k xs c press fresh once,
        ran,
        down,
        tells ∙ down,
        after_round-IsSplit (holds tab s1.keys) s1.ctrl split1,
        after_round-turns (holds tab s1.keys) s1.ctrl split1 ∙ ground (arith, down),
      )
