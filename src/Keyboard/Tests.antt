-- ===== src/Keyboard/Tests.antt =====
-- Runs of the keyboard driver and its clients.
use kpr.Base.{ℕ, ◌≡◌, refl, some, List, [], ◌∷◌}
use kpr.Keyboard.Keys.{down_1, tab}
use kpr.Keyboard.Server.{pressed, push_pressed, releases, erase_released, unique, round, loop}
use kpr.Keyboard.Held.{holds, intact, held, loop-held}
use kpr.Keyboard.Invariant.{IsKeyList, loop-IsKeyList}

-- Two keys are pressed, and one is released.
abbrev typed : List ℕ
typed = 30 ∷ 15 ∷ 158 ∷ []

typed_leaves : loop intact typed [] ≡ some (tab ∷ [])
unfolding loop round push_pressed pressed erase_released releases unique
typed_leaves = refl

-- Keys that repeat in turn stay in the list as often: `unique` takes only neighbours.
doubles_stay : loop intact (30 ∷ 15 ∷ 30 ∷ []) [] ≡ some (down_1 ∷ tab ∷ down_1 ∷ [])
unfolding loop round push_pressed pressed erase_released releases unique
doubles_stay = refl

loop-held_example :
    (left : List ℕ) × (loop intact typed [] ≡ some left)
    × (holds tab left ≡ held tab typed (holds tab []))
loop-held_example = loop-held typed [] tab

loop-IsKeyList_example : (left : List ℕ) × (loop intact typed [] ≡ some left) × IsKeyList left
loop-IsKeyList_example = loop-IsKeyList typed [] (record { keys = tt; no_twins = tt })
