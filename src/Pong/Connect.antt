-- ===== src/Pong/Connect.antt =====
-- How a paddle of pkg/rm_pong_client/pong_client.cc connects to the Pong server. What the calls answer is
-- an input; the error number for a server that does not exist is L4's, and a parameter.
use kpr.Base.Int.{ℤ, negsuc}
use kpr.Base.{
  ℕ, ◌-◌, ◌^◌, ◌≡◌, ◌≢◌, Bool, true, false, not, ◌&&◌, Option, none, some, List, [], ◌∷◌, ◌++◌,
  ◌==◌, if◌then◌else◌, arith, All,
}

-- A call's answer: is its tag an error, the number of the paddle, and the error in the thread's register.
pub record Attempt : Type 0 where
  pub has_error : Bool
  pub fp : ℕ
  pub error : ℕ

abbrev pub succeeds : Attempt → Bool
succeeds a = not a.has_error && not (a.fp == 0)

-- `Paddle::lifes`: what `run` prints every so often, from a call's tag and the word behind it.
unfoldable pub lifes : (has_error : Bool) → (word : ℤ) → ℤ
lifes has_error word = if has_error then negsuc 0 else word

module _ (not_existent : ℕ) where
  -- `Paddle::connect`, with the capability slot `pad_cap`; `none` while it still tries.
  unfoldable pub connect : (pad_cap : ℕ) → List Attempt → Option ℕ
  connect pad_cap [] = none
  connect pad_cap (a ∷ attempts) =
      let again = connect pad_cap attempts in
      if succeeds a then some pad_cap else if a.error == not_existent then again else some a.error

  -- `-1` as the 32 bits of an `int`, and the test with which `run` begins.
  abbrev pub minus_one : ℕ
  minus_one = 2 ^ 32 - 1

  unfoldable pub runs : (pad_cap : ℕ) → List Attempt → Option Bool
  runs pad_cap attempts = elim (connect pad_cap attempts) [
    | none ↦ none
    | some paddle ↦ some (not (paddle == minus_one))
  ]

  abbrev pub IsRetry : Attempt → Type 0
  IsRetry a = (succeeds a ≡ false) × (a.error ≡ not_existent)

  -- Where each attempt so far failed by the error of a missing server, and the next one succeeds or
  -- fails by another error, connect ends with that one: with the capability slot, or with that error.
  connect-append :
      (pad_cap : ℕ) (before : List Attempt) (a : Attempt) (after : List Attempt)
      → All IsRetry before
      → (succeeds a ≡ false → a.error ≢ not_existent)
      → connect pad_cap (before ++ a ∷ after) ≡ some (if succeeds a then pad_cap else a.error)
  unfolding connect
  connect-append pad_cap [] a after tried last = ground arith
  connect-append pad_cap (b ∷ before) a after (retry, tried) last =
      ground (arith, connect-append pad_cap before a after tried last)

  connect-ne_minus_one :
      (pad_cap r : ℕ) (attempts : List Attempt)
      → pad_cap ≢ minus_one
      → All (λ a. a.error ≢ minus_one) attempts
      → connect pad_cap attempts ≡ some r
      → r ≢ minus_one
  unfolding connect
  connect-ne_minus_one pad_cap r [] slot errors e = cc
  connect-ne_minus_one pad_cap r (a ∷ attempts) slot (here, errors) e =
      ground (arith, connect-ne_minus_one pad_cap r attempts slot errors)

  -- Where neither the slot nor an error is -1 as a 32-bit number, a paddle whose connect returns goes
  -- on to its loop, whatever connect returned.
  runs-true :
      (pad_cap r : ℕ) (attempts : List Attempt)
      → pad_cap ≢ minus_one
      → All (λ a. a.error ≢ minus_one) attempts
      → connect pad_cap attempts ≡ some r
      → runs pad_cap attempts ≡ some true
  unfolding runs
  runs-true pad_cap r attempts slot errors e =
      let differs = connect-ne_minus_one pad_cap r attempts slot errors e in
      rw (e, runs) (ground (arith, differs))
