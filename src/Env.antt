-- ===== src/Env.antt =====
-- What the L4Re environment answers when a server asks for memory: the capability slot of
-- `cap_alloc.alloc`, the error of `mem_alloc()->alloc`, the error of `rm()->attach` and the address
-- that `attach` chose. The environment is not part of the repository, so the answers are inputs of
-- the models: every error is a number, and 0 is success.
use kpr.Base.{ℕ, Bool, ◌==◌, if◌then◌else◌, Option, none, some}

pub record Grant : Type 0 where
  pub cap_is_valid : Bool
  pub alloc_err : ℕ
  pub attach_err : ℕ
  pub addr : ℕ

-- The three calls in a row, as every server makes them: the address, unless one call fails.
unfoldable pub granted : Grant → Option ℕ
granted g =
    if g.cap_is_valid
    then (if g.alloc_err == 0 then (if g.attach_err == 0 then some g.addr else none) else none)
    else none
