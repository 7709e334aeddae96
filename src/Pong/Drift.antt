-- ===== src/Pong/Drift.antt =====
-- What the lack of a lock does to the paddles of pkg/rm_pong_client/pong_client.cc.
use kpr.Base.{
  ℕ, zero, suc, ◌+◌, ◌*◌, ◌^◌, ◌<◌, ◌≤◌, ◌≡◌, refl, sym, subst, ap, ◌∙◌, List, [], ◌∷◌, arith,
}
use kpr.Base.Int.{ℤ, pos, negsuc, ◌+ℤ◌, ◌-ℤ◌}
use kpr.Keyboard.Keys.{up_1}
use kpr.Pong.Paddle.{Paddle, speed, begin, send, tick}
use kpr.Pong.Moves.{IsInt}
use kpr.Pong.Threads.{
  PaddleAt, sending, low_test, low_write, high_test, KeyAt, between, moving_0, Threads, new_threads,
  place, paddle_turn, read_key, Turn, kb_turn, run_0, turn, play,
}

-- One round of the first paddle's thread, and one code: the position is read for the step, then the thread
-- clamps it, and then the step is written.
abbrev pub lost_clamping : List Turn → List Turn
lost_clamping rest = kb_turn up_1 ∷ run_0 ∷ run_0 ∷ kb_turn up_1 ∷ run_0 ∷ run_0 ∷ rest

unfoldable pub rounds : ℕ → List Turn
rounds zero = []
rounds (suc k) = lost_clamping (rounds k)

-- The paddle stands below the field, before its thread tests for that.
abbrev pub outside : ℕ → Threads → Threads
outside m t = record t { p0 = record (t.p0) { position = negsuc m }; at_0 = low_test; kb = between }

module _ (m : ℕ) (p : Paddle) where
  pub tests_low : paddle_turn low_test (place (negsuc m) p) ≡ (low_write, place (negsuc m) p)
  unfolding paddle_turn
  tests_low = ground arith

  writes_low : paddle_turn low_write (place (negsuc m) p) ≡ (high_test, place (pos 0) p)
  unfolding paddle_turn
  writes_low = refl

  tests_high : paddle_turn high_test (place (negsuc m) p) ≡ (sending, place (negsuc m) p)
  unfolding paddle_turn
  tests_high = ground arith

  sends : paddle_turn sending (place (negsuc m) p) ≡ (low_test, send (place (negsuc m) p))
  unfolding paddle_turn
  sends = refl

step_up : (m : ℕ) → negsuc m -ℤ pos speed ≡ negsuc (m + speed)
unfolding ◌-ℤ◌
step_up m = ground arith

-- One turn of the first paddle's thread.
run_first :
    (t : Threads) (at at' : PaddleAt) (p p' : Paddle) (kb : KeyAt)
    → paddle_turn at p ≡ (at', p')
    → turn run_0 (record t { p0 = p; at_0 = at; kb = kb })
      ≡ record t { p0 = p'; at_0 = at'; kb = kb }
unfolding turn
run_first t at at' p p' kb e =
    ap (λ (q : PaddleAt × Paddle). record t { p0 = q.1; at_0 = q.0; kb = kb }) e

read_up :
    (m : ℕ) (t : Threads)
    → turn (kb_turn up_1) (outside m t)
      ≡ record t { p0 = place (negsuc m) t.p0; at_0 = low_test; kb = moving_0 (negsuc (m + speed)) }
unfolding turn read_key
read_up m t =
    ap (λ x. record t { p0 = place (negsuc m) t.p0; at_0 = low_test; kb = moving_0 x }) (step_up m)

one_round :
    (m : ℕ) (t : Threads) (rest : List Turn)
    → play (lost_clamping rest) (outside m t)
      ≡ play rest
          (record t { p0 = send (place (negsuc (m + speed)) t.p0); at_0 = low_test; kb = between })
unfolding play turn
one_round m t rest =
    let target = negsuc (m + speed) in
    ap (play (run_0 ∷ run_0 ∷ kb_turn up_1 ∷ run_0 ∷ run_0 ∷ rest)) (read_up m t)
    ∙ ap (play (run_0 ∷ kb_turn up_1 ∷ run_0 ∷ run_0 ∷ rest)) (
        run_first t low_test low_write (place (negsuc m) t.p0) (place (negsuc m) t.p0)
          (moving_0 target) (tests_low m t.p0))
    ∙ ap (play (kb_turn up_1 ∷ run_0 ∷ run_0 ∷ rest)) (
        run_first t low_write high_test (place (negsuc m) t.p0) (place (pos 0) t.p0)
          (moving_0 target) (writes_low m t.p0))
    ∙ ap (play (run_0 ∷ rest)) (
        run_first t high_test sending (place target t.p0) (place target t.p0) between
          (tests_high (m + speed) t.p0))
    ∙ ap (play rest) (
        run_first t sending low_test (place target t.p0) (send (place target t.p0)) between
          (sends (m + speed) t.p0))

-- After any number of such rounds the paddle is as many steps further out, and has sent that position.
rounds-outside :
    (k m : ℕ) (t : Threads) (before : List ℤ)
    → t.p0.sent ≡ negsuc m ∷ before
    → (t' : Threads) × (sent : List ℤ) × (play (rounds k) (outside m t)
        ≡ outside (m + speed * k) t')
      × (t'.p0.sent ≡ negsuc (m + speed * k) ∷ sent)
unfolding rounds play send
rounds-outside zero m t before last =
    let same : m ≡ m + speed * 0 = omega arith in
    (t, before, ap (λ n. outside n t) same, last ∙ ap (λ n. negsuc n ∷ before) same)
rounds-outside (suc k) m t before last =
    let far = m + speed in
    let next : Threads = record t { p0 = send (place (negsuc far) t.p0) } in
    let (t', sent, ran, latest) = rounds-outside k far next t.p0.sent refl in
    let same : far + speed * k ≡ m + speed * suc k = omega arith in
    (
      t',
      sent,
      one_round m t (rounds k) ∙ ran ∙ ap (λ n. outside n t') same,
      latest ∙ ap (λ n. negsuc n ∷ sent) same,
    )

-- The paddle begins, and its key is pressed for seven replies before it sends its position.
abbrev pub burst : List Turn → List Turn
burst rest =
    run_0
    ∷ kb_turn up_1
    ∷ kb_turn up_1
    ∷ kb_turn up_1
    ∷ kb_turn up_1
    ∷ kb_turn up_1
    ∷ kb_turn up_1
    ∷ kb_turn up_1
    ∷ kb_turn up_1
    ∷ kb_turn up_1
    ∷ kb_turn up_1
    ∷ kb_turn up_1
    ∷ kb_turn up_1
    ∷ kb_turn up_1
    ∷ kb_turn up_1
    ∷ run_0
    ∷ rest

burst-outside :
    (rest : List Turn)
    → (t : Threads) × (play (burst rest) new_threads ≡ play rest (outside 29 t))
      × (t.p0.sent ≡ negsuc 29 ∷ [])
unfolding play turn paddle_turn begin read_key send ◌-ℤ◌ tick
burst-outside rest = (
  record new_threads {
    p0 = record { position = negsuc 29; counter = 1; sent = negsuc 29 ∷ [] };
    at_0 = low_test;
  },
  refl,
  refl,
)

int : (m : ℕ) → m < 2 ^ 31 → IsInt (negsuc m)
unfolding ◌+ℤ◌
int m small = ground arith

-- For any number of rounds, as long as that many steps below -30 are still an int, there is a schedule
-- with fourteen turns of the keyboard thread, which are seven codes, before the first position is sent
-- and then one code for each round of the first paddle's thread, in which the paddle stands in the end
-- as many steps below -30, within an int, and that is the position that it sent last: each step is
-- read before and written after the clamping.
pub paddle-drifts :
    (k : ℕ)
    → 30 + speed * k ≤ 2 ^ 31
    → ((play (burst (rounds k)) new_threads).p0.position ≡ negsuc (29 + speed * k))
      × IsInt (play (burst (rounds k)) new_threads).p0.position
      × (sent : List ℤ) × ((play (burst (rounds k)) new_threads).p0.sent
          ≡ negsuc (29 + speed * k) ∷ sent)
paddle-drifts k small =
    let (t, ran, first) = burst-outside (rounds k) in
    let (t', sent, went, last) = rounds-outside k 29 t [] first in
    let all : play (burst (rounds k)) new_threads ≡ outside (29 + speed * k) t' = ran ∙ went in
    let at : (play (burst (rounds k)) new_threads).p0.position ≡ negsuc (29 + speed * k) =
      ap (λ (u : Threads). u.p0.position) all in
    (
      at,
      subst IsInt (sym at) (int (29 + speed * k) (omega arith)),
      sent,
      ap (λ (u : Threads). u.p0.sent) all ∙ last,
    )
