-- ===== src/Pong/ThreadTests.antt =====
-- Schedules of the accesses of the Pong client's threads.
use kpr.Base.{◌≡◌, List, ◌∷◌, arith}
use kpr.Base.Int.{ℤ, negsuc}
use kpr.Pong.Moves.{IsInt}
use kpr.Pong.Threads.{play, new_threads}
use kpr.Pong.Drift.{burst, rounds, paddle-drifts}

paddle-drifts_example :
    ((play (burst (rounds 40)) new_threads).p0.position ≡ negsuc 1229)
    × IsInt (play (burst (rounds 40)) new_threads).p0.position
    × (sent : List ℤ) × ((play (burst (rounds 40)) new_threads).p0.sent ≡ negsuc 1229 ∷ sent)
paddle-drifts_example = paddle-drifts 40 (omega arith)
