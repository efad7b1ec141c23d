-- ===== src/Yuv/Tests.antt =====
-- A run of the worker for frames, and the theorem at it.
use scweb_vpn.Common.{ok, ◌≡◌, refl, ◌+◌, none, some, List, [], ◌∷◌}
use scweb_vpn.Yuv.{Frame, FrameEvent, loads, receives, runs, new_worker, worker_run}
use scweb_vpn.Yuv.Buffers.{IsFitted, worker_run-IsFitted}

abbrev small : Frame
small = record { y_bytes = 16; u_bytes = 4; v_bytes = 4; width = 4; height = 4 }

abbrev large : Frame
large = record { y_bytes = 64; u_bytes = 16; v_bytes = 16; width = 8; height = 8 }

abbrev turn : FrameEvent
turn = runs (λ n. n + 1000) (λ n. n + 2000) (λ n. n + 3000) (λ n. n + 4000) 5

-- The first frame comes before the module, and is lost.
abbrev events : List FrameEvent
events =
    receives small
    ∷ turn
    ∷ loads (ok tt)
    ∷ receives small
    ∷ turn
    ∷ turn
    ∷ receives small
    ∷ turn
    ∷ receives large
    ∷ turn
    ∷ []

blocks_of_events : (worker_run events new_worker).converter.y ≡ record {
  pointer = some 1064;
  size = some 64;
  allocated = 1016 ∷ 1064 ∷ [];
  freed = 1016 ∷ [];
}
unfolding worker_run
blocks_of_events = refl

answers_of_events :
    (worker_run events new_worker).posted ≡ none ∷ some small ∷ some small ∷ some large ∷ []
unfolding worker_run
answers_of_events = refl

worker_run-IsFitted_example : IsFitted (worker_run events new_worker)
worker_run-IsFitted_example = worker_run-IsFitted events
