-- ===== src/Desktop/Moves.antt =====
-- The pointer moves of the remote desktop page.
use scweb_vpn.Common.{
  ℕ, ◌≤◌, ◌≡◌, sym, ◌∙◌, append-nil, append_assoc, arith, true, false, Option, none, some, List, [],
  ◌∷◌, ◌++◌,
}
use scweb_vpn.Desktop.{
  Pointer, new_pointer, on_move, on_frame, PointerEvent, moves, next_frame, pointer_run,
}

-- Of the moves between two frames the last one, if there is a connection at the second.
module _ {A : Type 0} where
  abbrev to_list : Option A → List A
  to_list none = []
  to_list (some e) = e ∷ []

  abbrev pub last_of_frames : Option A → List (PointerEvent A) → List A
  last_of_frames waits [] = []
  last_of_frames waits (moves e ∷ es) = last_of_frames (some e) es
  last_of_frames waits (next_frame true ∷ es) = to_list waits ++ last_of_frames none es
  last_of_frames waits (next_frame false ∷ es) = last_of_frames none es

  -- A frame is asked for exactly when a move is pending, and only one at a time.
  abbrev frames_of : Option A → ℕ
  frames_of none = 0
  frames_of (some e) = 1

  abbrev at : Option A → List A → Pointer A
  at waits sent = record { pending = waits; frames = frames_of waits; sent = sent }

  run_at :
      (waits : Option A) (es : List (PointerEvent A)) (sent : List A)
      → ((pointer_run es (at waits sent)).sent ≡ sent ++ last_of_frames waits es)
        × ((pointer_run es (at waits sent)).frames ≤ 1)
  unfolding pointer_run on_move on_frame
  run_at none [] sent = (sym (append-nil sent), omega arith)
  run_at (some e) [] sent = (sym (append-nil sent), omega arith)
  run_at none (moves e ∷ es) sent = run_at (some e) es sent
  run_at (some d) (moves e ∷ es) sent = run_at (some e) es sent
  run_at none (next_frame false ∷ es) sent = run_at none es sent
  run_at none (next_frame true ∷ es) sent = run_at none es sent
  run_at (some d) (next_frame false ∷ es) sent = run_at none es sent
  run_at (some d) (next_frame true ∷ es) sent =
      let (same, few) = run_at none es (sent ++ d ∷ []) in
      (same ∙ append_assoc sent (d ∷ []) _, few)

  -- Of the moves between two frames the last is sent at the next frame, if there is a connection then,
  -- and no other is sent; never more than one frame is asked for at a time.
  pub pointer_run-last_of_frames :
      (es : List (PointerEvent A))
      → ((pointer_run es new_pointer).sent ≡ last_of_frames none es)
        × ((pointer_run es new_pointer).frames ≤ 1)
  pointer_run-last_of_frames es = run_at none es []
