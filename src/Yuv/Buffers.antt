-- ===== src/Yuv/Buffers.antt =====
-- The blocks of the conversion's buffers, and their sizes.
use scweb_vpn.Common.{
  ok, err, arith, ℕ, suc, ◌+◌, ◌*◌, ◌≤◌, ◌≡◌, refl, ap, Bool, true, false, Option, none, some, List,
  [], ◌∷◌, ◌++◌, ==_iff, if◌then◌else◌, ltb,
}
use scweb_vpn.Yuv.{
  Buffer, new_buffer, same_size, to_free, reallocate, reserve, Frame, Converter, measured,
  i420_to_argb, FrameWorker, new_worker, FrameEvent, loads, receives, runs, post, run_once,
  worker_step, worker_run,
}

-- Of the blocks that were allocated, in their order, all are freed but the one in use.
pub record IsTight (b : Buffer) : Type 0 where
  pub blocks : b.allocated ≡ b.freed ++ to_free b.pointer

reallocate-IsTight : (p n : ℕ) (b : Buffer) → IsTight b → IsTight (reallocate p n b)
reallocate-IsTight p n b t = record { blocks = ap (λ l. l ++ to_free (some p)) t.blocks }

reserve-IsTight : (malloc : ℕ → ℕ) (n : ℕ) (b : Buffer) → IsTight b → IsTight (reserve malloc n b)
unfolding reserve
reserve-IsTight malloc n b t = by_test (same_size b.size n)
  where
    by_test : (same : Bool) → IsTight (if same then b else reallocate (malloc n) n b)
    by_test true = t
    by_test false = reallocate-IsTight (malloc n) n b t

same_size_sound : (s : Option ℕ) (n : ℕ) → same_size s n ≡ true → s ≡ some n
same_size_sound none n h = absurd (cc h)
same_size_sound (some m) n h = ap some ((==_iff m n).0 h)

size-reserve : (malloc : ℕ → ℕ) (n : ℕ) (b : Buffer) → (reserve malloc n b).size ≡ some n
unfolding reserve
size-reserve malloc n b = by_test (same_size b.size n) refl
  where
    by_test :
        (same : Bool)
        → same_size b.size n ≡ same
        → (if same then b else reallocate (malloc n) n b).size ≡ some n
    by_test true is = same_size_sound b.size n is
    by_test false is = refl

-- The last frame that was converted, of the answers in their order.
abbrev later_frame : Option Frame → Option Frame → Option Frame
later_frame none f = f
later_frame (some g) f = some g

abbrev pub last_frame : List (Option Frame) → Option Frame
last_frame [] = none
last_frame (f ∷ fs) = later_frame (last_frame fs) f

later_frame-none : (f : Option Frame) → later_frame f none ≡ f
later_frame-none none = refl
later_frame-none (some f) = refl

last_frame-answered :
    (fs : List (Option Frame)) (f : Frame) → last_frame (fs ++ some f ∷ []) ≡ some f
last_frame-answered [] f = refl
last_frame-answered (g ∷ fs) f = ap (λ l. later_frame l g) (last_frame-answered fs f)

last_frame-unanswered : (fs : List (Option Frame)) → last_frame (fs ++ none ∷ []) ≡ last_frame fs
last_frame-unanswered [] = refl
last_frame-unanswered (g ∷ fs) = ap (λ l. later_frame l g) (last_frame-unanswered fs)

-- The buffers have the sizes of that frame.
abbrev pub HasSizes : Option Frame → Converter → Type 0
HasSizes none c = Unit {0}
HasSizes (some f) c =
    (c.y.size ≡ some f.y_bytes)
    × (c.u.size ≡ some f.u_bytes)
    × (c.v.size ≡ some f.v_bytes)
    × (c.out.size ≡ some (f.width * f.height * 4))

pub record IsFitted (w : FrameWorker) : Type 0 where
  pub y : IsTight w.converter.y
  pub u : IsTight w.converter.u
  pub v : IsTight w.converter.v
  pub out : IsTight w.converter.out
  pub sizes : HasSizes (last_frame w.posted) w.converter
  pub measures : w.converter.frames ≤ 30

-- A measurement changes no buffer and ends after thirty-one frames.
measured_frames : (spent : ℕ) (c : Converter) → (measured spent c).frames ≤ 30
measured_frames spent c = by_test (ltb 30 (suc c.frames)) refl
  where
    by_test :
        (ends : Bool)
        → ltb 30 (suc c.frames) ≡ ends
        → (if ends
            then record c { frames = 0; time = 0 }
            else record c { frames = suc c.frames; time = c.time + spent }).frames
          ≤ 30
    by_test true is = omega arith
    by_test false is = ground arith

measured_buffers :
    (P : Buffer → Buffer → Buffer → Buffer → Type 0) (spent : ℕ) (c : Converter)
    → P c.y c.u c.v c.out
    → P (measured spent c).y (measured spent c).u (measured spent c).v (measured spent c).out
measured_buffers P spent c p = by_test (ltb 30 (suc c.frames))
  where
    by_test :
        (ends : Bool)
        → (let d =
              if ends
              then record c { frames = 0; time = 0 }
              else record c { frames = suc c.frames; time = c.time + spent } in
            P d.y d.u d.v d.out)
    by_test true = p
    by_test false = p

-- What a conversion of the frame `f` makes of the buffers.
abbrev Converted : Frame → Buffer → Buffer → Buffer → Buffer → Type 0
Converted f y u v out =
    (IsTight y × IsTight u × IsTight v × IsTight out)
    × ((y.size ≡ some f.y_bytes)
        × (u.size ≡ some f.u_bytes)
        × (v.size ≡ some f.v_bytes)
        × (out.size ≡ some (f.width * f.height * 4)))

i420_to_argb-Converted :
    (my mu mv mo : ℕ → ℕ) (spent : ℕ) (f : Frame) (w : FrameWorker)
    → IsFitted w
    → (let c = i420_to_argb my mu mv mo spent f w.converter in
        Converted f c.y c.u c.v c.out × (c.frames ≤ 30))
unfolding i420_to_argb
i420_to_argb-Converted my mu mv mo spent f w t =
    let c = w.converter in
    (
      measured_buffers (Converted f) spent _ (
        (
          reserve-IsTight my f.y_bytes c.y t.y,
          reserve-IsTight mu f.u_bytes c.u t.u,
          reserve-IsTight mv f.v_bytes c.v t.v,
          reserve-IsTight mo (f.width * f.height * 4) c.out t.out,
        ),
        (
          size-reserve my f.y_bytes c.y,
          size-reserve mu f.u_bytes c.u,
          size-reserve mv f.v_bytes c.v,
          size-reserve mo (f.width * f.height * 4) c.out,
        ),
      ),
      measured_frames spent _,
    )

run_once-IsFitted :
    (current : Option Frame) (my mu mv mo : ℕ → ℕ) (spent : ℕ) (w : FrameWorker)
    → IsFitted w
    → IsFitted (run_once current (i420_to_argb my mu mv mo spent) w)
unfolding run_once
run_once-IsFitted none my mu mv mo spent w t = t
run_once-IsFitted (some f) my mu mv mo spent w t = by_ready w.is_ready
  where
    by_ready : (ready : Bool) → IsFitted (post ready (i420_to_argb my mu mv mo spent f) f w)
    by_ready true =
        let (c, few) = i420_to_argb-Converted my mu mv mo spent f w t in
        record {
          y = c.0.0;
          u = c.0.1;
          v = c.0.2;
          out = c.0.3;
          sizes = rw (last_frame-answered w.posted f) c.1;
          measures = few;
        }
    by_ready false = record {
      y = t.y;
      u = t.u;
      v = t.v;
      out = t.out;
      sizes = rw (last_frame-unanswered w.posted) t.sizes;
      measures = t.measures;
    }

worker_step-IsFitted : (e : FrameEvent) (w : FrameWorker) → IsFitted w → IsFitted (worker_step e w)
unfolding worker_step
worker_step-IsFitted (loads (err e)) w t = t
worker_step-IsFitted (loads (ok done)) w t = record {
  y = t.y;
  u = t.u;
  v = t.v;
  out = t.out;
  sizes = t.sizes;
  measures = t.measures;
}
worker_step-IsFitted (receives f) w t = record {
  y = t.y;
  u = t.u;
  v = t.v;
  out = t.out;
  sizes = t.sizes;
  measures = t.measures;
}
worker_step-IsFitted (runs my mu mv mo spent) w t =
    run_once-IsFitted w.current my mu mv mo spent w t

run-IsFitted : (es : List FrameEvent) (w : FrameWorker) → IsFitted w → IsFitted (worker_run es w)
unfolding worker_run
run-IsFitted [] w t = t
run-IsFitted (e ∷ es) w t = run-IsFitted es (worker_step e w) (worker_step-IsFitted e w t)

new_buffer-IsTight : IsTight new_buffer
new_buffer-IsTight = record { blocks = refl }

-- Whatever pointers the allocator gives and however frames, turns and the module's arrival interleave, each
-- block that was allocated for a plane or for the picture is freed once, in their order, but the one in
-- use (the pointer 0 is no block); the buffers have the sizes of the last frame that was converted;
-- and between two turns the count of the measurement is at most thirty.
pub worker_run-IsFitted : (es : List FrameEvent) → IsFitted (worker_run es new_worker)
worker_run-IsFitted es = run-IsFitted es new_worker (record {
  y = new_buffer-IsTight;
  u = new_buffer-IsTight;
  v = new_buffer-IsTight;
  out = new_buffer-IsTight;
  sizes = tt;
  measures = omega arith;
})
