-- ===== src/Yuv.antt =====
-- integrations/lan-remote-access/rustdesk-web-open/yuv.js: the worker that turns frames into pixels. `malloc` and
-- `free` of the WebAssembly module, and its conversion, are third-party: the pointers that `malloc` gives are
-- a parameter.
pub mod Buffers
mod Tests
use scweb_vpn.Common.{
  ℕ, zero, suc, ◌+◌, ◌*◌, Bool, true, false, not, Option, none, some, List, [], ◌∷◌, ◌++◌, ◌==◌,
  if◌then◌else◌, ltb, Result, ok, err,
}

-- A pointer and its length, both missing at first, with the blocks that were allocated and freed for it.
pub record Buffer : Type 0 where
  pub pointer : Option ℕ
  pub size : Option ℕ
  pub allocated : List ℕ
  pub freed : List ℕ

abbrev pub new_buffer : Buffer
new_buffer = record { pointer = none; size = none; allocated = []; freed = [] }

abbrev pub same_size : Option ℕ → ℕ → Bool
same_size none n = false
same_size (some m) n = m == n

-- The pointer that `if (ptr) free(ptr)` frees: the pointer 0 counts as none.
abbrev pub to_free : Option ℕ → List ℕ
to_free none = []
to_free (some zero) = []
to_free (some (suc p)) = suc p ∷ []

abbrev reallocate : (pointer n : ℕ) → Buffer → Buffer
reallocate pointer n b = record {
  pointer = some pointer;
  size = some n;
  allocated = b.allocated ++ to_free (some pointer);
  freed = b.freed ++ to_free b.pointer;
}

-- `if (ptrLen != n) { … }` with the pointer that `malloc(n)` gives, if it is called.
unfoldable pub reserve : (malloc : ℕ → ℕ) → ℕ → Buffer → Buffer
reserve malloc n b = if same_size b.size n then b else reallocate (malloc n) n b

-- What a frame says of its planes: the bytes of each, and the size of the picture.
pub record Frame : Type 0 where
  pub y_bytes : ℕ
  pub u_bytes : ℕ
  pub v_bytes : ℕ
  pub width : ℕ
  pub height : ℕ

-- The four buffers, and `testSpeed`: the frames of a measurement and their time.
pub record Converter : Type 0 where
  pub y : Buffer
  pub u : Buffer
  pub v : Buffer
  pub out : Buffer
  pub frames : ℕ
  pub time : ℕ

abbrev pub new_converter : Converter
new_converter = record {
  y = new_buffer;
  u = new_buffer;
  v = new_buffer;
  out = new_buffer;
  frames = 0;
  time = 0;
}

-- A frame has taken the time `spent`.
abbrev measured : ℕ → Converter → Converter
measured spent c =
    if ltb 30 (suc c.frames)
    then record c { frames = 0; time = 0 }
    else record c { frames = suc c.frames; time = c.time + spent }

-- `I420ToARGB(yb)` with the pointers that `malloc` gives for each plane.
unfoldable pub i420_to_argb :
    (malloc_y malloc_u malloc_v malloc_out : ℕ → ℕ) (spent : ℕ) → Frame → Converter → Converter
unfolding reserve
i420_to_argb malloc_y malloc_u malloc_v malloc_out spent f c = measured spent (record c {
  y = reserve malloc_y f.y_bytes c.y;
  u = reserve malloc_u f.u_bytes c.u;
  v = reserve malloc_v f.v_bytes c.v;
  out = reserve malloc_out (f.width * f.height * 4) c.out;
})

-- The worker: whether the module is there, `currentFrame`, the converter, and the answers posted, each none
-- where the module was not there.
pub record FrameWorker : Type 0 where
  pub is_ready : Bool
  pub current : Option Frame
  pub converter : Converter
  pub posted : List (Option Frame)

abbrev pub new_worker : FrameWorker
new_worker = record { is_ready = false; current = none; converter = new_converter; posted = [] }

-- The loading of the module settles, a frame comes, or `run` has its turn, with what the allocator gives and the time it takes.
pub data FrameEvent : Type 0 where
  loads : Result (Unit {0}) → FrameEvent
  receives : Frame → FrameEvent
  runs : (malloc_y malloc_u malloc_v malloc_out : ℕ → ℕ) (spent : ℕ) → FrameEvent

-- `wasmExports` is set only if the module is fetched, read and instantiated.
abbrev pub load_module : Result (Unit {0}) → FrameWorker → FrameWorker
load_module (ok done) w = record w { is_ready = true }
load_module (err e) w = w

abbrev post : Bool → (Converter → Converter) → Frame → FrameWorker → FrameWorker
post true convert f w = record w {
  current = none;
  converter = convert w.converter;
  posted = w.posted ++ some f ∷ [];
}
post false convert f w = record w { current = none; posted = w.posted ++ none ∷ [] }

-- The body of `run`.
pub run_once : Option Frame → (Frame → Converter → Converter) → FrameWorker → FrameWorker
run_once none convert w = w
run_once (some f) convert w = post w.is_ready (convert f) f w

unfoldable pub worker_step : FrameEvent → FrameWorker → FrameWorker
unfolding run_once i420_to_argb
worker_step (loads r) w = load_module r w
worker_step (receives f) w = record w { current = some f }
worker_step (runs y u v out spent) w = run_once w.current (i420_to_argb y u v out spent) w

unfoldable pub worker_run : List FrameEvent → FrameWorker → FrameWorker
unfolding worker_step
worker_run [] w = w
worker_run (e ∷ es) w = worker_run es (worker_step e w)
