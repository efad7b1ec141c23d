-- ===== src/Desktop/Decoder/Ends.antt =====
-- How the wait for the decoder ends.
use scweb_vpn.Common.{
  arith, ℕ, zero, suc, ◌+◌, ◌*◌, ◌≤◌, ◌<◌, ◌≡◌, inl, inr, Bool, true, false, leb, leb→le,
  Bool-cases, ◌==◌, ==_iff, subst, Failure, message,
}
use scweb_vpn.Desktop.Decoder.{
  Wait, there, gives_up, exhausted, decoder_loop, prepare_video_decoder,
}

-- The decoder is there in the first round in which it is ready, and every round before was before the
-- deadline; or the loop gives up in the first round at or past the deadline, with no round ready up to it.
abbrev pub Outcome : (ready : ℕ → Bool) → (clock : ℕ → ℕ) → (deadline n : ℕ) → Wait → Type 0
Outcome ready clock deadline n (there m) =
    (n ≤ m)
    × (ready m ≡ true)
    × ((k : ℕ) → n ≤ k → k < m → (ready k ≡ false) × (clock k < deadline))
Outcome ready clock deadline n (gives_up e) =
    (m : ℕ) × (n ≤ m)
    × (deadline ≤ clock m)
    × (ready m ≡ false)
    × ((k : ℕ) → n ≤ k → k < m → (ready k ≡ false) × (clock k < deadline))
Outcome ready clock deadline n exhausted = ⊥

at_or_later :
    (ready : ℕ → Bool) (clock : ℕ → ℕ) (deadline n : ℕ)
    → ready n ≡ false
    → clock n < deadline
    → (k : ℕ) → n ≤ k
    → (suc n ≤ k → (ready k ≡ false) × (clock k < deadline))
    → (ready k ≡ false) × (clock k < deadline)
at_or_later ready clock deadline n h early k le later = elim (Bool-cases (n == k)) [
  | inl same ↦
      subst (λ j. (ready j ≡ false) × (clock j < deadline)) ((==_iff n k).0 same) (h, early)
  | inr other ↦ later (ground arith)
]

one_later :
    (ready : ℕ → Bool) (clock : ℕ → ℕ) (deadline n : ℕ) (w : Wait)
    → ready n ≡ false
    → clock n < deadline
    → Outcome ready clock deadline (suc n) w
    → Outcome ready clock deadline n w
one_later ready clock deadline n (there m) h early (le, r, before) = (
  omega arith,
  r,
  λ k low high. at_or_later ready clock deadline n h early k low (λ l. before k l high),
)
one_later ready clock deadline n (gives_up e) h early (m, le, late, last, before) = (
  m,
  omega arith,
  late,
  last,
  λ k low high. at_or_later ready clock deadline n h early k low (λ l. before k l high),
)
one_later ready clock deadline n exhausted h early o = o

-- The clock is at least 25 ms later in each round.
abbrev pub Waits : (ℕ → ℕ) → Type 0
Waits clock = (n : ℕ) → clock n + 25 ≤ clock (suc n)

-- The round is the last that is looked at, or another follows.
now_ready :
    (ready : ℕ → Bool) (clock : ℕ → ℕ) (deadline n : ℕ)
    → ready n ≡ true
    → Outcome ready clock deadline n (there n)
now_ready ready clock deadline n h = (omega arith, h, λ k low high. absurd (omega arith))

now_late :
    (ready : ℕ → Bool) (clock : ℕ → ℕ) (deadline n : ℕ) (e : Failure)
    → ready n ≡ false
    → deadline ≤ clock n
    → Outcome ready clock deadline n (gives_up e)
now_late ready clock deadline n e h late =
    (n, omega arith, late, h, λ k low high. absurd (omega arith))

loop-Outcome :
    (fuel : ℕ) (ready : ℕ → Bool) (clock : ℕ → ℕ) (deadline n : ℕ)
    → Waits clock
    → deadline ≤ clock n + 25 * fuel
    → Outcome ready clock deadline n (decoder_loop (suc fuel) ready clock deadline n)
unfolding decoder_loop
loop-Outcome zero ready clock deadline n w h = elim (Bool-cases (ready n)) [
  | inl is ↦ rw is (now_ready ready clock deadline n is)
  | inr waits ↦
      let late : leb deadline (clock n) ≡ true = ground arith in
      rw (waits, late)
        (now_late ready clock deadline n (message "VP9 解码器初始化超时。") waits
          (leb→le deadline (clock n) late))
]
loop-Outcome (suc fuel) ready clock deadline n w h = elim (Bool-cases (ready n)) [
  | inl is ↦ rw is (now_ready ready clock deadline n is)
  | inr waits ↦ elim (Bool-cases (leb deadline (clock n))) [
    | inl late ↦
        rw (waits, late)
          (now_late ready clock deadline n (message "VP9 解码器初始化超时。") waits
            (leb→le deadline (clock n) late))
    | inr early ↦
        rw (waits, early)
          (one_later ready clock deadline n _ waits (ground arith)
            (loop-Outcome fuel ready clock deadline (suc n) w (omega (arith, w n, h))))
  ]
]

-- With a loader and a candidate, if the first round is not before the start and each other round is
-- at least 25 ms after the one before, 601 rounds are enough: `prepareVideoDecoder` returns in the
-- first round in which the decoder is there, all rounds before it being less than 15 seconds after
-- the start, or it gives up in the first round that is 15 seconds or more after the start, the
-- decoder having been there in no round up to it.
pub prepare_video_decoder-Outcome :
    (ready : ℕ → Bool) (clock : ℕ → ℕ) (start : ℕ)
    → Waits clock
    → start ≤ clock 0
    → Outcome ready clock (start + 15000) 0 (prepare_video_decoder 601 true true ready clock start)
unfolding prepare_video_decoder
prepare_video_decoder-Outcome ready clock start w h =
    loop-Outcome 600 ready clock (start + 15000) 0 w (omega arith)
