-- ===== src/Desktop/Decoder.antt =====
-- integrations/lan-remote-access/rustdesk-web-build/classic-ui.js: `prepareVideoDecoder`. The loader of the codec is
-- third-party code: in the round `n` of the loop the decoder is there or not, and the clock has a time.
pub mod Ends
use scweb_vpn.Common.{
  ℕ, zero, suc, ◌+◌, Bool, true, false, not, ◌&&◌, ◌||◌, Option, none, some, leb, ◌==◌,
  if◌then◌else◌, Result, ok, err, Failure, message, String,
}
use scweb_vpn.Common.Texts.{Text, lit, text_eq}

-- The options of a class that `OGVLoader` loads.
pub record LoadOptions : Type 0 where
  pub worker : Bool
  pub threading : Bool

-- `window.OGVLoader.loadClass`: the decoder of VP9 is loaded without worker and threads.
unfoldable pub load_options : (name : Text) → LoadOptions → LoadOptions
load_options name options =
    if text_eq name (lit "OGVDecoderVideoVP9W")
    then record options { worker = false; threading = false }
    else options

-- What the loop ends in: the decoder is there in the round `n`, it gives up, or its fuel ends.
pub data Wait : Type 0 where
  there : ℕ → Wait
  gives_up : Failure → Wait
  exhausted : Wait

-- The loop, with its rounds as fuel.
unfoldable pub decoder_loop :
    (fuel : ℕ) → (ready : ℕ → Bool) → (clock : ℕ → ℕ) → (deadline n : ℕ) → Wait
decoder_loop zero ready clock deadline n = exhausted
decoder_loop (suc fuel) ready clock deadline n =
    let later = decoder_loop fuel ready clock deadline (suc n) in
    if ready n
    then there n
    else if leb deadline (clock n)
    then gives_up (message "VP9 解码器初始化超时。")
    else later

-- `prepareVideoDecoder(candidate)`: the tests before the loop, and the loop from the time `start` on.
unfoldable pub prepare_video_decoder :
    (fuel : ℕ)
    → (has_loader has_candidate : Bool) → (ready : ℕ → Bool) → (clock : ℕ → ℕ) → (start : ℕ) → Wait
unfolding decoder_loop
prepare_video_decoder fuel has_loader has_candidate ready clock start =
    if not has_loader || not has_candidate
    then gives_up (message "VP9 解码器不可用。")
    else decoder_loop fuel ready clock (start + 15000) 0

-- `candidate.loadVideoDecoder` afterwards: the first call keeps the decoder that is there. The number of
-- decoders that are loaded, and `keepPreparedDecoder`.
unfoldable pub load_video_decoder : Bool × ℕ → Bool × ℕ
load_video_decoder (true, loads) = (false, loads)
load_video_decoder (false, loads) = (false, suc loads)
