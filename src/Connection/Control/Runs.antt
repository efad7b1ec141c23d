-- ===== src/Connection/Control/Runs.antt =====
-- Runs of the control channel, in any order of its events.
use scweb_vpn.Common.{
  ℕ, ◌≡◌, ◌≢◌, true, Option, none, List, [], ◌∷◌, arith, ==_refl, Option-cases, inl, inr, Failure,
  message,
}
use scweb_vpn.Common.Texts.{Text}
use scweb_vpn.Platform.Json.{Json}
use scweb_vpn.Connection.Control.{
  Client, ReadyState, closed, Kind, waiting, rejected, new_client, map_get, settle, finish, request,
  timeout, timer_id, receive, on_close, on_error,
}
use scweb_vpn.Connection.Control.Promises.{Inv, has_timer}
use scweb_vpn.Connection.Control.Steps.{
  new_client-Inv, request-Inv, receive-Inv, timeout-Inv, Inv-channel,
}
use scweb_vpn.Connection.Control.Settling.{IsDrained, fail_all-IsDrained, IsDrained-Inv}

-- One event. The identifiers are 96 random bits: a new one is not among the pending ones.
pub data Step (parse : Text → Option Json) (c : Client) : Client → Type 0 where
  requested :
      (id : Text) (value : Json) (expected : Kind)
      → map_get c.pending id ≡ none
      → Step parse c (request id value expected c)
  received : (value : Option Text) → Step parse c (receive parse value c)
  timed_out : (n : ℕ) → Step parse c (timeout n c)
  went : Step parse c (on_close c)
  failed : Step parse c (on_error c)
  changed : (s : ReadyState) → Step parse c (record c { channel = s })

pub data Reach (parse : Text → Option Json) : Client → Type 0 where
  start : (s : ReadyState) → Reach parse (new_client s)
  onward : {c d : Client} → Reach parse c → Step parse c d → Reach parse d

close-IsDrained : (c : Client) → Inv c → IsDrained (message "诊断通道已关闭") c (on_close c)
unfolding on_close
close-IsDrained c v =
    let d =
      fail_all-IsDrained (message "诊断通道已关闭") (record c { channel = closed })
        (Inv-channel c closed v) in
    record { promises = d.promises; pending = d.pending; timers = d.timers; next = d.next }

error-IsDrained : (c : Client) → Inv c → IsDrained (message "诊断通道发生错误") c (on_error c)
unfolding on_error
error-IsDrained c v = fail_all-IsDrained (message "诊断通道发生错误") c v

module _ (parse : Text → Option Json) where
  Step-Inv : {c d : Client} → Step parse c d → Inv c → Inv d
  Step-Inv {c} (requested id value expected g) v = request-Inv id value expected c v g
  Step-Inv {c} (received value) v = receive-Inv parse value c v
  Step-Inv {c} (timed_out n) v = timeout-Inv n c v
  Step-Inv {c} went v = IsDrained-Inv _ c _ v (close-IsDrained c v)
  Step-Inv {c} failed v = IsDrained-Inv _ c _ v (error-IsDrained c v)
  Step-Inv {c} (changed s) v = Inv-channel c s v

  -- In every run the pending map has each identifier once, each waiting promise has an armed timer
  -- and a pending request, and each armed timer is that of the pending request it names.
  pub Reach-Inv : {c : Client} → Reach parse c → Inv c
  Reach-Inv (start s) = new_client-Inv s
  Reach-Inv (onward r s) = Step-Inv s (Reach-Inv r)

  -- When the channel closes or fails, every request that waits is rejected with that error, the
  -- settled ones stay as they are, and neither a pending request nor an armed timer is left.
  pub channel_loss-IsDrained :
      {c : Client}
      → Reach parse c
      → IsDrained (message "诊断通道已关闭") c (on_close c) × IsDrained (message "诊断通道发生错误") c (on_error c)
  channel_loss-IsDrained {c} r = (close-IsDrained c (Reach-Inv r), error-IsDrained c (Reach-Inv r))

  timed_id :
      (n : ℕ) (timers : List (ℕ × Text)) → has_timer n timers ≡ true → timer_id n timers ≢ none
  unfolding timer_id
  timed_id n [] h e = cc
  timed_id n ((m, id) ∷ timers) h e = ground (arith, timed_id n timers)

  finish_self :
      (n : ℕ) (error : Failure) (c : Client)
      → c.promises n ≡ waiting
      → (finish n (rejected error) c).promises n ≡ rejected error
  unfolding finish settle
  finish_self n error c h = ground (arith, ==_refl n)

  -- A request that still waits when its timer fires is rejected as timed out.
  pub timeout_rejects :
      {c : Client} (n : ℕ)
      → Reach parse c
      → c.promises n ≡ waiting
      → (timeout n c).promises n ≡ rejected (message "诊断请求超时")
  unfolding timeout
  timeout_rejects {c} n r w = elim (Option-cases (timer_id n c.timers)) [
    | inl missing ↦ absurd (timed_id n c.timers ((Reach-Inv r).timed n w) missing)
    | inr (id, found) ↦ rw found (finish_self n _ _ w)
  ]
