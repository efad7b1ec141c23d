-- ===== src/Connection/Control/Settling.antt =====
-- What `failAll`, the timers and the answers do to the promises and the pending map of `ControlClient`.
use scweb_vpn.Common.{
  ℕ, ◌≡◌, refl, true, false, not, ◌&&◌, List, [], ◌∷◌, arith, All, ==_iff, if◌then◌else◌, Failure,
}
use scweb_vpn.Common.Texts.{Text}
use scweb_vpn.Connection.Control.{
  Client, Pending, Promise, unissued, waiting, rejected, map_get, settle, settled, finish,
  reject_each, fail_all,
}
use scweb_vpn.Connection.Control.Promises.{Inv, has_timer, holds, entry_holds, has_timer-clear}

module _ (error : Failure) where
  reject_each-promises :
      (pending : List (Text × Pending)) (c : Client) (n : ℕ)
      → (reject_each error pending c).promises n
        ≡ (if holds n pending then settled (c.promises n) (rejected error) else c.promises n)
  unfolding reject_each finish settle
  reject_each-promises [] c n = refl
  reject_each-promises ((id, p) ∷ pending) c n =
      rw (reject_each-promises pending (finish p.promise (rejected error) c) n) (ground arith)

  reject_each-timers :
      (pending : List (Text × Pending)) (c : Client) (n : ℕ)
      → has_timer n (reject_each error pending c).timers
        ≡ (not (holds n pending) && has_timer n c.timers)
  unfolding reject_each finish
  reject_each-timers [] c n = refl
  reject_each-timers ((id, p) ∷ pending) c n =
      rw (reject_each-timers pending (finish p.promise (rejected error) c) n)
        (ground (arith, has_timer-clear p.promise n c.timers))

  reject_each-next :
      (pending : List (Text × Pending)) (c : Client) → (reject_each error pending c).next ≡ c.next
  unfolding reject_each finish
  reject_each-next [] c = refl
  reject_each-next ((id, p) ∷ pending) c =
      reject_each-next pending (finish p.promise (rejected error) c)

holds_of_entry :
    (pending : List (Text × Pending)) (id : Text) (n : ℕ)
    → entry_holds (map_get pending id) n ≡ true
    → holds n pending ≡ true
unfolding map_get
holds_of_entry [] id n h = cc
holds_of_entry ((k, p) ∷ pending) id n h = ground (arith, holds_of_entry pending id n)

has_timer-holds :
    (pending : List (Text × Pending)) (n : ℕ) (timers : List (ℕ × Text))
    → All (λ t. entry_holds (map_get pending t.1) t.0 ≡ true) timers
    → has_timer n timers ≡ true
    → holds n pending ≡ true
has_timer-holds pending n [] h t = cc
has_timer-holds pending n ((m, id) ∷ timers) (h, hs) t =
    ground (arith, has_timer-holds pending n timers hs, holds_of_entry pending id m h, ==_iff m n)

no_timer : (timers : List (ℕ × Text)) → ((n : ℕ) → has_timer n timers ≡ false) → timers ≡ []
no_timer [] h = refl
no_timer ((m, id) ∷ timers) h = absurd (ground (arith, h m))

-- After the channel fails no promise waits: those that waited are rejected with the error, the
-- others are as they were, no request is pending and no timer is armed.
pub record IsDrained (error : Failure) (c d : Client) : Type 0 where
  pub promises : (n : ℕ) → d.promises n ≡ settled (c.promises n) (rejected error)
  pub pending : d.pending ≡ []
  pub timers : d.timers ≡ []
  pub next : d.next ≡ c.next

pub fail_all-IsDrained :
    (error : Failure) (c : Client) → Inv c → IsDrained error c (fail_all error c)
unfolding fail_all
fail_all-IsDrained error c v = record {
  promises = λ n. rw (reject_each-promises error c.pending c n) (of_held n (c.promises n) refl);
  pending = refl;
  timers = no_timer (reject_each error c.pending c).timers gone;
  next = reject_each-next error c.pending c;
}
  where
    of_held :
        (n : ℕ) (p : Promise)
        → c.promises n ≡ p
        → (if holds n c.pending then settled (c.promises n) (rejected error) else c.promises n)
          ≡ settled (c.promises n) (rejected error)
    of_held n waiting e = rw (v.held n e) refl
    of_held n p e = rw e (ground arith)

    gone : (n : ℕ) → has_timer n (reject_each error c.pending c).timers ≡ false
    gone n =
        rw (reject_each-timers error c.pending c n)
          (ground (arith, has_timer-holds c.pending n c.timers v.named))

pub IsDrained-Inv : (error : Failure) (c d : Client) → Inv c → IsDrained error c d → Inv d
IsDrained-Inv error c d v r = record {
  is_map = rw r.pending tt;
  fresh = λ n h.
      let old : c.promises n ≡ unissued = v.fresh n (rw (← r.next) h) in
      rw (r.promises n) (rw old refl);
  timed = λ n h. absurd (settled-ne-waiting (c.promises n) (rw (r.promises n) at h));
  held = λ n h. absurd (settled-ne-waiting (c.promises n) (rw (r.promises n) at h));
  named = rw r.timers tt;
}
  where
    settled-ne-waiting : (p : Promise) → settled p (rejected error) ≡ waiting → ⊥
    settled-ne-waiting p h = ground arith
