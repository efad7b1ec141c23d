-- ===== src/App/Connects/Closed.antt =====
-- Which of the page's connections are open: what each step of a call of `connect` does to them.
use scweb_vpn.Common.{
  arith, ℕ, zero, suc, ◌+◌, ◌≤◌, ◌≡◌, ◌⊎◌, inl, inr, refl, Bool, true, false, Option, none, some,
  List, [], ◌∷◌, any, ◌==◌, ==_refl, Result, ok, err, Failure,
}
use scweb_vpn.Common.Texts.{Text}
use scweb_vpn.Platform.Url.{Url}
use scweb_vpn.App.{Page, render_stats, close_direct, fail, fail_p2p}
use scweb_vpn.App.Address.{virtual_url}
use scweb_vpn.App.Connects.{
  Caller, portal, initial, temporary_panel, Stage, asking_agent, negotiating, starting_client,
  loading, ended, Flight, rejected_call, after_agent, after_session, go_load, after_load,
  after_client, resume_at, resume,
}

abbrev pub is_closed : ℕ → Page → Bool
is_closed m p = any (λ n. n == m) p.closed

-- No connection is made or let go of, and none is opened again.
pub record Keeps (p q : Page) : Type 0 where
  pub made : q.made ≡ p.made
  pub direct : q.direct ≡ p.direct
  pub closed : (m : ℕ) → is_closed m p ≡ true → is_closed m q ≡ true

abbrev pub DirectClosed : Option ℕ → Page → Type 0
DirectClosed none p = Unit {0}
DirectClosed (some n) p = is_closed n p ≡ true

pub Keeps-refl : (p : Page) → Keeps p p
Keeps-refl p = record { made = refl; direct = refl; closed = λ m h. h }

pub close_direct-Keeps : (o : Option ℕ) (p : Page) → Keeps p (close_direct o p)
unfolding close_direct render_stats
close_direct-Keeps none p = Keeps-refl p
close_direct-Keeps (some n) p = record { made = refl; direct = refl; closed = λ m h. ground arith }

pub close_direct-DirectClosed : (o : Option ℕ) (p : Page) → DirectClosed o (close_direct o p)
unfolding close_direct render_stats
close_direct-DirectClosed none p = tt
close_direct-DirectClosed (some n) p = rw (==_refl n) refl

pub fail_p2p-Keeps : (e : Failure) (p : Page) → Keeps p (fail_p2p e p)
unfolding fail_p2p
fail_p2p-Keeps e p =
    let k = close_direct-Keeps p.direct p in
    record { made = k.made; direct = k.direct; closed = k.closed }

rejected_call-Keeps : (c : Caller) (e : Failure) (p : Page) → Keeps p (rejected_call c e p)
unfolding rejected_call fail
rejected_call-Keeps portal e p = Keeps-refl p
rejected_call-Keeps initial e p = record { made = refl; direct = refl; closed = λ m h. h }
rejected_call-Keeps temporary_panel e p =
    let k = fail_p2p-Keeps e p in record { made = k.made; direct = k.direct; closed = k.closed }

-- The calls that ask whether the Agent is online.
abbrev asking_at : Stage → ℕ
asking_at asking_agent = 1
asking_at other = 0

abbrev pub asking_count : List Flight → ℕ
asking_count [] = 0
asking_count (f ∷ fs) = asking_at f.stage + asking_count fs

-- A call that has learnt that the Agent is online makes a connection.
pub record Makes (p q : Page) : Type 0 where
  pub made : q.made ≡ suc p.made
  pub direct : q.direct ≡ some p.made
  pub closed : q.closed ≡ p.closed

-- What an await that settles does, where `before` and `after` calls ask for the Agent.
abbrev pub Changes : (before after : ℕ) → Page → Page → Type 0
Changes before after p q = (Keeps p q × (after ≤ before)) ⊎ (Makes p q × (suc after ≡ before))

module _ (parse : Text → Option Url) where
  go_load-Changes :
      (n : ℕ) (u : Result Url) (p : Page)
      → Changes 0 (asking_at (go_load n u p).0) p (go_load n u p).1
  go_load-Changes n (err e) p = inl (fail_p2p-Keeps e p, omega arith)
  go_load-Changes n (ok u) p = inl (Keeps-refl p, omega arith)

  resume_at-Changes :
      (s : Stage) (f : Flight) (r : Result Bool) (p : Page)
      → Changes (asking_at s) (asking_at (resume_at parse s f r p).0) p (resume_at parse s f r p).1
  unfolding resume_at after_agent after_session after_client after_load
  resume_at-Changes asking_agent f (err e) p = inl (rejected_call-Keeps f.caller e p, omega arith)
  resume_at-Changes asking_agent f (ok false) p = inl (fail_p2p-Keeps _ p, omega arith)
  resume_at-Changes asking_agent f (ok true) p =
      inr (record { made = refl; direct = refl; closed = refl }, omega arith)
  resume_at-Changes (negotiating n) f (err e) p = inl (fail_p2p-Keeps e p, omega arith)
  resume_at-Changes (negotiating n) f (ok b) p =
      inl (record { made = refl; direct = refl; closed = λ m h. h }, omega arith)
  resume_at-Changes (starting_client n) f (err e) p = inl (fail_p2p-Keeps e p, omega arith)
  resume_at-Changes (starting_client n) f (ok b) p =
      go_load-Changes n (virtual_url parse f.service f.remote) p
  resume_at-Changes (loading n) f (err e) p = inl (fail_p2p-Keeps e p, omega arith)
  resume_at-Changes (loading n) f (ok b) p =
      inl (record { made = refl; direct = refl; closed = λ m h. h }, omega arith)
  resume_at-Changes ended f r p = inl (Keeps-refl p, omega arith)

  more_asking : (a b c d : ℕ) (p q : Page) → Changes a b p q → c ≡ d → Changes (a + c) (b + d) p q
  more_asking a b c d p q (inl (k, h)) e = inl (k, omega arith)
  more_asking a b c d p q (inr (m, h)) e = inr (m, omega arith)

  later_asking : (a c d : ℕ) (p q : Page) → Changes c d p q → Changes (a + c) (a + d) p q
  later_asking a c d p q (inl (k, h)) = inl (k, omega arith)
  later_asking a c d p q (inr (m, h)) = inr (m, omega arith)

  pub resume-Changes :
      (k : ℕ) (r : Result Bool) (fs : List Flight) (p : Page)
      → Changes
          (asking_count fs)
          (asking_count (resume parse k r fs p).0)
          p
          (resume parse k r fs p).1
  unfolding resume
  resume-Changes zero r [] p = inl (Keeps-refl p, omega arith)
  resume-Changes (suc k) r [] p = inl (Keeps-refl p, omega arith)
  resume-Changes zero r (f ∷ fs) p = more_asking _ _ _ _ p _ (resume_at-Changes f.stage f r p) refl
  resume-Changes (suc k) r (f ∷ fs) p =
      later_asking (asking_at f.stage) _ _ p _ (resume-Changes k r fs p)
