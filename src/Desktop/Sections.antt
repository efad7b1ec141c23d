-- ===== src/Desktop/Sections.antt =====
-- Which section of the remote desktop page is seen.
use scweb_vpn.Common.{
  ◌≡◌, refl, inl, inr, Bool, true, false, not, ◌&&◌, ◌||◌, List, [], ◌∷◌, Bool-cases,
}
use scweb_vpn.Desktop.{
  Page, new_page, input_password, no_type, error, connecting, success, other_type, message_box,
  first_frame_timeout, render_frame, connect, submit_password, connect_failed, PageEvent, box,
  frame, connects, types, fails, times_out, submits, disconnects, page_step, page_run,
}

-- One section is seen, and while the timer for the first frame runs it is the status section.
pub record IsOrderly (p : Page) : Type 0 where
  pub one_seen :
      ((not p.status_hidden && p.password_hidden && p.viewer_hidden)
        || (p.status_hidden && not p.password_hidden && p.viewer_hidden)
        || (p.status_hidden && p.password_hidden && not p.viewer_hidden))
      ≡ true
  pub timer_on_status : (p.timer_runs && p.status_hidden) ≡ false

and_false : (b : Bool) → (b && false) ≡ false
and_false true = refl
and_false false = refl

pub page_step-IsOrderly : (e : PageEvent) (p : Page) → IsOrderly p → IsOrderly (page_step e p)
unfolding page_step message_box first_frame_timeout render_frame connect submit_password
    connect_failed
page_step-IsOrderly (box input_password text) p v = record {
  one_seen = refl;
  timer_on_status = refl;
}
page_step-IsOrderly (box no_type text) p v = v
page_step-IsOrderly (box error text) p v = record { one_seen = refl; timer_on_status = refl }
page_step-IsOrderly (box connecting text) p v = record {
  one_seen = refl;
  timer_on_status = and_false p.timer_runs;
}
page_step-IsOrderly (box success text) p v = record { one_seen = refl; timer_on_status = refl }
page_step-IsOrderly (box other_type text) p v = v
page_step-IsOrderly (frame width height) p v = record { one_seen = refl; timer_on_status = refl }
page_step-IsOrderly (connects []) p v = record {
  one_seen = refl;
  timer_on_status = and_false p.timer_runs;
}
page_step-IsOrderly (connects (c ∷ id)) p v = record { one_seen = refl; timer_on_status = refl }
page_step-IsOrderly (types text) p v = record {
  one_seen = v.one_seen;
  timer_on_status = v.timer_on_status;
}
page_step-IsOrderly (fails text) p v = record {
  one_seen = refl;
  timer_on_status = and_false p.timer_runs;
}
page_step-IsOrderly times_out p v = elim (Bool-cases p.timer_runs) [
  | inl runs ↦ rw runs (record { one_seen = refl; timer_on_status = refl })
  | inr rests ↦ rw rests (record { one_seen = v.one_seen; timer_on_status = refl })
]
page_step-IsOrderly submits p v = record {
  one_seen = v.one_seen;
  timer_on_status = v.timer_on_status;
}
page_step-IsOrderly disconnects p v = record { one_seen = v.one_seen; timer_on_status = refl }

run-IsOrderly : (es : List PageEvent) (p : Page) → IsOrderly p → IsOrderly (page_run es p)
unfolding page_run
run-IsOrderly [] p v = v
run-IsOrderly (e ∷ es) p v = run-IsOrderly es (page_step e p) (page_step-IsOrderly e p v)

-- After any sequence of messages, frames, connects, failures, time-outs and form events exactly one
-- section is seen; while the timer for the first frame runs it is the status section, so that
-- timer never takes the viewer or the password form away.
pub page_run-IsOrderly : (es : List PageEvent) → IsOrderly (page_run es new_page)
page_run-IsOrderly es =
    run-IsOrderly es new_page (record { one_seen = refl; timer_on_status = refl })
