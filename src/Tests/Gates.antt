-- ===== src/Tests/Gates.antt =====
-- The theorems on the gates, for two releases and a request on one session.
use persona.Base.{ℕ, ◌≡◌, refl, true, false, none, some, ◌==◌, if◌then◌else◌, arith}
use persona.Text.Compare.{codes}
use persona.Daemon.Gate
use persona.Daemon.Gate.Exclusion.{Run-exclusive}
use persona.Daemon.Gate.Draining.{Run-no_new_work}

abbrev calls : ℕ → Gate.Call
calls w =
    if w == 2
    then Gate.lock_session_during_drain (codes "s") false
    else Gate.lock_session_during_drain (codes "s") true

test_refuses : Gate.refuses false (calls 0) ≡ false
unfolding Gate.refuses
test_refuses = refl

abbrev one_waits : Gate.State
one_waits = record {
  closing = false;
  gate = λ k. none;
  cached = λ k. false;
  pc = Gate.at_worker 0 Gate.waiting (λ w. Gate.start);
}

run_waits : Gate.Run calls (Gate.init calls) one_waits
run_waits = Gate.later Gate.none_yet (Gate.moves 0 (Gate.in_lock (Gate.lock_waits test_refuses)))

abbrev one_in : Gate.State
one_in = record {
  closing = false;
  gate = Gate.at_key (codes "s") (some 0) (λ k. none);
  cached = λ k. false;
  pc = Gate.at_worker 0 Gate.entered one_waits.pc;
}

run_in : Gate.Run calls (Gate.init calls) one_in
unfolding Gate.at_worker
run_in = Gate.later run_waits (Gate.moves 0 (Gate.in_lock (Gate.gate_taken refl)))

Run-exclusive_example : Gate.holds (one_in.pc 1) ≡ false
unfolding Gate.at_worker
Run-exclusive_example = Run-exclusive calls one_in 0 1 run_in (λ e. omega (arith, e)) refl refl

abbrev request_works : Gate.State
request_works = record {
  closing = true;
  gate = Gate.at_key (codes "s") (some 2) (λ k. none);
  cached = λ k. false;
  pc = Gate.at_worker 2 Gate.working (λ w. Gate.start);
}

abbrev release_waits : Gate.State
release_waits = record request_works { pc = Gate.at_worker 0 Gate.waiting request_works.pc }

test_release : Gate.refuses true (calls 0) ≡ false
unfolding Gate.refuses
test_release = refl

run_release : Gate.Run calls request_works release_waits
unfolding Gate.at_worker
run_release = Gate.later Gate.none_yet (Gate.moves 0 (Gate.in_lock (Gate.lock_waits test_release)))

Run-no_new_work_example : request_works.pc 2 ≡ Gate.working
unfolding Gate.at_worker
Run-no_new_work_example = Run-no_new_work calls 2 run_release refl refl refl
