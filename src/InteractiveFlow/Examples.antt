-- ===== src/InteractiveFlow/Examples.antt =====
-- A session that is confirmed, on a caller that throws at nothing.
use sec_app.Base.{true, false, some}
use sec_app.InteractiveFlow.{Build, World, run_defender_check_session}
use sec_app.InteractiveFlow.Consent.{Closed, run_defender_check_session-Closed}

abbrev build : Build
build = record { run_id = "0123456789abcdef0123456789abcdef"; helper_sha256 = "aa" }

abbrev world : World
world = record {
  throws = λ calls. false;
  prepared = λ calls. some build;
  answered = λ calls. some "СОБРАТЬ 01234567";
  discard_accepted = λ calls. true;
  ran = λ calls. some (record { data_files_removed = true; is_tested = true });
}

run_defender_check_session-Closed_example : Closed world (run_defender_check_session world)
run_defender_check_session-Closed_example = run_defender_check_session-Closed world
