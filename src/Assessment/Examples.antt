-- ===== src/Assessment/Examples.antt =====
-- One rule on one domain, over an import with an observation of it.
use sec_app.Base.{Bool, true, some, [], ◌∷◌, ◌≡◌, ◌≢◌, refl, arith, Memᴰ}
use sec_app.Assessment.{
  Profile, Observation, Import, concern, not_tested, reported_state, complete, Row, Report,
  assesses, accept, observe, collect, row_of, report_on, assess_windows_protection,
}
use sec_app.Assessment.Grounds.{Grounded, assess_windows_protection-Grounded}

abbrev profile : Profile
profile = record {
  domains = record { area = "Firewall"; schema_id = "schema-1"; subject = "firewall" } ∷ [];
  rules =
      record {
        id = "RULE-1";
        area = "Firewall";
        severity = "Medium";
        checks = record { field = "state"; known = "On" ∷ "Off" ∷ []; expected = "On" } ∷ [];
      }
      ∷ [];
}

abbrev observation : Observation
observation = record {
  run_id = "run-1";
  observation_id = "obs-1";
  execution_id = "exec-1";
  area = "Firewall";
  data_schema = "schema-1";
  subject_kind = some "SecurityControl";
  subject_key = some "firewall";
  privacy_class = "SensitiveSecurityData";
  fields = ("state", "Off") ∷ [];
}

abbrev import_one : Import
import_one = record { package_kind = "Json"; observations = observation ∷ []; executions = [] }

abbrev always : Observation → Bool
always o = true

abbrev row : Row
row = record {
  rule_id = "RULE-1";
  outcome = concern;
  severity = "Medium";
  reason = reported_state;
  source = some "obs-1";
}

abbrev report : Report
report = record { status = complete; run_id = some "run-1"; ignored = 0; rows = row ∷ [] }

assessed : assess_windows_protection always always profile import_one ≡ assesses report
unfolding assess_windows_protection collect observe accept report_on row_of
assessed = refl

is_tested : row.outcome ≢ not_tested
is_tested e = ground arith

assess_windows_protection-Grounded_example : Grounded always always profile import_one row
assess_windows_protection-Grounded_example =
    assess_windows_protection-Grounded always always profile import_one report row assessed
      (Memᴰ.head refl) is_tested
