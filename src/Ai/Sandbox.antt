-- ===== src/Ai/Sandbox.antt =====
-- `_run_in_sandbox`: a script in a container, under gVisor where Docker has it. `run` is
-- `docker run` with the flag `--runtime=runsc` or without.
use revix.Prelude.{
  Text, codes, contains, Json, Fields, Bool, true, false, ◌||◌, ◌==◌, if◌then◌else◌,
}
use revix.Prelude.Int.{ℤ, pos, negsuc}
use revix.Effects.{Result, ok, raised, exception, type_error, ◌>>=◌}

pub record Outcome : Type 0 where
  pub exit_code : ℤ
  pub stdout : Text
  pub stderr : Text

abbrev is_125 : ℤ → Bool
is_125 (pos n) = n == 125
is_125 (negsuc n) = false

-- Docker has no gVisor.
unfoldable pub lacks_runtime : Outcome → Bool
unfolding contains
lacks_runtime o = is_125 o.exit_code || contains o.stderr (codes "Unknown runtime")

abbrev pub outcome_json : Outcome → Json
outcome_json o = Json.obj (
    Fields.field (codes "exit_code") (Json.num o.exit_code) (
      Fields.field (codes "stdout") (Json.str o.stdout)
        (Fields.field (codes "stderr") (Json.str o.stderr) Fields.end)))

-- An exception in the block becomes an answer.
abbrev pub caught : Result Outcome → Json
caught (ok o) = outcome_json o
caught (raised e) = Json.obj (Fields.field (codes "error") (Json.str e.text) Fields.end)

unfoldable pub run_in_sandbox : (run : (gvisor : Bool) → Text → Result Outcome) → Json → Result Json
unfolding lacks_runtime
run_in_sandbox run (Json.str script) =
    ok (caught (run true script >>= λ o. if lacks_runtime o then run false script else ok o))
run_in_sandbox run _ = raised (exception type_error (codes "write() argument must be str"))
