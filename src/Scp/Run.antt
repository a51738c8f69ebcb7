-- ===== src/Scp/Run.antt =====
-- `run` of scp/scp.go, which starts the sink or the source.
use x_cuter.Common.{ℕ, Bool, Option, none, some, [], ◌∷◌, ◌++◌, ◌&&◌, if◌then◌else◌}
use x_cuter.Scp.Imp.{Env, ScpImp, Outcome}
use x_cuter.Scp.Result.{both_modes, no_mode}
use x_cuter.Scp.Sink.{run_sink}
use x_cuter.Scp.Source.{Files, run_source}

-- An error goes to the other side too, behind a byte 2.
unfoldable pub report : Env → Outcome → Outcome
report env (s, none) = (s, none)
report env (s, some e) =
    (record s { out = s.out ++ (2 ∷ (env.error_text e ++ b'\n' ∷ [])) }, some e)

-- `none` is for a sink that runs out of fuel, which it does not.
unfoldable pub run : (ℕ → Bool) → Env → Files → ℕ → ScpImp → Option Outcome
unfolding report run_sink run_source
run wide env files fuel s =
    if s.sink && s.source
    then some (s, some both_modes)
    else if s.sink
    then elim (run_sink wide env s) [ none ↦ none | some r ↦ some (report env r) ]
    else if s.source
    then some (report env (run_source env files fuel s))
    else some (s, some no_mode)
