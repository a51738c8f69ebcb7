-- ===== src/Logging.antt =====
-- The loggers that a context holds: values of the interface of logger/logger.go, told apart by
-- whether they are a `telemetryLogger` of telemetry/logger.go.
use x_cuter.Common.{Option, none, some, String}

mutual
  -- A logger: one of another kind, or a `telemetryLogger` with its name and its `orig`, which may be
  -- nil.
  pub data NodeLogger (L : Type 0) : Type 0 where
    plain : L → NodeLogger L
    telemetry : String → Origin L → NodeLogger L

  pub data Origin (L : Type 0) : Type 0 where
    nil : Origin L
    origin : NodeLogger L → Origin L

-- `findOriginalLogger` behind the value of the context.
unfoldable pub find_original : {L : Type 0} → Origin L → Option L
find_original nil = none
find_original (origin (plain l)) = some l
find_original (origin (telemetry name orig)) = find_original orig

abbrev pub origin_of : {L : Type 0} → Option L → Origin L
origin_of none = nil
origin_of (some l) = origin (plain l)

-- A value of a context that may be there.
abbrev pub origin_opt : {L : Type 0} → Option (NodeLogger L) → Origin L
origin_opt none = nil
origin_opt (some l) = origin l
