-- ===== src/Telemetry/Printing.antt =====
-- The methods of a telemetryLogger (telemetry/logger.go), over the interface of logger/logger.go that
-- a logger of another kind implements. What is printed comes formatted: package fmt is not modelled.
use x_cuter.Common.{ℕ, suc, ◌+◌, ◌≡◌, refl, ap, ◌∙◌, none, some, List, [], Bytes, String, arith}
use x_cuter.Logging.{NodeLogger, plain, telemetry, Origin, nil, origin, find_original}
use x_cuter.Telemetry.{Event, log}

-- The methods of a logger of another kind; `output` gets the call depth.
pub record LoggerMethods (S L W : Type 0) : Type 0 where
  pub set_output : L → W → S → S
  pub flags : L → S → ℕ
  pub set_flags : L → ℕ → S → S
  pub prefix : L → S → Bytes
  pub set_prefix : L → Bytes → S → S
  pub output : L → ℕ → Bytes → S → S

-- How a call ends: it returns, the program exits, or it panics.
pub data Ending : Type 0 where
  returns exits panics : Ending

-- `calldepth`
abbrev pub call_depth : ℕ
call_depth = 2

module _ {S L W : Type 0} (methods : LoggerMethods S L W) where
  unfoldable pub set_output : NodeLogger L → W → S → S
  set_output (plain l) w s = methods.set_output l w s
  set_output (telemetry name nil) w s = s
  set_output (telemetry name (origin l)) w s = set_output l w s

  unfoldable pub flags : NodeLogger L → S → ℕ
  flags (plain l) s = methods.flags l s
  flags (telemetry name nil) s = 0
  flags (telemetry name (origin l)) s = flags l s

  unfoldable pub set_flags : NodeLogger L → ℕ → S → S
  set_flags (plain l) f s = methods.set_flags l f s
  set_flags (telemetry name nil) f s = s
  set_flags (telemetry name (origin l)) f s = set_flags l f s

  unfoldable pub prefix : NodeLogger L → S → Bytes
  prefix (plain l) s = methods.prefix l s
  prefix (telemetry name nil) s = []
  prefix (telemetry name (origin l)) s = prefix l s

  unfoldable pub set_prefix : NodeLogger L → Bytes → S → S
  set_prefix (plain l) p s = methods.set_prefix l p s
  set_prefix (telemetry name nil) p s = s
  set_prefix (telemetry name (origin l)) p s = set_prefix l p s

  -- `Output`, which stores no event
  unfoldable pub output : NodeLogger L → ℕ → Bytes → S → S
  output (plain l) depth text s = methods.output l depth text s
  output (telemetry name nil) depth text s = s
  output (telemetry name (origin l)) depth text s = output l (depth + 1) text s

  -- What the printing methods do behind `Log`: nothing if there is no original logger, and else what
  -- it prints, and the ending.
  abbrev pub pass_on : Origin L → Bytes → Ending → S → S × Ending
  pass_on nil text ending s = (s, returns)
  pass_on (origin l) text ending s = (output l call_depth text s, ending)

  -- A printing method of the telemetryLogger, called at a line of a file: `Log`, which may panic, and
  -- then the original logger. `now` is `time.Now`.
  unfoldable pub print_with :
      Ending
      → (S → S × ℕ)
      → String
      → ℕ
      → String
      → Origin L
      → Bytes
      → S × List Event
      → (S × List Event) × Ending
  unfolding log output
  print_with ending now file line name orig text (s, events) =
      let (t, time) = now s in
      elim (log name file line time text events) [
        | none ↦ ((t, events), panics)
        | some later ↦ let (u, e) = pass_on orig text ending t in ((u, later), e)
      ]

  -- `Print`, `Printf`, `Println`, `Error` and `Errorf`
  abbrev pub print :
      (S → S × ℕ)
      → String
      → ℕ
      → String
      → Origin L
      → Bytes
      → S × List Event
      → (S × List Event) × Ending
  print = print_with returns

  -- `Fatal`, `Fatalf` and `Fatalln`
  abbrev pub fatal :
      (S → S × ℕ)
      → String
      → ℕ
      → String
      → Origin L
      → Bytes
      → S × List Event
      → (S × List Event) × Ending
  fatal = print_with exits

  -- `Panic`, `Panicf` and `Panicln`
  abbrev pub panic :
      (S → S × ℕ)
      → String
      → ℕ
      → String
      → Origin L
      → Bytes
      → S × List Event
      → (S × List Event) × Ending
  panic = print_with panics

  -- The loggers of telemetry around the original one.
  unfoldable pub layers : NodeLogger L → ℕ
  layers (plain l) = 0
  layers (telemetry name nil) = 1
  layers (telemetry name (origin l)) = suc (layers l)

  -- Whatever is around it, the original logger prints the text, one frame deeper for each logger of
  -- telemetry around it; and without one nothing is printed.
  pub output-find_original :
      (l : NodeLogger L) (depth : ℕ) (text : Bytes) (s : S)
      → output l depth text s ≡ elim (find_original (origin l)) [
        | none ↦ s
        | some original ↦ methods.output original (depth + layers l) text s
      ]
  unfolding output layers find_original
  output-find_original (plain l) depth text s =
      let same : depth ≡ depth + 0 = omega arith in ap (λ n. methods.output l n text s) same
  output-find_original (telemetry name nil) depth text s = refl
  output-find_original (telemetry name (origin l)) depth text s =
      let same : (depth + 1) + layers l ≡ depth + suc (layers l) = omega arith in
      output-find_original l (depth + 1) text s
      ∙ ap
          (λ n. elim (find_original (origin l)) [
            | none ↦ s
            | some original ↦ methods.output original n text s
          ])
          same
