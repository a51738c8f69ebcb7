-- ===== src/Scp/Sink/Ends.antt =====
-- The sink ends on every input.
use x_cuter.Common.{
  ℕ, zero, suc, ◌≤◌, ◌<◌, ◌≡◌, refl, Bool, Option, none, some, [], ◌∷◌, arith, ◌==◌, Bool-cases,
  Option-cases, inl, inr, Bytes, length, pos, subst, take, drop, ap, length-drop, if◌then◌else◌,
}
use x_cuter.Scp.Imp.{
  perform, written, target, create, Env, ScpImp, Outcome, process, process_c, process_d, process_e,
  process_t, limit, copies, copy_contents, finish_file, apply_times, ack,
}
use x_cuter.Scp.Lexer.Bounds.{lex_total}
use x_cuter.Scp.Message.{
  ScpMessage, ScpCMessage, ScpDMessage, c_message, d_message, e_message, t_message,
}
use x_cuter.Scp.Parse.{parse_scp_message, parse_items}
use x_cuter.Scp.Result.{Result, Result-cases, io_failed}
use x_cuter.Scp.Sink.{
  ParserState, Parser, step, proceed, unexpected, no_recurse_times_ct, no_recurse_times_c,
  no_recurse_no_times_c, recurse_times_cdt, recurse_times_cdet, recurse_times_cd,
  recurse_no_times_cd, recurse_no_times_cde, read_line, parser_start, sink_loop, run_sink,
}

-- Every line is parsed to a message or an error.
pub parse_total :
    (wide : ℕ → Bool) (b : Bytes) → (r : Result ScpMessage) × (parse_scp_message wide b ≡ some r)
unfolding parse_scp_message
parse_total wide b =
    let (items, e) = lex_total wide b in (parse_items items, rw (e, parse_scp_message))

read_line-shorter : (b line rest : Bytes) → read_line b ≡ some (line, rest) → length rest < length b
unfolding read_line
read_line-shorter [] line rest h = cc
read_line-shorter (c ∷ cs) line rest h = elim (Bool-cases (c == b'\n')) [
  | inl t ↦ ground arith
  | inr t ↦ elim (Option-cases (read_line cs)) [
    | inl e ↦ ground arith
    | inr ((l, r), e) ↦ ground (arith, read_line-shorter cs l r e)
  ]
]

apply_times-input : (path : Bytes) (s : ScpImp) → (apply_times path s).input ≡ s.input
unfolding apply_times
apply_times-input path s = ground arith

finish_file-input :
    (env : Env) (s : ScpImp) (b : Bytes)
    → s.input ≡ b
    → length (finish_file env s b).0.input ≤ length s.input
unfolding finish_file
finish_file-input env s [] h = omega arith
finish_file-input env s (r ∷ rest) h = ground (arith, ap length h)

copy_contents-input :
    (env : Env) (path : Bytes) (n : ℕ) (s : ScpImp)
    → length (copy_contents env path n s).0.input ≤ length s.input
unfolding copy_contents
copy_contents-input env path n s =
    let read = take (limit n) s.input in
    let s' = perform (written path read) (record s { input = drop (limit n) s.input }) in
    let t = apply_times-input path s' in
    let f = finish_file-input env (apply_times path s') (drop (limit n) s.input) t in
    let l = length-drop (limit n) s.input in
    elim (Bool-cases (copies env path n s)) [
      | inl h ↦ rw h (omega (arith, f, l, ap length t))
      | inr h ↦ rw h (omega (arith, l))
    ]

process_c-input :
    (env : Env) (m : ScpCMessage) (s : ScpImp) → length (process_c env m s).0.input ≤ length s.input
unfolding process_c
process_c-input env m s =
    let path = target s.dir m.name in
    elim (Bool-cases (env.open_ok s.effects path)) [
      | inl h ↦ rw h (copy_contents-input env path m.length (ack (perform (create path m.mode) s)))
      | inr h ↦ rw h (omega arith)
    ]

process_d-input :
    (env : Env) (m : ScpDMessage) (s : ScpImp) → length (process_d env m s).0.input ≤ length s.input
unfolding process_d apply_times
process_d-input env m s = ground arith

-- No message puts bytes back into the reader.
process-input :
    (env : Env) (msg : ScpMessage) (s : ScpImp)
    → length (process env msg s).0.input ≤ length s.input
unfolding process process_e process_t
process-input env (c_message m) s = process_c-input env m s
process-input env (d_message m) s = process_d-input env m s
process-input env (e_message m) s = omega arith
process-input env (t_message m) s = omega arith

proceed-input :
    (env : Env) (next : ParserState) (p : Parser) (msg : ScpMessage)
    → length (proceed env next p msg).1.s.input ≤ length p.s.input
unfolding proceed
proceed-input env next p msg = ground (arith, process-input env msg p.s)

-- A state function either refuses the message or processes it; it changes no more than the depth
-- before.
pub data StepCases (env : Env) (st : ParserState) (p : Parser) (msg : ScpMessage) : Type 0 where
  refused : step env st p msg ≡ unexpected p → StepCases env st p msg
  taken :
      (next : ParserState) (p' : Parser)
      → step env st p msg ≡ proceed env next p' msg
      → p'.s ≡ p.s
      → p'.error ≡ p.error
      → StepCases env st p msg

pub step-StepCases :
    (env : Env) (st : ParserState) (p : Parser) (msg : ScpMessage) → StepCases env st p msg
unfolding step
step-StepCases env no_recurse_times_ct p (c_message m) = taken _ _ refl refl refl
step-StepCases env no_recurse_times_ct p (d_message m) = refused refl
step-StepCases env no_recurse_times_ct p (e_message m) = refused refl
step-StepCases env no_recurse_times_ct p (t_message m) = taken _ _ refl refl refl
step-StepCases env no_recurse_times_c p (c_message m) = taken _ _ refl refl refl
step-StepCases env no_recurse_times_c p (d_message m) = refused refl
step-StepCases env no_recurse_times_c p (e_message m) = refused refl
step-StepCases env no_recurse_times_c p (t_message m) = refused refl
step-StepCases env no_recurse_no_times_c p (c_message m) = taken _ _ refl refl refl
step-StepCases env no_recurse_no_times_c p (d_message m) = refused refl
step-StepCases env no_recurse_no_times_c p (e_message m) = refused refl
step-StepCases env no_recurse_no_times_c p (t_message m) = refused refl
step-StepCases env recurse_times_cdt p (c_message m) = taken _ _ refl refl refl
step-StepCases env recurse_times_cdt p (d_message m) = taken _ _ refl refl refl
step-StepCases env recurse_times_cdt p (e_message m) = refused refl
step-StepCases env recurse_times_cdt p (t_message m) = taken _ _ refl refl refl
step-StepCases env recurse_times_cdet p (c_message m) = taken _ _ refl refl refl
step-StepCases env recurse_times_cdet p (d_message m) = taken _ _ refl refl refl
step-StepCases env recurse_times_cdet p (e_message m) = taken _ _ refl refl refl
step-StepCases env recurse_times_cdet p (t_message m) = taken _ _ refl refl refl
step-StepCases env recurse_times_cd p (c_message m) = taken _ _ refl refl refl
step-StepCases env recurse_times_cd p (d_message m) = taken _ _ refl refl refl
step-StepCases env recurse_times_cd p (e_message m) = refused refl
step-StepCases env recurse_times_cd p (t_message m) = refused refl
step-StepCases env recurse_no_times_cd p (c_message m) = taken _ _ refl refl refl
step-StepCases env recurse_no_times_cd p (d_message m) = taken _ _ refl refl refl
step-StepCases env recurse_no_times_cd p (e_message m) = refused refl
step-StepCases env recurse_no_times_cd p (t_message m) = refused refl
step-StepCases env recurse_no_times_cde p (c_message m) = taken _ _ refl refl refl
step-StepCases env recurse_no_times_cde p (d_message m) = taken _ _ refl refl refl
step-StepCases env recurse_no_times_cde p (e_message m) = taken _ _ refl refl refl
step-StepCases env recurse_no_times_cde p (t_message m) = refused refl

step-input :
    (env : Env) (st : ParserState) (p : Parser) (msg : ScpMessage)
    → length (step env st p msg).1.s.input ≤ length p.s.input
step-input env st p msg = elim (step-StepCases env st p msg) [
  | refused e ↦ rw e (omega arith)
  | taken next p' e same _ ↦ rw e (
      subst (λ t. length (proceed env next p' msg).1.s.input ≤ length t.input) same
        (proceed-input env next p' msg))
]

sink_loop_total :
    (wide : ℕ → Bool) (env : Env) (fuel : ℕ) (st : Option ParserState) (p : Parser)
    → length p.s.input < fuel
    → (r : Outcome) × (sink_loop wide env fuel st p ≡ some r)
unfolding sink_loop
sink_loop_total wide env zero st p h = elim h [ ]
sink_loop_total wide env (suc fuel) none p h = ((p.s, p.error), refl)
sink_loop_total wide env (suc fuel) (some st) p h = elim (Option-cases (read_line p.s.input)) [
  | inl e ↦ (
    (record p.s { input = [] }, if env.reader_broken then some io_failed else none),
    ground arith,
  )
  | inr ((line, rest), e) ↦
      let q : Parser = record p { s = record p.s { input = rest } } in
      let shorter = read_line-shorter p.s.input line rest e in
      let (r, parsed) = parse_total wide line in
      elim (Result-cases r) [
        | inl (m, o) ↦
            let (done, ran) =
              sink_loop_total wide env fuel (step env st q m).0 (step env st q m).1
                (omega (arith, step-input env st q m)) in
            (done, ground arith)
        | inr (x, o) ↦ ((q.s, some x), ground arith)
      ]
]

-- A transfer into the sink comes to an end, whatever bytes arrive.
pub run_sink_total :
    (wide : ℕ → Bool) (env : Env) (s : ScpImp) → (r : Outcome) × (run_sink wide env s ≡ some r)
unfolding run_sink
run_sink_total wide env s =
    sink_loop_total wide env (suc (suc (length s.input))) (some (parser_start s.recursive s.times))
      (record { s = ack s; depth = pos 0; error = none }) (omega arith)
