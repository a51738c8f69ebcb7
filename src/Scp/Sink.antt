-- ===== src/Scp/Sink.antt =====
-- The sink of scp/sink.go: the state machine over received messages, and its loop.
pub mod Ends
pub mod Depth
pub mod Receive
use x_cuter.Common.{
  ℕ, zero, suc, Bool, true, false, Option, none, some, List, [], ◌∷◌, ◌++◌, ◌==◌, if◌then◌else◌,
  Bytes, length, ℤ, pos, increment, decrement,
}
use x_cuter.Scp.FilePath.{join, split, clean, dir, same_path}
use x_cuter.Scp.Imp.{
  Env, ScpImp, Outcome, ack, process, process_c, process_d, process_e, process_t, copy_contents,
  apply_times, finish_file, target, file_path,
}
use x_cuter.Scp.Message.{ScpMessage, c_message, d_message, e_message, t_message}
use x_cuter.Scp.Parse.{parse_scp_message}
use x_cuter.Scp.Result.{ScpError, io_failed, unexpected_message, ok, err, eof}

-- The functions of type parserStateFn.
pub data ParserState : Type 0 where
  no_recurse_times_ct no_recurse_times_c no_recurse_no_times_c : ParserState
  recurse_times_cdt recurse_times_cdet recurse_times_cd : ParserState
  recurse_no_times_cd recurse_no_times_cde : ParserState

pub record Parser : Type 0 where
  pub s : ScpImp
  pub depth : ℤ
  pub error : Option ScpError

-- `parserStart`
unfoldable pub parser_start : Bool → Bool → ParserState
parser_start true true = recurse_times_cdt
parser_start true false = recurse_no_times_cd
parser_start false true = no_recurse_times_ct
parser_start false false = no_recurse_no_times_c

abbrev pub Next : Type 0
Next = Option ParserState × Parser

abbrev pub deeper : Parser → Parser
deeper p = record p { depth = increment p.depth }

abbrev pub shallower : Parser → Parser
shallower p = record p { depth = decrement p.depth }

-- `p.depth == 0`
abbrev pub is_zero : ℤ → Bool
is_zero (pos zero) = true
is_zero _ = false

-- The `default` branches.
abbrev pub unexpected : Parser → Next
unexpected p = (none, record p { error = some unexpected_message })

module _ (env : Env) where
  -- The end of each state function: process the message, stop on an error.
  unfoldable pub proceed : ParserState → Parser → ScpMessage → Next
  proceed next p msg =
      let (s, e) = process env msg p.s in
      elim e [
        | none ↦ (some next, record p { s = s })
        | some x ↦ (none, record p { s = s; error = some x })
      ]

  unfoldable pub state_no_recurse_times_ct : Parser → ScpMessage → Next
  state_no_recurse_times_ct p (c_message m) = proceed no_recurse_times_ct p (c_message m)
  state_no_recurse_times_ct p (t_message m) = proceed no_recurse_times_c p (t_message m)
  state_no_recurse_times_ct p _ = unexpected p

  unfoldable pub state_no_recurse_times_c : Parser → ScpMessage → Next
  state_no_recurse_times_c p (c_message m) = proceed no_recurse_times_ct p (c_message m)
  state_no_recurse_times_c p _ = unexpected p

  unfoldable pub state_no_recurse_no_times_c : Parser → ScpMessage → Next
  state_no_recurse_no_times_c p (c_message m) = proceed no_recurse_no_times_c p (c_message m)
  state_no_recurse_no_times_c p _ = unexpected p

  unfoldable pub state_recurse_times_cdt : Parser → ScpMessage → Next
  state_recurse_times_cdt p (c_message m) = proceed recurse_times_cdt p (c_message m)
  state_recurse_times_cdt p (d_message m) = proceed recurse_times_cdet (deeper p) (d_message m)
  state_recurse_times_cdt p (t_message m) = proceed recurse_times_cd p (t_message m)
  state_recurse_times_cdt p _ = unexpected p

  unfoldable pub state_recurse_times_cdet : Parser → ScpMessage → Next
  state_recurse_times_cdet p (c_message m) = proceed recurse_times_cdet p (c_message m)
  state_recurse_times_cdet p (d_message m) = proceed recurse_times_cdet (deeper p) (d_message m)
  state_recurse_times_cdet p (e_message m) =
      let p' = shallower p in
      proceed (if is_zero p'.depth then recurse_times_cdt else recurse_times_cdet) p' (e_message m)
  state_recurse_times_cdet p (t_message m) = proceed recurse_times_cd p (t_message m)

  unfoldable pub state_recurse_times_cd : Parser → ScpMessage → Next
  state_recurse_times_cd p (c_message m) = proceed recurse_times_cdet p (c_message m)
  state_recurse_times_cd p (d_message m) = proceed recurse_times_cdet (deeper p) (d_message m)
  state_recurse_times_cd p _ = unexpected p

  unfoldable pub state_recurse_no_times_cd : Parser → ScpMessage → Next
  state_recurse_no_times_cd p (c_message m) = proceed recurse_no_times_cd p (c_message m)
  state_recurse_no_times_cd p (d_message m) = proceed recurse_no_times_cde (deeper p) (d_message m)
  state_recurse_no_times_cd p _ = unexpected p

  unfoldable pub state_recurse_no_times_cde : Parser → ScpMessage → Next
  state_recurse_no_times_cde p (c_message m) = proceed recurse_no_times_cde p (c_message m)
  state_recurse_no_times_cde p (d_message m) = proceed recurse_no_times_cde (deeper p) (d_message m)
  state_recurse_no_times_cde p (e_message m) =
      let p' = shallower p in
      proceed (if is_zero p'.depth then recurse_no_times_cd else recurse_no_times_cde) p'
        (e_message m)
  state_recurse_no_times_cde p (t_message m) = unexpected p

  -- `state(&p, m)`
  unfoldable pub step : ParserState → Parser → ScpMessage → Next
  unfolding state_no_recurse_times_ct state_no_recurse_times_c state_no_recurse_no_times_c
      state_recurse_times_cdt state_recurse_times_cdet state_recurse_times_cd
      state_recurse_no_times_cd state_recurse_no_times_cde
  step no_recurse_times_ct p msg = state_no_recurse_times_ct p msg
  step no_recurse_times_c p msg = state_no_recurse_times_c p msg
  step no_recurse_no_times_c p msg = state_no_recurse_no_times_c p msg
  step recurse_times_cdt p msg = state_recurse_times_cdt p msg
  step recurse_times_cdet p msg = state_recurse_times_cdet p msg
  step recurse_times_cd p msg = state_recurse_times_cd p msg
  step recurse_no_times_cd p msg = state_recurse_no_times_cd p msg
  step recurse_no_times_cde p msg = state_recurse_no_times_cde p msg

-- `ReadBytes('\n')`: the line with its newline, and what follows it; `none` where the reader ends
-- before a newline.
unfoldable pub read_line : Bytes → Option (Bytes × Bytes)
read_line [] = none
read_line (c ∷ cs) =
    let rest = read_line cs in
    if c == b'\n'
    then some (c ∷ [], cs)
    else elim rest [ none ↦ none | some (line, after) ↦ some (c ∷ line, after) ]

module _ (wide : ℕ → Bool) (env : Env) where
  -- The loop of `runSink`. A reader that ends with io.EOF ends the transfer well, whatever was
  -- read of a line. `none` is for fuel that ran out.
  unfoldable pub sink_loop : ℕ → Option ParserState → Parser → Option Outcome
  sink_loop zero state p = none
  sink_loop (suc fuel) none p = some (p.s, p.error)
  sink_loop (suc fuel) (some state) p = elim (read_line p.s.input) [
    | none ↦
        let s = record p.s { input = [] } in
        some (s, if env.reader_broken then some io_failed else none)
    | some (line, rest) ↦
        let q = record p { s = record p.s { input = rest } } in
        elim (parse_scp_message wide line) [
          | none ↦ none
          | some r ↦ elim r [
            | err e ↦ some (q.s, some e)
            | ok m ↦ let (state', p') = step env state q m in sink_loop fuel state' p'
          ]
        ]
  ]

  -- `runSink`. A round reads a newline at least.
  unfoldable pub run_sink : ScpImp → Option Outcome
  unfolding sink_loop step proceed read_line process process_c process_d process_e process_t
      copy_contents apply_times finish_file target file_path join split clean dir same_path
  run_sink s =
      let s' = ack s in
      sink_loop (suc (suc (length s'.input))) (some (parser_start s.recursive s.times))
        (record { s = s'; depth = pos 0; error = none })
