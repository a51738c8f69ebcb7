-- ===== src/Scp/Sink/Receive.antt =====
-- Files that are sent as the protocol says are received whole.
use mathlib.Core.List.{append_assoc}
use x_cuter.Common.{
  ℕ, suc, ◌^◌, ◌<◌, ◌≡◌, refl, sym, ap, subst, ◌∙◌, Bool, List, true, false, none, some, [], ◌∷◌,
  ◌++◌, arith, ◌==◌, Bool-cases, inl, inr, Bytes, length, All, All-append, take, drop,
  take-length-append, drop-length-append, pos, lt→ltb, ltb, length-append,
}
use x_cuter.Scp.FilePath.Stacks.{IsPlain, path_of}
use x_cuter.Scp.Imp.Target.{target-path_of}
use x_cuter.Scp.Imp.{
  Env, ScpImp, create, written, process, process_c, copies, copy_contents, apply_times, finish_file,
  target, ack, limit, perform,
}
use x_cuter.Scp.Lexer.Tokens.{IsName}
use x_cuter.Scp.Message.{ScpMessage, c_message, ScpCMessage, c_string}
use x_cuter.Scp.Parse.RoundTrip.{parse-c_string}
use x_cuter.Scp.Parse.{parse_scp_message}
use x_cuter.Scp.Result.{ok}
use x_cuter.Scp.Strconv.RoundTrip.{IsDigit, mode-IsNumeral, decimal-IsNumeral}
use x_cuter.Scp.Strconv.{format_mode, format_uint}
use x_cuter.Scp.Sink.{
  Next, ParserState, no_recurse_no_times_c, Parser, step, proceed, read_line, sink_loop, run_sink,
  parser_start,
}

-- The state behind a file that was received: two acknowledgements, the contents in the file, the
-- times of a T message before it, and the reader behind the byte 0.
abbrev pub received : ScpCMessage → Bytes → Bytes → ScpImp → ScpImp
received m contents rest s =
    let path = target s.dir m.name in
    ack
      (record (apply_times path
        (perform (written path contents) (ack (perform (create path m.mode) s)))) { input = rest })

limit_small : (n : ℕ) → n < 2 ^ 63 → limit n ≡ n
limit_small n h = rw (lt→ltb n (2 ^ 63) h)

-- `copy_contents` behind the point where the contents are in the file.
copied :
    (env : Env) (path contents rest : Bytes) (s : ScpImp) (i : Bytes)
    → finish_file env
        (apply_times path (perform (written path contents) (record s { input = i })))
        (0 ∷ rest)
      ≡ (ack (record (apply_times path (perform (written path contents) s)) { input = rest }), none)
unfolding finish_file apply_times
copied env path contents rest s i = elim (Bool-cases s.time_set) [ inl e ↦ rw e | inr e ↦ rw e ]

-- A reader that has all of the contents does not break inside of them.
copies-all :
    (env : Env) (path : Bytes) (n : ℕ) (s : ScpImp) (contents rest : Bytes)
    → s.input ≡ contents ++ rest
    → limit n ≡ length contents
    → env.copy_ok s.effects path ≡ true
    → copies env path n s ≡ true
unfolding copies
copies-all env path n s contents rest i l c =
    let both = ap length i in
    let sum = length-append contents rest in
    let enough : ltb (length s.input) (limit n) ≡ false = ground arith in
    rw (c, enough) (elim (Bool-cases env.reader_broken) [ inl b ↦ rw b | inr b ↦ rw b ])

-- A C message whose contents follow in the length that it says, below 2^63, with a byte 0 behind,
-- is received whole without an error if the file can be opened and written: the file gets just
-- these bytes, and the reader is left behind the byte 0.
pub process_c-received :
    (env : Env) (m : ScpCMessage) (contents rest : Bytes) (s : ScpImp)
    → s.input ≡ contents ++ (0 ∷ rest)
    → length contents ≡ m.length
    → m.length < 2 ^ 63
    → env.open_ok s.effects (target s.dir m.name) ≡ true
    → env.copy_ok (s.effects ++ create (target s.dir m.name) m.mode ∷ []) (target s.dir m.name)
      ≡ true
    → process_c env m s ≡ (received m contents rest s, none)
unfolding process_c copy_contents
process_c-received env m contents rest s i l small open_ok copy_ok =
    let size : limit m.length ≡ length contents = limit_small m.length small ∙ sym l in
    let front : take (limit m.length) s.input ≡ contents =
      rw (size, i) (take-length-append contents (0 ∷ rest)) in
    let behind : drop (limit m.length) s.input ≡ 0 ∷ rest =
      rw (size, i) (drop-length-append contents (0 ∷ rest)) in
    let path = target s.dir m.name in
    let s' = ack (perform (create path m.mode) s) in
    let whole = copies-all env path m.length s' contents (0 ∷ rest) i size copy_ok in
    rw (open_ok, whole, front, behind)
      (copied env path contents rest (ack (perform (create path m.mode) s)) (0 ∷ rest))

read_line-line :
    (line rest : Bytes)
    → All (λ c. (c == b'\n') ≡ false) line
    → read_line (line ++ (b'\n' ∷ rest)) ≡ some (line ++ b'\n' ∷ [], rest)
unfolding read_line
read_line-line [] rest h = refl
read_line-line (c ∷ cs) rest (h, hs) = rw h (rw (read_line-line cs rest hs))

abbrev NoNewline : Bytes → Type 0
NoNewline = All (λ c. (c == b'\n') ≡ false)

digits-NoNewline : (s : Bytes) → All IsDigit s → NoNewline s
digits-NoNewline [] h = tt
digits-NoNewline (c ∷ cs) (h, hs) = (ground arith, digits-NoNewline cs hs)

-- A C line without its newline.
abbrev c_front : ScpCMessage → Bytes
c_front m = b'C' ∷ (format_mode m.mode ++ (b' ' ∷ (format_uint 10 m.length ++ (b' ' ∷ m.name))))

c_front-NoNewline : (m : ScpCMessage) → NoNewline m.name → NoNewline (c_front m)
c_front-NoNewline m h =
    let P = λ (c : ℕ). (c == b'\n') ≡ false in
    (
      refl,
      All-append P (format_mode m.mode) _ (digits-NoNewline _ (mode-IsNumeral m.mode).digits) (
        refl,
        All-append P (format_uint 10 m.length) _
            (digits-NoNewline _ (decimal-IsNumeral m.length).digits) (refl, h),
      ),
    )

c_string-append :
    (m : ScpCMessage) (rest : Bytes) → c_string m ++ rest ≡ c_front m ++ (b'\n' ∷ rest)
unfolding c_string
c_string-append m rest = simp append_assoc

c_string-front : (m : ScpCMessage) → c_front m ++ b'\n' ∷ [] ≡ c_string m
unfolding c_string
c_string-front m = simp append_assoc

read_line-c_string :
    (m : ScpCMessage) (rest : Bytes)
    → NoNewline m.name
    → read_line (c_string m ++ rest) ≡ some (c_string m, rest)
read_line-c_string m rest h =
    rw (c_string-append m rest)
      (read_line-line (c_front m) rest (c_front-NoNewline m h) ∙ rw (c_string-front m))

module _ (wide : ℕ → Bool) (env : Env) where
  sink_loop-end :
      (fuel : ℕ) (st : ParserState) (p : Parser)
      → p.s.input ≡ []
      → env.reader_broken ≡ false
      → sink_loop wide env (suc fuel) (some st) p ≡ some (record p.s { input = [] }, none)
  unfolding sink_loop read_line
  sink_loop-end fuel st p h b = rw (h, b)

  sink_loop-line :
      (fuel : ℕ) (st : ParserState) (p : Parser) (line rest : Bytes) (msg : ScpMessage)
      → read_line p.s.input ≡ some (line, rest)
      → parse_scp_message wide line ≡ some (ok msg)
      → let q = record p { s = record p.s { input = rest } } in
        sink_loop wide env (suc fuel) (some st) p
        ≡ sink_loop wide env fuel (step env st q msg).0 (step env st q msg).1
  unfolding sink_loop
  sink_loop-line fuel st p line rest msg h k = ground arith

  step-c :
      (p : Parser) (m : ScpCMessage) (s' : ScpImp)
      → process env (c_message m) p.s ≡ (s', none)
      → step env no_recurse_no_times_c p (c_message m)
        ≡ (some no_recurse_no_times_c, record p { s = s' })
  unfolding step proceed
  step-c p m s' h = ground arith

  -- What stands in the files and on the wire behind a transfer of one file.
  received_fields :
      (m : ScpCMessage) (contents rest : Bytes) (s : ScpImp)
      → s.time_set ≡ false
      → ((received m contents rest s).effects
          ≡ (s.effects ++ create (target s.dir m.name) m.mode ∷ [])
            ++ written (target s.dir m.name) contents ∷ [])
        × ((received m contents rest s).out ≡ (s.out ++ 0 ∷ []) ++ 0 ∷ [])
  unfolding apply_times
  received_fields m contents rest s t = rw t (refl, refl)

  -- What stands behind the transfer of one file to a path.
  abbrev Arrived : ScpCMessage → Bytes → ScpImp → Bytes → Type 0
  Arrived m contents s path =
      (r : ScpImp) × (run_sink wide env s ≡ some (r, none))
      × (r.effects ≡ (s.effects ++ create path m.mode ∷ []) ++ written path contents ∷ [])
      × (r.out ≡ ((s.out ++ 0 ∷ []) ++ 0 ∷ []) ++ 0 ∷ [])

  run_sink_target :
      (m : ScpCMessage) (contents : Bytes) (s : ScpImp)
      → IsName wide m.name
      → All (λ c. (c == b'\n') ≡ false) m.name
      → m.mode < 2 ^ 32
      → m.length < 2 ^ 63
      → length contents ≡ m.length
      → s.recursive ≡ false
      → s.times ≡ false
      → s.time_set ≡ false
      → s.input ≡ c_string m ++ (contents ++ 0 ∷ [])
      → env.reader_broken ≡ false
      → env.open_ok s.effects (target s.dir m.name) ≡ true
      → env.copy_ok (s.effects ++ create (target s.dir m.name) m.mode ∷ []) (target s.dir m.name)
        ≡ true
      → Arrived m contents s (target s.dir m.name)
  unfolding run_sink parser_start process
  run_sink_target m contents s n nn hm hl l hr ht hs i b o c =
      let s₁ : ScpImp = record (ack s) { input = contents ++ 0 ∷ [] } in
      let s₂ : ScpImp = received m contents [] s₁ in
      let p : Parser = record { s = ack s; depth = pos 0; error = none } in
      let line : read_line s.input ≡ some (c_string m, contents ++ 0 ∷ []) =
        rw i (read_line-c_string m (contents ++ 0 ∷ []) nn) in
      let parsed = parse-c_string wide m hm (omega arith) n in
      let got = process_c-received env m contents [] s₁ refl l hl o c in
      let (effects, out) = received_fields m contents [] s₁ hs in
      let q : Parser = record p { s = s₁ } in
      let stepped = step-c q m s₂ got in
      let start : parser_start s.recursive s.times ≡ no_recurse_no_times_c = rw (hr, ht) in
      let done =
        sink_loop-end (length s.input) no_recurse_no_times_c (record q { s = s₂ }) refl b in
      (
        record s₂ { input = [] },
        ap (λ st. sink_loop wide env (suc (suc (length s.input))) (some st) p) start
            ∙ sink_loop-line (suc (length s.input)) no_recurse_no_times_c p (c_string m) _
                (c_message m) line parsed
            ∙ ap (λ (x : Next). sink_loop wide env (suc (length s.input)) x.0 x.1) stepped
            ∙ done,
        effects,
        out,
      )

  -- A sink without -r and -p, in a directory other than the root, that reads the line of a C
  -- message, contents of the length that the message says, below 2^63, and the byte 0, and that can
  -- create and write the file, creates it at the path of the directory, a slash and the name, with
  -- the mode of the message and just these contents, gives the writer three acknowledgements and
  -- ends without an error. The name is one that the lexer takes for a name, without a newline, and
  -- is one piece of a path, as are those of the directory; the mode is below 2^32, no times are left
  -- from a T message and the reader does not break.
  pub run_sink_file :
      (m : ScpCMessage) (contents x : Bytes) (base : List Bytes) (s : ScpImp)
      → IsName wide m.name
      → All (λ c. (c == b'\n') ≡ false) m.name
      → IsPlain m.name
      → IsPlain x
      → All IsPlain base
      → m.mode < 2 ^ 32
      → m.length < 2 ^ 63
      → length contents ≡ m.length
      → s.recursive ≡ false
      → s.times ≡ false
      → s.time_set ≡ false
      → s.dir ≡ path_of (x ∷ base)
      → s.input ≡ c_string m ++ (contents ++ 0 ∷ [])
      → env.open_ok s.effects (path_of (m.name ∷ x ∷ base)) ≡ true
      → env.copy_ok
          (s.effects ++ create (path_of (m.name ∷ x ∷ base)) m.mode ∷ [])
          (path_of (m.name ∷ x ∷ base))
        ≡ true
      → env.reader_broken ≡ false
      → (r : ScpImp) × (run_sink wide env s ≡ some (r, none))
        × (r.effects
            ≡ (s.effects ++ create (path_of (m.name ∷ x ∷ base)) m.mode ∷ [])
              ++ written (path_of (m.name ∷ x ∷ base)) contents ∷ [])
        × (r.out ≡ ((s.out ++ 0 ∷ []) ++ 0 ∷ []) ++ 0 ∷ [])
  run_sink_file m contents x base s n nn np hx hs hm hl l hr ht ts d i o c b =
      let path : target s.dir m.name ≡ path_of (m.name ∷ x ∷ base) =
        ap (λ q. target q m.name) d ∙ target-path_of x m.name base hx hs np in
      subst
        (λ q.
          env.open_ok s.effects q ≡ true
          → env.copy_ok (s.effects ++ create q m.mode ∷ []) q ≡ true
          → Arrived m contents s q)
        path (run_sink_target m contents s n nn hm hl l hr ht ts i b) o c
