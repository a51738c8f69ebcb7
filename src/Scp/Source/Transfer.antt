-- ===== src/Scp/Source/Transfer.antt =====
-- One file from the source into a sink.
use mathlib.Core.List.{append_assoc, append-nil}
use x_cuter.Common.{
  ℕ, ◌^◌, ◌<◌, ◌≡◌, refl, sym, ap, ◌∙◌, Bool, List, true, false, none, some, [], ◌∷◌, ◌++◌, ◌==◌,
  arith, Bytes, length, All, if◌then◌else◌,
}
use x_cuter.Scp.FilePath.Stacks.{IsPlain, path_of}
use x_cuter.Scp.Imp.{Env, ScpImp, Outcome, create, written}
use x_cuter.Scp.Lexer.Tokens.{IsName}
use x_cuter.Scp.Message.{ScpCMessage, c_string}
use x_cuter.Scp.Sink.Receive.{run_sink_file}
use x_cuter.Scp.Sink.{run_sink}
use x_cuter.Scp.Source.{
  FileInfo, Files, permissions, send, get_ack, get_ack_from, file_in, send_file, send_times,
  send_contents, send_read, source_no_recurse, source_recurse, run_source, ◌then_do◌,
}

-- The C message of a file.
abbrev pub c_of : FileInfo → ScpCMessage
c_of f = record { mode = permissions f; length = f.size; name = f.name }

get_ack_zero :
    (env : Env) (s : ScpImp) (rest : Bytes)
    → s.input ≡ 0 ∷ rest
    → get_ack env s ≡ (record s { input = rest }, none)
unfolding get_ack get_ack_from
get_ack_zero env s rest h = rw h

then_do_ok : (m : Outcome) (f : ScpImp → Outcome) (s : ScpImp) → m ≡ (s, none) → (m then_do f) ≡ f s
then_do_ok m f s h = rw h

module _ (env : Env) (files : Files) where
  send_times_off :
      (f : FileInfo) (s : ScpImp) → s.times ≡ false → send_times env files f s ≡ (s, none)
  unfolding send_times
  send_times_off f s t = ground arith

  -- A write that does not fail.
  send_ok :
      (b : Bytes) (s : ScpImp)
      → files.write_error s.out b ≡ none
      → send files b s ≡ (record s { out = s.out ++ b }, none)
  unfolding send
  send_ok b s h = rw (h, send) refl

  send_read_ok :
      (b : Bytes) (s : ScpImp)
      → ((out b : Bytes) → files.write_error out b ≡ none)
      → send_read files b s ≡ (record s { out = s.out ++ b }, none)
  unfolding send_read
  send_read_ok [] s w = ap (λ o. (record s { out = o }, none)) (sym (append-nil s.out))
  send_read_ok (b ∷ bs) s w = send_ok (b ∷ bs) s (w s.out (b ∷ bs))

  send_contents_sends :
      (contents path rest : Bytes) (s : ScpImp)
      → ((out b : Bytes) → files.write_error out b ≡ none)
      → s.input ≡ 0 ∷ rest
      → send_contents env files (some (contents, true)) path s
        ≡ (record s { input = rest; out = (s.out ++ contents) ++ 0 ∷ [] }, none)
  unfolding send_contents
  send_contents_sends contents path rest s w i =
      let s₁ : ScpImp = record s { out = s.out ++ contents } in
      let s₂ : ScpImp = record s { out = (s.out ++ contents) ++ 0 ∷ [] } in
      ap (λ m. m then_do send files (0 ∷ []) then_do get_ack env) (send_read_ok contents s w)
      ∙ ap (λ m. m then_do get_ack env) (send_ok (0 ∷ []) s₁ (w s₁.out (0 ∷ [])))
      ∙ get_ack_zero env s₂ rest i

  -- With two acknowledgements at hand, and without -p, and when no write fails, a file that can be read is sent as its C
  -- message, its contents and a byte 0.
  pub send_file_sends :
      (f : FileInfo) (s : ScpImp) (contents rest : Bytes)
      → ((out b : Bytes) → files.write_error out b ≡ none)
      → s.times ≡ false
      → s.input ≡ 0 ∷ 0 ∷ rest
      → files.open_file (file_in s.dir f.name) ≡ some (contents, true)
      → send_file env files f s ≡ (
        record s { input = rest; out = s.out ++ (c_string (c_of f) ++ (contents ++ 0 ∷ [])) },
        none,
      )
  unfolding send_file
  send_file_sends f s contents rest w t i o =
      let line = c_string (c_of f) in
      let body = λ (s₂ : ScpImp).
        send_contents env files (files.open_file (file_in s₂.dir f.name)) (file_in s₂.dir f.name)
          s₂ in
      let s₁ : ScpImp = record s { out = s.out ++ line } in
      let s₂ : ScpImp = record s₁ { input = 0 ∷ rest } in
      let no_times : send_times env files f s ≡ (s, none) = send_times_off f s t in
      ap (λ m. m then_do send files line then_do get_ack env then_do body) no_times
      ∙ ap (λ m. m then_do get_ack env then_do body) (send_ok line s (w s.out line))
      ∙ ap (λ m. m then_do body) (get_ack_zero env s₁ (0 ∷ rest) i)
      ∙ ap (λ c. send_contents env files c (file_in s.dir f.name) s₂) o
      ∙ send_contents_sends contents (file_in s.dir f.name) rest s₂ w refl
      ∙ ap (λ b. (record s { input = rest; out = b }, none)) (simp append_assoc)

  source_no_recurse_file :
      (f : FileInfo) (s : ScpImp)
      → files.stat s.dir ≡ some f
      → f.is_dir ≡ false
      → source_no_recurse env files s ≡ send_file env files f s
  unfolding source_no_recurse
  source_no_recurse_file f s e d = ground arith

  -- The source without -r and -p sends a regular file with its permissions, its size, its contents
  -- and a byte 0 behind, takes three acknowledgements and ends without an error, if its input
  -- begins with these three, the file can be opened and read, and no write fails.
  pub run_source_file :
      (fuel : ℕ) (f : FileInfo) (s : ScpImp) (contents rest : Bytes)
      → ((out b : Bytes) → files.write_error out b ≡ none)
      → s.recursive ≡ false
      → s.times ≡ false
      → s.input ≡ 0 ∷ 0 ∷ 0 ∷ rest
      → files.stat s.dir ≡ some f
      → f.is_dir ≡ false
      → files.open_file (file_in s.dir f.name) ≡ some (contents, true)
      → run_source env files fuel s ≡ (
        record s { input = rest; out = s.out ++ (c_string (c_of f) ++ (contents ++ 0 ∷ [])) },
        none,
      )
  unfolding run_source
  run_source_file fuel f s contents rest w r t i e d o =
      let s₁ : ScpImp = record s { input = 0 ∷ 0 ∷ rest } in
      let go = λ (q : ScpImp).
        if q.recursive then source_recurse env files fuel q else source_no_recurse env files q in
      ap (λ m. m then_do go) (get_ack_zero env s (0 ∷ 0 ∷ rest) i)
      ∙ ap (λ b. if b then source_recurse env files fuel s₁ else source_no_recurse env files s₁) r
      ∙ source_no_recurse_file f s₁ e d
      ∙ send_file_sends f s₁ contents rest w t refl o

-- A file that the source sends arrives in the sink. The source is without -r and -p, its path is
-- that of a regular file that can be read, whose size is below 2^63 and is the number of bytes
-- read, it gets three acknowledgements and none of its writes fails. Then what it wrote, read
-- without a broken reader by a sink without -r and -p, in a directory other than the root, that has
-- no times left from a T message and can create and write the file, makes the sink end without an
-- error: it has created the file at the path of its directory, a slash and the name, with the
-- permissions of the original, has written the same contents, and has given its writer three
-- acknowledgements. The name is one that the lexer takes for a name, without a newline, and is one
-- piece of a path, as are those of the directory.
pub run_sink-run_source :
    (wide : ℕ → Bool) (env : Env) (files : Files) (fuel : ℕ) (f : FileInfo) (s t : ScpImp)
    (contents x : Bytes) (base : List Bytes)
    → IsName wide f.name
    → All (λ c. (c == b'\n') ≡ false) f.name
    → IsPlain f.name
    → IsPlain x
    → All IsPlain base
    → ((out b : Bytes) → files.write_error out b ≡ none)
    → f.size < 2 ^ 63
    → length contents ≡ f.size
    → s.recursive ≡ false
    → s.times ≡ false
    → s.input ≡ 0 ∷ 0 ∷ 0 ∷ []
    → s.out ≡ []
    → files.stat s.dir ≡ some f
    → f.is_dir ≡ false
    → files.open_file (file_in s.dir f.name) ≡ some (contents, true)
    → t.recursive ≡ false
    → t.times ≡ false
    → t.time_set ≡ false
    → t.dir ≡ path_of (x ∷ base)
    → t.input ≡ (run_source env files fuel s).0.out
    → env.open_ok t.effects (path_of (f.name ∷ x ∷ base)) ≡ true
    → env.copy_ok
        (t.effects ++ create (path_of (f.name ∷ x ∷ base)) (permissions f) ∷ [])
        (path_of (f.name ∷ x ∷ base))
      ≡ true
    → env.reader_broken ≡ false
    → (r : ScpImp) × (run_sink wide env t ≡ some (r, none))
      × (r.effects
          ≡ (t.effects ++ create (path_of (f.name ∷ x ∷ base)) (permissions f) ∷ [])
            ++ written (path_of (f.name ∷ x ∷ base)) contents ∷ [])
      × (r.out ≡ ((t.out ++ 0 ∷ []) ++ 0 ∷ []) ++ 0 ∷ [])
run_sink-run_source wide env files fuel f s t contents x base n nn np hx hs w small l sr st si so e
      d o tr tt' ts td ti oo co b =
    let sent = run_source_file env files fuel f s contents [] w sr st si e d o in
    let bytes : t.input ≡ c_string (c_of f) ++ (contents ++ 0 ∷ []) =
      ti
      ∙ ap (λ (m : Outcome). m.0.out) sent
      ∙ ap (λ b. b ++ (c_string (c_of f) ++ (contents ++ 0 ∷ []))) so in
    run_sink_file wide env (c_of f) contents x base t n nn np hx hs (omega arith) small l tr tt' ts
      td bytes oo co b
