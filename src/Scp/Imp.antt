-- ===== src/Scp/Imp.antt =====
-- The state of a transfer, `scpImp` of scp/scp.go, its effects, and how a received message is
-- processed (scp/messages.go).
pub mod Effects
pub mod Target
use x_cuter.Common.{
  ℕ, zero, suc, ◌^◌, ◌&&◌, not, Bool, true, false, Option, none, some, List, [], ◌∷◌, ◌++◌, ltb,
  ◌==◌, if◌then◌else◌, Bytes, take, drop, length, ℤ,
}
use x_cuter.Scp.FilePath.{clean, join, split, dir, same_path}
use x_cuter.Scp.Message.{
  Time, ScpMessage, c_message, d_message, e_message, t_message, ScpCMessage, ScpDMessage,
  ScpEMessage, ScpTMessage,
}
use x_cuter.Scp.Result.{
  ScpError, eof, io_failed, invalid_length, open_failed, mkdir_failed, expected_zero,
}

-- What a transfer does to the file system, in order.
pub data Effect : Type 0 where
  -- openFile(path, O_CREATE|O_TRUNC|O_WRONLY, mode), and the bytes copied to the file
  create : Bytes → ℕ → Effect
  written : Bytes → Bytes → Effect
  make_dir : Bytes → ℕ → Effect
  -- chtimes(path, aTime, mTime)
  change_times : Bytes → Time → Time → Effect

-- What the surroundings of a transfer answer: whether a call succeeds after the effects so far,
-- whether the reader ends with an error other than io.EOF, and the texts of the errors.
pub record Env : Type 0 where
  pub open_ok : List Effect → Bytes → Bool
  pub copy_ok : List Effect → Bytes → Bool
  pub mkdir_ok : List Effect → Bytes → Bool
  pub reader_broken : Bool
  pub error_text : ScpError → Bytes

-- `input` is what is still to be read from the reader, `out` what the writer was given, and
-- `effects` what was done, the latest last.
pub record ScpImp : Type 0 where
  pub name : Bytes
  pub dir : Bytes
  pub sink : Bool
  pub source : Bool
  pub times : Bool
  pub recursive : Bool
  pub input : Bytes
  pub out : Bytes
  pub m_time : Time
  pub a_time : Time
  pub time_set : Bool
  pub effects : List Effect

abbrev pub Outcome : Type 0
Outcome = ScpImp × Option ScpError

-- `ack`. The result of the write is not looked at.
abbrev pub ack : ScpImp → ScpImp
ack s = record s { out = s.out ++ 0 ∷ [] }

abbrev pub perform : Effect → ScpImp → ScpImp
perform e s = record s { effects = s.effects ++ e ∷ [] }

-- The error of a reader at its end.
abbrev pub end_error : Env → ScpError
end_error env = if env.reader_broken then io_failed else eof

-- `int64(length)` as the bound of a LimitReader: a negative bound reads nothing.
abbrev pub limit : ℕ → ℕ
limit length = if ltb length (2 ^ 63) then length else 0

-- `filePath`
unfoldable pub file_path : Bytes → Bytes → Bytes
file_path command_path file =
    if same_path (dir command_path) command_path then join command_path file else command_path

-- The path of a received file.
unfoldable pub target : Bytes → Bytes → Bytes
target dir name = join (file_path dir name) name

-- `chtimes` where a T message came before; its result is not looked at.
unfoldable pub apply_times : Bytes → ScpImp → ScpImp
apply_times path s =
    if s.time_set
    then record (perform (change_times path s.a_time s.m_time) s) { time_set = false }
    else s

-- The byte behind the contents.
unfoldable pub finish_file : Env → ScpImp → Bytes → Outcome
finish_file env s [] = (s, some (end_error env))
finish_file env s (r ∷ rest) =
    let s' = record s { input = rest } in
    if r == 0 then (ack s', none) else (s', some (expected_zero r))

-- `io.Copy` ends without an error: neither the file refuses the contents, nor does the reader break
-- inside of them.
unfoldable pub copies : Env → Bytes → ℕ → ScpImp → Bool
copies env path size s =
    env.copy_ok s.effects path && not (env.reader_broken && ltb (length s.input) (limit size))

-- The contents, at most as many bytes as the message says, go to the file.
unfoldable pub copy_contents : Env → Bytes → ℕ → ScpImp → Outcome
unfolding copies
copy_contents env path size s =
    let read = take (limit size) s.input in
    let s' = perform (written path read) (record s { input = drop (limit size) s.input }) in
    if copies env path size s
    then finish_file env (apply_times path s') s'.input
    else (s', some io_failed)

unfoldable pub process_c : Env → ScpCMessage → ScpImp → Outcome
process_c env m s =
    let path = target s.dir m.name in
    if env.open_ok s.effects path
    then copy_contents env path m.length (ack (perform (create path m.mode) s))
    else (s, some (open_failed path))

unfoldable pub process_d : Env → ScpDMessage → ScpImp → Outcome
process_d env m s =
    let s' = record s { dir = join s.dir m.name } in
    if m.length == 0
    then (if env.mkdir_ok s.effects s'.dir
        then (ack (apply_times s'.dir (perform (make_dir s'.dir m.mode) s')), none)
        else (s', some (mkdir_failed s'.dir)))
    else (s, some invalid_length)

unfoldable pub process_e : ScpEMessage → ScpImp → Outcome
process_e m s = (ack (record s { dir = clean (split s.dir).0 }), none)

unfoldable pub process_t : ScpTMessage → ScpImp → Outcome
process_t m s = (ack (record s { a_time = m.a_time; m_time = m.m_time; time_set = true }), none)

unfoldable pub process : Env → ScpMessage → ScpImp → Outcome
process env (c_message m) s = process_c env m s
process env (d_message m) s = process_d env m s
process env (e_message m) s = process_e m s
process env (t_message m) s = process_t m s
