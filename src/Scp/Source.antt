-- ===== src/Scp/Source.antt =====
-- The source of scp/source.go: what it sends for a file, a directory and their times, and how it
-- waits for the acknowledgements.
pub mod Transfer
use x_cuter.Common.{
  ℕ, zero, suc, ◌%◌, Bool, true, false, Option, none, some, List, [], ◌∷◌, ◌++◌, ◌||◌, ◌==◌,
  if◌then◌else◌, Bytes, ℤ,
}
use x_cuter.Scp.FilePath.{clean, join, split, base, same_path}
use x_cuter.Scp.Imp.{Env, ScpImp, Outcome, end_error}
use x_cuter.Scp.Message.{Time, c_string, d_string, e_string, t_string}
use x_cuter.Scp.Result.{
  ScpError, io_failed, open_failed, stat_failed, read_dir_failed, received_error, expected_ack,
  not_regular, too_deep,
}
use x_cuter.Scp.Sink.{read_line}

-- The values of the interface FileInfo. A size is that of a file, no less than 0.
pub record FileInfo : Type 0 where
  pub name : Bytes
  pub is_dir : Bool
  pub mode : ℕ
  pub size : ℕ
  pub mod_time : Time
  pub access_time : Time

-- The files that the source reads: `stat`, `readDir`, and what reading a file that is opened gives,
-- the flag being whether the copy ends without an error. `write_error` is what the other side does
-- with a write behind what was written so far: nothing if it succeeds, else as much as was written
-- before it failed.
pub record Files : Type 0 where
  pub write_error : Bytes → Bytes → Option Bytes
  pub stat : Bytes → Option FileInfo
  pub read_dir : Bytes → Option (List FileInfo)
  pub open_file : Bytes → Option (Bytes × Bool)

-- `f.Mode() & os.ModePerm`
abbrev pub permissions : FileInfo → ℕ
permissions f = f.mode % 512

-- A write to the other side.
unfoldable pub send : Files → Bytes → ScpImp → Outcome
send files b s = elim (files.write_error s.out b) [
  | none ↦ (record s { out = s.out ++ b }, none)
  | some part ↦ (record s { out = s.out ++ part }, some io_failed)
]

-- `io.Copy` of what was read, which writes nothing if there is nothing.
unfoldable pub send_read : Files → Bytes → ScpImp → Outcome
unfolding send
send_read files [] s = (s, none)
send_read files (b ∷ bs) s = send files (b ∷ bs) s

-- The `if err := …; err != nil { return err }` between two steps.
infixl 5 ◌then_do◌
abbrev pub ◌then_do◌ : Outcome → (ScpImp → Outcome) → Outcome
◌then_do◌ (s, none) f = f s
◌then_do◌ (s, some e) f = (s, some e)

-- The message behind a byte 1 or 2 goes to the end of its line.
abbrev read_error : Env → ScpImp → Outcome
read_error env s = elim (read_line s.input) [
  | none ↦ (record s { input = [] }, some (end_error env))
  | some (line, rest) ↦ (record s { input = rest }, some (received_error line))
]

-- `getAck`
unfoldable pub get_ack_from : Env → Bytes → ScpImp → Outcome
unfolding read_line
get_ack_from env [] s = (s, some (end_error env))
get_ack_from env (b ∷ rest) s =
    let s' = record s { input = rest } in
    if b == 1 || b == 2
    then read_error env s'
    else if b == 0
    then (s', none)
    else (s', some (expected_ack b))

unfoldable pub get_ack : Env → ScpImp → Outcome
unfolding get_ack_from
get_ack env s = get_ack_from env s.input s

-- `path`
unfoldable pub file_in : Bytes → Bytes → Bytes
file_in maybe_dir file = if same_path (base maybe_dir) file then maybe_dir else join maybe_dir file

module _ (env : Env) (files : Files) where
  unfoldable pub send_file_times : FileInfo → ScpImp → Outcome
  send_file_times f s =
      send files (t_string (record { a_time = f.access_time; m_time = f.mod_time })) s
      then_do get_ack env

  -- The T message, under -p.
  unfoldable pub send_times : FileInfo → ScpImp → Outcome
  send_times f s = if s.times then send_file_times f s else (s, none)

  -- From the opened file on: the contents, a byte 0, the acknowledgement.
  unfoldable pub send_contents : Option (Bytes × Bool) → Bytes → ScpImp → Outcome
  send_contents none path s = (s, some (open_failed path))
  send_contents (some (contents, true)) path s =
      send_read files contents s then_do send files (0 ∷ []) then_do get_ack env
  send_contents (some (contents, false)) path s =
      send_read files contents s then_do (λ s'. (s', some io_failed))

  abbrev c_line : FileInfo → Bytes
  c_line f = c_string (record { mode = permissions f; length = f.size; name = f.name })

  unfoldable pub send_file : FileInfo → ScpImp → Outcome
  send_file f s = send_times f s then_do send files (c_line f) then_do get_ack env then_do (λ s₂.
      send_contents (files.open_file (file_in s₂.dir f.name)) (file_in s₂.dir f.name) s₂)

  abbrev d_line : FileInfo → Bytes
  d_line f = d_string (record { mode = permissions f; length = 0; name = f.name })

  -- The way back from a directory: `filepath.Split` and `filepath.Clean`.
  unfoldable pub leave : ScpImp → Outcome
  leave s = (record s { dir = clean (split s.dir).0 }, none)

  -- The loop over the entries; `descend` sends a directory.
  unfoldable pub send_entries : (FileInfo → ScpImp → Outcome) → List FileInfo → ScpImp → Outcome
  send_entries descend [] s = (s, none)
  send_entries descend (f ∷ fs) s =
      (if f.is_dir
        then (descend f (record s { dir = join s.dir f.name }) then_do leave)
        else send_file f s)
      then_do (λ s'. send_entries descend fs s')

  -- A directory, its entries and its E message; the fuel bounds how deep directories nest.
  unfoldable pub send_directory : ℕ → FileInfo → ScpImp → Outcome
  send_directory zero f s = (s, some too_deep)
  send_directory (suc fuel) f s =
      send_times f s
      then_do send files (d_line f)
      then_do get_ack env
      then_do (λ s₂. elim (files.read_dir s₂.dir) [
        | none ↦ (s₂, some (read_dir_failed s₂.dir))
        | some entries ↦ send_entries (λ g. send_directory fuel g) entries s₂
      ])
      then_do send files (e_string (record {}))
      then_do get_ack env

  unfoldable pub source_recurse : ℕ → ScpImp → Outcome
  source_recurse fuel s = elim (files.stat s.dir) [
    | none ↦ (s, some (stat_failed s.dir))
    | some f ↦ if f.is_dir then send_directory fuel f s else send_file f s
  ]

  unfoldable pub source_no_recurse : ScpImp → Outcome
  source_no_recurse s = elim (files.stat s.dir) [
    | none ↦ (s, some (stat_failed s.dir))
    | some f ↦ if f.is_dir then (s, some (not_regular s.name)) else send_file f s
  ]

  unfoldable pub run_source : ℕ → ScpImp → Outcome
  unfolding get_ack source_recurse source_no_recurse send_directory send_entries send_file
      send_times send_file_times send_contents send_read send leave file_in base join same_path
      clean split
  run_source fuel s =
      get_ack env s
      then_do (λ s'. if s'.recursive then source_recurse fuel s' else source_no_recurse s')
