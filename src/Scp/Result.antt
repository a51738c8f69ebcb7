-- ===== src/Scp/Result.antt =====
-- The errors of package scp, one constructor for each message that it makes or passes on, and
-- results that carry one.
use x_cuter.Common.{ℕ, Bytes, ◌≡◌, refl, ◌⊎◌, inl, inr}
use x_cuter.Scp.Lexer.{ItemType}

pub data ScpError : Type 0 where
  -- io.EOF
  eof : ScpError
  -- a reader or writer failed in another way
  io_failed : ScpError
  -- "parser: expected: %q, found: %q"
  expected_item : ItemType → ItemType → ScpError
  -- "parser: expected type: C, D, T or E, found: %q"
  expected_type : Bytes → ScpError
  -- "unexpected message in state ..."
  unexpected_message : ScpError
  -- errInvalidLength
  invalid_length : ScpError
  -- an error of openFile, mkdir, stat or readDir, with its path
  open_failed mkdir_failed stat_failed read_dir_failed : Bytes → ScpError
  -- "parser: expected: %q, found: %q" for the byte behind a file, and for an acknowledgement
  expected_zero expected_ack : ℕ → ScpError
  -- "received error: %s"
  received_error : Bytes → ScpError
  -- "%s is not a regular file"
  not_regular : Bytes → ScpError
  -- no error of the program: directories nest deeper than the fuel of the model
  too_deep : ScpError
  -- "either -f or -t can be specified", "either -f or -t has to be specified"
  both_modes no_mode : ScpError

pub data Result {ℓ} (A : Type ℓ) : Type ℓ where
  ok : A → Result A
  err : ScpError → Result A

pub Result-cases {ℓ} :
    {A : Type ℓ} (r : Result A) → ((a : A) × (r ≡ ok a)) ⊎ ((e : ScpError) × (r ≡ err e))
Result-cases (ok a) = inl (a, refl)
Result-cases (err e) = inr (e, refl)
