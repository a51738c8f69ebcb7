-- ===== src/Tests/Copy.antt =====
-- A file "a.c" of three bytes, sent and received by package scp.
use x_cuter.Common.{
  ℕ, ◌≡◌, refl, Bool, true, false, none, some, List, [], ◌∷◌, ◌++◌, arith, Bytes, All, pos, negsuc,
  codes,
}
use x_cuter.Scp.FilePath.Stacks.{IsPlain, path_of, join-path_of, clean-split-path_of}
use x_cuter.Scp.FilePath.{clean, join, join_stack, split, dir, classify}
use x_cuter.Scp.Imp.Effects.{effect_path}
use x_cuter.Scp.Imp.{
  create, written, Env, ScpImp, Outcome, process, process_c, process_d, process_e, apply_times,
  copy_contents, finish_file,
}
use x_cuter.Scp.Lexer.Tokens.{IsName}
use x_cuter.Scp.Lexer.{next as read_rune, lex, accepts, is_path_character, item_name, item_number}
use x_cuter.Scp.Message.{
  c_binders, zero_time, unix, ScpCMessage, ScpDMessage, ScpEMessage, ScpTMessage, c_message,
  d_message, e_message, t_message, c_string, t_string,
}
use x_cuter.Scp.Parse.RoundTrip.{parse-c_string, parse-t_string, parse-c_string_digit}
use x_cuter.Scp.Parse.Channel.{message_string, lexer_after-message_string}
use x_cuter.Scp.Parse.{parse_scp_message, closed, blocked, lexer_after}
use x_cuter.Scp.Result.{ok, err, expected_item}
use x_cuter.Scp.Sink.Depth.{
  Reached, here, next, Beneath, WithinUnlessEnded, Reached-Within, c_message-e_message_leaves,
}
use x_cuter.Scp.Sink.Ends.{run_sink_total}
use x_cuter.Scp.Sink.Receive.{run_sink_file, process_c-received, received}
use x_cuter.Scp.Sink.{
  Parser, recurse_no_times_cd, recurse_no_times_cde, recurse_times_cd, recurse_times_cdet, step,
  parser_start, run_sink, proceed,
}
use x_cuter.Scp.Source.Transfer.{c_of, run_source_file, run_sink-run_source}
use x_cuter.Scp.Source.{FileInfo, Files, permissions, run_source}
use x_cuter.Scp.Utf8.Width.{decode_rune_ascii, ascii-Encodes}
use x_cuter.Scp.Utf8.{decode_rune, unicode_is_number}

abbrev narrow : ℕ → Bool
narrow r = false

abbrev file_name : Bytes
file_name = codes "a.c"

file_name-IsName : IsName narrow file_name
unfolding accepts unicode_is_number
file_name-IsName = record {
  first_rune = 97;
  first_byte = 97;
  piece = [];
  others = codes ".c";
  decodes = λ z. decode_rune_ascii 97 z refl;
  not_error = λ h. omega (arith, h);
  not_newline = λ h. omega (arith, h);
  not_number = refl;
  rest_encodes =
      ascii-Encodes (accepts narrow is_path_character) (codes ".c")
        ((refl, refl), ((refl, refl), tt));
  splits = refl;
}

file_name-IsPlain : IsPlain file_name
unfolding classify
file_name-IsPlain = record { no_slash = (refl, (refl, (refl, tt))); is_down = refl }

abbrev stack : List Bytes
stack = codes "srv" ∷ []

stack-IsPlain : All IsPlain stack
unfolding classify
stack-IsPlain = (record { no_slash = (refl, (refl, (refl, tt))); is_down = refl }, tt)

abbrev small_file : ScpCMessage
small_file = record { mode = 420; length = 3; name = file_name }

abbrev directory : ScpDMessage
directory = record { mode = 493; length = 0; name = file_name }

parse-c_string_example :
    parse_scp_message narrow (c_string small_file) ≡ some (ok (c_message small_file))
parse-c_string_example =
    parse-c_string narrow small_file (omega arith) (omega arith) file_name-IsName

abbrev leaving : ScpEMessage
leaving = record {}

abbrev two_times : ScpTMessage
two_times = record {
  a_time = record { seconds = pos 1500; nanos = 70 };
  m_time = record { seconds = pos 1200; nanos = 999999999 };
}

parse-t_string_example :
    parse_scp_message narrow (t_string two_times)
    ≡ some (ok (t_message (record { a_time = unix 1500; m_time = unix 1200 })))
parse-t_string_example =
    parse-t_string narrow two_times 1500 1200 refl refl (omega arith) (omega arith)

abbrev numbered_file : ScpCMessage
numbered_file = record { mode = 420; length = 3; name = codes "1.c" }

parse-c_string_digit_example :
    parse_scp_message narrow (c_string numbered_file)
    ≡ some (err (expected_item item_name item_number))
parse-c_string_digit_example = parse-c_string_digit narrow numbered_file 49 (codes ".c") refl refl

lexer_after-message_string_example :
    lexer_after narrow (message_string (c_message small_file)) ≡ some closed
lexer_after-message_string_example =
    lexer_after-message_string narrow (c_message small_file) file_name-IsName

-- Behind a refused message the goroutine waits forever.
numbered_file_blocks : lexer_after narrow (codes "C0644 3 1.c\n") ≡ some blocked
unfolding lexer_after lex unicode_is_number decode_rune read_rune accepts c_binders
numbered_file_blocks = refl

-- An environment in which all works out.
abbrev open_env : Env
open_env = record {
  open_ok = λ effects path. true;
  copy_ok = λ effects path. true;
  mkdir_ok = λ effects path. true;
  reader_broken = false;
  error_text = λ e. [];
}

abbrev idle_scp : Bytes → Bool → Bytes → ScpImp
idle_scp dir recursive input = record {
  name = [];
  dir = dir;
  sink = true;
  source = false;
  times = false;
  recursive = recursive;
  input = input;
  out = [];
  m_time = zero_time;
  a_time = zero_time;
  time_set = false;
  effects = [];
}

abbrev contents : Bytes
contents = codes "xyz"

abbrev receiving : ScpImp
receiving = idle_scp (codes "/srv") false (c_string small_file ++ (contents ++ 0 ∷ []))

run_sink_file_example :
    (r : ScpImp) × (run_sink narrow open_env receiving ≡ some (r, none))
    × (r.effects
        ≡ ([] ++ create (path_of (file_name ∷ codes "srv" ∷ [])) 420 ∷ [])
          ++ written (path_of (file_name ∷ codes "srv" ∷ [])) contents ∷ [])
    × (r.out ≡ (([] ++ 0 ∷ []) ++ 0 ∷ []) ++ 0 ∷ [])
unfolding join_stack
run_sink_file_example =
    run_sink_file narrow open_env small_file contents (codes "srv") [] receiving file_name-IsName
      (refl, (refl, (refl, tt))) file_name-IsPlain stack-IsPlain.0 tt (omega arith) (omega arith)
      refl refl refl refl refl refl refl refl refl

run_sink_total_example : (r : Outcome) × (run_sink narrow open_env receiving ≡ some r)
run_sink_total_example = run_sink_total narrow open_env receiving

abbrev body_left : ScpImp
body_left = idle_scp (codes "/srv") false (contents ++ (0 ∷ codes "E"))

process_c-received_example :
    process_c open_env small_file body_left
    ≡ (received small_file contents (codes "E") body_left, none)
process_c-received_example =
    process_c-received open_env small_file contents (codes "E") body_left refl refl (omega arith)
      refl refl

abbrev sent_file : FileInfo
sent_file = record {
  name = file_name;
  is_dir = false;
  mode = 420;
  size = 3;
  mod_time = two_times.m_time;
  access_time = two_times.a_time;
}

-- A file system that answers each path with this file.
abbrev one_file : Files
one_file = record {
  stat = λ path. some sent_file;
  read_dir = λ path. none;
  open_file = λ path. some (contents, true);
  write_error = λ out b. none;
}

abbrev sending : ScpImp
sending = idle_scp (codes "/home/a.c") false (0 ∷ 0 ∷ 0 ∷ [])

run_source_file_example : run_source open_env one_file 5 sending ≡ (
  record sending { input = []; out = [] ++ (c_string (c_of sent_file) ++ (contents ++ 0 ∷ [])) },
  none,
)
run_source_file_example =
    run_source_file open_env one_file 5 sent_file sending contents [] (λ out b. refl) refl refl refl
      refl refl refl

abbrev taking : ScpImp
taking = idle_scp (codes "/srv") false (run_source open_env one_file 5 sending).0.out

run_sink-run_source_example :
    (r : ScpImp) × (run_sink narrow open_env taking ≡ some (r, none))
    × (r.effects
        ≡ ([] ++ create (path_of (file_name ∷ codes "srv" ∷ [])) (permissions sent_file) ∷ [])
          ++ written (path_of (file_name ∷ codes "srv" ∷ [])) contents ∷ [])
    × (r.out ≡ (([] ++ 0 ∷ []) ++ 0 ∷ []) ++ 0 ∷ [])
unfolding join_stack
run_sink-run_source_example =
    run_sink-run_source narrow open_env one_file 5 sent_file sending taking contents (codes "srv")
      [] file_name-IsName (refl, (refl, (refl, tt))) file_name-IsPlain stack-IsPlain.0 tt
      (λ out b. refl) (omega arith) refl refl refl refl refl refl refl refl refl refl refl refl refl
      refl refl refl

join-path_of_example : join (path_of stack) file_name ≡ path_of (file_name ∷ stack)
join-path_of_example = join-path_of stack file_name stack-IsPlain file_name-IsPlain

clean-split-path_of_example : clean (split (path_of (file_name ∷ stack))).0 ≡ path_of stack
clean-split-path_of_example = clean-split-path_of file_name stack stack-IsPlain file_name-IsPlain

abbrev tree_start : Parser
tree_start = record { s = idle_scp (path_of stack) true []; depth = pos 0; error = none }

-- The machine behind a D message, and behind the E message that ends it.
abbrev entered : Parser
entered = (step open_env recurse_no_times_cd tree_start (d_message directory)).1

abbrev left : Parser
left = (step open_env recurse_no_times_cde entered (e_message leaving)).1

tree_reached : Reached open_env recurse_no_times_cd tree_start (some recurse_no_times_cd) left
unfolding step proceed process process_d process_e apply_times
tree_reached =
    next [] (e_message leaving) (next [] (d_message directory) here file_name-IsPlain refl) tt refl

-- A directory that cannot be made ends the transfer.
abbrev full_env : Env
full_env = record open_env { mkdir_ok = λ effects path. false }

abbrev refused : Parser
refused = (step full_env recurse_no_times_cd tree_start (d_message directory)).1

refused_reached : Reached full_env recurse_no_times_cd tree_start none refused
unfolding step proceed process process_d
refused_reached = next [] (d_message directory) here file_name-IsPlain refl

Reached-Within_example :
    All (λ e. Beneath stack (effect_path e)) left.s.effects
    × WithinUnlessEnded stack (some recurse_no_times_cd) left
unfolding parser_start
Reached-Within_example =
    Reached-Within open_env stack tree_start stack-IsPlain refl refl refl tree_reached

-- Behind a T message with the file of the C message in the input.
abbrev times_start : Parser
times_start = record {
  s = idle_scp (path_of stack) true (contents ++ 0 ∷ []);
  depth = pos 0;
  error = none;
}

abbrev file_taken : Parser
file_taken = (step open_env recurse_times_cd times_start (c_message small_file)).1

file_is_taken :
    step open_env recurse_times_cd times_start (c_message small_file)
    ≡ (some recurse_times_cdet, file_taken)
unfolding step proceed process process_c copy_contents finish_file
file_is_taken = refl

c_message-e_message_leaves_example :
    (q : Parser) × (step open_env recurse_times_cdet
        (record file_taken { s = record file_taken.s { input = [] } })
        (e_message leaving)
      ≡ (some recurse_times_cdet, q))
    × (q.depth ≡ negsuc 0)
    × (q.s.dir ≡ path_of [])
c_message-e_message_leaves_example =
    c_message-e_message_leaves open_env (codes "srv") [] times_start file_taken recurse_times_cdet
      small_file [] leaving stack-IsPlain.0 tt refl refl file_is_taken
