-- ===== src/Tests/Text.antt =====
-- The text of the tree of the job that runs "ls".
use Prim.Native.String.{◌++◌ as str_append}
use x_cuter.Common.{ℕ, ◌+◌, ◌≡◌, refl, false, Option, none, some, String}
use x_cuter.Job.Text.Builder.{fine, StringBuilder, config_tree}
use x_cuter.Job.Text.Rows.{newlines, OneLine, shown, string_of-shown}
use x_cuter.Job.Text.Whole.{IsFine, config_tree-IsFine}
use x_cuter.Job.Text.{
  Stringer, leaf, branch, simple_branch, no_more, more, string_of, branch_text, children_text,
  first_text, leaf_text, indent, length_of,
}
use x_cuter.Job.Visit.Holds.{Holds}
use x_cuter.Job.Visit.{
  built, visit_config, check_hosts, host_part, visit_host, is_remote, add_hosts, add_local,
  add_timeout, visit_command, finish_command,
}
use x_cuter.Job.{Host, Config}
use x_cuter.Telemetry.Nodes.{state_failed}
use x_cuter.Telemetry.Visual.Builder.{new_visualization}
use x_cuter.Telemetry.Visual.Ready.{full_tree, new_visualization-config_tree}
use x_cuter.Telemetry.Visual.{Colours, format_string, first_line, other_lines}
use x_cuter.Tests.Tree.{list_files, no_durations, no_hosts}

abbrev as_is : Config → Option Host → String → Option String
as_is c h s = some s

abbrev digit : ℕ → String
digit n = "2"

abbrev in_quotes : String → String
in_quotes s = str_append "'" (str_append s "'")

abbrev no_duration : ℕ → String
no_duration n = ""

abbrev brief : StringBuilder
brief = record { full = false; raw = false; max_hosts = 1; max_commands = 1 }

config_tree-IsFine_example :
    Holds IsFine
      (config_tree digit in_quotes no_duration as_is no_durations no_hosts brief list_files)
config_tree-IsFine_example =
    config_tree-IsFine digit in_quotes no_duration brief as_is no_durations no_hosts list_files

listed :
    config_tree digit in_quotes no_duration as_is no_durations no_hosts brief list_files
    ≡ built (
        fine
          "files\n└─ Host web\n   ├─ Open SSH connection to root@10.0.0.1:2\n   └─ Command\n      └─ Execute 'ls'")
unfolding config_tree visit_config check_hosts add_timeout add_local visit_command add_hosts
    host_part visit_host is_remote finish_command string_of branch_text children_text leaf_text
    indent
listed = refl

text_of : Stringer → String
text_of t = string_of as_is digit none t

abbrev three_leaves : Stringer
three_leaves =
    branch none
      (simple_branch "all" (more (leaf "a") (more (leaf "b") (more (leaf "c") no_more))) 1 false)

cut_off : text_of three_leaves ≡ "all\n├─ a\n└─ and 2 more ..."
unfolding text_of string_of branch_text children_text first_text leaf_text indent length_of
cut_off = refl

string_of-shown_example :
    newlines (string_of as_is digit none three_leaves) + 1 ≡ shown three_leaves
unfolding newlines OneLine
string_of-shown_example =
    string_of-shown as_is digit (λ n. refl) none three_leaves (refl, (refl, (refl, (refl, tt))))

abbrev marks : Colours
marks = record { yellow = λ s. s; green = λ s. s; red = λ s. s }

new_visualization-config_tree_example :
    new_visualization digit in_quotes no_duration marks as_is
      (λ n. "")
      no_durations
      no_hosts
      list_files
    ≡ config_tree digit in_quotes no_duration as_is no_durations no_hosts full_tree list_files
new_visualization-config_tree_example =
    new_visualization-config_tree marks as_is digit in_quotes no_duration (λ n. "") no_durations
      no_hosts list_files

-- A node that has failed: its first line is in colour.
marked :
    format_string (record marks { red = in_quotes }) "run\n└─ ls" state_failed ≡ "'✘ run'\n└─ ls"
unfolding format_string first_line other_lines
marked = refl
