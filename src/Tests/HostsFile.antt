-- ===== src/Tests/HostsFile.antt =====
-- A hosts file with two hosts, one of which is chosen.
use x_cuter.Common.Assoc.{lookup}
use x_cuter.Common.{◌≡◌, refl, Bool, Option, none, some, [], ◌∷◌, String}
use text.Mathlib.Text.{◌==◌ as str_eq}
use x_cuter.Job.Hosts.Chosen.{Distinct, choose, filter_hosts-chosen}
use x_cuter.Job.Hosts.{HostConfig, filter_hosts, filter_from, match_text}
use x_cuter.Job.{Host}

abbrev server : String → Host
server name = record {
  name = name;
  addr = "10.0.0.1";
  port = 22;
  user = "root";
  private_key = "";
  password = "";
  keyboard_interactive = [];
  tags = [];
}

abbrev file : HostConfig
file = ("web", server "") ∷ ("db", server "db") ∷ []

-- Patterns that match themselves alone.
abbrev literal : String → Option (String → Bool)
literal pattern = some (λ text. str_eq text pattern)

abbrev no_text : String → Host → Option String
no_text text h = none

abbrev web_alone : HostConfig
web_alone = ("web", server "web") ∷ []

file-chosen : filter_hosts literal no_text file "web" "" ≡ some web_alone
unfolding filter_hosts filter_from match_text
file-chosen = refl

file-Distinct : Distinct file
unfolding lookup
file-Distinct = (refl, (refl, tt))

filter_hosts-chosen_example :
    lookup "web" web_alone
    ≡ choose no_text (λ text. str_eq text "web") "" "web" (lookup "web" file) none
filter_hosts-chosen_example =
    filter_hosts-chosen literal no_text file web_alone "web" "" "web" (λ text. str_eq text "web")
      file-Distinct refl file-chosen
