-- ===== src/Job/Hosts.antt =====
-- The hosts files of job/config.go: which hosts a job runs on. Package regexp, package text/template
-- and the decoding of a file are parameters; a map is walked in the order of its list.
pub mod Chosen
use text.Mathlib.Text.{◌==◌ as str_eq}
use x_cuter.Common.Assoc.{insert}
use x_cuter.Common.{Bool, true, false, Option, none, some, List, [], ◌∷◌, if◌then◌else◌, String}
use x_cuter.Job.{Host, HostsFile}

-- `hostConfig`, without nil pointers.
abbrev pub HostConfig : Type 0
HostConfig = List (String × Host)

-- The host with the name that it is given if it has none.
abbrev pub named : String → Host → Host
named name h = record h { name = if str_eq h.name "" then name else h.name }

-- The text that is matched; `interpolate` is that of config.go.
unfoldable pub match_text : (String → Host → Option String) → String → String → Host → Option String
match_text interpolate match_string name h =
    if str_eq match_string "" then some name else interpolate match_string h

-- The loop of `filterHosts`, with the hosts that it has chosen so far.
unfoldable pub filter_from :
    (String → Host → Option String)
    → (String → Bool)
    → String
    → HostConfig
    → HostConfig
    → Option HostConfig
unfolding match_text insert
filter_from interpolate matches match_string [] chosen = some chosen
filter_from interpolate matches match_string ((name, h) ∷ hosts) chosen =
    elim (match_text interpolate match_string name (named name h)) [
      | none ↦ none
      | some text ↦
          filter_from interpolate matches match_string hosts
            (if matches text then insert name (named name h) chosen else chosen)
    ]

-- `filterHosts`; `compile` is `regexp.Compile` with the method MatchString of what it gives.
unfoldable pub filter_hosts :
    (String → Option (String → Bool))
    → (String → Host → Option String)
    → HostConfig
    → String
    → String
    → Option HostConfig
unfolding filter_from
filter_hosts compile interpolate hosts pattern match_string = elim (compile pattern) [
  | none ↦ none
  | some matches ↦ filter_from interpolate matches match_string hosts []
]

-- `readHostsFile`; `decode` opens the file and decodes it.
unfoldable pub read_hosts_file :
    (String → Option (String → Bool))
    → (String → Host → Option String)
    → (String → Option HostConfig)
    → HostsFile
    → Option HostConfig
unfolding filter_hosts
read_hosts_file compile interpolate decode file = elim (decode file.file) [
  | none ↦ none
  | some hosts ↦ filter_hosts compile interpolate hosts file.pattern file.match_string
]

-- `for name, host := range c { config[name] = host }`
unfoldable pub insert_all : HostConfig → HostConfig → HostConfig
unfolding insert
insert_all [] config = config
insert_all ((name, h) ∷ hosts) config = insert_all hosts (insert name h config)

-- The loop of `readHostsFiles` over what `read` gives for each file.
unfoldable pub read_from :
    (HostsFile → Option HostConfig) → List HostsFile → HostConfig → Option HostConfig
unfolding insert_all
read_from read [] config = some config
read_from read (file ∷ files) config = elim (read file) [
  | none ↦ none
  | some hosts ↦ read_from read files (insert_all hosts config)
]

abbrev pub hosts_of : HostConfig → List Host
hosts_of [] = []
hosts_of ((name, h) ∷ hosts) = h ∷ hosts_of hosts

-- `readHostsFiles`, as the visitor uses it: the hosts without their names.
unfoldable pub read_hosts_files :
    (HostsFile → Option HostConfig) → List HostsFile → Option (List Host)
unfolding read_from
read_hosts_files read files = elim (read_from read files []) [
  | none ↦ none
  | some config ↦ some (hosts_of config)
]
