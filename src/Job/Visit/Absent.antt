-- ===== src/Job/Visit/Absent.antt =====
-- A configuration without a command, in `VisitConfig` of configVisitor.go.
use text.Mathlib.Text.{◌==◌ as str_eq}
use x_cuter.Common.{◌≡◌, refl, true, Option, none, List, String}
use x_cuter.Job.{Host, HostsFile, Config, absent}
use x_cuter.Job.Visit.{
  Builder, nil_pointer, refused, no_config_command, add_timeout, add_local, check_hosts,
  visit_command, visit_host, visit_config,
}

module _ {T G D : Type 0} (parse_duration : String → Option D) (b : Builder T G D) where
  -- A configuration with either a host or hosts files, that has no command, no timeout and no
  -- command before, makes the visitor follow a nil pointer, though `visitHost` gives an error for
  -- it on every host.
  pub visit_config_absent :
      (read_hosts : List HostsFile → Option (List Host)) (c : Config) (h : Host)
      → check_hosts c ≡ none
      → str_eq c.timeout "" ≡ true
      → c.pre ≡ absent
      → c.command ≡ absent
      → (visit_config parse_duration read_hosts b c ≡ nil_pointer)
        × (visit_host parse_duration b c h ≡ refused no_config_command)
  unfolding visit_config add_timeout add_local visit_command visit_host
  visit_config_absent read_hosts c h checks untimed pre cmd =
      (rw (checks, visit_config) (rw (untimed, add_timeout) (rw pre (rw cmd refl))), rw cmd refl)
