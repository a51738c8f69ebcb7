-- ===== src/Job.antt =====
-- Package job: what a job configuration holds (config.go).
pub mod Visit
pub mod Text
pub mod Tree
pub mod Client
pub mod Comments
pub mod Hosts
use x_cuter.Common.{ℕ, Bool, true, false, Option, List, ◌||◌, String}
use text.Mathlib.Text.{◌==◌ as str_eq}

pub record Output : Type 0 where
  pub file : String
  pub raw : Bool
  pub overwrite : Bool

pub record Host : Type 0 where
  pub name : String
  pub addr : String
  pub port : ℕ
  pub user : String
  pub private_key : String
  pub password : String
  pub keyboard_interactive : List (String × String)
  pub tags : List (String × String)

pub record HostsFile : Type 0 where
  pub file : String
  pub pattern : String
  pub match_string : String

pub record Forwarding : Type 0 where
  pub remote_host : String
  pub remote_port : ℕ
  pub local_host : String
  pub local_port : ℕ

pub record ScpData : Type 0 where
  pub addr : String
  pub port : ℕ
  pub key : String
  pub verbose : Bool

-- The fields of a `Command` but its child commands.
pub record Settings : Type 0 where
  pub name : String
  pub command : String
  pub flow : String
  pub target : String
  pub retries : ℕ
  pub timeout : String
  pub ignore_error : Bool
  pub stdout : Option Output
  pub stderr : Option Output

mutual
  -- A `*Command`, nil or not.
  pub data Command : Type 0 where
    absent : Command
    command : Settings → Commands → Command

  -- A `[]*Command`
  pub data Commands : Type 0 where
    no_more : Commands
    child : Command → Commands → Commands

-- A `*Config`, whose `pre`, `command` and `post` may be nil.
pub record Config : Type 0 where
  pub name : String
  pub schedule : String
  pub timeout : String
  pub telemetry : Bool
  pub output : Option Output
  pub host : Option Host
  pub hosts_file : Option (List HostsFile)
  pub pre : Command
  pub command : Command
  pub post : Command
  pub forwarding : Option Forwarding
  pub tunnel : Option Forwarding
  pub scp : Option ScpData
