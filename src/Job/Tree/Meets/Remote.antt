-- ===== src/Job/Tree/Meets/Remote.antt =====
-- When a command needs an SSH client.
use text.Mathlib.Text.{◌==◌ as str_eq}
use x_cuter.Common.{
  ◌≡◌, refl, Bool, true, false, not, ◌&&◌, ◌⊎◌, inl, inr, Bool-cases, if◌then◌else◌,
}
use x_cuter.Job.Visit.Local.{IsLocal, AllLocal}
use x_cuter.Job.Visit.{
  Visited, built, refused, nil_pointer, ◌and_then◌, is_remote, is_remote_commands,
}
use x_cuter.Job.{Settings, Command, absent, command, Commands, no_more, child}

-- The context has a client, or no command of the tree runs remotely.
abbrev pub Enough : Bool → Command → Type 0
Enough client c = (client ≡ true) ⊎ (is_remote c ≡ built false)

abbrev pub EnoughAll : Bool → Commands → Type 0
EnoughAll client cs = (client ≡ true) ⊎ (is_remote_commands cs ≡ built false)

any_remote :
    (r rest : Visited Bool)
    → (r and_then (λ b. if b then built true else rest)) ≡ built false
    → (r ≡ built false) × (rest ≡ built false)
any_remote (built false) rest h = (refl, h)
any_remote (built true) rest h = cc
any_remote (refused e) rest h = cc
any_remote nil_pointer rest h = cc

pub Enough-child :
    (client : Bool) (c : Command) (cs : Commands)
    → EnoughAll client (child c cs)
    → Enough client c × EnoughAll client cs
unfolding is_remote
Enough-child client c cs (inl h) = (inl h, inl h)
Enough-child client c cs (inr h) =
    let (own, others) = any_remote (is_remote c) (is_remote_commands cs) h in (inr own, inr others)

pub Enough-commands :
    (client : Bool) (s : Settings) (cs : Commands)
    → Enough client (command s cs)
    → EnoughAll client cs
unfolding is_remote
Enough-commands client s cs (inl h) = inl h
Enough-commands client s cs (inr h) =
    elim (Bool-cases (not (str_eq s.command "") && not (str_eq s.target "local"))) [
      | inl e ↦ let bad : built true ≡ built false = rw (← h) (rw e refl) in cc
      | inr e ↦ inr (rw (← h) (rw e refl))
    ]

pub Enough-remote :
    (client : Bool) (s : Settings) (cs : Commands)
    → Enough client (command s cs)
    → str_eq s.command "" ≡ false
    → str_eq s.target "local" ≡ false
    → client ≡ true
unfolding is_remote
Enough-remote client s cs (inl h) e t = h
Enough-remote client s cs (inr h) e t =
    let bad : built true ≡ built false = rw (← h) (rw (e, t) refl) in cc

-- A command made local needs none.
mutual
  unfolding is_remote IsLocal

  pub IsLocal-is_remote : (c : Command) → IsLocal c → is_remote c ≡ built false
  IsLocal-is_remote absent h = elim h [ ]
  IsLocal-is_remote (command s cs) (target, timeout, below) =
      elim (Bool-cases (str_eq s.command "")) [
        | inl e ↦ rw e (AllLocal-is_remote cs below)
        | inr e ↦ rw (e, target) (AllLocal-is_remote cs below)
      ]

  AllLocal-is_remote : (cs : Commands) → AllLocal cs → is_remote_commands cs ≡ built false
  AllLocal-is_remote no_more h = refl
  AllLocal-is_remote (child c cs) (h, hs) = rw (IsLocal-is_remote c h) (AllLocal-is_remote cs hs)
