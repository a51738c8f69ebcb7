-- ===== src/Job/Hosts/Chosen.antt =====
-- Which hosts of the hosts files a job runs on (job/config.go).
use text.Mathlib.Text.{◌==◌ as str_eq}
use text.Mathlib.TextEquality.{eq_iff}
use x_cuter.Common.Assoc.{lookup, insert, lookup-insert, String-cases}
use x_cuter.Common.{
  ◌≡◌, ◌≢◌, subst, refl, sym, ap, ◌∙◌, inl, inr, Bool, false, Option, none, some, [], ◌∷◌,
  if◌then◌else◌, String, Option-cases, Bool-cases, arith,
}
use x_cuter.Job.Hosts.{HostConfig, named, match_text, filter_from, filter_hosts}
use x_cuter.Job.{Host}

-- As the keys of a map are.
abbrev pub Distinct : HostConfig → Type 0
Distinct [] = Unit
Distinct ((name, h) ∷ hosts) = (lookup name hosts ≡ none) × Distinct hosts

lookup-first : (at : String) (x : Host) (hosts : HostConfig) → lookup at ((at, x) ∷ hosts) ≡ some x
unfolding lookup
lookup-first at x hosts = ground (arith, eq_iff at at)

lookup-behind :
    (at name : String) (x : Host) (hosts : HostConfig)
    → at ≢ name
    → lookup name ((at, x) ∷ hosts) ≡ lookup name hosts
unfolding lookup
lookup-behind at name x hosts t = ground (arith, t, eq_iff at name)

module _ (interpolate : String → Host → Option String) (matches : String → Bool)
    (match_string : String) where
  -- The host of a name: with the name for its own if it has none.
  abbrev pub host_of : String → Host → Host
  host_of name h = record h { name = if str_eq h.name "" then name else h.name }

  -- What the pattern is held against: the name, or the match string for the host if there is one.
  abbrev pub text_of : String → Host → Option String
  text_of name h =
      if str_eq match_string "" then some name else interpolate match_string (host_of name h)

  -- The text of the host can be made and matches.
  abbrev pub matched : Option String → Bool
  matched none = false
  matched (some text) = matches text

  -- What is chosen for a name, `old` being what was chosen before.
  abbrev pub choose : String → Option Host → Option Host → Option Host
  choose name none old = old
  choose name (some h) old = if matched (text_of name h) then some (host_of name h) else old

  host_of-named : (name : String) (h : Host) → named name h ≡ host_of name h
  host_of-named name h = refl

  text_of-match_text :
      (name : String) (h : Host)
      → match_text interpolate match_string name (named name h) ≡ text_of name h
  unfolding match_text
  text_of-match_text name h = refl

  -- What is chosen of one host, whose text is `text`.
  abbrev chosen_with : String → Host → String → HostConfig → HostConfig
  chosen_with at x text chosen = if matches text then insert at (named at x) chosen else chosen

  filter_from-cons :
      (at : String) (x : Host) (hosts chosen : HostConfig) (text : String)
      → match_text interpolate match_string at (named at x) ≡ some text
      → filter_from interpolate matches match_string ((at, x) ∷ hosts) chosen
        ≡ filter_from interpolate matches match_string hosts (chosen_with at x text chosen)
  unfolding filter_from
  filter_from-cons at x hosts chosen text n = rw (n, filter_from) refl

  filter_from-stops :
      (at : String) (x : Host) (hosts chosen : HostConfig)
      → match_text interpolate match_string at (named at x) ≡ none
      → filter_from interpolate matches match_string ((at, x) ∷ hosts) chosen ≡ none
  unfolding filter_from
  filter_from-stops at x hosts chosen n = rw (n, filter_from) refl

  choose-chosen_with :
      (at : String) (x : Host) (chosen : HostConfig) (text : String)
      → match_text interpolate match_string at (named at x) ≡ some text
      → lookup at (chosen_with at x text chosen) ≡ choose at (some x) (lookup at chosen)
  choose-chosen_with at x chosen text n =
      let same : text_of at x ≡ some text = sym (text_of-match_text at x) ∙ n in
      let host = host_of-named at x in
      let chosen_then : choose at (some x) (lookup at chosen)
          ≡ (if matches text then some (host_of at x) else lookup at chosen) =
        ap (λ t. if matched t then some (host_of at x) else lookup at chosen) same in
      elim (Bool-cases (matches text)) [
        | inl e ↦
            ground
              (arith, e, chosen_then, host, lookup-insert at at (named at x) chosen, eq_iff at at)
        | inr e ↦ ground (arith, e, chosen_then)
      ]

  chosen_with-other :
      (at name : String) (x : Host) (chosen : HostConfig) (text : String)
      → at ≢ name
      → lookup name (chosen_with at x text chosen) ≡ lookup name chosen
  chosen_with-other at name x chosen text t = elim (Bool-cases (matches text)) [
    | inl e ↦ rw e (ground (arith, t, lookup-insert at name (named at x) chosen, eq_iff at name))
    | inr e ↦ rw e refl
  ]

  lookup-filter_from :
      (hosts chosen out : HostConfig) (name : String)
      → Distinct hosts
      → filter_from interpolate matches match_string hosts chosen ≡ some out
      → lookup name out ≡ choose name (lookup name hosts) (lookup name chosen)
  unfolding filter_from lookup
  lookup-filter_from [] chosen out name d h = cc
  lookup-filter_from ((at, x) ∷ hosts) chosen out name (fresh, d) h =
      elim (Option-cases (match_text interpolate match_string at (named at x))) [
        | inl n ↦ ground (arith, filter_from-stops at x hosts chosen n, h)
        | inr (text, n) ↦
            let rest =
              lookup-filter_from hosts (chosen_with at x text chosen) out name d
                (sym (filter_from-cons at x hosts chosen text n) ∙ h) in
            elim (String-cases at name) [
              | inl t ↦
                  subst
                    (λ k.
                      lookup k out
                        ≡ choose k (lookup k hosts) (lookup k (chosen_with at x text chosen))
                      → lookup k out ≡ choose k (lookup k ((at, x) ∷ hosts)) (lookup k chosen))
                    t
                    (λ r.
                      r
                      ∙ ap (λ o. choose at o (lookup at (chosen_with at x text chosen))) fresh
                      ∙ choose-chosen_with at x chosen text n
                      ∙ ap (λ o. choose at o (lookup at chosen)) (sym (lookup-first at x hosts)))
                    rest
              | inr t ↦
                  rest
                  ∙ ap (choose name (lookup name hosts)) (chosen_with-other at name x chosen text t)
                  ∙ ap (λ o. choose name o (lookup name chosen))
                      (sym (lookup-behind at name x hosts t))
            ]
      ]

-- The hosts that are chosen of a hosts file whose names are distinct, when the pattern compiles and
-- the match text of every host can be made: under each name stands the host of that name in the
-- file, with the name for its own if it has none, exactly if its match text matches the pattern,
-- which is the name if there is no match string.
pub filter_hosts-chosen :
    (compile : String → Option (String → Bool)) (interpolate : String → Host → Option String)
    (hosts out : HostConfig) (pattern match_string name : String) (matches : String → Bool)
    → Distinct hosts
    → compile pattern ≡ some matches
    → filter_hosts compile interpolate hosts pattern match_string ≡ some out
    → lookup name out ≡ choose interpolate matches match_string name (lookup name hosts) none
unfolding filter_hosts lookup
filter_hosts-chosen compile interpolate hosts out pattern match_string name matches d c h =
    lookup-filter_from interpolate matches match_string hosts [] out name d
      (sym (rw (c, filter_hosts) refl) ∙ h)
