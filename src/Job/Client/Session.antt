-- ===== src/Job/Client/Session.antt =====
-- SSH clients of job/client.go: how one is made, what it answers to questions, and how it runs a
-- command. What is printed on loggers is left out.
use text.Mathlib.Text.{◌==◌ as str_eq}
use x_cuter.Common.Assoc.{lookup}
use x_cuter.Common.Pointwise.{Pointwise}
use x_cuter.Common.{
  ◌≡◌, ◌<◌, ◌≤◌, refl, Bool, true, false, not, Option, Option-cases, none, some, inl, inr, List, [],
  ◌∷◌, ◌++◌, ◌⊎◌, length, if◌then◌else◌, String, All, arith,
}

-- The questions and their answers; a question that is not among them is passed over.
unfoldable pub keyboard_interactive_challenge : List (String × String) → List String → List String
unfolding lookup
keyboard_interactive_challenge answers [] = []
keyboard_interactive_challenge answers (question ∷ questions) =
    let rest = keyboard_interactive_challenge answers questions in
    elim (lookup question answers) [ none ↦ rest | some answer ↦ answer ∷ rest ]

-- A method of `ssh.ClientConfig.Auth`; `G` are signers.
pub data AuthMethod (G : Type 0) : Type 0 where
  public_keys : G → AuthMethod G
  password_method : String → AuthMethod G
  keyboard_interactive_method : List (String × String) → AuthMethod G

-- Why there is no client.
pub data ClientError : Type 0 where
  key_unreadable no_signer dial_failed : ClientError

-- How `session.Wait` and the end of the context come out: which is first, and whether the command
-- has failed.
pub data Waited : Type 0 where
  stopped : Waited
  ended : Bool → Waited

-- What the code uses of package ssh: `P` are private keys, `G` signers, `C` clients and `X` sessions,
-- `K` contexts and `W` writers.
pub record Ssh (S P G C X K W : Type 0) : Type 0 where
  pub read_private_key_file : String → S → Option P
  pub new_signer : P → Option G
  pub dial : String → String → List (AuthMethod G) → S → S × Option C
  pub is_done : K → S → Bool
  pub new_session : C → S → S × Option X
  pub start : X → String → Option W → Option W → S → S × Bool
  pub wait : K → X → S → S × Waited
  pub close : X → S → S

module _ {S P G C X K W : Type 0} (ssh : Ssh S P G C X K W) where
  -- The method for the key file, if there is one.
  unfoldable pub key_methods : String → S → ClientError ⊎ List (AuthMethod G)
  key_methods key_file s =
      if str_eq key_file "" then inr [] else elim (ssh.read_private_key_file key_file s) [
        | none ↦ inl key_unreadable
        | some key ↦ elim (ssh.new_signer key) [
          | none ↦ inl no_signer
          | some signer ↦ inr (public_keys signer ∷ [])
        ]
      ]

  abbrev pub password_methods : String → List (AuthMethod G)
  password_methods password = if str_eq password "" then [] else password_method password ∷ []

  abbrev pub keyboard_methods : List (String × String) → List (AuthMethod G)
  keyboard_methods [] = []
  keyboard_methods (q ∷ qs) = keyboard_interactive_method (q ∷ qs) ∷ []

  -- `createClient`
  unfoldable pub create_client :
      String → String → String → String → List (String × String) → S → S × (ClientError ⊎ C)
  unfolding key_methods
  create_client addr user key_file password interactive s = elim (key_methods key_file s) [
    | inl e ↦ (s, inl e)
    | inr keys ↦
        (let auth = keys ++ (password_methods password ++ keyboard_methods interactive) in
          let (t, client) = ssh.dial addr user auth s in
          elim client [ none ↦ (t, inl dial_failed) | some c ↦ (t, inr c) ])
  ]

  -- `executeCommand`, with whether it gives no error.
  unfoldable pub execute_command : C → K → String → Option W → Option W → S → S × Bool
  execute_command c k command stdout stderr s =
      if ssh.is_done k s
      then (s, true)
      else (let (t, session) = ssh.new_session c s in
          elim session [
            | none ↦ (t, false)
            | some x ↦
                (let (u, started) = ssh.start x command stdout stderr t in
                  if not started
                  then (ssh.close x u, false)
                  else (let (v, waited) = ssh.wait k x u in
                      (ssh.close x v, elim waited [ stopped ↦ true | ended failed ↦ not failed ])))
          ])

-- When every question has an answer, the answers are those of the questions, one by one.
challenge-Pointwise :
    (answers : List (String × String)) (questions : List String)
    → All (λ q. (a : String) × (lookup q answers ≡ some a)) questions
    → Pointwise
        (λ q a. lookup q answers ≡ some a)
        questions
        (keyboard_interactive_challenge answers questions)
unfolding keyboard_interactive_challenge
challenge-Pointwise answers [] h = tt
challenge-Pointwise answers (q ∷ questions) ((a, known), h) =
    simp (known, keyboard_interactive_challenge) (refl, challenge-Pointwise answers questions h)

length-challenge :
    (answers : List (String × String)) (questions : List String)
    → length (keyboard_interactive_challenge answers questions) ≤ length questions
unfolding keyboard_interactive_challenge
length-challenge answers [] = omega arith
length-challenge answers (p ∷ questions) =
    let rest = length-challenge answers questions in
    elim (Option-cases (lookup p answers)) [
      | inl n ↦ simp (n, keyboard_interactive_challenge) (omega arith)
      | inr (a, n) ↦ simp (n, keyboard_interactive_challenge) (omega arith)
    ]

one_more :
    (answers : List (String × String)) (p : String) (questions : List String)
    → length (keyboard_interactive_challenge answers questions) < length questions
    → length (keyboard_interactive_challenge answers (p ∷ questions)) < length (p ∷ questions)
unfolding keyboard_interactive_challenge
one_more answers p questions h = elim (Option-cases (lookup p answers)) [
  | inl n ↦ simp (n, keyboard_interactive_challenge) (omega arith)
  | inr (a, n) ↦ simp (n, keyboard_interactive_challenge) (omega arith)
]

-- A question without an answer makes the answers too few, whatever the others are.
challenge-few :
    (answers : List (String × String)) (before : List String) (q : String) (after : List String)
    → lookup q answers ≡ none
    → length (keyboard_interactive_challenge answers (before ++ q ∷ after))
      < length (before ++ q ∷ after)
unfolding keyboard_interactive_challenge
challenge-few answers [] q after h =
    let rest = length-challenge answers after in
    let few : length (keyboard_interactive_challenge answers (q ∷ after)) < length (q ∷ after) =
      simp (h, keyboard_interactive_challenge) (omega arith) in
    few
challenge-few answers (p ∷ before) q after h =
    one_more answers p (before ++ q ∷ after) (challenge-few answers before q after h)
