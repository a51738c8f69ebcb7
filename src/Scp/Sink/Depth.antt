-- ===== src/Scp/Sink/Depth.antt =====
-- The nesting of directories in the sink under -r, and where the machine for -r -p loses count.
use x_cuter.Common.{
  ◌≡◌, ◌≢◌, subst, refl, ap, ◌∙◌, true, false, Option, none, some, List, [], ◌∷◌, ◌++◌, arith,
  Bool-cases, inl, inr, Bytes, All, All-append, length, pos, negsuc, increment, decrement,
  if◌then◌else◌,
}
use x_cuter.Scp.FilePath.Stacks.{IsPlain, path_of, join-path_of, clean-split-path_of}
use x_cuter.Scp.FilePath.{join, dir, same_path}
use x_cuter.Scp.Imp.Effects.{effect_path, process_c-Touches, process_d-enters, process_d-touches}
use x_cuter.Scp.Imp.{Env, ScpImp, process, process_e, process_t, target, file_path}
use x_cuter.Scp.Message.{
  ScpMessage, c_message, d_message, e_message, t_message, ScpCMessage, ScpDMessage, ScpEMessage,
}
use x_cuter.Scp.Sink.Ends.{refused, taken, step-StepCases}
use x_cuter.Scp.Sink.{
  Next, ParserState, no_recurse_times_ct, no_recurse_times_c, no_recurse_no_times_c,
  recurse_times_cdt, recurse_times_cdet, recurse_times_cd, recurse_no_times_cd,
  recurse_no_times_cde, Parser, step, proceed, parser_start, is_zero, shallower, deeper,
}

-- A path of the target directory or below it: that of the directory, and names behind it that are
-- single pieces of a path, not "..".
pub data Beneath (base : List Bytes) (path : Bytes) : Type 0 where
  beneath :
      (names : List Bytes) → All IsPlain names → path ≡ path_of (names ++ base) → Beneath base path

-- A message whose name, if it has one, is one piece of a path.
abbrev pub HasPlainName : ScpMessage → Type 0
HasPlainName (c_message m) = IsPlain m.name
HasPlainName (d_message m) = IsPlain m.name
HasPlainName (e_message m) = Unit
HasPlainName (t_message m) = Unit

-- The machine for -r without -p: it knows whether it is in a directory of the transfer.
abbrev pub AtLevel : ParserState → List Bytes → Type 0
AtLevel recurse_no_times_cd names = names ≡ []
AtLevel recurse_no_times_cde names = names ≢ []
AtLevel _ names = ⊥

-- The directories that were entered, the last one first, are counted by the depth and stand on the
-- target directory `base`; nothing outside of it was touched.
pub record Within (base : List Bytes) (st : ParserState) (p : Parser) : Type 0 where
  pub names : List Bytes
  pub plain : All IsPlain names
  pub depth_is : p.depth ≡ pos (length names)
  pub dir_is : p.s.dir ≡ path_of (names ++ base)
  pub level : AtLevel st names
  pub inside : All (λ e. Beneath base (effect_path e)) p.s.effects

-- Where the machine goes on, it keeps the count; behind an error it does not.
abbrev pub WithinUnlessEnded : List Bytes → Option ParserState → Parser → Type 0
WithinUnlessEnded base none p = Unit
WithinUnlessEnded base (some st) p = Within base st p

module _ (env : Env) (base : List Bytes) (base_plain : All IsPlain base) where
  target-Beneath :
      (names : List Bytes) (name : Bytes)
      → All IsPlain names
      → IsPlain name
      → Beneath base (target (path_of (names ++ base)) name)
  unfolding target file_path
  target-Beneath names name hs h =
      let all = All-append IsPlain names base hs base_plain in
      let once = join-path_of (names ++ base) name all h in
      elim (Bool-cases (same_path (dir (path_of (names ++ base))) (path_of (names ++ base)))) [
        | inl e ↦
            beneath (name ∷ name ∷ names) (h, (h, hs))
              (rw (e, once) (join-path_of (name ∷ (names ++ base)) name (h, all) h))
        | inr e ↦ beneath (name ∷ names) (h, hs) (rw (e, once))
      ]

  proceed_ok :
      (next st : ParserState) (p p' : Parser) (msg : ScpMessage)
      → proceed env next p msg ≡ (some st, p')
      → ((process env msg p.s).1 ≡ none)
        × (st ≡ next)
        × (p'.depth ≡ p.depth)
        × (p'.s ≡ (process env msg p.s).0)
  unfolding proceed
  proceed_ok next st p p' msg h = ground arith

  c-Within :
      (st next st' : ParserState) (p p' : Parser) (m : ScpCMessage)
      → (w : Within base st p) → IsPlain m.name
      → AtLevel next w.names
      → proceed env next p (c_message m) ≡ (some st', p')
      → Within base st' p'
  unfolding process
  c-Within st next st' p p' m w h l e =
      let (good, same, depth, s) = proceed_ok next st' p p' (c_message m) e in
      let t =
        process_c-Touches (Beneath base) env m p.s
          (rw w.dir_is (target-Beneath w.names m.name w.plain h)) in
      record {
        names = w.names;
        plain = w.plain;
        depth_is = depth ∙ w.depth_is;
        dir_is = ap (λ (q : ScpImp). q.dir) s ∙ t.same_dir ∙ w.dir_is;
        level = rw same l;
        inside = rw s (t.touched w.inside);
      }

  d-Within :
      (st st' : ParserState) (p p' : Parser) (m : ScpDMessage)
      → Within base st p
      → IsPlain m.name
      → proceed env recurse_no_times_cde (deeper p) (d_message m) ≡ (some st', p')
      → Within base st' p'
  unfolding process
  d-Within st st' p p' m w h e =
      let (good, same, depth, s) =
        proceed_ok recurse_no_times_cde st' (deeper p) p' (d_message m) e in
      let all = All-append IsPlain w.names base w.plain base_plain in
      let entered : join p.s.dir m.name ≡ path_of (m.name ∷ (w.names ++ base)) =
        rw w.dir_is (join-path_of (w.names ++ base) m.name all h) in
      let (moved, touched) =
        process_d-enters (Beneath base) env m p.s good
          (beneath (m.name ∷ w.names) (h, w.plain) entered) in
      record {
        names = m.name ∷ w.names;
        plain = (h, w.plain);
        depth_is = depth ∙ ap increment w.depth_is;
        dir_is = ap (λ (q : ScpImp). q.dir) s ∙ moved ∙ entered;
        level = rw same (λ z. cc);
        inside = rw s (touched w.inside);
      }

  ne_nil-cons :
      (names : List Bytes) → names ≢ [] → (n : Bytes) × (ns : List Bytes) × (names ≡ n ∷ ns)
  ne_nil-cons [] h = absurd (h refl)
  ne_nil-cons (n ∷ ns) h = (n, ns, refl)

  level_of :
      (ns : List Bytes)
      → AtLevel (if is_zero (pos (length ns)) then recurse_no_times_cd else recurse_no_times_cde) ns
  level_of [] = refl
  level_of (n ∷ ns) = λ z. cc

  e-Within :
      (st st' : ParserState) (p p' : Parser) (m : ScpEMessage)
      → (w : Within base st p) → w.names ≢ []
      → let q = shallower p in
        proceed env
            (if is_zero q.depth then recurse_no_times_cd else recurse_no_times_cde)
            q
            (e_message m)
          ≡ (some st', p')
        → Within base st' p'
  unfolding process process_e
  e-Within st st' p p' m w ne e =
      let q = shallower p in
      let (n, ns, split_names) = ne_nil-cons w.names ne in
      let (good, same, depth, s) = proceed_ok _ st' q p' (e_message m) e in
      let (h, hs) : All IsPlain (n ∷ ns) = rw split_names at w.plain in
      let depth_q : q.depth ≡ pos (length ns) = rw (w.depth_is, split_names) in
      record {
        names = ns;
        plain = hs;
        depth_is = depth ∙ depth_q;
        dir_is =
            ap (λ (t : ScpImp). t.dir) s
            ∙ rw (w.dir_is, split_names)
                (clean-split-path_of n (ns ++ base) (All-append IsPlain ns base hs base_plain) h);
        level = rw (same, depth_q) (level_of ns);
        inside = rw s w.inside;
      }

  -- Every message that the machine takes keeps the count, the directory and the bounds.
  step-Within :
      (st st' : ParserState) (p p' : Parser) (msg : ScpMessage)
      → Within base st p
      → HasPlainName msg
      → step env st p msg ≡ (some st', p')
      → Within base st' p'
  unfolding step
  step-Within recurse_no_times_cd st' p p' (c_message m) w h e =
      c-Within recurse_no_times_cd recurse_no_times_cd st' p p' m w h w.level e
  step-Within recurse_no_times_cd st' p p' (d_message m) w h e =
      d-Within recurse_no_times_cd st' p p' m w h e
  step-Within recurse_no_times_cd st' p p' (e_message m) w h e = cc
  step-Within recurse_no_times_cd st' p p' (t_message m) w h e = cc
  step-Within recurse_no_times_cde st' p p' (c_message m) w h e =
      c-Within recurse_no_times_cde recurse_no_times_cde st' p p' m w h w.level e
  step-Within recurse_no_times_cde st' p p' (d_message m) w h e =
      d-Within recurse_no_times_cde st' p p' m w h e
  step-Within recurse_no_times_cde st' p p' (e_message m) w h e =
      e-Within recurse_no_times_cde st' p p' m w w.level e
  step-Within recurse_no_times_cde st' p p' (t_message m) w h e = cc
  step-Within recurse_times_cdt st' p p' msg w h e = absurd w.level
  step-Within recurse_times_cdet st' p p' msg w h e = absurd w.level
  step-Within recurse_times_cd st' p p' msg w h e = absurd w.level
  step-Within no_recurse_times_ct st' p p' msg w h e = absurd w.level
  step-Within no_recurse_times_c st' p p' msg w h e = absurd w.level
  step-Within no_recurse_no_times_c st' p p' msg w h e = absurd w.level

  -- Every message that the machine takes acts beneath the target, also if it ends in an error.
  process-Inside :
      (st : ParserState) (p : Parser) (msg : ScpMessage)
      → Within base st p
      → HasPlainName msg
      → All (λ e. Beneath base (effect_path e)) (process env msg p.s).0.effects
  unfolding process process_e process_t
  process-Inside st p (c_message m) w h =
      let at : Beneath base (target p.s.dir m.name) =
        rw w.dir_is (target-Beneath w.names m.name w.plain h) in
      (process_c-Touches (Beneath base) env m p.s at).touched w.inside
  process-Inside st p (d_message m) w h =
      let all = All-append IsPlain w.names base w.plain base_plain in
      let entered : join p.s.dir m.name ≡ path_of (m.name ∷ (w.names ++ base)) =
        rw w.dir_is (join-path_of (w.names ++ base) m.name all h) in
      process_d-touches (Beneath base) env m p.s (beneath (m.name ∷ w.names) (h, w.plain) entered)
        w.inside
  process-Inside st p (e_message m) w h = w.inside
  process-Inside st p (t_message m) w h = w.inside

  proceed-s :
      (next : ParserState) (p : Parser) (msg : ScpMessage)
      → (proceed env next p msg).1.s ≡ (process env msg p.s).0
  unfolding proceed
  proceed-s next p msg = ground arith

  step-Inside :
      (st : ParserState) (p : Parser) (msg : ScpMessage)
      → Within base st p
      → HasPlainName msg
      → All (λ e. Beneath base (effect_path e)) (step env st p msg).1.s.effects
  step-Inside st p msg w h = elim (step-StepCases env st p msg) [
    | refused e ↦ rw e w.inside
    | taken next p' e same _ ↦ rw (e, proceed-s next p' msg, same) (process-Inside st p msg w h)
  ]

  step-WithinUnlessEnded :
      (st : ParserState) (after : Option ParserState) (p p' : Parser) (msg : ScpMessage)
      → Within base st p
      → HasPlainName msg
      → step env st p msg ≡ (after, p')
      → All (λ e. Beneath base (effect_path e)) p'.s.effects × WithinUnlessEnded base after p'
  step-WithinUnlessEnded st none p p' msg w h e = (
    subst (λ (x : Next). All (λ e. Beneath base (effect_path e)) x.1.s.effects) e
        (step-Inside st p msg w h),
    tt,
  )
  step-WithinUnlessEnded st (some st') p p' msg w h e =
      let w' = step-Within st st' p p' msg w h e in (w'.inside, w')

-- The states that the loop of the sink goes through: before each message the reader has moved on.
-- Behind an error there is no next state.
pub data Reached (env : Env) (st₀ : ParserState) (p₀ : Parser)
    : Option ParserState → Parser → Type 0 where
  here : Reached env st₀ p₀ (some st₀) p₀
  next :
      {st : ParserState} {after : Option ParserState} {p p' : Parser} (rest : Bytes)
      (msg : ScpMessage)
      → Reached env st₀ p₀ (some st) p
      → HasPlainName msg
      → step env st (record p { s = record p.s { input = rest } }) msg ≡ (after, p')
      → Reached env st₀ p₀ after p'

-- Under -r without -p, from a target directory of plain names and with nothing done yet, and as
-- long as the names of the messages are single pieces of a path: behind every message, also one that
-- ends in an error, each path that something was done to is that of the target or lies beneath it;
-- and where the machine goes on, the depth is the number of directories entered, the current
-- directory lies that deep beneath the target, and the state is the one that takes an E message just
-- if a directory was entered.
pub Reached-Within :
    (env : Env) (base : List Bytes) (p₀ : Parser) {st : Option ParserState} {p : Parser}
    → All IsPlain base
    → p₀.depth ≡ pos 0
    → p₀.s.dir ≡ path_of base
    → p₀.s.effects ≡ []
    → Reached env (parser_start true false) p₀ st p
    → All (λ e. Beneath base (effect_path e)) p.s.effects × WithinUnlessEnded base st p
unfolding parser_start
Reached-Within env base p₀ b d f e here = (
  rw e tt,
  record { names = []; plain = tt; depth_is = d; dir_is = f; level = refl; inside = rw e tt },
)
Reached-Within env base p₀ b d f e (next {st} {after} {p} {p'} rest msg r h s) =
    let (_, w) = Reached-Within env base p₀ b d f e r in
    step-WithinUnlessEnded env base b st after (record p { s = record p.s { input = rest } }) p' msg
      (record {
        names = w.names;
        plain = w.plain;
        depth_is = w.depth_is;
        dir_is = w.dir_is;
        level = w.level;
        inside = w.inside;
      })
      h s

-- Under -r -p, in the state behind a T message, at depth 0 and in a directory of plain names that
-- is not the root: when a C message is got, the E message that comes next is got too, although
-- no directory was entered. The machine leaves the directory for its parent, with the depth -1,
-- and goes on.
pub c_message-e_message_leaves :
    (env : Env) (x : Bytes) (base : List Bytes) (p p' : Parser) (st : ParserState) (m : ScpCMessage)
    (rest : Bytes) (e : ScpEMessage)
    → IsPlain x
    → All IsPlain base
    → p.depth ≡ pos 0
    → p.s.dir ≡ path_of (x ∷ base)
    → step env recurse_times_cd p (c_message m) ≡ (some st, p')
    → (q : Parser) × (step env st (record p' { s = record p'.s { input = rest } }) (e_message e)
        ≡ (some recurse_times_cdet, q))
      × (q.depth ≡ negsuc 0)
      × (q.s.dir ≡ path_of base)
unfolding step process process_e proceed
c_message-e_message_leaves env x base p p' st m rest e h hs d f got =
    let (good, same, depth, s) =
      proceed_ok env base hs recurse_times_cdet st p p' (c_message m) got in
    let t = process_c-Touches (λ _. Unit {0}) env m p.s tt in
    let depth' : p'.depth ≡ pos 0 = depth ∙ d in
    let dir' : p'.s.dir ≡ path_of (x ∷ base) = ap (λ (q : ScpImp). q.dir) s ∙ t.same_dir ∙ f in
    let q : Parser = record p' {
      s = (process_e e (record p'.s { input = rest })).0;
      depth = decrement p'.depth;
    } in
    (q, rw (same, depth') refl, ap decrement depth', rw dir' (clean-split-path_of x base hs h))
