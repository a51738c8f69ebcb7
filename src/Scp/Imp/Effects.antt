-- ===== src/Scp/Imp/Effects.antt =====
-- Which paths the processing of a message touches, and where it leaves the directory.
use x_cuter.Common.{
  ◌∙◌, ◌==◌, ℕ, ◌≡◌, refl, none, [], ◌∷◌, arith, Bool-cases, inl, inr, Bytes, All, All-concat, take,
  drop,
}
use x_cuter.Scp.FilePath.{join}
use x_cuter.Scp.Imp.{
  Env, ScpImp, Effect, create, written, make_dir, change_times, apply_times, finish_file, copies,
  copy_contents, process_c, process_d, target, limit, perform, ack,
}
use x_cuter.Scp.Message.{ScpCMessage, ScpDMessage}

abbrev pub effect_path : Effect → Bytes
effect_path (create path mode) = path
effect_path (written path read) = path
effect_path (make_dir path mode) = path
effect_path (change_times path a m) = path

-- The step from `s` to `t` leaves the directory alone, and acts on paths that fulfil `P`.
pub record Touches (P : Bytes → Type 0) (s t : ScpImp) : Type 0 where
  pub same_dir : t.dir ≡ s.dir
  pub touched : All (λ e. P (effect_path e)) s.effects → All (λ e. P (effect_path e)) t.effects

module _ (P : Bytes → Type 0) where
  abbrev OnP : Effect → Type 0
  OnP e = P (effect_path e)

  apply_times-Touches : (path : Bytes) (s : ScpImp) → P path → Touches P s (apply_times path s)
  unfolding apply_times
  apply_times-Touches path s h = elim (Bool-cases s.time_set) [
    | inl e ↦ rw e (record {
      same_dir = refl;
      touched = λ a. All-concat OnP s.effects (change_times path s.a_time s.m_time) a h;
    })
    | inr e ↦ rw e (record { same_dir = refl; touched = λ a. a })
  ]

  finish_file-Touches : (env : Env) (s : ScpImp) (b : Bytes) → Touches P s (finish_file env s b).0
  unfolding finish_file
  finish_file-Touches env s [] = record { same_dir = refl; touched = λ a. a }
  finish_file-Touches env s (r ∷ rest) = elim (Bool-cases (r == 0)) [
    | inl e ↦ rw e (record { same_dir = refl; touched = λ a. a })
    | inr e ↦ rw e (record { same_dir = refl; touched = λ a. a })
  ]

  Touches-trans : (s t u : ScpImp) → Touches P s t → Touches P t u → Touches P s u
  Touches-trans s t u f g = record {
    same_dir = g.same_dir ∙ f.same_dir;
    touched = λ a. g.touched (f.touched a);
  }

  perform-Touches : (e : Effect) (s : ScpImp) → OnP e → Touches P s (perform e s)
  perform-Touches e s h = record { same_dir = refl; touched = λ a. All-concat OnP s.effects e a h }

  copy_contents-Touches :
      (env : Env) (path : Bytes) (n : ℕ) (s : ScpImp)
      → P path
      → Touches P s (copy_contents env path n s).0
  unfolding copy_contents
  copy_contents-Touches env path n s h =
      let e = written path (take (limit n) s.input) in
      let s' = perform e (record s { input = drop (limit n) s.input }) in
      let wrote : Touches P s s' = record {
        same_dir = refl;
        touched = λ a. All-concat OnP s.effects e a h;
      } in
      elim (Bool-cases (copies env path n s)) [
        | inl c ↦ rw c (
            Touches-trans s (apply_times path s') _
              (Touches-trans s s' (apply_times path s') wrote (apply_times-Touches path s' h))
              (finish_file-Touches env (apply_times path s') (drop (limit n) s.input)))
        | inr c ↦ rw c wrote
      ]

  -- A C message acts on its target alone.
  pub process_c-Touches :
      (env : Env) (m : ScpCMessage) (s : ScpImp)
      → P (target s.dir m.name)
      → Touches P s (process_c env m s).0
  unfolding process_c
  process_c-Touches env m s h =
      let path = target s.dir m.name in
      let s' = perform (create path m.mode) s in
      elim (Bool-cases (env.open_ok s.effects path)) [
        | inl c ↦ rw c (
            Touches-trans s (ack s') _
              (record {
                same_dir = refl;
                touched = λ a. All-concat OnP s.effects (create path m.mode) a h;
              })
              (copy_contents-Touches env path m.length (ack s') h))
        | inr c ↦ rw c (record { same_dir = refl; touched = λ a. a })
      ]

  -- A D message acts on its directory alone, also if it is not processed.
  pub process_d-touches :
      (env : Env) (m : ScpDMessage) (s : ScpImp)
      → P (join s.dir m.name)
      → All OnP s.effects
      → All OnP (process_d env m s).0.effects
  unfolding process_d
  process_d-touches env m s h a =
      let path = join s.dir m.name in
      let made = perform (make_dir path m.mode) (record s { dir = path }) in
      let t = apply_times-Touches path made h in
      elim (Bool-cases (m.length == 0)) [
        | inl z ↦ elim (Bool-cases (env.mkdir_ok s.effects path)) [
          | inl k ↦ rw (z, k) (t.touched (All-concat OnP s.effects (make_dir path m.mode) a h))
          | inr k ↦ rw (z, k) a
        ]
        | inr z ↦ rw z a
      ]

  -- A D message that is processed enters its directory, and acts on that alone.
  pub process_d-enters :
      (env : Env) (m : ScpDMessage) (s : ScpImp)
      → (process_d env m s).1 ≡ none
      → P (join s.dir m.name)
      → ((process_d env m s).0.dir ≡ join s.dir m.name)
        × (All OnP s.effects → All OnP (process_d env m s).0.effects)
  unfolding process_d
  process_d-enters env m s e h =
      let path = join s.dir m.name in
      let made = perform (make_dir path m.mode) (record s { dir = path }) in
      let t = apply_times-Touches path made h in
      elim (Bool-cases (m.length == 0)) [
        | inl z ↦ elim (Bool-cases (env.mkdir_ok s.effects path)) [
          | inl k ↦
              rw (z, k)
                (t.same_dir, λ a. t.touched (All-concat OnP s.effects (make_dir path m.mode) a h))
          | inr k ↦ ground arith
        ]
        | inr z ↦ ground arith
      ]
