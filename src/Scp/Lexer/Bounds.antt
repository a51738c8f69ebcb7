-- ===== src/Scp/Lexer/Bounds.antt =====
-- The lexer ends on every input: the fuel of its loops is enough.
use x_cuter.Common.{
  ℕ, zero, suc, ◌+◌, ◌-◌, ◌≤◌, ◌<◌, ◌≡◌, refl, Bool, true, false, none, some, List, [], ◌∷◌, ◌++◌,
  arith, Bool-cases, Option-cases, inl, inr, Bytes, length, drop, length-drop-add, ◌==◌,
}
use x_cuter.Scp.Lexer.{
  LexReader, next, backup, AcceptFn, StateFn, lex_type, lex_number, lex_space, lex_name, lex_end,
  State, LexItem, Step, emit, accepts, accept_loop, accept_run, call, choose, run, lex, start,
  item_error, unexpected_rune, item_number, item_name, is_number, is_path_character, space, end,
}
use x_cuter.Scp.Utf8.Width.{decode_rune-width}
use x_cuter.Scp.Utf8.{rune_error, decode_rune}

-- The bytes that the reader has not consumed.
abbrev pub unread : LexReader → ℕ
unread l = length (drop l.cur l.data_bytes)

-- What a call of `next` does: the end of the input, or a rune and fewer bytes to read; a backup
-- behind it takes nothing more away.
data NextCases (l : LexReader) : Type 0 where
  at_end : (l' : LexReader) → next l ≡ (none, l') → unread l' ≡ unread l → NextCases l
  at_rune :
      (c : ℕ) (l' : LexReader)
      → next l ≡ (some c, l')
      → unread l' < unread l
      → unread (backup l') ≤ unread l
      → NextCases l

next-NextCases : (l : LexReader) → NextCases l
unfolding next
next-NextCases l =
    let (r, w) = decode_rune (drop l.cur l.data_bytes) in
    elim (Bool-cases (r == rune_error)) [
      | inl e ↦ at_end (record l { width = w }) (rw e) refl
      | inr e ↦
          let width = decode_rune-width (drop l.cur l.data_bytes) (λ p. ground arith) in
          at_rune r (record l { cur = l.cur + w; pos = l.pos + 1; width = w }) (rw e)
            (omega (arith, length-drop-add l.cur w l.data_bytes, width))
            (rw (let k : l.cur + w - w ≡ l.cur = omega arith in k) (omega arith))
    ]

accept_loop_total :
    (wide : ℕ → Bool) (fuel : ℕ) (f : AcceptFn) (l : LexReader)
    → unread l < fuel
    → (b : Bool) × (l' : LexReader) × (accept_loop wide fuel f l ≡ some (b, l'))
      × (unread l' ≤ unread l)
unfolding accept_loop
accept_loop_total wide zero f l h = elim h [ ]
accept_loop_total wide (suc fuel) f l h = elim (next-NextCases l) [
  | at_end l' e u ↦ (false, l', ground arith, omega arith)
  | at_rune c l' e u v ↦ elim (Bool-cases (accepts wide f c)) [
    | inl t ↦
        let (b, m, run_on, less) = accept_loop_total wide fuel f l' (omega arith) in
        (b, m, ground arith, omega arith)
    | inr t ↦ (true, backup l', ground arith, v)
  ]
]

pub accept_run_total :
    (wide : ℕ → Bool) (f : AcceptFn) (l : LexReader)
    → (b : Bool) × (l' : LexReader) × (accept_run wide f l ≡ some (b, l')) × (unread l' ≤ unread l)
unfolding accept_run
accept_run_total wide f l =
    accept_loop_total wide (suc (length (drop l.cur l.data_bytes))) f l (omega arith)

call_total :
    (wide : ℕ → Bool) (f : StateFn) (l : LexReader)
    → (r : Step) × (call wide f l ≡ some r) × (unread r.0 ≤ unread l)
unfolding call
call_total wide lex_type l = (_, refl, omega arith)
call_total wide lex_number l =
    let (b, l', e, u) = accept_run_total wide is_number l in
    (emit l' item_number (space ∷ end ∷ []), ground arith, u)
call_total wide lex_space l = (_, refl, omega arith)
call_total wide lex_name l =
    let (b, l', e, u) = accept_run_total wide is_path_character l in
    elim (Bool-cases b) [
      | inl t ↦ (emit l' item_name (end ∷ []), ground arith, u)
      | inr t ↦ ((l', [], []), ground arith, u)
    ]
call_total wide lex_end l = (_, refl, omega arith)

pub run_total :
    (wide : ℕ → Bool) (fuel : ℕ) (states : List State) (l : LexReader)
    → unread l < fuel
    → (items : List LexItem) × (run wide fuel states l ≡ some items)
unfolding run
run_total wide zero states l h = elim h [ ]
run_total wide (suc fuel) [] l h = ([], refl)
run_total wide (suc fuel) (s ∷ ss) l h = elim (next-NextCases l) [
  | at_end l' e u ↦ ([], ground arith)
  | at_rune c l' e u v ↦ elim (Option-cases (choose wide (s ∷ ss) c)) [
    | inl n ↦ (
      record { item_type = item_error; val = unexpected_rune c; pos = l'.pos } ∷ [],
      ground arith,
    )
    | inr (f, y) ↦
        let ((l'', items, states), k, w) = call_total wide f l' in
        let (later, r) = run_total wide fuel states l'' (omega arith) in
        (items ++ later, ground arith)
  ]
]

-- For every input the lexer comes to an end if all of its items are received.
pub lex_total : (wide : ℕ → Bool) (b : Bytes) → (items : List LexItem) × (lex wide b ≡ some items)
unfolding lex
lex_total wide b = run_total wide (suc (suc (length b))) start _ (omega arith)
