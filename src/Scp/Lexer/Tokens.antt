-- ===== src/Scp/Lexer/Tokens.antt =====
-- The tokens of a text whose pieces are encodings of runes: what `run` sends for each piece.
use mathlib.Core.List.{append_assoc}
use x_cuter.Common.{
  ℕ, zero, suc, ◌+◌, ◌<◌, ◌≡◌, ◌≢◌, refl, sym, ap, subst, ◌∙◌, Bool, true, false, some, List, [],
  ◌∷◌, ◌++◌, map, arith, ltb, ◌⊎◌, All, Bytes, length, drop, drop-add, take-length-append,
  drop-length-append, length-append,
}
use x_cuter.Scp.Lexer.Bounds.{accept_run_total, run_total}
use x_cuter.Scp.Lexer.{
  LexReader, get_data, next, backup, AcceptFn, is_number, is_path_character, StateFn, lex_type,
  lex_number, lex_space, lex_name, lex_end, State, LexItem, ItemType, ItemVal, text, item_typ,
  item_name, item_number, item_space, item_end, emit, accepts, accept_loop, accept_run, call,
  choose, run, start, number, space, end, name,
}
use x_cuter.Scp.Strconv.RoundTrip.{IsDigit, IsNumeral}
use x_cuter.Scp.Utf8.Width.{decode_rune_ascii, ascii-Encodes_cons}
use x_cuter.Scp.Utf8.{rune_error, decode_rune, Encodes, unicode_is_number, done, rune}

next_lem :
    (l : LexReader) (r w : ℕ)
    → decode_rune (drop l.cur l.data_bytes) ≡ (r, w)
    → r ≢ rune_error
    → next l ≡ (some r, record l { cur = l.cur + w; pos = l.pos + 1; width = w })
unfolding next
next_lem l r w d h = rw d (ground arith)

-- The reader behind the bytes `piece` of the rune `r`.
record Behind (l : LexReader) (r : ℕ) (piece more : Bytes) : Type 0 where
  reader : LexReader
  read : next l ≡ (some r, reader)
  same_bytes : reader.data_bytes ≡ l.data_bytes
  moved : reader.cur ≡ l.cur + length piece
  left : drop reader.cur reader.data_bytes ≡ more

next-Behind :
    (l : LexReader) (r : ℕ) (piece more : Bytes)
    → decode_rune (piece ++ more) ≡ (r, length piece)
    → r ≢ rune_error
    → drop l.cur l.data_bytes ≡ piece ++ more
    → Behind l r piece more
next-Behind l r piece more dec good d = record {
  reader = record l { cur = l.cur + length piece; pos = l.pos + 1; width = length piece };
  read = next_lem l r (length piece) (rw d dec) good;
  same_bytes = refl;
  moved = refl;
  left = rw (drop-add l.cur (length piece) l.data_bytes, d) (drop-length-append piece more);
}

-- An item without its position.
abbrev pub strip : LexItem → ItemType × ItemVal
strip i = (i.item_type, i.val)

module _ (wide : ℕ → Bool) where
  -- The runes that the function accepts are consumed, up to an ASCII byte that it does not accept.
  accept_loop-Encodes :
      (fuel : ℕ) (f : AcceptFn) (l : LexReader) (tok : Bytes) (c : ℕ) (rest : Bytes)
      → Encodes (accepts wide f) tok
      → drop l.cur l.data_bytes ≡ tok ++ (c ∷ rest)
      → length tok < fuel
      → ltb c 0x80 ≡ true
      → accepts wide f c ≡ false
      → (l' : LexReader) × (accept_loop wide fuel f l ≡ some (true, l'))
        × (l'.data_bytes ≡ l.data_bytes)
        × (l'.cur ≡ l.cur + length tok)
  unfolding accept_loop
  accept_loop-Encodes zero f l tok c rest enc d h a n = elim h [ ]
  accept_loop-Encodes (suc fuel) f l tok c rest done d h a n =
      let e = next_lem l c 1 (rw d (decode_rune_ascii c rest a)) (λ p. ground arith) in
      (
        backup (record l { cur = l.cur + 1; pos = l.pos + 1; width = 1 }),
        ground arith,
        refl,
        omega arith,
      )
  accept_loop-Encodes (suc fuel) f l tok c rest (rune r x piece others dec good ok enc all) d h a
        n =
      let b =
        next-Behind l r (x ∷ piece) (others ++ (c ∷ rest)) (dec _) good
          (d ∙ rw (all, append_assoc)) in
      let size : length tok ≡ suc (length piece + length others) =
        rw all (ap suc (length-append piece others)) in
      let (l', e, s, m) =
        accept_loop-Encodes fuel f b.reader others c rest enc b.left (omega arith) a n in
      (l', ground (arith, b.read), s ∙ b.same_bytes, omega (arith, b.moved))

  -- From these states, at the front of these bytes, `run` sends items whose types and values
  -- fulfil `P`.
  unfoldable pub Lexed : List State → Bytes → (List (ItemType × ItemVal) → Type 0) → Type 0
  Lexed states b P =
      (fuel : ℕ) (l : LexReader)
      → l.cur ≡ 0
      → l.data_bytes ≡ b
      → length b < fuel
      → (items : List LexItem) × (run wide fuel states l ≡ some items) × P (map strip items)

  run_round :
      (fuel : ℕ) (s : State) (ss states : List State) (l l' l'' : LexReader) (c : ℕ) (f : StateFn)
      (sent later : List LexItem)
      → next l ≡ (some c, l')
      → choose wide (s ∷ ss) c ≡ some f
      → call wide f l' ≡ some (l'', sent, states)
      → run wide fuel states l'' ≡ some later
      → run wide (suc fuel) (s ∷ ss) l ≡ some (sent ++ later)
  unfolding run
  run_round fuel s ss states l l' l'' c f sent later e ch k r = ground arith

  Lexed-nil : (b : Bytes) (P : List (ItemType × ItemVal) → Type 0) → P [] → Lexed [] b P
  unfolding run Lexed
  Lexed-nil b P p zero l z d h = elim h [ ]
  Lexed-nil b P p (suc fuel) l z d h = ([], refl, p)

  -- One round of `run` that emits the token `piece ++ more` as an item of type `t`.
  Lexed-cons :
      (s : State) (ss states : List State) (f : StateFn) (t : ItemType) (r x : ℕ)
      (piece more rest : Bytes) (P : List (ItemType × ItemVal) → Type 0)
      → ((z : Bytes) → decode_rune (x ∷ (piece ++ z)) ≡ (r, length (x ∷ piece)))
      → r ≢ rune_error
      → choose wide (s ∷ ss) r ≡ some f
      → ((l : LexReader)
          → drop l.cur l.data_bytes ≡ more ++ rest
          → (l' : LexReader) × (call wide f l ≡ some (emit l' t states))
            × (l'.data_bytes ≡ l.data_bytes)
            × (l'.cur ≡ l.cur + length more))
      → Lexed states rest (λ ts. P ((t, text (x ∷ (piece ++ more))) ∷ ts))
      → Lexed (s ∷ ss) (x ∷ (piece ++ (more ++ rest))) P
  unfolding Lexed
  Lexed-cons s ss states f t r x piece more rest P dec good ch called later zero l z d h =
      elim h [ ]
  Lexed-cons s ss states f t r x piece more rest P dec good ch called later (suc fuel) l z d h =
      let b = next-Behind l r (x ∷ piece) (more ++ rest) (dec _) good (rw (z, d)) in
      let (l', e, same, moved) = called b.reader b.left in
      let cur : l'.cur ≡ length (x ∷ (piece ++ more)) =
        omega (arith, b.moved, length-append piece more) in
      let bytes : l'.data_bytes ≡ (x ∷ (piece ++ more)) ++ rest =
        same ∙ b.same_bytes ∙ d ∙ rw append_assoc in
      let got : (get_data l').0 ≡ x ∷ (piece ++ more) =
        rw (cur, bytes) (take-length-append (x ∷ (piece ++ more)) rest) in
      let (items, ran, p) =
        later fuel (get_data l').1 refl
          (rw (cur, bytes) (drop-length-append (x ∷ (piece ++ more)) rest))
          (omega (arith, length-append piece (more ++ rest), length-append more rest)) in
      (
        record { item_type = t; val = text (get_data l').0; pos = l'.pos } ∷ items,
        run_round fuel s ss states l b.reader (get_data l').1 r f _ items b.read ch e ran,
        subst (λ v. P ((t, text v) ∷ map strip items)) (sym got) p,
      )

  -- A token of one byte, where the state function emits what is read.
  Lexed-byte :
      (s : State) (ss states : List State) (f : StateFn) (t : ItemType) (c : ℕ) (rest : Bytes)
      (P : List (ItemType × ItemVal) → Type 0)
      → ltb c 0x80 ≡ true
      → choose wide (s ∷ ss) c ≡ some f
      → ((l : LexReader) → call wide f l ≡ some (emit l t states))
      → Lexed states rest (λ ts. P ((t, text (c ∷ [])) ∷ ts))
      → Lexed (s ∷ ss) (c ∷ rest) P
  Lexed-byte s ss states f t c rest P a ch called =
      Lexed-cons s ss states f t c c [] [] rest P (λ z. decode_rune_ascii c z a) (λ p. ground arith)
        ch (λ l d. (l, called l, refl, omega arith))

  pub Lexed_type :
      (c : ℕ) (rest : Bytes) (P : List (ItemType × ItemVal) → Type 0)
      → choose wide start c ≡ some lex_type
      → ltb c 0x80 ≡ true
      → Lexed (number ∷ end ∷ []) rest (λ ts. P ((item_typ, text (c ∷ [])) ∷ ts))
      → Lexed start (c ∷ rest) P
  unfolding call
  Lexed_type c rest P ch a =
      Lexed-byte _ [] (number ∷ end ∷ []) lex_type item_typ c rest P a ch (λ l. refl)

  pub Lexed_space :
      (rest : Bytes) (P : List (ItemType × ItemVal) → Type 0)
      → Lexed (number ∷ name ∷ []) rest (λ ts. P ((item_space, text (b' ' ∷ [])) ∷ ts))
      → Lexed (space ∷ end ∷ []) (b' ' ∷ rest) P
  unfolding call choose accepts
  Lexed_space rest P =
      Lexed-byte space (end ∷ []) (number ∷ name ∷ []) lex_space item_space b' ' rest P refl refl
        (λ l. refl)

  -- The newline ends the message from every set of states that leads to lexEnd there.
  pub Lexed_end :
      (s : State) (ss : List State) (rest : Bytes) (P : List (ItemType × ItemVal) → Type 0)
      → choose wide (s ∷ ss) b'\n' ≡ some lex_end
      → P ((item_end, text (b'\n' ∷ [])) ∷ [])
      → Lexed (s ∷ ss) (b'\n' ∷ rest) P
  unfolding call
  Lexed_end s ss rest P ch p =
      Lexed-byte s ss [] lex_end item_end b'\n' rest P refl ch (λ l. refl)
        (Lexed-nil rest (λ ts. P ((item_end, text (b'\n' ∷ [])) ∷ ts)) p)

  accept_run-Encodes :
      (f : AcceptFn) (l : LexReader) (tok : Bytes) (c : ℕ) (rest : Bytes)
      → Encodes (accepts wide f) tok
      → drop l.cur l.data_bytes ≡ tok ++ (c ∷ rest)
      → ltb c 0x80 ≡ true
      → accepts wide f c ≡ false
      → (l' : LexReader) × (accept_run wide f l ≡ some (true, l'))
        × (l'.data_bytes ≡ l.data_bytes)
        × (l'.cur ≡ l.cur + length tok)
  unfolding accept_run
  accept_run-Encodes f l tok c rest enc d =
      accept_loop-Encodes (suc (length (drop l.cur l.data_bytes))) f l tok c rest enc d
        (rw d (omega (arith, length-append tok (c ∷ rest))))

  number_digit : (c : ℕ) → IsDigit c → (ltb c 0x80 ≡ true) × (accepts wide is_number c ≡ true)
  unfolding accepts unicode_is_number
  number_digit c h = ground arith

  digits-Encodes : (s : Bytes) → All IsDigit s → Encodes (accepts wide is_number) s
  digits-Encodes [] h = done
  digits-Encodes (c ∷ cs) (h, hs) =
      ascii-Encodes_cons (accepts wide is_number) c cs (number_digit c h) (digits-Encodes cs hs)

  call_number :
      (tok : Bytes) (c : ℕ) (rest : Bytes) (l : LexReader)
      → All IsDigit tok
      → (c ≡ b' ') ⊎ (c ≡ b'\n')
      → drop l.cur l.data_bytes ≡ tok ++ (c ∷ rest)
      → (l' : LexReader) × (call wide lex_number l ≡ some (emit l' item_number (space ∷ end ∷ [])))
        × (l'.data_bytes ≡ l.data_bytes)
        × (l'.cur ≡ l.cur + length tok)
  unfolding call
  call_number tok c rest l h e d =
      let stops : accepts wide is_number c ≡ false =
        unfold accepts unicode_is_number in ground arith in
      let (l', ran, same, moved) =
        accept_run-Encodes is_number l tok c rest (digits-Encodes tok h) d (ground arith) stops in
      (l', ground arith, same, moved)

  choose_number :
      (ss : List State) (c : ℕ) → IsDigit c → choose wide (number ∷ ss) c ≡ some lex_number
  unfolding choose accepts unicode_is_number
  choose_number ss c h = ground arith

  -- A number goes up to the blank or the newline behind it.
  pub Lexed_number :
      (ss : List State) (s : Bytes) (c : ℕ) (rest : Bytes) (P : List (ItemType × ItemVal) → Type 0)
      → IsNumeral s
      → (c ≡ b' ') ⊎ (c ≡ b'\n')
      → Lexed (space ∷ end ∷ []) (c ∷ rest) (λ ts. P ((item_number, text s) ∷ ts))
      → Lexed (number ∷ ss) (s ++ (c ∷ rest)) P
  Lexed_number ss s c rest P h e later =
      let (d, ds) : All IsDigit (h.first ∷ h.others) = rw h.not_empty at h.digits in
      rw h.not_empty (
        Lexed-cons number ss (space ∷ end ∷ []) lex_number item_number h.first h.first [] h.others
          (c ∷ rest) P (λ z. decode_rune_ascii h.first z (ground arith)) (λ p. ground arith)
          (choose_number ss h.first d) (λ l. call_number h.others c rest l ds e)
          (subst (λ v. Lexed (space ∷ end ∷ []) (c ∷ rest) (λ ts. P ((item_number, text v) ∷ ts)))
            h.not_empty later))

  -- Whatever follows a digit, the first item is a number.
  pub Lexed_digit :
      (ss : List State) (c : ℕ) (rest : Bytes) (P : List (ItemType × ItemVal) → Type 0)
      → IsDigit c
      → ((v : ItemVal) (ts : List (ItemType × ItemVal)) → P ((item_number, v) ∷ ts))
      → Lexed (number ∷ ss) (c ∷ rest) P
  unfolding Lexed
  Lexed_digit ss c rest P d p zero l z e h = elim h [ ]
  Lexed_digit ss c rest P d p (suc fuel) l z e h =
      let b =
        next-Behind l c (c ∷ []) rest (decode_rune_ascii c rest (ground arith)) (λ q. ground arith)
          (rw (z, e)) in
      let (accepted, l', ran, u) = accept_run_total wide is_number b.reader in
      let called : call wide lex_number b.reader ≡ some (emit l' item_number (space ∷ end ∷ [])) =
        unfold call in ground arith in
      let (later, ran_on) =
        run_total wide fuel (space ∷ end ∷ []) (get_data l').1 (omega (arith, ap length b.left)) in
      let item : LexItem = record {
        item_type = item_number;
        val = text (get_data l').0;
        pos = l'.pos;
      } in
      (
        item ∷ later,
        run_round fuel number ss (space ∷ end ∷ []) l b.reader (get_data l').1 c lex_number _ later
            b.read (choose_number ss c d) called ran_on,
        p _ _,
      )

  call_name :
      (tok rest : Bytes) (l : LexReader)
      → Encodes (accepts wide is_path_character) tok
      → drop l.cur l.data_bytes ≡ tok ++ (b'\n' ∷ rest)
      → (l' : LexReader) × (call wide lex_name l ≡ some (emit l' item_name (end ∷ [])))
        × (l'.data_bytes ≡ l.data_bytes)
        × (l'.cur ≡ l.cur + length tok)
  unfolding call
  call_name tok rest l enc d =
      let stops : accepts wide is_path_character b'\n' ≡ false = unfold accepts in refl in
      let (l', ran, same, moved) =
        accept_run-Encodes is_path_character l tok b'\n' rest enc d refl stops in
      (l', ground arith, same, moved)

-- The names that the lexer reads as such: UTF-8 with no newline (and no U+FFFD), not empty, whose
-- first rune is no number.
pub record IsName (wide : ℕ → Bool) (s : Bytes) : Type 0 where
  pub first_rune : ℕ
  pub first_byte : ℕ
  pub piece : Bytes
  pub others : Bytes
  pub decodes :
      (z : Bytes)
      → decode_rune (first_byte ∷ (piece ++ z)) ≡ (first_rune, length (first_byte ∷ piece))
  pub not_error : first_rune ≢ rune_error
  pub not_newline : first_rune ≢ b'\n'
  pub not_number : unicode_is_number wide first_rune ≡ false
  pub rest_encodes : Encodes (accepts wide is_path_character) others
  pub splits : s ≡ first_byte ∷ (piece ++ others)

pub Lexed_name :
    (wide : ℕ → Bool) (s rest : Bytes) (P : List (ItemType × ItemVal) → Type 0)
    → IsName wide s
    → Lexed wide (end ∷ []) (b'\n' ∷ rest) (λ ts. P ((item_name, text s) ∷ ts))
    → Lexed wide (number ∷ name ∷ []) (s ++ (b'\n' ∷ rest)) P
unfolding choose accepts
Lexed_name wide s rest P h later =
    rw (h.splits, append_assoc)
      (Lexed-cons wide number (name ∷ []) (end ∷ []) lex_name item_name h.first_rune h.first_byte
        h.piece h.others (b'\n' ∷ rest) P h.decodes h.not_error
        (ground (arith, h.not_newline, h.not_number))
        (λ l. call_name wide h.others rest l h.rest_encodes)
        (subst (λ v. Lexed wide (end ∷ []) (b'\n' ∷ rest) (λ ts. P ((item_name, text v) ∷ ts)))
          h.splits later))
