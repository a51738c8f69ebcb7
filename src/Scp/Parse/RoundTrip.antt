-- ===== src/Scp/Parse/RoundTrip.antt =====
-- What the source side prints, the sink side reads back.
use x_cuter.Common.{
  ℕ, ◌^◌, ◌<◌, ◌≡◌, refl, ap, ◌∙◌, inl, inr, Bool, true, false, some, List, [], ◌∷◌, ◌++◌, map,
  arith, ltb, Bytes, length, pos, suc,
}
use x_cuter.Scp.Lexer.Tokens.{
  strip, Lexed, Lexed_type, Lexed_space, Lexed_end, Lexed_number, Lexed_name, Lexed_digit, IsName,
}
use x_cuter.Scp.Lexer.{
  ItemType, ItemVal, text, item_typ, item_name, item_number, item_space, item_end, LexItem,
  LexReader, lex, number, space, end, name, start, accepts, choose, lex_type,
}
use x_cuter.Scp.Message.{
  zero_time, unix, ScpTMessage, ScpMessage, c_message, d_message, e_message, t_message, ScpCMessage,
  ScpDMessage, ScpEMessage, Binder, c_binders, d_binders, e_binders, t_binders, c_string, d_string,
  e_string, t_string,
}
use x_cuter.Scp.Parse.{bind_items, bind_message, parse_items, parse_scp_message, val_text}
use x_cuter.Scp.Result.{Result, ok, err, expected_item}
use x_cuter.Scp.Strconv.RoundTrip.{
  parse_uint-format_uint, parse_uint-format_mode, parse_int-format_uint, decimal-IsNumeral,
  mode-IsNumeral, IsNumeral, IsDigit,
}
use x_cuter.Scp.Utf8.{unicode_is_number}
use x_cuter.Scp.Strconv.{format_uint, format_mode, format_int}

-- Positions have no influence on what is parsed.
abbrev pub restore : ItemType × ItemVal → LexItem
restore (t, v) = record { item_type = t; val = v; pos = 0 }

bind_items-restore :
    {M : Type 0} (bs : List (Binder M)) (items : List LexItem) (m : M)
    → bind_items bs items m ≡ bind_items bs (map restore (map strip items)) m
unfolding bind_items
bind_items-restore [] items m = refl
bind_items-restore (b ∷ bs) [] m = refl
bind_items-restore (b ∷ bs) (i ∷ items) m =
    rw (bind_items-restore bs items (b.bind (val_text i.val) m).0)

bind_message-restore :
    (letter : Bytes) (items : List LexItem)
    → bind_message letter items ≡ bind_message letter (map restore (map strip items))
unfolding bind_message
bind_message-restore [] items = refl
bind_message-restore (a ∷ b ∷ rest) items = refl
bind_message-restore (a ∷ []) items = ground (
  arith,
  bind_items-restore c_binders items (record { mode = 0; length = 0; name = [] }),
  bind_items-restore d_binders items (record { mode = 0; length = 0; name = [] }),
  bind_items-restore e_binders items (record {}),
  bind_items-restore t_binders items (record { a_time = zero_time; m_time = zero_time }),
)

parse_items-restore :
    (items : List LexItem) → parse_items items ≡ parse_items (map restore (map strip items))
unfolding parse_items
parse_items-restore [] = refl
parse_items-restore (i ∷ items) = rw (bind_message-restore (val_text i.val) items)

abbrev front : ℕ → ℕ → ℕ → Bytes → Bytes
front letter mode length rest =
    letter ∷ (format_mode mode ++ (b' ' ∷ (format_uint 10 length ++ (b' ' ∷ rest))))

abbrev front_tokens : ℕ → ℕ → ℕ → List (ItemType × ItemVal) → List (ItemType × ItemVal)
front_tokens letter mode length ts =
    (item_typ, text (letter ∷ []))
    ∷ (item_number, text (format_mode mode))
    ∷ (item_space, text (b' ' ∷ []))
    ∷ (item_number, text (format_uint 10 length))
    ∷ (item_space, text (b' ' ∷ []))
    ∷ ts

abbrev entry_tokens : ℕ → ℕ → ℕ → Bytes → List (ItemType × ItemVal)
entry_tokens letter mode length name =
    front_tokens letter mode length ((item_name, text name) ∷ (item_end, text (b'\n' ∷ [])) ∷ [])

parse-c_tokens :
    (mode length : ℕ) (name : Bytes)
    → mode < 2 ^ 32
    → length < 2 ^ 64
    → parse_items (map restore (entry_tokens b'C' mode length name))
      ≡ ok (c_message (record { mode = mode; length = length; name = name }))
unfolding parse_items c_binders
parse-c_tokens mode length name hm hl =
    rw (parse_uint-format_mode mode hm, parse_uint-format_uint length hl)

parse-d_tokens :
    (mode length : ℕ) (name : Bytes)
    → mode < 2 ^ 32
    → length < 2 ^ 64
    → parse_items (map restore (entry_tokens b'D' mode length name))
      ≡ ok (d_message (record { mode = mode; length = length; name = name }))
unfolding parse_items d_binders
parse-d_tokens mode length name hm hl =
    rw (parse_uint-format_mode mode hm, parse_uint-format_uint length hl)

abbrev e_tokens : List (ItemType × ItemVal)
e_tokens = (item_typ, text (b'E' ∷ [])) ∷ (item_end, text (b'\n' ∷ [])) ∷ []

parse-e_tokens : (m : ScpEMessage) → parse_items (map restore e_tokens) ≡ ok (e_message m)
unfolding parse_items e_binders
parse-e_tokens m = refl

abbrev t_tokens : Bytes → Bytes → List (ItemType × ItemVal)
t_tokens m_time a_time =
    (item_typ, text (b'T' ∷ []))
    ∷ (item_number, text m_time)
    ∷ (item_space, text (b' ' ∷ []))
    ∷ (item_number, text (b'0' ∷ []))
    ∷ (item_space, text (b' ' ∷ []))
    ∷ (item_number, text a_time)
    ∷ (item_space, text (b' ' ∷ []))
    ∷ (item_number, text (b'0' ∷ []))
    ∷ (item_end, text (b'\n' ∷ []))
    ∷ []

parse-t_tokens :
    (m_time a_time : ℕ)
    → m_time < 2 ^ 63
    → a_time < 2 ^ 63
    → parse_items (map restore (t_tokens (format_uint 10 m_time) (format_uint 10 a_time)))
      ≡ ok (t_message (record { a_time = unix a_time; m_time = unix m_time }))
unfolding parse_items t_binders
parse-t_tokens m_time a_time hm ha =
    rw (parse_int-format_uint m_time hm, parse_int-format_uint a_time ha)

zero-IsNumeral : IsNumeral (b'0' ∷ [])
zero-IsNumeral = record { digits = (refl, tt); first = b'0'; others = []; not_empty = refl }

module _ (wide : ℕ → Bool) where
  parse-Lexed :
      (b : Bytes) (r : Result ScpMessage)
      → Lexed wide start b (λ toks. parse_items (map restore toks) ≡ r)
      → parse_scp_message wide b ≡ some r
  unfolding parse_scp_message Lexed
  parse-Lexed b r h =
      let l : LexReader = record { data_bytes = b; cur = 0; pos = 0; width = 0; eof = false } in
      let (items, ran, e) = h (suc (suc (length b))) l refl refl (omega arith) in
      let lexed : lex wide b ≡ some items = unfold lex in ran in
      rw (lexed, parse_scp_message) (ap some (parse_items-restore items ∙ e))

  -- A C or D line, up to its name.
  Lexed_entry :
      (letter mode length : ℕ) (rest : Bytes) (P : List (ItemType × ItemVal) → Type 0)
      → choose wide start letter ≡ some lex_type
      → ltb letter 0x80 ≡ true
      → Lexed wide (number ∷ name ∷ []) rest (λ ts. P (front_tokens letter mode length ts))
      → Lexed wide start (front letter mode length rest) P
  Lexed_entry letter mode length rest P ch a h = Lexed_type wide letter _ _ ch a (
      Lexed_number wide _ (format_mode mode) b' ' _ _ (mode-IsNumeral mode) (inl refl) (
        Lexed_space wide _ _ (
          Lexed_number wide _ (format_uint 10 length) b' ' _ _ (decimal-IsNumeral length) (inl refl)
            (Lexed_space wide _ _ h))))

  -- The items of a printed C message.
  pub c_string-Lexed :
      (m : ScpCMessage) (P : List (ItemType × ItemVal) → Type 0)
      → IsName wide m.name
      → P (entry_tokens b'C' m.mode m.length m.name)
      → Lexed wide start (c_string m) P
  unfolding c_string choose accepts
  c_string-Lexed m P hn h =
      Lexed_entry b'C' m.mode m.length _ P refl refl
        (Lexed_name wide m.name [] _ hn (Lexed_end wide end [] [] _ refl h))

  -- A C message that is printed is read back as it was, if its mode is below 2^32 and its length
  -- below 2^64 and its name is one that the lexer takes for a name.
  pub parse-c_string :
      (m : ScpCMessage)
      → m.mode < 2 ^ 32
      → m.length < 2 ^ 64
      → IsName wide m.name
      → parse_scp_message wide (c_string m) ≡ some (ok (c_message m))
  parse-c_string m hm hl hn =
      parse-Lexed (c_string m) (ok (c_message m))
        (c_string-Lexed m _ hn (parse-c_tokens m.mode m.length m.name hm hl))

  -- The items of a printed D message.
  pub d_string-Lexed :
      (m : ScpDMessage) (P : List (ItemType × ItemVal) → Type 0)
      → IsName wide m.name
      → P (entry_tokens b'D' m.mode m.length m.name)
      → Lexed wide start (d_string m) P
  unfolding d_string choose accepts
  d_string-Lexed m P hn h =
      Lexed_entry b'D' m.mode m.length _ P refl refl
        (Lexed_name wide m.name [] _ hn (Lexed_end wide end [] [] _ refl h))

  -- A D message that is printed is read back as it was, if its mode is below 2^32 and its length
  -- below 2^64 and its name is one that the lexer takes for a name.
  pub parse-d_string :
      (m : ScpDMessage)
      → m.mode < 2 ^ 32
      → m.length < 2 ^ 64
      → IsName wide m.name
      → parse_scp_message wide (d_string m) ≡ some (ok (d_message m))
  parse-d_string m hm hl hn =
      parse-Lexed (d_string m) (ok (d_message m))
        (d_string-Lexed m _ hn (parse-d_tokens m.mode m.length m.name hm hl))

  -- The items of a printed E message.
  pub e_string-Lexed :
      (m : ScpEMessage) (P : List (ItemType × ItemVal) → Type 0)
      → P e_tokens
      → Lexed wide start (e_string m) P
  unfolding e_string choose accepts unicode_is_number
  e_string-Lexed m P h =
      Lexed_type wide b'E' _ P refl refl (Lexed_end wide number (end ∷ []) [] _ refl h)

  -- An E message that is printed is read back as an E message.
  pub parse-e_string :
      (m : ScpEMessage) → parse_scp_message wide (e_string m) ≡ some (ok (e_message m))
  parse-e_string m =
      parse-Lexed (e_string m) (ok (e_message m)) (e_string-Lexed m _ (parse-e_tokens m))

  -- The items of a printed T message.
  pub t_string-Lexed :
      (a_time m_time : ℕ) (P : List (ItemType × ItemVal) → Type 0)
      → P (t_tokens (format_uint 10 m_time) (format_uint 10 a_time))
      → Lexed wide start (t_string (record { a_time = unix a_time; m_time = unix m_time })) P
  unfolding t_string choose accepts format_int
  t_string-Lexed a_time m_time P h = Lexed_type wide b'T' _ P refl refl (
      Lexed_number wide _ (format_uint 10 m_time) b' ' _ _ (decimal-IsNumeral m_time) (inl refl) (
        Lexed_space wide _ _ (
          Lexed_number wide _ (b'0' ∷ []) b' ' _ _ zero-IsNumeral (inl refl) (
            Lexed_space wide _ _ (
              Lexed_number wide _ (format_uint 10 a_time) b' ' _ _ (decimal-IsNumeral a_time)
                (inl refl)
                (Lexed_space wide _ _ (
                  Lexed_number wide _ (b'0' ∷ []) b'\n' _ _ zero-IsNumeral (inr refl)
                    (Lexed_end wide space (end ∷ []) [] _ refl h))))))))

  parse-t_seconds :
      (a_time m_time : ℕ)
      → a_time < 2 ^ 63
      → m_time < 2 ^ 63
      → parse_scp_message wide (t_string (record { a_time = unix a_time; m_time = unix m_time }))
        ≡ some (ok (t_message (record { a_time = unix a_time; m_time = unix m_time })))
  parse-t_seconds a_time m_time ha hm =
      parse-Lexed _ _ (t_string-Lexed a_time m_time _ (parse-t_tokens m_time a_time hm ha))

  -- A T message that is printed is read back with its times cut to whole seconds, if they are not
  -- before 1970 and below 2^63 seconds: the access time and the modification time keep their
  -- seconds and lose their nanoseconds.
  pub parse-t_string :
      (m : ScpTMessage) (a_seconds m_seconds : ℕ)
      → m.a_time.seconds ≡ pos a_seconds
      → m.m_time.seconds ≡ pos m_seconds
      → a_seconds < 2 ^ 63
      → m_seconds < 2 ^ 63
      → parse_scp_message wide (t_string m)
        ≡ some (
            ok (
              t_message (record {
                a_time = record { seconds = m.a_time.seconds; nanos = 0 };
                m_time = record { seconds = m.m_time.seconds; nanos = 0 };
              })))
  unfolding t_string
  parse-t_string m a_seconds m_seconds a e ha hm =
      rw (a, e) (parse-t_seconds a_seconds m_seconds ha hm)

  -- A C message whose name begins with a decimal digit is refused, whatever follows the digit: the
  -- lexer takes the digit for a number.
  pub parse-c_string_digit :
      (m : ScpCMessage) (d : ℕ) (others : Bytes)
      → m.name ≡ d ∷ others
      → IsDigit d
      → parse_scp_message wide (c_string m) ≡ some (err (expected_item item_name item_number))
  unfolding c_string choose accepts parse_items c_binders
  parse-c_string_digit m d others e h = parse-Lexed (c_string m) _ (
      Lexed_entry b'C' m.mode m.length _ _ refl refl
        (rw e (Lexed_digit wide (name ∷ []) d _ _ h (λ v ts. refl))))
