-- ===== src/Scp/Parse/Channel.antt =====
-- The lexer's goroutine behind parseSCPMessage (scp/sink.go), over its channel without a buffer.
use x_cuter.Common.{
  ℕ, ◌≡◌, refl, ap, ◌∙◌, Bool, false, some, List, [], ◌∷◌, map, arith, Bytes, length, suc, pos,
}
use x_cuter.Scp.Lexer.Tokens.{strip, Lexed, IsName}
use x_cuter.Scp.Lexer.{LexItem, LexReader, lex, start}
use x_cuter.Scp.Message.{
  ScpMessage, c_message, d_message, e_message, t_message, Binder, c_binders, d_binders, e_binders,
  t_binders, ScpTMessage, unix, c_string, d_string, e_string, t_string,
}
use x_cuter.Scp.Parse.RoundTrip.{
  restore, c_string-Lexed, d_string-Lexed, e_string-Lexed, t_string-Lexed,
}
use x_cuter.Scp.Parse.{
  unread_by, unread_message, unread, val_text, end_of, closed, lexer_after, LexerEnd,
}

-- Positions have no influence on how many items are received.
end_of-restore : (items : List LexItem) → end_of items ≡ end_of (map restore (map strip items))
end_of-restore [] = refl
end_of-restore (i ∷ items) = refl

unread_by-restore :
    {M : Type 0} (bs : List (Binder M)) (items : List LexItem)
    → end_of (unread_by bs items) ≡ end_of (unread_by bs (map restore (map strip items)))
unfolding unread_by
unread_by-restore [] items = end_of-restore items
unread_by-restore (b ∷ bs) [] = refl
unread_by-restore (b ∷ bs) (i ∷ items) =
    ground (arith, unread_by-restore bs items, end_of-restore items)

unread_message-restore :
    (letter : Bytes) (items : List LexItem)
    → end_of (unread_message letter items)
      ≡ end_of (unread_message letter (map restore (map strip items)))
unfolding unread_message
unread_message-restore [] items = end_of-restore items
unread_message-restore (a ∷ b ∷ rest) items = end_of-restore items
unread_message-restore (a ∷ []) items = ground (
  arith,
  unread_by-restore c_binders items,
  unread_by-restore d_binders items,
  unread_by-restore e_binders items,
  unread_by-restore t_binders items,
  end_of-restore items,
)

unread-restore :
    (items : List LexItem) → end_of (unread items) ≡ end_of (unread (map restore (map strip items)))
unfolding unread
unread-restore [] = refl
unread-restore (i ∷ items) =
    ground (arith, unread_message-restore (val_text i.val) items, end_of-restore items)

-- The text of a message.
abbrev pub message_string : ScpMessage → Bytes
message_string (c_message m) = c_string m
message_string (d_message m) = d_string m
message_string (e_message m) = e_string m
message_string (t_message m) = t_string m

module _ (wide : ℕ → Bool) where
  -- Its name is one that the lexer takes for a name; its times are not before 1970.
  abbrev pub IsReadable : ScpMessage → Type 0
  IsReadable (c_message m) = IsName wide m.name
  IsReadable (d_message m) = IsName wide m.name
  IsReadable (e_message m) = Unit
  IsReadable (t_message m) =
      ((a : ℕ) × (m.a_time.seconds ≡ pos a)) × ((n : ℕ) × (m.m_time.seconds ≡ pos n))

  after-Lexed :
      (b : Bytes) (r : LexerEnd)
      → Lexed wide start b (λ toks. end_of (unread (map restore toks)) ≡ r)
      → lexer_after wide b ≡ some r
  unfolding lexer_after Lexed
  after-Lexed b r h =
      let l : LexReader = record { data_bytes = b; cur = 0; pos = 0; width = 0; eof = false } in
      let (items, ran, e) = h (suc (suc (length b))) l refl refl (omega arith) in
      let lexed : lex wide b ≡ some items = unfold lex in ran in
      rw (lexed, lexer_after) (ap some (unread-restore items ∙ e))

  t_string-seconds :
      (m : ScpTMessage) (a n : ℕ)
      → m.a_time.seconds ≡ pos a
      → m.m_time.seconds ≡ pos n
      → t_string m ≡ t_string (record { a_time = unix a; m_time = unix n })
  unfolding t_string
  t_string-seconds m a n ha hn = rw (ha, hn)

  -- When a message that was printed has been parsed, the goroutine of the lexer has sent all of its
  -- items and closed the channel, if the name of the message, where it has one, is one that the
  -- lexer takes for a name, and its times are not before 1970.
  pub lexer_after-message_string :
      (m : ScpMessage) → IsReadable m → lexer_after wide (message_string m) ≡ some closed
  unfolding unread c_binders d_binders e_binders t_binders
  lexer_after-message_string (c_message m) h = after-Lexed _ _ (c_string-Lexed wide m _ h refl)
  lexer_after-message_string (d_message m) h = after-Lexed _ _ (d_string-Lexed wide m _ h refl)
  lexer_after-message_string (e_message m) h = after-Lexed _ _ (e_string-Lexed wide m _ refl)
  lexer_after-message_string (t_message m) ((a, ha), (n, hn)) =
      rw (t_string-seconds m a n ha hn) (after-Lexed _ _ (t_string-Lexed wide a n _ refl))
