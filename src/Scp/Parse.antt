-- ===== src/Scp/Parse.antt =====
-- `parseSCPMessage` of scp/sink.go.
pub mod RoundTrip
pub mod Channel
use x_cuter.Common.{
  ℕ, Bool, true, false, Option, none, some, List, [], ◌∷◌, ◌==◌, if◌then◌else◌, Bytes,
}
use x_cuter.Scp.Lexer.{
  ItemType, item_typ, item_name, item_number, item_space, item_end, item_error, ItemVal, text,
  unexpected_rune, LexItem, lex,
}
use x_cuter.Scp.Message.{
  zero_time, ScpMessage, c_message, d_message, e_message, t_message, Binder, c_binders, d_binders,
  e_binders, t_binders,
}
use x_cuter.Scp.Result.{Result, ok, err, eof, expected_item, expected_type}

-- `==` on item types.
abbrev pub same_type : ItemType → ItemType → Bool
same_type item_typ item_typ = true
same_type item_name item_name = true
same_type item_number item_number = true
same_type item_space item_space = true
same_type item_end item_end = true
same_type item_error item_error = true
same_type _ _ = false

-- The text of an item; no binder and no message type takes that of an error item.
abbrev pub val_text : ItemVal → Bytes
val_text (text b) = b
val_text (unexpected_rune r) = []

-- The loop over the binders, on the items that are left in the channel. The error that a binder
-- returns is dropped.
unfoldable pub bind_items : {M : Type 0} → List (Binder M) → List LexItem → M → Result M
bind_items [] items m = ok m
bind_items (b ∷ bs) [] m = err eof
bind_items (b ∷ bs) (item ∷ items) m =
    let rest = bind_items bs items (b.bind (val_text item.val) m).0 in
    if same_type item.item_type b.typ then rest else err (expected_item b.typ item.item_type)

abbrev wrap : {M : Type 0} → (M → ScpMessage) → Result M → Result ScpMessage
wrap make (ok m) = ok (make m)
wrap make (err e) = err e

-- The switch over the letter of the message.
unfoldable pub bind_message : Bytes → List LexItem → Result ScpMessage
unfolding bind_items
bind_message [] items = err (expected_type [])
bind_message (a ∷ b ∷ rest) items = err (expected_type (a ∷ b ∷ rest))
bind_message (a ∷ []) items =
    if a == b'C'
    then wrap c_message (bind_items c_binders items (record { mode = 0; length = 0; name = [] }))
    else if a == b'D'
    then wrap d_message (bind_items d_binders items (record { mode = 0; length = 0; name = [] }))
    else if a == b'E'
    then wrap e_message (bind_items e_binders items (record {}))
    else if a == b'T'
    then wrap t_message
        (bind_items t_binders items (record { a_time = zero_time; m_time = zero_time }))
    else err (expected_type (a ∷ []))

unfoldable pub parse_items : List LexItem → Result ScpMessage
unfolding bind_message
parse_items [] = err eof
parse_items (item ∷ items) =
    if same_type item.item_type item_typ
    then bind_message (val_text item.val) items
    else err (expected_item item_typ item.item_type)

-- `none` is for a lexer that runs out of fuel, which it does not.
unfoldable pub parse_scp_message : (ℕ → Bool) → Bytes → Option (Result ScpMessage)
unfolding parse_items
parse_scp_message wide input = elim (lex wide input) [
  | none ↦ none
  | some items ↦ some (parse_items items)
]

-- The items that the loop over the binders does not receive: those behind the one that it refuses,
-- or behind its last one.
unfoldable pub unread_by : {M : Type 0} → List (Binder M) → List LexItem → List LexItem
unread_by [] items = items
unread_by (b ∷ bs) [] = []
unread_by (b ∷ bs) (item ∷ items) =
    let rest = unread_by bs items in if same_type item.item_type b.typ then rest else items

unfoldable pub unread_message : Bytes → List LexItem → List LexItem
unfolding unread_by
unread_message [] items = items
unread_message (a ∷ b ∷ rest) items = items
unread_message (a ∷ []) items =
    if a == b'C'
    then unread_by c_binders items
    else if a == b'D'
    then unread_by d_binders items
    else if a == b'E'
    then unread_by e_binders items
    else if a == b'T'
    then unread_by t_binders items
    else items

unfoldable pub unread : List LexItem → List LexItem
unfolding unread_message
unread [] = []
unread (item ∷ items) =
    if same_type item.item_type item_typ then unread_message (val_text item.val) items else items

-- What becomes of the lexer's goroutine behind `parseSCPMessage`: it has closed the channel, or it
-- waits forever to send an item, as the channel has no buffer.
pub data LexerEnd : Type 0 where
  closed blocked : LexerEnd

abbrev pub end_of : List LexItem → LexerEnd
end_of [] = closed
end_of (item ∷ items) = blocked

unfoldable pub lexer_after : (ℕ → Bool) → Bytes → Option LexerEnd
unfolding unread
lexer_after wide input = elim (lex wide input) [
  | none ↦ none
  | some items ↦ some (end_of (unread items))
]
