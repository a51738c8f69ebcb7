-- ===== src/Scp/Lexer.antt =====
-- The lexer of scp/lex.go. A `*lexReader` is a record that a method returns anew, the channel of
-- items is the list of the items that are sent on it, in order, and a state function is named by
-- a constructor and called by `call`. The tables of unicode.IsNumber are the parameter `wide`.
pub mod Bounds
pub mod Tokens
use x_cuter.Common.{
  ℕ, zero, suc, ◌+◌, ◌-◌, Bool, true, false, not, Option, none, some, List, [], ◌∷◌, ◌++◌, ◌==◌,
  if◌then◌else◌, Bytes, length, take, drop,
}
use x_cuter.Scp.Utf8.{rune_error, decode_rune, unicode_is_number}

pub record LexReader : Type 0 where
  pub data_bytes : Bytes
  pub cur : ℕ
  pub pos : ℕ
  pub width : ℕ
  pub eof : Bool

abbrev pub get_data : LexReader → Bytes × LexReader
get_data l = (take l.cur l.data_bytes, record l { data_bytes = drop l.cur l.data_bytes; cur = 0 })

-- The rune, or `none` for io.EOF, which the source returns at a broken encoding too.
unfoldable pub next : LexReader → Option ℕ × LexReader
next l =
    let (r, width) = decode_rune (drop l.cur l.data_bytes) in
    if r == rune_error
    then (none, record l { width = width })
    else (some r, record l { cur = l.cur + width; pos = l.pos + 1; width = width })

-- It runs behind a call of `next` that returned a rune, so `cur` and `pos` do not pass 0.
abbrev pub backup : LexReader → LexReader
backup l = record l { cur = l.cur - l.width; pos = l.pos - 1 }

pub data AcceptFn : Type 0 where
  accept_string : Bytes → AcceptFn
  is_number is_path_character : AcceptFn

-- `strings.ContainsRune`
abbrev pub contains_rune : Bytes → ℕ → Bool
contains_rune [] r = false
contains_rune (c ∷ cs) r = if c == r then true else contains_rune cs r

pub data StateFn : Type 0 where
  lex_type lex_number lex_space lex_name lex_end : StateFn

pub record State : Type 0 where
  pub accept_fn : AcceptFn
  pub state_fn : StateFn

pub data ItemType : Type 0 where
  item_typ item_name item_number item_space item_end item_error : ItemType

-- The value of an item: the bytes read, or the rune that the message of an error item shows.
pub data ItemVal : Type 0 where
  text : Bytes → ItemVal
  unexpected_rune : ℕ → ItemVal

pub record LexItem : Type 0 where
  pub item_type : ItemType
  pub val : ItemVal
  pub pos : ℕ

abbrev pub number : State
number = record { accept_fn = is_number; state_fn = lex_number }

abbrev pub end : State
end = record { accept_fn = accept_string (b'\n' ∷ []); state_fn = lex_end }

abbrev pub space : State
space = record { accept_fn = accept_string (b' ' ∷ []); state_fn = lex_space }

abbrev pub name : State
name = record { accept_fn = is_path_character; state_fn = lex_name }

abbrev pub start : List State
start =
    record { accept_fn = accept_string (b'C' ∷ b'T' ∷ b'D' ∷ b'E' ∷ []); state_fn = lex_type } ∷ []

-- What a state function leaves: the reader, the items sent, the states (`[]` for nil).
abbrev pub Step : Type 0
Step = LexReader × List LexItem × List State

abbrev pub emit : LexReader → ItemType → List State → Step
emit l t states =
    let (val, l') = get_data l in
    (l', record { item_type = t; val = text val; pos = l'.pos } ∷ [], states)

module _ (wide : ℕ → Bool) where
  unfoldable pub accepts : AcceptFn → ℕ → Bool
  accepts (accept_string valid) r = contains_rune valid r
  accepts is_number r = unicode_is_number wide r
  accepts is_path_character r = not (r == b'\n')

  -- The loop of `acceptFn`: the flag is whether it ended by a rune that is not accepted. Each
  -- round consumes a byte at least; `none` is for fuel that ran out.
  unfoldable pub accept_loop : ℕ → AcceptFn → LexReader → Option (Bool × LexReader)
  accept_loop zero f l = none
  accept_loop (suc fuel) f l =
      let (r, l') = next l in
      elim r [
        | none ↦ some (false, l')
        | some c ↦ elim (accepts f c) [
          | true ↦ accept_loop fuel f l'
          | false ↦ some (true, backup l')
        ]
      ]

  -- The method `acceptFn` of a reader.
  unfoldable pub accept_run : AcceptFn → LexReader → Option (Bool × LexReader)
  unfolding accept_loop
  accept_run f l = accept_loop (suc (length (drop l.cur l.data_bytes))) f l

  -- A state function. io.EOF sends no item: lexNumber goes on behind it, lexName stops.
  unfoldable pub call : StateFn → LexReader → Option Step
  call lex_type l = some (emit l item_typ (number ∷ end ∷ []))
  call lex_number l = elim (accept_run is_number l) [
    | none ↦ none
    | some (accepted, l') ↦ some (emit l' item_number (space ∷ end ∷ []))
  ]
  call lex_space l = some (emit l item_space (number ∷ name ∷ []))
  call lex_name l = elim (accept_run is_path_character l) [
    | none ↦ none
    | some (accepted, l') ↦
        if accepted then some (emit l' item_name (end ∷ [])) else some (l', [], [])
  ]
  call lex_end l = some (emit l item_end [])

  -- The first state that accepts the rune.
  unfoldable pub choose : List State → ℕ → Option StateFn
  choose [] r = none
  choose (s ∷ ss) r = if accepts s.accept_fn r then some s.state_fn else choose ss r

  -- The loop of `run`. The items are those sent to a reader that receives them until the channel is
  -- closed; what is left of them behind a reader that stops is `unread` of Scp.Parse.
  unfoldable pub run : ℕ → List State → LexReader → Option (List LexItem)
  run zero states l = none
  run (suc fuel) [] l = some []
  run (suc fuel) (s ∷ ss) l =
      let (r, l') = next l in
      elim r [
        | none ↦ some []
        | some c ↦ elim (choose (s ∷ ss) c) [
          | none ↦
              some (record { item_type = item_error; val = unexpected_rune c; pos = l'.pos } ∷ [])
          | some f ↦ elim (call f l') [
            | none ↦ none
            | some (l'', items, states) ↦ elim (run fuel states l'') [
              | none ↦ none
              | some later ↦ some (items ++ later)
            ]
          ]
        ]
      ]

  -- The items that are sent to a reader that receives them all. Each round of `run` consumes a byte at least, and one more round sees the end.
  unfoldable pub lex : Bytes → Option (List LexItem)
  unfolding run accept_run call choose
  lex b =
      run (suc (suc (length b))) start
        (record { data_bytes = b; cur = 0; pos = 0; width = 0; eof = false })
