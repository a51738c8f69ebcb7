-- ===== src/Scp/Message.antt =====
-- The four messages of scp/messages.go: their text, and the binders that fill them from the items
-- of the lexer.
use x_cuter.Common.{ℕ, Bytes, List, [], ◌∷◌, ◌++◌, ℤ, pos, negsuc}
use x_cuter.Scp.Lexer.{ItemType, item_name, item_number, item_space, item_end}
use x_cuter.Scp.Strconv.{
  NumError, no_error, parse_uint, parse_int, format_uint, format_int, format_mode,
}

pub record ScpCMessage : Type 0 where
  pub mode : ℕ
  pub length : ℕ
  pub name : Bytes

pub record ScpDMessage : Type 0 where
  pub mode : ℕ
  pub length : ℕ
  pub name : Bytes

pub record ScpEMessage : Type 0 where

-- A time.Time: the seconds since 1970, which `Unix` gives, and the nanoseconds behind them.
pub record Time : Type 0 where
  pub seconds : ℤ
  pub nanos : ℕ

-- The zero value, the first of January of the year 1.
abbrev pub zero_time : Time
zero_time = record { seconds = negsuc 62135596799; nanos = 0 }

-- `time.Unix(n, 0)`
abbrev pub unix : ℕ → Time
unix n = record { seconds = pos n; nanos = 0 }

pub record ScpTMessage : Type 0 where
  pub a_time : Time
  pub m_time : Time

pub data ScpMessage : Type 0 where
  c_message : ScpCMessage → ScpMessage
  d_message : ScpDMessage → ScpMessage
  e_message : ScpEMessage → ScpMessage
  t_message : ScpTMessage → ScpMessage

-- "%c%04o %d %s\n"
abbrev pub entry_string : ℕ → ℕ → ℕ → Bytes → Bytes
entry_string letter mode length name =
    letter ∷ (format_mode mode ++ (b' ' ∷ (format_uint 10 length ++ (b' ' ∷ (name ++ b'\n' ∷ [])))))

unfoldable pub c_string : ScpCMessage → Bytes
c_string m = entry_string b'C' m.mode m.length m.name

unfoldable pub d_string : ScpDMessage → Bytes
d_string m = entry_string b'D' m.mode m.length m.name

unfoldable pub e_string : ScpEMessage → Bytes
e_string m = b'E' ∷ b'\n' ∷ []

-- "T%d 0 %d 0\n"
unfoldable pub t_string : ScpTMessage → Bytes
t_string m =
    b'T'
    ∷ (format_int m.m_time.seconds
        ++ (b' ' ∷ b'0' ∷ b' ' ∷ (format_int m.a_time.seconds ++ b' ' ∷ b'0' ∷ b'\n' ∷ [])))

-- `bind` assigns to the message, and returns an error beside.
pub record Binder (M : Type 0) : Type 0 where
  pub typ : ItemType
  pub bind : Bytes → M → M × NumError

-- `nopBind`, and the binders that ignore the value.
abbrev nop_bind : {M : Type 0} → ItemType → Binder M
nop_bind t = record { typ = t; bind = λ val m. (m, no_error) }

-- The closures of `binders`. What `ParseUint` returns is assigned also where it is an error.
c_mode : Bytes → ScpCMessage → ScpCMessage × NumError
c_mode val m = let (n, e) = parse_uint val 8 32 in (record m { mode = n }, e)

c_length : Bytes → ScpCMessage → ScpCMessage × NumError
c_length val m = let (n, e) = parse_uint val 10 64 in (record m { length = n }, e)

c_name : Bytes → ScpCMessage → ScpCMessage × NumError
c_name val m = (record m { name = val }, no_error)

unfoldable pub c_binders : List (Binder ScpCMessage)
unfolding c_mode c_length c_name
c_binders =
    record { typ = item_number; bind = c_mode }
    ∷ nop_bind item_space
    ∷ record { typ = item_number; bind = c_length }
    ∷ nop_bind item_space
    ∷ record { typ = item_name; bind = c_name }
    ∷ nop_bind item_end
    ∷ []

d_mode : Bytes → ScpDMessage → ScpDMessage × NumError
d_mode val m = let (n, e) = parse_uint val 8 32 in (record m { mode = n }, e)

d_length : Bytes → ScpDMessage → ScpDMessage × NumError
d_length val m = let (n, e) = parse_uint val 10 64 in (record m { length = n }, e)

d_name : Bytes → ScpDMessage → ScpDMessage × NumError
d_name val m = (record m { name = val }, no_error)

unfoldable pub d_binders : List (Binder ScpDMessage)
unfolding d_mode d_length d_name
d_binders =
    record { typ = item_number; bind = d_mode }
    ∷ nop_bind item_space
    ∷ record { typ = item_number; bind = d_length }
    ∷ nop_bind item_space
    ∷ record { typ = item_name; bind = d_name }
    ∷ nop_bind item_end
    ∷ []

unfoldable pub e_binders : List (Binder ScpEMessage)
e_binders = nop_bind item_end ∷ []

-- `parseUnix`: the time of a value that is no number is 0.
parse_unix : Bytes → Time × NumError
parse_unix val = let (n, e) = parse_int val in (unix n, e)

t_m_time : Bytes → ScpTMessage → ScpTMessage × NumError
unfolding parse_unix
t_m_time val m = let (t, e) = parse_unix val in (record m { m_time = t }, e)

t_a_time : Bytes → ScpTMessage → ScpTMessage × NumError
unfolding parse_unix
t_a_time val m = let (t, e) = parse_unix val in (record m { a_time = t }, e)

unfoldable pub t_binders : List (Binder ScpTMessage)
unfolding t_m_time t_a_time
t_binders =
    record { typ = item_number; bind = t_m_time }
    ∷ nop_bind item_space
    ∷ nop_bind item_number
    ∷ nop_bind item_space
    ∷ record { typ = item_number; bind = t_a_time }
    ∷ nop_bind item_space
    ∷ nop_bind item_number
    ∷ nop_bind item_end
    ∷ []
