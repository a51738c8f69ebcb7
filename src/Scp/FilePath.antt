-- ===== src/Scp/FilePath.antt =====
-- The functions of path/filepath that package scp calls, on Unix paths: `Clean`, `Join` of two
-- elements, `Split`, `Dir` and `Base`.
pub mod Stacks
use x_cuter.Common.{ℕ, Bool, true, false, List, [], ◌∷◌, ◌++◌, ◌==◌, if◌then◌else◌, Bytes}

abbrev pub slash : ℕ
slash = b'/'

abbrev prepend : ℕ → List Bytes → List Bytes
prepend c [] = (c ∷ []) ∷ []
prepend c (x ∷ xs) = (c ∷ x) ∷ xs

-- The pieces between slashes, the empty ones too.
unfoldable pub components : Bytes → List Bytes
components [] = [] ∷ []
components (c ∷ cs) = let rest = components cs in if c == slash then [] ∷ rest else prepend c rest

-- What a piece of a path is for `Clean`.
pub data Piece : Type 0 where
  skip up down : Piece

unfoldable pub classify : Bytes → Piece
classify [] = skip
classify (a ∷ []) = if a == b'.' then skip else down
classify (a ∷ b ∷ []) = if a == b'.' then (if b == b'.' then up else down) else down
classify (a ∷ b ∷ c ∷ rest) = down

-- `..` drops the last piece; a relative path keeps it where there is none but others like it.
abbrev go_up : Bool → List Bytes → List Bytes
go_up true [] = []
go_up false [] = (b'.' ∷ b'.' ∷ []) ∷ []
go_up rooted (x ∷ xs) = elim (classify x) [ up ↦ (b'.' ∷ b'.' ∷ []) ∷ x ∷ xs | _ ↦ xs ]

-- The pieces that are kept, the last one first.
unfoldable pub clean_step : Bool → List Bytes → Bytes → List Bytes
unfolding classify
clean_step rooted stack piece = elim (classify piece) [
  | skip ↦ stack
  | up ↦ go_up rooted stack
  | down ↦ piece ∷ stack
]

unfoldable pub clean_pieces : Bool → List Bytes → List Bytes → List Bytes
unfolding clean_step
clean_pieces rooted stack [] = stack
clean_pieces rooted stack (p ∷ ps) = clean_pieces rooted (clean_step rooted stack p) ps

unfoldable pub join_stack : List Bytes → Bytes
join_stack [] = []
join_stack (x ∷ []) = x
join_stack (x ∷ y ∷ rest) = join_stack (y ∷ rest) ++ (slash ∷ x)

abbrev or_dot : Bytes → Bytes
or_dot [] = b'.' ∷ []
or_dot (c ∷ cs) = c ∷ cs

-- `filepath.Clean`
unfoldable pub clean : Bytes → Bytes
unfolding components clean_pieces join_stack
clean [] = b'.' ∷ []
clean (c ∷ cs) =
    if c == slash
    then slash ∷ join_stack (clean_pieces true [] (components cs))
    else or_dot (join_stack (clean_pieces false [] (components (c ∷ cs))))

-- `filepath.Join(a, b)`
unfoldable pub join : Bytes → Bytes → Bytes
unfolding clean
join [] [] = []
join [] (c ∷ cs) = clean (c ∷ cs)
join (a ∷ rest) b = clean (a ∷ (rest ++ (slash ∷ b)))

-- `filepath.Split`: up to the last slash, and what follows it.
unfoldable pub split : Bytes → Bytes × Bytes
split [] = ([], [])
split (c ∷ cs) =
    let (before, file) = split cs in
    elim before [
      | [] ↦ if c == slash then (slash ∷ [], file) else ([], c ∷ file)
      | d ∷ ds ↦ (c ∷ d ∷ ds, file)
    ]

-- `filepath.Dir`
unfoldable pub dir : Bytes → Bytes
unfolding clean split
dir path = clean (split path).0

abbrev strip_slashes : Bytes → Bytes
strip_slashes [] = []
strip_slashes (c ∷ cs) = elim (strip_slashes cs) [
  | [] ↦ if c == slash then [] else c ∷ []
  | d ∷ ds ↦ c ∷ d ∷ ds
]

-- `filepath.Base`
unfoldable pub base : Bytes → Bytes
unfolding split
base [] = b'.' ∷ []
base (c ∷ cs) = elim (strip_slashes (c ∷ cs)) [ [] ↦ slash ∷ [] | d ∷ ds ↦ (split (d ∷ ds)).1 ]

-- `==` on paths.
unfoldable pub same_path : Bytes → Bytes → Bool
same_path [] [] = true
same_path (a ∷ xs) (b ∷ ys) = if a == b then same_path xs ys else false
same_path _ _ = false
