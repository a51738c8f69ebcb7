-- ===== src/Scp/Imp/Target.antt =====
-- Where the sink puts a file: filePath of scp/scp.go and the path of a C message.
use x_cuter.Common.{
  ◌≡◌, ◌<◌, refl, true, List, [], ◌∷◌, ◌==◌, Bytes, All, arith, length, length-append, Bool-cases,
  inl, inr,
}
use x_cuter.Scp.FilePath.Stacks.{IsPlain, path_of, join-path_of, clean-split-path_of}
use x_cuter.Scp.FilePath.{classify, dir, down, join_stack, same_path}
use x_cuter.Scp.Imp.{file_path, target}

same_path-length : (p q : Bytes) → same_path p q ≡ true → length p ≡ length q
unfolding same_path
same_path-length [] [] h = refl
same_path-length [] (b ∷ q) h = cc
same_path-length (a ∷ p) [] h = cc
same_path-length (a ∷ p) (b ∷ q) h = elim (Bool-cases (a == b)) [
  | inl e ↦ let rest = same_path-length p q (ground arith) in omega arith
  | inr e ↦ ground arith
]

IsPlain-length : (name : Bytes) → IsPlain name → 0 < length name
unfolding classify
IsPlain-length [] h = let no : classify [] ≡ down = h.is_down in cc
IsPlain-length (c ∷ cs) h = omega arith

path_of-length :
    (x : Bytes) (base : List Bytes)
    → IsPlain x
    → length (path_of base) < length (path_of (x ∷ base))
unfolding join_stack
path_of-length x [] h = let some_byte = IsPlain-length x h in omega arith
path_of-length x (y ∷ base) h =
    let both = length-append (join_stack (y ∷ base)) (b'/' ∷ x) in omega arith

-- In a directory other than the root a file stands under its name.
pub target-path_of :
    (x name : Bytes) (base : List Bytes)
    → IsPlain x
    → All IsPlain base
    → IsPlain name
    → target (path_of (x ∷ base)) name ≡ path_of (name ∷ x ∷ base)
unfolding target file_path dir
target-path_of x name base h hs n =
    let up = clean-split-path_of x base hs h in
    let longer = path_of-length x base h in
    elim (Bool-cases (same_path (path_of base) (path_of (x ∷ base)))) [
      | inl e ↦
          let same = same_path-length (path_of base) (path_of (x ∷ base)) e in
          let no : ⊥ = omega arith in elim no [ ]
      | inr e ↦ rw (up, e) (join-path_of (x ∷ base) name (h, hs) n)
    ]
