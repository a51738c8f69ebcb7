-- ===== src/Common/Pointwise.antt =====
-- Lists whose elements are related one by one.
use x_cuter.Common.{suc, ◌≡◌, refl, ap, List, [], ◌∷◌, ◌++◌, length}

-- The lists have the same length and `R` relates their elements.
abbrev pub Pointwise {ℓ κ} : {A : Type ℓ} {B : Type κ} → (A → B → Type 0) → List A → List B → Type 0
Pointwise R [] [] = Unit
Pointwise R [] (y ∷ ys) = ⊥
Pointwise R (x ∷ xs) [] = ⊥
Pointwise R (x ∷ xs) (y ∷ ys) = R x y × Pointwise R xs ys

pub length-Pointwise {ℓ κ} :
    {A : Type ℓ} {B : Type κ} (R : A → B → Type 0) (xs : List A) (ys : List B)
    → Pointwise R xs ys
    → length ys ≡ length xs
length-Pointwise R [] [] h = refl
length-Pointwise R [] (y ∷ ys) h = elim h [ ]
length-Pointwise R (x ∷ xs) [] h = elim h [ ]
length-Pointwise R (x ∷ xs) (y ∷ ys) (r, h) = ap suc (length-Pointwise R xs ys h)

pub Pointwise-concat {ℓ κ} :
    {A : Type ℓ} {B : Type κ} (R : A → B → Type 0) (xs : List A) (ys : List B) (x : A) (y : B)
    → Pointwise R xs ys
    → R x y
    → Pointwise R (xs ++ x ∷ []) (ys ++ y ∷ [])
Pointwise-concat R [] [] x y h r = (r, tt)
Pointwise-concat R [] (b ∷ ys) x y h r = elim h [ ]
Pointwise-concat R (a ∷ xs) [] x y h r = elim h [ ]
Pointwise-concat R (a ∷ xs) (b ∷ ys) x y (q, h) r = (q, Pointwise-concat R xs ys x y h r)
