-- ===== src/Scp/Utf8/Width.antt =====
-- How many bytes a rune takes.
use x_cuter.Common.{ℕ, ◌≤◌, ◌≡◌, ◌≢◌, refl, true, [], ◌∷◌, arith, ltb, Bytes, length, All, Bool}
use x_cuter.Scp.Utf8.{rune_error, decode_rune, Encodes, done, rune}

-- A rune that is read takes a byte at least, and no more than there are.
pub decode_rune-width :
    (b : Bytes)
    → (decode_rune b).0 ≢ rune_error
    → (1 ≤ (decode_rune b).1) × ((decode_rune b).1 ≤ length b)
unfolding decode_rune
decode_rune-width [] h = absurd (h refl)
decode_rune-width (a ∷ []) h = ground arith
decode_rune-width (a ∷ b ∷ []) h = ground arith
decode_rune-width (a ∷ b ∷ c ∷ []) h = ground arith
decode_rune-width (a ∷ b ∷ c ∷ d ∷ rest) h = ground arith

pub decode_rune_ascii : (a : ℕ) (rest : Bytes) → ltb a 0x80 ≡ true → decode_rune (a ∷ rest) ≡ (a, 1)
unfolding decode_rune
decode_rune_ascii a rest h = ground arith

-- One more ASCII byte that passes the test.
pub ascii-Encodes_cons :
    (p : ℕ → Bool) (c : ℕ) (cs : Bytes)
    → (ltb c 0x80 ≡ true) × (p c ≡ true)
    → Encodes p cs
    → Encodes p (c ∷ cs)
ascii-Encodes_cons p c cs (a, h) e =
    rune c c [] cs (λ more. decode_rune_ascii c more a) (λ q. ground arith) h e refl

-- ASCII bytes that pass the test are an encoding.
pub ascii-Encodes :
    (p : ℕ → Bool) (s : Bytes) → All (λ c. (ltb c 0x80 ≡ true) × (p c ≡ true)) s → Encodes p s
ascii-Encodes p [] h = done
ascii-Encodes p (c ∷ cs) (h, hs) = ascii-Encodes_cons p c cs h (ascii-Encodes p cs hs)
