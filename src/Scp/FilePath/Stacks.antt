-- ===== src/Scp/FilePath/Stacks.antt =====
-- Clean absolute paths, written as the stack of their names, the last one first: entering a name
-- pushes it, and leaving by `Split` and `Clean` pops it.
use x_cuter.Common.{
  ◌≡◌, refl, ap, Bool, true, false, List, [], ◌∷◌, ◌++◌, arith, ◌==◌, Bytes, All, Bool-cases, inl,
  inr,
}
use x_cuter.Scp.FilePath.{
  slash, components, down, classify, clean_step, clean_pieces, join_stack, clean, join, split,
}

-- A name that is one piece of a path: no slash, not empty, not "." and not "..".
pub record IsPlain (name : Bytes) : Type 0 where
  pub no_slash : All (λ c. (c == slash) ≡ false) name
  pub is_down : classify name ≡ down

abbrev pub path_of : List Bytes → Bytes
path_of stack = slash ∷ join_stack stack

components-name :
    (name : Bytes) → All (λ c. (c == slash) ≡ false) name → components name ≡ name ∷ []
unfolding components
components-name [] h = refl
components-name (c ∷ cs) (h, hs) = rw (h, components-name cs hs)

components-cons : (p : Bytes) → (x : Bytes) × (xs : List Bytes) × (components p ≡ x ∷ xs)
unfolding components
components-cons [] = ([], [], refl)
components-cons (c ∷ cs) =
    let (x, xs, e) = components-cons cs in
    elim (Bool-cases (c == slash)) [
      | inl t ↦ ([], components cs, rw t)
      | inr t ↦ (c ∷ x, xs, rw (t, e))
    ]

components-append : (p q : Bytes) → components (p ++ (slash ∷ q)) ≡ components p ++ components q
unfolding components
components-append [] q = refl
components-append (c ∷ cs) q =
    let (x, xs, e) = components-cons cs in rw (components-append cs q, e) (ground arith)

clean_pieces-append :
    (rooted : Bool) (ps qs : List Bytes) (stack : List Bytes)
    → clean_pieces rooted stack (ps ++ qs) ≡ clean_pieces rooted (clean_pieces rooted stack ps) qs
unfolding clean_pieces
clean_pieces-append rooted [] qs stack = refl
clean_pieces-append rooted (p ∷ ps) qs stack =
    clean_pieces-append rooted ps qs (clean_step rooted stack p)

clean_step-plain :
    (stack : List Bytes) (name : Bytes) → IsPlain name → clean_step true stack name ≡ name ∷ stack
unfolding clean_step
clean_step-plain stack name h = rw (h.is_down, clean_step)

clean_pieces-stack :
    (stack : List Bytes)
    → All IsPlain stack
    → clean_pieces true [] (components (join_stack stack)) ≡ stack
unfolding join_stack
clean_pieces-stack [] h = unfold components clean_pieces in refl
clean_pieces-stack (x ∷ []) (h, _) =
    unfold clean_pieces in rw (components-name x h.no_slash) (clean_step-plain [] x h)
clean_pieces-stack (x ∷ y ∷ rest) (h, hs) =
    rw
      (
        components-append (join_stack (y ∷ rest)) x,
        clean_pieces-append,
        clean_pieces-stack (y ∷ rest) hs,
        components-name x h.no_slash,
      )
      (unfold clean_pieces in clean_step-plain (y ∷ rest) x h)

-- A stack is the path that `Clean` keeps.
pub clean-path_of : (stack : List Bytes) → All IsPlain stack → clean (path_of stack) ≡ path_of stack
unfolding clean
clean-path_of stack h = ap (λ s. slash ∷ join_stack s) (clean_pieces-stack stack h)

-- The pieces of a stack, and more behind them.
pieces-append :
    (stack : List Bytes) (more : Bytes)
    → All IsPlain stack
    → clean_pieces true [] (components (join_stack stack ++ (slash ∷ more)))
      ≡ clean_pieces true stack (components more)
pieces-append stack more h =
    rw (components-append (join_stack stack) more, clean_pieces-append, clean_pieces-stack stack h)

-- To enter a plain name pushes it.
pub join-path_of :
    (stack : List Bytes) (name : Bytes)
    → All IsPlain stack
    → IsPlain name
    → join (path_of stack) name ≡ path_of (name ∷ stack)
unfolding join clean
join-path_of stack name hs h =
    rw (pieces-append stack name hs, components-name name h.no_slash, clean_step-plain stack name h)

split-name : (name : Bytes) → All (λ c. (c == slash) ≡ false) name → split name ≡ ([], name)
unfolding split
split-name [] h = refl
split-name (c ∷ cs) (h, hs) = ground (arith, split-name cs hs)

split-append :
    (p name : Bytes)
    → All (λ c. (c == slash) ≡ false) name
    → split (p ++ (slash ∷ name)) ≡ (p ++ slash ∷ [], name)
unfolding split
split-append [] name h = ground (arith, split-name name h)
split-append (c ∷ []) name h = ground (arith, split-append [] name h)
split-append (c ∷ d ∷ ds) name h = ground (arith, split-append (d ∷ ds) name h)

-- To leave by `Split` and `Clean` pops the last name.
pub clean-split-path_of :
    (name : Bytes) (stack : List Bytes)
    → All IsPlain stack
    → IsPlain name
    → clean (split (path_of (name ∷ stack))).0 ≡ path_of stack
unfolding clean join_stack
clean-split-path_of name [] hs h = rw (split-append [] name h.no_slash)
clean-split-path_of name (y ∷ rest) hs h =
    rw (split-append (path_of (y ∷ rest)) name h.no_slash)
      (ap (λ s. slash ∷ join_stack s) (pieces-append (y ∷ rest) [] hs))
