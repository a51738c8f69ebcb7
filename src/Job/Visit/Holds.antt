-- ===== src/Job/Visit/Holds.antt =====
-- What the visitor gives, when it builds something, and chains of it.
use x_cuter.Common.{◌≡◌, ◌⊎◌, refl, inl, inr}
use x_cuter.Job.Visit.{Visited, built, refused, nil_pointer, ◌and_then◌}
use x_cuter.Job.{Settings, Command, absent, command, Commands}

-- What is built satisfies `P`.
abbrev pub Holds : {A : Type 0} → (A → Type 0) → Visited A → Type 0
Holds P (built a) = P a
Holds P (refused e) = Unit
Holds P nil_pointer = Unit

pub Holds-and_then :
    {A B : Type 0} (P : A → Type 0) (Q : B → Type 0) (v : Visited A) (f : A → Visited B)
    → Holds P v
    → ((a : A) → P a → Holds Q (f a))
    → Holds Q (v and_then f)
Holds-and_then P Q (built a) f h k = k a h
Holds-and_then P Q (refused e) f h k = tt
Holds-and_then P Q nil_pointer f h k = tt

pub and_then-cong :
    {A B : Type 0} (P : A → Type 0) (v : Visited A) (f g : A → Visited B)
    → Holds P v
    → ((a : A) → P a → f a ≡ g a)
    → (v and_then f) ≡ (v and_then g)
and_then-cong P (built a) f g h k = k a h
and_then-cong P (refused e) f g h k = refl
and_then-cong P nil_pointer f g h k = refl

pub and_then_ext :
    {A B : Type 0} (v : Visited A) (f g : A → Visited B)
    → ((a : A) → f a ≡ g a)
    → (v and_then f) ≡ (v and_then g)
and_then_ext (built a) f g k = k a
and_then_ext (refused e) f g k = refl
and_then_ext nil_pointer f g k = refl

pub Holds-all :
    {A X : Type 0} (P : X → A → Type 0) (v : Visited A)
    → ((x : X) → Holds (P x) v)
    → Holds (λ a. (x : X) → P x a) v
Holds-all P (built a) h = h
Holds-all P (refused e) h = tt
Holds-all P nil_pointer h = tt

pub Holds-map :
    {A : Type 0} (P Q : A → Type 0) (v : Visited A) → Holds P v → ((a : A) → P a → Q a) → Holds Q v
Holds-map P Q (built a) h k = k a h
Holds-map P Q (refused e) h k = tt
Holds-map P Q nil_pointer h k = tt

pub Command-cases :
    (c : Command) → (c ≡ absent) ⊎ ((s : Settings) × (cs : Commands) × (c ≡ command s cs))
Command-cases absent = inl refl
Command-cases (command s cs) = inr (s, cs, refl)
