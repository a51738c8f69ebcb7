-- ===== src/Job/Client/Sound.antt =====
-- What is sound of the connection store of job/client.go, and writing, adding and deleting elements.
use text.Mathlib.Text.{◌==◌ as str_eq}
use text.Mathlib.TextEquality.{eq_iff}
use x_cuter.Common.Assoc.{
  lookup, insert, delete, String-cases, insert-cases, insert-none, delete-some, delete-none,
  insert-kept, delete-kept, delete-other,
}
use x_cuter.Common.{
  All-weaken, ℕ, suc, ◌+◌, ◌==◌, ◌<◌, ◌≡◌, ◌≢◌, refl, sym, ap, subst, ◌∙◌, none, some, List, [],
  ◌∷◌, if◌then◌else◌, String, pos, All, Bool-cases, arith, inl, inr,
}
use x_cuter.Job.Client.{StoreElement, ClientStore, write}

-- How many goroutines wait for a context that uses the connection under the key.
unfoldable pub users : String → List (String × ℕ) → ℕ
users key [] = 0
users key ((k, c) ∷ others) = (if str_eq k key then 1 else 0) + users key others

-- The waiting goroutine's connection is the one under its key.
abbrev pub Current : ClientStore → String × ℕ → Type 0
Current st (key, c) = (p : ℕ) × (lookup key st.clients ≡ some p) × ((st.heap p).client ≡ c)

pub record Sound (st : ClientStore) : Type 0 where
  pub counted :
      (key : String) (p : ℕ)
      → lookup key st.clients ≡ some p
      → (st.heap p).ref ≡ pos (users key st.waiting)
  pub unused : (key : String) → lookup key st.clients ≡ none → users key st.waiting ≡ 0
  pub apart :
      (k j : String) (p q : ℕ)
      → lookup k st.clients ≡ some p
      → lookup j st.clients ≡ some q
      → (st.heap p).client ≡ (st.heap q).client
      → k ≡ j
  pub made : (k : String) (p : ℕ) → lookup k st.clients ≡ some p → p < st.next
  pub current : All (Current st) st.waiting
  pub usable :
      (key : String) (p : ℕ)
      → lookup key st.clients ≡ some p
      → All (λ c. c ≢ (st.heap p).client) st.closed

write_same : (p : ℕ) (e : StoreElement) (heap : ℕ → StoreElement) → write p e heap p ≡ e
unfolding write
write_same p e heap = ground arith

write_other :
    (p q : ℕ) (e : StoreElement) (heap : ℕ → StoreElement) → p ≢ q → write p e heap q ≡ heap q
unfolding write
write_other p q e heap h = ground arith

-- Writing an element with the same connection changes no connection.
client-write :
    (p q : ℕ) (e : StoreElement) (heap : ℕ → StoreElement)
    → e.client ≡ (heap p).client
    → (write p e heap q).client ≡ (heap q).client
unfolding write
client-write p q e heap h = elim (Bool-cases (p == q)) [
  | inl e ↦ rw e (h ∙ ap (λ x. (heap x).client) (ground (arith, e)))
  | inr e ↦ rw e refl
]

-- A new count for the element of one key, with the goroutines that wait then.
pub Sound-recount :
    (st : ClientStore) (key : String) (p : ℕ) (e : StoreElement) (waiting : List (String × ℕ))
    → Sound st
    → lookup key st.clients ≡ some p
    → e.client ≡ (st.heap p).client
    → e.ref ≡ pos (users key waiting)
    → ((k : String) → k ≢ key → users k waiting ≡ users k st.waiting)
    → All (Current st) waiting
    → Sound (record st { heap = write p e st.heap; waiting = waiting })
Sound-recount st key p e waiting h at same count others cur =
    let client = λ (q : ℕ). client-write p q e st.heap same in
    record {
      counted = λ k q f. elim (String-cases k key) [
        | inl t ↦
            let qp : q ≡ p = ground (arith, f, at, ap (λ x. lookup x st.clients) t) in
            ap (λ x. (write p e st.heap x).ref) qp
            ∙ ap (λ x. x.ref) (write_same p e st.heap)
            ∙ count
            ∙ ap (λ x. pos (users x waiting)) (sym t)
        | inr t ↦
            ap (λ x. x.ref)
              (write_other p q e st.heap
                (λ pq. t (h.apart k key q p f at (ap (λ x. (st.heap x).client) (sym pq)))))
            ∙ h.counted k q f
            ∙ ap pos (sym (others k t))
      ];
      unused = λ k f. elim (String-cases k key) [
        | inl t ↦ ground (arith, f, at, ap (λ x. lookup x st.clients) t)
        | inr t ↦ others k t ∙ h.unused k f
      ];
      apart = λ k j q r f g s. h.apart k j q r f g (sym (client q) ∙ s ∙ client r);
      made = h.made;
      current = All-weaken _ _ waiting (λ w c. (c.0, c.1, client c.0 ∙ c.2)) cur;
      usable = λ k q f. subst (λ c. All (λ d. d ≢ c) st.closed) (sym (client q)) (h.usable k q f);
    }

-- A connection that the store does not know yet.
pub record Fresh (c : ℕ) (st : ClientStore) : Type 0 where
  pub not_kept : (k : String) (p : ℕ) → lookup k st.clients ≡ some p → (st.heap p).client ≢ c
  pub not_closed : All (λ d. d ≢ c) st.closed

-- A new element that nobody uses yet.
pub Sound-new :
    (st : ClientStore) (key : String) (e : StoreElement)
    → Sound st
    → lookup key st.clients ≡ none
    → Fresh e.client st
    → e.ref ≡ pos 0
    → Sound (record st {
      clients = insert key st.next st.clients;
      heap = write st.next e st.heap;
      next = suc st.next;
    })
Sound-new st key e h gone fresh zero =
    let old = λ (k : String) (q : ℕ) (f : lookup k st.clients ≡ some q).
      write_other st.next q e st.heap (λ x. ground (arith, h.made k q f, x)) in
    let now = write_same st.next e st.heap in
    let entry = λ (k : String) (q : ℕ). insert-cases key k st.next q st.clients in
    record {
      counted = λ k q f. elim (entry k q f) [
        | inl (t, u) ↦
            ap (λ x. (write st.next e st.heap x).ref) u
            ∙ ap (λ x. x.ref) now
            ∙ zero
            ∙ ap pos (sym (h.unused k (ap (λ x. lookup x st.clients) t ∙ gone)))
        | inr g ↦ ap (λ x. x.ref) (old k q g) ∙ h.counted k q g
      ];
      unused = λ k f. h.unused k (insert-none key k st.next st.clients f);
      apart = λ k j q r f g s. elim (entry k q f) [
        | inl (t, u) ↦ elim (entry j r g) [
          | inl (v, w) ↦ t ∙ sym v
          | inr g' ↦
              elim (fresh.not_kept j r g' (
                sym (ap (λ x. x.client) (old j r g'))
                ∙ sym s
                ∙ ap (λ x. (write st.next e st.heap x).client) u
                ∙ ap (λ x. x.client) now)) [ ]
        ]
        | inr f' ↦ elim (entry j r g) [
          | inl (v, w) ↦
              elim (fresh.not_kept k q f' (
                sym (ap (λ x. x.client) (old k q f'))
                ∙ s
                ∙ ap (λ x. (write st.next e st.heap x).client) w
                ∙ ap (λ x. x.client) now)) [ ]
          | inr g' ↦
              h.apart k j q r f' g'
                (sym (ap (λ x. x.client) (old k q f')) ∙ s ∙ ap (λ x. x.client) (old j r g'))
        ]
      ];
      made = λ k q f. elim (entry k q f) [
        | inl (t, u) ↦ ground (arith, u)
        | inr g ↦ ground (arith, h.made k q g)
      ];
      current =
          All-weaken _ _ st.waiting
            (λ w c. (
              c.0,
              insert-kept key w.0 st.next c.0 st.clients gone c.1,
              ap (λ x. x.client) (old w.0 c.0 c.1) ∙ c.2,
            ))
            h.current;
      usable = λ k q f. elim (entry k q f) [
        | inl (t, u) ↦
            subst (λ c. All (λ d. d ≢ c) st.closed)
              (sym (ap (λ x. (write st.next e st.heap x).client) u ∙ ap (λ x. x.client) now))
              fresh.not_closed
        | inr g ↦
            subst (λ c. All (λ d. d ≢ c) st.closed) (sym (ap (λ x. x.client) (old k q g)))
              (h.usable k q g)
      ];
    }

-- Without users of a key, no waiting goroutine has it.
still-Current :
    (st : ClientStore) (key : String) (closed : List ℕ) (waiting : List (String × ℕ))
    → users key waiting ≡ 0
    → All (Current st) waiting
    → All (Current (record st { clients = delete key st.clients; closed = closed })) waiting
unfolding users
still-Current st key closed [] u a = tt
still-Current st key closed ((k, c) ∷ waiting) u (a, rest) = (
  (a.0, delete-kept key k a.0 st.clients (λ t. ground (arith, u, eq_iff k key, sym t)) a.1, a.2),
  still-Current st key closed waiting (ground (arith, u)) rest,
)

-- Taking a key away that nobody uses; `closed` are then the closed connections.
pub Sound-delete :
    (st : ClientStore) (key : String) (closed : List ℕ)
    → Sound st
    → users key st.waiting ≡ 0
    → ((k : String) (p : ℕ)
        → k ≢ key
        → lookup k st.clients ≡ some p
        → All (λ c. c ≢ (st.heap p).client) closed)
    → Sound (record st { clients = delete key st.clients; closed = closed })
Sound-delete st key closed h free live =
    let kept = λ (k : String) (q : ℕ). delete-some key k q st.clients in
    record {
      counted = λ k q f. h.counted k q (kept k q f);
      unused = λ k f. elim (delete-none key k st.clients f) [
        | inl t ↦ ap (λ x. users x st.waiting) t ∙ free
        | inr g ↦ h.unused k g
      ];
      apart = λ k j q r f g s. h.apart k j q r (kept k q f) (kept j r g) s;
      made = λ k q f. h.made k q (kept k q f);
      current = still-Current st key closed st.waiting free h.current;
      usable = λ k q f. live k q (delete-other key k q st.clients f) (kept k q f);
    }
