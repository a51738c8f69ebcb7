-- ===== src/Job/Client/Reaped.antt =====
-- The reaper of the connection store of job/client.go closes what nobody uses.
use text.Mathlib.TextEquality.{eq_iff}
use x_cuter.Common.Assoc.{
  lookup, delete, String-cases, lookup-delete_ne, lookup-delete_self, lookup-delete,
}
use x_cuter.Common.{
  ℕ, ◌+◌, ◌-◌, ◌<◌, ◌≡◌, ◌≢◌, ◌⊎◌, refl, sym, ap, subst, ◌∙◌, ltb, true, ◌&&◌, none, some, List, [],
  ◌∷◌, String, pos, Option-cases, Bool-cases, inl, inr, arith,
}
use x_cuter.Job.Client.InUse.{Reached, Reached-Sound}
use x_cuter.Job.Client.Race.{reap_key-idle}
use x_cuter.Job.Client.Sound.{users}
use x_cuter.Job.Client.{
  StoreElement, ClientStore, not_positive, is_idle, reap_key, reap_keys, keys_of, reap,
}

abbrev pub In : {A : Type 0} → A → List A → Type 0
In x [] = ⊥
In x (y ∷ ys) = (y ≡ x) ⊎ In x ys

lookup-keys_of :
    (key : String) (p : ℕ) (m : List (String × ℕ)) → lookup key m ≡ some p → In key (keys_of m)
unfolding lookup
lookup-keys_of key p [] h = cc
lookup-keys_of key p ((k, q) ∷ m) h = elim (String-cases k key) [
  | inl t ↦ inl t
  | inr t ↦ inr (lookup-keys_of key p m (ground (arith, h, t, eq_iff k key)))
]

-- A key that is reaped, and what else the reaper leaves.
data Reaping (key : String) (st : ClientStore) : ClientStore → Type 0 where
  kept : Reaping key st st
  closing :
      (p : ℕ)
      → lookup key st.clients ≡ some p
      → Reaping key st
          (record st { clients = delete key st.clients; closed = (st.heap p).client ∷ st.closed })

reap_key-Reaping :
    (ttl now : ℕ) (key : String) (st : ClientStore) → Reaping key st (reap_key ttl now key st)
unfolding reap_key
reap_key-Reaping ttl now key st = elim (Option-cases (lookup key st.clients)) [
  | inl e ↦ simp (reap_key, e) kept
  | inr (p, e) ↦ elim (Bool-cases (is_idle ttl now (st.heap p))) [
    | inr i ↦ simp (reap_key, e, i) kept
    | inl i ↦ simp (reap_key, e, i) (closing p e)
  ]
]

-- What is closed and gone stays so.
abbrev Gone : String → ℕ → ClientStore → Type 0
Gone key c st = (lookup key st.clients ≡ none) × In c st.closed

Reaping-Gone :
    (key k : String) (c : ℕ) (st after : ClientStore)
    → Reaping k st after
    → Gone key c st
    → Gone key c after
Reaping-Gone key k c st after kept h = h
Reaping-Gone key k c st after (closing p e) (n, i) =
    (ground (arith, lookup-delete k key st.clients, n), inr i)

reap_keys-Gone :
    (ttl : ℕ) (now : String → ℕ) (keys : List String) (key : String) (c : ℕ) (st : ClientStore)
    → Gone key c st
    → Gone key c (reap_keys ttl now keys st)
unfolding reap_keys
reap_keys-Gone ttl now [] key c st h = h
reap_keys-Gone ttl now (k ∷ keys) key c st h =
    reap_keys-Gone ttl now keys key c _
      (Reaping-Gone key k c st _ (reap_key-Reaping ttl (now k) k st) h)

-- Reaping another key leaves the element of a key.
Reaping-other :
    (key k : String) (st after : ClientStore)
    → k ≢ key
    → Reaping k st after
    → (lookup key after.clients ≡ lookup key st.clients) × (after.heap ≡ st.heap)
Reaping-other key k st after t kept = (refl, refl)
Reaping-other key k st after t (closing p e) = (lookup-delete_ne k key st.clients t, refl)

reap_keys-idle :
    (ttl : ℕ) (now : String → ℕ) (keys : List String) (key : String) (p : ℕ) (st : ClientStore)
    → In key keys
    → lookup key st.clients ≡ some p
    → is_idle ttl (now key) (st.heap p) ≡ true
    → Gone key (st.heap p).client (reap_keys ttl now keys st)
unfolding reap_keys
reap_keys-idle ttl now [] key p st i e h = elim i [ ]
reap_keys-idle ttl now (k ∷ keys) key p st i e h = elim (String-cases k key) [
  | inl t ↦ reap_keys-Gone ttl now keys key (st.heap p).client _ (
      subst (λ x. Gone key (st.heap p).client (reap_key ttl (now x) x st)) (sym t)
        (subst (Gone key (st.heap p).client) (sym (reap_key-idle ttl (now key) key p st e h))
          (lookup-delete_self key st.clients, inl refl)))
  | inr t ↦
      let (same, heap) = Reaping-other key k st _ t (reap_key-Reaping ttl (now k) k st) in
      let behind : In key keys = elim i [ inl s ↦ elim (t s) [ ] | inr r ↦ r ] in
      subst (λ hp. Gone key (hp p).client (reap_keys ttl now (k ∷ keys) st)) heap
        (reap_keys-idle ttl now keys key p _ behind (same ∙ e)
          (ap (λ hp. is_idle ttl (now key) (hp p)) heap ∙ h))
]

unused-is_idle :
    (ttl now : ℕ) (elem : StoreElement)
    → elem.ref ≡ pos 0
    → elem.last_used + ttl < now
    → is_idle ttl now elem ≡ true
unfolding is_idle
unused-is_idle ttl now elem e late =
    ap (λ r. not_positive r && ltb ttl (now - elem.last_used)) e ∙ ground (arith, late)

-- In every store that is reached when the second critical section of each request finds under its
-- key what the first one found, each new connection is another one and no connection is lost while a
-- context uses it: when no context uses the connection under a key
-- any more and it was last used longer ago than the time to live, the next round of the reaper takes
-- the key out of the store and closes the connection.
pub Reached-reap :
    (ttl : ℕ) (now : String → ℕ) (key : String) (p : ℕ) (st : ClientStore)
    → Reached ttl st
    → lookup key st.clients ≡ some p
    → users key st.waiting ≡ 0
    → (st.heap p).last_used + ttl < now key
    → (lookup key (reap ttl now st).clients ≡ none) × In (st.heap p).client (reap ttl now st).closed
Reached-reap ttl now key p st r e free late =
    let none_left = (Reached-Sound ttl st r).counted key p e ∙ ap pos free in
    reap_keys-idle ttl now (keys_of st.clients) key p st (lookup-keys_of key p st.clients e) e
      (unused-is_idle ttl (now key) (st.heap p) none_left late)
