-- ===== src/Job/Client/InUse.antt =====
-- The connection store of job/client.go as it is meant to be used: no connection is closed under a
-- context that uses it.
use text.Mathlib.Text.{◌==◌ as str_eq}
use text.Mathlib.TextEquality.{eq_iff}
use x_cuter.Common.Assoc.{lookup, lookup-insert}
use x_cuter.Common.{
  ℕ, suc, ◌+◌, ◌-◌, ◌==◌, ◌≡◌, refl, sym, ap, subst, ◌∙◌, ltb, true, ◌&&◌, none, some, List, [],
  ◌∷◌, ◌++◌, if◌then◌else◌, String, pos, increment, decrement, All, Option-cases, Bool-cases, arith,
  inl, inr,
}
use x_cuter.Job.Client.{
  initial_store, StoreElement, ClientStore, use_element, put_client, find_client, context_done,
  connection_closed, not_positive, is_idle, reap_key, reap_keys, reap,
}
use x_cuter.Job.Client.Sound.{users, Current, Sound, Sound-recount, Fresh, Sound-new, Sound-delete}

initial_store-Sound : Sound initial_store
unfolding users lookup
initial_store-Sound = record {
  counted = λ key p h. cc;
  unused = λ key h. refl;
  apart = λ k j p q h g s. cc;
  made = λ k p h. cc;
  current = tt;
  usable = λ key p h. tt;
}

use_element-Sound :
    (key : String) (p now : ℕ) (st : ClientStore)
    → Sound st
    → lookup key st.clients ≡ some p
    → Sound (use_element key p now st).0
unfolding use_element users
use_element-Sound key p now st h at =
    let elem = st.heap p in
    Sound-recount st key p (record elem { ref = increment elem.ref; last_used = now })
      ((key, elem.client) ∷ st.waiting) h at refl
      (ap increment (h.counted key p at) ∙ ground (arith, eq_iff key key))
      (λ k t. ground (arith, t, eq_iff key k)) ((p, at, refl), h.current)

put_client-Sound :
    (key : String) (c now : ℕ) (st : ClientStore)
    → Sound st
    → lookup key st.clients ≡ none
    → Fresh c st
    → Sound (put_client key c now st).0
unfolding put_client
put_client-Sound key c now st h gone fresh =
    use_element-Sound key st.next now _
      (Sound-new st key (record { ref = pos 0; client = c; last_used = 0 }) h gone fresh refl)
      (ground (arith, lookup-insert key key st.next st.clients, eq_iff key key))

users-append :
    (key : String) (front back : List (String × ℕ))
    → users key (front ++ back) ≡ users key front + users key back
unfolding users
users-append key [] back = omega arith
users-append key ((k, c) ∷ front) back = omega (arith, users-append key front back)

users-between :
    (key k : String) (c : ℕ) (front back : List (String × ℕ))
    → users key (front ++ (k, c) ∷ back)
      ≡ (if str_eq k key then 1 else 0) + users key (front ++ back)
unfolding users
users-between key k c front back =
    omega (arith, users-append key front ((k, c) ∷ back), users-append key front back)

All-without :
    {A : Type 0} (P : A → Type 0) (front back : List A) (x : A)
    → All P (front ++ x ∷ back)
    → P x × All P (front ++ back)
All-without P [] back x h = h
All-without P (y ∷ front) back x (p, h) =
    let (q, rest) = All-without P front back x h in (q, (p, rest))

context_done-Sound :
    (key : String) (c now : ℕ) (front back : List (String × ℕ)) (st : ClientStore)
    → Sound st
    → st.waiting ≡ front ++ (key, c) ∷ back
    → Sound (context_done key now (record st { waiting = front ++ back }))
unfolding context_done
context_done-Sound key c now front back st h e =
    let (mine, rest) =
      All-without (Current st) front back (key, c) (subst (All (Current st)) e h.current) in
    let (p, at, same) = mine in
    let elem = st.heap p in
    let count : elem.ref ≡ pos (users key (front ++ (key, c) ∷ back)) =
      h.counted key p at ∙ ap (λ w. pos (users key w)) e in
    let one : users key (front ++ (key, c) ∷ back) ≡ suc (users key (front ++ back)) =
      ground (arith, users-between key key c front back, eq_iff key key) in
    rw (at, context_done)
      (Sound-recount st key p (record elem { ref = decrement elem.ref; last_used = now })
        (front ++ back) h at refl (ap decrement (count ∙ ap pos one))
        (λ k t. ground (arith, t, eq_iff key k, users-between k key c front back, ap (users k) e))
        rest)

idle-free :
    (ttl now : ℕ) (elem : StoreElement) (n : ℕ)
    → elem.ref ≡ pos n
    → is_idle ttl now elem ≡ true
    → n ≡ 0
unfolding is_idle
idle-free ttl now elem n e h =
    let positive : (not_positive elem.ref && ltb ttl (now - elem.last_used)) ≡ true = h in
    let zero : (n == 0) ≡ true = sym (ap not_positive e) ∙ ground (arith, positive) in
    ground (arith, zero)

reap_key-Sound :
    (ttl now : ℕ) (key : String) (st : ClientStore) → Sound st → Sound (reap_key ttl now key st)
unfolding reap_key
reap_key-Sound ttl now key st h = elim (Option-cases (lookup key st.clients)) [
  | inl e ↦ rw (e, reap_key) h
  | inr (p, e) ↦ elim (Bool-cases (is_idle ttl now (st.heap p))) [
    | inr i ↦ rw (e, i, reap_key) h
    | inl i ↦
        rw (e, i, reap_key)
          (Sound-delete st key ((st.heap p).client ∷ st.closed) h
            (idle-free ttl now (st.heap p) _ (h.counted key p e) i)
            (λ k q t f. (λ same. t (sym (h.apart key k p q e f same)), h.usable k q f)))
  ]
]

reap_keys-Sound :
    (ttl : ℕ) (now : String → ℕ) (keys : List String) (st : ClientStore)
    → Sound st
    → Sound (reap_keys ttl now keys st)
unfolding reap_keys
reap_keys-Sound ttl now [] st h = h
reap_keys-Sound ttl now (key ∷ keys) st h =
    reap_keys-Sound ttl now keys _ (reap_key-Sound ttl (now key) key st h)

-- The stores that the program reaches, one critical section after the other, the first ones of
-- requests changing nothing, if each of these holds: when the second critical section of a request
-- runs, the store has the same element under the key, or none, as the first one found, so that no
-- reaper round, closed connection or other request has changed that in between; each new connection
-- is another one; and no connection is lost while a context uses it.
pub data Reached (ttl : ℕ) : ClientStore → Type 0 where
  started : Reached ttl initial_store
  used :
      {st : ClientStore} (key : String) (p now : ℕ)
      → find_client key st ≡ some p
      → Reached ttl st
      → Reached ttl (use_element key p now st).0
  put :
      {st : ClientStore} (key : String) (c now : ℕ)
      → find_client key st ≡ none
      → Fresh c st
      → Reached ttl st
      → Reached ttl (put_client key c now st).0
  finished :
      {st : ClientStore} (key : String) (c now : ℕ) (front back : List (String × ℕ))
      → st.waiting ≡ front ++ (key, c) ∷ back
      → Reached ttl st
      → Reached ttl (context_done key now (record st { waiting = front ++ back }))
  lost :
      {st : ClientStore} (key : String)
      → users key st.waiting ≡ 0
      → Reached ttl st
      → Reached ttl (connection_closed key st)
  reaped : {st : ClientStore} (now : String → ℕ) → Reached ttl st → Reached ttl (reap ttl now st)

pub Reached-Sound : (ttl : ℕ) (st : ClientStore) → Reached ttl st → Sound st
Reached-Sound ttl st started = initial_store-Sound
Reached-Sound ttl st (used {st = before} key p now found r) =
    use_element-Sound key p now before (Reached-Sound ttl before r) found
Reached-Sound ttl st (put {st = before} key c now found fresh r) =
    put_client-Sound key c now before (Reached-Sound ttl before r) found fresh
Reached-Sound ttl st (finished {st = before} key c now front back e r) =
    context_done-Sound key c now front back before (Reached-Sound ttl before r) e
Reached-Sound ttl st (lost {st = before} key free r) =
    let h = Reached-Sound ttl before r in
    Sound-delete before key before.closed h free (λ k p t f. h.usable k p f)
Reached-Sound ttl st (reaped {st = before} now r) =
    reap_keys-Sound ttl now _ before (Reached-Sound ttl before r)
