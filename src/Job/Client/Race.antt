-- ===== src/Job/Client/Race.antt =====
-- Requests to the connection store of job/client.go that overlap.
use text.Mathlib.TextEquality.{eq_iff}
use x_cuter.Common.Assoc.{lookup, delete, lookup-insert, lookup-delete_self}
use x_cuter.Common.{
  ℕ, ◌+◌, ◌<◌, ◌≡◌, refl, ap, ◌∙◌, true, none, some, ◌∷◌, String, pos, increment, decrement, arith,
}
use x_cuter.Job.Client.{
  StoreElement, ClientStore, write, find_client, use_element, put_client, context_done, is_idle,
  reap_key,
}

-- The store behind `put_client`.
record Put (key : String) (c now : ℕ) (st after : ClientStore) : Type 0 where
  entry : lookup key after.clients ≡ some st.next
  element : after.heap st.next ≡ record { ref = pos 1; client = c; last_used = now }
  waits : after.waiting ≡ (key, c) ∷ st.waiting
  nothing_closed : after.closed ≡ st.closed

write-at : (p : ℕ) (e : StoreElement) (heap : ℕ → StoreElement) → write p e heap p ≡ e
unfolding write
write-at p e heap = ground arith

put_client-Put :
    (key : String) (c now : ℕ) (st : ClientStore) → Put key c now st (put_client key c now st).0
unfolding put_client use_element
put_client-Put key c now st =
    let fresh : StoreElement = record { ref = pos 0; client = c; last_used = 0 } in
    let same = write-at st.next fresh st.heap in
    record {
      entry = ground (arith, lookup-insert key key st.next st.clients, eq_iff key key);
      element =
          write-at st.next _ (write st.next fresh st.heap)
          ∙ ap (λ e. record { ref = increment e.ref; client = e.client; last_used = now }) same;
      waits = ap (λ e. (key, e.client) ∷ st.waiting) same;
      nothing_closed = refl;
    }

-- The element of the key is idle, so the reaper closes its connection.
pub reap_key-idle :
    (ttl now : ℕ) (key : String) (p : ℕ) (st : ClientStore)
    → lookup key st.clients ≡ some p
    → is_idle ttl now (st.heap p) ≡ true
    → reap_key ttl now key st
      ≡ record st { clients = delete key st.clients; closed = (st.heap p).client ∷ st.closed }
unfolding reap_key
reap_key-idle ttl now key p st e i = simp (reap_key, e, i)

context_done-entry :
    (key : String) (p now : ℕ) (st : ClientStore)
    → lookup key st.clients ≡ some p
    → context_done key now st ≡ record st {
      heap =
          write p
            (record {
              ref = decrement (st.heap p).ref;
              client = (st.heap p).client;
              last_used = now;
            })
            st.heap;
    }
unfolding context_done
context_done-entry key p now st e = simp (context_done, e)

-- The element under the key, once its only counted context is done and the time to live is over.
expires :
    (ttl now done : ℕ) (key : String) (p d t : ℕ) (st : ClientStore)
    → lookup key st.clients ≡ some p
    → st.heap p ≡ record { ref = pos 1; client = d; last_used = t }
    → done + ttl < now
    → let after = reap_key ttl now key (context_done key done st) in
      (after.waiting ≡ st.waiting)
      × (after.closed ≡ d ∷ st.closed)
      × (after.clients ≡ delete key st.clients)
unfolding is_idle
expires ttl now done key p d t st e elem late =
    let left : StoreElement = record {
      ref = decrement (st.heap p).ref;
      client = (st.heap p).client;
      last_used = done;
    } in
    let gone : ClientStore = record st { heap = write p left st.heap } in
    let at : gone.heap p ≡ record { ref = pos 0; client = d; last_used = done } =
      write-at p left st.heap
      ∙ ap
          (λ (x : StoreElement). record {
            ref = decrement x.ref;
            client = x.client;
            last_used = done;
          })
          elem in
    let idle : is_idle ttl now (gone.heap p) ≡ true =
      ap (is_idle ttl now) at ∙ ground (arith, late) in
    let end =
      ap (reap_key ttl now key) (context_done-entry key p done st e)
      ∙ reap_key-idle ttl now key p gone e idle in
    (
      ap (λ x. x.waiting) end,
      ap (λ x. x.closed) end ∙ ap (λ x. x.client ∷ st.closed) at,
      ap (λ x. x.clients) end,
    )

-- Two requests for one key have both found no element and have dialled the connections `c` and `d`;
-- both are put into the store, and the context of the first is then done at the time `done` while
-- that of the second is not. More than the time to live later, the reaper closes the connection of
-- the second, whose goroutine still waits, and takes the key out of the store: the first context has
-- been taken off the counter of the second's element.
pub put_client-overlap :
    (key : String) (c d first second done ttl now : ℕ) (st : ClientStore)
    → done + ttl < now
    → let both = (put_client key d second (put_client key c first st).0).0 in
      let after =
        reap_key ttl now key
          (context_done key done (record both { waiting = (key, d) ∷ st.waiting })) in
      (both.waiting ≡ (key, d) ∷ (key, c) ∷ st.waiting)
      × (after.waiting ≡ (key, d) ∷ st.waiting)
      × (after.closed ≡ d ∷ st.closed)
      × (find_client key after ≡ none)
put_client-overlap key c d first second done ttl now st late =
    let one = (put_client key c first st).0 in
    let h = put_client-Put key c first st in
    let both = (put_client key d second one).0 in
    let k = put_client-Put key d second one in
    let left = record both { waiting = (key, d) ∷ st.waiting } in
    let (w, x, y) = expires ttl now done key one.next d second left k.entry k.element late in
    (
      k.waits ∙ ap (λ l. (key, d) ∷ l) h.waits,
      w,
      x ∙ ap (λ l. d ∷ l) (k.nothing_closed ∙ h.nothing_closed),
      ap (lookup key) y ∙ lookup-delete_self key both.clients,
    )

-- A request has found the element of its key, which is idle, and before it counts that element the
-- reaper comes to the key. Then the request is given the connection that the reaper has closed, its
-- goroutine waits with that connection, and the key is not in the store, so that nobody else uses
-- the element.
pub use_element-reap_key :
    (ttl now later : ℕ) (key : String) (p : ℕ) (st : ClientStore)
    → find_client key st ≡ some p
    → is_idle ttl now (st.heap p) ≡ true
    → let (after, client) = use_element key p later (reap_key ttl now key st) in
      (client ≡ (st.heap p).client)
      × (after.closed ≡ client ∷ st.closed)
      × (after.waiting ≡ (key, client) ∷ st.waiting)
      × (find_client key after ≡ none)
unfolding use_element
use_element-reap_key ttl now later key p st found idle =
    rw (reap_key-idle ttl now key p st found idle)
      (refl, refl, refl, lookup-delete_self key st.clients)
