-- ===== src/Job/Client.antt =====
-- The store of SSH connections of job/client.go. Its elements stand in a heap, since a pointer to
-- one is kept between two critical sections. Connections are numbers; what a critical section does
-- is one function, and `now` is what time.Now gives in it.
pub mod Session
pub mod Sound
pub mod InUse
pub mod Race
pub mod Reaped
use x_cuter.Common.Assoc.{lookup, insert, delete}
use x_cuter.Common.{
  ℕ, suc, ◌-◌, ◌==◌, ltb, Bool, true, false, ◌&&◌, Option, none, some, List, [], ◌∷◌, map,
  if◌then◌else◌, String, ℤ, pos, negsuc, increment, decrement,
}

pub record StoreElement : Type 0 where
  pub ref : ℤ
  pub client : ℕ
  pub last_used : ℕ

-- An `sshClientStore` with what is around it: `heap` and `next` are the elements that have been
-- made, `waiting` the goroutines that wait for a context, each with the connection of that context,
-- and `closed` the connections that the reaper has closed.
pub record ClientStore : Type 0 where
  pub clients : List (String × ℕ)
  pub heap : ℕ → StoreElement
  pub next : ℕ
  pub waiting : List (String × ℕ)
  pub closed : List ℕ

-- The store that `InitializeSSHClientStore` makes.
abbrev pub initial_store : ClientStore
initial_store = record {
  clients = [];
  heap = λ p. record { ref = pos 0; client = 0; last_used = 0 };
  next = 0;
  waiting = [];
  closed = [];
}

-- `*p = e`
unfoldable pub write : ℕ → StoreElement → (ℕ → StoreElement) → ℕ → StoreElement
write p e heap q = if p == q then e else heap q

-- The first critical section of `newSSHClient`.
abbrev pub find_client : String → ClientStore → Option ℕ
find_client key st = lookup key st.clients

-- The second one, for an element that the first has found, and the end of the other branch: the
-- element is counted and a goroutine waits for the context.
unfoldable pub use_element : String → ℕ → ℕ → ClientStore → ClientStore × ℕ
unfolding write
use_element key p now st =
    let elem = st.heap p in
    let used : StoreElement = record elem { ref = increment elem.ref; last_used = now } in
    (
      record st { heap = write p used st.heap; waiting = (key, elem.client) ∷ st.waiting },
      elem.client,
    )

-- The second one when the first has found no element, behind `createClient`, with the connection that it has made.
unfoldable pub put_client : String → ℕ → ℕ → ClientStore → ClientStore × ℕ
unfolding use_element write
put_client key client now st = use_element key st.next now (record st {
  clients = insert key st.next st.clients;
  heap = write st.next (record { ref = pos 0; client = client; last_used = 0 }) st.heap;
  next = suc st.next;
})

-- What the waiting goroutine does once its context is done.
unfoldable pub context_done : String → ℕ → ClientStore → ClientStore
unfolding write
context_done key now st = elim (lookup key st.clients) [
  | none ↦ st
  | some p ↦
      let elem = st.heap p in
      let left : StoreElement = record elem { ref = decrement elem.ref; last_used = now } in
      record st { heap = write p left st.heap }
]

-- What the goroutine of a connection does once that is closed; `trashed` is nil everywhere.
abbrev pub connection_closed : String → ClientStore → ClientStore
connection_closed key st = record st { clients = delete key st.clients }

-- `elem.ref <= 0 && diff > ttl`
abbrev pub not_positive : ℤ → Bool
not_positive (pos n) = n == 0
not_positive (negsuc n) = true

unfoldable pub is_idle : ℕ → ℕ → StoreElement → Bool
is_idle ttl now elem = not_positive elem.ref && ltb ttl (now - elem.last_used)

-- The body of the loop of the reaper, for one key of the map.
unfoldable pub reap_key : ℕ → ℕ → String → ClientStore → ClientStore
unfolding is_idle
reap_key ttl now key st = elim (lookup key st.clients) [
  | none ↦ st
  | some p ↦
      if is_idle ttl now (st.heap p)
      then record st { clients = delete key st.clients; closed = (st.heap p).client ∷ st.closed }
      else st
]

-- The loop over the keys, in some order; `now` may differ from key to key.
unfoldable pub reap_keys : ℕ → (String → ℕ) → List String → ClientStore → ClientStore
unfolding reap_key
reap_keys ttl now [] st = st
reap_keys ttl now (key ∷ keys) st = reap_keys ttl now keys (reap_key ttl (now key) key st)

abbrev pub keys_of : List (String × ℕ) → List String
keys_of [] = []
keys_of ((key, p) ∷ others) = key ∷ keys_of others

-- One round of the goroutine of `InitializeSSHClientStore`.
abbrev pub reap : ℕ → (String → ℕ) → ClientStore → ClientStore
reap ttl now st = reap_keys ttl now (keys_of st.clients) st
