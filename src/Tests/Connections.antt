-- ===== src/Tests/Connections.antt =====
-- Two contexts that use a connection to one key.
use x_cuter.Common.Assoc.{lookup, insert}
use x_cuter.Common.{ℕ, ◌≡◌, refl, none, [], ◌∷◌, arith}
use x_cuter.Job.Client.Reaped.{In, Reached-reap}
use x_cuter.Job.Client.Sound.{users, Fresh, Sound}
use x_cuter.Job.Client.InUse.{finished, Reached, started, put}
use x_cuter.Job.Client.Race.{put_client-overlap, use_element-reap_key}
use x_cuter.Job.Client.{
  ClientStore, initial_store, find_client, put_client, use_element, context_done, reap_key, reap,
  is_idle, write,
}

initial_store-Fresh : (c : ℕ) → Fresh c initial_store
unfolding lookup
initial_store-Fresh c = record { not_kept = λ k p h. cc; not_closed = tt }

abbrev first : ClientStore
first = (put_client "root@web:22" 7 10 initial_store).0

abbrev second : ClientStore
second = (use_element "root@web:22" 0 20 first).0

abbrev later : ClientStore
later = reap 60 (λ key. 1000) second

still_two : second.waiting ≡ ("root@web:22", 7) ∷ ("root@web:22", 7) ∷ []
unfolding put_client use_element lookup write insert
still_two = refl

put_client-overlap_example :
    let both = (put_client "root@web:22" 8 11 (put_client "root@web:22" 7 10 initial_store).0).0 in
    let after =
      reap_key 60 100 "root@web:22"
        (context_done "root@web:22" 30 (record both { waiting = ("root@web:22", 8) ∷ [] })) in
    (both.waiting ≡ ("root@web:22", 8) ∷ ("root@web:22", 7) ∷ [])
    × (after.waiting ≡ ("root@web:22", 8) ∷ [])
    × (after.closed ≡ 8 ∷ [])
    × (find_client "root@web:22" after ≡ none)
put_client-overlap_example =
    put_client-overlap "root@web:22" 7 8 10 11 30 60 100 initial_store (ground arith)

-- The connection of the first context, which is done at 30.
abbrev left : ClientStore
left = context_done "root@web:22" 30 (record first { waiting = [] })

left-Reached : Reached 60 left
unfolding put_client use_element lookup write insert
left-Reached =
    finished "root@web:22" 7 30 [] [] refl
      (put "root@web:22" 7 10 refl (initial_store-Fresh 7) started)

Reached-reap_example :
    (lookup "root@web:22" (reap 60 (λ key. 100) left).clients ≡ none)
    × In 7 (reap 60 (λ key. 100) left).closed
unfolding put_client use_element context_done lookup write insert users
Reached-reap_example =
    Reached-reap 60 (λ key. 100) "root@web:22" 0 left left-Reached refl refl (ground arith)

-- A request that has found the element of the first context, behind which the reaper comes at 100.
use_element-reap_key_example :
    let (after, client) = use_element "root@web:22" 0 101 (reap_key 60 100 "root@web:22" left) in
    (client ≡ (left.heap 0).client)
    × (after.closed ≡ client ∷ left.closed)
    × (after.waiting ≡ ("root@web:22", client) ∷ left.waiting)
    × (find_client "root@web:22" after ≡ none)
unfolding put_client use_element context_done lookup write insert is_idle
use_element-reap_key_example = use_element-reap_key 60 100 101 "root@web:22" 0 left refl refl
