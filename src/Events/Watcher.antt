-- ===== src/Events/Watcher.antt =====
-- The directory watcher of fs.go, over what package fsnotify delivers.
pub mod Names
use x_cuter.Common.{
  ℕ, ◌-◌, ◌==◌, leb, Bool, true, false, ◌&&◌, Option, none, some, List, [], ◌∷◌, ◌++◌, Bytes, codes,
  length, drop, if◌then◌else◌, String,
}
use x_cuter.Events.{Event}

abbrev pub bytes_eq : Bytes → Bytes → Bool
bytes_eq [] [] = true
bytes_eq [] (c ∷ cs) = false
bytes_eq (c ∷ cs) [] = false
bytes_eq (c ∷ cs) (d ∷ ds) = (c == d) && bytes_eq cs ds

-- `strings.HasSuffix(name, ".job")`
unfoldable pub is_job_file : String → Bool
is_job_file name =
    leb 4 (length (codes name))
    && bytes_eq (drop (length (codes name) - 4) (codes name)) (codes ".job")

-- What a turn of the loop receives.
pub data Received : Type 0 where
  fs_event : Event → Received
  fs_error : Received
  context_done : Received

abbrev pub created : String → Event
created name = record { name = name; create = true; delete = false; rename = false; write = false }

-- The events for the files of the directory, by their names in it.
unfoldable pub existing : List String → List Event
unfolding is_job_file
existing [] = []
existing (file ∷ files) =
    let later = existing files in if is_job_file file then created file ∷ later else later

-- The events that the loop sends, of what it receives until the context is done.
unfoldable pub forwarded : List Received → List Event
unfolding is_job_file
forwarded [] = []
forwarded (fs_event event ∷ rest) =
    let later = forwarded rest in if is_job_file event.name then event ∷ later else later
forwarded (fs_error ∷ rest) = forwarded rest
forwarded (context_done ∷ rest) = []

-- `watch`: what it sends. `files` is what ReadDir gives, none for an error; that NewWatcher fails,
-- on which the code goes on with nil, is left out.
unfoldable pub watch : Option (List String) → List Received → List Event
unfolding existing forwarded
watch none received = []
watch (some files) received = existing files ++ forwarded received
