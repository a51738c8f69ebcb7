-- ===== src/Job/Tree/Meets/Groups.antt =====
-- The groups and wrapped parts that the builder of the execution tree makes.
use x_cuter.Common.{
  ◌≡◌, refl, Bool, false, Option, none, some, [], All, All-concat, inl, inr, Bool-cases,
}
use x_cuter.Flunc.Parallel.{Goroutines}
use x_cuter.Job.Tree.Builder.{ExecutionGroup, append_flunc, sequential_group, wrap_group, around}
use x_cuter.Job.Tree.Combine.{SafeList, SafeList-nil, SafeList-snoc, Steady, parallel-Steady}
use x_cuter.Job.Tree.Keys.{Ready, Safe}
use x_cuter.Job.Tree.{System, Context, TreeError, Step}

module _ {S K W C D : Type 0} (sys : System S K W C D) (go : Goroutines S TreeError)
    (client : Bool) where
  abbrev pub PartSteady : Option (Step sys) → Type 0
  PartSteady none = Unit
  PartSteady (some f) = Steady sys go client f

  pub record GroupSteady (g : ExecutionGroup (Step sys)) : Type 0 where
    pub in_order : SafeList sys go (Ready client) g.fluncs (Ready client)
    pub each : All (Steady sys go client) g.fluncs

  pub empty-GroupSteady :
      (parallel : Bool) → GroupSteady (record { is_parallel = parallel; fluncs = [] })
  empty-GroupSteady parallel = record { in_order = SafeList-nil sys go (Ready client); each = tt }

  pub append_flunc-GroupSteady :
      (g : ExecutionGroup (Step sys)) (t : Option (Step sys))
      → GroupSteady g
      → PartSteady t
      → GroupSteady (append_flunc sys go g t)
  append_flunc-GroupSteady g none h p = h
  append_flunc-GroupSteady g (some f) h p = record {
    in_order =
        SafeList-snoc sys go (Ready client) (Ready client) (Ready client) g.fluncs f h.in_order p;
    each = All-concat (Steady sys go client) g.fluncs f h.each p;
  }

  pub wrap_group-PartSteady :
      (g : ExecutionGroup (Step sys)) → GroupSteady g → PartSteady (wrap_group sys go g)
  wrap_group-PartSteady g h = elim (Bool-cases g.is_parallel) [
    | inl e ↦ rw e (parallel-Steady sys go client g.fluncs h.each)
    | inr e ↦ rw e (h.in_order 0)
  ]

  pub around-PartSteady :
      (wrap : Step sys → Step sys) (t : Option (Step sys))
      → ((f : Step sys) → Steady sys go client f → Steady sys go client (wrap f))
      → PartSteady t
      → PartSteady (around sys go wrap t)
  around-PartSteady wrap none h p = tt
  around-PartSteady wrap (some f) h p = h f p

-- A group that runs in order takes `P` to `Q`.
module _ {S K W C D : Type 0} (sys : System S K W C D) (go : Goroutines S TreeError) where
  pub record Staged (P : Context K W C → Type 0) (g : ExecutionGroup (Step sys))
      (Q : Context K W C → Type 0) : Type 0 where
    pub sequential : g.is_parallel ≡ false
    pub in_order : SafeList sys go P g.fluncs Q

  pub empty-Staged : (P : Context K W C → Type 0) → Staged P (sequential_group sys go) P
  empty-Staged P = record { sequential = refl; in_order = SafeList-nil sys go P }

  pub append_flunc-Staged :
      (P Q R : Context K W C → Type 0) (g : ExecutionGroup (Step sys)) (f : Step sys)
      → Staged P g Q
      → Safe sys Q f R
      → Staged P (append_flunc sys go g (some f)) R
  append_flunc-Staged P Q R g f h k = record {
    sequential = h.sequential;
    in_order = SafeList-snoc sys go P Q R g.fluncs f h.in_order k;
  }

  pub append_part-Staged :
      (P : Context K W C → Type 0) (client : Bool) (g : ExecutionGroup (Step sys))
      (t : Option (Step sys))
      → Staged P g (Ready client)
      → PartSteady sys go client t
      → Staged P (append_flunc sys go g t) (Ready client)
  append_part-Staged P client g none h k = h
  append_part-Staged P client g (some f) h k =
      append_flunc-Staged P (Ready client) (Ready client) g f h k

  -- A part takes `P` to `Q`, and is there.
  abbrev pub PartSafe :
      (Context K W C → Type 0) → Option (Step sys) → (Context K W C → Type 0) → Type 0
  PartSafe P none Q = ⊥
  PartSafe P (some f) Q = Safe sys P f Q

  pub wrap_group-PartSafe :
      (P Q : Context K W C → Type 0) (g : ExecutionGroup (Step sys))
      → Staged P g Q
      → PartSafe P (wrap_group sys go g) Q
  wrap_group-PartSafe P Q g h = rw h.sequential (h.in_order 0)
