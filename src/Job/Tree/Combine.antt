-- ===== src/Job/Tree/Combine.antt =====
-- The combinators and the groups of the execution tree keep to what their children need and leave.
use mathlib.Core.List.{map-append}
use x_cuter.Common.{
  ℕ, zero, suc, ◌+◌, ◌≡◌, refl, ap, subst, ◌∙◌, Bool, true, Option, none, some, List, [], ◌∷◌, ◌++◌,
  map, All, Option-cases, inl, inr, ◌⊎◌, length,
}
use x_cuter.Flunc.Order.{sequential_from-append}
use x_cuter.Flunc.Parallel.{Goroutines, Sends, tasks_from, sent_error, parallel, wait, wait-Arrived}
use x_cuter.Flunc.{
  Outcome, passed, failed, passed_on, sequential_from, error_safeguard, context_bounds, retry_from,
  retry,
}
use x_cuter.Job.Tree.Builder.{error_of, tree_contexts}
use x_cuter.Job.Tree.Keys.{NotMissing, IsSome, Ready, Post, Safe}
use x_cuter.Logging.{NodeLogger}
use x_cuter.Job.Tree.{System, Context, TreeError, child, context_error, Step, Logger}

module _ {S K W C D : Type 0} (sys : System S K W C D) (go : Goroutines S TreeError) where
  -- A sequence of fluncs takes `P` to `Q`.
  abbrev pub SafeList :
      (Context K W C → Type 0) → List (Step sys) → (Context K W C → Type 0) → Type 0
  SafeList P fs Q =
      (i : ℕ) (ctx : Context K W C) (s : S)
      → P ctx
      → Post sys Q ctx (sequential_from (tree_contexts sys go) i (map some fs) ctx s).1

  pub SafeList-nil : (P : Context K W C → Type 0) → SafeList P [] P
  unfolding sequential_from
  SafeList-nil P i ctx s h = h

  -- What a flunc gives, and that the outcome is as it says.
  Post-cases :
      (Q : Context K W C → Type 0) (ctx : Context K W C) (r : Outcome (Context K W C) TreeError)
      → Post sys Q ctx r
      → ((c : Option (Context K W C)) × (r ≡ passed c) × Q (passed_on (tree_contexts sys go) ctx c))
        ⊎ ((e : TreeError) × (r ≡ failed e) × NotMissing e)
  Post-cases Q ctx (passed none) h = inl (none, refl, h)
  Post-cases Q ctx (passed (some c)) h = inl (some c, refl, h)
  Post-cases Q ctx (failed e) h = inr (e, refl, h)

  last-Post :
      (Q : Context K W C → Type 0) (ctx outer : Context K W C) (i : ℕ) (f : Step sys) (s : S)
      → Post sys Q ctx (f ctx s).1
      → Post sys Q outer (sequential_from (tree_contexts sys go) i (some f ∷ []) ctx s).1
  unfolding sequential_from NotMissing
  last-Post Q ctx outer i f s h = elim (Option-cases (sys.done ctx.token s)) [
    | inr (e, n) ↦ rw (n, sequential_from) tt
    | inl n ↦
        rw (n, sequential_from)
          (elim (Post-cases Q ctx (f ctx s).1 h) [
            | inl (c, r, q) ↦ rw r q
            | inr (e, r, q) ↦ rw r q
          ])
  ]

  pub SafeList-snoc :
      (P Q R : Context K W C → Type 0) (fs : List (Step sys)) (f : Step sys)
      → SafeList P fs Q
      → Safe sys Q f R
      → SafeList P (fs ++ f ∷ []) R
  SafeList-snoc P Q R fs f hs h i ctx s p =
      let first = sequential_from (tree_contexts sys go) i (map some fs) ctx s in
      let split =
        ap (λ l. sequential_from (tree_contexts sys go) i l ctx s) (map-append some fs (f ∷ []))
        ∙ sequential_from-append (tree_contexts sys go) i (map some fs) (some f ∷ []) ctx s in
      rw split (elim (Post-cases Q ctx first.1 (hs i ctx s p)) [
        | inl (c, r, q) ↦
            let next = passed_on (tree_contexts sys go) ctx c in
            let n = length (map some fs) + i in
            rw r (last-Post R next ctx n f first.0 (h next first.0 q))
        | inr (e, r, q) ↦ rw r q
      ])

  -- The wrappers, around what needs and leaves a ready context.
  module _ (client : Bool) where
    abbrev pub Steady : Step sys → Type 0
    Steady f = Safe sys (Ready client) f (Ready client)

    Ready-token :
        (ctx : Context K W C) (k : K) → Ready client ctx → Ready client (record ctx { token = k })
    Ready-token ctx k h = record {
      output = h.output;
      logger = h.logger;
      templating = h.templating;
      client_ready = h.client_ready;
    }

    -- What the child leaves in its context stays inside.
    pub context_bounds-Safe :
        (Q : Context K W C → Type 0) (f : Step sys)
        → Safe sys (Ready client) f Q
        → Steady (context_bounds (tree_contexts sys go) f)
    unfolding context_bounds
    context_bounds-Safe Q f h ctx s p =
        let opened = sys.with_cancel ctx.token s in
        let inner : Context K W C = record ctx { token = opened.1 } in
        elim (Post-cases Q inner (f inner opened.0).1
          (h inner opened.0 (Ready-token ctx opened.1 p))) [
            | inl (c, r, q) ↦ rw r p
            | inr (e, r, q) ↦ rw r q
          ]

    has_logger :
        (ctx : Context K W C) → Ready client ctx → (tree_contexts sys go).has_logger ctx ≡ true
    has_logger ctx h = elim (Option-cases ctx.logger) [
      | inl n ↦
          let bad : IsSome {A = NodeLogger (Logger W)} none = subst IsSome n h.logger in
          elim bad [ ]
      | inr (l, n) ↦ rw n refl
    ]

    pub error_safeguard-Steady :
        (f : Step sys) → Steady f → Steady (error_safeguard (tree_contexts sys go) f)
    unfolding error_safeguard
    error_safeguard-Steady f h ctx s p =
        rw (has_logger ctx p) (elim (Post-cases (Ready client) ctx (f ctx s).1 (h ctx s p)) [
          | inl (c, r, q) ↦ rw r (subst (λ x. Post sys (Ready client) ctx x) r (h ctx s p))
          | inr (e, r, q) ↦ rw r p
        ])

    retry_from-Steady :
        (n : ℕ) (last : Outcome (Context K W C) TreeError) (f : Step sys) (ctx : Context K W C)
        (s : S)
        → Steady f
        → Ready client ctx
        → Post sys (Ready client) ctx last
        → Post sys (Ready client) ctx (retry_from (tree_contexts sys go) n last f ctx s).1
    unfolding retry_from
    retry_from-Steady zero last f ctx s h p q = q
    retry_from-Steady (suc n) last f ctx s h p q =
        elim (Post-cases (Ready client) ctx (f ctx s).1 (h ctx s p)) [
          | inl (c, r, q') ↦
              rw (r, retry_from) (subst (λ x. Post sys (Ready client) ctx x) r (h ctx s p))
          | inr (e, r, q') ↦
              rw (r, retry_from) (retry_from-Steady n (failed e) f ctx (f ctx s).0 h p q')
        ]

    pub retry-Steady : (f : Step sys) (n : ℕ) → Steady f → Steady (retry (tree_contexts sys go) f n)
    unfolding retry
    retry-Steady f n h ctx s p =
        rw (has_logger ctx p) (retry_from-Steady n (passed none) f ctx s h p p)

    done-NotMissing :
        (ctx : Context K W C) (t : S) (e : TreeError)
        → (tree_contexts sys go).done ctx t ≡ some e
        → NotMissing e
    unfolding NotMissing
    done-NotMissing ctx t e h = elim (Option-cases (sys.done ctx.token t)) [
      | inl n ↦ let impossible : none ≡ some e = subst (λ o. error_of o ≡ some e) n h in cc
      | inr (c, n) ↦
          let wrapped : some (context_error c) ≡ some e = subst (λ o. error_of o ≡ some e) n h in
          let same : context_error c ≡ e = cc in subst NotMissing same tt
    ]

    -- An error that is sent by a child's goroutine is none of a missing value.
    Sends-NotMissing :
        (i : ℕ) (fs : List (Step sys)) (ctx : Context K W C) (e : TreeError)
        → Ready client ctx
        → All Steady fs
        → Sends e (tasks_from child i (map some fs) ctx)
        → NotMissing e
    unfolding tasks_from sent_error NotMissing
    Sends-NotMissing i [] ctx e p hs sends = elim sends [ ]
    Sends-NotMissing i (f ∷ fs) ctx e p (h, hs) (inr sends) =
        Sends-NotMissing (suc i) fs ctx e p hs sends
    Sends-NotMissing i (f ∷ fs) ctx e p (h, hs) (inl (s, sends)) =
        elim (Post-cases (Ready client) ctx (f ctx s).1 (h ctx s p)) [
          | inl (c, r, q) ↦
              let impossible : none ≡ some e = subst (λ o. sent_error child i o ≡ some e) r sends in
              cc
          | inr (e', r, q) ↦
              let wrapped : some (child i e') ≡ some e =
                subst (λ o. sent_error child i o ≡ some e) r sends in
              let same : child i e' ≡ e = cc in subst NotMissing same q
        ]

    pub parallel-Steady :
        (fs : List (Step sys))
        → All Steady fs
        → Steady (parallel (tree_contexts sys go) go child (map some fs))
    unfolding parallel NotMissing
    parallel-Steady fs h ctx s p =
        let opened = sys.with_cancel ctx.token s in
        let inner : Context K W C = record ctx { token = opened.1 } in
        let tasks = tasks_from child 0 (map some fs) inner in
        let done = (tree_contexts sys go).done ctx in
        elim (Option-cases (sys.done ctx.token s)) [
          | inr (e, n) ↦ rw (n, parallel) p
          | inl n ↦
              rw (n, parallel)
                (elim (Option-cases (wait (length tasks) (go.together tasks done opened.0).1)) [
                  | inl r ↦ rw r p
                  | inr (e, r) ↦
                      rw r
                        (elim (wait-Arrived tasks done (length tasks)
                          (go.together tasks done opened.0).1 e (go.arrived tasks done opened.0)
                          r) [
                            | inl sends ↦
                                Sends-NotMissing 0 fs inner e (Ready-token ctx opened.1 p) h sends
                            | inr (t, ended) ↦ done-NotMissing ctx t e ended
                          ])
                ])
        ]
