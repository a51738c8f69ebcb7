-- ===== src/Job/Tree/Builder.antt =====
-- The ExecutionTreeBuilder of job/executionTree.go, as a builder for the visitor.
use x_cuter.Common.{Bool, true, false, Option, none, some, List, [], ◌∷◌, ◌++◌, map, if◌then◌else◌}
use x_cuter.Flunc.Parallel.{Goroutines, parallel}
use x_cuter.Flunc.{Contexts, sequential, error_safeguard, context_bounds, retry}
use x_cuter.Job.Tree.{
  System, Context, ContextError, TreeError, missing, logger_key, child, context_error, Step,
  output_step, logger_step, timeout_step, scp_step, templating_step, ssh_client_step,
  forwarding_step, tunnel_step, command_step, local_command_step, stdout_step, stderr_step,
}
use x_cuter.Job.Visit.{Builder}

-- An `executionGroup`: whether its `group` is Parallel, and its fluncs.
pub record ExecutionGroup (F : Type 0) : Type 0 where
  pub is_parallel : Bool
  pub fluncs : List F

abbrev pub error_of : Option ContextError → Option TreeError
error_of none = none
error_of (some e) = some (context_error e)

module _ {S K W C D : Type 0} (sys : System S K W C D) (go : Goroutines S TreeError) where
  -- The contexts of the tree, for the combinators; nothing is printed.
  abbrev pub tree_contexts : Contexts S (Context K W C) TreeError
  tree_contexts = record {
    done = λ ctx s. error_of (sys.done ctx.token s);
    with_cancel =
        λ ctx s. let (t, k) = sys.with_cancel ctx.token s in (t, record ctx { token = k });
    cancel = λ ctx s. sys.cancel ctx.token s;
    wrap_child = child;
    has_logger = λ ctx. elim ctx.logger [ none ↦ false | some l ↦ true ];
    log_error = λ ctx e s. s;
    no_logger = missing logger_key;
  }

  -- `Append`: nil is skipped.
  abbrev pub append_flunc :
      ExecutionGroup (Step sys) → Option (Step sys) → ExecutionGroup (Step sys)
  append_flunc g none = g
  append_flunc g (some f) = record g { fluncs = g.fluncs ++ f ∷ [] }

  -- `Wrap`
  abbrev pub wrap_group : ExecutionGroup (Step sys) → Option (Step sys)
  wrap_group g = some (
      if g.is_parallel
      then parallel tree_contexts go child (map some g.fluncs)
      else sequential tree_contexts (map some g.fluncs))

  abbrev pub sequential_group : ExecutionGroup (Step sys)
  sequential_group = record { is_parallel = false; fluncs = [] }

  abbrev pub parallel_group : ExecutionGroup (Step sys)
  parallel_group = record { is_parallel = true; fluncs = [] }

  -- A wrapper for a child; the visitor never wraps nil, on which the source panics.
  abbrev pub around : (Step sys → Step sys) → Option (Step sys) → Option (Step sys)
  around wrap none = none
  around wrap (some f) = some (wrap f)

  abbrev pub tree_builder : Builder (Option (Step sys)) (ExecutionGroup (Step sys)) D
  tree_builder = record {
    nil = none;
    append = append_flunc;
    wrap = wrap_group;
    sequential = sequential_group;
    parallel = parallel_group;
    job = λ name. sequential_group;
    output = λ o. some (output_step sys o);
    job_logger = λ name. some (logger_step sys name none);
    host_logger = λ name h. some (logger_step sys name (some h));
    timeout = λ d. some (timeout_step sys d);
    scp = λ scp. some (scp_step sys scp);
    hosts = parallel_group;
    host = λ c h. sequential_group;
    error_safeguard = around (error_safeguard tree_contexts);
    context_bounds = around (context_bounds tree_contexts);
    retry = λ t n. around (λ f. retry tree_contexts f n) t;
    templating = λ c h. some (templating_step sys c h);
    ssh_client = λ a p u k w i. some (ssh_client_step sys a p u k w i);
    forwarding = λ f. some (forwarding_step sys f);
    tunnel = λ f. some (tunnel_step sys f);
    commands = λ cmd. sequential_group;
    command = λ cmd. some (command_step sys cmd);
    local_command = λ cmd. some (local_command_step sys cmd);
    stdout = λ o. some (stdout_step sys o);
    stderr = λ o. some (stderr_step sys o);
  }
