-- ===== src/CmdWorkflow/Inproc.antt =====
-- adapters/cmdworkflow/inproc/runtime.go: no journal, each step runs where it is called. A child
-- workflow, a goroutine in the code, is taken to run at its Spawn; its error goes to OnSpawnError.
use eventstore.Base.{Option, none, some, ok}
use eventstore.Es.Error.{Result}
use eventstore.CmdWorkflow.Act.{Done, within}
use eventstore.CmdWorkflow.Bus.{WorkflowRuntime}

-- Spawn returns nil whatever the child returns.
abbrev pub spawned : {W : Type 0} → Option (Result Done × W) → Option (Result Done × W)
spawned none = none
spawned (some (r, w)) = some (ok tt, w)

abbrev pub inproc : {J D : Type 0} → WorkflowRuntime J D
inproc = record {
  run = λ name fn. within fn;
  run_async = λ name fn. within fn;
  spawn = λ name fn w. spawned (fn w);
}
