-- ===== src/CmdWorkflow/Replay/Replayed.antt =====
-- What a replay of HandleCmd (cmdworkflow/bus.go) returns on a durable engine.
use eventstore.Base.{
  ℕ, ◌≡◌, refl, sym, ap, ◌∙◌, Bool, true, false, ◌&&◌, ◌⊎◌, inl, inr, Option, some, List, ok, ◌==◌,
}
use eventstore.Es.Error.{Result}
use eventstore.Es.StreamId.{StreamId}
use eventstore.Es.Envelope.{AppendResult}
use eventstore.CmdWorkflow.Act.{Act, carry, carry-ok}
use eventstore.CmdWorkflow.Codec.{Library}
use eventstore.CmdWorkflow.Subscriber.{Context}
use eventstore.CmdWorkflow.Bus.{Workflow, HandleCmdOption, agg_options}
use eventstore.CmdWorkflow.Dispatch.{append_step, load_state, state_of}
use eventstore.CmdWorkflow.HandleCmd.{Nested, after_append, handle_once, handle_cmd, nested_cmd}
use eventstore.CmdWorkflow.Durable.{Durable, Extends}
use eventstore.CmdWorkflow.Replay.Policies.{AllWait}
use eventstore.CmdWorkflow.Replay.Whole.{append_step-Stable, fan_out-Stable}

-- The test for a command without events.
abbrev pub no_events : AppendResult → Bool
no_events r = r.start_version == 0 && r.end_version == 0

module _ {S C E J D : Type 0} (lib : Library) (fuel : ℕ) (b : Workflow S C E J D)
    (dur : Durable b.wf) where
  -- After the append the replay changes nothing; it returns the same state, or for a command
  -- without events the one that Load finds.
  abbrev Returned : StreamId → Bool → S → J → D → Option (Result S × (J × D)) → Type 0
  Returned sid none_new s j d out =
      (r : Result S) × (out ≡ some (r, (j, d)))
      × (((none_new ≡ false) × (r ≡ ok s))
          ⊎ ((none_new ≡ true) × (r ≡ state_of lib fuel b (b.runner.load sid d))))

  -- The replay finds the result of the append and does not append again.
  abbrev pub Answers :
      Nested C (J × D) → Context → StreamId → C → List HandleCmdOption → S → J → D → Type 0
  Answers nested ctx sid cmd opts s j d =
      (r₀ : AppendResult) × (append_step lib fuel b ctx sid cmd (agg_options lib opts) (j, d)
        ≡ some (ok r₀, (j, d)))
      × Returned sid (no_events r₀) s j d (handle_once lib fuel b nested ctx sid cmd opts (j, d))

  module _ (nested : Nested C (J × D)) (ctx : Context) (sid : StreamId)
      (all : AllWait b.subscribers) where
    after_append-Returned :
        (r : AppendResult) (none_new : Bool) (s : S) (w w' : J × D)
        → after_append lib fuel b nested ctx sid r none_new w ≡ some (ok s, w')
        → Extends dur w.0 w'.0
          × ((j : J)
              → (d : D) → Extends dur w'.0 j
              → Returned sid none_new s j d
                  (after_append lib fuel b nested ctx sid r none_new (j, d)))
    unfolding load_state
    after_append-Returned r true s w w' h =
        let still : w ≡ w' = cc h in
        (
          λ name bytes e. ap (λ (z : J × D). dur.journal z.0 name) (sym still) ∙ e,
          λ j d e. (state_of lib fuel b (b.runner.load sid d), refl, inr (refl, refl)),
        )
    after_append-Returned r false s w w' h =
        let stable = fan_out-Stable lib fuel b dur nested ctx sid all r s w w' h in
        (stable.extends, λ j d e. (ok s, stable.again j d e, inl (refl, refl)))

    handle_once-Answers :
        (cmd : C) (opts : List HandleCmdOption) (s : S) (w w' : J × D) (j : J) (d : D)
        → handle_once lib fuel b nested ctx sid cmd opts w ≡ some (ok s, w')
        → Extends dur w'.0 j
        → Answers nested ctx sid cmd opts s j d
    unfolding handle_once
    handle_once-Answers cmd opts s w w' j d h e =
        let go = append_step lib fuel b ctx sid cmd (agg_options lib opts) in
        let tail : AppendResult → Act (J × D) S =
          λ (r : AppendResult). after_append lib fuel b nested ctx sid r (no_events r) in
        let (r, w₁, one, rest) = carry-ok (go w) tail s w' h in
        let stable =
          append_step-Stable lib fuel b dur nested ctx sid all cmd (agg_options lib opts) r w w₁
            one in
        let (more, answers) = after_append-Returned r (no_events r) s w₁ w' rest in
        let (out, is, which) = answers j d e in
        let hit = stable.again j d (λ name bytes k. e name bytes (more name bytes k)) in
        (r, hit, (out, ap (λ o. carry o tail) hit ∙ is, which))

  -- Where every subscriber is waited for and none is compensated, a HandleCmd that returned a state
  -- on a durable engine can be replayed from any journal that has what its own has, over any
  -- world: the replay finds the journaled result of the append, does not change the world or the
  -- journal, and returns that state, or for a command without events the one that Load finds.
  pub handle_cmd-replayed :
      (depth : ℕ) (ctx : Context) (sid : StreamId) (cmd : C) (opts : List HandleCmdOption) (s : S)
      (w w' : J × D) (j : J) (d : D)
      → AllWait b.subscribers
      → handle_cmd lib fuel b depth ctx sid cmd opts w ≡ some (ok s, w')
      → Extends dur w'.0 j
      → Answers (nested_cmd lib fuel b depth) ctx sid cmd opts s j d
  unfolding handle_cmd
  handle_cmd-replayed depth ctx sid cmd opts s w w' j d all h e =
      handle_once-Answers (nested_cmd lib fuel b depth) ctx sid all cmd opts s w w' j d h e
