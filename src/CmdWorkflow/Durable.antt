-- ===== src/CmdWorkflow/Durable.antt =====
-- What cmdworkflow/runtime.go asks of a durable engine, and calls that a replay answers from the
-- journal.
use eventstore.Base.{◌≡◌, sym, ap, ◌∙◌, Option, some, Text, ok}
use eventstore.Es.Error.{Result}
use eventstore.CmdWorkflow.Act.{Act, ◌>>=◌, carry, carry-ok, give}
use eventstore.CmdWorkflow.Bus.{WorkflowRuntime}

-- "If the journal already contains a result for name, the cached result is returned without
-- re-running fn." A step that succeeded is in the journal, and no step removes an entry.
pub record Durable {J D : Type 0} (wf : WorkflowRuntime J D) : Type 0 where
  pub journal : J → Text → Option Text
  pub run_replays :
      (name : Text) (fn : Act D Text) (bytes : Text) (j : J) (d : D)
      → journal j name ≡ some bytes
      → wf.run name fn (j, d) ≡ some (ok bytes, (j, d))
  pub run_journals :
      (name : Text) (fn : Act D Text) (bytes : Text) (w w' : J × D)
      → wf.run name fn w ≡ some (ok bytes, w')
      → journal w'.0 name ≡ some bytes
  pub run_keeps :
      (name other : Text) (fn : Act D Text) (r : Result Text) (bytes : Text) (w w' : J × D)
      → wf.run name fn w ≡ some (r, w')
      → journal w.0 other ≡ some bytes
      → journal w'.0 other ≡ some bytes
  -- run_async is run, but for the time at which its result is awaited.
  pub async_same :
      (name : Text) (fn : Act D Text) (w : J × D) → wf.run_async name fn w ≡ wf.run name fn w

module _ {J D : Type 0} {wf : WorkflowRuntime J D} (dur : Durable wf) where
  -- The second journal has what the first has.
  abbrev pub Extends : J → J → Type 0
  Extends j j' =
      (name bytes : Text) → dur.journal j name ≡ some bytes → dur.journal j' name ≡ some bytes

  -- A call that took `w` to `w'` with the result `a` gives the same result from any journal that
  -- has what that of `w'` has, and then changes nothing.
  pub record Stable {A : Type 0} (m : Act (J × D) A) (a : A) (w w' : J × D) : Type 0 where
    pub extends : Extends w.0 w'.0
    pub again : (j : J) (d : D) → Extends w'.0 j → m (j, d) ≡ some (ok a, (j, d))

  pub bind-Stable :
      {A B : Type 0} (m : Act (J × D) A) (f : A → Act (J × D) B) (a : A) (b : B) (w w₁ w' : J × D)
      → Stable m a w w₁
      → Stable (f a) b w₁ w'
      → Stable (m >>= f) b w w'
  bind-Stable m f a b w w₁ w' s t = record {
    extends = λ name bytes h. t.extends name bytes (s.extends name bytes h);
    again = λ j d e.
        ap (λ o. carry o f) (s.again j d (λ name bytes h. e name bytes (t.extends name bytes h)))
        ∙ t.again j d e;
  }

  pub give-Stable :
      {A : Type 0} (r : Result A) (a : A) (w w' : J × D)
      → give r w ≡ some (ok a, w')
      → Stable (give r) a w w'
  give-Stable {A = A} r a w w' h =
      let same : r ≡ ok a = cc in
      let still : w ≡ w' = cc in
      record {
        extends = λ name bytes e. ap (λ (z : J × D). dur.journal z.0 name) (sym still) ∙ e;
        again = λ j d e. ap (λ (z : Result A). some (z, (j, d))) same;
      }

  -- A step whose bytes are decoded.
  pub journaled-Stable :
      {A : Type 0} (name : Text) (fn : Act D Text) (f : Text → Result A) (a : A) (w w' : J × D)
      → carry (wf.run name fn w) (λ raw. give (f raw)) ≡ some (ok a, w')
      → Stable (wf.run name fn >>= (λ raw. give (f raw))) a w w'
  journaled-Stable name fn f a w w' h =
      let (raw, w₁, ran, rest) = carry-ok (wf.run name fn w) (λ raw. give (f raw)) a w' h in
      bind-Stable (wf.run name fn) (λ raw. give (f raw)) raw a w w₁ w'
        (record {
          extends = λ other bytes e. dur.run_keeps name other fn (ok raw) bytes w w₁ ran e;
          again = λ j d e.
              dur.run_replays name fn raw j d (e name raw (dur.run_journals name fn raw w w₁ ran));
        })
        (give-Stable (f raw) a w₁ w' rest)
