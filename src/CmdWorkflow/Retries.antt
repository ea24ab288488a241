-- ===== src/CmdWorkflow/Retries.antt =====
-- The retry budget of runRetries in cmdworkflow/bus.go.
use eventstore.Base.{
  ℕ, zero, suc, ◌+◌, ◌^◌, ◌<◌, ◌≡◌, refl, ap, ◌∙◌, true, false, ◌⊎◌, inl, inr, Option, none, some,
  List, ok, err, arith, leb,
}
use eventstore.Es.Error.{Error, Result}
use eventstore.Es.Envelope.{Envelope}
use eventstore.CmdWorkflow.Act.{Act, Done}
use eventstore.CmdWorkflow.Subscriber.{ℤ, pos, negsuc, Context, Subscriber}
use eventstore.CmdWorkflow.Bus.{
  attempt_call, next, retry_loop, run_retries, int_suc, is_negative, limit,
}

module _ {D : Type 0} where
  -- So many calls fail, one after the other, with the last error before and after them.
  pub data Fails (call : Act D Done) : ℕ → Result Done → D → Result Done → D → Type 0 where
    no_call : {last : Result Done} → {d : D} → Fails call 0 last d last d
    one_call :
        {k : ℕ}
        → {last last' : Result Done} → {d d₁ d' : D} → (e : Error) → call d ≡ some (err e, d₁)
        → Fails call k (err e) d₁ last' d'
        → Fails call (suc k) last d last' d'

  -- A call succeeds after fewer than `n` that fail.
  abbrev pub Succeeds : Act D Done → ℕ → Result Done → D → Option (Result Done × D) → Type 0
  Succeeds call n last d out =
      (k : ℕ) × (last' : Result Done) × (d₁ : D) × (d₂ : D) × (k < n)
      × Fails call k last d last' d₁
      × (call d₁ ≡ some (ok tt, d₂))
      × (out ≡ some (ok tt, d₂))

  -- All `n` calls fail.
  abbrev pub Exhausts : Act D Done → ℕ → Result Done → D → Option (Result Done × D) → Type 0
  Exhausts call n last d out =
      (last' : Result Done) × (d' : D) × Fails call n last d last' d' × (out ≡ some (last', d'))

  -- The fuel is used up by calls that fail.
  abbrev pub RunsOn : Act D Done → ℕ → Result Done → D → Option (Result Done × D) → Type 0
  RunsOn call n last d out =
      (last' : Result Done) × (d' : D) × Fails call n last d last' d' × (out ≡ none)

  abbrev pub Returns : Act D Done → Type 0
  Returns call = (d : D) → (r : Result Done) × (d' : D) × (call d ≡ some (r, d'))

  budget_step :
      (call : Act D Done) (n : ℕ) (last : Result Done) (d : D) (again : Error → Act D Done)
      → (r : Result Done) × (d' : D) × (call d ≡ some (r, d'))
      → ((e : Error)
          → (d' : D)
          → Succeeds call n (err e) d' (again e d') ⊎ Exhausts call n (err e) d' (again e d'))
      → Succeeds call (suc n) last d (next again (call d))
        ⊎ Exhausts call (suc n) last d (next again (call d))
  budget_step call n last d again (ok u, d', h) rest =
      inl (0, last, d, d', omega arith, no_call, h, rw h refl)
  budget_step call n last d again (err e, d', h) rest = elim (rest e d') [
    | inl (k, l, d₂, d₃, lt, fs, good, is) ↦
        inl (suc k, l, d₂, d₃, omega arith, one_call e h fs, good, rw h is)
    | inr (l, d₂, fs, is) ↦ inr (l, d₂, one_call e h fs, rw h is)
  ]

  forever_step :
      (call : Act D Done) (n : ℕ) (last : Result Done) (d : D) (again : Error → Act D Done)
      → (r : Result Done) × (d' : D) × (call d ≡ some (r, d'))
      → ((e : Error)
          → (d' : D)
          → Succeeds call n (err e) d' (again e d') ⊎ RunsOn call n (err e) d' (again e d'))
      → Succeeds call (suc n) last d (next again (call d))
        ⊎ RunsOn call (suc n) last d (next again (call d))
  forever_step call n last d again (ok u, d', h) rest =
      inl (0, last, d, d', omega arith, no_call, h, rw h refl)
  forever_step call n last d again (err e, d', h) rest = elim (rest e d') [
    | inl (k, l, d₂, d₃, lt, fs, good, is) ↦
        inl (suc k, l, d₂, d₃, omega arith, one_call e h fs, good, rw h is)
    | inr (l, d₂, fs, is) ↦ inr (l, d₂, one_call e h fs, rw h is)
  ]

  under_budget :
      (call : Act D Done) (m fuel attempt : ℕ) (last : Result Done) (d : D)
      → leb attempt m ≡ true
      → retry_loop (suc fuel) (pos m) false call attempt last d
        ≡ next (λ e. retry_loop fuel (pos m) false call (suc attempt) (err e)) (call d)
  unfolding retry_loop
  under_budget call m fuel attempt last d h = rw (h, retry_loop) refl

  loop-budget :
      (call : Act D Done) (n m fuel attempt : ℕ) (last : Result Done) (d : D)
      → Returns call
      → attempt + n ≡ suc m
      → n < fuel
      → Succeeds call n last d (retry_loop fuel (pos m) false call attempt last d)
        ⊎ Exhausts call n last d (retry_loop fuel (pos m) false call attempt last d)
  unfolding retry_loop
  loop-budget call n m zero attempt last d total left enough = absurd (omega arith)
  loop-budget call zero m (suc fuel) attempt last d total left enough =
      let over : leb attempt m ≡ false = ground arith in
      inr (last, d, no_call, rw (over, retry_loop) refl)
  loop-budget call (suc n) m (suc fuel) attempt last d total left enough =
      let under : leb attempt m ≡ true = ground arith in
      rw (under_budget call m fuel attempt last d under) (
        budget_step call n last d (λ e. retry_loop fuel (pos m) false call (suc attempt) (err e))
          (total d)
          (λ e d'.
            loop-budget call n m fuel (suc attempt) (err e) d' total (omega arith) (omega arith)))

  loop-forever :
      (call : Act D Done) (m : ℤ) (fuel attempt : ℕ) (last : Result Done) (d : D)
      → Returns call
      → Succeeds call fuel last d (retry_loop fuel m true call attempt last d)
        ⊎ RunsOn call fuel last d (retry_loop fuel m true call attempt last d)
  unfolding retry_loop
  loop-forever call m zero attempt last d total = inr (last, d, no_call, refl)
  loop-forever call m (suc fuel) attempt last d total =
      forever_step call fuel last d (λ e. retry_loop fuel m true call (suc attempt) (err e))
        (total d) (λ e d'. loop-forever call m fuel (suc attempt) (err e) d' total)

int_suc-pos : (n : ℕ) → n + 1 < 2 ^ 63 → int_suc (pos n) ≡ pos (n + 1)
unfolding int_suc
int_suc-pos n h = ground arith

module _ {S C E D : Type 0} (ctx : Context) (envs : List Envelope) (state : S) (events : List E)
    (sub : Subscriber S C E D)
    (f : Context → List Envelope → S → List E → D → Result Done × D) where
  attempt_call-Returns : sub.handle ≡ some f → Returns (attempt_call ctx envs state events sub)
  attempt_call-Returns h d = rw h (
    (f (record ctx { timeout = limit sub.attempt_timeout ctx.timeout }) envs state events d).0,
    (f (record ctx { timeout = limit sub.attempt_timeout ctx.timeout }) envs state events d).1,
    refl,
  )

  -- A subscriber with a budget of `n` retries, `n` + 1 below 2 ^ 63, is called at most `n` + 1 times,
  -- and the loop ends: either a call succeeds after at most `n` that failed and nothing more
  -- is called, or all `n` + 1 calls fail and the last error is returned.
  pub run_retries-Ends :
      (n fuel : ℕ) (d : D)
      → sub.handle ≡ some f
      → sub.max_retries ≡ pos n
      → n + 1 < 2 ^ 63
      → n + 1 < fuel
      → Succeeds
          (attempt_call ctx envs state events sub)
          (n + 1)
          (ok tt)
          d
          (run_retries fuel ctx envs state events sub d)
        ⊎ Exhausts
            (attempt_call ctx envs state events sub)
            (n + 1)
            (ok tt)
            d
            (run_retries fuel ctx envs state events sub d)
  unfolding run_retries
  run_retries-Ends n fuel d h budget fits enough =
      let max : int_suc sub.max_retries ≡ pos (n + 1) = ap int_suc budget ∙ int_suc-pos n fits in
      let within_max : 1 + (n + 1) ≡ suc (n + 1) = omega arith in
      let finite : is_negative sub.max_retries ≡ false = ap is_negative budget in
      rw (max, finite)
        (loop-budget (attempt_call ctx envs state events sub) (n + 1) (n + 1) fuel 1 (ok tt) d
          (attempt_call-Returns h) within_max enough)

  -- A subscriber that retries forever is never exhausted: either a call succeeds after fewer calls
  -- that failed than there is fuel, and the loop ends with it, or each unit of fuel is used up by
  -- one more call that failed.
  pub run_retries-forever :
      (n fuel : ℕ) (d : D)
      → sub.handle ≡ some f
      → sub.max_retries ≡ negsuc n
      → Succeeds
          (attempt_call ctx envs state events sub)
          fuel
          (ok tt)
          d
          (run_retries fuel ctx envs state events sub d)
        ⊎ RunsOn
            (attempt_call ctx envs state events sub)
            fuel
            (ok tt)
            d
            (run_retries fuel ctx envs state events sub d)
  unfolding run_retries
  run_retries-forever n fuel d h budget =
      let infinite : is_negative sub.max_retries ≡ true = ap is_negative budget in
      rw infinite (
        loop-forever (attempt_call ctx envs state events sub) (int_suc sub.max_retries) fuel 1
          (ok tt) d (attempt_call-Returns h))
