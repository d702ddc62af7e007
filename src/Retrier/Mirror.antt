-- ===== src/Retrier/Mirror.antt =====
-- DoWithContext "mirrors Do" (its doc comment): with attempts that no context and no timeout ends,
-- both do the same.
use mathlib.Core.Path.{fun_ext}
use mathlib.Core.Option
use go_again.Prelude.{ℕ, ◌≡◌, refl, ap, List, Option, none, some}
use go_again.Runtime.{Runtime}
use go_again.Retrier.{Retrier, validate}
use go_again.Retrier.Loop.{
  Env, Run, result, do_attempt, context_attempt, take_errors, validated, retry_do,
  retry_do_with_context,
}

module _ {E F : Type 0} (rt : Runtime E F) where
  attempt_mirror :
      (r : Retrier E F) (env : Env E) (temps : List E) (attempt : ℕ) (out : Option E) (s : Run E)
      → do_attempt rt r env temps attempt out s
        ≡ context_attempt rt r env temps attempt (result out) s
  unfolding do_attempt context_attempt
  attempt_mirror r env temps attempt none s = refl
  attempt_mirror r env temps attempt (some err) s = refl

  -- For a function that returns by itself in every attempt, Do and DoWithContext have the same
  -- result, the same calls, hooks and pauses, and leave the same retrier, in every environment.
  pub do_mirror :
      (r : Retrier E F) (env : Env E) (f : Option (ℕ → Option E)) (temps : List E)
      → retry_do rt r env f temps
        ≡ retry_do_with_context rt r env (Option.map (λ g k. result (g k)) f) temps
  unfolding retry_do retry_do_with_context
  do_mirror r env none temps = refl
  do_mirror r env (some g) temps =
      let (errs, q) = take_errors rt r r.errors_pool in
      ap (λ round. validated rt q errs (validate rt q) (some round))
        (fun_ext λ ready.
          fun_ext λ attempt. fun_ext λ s. attempt_mirror ready env temps attempt (g attempt) s)
