-- ===== src/Retrier/Lifecycle.antt =====
-- retrier.go: Cancel, Stop and SetRegistry, which each take effect once.
use go_again.Prelude.{
  List, [], ◌∷◌, true, false, Option, none, some, if◌then◌else◌, ◌≡◌, refl, ◌∙◌, arith, ◌⊎◌,
}
use go_again.Runtime.{Runtime}
use go_again.Registry.{Registry}
use go_again.Retrier.{Retrier, Context, ensure_context, set_registry}

-- A context.CancelCauseFunc: the first cause stays.
cancel_func : {E : Type 0} → E → Option (Context E) → Option (Context E)
cancel_func cause none = none
cancel_func cause (some ctx) =
    some (record { cause = some (elim ctx.cause [ none ↦ cause | some first ↦ first ]) })

-- context.Cause of the retrier's context.
abbrev pub cause_of : {E F : Type 0} → Retrier E F → Option E
cause_of r = elim r.ctx [ none ↦ none | some ctx ↦ ctx.cause ]

pub data Call (E : Type 0) : Type 0 where
  cancels stops : Call E
  sets : Option (Registry E) → Call E

module _ {E F : Type 0} (rt : Runtime E F) where
  -- Cancel
  unfoldable pub cancel : Retrier E F → Retrier E F
  unfolding cancel_func ensure_context
  cancel r₀ =
      let r = ensure_context rt r₀ in
      if r.cancel_once
      then r
      else record r { cancel_once = true; ctx = cancel_func rt.operation_stopped r.ctx }

  -- Stop
  unfoldable pub stop : Retrier E F → Retrier E F
  unfolding cancel_func ensure_context
  stop r₀ =
      let r = ensure_context rt r₀ in
      if r.stop_once
      then r
      else record r { stop_once = true; ctx = cancel_func rt.operation_stopped r.ctx }

  pub step : Retrier E F → Call E → Retrier E F
  unfolding cancel stop set_registry
  step r cancels = cancel r
  step r stops = stop r
  step r (sets reg) = (set_registry rt r reg).0

  pub run : Retrier E F → List (Call E) → Retrier E F
  run r [] = r
  run r (c ∷ cs) = run (step r c) cs

  step_keeps_cause :
      (r : Retrier E F) (c : Call E) (e : E) → cause_of r ≡ some e → cause_of (step r c) ≡ some e
  unfolding step
  step_keeps_cause r cancels e h = ground arith
  step_keeps_cause r stops e h = ground arith
  step_keeps_cause r (sets none) e h = ground arith
  step_keeps_cause r (sets (some reg)) e h = ground arith

  -- Once the retrier's context is done, no sequence of Cancel, Stop and SetRegistry changes its
  -- cause.
  run_keeps_cause :
      (r : Retrier E F) (cs : List (Call E)) (e : E)
      → cause_of r ≡ some e
      → cause_of (run r cs) ≡ some e
  unfolding run
  run_keeps_cause r [] e h = h
  run_keeps_cause r (c ∷ cs) e h = run_keeps_cause (step r c) cs e (step_keeps_cause r c e h)

  -- A context that is not done, or one that the first call is still to make.
  abbrev pub IsOpen : Retrier E F → Type 0
  IsOpen r = (r.ctx ≡ some (record { cause = none })) ⊎ ((r.ctx ≡ none) × (r.ctx_once ≡ false))

  stops_once :
      (r : Retrier E F)
      → r.cancel_once ≡ false
      → r.stop_once ≡ false
      → IsOpen r
      → (cause_of (cancel r) ≡ some rt.operation_stopped)
        × (cause_of (stop r) ≡ some rt.operation_stopped)
  unfolding cancel stop
  stops_once r c s h = (ground arith, ground arith)

  -- The first Cancel or Stop of a retrier whose context is not done sets the cause to
  -- ErrOperationStopped, and no later Cancel, Stop or SetRegistry changes that.
  pub first_stop_decides :
      (r : Retrier E F) (cs : List (Call E))
      → r.cancel_once ≡ false
      → r.stop_once ≡ false
      → IsOpen r
      → (cause_of (run (cancel r) cs) ≡ some rt.operation_stopped)
        × (cause_of (run (stop r) cs) ≡ some rt.operation_stopped)
  first_stop_decides r cs c s h =
      let (after_cancel, after_stop) = stops_once r c s h in
      (run_keeps_cause _ cs _ after_cancel, run_keeps_cause _ cs _ after_stop)

  step_keeps_registry :
      (r : Retrier E F) (c : Call E)
      → r.registry_once ≡ true
      → ((step r c).registry ≡ r.registry) × ((step r c).registry_once ≡ true)
  unfolding step
  step_keeps_registry r cancels h = (ground arith, ground arith)
  step_keeps_registry r stops h = (ground arith, ground arith)
  step_keeps_registry r (sets none) h = (refl, h)
  step_keeps_registry r (sets (some reg)) h = (ground arith, ground arith)

  run_keeps_registry :
      (r : Retrier E F) (cs : List (Call E))
      → r.registry_once ≡ true
      → (run r cs).registry ≡ r.registry
  unfolding run
  run_keeps_registry r [] h = refl
  run_keeps_registry r (c ∷ cs) h =
      let (same, once) = step_keeps_registry r c h in run_keeps_registry (step r c) cs once ∙ same

  -- SetRegistry refuses nil and changes nothing then; the first registry that it is given stays,
  -- and later calls are ignored though they return nil.
  pub first_registry_stays :
      (r : Retrier E F) (reg other : Registry E) (cs : List (Call E))
      → r.registry_once ≡ false
      → (set_registry rt r none ≡ (r, some (rt.new "registry cannot be nil")))
        × ((run r (sets none ∷ sets (some reg) ∷ cs)).registry ≡ some reg)
        × ((set_registry rt (run r (sets (some reg) ∷ [])) (some other)).1 ≡ none)
  unfolding set_registry run step
  first_registry_stays r reg other cs h =
      (refl, run_keeps_registry (step r (sets (some reg))) cs (ground arith) ∙ (ground arith), refl)
