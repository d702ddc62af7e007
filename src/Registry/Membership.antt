-- ===== src/Registry/Membership.antt =====
-- What the registry's methods do to the set of errors that it calls temporary.
use mathlib.Core.List.{append-nil}
use go_again.Prelude.{
  ◌≡◌, refl, List, [], ◌∷◌, ◌++◌, true, false, ◌||◌, none, some, All, arith, any_of-append,
}
use go_again.Runtime.{Runtime}
use go_again.Registry.{
  Registry, register_temporary_errors, unregister_temporary_errors, unregister_loop, remove_first,
  is_temporary_error,
}

module _ {E F : Type 0} (rt : Runtime E F) where
  -- After RegisterTemporaryErrors, an error is temporary exactly when it was so before or matches
  -- one of the new entries; a list given to IsTemporaryError replaces the registry altogether.
  pub is_temporary_error-register :
      (r : Registry E) (errs : List E) (err : E)
      → (is_temporary_error rt (register_temporary_errors rt r errs) err none
          ≡ is_temporary_error rt r err none || is_temporary_error rt r err (some errs))
        × ((given : List E)
            → is_temporary_error rt (register_temporary_errors rt r errs) err (some given)
              ≡ is_temporary_error rt r err (some given))
  unfolding is_temporary_error register_temporary_errors
  is_temporary_error-register r errs err = (any_of-append (rt.is err) r.storage errs, λ given. refl)

  -- No stored error is the target.
  abbrev pub Lacks : E → List E → Type 0
  Lacks target = All (λ e. rt.is e target ≡ false)

  remove_first-append :
      (target : E) (xs ys : List E)
      → Lacks target xs
      → remove_first rt target (xs ++ ys) ≡ xs ++ remove_first rt target ys
  unfolding remove_first
  remove_first-append target [] ys h = refl
  remove_first-append target (x ∷ xs) ys h = ground (arith, remove_first-append target xs ys h.1)

  -- UnRegisterTemporaryErrors with one target takes out the first stored error that matches it, in
  -- the sense of errors.Is, and no other; with no match it changes nothing.
  pub unregister_first :
      (target e : E) (xs ys : List E)
      → Lacks target xs
      → rt.is e target ≡ true
      → (unregister_temporary_errors rt (record { storage = xs ++ e ∷ ys }) (target ∷ [])
          ≡ record { storage = xs ++ ys })
        × (unregister_temporary_errors rt (record { storage = xs }) (target ∷ [])
            ≡ record { storage = xs })
  unfolding unregister_temporary_errors remove_first
  unregister_first target e xs ys h m = (
    ground (arith, remove_first-append target xs (e ∷ ys) h),
    ground (arith, remove_first-append target xs [] h, append-nil xs),
  )

  remove_first_new :
      (t : E) (xs errs : List E)
      → rt.is t t ≡ true
      → Lacks t xs
      → remove_first rt t (xs ++ t ∷ errs) ≡ xs ++ errs
  unfolding remove_first
  remove_first_new t xs errs self h = ground (arith, remove_first-append t xs (t ∷ errs) h)

  unregister_loop-append :
      (xs errs : List E)
      → ((e : E) → rt.is e e ≡ true)
      → All (λ t. Lacks t xs) errs
      → unregister_loop rt (xs ++ errs) errs ≡ xs
  unfolding unregister_loop
  unregister_loop-append xs [] self h = append-nil xs
  unregister_loop-append xs (t ∷ errs) self h =
      rw (remove_first_new t xs errs (self t) h.0) (unregister_loop-append xs errs self h.1)

  -- Registering errors and then unregistering the same list gives the registry back, if errors.Is
  -- is reflexive and no earlier entry matches one of them.
  pub unregister-register :
      (r : Registry E) (errs : List E)
      → ((e : E) → rt.is e e ≡ true)
      → All (λ t. Lacks t r.storage) errs
      → unregister_temporary_errors rt (register_temporary_errors rt r errs) errs ≡ r
  unfolding unregister_temporary_errors register_temporary_errors
  unregister-register r errs self h = ground (arith, unregister_loop-append r.storage errs self h)
