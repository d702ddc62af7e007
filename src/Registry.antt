-- ===== src/Registry.antt =====
-- registry.go. The mutex makes each method atomic, so a method is a function of the stored slice.
pub mod Membership
use go_again.Prelude.{
  ℕ, List, [], ◌∷◌, ◌++◌, Bool, Option, none, some, length, any_of, if◌then◌else◌,
}
use go_again.Runtime.{Runtime}

pub record Registry (E : Type 0) : Type 0 where
  pub storage : List E

-- NewRegistry
abbrev pub new_registry : (E : Type 0) → Registry E
new_registry E = record { storage = [] }

module _ {E F : Type 0} (rt : Runtime E F) where
  -- RegisterTemporaryErrors; RegisterTemporaryError passes one error
  unfoldable pub register_temporary_errors : Registry E → List E → Registry E
  register_temporary_errors r errs = record { storage = r.storage ++ errs }

  unfoldable pub register_temporary_error : Registry E → E → Registry E
  unfolding register_temporary_errors
  register_temporary_error r err = register_temporary_errors r (err ∷ [])

  unfoldable pub load_defaults : Registry E → Registry E
  unfolding register_temporary_errors
  load_defaults r = register_temporary_errors r (
      rt.deadline_exceeded ∷ rt.handler_timeout ∷ rt.server_closed ∷ rt.net_closed
      ∷ rt.write_to_connected ∷ [])

  -- The inner loop of UnRegisterTemporaryErrors: the first stored error that is the target goes.
  unfoldable pub remove_first : E → List E → List E
  remove_first target [] = []
  remove_first target (e ∷ es) = if rt.is e target then es else e ∷ remove_first target es

  unregister_loop : List E → List E → List E
  unfolding remove_first
  unregister_loop storage [] = storage
  unregister_loop storage (target ∷ errs) = unregister_loop (remove_first target storage) errs

  -- UnRegisterTemporaryErrors; UnRegisterTemporaryError passes one error
  unfoldable pub unregister_temporary_errors : Registry E → List E → Registry E
  unfolding unregister_loop
  unregister_temporary_errors r errs = record { storage = unregister_loop r.storage errs }

  unfoldable pub unregister_temporary_error : Registry E → E → Registry E
  unfolding unregister_temporary_errors
  unregister_temporary_error r err = unregister_temporary_errors r (err ∷ [])

  unfoldable pub list_temporary_errors : Registry E → List E
  list_temporary_errors r = r.storage

  unfoldable pub len : Registry E → ℕ
  len r = length r.storage

  unfoldable pub clean : Registry E → Registry E
  clean r = record { storage = [] }

  -- IsTemporaryError; `none` is the nil slice of a call with no further argument.
  unfoldable pub is_temporary_error : Registry E → E → Option (List E) → Bool
  unfolding list_temporary_errors
  is_temporary_error r err none = any_of (rt.is err) (list_temporary_errors r)
  is_temporary_error r err (some errs) = any_of (rt.is err) errs
