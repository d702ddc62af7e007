-- ===== src/Scheduler/Filter.antt =====
-- The filters of QueryJobStatuses, without the maps that it builds.
use mathlib.Core.Path.{ap₂}
use go_again.Prelude.{
  ◌<◌, List, [], ◌∷◌, Bool, true, false, length, ltb, lt→ltb, any_of, ◌≡◌, refl, ap, ◌∙◌, ◌&&◌,
  ◌||◌, not, inl, inr, arith, Bool-cases,
}
use go_again.Prelude.Text.{str_eq, eq_iff}
use go_again.Storage.{JobState, JobStatus}
use go_again.Scheduler.Query.{
  JobStatusQuery, make_id_filter, make_state_filter, make_filter, passes, state_eq,
}

-- What a query asks for, without the maps: a listed ID, if any is listed, and a listed state, if any
-- is listed.
abbrev pub listed : {A : Type 0} → (A → A → Bool) → List A → A → Bool
listed eq [] x = true
listed eq (y ∷ ys) x = any_of (eq x) (y ∷ ys)

abbrev pub wanted : JobStatusQuery → JobStatus → Bool
wanted query status =
    listed str_eq query.ids status.job_id && listed state_eq query.states status.state

make_filter_any :
    {K : Type 0} (eq : K → K → Bool) (k : K) (ks : List K)
    → ((a b : K) → eq a b ≡ true → a ≡ b)
    → any_of (eq k) (make_filter eq ks) ≡ any_of (eq k) ks
unfolding make_filter
make_filter_any eq k [] sound = refl
make_filter_any eq k (j ∷ js) sound = elim (Bool-cases (any_of (eq j) (make_filter eq js))) [
  | inl there ↦ elim (Bool-cases (eq k j)) [
    | inl same ↦
        rw there (rw same (ap (λ x. any_of (eq x) (make_filter eq js)) (sound k j same) ∙ there))
    | inr other ↦ rw there (rw other (make_filter_any eq k js sound))
  ]
  | inr new ↦ rw new (ap (λ b. eq k j || b) (make_filter_any eq k js sound))
]

make_filter_pos :
    {K : Type 0} (eq : K → K → Bool) (k : K) (ks : List K) → 0 < length (make_filter eq (k ∷ ks))
unfolding make_filter
make_filter_pos eq k ks = elim (Bool-cases (any_of (eq k) (make_filter eq ks))) [
  | inl there ↦ rw there (some_element eq k (make_filter eq ks) there)
  | inr new ↦ rw new (omega arith)
]
  where
    some_element :
        {K : Type 0} (eq : K → K → Bool) (k : K) (xs : List K)
        → any_of (eq k) xs ≡ true
        → 0 < length xs
    some_element eq k [] h = cc
    some_element eq k (x ∷ xs) h = omega arith

filter_listed :
    {K : Type 0} (eq : K → K → Bool) (x : K) (ks : List K)
    → ((a b : K) → eq a b ≡ true → a ≡ b)
    → not (ltb 0 (length (make_filter eq ks)) && not (any_of (eq x) (make_filter eq ks)))
      ≡ listed eq ks x
filter_listed eq x [] sound = unfold make_filter in refl
filter_listed eq x (k ∷ ks) sound =
    let filled : ltb 0 (length (make_filter eq (k ∷ ks))) ≡ true =
      lt→ltb _ _ (make_filter_pos eq k ks) in
    rw (filled, make_filter_any eq x (k ∷ ks) sound) (not-not (any_of (eq x) (k ∷ ks)))
  where
    not-not : (b : Bool) → not (true && not b) ≡ b
    not-not true = refl
    not-not false = refl

state_eq_sound : (a b : JobState) → state_eq a b ≡ true → a ≡ b
state_eq_sound a b h = ground arith

pub passes-wanted :
    (q : JobStatusQuery) (status : JobStatus)
    → passes (make_id_filter q.ids) (make_state_filter q.states) status ≡ wanted q status
unfolding passes make_id_filter make_state_filter
passes-wanted q status =
    ap₂ (◌&&◌) (filter_listed str_eq status.job_id q.ids (λ a b. (eq_iff a b).0))
      (filter_listed state_eq status.state q.states state_eq_sound)
