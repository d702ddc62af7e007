-- ===== src/Scheduler/Query.antt =====
-- scheduler.go: QueryJobStatuses and QueryJobHistory, over what the storage returns. Offsets, limits
-- and sequence numbers are Go `int`s of 64 bits.
use go_again.Prelude.{
  ◌-◌, ℤ, pos, ◌+ℤ◌, leb_ℤ, ltb_ℤ, wrap64, pos_part, String, List, [], ◌∷◌, Bool, true, false, ◌&&◌,
  not, ltb, Option, none, some, length, take, drop, filter_by, any_of, if◌then◌else◌, Outcome, done,
  panicked,
}
use mathlib.Core.Logic.{ite}
use go_again.Prelude.Text.{str_eq}
use go_again.Storage.{JobState, JobState-discrete, JobStatus, JobRun}

pub record JobStatusQuery : Type 0 where
  pub ids : List String
  pub states : List JobState
  pub offset : ℤ
  pub limit : ℤ

pub record JobHistoryQuery : Type 0 where
  pub from_sequence : ℤ
  pub limit : ℤ

abbrev pub state_eq : JobState → JobState → Bool
state_eq a b = ite (JobState-discrete a b) true false

-- A `map[K]struct{}` as the list of its keys: `filter[k] = struct{}{}` for each key in turn.
unfoldable pub make_filter {ℓ} : {K : Type ℓ} → (K → K → Bool) → List K → List K
make_filter eq [] = []
make_filter eq (k ∷ ks) =
    let rest = make_filter eq ks in if any_of (eq k) rest then rest else k ∷ rest

unfoldable pub make_id_filter : List String → List String
unfolding make_filter
make_id_filter ids = make_filter str_eq ids

unfoldable pub make_state_filter : List JobState → List JobState
unfolding make_filter
make_state_filter states = make_filter state_eq states

-- The conditions on which the loop does not `continue`.
unfoldable pub passes : List String → List JobState → JobStatus → Bool
passes id_filter state_filter status =
    not (ltb 0 (length id_filter) && not (any_of (str_eq status.job_id) id_filter))
    && not (ltb 0 (length state_filter) && not (any_of (state_eq status.state) state_filter))

-- `xs[lo:hi]`, which panics if the bounds are not 0 <= lo <= hi <= len(xs).
unfoldable pub slice : {A : Type 0} → List A → ℤ → ℤ → Outcome (List A)
slice xs lo hi =
    if leb_ℤ (pos 0) lo && leb_ℤ lo hi && leb_ℤ hi (pos (length xs))
    then done (take (pos_part hi - pos_part lo) (drop (pos_part lo) xs))
    else panicked

-- The pagination at the end of QueryJobStatuses.
unfoldable pub paginate : List JobStatus → ℤ → ℤ → Outcome (List JobStatus)
paginate filtered query_offset limit =
    let offset = if ltb_ℤ query_offset (pos 0) then pos 0 else query_offset in
    let size = pos (length filtered) in
    let sum = wrap64 (offset +ℤ limit) in
    if leb_ℤ size offset
    then done []
    else slice filtered offset (if ltb_ℤ (pos 0) limit && ltb_ℤ sum size then sum else size)

-- QueryJobStatuses, on the statuses of the storage.
unfoldable pub query_job_statuses : List JobStatus → JobStatusQuery → Outcome (List JobStatus)
unfolding make_id_filter make_state_filter passes paginate
query_job_statuses [] query = done []
query_job_statuses (x ∷ xs) query =
    paginate
      (filter_by (passes (make_id_filter query.ids) (make_state_filter query.states)) (x ∷ xs))
      query.offset query.limit

-- The two steps of QueryJobHistory.
unfoldable pub from_sequence : ℤ → List JobRun → List JobRun
from_sequence from history =
    if ltb_ℤ (pos 0) from
    then filter_by (λ (run : JobRun). leb_ℤ from (pos run.sequence)) history
    else history

unfoldable pub at_most : ℤ → List JobRun → List JobRun
at_most limit filtered =
    if ltb_ℤ (pos 0) limit && ltb_ℤ limit (pos (length filtered))
    then drop (length filtered - pos_part limit) filtered
    else filtered

-- QueryJobHistory, on the history of the storage; `none` is the result `nil, false`.
unfoldable pub query_job_history : Option (List JobRun) → JobHistoryQuery → Option (List JobRun)
unfolding from_sequence at_most
query_job_history none query = none
query_job_history (some history) query =
    some (at_most query.limit (from_sequence query.from_sequence history))
