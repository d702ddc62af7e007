-- ===== src/Storage/History.antt =====
-- The bounded history of an entry against the full log of its runs.
use go_again.Prelude.{
  ℕ, zero, suc, ◌+◌, ◌-◌, ℤ, pos, negsuc, List, [], ◌∷◌, ◌++◌, length, length-append, length-drop,
  drop, drop-drop, drop-append, ltb, ◌≡◌, refl, sym, ap, ◌∙◌, inl, inr, arith, Bool-cases,
}
use mathlib.Core.List.{append_assoc, append-nil}
use go_again.Storage.{Time, CallbackPayload, JobRun}
use go_again.Storage.Memory.{JobStatusEntry, recorded_entry, effective_limit, trim}

-- The last `n` elements of a list.
abbrev pub last_of {ℓ} : {A : Type ℓ} → ℕ → List A → List A
last_of n xs = drop (length xs - n) xs

trim-last_of : (limit : ℕ) (h : List JobRun) → trim limit h ≡ last_of limit h
unfolding trim
trim-last_of limit h = elim (Bool-cases (ltb limit (length h))) [
  | inl long ↦ rw long refl
  | inr short ↦
      let none_over : ◌≡◌ {A = ℕ} 0 (length h - limit) = ground (arith, short) in
      rw short (ap (λ k. drop k h) none_over)
]

-- Trimming before an addition makes no difference after it.
last_of-append :
    (n : ℕ) (h : List JobRun) (r : JobRun)
    → last_of n (last_of n h ++ r ∷ []) ≡ last_of n (h ++ r ∷ [])
last_of-append n h r =
    let k : ℕ = length h - n in
    let size = length-drop k h in
    let grown = length-append (drop k h) (r ∷ []) in
    let whole = length-append h (r ∷ []) in
    ap (drop (length (drop k h ++ r ∷ []) - n)) (sym (drop-append k h (r ∷ []) (omega arith)))
    ∙ drop-drop k (length (drop k h ++ r ∷ []) - n) (h ++ r ∷ [])
    ∙ ap (λ j. drop j (h ++ r ∷ [])) (omega arith)

-- What README.md says of the limit: the limit itself where it is positive, and else the default, 20.
abbrev pub kept_runs : ℤ → ℕ
kept_runs (pos zero) = 20
kept_runs (pos (suc n)) = suc n
kept_runs (negsuc n) = 20

effective_limit_lem : (limit : ℤ) → effective_limit limit ≡ kept_runs limit
unfolding effective_limit
effective_limit_lem (pos zero) = refl
effective_limit_lem (pos (suc n)) = ground arith
effective_limit_lem (negsuc n) = ground arith

-- The results of several executions, with the times at which they are recorded.
unfoldable pub record_all : List (Time × CallbackPayload) → ℤ → JobStatusEntry → JobStatusEntry
record_all [] limit e = e
record_all ((now, payload) ∷ rest) limit e =
    record_all rest limit (recorded_entry payload limit now e)

-- The full log: every run, numbered from the last sequence number on.
abbrev pub runs_from : ℕ → List (Time × CallbackPayload) → List JobRun
runs_from i [] = []
runs_from i ((now, payload) ∷ rest) =
    record { sequence = suc i; payload = payload } ∷ runs_from (suc i) rest

-- If an entry keeps the last `limit` runs of a log and its Runs is its last sequence number, then
-- RecordExecutionResult, called for any sequence of payloads with one limit, keeps exactly the last
-- `limit` runs of the full log and counts them all in Runs; a limit that is not positive stands for
-- 20.
pub record_all_lem :
    (ps : List (Time × CallbackPayload)) (limit : ℤ) (e : JobStatusEntry) (log : List JobRun)
    → e.history ≡ last_of (kept_runs limit) log
    → e.status.runs ≡ e.last_sequence
    → ((record_all ps limit e).history
        ≡ last_of (kept_runs limit) (log ++ runs_from e.last_sequence ps))
      × ((record_all ps limit e).status.runs ≡ e.last_sequence + length ps)
unfolding record_all
record_all_lem [] limit e log h r =
    (h ∙ ap (last_of (kept_runs limit)) (sym (append-nil log)), omega arith)
record_all_lem ((now, payload) ∷ rest) limit e log h r =
    let n = kept_runs limit in
    let run : JobRun = record { sequence = suc e.last_sequence; payload = payload } in
    let kept : (recorded_entry payload limit now e).history ≡ last_of n (log ++ run ∷ []) =
      unfold recorded_entry in
      (trim-last_of (effective_limit limit) (e.history ++ run ∷ [])
        ∙ ap (λ k. last_of k (e.history ++ run ∷ [])) (effective_limit_lem limit)
        ∙ ap (λ l. last_of n (l ++ run ∷ [])) h
        ∙ last_of-append n log run) in
    let (whole, counted) =
      record_all_lem rest limit (recorded_entry payload limit now e) (log ++ run ∷ []) kept
        (unfold recorded_entry in refl) in
    let next : (recorded_entry payload limit now e).last_sequence ≡ suc e.last_sequence =
      unfold recorded_entry in refl in
    (
      whole
          ∙ ap (λ i. last_of n ((log ++ run ∷ []) ++ runs_from i rest)) next
          ∙ ap (last_of n) (append_assoc log (run ∷ []) (runs_from (suc e.last_sequence) rest)),
      omega arith,
    )
