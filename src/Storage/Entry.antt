-- ===== src/Storage/Entry.antt =====
-- What holds of an entry of InMemoryJobsStorage between two calls.
use go_again.Prelude.{
  ℕ, zero, suc, ◌+◌, ◌-◌, ◌≤◌, ◌<◌, ℤ, String, List, [], ◌∷◌, ◌++◌, length, length-append,
  length-drop, drop, ltb→lt, get_last?, get_last?-concat, ltb, ◌≡◌, refl, ap, ◌∙◌, inl, inr, arith,
  Bool-cases, if_elim,
}
use mathlib.Core.Option
use mathlib.Core.Path.{subst, sym}
use go_again.Storage.{Time, JobState, CallbackPayload, JobRun}
use go_again.Storage.Memory.{
  JobStatusEntry, new_entry, upsert_entry, removed_entry, terminal_entry, started_entry,
  recorded_entry, effective_limit, trim,
}

-- The runs are numbered i + 1, i + 2, ...
abbrev pub Numbered : ℕ → List JobRun → Type 0
Numbered i [] = Unit
Numbered i (r ∷ rs) = (r.sequence ≡ suc i) × Numbered (suc i) rs

pub Numbered-append :
    (i : ℕ) (h : List JobRun) (r : JobRun)
    → Numbered i h
    → r.sequence ≡ suc (i + length h)
    → Numbered i (h ++ r ∷ [])
Numbered-append i [] r n e = (omega arith, tt)
Numbered-append i (x ∷ h) r n e = (n.0, Numbered-append (suc i) h r n.1 (omega arith))

pub Numbered-drop :
    (k i : ℕ) (h : List JobRun) → k ≤ length h → Numbered i h → Numbered (i + k) (drop k h)
Numbered-drop zero i h le n = subst (λ j. Numbered j h) (omega arith) n
Numbered-drop (suc k) i [] le n = absurd (omega arith)
Numbered-drop (suc k) i (x ∷ h) le n =
    subst (λ j. Numbered j (drop k h)) (omega arith) (Numbered-drop k (suc i) h (omega arith) n.1)

-- The counters agree, and the history is the runs up to the last one without a gap.
pub record IsValid (id : String) (e : JobStatusEntry) : Type 0 where
  pub job : e.status.job_id ≡ id
  pub runs : e.status.runs ≡ e.last_sequence
  pub active : e.status.active_runs ≡ e.active_runs
  pub kept : length e.history ≤ e.last_sequence
  pub numbered : Numbered (e.last_sequence - length e.history) e.history
  pub last : e.status.last_run ≡ Option.map (λ (r : JobRun). r.payload) (get_last? e.history)

pub effective_limit_pos : (limit : ℤ) → 0 < effective_limit limit
unfolding effective_limit
effective_limit_pos limit = ground arith

pub length-trim-le : (limit : ℕ) (h : List JobRun) → length (trim limit h) ≤ limit
unfolding trim
length-trim-le limit h = ground (arith, length-drop (length h - limit) h)

get_last?-drop {ℓ} :
    {A : Type ℓ} (k : ℕ) (h : List A) → k < length h → get_last? (drop k h) ≡ get_last? h
get_last?-drop zero h lt = refl
get_last?-drop (suc k) [] lt = absurd (omega arith)
get_last?-drop (suc k) (x ∷ []) lt = absurd (omega arith)
get_last?-drop (suc k) (x ∷ y ∷ h) lt = get_last?-drop k (y ∷ h) (omega arith)

-- What trimming keeps of a history of consecutive runs.
pub trim_lem :
    (limit last : ℕ) (h : List JobRun)
    → 0 < limit
    → length h ≤ last
    → Numbered (last - length h) h
    → (length (trim limit h) ≤ last)
      × Numbered (last - length (trim limit h)) (trim limit h)
      × (get_last? (trim limit h) ≡ get_last? h)
unfolding trim
trim_lem limit last h p le n = elim (Bool-cases (ltb limit (length h))) [
  | inl long ↦
      let k : ℕ = length h - limit in
      let over : limit < length h = ltb→lt _ _ long in
      let size = length-drop k h in
      rw long (
        omega arith,
        subst (λ j. Numbered j (drop k h)) (omega arith)
            (Numbered-drop k (last - length h) h (omega arith) n),
        get_last?-drop k h (omega arith),
      )
  | inr short ↦ rw short (le, n, refl)
]

pub new_entry-IsValid :
    (id : String) (state : JobState) (now : Time) → IsValid id (new_entry id state now)
unfolding new_entry
new_entry-IsValid id state now = record {
  job = refl;
  runs = refl;
  active = refl;
  kept = omega arith;
  numbered = tt;
  last = refl;
}

module _ {id : String} {e : JobStatusEntry} (v : IsValid id e) (now : Time) where
  pub upsert_entry-IsValid : (state : JobState) → IsValid id (upsert_entry state now e)
  unfolding upsert_entry
  upsert_entry-IsValid state = record {
    job = v.job;
    runs = v.runs;
    active = v.active;
    kept = v.kept;
    numbered = v.numbered;
    last = v.last;
  }

  pub removed_entry-IsValid : IsValid id (removed_entry now e)
  unfolding removed_entry
  removed_entry-IsValid = record {
    job = v.job;
    runs = v.runs;
    active = refl;
    kept = v.kept;
    numbered = v.numbered;
    last = v.last;
  }

  pub started_entry-IsValid : IsValid id (started_entry now e)
  unfolding started_entry
  started_entry-IsValid = record {
    job = v.job;
    runs = v.runs;
    active = refl;
    kept = v.kept;
    numbered = v.numbered;
    last = v.last;
  }

  -- The history with the next run behind it
  pub grown-Numbered :
      (run : JobRun)
      → run.sequence ≡ suc e.last_sequence
      → (length (e.history ++ run ∷ []) ≤ suc e.last_sequence)
        × Numbered (suc e.last_sequence - length (e.history ++ run ∷ [])) (e.history ++ run ∷ [])
  grown-Numbered run next =
      let size : length (e.history ++ run ∷ []) ≡ length e.history + 1 =
        length-append e.history (run ∷ []) in
      (
        omega (arith, v.kept),
        subst (λ j. Numbered j (e.history ++ run ∷ [])) (omega (arith, v.kept))
            (Numbered-append _ e.history run v.numbered (omega (arith, v.kept))),
      )

  pub recorded_entry-IsValid :
      (payload : CallbackPayload) (limit : ℤ) → IsValid id (recorded_entry payload limit now e)
  unfolding recorded_entry
  recorded_entry-IsValid payload limit =
      let run : JobRun = record { sequence = suc e.last_sequence; payload = payload } in
      let grown = grown-Numbered run refl in
      let (kept, numbered, last) =
        trim_lem (effective_limit limit) (suc e.last_sequence) (e.history ++ run ∷ [])
          (effective_limit_pos limit) grown.0 grown.1 in
      record {
        job = v.job;
        runs = refl;
        active = refl;
        kept = kept;
        numbered = numbered;
        last =
            sym
              (ap (Option.map (λ (r : JobRun). r.payload)) (last ∙ get_last?-concat e.history run));
      }

  pub terminal_entry-IsValid : (state : JobState) → IsValid id (terminal_entry state now e)
  unfolding terminal_entry
  terminal_entry-IsValid state = if_elim (IsValid id) e.terminal v (record {
    job = v.job;
    runs = v.runs;
    active = refl;
    kept = v.kept;
    numbered = v.numbered;
    last = v.last;
  })
