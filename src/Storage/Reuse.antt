-- ===== src/Storage/Reuse.antt =====
-- The lifecycle state of an entry: live entries follow the executions, terminal ones stay as they
-- are, also when their ID is scheduled again.
use go_again.Prelude.{
  ℤ, List, [], ◌∷◌, Bool, true, false, ltb, if◌then◌else◌, ◌≡◌, refl, ap, ◌∙◌, arith, any_of,
  String,
}
use go_again.Storage.{Time, JobState, scheduled, running, removed, CallbackPayload}
use go_again.Storage.Memory.{
  JobStatusEntry, new_entry, upsert_entry, removed_entry, terminal_entry, started_entry,
  recorded_entry,
}

-- The calls about one ID that a run of its job makes.
pub data Event : Type 0 where
  starts : Event
  records : CallbackPayload → ℤ → Event
  marks_terminal : JobState → Event
  marks_removed : Event

unfoldable pub happen : JobStatusEntry → Time × Event → JobStatusEntry
happen e (now, starts) = started_entry now e
happen e (now, records payload limit) = recorded_entry payload limit now e
happen e (now, marks_terminal state) = terminal_entry state now e
happen e (now, marks_removed) = removed_entry now e

unfoldable pub happen_all : JobStatusEntry → List (Time × Event) → JobStatusEntry
unfolding happen
happen_all e [] = e
happen_all e (c ∷ cs) = happen_all (happen e c) cs

abbrev pub is_removal : Time × Event → Bool
is_removal (now, marks_removed) = true
is_removal (now, starts) = false
is_removal (now, records payload limit) = false
is_removal (now, marks_terminal state) = false

-- A live entry shows whether one of its executions is active.
abbrev pub IsLive : JobStatusEntry → Type 0
IsLive e =
    e.terminal ≡ false → e.status.state ≡ (if ltb 0 e.active_runs then running else scheduled)

happen-IsLive : (e : JobStatusEntry) (c : Time × Event) → IsLive e → IsLive (happen e c)
unfolding happen started_entry recorded_entry terminal_entry removed_entry
happen-IsLive e (now, starts) l live = ground arith
happen-IsLive e (now, records payload limit) l live = ground arith
happen-IsLive e (now, marks_terminal state) l live = ground arith
happen-IsLive e (now, marks_removed) l live = cc

happen_all-IsLive :
    (e : JobStatusEntry) (cs : List (Time × Event)) → IsLive e → IsLive (happen_all e cs)
unfolding happen_all
happen_all-IsLive e [] l = l
happen_all-IsLive e (c ∷ cs) l = happen_all-IsLive (happen e c) cs (happen-IsLive e c l)

happen_terminal :
    (e : JobStatusEntry) (c : Time × Event)
    → e.terminal ≡ true
    → ((happen e c).terminal ≡ true)
      × ((happen e c).status.state ≡ (if is_removal c then removed else e.status.state))
unfolding happen started_entry recorded_entry terminal_entry removed_entry
happen_terminal e (now, starts) t = ground arith
happen_terminal e (now, records payload limit) t = ground arith
happen_terminal e (now, marks_terminal state) t = ground arith
happen_terminal e (now, marks_removed) t = (refl, refl)

terminal_stays :
    (e : JobStatusEntry) (cs : List (Time × Event))
    → e.terminal ≡ true
    → ((happen_all e cs).terminal ≡ true)
      × ((happen_all e cs).status.state
          ≡ (if any_of is_removal cs then removed else e.status.state))
unfolding happen_all
terminal_stays e [] t = (t, refl)
terminal_stays e (c ∷ cs) t =
    let (t', s) = happen_terminal e c t in
    let (t'', s') = terminal_stays (happen e c) cs t' in ground arith

first_mark :
    (state : JobState) (now : Time) (e : JobStatusEntry)
    → e.terminal ≡ false
    → ((terminal_entry state now e).terminal ≡ true)
      × ((terminal_entry state now e).status.state ≡ state)
unfolding terminal_entry
first_mark state now e live = ground arith

-- From a new entry in state scheduled on, and after any executions and marks, an entry that is not
-- terminal is running exactly while an execution is active and scheduled otherwise; one that was
-- marked terminal keeps its state, except that a removal sets it to removed.
pub lifecycle :
    (id : String) (now later : Time) (state : JobState) (before after : List (Time × Event))
    → let e = happen_all (new_entry id scheduled now) before in
      IsLive e
      × (e.terminal ≡ false
          → (happen_all (terminal_entry state later e) after).status.state
            ≡ (if any_of is_removal after then removed else state))
lifecycle id now later state before after =
    let e = happen_all (new_entry id scheduled now) before in
    (
      happen_all-IsLive (new_entry id scheduled now) before (unfold new_entry in λ _. refl),
      λ live.
          let (t, marked) = first_mark state later e live in
          let (_, s) = terminal_stays (terminal_entry state later e) after t in
          s ∙ ap (λ x. if any_of is_removal after then removed else x) marked,
    )

-- An ID that is scheduled again after its entry became terminal stays in state scheduled, whatever
-- executions start and end and however the new job ends, unless it is removed: it is never shown as
-- running, completed, canceled or stopped.
pub reused_id_stays_scheduled :
    (e : JobStatusEntry) (now : Time) (cs : List (Time × Event))
    → e.terminal ≡ true
    → any_of is_removal cs ≡ false
    → (happen_all (upsert_entry scheduled now e) cs).status.state ≡ scheduled
unfolding upsert_entry
reused_id_stays_scheduled e now cs t kept =
    let (_, s) =
      terminal_stays (record e { status = record e.status { state = scheduled; updated_at = now } })
        cs t in
    s ∙ rw kept refl
