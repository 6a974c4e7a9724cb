-- ===== src/Flash/Tracker.antt =====
-- The state of `FlashSequenceTracker` and its private helpers. What the registered callbacks are
-- called with is the list `emitted`, the oldest call first. A reference into a map is a copy that
-- `put` writes back. The locks are left out: every operation holds the one mutex from start to end.
pub mod Requests
pub mod Responses
pub mod Upkeep
use wadjet_link.Prelude.{
  ℕ, ◌+◌, ◌%◌, ◌^◌, List, [], ◌∷◌, ◌++◌, Bool, true, false, Option, none, some, ltb, if◌then◌else◌,
  length,
}
use wadjet_link.Prelude.Assoc.{nat_eq, lookup, insert, erase}
use wadjet_link.Flash.Sequence.{
  FlashSequence, complete, failed, new_sequence, is_active, FlashEvent, Options, Statistics,
}

pub record Tracker : Type 0 where
  pub options : Options
  pub stats : Statistics
  pub active : List (ℕ × FlashSequence)
  pub history : List (ℕ × List FlashSequence)
  pub emitted : List (FlashEvent × FlashSequence)

abbrev pub add64 : ℕ → ℕ → ℕ
add64 a b = (a + b) % 2 ^ 64

unfoldable pub put : ℕ → FlashSequence → Tracker → Tracker
put ecu seq t = record t { active = insert ecu seq t.active }

unfoldable pub emit_event : FlashEvent → FlashSequence → Tracker → Tracker
emit_event event seq t = record t { emitted = t.emitted ++ (event, seq) ∷ [] }

-- `while (hist.size() > max_history) hist.erase(hist.begin());`
unfoldable pub enforce_limit : ℕ → List FlashSequence → List FlashSequence
enforce_limit limit [] = []
enforce_limit limit (seq ∷ hist) =
    let rest = enforce_limit limit hist in
    if ltb limit (length (seq ∷ hist)) then rest else seq ∷ hist

abbrev pub or_empty : Option (List FlashSequence) → List FlashSequence
or_empty none = []
or_empty (some hist) = hist

unfoldable pub archive_sequence : ℕ → Tracker → Tracker
archive_sequence ecu t = elim (lookup ecu t.active) [
  | none ↦ t
  | some seq ↦
      let hist =
        enforce_limit t.options.max_history (or_empty (lookup ecu t.history) ++ seq ∷ []) in
      record t { history = insert ecu hist t.history; active = erase ecu t.active }
]

-- The sequence is new and replaces what was there, unless there is an active one.
unfoldable pub create_sequence : ℕ → ℕ → Tracker → FlashSequence × Tracker
create_sequence ecu tester t =
    (new_sequence ecu tester, put ecu (new_sequence ecu tester) (archive_sequence ecu t))

unfoldable pub get_or_create_sequence : ℕ → ℕ → Tracker → FlashSequence × Tracker
get_or_create_sequence ecu tester t = elim (lookup ecu t.active) [
  | none ↦ create_sequence ecu tester t
  | some seq ↦ if is_active seq then (seq, t) else create_sequence ecu tester t
]

unfoldable pub complete_sequence : Bool → FlashSequence → Tracker → FlashSequence × Tracker
complete_sequence true seq t = (
  record seq { state = complete },
  record t { stats = record t.stats { sequences_completed = add64 t.stats.sequences_completed 1 } },
)
complete_sequence false seq t = (
  record seq { state = failed },
  record t { stats = record t.stats { sequences_failed = add64 t.stats.sequences_failed 1 } },
)
