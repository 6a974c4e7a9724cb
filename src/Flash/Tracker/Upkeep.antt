-- ===== src/Flash/Tracker/Upkeep.antt =====
-- Access to the sequences, aborts, timeouts and resets of `FlashSequenceTracker`. A pointer is the
-- sequence that it points to, and `now` is what the steady clock says.
use wadjet_link.Prelude.{
  ℕ, ◌-◌, ◌^◌, List, [], ◌∷◌, Bool, true, false, ◌&&◌, Option, none, some, min, if◌then◌else◌,
  length, drop,
}
use wadjet_link.Prelude.Assoc.{nat_eq, lookup, erase}
use wadjet_link.Prelude.Integers.{duration, exceeds}
use wadjet_link.Flash.Sequence.{
  FlashSequence, failed, aborted, new_sequence, is_active, sequence_failed, sequence_aborted,
  no_statistics,
}
use wadjet_link.Flash.Tracker.{Tracker, add64, put, emit_event, or_empty, archive_sequence}
use wadjet_link.Flash.Tracker.Responses.{timed}

unfoldable pub get_active_sequence : ℕ → Tracker → Option FlashSequence
get_active_sequence ecu t = elim (lookup ecu t.active) [
  | none ↦ none
  | some seq ↦ if is_active seq then some seq else none
]

-- `&hist.back()`, or null where the list is empty.
unfoldable pub last_of : List FlashSequence → Option FlashSequence
last_of [] = none
last_of (seq ∷ []) = some seq
last_of (_ ∷ (later ∷ hist)) = last_of (later ∷ hist)

unfoldable pub get_sequence : ℕ → Tracker → Option FlashSequence
get_sequence ecu t = elim (lookup ecu t.active) [
  | some seq ↦ some seq
  | none ↦ last_of (or_empty (lookup ecu t.history))
]

unfoldable pub active_of : List (ℕ × FlashSequence) → List FlashSequence
active_of [] = []
active_of ((ecu, seq) ∷ m) = let rest = active_of m in if is_active seq then seq ∷ rest else rest

unfoldable pub get_active_sequences : Tracker → List FlashSequence
get_active_sequences t = active_of t.active

unfoldable pub get_history : ℕ → ℕ → Tracker → List FlashSequence
get_history ecu max_count t =
    let hist = or_empty (lookup ecu t.history) in
    drop (length hist - min max_count (length hist)) hist

unfoldable pub has_active_sequence : ℕ → Tracker → Bool
has_active_sequence ecu t = elim (get_active_sequence ecu t) [ none ↦ false | some _ ↦ true ]

unfoldable pub abort_sequence : ℕ → ℕ → Tracker → Tracker
abort_sequence now ecu t = elim (lookup ecu t.active) [
  | none ↦ t
  | some seq0 ↦
      let seq = timed now (record seq0 { state = aborted; end_time = now }) in
      let n = t.stats.sequences_aborted in
      let stats = record t.stats { sequences_aborted = add64 n 1 } in
      if is_active seq0
      then archive_sequence ecu
          (emit_event sequence_aborted seq (put ecu seq (record t { stats = stats })))
      else t
]

unfoldable pub clear_history : ℕ → Tracker → Tracker
clear_history ecu t = record t { history = erase ecu t.history }

unfoldable pub reset : Tracker → Tracker
reset t = record t { active = []; history = []; stats = no_statistics }

unfoldable pub reset_statistics : Tracker → Tracker
reset_statistics t = record t { stats = no_statistics }

abbrev pub is_late : ℕ → ℕ → FlashSequence → Bool
is_late now timeout seq = is_active seq && exceeds (duration (10 ^ 9) now seq.start_time) timeout

unfoldable pub to_timeout : ℕ → ℕ → List (ℕ × FlashSequence) → List ℕ
to_timeout now timeout [] = []
to_timeout now timeout ((ecu, seq) ∷ m) =
    let rest = to_timeout now timeout m in if is_late now timeout seq then ecu ∷ rest else rest

-- `active_sequences_[ecu]`, which makes a sequence where there is none.
abbrev pub or_new : Option FlashSequence → FlashSequence
or_new none = new_sequence 0 0
or_new (some seq) = seq

unfoldable pub time_out : ℕ → ℕ → Tracker → Tracker
time_out now ecu t =
    let seq = record (or_new (lookup ecu t.active)) { state = failed; end_time = now } in
    let stats = record t.stats { sequences_failed = add64 t.stats.sequences_failed 1 } in
    archive_sequence ecu (emit_event sequence_failed seq (put ecu seq (record t { stats = stats })))

unfoldable pub time_out_all : ℕ → List ℕ → Tracker → Tracker
time_out_all now [] t = t
time_out_all now (ecu ∷ ecus) t = time_out_all now ecus (time_out now ecu t)

unfoldable pub check_timeouts : ℕ → Tracker → ℕ × Tracker
check_timeouts now t =
    let ecus = to_timeout now t.options.sequence_timeout t.active in
    (length ecus, time_out_all now ecus t)
