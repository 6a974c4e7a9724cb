-- ===== src/Flash/Invariant/Helpers.antt =====
-- What the handlers of flash messages share: a sequence that is stored, and a choice of trackers.
use wadjet_link.Prelude.{ℕ, ◌≡◌, Bool, true, false, some, if◌then◌else◌}
use wadjet_link.Prelude.Assoc.{nat_eq, lookup, lookup-Values}
use wadjet_link.Flash.Sequence.{FlashSequence}
use wadjet_link.Flash.Tracker.{Tracker}
use wadjet_link.Flash.Invariant.{IsSound, Sound}

pub found-IsSound :
    (ecu : ℕ) (t : Tracker) {seq : FlashSequence}
    → Sound t
    → lookup ecu t.active ≡ some seq
    → IsSound seq
found-IsSound ecu t h e = lookup-Values IsSound ecu t.active h.1.0 e

pub if-Sound : (test : Bool) (a b : Tracker) → Sound a → Sound b → Sound (if test then a else b)
if-Sound true a b h k = h
if-Sound false a b h k = k
