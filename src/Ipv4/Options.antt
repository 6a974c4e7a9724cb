-- ===== src/Ipv4/Options.antt =====
-- `IPv4Header::parseIpv4Options` of src/protocols/ipv4.cpp.
pub mod Suffix
pub mod RoundTrip
use wadjet_link.Prelude.{
  ℕ, zero, suc, ◌+◌, ◌-◌, List, [], ◌∷◌, ◌||◌, Bool, true, false, Option, none, some, ltb, leb,
  ◌==◌, if◌then◌else◌, length, take, drop,
}
use wadjet_link.Bytes.{get_elem?, ◌>>=◌}
use mathlib.Core.Option

pub record Ipv4Option : Type 0 where
  pub kind : ℕ
  pub body : List ℕ

pub record ParseOptionsResult : Type 0 where
  pub options : List Ipv4Option
  pub malformed : Bool

abbrev pub push : Ipv4Option → ParseOptionsResult → ParseOptionsResult
push o r = record { options = o ∷ r.options; malformed = r.malformed }

abbrev pub stop : Bool → List Ipv4Option → ParseOptionsResult
stop malformed options = record { options = options; malformed = malformed }

-- The loop that copies `raw[j]` for `n` values of `j`; `none` is a read outside `raw`.
unfoldable pub read_each : ℕ → List ℕ → ℕ → Option (List ℕ)
read_each zero raw j = some []
read_each (suc n) raw j = do b ← get_elem? raw j; rest ← read_each n raw (j + 1); some (b ∷ rest)

-- An option of the kind at `i`; `go` is the loop from a later index on.
unfoldable pub read_option :
    (ℕ → Option ParseOptionsResult) → List ℕ → ℕ → ℕ → Option ParseOptionsResult
read_option go raw i kind = if leb (length raw) (i + 1) then some (stop true []) else do
  len ← get_elem? raw (i + 1)
  if ltb len 2 || ltb (length raw) (i + len) then some (stop true []) else do
    body ← if ltb 2 len then read_each (len - 2) raw (i + 2) else some []
    rest ← go (i + len)
    some (push (record { kind = kind; body = body }) rest)

-- One round of the loop.
unfoldable pub round : (ℕ → Option ParseOptionsResult) → List ℕ → ℕ → Option ParseOptionsResult
round go raw i = do
  kind ← get_elem? raw i
  if kind == 0
      then some (stop false (record { kind = kind; body = [] } ∷ []))
      else if kind == 1
      then Option.map (push (record { kind = kind; body = [] })) (go (i + 1))
      else read_option go raw i kind

-- The loop from index `i` on; the result holds the options that this and the later rounds push.
-- `none` is a read outside `raw`, or fuel that ran out.
unfoldable pub parse_from : ℕ → List ℕ → ℕ → Option ParseOptionsResult
parse_from zero raw i = if ltb i (length raw) then none else some (stop false [])
parse_from (suc fuel) raw i =
    if ltb i (length raw) then round (parse_from fuel raw) raw i else some (stop false [])

-- Every round takes a byte at least.
unfoldable pub parse_options : List ℕ → Option ParseOptionsResult
unfolding parse_from
parse_options raw = parse_from (length raw) raw 0
