-- ===== src/Tcp/Options.antt =====
-- `TcpOption` and `TcpDecoder::parse_options` of src/protocols/tcp.cpp. The kind of an option is its
-- number, since any byte may stand there.
pub mod Suffix
pub mod Layout
use wadjet_link.Prelude.{
  ℕ, zero, suc, ◌+◌, ◌-◌, List, [], ◌∷◌, ◌||◌, ◌&&◌, Bool, true, false, not, Option, none, some,
  ltb, leb, ◌==◌, if◌then◌else◌, length, take, drop,
}
use wadjet_link.Bytes.{be16, be32, get_elem?, ◌>>=◌}

pub record TcpOption : Type 0 where
  pub kind : ℕ
  pub body : List ℕ

mss_of : List ℕ → Option ℕ
mss_of (b0 ∷ b1 ∷ []) = some (be16 b0 b1)
mss_of _ = none

unfoldable pub mss : TcpOption → Option ℕ
unfolding mss_of
mss o = if o.kind == 2 then mss_of o.body else none

scale_of : List ℕ → Option ℕ
scale_of (b0 ∷ []) = some b0
scale_of _ = none

unfoldable pub window_scale : TcpOption → Option ℕ
unfolding scale_of
window_scale o = if o.kind == 3 then scale_of o.body else none

timestamps_of : List ℕ → Option (ℕ × ℕ)
timestamps_of (b0 ∷ b1 ∷ b2 ∷ b3 ∷ b4 ∷ b5 ∷ b6 ∷ b7 ∷ []) =
    some (be32 b0 b1 b2 b3, be32 b4 b5 b6 b7)
timestamps_of _ = none

unfoldable pub timestamps : TcpOption → Option (ℕ × ℕ)
unfolding timestamps_of
timestamps o = if o.kind == 8 then timestamps_of o.body else none

-- `opt.data.assign(begin + offset + 2, begin + offset + opt_len)` where there is a body; `none` is a
-- range that leaves the span.
unfoldable pub assign : List ℕ → ℕ → ℕ → Option (List ℕ)
assign raw offset len =
    if not (ltb 2 len)
    then some []
    else if leb (offset + len) (length raw)
    then some (take (len - 2) (drop (offset + 2) raw))
    else none

-- An option of the kind at `offset`; `go` is the loop from a later offset on.
unfoldable pub read_option :
    (ℕ → Option (List TcpOption)) → List ℕ → ℕ → ℕ → Option (List TcpOption)
read_option go raw offset kind = if leb (length raw) (offset + 1) then some [] else do
  len ← get_elem? raw (offset + 1)
  if ltb len 2 || ltb (length raw) (offset + len) then some [] else do
    body ← assign raw offset len
    rest ← go (offset + len)
    some (record { kind = kind; body = body } ∷ rest)

-- One round of the loop.
unfoldable pub round : (ℕ → Option (List TcpOption)) → List ℕ → ℕ → Option (List TcpOption)
round go raw offset = do
  kind ← get_elem? raw offset
  if kind == 0
      then some []
      else if kind == 1
      then go (offset + 1)
      else read_option go raw offset kind

-- The loop from `offset` on; the result is what this and the later rounds push. `none` is a read
-- outside the span, or fuel that ran out.
unfoldable pub parse_from : ℕ → List ℕ → ℕ → Option (List TcpOption)
parse_from zero raw offset = if ltb offset (length raw) then none else some []
parse_from (suc fuel) raw offset =
    if ltb offset (length raw) then round (parse_from fuel raw) raw offset else some []

-- Every round takes a byte at least.
unfoldable pub parse_options : List ℕ → Option (List TcpOption)
unfolding parse_from
parse_options raw = parse_from (length raw) raw 0
