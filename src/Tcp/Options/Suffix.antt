-- ===== src/Tcp/Options/Suffix.antt =====
-- The option loop, which indexes its span, against a reader of the bytes that are left: every read of
-- the loop lies inside the span.
use wadjet_link.Prelude.{
  ℕ, zero, suc, ◌+◌, ◌-◌, ◌≤◌, ◌<◌, ◌≡◌, ◌∙◌, ap, refl, List, [], ◌∷◌, ◌||◌, Option, none, some,
  ltb, ◌==◌, if◌then◌else◌, length, take, drop, get_or, arith, Bool-cases, inl, inr, dec_lt, lt→ltb,
  le→ltb, le→leb, gt→leb, drop_all, drop_cons, length-drop, drop-drop,
}
use mathlib.Core.Option
use wadjet_link.Bytes.{◌>>=◌}
use wadjet_link.Decoder.Reads.{get_elem?_in}
use wadjet_link.Tcp.Options.{TcpOption, assign, read_option, round, parse_from, parse_options}

-- An option whose kind was read, and the reader on the bytes that are left.
abbrev pub tlv_rest : (List ℕ → Option (List TcpOption)) → ℕ → List ℕ → Option (List TcpOption)
tlv_rest go kind [] = some []
tlv_rest go kind (len ∷ body) =
    if ltb len 2 || ltb (suc (suc (length body))) len
    then some []
    else Option.map (◌∷◌ (record { kind = kind; body = take (len - 2) body }))
        (go (drop (len - 2) body))

unfoldable pub read_rest : ℕ → List ℕ → Option (List TcpOption)
read_rest fuel [] = some []
read_rest zero (kind ∷ rest) = none
read_rest (suc fuel) (kind ∷ rest) =
    let after_nop = read_rest fuel rest in
    if kind == 0
    then some []
    else if kind == 1
    then after_nop
    else tlv_rest (read_rest fuel) kind rest

assign_in :
    (raw : List ℕ) (offset len : ℕ)
    → offset + len ≤ length raw
    → assign raw offset len ≡ some (take (len - 2) (drop (offset + 2) raw))
unfolding assign
assign_in raw offset len h = ground (arith, le→leb (offset + len) (length raw))

bind_some :
    (o : TcpOption) (x : Option (List TcpOption))
    → (x >>= λ rest. some (o ∷ rest)) ≡ Option.map (◌∷◌ o) x
bind_some o none = refl
bind_some o (some rest) = refl

module _ (fuel : ℕ) (raw : List ℕ)
    (ih : (offset : ℕ) → parse_from fuel raw offset ≡ read_rest fuel (drop offset raw)) where
  read_option-rest :
      (offset kind : ℕ)
      → offset < length raw
      → read_option (parse_from fuel raw) raw offset kind
        ≡ tlv_rest (read_rest fuel) kind (drop (offset + 1) raw)
  unfolding read_option
  read_option-rest offset kind h = elim (dec_lt (offset + 1) (length raw)) [
    | no end ↦
        rw (le→leb (length raw) (offset + 1) (omega arith), drop_all (offset + 1) raw (omega arith))
          refl
    | yes more ↦
        let len = get_or raw (offset + 1) 0 in
        let body = drop (offset + 2) raw in
        let next : drop (offset + 1) raw ≡ len ∷ body =
          drop_cons (offset + 1) raw 0 more
          ∙ ap (λ i. len ∷ drop i raw) {x = offset + 1 + 1} {y = offset + 2} (omega arith) in
        let guard : (ltb len 2 || ltb (suc (suc (length body))) len)
            ≡ (ltb len 2 || ltb (length raw) (offset + len)) =
          ground (arith, length-drop (offset + 2) raw) in
        rw (next, guard, gt→leb (length raw) (offset + 1) more, get_elem?_in raw (offset + 1) more)
          (elim (Bool-cases (ltb len 2 || ltb (length raw) (offset + len))) [
            | inl bad ↦ rw bad refl
            | inr good ↦
                let long : 2 ≤ len = ground arith in
                let inside : offset + len ≤ length raw = ground arith in
                let later : drop (len - 2) body ≡ drop (offset + len) raw =
                  drop-drop (offset + 2) (len - 2) raw
                  ∙ ap (λ i. drop i raw) {x = offset + 2 + (len - 2)} {y = offset + len}
                      (omega arith) in
                rw (good, assign_in raw offset len inside, later, ih (offset + len))
                  (bind_some (record { kind = kind; body = take (len - 2) body })
                    (read_rest fuel (drop (offset + len) raw)))
          ])
  ]

  round-rest :
      (offset : ℕ)
      → offset < length raw
      → round (parse_from fuel raw) raw offset ≡ read_rest (suc fuel) (drop offset raw)
  unfolding round read_rest
  round-rest offset h =
      let kind = get_or raw offset 0 in
      rw (drop_cons offset raw 0 h, get_elem?_in raw offset h)
        (elim (Bool-cases (kind == 0)) [
          | inl z ↦ rw z refl
          | inr z ↦ elim (Bool-cases (kind == 1)) [
            | inl o ↦ rw (z, o) (ih (offset + 1))
            | inr o ↦ rw (z, o) (read_option-rest offset kind h)
          ]
        ])

-- The loop from an offset on reads the bytes that follow it.
pub parse_from-rest :
    (fuel : ℕ) (raw : List ℕ) (offset : ℕ)
    → parse_from fuel raw offset ≡ read_rest fuel (drop offset raw)
unfolding parse_from read_rest
parse_from-rest zero raw offset = elim (dec_lt offset (length raw)) [
  | yes h ↦ rw (lt→ltb offset (length raw) h, drop_cons offset raw 0 h) refl
  | no h ↦ rw (le→ltb offset (length raw) (omega arith), drop_all offset raw (omega arith)) refl
]
parse_from-rest (suc fuel) raw offset = elim (dec_lt offset (length raw)) [
  | yes h ↦
      rw (lt→ltb offset (length raw) h) (round-rest fuel raw (parse_from-rest fuel raw) offset h)
  | no h ↦ rw (le→ltb offset (length raw) (omega arith), drop_all offset raw (omega arith)) refl
]

pub parse_options-rest : (raw : List ℕ) → parse_options raw ≡ read_rest (length raw) raw
unfolding parse_options
parse_options-rest raw = parse_from-rest (length raw) raw 0
