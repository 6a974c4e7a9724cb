-- ===== src/Ipv4/Options/Suffix.antt =====
-- The option loop, which indexes its vector, against a reader of the bytes that are left: every read
-- of the loop lies inside the vector.
use wadjet_link.Prelude.{
  ℕ, zero, suc, ◌+◌, ◌-◌, ◌≤◌, ◌<◌, ◌≡◌, ◌∙◌, ap, refl, List, [], ◌∷◌, ◌||◌, true, false, Option,
  none, some, ltb, ◌==◌, if◌then◌else◌, length, take, drop, get_or, arith, Bool-cases, inl, inr,
  dec_lt, lt→ltb, le→ltb, le→leb, gt→leb, drop_all, drop_cons, drop-drop, length-drop,
}
use mathlib.Core.Option
use wadjet_link.Bytes.{◌>>=◌}
use wadjet_link.Decoder.Reads.{get_elem?_in}
use wadjet_link.Ipv4.Options.{
  Ipv4Option, ParseOptionsResult, push, stop, read_each, read_option, round, parse_from,
  parse_options,
}

-- An option whose kind was read, and the reader on the bytes that are left.
abbrev pub tlv_rest : (List ℕ → Option ParseOptionsResult) → ℕ → List ℕ → Option ParseOptionsResult
tlv_rest go kind [] = some (stop true [])
tlv_rest go kind (len ∷ body) =
    if ltb len 2 || ltb (suc (suc (length body))) len
    then some (stop true [])
    else Option.map (push (record { kind = kind; body = take (len - 2) body }))
        (go (drop (len - 2) body))

unfoldable pub read_rest : ℕ → List ℕ → Option ParseOptionsResult
read_rest fuel [] = some (stop false [])
read_rest zero (kind ∷ rest) = none
read_rest (suc fuel) (kind ∷ rest) =
    let after_nop = read_rest fuel rest in
    if kind == 0
    then some (stop false (record { kind = kind; body = [] } ∷ []))
    else if kind == 1
    then Option.map (push (record { kind = kind; body = [] })) after_nop
    else tlv_rest (read_rest fuel) kind rest

read_each_in :
    (n : ℕ) (raw : List ℕ) (j : ℕ)
    → j + n ≤ length raw
    → read_each n raw j ≡ some (take n (drop j raw))
unfolding read_each
read_each_in zero raw j h = refl
read_each_in (suc n) raw j h =
    rw
      (
        get_elem?_in raw j (omega arith),
        read_each_in n raw (j + 1) (omega arith),
        drop_cons j raw 0 (omega arith),
      )
      refl

body_in :
    (raw : List ℕ) (i len : ℕ)
    → i + len ≤ length raw
    → (if ltb 2 len then read_each (len - 2) raw (i + 2) else some [])
      ≡ some (take (len - 2) (drop (i + 2) raw))
body_in raw i len h = ground (arith, read_each_in (len - 2) raw (i + 2))

bind_some :
    (o : Ipv4Option) (x : Option ParseOptionsResult)
    → (x >>= λ rest. some (push o rest)) ≡ Option.map (push o) x
bind_some o none = refl
bind_some o (some rest) = refl

module _ (fuel : ℕ) (raw : List ℕ)
    (ih : (i : ℕ) → parse_from fuel raw i ≡ read_rest fuel (drop i raw)) where
  read_option-rest :
      (i kind : ℕ)
      → i < length raw
      → read_option (parse_from fuel raw) raw i kind
        ≡ tlv_rest (read_rest fuel) kind (drop (i + 1) raw)
  unfolding read_option
  read_option-rest i kind h = elim (dec_lt (i + 1) (length raw)) [
    | no end ↦
        rw (le→leb (length raw) (i + 1) (omega arith), drop_all (i + 1) raw (omega arith)) refl
    | yes more ↦
        let len = get_or raw (i + 1) 0 in
        let body = drop (i + 2) raw in
        let next : drop (i + 1) raw ≡ len ∷ body =
          drop_cons (i + 1) raw 0 more
          ∙ ap (λ k. len ∷ drop k raw) {x = i + 1 + 1} {y = i + 2} (omega arith) in
        let guard : (ltb len 2 || ltb (suc (suc (length body))) len)
            ≡ (ltb len 2 || ltb (length raw) (i + len)) =
          ground (arith, length-drop (i + 2) raw) in
        rw (next, guard, gt→leb (length raw) (i + 1) more, get_elem?_in raw (i + 1) more)
          (elim (Bool-cases (ltb len 2 || ltb (length raw) (i + len))) [
            | inl bad ↦ rw bad refl
            | inr good ↦
                let long : 2 ≤ len = ground arith in
                let inside : i + len ≤ length raw = ground arith in
                let later : drop (len - 2) body ≡ drop (i + len) raw =
                  drop-drop (i + 2) (len - 2) raw
                  ∙ ap (λ k. drop k raw) {x = i + 2 + (len - 2)} {y = i + len} (omega arith) in
                rw (good, body_in raw i len inside, later, ih (i + len))
                  (bind_some (record { kind = kind; body = take (len - 2) body })
                    (read_rest fuel (drop (i + len) raw)))
          ])
  ]

  round-rest :
      (i : ℕ)
      → i < length raw
      → round (parse_from fuel raw) raw i ≡ read_rest (suc fuel) (drop i raw)
  unfolding round read_rest
  round-rest i h =
      let kind = get_or raw i 0 in
      rw (drop_cons i raw 0 h, get_elem?_in raw i h)
        (elim (Bool-cases (kind == 0)) [
          | inl z ↦ rw z refl
          | inr z ↦ elim (Bool-cases (kind == 1)) [
            | inl o ↦
                rw (z, o) (ap (Option.map (push (record { kind = kind; body = [] }))) (ih (i + 1)))
            | inr o ↦ rw (z, o) (read_option-rest i kind h)
          ]
        ])

-- The loop from an i on reads the bytes that follow it.
pub parse_from-rest :
    (fuel : ℕ) (raw : List ℕ) (i : ℕ) → parse_from fuel raw i ≡ read_rest fuel (drop i raw)
unfolding parse_from read_rest
parse_from-rest zero raw i = elim (dec_lt i (length raw)) [
  | yes h ↦ rw (lt→ltb i (length raw) h, drop_cons i raw 0 h) refl
  | no h ↦ rw (le→ltb i (length raw) (omega arith), drop_all i raw (omega arith)) refl
]
parse_from-rest (suc fuel) raw i = elim (dec_lt i (length raw)) [
  | yes h ↦ rw (lt→ltb i (length raw) h) (round-rest fuel raw (parse_from-rest fuel raw) i h)
  | no h ↦ rw (le→ltb i (length raw) (omega arith), drop_all i raw (omega arith)) refl
]

pub parse_options-rest : (raw : List ℕ) → parse_options raw ≡ read_rest (length raw) raw
unfolding parse_options
parse_options-rest raw = parse_from-rest (length raw) raw 0
