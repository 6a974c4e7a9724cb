-- ===== src/Ipv4/Options/RoundTrip.antt =====
-- The option parser ends on every input, keeps to the bytes it was given and reads back what the
-- option layout writes.
use wadjet_link.Prelude.{
  ℕ, zero, suc, ◌-◌, ◌<◌, ◌≤◌, ◌≡◌, refl, ap, ◌∙◌, sym, List, [], ◌∷◌, ◌++◌, ◌||◌, true, false,
  Option, some, ltb, if◌then◌else◌, length, take, drop, arith, append_assoc, Bool-cases, inl, inr,
  length-drop, length-take, length-append, take-append, drop-append, ne→==, le→ltb, subst, All,
  ℕ_discrete,
}
use mathlib.Core.Option
use wadjet_link.Ipv4.Options.{Ipv4Option, ParseOptionsResult, parse_options, push, stop}
use wadjet_link.Ipv4.Options.Suffix.{read_rest, parse_options-rest}

take-append-drop {ℓ} : {A : Type ℓ} (n : ℕ) (xs : List A) → take n xs ++ drop n xs ≡ xs
take-append-drop zero xs = refl
take-append-drop (suc n) [] = refl
take-append-drop (suc n) (x ∷ xs) = rw (take-append-drop n xs)

-- An option as RFC 791 lays it out: one byte for the two single-byte kinds, else kind, length, body.
abbrev pub option_bytes : Ipv4Option → List ℕ
option_bytes o = if ltb o.kind 2 then o.kind ∷ [] else o.kind ∷ suc (suc (length o.body)) ∷ o.body

abbrev pub options_bytes : List Ipv4Option → List ℕ
options_bytes [] = []
options_bytes (o ∷ os) = option_bytes o ++ options_bytes os

-- The parser ended, and what it pushed is laid out at the front of the bytes.
abbrev pub Covers : Option ParseOptionsResult → List ℕ → Type 0
Covers p raw =
    (r : ParseOptionsResult) × (rest : List ℕ) × (p ≡ some r)
    × (raw ≡ options_bytes r.options ++ rest)

Covers-push :
    (o : Ipv4Option) {p : Option ParseOptionsResult} {raw : List ℕ}
    → Covers p raw
    → Covers (Option.map (push o) p) (option_bytes o ++ raw)
Covers-push o (r, rest, e, f) = (
  push o r,
  rest,
  ap (Option.map (push o)) e,
  ap (◌++◌ (option_bytes o)) f ∙ sym (append_assoc (option_bytes o) _ rest),
)

-- A length byte that fits splits the rest into the body and what follows.
tlv_bytes :
    (kind len : ℕ) (body : List ℕ)
    → 2 ≤ kind
    → (ltb len 2 || ltb (suc (suc (length body))) len) ≡ false
    → option_bytes (record { kind = kind; body = take (len - 2) body }) ++ drop (len - 2) body
      ≡ kind ∷ len ∷ body
tlv_bytes kind len body h fits =
    ground (arith, length-take (len - 2) body, take-append-drop (len - 2) body)

tlv_Covers :
    (fuel kind : ℕ) (rest : List ℕ)
    → 2 ≤ kind
    → ((more : List ℕ) → length more ≤ length rest → Covers (read_rest fuel more) more)
    → Covers (read_rest (suc fuel) (kind ∷ rest)) (kind ∷ rest)
unfolding read_rest
tlv_Covers fuel kind [] h ih =
    rw (ne→== kind 0 (omega arith), ne→== kind 1 (omega arith))
      (stop true [], kind ∷ [], refl, refl)
tlv_Covers fuel kind (len ∷ body) h ih =
    rw (ne→== kind 0 (omega arith), ne→== kind 1 (omega arith))
      (elim (Bool-cases (ltb len 2 || ltb (suc (suc (length body))) len)) [
        | inl bad ↦ rw bad (stop true [], kind ∷ len ∷ body, refl, refl)
        | inr fits ↦ rw fits (
            subst (Covers _) (tlv_bytes kind len body h fits) (
              Covers-push (record { kind = kind; body = take (len - 2) body })
                (ih (drop (len - 2) body) (omega (arith, length-drop (len - 2) body)))))
      ])

read_rest-Covers : (fuel : ℕ) (raw : List ℕ) → length raw ≤ fuel → Covers (read_rest fuel raw) raw
unfolding read_rest
read_rest-Covers fuel [] h = (stop false [], [], refl, refl)
read_rest-Covers zero (kind ∷ rest) h = absurd (omega arith)
read_rest-Covers (suc fuel) (kind ∷ rest) h = elim (ℕ_discrete kind 0) [
  | yes e ↦ rw e (stop false (record { kind = 0; body = [] } ∷ []), rest, refl, refl)
  | no e ↦ elim (ℕ_discrete kind 1) [
    | yes e1 ↦
        rw e1
          (Covers-push (record { kind = 1; body = [] }) (read_rest-Covers fuel rest (omega arith)))
    | no e1 ↦
        tlv_Covers fuel kind rest (omega arith) (λ more k. read_rest-Covers fuel more (omega arith))
  ]
]

-- On every input the loop ends, and the options that it has pushed are, laid out one after the
-- other, the bytes at the front of the input: nothing is invented and nothing is skipped.
pub parse_options-Covers : (raw : List ℕ) → Covers (parse_options raw) raw
parse_options-Covers raw =
    rw (parse_options-rest raw) (read_rest-Covers (length raw) raw (omega arith))

-- An option that the layout can hold: a length byte of at most 255, no body for NOP, and not the
-- end of the list.
abbrev pub IsOption : Ipv4Option → Type 0
IsOption o = (1 ≤ o.kind) × (length o.body ≤ 253) × (o.kind ≡ 1 → o.body ≡ [])

abbrev pub eol : Ipv4Option
eol = record { kind = 0; body = [] }

-- One option in front is pushed: a NOP, and one with a length byte.
read_rest-nop :
    (fuel : ℕ) (rest : List ℕ) {r : ParseOptionsResult}
    → read_rest fuel rest ≡ some r
    → read_rest (suc fuel) (1 ∷ rest) ≡ some (push (record { kind = 1; body = [] }) r)
unfolding read_rest
read_rest-nop fuel rest e = rw e

fits :
    (body rest : List ℕ)
    → (ltb (suc (suc (length body))) 2
        || ltb (suc (suc (length (body ++ rest)))) (suc (suc (length body))))
      ≡ false
fits body rest = ground (arith, length-append body rest)

read_rest-tlv :
    (fuel kind : ℕ) (body rest : List ℕ) {r : ParseOptionsResult}
    → 2 ≤ kind
    → read_rest fuel rest ≡ some r
    → read_rest (suc fuel) (kind ∷ suc (suc (length body)) ∷ (body ++ rest))
      ≡ some (push (record { kind = kind; body = body }) r)
unfolding read_rest
read_rest-tlv fuel kind body rest h e =
    let two : suc (suc (length body)) - 2 ≡ length body = omega arith in
    rw
      (
        ne→== kind 0 (omega arith),
        ne→== kind 1 (omega arith),
        fits body rest,
        two,
        take-append body rest,
        drop-append body rest,
        e,
      )
      refl

read_rest-option :
    (fuel kind : ℕ) (body rest : List ℕ) {r : ParseOptionsResult}
    → IsOption (record { kind = kind; body = body })
    → read_rest fuel rest ≡ some r
    → read_rest (suc fuel) (option_bytes (record { kind = kind; body = body }) ++ rest)
      ≡ some (push (record { kind = kind; body = body }) r)
read_rest-option fuel kind body rest h e = elim (ℕ_discrete kind 1) [
  | yes one ↦ rw (one, h.2 one) (read_rest-nop fuel rest e)
  | no more ↦ rw (le→ltb kind 2 (omega arith)) (read_rest-tlv fuel kind body rest (omega arith) e)
]

read_rest-options_bytes :
    (fuel : ℕ) (os : List Ipv4Option) (padding : List ℕ)
    → All IsOption os
    → length os < fuel
    → read_rest fuel (options_bytes os ++ 0 ∷ padding) ≡ some (stop false (os ++ eol ∷ []))
read_rest-options_bytes zero os padding h k = elim k [ ]
read_rest-options_bytes (suc fuel) [] padding h k = unfold read_rest in refl
read_rest-options_bytes (suc fuel) (o ∷ os) padding h k =
    rw (append_assoc (option_bytes o) (options_bytes os) (0 ∷ padding)) (
      read_rest-option fuel o.kind o.body _ h.0
        (read_rest-options_bytes fuel os padding h.1 (omega arith)))

length-options_bytes : (os : List Ipv4Option) → length os ≤ length (options_bytes os)
length-options_bytes [] = omega arith
length-options_bytes (o ∷ os) =
    ground (arith, length-options_bytes os, length-append (o.body) (options_bytes os))

-- Options written by the layout of RFC 791, an end-of-list byte behind them and any padding, are
-- read back one by one with that end marker, and are not reported as malformed.
pub parse_options-options_bytes :
    (os : List Ipv4Option) (padding : List ℕ)
    → All IsOption os
    → parse_options (options_bytes os ++ 0 ∷ padding)
      ≡ some (record { options = os ++ eol ∷ []; malformed = false })
parse_options-options_bytes os padding h =
    rw (parse_options-rest (options_bytes os ++ 0 ∷ padding)) (
      read_rest-options_bytes _ os padding h
        (omega (arith, length-options_bytes os, length-append (options_bytes os) (0 ∷ padding))))
