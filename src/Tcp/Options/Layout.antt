-- ===== src/Tcp/Options/Layout.antt =====
-- The option parser ends on every input, and reads back options that are laid out as RFC 793 says.
use wadjet_link.Prelude.{
  ℕ, zero, suc, ◌+◌, ◌-◌, ◌<◌, ◌≤◌, ◌≡◌, refl, List, [], ◌∷◌, ◌++◌, ◌||◌, Option, some, ltb, length,
  take, drop, arith, append_assoc, Bool-cases, inl, inr, false, length-drop, length-take,
  length-append, take-append, drop-append, ne→==, All, ℕ_discrete, ◌∙◌,
}
use wadjet_link.Tcp.Options.{TcpOption, parse_options}
use wadjet_link.Tcp.Options.Suffix.{read_rest, parse_options-rest}

-- How many bytes the options take up.
abbrev pub size_of : List TcpOption → ℕ
size_of [] = 0
size_of (o ∷ os) = 2 + length o.body + size_of os

-- The loop ended; each option that it pushed has a length byte, and together they fit.
abbrev pub IsParsed : Option (List TcpOption) → List ℕ → Type 0
IsParsed p raw =
    (os : List TcpOption) × (p ≡ some os)
    × (size_of os ≤ length raw)
    × All (λ (o : TcpOption). 2 ≤ o.kind) os

tlv-IsParsed :
    (fuel kind : ℕ) (rest : List ℕ)
    → 2 ≤ kind
    → ((more : List ℕ) → length more ≤ length rest → IsParsed (read_rest fuel more) more)
    → IsParsed (read_rest (suc fuel) (kind ∷ rest)) (kind ∷ rest)
unfolding read_rest
tlv-IsParsed fuel kind [] h ih =
    rw (ne→== kind 0 (omega arith), ne→== kind 1 (omega arith)) ([], refl, omega arith, tt)
tlv-IsParsed fuel kind (len ∷ body) h ih =
    rw (ne→== kind 0 (omega arith), ne→== kind 1 (omega arith))
      (elim (Bool-cases (ltb len 2 || ltb (suc (suc (length body))) len)) [
        | inl bad ↦ rw bad ([], refl, omega arith, tt)
        | inr fits ↦
            let (os, e, s, k) =
              ih (drop (len - 2) body) (omega (arith, length-drop (len - 2) body)) in
            let o : TcpOption = record { kind = kind; body = take (len - 2) body } in
            rw (fits, e)
              (
                o ∷ os,
                refl,
                ground (arith, length-drop (len - 2) body, length-take (len - 2) body),
                (h, k),
              )
      ])

read_rest-IsParsed :
    (fuel : ℕ) (raw : List ℕ) → length raw ≤ fuel → IsParsed (read_rest fuel raw) raw
unfolding read_rest
read_rest-IsParsed fuel [] h = ([], refl, omega arith, tt)
read_rest-IsParsed zero (kind ∷ rest) h = absurd (omega arith)
read_rest-IsParsed (suc fuel) (kind ∷ rest) h = elim (ℕ_discrete kind 0) [
  | yes e ↦ rw e ([], refl, omega arith, tt)
  | no e ↦ elim (ℕ_discrete kind 1) [
    | yes e1 ↦
        let (os, p, s, k) = read_rest-IsParsed fuel rest (omega arith) in
        rw (e1, p) (os, refl, omega arith, k)
    | no e1 ↦
        tlv-IsParsed fuel kind rest (omega arith)
          (λ more k. read_rest-IsParsed fuel more (omega arith))
  ]
]

-- On every input the option loop ends; no padding byte is taken for an option, and the options with
-- their kind and length bytes are no longer than the input.
pub parse_options-IsParsed : (raw : List ℕ) → IsParsed (parse_options raw) raw
parse_options-IsParsed raw =
    rw (parse_options-rest raw) (read_rest-IsParsed (length raw) raw (omega arith))

-- What may stand in the options area before its end: padding, or an option.
pub data Item : Type 0 where
  no_operation : Item
  option : TcpOption → Item

abbrev pub items_bytes : List Item → List ℕ
items_bytes [] = []
items_bytes (no_operation ∷ is) = 1 ∷ items_bytes is
items_bytes (option o ∷ is) = o.kind ∷ suc (suc (length o.body)) ∷ (o.body ++ items_bytes is)

abbrev pub options_of : List Item → List TcpOption
options_of [] = []
options_of (no_operation ∷ is) = options_of is
options_of (option o ∷ is) = o ∷ options_of is

abbrev pub IsItem : Item → Type 0
IsItem no_operation = Unit {0}
IsItem (option o) = (2 ≤ o.kind) × (length o.body ≤ 253)

fits :
    (body rest : List ℕ)
    → (ltb (suc (suc (length body))) 2
        || ltb (suc (suc (length (body ++ rest)))) (suc (suc (length body))))
      ≡ false
fits body rest = ground (arith, length-append body rest)

read_rest-tlv :
    (fuel kind : ℕ) (body rest : List ℕ) {os : List TcpOption}
    → 2 ≤ kind
    → read_rest fuel rest ≡ some os
    → read_rest (suc fuel) (kind ∷ suc (suc (length body)) ∷ (body ++ rest))
      ≡ some (record { kind = kind; body = body } ∷ os)
unfolding read_rest
read_rest-tlv fuel kind body rest h e =
    let two : suc (suc (length body)) - 2 ≡ length body = omega arith in
    rw
      (
        ne→== kind 0 (omega arith),
        ne→== kind 1 (omega arith),
        fits body rest,
        two,
        take-append body rest,
        drop-append body rest,
        e,
      )
      refl

read_rest-nop : (fuel : ℕ) (rest : List ℕ) → read_rest (suc fuel) (1 ∷ rest) ≡ read_rest fuel rest
unfolding read_rest
read_rest-nop fuel rest = refl

read_rest-items :
    (fuel : ℕ) (is : List Item) (padding : List ℕ)
    → All IsItem is
    → length is < fuel
    → read_rest fuel (items_bytes is ++ 0 ∷ padding) ≡ some (options_of is)
read_rest-items zero is padding h k = elim k [ ]
read_rest-items (suc fuel) [] padding h k = unfold read_rest in refl
read_rest-items (suc fuel) (no_operation ∷ is) padding h k =
    read_rest-nop fuel _ ∙ read_rest-items fuel is padding h.1 (omega arith)
read_rest-items (suc fuel) (option o ∷ is) padding h k =
    rw (append_assoc o.body (items_bytes is) (0 ∷ padding))
      (read_rest-tlv fuel o.kind o.body _ h.0.0 (read_rest-items fuel is padding h.1 (omega arith)))

length-items_bytes : (is : List Item) → length is ≤ length (items_bytes is)
length-items_bytes [] = omega arith
length-items_bytes (no_operation ∷ is) = omega (arith, length-items_bytes is)
length-items_bytes (option o ∷ is) =
    omega (arith, length-items_bytes is, length-append o.body (items_bytes is))

-- Options and no-operation bytes in any order, with an end-of-options byte and any padding behind
-- them, are read back as exactly those options.
pub parse_options-items_bytes :
    (is : List Item) (padding : List ℕ)
    → All IsItem is
    → parse_options (items_bytes is ++ 0 ∷ padding) ≡ some (options_of is)
parse_options-items_bytes is padding h = rw (parse_options-rest (items_bytes is ++ 0 ∷ padding)) (
    read_rest-items _ is padding h
      (omega (arith, length-items_bytes is, length-append (items_bytes is) (0 ∷ padding))))
