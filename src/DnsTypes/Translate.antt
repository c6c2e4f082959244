-- ===== src/DnsTypes/Translate.antt =====
-- arataga/dns_resolver/dns_types.hpp: what a translated name is.
use arataga.Prelude.{
  ℕ, zero, suc, ◌≤◌, ◌<◌, ◌≡◌, ◌≢◌, refl, sym, ap, ◌∙◌, ◌⊎◌, inl, inr, Bool, true, false, List, [],
  ◌∷◌, ◌++◌, arith, ltb, ◌==◌, length, append_assoc, Bool-cases, List-cases, All, ==_iff,
}
use arataga.Prelude.Eq.{Bytes}
use arataga.DnsTypes.{
  dot, take_label, translate_labels, translate, without_ending_dot, has_valid_length, translated,
  out_of_fuel, max_label_length,
}

abbrev pub IsLabel : Bytes → Type 0
IsLabel l = (0 < length l) × (length l ≤ 63)

-- The labels of a name as they stand in a package, and with a dot behind each.
abbrev pub encode : List Bytes → Bytes
encode [] = []
encode (l ∷ ls) = (length l ∷ l) ++ encode ls

abbrev pub dotted : List Bytes → Bytes
dotted [] = []
dotted (l ∷ ls) = l ++ (dot ∷ dotted ls)

-- A name with a dot at its end, if it is not empty.
abbrev pub closed : Bytes → Bytes
closed [] = []
closed (c ∷ cs) = (c ∷ cs) ++ (dot ∷ [])

abbrev label_of : Bytes → Bytes
label_of src = (take_label src).0

abbrev rest_of : Bytes → Bytes
rest_of src = (take_label src).1

abbrev dot_of : Bytes → Bool
dot_of src = (take_label src).2

take_label-parts :
    (src : Bytes)
    → ((dot_of src ≡ true) × (src ≡ label_of src ++ (dot ∷ rest_of src)))
      ⊎ ((dot_of src ≡ false) × (src ≡ label_of src) × (rest_of src ≡ []))
unfolding take_label
take_label-parts [] = inr (refl, refl, refl)
take_label-parts (c ∷ cs) = elim (Bool-cases (c == dot)) [
  | inl h ↦ inl (ground arith, ground (arith, ==_iff c dot))
  | inr h ↦ elim (take_label-parts cs) [
    | inl (d, e) ↦ inl (ground arith, ground arith)
    | inr (d, e, f) ↦ inr (ground arith, ground arith, ground arith)
  ]
]

rest_lt : (c : ℕ) (cs : Bytes) → length (rest_of (c ∷ cs)) ≤ length cs
unfolding take_label
rest_lt c [] = ground arith
rest_lt c (d ∷ ds) = ground (arith, rest_lt d ds)

-- The name is the label, and what is left behind a dot.
closed_parts :
    (fuel : ℕ) (c : ℕ) (cs longer v : Bytes)
    → translate_labels fuel (rest_of (c ∷ cs)) (dot_of (c ∷ cs)) longer ≡ translated v
    → label_of (c ∷ cs) ++ (dot ∷ closed (rest_of (c ∷ cs))) ≡ (c ∷ cs) ++ (dot ∷ [])
unfolding translate_labels
closed_parts fuel c cs longer v f = elim (take_label-parts (c ∷ cs)) [
  | inr (d, e, g) ↦
      ap (λ r. label_of (c ∷ cs) ++ (dot ∷ closed r)) g ∙ ap (λ l. l ++ (dot ∷ [])) (sym e)
  | inl (d, e) ↦ elim (List-cases (rest_of (c ∷ cs))) [
    | inl g ↦ ground arith
    | inr (x, xs, g) ↦
        ap (λ r. label_of (c ∷ cs) ++ (dot ∷ closed r)) g
        ∙ sym (append_assoc (label_of (c ∷ cs)) (dot ∷ x ∷ xs) (dot ∷ []))
        ∙ ap (λ r. (label_of (c ∷ cs) ++ (dot ∷ r)) ++ (dot ∷ [])) (sym g)
        ∙ ap (λ l. l ++ (dot ∷ [])) (sym e)
  ]
]

translate_labels-encode :
    (fuel : ℕ) (src : Bytes) (expects : Bool) (result v : Bytes)
    → translate_labels fuel src expects result ≡ translated v
    → (ls : List Bytes) × All IsLabel ls
      × (v ≡ result ++ (encode ls ++ (0 ∷ [])))
      × (dotted ls ≡ closed src)
unfolding translate_labels
translate_labels-encode fuel [] expects result v e = elim (Bool-cases expects) [
  | inl h ↦ ground arith
  | inr h ↦ ([], tt, ground arith, refl)
]
translate_labels-encode zero (c ∷ cs) expects result v e = ground arith
translate_labels-encode (suc fuel) (c ∷ cs) expects result v e =
    let src = c ∷ cs in
    let label = label_of src in
    let rest = rest_of src in
    let longer = result ++ (length label ∷ label) in
    elim (Bool-cases (length label == 0)) [
      | inl a ↦ ground arith
      | inr a ↦ elim (Bool-cases (ltb max_label_length (length label))) [
        | inl b ↦ ground arith
        | inr b ↦
            let f : translate_labels fuel rest (dot_of src) longer ≡ translated v = ground arith in
            let (ls, valid, e', d) = translate_labels-encode fuel rest (dot_of src) longer v f in
            (
              label ∷ ls,
              ((ground arith, ground arith), valid),
              e'
                  ∙ append_assoc result (length label ∷ label) (encode ls ++ (0 ∷ []))
                  ∙ ap (λ l. result ++ (length label ∷ l))
                      (sym (append_assoc label (encode ls) (0 ∷ []))),
              ap (λ l. label ++ (dot ∷ l)) d ∙ closed_parts fuel c cs longer v f,
            )
      ]
    ]

translate_labels-ends :
    (fuel : ℕ) (src : Bytes) (expects : Bool) (result : Bytes)
    → length src ≤ fuel
    → translate_labels fuel src expects result ≢ out_of_fuel
unfolding translate_labels
translate_labels-ends fuel [] expects result h = elim (Bool-cases expects) [
  | inl e ↦ λ f. ground arith
  | inr e ↦ λ f. ground arith
]
translate_labels-ends zero (c ∷ cs) expects result h = absurd (omega arith)
translate_labels-ends (suc fuel) (c ∷ cs) expects result h =
    let label = label_of (c ∷ cs) in
    let more =
      translate_labels-ends fuel (rest_of (c ∷ cs)) (dot_of (c ∷ cs))
        (result ++ (length label ∷ label)) (omega (arith, rest_lt c cs)) in
    elim (Bool-cases (length label == 0)) [
      | inl a ↦ λ f. ground arith
      | inr a ↦ elim (Bool-cases (ltb max_label_length (length label))) [
        | inl b ↦ λ f. ground arith
        | inr b ↦ λ f. more (ground arith)
      ]
    ]

without_ending_dot-le : (src : Bytes) → length (without_ending_dot src) ≤ length src
unfolding without_ending_dot
without_ending_dot-le [] = omega arith
without_ending_dot-le (c ∷ []) = ground arith
without_ending_dot-le (c ∷ d ∷ cs) = omega (arith, without_ending_dot-le (d ∷ cs))

-- The translation of a name is its labels, each behind its length, with a 0 at the end; a dot at
-- the end of the name makes no difference.
pub translate-encode :
    (src v : Bytes)
    → translate src ≡ translated v
    → (ls : List Bytes) × All IsLabel ls
      × (v ≡ encode ls ++ (0 ∷ []))
      × (dotted ls ≡ closed (without_ending_dot src))
unfolding translate
translate-encode src v e = elim (Bool-cases (has_valid_length src)) [
  | inl h ↦ translate_labels-encode (length src) (without_ending_dot src) false [] v (ground arith)
  | inr h ↦ ground arith
]

pub translate-ends : (src : Bytes) → translate src ≢ out_of_fuel
unfolding translate
translate-ends src = elim (Bool-cases (has_valid_length src)) [
  | inl h ↦ λ f.
      translate_labels-ends (length src) (without_ending_dot src) false []
        (without_ending_dot-le src) (ground arith)
  | inr h ↦ λ f. ground arith
]
