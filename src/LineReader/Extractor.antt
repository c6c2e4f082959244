-- ===== src/LineReader/Extractor.antt =====
-- arataga/utils/line_extractor.hpp and arataga/utils/line_reader.hpp: the loops give the lines of
-- the description.
use arataga.Prelude.{
  ℕ, zero, suc, ◌+◌, ◌≤◌, ◌<◌, ◌≡◌, refl, sym, ap, ◌∙◌, true, false, List, [], ◌∷◌, ◌==◌, ==_iff,
  if◌then◌else◌, length, map, arith, Bool-cases, inl, inr, subst,
}
use arataga.Prelude.Eq.{Bytes}
use arataga.LineReader.{
  lf, is_crlf, is_space, before_eol, from_eol, skip_spaces, Line, Next, next_line, end_of_file,
  out_of_range, out_of_fuel, removed, read_behind_end, handle_eol, get_next, Lines, for_each_line,
}
use arataga.LineReader.Reference.{
  lines_of, ends_in_cr, ends_in_cr-tail, skip_spaces-rest, from_eol-rest, lines_of-skip_spaces,
  skip_spaces-head, lines_of-eol, lines_of-comment, lines_of-line,
}

-- What a result says of the text.
abbrev Found : Next → Bytes → Type 0
Found (next_line l rest) text =
    (lines_of text ≡ l.content ∷ lines_of rest)
    × (length rest < length text)
    × (ends_in_cr rest ≡ false)
Found end_of_file text = lines_of text ≡ []
Found out_of_range text = ⊥
Found out_of_fuel text = ⊥

Found-from :
    (r : Next) (t u : Bytes) → lines_of t ≡ lines_of u → length u ≤ length t → Found r u → Found r t
Found-from (next_line l rest) t u e h f = (e ∙ f.0, omega (arith, f.1, h), f.2)
Found-from end_of_file t u e h f = e ∙ f
Found-from out_of_range t u e h f = f
Found-from out_of_fuel t u e h f = f

from_eol-shorter :
    (c : ℕ) (cs : Bytes)
    → is_crlf c ≡ false
    → ends_in_cr (c ∷ cs) ≡ false
    → (length (from_eol (c ∷ cs)) ≤ length cs) × (ends_in_cr (from_eol (c ∷ cs)) ≡ false)
unfolding from_eol
from_eol-shorter c cs e h = rw e (from_eol-rest cs (ends_in_cr-tail c cs h))

-- The rounds of the loop for each kind of a first character.
abbrev round : ℕ → ℕ → Bytes → Next
round fuel n [] = end_of_file
round fuel n (front_ch ∷ cs) =
    if front_ch == b'#'
    then get_next fuel n (from_eol (front_ch ∷ cs))
    else if is_crlf front_ch
    then elim (handle_eol front_ch cs) [
      | removed rest ↦ get_next fuel (n + 1) rest
      | read_behind_end ↦ out_of_range
    ]
    else next_line (record { content = before_eol (front_ch ∷ cs); number = n })
        (from_eol (front_ch ∷ cs))

abbrev Searches : ℕ → Type 0
Searches fuel =
    (n : ℕ) (t : Bytes) → length t < fuel → ends_in_cr t ≡ false → Found (get_next fuel n t) t

comment-Found :
    (fuel n : ℕ) (cs : Bytes)
    → Searches fuel
    → length cs < fuel
    → ends_in_cr (b'#' ∷ cs) ≡ false
    → Found (get_next fuel n (from_eol (b'#' ∷ cs))) (b'#' ∷ cs)
comment-Found fuel n cs finds h ok =
    let (short, ok') = from_eol-shorter b'#' cs refl ok in
    let rest = from_eol (b'#' ∷ cs) in
    Found-from (get_next fuel n rest) (b'#' ∷ cs) rest (lines_of-comment cs) (omega (arith, short))
      (finds n rest (omega (arith, short, h)) ok')

eol-Found :
    (fuel n c : ℕ) (cs : Bytes)
    → Searches fuel
    → length cs < fuel
    → ends_in_cr (c ∷ cs) ≡ false
    → is_crlf c ≡ true
    → Found
        (elim (handle_eol c cs) [
          | removed rest ↦ get_next fuel (n + 1) rest
          | read_behind_end ↦ out_of_range
        ])
        (c ∷ cs)
unfolding handle_eol
eol-Found fuel n c [] finds h ok e = rw ok (
    Found-from (get_next fuel (n + 1) []) (c ∷ []) [] (lines_of-eol c [] e) (omega arith)
      (finds (n + 1) [] (omega (arith, h)) refl))
eol-Found fuel n c (d ∷ ds) finds h ok e = elim (Bool-cases (d == lf)) [
  | inl feed ↦ rw feed (
      Found-from (get_next fuel (n + 1) ds) (c ∷ d ∷ ds) ds
        (lines_of-eol c (d ∷ ds) e ∙ lines_of-eol d ds (ground arith)) (omega arith)
        (finds (n + 1) ds (omega (arith, h)) (ends_in_cr-tail d ds ok)))
  | inr other ↦ rw other (
      Found-from (get_next fuel (n + 1) (d ∷ ds)) (c ∷ d ∷ ds) (d ∷ ds) (lines_of-eol c (d ∷ ds) e)
        (omega arith) (finds (n + 1) (d ∷ ds) h ok))
]

no_lines : lines_of [] ≡ []
unfolding before_eol skip_spaces
no_lines = refl

round-Found :
    (fuel n : ℕ) (s : Bytes)
    → Searches fuel
    → length s < suc fuel
    → ends_in_cr s ≡ false
    → ((c : ℕ) (cs : Bytes) → s ≡ c ∷ cs → is_space c ≡ false)
    → Found (round fuel n s) s
round-Found fuel n [] finds h ok head = no_lines
round-Found fuel n (c ∷ cs) finds h ok head = elim (Bool-cases (c == b'#')) [
  | inl comment ↦ rw comment (
      subst (λ x. Found (get_next fuel n (from_eol (x ∷ cs))) (x ∷ cs))
        (sym ((==_iff c b'#').0 comment))
        (comment-Found fuel n cs finds (omega (arith, h))
          (subst (λ x. ends_in_cr (x ∷ cs) ≡ false) ((==_iff c b'#').0 comment) ok)))
  | inr other ↦ rw other (elim (Bool-cases (is_crlf c)) [
    | inl e ↦ rw e (eol-Found fuel n c cs finds (omega (arith, h)) ok e)
    | inr e ↦
        let (short, ok') = from_eol-shorter c cs e ok in
        rw e (lines_of-line c cs (head c cs refl) other e, omega (arith, short), ok')
  ])
]

get_next-Found : (fuel : ℕ) → Searches fuel
unfolding get_next
get_next-Found zero n t h ok = absurd (omega (arith, h))
get_next-Found (suc fuel) n t h ok =
    let (short, ok') = skip_spaces-rest t ok in
    Found-from (round fuel n (skip_spaces t)) t (skip_spaces t) (sym (lines_of-skip_spaces t)) short
      (round-Found fuel n (skip_spaces t) (get_next-Found fuel) (omega (arith, short, h)) ok'
        (λ c cs e. skip_spaces-head t c cs e))

abbrev pub contents : List Line → List Bytes
contents lines = map (λ (l : Line). l.content) lines

-- What `for_each_line` does with a result.
abbrev continue_with : ℕ → Next → Lines
continue_with fuel (next_line line rest) =
    let others = for_each_line fuel line.number rest in
    record { lines = line ∷ others.lines; complete = others.complete }
continue_with fuel end_of_file = record { lines = []; complete = true }
continue_with fuel _ = record { lines = []; complete = false }

abbrev Reads : ℕ → Type 0
Reads fuel =
    (n : ℕ) (text : Bytes)
    → length text < fuel
    → ends_in_cr text ≡ false
    → (contents (for_each_line fuel n text).lines ≡ lines_of text)
      × ((for_each_line fuel n text).complete ≡ true)

continue_with-Found :
    (fuel : ℕ) (r : Next) (text : Bytes)
    → Reads fuel
    → length text < suc fuel
    → Found r text
    → (contents (continue_with fuel r).lines ≡ lines_of text)
      × ((continue_with fuel r).complete ≡ true)
continue_with-Found fuel (next_line l rest) text reads h f =
    let (same, whole) = reads l.number rest (omega (arith, h, f.1)) (f.2) in
    (ap (λ (ls : List Bytes). l.content ∷ ls) same ∙ sym (f.0), whole)
continue_with-Found fuel end_of_file text reads h f = (sym f, refl)
continue_with-Found fuel out_of_range text reads h f = absurd f
continue_with-Found fuel out_of_fuel text reads h f = absurd f

for_each_line-Reads : (fuel : ℕ) → Reads fuel
unfolding for_each_line
for_each_line-Reads zero n text h ok = absurd (omega (arith, h))
for_each_line-Reads (suc fuel) n text h ok =
    continue_with-Found fuel (get_next (suc (length text)) n text) text (for_each_line-Reads fuel) h
      (get_next-Found (suc (length text)) n text (omega arith) ok)

-- The lines that are read are those of the description, in their order, and the text is read to its
-- end, if it does not end in a carriage return. The description takes every carriage return and
-- every line feed as an end of line, removes leading spaces, and leaves out what is empty then or
-- begins with a number sign.
pub for_each_line-lines_of :
    (text : Bytes)
    → ends_in_cr text ≡ false
    → let r = for_each_line (suc (length text)) 1 text in
      (contents r.lines ≡ lines_of text) × (r.complete ≡ true)
for_each_line-lines_of text ok = for_each_line-Reads (suc (length text)) 1 text (omega arith) ok
