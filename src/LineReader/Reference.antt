-- ===== src/LineReader/Reference.antt =====
-- arataga/utils/line_extractor.hpp: the extractor against a plain description of the lines.
use arataga.Prelude.{
  ℕ, ◌≤◌, ◌≡◌, refl, sym, ap, Bool, true, false, List, [], ◌∷◌, ◌==◌, if◌then◌else◌, length, arith,
}
use arataga.Prelude.Eq.{Bytes}
use arataga.LineReader.{cr, is_crlf, is_space, before_eol, from_eol, skip_spaces}

-- The parts of a text after its ends of lines, where every carriage return and every line feed is
-- one.
abbrev later_parts : Bytes → List Bytes
later_parts [] = []
later_parts (c ∷ cs) = let rest = later_parts cs in if is_crlf c then before_eol cs ∷ rest else rest

abbrev keep : Bytes → List Bytes → List Bytes
keep [] ls = ls
keep (c ∷ cs) ls = if c == b'#' then ls else (c ∷ cs) ∷ ls

-- The parts without leading spaces, less those that are empty then or begin with a number sign.
abbrev clean : List Bytes → List Bytes
clean [] = []
clean (l ∷ ls) = keep (skip_spaces l) (clean ls)

abbrev pub lines_of : Bytes → List Bytes
lines_of text = clean (before_eol text ∷ later_parts text)

abbrev pub ends_in_cr : Bytes → Bool
ends_in_cr [] = false
ends_in_cr (c ∷ []) = c == cr
ends_in_cr (c ∷ d ∷ cs) = ends_in_cr (d ∷ cs)

pub ends_in_cr-tail : (c : ℕ) (cs : Bytes) → ends_in_cr (c ∷ cs) ≡ false → ends_in_cr cs ≡ false
ends_in_cr-tail c [] h = refl
ends_in_cr-tail c (d ∷ cs) h = h

-- A text that is left is no longer and ends like the text.
pub skip_spaces-rest :
    (text : Bytes)
    → ends_in_cr text ≡ false
    → (length (skip_spaces text) ≤ length text) × (ends_in_cr (skip_spaces text) ≡ false)
unfolding skip_spaces
skip_spaces-rest [] h = (omega arith, refl)
skip_spaces-rest (c ∷ cs) h = ground (arith, skip_spaces-rest cs (ends_in_cr-tail c cs h))

pub from_eol-rest :
    (text : Bytes)
    → ends_in_cr text ≡ false
    → (length (from_eol text) ≤ length text) × (ends_in_cr (from_eol text) ≡ false)
unfolding from_eol
from_eol-rest [] h = (omega arith, refl)
from_eol-rest (c ∷ cs) h = ground (arith, from_eol-rest cs (ends_in_cr-tail c cs h))

lines_of-from_eol : (text : Bytes) → lines_of (from_eol text) ≡ clean (later_parts text)
unfolding from_eol before_eol skip_spaces
lines_of-from_eol [] = refl
lines_of-from_eol (c ∷ cs) = ground (arith, lines_of-from_eol cs)

pub lines_of-skip_spaces : (text : Bytes) → lines_of (skip_spaces text) ≡ lines_of text
unfolding skip_spaces before_eol
lines_of-skip_spaces [] = refl
lines_of-skip_spaces (c ∷ cs) = ground (arith, lines_of-skip_spaces cs)

pub skip_spaces-head :
    (text : Bytes) (c : ℕ) (cs : Bytes) → skip_spaces text ≡ c ∷ cs → is_space c ≡ false
unfolding skip_spaces
skip_spaces-head [] c cs h = absurd (ground arith)
skip_spaces-head (d ∷ ds) c cs h = ground (arith, skip_spaces-head ds c cs)

-- What the first character of a line decides.
pub lines_of-eol : (c : ℕ) (cs : Bytes) → is_crlf c ≡ true → lines_of (c ∷ cs) ≡ lines_of cs
unfolding before_eol skip_spaces
lines_of-eol c cs h = rw h refl

pub lines_of-comment : (cs : Bytes) → lines_of (b'#' ∷ cs) ≡ lines_of (from_eol (b'#' ∷ cs))
unfolding before_eol skip_spaces from_eol
lines_of-comment cs = sym (lines_of-from_eol cs)

pub lines_of-line :
    (c : ℕ) (cs : Bytes)
    → is_space c ≡ false
    → (c == b'#') ≡ false
    → is_crlf c ≡ false
    → lines_of (c ∷ cs) ≡ before_eol (c ∷ cs) ∷ lines_of (from_eol (c ∷ cs))
unfolding before_eol skip_spaces from_eol
lines_of-line c cs s n e =
    rw (e, s, n) (ap (λ (l : List Bytes). (c ∷ before_eol cs) ∷ l) (sym (lines_of-from_eol cs)))
