-- ===== src/LineReader.antt =====
-- arataga/utils/line_extractor.hpp and arataga/utils/line_reader.hpp: the lines of a text without
-- comments and empty lines.
--
-- The view of the text that is left is its bytes. `out_of_range` is the read behind the end of the
-- view that `handle_eol` makes for a last carriage return. The loops run on fuel; the length of
-- the text and one more step are enough.
pub mod Reference
pub mod Extractor
use arataga.Prelude.{
  ℕ, zero, suc, ◌+◌, ◌≡◌, Bool, true, false, ◌||◌, List, [], ◌∷◌, ◌==◌, if◌then◌else◌, length,
}
use arataga.Prelude.Eq.{Bytes}

abbrev pub cr : ℕ
cr = 13

abbrev pub lf : ℕ
lf = 10

abbrev pub is_crlf : ℕ → Bool
is_crlf c = (c == cr) || (c == lf)

-- Space, tab and vertical tab.
abbrev pub is_space : ℕ → Bool
is_space c = (c == 32) || ((c == 9) || (c == 11))

-- The text before the first end of line, and the text from it on.
unfoldable pub before_eol : Bytes → Bytes
before_eol [] = []
before_eol (c ∷ cs) = let rest = before_eol cs in if is_crlf c then [] else c ∷ rest

unfoldable pub from_eol : Bytes → Bytes
from_eol [] = []
from_eol (c ∷ cs) = let rest = from_eol cs in if is_crlf c then c ∷ cs else rest

unfoldable pub skip_spaces : Bytes → Bytes
skip_spaces [] = []
skip_spaces (c ∷ cs) = let rest = skip_spaces cs in if is_space c then rest else c ∷ cs

pub record Line : Type 0 where
  pub content : Bytes
  pub number : ℕ

pub data Next : Type 0 where
  next_line : (line : Line) (rest : Bytes) → Next
  end_of_file out_of_range out_of_fuel : Next

pub data Eol : Type 0 where
  removed : Bytes → Eol
  read_behind_end : Eol

-- What `handle_eol` leaves. The test of the source holds for every text of two characters.
unfoldable pub handle_eol : ℕ → Bytes → Eol
handle_eol front_ch [] = if front_ch == cr then read_behind_end else removed []
handle_eol front_ch (second ∷ rest) = if second == lf then removed rest else removed (second ∷ rest)

-- One more round of the loop of `get_next`, on the text from the first character that is no space.
unfoldable pub get_next : ℕ → ℕ → Bytes → Next
unfolding skip_spaces before_eol from_eol handle_eol
get_next zero line_number content = out_of_fuel
get_next (suc fuel) line_number content = elim (skip_spaces content) [
  | [] ↦ end_of_file
  | front_ch ∷ cs ↦
      if front_ch == b'#'
      then get_next fuel line_number (from_eol (front_ch ∷ cs))
      else if is_crlf front_ch
      then elim (handle_eol front_ch cs) [
        | removed rest ↦ get_next fuel (line_number + 1) rest
        | read_behind_end ↦ out_of_range
      ]
      else next_line (record { content = before_eol (front_ch ∷ cs); number = line_number })
          (from_eol (front_ch ∷ cs))
]

-- What the handler of `for_each_line` is called with, and whether the text is read to its end.
pub record Lines : Type 0 where
  pub lines : List Line
  pub complete : Bool

unfoldable pub for_each_line : ℕ → ℕ → Bytes → Lines
unfolding get_next
for_each_line zero line_number content = record { lines = []; complete = false }
for_each_line (suc fuel) line_number content =
    elim (get_next (suc (length content)) line_number content) [
      | next_line line rest ↦
          let others = for_each_line fuel line.number rest in
          record { lines = line ∷ others.lines; complete = others.complete }
      | end_of_file ↦ record { lines = []; complete = true }
      | _ ↦ record { lines = []; complete = false }
    ]
