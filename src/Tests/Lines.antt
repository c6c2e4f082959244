-- ===== src/Tests/Lines.antt =====
-- The lines of texts at concrete inputs.
use arataga.Prelude.{◌≡◌, refl, suc, true, ◌∷◌, [], length}
use arataga.Prelude.Eq.{Bytes}
use arataga.LineReader.{get_next, for_each_line, next_line, out_of_range}
use arataga.LineReader.Reference.{lines_of}
use arataga.LineReader.Extractor.{contents, for_each_line-lines_of}

abbrev text : Bytes
text = b'#' ∷ b'c' ∷ 13 ∷ 10 ∷ b' ' ∷ b'a' ∷ b'b' ∷ 10 ∷ 10 ∷ b'c' ∷ []

for_each_line-lines_of_example :
    let r = for_each_line (suc (length text)) 1 text in
    (contents r.lines ≡ lines_of text) × (r.complete ≡ true)
for_each_line-lines_of_example = for_each_line-lines_of text refl

two_lines :
    contents (for_each_line (suc (length text)) 1 text).lines
    ≡ (b'a' ∷ b'b' ∷ []) ∷ (b'c' ∷ []) ∷ []
unfolding for_each_line get_next
two_lines = refl

-- The second of two line feeds does not count: the line is the third one of the text.
third_line_is_second :
    get_next 5 1 (10 ∷ 10 ∷ b'c' ∷ []) ≡ next_line (record { content = b'c' ∷ []; number = 2 }) []
unfolding get_next
third_line_is_second = refl

lone_carriage_return : get_next 5 1 (13 ∷ []) ≡ out_of_range
unfolding get_next
lone_carriage_return = refl
