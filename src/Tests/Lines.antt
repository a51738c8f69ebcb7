-- ===== src/Tests/Lines.antt =====
-- Lines of a job file with comments.
use x_cuter.Common.{◌≡◌, refl, true, [], ◌∷◌, Bytes, codes}
use x_cuter.Job.Comments.Literals.{outside, without_comment, is_plain}
use x_cuter.Job.Comments.Scanner.{cut_line-without_comment}
use x_cuter.Job.Comments.{
  cut_line, cut_from, index_of, is_even, count_quotes, count_escaped, remove_line_comments,
}

abbrev address : Bytes
address = codes "\"a\": \"http://x\\\"y\", // the // address"

address-cut : cut_line address ≡ codes "\"a\": \"http://x\\\"y\", "
unfolding cut_line cut_from index_of is_even count_quotes count_escaped
address-cut = refl

address-is_plain : is_plain outside address ≡ true
unfolding is_plain
address-is_plain = refl

cut_line-without_comment_example : cut_line address ≡ without_comment outside address
cut_line-without_comment_example = cut_line-without_comment address address-is_plain

-- An escaped backslash at the end of a literal: its quote is taken for an escaped one, and the
-- comment is kept.
abbrev folder : Bytes
folder = codes "\"C:\\\\\" // c"

folder-kept : cut_line folder ≡ folder
unfolding cut_line cut_from index_of is_even count_quotes count_escaped
folder-kept = refl

folder-without_comment : without_comment outside folder ≡ codes "\"C:\\\\\" "
unfolding without_comment
folder-without_comment = refl

-- The ends of the lines are not written.
two_lines : remove_line_comments (codes "{ // begin" ∷ codes "}" ∷ []) ≡ codes "{ }"
unfolding remove_line_comments cut_line cut_from index_of is_even count_quotes count_escaped
two_lines = refl
