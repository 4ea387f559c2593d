-- ===== src/Patch/Examples.antt =====
-- An answer with one block.
use auto_dev_os.Base.{◌≡◌, refl, [], ◌∷◌, ◌==◌, map}
use auto_dev_os.Patch.{
  Strings, parse_search_replace, search_marker, middle_marker, replace_marker, path_of, clean_path,
  is_fence,
}
use auto_dev_os.Patch.RoundTrip.{
  Edit, block_of, ReadsMarkers, IsPrintable, print_edit, print_edits, parse-print,
}

abbrev edit : Edit
edit = record { path = "main.go"; old_lines = "x := 1" ∷ []; new_lines = "x := 2" ∷ "y := 3" ∷ [] }

-- Texts without space around the lines, and this one answer.
abbrev plain : Strings
plain = record {
  split = λ text.
      "main.go" ∷ search_marker ∷ "x := 1" ∷ middle_marker ∷ "x := 2" ∷ "y := 3" ∷ replace_marker
      ∷ [];
  trim = λ text. text;
  has_prefix = λ text prefix. text == prefix;
  trim_prefix = λ text prefix. text;
  trim_suffix = λ text suffix. text;
}

plain-ReadsMarkers : ReadsMarkers plain
unfolding ◌==◌
plain-ReadsMarkers = record { reads_search = refl; reads_middle = refl; reads_replace = refl }

edit-IsPrintable : IsPrintable plain edit
unfolding ◌==◌ path_of clean_path is_fence
edit-IsPrintable = record {
  trimmed = refl;
  no_marker = refl;
  no_fence = refl;
  clean = refl;
  old_plain = (refl, tt);
  new_plain = (refl, (refl, tt));
}

parse-print_example : parse_search_replace plain "answer" ≡ map block_of (edit ∷ [])
unfolding print_edit print_edits
parse-print_example =
    parse-print plain (edit ∷ []) "answer" plain-ReadsMarkers (edit-IsPrintable, tt) refl
