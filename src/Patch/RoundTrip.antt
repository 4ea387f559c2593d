-- ===== src/Patch/RoundTrip.antt =====
-- `ParseSearchReplace` of server/internal/orchestrator/patch/search_replace.go on blocks that are
-- written in the form that its comment describes.
use auto_dev_os.Base.{
  String, ◌≡◌, refl, sym, ap, ◌∙◌, true, false, List, [], ◌∷◌, ◌++◌, map, All, append-nil,
  append_assoc,
}
use auto_dev_os.Patch.{
  EditBlock, Strings, Parser, normal, search, replace, search_marker, middle_marker, replace_marker,
  side, path_of, is_fence, parse_line, parse_lines, start_parser, parse_search_replace,
}

-- A block as its lines.
pub record Edit : Type 0 where
  pub path : String
  pub old_lines : List String
  pub new_lines : List String

pub block_of : Edit → EditBlock
block_of edit = record {
  filepath = edit.path;
  search = side edit.old_lines;
  replace = side edit.new_lines;
}

-- The lines of a block, below the path of its file.
unfoldable pub print_edit : Edit → List String
print_edit edit =
    edit.path
    ∷ search_marker
    ∷ (edit.old_lines ++ (middle_marker ∷ (edit.new_lines ++ (replace_marker ∷ []))))

unfoldable pub print_edits : List Edit → List String
print_edits [] = []
print_edits (edit ∷ rest) = print_edit edit ++ print_edits rest

-- The three markers are read as such.
pub record ReadsMarkers (strings : Strings) : Type 0 where
  pub reads_search : strings.has_prefix (strings.trim search_marker) search_marker ≡ true
  pub reads_middle : strings.has_prefix (strings.trim middle_marker) middle_marker ≡ true
  pub reads_replace : strings.has_prefix (strings.trim replace_marker) replace_marker ≡ true

-- The path is bare, and no line of the block looks like the marker that ends its side.
pub record IsPrintable (strings : Strings) (edit : Edit) : Type 0 where
  pub trimmed : strings.trim edit.path ≡ edit.path
  pub no_marker : strings.has_prefix edit.path search_marker ≡ false
  pub no_fence : is_fence edit.path ≡ false
  pub clean : path_of strings edit.path ≡ edit.path
  pub old_plain :
      All (λ line. strings.has_prefix (strings.trim line) middle_marker ≡ false) edit.old_lines
  pub new_plain :
      All (λ line. strings.has_prefix (strings.trim line) replace_marker ≡ false) edit.new_lines

module _ (strings : Strings) where
  parse_lines-append :
      (xs ys : List String) (p : Parser)
      → parse_lines strings (xs ++ ys) p ≡ parse_lines strings ys (parse_lines strings xs p)
  unfolding parse_lines
  parse_lines-append [] ys p = refl
  parse_lines-append (x ∷ xs) ys p = parse_lines-append xs ys (parse_line strings x p)

  module _ (blocks : List EditBlock) (path last : String) where
    searching : List String → List String → Parser
    searching olds news = record {
      state = search;
      blocks = blocks;
      filepath = path;
      search_lines = olds;
      replace_lines = news;
      last_non_empty_line = last;
    }

    replacing : List String → List String → Parser
    replacing olds news = record (searching olds news) { state = replace }

    read_old :
        (lines olds news : List String)
        → All (λ line. strings.has_prefix (strings.trim line) middle_marker ≡ false) lines
        → parse_lines strings lines (searching olds news) ≡ searching (olds ++ lines) news
    unfolding parse_lines parse_line searching
    read_old [] olds news h = ap (λ l. searching l news) (sym (append-nil olds))
    read_old (line ∷ rest) olds news h =
        rw (h.0, parse_line)
          (read_old rest (olds ++ (line ∷ [])) news h.1
            ∙ ap (λ l. searching l news) (append_assoc olds (line ∷ []) rest))

    read_new :
        (lines olds news : List String)
        → All (λ line. strings.has_prefix (strings.trim line) replace_marker ≡ false) lines
        → parse_lines strings lines (replacing olds news) ≡ replacing olds (news ++ lines)
    unfolding parse_lines parse_line replacing searching
    read_new [] olds news h = ap (λ l. replacing olds l) (sym (append-nil news))
    read_new (line ∷ rest) olds news h =
        rw (h.0, parse_line)
          (read_new rest olds (news ++ (line ∷ [])) h.1
            ∙ ap (λ l. replacing olds l) (append_assoc news (line ∷ []) rest))

  module _ (reads : ReadsMarkers strings) where
    -- A parser in the normal state.
    at_rest : List EditBlock → String → List String → List String → String → Parser
    at_rest blocks path olds news last = record {
      state = normal;
      blocks = blocks;
      filepath = path;
      search_lines = olds;
      replace_lines = news;
      last_non_empty_line = last;
    }

    -- The lines above the search side.
    read_head :
        (edit : Edit) (blocks : List EditBlock) (path : String) (olds news : List String)
        (last : String)
        → IsPrintable strings edit
        → parse_lines strings (edit.path ∷ search_marker ∷ []) (at_rest blocks path olds news last)
          ≡ searching blocks edit.path edit.path [] []
    unfolding parse_lines parse_line searching at_rest
    read_head edit blocks path olds news last h =
        rw (h.trimmed, h.no_marker, h.no_fence, reads.reads_search, h.clean) refl

    read_middle :
        (blocks : List EditBlock) (path last : String) (olds news : List String)
        → parse_line strings middle_marker (searching blocks path last olds news)
          ≡ replacing blocks path last olds news
    unfolding parse_line searching replacing
    read_middle blocks path last olds news = rw (reads.reads_middle) refl

    read_end :
        (blocks : List EditBlock) (path last : String) (olds news : List String)
        → parse_line strings replace_marker (replacing blocks path last olds news)
          ≡ at_rest
              (blocks ++ (record { filepath = path; search = side olds; replace = side news } ∷ []))
              path
              olds
              news
              last
    unfolding parse_line searching replacing at_rest
    read_end blocks path last olds news = rw (reads.reads_replace) refl

    read_edit :
        (edit : Edit) (blocks : List EditBlock) (path : String) (olds news : List String)
        (last : String)
        → IsPrintable strings edit
        → parse_lines strings (print_edit edit) (at_rest blocks path olds news last)
          ≡ at_rest
              (blocks ++ (block_of edit ∷ []))
              edit.path
              edit.old_lines
              edit.new_lines
              edit.path
    unfolding print_edit parse_lines block_of
    read_edit edit blocks path olds news last h =
        let news_part = edit.new_lines ++ (replace_marker ∷ []) in
        let olds_part = edit.old_lines ++ (middle_marker ∷ news_part) in
        parse_lines-append (edit.path ∷ search_marker ∷ []) olds_part
          (at_rest blocks path olds news last)
        ∙ ap (parse_lines strings olds_part) (read_head edit blocks path olds news last h)
        ∙ parse_lines-append edit.old_lines (middle_marker ∷ news_part) _
        ∙ ap (parse_lines strings (middle_marker ∷ news_part))
            (read_old blocks edit.path edit.path edit.old_lines [] [] h.old_plain)
        ∙ ap (parse_lines strings news_part)
            (read_middle blocks edit.path edit.path edit.old_lines [])
        ∙ parse_lines-append edit.new_lines (replace_marker ∷ []) _
        ∙ ap (parse_lines strings (replace_marker ∷ []))
            (read_new blocks edit.path edit.path edit.new_lines edit.old_lines [] h.new_plain)
        ∙ read_end blocks edit.path edit.path edit.old_lines edit.new_lines

    read_edits :
        (edits : List Edit) (blocks : List EditBlock) (path : String) (olds news : List String)
        (last : String)
        → All (IsPrintable strings) edits
        → (parse_lines strings (print_edits edits) (at_rest blocks path olds news last)).blocks
          ≡ blocks ++ map block_of edits
    unfolding print_edits parse_lines at_rest
    read_edits [] blocks path olds news last h = sym (append-nil blocks)
    read_edits (edit ∷ rest) blocks path olds news last h =
        ap (λ p. p.blocks)
          (parse_lines-append (print_edit edit) (print_edits rest)
              (at_rest blocks path olds news last)
            ∙ ap (parse_lines strings (print_edits rest))
                (read_edit edit blocks path olds news last h.0))
        ∙ read_edits rest (blocks ++ (block_of edit ∷ [])) edit.path edit.old_lines edit.new_lines
            edit.path h.1
        ∙ append_assoc blocks (block_of edit ∷ []) (map block_of rest)

-- A text whose lines are those of blocks in the documented form, one after another, is parsed into
-- these blocks. The conditions are that the functions on texts read the three markers, that each
-- path is trimmed, bare and no marker or fence, and that no line of a side looks like the marker
-- that ends the side.
pub parse-print :
    (strings : Strings) (edits : List Edit) (patch : String)
    → ReadsMarkers strings
    → All (IsPrintable strings) edits
    → strings.split patch ≡ print_edits edits
    → parse_search_replace strings patch ≡ map block_of edits
unfolding parse_search_replace at_rest
parse-print strings edits patch reads printable lines =
    ap (λ ls. (parse_lines strings ls start_parser).blocks) lines
    ∙ read_edits strings reads edits [] "" [] [] "" printable
