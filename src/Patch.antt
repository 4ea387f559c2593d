-- ===== src/Patch.antt =====
-- `ParseSearchReplace` of server/internal/orchestrator/patch/search_replace.go: the blocks of edits in
-- the answer of a language model. Go's `strings.Split`, `TrimSpace`, `HasPrefix`,
-- `TrimPrefix` and `TrimSuffix` are parameters.
pub mod RoundTrip
mod Examples
use auto_dev_os.Base.{
  String, Bool, true, false, ◌||◌, List, [], ◌∷◌, ◌++◌ as append, ◌==◌, if◌then◌else◌,
}
use Prim.Native.String.{◌++◌}

-- `EditBlock`
pub record EditBlock : Type 0 where
  pub filepath : String
  pub search : String
  pub replace : String

-- What the function uses of Go's `strings`.
pub record Strings : Type 0 where
  pub split : String → List String
  pub trim : String → String
  pub has_prefix : (text prefix : String) → Bool
  pub trim_prefix : (text prefix : String) → String
  pub trim_suffix : (text suffix : String) → String

-- StateNormal, StateSearch, StateReplace
pub data ParseState : Type 0 where
  normal search replace : ParseState

-- The variables of the loop.
pub record Parser : Type 0 where
  pub state : ParseState
  pub blocks : List EditBlock
  pub filepath : String
  pub search_lines : List String
  pub replace_lines : List String
  pub last_non_empty_line : String

abbrev pub search_marker : String
search_marker = "<<<<<<< SEARCH"

abbrev pub middle_marker : String
middle_marker = "======="

abbrev pub replace_marker : String
replace_marker = ">>>>>>> REPLACE"

-- `strings.Join(lines, "\n")`
unfoldable pub join : List String → String
join [] = ""
join (line ∷ []) = line
join (line ∷ (next ∷ rest)) = line ++ "\n" ++ join (next ∷ rest)

-- The lines of a side, with a newline after the last if there is one.
unfoldable pub side : List String → String
side [] = ""
side (line ∷ rest) = join (line ∷ rest) ++ "\n"

-- `cleanPath`
unfoldable pub clean_path : Strings → String → String
clean_path strings line =
    let bare =
      strings.trim_prefix (strings.trim_prefix (strings.trim_prefix line "File: ") "File:")
        "file: " in
    strings.trim_suffix (strings.trim_prefix (strings.trim bare) "`") "`"

unfoldable pub path_of : Strings → String → String
path_of strings line = if line == "" then "" else clean_path strings line

unfoldable pub is_fence : String → Bool
is_fence trimmed = trimmed == "" || (trimmed == "```" || trimmed == "```diff")

-- One turn of the loop.
unfoldable pub parse_line : Strings → String → Parser → Parser
parse_line strings line p =
    let trimmed = strings.trim line in
    elim p.state [
      | normal ↦
          if strings.has_prefix trimmed search_marker
          then record p {
            state = search;
            search_lines = [];
            replace_lines = [];
            filepath = path_of strings p.last_non_empty_line;
          }
          else if is_fence trimmed
          then p
          else record p { last_non_empty_line = trimmed }
      | search ↦
          if strings.has_prefix trimmed middle_marker
          then record p { state = replace }
          else record p { search_lines = append p.search_lines (line ∷ []) }
      | replace ↦
          if strings.has_prefix trimmed replace_marker
          then record p {
            state = normal;
            blocks = append p.blocks (
                record {
                  filepath = p.filepath;
                  search = side p.search_lines;
                  replace = side p.replace_lines;
                }
                ∷ []);
          }
          else record p { replace_lines = append p.replace_lines (line ∷ []) }
    ]

unfoldable pub parse_lines : Strings → List String → Parser → Parser
parse_lines strings [] p = p
parse_lines strings (line ∷ rest) p = parse_lines strings rest (parse_line strings line p)

abbrev pub start_parser : Parser
start_parser = record {
  state = normal;
  blocks = [];
  filepath = "";
  search_lines = [];
  replace_lines = [];
  last_non_empty_line = "";
}

-- `ParseSearchReplace`
unfoldable pub parse_search_replace : Strings → String → List EditBlock
parse_search_replace strings patch = (parse_lines strings (strings.split patch) start_parser).blocks
