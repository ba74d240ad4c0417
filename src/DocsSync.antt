-- ===== src/DocsSync.antt =====
-- scripts/check_docs_sync.py: the documents that a commit leaves out. What git answers, and what the two
-- regular expressions match, are arguments.
pub mod Mapping
pub mod Quiet
use Prim.Native.String.{◌++◌ as append}
use text.Mathlib.Text.{◌==◌ as str_eq, starts_with}
use assignment_cloud_instanc.Prelude.{
  ℕ, ◌==◌, Bool, true, false, not, ◌&&◌, Option, none, some, String, List, [], ◌∷◌, ◌++◌, any,
  filter, length, if◌then◌else◌,
}
use assignment_cloud_instanc.DocsSync.Mapping.{
  mapping, swagger_sources, changelog, reading_order, walkthrough, screenshots,
}

-- `p in staged`
abbrev pub member : List String → String → Bool
member staged doc = any (str_eq doc) staged

-- `source.startswith(prefixes)`
abbrev pub starts_with_any : List String → String → Bool
starts_with_any prefixes source = any (starts_with source) prefixes

-- `list(dict.fromkeys(docs))`
abbrev pub from_keys : List String → List String
from_keys [] = []
from_keys (doc ∷ docs) = doc ∷ filter (λ other. not (str_eq doc other)) (from_keys docs)

-- `separator.join(texts)`
abbrev pub join_with : String → List String → String
join_with separator [] = ""
join_with separator (text ∷ []) = text
join_with separator (text ∷ more) = append text (append separator (join_with separator more))

abbrev pub targets_of : String → List (String × List String) → List String
targets_of source [] = []
targets_of source (row ∷ rows) =
    let rest = targets_of source rows in if starts_with source row.0 then row.1 ++ rest else rest

abbrev pub is_empty {ℓ} : {A : Type ℓ} → List A → Bool
is_empty [] = true
is_empty (x ∷ xs) = false

abbrev pub docs_of : String → List String
docs_of source = targets_of source mapping

abbrev pub missing_of : List String → String → List String
missing_of staged source = filter (λ doc. not (member staged doc)) (from_keys (docs_of source))

abbrev pub recapture : String
recapture = append "    -> " (
    append screenshots
      "*.png — re-capture if a route, field, status code, error body or seed number changed")

-- The lines below a source.
abbrev pub entry_of : List String → String → List String
entry_of staged source =
    let missing = missing_of staged source in
    (if not (is_empty missing) && length missing == length (from_keys (docs_of source))
      then append "    -> " (join_with ", " missing) ∷ []
      else [])
    ++ (if starts_with_any swagger_sources source
          && not (any (λ p. starts_with p screenshots) staged)
        then recapture ∷ []
        else [])

abbrev pub headed : String → List String → List String
headed source [] = []
headed source (line ∷ lines) = append "  " source ∷ line ∷ lines

abbrev pub source_lines : List String → List String → List String
source_lines staged [] = []
source_lines staged (source ∷ sources) =
    headed source (entry_of staged source) ++ source_lines staged sources

-- What any change of the application touches; `moved` is `signatures_moved()`.
abbrev pub touched : Bool → List String → List String
touched moved staged =
    (if not (member staged changelog)
      then append "    " (append changelog " — one entry per change a reader would notice") ∷ []
      else [])
    ++ (if not (member staged walkthrough)
        then append "    " (append walkthrough " — if a step or an expected number moved") ∷ []
        else [])
    ++ (if not (member staged reading_order) && moved
        then append "    " (
            append reading_order
              " — a function or class was added, removed or renamed, and it cites line numbers")
          ∷ []
        else [])

abbrev pub tail_of : List String → List String
tail_of [] = []
tail_of (line ∷ lines) = "" ∷ "  Whatever the change touched:" ∷ line ∷ lines

abbrev pub sources_of : List String → List String
sources_of = filter (λ p. starts_with_any ("app/" ∷ "tests/" ∷ []) p)

unfoldable pub report : Bool → List String → List String
report moved paths =
    let sources = sources_of paths in
    if is_empty sources
    then []
    else source_lines paths sources
      ++ (if any (λ p. starts_with p "app/") sources then tail_of (touched moved paths) else [])

abbrev pub render : List String → String
render lines = join_with "\n" (
    ("docs-sync: staged source changes with no matching document staged." ∷ "" ∷ lines)
    ++ "" ∷ "Rule 3 of docs/contributing/DOCUMENTATION.md: behaviour and the document"
      ∷ "describing it change in the same commit. Nothing to do if this change"
      ∷ "alters no behaviour. This is a reminder, not a gate — the commit proceeds." ∷ [])

-- `staged_paths`, on the lines that git answers
abbrev pub staged_paths : List String → List String
staged_paths = filter (λ line. not (str_eq line ""))

-- `payload.get("tool_input") or {}`, and `command` of it
abbrev pub hook_command : Option (Option String) → String
hook_command none = ""
hook_command (some none) = ""
hook_command (some (some command)) = command

-- What the script writes: nothing, a text to stderr, or the hook's JSON with the message.
pub data Output : Type 0 where
  nothing : Output
  to_stderr : String → Output
  hook_answer : String → Output

abbrev pub written : (String → Output) → List String → Output
written out [] = nothing
written out (line ∷ lines) = out (render (line ∷ lines))

module _ (commits : String → Bool) (moved : Bool) (names : List String) where
  -- `main --hook`; no payload is a JSON error. `commits` is `GIT_COMMIT.search`.
  abbrev pub main_hook : Option (Option (Option String)) → Output × ℕ
  main_hook none = (nothing, 0)
  main_hook (some payload) = (
    (if commits (hook_command payload)
        then written hook_answer (report moved (staged_paths names))
        else nothing),
    0,
  )

  -- `main`, with its exit code
  abbrev pub main : Output × ℕ
  main = (written to_stderr (report moved (staged_paths names)), 0)
