-- ===== src/Workspace/Paths.antt =====
-- lib/workspace/path-policy.ts: the paths of a workspace. A function answers `none` where it throws.
pub mod Normal
pub mod Written
use sci_pegasus.Common.{
  ℕ, zero, suc, String, ◌==◌, Bool, true, false, ◌&&◌, ◌||◌, not, Option, none, some, List, [], ◌∷◌,
  leb, ltb, eqb, exists, length, if◌then◌else◌,
}
use sci_pegasus.Common.Texts.{
  starts_with, units, drop_chars, has_char, split, join_slash, last_or_empty,
}

-- The operations on texts that follow the tables of Unicode: s.normalize('NFC') and s.toLowerCase().
pub record Unicode : Type 0 where
  pub nfc : String → String
  pub lower : String → String

-- Without a leading /workspace/ or workspace/
unfoldable pub strip_workspace : String → String
unfolding starts_with drop_chars
strip_workspace path =
    if starts_with "/workspace/" path
    then drop_chars 11 path
    else if starts_with "workspace/" path
    then drop_chars 10 path
    else path

-- \p{Cc}
unfoldable pub is_control : ℕ → Bool
is_control c = leb c 31 || (leb 127 c && leb c 159)

abbrev is_backslash : ℕ → Bool
is_backslash c = eqb c 92

-- !segment || segment === '.' || segment === '..'
unfoldable pub is_unsafe_segment : String → Bool
is_unsafe_segment s = s == "" || s == "." || s == ".."

unfoldable pub is_longer : ℕ → String → Bool
unfolding units
is_longer most s = ltb most (units s)

-- The tests after the prefix is stripped, where `segments` are those of the path.
unfoldable pub checked_path : String → List String → Option String
unfolding is_longer has_char is_control is_unsafe_segment starts_with join_slash
checked_path path segments =
    if path == "" || is_longer 512 path
    then none
    else if starts_with "/" path || has_char is_backslash path
    then none
    else if has_char is_control path
    then none
    else if exists is_unsafe_segment segments
    then none
    else if ltb 8 (length segments)
    then none
    else if exists (is_longer 128) segments
    then none
    else some (join_slash segments)

-- normalizeWorkspacePath
unfoldable pub normalize_path : Unicode → String → Option String
unfolding strip_workspace checked_path split
normalize_path u input =
    let path = strip_workspace (u.nfc input) in checked_path path (split 47 path)

-- The names that the empty object LEGACY_INTERNAL_PATH_ALIASES inherits, whose values are no texts.
abbrev pub inherited_names : List String
inherited_names =
    "constructor" ∷ "__defineGetter__" ∷ "__defineSetter__" ∷ "hasOwnProperty" ∷ "__lookupGetter__"
    ∷ "__lookupSetter__" ∷ "isPrototypeOf" ∷ "propertyIsEnumerable" ∷ "toString" ∷ "valueOf"
    ∷ "__proto__" ∷ "toLocaleString" ∷ []

abbrev pub is_in : String → List String → Bool
is_in s xs = exists (λ x. x == s) xs

unfoldable pub is_inherited : String → Bool
is_inherited path = is_in path inherited_names

unfoldable pub unless_inherited : Option String → Option String
unless_inherited none = none
unless_inherited (some path) = if is_inherited path then none else some path

-- canonicalWorkspaceWritePath, with `none` where what it answers is no text, on which its caller throws
unfoldable pub canonical_write_path : Unicode → String → Option String
unfolding normalize_path unless_inherited is_inherited
canonical_write_path u input = unless_inherited (normalize_path u input)

-- The policy of a write; a bound that is 0 is none.
pub record WritePolicy : Type 0 where
  pub allowed_roots : List String
  pub allowed_root_files : List String
  pub max_depth : ℕ
  pub max_path_length : ℕ
  pub max_segment_length : ℕ

-- DEFAULT_ALLOWED_ROOTS and DEFAULT_ALLOWED_ROOT_FILES
abbrev pub default_policy : WritePolicy
default_policy = record {
  allowed_roots = "output" ∷ "analysis" ∷ "notes" ∷ "references" ∷ ".sci-pegasus" ∷ [];
  allowed_root_files = "MAP.md" ∷ [];
  max_depth = 0;
  max_path_length = 0;
  max_segment_length = 0;
}

-- SUPPORTED_EXTENSIONS
abbrev pub supported_extensions : List String
supported_extensions =
    "md" ∷ "txt" ∷ "json" ∷ "jsonl" ∷ "xml" ∷ "svg" ∷ "html" ∷ "css" ∷ "js" ∷ "jsx" ∷ "ts" ∷ "tsx"
    ∷ "csv" ∷ "png" ∷ "jpg" ∷ "jpeg" ∷ "webp" ∷ "gif" ∷ "pdf" ∷ []

unfoldable pub extension_of : Unicode → List String → String
unfolding last_or_empty split
extension_of u segments = u.lower (last_or_empty (split 46 (last_or_empty segments)))

-- The root-level file, or the first of several segments
unfoldable pub is_root_allowed : WritePolicy → String → List String → Bool
is_root_allowed p path [] = false
is_root_allowed p path (root ∷ []) = is_in path p.allowed_root_files
is_root_allowed p path (root ∷ next ∷ segments) = is_in root p.allowed_roots

exceeds : ℕ → ℕ → Bool
exceeds bound n = ltb 0 bound && ltb bound n

unfoldable pub within_policy : Unicode → WritePolicy → String → List String → Bool
unfolding is_root_allowed extension_of exceeds units is_longer
within_policy u p path segments =
    is_root_allowed p path segments
    && is_in (extension_of u segments) supported_extensions
    && not (exceeds p.max_depth (length segments))
    && not (exceeds p.max_path_length (units path))
    && not (ltb 0 p.max_segment_length && exists (is_longer p.max_segment_length) segments)

-- assertWorkspaceWritePath
unfoldable pub write_path : Unicode → WritePolicy → String → Option String
unfolding canonical_write_path within_policy split
write_path u p input = elim (canonical_write_path u input) [
  | none ↦ none
  | some path ↦ if within_policy u p path (split 47 path) then some path else none
]
