-- ===== src/EntrypointPath.antt =====
-- internal/execpath/entrypoint.go: the path of an entrypoint is cleaned, and one that would leave the
-- workspace is refused. The part of path/filepath that it uses is modelled with the separator `/`.
pub mod Containment
use Prim.Native.Char.{code}
use kruntimes.Base.{
  ℕ, String, string_eq, ◌==◌, Bool, true, false, ◌&&◌, ◌||◌, not, List, [], ◌∷◌, Option, none, some,
  is_some, if◌then◌else◌, nat_eq,
}
use kruntimes.Base.Text.{join, cut_prefix}
use kruntimes.Base.Results.{Result, ok, err}

pub data EntrypointError : Type 0 where
  not_a_file leaves_workspace : EntrypointError

-- The first component of a path, and the others.
unfoldable pub split_path : String → String × List String
split_path String.[] = ("", [])
split_path (String.◌∷◌ c s) =
    let (first, others) = split_path s in
    if nat_eq (code c) 47 then ("", first ∷ others) else (String.◌∷◌ c first, others)

-- The loop of filepath.Clean, on the components, with the kept ones in reverse.
abbrev pub step_up : Bool → List String → List String
step_up rooted [] = if rooted then [] else ".." ∷ []
step_up rooted (top ∷ kept) = if top == ".." then ".." ∷ top ∷ kept else kept

abbrev pub keep_component : Bool → List String → String → List String
keep_component rooted kept component =
    if component == "" || component == "."
    then kept
    else if component == ".."
    then step_up rooted kept
    else component ∷ kept

abbrev pub clean_components : Bool → List String → List String → List String
clean_components rooted kept [] = kept
clean_components rooted kept (component ∷ rest) =
    clean_components rooted (keep_component rooted kept component) rest

unfoldable pub text_of : List String → String
text_of [] = ""
text_of (last ∷ []) = last
text_of (last ∷ before ∷ kept) = join (text_of (before ∷ kept)) (join "/" last)

abbrev pub cleaned_text : Bool → List String → String
cleaned_text true kept = join "/" (text_of kept)
cleaned_text false [] = "."
cleaned_text false (last ∷ kept) = text_of (last ∷ kept)

-- filepath.IsAbs
abbrev pub is_abs : String → Bool
is_abs path = is_some (cut_prefix "/" path)

abbrev pub kept_components : String → List String
kept_components path = clean_components (is_abs path) [] ((split_path path).0 ∷ (split_path path).1)

-- filepath.Clean
unfoldable pub clean_path : String → String
clean_path path = if path == "" then "." else cleaned_text (is_abs path) (kept_components path)

abbrev pub entrypoint_or : String → String → String
entrypoint_or entrypoint fallback = if entrypoint == "" then fallback else entrypoint

unfoldable pub resolve_entrypoint : String → String → Result EntrypointError String
resolve_entrypoint entrypoint fallback =
    let clean = clean_path (entrypoint_or entrypoint fallback) in
    if clean == "."
    then err not_a_file
    else if is_abs clean || (clean == ".." || is_some (cut_prefix "../" clean))
    then err leaves_workspace
    else ok clean
