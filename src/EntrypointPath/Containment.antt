-- ===== src/EntrypointPath/Containment.antt =====
-- An entrypoint that is accepted stays in the workspace.
use kruntimes.Base.{
  ◌≡◌, ◌⊎◌, inl, inr, refl, sym, ap, ◌∙◌, eq_iff, String, string_eq, ◌==◌, Bool, true, false, ◌||◌,
  List, [], ◌∷◌, All, some, is_some, arith, Bool-cases, Option-cases, nat_eq,
}
use Prim.Native.Char.{code}
use mathlib.Core.Path.{subst}
use kruntimes.Base.Text.{join, cut_prefix}
use kruntimes.Base.Results.{ok}
use kruntimes.EntrypointPath.{
  split_path, step_up, keep_component, clean_components, text_of, cleaned_text, is_abs,
  kept_components, clean_path, entrypoint_or, resolve_entrypoint,
}

abbrev pub IsName : String → Type 0
IsName x = (x == "..") ≡ false

abbrev IsUp : String → Type 0
IsUp x = (x == "..") ≡ true

-- Behind a `..` there are only others, towards the front of the path.
abbrev IsClimb : List String → Type 0
IsClimb [] = Unit
IsClimb (x ∷ xs) = IsUp x × All IsUp xs ⊎ IsName x × IsClimb xs

abbrev front : List String → String
front [] = ""
front (x ∷ []) = x
front (x ∷ y ∷ ys) = front (y ∷ ys)

step_up-IsClimb :
    (rooted : Bool) (kept : List String) → IsClimb kept → IsClimb (step_up rooted kept)
step_up-IsClimb true [] h = tt
step_up-IsClimb false [] h = inl (refl, tt)
step_up-IsClimb rooted (top ∷ kept) (inl (up, ups)) = rw up (inl (refl, (up, ups)))
step_up-IsClimb rooted (top ∷ kept) (inr (name, h)) = rw name h

keep_component-IsClimb :
    (rooted : Bool) (kept : List String) (component : String)
    → IsClimb kept
    → IsClimb (keep_component rooted kept component)
keep_component-IsClimb rooted kept component h =
    elim (Bool-cases (component == "" || component == ".")) [
      | inl skipped ↦ rw skipped h
      | inr counts ↦ rw counts (elim (Bool-cases (component == "..")) [
        | inl up ↦ rw up (step_up-IsClimb rooted kept h)
        | inr name ↦ rw name (inr (name, h))
      ])
    ]

clean_components-IsClimb :
    (rooted : Bool) (kept rest : List String)
    → IsClimb kept
    → IsClimb (clean_components rooted kept rest)
clean_components-IsClimb rooted kept [] h = h
clean_components-IsClimb rooted kept (component ∷ rest) h =
    clean_components-IsClimb rooted (keep_component rooted kept component) rest
      (keep_component-IsClimb rooted kept component h)

-- If the front is no `..`, there is none at all.
front-All :
    (x : String) (xs : List String)
    → IsClimb (x ∷ xs)
    → IsName (front (x ∷ xs))
    → All IsName (x ∷ xs)
front-All x [] (inl (up, ups)) h = absurd (ground arith)
front-All x [] (inr (name, rest)) h = (name, tt)
front-All x (y ∷ ys) (inl (up, ups)) h = absurd (all_up y ys ups h)
  where
    all_up : (z : String) (zs : List String) → All IsUp (z ∷ zs) → IsName (front (z ∷ zs)) → ⊥
    all_up z [] u n = ground arith
    all_up z (v ∷ vs) u n = all_up v vs u.1 n
front-All x (y ∷ ys) (inr (name, rest)) h = (name, front-All y ys rest h)

cut_prefix-join_right :
    (p s t r : String) → cut_prefix p s ≡ some r → cut_prefix p (join s t) ≡ some (join r t)
unfolding cut_prefix join
cut_prefix-join_right String.[] s t r h = ap (λ v. some (join v t)) (some_of s r h)
  where
    some_of : (a b : String) → some a ≡ some b → a ≡ b
    some_of a b e = cc
cut_prefix-join_right (String.◌∷◌ c p) String.[] t r h = absurd (ground arith)
cut_prefix-join_right (String.◌∷◌ c p) (String.◌∷◌ d s) t r h =
    elim (Bool-cases (nat_eq (code c) (code d))) [
      | inl same ↦ rw same (cut_prefix-join_right p s t r (rw same at h))
      | inr other ↦ absurd (ground (arith, rw other at h))
    ]

beyond : (x : String) → is_some (cut_prefix "../" (join ".." (join "/" x))) ≡ true
unfolding cut_prefix join
beyond x = refl

-- A text whose front component is `..` is `..` itself or begins with `../`.
front-refused :
    (x : String) (xs : List String)
    → front (x ∷ xs) ≡ ".."
    → (text_of (x ∷ xs) ≡ "..") ⊎ (is_some (cut_prefix "../" (text_of (x ∷ xs))) ≡ true)
unfolding text_of
front-refused x [] h = inl h
front-refused x (y ∷ ys) h = elim (front-refused y ys h) [
  | inl whole ↦ inr (rw whole (beyond x))
  | inr begins ↦ elim (Option-cases (cut_prefix "../" (text_of (y ∷ ys)))) [
    | inl missing ↦ absurd (ground (arith, rw missing at begins))
    | inr (r, e) ↦
        inr (ap is_some (cut_prefix-join_right "../" (text_of (y ∷ ys)) (join "/" x) r e))
  ]
]

absolute :
    (kept : List String) (clean : String)
    → cleaned_text true kept ≡ clean
    → is_abs clean ≡ false
    → ⊥
unfolding cut_prefix join
absolute kept clean t relative =
    let whole : is_abs (join "/" (text_of kept)) ≡ true = refl in
    let found : is_abs clean ≡ true = subst (λ v. is_abs v ≡ true) t whole in ground arith

-- What an accepted path looks like: the components of the cleaned path, in reverse, are names, with no
-- `..` among them, and the path is not absolute.
pub record IsContained (path clean : String) : Type 0 where
  pub is_relative : is_abs path ≡ false
  pub text : clean ≡ text_of (kept_components path)
  pub names : All IsName (kept_components path)
  pub not_absolute : is_abs clean ≡ false

cleaned-IsContained :
    (path clean : String) (rooted : Bool) (kept : List String)
    → is_abs path ≡ rooted
    → kept_components path ≡ kept
    → IsClimb kept
    → cleaned_text rooted kept ≡ clean
    → (clean == ".") ≡ false
    → is_abs clean ≡ false
    → (clean == "..") ≡ false
    → is_some (cut_prefix "../" clean) ≡ false
    → IsContained path clean
cleaned-IsContained path clean true kept a k c t file relative not_up not_begins =
    absurd (absolute kept clean t relative)
cleaned-IsContained path clean false [] a k c t file relative not_up not_begins =
    absurd (ground (arith, eq_iff clean "."))
cleaned-IsContained path clean false (x ∷ xs) a k c t file relative not_up not_begins = record {
  is_relative = a;
  text = sym t ∙ ap text_of (sym k);
  names = rw k (
      front-All x xs c (elim (Bool-cases (front (x ∷ xs) == "..")) [
        | inr fine ↦ fine
        | inl up ↦ absurd (elim (front-refused x xs ((eq_iff (front (x ∷ xs)) "..").0 up)) [
          | inl whole ↦ ground (arith, eq_iff clean "..", sym t ∙ whole)
          | inr begins ↦ ground (arith, rw t at begins)
        ])
      ]));
  not_absolute = relative;
}

clean_path-eq :
    (path : String)
    → (path == "") ≡ false
    → clean_path path ≡ cleaned_text (is_abs path) (kept_components path)
unfolding clean_path
clean_path-eq path named = rw named refl

dot_refused : (path : String) → (clean_path path == ".") ≡ false → (path == "") ≡ false
unfolding clean_path
dot_refused path h = elim (Bool-cases (path == "")) [
  | inl empty ↦ absurd (ground (arith, rw empty at h))
  | inr named ↦ named
]

-- For any entrypoint and fallback: a path that is accepted is relative, and its components, with the
-- empty ones, `.` and what `..` takes back left out, are names with no `..` among them. So it stays
-- below the directory that it is resolved against.
pub resolve_entrypoint-IsContained :
    (entrypoint fallback clean : String)
    → resolve_entrypoint entrypoint fallback ≡ ok clean
    → IsContained (entrypoint_or entrypoint fallback) clean
unfolding resolve_entrypoint
resolve_entrypoint-IsContained entrypoint fallback clean h =
    let path = entrypoint_or entrypoint fallback in
    let is_clean : clean_path path ≡ clean = ground arith in
    let file : (clean_path path == ".") ≡ false = ground arith in
    let relative : is_abs (clean_path path) ≡ false = ground arith in
    let not_up : (clean_path path == "..") ≡ false = ground arith in
    let not_begins : is_some (cut_prefix "../" (clean_path path)) ≡ false = ground arith in
    cleaned-IsContained path clean (is_abs path) (kept_components path) refl refl
      (clean_components-IsClimb (is_abs path) [] ((split_path path).0 ∷ (split_path path).1) tt)
      (sym (clean_path-eq path (dot_refused path file)) ∙ is_clean)
      (subst (λ v. (v == ".") ≡ false) is_clean file)
      (subst (λ v. is_abs v ≡ false) is_clean relative)
      (subst (λ v. (v == "..") ≡ false) is_clean not_up)
      (subst (λ v. is_some (cut_prefix "../" v) ≡ false) is_clean not_begins)
