-- ===== src/Scm/Naming/Laws.antt =====
-- The bytes of the slugs of internal/scm/github/github.go.
use mathlib.Core.List.{reverse, reverse-cons}
use cloud_sre_agent.Prelude.{
  ℕ, ◌≡◌, ◌≢◌, refl, Bool, true, false, [], ◌∷◌, Text, arith, All, All-append, trim_left,
  trim_right, trim,
}
use cloud_sre_agent.Scm.Naming.{is_slug_byte, is_hyphen, replace_separators, or_change, slugify}

abbrev pub IsSafe : Text → Type 0
IsSafe s = All (λ c. is_slug_byte c ≡ true) s

replace_separators-IsSafe : (in_run : Bool) (s : Text) → IsSafe (replace_separators in_run s)
unfolding replace_separators is_slug_byte
replace_separators-IsSafe in_run [] = tt
replace_separators-IsSafe in_run (c ∷ s) =
    ground (arith, replace_separators-IsSafe false s, replace_separators-IsSafe true s)

trim_left-IsSafe : (p : ℕ → Bool) (s : Text) → IsSafe s → IsSafe (trim_left p s)
unfolding trim_left
trim_left-IsSafe p [] h = tt
trim_left-IsSafe p (c ∷ s) (y, h) = ground (arith, trim_left-IsSafe p s h)

reverse-IsSafe : (s : Text) → IsSafe s → IsSafe (reverse s)
reverse-IsSafe [] h = tt
reverse-IsSafe (c ∷ s) (y, h) =
    rw reverse-cons (All-append _ (reverse s) (c ∷ []) (reverse-IsSafe s h) (y, tt))

or_change-IsSafe : (s : Text) → IsSafe s → IsSafe (or_change s) × (or_change s ≢ [])
unfolding or_change is_slug_byte
or_change-IsSafe [] h = ((refl, (refl, (refl, (refl, (refl, (refl, tt)))))), ground arith)
or_change-IsSafe (c ∷ s) h = (h, ground arith)

-- Whatever the path of the file, even an empty one, the slug that names the branch is not empty
-- and consists of ASCII letters, digits, dots, underscores and hyphens.
pub slugify-IsSafe : (path : Text) → IsSafe (slugify path) × (slugify path ≢ [])
unfolding slugify trim trim_right
slugify-IsSafe path =
    let kept = trim_left-IsSafe is_hyphen _ (replace_separators-IsSafe false path) in
    or_change-IsSafe _ (reverse-IsSafe _ (trim_left-IsSafe is_hyphen _ (reverse-IsSafe _ kept)))
