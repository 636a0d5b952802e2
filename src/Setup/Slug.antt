-- ===== src/Setup/Slug.antt =====
-- `Slugify` of internal/setup/setup.go, on ASCII text. The loop is a recursion on the text with
-- `lastDash` as its state.
use pivot.Common.{
  ℕ, ◌≡◌, refl, ◌⊎◌, inl, inr, Bool, true, false, not, ◌&&◌, ◌||◌, [], ◌∷◌, Text, map, codes, leb,
  lower, nat_eq, ◌==◌, if◌then◌else◌, Bool-cases, arith,
}
use pivot.Authz.Model.{is_empty}

abbrev pub dash : ℕ
dash = 45

-- A lower case letter or a digit.
abbrev is_plain : ℕ → Bool
is_plain r = leb 97 r && leb r 122 || leb 48 r && leb r 57

unfoldable pub slug_loop : Bool → Text → Text
slug_loop last_dash [] = []
slug_loop last_dash (r ∷ rs) =
    let rest = slug_loop (not (is_plain r)) rs in
    if is_plain r then r ∷ rest else if last_dash then rest else dash ∷ rest

-- The last rune is dropped where it is a dash.
unfoldable pub trim_dash : Text → Text
trim_dash [] = []
trim_dash (r ∷ []) = if r == dash then [] else r ∷ []
trim_dash (r ∷ s ∷ rs) = r ∷ trim_dash (s ∷ rs)

unfoldable pub slugify : Text → Text
slugify text =
    let out = trim_dash (slug_loop true (map lower text)) in
    if is_empty out then codes "org" else out

-- Letters and digits, with single dashes between them.
unfoldable pub is_slug_after : Bool → Text → Bool
is_slug_after last_dash [] = not last_dash
is_slug_after last_dash (r ∷ rs) =
    (is_plain r || (r == dash && not last_dash)) && is_slug_after (r == dash) rs

abbrev pub IsSlug : Text → Type 0
IsSlug text = is_slug_after true text ≡ true

trim_dash_plain : (r : ℕ) (rs : Text) → is_plain r ≡ true → trim_dash (r ∷ rs) ≡ r ∷ trim_dash rs
unfolding trim_dash
trim_dash_plain r [] h = ground arith
trim_dash_plain r (s ∷ rs) h = refl

trim_dash-dash :
    (rs : Text)
    → is_slug_after true (trim_dash rs) ≡ true
    → is_slug_after false (trim_dash (dash ∷ rs)) ≡ true
unfolding trim_dash is_slug_after
trim_dash-dash [] h = refl
trim_dash-dash (s ∷ rs) h = h

trim_dash_run :
    (r : ℕ) (rs : Text) (last_dash : Bool)
    → is_plain r ≡ true
    → is_slug_after false (trim_dash rs) ≡ true
    → is_slug_after last_dash (trim_dash (r ∷ rs)) ≡ true
unfolding is_slug_after
trim_dash_run r rs last_dash h k = rw (trim_dash_plain r rs h) (ground arith)

-- After a rune the loop gives what may follow one; at the start, a slug or nothing.
slug_loop_slug :
    (text : Text)
    → (is_slug_after false (trim_dash (slug_loop false text)) ≡ true)
      × ((slug_loop true text ≡ []) ⊎ (is_slug_after true (trim_dash (slug_loop true text)) ≡ true))
unfolding slug_loop trim_dash is_slug_after
slug_loop_slug [] = (refl, inl refl)
slug_loop_slug (r ∷ rs) =
    let rest = slug_loop_slug rs in
    elim (Bool-cases (is_plain r)) [
      | inl e ↦ rw e (
        trim_dash_run r (slug_loop false rs) false e rest.0,
        inr (trim_dash_run r (slug_loop false rs) true e rest.0),
      )
      | inr e ↦ elim rest.1 [
        | inl none_left ↦ rw (e, none_left) (refl, inl refl)
        | inr slug ↦ rw e (trim_dash-dash (slug_loop true rs) slug, inr slug)
      ]
    ]

slugify-IsSlug : (text : Text) → IsSlug (slugify text)
unfolding slugify is_slug_after slug_loop trim_dash is_empty
slugify-IsSlug text = elim ((slug_loop_slug (map lower text)).1) [
  | inl e ↦ rw e refl
  | inr h ↦
      let out = trim_dash (slug_loop true (map lower text)) in
      elim (Bool-cases (is_empty out)) [ inl e ↦ rw e refl | inr e ↦ rw e h ]
]

lower_slug :
    (r : ℕ) (last_dash : Bool) → (is_plain r || (r == dash && not last_dash)) ≡ true → lower r ≡ r
unfolding lower
lower_slug r last_dash h = ground arith

map-lower :
    (last_dash : Bool) (text : Text) → is_slug_after last_dash text ≡ true → map lower text ≡ text
unfolding is_slug_after
map-lower last_dash [] h = refl
map-lower last_dash (r ∷ rs) h = ground (arith, lower_slug r last_dash, map-lower (r == dash) rs)

slug_loop_same :
    (last_dash : Bool) (text : Text)
    → is_slug_after last_dash text ≡ true
    → slug_loop last_dash text ≡ text
unfolding is_slug_after slug_loop
slug_loop_same last_dash [] h = refl
slug_loop_same last_dash (r ∷ rs) h = elim (Bool-cases (is_plain r)) [
  | inl e ↦ ground (arith, slug_loop_same false rs)
  | inr e ↦ ground (arith, slug_loop_same true rs)
]

trim_dash_same :
    (last_dash : Bool) (text : Text) → is_slug_after last_dash text ≡ true → trim_dash text ≡ text
unfolding is_slug_after trim_dash
trim_dash_same last_dash [] h = refl
trim_dash_same last_dash (r ∷ []) h = ground arith
trim_dash_same last_dash (r ∷ s ∷ rs) h = ground (arith, trim_dash_same (r == dash) (s ∷ rs))

slug_not_empty : (text : Text) → IsSlug text → (if is_empty text then codes "org" else text) ≡ text
unfolding is_slug_after is_empty
slug_not_empty [] h = cc
slug_not_empty (r ∷ rs) h = refl

slugify_same : (text : Text) → IsSlug text → slugify text ≡ text
unfolding slugify is_slug_after
slugify_same text h =
    rw (map-lower true text h, slug_loop_same true text h, trim_dash_same true text h)
      (slug_not_empty text h)

-- Whatever the text, its slug is not empty and has letters and digits only, with single dashes
-- between them; and a slug is its own slug.
pub slugify_exact : (text : Text) → IsSlug (slugify text) × (slugify (slugify text) ≡ slugify text)
slugify_exact text = (slugify-IsSlug text, slugify_same (slugify text) (slugify-IsSlug text))
