-- ===== src/Lab5/Utilities.antt =====
-- lab5/src/utilities/utilities.c: names that end with a suffix, and the progress bar.
use mathlib.Core.Path.{ap₂}
use spovm4_labs.Base.{
  length, take, drop, length-append, take-append-drop, ltb, ◌==◌, if◌then◌else◌, le→ltb, Bool-cases,
  ℕ, zero, suc, ◌+◌, ◌-◌, ◌/◌, ◌≤◌, ◌<◌, ◌≡◌, refl, sym, ap, ◌∙◌, ◌↔◌, inl, inr, Bool, true, false,
  [], ◌∷◌, ◌++◌, arith,
}
use spovm4_labs.Base.Text.{Text, str_eq, str_eq_refl, str_eq_sound, codes}

-- for lengths that fit an `int`
unfoldable pub string_ends_with : Text → Text → Bool
string_ends_with str suffix =
    if ltb (length str) (length suffix)
    then false
    else str_eq (drop (length str - length suffix) str) suffix

drop-prefix : (s t : Text) → drop (length s) (s ++ t) ≡ t
drop-prefix [] t = refl
drop-prefix (c ∷ s) t = drop-prefix s t

-- string_ends_with answers whether the text is something with the suffix behind it.
pub string_ends_with_iff :
    (str suffix : Text)
    → (string_ends_with str suffix ≡ true) ↔ ((front : Text) × (str ≡ front ++ suffix))
unfolding string_ends_with
string_ends_with_iff str suffix = (
  λ h. elim (Bool-cases (ltb (length str) (length suffix))) [
    | inl q ↦ absurd (false-true (rw q at h))
    | inr q ↦
        let n : ℕ = length str - length suffix in
        let same : str_eq (drop n str) suffix ≡ true = rw q at h in
        (
          take n str,
          sym (take-append-drop n str)
              ∙ ap (λ t. take n str ++ t) (str_eq_sound (drop n str) suffix same),
        )
  ],
  λ (front, e).
      let len : length str ≡ length front + length suffix =
        ap length e ∙ length-append front suffix in
      let n : length str - length suffix ≡ length front = omega arith in
      rw (le→ltb (length str) (length suffix) (omega arith), n, e, drop-prefix front suffix)
        (str_eq_refl suffix),
)
  where
    false-true : ◌≡◌ {A = Bool} false true → ⊥
    false-true z = cc

abbrev pub repeat : ℕ → ℕ → Text
repeat zero c = []
repeat (suc n) c = c ∷ repeat n c

-- what stands between the brackets, for a percentage that is not negative
unfoldable pub steps : ℕ → Text
steps percent = repeat (percent / 5) b'|' ++ repeat (20 - percent / 5) b'_'

-- `printed` is what `%d` prints for a number.
unfoldable pub print_progress_bar : (ℕ → Text) → Text → ℕ → Text
print_progress_bar printed label percent =
    label ++ (codes ": [" ++ (steps percent ++ (codes "] " ++ (printed percent ++ codes " %\n"))))

abbrev pub count : ℕ → Text → ℕ
count c [] = 0
count c (d ∷ s) = (if d == c then 1 else 0) + count c s

count-append : (c : ℕ) (s t : Text) → count c (s ++ t) ≡ count c s + count c t
count-append c [] t = omega arith
count-append c (d ∷ s) t = omega (arith, count-append c s t)

count-repeat : (n : ℕ) → (count b'|' (repeat n b'|') ≡ n) × (count b'|' (repeat n b'_') ≡ 0)
count-repeat zero = (refl, refl)
count-repeat (suc n) = (omega (arith, (count-repeat n).0), omega (arith, (count-repeat n).1))

length-repeat : (n c : ℕ) → length (repeat n c) ≡ n
length-repeat zero c = refl
length-repeat (suc n) c = ap suc (length-repeat n c)

-- Up to 100 percent the bar has 20 cells, one of them filled for every 5 percent; from 105 percent
-- on it has more than 20.
pub steps-length :
    (percent : ℕ)
    → (percent ≤ 100 → length (steps percent) ≡ 20)
      × (count b'|' (steps percent) ≡ percent / 5)
      × (105 ≤ percent → 20 < length (steps percent))
unfolding steps
steps-length percent =
    let n : ℕ = percent / 5 in
    let len : length (repeat n b'|' ++ repeat (20 - n) b'_') ≡ n + (20 - n) =
      length-append (repeat n b'|') (repeat (20 - n) b'_')
      ∙ ap₂ (λ a b. a + b) (length-repeat n b'|') (length-repeat (20 - n) b'_') in
    (
      λ l. len ∙ omega arith,
      count-append b'|' (repeat n b'|') (repeat (20 - n) b'_')
          ∙ ap₂ (λ a b. a + b) (count-repeat n).0 (count-repeat (20 - n)).1
          ∙ omega arith,
      λ l. omega (arith, len),
    )
