-- ===== src/ZoxFs/Shell/Words.antt =====
-- Lines made of words, and how the shell takes them apart again.
use mathlib.Core.Path.{ap₂}
use spovm4_labs.Base.{
  ◌==◌, ℕ, ◌≡◌, refl, ap, ◌∙◌, Bool, false, ◌||◌, List, [], ◌∷◌, ◌++◌, append-nil, append_assoc,
  arith,
}
use spovm4_labs.Base.Text.{Text, strtok_from, strtok}
use spovm4_labs.ZoxFs.Shell.{World}
use spovm4_labs.ZoxFs.Shell.Command.{upto_space, first_part, dispatch, run_command}

abbrev pub has_byte : ℕ → Text → Bool
has_byte sep [] = false
has_byte sep (c ∷ s) = c == sep || has_byte sep s

-- Each of the words has a byte, and none has a space.
abbrev pub AreWords : List Text → Type 0
AreWords [] = Unit
AreWords ([] ∷ ws) = ⊥
AreWords ((c ∷ s) ∷ ws) = (has_byte b' ' (c ∷ s) ≡ false) × AreWords ws

-- each word behind a space
abbrev pub spaced : List Text → Text
spaced [] = []
spaced (v ∷ ws) = b' ' ∷ v ++ spaced ws

-- the line with these words
abbrev pub unwords : Text → List Text → Text
unwords name ws = name ++ spaced ws

strtok_from-word :
    (token s rest : Text)
    → has_byte b' ' s ≡ false
    → strtok_from b' ' token (s ++ rest) ≡ strtok_from b' ' (token ++ s) rest
unfolding strtok_from
strtok_from-word token [] rest h = rw append-nil
strtok_from-word token (c ∷ s) rest h =
    let not_space : (c == b' ') ≡ false = ground arith in
    let tail : has_byte b' ' s ≡ false = ground arith in
    rw (strtok_from, not_space)
      (strtok_from-word (token ++ c ∷ []) s rest tail
        ∙ ap (λ t. strtok_from b' ' t rest) (append_assoc token (c ∷ []) s))

strtok_from-spaced :
    (c : ℕ) (s : Text) (ws : List Text)
    → AreWords ws
    → strtok_from b' ' (c ∷ s) (spaced ws) ≡ (c ∷ s) ∷ ws
unfolding strtok_from
strtok_from-spaced c s [] h = refl
strtok_from-spaced c s ([] ∷ ws) h = absurd h
strtok_from-spaced c s ((d ∷ t) ∷ ws) (h, hs) =
    ap (λ l. (c ∷ s) ∷ l) (strtok_from-word [] (d ∷ t) (spaced ws) h ∙ strtok_from-spaced d t ws hs)

upto_space-word :
    (s : Text) (ws : List Text) → has_byte b' ' s ≡ false → upto_space (s ++ spaced ws) ≡ s
unfolding upto_space
upto_space-word [] [] h = refl
upto_space-word [] (v ∷ ws) h = refl
upto_space-word (c ∷ s) ws h =
    let not_space : (c == b' ') ≡ false = ground arith in
    let tail : has_byte b' ' s ≡ false = ground arith in
    rw not_space (ap (λ t. c ∷ t) (upto_space-word s ws tail))

first_part-unwords :
    (c : ℕ) (s : Text) (ws : List Text)
    → has_byte b' ' (c ∷ s) ≡ false
    → first_part (unwords (c ∷ s) ws) ≡ c ∷ s
unfolding first_part
first_part-unwords c s ws h =
    let not_space : (c == b' ') ≡ false = ground arith in
    rw not_space (upto_space-word (c ∷ s) ws h)

-- A command line made of words, each with a byte and none with a space, with one space before each
-- word but the first, is carried out with exactly these words, and the first of them is what an
-- unknown command prints.
pub run_command-unwords :
    (w : World) (name : Text) (ws : List Text)
    → AreWords (name ∷ ws)
    → run_command w (unwords name ws) ≡ dispatch w name (name ∷ ws)
unfolding run_command strtok
run_command-unwords w [] ws h = absurd h
run_command-unwords w (c ∷ s) ws (h, hs) =
    ap₂ (dispatch w) (first_part-unwords c s ws h)
      (strtok_from-word [] (c ∷ s) (spaced ws) h ∙ strtok_from-spaced c s ws hs)
