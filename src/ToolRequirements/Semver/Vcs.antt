-- ===== src/ToolRequirements/Semver/Vcs.antt =====
-- What `VcsToolReq.to_semver` of check_tool_requirements.py makes of a version.
use ibex.Base.{
  ℕ, ◌+◌, ◌*◌, ◌≡◌, refl, ap, ◌∙◌, true, false, Option, none, some, List, [], ◌∷◌, ◌++◌, All, arith,
  append-nil,
}
use ibex.Base.Decimals.{IsDigit, value}
use ibex.Base.Text.{Text, codes, str}
use ibex.ToolRequirements.{vcs}
use ibex.ToolRequirements.Regex.{
  Matches, each, first, is_digit, digits1, many, literal, any_char, optional, dollar,
}
use ibex.ToolRequirements.Semver.{
  number, vcs_text, end_of, vcs_dot, vcs_minor, vcs_sp, vcs_patch, vcs_semver, to_semver,
}

-- No digit stands in front.
abbrev Ends : Text → Type 0
Ends [] = Unit
Ends (c ∷ s) = is_digit c ≡ false

is_digit-true : (d : ℕ) → IsDigit d → is_digit d ≡ true
is_digit-true d (low, high) = ground arith

-- The longest match of `[0-9]+` comes first.
digits1-first :
    (d : ℕ) (ds rest : Text)
    → All IsDigit (d ∷ ds)
    → Ends rest
    → (others : Matches Text) × (digits1 (d ∷ (ds ++ rest)) ≡ (d ∷ ds, rest) ∷ others)
unfolding many
digits1-first d [] [] (digit, _) _ = rw (is_digit-true d digit) ([], refl)
digits1-first d [] (c ∷ rest) (digit, _) h = rw (is_digit-true d digit, h) ([], refl)
digits1-first d (e ∷ ds) rest (digit, others) h =
    let (more, e1) = digits1-first e ds rest others h in rw (is_digit-true d digit, e1) (_, refl)

-- The first match of the whole is behind the first match of its first part.
each-first :
    {A B : Type 0} (matches others : Matches A) (a : A) (s : Text) (rest : A → Text → List B)
    (b : B)
    → matches ≡ (a, s) ∷ others
    → ((more : List B) × (rest a s ≡ b ∷ more))
    → (more : List B) × (each matches rest ≡ b ∷ more)
unfolding each
each-first matches others a s rest b e (more, e1) = rw (e, e1) (_, refl)

-- `Y.M-SPn` for texts of digits, and what stands for it.
module _ (y m p : ℕ) (ys ms ps : Text) where
  abbrev pub sp_version : Text
  sp_version = y ∷ (ys ++ (b'.' ∷ (m ∷ (ms ++ (codes "-SP" ++ (p ∷ ps))))))

  abbrev sp_text : Text
  sp_text = vcs_text (y ∷ ys) (m ∷ ms) (some (p ∷ ps)) none

  sp-optional :
      All IsDigit (p ∷ ps)
      → (others : Matches (Option Text)) × (optional (codes "-SP") (codes "-SP" ++ (p ∷ ps))
          ≡ (some (p ∷ ps), []) ∷ others)
  unfolding optional each literal
  sp-optional digits =
      let (more, e) = digits1-first p ps [] digits tt in
      let e1 : digits1 (p ∷ ps) ≡ (p ∷ ps, []) ∷ more = rw (append-nil ps) at e in rw e1 (_, refl)

  vcs_semver-sp :
      All IsDigit (y ∷ ys)
      → All IsDigit (m ∷ ms)
      → All IsDigit (p ∷ ps)
      → (others : List Text) × (vcs_semver true sp_version ≡ sp_text ∷ others)
  unfolding vcs_semver vcs_dot vcs_minor vcs_sp vcs_patch any_char each optional literal end_of
      dollar
  vcs_semver-sp hy hm hp =
      let (other_majors, major) =
        digits1-first y ys (b'.' ∷ (m ∷ (ms ++ (codes "-SP" ++ (p ∷ ps))))) hy refl in
      let (other_minors, minor) = digits1-first m ms (codes "-SP" ++ (p ∷ ps)) hm refl in
      let (other_sps, sp) = sp-optional hp in
      each-first _ other_majors _ _ (vcs_dot true) sp_text major (
        each-first _ [] tt (m ∷ (ms ++ (codes "-SP" ++ (p ∷ ps)))) (vcs_minor true (y ∷ ys)) sp_text
          refl
          (each-first _ other_minors _ _ (vcs_sp true (y ∷ ys)) sp_text minor
            (each-first _ other_sps _ _ (vcs_patch true (y ∷ ys) (m ∷ ms)) sp_text sp ([], refl))))

  -- A requirement `Y.M-SPn` stands for the text `Y.M` with 100 times n behind it, in the second of
  -- two components.
  pub to_semver-sp :
      All IsDigit (y ∷ ys)
      → All IsDigit (m ∷ ms)
      → All IsDigit (p ∷ ps)
      → to_semver vcs true sp_version
        ≡ some ((y ∷ ys) ++ (codes "." ++ ((m ∷ ms) ++ str (value 0 (p ∷ ps) * 100))))
  unfolding to_semver vcs_text number
  to_semver-sp hy hm hp =
      let (others, e) = vcs_semver-sp hy hm hp in
      let no_patch : value 0 (p ∷ ps) * 100 + 0 ≡ value 0 (p ∷ ps) * 100 = omega arith in
      ap first e ∙ ap (λ n. some ((y ∷ ys) ++ (codes "." ++ ((m ∷ ms) ++ str n)))) no_patch
