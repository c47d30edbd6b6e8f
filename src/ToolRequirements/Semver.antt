-- ===== src/ToolRequirements/Semver.antt =====
-- `to_semver` of the classes of check_tool_requirements.py.
pub mod Vcs
use ibex.Base.{
  ℕ, ◌+◌, ◌*◌, Bool, true, false, Option, none, some, List, [], ◌∷◌, ◌++◌, map, if◌then◌else◌,
}
use ibex.Base.Decimals.{value}
use ibex.Base.Text.{Text, codes, join, str}
use ibex.ToolRequirements.{Kind, plain, edalize, vcs, verible, verilator, vivado, ninja}
use ibex.ToolRequirements.Regex.{
  Matches, each, first, is_hex, digits1, many, literal, any_char, optional, at_end, dollar,
}

-- `'.'.join(...)` of three groups.
unfoldable pub three : Text → Text → Text → Text
unfolding join
three major minor patch = join (codes ".") (major ∷ minor ∷ patch ∷ [])

-- `v([0-9]+)\.([0-9]+)-([0-9]+)-g[0-9a-f]+$`, of the full text.
unfoldable pub verible_semver : Text → List Text
unfolding each many literal at_end three
verible_semver version = each (literal (codes "v") version) λ _ s. each (digits1 s) λ major s.
    each (literal (codes ".") s) λ _ s. each (digits1 s) λ minor s.
      each (literal (codes "-") s) λ _ s. each (digits1 s) λ patch s.
        each (literal (codes "-g") s)
          λ _ s. each (many is_hex s) λ _ s. each (at_end s) λ _ _. three major minor patch ∷ []

-- `m.group(3) or '0'`
abbrev or_zero : Option Text → Text
or_zero none = codes "0"
or_zero (some patch) = patch

-- `([0-9]+)\.([0-9]+)(?:\.([0-9]+))?`, of the full text.
unfoldable pub vivado_semver : Text → List Text
unfolding each many literal optional at_end three
vivado_semver version = each (digits1 version) λ major s. each (literal (codes ".") s) λ _ s.
    each (digits1 s) λ minor s.
      each (optional (codes ".") s)
        λ patch s. each (at_end s) λ _ _. three major minor (or_zero patch) ∷ []

-- `([0-9]+)\.([0-9]+)\.([0-9]+)`, at the start.
unfoldable pub ninja_semver : Text → List Text
unfolding each many literal three
ninja_semver version = each (digits1 version) λ major s. each (literal (codes ".") s) λ _ s.
    each (digits1 s) λ minor s.
      each (literal (codes ".") s) λ _ s. each (digits1 s) λ patch _. three major minor patch ∷ []

-- `int(group or 0)`
unfoldable pub number : Option Text → ℕ
unfolding value
number none = 0
number (some text) = value 0 text

-- `'{}.{}{}'.format(major, minor, comb)`
unfoldable pub vcs_text : Text → Text → Option Text → Option Text → Text
unfolding number str
vcs_text major minor sp patch =
    major ++ (codes "." ++ (minor ++ str (number sp * 100 + number patch)))

-- The end that the requirement has to reach.
unfoldable pub end_of : Bool → Text → Matches (Unit {0})
unfolding dollar
end_of true s = dollar s
end_of false s = (tt, s) ∷ []

-- `([0-9]+).([0-9]+)(?:-SP([0-9]+))?(?:-([0-9]+))?`, with `$` for a requirement; from its last
-- parts to the whole.
unfoldable pub vcs_patch : Bool → Text → Text → Option Text → Text → List Text
unfolding each many optional end_of vcs_text
vcs_patch from_req major minor sp s =
    each (optional (codes "-") s)
      λ patch s. each (end_of from_req s) λ _ _. vcs_text major minor sp patch ∷ []

unfoldable pub vcs_sp : Bool → Text → Text → Text → List Text
unfolding vcs_patch
vcs_sp from_req major minor s = each (optional (codes "-SP") s) (vcs_patch from_req major minor)

unfoldable pub vcs_minor : Bool → Text → Unit {0} → Text → List Text
unfolding vcs_sp
vcs_minor from_req major _ s = each (digits1 s) (vcs_sp from_req major)

unfoldable pub vcs_dot : Bool → Text → Text → List Text
unfolding vcs_minor any_char
vcs_dot from_req major s = each (any_char s) (vcs_minor from_req major)

unfoldable pub vcs_semver : Bool → Text → List Text
unfolding vcs_dot
vcs_semver from_req version = each (digits1 version) (vcs_dot from_req)

-- None where the code raises a ValueError.
unfoldable pub to_semver : Kind → Bool → Text → Option Text
unfolding verible_semver vivado_semver vcs_semver ninja_semver
to_semver verible from_req version = first (verible_semver version)
to_semver vivado from_req version = first (vivado_semver version)
to_semver vcs from_req version = first (vcs_semver from_req version)
to_semver ninja from_req version = first (ninja_semver version)
to_semver _ from_req version = some version
