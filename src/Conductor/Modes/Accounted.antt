-- ===== src/Conductor/Modes/Accounted.antt =====
-- What `info_mode` of conductor.py reports, beside what `--check-complete` tests.
use ibex.Base.{◌≡◌, refl, sym, ◌∙◌, ◌&&◌, not, List, [], ◌∷◌, contains, arith}
use ibex.Base.Text.{Text, text_eq}
use ibex.Conductor.Modes.{unaccounted}
use ibex.Conductor.Strategy.{Strategy, done_props, missing_from}
use ibex.Conductor.Strategy.File.{contains-missing_from}

contains-unaccounted :
    (accounted_for props : List Text) (p : Text)
    → contains (unaccounted accounted_for props) p
      ≡ contains props p && not (contains accounted_for p)
unfolding unaccounted
contains-unaccounted accounted_for [] p = refl
contains-unaccounted accounted_for (q ∷ props) p =
    ground (
      arith,
      contains-unaccounted accounted_for props p,
      contains-unaccounted accounted_for props q,
    )

-- `info` reports as unaccounted exactly what `missing_from` returns, which `explore` builds and
-- `--missing` selects.
pub unaccounted-missing_from :
    (strategy : List Strategy) (props : List Text) (p : Text)
    → contains (unaccounted (done_props strategy) props) p
      ≡ contains (missing_from strategy props) p
unaccounted-missing_from strategy props p =
    contains-unaccounted (done_props strategy) props p
    ∙ sym (contains-missing_from strategy props p)
