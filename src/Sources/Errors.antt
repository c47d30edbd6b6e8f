-- ===== src/Sources/Errors.antt =====
-- The errors that snippets.py raises (`SbflLlmError`, and an IndexError of its own).
use ibex.Base.{ℕ, String, List, string_eq}
use ibex.Base.Results.{Result}

pub data SbflLlmError : Type 0 where
  no_source : String → SbflLlmError
  many_sources : String → List String → SbflLlmError
  line_outside : ℕ → ℕ → SbflLlmError
  no_lines : String → SbflLlmError
  unknown_mode : String → SbflLlmError
  full_too_large : ℕ → ℕ → SbflLlmError
  core_too_large : ℕ → ℕ → SbflLlmError
  index_error : SbflLlmError

abbrev pub Outcome : Type 0 → Type 0
Outcome = Result SbflLlmError
