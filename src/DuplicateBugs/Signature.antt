-- ===== src/DuplicateBugs/Signature.antt =====
-- `diff_signature` of find_duplicate_bug.py.
pub mod Framing
use ibex.Base.{ℕ, true, false, List, [], ◌∷◌, ◌++◌, length}
use ibex.Base.Results.{Result, err, ok, ◌>>=◌}
use ibex.Base.Text.{Text, codes, str}
use ibex.DuplicateBugs.{DiffSignature, DiffFile, Library}

abbrev no_diff : DiffSignature
no_diff = record { digest = codes "NO_DIFF"; valid = false; note = codes "no .sv.diff found" }

abbrev read_error : Text → DiffSignature
read_error e = record {
  digest = codes "READ_DIFF_ERROR";
  valid = false;
  note = codes "read diff error: " ++ e;
}

-- A length in decimal, a zero byte, and the bytes, in front of what follows.
unfoldable pub sized : List ℕ → List ℕ → List ℕ
unfolding str
sized bytes rest = str (length bytes) ++ (0 ∷ (bytes ++ rest))

-- What one file adds to the hash, with the marks "NAME\0", "\0DATA\0" and "\0END\0".
unfoldable pub frame : List ℕ → List ℕ → List ℕ → List ℕ
unfolding sized
frame name bytes rest =
    codes "NAME"
    ++ (0 ∷ sized name (0 ∷ (codes "DATA" ++ (0 ∷ sized bytes (0 ∷ (codes "END" ++ (0 ∷ rest)))))))

-- The loop over several files: all that it feeds to the hash.
unfoldable pub hashed : List DiffFile → Result Text (List ℕ)
unfolding frame
hashed [] = ok []
hashed (file ∷ files) =
    file.read >>= λ bytes. hashed files >>= λ rest. ok (frame file.name_bytes bytes rest)

abbrev signature : Library → Text → Result Text (List ℕ) → DiffSignature
signature library note (err e) = read_error e
signature library note (ok bytes) = record {
  digest = library.sha256 bytes;
  valid = true;
  note = note;
}

unfoldable pub diff_signature : Library → List DiffFile → DiffSignature
unfolding hashed str
diff_signature library [] = no_diff
diff_signature library (file ∷ []) = signature library (codes "single diff") file.read
diff_signature library (file ∷ other ∷ files) =
    signature library (codes "multiple diffs: " ++ str (length (file ∷ other ∷ files)))
      (hashed (file ∷ other ∷ files))
