-- ===== src/CoreConfig/Read/Fields.antt =====
-- Which values the readers of one field accept.
use ibex.Base.{zero, suc, ◌≡◌, ◌↔◌, refl, Bool, true, false, some, String, string_eq, arith}
use ibex.Base.Dict.{Dict, lookup}
use ibex.Base.Results.{Result, ok, ◌>>=◌, >>=-eq-ok}
use ibex.Base.Text.{Text}
use ibex.Base.Int.{ℤ, pos, negsuc}
use ibex.CoreConfig.Yaml.{Value, boolean, integer, string, other}
use ibex.CoreConfig.Read.{
  FieldType, bool_type, str_type, int_type, ConfigError, read_bool, read_int, read_str, subscript,
  to_bool, to_int, to_str,
}

-- The values that a field of the type may have.
abbrev pub accepts : FieldType → Value → Bool
accepts bool_type (boolean b) = true
accepts bool_type (integer (pos zero)) = true
accepts bool_type (integer (pos (suc zero))) = true
accepts int_type (boolean b) = true
accepts int_type (integer n) = true
accepts str_type (string s) = true
accepts typ val = false

abbrev pub IsTyped : Dict String Value → String × FieldType → Type 0
IsTyped yml (fld, typ) = (val : Value) × (lookup fld yml ≡ some val) × (accepts typ val ≡ true)

pub subscript-ok :
    (fld : String) (yml : Dict String Value) (val : Value)
    → (subscript fld yml ≡ ok val) ↔ (lookup fld yml ≡ some val)
unfolding subscript
subscript-ok fld yml val = ground arith

-- A field is read exactly if its value is one that the reader accepts.
read-ok :
    {A : Type 0} (typ : FieldType) (to : String → Value → Result ConfigError A)
    → ((fld : String) (val : Value) → ((v : A) × (to fld val ≡ ok v)) ↔ (accepts typ val ≡ true))
    → (fld : String) (yml : Dict String Value)
    → ((v : A) × ((subscript fld yml >>= to fld) ≡ ok v)) ↔ IsTyped yml (fld, typ)
read-ok typ to law fld yml = (
  λ (v, h).
      let (val, has, read) = >>=-eq-ok (subscript fld yml) (to fld) h in
      (val, (subscript-ok fld yml val).0 has, (law fld val).0 (v, read)),
  λ (val, has, fits).
      let (v, read) = (law fld val).1 fits in (v, rw ((subscript-ok fld yml val).1 has) read),
)

to_bool-ok :
    (fld : String) (val : Value)
    → ((v : Bool) × (to_bool fld val ≡ ok v)) ↔ (accepts bool_type val ≡ true)
to_bool-ok fld (boolean b) = (λ _. refl, λ _. (b, refl))
to_bool-ok fld (integer (pos zero)) = (λ _. refl, λ _. (false, refl))
to_bool-ok fld (integer (pos (suc zero))) = (λ _. refl, λ _. (true, refl))
to_bool-ok fld (integer (pos (suc (suc n)))) = (λ (v, h). absurd cc, λ h. absurd cc)
to_bool-ok fld (integer (negsuc n)) = (λ (v, h). absurd cc, λ h. absurd cc)
to_bool-ok fld (string s) = (λ (v, h). absurd cc, λ h. absurd cc)
to_bool-ok fld (other s) = (λ (v, h). absurd cc, λ h. absurd cc)

pub read_bool-ok :
    (fld : String) (yml : Dict String Value)
    → ((v : Bool) × (read_bool fld yml ≡ ok v)) ↔ IsTyped yml (fld, bool_type)
unfolding read_bool
read_bool-ok = read-ok bool_type to_bool to_bool-ok

to_int-ok :
    (fld : String) (val : Value)
    → ((v : ℤ) × (to_int fld val ≡ ok v)) ↔ (accepts int_type val ≡ true)
to_int-ok fld (boolean true) = (λ _. refl, λ _. (pos 1, refl))
to_int-ok fld (boolean false) = (λ _. refl, λ _. (pos 0, refl))
to_int-ok fld (integer n) = (λ _. refl, λ _. (n, refl))
to_int-ok fld (string s) = (λ (v, h). absurd cc, λ h. absurd cc)
to_int-ok fld (other s) = (λ (v, h). absurd cc, λ h. absurd cc)

pub read_int-ok :
    (fld : String) (yml : Dict String Value)
    → ((v : ℤ) × (read_int fld yml ≡ ok v)) ↔ IsTyped yml (fld, int_type)
unfolding read_int
read_int-ok = read-ok int_type to_int to_int-ok

to_str-ok :
    (fld : String) (val : Value)
    → ((v : Text) × (to_str fld val ≡ ok v)) ↔ (accepts str_type val ≡ true)
to_str-ok fld (boolean b) = (λ (v, h). absurd cc, λ h. absurd cc)
to_str-ok fld (integer n) = (λ (v, h). absurd cc, λ h. absurd cc)
to_str-ok fld (string s) = (λ _. refl, λ _. (s, refl))
to_str-ok fld (other s) = (λ (v, h). absurd cc, λ h. absurd cc)

pub read_str-ok :
    (fld : String) (yml : Dict String Value)
    → ((v : Text) × (read_str fld yml ≡ ok v)) ↔ IsTyped yml (fld, str_type)
unfolding read_str
read_str-ok = read-ok str_type to_str to_str-ok
