-- ===== src/Labgob/Defaults.antt =====
-- labgob.go, checkDefault: the warning about decoding into a variable that is not empty.
use Prim.Native.String.{◌++◌}
use text.Mathlib.Text.{◌==◌}
use lab_implementation.Common.{
  ℕ, zero, suc, ◌+◌, ◌≡◌, refl, ap, Bool, true, false, List, ◌∷◌, length, String, ltb,
  if◌then◌else◌, arith,
}

-- A reflect.Value as far as the check looks at it. A scalar is a Bool, a number or a String, with
-- its type's name; `none_of` is every other kind.
mutual
  pub data Value (S : Type 0) : Type 0 where
    struct_value : Fields S → Value S
    nil_ptr : Value S
    ptr_to : Value S → Value S
    scalar : (type_name : String) → S → Value S
    none_of : Value S

  pub data Fields (S : Type 0) : Type 0 where
    end_fields : Fields S
    field : (name : String) → Value S → Fields S → Fields S

-- errorCount, and the names that the warning has been printed for.
pub record Warnings : Type 0 where
  pub error_count : ℕ
  pub printed : List String

-- name + "." + field name
abbrev pub field_path : String → String → String
field_path name field_name = if name == "" then field_name else name ++ ("." ++ field_name)

abbrev pub warn : String → String → Warnings → Warnings
warn name type_name w = record {
  error_count = w.error_count + 1;
  printed =
      if ltb w.error_count 1
      then (if name == "" then type_name else name) ∷ w.printed
      else w.printed;
}

-- `is_zero` is reflect.DeepEqual with the type's zero value.
module _ {S : Type 0} (is_zero : S → Bool) where
  abbrev pub check_fields_default :
      (Value S → String → Warnings → Warnings) → Fields S → String → Warnings → Warnings
  check_fields_default call end_fields name w = w
  check_fields_default call (field field_name v fs) name w =
      check_fields_default call fs name (call v (field_path name field_name) w)

  -- checkDefault1; `levels` is 4 - depth, so that no level is left where the depth is above 3.
  abbrev pub check_default1 : ℕ → Value S → String → Warnings → Warnings
  check_default1 zero value name w = w
  check_default1 (suc levels) (struct_value fs) name w =
      check_fields_default (check_default1 levels) fs name w
  check_default1 (suc levels) nil_ptr name w = w
  check_default1 (suc levels) (ptr_to v) name w = check_default1 levels v name w
  check_default1 (suc levels) (scalar type_name x) name w =
      if is_zero x then w else warn name type_name w
  check_default1 (suc levels) none_of name w = w

  abbrev pub check_default : Value S → Warnings → Warnings
  check_default value w = check_default1 3 value "" w

  -- The scalars that are not zero, down to a level.
  abbrev pub set_fields : (Value S → ℕ) → Fields S → ℕ
  set_fields call end_fields = 0
  set_fields call (field _ v fs) = call v + set_fields call fs

  abbrev pub set_scalars : ℕ → Value S → ℕ
  set_scalars zero value = 0
  set_scalars (suc levels) (struct_value fs) = set_fields (set_scalars levels) fs
  set_scalars (suc levels) nil_ptr = 0
  set_scalars (suc levels) (ptr_to v) = set_scalars levels v
  set_scalars (suc levels) (scalar _ x) = if is_zero x then 0 else 1
  set_scalars (suc levels) none_of = 0

-- How many lines k errors print after e earlier ones: one, for the first error of all.
abbrev pub lines : ℕ → ℕ → ℕ
lines e k = if ltb e 1 then (if ltb 0 k then 1 else 0) else 0

lines-add : (e j k : ℕ) → lines e (j + k) ≡ lines e j + lines (e + j) k
lines-add e j k = ground arith

-- From w to w' there are k more errors and the lines that go with them.
record Warned (k : ℕ) (w w' : Warnings) : Type 0 where
  errors : w'.error_count ≡ w.error_count + k
  prints : length w'.printed ≡ length w.printed + lines w.error_count k

Warned-trans : (j k : ℕ) (w v u : Warnings) → Warned j w v → Warned k v u → Warned (j + k) w u
Warned-trans j k w v u g h = record {
  errors = omega (arith, g.errors, h.errors);
  prints =
      omega (arith, g.prints, h.prints, lines-add w.error_count j k, ap (λ e. lines e k) g.errors);
}

Warned-refl : (w : Warnings) → Warned 0 w w
Warned-refl w = record { errors = omega arith; prints = ground arith }

Warned-warn : (name type_name : String) (w : Warnings) → Warned 1 w (warn name type_name w)
Warned-warn name type_name w = record { errors = refl; prints = ground arith }

module _ {S : Type 0} (is_zero : S → Bool) where
  Warned-scalar :
      (b : Bool) (name type_name : String) (w : Warnings)
      → Warned (if b then 0 else 1) w (if b then w else warn name type_name w)
  Warned-scalar true name type_name w = Warned-refl w
  Warned-scalar false name type_name w = Warned-warn name type_name w

  check_fields_default-Warned :
      (levels : ℕ)
      → ((v : Value S) (name : String) (w : Warnings)
          → Warned (set_scalars is_zero levels v) w (check_default1 is_zero levels v name w))
      → (fs : Fields S) (name : String) (w : Warnings)
      → Warned
          (set_fields is_zero (set_scalars is_zero levels) fs)
          w
          (check_fields_default is_zero (check_default1 is_zero levels) fs name w)
  check_fields_default-Warned levels h end_fields name w = Warned-refl w
  check_fields_default-Warned levels h (field f v fs) name w =
      Warned-trans _ _ w (check_default1 is_zero levels v (field_path name f) w) _
        (h v (field_path name f) w) (check_fields_default-Warned levels h fs name _)

  check_default1-Warned :
      (levels : ℕ) (v : Value S) (name : String) (w : Warnings)
      → Warned (set_scalars is_zero levels v) w (check_default1 is_zero levels v name w)
  check_default1-Warned zero v name w = Warned-refl w
  check_default1-Warned (suc levels) (struct_value fs) name w =
      check_fields_default-Warned levels (check_default1-Warned levels) fs name w
  check_default1-Warned (suc levels) nil_ptr name w = Warned-refl w
  check_default1-Warned (suc levels) (ptr_to v) name w = check_default1-Warned levels v name w
  check_default1-Warned (suc levels) (scalar type_name x) name w =
      Warned-scalar (is_zero x) name type_name w
  check_default1-Warned (suc levels) none_of name w = Warned-refl w

  -- checkDefault counts one error for each scalar in the three upper levels of the value that is not
  -- zero, and prints one line if there is such a scalar and no error was counted before, and else
  -- none.
  pub check_default-warnings :
      (value : Value S) (w : Warnings)
      → ((check_default is_zero value w).error_count ≡ w.error_count + set_scalars is_zero 3 value)
        × (length (check_default is_zero value w).printed
            ≡ length w.printed
              + (if ltb w.error_count 1
                  then (if ltb 0 (set_scalars is_zero 3 value) then 1 else 0)
                  else 0))
  check_default-warnings value w =
      let i = check_default1-Warned 3 value "" w in (i.errors, i.prints)
