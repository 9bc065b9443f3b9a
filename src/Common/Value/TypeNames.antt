-- ===== src/Common/Value/TypeNames.antt =====
-- common/value.cpp: the names of the column types, toString and columnTypeFromString.
use vertex_db.Base.{
  ℕ, ◌-◌, ◌≡◌, refl, ◌&&◌, Option, none, some, [], ◌∷◌, leb, Text, text_eq, if◌then◌else◌,
}
use vertex_db.Common.Value.{ColumnType, int_type, double_type, string_type}

-- std::toupper in the C locale
abbrev pub to_upper : ℕ → ℕ
to_upper ch = if leb 97 ch && leb ch 122 then ch - 32 else ch

unfoldable pub normalize : Text → Text
normalize [] = []
normalize (ch ∷ text) = to_upper ch ∷ normalize text

-- "INT", "DOUBLE" and "STRING"
abbrev pub int_name : Text
int_name = 73 ∷ 78 ∷ 84 ∷ []

abbrev pub double_name : Text
double_name = 68 ∷ 79 ∷ 85 ∷ 66 ∷ 76 ∷ 69 ∷ []

abbrev pub string_name : Text
string_name = 83 ∷ 84 ∷ 82 ∷ 73 ∷ 78 ∷ 71 ∷ []

unfoldable pub name_of : ColumnType → Text
name_of int_type = int_name
name_of double_type = double_name
name_of string_type = string_name

unfoldable pub column_type_from_string : Text → Option ColumnType
unfolding normalize
column_type_from_string text =
    let normalized = normalize text in
    if text_eq normalized int_name
    then some int_type
    else if text_eq normalized double_name
    then some double_type
    else if text_eq normalized string_name
    then some string_type
    else none

-- The name of a type is read back as that type.
pub column_type_from_string-name_of :
    (t : ColumnType) → column_type_from_string (name_of t) ≡ some t
unfolding column_type_from_string name_of normalize text_eq
column_type_from_string-name_of int_type = refl
column_type_from_string-name_of double_type = refl
column_type_from_string-name_of string_type = refl
