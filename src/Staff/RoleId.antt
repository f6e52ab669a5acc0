-- ===== src/Staff/RoleId.antt =====
-- packages/mock/src/store.ts, `createRole`: the id that a role gets of its name.
use Prim.Native.String
use Prim.Native.String.{String}
use Prim.Native.Char.{code}
use twenty_four.Prelude.{ℕ, false, Bool, not, ◌&&◌, ◌||◌, leb, nat_eq, if◌then◌else◌}
use twenty_four.Prelude.Equality.{◌==◌, eq_String}
use twenty_four.Prelude.Decimal.{is_digit}

-- `[a-z0-9]`
abbrev pub is_id_char : ℕ → Bool
is_id_char c = is_digit c || leb 97 c && leb c 122

-- `.replace(/[^a-z0-9]+/g, '_')`; the flag says that the run before has its underscore already.
unfoldable pub underscored : Bool → String → String
underscored in_run String.[] = ""
underscored in_run (String.◌∷◌ c s) =
    let kept = is_id_char (code c) in
    let rest = underscored (not kept) s in
    if kept then String.◌∷◌ c rest else if in_run then rest else String.◌++◌ "_" rest

-- `/^_/`
abbrev pub front_off : String → String
front_off String.[] = ""
front_off (String.◌∷◌ c s) = if nat_eq (code c) 95 then s else String.◌∷◌ c s

-- `/_$/`
unfoldable pub back_off : String → String
back_off String.[] = ""
back_off (String.◌∷◌ c s) =
    let rest = back_off s in if nat_eq (code c) 95 && s == "" then "" else String.◌∷◌ c rest

unfoldable pub role_id : (trim lowercase : String → String) → String → String
role_id trim lowercase name = back_off (front_off (underscored false (lowercase (trim name))))
