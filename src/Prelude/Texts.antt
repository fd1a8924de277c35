-- ===== src/Prelude/Texts.antt =====
-- What the source does with strings beyond comparing them.
use Prim.Native.Char.{code}
use Prim.Native.String.{String, [], ◌∷◌}
use mathlib.Core.List.{List, [] as nil, ◌∷◌ as ◌then◌}
use text.Mathlib.Text.{◌==◌ as str_eq}
use Prim.Native.Nat.{ℕ}
use mathlib.Core.Bool.{Bool, false, ◌||◌}
use mathlib.Core.Option.{Option, none, some, map as map_option}
use conductor_ros.Prelude.Tests.{if◌then◌else◌, ◌==◌}

-- `strings.TrimSuffix(s, suffix)` where s has that suffix, which is not empty.
unfoldable pub trim_suffix : String → String → Option String
trim_suffix suffix [] = none
trim_suffix suffix (c ∷ s) =
    let rest = trim_suffix suffix s in
    if str_eq suffix (c ∷ s) then some "" else map_option (λ r. c ∷ r) rest

-- What follows the last dot of `s`, and `s` where there is none: `strings.LastIndex` and a slice.
unfoldable pub after_dot : String → String → String
after_dot found [] = found
after_dot found (c ∷ s) = after_dot (if code c == 46 then s else found) s

-- `strings.ContainsAny(s, " \t/")`.
unfoldable pub has_separator : String → Bool
has_separator [] = false
has_separator (c ∷ s) = code c == 32 || (code c == 9 || code c == 47) || has_separator s

-- The runes of a string, as `range` gives them.
unfoldable pub runes : String → List ℕ
runes [] = nil
runes (c ∷ s) = code c then runes s
