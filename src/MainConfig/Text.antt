-- ===== src/MainConfig/Text.antt =====
-- What MainConfig.py takes from Python's texts: splitting, suffixes, upper case, `int` and `str` of
-- numbers. Upper case and digits are those of ASCII.
use Prim.Native.Char.{code}
use Prim.Native.Nat.{◌/◌, ◌%◌}
use free_tak_server.Base.{
  ℕ, zero, suc, ◌+◌, ◌-◌, ◌*◌, String, str_append, Bool, true, false, ◌&&◌, ◌||◌, Option, none,
  some, List, [], ◌∷◌, ◌==◌, nat_eq, ltb, leb, not, if◌then◌else◌,
}

abbrev pub codes : String → List ℕ
codes String.[] = []
codes (String.◌∷◌ c s) = code c ∷ codes s

-- The list of pieces with a character put before the first.
abbrev pub put_first : String → List String → List String
put_first c [] = c ∷ []
put_first c (p ∷ ps) = str_append c p ∷ ps

-- `re.split` at each single character that `cuts` accepts; there is always a last piece.
unfoldable pub split_at : (ℕ → Bool) → String → List String
split_at cuts String.[] = "" ∷ []
split_at cuts (String.◌∷◌ c s) =
    let rest = split_at cuts s in
    if cuts (code c) then "" ∷ rest else put_first (String.◌∷◌ c "") rest

-- `re.split(r':|,', s)`
abbrev pub split_list : String → List String
split_list = split_at (λ c. nat_eq c b':' || nat_eq c b',')

-- `s.endswith(t)`
unfoldable pub ends_with : String → String → Bool
ends_with String.[] t = "" == t
ends_with (String.◌∷◌ c s) t = let rest = ends_with s t in String.◌∷◌ c s == t || rest

abbrev pub upper : ℕ → ℕ
upper c = if leb b'a' c && leb c b'z' then c - 32 else c

-- `s.upper() == t`, for a text `t` in upper case.
abbrev pub same_codes : List ℕ → List ℕ → Bool
same_codes [] [] = true
same_codes [] (y ∷ ys) = false
same_codes (x ∷ xs) [] = false
same_codes (x ∷ xs) (y ∷ ys) = nat_eq (upper x) y && same_codes xs ys

-- `env_value.upper() in ('1', 'TRUE', 'YES', 'Y')`
unfoldable pub is_yes : String → Bool
is_yes s =
    let cs = codes s in
    same_codes cs (codes "1")
    || same_codes cs (codes "TRUE")
    || same_codes cs (codes "YES")
    || same_codes cs (codes "Y")

abbrev pub is_digit : ℕ → Bool
is_digit c = leb b'0' c && leb c b'9'

-- The digits of a number after one digit: digits, or an underscore and a digit.
unfoldable pub read_digits : ℕ → List ℕ → Option ℕ
read_digits n [] = some n
read_digits n (c ∷ []) = if is_digit c then some (n * 10 + (c - b'0')) else none
read_digits n (c ∷ d ∷ cs) =
    let plain = read_digits (n * 10 + (c - b'0')) (d ∷ cs) in
    let joined = read_digits (n * 10 + (d - b'0')) cs in
    if is_digit c then plain else if nat_eq c b'_' && is_digit d then joined else none

unfoldable pub read_ℕ : List ℕ → Option ℕ
unfolding read_digits
read_ℕ [] = none
read_ℕ (c ∷ cs) = if is_digit c then read_digits (c - b'0') cs else none

abbrev pub is_space : ℕ → Bool
is_space c = nat_eq c 32 || (leb 9 c && leb c 13)

unfoldable pub skip_spaces : List ℕ → List ℕ
skip_spaces [] = []
skip_spaces (c ∷ cs) = let rest = skip_spaces cs in if is_space c then rest else c ∷ cs

-- Spaces at the end go too.
unfoldable pub trim_end : List ℕ → List ℕ
trim_end [] = []
trim_end (c ∷ cs) = elim (trim_end cs) [
  | [] ↦ if is_space c then [] else c ∷ []
  | d ∷ ds ↦ c ∷ d ∷ ds
]

-- `int(s)`: the sign, where it is a minus, and the size.
unfoldable pub read_int : String → Option (Bool × ℕ)
unfolding read_ℕ skip_spaces trim_end
read_int s = elim (trim_end (skip_spaces (codes s))) [
  | [] ↦ none
  | c ∷ cs ↦
      if nat_eq c b'-'
      then signed true (read_ℕ cs)
      else if nat_eq c b'+'
      then signed false (read_ℕ cs)
      else signed false (read_ℕ (c ∷ cs))
]
  where
    signed : Bool → Option ℕ → Option (Bool × ℕ)
    signed minus none = none
    signed minus (some n) = some (minus, n)

abbrev digit_from : List String → ℕ → String
digit_from [] n = ""
digit_from (d ∷ ds) zero = d
digit_from (d ∷ ds) (suc n) = digit_from ds n

abbrev digit : ℕ → String
digit = digit_from ("0" ∷ "1" ∷ "2" ∷ "3" ∷ "4" ∷ "5" ∷ "6" ∷ "7" ∷ "8" ∷ "9" ∷ [])

-- The decimal digits of a number, on fuel; a number above zero has fewer digits than its size.
unfoldable pub digits : ℕ → ℕ → String
digits zero n = ""
digits (suc fuel) n =
    let rest = digits fuel (n / 10) in str_append (if ltb n 10 then "" else rest) (digit (n % 10))

-- `str(n)`
abbrev pub show_int : Bool → ℕ → String
show_int minus n = str_append (if minus then "-" else "") (digits (suc n) n)

abbrev pub contains_code : ℕ → String → Bool
contains_code k String.[] = false
contains_code k (String.◌∷◌ c s) = nat_eq (code c) k || contains_code k s

-- A text with a backslash before each backslash and each `quote`.
unfoldable pub escape : ℕ → String → String
escape quote String.[] = ""
escape quote (String.◌∷◌ c s) =
    let rest = String.◌∷◌ c (escape quote s) in
    if nat_eq (code c) 92 || nat_eq (code c) quote then str_append "\\" rest else rest

-- `repr(s)` of a text of printable characters.
unfoldable pub repr : String → String
unfolding escape
repr s =
    if contains_code 39 s && not (contains_code 34 s)
    then str_append "\"" (str_append (escape 34 s) "\"")
    else str_append "'" (str_append (escape 39 s) "'")

abbrev pub reprs : List String → String
reprs [] = ""
reprs (x ∷ []) = repr x
reprs (x ∷ y ∷ ys) = str_append (repr x) (str_append ", " (reprs (y ∷ ys)))

-- `str(xs)` of a list of texts.
abbrev pub show_list : List String → String
show_list xs = str_append "[" (str_append (reprs xs) "]")
