-- ===== src/MainConfig/Paths.antt =====
-- MainConfig.py, `validate_and_sanitize_path`, and what it uses of `os.path` on POSIX.
mod Splitting
pub mod Inside
use Prim.Native.Char.{code}
use free_tak_server.Base.{
  ℕ, String, str_append, Bool, true, false, not, ◌||◌, ◌&&◌, List, [], ◌∷◌, ◌++◌, if◌then◌else◌,
  nat_eq, ◌==◌, Exn, type_error, system_exit, Outcome, returns, raised,
}
use free_tak_server.MainConfig.Text.{split_at}
use free_tak_server.MainConfig.Values.{Value, text, boolean, items, integer, path, null}

abbrev pub slash : ℕ → Bool
slash c = nat_eq c b'/'

abbrev pub drop_last : List String → List String
drop_last [] = []
drop_last (p ∷ []) = []
drop_last (p ∷ q ∷ ps) = p ∷ drop_last (q ∷ ps)

-- The loop of `os.path.normpath` on an absolute path: the pieces so far, the pieces left.
unfoldable pub normal : List String → List String → List String
normal done [] = done
normal done (p ∷ ps) =
    let skip = normal done ps in
    let up = normal (drop_last done) ps in
    let down = normal (done ++ p ∷ []) ps in
    if p == "" || p == "." then skip else if p == ".." then up else down

abbrev pub join : List String → String
join [] = ""
join (p ∷ []) = p
join (p ∷ q ∷ ps) = str_append p (str_append "/" (join (q ∷ ps)))

-- The slashes that `normpath` keeps at the front: two stay two, three become one.
abbrev pub leading : List String → String
leading (a ∷ b ∷ c ∷ d ∷ ps) = if a == "" && b == "" && not (c == "") then "//" else "/"
leading (a ∷ b ∷ c ∷ []) = if a == "" && b == "" then "//" else "/"
leading _ = "/"

-- `os.path.normpath(s)`, of a path that begins with a slash.
unfoldable pub normpath : String → String
unfolding normal split_at
normpath s = str_append (leading (split_at slash s)) (join (normal [] (split_at slash s)))

-- `[x for x in path.split(sep) if x]`
unfoldable pub names : List String → List String
names [] = []
names (p ∷ ps) = let rest = names ps in if p == "" then rest else p ∷ rest

abbrev pub relative : List String → String
relative [] = "."
relative (p ∷ ps) = join (p ∷ ps)

-- `os.path.relpath(s, os.sep)`, of a path that begins with a slash.
unfoldable pub relpath : String → String
unfolding normpath split_at names
relpath s = relative (names (split_at slash (normpath s)))

-- `os.path.join(os.sep, s)`
abbrev pub from_root : String → String
from_root String.[] = "/"
from_root (String.◌∷◌ c s) =
    if slash (code c) then String.◌∷◌ c s else str_append "/" (String.◌∷◌ c s)

-- `ROOTPATH + os.path.relpath(os.path.normpath(os.path.join(os.sep, path)), os.sep)`
unfoldable pub sanitized : String → String
unfolding relpath normpath
sanitized s = str_append "/" (relpath (normpath (from_root s)))

-- `validate_and_sanitize_path`; `access` is `os.access` for existence and for writing.
unfoldable pub validate_and_sanitize_path : (String → Bool) → Value → Outcome Value
unfolding sanitized
validate_and_sanitize_path access (text s) =
    if access (sanitized s) then returns (text (sanitized s)) else raised system_exit
validate_and_sanitize_path access (path s) =
    if access (sanitized s) then returns (text (sanitized s)) else raised system_exit
validate_and_sanitize_path access _ = raised type_error
