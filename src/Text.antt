-- ===== src/Text.antt =====
-- Python `str` as a list of code points, and the text normalization of the domain entities
-- (packages/domain/src/workflowforge_domain: `" ".join(value.strip().split())`).
pub mod Split
pub mod Chars
use Prim.Native.Char.{code}
use Prim.Native.String.{String}
use workflow_forge.Base.{
  ℕ, ◌≡◌, Bool, true, false, ◌&&◌, ◌||◌, List, [], ◌∷◌, ◌++◌, ltb, leb, ◌==◌, if◌then◌else◌,
  is_empty, length, Error, Reason, Result, ok, raise_if, ◌>>◌, required, too_long,
}

abbrev pub Text : Type 0
Text = List ℕ

-- The code points of a literal
abbrev pub codes : String → Text
codes String.[] = []
codes (String.◌∷◌ c s) = code c ∷ codes s

-- `a == b`
abbrev pub text_eq : Text → Text → Bool
text_eq [] [] = true
text_eq (c ∷ s) (d ∷ t) = c == d && text_eq s t
text_eq _ _ = false

-- `str.isspace` of one character: the whitespace of the Unicode database.
unfoldable pub is_space : ℕ → Bool
is_space c =
    (leb 9 c && leb c 13)
    || (leb 28 c && leb c 32)
    || c == 0x85
    || c == 0xa0
    || c == 0x1680
    || (leb 0x2000 c && leb c 0x200a)
    || c == 0x2028
    || c == 0x2029
    || c == 0x202f
    || c == 0x205f
    || c == 0x3000

abbrev pub space : ℕ
space = 32

-- `s.lstrip()`, `s.rstrip()`, `s.strip()`
unfoldable pub lstrip : Text → Text
lstrip [] = []
lstrip (c ∷ s) = if is_space c then lstrip s else c ∷ s

unfoldable pub rstrip : Text → Text
rstrip [] = []
rstrip (c ∷ s) = let r = rstrip s in if is_space c && is_empty r then [] else c ∷ r

unfoldable pub strip : Text → Text
strip s = rstrip (lstrip s)

-- A word that has ended is kept if it is not empty.
abbrev pub flush : Text → List Text → List Text
flush [] ws = ws
flush (c ∷ w) ws = (c ∷ w) ∷ ws

-- The word that the text begins with, and the words after it.
unfoldable pub split_from : Text → Text × List Text
split_from [] = ([], [])
split_from (c ∷ s) =
    let (w, ws) = split_from s in if is_space c then ([], flush w ws) else (c ∷ w, ws)

-- `s.split()`
unfoldable pub split : Text → List Text
split s = let (w, ws) = split_from s in flush w ws

-- `" ".join(words)`
unfoldable pub join : List Text → Text
join [] = []
join (w ∷ []) = w
join (w ∷ v ∷ ws) = w ++ (space ∷ join (v ∷ ws))

-- `" ".join(value.strip().split())`
unfoldable pub squeeze : Text → Text
squeeze s = join (split (strip s))
