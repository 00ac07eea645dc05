-- ===== src/Base/White.antt =====
-- `str::trim` and `str::split_whitespace` of the standard library, over UTF-8 bytes. A text is taken
-- as its characters, and a character is white if Unicode says so.
use Prim.Native.Nat.{ℕ}
use mathlib.Core.Bool.{Bool, false, ◌&&◌, ◌||◌}
use mathlib.Core.List.{List, [], ◌∷◌, ◌++◌, reverse, flatten}
use aquilo_offline.Base.Tests.{leb, ◌==◌, if◌then◌else◌}
use aquilo_offline.Base.Text.{Str}

-- The bytes grouped by characters: a continuation byte belongs to the byte before it.
prepend : ℕ → List Str → List Str
prepend b [] = (b ∷ []) ∷ []
prepend b ([] ∷ gs) = (b ∷ []) ∷ gs
prepend b ((c ∷ g) ∷ gs) =
    if leb 0x80 c && leb c 0xBF then (b ∷ c ∷ g) ∷ gs else (b ∷ []) ∷ (c ∷ g) ∷ gs

chars : Str → List Str
unfolding prepend
chars [] = []
chars (b ∷ s) = prepend b (chars s)

is_white : Str → Bool
is_white [] = false
is_white (b ∷ []) = b == 0x20 || leb 0x09 b && leb b 0x0D
is_white (a ∷ b ∷ []) = a == 0xC2 && (b == 0x85 || b == 0xA0)
is_white (a ∷ b ∷ c ∷ []) =
    a == 0xE1 && b == 0x9A && c == 0x80
    || a == 0xE2 && b == 0x80 && (leb 0x80 c && leb c 0x8A || c == 0xA8 || c == 0xA9 || c == 0xAF)
    || a == 0xE2 && b == 0x81 && c == 0x9F
    || a == 0xE3 && b == 0x80 && c == 0x80
is_white (a ∷ b ∷ c ∷ d ∷ s) = false

skip_white : List Str → List Str
unfolding is_white
skip_white [] = []
skip_white (c ∷ cs) = let rest = skip_white cs in if is_white c then rest else c ∷ cs

unfoldable pub trim : Str → Str
unfolding skip_white chars flatten
trim s = flatten (reverse (skip_white (reverse (skip_white (chars s)))))

-- The tokens between white characters; `seen` is the token that is being read.
tokens : Str → List Str → List Str
unfolding is_white
tokens [] [] = []
tokens (b ∷ seen) [] = (b ∷ seen) ∷ []
tokens [] (c ∷ cs) = tokens (if is_white c then [] else c) cs
tokens (b ∷ seen) (c ∷ cs) =
    let rest = tokens [] cs in
    let more = tokens (b ∷ seen ++ c) cs in if is_white c then (b ∷ seen) ∷ rest else more

unfoldable pub split_whitespace : Str → List Str
unfolding tokens chars
split_whitespace s = tokens [] (chars s)
