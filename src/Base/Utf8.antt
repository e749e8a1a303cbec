-- ===== src/Base/Utf8.antt =====
-- UTF-8 sequences, as unicode/utf8 reads them.
use Prim.Native.Nat.{ℕ, ◌<◌}
use mathlib.Core.Bool.{Bool, ◌&&◌}
use mathlib.Core.List.{[], ◌∷◌}
use migp.Base.Tests.{leb, ◌==◌, if◌then◌else◌}
use migp.Base.Buffer.{Bytes}

-- lo ≤ r ≤ hi
abbrev pub within : ℕ → ℕ → ℕ → Bool
within lo hi r = leb lo r && leb r hi

-- A byte that continues a UTF-8 sequence.
abbrev continues : ℕ → Bool
continues = within 0x80 0xbf

-- The least and the greatest second byte behind a first byte of three or four.
abbrev second_ok : ℕ → ℕ → Bool
second_ok a b =
    if a == 0xe0
    then within 0xa0 0xbf b
    else if a == 0xed
    then within 0x80 0x9f b
    else if a == 0xf0
    then within 0x90 0xbf b
    else if a == 0xf4
    then within 0x80 0x8f b
    else continues b

-- The width that `utf8.DecodeRune` gives, less one; an invalid byte has width 1.
unfoldable pub rest_width : ℕ → Bytes → ℕ
rest_width a (b ∷ c ∷ d ∷ s) =
    if within 0xc2 0xdf a && continues b
    then 1
    else if within 0xe0 0xef a && second_ok a b && continues c
    then 2
    else if within 0xf0 0xf4 a && second_ok a b && continues c && continues d
    then 3
    else 0
rest_width a (b ∷ c ∷ []) =
    if within 0xc2 0xdf a && continues b
    then 1
    else if within 0xe0 0xef a && second_ok a b && continues c
    then 2
    else 0
rest_width a (b ∷ []) = if within 0xc2 0xdf a && continues b then 1 else 0
rest_width a [] = 0

-- A byte below 2 ^ 7, which is a sequence of its own.
abbrev pub IsAscii : ℕ → Type 0
IsAscii b = b < 128
