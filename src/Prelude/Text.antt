-- ===== src/Prelude/Text.antt =====
-- The text rules that every contract of the platform repeats: `str.strip`, non-empty text and
-- SHA-256 digests (`_text`, `_optional_text`, `_digest`, `_optional_digest`, `_texts`, `_digests`).
use Prim.Native.Nat.{ℕ}
use Prim.Native.Char.{code}
use Prim.Native.String.{String, [], ◌∷◌, count}
use mathlib.Core.Path.{◌≡◌, refl}
use mathlib.Core.Bool.{Bool, true, false, ◌&&◌, ◌||◌}
use dsp.Prelude.Tests.{leb, nat_eq, if◌then◌else◌}

-- the characters that `str.strip` removes
unfoldable pub is_space : ℕ → Bool
is_space c =
    (leb 9 c && leb c 13)
    || (leb 28 c && leb c 32)
    || nat_eq c 133
    || nat_eq c 160
    || nat_eq c 5760
    || (leb 8192 c && leb c 8202)
    || nat_eq c 8232
    || nat_eq c 8233
    || nat_eq c 8239
    || nat_eq c 8287
    || nat_eq c 12288

unfoldable pub lstrip : String → String
lstrip [] = []
lstrip (c ∷ s) = let rest = lstrip s in if is_space (code c) then rest else c ∷ s

-- a character in front of a text that is already stripped on the right
abbrev pub keep_unless : Bool → String → String → String
keep_unless true [] s = []
keep_unless true (d ∷ t) s = s
keep_unless false t s = s

unfoldable pub rstrip : String → String
rstrip [] = []
rstrip (c ∷ s) = keep_unless (is_space (code c)) (rstrip s) (c ∷ rstrip s)

-- str.strip()
unfoldable pub strip : String → String
unfolding lstrip rstrip is_space
strip s = lstrip (rstrip s)

-- one of 0-9a-f
unfoldable pub is_hex : ℕ → Bool
is_hex c = (leb b'0' c && leb c b'9') || (leb b'a' c && leb c b'f')

unfoldable pub all_hex : String → Bool
unfolding is_hex
all_hex [] = true
all_hex (c ∷ s) = is_hex (code c) && all_hex s

-- _DIGEST_RE = ^[0-9a-f]{64}$
unfoldable pub is_digest : String → Bool
unfolding all_hex
is_digest s = nat_eq (count s) 64 && all_hex s

strip_test : strip "  a b\t " ≡ "a b"
unfolding strip
strip_test = refl
