-- ===== src/Key.antt =====
-- `ValidateKey` (wal.go), over the decoder of Go's unicode/utf8.
pub mod Bytewise
use go_persist.Base.{
  ℕ, zero, suc, ◌+◌, ◌-◌, ◌*◌, ◌%◌, Bool, true, false, ◌&&◌, ◌||◌, Option, none, some, List, [],
  ◌∷◌, Bytes, ltb, leb, ◌==◌, if◌then◌else◌,
}
use go_persist.Result.{Error, control_byte, control_rune}

abbrev pub within : ℕ → ℕ → ℕ → Bool
within lo hi c = leb lo c && leb c hi

abbrev pub is_continuation : ℕ → Bool
is_continuation = within 0x80 0xBF

-- A rune and the number of its bytes.
pub record Rune : Type 0 where
  pub rune : ℕ
  pub size : ℕ

-- `utf8.RuneError`, with which one byte is consumed.
abbrev pub rune_error : Rune
rune_error = record { rune = 0xFFFD; size = 1 }

abbrev decode_two : ℕ → Bytes → Rune
decode_two b₀ (b₁ ∷ _) =
    if is_continuation b₁ then record { rune = b₀ % 32 * 64 + b₁ % 64; size = 2 } else rune_error
decode_two b₀ _ = rune_error

-- The range of the second byte excludes overlong forms and surrogates.
abbrev second_of_three : ℕ → ℕ → Bool
second_of_three b₀ b₁ =
    if b₀ == 0xE0
    then within 0xA0 0xBF b₁
    else if b₀ == 0xED
    then within 0x80 0x9F b₁
    else is_continuation b₁

abbrev decode_three : ℕ → Bytes → Rune
decode_three b₀ (b₁ ∷ b₂ ∷ _) =
    if second_of_three b₀ b₁ && is_continuation b₂
    then record { rune = (b₀ % 16 * 64 + b₁ % 64) * 64 + b₂ % 64; size = 3 }
    else rune_error
decode_three b₀ _ = rune_error

abbrev second_of_four : ℕ → ℕ → Bool
second_of_four b₀ b₁ =
    if b₀ == 0xF0
    then within 0x90 0xBF b₁
    else if b₀ == 0xF4
    then within 0x80 0x8F b₁
    else is_continuation b₁

abbrev decode_four : ℕ → Bytes → Rune
decode_four b₀ (b₁ ∷ b₂ ∷ b₃ ∷ _) =
    if second_of_four b₀ b₁ && (is_continuation b₂ && is_continuation b₃)
    then record { rune = ((b₀ % 8 * 64 + b₁ % 64) * 64 + b₂ % 64) * 64 + b₃ % 64; size = 4 }
    else rune_error
decode_four b₀ _ = rune_error

-- `utf8.DecodeRuneInString`, on a string that begins with a byte.
unfoldable pub decode_rune : ℕ → Bytes → Rune
decode_rune b₀ rest =
    if ltb b₀ 0x80
    then record { rune = b₀; size = 1 }
    else if within 0xC2 0xDF b₀
    then decode_two b₀ rest
    else if within 0xE0 0xEF b₀
    then decode_three b₀ rest
    else if within 0xF0 0xF4 b₀
    then decode_four b₀ rest
    else rune_error

-- The test of a byte, or of the rune that it begins, at position `i`.
unfoldable pub check_at : ℕ → ℕ → Rune → Option Error
check_at i b r =
    if ltb b 0x80
    then (if ltb b 0x20 || b == 0x7F then some (control_byte b i) else none)
    else if leb 0x7F r.rune && leb r.rune 0x9F
    then some (control_rune r.rune i)
    else none

abbrev pub or_else : Option Error → Option Error → Option Error
or_else (some e) later = some e
or_else none later = later

-- The loop at position `i`, where `skip` bytes belong to the rune before: a rune advances `i` by
-- its size. A byte below 0x80 is a rune of one byte.
unfoldable pub scan : ℕ → ℕ → Bytes → Option Error
scan i skip [] = none
scan i (suc skip) (b ∷ bs) = scan (i + 1) skip bs
scan i zero (b ∷ bs) =
    let r = decode_rune b bs in
    let later = scan (i + 1) (r.size - 1) bs in or_else (check_at i b r) later

-- `none` is the nil error.
unfoldable pub validate_key : Bytes → Option Error
unfolding scan check_at decode_rune
validate_key key = scan 0 0 key
