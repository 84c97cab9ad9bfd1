-- ===== src/Key/Bytewise.antt =====
-- The bytes of a key that `ValidateKey` accepts.
use go_persist.Base.{
  ℕ, zero, suc, ◌+◌, ◌-◌, ◌≤◌, ◌<◌, ◌≡◌, ◌≢◌, refl, Option, none, some, [], ◌∷◌, Bytes, All, arith,
  ◌↔◌,
}
use go_persist.Result.{Error}
use go_persist.Key.{Rune, decode_rune, check_at, or_else, scan, validate_key}

-- Neither an ASCII control character nor DEL.
abbrev pub IsPlain : ℕ → Type 0
IsPlain c = (0x20 ≤ c) × (c ≢ 0x7F)

-- The first `n` bytes are no ASCII.
abbrev HighFor : ℕ → Bytes → Type 0
HighFor zero bs = Unit
HighFor (suc n) [] = Unit
HighFor (suc n) (b ∷ bs) = (0x80 ≤ b) × HighFor n bs

decode_rune-HighFor : (b : ℕ) (bs : Bytes) → HighFor ((decode_rune b bs).size - 1) bs
unfolding decode_rune
decode_rune-HighFor b [] = ground arith
decode_rune-HighFor b (b₁ ∷ []) = ground arith
decode_rune-HighFor b (b₁ ∷ b₂ ∷ []) = ground arith
decode_rune-HighFor b (b₁ ∷ b₂ ∷ b₃ ∷ bs) = ground arith

check_at-IsPlain : (i b : ℕ) (r : Rune) → check_at i b r ≡ none → IsPlain b
unfolding check_at
check_at-IsPlain i b r h = ground arith

or_else-eq-none : (a b : Option Error) → or_else a b ≡ none → (a ≡ none) × (b ≡ none)
or_else-eq-none (some e) b h = cc
or_else-eq-none none b h = (refl, h)

scan-IsPlain : (i skip : ℕ) (bs : Bytes) → HighFor skip bs → scan i skip bs ≡ none → All IsPlain bs
unfolding scan
scan-IsPlain i skip [] high h = tt
scan-IsPlain i (suc skip) (b ∷ bs) high h = (omega arith, scan-IsPlain (i + 1) skip bs high.1 h)
scan-IsPlain i zero (b ∷ bs) high h =
    let both = or_else-eq-none (check_at i b (decode_rune b bs)) _ h in
    (
      check_at-IsPlain i b (decode_rune b bs) both.0,
      scan-IsPlain (i + 1) _ bs (decode_rune-HighFor b bs) both.1,
    )

-- A key that is accepted holds no byte below 0x20 and no byte 0x7F, so no newline.
pub validate_key-IsPlain : (key : Bytes) → validate_key key ≡ none → All IsPlain key
unfolding validate_key
validate_key-IsPlain key h = scan-IsPlain 0 0 key tt h

abbrev pub IsAscii : ℕ → Type 0
IsAscii c = c < 0x80

check_at_plain : (i b : ℕ) (r : Rune) → IsAscii b → IsPlain b → check_at i b r ≡ none
unfolding check_at
check_at_plain i b r ascii plain = ground arith

size-decode_rune_ascii : (b : ℕ) (bs : Bytes) → IsAscii b → (decode_rune b bs).size - 1 ≡ 0
unfolding decode_rune
size-decode_rune_ascii b bs ascii = ground arith

scan_ascii : (i : ℕ) (bs : Bytes) → All IsAscii bs → All IsPlain bs → scan i 0 bs ≡ none
unfolding scan
scan_ascii i [] ascii plain = refl
scan_ascii i (b ∷ bs) ascii plain =
    rw (check_at_plain i b (decode_rune b bs) ascii.0 plain.0, size-decode_rune_ascii b bs ascii.0)
      (scan_ascii (i + 1) bs ascii.1 plain.1)

-- An ASCII key is accepted exactly when it holds no control character. The empty key is one.
pub validate_key_ascii :
    (key : Bytes) → All IsAscii key → (validate_key key ≡ none) ↔ All IsPlain key
unfolding validate_key
validate_key_ascii key ascii = (validate_key-IsPlain key, scan_ascii 0 key ascii)
