-- ===== src/Header.antt =====
-- The header line of a file: `strings.TrimSpace` and the comparison with `WalHeader` (wal.go).
use go_persist.Base.{
  ℕ, zero, suc, ◌-◌, Bool, true, ◌&&◌, ◌||◌, [], ◌∷◌, Bytes, codes, equal, ◌==◌, if◌then◌else◌,
}
use go_persist.Key.{decode_rune, within}

-- `unicode.IsSpace`
unfoldable pub is_space : ℕ → Bool
is_space r =
    within 0x09 0x0D r
    || r == 0x20
    || r == 0x85
    || r == 0xA0
    || r == 0x1680
    || within 0x2000 0x200A r
    || r == 0x2028
    || r == 0x2029
    || r == 0x202F
    || r == 0x205F
    || r == 0x3000

-- Whether only white space is left; `skip` bytes belong to the rune before.
unfoldable pub only_space : ℕ → Bytes → Bool
unfolding is_space decode_rune
only_space skip [] = true
only_space (suc skip) (b ∷ bs) = only_space skip bs
only_space zero (b ∷ bs) =
    let r = decode_rune b bs in let rest = only_space (r.size - 1) bs in is_space r.rune && rest

unfoldable pub trim_left : ℕ → Bytes → Bytes
unfolding is_space decode_rune
trim_left skip [] = []
trim_left (suc skip) (b ∷ bs) = trim_left skip bs
trim_left zero (b ∷ bs) =
    let r = decode_rune b bs in
    let rest = trim_left (r.size - 1) bs in if is_space r.rune then rest else b ∷ bs

-- A suffix of white space begins at the first byte from which there is nothing else.
unfoldable pub trim_right : Bytes → Bytes
unfolding only_space
trim_right [] = []
trim_right (b ∷ bs) = let rest = b ∷ trim_right bs in if only_space 0 (b ∷ bs) then [] else rest

unfoldable pub trim_space : Bytes → Bytes
unfolding trim_left trim_right
trim_space b = trim_right (trim_left 0 b)

unfoldable pub is_wal_header : Bytes → Bool
unfolding trim_space equal
is_wal_header line = equal (trim_space line) (codes "go-persist 1")
