-- ===== src/BenchmarkLoad/Files/Sizes.antt =====
-- The sizes of the files that the load benchmark stores.
use Prim.Native.Nat.{bit_xor}
use go_persist.Base.{
  ltb, ◌/◌, ℕ, zero, suc, ◌+◌, ◌*◌, ◌%◌, ◌^◌, ◌≤◌, ◌<◌, ◌≡◌, refl, sym, ap, ◌∙◌, true, List, [],
  ◌∷◌, Bytes, codes, length, arith, equal, equal_iff, Bool-cases, inl, inr, drop, ◌==◌, ==_iff,
}
use go_persist.BenchmarkLoad.Files.{
  megabyte, fnv_write32, file_name, create_payload, get_file_size, precompute_payloads,
}
use go_persist.BenchmarkLoad.Records.{decimal, digits}
use go_persist.Env.Rand.{Payloads}

fnv_write32-bound : (h : ℕ) (bs : Bytes) → h < 4_294_967_296 → fnv_write32 h bs < 4_294_967_296
unfolding fnv_write32
fnv_write32-bound h [] small = small
fnv_write32-bound h (b ∷ bs) small =
    fnv_write32-bound (bit_xor h b * 16_777_619 % 2 ^ 32) bs (omega arith)

code_at : Bytes → ℕ
code_at [] = 0
code_at (b ∷ bs) = b

zero_name : decimal 0 ≡ codes "0"
unfolding digits
zero_name = refl

-- The digits of a number that is not zero begin with one that is not zero.
digits_first :
    (rounds n : ℕ) (later : Bytes)
    → 0 < n
    → n ≤ rounds
    → (first : ℕ) × (rest : Bytes) × (digits rounds n later ≡ first ∷ rest) × (b'0' < first)
unfolding digits
digits_first zero n later least most = absurd (omega (arith, least, most))
digits_first (suc rounds) n later least most = elim (Bool-cases (ltb n 10)) [
  | inl small ↦ (b'0' + n % 10, later, rw (small, digits) refl, ground arith)
  | inr large ↦
      let (first, rest, form, bound) =
        digits_first rounds (n / 10) ((b'0' + n % 10) ∷ later) (ground arith) (ground arith) in
      (first, rest, rw (large, digits) form, bound)
]

decimal-eq-zero : (k : ℕ) → decimal k ≡ codes "0" → k ≡ 0
unfolding code_at
decimal-eq-zero zero text = refl
decimal-eq-zero (suc n) text =
    let (first, rest, form, bound) =
      digits_first (suc (suc n)) (suc n) [] (omega arith) (omega arith) in
    let heads : first ≡ b'0' = ap (λ (b : Bytes). code_at b) (sym form ∙ text) in
    absurd (omega (arith, bound, heads))

module _ (source : Payloads) where
  -- A file has between two and five megabytes, whatever its index.
  pub get_file_size-bound :
      (i : ℕ) → (2 * megabyte ≤ get_file_size source i) × (get_file_size source i ≤ 5 * megabyte)
  unfolding get_file_size
  get_file_size-bound i =
      let small = fnv_write32-bound 2_166_136_261 (decimal i) (omega arith) in
      let most = source.scaled-bound (fnv_write32 2_166_136_261 (decimal i)) small in
      elim (Bool-cases (i == 0)) [
        | inl first ↦ rw first (omega arith, omega arith)
        | inr later ↦ rw later (omega arith, omega (arith, most))
      ]

  -- The size goes with the name of a file.
  pub same-size :
      (i k : ℕ)
      → equal (file_name i) (file_name k) ≡ true
      → get_file_size source i ≡ get_file_size source k
  unfolding get_file_size
  same-size i k same =
      let text : decimal i ≡ decimal k =
        ap (drop 5) ((equal_iff (file_name i) (file_name k)).0 same) in
      elim (Bool-cases (i == 0)) [
        | inl first ↦
            let zero_text : decimal k ≡ codes "0" =
              sym text ∙ ap decimal ((==_iff i 0).0 first) ∙ zero_name in
            rw (first, (==_iff k 0).1 (decimal-eq-zero k zero_text))
        | inr later ↦ elim (Bool-cases (k == 0)) [
          | inl first ↦
              let zero_text : decimal i ≡ codes "0" =
                text ∙ ap decimal ((==_iff k 0).0 first) ∙ zero_name in
              cc ((==_iff i 0).1 (decimal-eq-zero i zero_text), later)
          | inr also ↦
              rw (later, also)
                (ap (λ b. 2 * megabyte + source.scaled (fnv_write32 2_166_136_261 b)) text)
        ]
      ]

  -- The payloads from `i` on have the sizes of their indices.
  abbrev pub Sized : ℕ → List Bytes → Type 0
  Sized i [] = Unit
  Sized i (b ∷ bs) = (length b ≡ get_file_size source i) × Sized (suc i) bs

  pub precompute_payloads-Sized :
      (i n : ℕ)
      → Sized i (precompute_payloads source i n) × (length (precompute_payloads source i n) ≡ n)
  unfolding precompute_payloads create_payload
  precompute_payloads-Sized i zero = (tt, refl)
  precompute_payloads-Sized i (suc n) =
      let (sized, long) = precompute_payloads-Sized (suc i) n in
      ((source.length-random_bytes i (get_file_size source i), sized), ap (λ k. suc k) long)
