-- ===== src/BenchmarkLoad/Text.antt =====
-- The words and the texts that the load benchmark generates (benchmark-load/main.go).
use go_persist.Base.{
  ℕ, zero, suc, ◌+◌, ◌≤◌, ◌<◌, ◌≡◌, refl, ap, ◌∙◌, Bool, true, false, Option, none, some, [], ◌∷◌,
  ◌++◌, Bytes, codes, length, length-append, take, ltb, arith, if◌then◌else◌, Bool-cases, inl, inr,
}
use go_persist.Env.Rand.{Rand}

-- `weightedWordLetters`
abbrev pub weighted_word_letters : Bytes
weighted_word_letters =
    codes "eeeeeeeeeeeettttttttttaaaaaaaoooooooiiiiiiinnnnnnnssssssrrrrrrddd"
    ++ codes "llluuccmmffggyywwppbbkkxjvqzabcdefghijklmnopqrstuvwxyz0123456789"

-- `s[i]`; `none` is a panic.
abbrev pub byte_at : ℕ → Bytes → Option ℕ
byte_at i [] = none
byte_at zero (c ∷ cs) = some c
byte_at (suc i) (c ∷ cs) = byte_at i cs

byte_at-some : (i : ℕ) (cs : Bytes) → i < length cs → (c : ℕ) × (byte_at i cs ≡ some c)
byte_at-some i [] h = absurd (omega arith)
byte_at-some zero (c ∷ cs) h = (c, refl)
byte_at-some (suc i) (c ∷ cs) h = byte_at-some i cs (omega arith)

module _ ⦃rand : Rand⦄ where
  open rand use {Source, seeded, intn, intn-bound, below_a_fifth, below_a_half}

  -- A draw, or a panic.
  abbrev pub Drawn : Type 0
  Drawn = Option (Bytes × Source)

  abbrev put_byte : Option ℕ → Drawn → Drawn
  put_byte (some c) (some (cs, r)) = some (c ∷ cs, r)
  put_byte c rest = none

  -- `generateRandomWord`
  unfoldable pub generate_random_word : ℕ → Source → Drawn
  generate_random_word zero r = some ([], r)
  generate_random_word (suc n) r =
      let (i, r') = intn (length weighted_word_letters) r in
      put_byte (byte_at i weighted_word_letters) (generate_random_word n r')

  -- The punctuation behind a word.
  abbrev mark : Bool × Source → Bytes × Source
  mark (b, r) = (if b then codes "," else codes ".", r)

  abbrev punctuation : Bool × Source → Bytes × Source
  punctuation (true, r) = mark (below_a_half r)
  punctuation (false, r) = ([], r)

  -- One round of the loop: a word is drawn and stands behind the text.
  abbrev spaced : Bytes → Bytes
  spaced [] = []
  spaced (c ∷ cs) = (c ∷ cs) ++ b' ' ∷ []

  abbrev append_word : Bytes → Drawn → Drawn
  append_word text none = none
  append_word text (some (word, r)) =
      let (p, r') = punctuation (below_a_fifth r) in some (spaced text ++ (word ++ p), r')

  abbrev pub next_word : Bytes → Source → Drawn
  next_word text r = let (k, r') = intn 8 r in append_word text (generate_random_word (k + 3) r')

  -- The loop, in `rounds` rounds at most.
  abbrev loop_on : (Bytes → Source → Option Bytes) → Drawn → Option Bytes
  loop_on again none = none
  loop_on again (some (text, r)) = again text r

  unfoldable pub fill : ℕ → ℕ → Bytes → Source → Option Bytes
  fill zero n text r = if ltb (length text) n then none else some text
  fill (suc rounds) n text r =
      let more = loop_on (fill rounds n) (next_word text r) in
      if ltb (length text) n then more else some text

  abbrev cut_to : ℕ → Option Bytes → Option Bytes
  cut_to n none = none
  cut_to n (some text) = some (if ltb n (length text) then take n text else text)

  -- `generateHighEntropyLoremIpsum`: each round makes the text longer, so that `n` rounds are enough.
  unfoldable pub generate_high_entropy_lorem_ipsum : ℕ → ℕ → Option Bytes
  unfolding fill
  generate_high_entropy_lorem_ipsum n seed = cut_to n (fill n n [] (seeded seed))

  generate_random_word-length :
      (n : ℕ) (r : Source)
      → (w : Bytes) × (r' : Source) × (generate_random_word n r ≡ some (w, r')) × (length w ≡ n)
  unfolding generate_random_word
  generate_random_word-length zero r = ([], r, refl, refl)
  generate_random_word-length (suc n) r =
      let (i, r₁) = intn (length weighted_word_letters) r in
      let bound = intn-bound (length weighted_word_letters) r (omega arith) in
      let (c, there) = byte_at-some i weighted_word_letters bound in
      let (w, r₂, drawn, long) = generate_random_word-length n r₁ in
      (c ∷ w, r₂, rw (there, drawn), ap suc long)

  -- A round succeeds and makes the text longer.
  next_word-length :
      (text : Bytes) (r : Source)
      → (text' : Bytes) × (r' : Source) × (next_word text r ≡ some (text', r'))
        × (length text < length text')
  next_word-length text r =
      let (k, r₁) = intn 8 r in
      let (w, r₂, drawn, long) = generate_random_word-length (k + 3) r₁ in
      let (p, r₃) = punctuation (below_a_fifth r₂) in
      (
        spaced text ++ (w ++ p),
        r₃,
        ap (append_word text) drawn,
        longer text w p (omega (arith, long)),
      )
    where
      longer : (text w p : Bytes) → 0 < length w → length text < length (spaced text ++ (w ++ p))
      longer [] w p some_bytes = omega (arith, length-append {0} w p)
      longer (c ∷ cs) w p some_bytes = omega (
        arith,
        length-append {0} w p,
        length-append {0} ((c ∷ cs) ++ b' ' ∷ []) (w ++ p),
        length-append {0} (c ∷ cs) (b' ' ∷ []),
      )

  fill-length :
      (rounds n : ℕ) (text : Bytes) (r : Source)
      → n ≤ rounds + length text
      → (out : Bytes) × (fill rounds n text r ≡ some out) × (n ≤ length out)
  unfolding fill
  fill-length zero n text r enough =
      let long : ltb (length text) n ≡ false = ground arith in (text, rw long, omega arith)
  fill-length (suc rounds) n text r enough = elim (Bool-cases (ltb (length text) n)) [
    | inr long ↦ (text, rw long, ground arith)
    | inl short ↦
        let (text', r', step, longer) = next_word-length text r in
        let (out, run, long) = fill-length rounds n text' r' (omega arith) in
        (out, rw short (ap (loop_on (fill rounds n)) step ∙ run), long)
  ]

  -- For every length and every seed, whatever is drawn, `generateHighEntropyLoremIpsum` ends without a
  -- panic, and returns a text of exactly that length.
  pub generate_high_entropy_lorem_ipsum-length :
      (n seed : ℕ)
      → (text : Bytes) × (generate_high_entropy_lorem_ipsum n seed ≡ some text) × (length text ≡ n)
  unfolding generate_high_entropy_lorem_ipsum
  generate_high_entropy_lorem_ipsum-length n seed =
      let (out, run, long) = fill-length n n [] (seeded seed) (omega arith) in
      ((if ltb n (length out) then take n out else out), ap (cut_to n) run, length-cut n out long)
    where
      length-take : (n : ℕ) (bs : Bytes) → n ≤ length bs → length (take n bs) ≡ n
      length-take zero bs h = refl
      length-take (suc n) [] h = absurd (omega arith)
      length-take (suc n) (b ∷ bs) h = ap suc (length-take n bs (omega arith))

      length-cut :
          (n : ℕ) (out : Bytes)
          → n ≤ length out
          → length (if ltb n (length out) then take n out else out) ≡ n
      length-cut n out long = elim (Bool-cases (ltb n (length out))) [
        | inl over ↦ rw over (length-take n out long)
        | inr exact ↦ rw exact (ground arith)
      ]
