-- ===== src/BenchmarkLoad/Files/Runs.antt =====
-- What the loop over the files writes, and the read phase finds.
use go_persist.Base.{
  ℕ, suc, ◌+◌, ◌≤◌, ◌<◌, ◌≡◌, ◌≢◌, refl, sym, ap, ◌∙◌, Bool, true, false, Option, none, some, List,
  [], ◌∷◌, Bytes, length, arith, equal, equal_iff, Bool-cases, Option-cases, inl, inr, ==_iff,
  if◌then◌else◌,
}
use go_persist.BenchmarkLoad.Files.Sizes.{same-size, Sized}
use go_persist.BenchmarkLoad.Files.{
  file_to_check, file_key, file_name, write_files_common, get_file_size, check_file,
}
use go_persist.BenchmarkLoad.Records.{digits}
use go_persist.BenchmarkLoad.Runs.{or_fatal, ◌>>=◌}
use go_persist.BenchmarkLoad.Runs.Inserted.{first_or_later}
use go_persist.Env.KeyValue.{KeyValue}
use go_persist.Env.Rand.{Payloads}

checked_name : file_name file_to_check ≡ file_key
unfolding digits
checked_name = refl

module _ (source : Payloads) where
  -- What stands under the key of a file has the size that goes with its index.
  abbrev pub Fitting : ℕ → Option Bytes → Type 0
  Fitting k found = (v : Bytes) → found ≡ some v → length v ≡ get_file_size source k

  module _ {S : Type 0} (look : Bytes → S → Option Bytes) (write : ℕ → Bytes → S → Option S)
      (writes : (i : ℕ) (payload : Bytes) (s : S)
        → (s' : S) × (write i payload s ≡ some s')
          × ((j : Bytes)
              → look j s' ≡ (if equal (file_name i) j then some payload else look j s))) where
    -- `s'` has at least the files that `s` has, and a file fits if it fits in `s`.
    pub record Adds (s s' : S) : Type 0 where
      pub fits : (k : ℕ) → Fitting k (look (file_name k) s) → Fitting k (look (file_name k) s')
      pub stays : (k : ℕ) → look (file_name k) s ≢ none → look (file_name k) s' ≢ none

    module _ (i : ℕ) (payload : Bytes) (s s' : S)
        (effect : (j : Bytes)
          → look j s' ≡ (if equal (file_name i) j then some payload else look j s)) where
      here : (j : Bytes) → equal (file_name i) j ≡ true → look j s' ≡ some payload
      here j same = effect j ∙ ap (λ (b : Bool). if b then some payload else look j s) same

      elsewhere : (j : Bytes) → equal (file_name i) j ≡ false → look j s' ≡ look j s
      elsewhere j other = effect j ∙ ap (λ (b : Bool). if b then some payload else look j s) other

      written-Adds : length payload ≡ get_file_size source i → Adds s s'
      written-Adds long = record {
        fits = λ k fitting v there. elim (Bool-cases (equal (file_name i) (file_name k))) [
          | inr other ↦ fitting v (sym (elsewhere (file_name k) other) ∙ there)
          | inl same ↦
              let its_payload : payload ≡ v = cc (sym (here (file_name k) same) ∙ there) in
              ap (λ (b : Bytes). length b) (sym its_payload) ∙ long ∙ same-size source i k same
        ];
        stays = λ k before gone. elim (Bool-cases (equal (file_name i) (file_name k))) [
          | inr other ↦ before (sym (elsewhere (file_name k) other) ∙ gone)
          | inl same ↦ cc (sym (here (file_name k) same) ∙ gone)
        ];
      }

    pub write_files_common-Adds :
        (i : ℕ) (payloads : List Bytes) (s : S)
        → Sized source i payloads
        → (s' : S) × (write_files_common write i payloads s ≡ some s')
          × Adds s s'
          × ((k : ℕ) → i ≤ k → k < i + length payloads → look (file_name k) s' ≢ none)
    unfolding write_files_common
    write_files_common-Adds i [] s sized = (
      s,
      refl,
      record { fits = λ k fitting. fitting; stays = λ k before. before },
      λ k least bound. absurd (omega (arith, least, bound)),
    )
    write_files_common-Adds i (payload ∷ rest) s (long, sized) =
        let (s₁, ran, effect) = writes i payload s in
        let a₁ = written-Adds i payload s s₁ effect long in
        let (s₂, more, a₂, later) = write_files_common-Adds (suc i) rest s₁ sized in
        (
          s₂,
          ap (λ (o : Option S). o >>= write_files_common write (suc i) rest) ran ∙ more,
          record {
            fits = λ k fitting. a₂.fits k (a₁.fits k fitting);
            stays = λ k before. a₂.stays k (a₁.stays k before);
          },
          λ k least bound. elim (first_or_later i k least) [
            | inl first ↦ a₂.stays k (λ gone.
                let same = (equal_iff (file_name i) (file_name k)).1 (ap file_name first) in
                cc (here i payload s s₁ effect (file_name k) same, gone))
            | inr after ↦ later k after (omega (arith, bound))
          ],
        )

  module _ (kv : KeyValue) where
    open kv use {Dir, Db, missing, open_db, get, close}

    -- The database has each of 100 files, and what stands under the key of a file has its size.
    pub record HasFiles (db : Db) : Type 0 where
      pub present : (k : ℕ) → k < 100 → get (file_name k) db ≢ none
      pub fits : (k : ℕ) → Fitting k (get (file_name k) db)

    pub record Stored (dir : Dir) : Type 0 where
      pub there : missing dir ≡ false
      pub holds : (db : Db) → open_db dir ≡ some db → HasFiles db

    module _ (opens : (dir : Dir) → (db : Db) × (open_db dir ≡ some db))
        (closes : (db : Db) → (close db).0 ≡ true) where
      pub close-Stored : {db : Db} → HasFiles db → Stored (close db).1
      close-Stored {db} h = record {
        there = kv.missing-close db (closes db);
        holds = λ db' opened.
            let same = λ (k : ℕ). kv.get-open_db_closed db db' (file_name k) (closes db) opened in
            record {
              present = λ k bound gone. h.present k bound (sym (same k) ∙ gone);
              fits = λ k v found. h.fits k v (sym (same k) ∙ found);
            };
      }

      pub or_fatal-ok : (db : Db) → or_fatal (close db) ≡ some (close db).1
      or_fatal-ok db = ap (λ (good : Bool). or_fatal (good, (close db).1)) (closes db)

      pub check_file-Stored :
          (closed : Bool × Dir → Option Dir)
          → ((db : Db) → closed (close db) ≡ some (close db).1)
          → (dir : Dir) → Stored dir
          → (dir' : Dir) × (check_file source kv closed dir ≡ some dir') × Stored dir'
      unfolding check_file
      check_file-Stored closed closed-ok dir w =
          let (db, opened) = opens dir in
          let h = w.holds db opened in
          let name = ap (λ (j : Bytes). get j db) checked_name in
          elim (Option-cases (get file_key db)) [
            | inl gone ↦ absurd (h.present file_to_check (omega arith) (name ∙ gone))
            | inr (v, found) ↦
                let sized =
                  (==_iff (length v) (get_file_size source file_to_check)).1
                    (h.fits file_to_check v (name ∙ found)) in
                ((close db).1, rw opened (rw found (rw sized (closed-ok db))), close-Stored h)
          ]
