-- ===== src/Tests/Records.antt =====
-- The codec of the records, the check of keys and the routing, at concrete inputs.
use go_persist.Base.{
  ℕ, zero, suc, ◌+◌, ◌≡◌, ◌≢◌, refl, none, [], ◌∷◌, ◌++◌, map, Bytes, codes, All, length, take,
  arith, ◌↔◌,
}
use go_persist.Key.{validate_key}
use go_persist.Key.Bytewise.{IsPlain, validate_key-IsPlain, validate_key_ascii}
use go_persist.Loading.{route}
use go_persist.Loading.Misrouting.{route-full_key_colon}
use go_persist.Loading.{index}
use go_persist.Loading.Routing.{route-full_key}
use go_persist.Record.{set_record, buffer_size}
use go_persist.Record.Damage.{
  merged_key, read_file_torn_then_set, read_file_empty_key, read_file_long_value,
}
use go_persist.Record.Entry.{set, IsReadable, NoLf, line_bytes, log_bytes, entry_record}
use go_persist.Record.Log.{read_file, at_eof, on_error, no_fuel}
use go_persist.Record.RoundTrip.{read_file-log_bytes, read_file_torn}
use go_persist.Record.Termination.{read_file-ne-no_fuel}
use go_persist.Result.{reading_failed, too_short, buffer_full}
use go_persist.Tests.Fixtures.{a_is_3, a_is_3-IsReadable, b_deleted, b_deleted-IsReadable}

read_file-log_bytes_example :
    read_file (log_bytes (a_is_3 ∷ b_deleted ∷ []))
    ≡ record { records = map entry_record (a_is_3 ∷ b_deleted ∷ []); stop = at_eof }
read_file-log_bytes_example =
    read_file-log_bytes (a_is_3 ∷ b_deleted ∷ []) (a_is_3-IsReadable, (b_deleted-IsReadable, tt))

read_file_torn_example :
    read_file (log_bytes (b_deleted ∷ []) ++ take 6 (line_bytes a_is_3))
    ≡ record { records = map entry_record (b_deleted ∷ []); stop = at_eof }
unfolding line_bytes
read_file_torn_example =
    read_file_torn (b_deleted ∷ []) a_is_3 6 (b_deleted-IsReadable, tt) a_is_3-IsReadable
      (omega arith)

read_file-ne-no_fuel_example : (read_file (codes "S a\n1\nD")).stop ≢ no_fuel
read_file-ne-no_fuel_example = read_file-ne-no_fuel (codes "S a\n1\nD")

merged-IsReadable : IsReadable buffer_size (set (merged_key 1 (codes "ab") (codes "c")) (codes "2"))
merged-IsReadable = record {
  key_ne_nil = λ e. cc;
  key_no_lf = omega arith;
  value_no_lf = omega arith;
  key_fits = omega arith;
  value_fits = omega arith;
}

read_file_torn_then_set_example :
    read_file (
      log_bytes (a_is_3 ∷ [])
      ++ (take (1 + 2) (line_bytes (set (codes "ab") (codes "1")))
          ++ line_bytes (set (codes "c") (codes "2"))))
    ≡ record {
      records =
          map entry_record (a_is_3 ∷ [])
          ++ entry_record (set (merged_key 1 (codes "ab") (codes "c")) (codes "2")) ∷ [];
      stop = at_eof;
    }
read_file_torn_then_set_example =
    read_file_torn_then_set (a_is_3 ∷ []) 1 (codes "ab") (codes "1") (codes "c") (codes "2")
      (a_is_3-IsReadable, tt) (omega arith) merged-IsReadable

read_file_empty_key_example :
    read_file (log_bytes (a_is_3 ∷ []) ++ (set_record [] (codes "1") ++ line_bytes b_deleted))
    ≡ record {
      records = map entry_record (a_is_3 ∷ []);
      stop = on_error (reading_failed too_short);
    }
read_file_empty_key_example =
    read_file_empty_key (a_is_3 ∷ []) (codes "1") (line_bytes b_deleted) (a_is_3-IsReadable, tt)

unfoldable ones : ℕ → Bytes
ones zero = []
ones (suc n) = b'1' ∷ ones n

ones-NoLf : (n : ℕ) → NoLf (ones n)
unfolding ones
ones-NoLf zero = tt
ones-NoLf (suc n) = (omega arith, ones-NoLf n)

length-ones : (n : ℕ) → length (ones n) ≡ n
unfolding ones
length-ones zero = refl
length-ones (suc n) = omega (arith, length-ones n)

read_file_long_value_example :
    read_file
      (log_bytes (a_is_3 ∷ []) ++ (set_record (codes "k") (ones 4096) ++ line_bytes b_deleted))
    ≡ record {
      records = map entry_record (a_is_3 ∷ []);
      stop = on_error (reading_failed buffer_full);
    }
read_file_long_value_example =
    read_file_long_value (a_is_3 ∷ []) (codes "k") (ones 4096) (line_bytes b_deleted)
      (a_is_3-IsReadable, tt) (λ e. cc) (omega arith) (omega arith) (ones-NoLf 4096)
      (omega (arith, length-ones 4096))

validate_key-IsPlain_example : All IsPlain (codes "user:7")
unfolding validate_key
validate_key-IsPlain_example = validate_key-IsPlain (codes "user:7") refl

validate_key_ascii_example : (validate_key (codes "a\tb") ≡ none) ↔ All IsPlain (codes "a\tb")
validate_key_ascii_example = validate_key_ascii (codes "a\tb") (omega arith)

route-full_key_example : route (codes "users:a:b") ≡ (codes "users", codes "a:b")
route-full_key_example = route-full_key (codes "users") (codes "a:b") (omega arith)

route-full_key_colon_example : (route (codes "a:b:k")).0 ≢ codes "a:b"
unfolding index
route-full_key_colon_example = route-full_key_colon (codes "a:b") (codes "k") 1 refl
