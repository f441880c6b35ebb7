-- ===== src/Verify/Tests.antt =====
-- A bundle of one file, two results that differ, and the theorems on them.
use Prim.Native.String.{String}
use crossfoot.Base.{
  arith, ℕ, ◌≡◌, ◌↔◌, refl, true, none, some, List, [], ◌∷◌, ok, same_text, if◌then◌else◌,
}
use crossfoot.Verify.{
  Value, null, number, text, object, end, field, key, Difference, walk, first_difference,
}
use crossfoot.Verify.Paths.{first_difference-none_iff}
use crossfoot.Verify.Locates.{value_at, Locates, first_difference-Locates}
use crossfoot.Verify.Hashes.{
  Entry, Disk, check_entry, check_entries, check_raw, sha256sums_text, check_hashes,
}
use crossfoot.Verify.Sealed.{IsSealed, check_hashes-IsSealed}
use crossfoot.Verify.Report.{
  verified, loaded, reproduced, agreed, Options, Evidence, verify_dir, IsVerified,
}
use crossfoot.Verify.Exit.{verify_dir-IsVerified}
use crossfoot.Verify.Sample.{count, sample_entries}
use crossfoot.Verify.Spread.{RpcOf, IsSpread, sample_entries-IsSpread}

abbrev stated : Value
stated = object (field "a" (number "1") (field "b" (object (field "d" (text "x") end)) end))

abbrev computed : Value
computed =
    object
      (field "a" (number "1") (field "b" (object (field "c" null (field "d" (text "x") end))) end))

abbrev missing_key : Difference
missing_key = record { path = key "b" ∷ key "c" ∷ []; stated = null; computed = null }

found_key : first_difference stated computed ≡ some missing_key
unfolding first_difference walk
found_key = refl

first_difference-none_iff_example : (first_difference stated computed ≡ none) ↔ (stated ≡ computed)
first_difference-none_iff_example = first_difference-none_iff stated computed

first_difference-Locates_example :
    Locates missing_key
      (value_at (key "b" ∷ key "c" ∷ []) stated)
      (value_at (key "b" ∷ key "c" ∷ []) computed)
first_difference-Locates_example =
    first_difference-Locates stated computed missing_key (tt, (refl, tt), ((tt, tt, tt), tt, tt))
      (tt, (refl, tt), ((tt, (refl, tt), (tt, tt, tt)), tt, tt)) found_key

-- A hash of a file for the sake of the example: its first byte as a text.
abbrev short_hash : List ℕ → String
short_hash [] = "0"
short_hash (b ∷ bytes) = "1"

abbrev no_bytes : String → List ℕ
no_bytes s = []

abbrev one_entry : Entry
one_entry = record {
  file = some "raw/a";
  sha256 = some "1";
  byte_len = some 2;
  preimage = some "p";
  cache_key = some "0";
  wire = some "json_rpc";
}

abbrev one_file : Disk
one_file = record {
  entries = some (one_entry ∷ []);
  read = λ name. if same_text name "raw/a" then some (7 ∷ 8 ∷ []) else none;
  raw_files = some ("raw/a" ∷ []);
  listed_files = some ("raw/a" ∷ []);
  sums = some (32 ∷ 32 ∷ 10 ∷ []);
  stated_root = some "1";
}

one_file_accepted : check_hashes short_hash no_bytes one_file ≡ ok "1"
unfolding check_hashes check_entries check_entry check_raw sha256sums_text
one_file_accepted = refl

check_hashes-IsSealed_example :
    (check_hashes short_hash no_bytes one_file ≡ ok "1") ↔ IsSealed short_hash no_bytes one_file "1"
check_hashes-IsSealed_example = check_hashes-IsSealed short_hash no_bytes one_file "1"

abbrev strict : Options
strict = record { require_same_code = true; refetch = true }

abbrev good : Evidence
good = record {
  format = some "v1";
  result = loaded (some "midas");
  hashes = ok "1";
  same_code = true;
  replayed = reproduced;
  refetched = agreed;
}

verify_dir-IsVerified_example :
    ((verify_dir "v1" strict good).status ≡ verified) ↔ IsVerified "v1" strict good
verify_dir-IsVerified_example = verify_dir-IsVerified "v1" strict good

sample_entries-IsSpread_example :
    (rpc : List Entry) × (out : List Entry) × RpcOf (one_entry ∷ one_entry ∷ []) rpc
    × (sample_entries (one_entry ∷ one_entry ∷ []) (count 5) ≡ some out)
    × IsSpread (count 5) rpc out
sample_entries-IsSpread_example =
    sample_entries-IsSpread (one_entry ∷ one_entry ∷ []) (count 5) (omega arith)
