-- ===== src/Verify/Hashes.antt =====
-- verify.rs, `check_hashes`, and the checksum list of bundle.rs. The files are a function from their
-- names to their bytes; `sha256_hex`, the UTF-8 bytes of a text and the listing of a directory are
-- parameters. An error keeps the name of the file and leaves the sentence out.
use Prim.Native.String.{String}
use crossfoot.Base.{
  ℕ, Bool, true, false, ◌||◌, Option, none, some, List, [], ◌∷◌, ◌++◌, length, ◌==◌, same_text,
  if◌then◌else◌, Result, ok, err, ok_or, ◌>>=◌, or_zero,
}

-- An entry of the manifest.
pub record Entry : Type 0 where
  pub file : Option String
  pub sha256 : Option String
  pub byte_len : Option ℕ
  pub preimage : Option String
  pub cache_key : Option String
  pub wire : Option String

-- The bundle on disk: `stated_root` is the text of bundle.sha256 without the space round it, and
-- `raw_files` the names in raw/, none at all where there is no such directory.
pub record Disk : Type 0 where
  pub entries : Option (List Entry)
  pub read : String → Option (List ℕ)
  pub raw_files : Option (List String)
  pub listed_files : Option (List String)
  pub sums : Option (List ℕ)
  pub stated_root : Option String

pub data HashError : Type 0 where
  no_entries no_file raw_unreadable sums_unreadable sums_differ root_unreadable root_differs :
      HashError
  unreadable sha256_differs length_differs no_preimage key_differs unlisted : String → HashError

abbrev pub or_empty : Option String → String
or_empty none = ""
or_empty (some s) = s

abbrev pub ensure : Bool → HashError → Result HashError (Unit {0})
ensure true e = ok tt
ensure false e = err e

abbrev pub contains_text : String → List String → Bool
contains_text s [] = false
contains_text s (t ∷ ts) = same_text s t || contains_text s ts

abbrev pub same_bytes : List ℕ → List ℕ → Bool
same_bytes [] [] = true
same_bytes (a ∷ xs) (b ∷ ys) = if a == b then same_bytes xs ys else false
same_bytes _ _ = false

module _ (sha256_hex : List ℕ → String) (utf8 : String → List ℕ) (disk : Disk) where
  -- One entry of the loop; the result is the name of its file.
  unfoldable pub check_entry : Entry → Result HashError String
  check_entry entry = do
    file ← ok_or no_file entry.file
    bytes ← ok_or (unreadable file) (disk.read file)
    hashed ← ensure (same_text (sha256_hex bytes) (or_empty entry.sha256)) (sha256_differs file)
    measured ← ensure (length bytes == or_zero entry.byte_len) (length_differs file)
    preimage ← ok_or (no_preimage file) entry.preimage
    keyed ←
        ensure (same_text (sha256_hex (utf8 preimage)) (or_empty entry.cache_key))
          (key_differs file)
    ok file

  unfoldable pub check_entries : List Entry → Result HashError (List String)
  check_entries [] = ok []
  check_entries (entry ∷ entries) = do
    file ← check_entry entry
    files ← check_entries entries
    ok (file ∷ files)

  unfoldable pub check_raw : List String → List String → Result HashError (Unit {0})
  check_raw listed [] = ok tt
  check_raw listed (name ∷ names) =
      let rest = check_raw listed names in
      if contains_text name listed then rest else err (unlisted name)

  -- Each line is the hash of a file, two spaces, its name and a line feed.
  unfoldable pub sha256sums_text : List String → Option (List ℕ)
  sha256sums_text [] = some []
  sha256sums_text (file ∷ files) =
      let rest = sha256sums_text files in
      elim (disk.read file) [
        | none ↦ none
        | some bytes ↦ elim rest [
          | none ↦ none
          | some lines ↦ some (utf8 (sha256_hex bytes) ++ (32 ∷ 32 ∷ (utf8 file ++ (10 ∷ lines))))
        ]
      ]

  unfoldable pub check_hashes : Result HashError String
  check_hashes = do
    entries ← ok_or no_entries disk.entries
    listed ← check_entries entries
    names ← ok_or raw_unreadable disk.raw_files
    all_listed ← check_raw listed names
    recorded ← ok_or sums_unreadable disk.sums
    files ← ok_or sums_unreadable disk.listed_files
    recomputed ← ok_or sums_unreadable (sha256sums_text files)
    same ← ensure (same_bytes recorded recomputed) sums_differ
    stated ← ok_or root_unreadable disk.stated_root
    rooted ← ensure (same_text stated (sha256_hex recorded)) root_differs
    ok (sha256_hex recorded)
