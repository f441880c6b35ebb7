-- ===== src/Verify/Sealed.antt =====
-- verify.rs, `check_hashes`: what it accepts.
use Prim.Native.String.{String}
use mathlib.Core.Option.{some-injective}
use crossfoot.Base.{
  ℕ, ◌≡◌, ◌↔◌, ◌⊎◌, inl, inr, refl, sym, ap, ◌∙◌, arith, Bool, true, false, Option, none, some,
  List, [], ◌∷◌, length, ◌==◌, same_text, same_text_iff, ok, ok_or, >>=-eq-ok, ok-injective,
  or_zero, All, All-map, Bool-cases,
}
use crossfoot.Verify.Hashes.{
  Entry, Disk, HashError, no_entries, no_file, raw_unreadable, sums_unreadable, sums_differ,
  root_unreadable, root_differs, unreadable, sha256_differs, length_differs, no_preimage,
  key_differs, or_empty, ensure, contains_text, same_bytes, check_entry, check_entries, check_raw,
  sha256sums_text, check_hashes,
}

ok_or-eq-ok {ℓ} :
    {A : Type ℓ} (e : HashError) (o : Option A) {a : A} → ok_or e o ≡ ok a → o ≡ some a
ok_or-eq-ok e none h = cc
ok_or-eq-ok e (some a) h = ap some (ok-injective h)

ensure-eq-ok : (b : Bool) (e : HashError) {u : Unit {0}} → ensure b e ≡ ok u → b ≡ true
ensure-eq-ok true e h = refl
ensure-eq-ok false e h = cc

same_bytes_iff : (xs ys : List ℕ) → (same_bytes xs ys ≡ true) ↔ (xs ≡ ys)
same_bytes_iff [] [] = (λ h. refl, λ h. refl)
same_bytes_iff [] (b ∷ ys) = (λ h. cc, λ h. cc)
same_bytes_iff (a ∷ xs) [] = (λ h. cc, λ h. cc)
same_bytes_iff (a ∷ xs) (b ∷ ys) =
    let (forth, back) = same_bytes_iff xs ys in
    (
      λ h. ground (arith, h, forth (ground (arith, h))),
      λ h. ground (arith, h, back (ground (arith, h))),
    )

-- The entry names this file.
abbrev pub Names : String → Entry → Type 0
Names name entry = entry.file ≡ some name

abbrev pub Listed : String → List Entry → Type 0
Listed name [] = ⊥
Listed name (entry ∷ entries) = Names name entry ⊎ Listed name entries

module _ (sha256_hex : List ℕ → String) (utf8 : String → List ℕ) (disk : Disk) where
  -- The file of the entry is there with the hash and the length that the entry states, and the key of the
  -- entry is the hash of its preimage.
  pub record Holds (entry : Entry) : Type 0 where
    pub name : String
    pub named : entry.file ≡ some name
    pub bytes : List ℕ
    pub read : disk.read name ≡ some bytes
    pub hashed : sha256_hex bytes ≡ or_empty entry.sha256
    pub measured : length bytes ≡ or_zero entry.byte_len
    pub preimage : String
    pub given : entry.preimage ≡ some preimage
    pub keyed : sha256_hex (utf8 preimage) ≡ or_empty entry.cache_key

  -- The whole bundle agrees with its manifest, its checksum list and its root hash.
  pub record IsSealed (root : String) : Type 0 where
    pub entries : List Entry
    pub manifest : disk.entries ≡ some entries
    pub held : All Holds entries
    pub names : List String
    pub raw : disk.raw_files ≡ some names
    pub listed : All (λ name. Listed name entries) names
    pub recorded : List ℕ
    pub sums : disk.sums ≡ some recorded
    pub files : List String
    pub walked : disk.listed_files ≡ some files
    pub recomputed : sha256sums_text sha256_hex utf8 disk files ≡ some recorded
    pub rooted : root ≡ sha256_hex recorded
    pub stated : disk.stated_root ≡ some root

  check_entry-Holds :
      (entry : Entry) {file : String}
      → check_entry sha256_hex utf8 disk entry ≡ ok file
      → Holds entry × Names file entry
  unfolding check_entry
  check_entry-Holds entry h =
      let (name, named, h) = >>=-eq-ok (ok_or no_file entry.file) _ h in
      let (bytes, read, h) = >>=-eq-ok (ok_or (unreadable name) (disk.read name)) _ h in
      let (u, hashed, h) =
        >>=-eq-ok
          (ensure (same_text (sha256_hex bytes) (or_empty entry.sha256)) (sha256_differs name)) _
          h in
      let (u', measured, h) =
        >>=-eq-ok (ensure (length bytes == or_zero entry.byte_len) (length_differs name)) _ h in
      let (preimage, given, h) = >>=-eq-ok (ok_or (no_preimage name) entry.preimage) _ h in
      let (u'', keyed, h) =
        >>=-eq-ok
          (ensure (same_text (sha256_hex (utf8 preimage)) (or_empty entry.cache_key))
            (key_differs name))
          _ h in
      (
        record {
          name = name;
          named = ok_or-eq-ok no_file _ named;
          bytes = bytes;
          read = ok_or-eq-ok (unreadable name) _ read;
          hashed = (same_text_iff _ _).0 (ensure-eq-ok _ (sha256_differs name) hashed);
          measured = ground (arith, ensure-eq-ok _ (length_differs name) measured);
          preimage = preimage;
          given = ok_or-eq-ok (no_preimage name) _ given;
          keyed = (same_text_iff _ _).0 (ensure-eq-ok _ (key_differs name) keyed);
        },
        ok_or-eq-ok no_file _ named ∙ ap some (ok-injective h),
      )

  Holds-check_entry :
      (entry : Entry) (h : Holds entry) → check_entry sha256_hex utf8 disk entry ≡ ok h.name
  unfolding check_entry
  Holds-check_entry entry h =
      let hashed = (same_text_iff _ _).1 h.hashed in
      let measured : (length h.bytes == or_zero entry.byte_len) ≡ true = ground arith in
      let keyed = (same_text_iff _ _).1 h.keyed in
      simp (h.named, h.read, hashed, measured, h.given, keyed) refl

  check_entries-Holds :
      (entries : List Entry) {files : List String}
      → check_entries sha256_hex utf8 disk entries ≡ ok files
      → All Holds entries
        × ((name : String) → contains_text name files ≡ true → Listed name entries)
  unfolding check_entries
  check_entries-Holds [] h = (tt, λ name c. cc (ok-injective h, c))
  check_entries-Holds (entry ∷ entries) h =
      let (file, first, h) = >>=-eq-ok (check_entry sha256_hex utf8 disk entry) _ h in
      let (files, later, h) = >>=-eq-ok (check_entries sha256_hex utf8 disk entries) _ h in
      let (held, named) = check_entry-Holds entry first in
      let (rest, listed) = check_entries-Holds entries later in
      (
        (held, rest),
        λ name c. elim (Bool-cases (same_text name file)) [
          | inl same ↦ inl (named ∙ ap some (sym ((same_text_iff name file).0 same)))
          | inr apart ↦ inr (listed name (ground (arith, c, apart, ok-injective h)))
        ],
      )

  check_raw-All :
      (listed : List String) (names : List String) {u : Unit {0}}
      → check_raw sha256_hex utf8 disk listed names ≡ ok u
      → All (λ name. contains_text name listed ≡ true) names
  unfolding check_raw
  check_raw-All listed [] h = tt
  check_raw-All listed (name ∷ names) h = elim (Bool-cases (contains_text name listed)) [
    | inl found ↦ (found, check_raw-All listed names (ground (arith, h, found)))
    | inr lost ↦ absurd (ground (arith, h, lost))
  ]

  files_of : (entries : List Entry) → All Holds entries → List String
  files_of [] h = []
  files_of (entry ∷ entries) h = h.0.name ∷ files_of entries h.1

  Holds-check_entries :
      (entries : List Entry) (h : All Holds entries)
      → check_entries sha256_hex utf8 disk entries ≡ ok (files_of entries h)
  unfolding check_entries files_of
  Holds-check_entries [] h = refl
  Holds-check_entries (entry ∷ entries) h =
      simp (Holds-check_entry entry h.0, Holds-check_entries entries h.1) refl

  Listed-files_of :
      (entries : List Entry) (h : All Holds entries) (name : String)
      → Listed name entries
      → contains_text name (files_of entries h) ≡ true
  unfolding files_of
  Listed-files_of [] h name l = absurd l
  Listed-files_of (entry ∷ entries) h name (inl named) =
      let same = (same_text_iff name h.0.name).1 (some-injective _ _ (sym named ∙ h.0.named)) in
      rw same refl
  Listed-files_of (entry ∷ entries) h name (inr later) =
      let found = Listed-files_of entries h.1 name later in ground (arith, found)

  All-check_raw :
      (listed : List String) (names : List String)
      → All (λ name. contains_text name listed ≡ true) names
      → check_raw sha256_hex utf8 disk listed names ≡ ok tt
  unfolding check_raw
  All-check_raw listed [] h = refl
  All-check_raw listed (name ∷ names) h = simp (h.0, All-check_raw listed names h.1) refl

  IsSealed-check_hashes :
      (root : String) → IsSealed root → check_hashes sha256_hex utf8 disk ≡ ok root
  unfolding check_hashes
  IsSealed-check_hashes root h =
      let entries = Holds-check_entries h.entries h.held in
      let raw =
        All-check_raw (files_of h.entries h.held) h.names
          (All-map h.names (Listed-files_of h.entries h.held) h.listed) in
      let same = (same_bytes_iff h.recorded h.recorded).1 refl in
      let agreed = (same_text_iff root (sha256_hex h.recorded)).1 h.rooted in
      simp (h.manifest, entries, h.raw, raw, h.sums, h.walked, h.recomputed, same, h.stated, agreed)
        (ap ok (sym h.rooted))

  check_hashes_sound : (root : String) → check_hashes sha256_hex utf8 disk ≡ ok root → IsSealed root
  unfolding check_hashes
  check_hashes_sound root h =
      let (entries, manifest, h) = >>=-eq-ok (ok_or no_entries disk.entries) _ h in
      let (files, checked, h) = >>=-eq-ok (check_entries sha256_hex utf8 disk entries) _ h in
      let (names, raw, h) = >>=-eq-ok (ok_or raw_unreadable disk.raw_files) _ h in
      let (u, all, h) = >>=-eq-ok (check_raw sha256_hex utf8 disk files names) _ h in
      let (recorded, sums, h) = >>=-eq-ok (ok_or sums_unreadable disk.sums) _ h in
      let (walked, seen, h) = >>=-eq-ok (ok_or sums_unreadable disk.listed_files) _ h in
      let (recomputed, again, h) =
        >>=-eq-ok (ok_or sums_unreadable (sha256sums_text sha256_hex utf8 disk walked)) _ h in
      let (u', same, h) = >>=-eq-ok (ensure (same_bytes recorded recomputed) sums_differ) _ h in
      let (stated, said, h) = >>=-eq-ok (ok_or root_unreadable disk.stated_root) _ h in
      let (u'', agreed, h) =
        >>=-eq-ok (ensure (same_text stated (sha256_hex recorded)) root_differs) _ h in
      let (held, named) = check_entries-Holds entries checked in
      let equal = (same_bytes_iff _ _).0 (ensure-eq-ok _ sums_differ same) in
      let rooted = sym (ok-injective h) in
      let spoken = (same_text_iff _ _).0 (ensure-eq-ok _ root_differs agreed) in
      record {
        entries = entries;
        manifest = ok_or-eq-ok no_entries _ manifest;
        held = held;
        names = names;
        raw = ok_or-eq-ok raw_unreadable _ raw;
        listed = All-map names named (check_raw-All files names all);
        recorded = recorded;
        sums = ok_or-eq-ok sums_unreadable _ sums;
        files = walked;
        walked = ok_or-eq-ok sums_unreadable _ seen;
        recomputed = ok_or-eq-ok sums_unreadable _ again ∙ ap some (sym equal);
        rooted = rooted;
        stated = ok_or-eq-ok root_unreadable _ said ∙ ap some (spoken ∙ sym rooted);
      }

  -- The hashes of a bundle are accepted, with a root hash, exactly when it is sealed by that hash: every
  -- file of the manifest is there with its hash, its length and its key, no other file stands under raw/,
  -- the checksum list is that of the files, and the stated root hash is the hash of the checksum list.
  pub check_hashes-IsSealed :
      (root : String) → (check_hashes sha256_hex utf8 disk ≡ ok root) ↔ IsSealed root
  check_hashes-IsSealed root = (check_hashes_sound root, IsSealed-check_hashes root)
