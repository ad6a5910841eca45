-- ===== src/Gitstore/Batch.antt =====
-- Blobs from running `git cat-file --batch` processes (BlobToCache, ReadBlob, batchPool, batchCatFile).
-- What a process answers is a parameter. The end of what is unread stands for the end of its output.
pub mod Pool
pub mod Protocol
pub mod Balance
pub mod Leaks
pub mod Fetched
use artifact_fs_extropic.Base.{
  ℕ, zero, suc, ◌+◌, ◌-◌, ◌^◌, ◌≡◌, Bool, true, false, not, ◌&&◌, ◌||◌, List, [], ◌∷◌, ◌++◌, map,
  Option, none, some, Text, text, Text_eq, ℕ_eq, nat_eq, ltb, leb, ◌==◌, if◌then◌else◌, find, put,
  length, ℤ, pos, negsuc, is_negative, ltb_ℤ, ℤ_eq, Error, other, blob_too_large, Result, ok, err,
  Exec, pure, raise, handle, ◌>>=◌, ◌>>◌,
}
use artifact_fs_extropic.Strings.{fields, cut, parse_int}
use artifact_fs_extropic.Path.{filepath_dir}
use artifact_fs_extropic.Model.{RepoConfig}
use artifact_fs_extropic.Platform.{Platform}

-- git cat-file --batch: whether it starts, and what it prints for a line that it is sent
pub record CatFileCommand (D : Type 0) : Type 0 where
  pub start : Text → Exec D (Unit {0})
  pub answer : Text → Text → Exec D Text
  -- how many bytes of its output a copy that fails has taken
  pub taken : Text → D → ℕ

-- batchCatFile: the bytes of its output that are not read yet, and whether it was waited for
pub record CatFile : Type 0 where
  pub git_dir : Text
  pub waited : Bool
  pub unread : Text

abbrev pub alive : CatFile → Bool
alive b = not b.waited

-- A process and the disk, while a call uses them.
pub record Wire (D : Type 0) : Type 0 where
  pub proc : CatFile
  pub disk : D

-- Errors that are only passed on.
abbrev pub end_of_output : Error
end_of_output = other 10

abbrev pub bad_header : Error
bad_header = other 11

abbrev pub missing_object : Error
missing_object = other 12

abbrev pub negative_size : Error
negative_size = other 13

abbrev pub short_read : Error
short_read = other 14

abbrev pub max_read_blob_bytes : ℕ
max_read_blob_bytes = 2 ^ 31 - 1

unfoldable pub first_bytes : ℕ → Text → Text
first_bytes zero s = []
first_bytes (suc n) [] = []
first_bytes (suc n) (c ∷ s) = c ∷ first_bytes n s

unfoldable pub later_bytes : ℕ → Text → Text
later_bytes zero s = s
later_bytes (suc n) [] = []
later_bytes (suc n) (c ∷ s) = later_bytes n s

abbrev pub natural : ℤ → ℕ
natural (pos n) = n
natural (negsuc n) = 0

-- readObjectSize, on the header without its line feed
abbrev pub size_field : List Text → Result ℤ
size_field (size ∷ _) = elim (parse_int size) [ none ↦ err bad_header | some n ↦ ok n ]
size_field [] = err bad_header

abbrev pub header_fields : List Text → Result ℤ
header_fields (oid ∷ type ∷ more) =
    if type == text "missing" then err missing_object else size_field more
header_fields _ = err bad_header

unfoldable pub parse_header : Text → Result ℤ
parse_header header = header_fields (fields header)

abbrev pub set_unread : {D : Type 0} → Text → Wire D → Wire D
set_unread s w = record w { proc = record (w.proc) { unread = s } }

-- ReadString('\n'), without the line feed
unfoldable pub read_line : {D : Type 0} → Exec (Wire D) Text
read_line w = elim (cut b'\n' w.proc.unread) [
  | none ↦ (err end_of_output, set_unread [] w)
  | some (line, rest) ↦ (ok line, set_unread rest w)
]

unfoldable pub read_object_size : {D : Type 0} → Exec (Wire D) ℤ
unfolding read_line parse_header
read_object_size w =
    let (r, w') = read_line w in
    elim r [ err e ↦ (err e, w') | ok header ↦ (parse_header header, w') ]

-- ReadByte
abbrev pub byte_of : Text → Result ℕ
byte_of [] = err end_of_output
byte_of (c ∷ _) = ok c

abbrev pub read_byte : {D : Type 0} → Exec (Wire D) ℕ
read_byte w = (byte_of w.proc.unread, set_unread (later_bytes 1 w.proc.unread) w)

-- io.ReadFull of so many bytes
unfoldable pub read_full : {D : Type 0} → ℕ → Exec (Wire D) Text
unfolding first_bytes later_bytes
read_full n w =
    if ltb (length w.proc.unread) n
    then (err end_of_output, set_unread [] w)
    else (ok (first_bytes n w.proc.unread), set_unread (later_bytes n w.proc.unread) w)

module _ (p : Platform) (cat : CatFileCommand p.Disk) where
  open p use {Disk}

  -- fmt.Fprintf(b.stdin, "%s\n", oid)
  unfoldable pub ask : Text → Exec (Wire Disk) (Unit {0})
  ask oid w =
      let (r, d) = cat.answer w.proc.git_dir oid w.disk in
      elim r [
        | err e ↦ (err e, record w { disk = d })
        | ok out ↦
            (ok tt, record { proc = record (w.proc) { unread = w.proc.unread ++ out }; disk = d })
      ]

  abbrev pub at_disk : {A : Type 0} → Exec Disk A → Exec (Wire Disk) A
  at_disk m w = let (r, d) = m w.disk in (r, record w { disk = d })

  -- io.CopyN into the temporary file, then the line feed behind the contents
  unfoldable pub copy_contents : Text → ℤ → Exec (Wire Disk) (Unit {0})
  copy_contents tmp size w =
      let n = natural size in
      let (r, w') = at_disk (p.append tmp (first_bytes n w.proc.unread)) w in
      let left = later_bytes n w.proc.unread in
      let w'' = set_unread (later_bytes 1 left) w' in
      elim r [
        | err e ↦ (err e, set_unread (later_bytes (suc (cat.taken tmp w.disk)) w.proc.unread) w')
        | ok _ ↦
            if ltb (length w.proc.unread) n || left == []
            then (err end_of_output, w'')
            else if is_negative size
            then (err short_read, w'')
            else (ok tt, w'')
      ]

  -- The file is closed, and renamed or removed.
  unfoldable pub finish_file : Text → Text → ℤ → Result (Unit {0}) → Exec (Wire Disk) ℕ
  finish_file tmp dst size copied w =
      let (closed, w') = at_disk (p.close tmp) w in
      elim copied [
        | err e ↦ let (_, w'') = at_disk (p.unlink tmp) w' in (err e, w'')
        | ok _ ↦ elim closed [
          | err e ↦ let (_, w'') = at_disk (p.unlink tmp) w' in (err e, w'')
          | ok _ ↦
              let (moved, w'') = at_disk (p.move tmp dst) w' in
              elim moved [
                | err e ↦ let (_, w''') = at_disk (p.unlink tmp) w'' in (err e, w''')
                | ok _ ↦ (ok (natural size), w'')
              ]
        ]
      ]

  -- fetchToFile, behind the header
  unfoldable pub store_contents : Text → ℤ → Exec (Wire Disk) ℕ
  store_contents dst size w =
      let tmp = dst ++ text ".tmp" in
      let (created, w') = at_disk (p.open_trunc tmp 0o666) w in
      elim created [
        | err e ↦ (
          err e,
          set_unread
              (later_bytes (if is_negative size then 0 else suc (natural size)) w'.proc.unread) w',
        )
        | ok _ ↦
            let (copied, w'') = copy_contents tmp size w' in finish_file tmp dst size copied w''
      ]

  unfoldable pub fetch_to_file : Text → Text → Exec (Wire Disk) ℕ
  fetch_to_file oid dst = ask oid >> read_object_size >>= store_contents dst

  -- readBlob, behind the header
  unfoldable pub read_contents : ℤ → ℤ → Exec (Wire Disk) Text
  read_contents max size w =
      if is_negative size
      then (err negative_size, w)
      else if ltb_ℤ max size
      then (err blob_too_large, w)
      else if ltb_ℤ (pos max_read_blob_bytes) size
      then (err blob_too_large, w)
      else let (r, w') = read_full (natural size) w in
        elim r [
          | err e ↦ (err e, w')
          | ok data' ↦
              let (lf, w'') = read_byte w' in (elim lf [ err e ↦ err e | ok _ ↦ ok data' ], w'')
        ]

  unfoldable pub read_object : Text → ℤ → Exec (Wire Disk) Text
  read_object oid max = ask oid >> read_object_size >>= read_contents max
