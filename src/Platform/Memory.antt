-- ===== src/Platform/Memory.antt =====
-- A platform that keeps its files in a list and whose database never fails, for running examples.
use artifact_fs_extropic.Base.{
  ℕ, zero, suc, Bool, false, ◌||◌, List, [], ◌∷◌, ◌++◌, Option, none, some, Text, Text_eq, nat_eq,
  ◌==◌, if◌then◌else◌, find, put, delete, length, not_exist, ok, err, Exec,
}
use artifact_fs_extropic.Platform.{Platform}

pub record File : Type 0 where
  pub name : Text
  pub bytes : Text

abbrev pub file_key : File → Text
file_key f = f.name

abbrev pub Files : Type 0
Files = List File

abbrev done : Exec Files (Unit {0})
done d = (ok tt, d)

abbrev bytes_of : Option File → Text
bytes_of none = []
bytes_of (some f) = f.bytes

abbrev set_file : Text → Text → Exec Files (Unit {0})
set_file name bytes d = (ok tt, put file_key (record { name = name; bytes = bytes }) d)

-- Bytes written at an offset, with zeros in a gap.
unfoldable pub place : ℕ → Text → Text → Text
place zero [] old = old
place zero (b ∷ bs) [] = b ∷ bs
place zero (b ∷ bs) (c ∷ cs) = b ∷ place zero bs cs
place (suc n) bs [] = 0 ∷ place n bs []
place (suc n) bs (c ∷ cs) = c ∷ place n bs cs

unfoldable pub some_suffix : (Text → Bool) → Text → Bool
some_suffix f [] = f []
some_suffix f (c ∷ s) = f (c ∷ s) || some_suffix f s

abbrev tail_if : (Text → Bool) → ℕ → Text → Bool
tail_if f c [] = false
tail_if f c (d ∷ s) = if nat_eq c d then f s else false

-- LIKE with % as the only wildcard, and upper and lower case told apart.
unfoldable pub matches : Text → Text → Bool
unfolding some_suffix
matches [] s = s == []
matches (c ∷ pattern') s =
    if nat_eq c b'%' then some_suffix (matches pattern') s else tail_if (matches pattern') c s

unfoldable pub move_file : Text → Text → Exec Files (Unit {0})
move_file from to d = elim (find file_key from d) [
  | none ↦ (err not_exist, d)
  | some f ↦ (ok tt, put file_key (record { name = to; bytes = f.bytes }) (delete file_key from d))
]

abbrev pub memory : Platform
memory = record {
  Disk = Files;
  mkdir_all = λ _ _. done;
  move = move_file;
  unlink = λ name d. (ok tt, delete file_key name d);
  truncate = λ _ _. done;
  write_empty = λ name _. set_file name [];
  stat_size = λ name d. (ok (length (bytes_of (find file_key name d))), d);
  read_all = λ name d. elim (find file_key name d) [
    | none ↦ (err not_exist, d)
    | some f ↦ (ok f.bytes, d)
  ];
  open_trunc = λ name _. set_file name [];
  append = λ name bytes d. set_file name (bytes_of (find file_key name d) ++ bytes) d;
  sync = λ _. done;
  close = λ _. done;
  open_create = λ name _ d. set_file name (bytes_of (find file_key name d)) d;
  write_at = λ name off bytes d. (
    ok (length bytes),
    put file_key (record { name = name; bytes = place off bytes (bytes_of (find file_key name d)) })
        d,
  );
  file_size = λ name d. length (bytes_of (find file_key name d));
  read_limited = λ name _ d. (ok (bytes_of (find file_key name d)), d);
  read_chunk = λ name _ _ d. (ok (bytes_of (find file_key name d)), d);
  db_fault = λ _ _. none;
  like = λ s pattern'. matches pattern' s;
}
