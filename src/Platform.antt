-- ===== src/Platform.antt =====
-- What the stores rely on and the repository does not implement: the operating system's files and
-- the failures of the SQLite library. Each call may fail, and leaves a new state of the disk.
pub mod Memory
use artifact_fs_extropic.Base.{
  ℕ, ℤ, ◌≡◌, ◌++◌, Bool, true, Text, text, Option, Error, Result, Exec, ok, err,
}

-- A call of database/sql, with the key of the row that it touches where it has one.
pub data Statement : Type 0 where
  upsert_row delete_row insert_row update_row : Text → Statement
  query begin prepare commit : Statement

pub record Platform : Type 1 where
  pub Disk : Type 0
  -- os.MkdirAll(path, mode), os.Rename(from, to), os.Remove(path), os.Truncate(path, size)
  pub mkdir_all : Text → ℕ → Exec Disk (Unit {0})
  pub move : Text → Text → Exec Disk (Unit {0})
  pub unlink : Text → Exec Disk (Unit {0})
  pub truncate : Text → ℕ → Exec Disk (Unit {0})
  -- os.WriteFile(path, nil, mode)
  pub write_empty : Text → ℕ → Exec Disk (Unit {0})
  -- os.Stat(path).Size()
  pub stat_size : Text → Exec Disk ℕ
  -- os.Open(path) and reading to the end
  pub read_all : Text → Exec Disk Text
  -- os.OpenFile(path, O_WRONLY|O_TRUNC, mode), io.Copy into it, Sync, Close
  pub open_trunc : Text → ℕ → Exec Disk (Unit {0})
  pub append : Text → Text → Exec Disk (Unit {0})
  pub sync : Text → Exec Disk (Unit {0})
  pub close : Text → Exec Disk (Unit {0})
  -- os.OpenFile(path, O_WRONLY|O_CREATE, mode), WriteAt(data, off)
  pub open_create : Text → ℕ → Exec Disk (Unit {0})
  pub write_at : Text → ℕ → Text → Exec Disk ℕ
  -- the size that Stat of an open file gives, its error dropped
  pub file_size : Text → Disk → ℕ
  -- os.Open(path), Seek(off), one Read of at most so many bytes
  pub read_chunk : Text → ℕ → ℕ → Exec Disk Text
  -- os.Open(path) and reading to the end of what io.LimitReader lets through: one byte above the limit
  pub read_limited : Text → ℤ → Exec Disk Text
  -- whether a statement fails for a reason outside the tables
  pub db_fault : Disk → Statement → Option Error
  -- SQLite's `text LIKE pattern`
  pub like : Text → Text → Bool

-- SQLite documents that a character of a pattern matches itself, and that % matches any text.
pub record LikeLaws (p : Platform) : Type 0 where
  pub like-all : (s : Text) → p.like s (text "%") ≡ true
  pub like-below : (d s : Text) → p.like (d ++ text "/" ++ s) (d ++ text "/%") ≡ true
