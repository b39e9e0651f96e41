-- ===== src/Memory/Backend.antt =====
-- kernel/src/file/backend.rs: `BackEndFile`, the part of a file that stands behind an area. The
-- files are those of the trait `File` of modules/base-file/src/lib.rs.
use maturin.Prelude.{ℕ, ◌+◌, Option, none, List}

-- The files of the system: a read returns the bytes at an offset, at most so many.
pub record FileStore : Type 1 where
  pub File : Type 0
  pub Files : Type 0
  pub read_from_offset : Files → File → ℕ → ℕ → Option (List ℕ)
  pub write_to_offset : Files → File → ℕ → List ℕ → Files × Option ℕ

pub data SyncPolicy : Type 0 where
  sync_read sync_write sync_read_write : SyncPolicy

module _ (store : FileStore) where
  pub record BackEndFile : Type 0 where
    pub file : store.File
    pub offset : ℕ
    pub policy : SyncPolicy

  unfoldable pub split_file : BackEndFile → ℕ → BackEndFile
  split_file self delta = record self { offset = self.offset + delta }

  unfoldable pub clone_file : BackEndFile → BackEndFile
  clone_file self = split_file self 0

  unfoldable pub modify_offset : BackEndFile → ℕ → BackEndFile
  modify_offset self delta = record self { offset = self.offset + delta }

  unfoldable pub read_backend : BackEndFile → store.Files → ℕ → ℕ → Option (List ℕ)
  read_backend self files pos len = elim self.policy [
    | sync_write ↦ none
    | sync_read ↦ store.read_from_offset files self.file (self.offset + pos) len
    | sync_read_write ↦ store.read_from_offset files self.file (self.offset + pos) len
  ]

  unfoldable pub write_backend : BackEndFile → store.Files → ℕ → List ℕ → store.Files × Option ℕ
  write_backend self files pos buf = elim self.policy [
    | sync_read ↦ (files, none)
    | sync_write ↦ store.write_to_offset files self.file (self.offset + pos) buf
    | sync_read_write ↦ store.write_to_offset files self.file (self.offset + pos) buf
  ]
