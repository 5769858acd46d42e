-- ===== src/Disk/Manager.antt =====
-- src/storage/disk/disk_manager.rs. The handle of the file is a parameter, and each operation returns
-- the state it leaves, on errors too.
use oxtub.Base.{
  ℕ, ◌+◌, ◌*◌, Bool, true, false, Option, none, some, List, [], ◌∷◌, length, leb, ◌==◌,
  if◌then◌else◌, Exec, ok, err, panic,
}
use oxtub.Base.Assoc.{get, insert, remove}

abbrev pub default_page_size : ℕ
default_page_size = 8192

abbrev pub default_db_file_page_capacity : ℕ
default_db_file_page_capacity = 16

-- What the program uses of `std::fs::File`: each operation tells whether it succeeded, and the file
-- after it. `read_at` and `write_at` are a `seek` and then `read_exact` of one page or `write_all`.
pub record FileOps (F : Type 0) : Type 0 where
  pub set_len : F → ℕ → Bool × F
  pub read_at : F → ℕ → Option (List ℕ) × F
  pub write_at : F → ℕ → List ℕ → Bool × F
  pub flush : F → Bool × F

pub data DiskManagerError : Type 0 where
  io invalid_page_size : DiskManagerError
  page_not_found : ℕ → DiskManagerError

pub record DiskManager (F : Type 0) : Type 0 where
  pub db_file_handle : F
  pub page_capacity : ℕ
  -- page id and file offset
  pub pages : List (ℕ × ℕ)
  -- the offset freed last comes first
  pub free_slots : List ℕ

abbrev pub Returns : Type 0 → Type 0 → Type 0
Returns F A = Exec DiskManagerError A × DiskManager F

module _ {F : Type 0} ⦃file : FileOps F⦄ where
  -- `new` on the opened file
  unfoldable pub new : F → Exec DiskManagerError (DiskManager F)
  new handle =
      let (done, handle') =
        file.set_len handle ((default_db_file_page_capacity + 1) * default_page_size) in
      if done
      then ok (record {
        db_file_handle = handle';
        page_capacity = default_db_file_page_capacity;
        pages = [];
        free_slots = [];
      })
      else err io

  -- More space in the file, and the first offset behind the pages in it.
  unfoldable pub allocate_fresh : DiskManager F → Returns F ℕ
  allocate_fresh dm =
      let offset = length dm.pages * default_page_size in
      let capacity = dm.page_capacity * 2 in
      let (done, handle) = file.set_len dm.db_file_handle ((capacity + 1) * default_page_size) in
      let grown = record dm { page_capacity = capacity; db_file_handle = handle } in
      if leb dm.page_capacity (length dm.pages)
      then if done then (ok offset, grown) else (err io, grown)
      else (ok offset, dm)

  abbrev pub allocate_from : List ℕ → DiskManager F → Returns F ℕ
  allocate_from [] dm = allocate_fresh dm
  allocate_from (offset ∷ rest) dm = (ok offset, record dm { free_slots = rest })

  unfoldable pub allocate_new_page : DiskManager F → Returns F ℕ
  allocate_new_page dm = allocate_from dm.free_slots dm

  -- The match on `self.pages.get(&page_id)`.
  abbrev pub offset_or_new : Option ℕ → DiskManager F → Returns F ℕ
  offset_or_new none dm = allocate_new_page dm
  offset_or_new (some offset) dm = (ok offset, dm)

  abbrev pub read_into : ℕ → ℕ → Option (List ℕ) × F → DiskManager F → Returns F (List ℕ)
  read_into page_id offset (none, handle) dm = (err io, record dm { db_file_handle = handle })
  read_into page_id offset (some bytes, handle) dm =
      (ok bytes, record dm { db_file_handle = handle; pages = insert page_id offset dm.pages })

  abbrev pub read_from : ℕ → Returns F ℕ → Returns F (List ℕ)
  read_from page_id (ok offset, dm) =
      read_into page_id offset (file.read_at dm.db_file_handle offset) dm
  read_from page_id (err e, dm) = (err e, dm)
  read_from page_id (panic, dm) = (panic, dm)

  -- `size` is the length of the buffer; the data read are the result.
  unfoldable pub read_page : ℕ → ℕ → DiskManager F → Returns F (List ℕ)
  read_page page_id size dm =
      if size == default_page_size
      then read_from page_id (offset_or_new (get page_id dm.pages) dm)
      else (err invalid_page_size, dm)

  abbrev pub flush_file : Bool × F → DiskManager F → Returns F (Unit {0})
  flush_file (true, handle) dm = (ok tt, record dm { db_file_handle = handle })
  flush_file (false, handle) dm = (err io, record dm { db_file_handle = handle })

  abbrev pub write_out : ℕ → ℕ → Bool × F → DiskManager F → Returns F (Unit {0})
  write_out page_id offset (false, handle) dm = (err io, record dm { db_file_handle = handle })
  write_out page_id offset (true, handle) dm =
      flush_file (file.flush handle)
        (record dm { db_file_handle = handle; pages = insert page_id offset dm.pages })

  abbrev pub write_to : ℕ → List ℕ → Returns F ℕ → Returns F (Unit {0})
  write_to page_id bytes (ok offset, dm) =
      write_out page_id offset (file.write_at dm.db_file_handle offset bytes) dm
  write_to page_id bytes (err e, dm) = (err e, dm)
  write_to page_id bytes (panic, dm) = (panic, dm)

  unfoldable pub write_page : ℕ → List ℕ → DiskManager F → Returns F (Unit {0})
  write_page page_id bytes dm =
      if length bytes == default_page_size
      then write_to page_id bytes (offset_or_new (get page_id dm.pages) dm)
      else (err invalid_page_size, dm)

module _ {F : Type 0} where
  abbrev pub free_offset : ℕ → Option ℕ → DiskManager F → Returns F (Unit {0})
  free_offset page_id none dm = (err (page_not_found page_id), dm)
  free_offset page_id (some offset) dm =
      (ok tt, record dm { pages = remove page_id dm.pages; free_slots = offset ∷ dm.free_slots })

  unfoldable pub delete_page : ℕ → DiskManager F → Returns F (Unit {0})
  delete_page page_id dm = free_offset page_id (get page_id dm.pages) dm
