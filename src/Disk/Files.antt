-- ===== src/Disk/Files.antt =====
-- The file of src/storage/disk/disk_manager.rs, whose operations succeed, and what its pages hold.
use oxtub.Base.{
  ℕ, ◌+◌, ◌*◌, ◌≤◌, ◌<◌, ◌≡◌, refl, true, Option, none, some, List, [], length, arith, ◌⊎◌, ok,
}
use oxtub.Base.Assoc.{get}
use oxtub.Disk.Manager.{DiskManager, FileOps, default_page_size, new, default_db_file_page_capacity}
use oxtub.Disk.Slots.{SlotsInv}

abbrev pub Apart : ℕ → ℕ → Type 0
Apart a b = (a + default_page_size ≤ b) ⊎ (b + default_page_size ≤ a)

-- A file of `size` bytes, whose operations succeed inside it: `content` is the page at an offset.
pub record FileLaws (F : Type 0) (file : FileOps F) : Type 0 where
  pub size : F → ℕ
  pub content : F → ℕ → List ℕ
  pub set_len_works :
      (f : F) (n : ℕ)
      → (g : F) × (file.set_len f n ≡ (true, g))
        × (size g ≡ n)
        × ((off : ℕ)
            → off + default_page_size ≤ size f
            → off + default_page_size ≤ n
            → content g off ≡ content f off)
  pub read_works :
      (f : F) (off : ℕ)
      → off + default_page_size ≤ size f
      → (g : F) × (file.read_at f off ≡ (some (content f off), g))
        × (size g ≡ size f)
        × ((o : ℕ) → content g o ≡ content f o)
  pub write_works :
      (f : F) (off : ℕ) (bytes : List ℕ)
      → length bytes ≡ default_page_size
      → off + default_page_size ≤ size f
      → (g : F) × (file.write_at f off bytes ≡ (true, g))
        × (size g ≡ size f)
        × (content g off ≡ bytes)
        × ((o : ℕ) → Apart off o → content g o ≡ content f o)
  pub flush_works :
      (f : F)
      → (g : F) × (file.flush f ≡ (true, g))
        × (size g ≡ size f)
        × ((o : ℕ) → content g o ≡ content f o)

module _ {F : Type 0} ⦃file : FileOps F⦄ (laws : FileLaws F file) where
  -- The slots are shared out, and the file is long enough for all of them.
  pub record DiskInv (dm : DiskManager F) : Type 0 where
    pub slots : SlotsInv dm.page_capacity dm.pages dm.free_slots
    pub capacity : 0 < dm.page_capacity
    pub long : (dm.page_capacity + 1) * default_page_size ≤ laws.size dm.db_file_handle

  -- The bytes of a page, if it is allocated.
  abbrev pub bytes_at : Option ℕ → F → Option (List ℕ)
  bytes_at none f = none
  bytes_at (some off) f = some (laws.content f off)

  abbrev pub view : DiskManager F → ℕ → Option (List ℕ)
  view dm id = bytes_at (get id dm.pages) dm.db_file_handle

  new_runs :
      (handle g : F)
      → file.set_len handle ((default_db_file_page_capacity + 1) * default_page_size) ≡ (true, g)
      → new handle
        ≡ ok (record {
          db_file_handle = g;
          page_capacity = default_db_file_page_capacity;
          pages = [];
          free_slots = [];
        })
  unfolding new
  new_runs handle g e = rw e refl

  -- Over a file whose operations succeed, `new` gives a manager that keeps the invariant and in which
  -- no page is allocated.
  pub new-DiskInv :
      (handle : F)
      → (dm : DiskManager F) × (new handle ≡ ok dm) × DiskInv dm × ((id : ℕ) → view dm id ≡ none)
  new-DiskInv handle =
      let (g, e, size, _) =
        laws.set_len_works handle ((default_db_file_page_capacity + 1) * default_page_size) in
      (
        record {
          db_file_handle = g;
          page_capacity = default_db_file_page_capacity;
          pages = [];
          free_slots = [];
        },
        new_runs handle g e,
        record {
          slots = record {
            distinct = tt;
            room = omega arith;
            paged = λ i off h. absurd (cc h);
            freed = tt;
            alone = λ i j off h h'. absurd (cc h);
            not_free = λ i off h has. has;
            no_repeat = tt;
          };
          capacity = omega arith;
          long = omega (arith, size);
        },
        λ id. refl,
      )
