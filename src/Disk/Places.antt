-- ===== src/Disk/Places.antt =====
-- Where src/storage/disk/disk_manager.rs puts a page: `allocate_new_page` and the offsets in use.
use oxtub.Base.{
  ℕ, ◌+◌, ◌*◌, ◌≤◌, ◌<◌, ◌≡◌, refl, sym, subst, true, false, Option, none, some, List, [], ◌∷◌,
  length, leb, arith, Bool-cases, inl, inr, ok,
}
use oxtub.Base.Assoc.{get, insert, get-insert_self}
use oxtub.Disk.Manager.{
  DiskManager, FileOps, default_page_size, Returns, allocate_fresh, allocate_new_page,
  allocate_from, offset_or_new,
}
use oxtub.Disk.Slots.{SlotsInv, reuse-SlotsInv, fresh-SlotsInv, again-SlotsInv}
use oxtub.Disk.Files.{FileLaws, DiskInv}

module _ {F : Type 0} ⦃file : FileOps F⦄ (laws : FileLaws F file) where
  -- A place for the page: the manager that has it once the page is entered.
  pub record Placed (dm : DiskManager F) (id off : ℕ) (dm' : DiskManager F) : Type 0 where
    pub pages : dm'.pages ≡ dm.pages
    pub slots : SlotsInv dm'.page_capacity (insert id off dm.pages) dm'.free_slots
    pub capacity : 0 < dm'.page_capacity
    pub long : (dm'.page_capacity + 1) * default_page_size ≤ laws.size dm'.db_file_handle
    pub kept :
        (j o : ℕ)
        → get j dm.pages ≡ some o
        → laws.content dm'.db_file_handle o ≡ laws.content dm.db_file_handle o

  fresh_grows :
      (dm : DiskManager F) (g : F)
      → dm.page_capacity ≤ length dm.pages
      → file.set_len dm.db_file_handle ((dm.page_capacity * 2 + 1) * default_page_size) ≡ (true, g)
      → allocate_fresh dm ≡ (
        ok (length dm.pages * default_page_size),
        record dm { page_capacity = dm.page_capacity * 2; db_file_handle = g },
      )
  unfolding allocate_fresh
  fresh_grows dm g h e =
      let full : leb dm.page_capacity (length dm.pages) ≡ true = ground arith in rw e (rw full refl)

  fresh_fits :
      (dm : DiskManager F)
      → length dm.pages < dm.page_capacity
      → allocate_fresh dm ≡ (ok (length dm.pages * default_page_size), dm)
  unfolding allocate_fresh
  fresh_fits dm h =
      let free : leb dm.page_capacity (length dm.pages) ≡ false = ground arith in rw free refl

  place_fresh :
      (dm : DiskManager F) (id : ℕ)
      → DiskInv laws dm
      → dm.free_slots ≡ []
      → get id dm.pages ≡ none
      → (off : ℕ) × (dm' : DiskManager F) × (allocate_fresh dm ≡ (ok off, dm'))
        × Placed dm id off dm'
  place_fresh dm id v empty missing =
      let slots = subst (SlotsInv dm.page_capacity dm.pages) empty v.slots in
      let off = length dm.pages * default_page_size in
      elim (Bool-cases (leb dm.page_capacity (length dm.pages))) [
        | inl h ↦
            let (g, e, size, same) =
              laws.set_len_works dm.db_file_handle
                ((dm.page_capacity * 2 + 1) * default_page_size) in
            (
              off,
              record dm { page_capacity = dm.page_capacity * 2; db_file_handle = g },
              fresh_grows dm g (ground arith) e,
              record {
                pages = refl;
                slots =
                    subst (SlotsInv (dm.page_capacity * 2) (insert id off dm.pages)) (sym empty) (
                      fresh-SlotsInv dm.page_capacity (dm.page_capacity * 2) dm.pages id slots
                        missing (omega (arith, slots.room, v.capacity)));
                capacity = omega (arith, v.capacity);
                long = omega (arith, size);
                kept = λ j o at.
                    let s = slots.paged j o at in
                    same o (omega (arith, s.1, slots.room, v.long))
                      (omega (arith, s.1, slots.room, v.long));
              },
            )
        | inr h ↦ (
          off,
          dm,
          fresh_fits dm (ground arith),
          record {
            pages = refl;
            slots = subst (SlotsInv dm.page_capacity (insert id off dm.pages)) (sym empty) (
                fresh-SlotsInv dm.page_capacity dm.page_capacity dm.pages id slots missing
                  (ground arith));
            capacity = v.capacity;
            long = v.long;
            kept = λ j o at. refl;
          },
        )
      ]

  abbrev pub Placing : DiskManager F → ℕ → Returns F ℕ → Type 0
  Placing dm id r = (off : ℕ) × (dm' : DiskManager F) × (r ≡ (ok off, dm')) × Placed dm id off dm'

  place_new :
      (dm : DiskManager F) (id : ℕ)
      → DiskInv laws dm
      → get id dm.pages ≡ none
      → Placing dm id (allocate_new_page dm)
  unfolding allocate_new_page
  place_new dm id v missing = go dm.free_slots refl
    where
      go : (free : List ℕ) → dm.free_slots ≡ free → Placing dm id (allocate_from free dm)
      go [] e = place_fresh dm id v e missing
      go (off ∷ rest) e = (
        off,
        record dm { free_slots = rest },
        refl,
        record {
          pages = refl;
          slots =
              reuse-SlotsInv dm.page_capacity dm.pages off rest id
                (subst (SlotsInv dm.page_capacity dm.pages) e v.slots) missing;
          capacity = v.capacity;
          long = v.long;
          kept = λ j o at. refl;
        },
      )

  pub place :
      (dm : DiskManager F) (id : ℕ)
      → DiskInv laws dm
      → Placing dm id (offset_or_new (get id dm.pages) dm)
  place dm id v = go (get id dm.pages) refl
    where
      go : (m : Option ℕ) → get id dm.pages ≡ m → Placing dm id (offset_or_new m dm)
      go none e = place_new dm id v e
      go (some off) e = (
        off,
        dm,
        refl,
        record {
          pages = refl;
          slots = again-SlotsInv dm.page_capacity dm.pages off dm.free_slots id v.slots e;
          capacity = v.capacity;
          long = v.long;
          kept = λ j o at. refl;
        },
      )

  -- The page's offset lies in the file.
  pub Placed-inside :
      (dm dm' : DiskManager F) (id off : ℕ)
      → Placed dm id off dm'
      → off + default_page_size ≤ laws.size dm'.db_file_handle
  Placed-inside dm dm' id off p =
      let s = p.slots.paged id off (get-insert_self id off dm.pages) in
      omega (arith, s.0, s.1, p.slots.room, p.long)
