-- ===== src/Disk/Pages.antt =====
-- What the pages of src/storage/disk/disk_manager.rs hold, over a file whose operations succeed.
use oxtub.Base.{
  ℕ, ◌+◌, ◌≡◌, refl, ap, sym, ◌∙◌, subst, true, Option, none, some, List, ◌∷◌, length, ◌==◌, arith,
  ◌≢◌, ok, err,
}
use mathlib.Core.Option.{some-injective}
use oxtub.Base.Assoc.{
  get, insert, remove, get-insert_self, get-insert_ne, get-remove_self, get-remove_ne,
}
use oxtub.Disk.Manager.{
  DiskManager, FileOps, default_page_size, page_not_found, offset_or_new, read_page, write_page,
  delete_page, free_offset,
}
use oxtub.Disk.Slots.{SlotsInv, Slot, free-SlotsInv}
use oxtub.Disk.Files.{Apart, FileLaws, DiskInv, bytes_at, view}
use oxtub.Disk.Places.{Placed, place, Placed-inside}

module _ {F : Type 0} ⦃file : FileOps F⦄ (laws : FileLaws F file) where
  -- Two offsets of slots are a page apart.
  slots-Apart : (m n a b : ℕ) → Slot m a → Slot n b → a ≢ b → Apart a b
  slots-Apart m n a b s t ne = ground (arith, s.0, t.0)

  write_steps :
      (dm dm' : DiskManager F) (id off : ℕ) (bytes : List ℕ) (g h : F)
      → length bytes ≡ default_page_size
      → offset_or_new (get id dm.pages) dm ≡ (ok off, dm')
      → file.write_at dm'.db_file_handle off bytes ≡ (true, g)
      → file.flush g ≡ (true, h)
      → write_page id bytes dm
        ≡ (ok tt, record dm' { pages = insert id off dm'.pages; db_file_handle = h })
  unfolding write_page
  write_steps dm dm' id off bytes g h e placed written flushed =
      let size : (length bytes == default_page_size) ≡ true = ground arith in
      simp (size, placed, written, flushed)

  read_steps :
      (dm dm' : DiskManager F) (id off : ℕ) (bytes : List ℕ) (g : F)
      → offset_or_new (get id dm.pages) dm ≡ (ok off, dm')
      → file.read_at dm'.db_file_handle off ≡ (some bytes, g)
      → read_page id default_page_size dm
        ≡ (ok bytes, record dm' { pages = insert id off dm'.pages; db_file_handle = g })
  unfolding read_page
  read_steps dm dm' id off bytes g placed got = simp (placed, got)

  -- The state once the page is entered, over a file `g` that differs from the one before at the
  -- page only.
  entered-DiskInv :
      (dm dm' : DiskManager F) (id off : ℕ) (g : F)
      → Placed laws dm id off dm'
      → laws.size g ≡ laws.size dm'.db_file_handle
      → DiskInv laws (record dm' { pages = insert id off dm'.pages; db_file_handle = g })
  entered-DiskInv dm dm' id off g p size = record {
    slots =
        subst (λ x. SlotsInv dm'.page_capacity (insert id off x) dm'.free_slots) (sym p.pages)
          p.slots;
    capacity = p.capacity;
    long = omega (arith, p.long, size);
  }

  entered-view :
      (dm dm' : DiskManager F) (id off : ℕ) (g : F)
      → Placed laws dm id off dm'
      → view laws (record dm' { pages = insert id off dm'.pages; db_file_handle = g }) id
        ≡ some (laws.content g off)
  entered-view dm dm' id off g p = rw (get-insert_self id off dm'.pages) refl

  entered-others :
      (dm dm' : DiskManager F) (id off : ℕ) (g : F)
      → Placed laws dm id off dm'
      → ((o : ℕ) → Apart off o → laws.content g o ≡ laws.content dm'.db_file_handle o)
      → (j : ℕ) → id ≢ j
      → view laws (record dm' { pages = insert id off dm'.pages; db_file_handle = g }) j
        ≡ view laws dm j
  entered-others dm dm' id off g p same j ne =
      rw (get-insert_ne id j off dm'.pages ne) (rw p.pages (go (get j dm.pages) refl))
    where
      go :
          (m : Option ℕ)
          → get j dm.pages ≡ m
          → bytes_at laws m g ≡ bytes_at laws m dm.db_file_handle
      go none e = refl
      go (some o) e =
          let there = get-insert_ne id j off dm.pages ne ∙ e in
          let own = get-insert_self id off dm.pages in
          let n = length (insert id off dm.pages) + length dm'.free_slots in
          ap some (
            same o (
              slots-Apart n n off o (p.slots.paged id off own) (p.slots.paged j o there)
                (λ eq. ne (p.slots.alone id j off own (there ∙ ap some (sym eq)))))
            ∙ p.kept j o e)

  -- In a manager that keeps the invariant, over a file whose operations succeed, `write_page` of one
  -- page of bytes succeeds: the invariant still holds, the page then holds the bytes, whether it was
  -- allocated or not, and no other page changes.
  pub write_page-view :
      (dm : DiskManager F) (id : ℕ) (bytes : List ℕ)
      → DiskInv laws dm
      → length bytes ≡ default_page_size
      → (dm' : DiskManager F) × (write_page id bytes dm ≡ (ok tt, dm'))
        × DiskInv laws dm'
        × (view laws dm' id ≡ some bytes)
        × ((j : ℕ) → id ≢ j → view laws dm' j ≡ view laws dm j)
  write_page-view dm id bytes v e =
      let (off, mid, placed, p) = place laws dm id v in
      let inside = Placed-inside laws dm mid id off p in
      let (g, written, size, holds, others) =
        laws.write_works mid.db_file_handle off bytes e inside in
      let (h, flushed, size', same) = laws.flush_works g in
      (
        record mid { pages = insert id off mid.pages; db_file_handle = h },
        write_steps dm mid id off bytes g h e placed written flushed,
        entered-DiskInv dm mid id off h p (size' ∙ size),
        entered-view dm mid id off h p ∙ ap some (same off ∙ holds),
        entered-others dm mid id off h p (λ o a. same o ∙ others o a),
      )

  -- In a manager that keeps the invariant, over a file whose operations succeed, `read_page` into a
  -- buffer of one page succeeds: the invariant still holds, the result is what the page then holds,
  -- which is what it held if it was allocated, and no other page changes.
  pub read_page-view :
      (dm : DiskManager F) (id : ℕ)
      → DiskInv laws dm
      → (bytes : List ℕ) × (dm' : DiskManager F) × (read_page id default_page_size dm
          ≡ (ok bytes, dm'))
        × DiskInv laws dm'
        × (view laws dm' id ≡ some bytes)
        × ((b : List ℕ) → view laws dm id ≡ some b → bytes ≡ b)
        × ((j : ℕ) → id ≢ j → view laws dm' j ≡ view laws dm j)
  read_page-view dm id v =
      let (off, mid, placed, p) = place laws dm id v in
      let inside = Placed-inside laws dm mid id off p in
      let (g, got, size, same) = laws.read_works mid.db_file_handle off inside in
      (
        laws.content mid.db_file_handle off,
        record mid { pages = insert id off mid.pages; db_file_handle = g },
        read_steps dm mid id off (laws.content mid.db_file_handle off) g placed got,
        entered-DiskInv dm mid id off g p size,
        entered-view dm mid id off g p ∙ ap some (same off),
        λ b h. go (get id dm.pages) refl off mid placed p b h,
        entered-others dm mid id off g p (λ o _. same o),
      )
    where
      go :
          (m : Option ℕ)
          → get id dm.pages ≡ m
          → (off : ℕ) (mid : DiskManager F) → offset_or_new (get id dm.pages) dm ≡ (ok off, mid)
          → Placed laws dm id off mid
          → (b : List ℕ) → bytes_at laws (get id dm.pages) dm.db_file_handle ≡ some b
          → laws.content mid.db_file_handle off ≡ b
      go none e off mid placed p b h = absurd (cc (rw e at h))
      go (some o) e off mid placed p b h =
          let held : some (laws.content dm.db_file_handle o) ≡ some b = rw e at h in
          let there : (ok o, dm) ≡ (ok off, mid) = rw e at placed in
          let same : off ≡ o = cc in
          ap (laws.content mid.db_file_handle) same ∙ p.kept id o e ∙ some-injective _ _ held

  -- In a manager that keeps the invariant, `delete_page` of an allocated page succeeds: the invariant
  -- still holds, the page is gone and no other page changes; of any other page it is
  -- `PageNotFound`, and nothing changes.
  pub delete_page-view :
      (dm : DiskManager F) (id : ℕ)
      → DiskInv laws dm
      → (view laws dm id ≡ none → delete_page id dm ≡ (err (page_not_found id), dm))
        × ((b : List ℕ)
            → view laws dm id ≡ some b
            → (dm' : DiskManager F) × (delete_page id dm ≡ (ok tt, dm'))
              × DiskInv laws dm'
              × (view laws dm' id ≡ none)
              × ((j : ℕ) → id ≢ j → view laws dm' j ≡ view laws dm j))
  unfolding delete_page
  delete_page-view dm id v = (missing (get id dm.pages) refl, present (get id dm.pages) refl)
    where
      missing :
          (m : Option ℕ)
          → get id dm.pages ≡ m
          → bytes_at laws m dm.db_file_handle ≡ none
          → free_offset id m dm ≡ (err (page_not_found id), dm)
      missing none e h = refl
      missing (some off) e h = cc

      present :
          (m : Option ℕ)
          → get id dm.pages ≡ m
          → (b : List ℕ) → bytes_at laws m dm.db_file_handle ≡ some b
          → (dm' : DiskManager F) × (free_offset id m dm ≡ (ok tt, dm'))
            × DiskInv laws dm'
            × (view laws dm' id ≡ none)
            × ((j : ℕ) → id ≢ j → view laws dm' j ≡ view laws dm j)
      present none e b h = cc
      present (some off) e b h = (
        record dm { pages = remove id dm.pages; free_slots = off ∷ dm.free_slots },
        refl,
        record {
          slots = free-SlotsInv dm.page_capacity dm.pages off dm.free_slots id v.slots e;
          capacity = v.capacity;
          long = v.long;
        },
        ap (λ m. bytes_at laws m dm.db_file_handle) (get-remove_self id dm.pages v.slots.distinct),
        λ j ne.
            ap (λ m. bytes_at laws m dm.db_file_handle)
              (get-remove_ne id j dm.pages v.slots.distinct ne),
      )
