-- ===== src/Disk/Tests.antt =====
-- Witnesses, over a file in memory.
use oxtub.Base.{
  ℕ, ◌≡◌, refl, true, false, none, some, List, [], ◌∷◌, arith, ◌==◌, if◌then◌else◌, length, ok, err,
  ◌≢◌, inl, inr, suc, zero, ==_refl,
}
use oxtub.Disk.Manager.{
  FileOps, DiskManager, new, read_page, write_page, delete_page, default_page_size, page_not_found,
}
use oxtub.Disk.Slots.{SlotsInv}
use oxtub.Disk.Files.{FileLaws, DiskInv, view, Apart, new-DiskInv}
use oxtub.Disk.Pages.{write_page-view, read_page-view, delete_page-view}

-- Its size, and the page at each offset.
abbrev Memory : Type 0
Memory = ℕ × (ℕ → List ℕ)

abbrev write_memory : ℕ → List ℕ → (ℕ → List ℕ) → ℕ → List ℕ
write_memory off bytes m o = if off == o then bytes else m o

instance memory_ops : FileOps Memory
memory_ops = record {
  set_len = λ (_, m) n. (true, (n, m));
  read_at = λ (n, m) off. (some (m off), (n, m));
  write_at = λ (n, m) off bytes. (true, (n, write_memory off bytes m));
  flush = λ f. (true, f);
}

Apart-ne : (a b : ℕ) → Apart a b → (a == b) ≡ false
Apart-ne a b (inl h) = ground arith
Apart-ne a b (inr h) = ground arith

memory-FileLaws : FileLaws Memory memory_ops
unfolding memory_ops
memory-FileLaws = record {
  size = λ f. f.0;
  content = λ f off. f.1 off;
  set_len_works = λ f n. ((n, f.1), refl, refl, λ off _ _. refl);
  read_works = λ f off _. (f, refl, refl, λ o. refl);
  write_works = λ f off bytes _ _. (
    (f.0, write_memory off bytes f.1),
    refl,
    refl,
    rw (==_refl off) refl,
    λ o a. rw (Apart-ne off o a) refl,
  );
  flush_works = λ f. (f, refl, refl, λ o. refl);
}

abbrev blank : Memory
blank = (0, λ _. [])

abbrev replicate : ℕ → ℕ → List ℕ
replicate zero v = []
replicate (suc n) v = v ∷ replicate n v

length-replicate : (n v : ℕ) → length (replicate n v) ≡ n
length-replicate zero v = refl
length-replicate (suc n) v = omega (arith, length-replicate n v)

new-DiskInv_example :
    (dm : DiskManager Memory) × (new blank ≡ ok dm)
    × DiskInv memory-FileLaws dm
    × ((id : ℕ) → view memory-FileLaws dm id ≡ none)
new-DiskInv_example = new-DiskInv memory-FileLaws blank

abbrev ones : List ℕ
ones = replicate default_page_size 1

abbrev twos : List ℕ
twos = replicate default_page_size 2

-- Page 3 is in the first slot of the file, and the second one is free.
abbrev used : DiskManager Memory
used = record {
  db_file_handle = (139264, λ off. if off == 0 then ones else twos);
  page_capacity = 16;
  pages = (3, 0) ∷ [];
  free_slots = 8192 ∷ [];
}

used-SlotsInv : SlotsInv 16 ((3, 0) ∷ []) (8192 ∷ [])
used-SlotsInv = record {
  distinct = (refl, tt);
  room = omega arith;
  paged = λ i off h. ground arith;
  freed = ((refl, omega arith), tt);
  alone = λ i j off h h'. ground arith;
  not_free = λ i off h has. elim has [ inl e ↦ ground arith | inr none_there ↦ none_there ];
  no_repeat = ((λ has. has), tt);
}

used-DiskInv : DiskInv memory-FileLaws used
unfolding memory-FileLaws
used-DiskInv = record { slots = used-SlotsInv; capacity = omega arith; long = omega arith }

-- A new page, into the free slot.
write_page-view_example :
    (dm : DiskManager Memory) × (write_page 5 twos used ≡ (ok tt, dm))
    × DiskInv memory-FileLaws dm
    × (view memory-FileLaws dm 5 ≡ some twos)
    × ((j : ℕ) → 5 ≢ j → view memory-FileLaws dm j ≡ view memory-FileLaws used j)
write_page-view_example =
    write_page-view memory-FileLaws used 5 twos used-DiskInv (length-replicate default_page_size 2)

read_page-view_example :
    (bytes : List ℕ) × (dm : DiskManager Memory) × (read_page 3 default_page_size used
      ≡ (ok bytes, dm))
    × DiskInv memory-FileLaws dm
    × (view memory-FileLaws dm 3 ≡ some bytes)
    × ((b : List ℕ) → view memory-FileLaws used 3 ≡ some b → bytes ≡ b)
    × ((j : ℕ) → 3 ≢ j → view memory-FileLaws dm j ≡ view memory-FileLaws used j)
read_page-view_example = read_page-view memory-FileLaws used 3 used-DiskInv

delete_page-view_example :
    (view memory-FileLaws used 3 ≡ none → delete_page 3 used ≡ (err (page_not_found 3), used))
    × ((b : List ℕ)
        → view memory-FileLaws used 3 ≡ some b
        → (dm : DiskManager Memory) × (delete_page 3 used ≡ (ok tt, dm))
          × DiskInv memory-FileLaws dm
          × (view memory-FileLaws dm 3 ≡ none)
          × ((j : ℕ) → 3 ≢ j → view memory-FileLaws dm j ≡ view memory-FileLaws used j))
delete_page-view_example = delete_page-view memory-FileLaws used 3 used-DiskInv
