-- ===== src/Buffer/Pool/Store.antt =====
-- What the buffer pool assumes of the disk: a store of pages under a lawful scheduler.
use oxtub.Base.{ℕ, ◌≡◌, ◌≢◌, true, Option, none, some}
use oxtub.Buffer.Pool.Defs.{DiskScheduler}

-- `stored` is the bytes of each page on disk. A read or a write may fail: it leaves the other pages, and
-- a failed read all of them, as they were. A deletion, whose sender waits for no answer, does not fail.
pub record DiskLaws (B D : Type 0) (scheduler : DiskScheduler B D) : Type 1 where
  pub stored : D → ℕ → Option B
  pub Good : D → Type 0
  -- the bytes that fill a page
  pub Full : B → Type 0
  pub stored_full : (d : D) (p : ℕ) (b : B) → Good d → stored d p ≡ some b → Full b
  pub read_good : (p : ℕ) (d : D) → Good d → Good (scheduler.read_page p d).1
  pub read_kept :
      (p q : ℕ) (d : D) (b : B)
      → Good d
      → stored d q ≡ some b
      → stored (scheduler.read_page p d).1 q ≡ some b
  pub read_new :
      (p q : ℕ) (d : D) → Good d → p ≢ q → stored (scheduler.read_page p d).1 q ≡ stored d q
  pub read_stored :
      (p : ℕ) (d : D) (b : B)
      → Good d
      → (scheduler.read_page p d).0 ≡ some b
      → stored (scheduler.read_page p d).1 p ≡ some b
  pub write_good : (p : ℕ) (b : B) (d : D) → Good d → Full b → Good (scheduler.write_page p b d).1
  pub write_stored :
      (p : ℕ) (b : B) (d : D)
      → Good d
      → Full b
      → (scheduler.write_page p b d).0 ≡ true
      → stored (scheduler.write_page p b d).1 p ≡ some b
  pub write_kept :
      (p q : ℕ) (b : B) (d : D)
      → Good d
      → Full b
      → p ≢ q
      → stored (scheduler.write_page p b d).1 q ≡ stored d q
  pub delete_good : (p : ℕ) (d : D) → Good d → Good (scheduler.delete_page p d)
  pub delete_gone : (p : ℕ) (d : D) → Good d → stored (scheduler.delete_page p d) p ≡ none
  pub delete_kept :
      (p q : ℕ) (d : D) → Good d → p ≢ q → stored (scheduler.delete_page p d) q ≡ stored d q
