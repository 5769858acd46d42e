-- ===== src/Buffer/Pool/Views.antt =====
-- What a client of src/buffer/bpm.rs sees: the bytes of every page, in its frame or on disk.
use oxtub.Base.{
  get_elem?-lt, lt-get_elem?, ℕ, ◌+◌, ◌≤◌, ◌<◌, ◌≡◌, refl, ap, sym, ◌∙◌, Option, none, some, List,
  get_elem?, length, arith, usize_mod,
}
use mathlib.Core.Option.{some-injective}
use oxtub.Base.Assoc.{get}
use oxtub.Buffer.Pool.Defs.{BufferPool, DiskScheduler, FrameMeta, Page}
use oxtub.Buffer.Pool.Frames.{held-le}
use oxtub.Buffer.Pool.Invariant.{PoolInv}
use oxtub.Buffer.Pool.Store.{DiskLaws}

-- No counter of the pool is about to overflow.
pub record Bounds {B D : Type 0} (s : BufferPool B D) (gs : List ℕ) : Type 0 where
  pub clock : s.replacer.current_timestamp + 1 < usize_mod
  pub room : s.replacer.curr_size + 1 < usize_mod
  pub guards : length gs + 1 < usize_mod

-- Two states with the same pages in the same frames.
pub record Same {B D : Type 0} (s t : BufferPool B D) : Type 0 where
  pub table : t.page_table ≡ s.page_table
  pub frames : t.frames ≡ s.frames
  pub disk_scheduler : t.disk_scheduler ≡ s.disk_scheduler

abbrev pub bytes_of : {B : Type 0} → Option (Page B) → Option B
bytes_of none = none
bytes_of (some page) = some page.bytes

-- The bytes of a page: those of its frame, or else those on disk.
abbrev pub bytes_at : {B : Type 0} → List (Page B) → Option ℕ → Option B → Option B
bytes_at frames none stored = stored
bytes_at frames (some f) stored = bytes_of (get_elem? frames f)

module _ {B D : Type 0} {scheduler : DiskScheduler B D} (laws : DiskLaws B D scheduler) where
  -- The abstract page store: the bytes of each page.
  unfoldable pub view : BufferPool B D → ℕ → Option B
  view s p = bytes_at s.frames (get p s.page_table) (laws.stored s.disk_scheduler p)

  pub view-Same : (s t : BufferPool B D) (p : ℕ) → Same s t → view t p ≡ view s p
  unfolding view
  view-Same s t p same = rw (same.table, same.frames, same.disk_scheduler) refl

  pub view_loaded :
      (s : BufferPool B D) (p f : ℕ) (page : Page B)
      → get p s.page_table ≡ some f
      → get_elem? s.frames f ≡ some page
      → view s p ≡ some page.bytes
  unfolding view
  view_loaded s p f page e at = rw (e, at) refl

  pub view_stored :
      (s : BufferPool B D) (p : ℕ)
      → get p s.page_table ≡ none
      → view s p ≡ laws.stored s.disk_scheduler p
  unfolding view
  view_stored s p e = rw e refl

  -- A frame that has a meta has a page, and is one of the replacer's.
  pub frame_page :
      (s : BufferPool B D) (gs : List ℕ) (f : ℕ) (m : FrameMeta)
      → PoolInv laws s gs
      → get_elem? s.frame_metas f ≡ some m
      → (page : Page B) × (get_elem? s.frames f ≡ some page) × (f < s.replacer.replacer_size)
  frame_page s gs f m v at =
      let inside = lt-get_elem? s.frame_metas f m at in
      let (page, e) = get_elem?-lt s.frames f (omega (arith, v.metas_size, v.frames_size)) in
      (page, e, omega (arith, v.metas_size))

  pub pin_count-le :
      (s : BufferPool B D) (gs : List ℕ) (f : ℕ) (m : FrameMeta)
      → PoolInv laws s gs
      → get_elem? s.frame_metas f ≡ some m
      → m.pin_count ≤ length gs
  pin_count-le s gs f m v at = omega (arith, v.pins f m at, held-le f gs)

  -- Two pages are in different frames.
  pub table_injective :
      (s : BufferPool B D) (gs : List ℕ) (p q f : ℕ)
      → PoolInv laws s gs
      → get p s.page_table ≡ some f
      → get q s.page_table ≡ some f
      → p ≡ q
  table_injective s gs p q f v e e' =
      let (m, at, id) = v.entry p f e in
      let (n, at', id') = v.entry q f e' in
      some-injective p q (sym id ∙ ap FrameMeta.page_id (some-injective m n (sym at ∙ at')) ∙ id')

  pub view-disk :
      (s : BufferPool B D) (d : D) (q : ℕ)
      → laws.stored d q ≡ laws.stored s.disk_scheduler q
      → view (record s { disk_scheduler = d }) q ≡ view s q
  unfolding view
  view-disk s d q e = rw e refl
