-- ===== src/Buffer/Pool/Start.antt =====
-- `new` of src/buffer/bpm.rs: the pool that it starts with.
use oxtub.Base.{
  get_elem?-lt, ℕ, zero, suc, ◌+◌, ◌≤◌, ◌<◌, ◌≡◌, refl, ap, sym, subst, ◌∙◌, inl, inr, none, some,
  [], get_elem?, length, arith, Has, All-Has, Bool-cases, ◌==◌, eq_of_==,
}
use oxtub.Base.Assoc.{get}
use oxtub.Buffer.Pool.Defs.{
  BufferPool, DiskScheduler, FrameMeta, reset, repeat, range, new, invalid_page_id,
}
use oxtub.Buffer.Pool.Frames.{get_elem?-repeat, length-repeat, range-All}
use oxtub.Buffer.Pool.Invariant.{PoolInv, FrameInv, Unique}
use oxtub.Buffer.Pool.Store.{DiskLaws}
use oxtub.Buffer.Pool.Views.{view}
use oxtub.Buffer.Replacer.Defs.{LruKReplacer}
use oxtub.Buffer.Replacer.Defs as Replacer
use oxtub.Buffer.Replacer.Invariant.{Inv, new-Inv}

range-Has : (start n f : ℕ) → Has f (range start n) → (start ≤ f) × (f < start + n)
range-Has start n f h =
    All-Has (λ g. (start ≤ g) × (g < start + n)) (range start n) f (range-All start n) h

range-Unique : (start n : ℕ) → Unique (range start n)
range-Unique start zero = tt
range-Unique start (suc n) =
    (λ h. absurd (omega (arith, (range-Has (suc start) n start h).0)), range-Unique (suc start) n)

Has-range : (start n f : ℕ) → start ≤ f → f < start + n → Has f (range start n)
Has-range start zero f h h' = absurd (omega arith)
Has-range start (suc n) f h h' = elim (Bool-cases (start == f)) [
  | inl here ↦ inl (eq_of_== start f here)
  | inr there ↦ inr (Has-range (suc start) n f (ground arith) (omega arith))
]

module _ {B D : Type 0} {scheduler : DiskScheduler B D} (laws : DiskLaws B D scheduler) where
  abbrev pub started : ℕ → B → D → LruKReplacer → BufferPool B D
  started n zeroes d r = record {
    page_table = [];
    frame_metas = repeat n reset;
    free_list = range 0 n;
    replacer = r;
    next_page_id = invalid_page_id + 1;
    frames = repeat n (record { page_id = none; bytes = zeroes });
    disk_scheduler = d;
  }

  started-Inv :
      (n : ℕ) (zeroes : B) (d : D) (r : LruKReplacer)
      → laws.Good d
      → Inv r
      → r.nodes ≡ []
      → r.replacer_size ≡ n
      → PoolInv laws (started n zeroes d r) []
  started-Inv n zeroes d r good inv empty size = record {
    replacer = inv;
    metas_size = length-repeat n reset ∙ sym size;
    frames_size = length-repeat n (record { page_id = none; bytes = zeroes }) ∙ sym size;
    distinct = tt;
    good = good;
    entry = λ p f h. absurd (cc h);
    back = λ p f m at id. absurd (cc (sym (page_id_of f m at) ∙ id));
    frame = λ f m page at at'.
        subst
          (λ (x : FrameMeta).
            FrameInv laws x.page_id x.pin_count x.is_dirty page.bytes (get f r.nodes) d)
          (sym (get_elem?-repeat n f reset m at)) (refl, ap (get f) empty);
    pins = λ f m at. ap FrameMeta.pin_count (get_elem?-repeat n f reset m at);
    guards = λ f h. absurd (omega (arith, h));
    blank = λ f h.
        let (m, at) =
          get_elem?-lt (repeat n reset) f
            (omega (arith, (range-Has 0 n f h).1, length-repeat n reset)) in
        (m, at, page_id_of f m at);
    unique = range-Unique 0 n;
  }
    where
      page_id_of :
          (f : ℕ) (m : FrameMeta) → get_elem? (repeat n reset) f ≡ some m → m.page_id ≡ none
      page_id_of f m at = ap FrameMeta.page_id (get_elem?-repeat n f reset m at)

  abbrev pub fresh : ℕ → LruKReplacer
  fresh n = record { nodes = []; current_timestamp = 0; curr_size = 0; replacer_size = n; k = 2 }

  -- On a disk in order, `new` returns for any size: the pool is in order and shows the pages of the
  -- disk, no page is loaded, each of its frames is free, and the first page id it gives out is the one
  -- after the invalid one.
  pub new-refines :
      (n : ℕ) (zeroes : B) (d : D)
      → laws.Good d
      → (s : BufferPool B D) × (new n zeroes d ≡ some s)
        × PoolInv laws s []
        × ((q : ℕ) → view laws s q ≡ laws.stored d q)
        × ((q : ℕ) → get q s.page_table ≡ none)
        × (length s.frames ≡ n)
        × ((f : ℕ) → f < n → Has f s.free_list)
        × (s.next_page_id ≡ invalid_page_id + 1)
  unfolding new Replacer.new view
  new-refines n zeroes d good = (
    started n zeroes d (fresh n),
    refl,
    started-Inv n zeroes d (fresh n) good (new-Inv n 2 (fresh n) refl) refl refl,
    λ q. refl,
    λ q. refl,
    length-repeat n (record { page_id = none; bytes = zeroes }),
    λ f h. Has-range 0 n f (omega arith) (omega arith),
    refl,
  )
