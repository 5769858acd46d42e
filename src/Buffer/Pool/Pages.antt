-- ===== src/Buffer/Pool/Pages.antt =====
-- `write_page` and `read_page` of src/buffer/bpm.rs on every branch.
use oxtub.Base.{
  ℕ, ◌+◌, ◌<◌, ◌≡◌, refl, ap, sym, subst, ◌∙◌, ◌≢◌, inl, inr, Bool, true, false, Option, none, some,
  List, ◌∷◌, set, get_elem?, arith, Option-cases, usize_mod, Exec, ok, err, panic,
}
use oxtub.Base.Assoc.{get, insert}
use oxtub.Buffer.Pool.Acquire.{Acquires, acquire_frame_for_page_load-runs}
use oxtub.Buffer.Pool.Defs.{
  BufferPool, BufferPoolError, DiskScheduler, FrameMeta, fill_frame, load_page, pin_or_load,
  pin_replacer, publish_loaded_page, write_page, read_page, acquire_frame_for_page_load,
}
use oxtub.Buffer.Pool.Fetch.{
  Fetches, FetchesFrom, published, published-Inv, published-loaded, published-view, published_page,
}
use oxtub.Buffer.Pool.Invariant.{PoolInv, disk-Inv}
use oxtub.Buffer.Pool.Pins.{pin_frame-Inv, pin_replacer-Wrote}
use oxtub.Buffer.Pool.Store.{DiskLaws}
use oxtub.Buffer.Pool.Taken.{Acquired}
use oxtub.Buffer.Pool.Views.{Bounds, view, view-disk, view-Same, view_stored, frame_page}
use oxtub.Buffer.Replacer.Defs.{LruKReplacer}

module _ {B D : Type 0} {scheduler : DiskScheduler B D} (laws : DiskLaws B D scheduler) where
  fill_frame-steps :
      (s : BufferPool B D) (p f : ℕ) (b : B) (d : D) (m : FrameMeta) (r : LruKReplacer)
      → get_elem? s.frame_metas f ≡ some m
      → pin_replacer s.replacer f ≡ some r
      → fill_frame scheduler p f (some b, d) s
        ≡ some (
          ok f,
          record s {
            page_table = insert p f s.page_table;
            frame_metas =
                set s.frame_metas f (record { page_id = some p; pin_count = 1; is_dirty = false });
            replacer = r;
            frames = set s.frames f (record { page_id = some p; bytes = b });
            disk_scheduler = d;
          },
        )
  unfolding publish_loaded_page
  fill_frame-steps s p f b d m r at e = simp (at, e)

  -- The read of the page into the frame that was acquired.
  fill_frame-runs :
      (s t : BufferPool B D) (gs : List ℕ) (p f : ℕ) (o : Option B) (d : D)
      → PoolInv laws t gs
      → Acquired laws t f
      → t.replacer.current_timestamp + 1 < usize_mod
      → t.replacer.curr_size + 1 < usize_mod
      → get p t.page_table ≡ none
      → laws.Good d
      → ((q : ℕ) → p ≢ q → laws.stored d q ≡ laws.stored t.disk_scheduler q)
      → ((b : B) → laws.stored t.disk_scheduler p ≡ some b → laws.stored d p ≡ some b)
      → ((b : B) → o ≡ some b → laws.stored d p ≡ some b)
      → FetchesFrom laws s t gs p (fill_frame scheduler p f (o, d) t)
  fill_frame-runs s t gs p f none d v a clock room absent good new old found = (
    err BufferPoolError.disk,
    record t { disk_scheduler = d },
    refl,
    (disk-Inv laws t gs d v good (λ q g h. new q (apart q g h)), tt),
    λ q ne. view-disk laws t d q (new q ne),
    λ b h.
        view_stored laws (record t { disk_scheduler = d }) p absent
        ∙ old b (sym (view_stored laws t p absent) ∙ h),
  )
    where
      apart : (q g : ℕ) → get q t.page_table ≡ some g → p ≢ q
      apart q g h e = absurd (cc (absent, ap (λ x. get x t.page_table) e, h))
  fill_frame-runs s t gs p f (some b) d v a clock room absent good new old found =
      let (page, _, inside) = frame_page laws t gs f a.meta v a.at in
      let (r, pins, w) = pin_replacer-Wrote t.replacer f v.replacer clock room inside in
      (
        ok f,
        published laws t gs p f v a absent d b r w good (found b refl) new,
        fill_frame-steps t p f b d a.meta r a.at pins,
        (
          published-Inv laws t gs p f v a absent d b r w good (found b refl) new,
          published-loaded laws t gs p f v a absent d b r w good (found b refl) new,
        ),
        published-view laws t gs p f v a absent d b r w good (found b refl) new,
        λ c h.
            published_page laws t gs p f v a absent d b r w good (found b refl) new
            ∙ sym (found b refl)
            ∙ old c (sym (view_stored laws t p absent) ∙ h),
      )

  load_page-runs :
      (s t : BufferPool B D) (gs : List ℕ) (p : ℕ) (o : Exec BufferPoolError ℕ)
      → Bounds s gs
      → Acquires laws s gs o t
      → get p t.page_table ≡ none
      → ((q : ℕ) → view laws t q ≡ view laws s q)
      → Fetches laws s gs p (load_page scheduler p (o, t))
  load_page-runs s t gs p (ok f) bounds (v, a, clock, room) absent same =
      let d = t.disk_scheduler in
      let (o, u, runs, after, others, own) =
        fill_frame-runs s t gs p f (scheduler.read_page p d).0 (scheduler.read_page p d).1 v a
          (omega (arith, clock, bounds.clock)) (omega (arith, room, bounds.room)) absent
          (laws.read_good p d v.good) (λ q ne. laws.read_new p q d v.good ne)
          (λ b h. laws.read_kept p p d b v.good h) (λ b h. laws.read_stored p d b v.good h) in
      (o, u, runs, after, λ q ne. others q ne ∙ same q, λ b h. own b (same p ∙ h))
  load_page-runs s t gs p (err e) bounds w absent same =
      (err e, t, refl, w, λ q ne. same q, λ b h. same p ∙ h)
  load_page-runs s t gs p (oxtub.Base.panic) bounds w absent same = elim w [ ]

  pin_or_load-runs :
      (s : BufferPool B D) (gs : List ℕ) (p : ℕ) (o : Option ℕ)
      → PoolInv laws s gs
      → Bounds s gs
      → get p s.page_table ≡ o
      → Fetches laws s gs p (pin_or_load scheduler p o s)
  pin_or_load-runs s gs p (some f) v bounds e =
      let (t, runs, v', same) = pin_frame-Inv laws s gs p f v bounds e in
      (
        ok f,
        t,
        rw runs refl,
        (v', ap (get p) same.table ∙ e),
        λ q ne. view-Same laws s t q same,
        λ b h. view-Same laws s t p same ∙ h,
      )
  pin_or_load-runs s gs p none v bounds e =
      let (o, t, runs, w, same, absent) = acquire_frame_for_page_load-runs laws s gs v bounds in
      subst (Fetches laws s gs p) (sym (loads o t runs))
        (load_page-runs s t gs p o bounds w (absent p e) same)
    where
      loads :
          (o : Exec BufferPoolError ℕ) (t : BufferPool B D)
          → acquire_frame_for_page_load scheduler s ≡ some (o, t)
          → pin_or_load scheduler p none s ≡ load_page scheduler p (o, t)
      loads o t h = rw h refl

  pub write_page-refines :
      (s : BufferPool B D) (gs : List ℕ) (p : ℕ)
      → PoolInv laws s gs
      → Bounds s gs
      → Fetches laws s gs p (write_page scheduler p s)
  unfolding write_page
  write_page-refines s gs p v bounds = pin_or_load-runs s gs p (get p s.page_table) v bounds refl

  -- The same of `read_page`.
  pub read_page-refines :
      (s : BufferPool B D) (gs : List ℕ) (p : ℕ)
      → PoolInv laws s gs
      → Bounds s gs
      → Fetches laws s gs p (read_page scheduler p s)
  unfolding read_page
  read_page-refines s gs p v bounds = pin_or_load-runs s gs p (get p s.page_table) v bounds refl
