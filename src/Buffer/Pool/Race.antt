-- ===== src/Buffer/Pool/Race.antt =====
-- A `delete_page` of src/buffer/bpm.rs whose page is loaded again before the request is sent.
use oxtub.Base.{ℕ, ◌≡◌, refl, sym, subst, ◌∙◌, false, none, some, List, ok, get_elem?, set}
use oxtub.Base.Assoc.{get, get-remove_self, remove as remove_key}
use oxtub.Buffer.Pool.Defs.{
  BufferPool, DiskScheduler, FrameMeta, Page, empty_frame, send_delete, reset,
}
use oxtub.Buffer.Pool.Invariant.{PoolInv, FrameInv}
use oxtub.Buffer.Pool.Store.{DiskLaws}
use oxtub.Buffer.Pool.Views.{view, view_loaded, view_stored, frame_page}

module _ {B D : Type 0} {scheduler : DiskScheduler B D} (laws : DiskLaws B D scheduler) where
  empty_frame-clean :
      (s : BufferPool B D) (p f : ℕ) (m : FrameMeta) (page : Page B)
      → get_elem? s.frame_metas f ≡ some m
      → get_elem? s.frames f ≡ some page
      → m.page_id ≡ some p
      → m.is_dirty ≡ false
      → (u : BufferPool B D) × (empty_frame scheduler f s ≡ some (ok f, u))
        × (u.page_table ≡ remove_key p s.page_table)
        × (u.disk_scheduler ≡ s.disk_scheduler)
  empty_frame-clean s p f m page at at' id clean = (
    record s { page_table = remove_key p s.page_table; frame_metas = set s.frame_metas f reset },
    simp (at, id, at', clean),
    refl,
    refl,
  )

  -- In a pool in order, the request to delete a page that is in memory and not dirty leaves its bytes
  -- in the frame and nothing on disk. The eviction of the frame then writes nothing, and the page, which
  -- was there for every client until then, is gone.
  pub send_delete-loses :
      (s : BufferPool B D) (gs : List ℕ) (p f : ℕ) (m : FrameMeta)
      → PoolInv laws s gs
      → get p s.page_table ≡ some f
      → get_elem? s.frame_metas f ≡ some m
      → m.is_dirty ≡ false
      → (b : B) × (u : BufferPool B D) × (view laws s p ≡ some b)
        × (laws.stored s.disk_scheduler p ≡ some b)
        × (view laws (send_delete scheduler p s) p ≡ some b)
        × (laws.stored (send_delete scheduler p s).disk_scheduler p ≡ none)
        × (empty_frame scheduler f (send_delete scheduler p s) ≡ some (ok f, u))
        × (view laws u p ≡ none)
  send_delete-loses s gs p f m v loaded at clean =
      let (page, at', _) = frame_page laws s gs f m v at in
      let (n, at_n, id_n) = v.entry p f loaded in
      let id : m.page_id ≡ some p = cc (at, at_n, id_n) in
      let t = send_delete scheduler p s in
      let gone = laws.delete_gone p s.disk_scheduler v.good in
      let (u, runs, table, disk) = empty_frame-clean t p f m page at at' id clean in
      let on_disk =
        (subst
            (λ o.
              FrameInv laws o m.pin_count m.is_dirty page.bytes (get f s.replacer.nodes)
                s.disk_scheduler)
            id (v.frame f m page at at')).2
          clean in
      (
        page.bytes,
        u,
        view_loaded laws s p f page loaded at',
        on_disk,
        view_loaded laws t p f page loaded at',
        gone,
        runs,
        view_stored laws u p
              (subst (λ x. get p x ≡ none) (sym table) (get-remove_self p s.page_table v.distinct))
            ∙ subst (λ d. laws.stored d p ≡ none) (sym disk) gone,
      )
