-- ===== src/Buffer/Pool/Delete.antt =====
-- `delete_page` of src/buffer/bpm.rs.
use oxtub.Base.{
  get_elem?-set, ℕ, ◌<◌, ◌≡◌, refl, ap, sym, subst, ◌∙◌, ◌≢◌, ◌⊎◌, inl, inr, true, false, Option,
  none, some, List, ◌∷◌, ◌==◌, ltb, if◌then◌else◌, get_elem?, set, length-set, arith, Bool-cases,
  and_then, Exec, ok, err, panic, Has, eq_of_==,
}
use mathlib.Core.Option.{some-injective}
use oxtub.Base.Assoc.{
  get, get-remove_cases, get-remove_ne, get-remove_self, remove-Distinct, remove as remove_key,
}
use oxtub.Buffer.Pool.Defs.{
  BufferPool, BufferPoolError, page_pinned, DiskScheduler, FrameMeta, Page, Returns, reset,
  free_frame, unload_from, unload_page, send_delete, then_send, delete_page,
}
use oxtub.Buffer.Pool.Frames.{held, get_elem?_same}
use oxtub.Buffer.Pool.Invariant.{PoolInv, FrameInv, Change, Change-Inv, disk-Inv}
use oxtub.Buffer.Pool.Store.{DiskLaws}
use oxtub.Buffer.Pool.Views.{view, view_stored, view-disk, frame_page, table_injective}
use oxtub.Buffer.Replacer.Defs.{LruKNode, LruKReplacer}
use oxtub.Buffer.Replacer.Defs as Replacer
use oxtub.Buffer.Replacer.Effects.{remove-Wrote}
use oxtub.Buffer.Replacer.Invariant.{Inv}

module _ {B D : Type 0} {scheduler : DiskScheduler B D} (laws : DiskLaws B D scheduler) where
  -- The page is in no frame, or it has a guard and nothing changes.
  abbrev pub Unloaded :
      BufferPool B D → List ℕ → ℕ → Exec BufferPoolError (Unit {0}) → BufferPool B D → Type 0
  Unloaded s gs p (ok _) t =
      PoolInv laws t gs
      × (get p t.page_table ≡ none)
      × ((q : ℕ) → p ≢ q → view laws t q ≡ view laws s q)
  Unloaded s gs p (err e) t =
      (e ≡ page_pinned p) × (t ≡ s) × ((f : ℕ) × (get p s.page_table ≡ some f) × (0 < held f gs))
  Unloaded s gs p (oxtub.Base.panic) t = ⊥

  abbrev pub Unloads : BufferPool B D → List ℕ → ℕ → Returns B D (Unit {0}) → Type 0
  Unloads s gs p result =
      (o : Exec BufferPoolError (Unit {0})) × (t : BufferPool B D) × (result ≡ some (o, t))
      × Unloaded s gs p o t

  -- The page is gone, or it has a guard and nothing changes.
  abbrev pub Deleted :
      BufferPool B D → List ℕ → ℕ → Exec BufferPoolError (Unit {0}) → BufferPool B D → Type 0
  Deleted s gs p (ok _) t =
      PoolInv laws t gs × (view laws t p ≡ none) × ((q : ℕ) → p ≢ q → view laws t q ≡ view laws s q)
  Deleted s gs p (err e) t =
      (e ≡ page_pinned p) × (t ≡ s) × ((f : ℕ) × (get p s.page_table ≡ some f) × (0 < held f gs))
  Deleted s gs p (oxtub.Base.panic) t = ⊥

  abbrev pub Deletes : BufferPool B D → List ℕ → ℕ → Returns B D (Unit {0}) → Type 0
  Deletes s gs p result =
      (o : Exec BufferPoolError (Unit {0})) × (t : BufferPool B D) × (result ≡ some (o, t))
      × Deleted s gs p o t

  module _ (s : BufferPool B D) (gs : List ℕ) (p f : ℕ) (m : FrameMeta) (page : Page B)
      (v : PoolInv laws s gs) (loaded : get p s.page_table ≡ some f)
      (at : get_elem? s.frame_metas f ≡ some m) (at_frame : get_elem? s.frames f ≡ some page)
      (id : m.page_id ≡ some p) (unpinned : m.pin_count ≡ 0) where
    freed_node : (n : LruKNode) × (get f s.replacer.nodes ≡ some n) × (n.is_evictable ≡ true)
    freed_node =
        let (n, e, flag) =
          (subst
            (λ o.
              FrameInv laws o m.pin_count m.is_dirty page.bytes (get f s.replacer.nodes)
                s.disk_scheduler)
            id (v.frame f m page at at_frame)).1 in
        (n, e, flag ∙ zero_pins m.pin_count unpinned)
      where
        zero_pins : (k : ℕ) → k ≡ 0 → (k == 0) ≡ true
        zero_pins k h = ground arith

    apart : (q g : ℕ) → f ≢ g → get q s.page_table ≡ some g → p ≢ q
    apart q g ne h e = ne (some-injective f g (sym loaded ∙ ap (λ x. get x s.page_table) e ∙ h))

    was_free : (g : ℕ) → Has g s.free_list → f ≢ g
    was_free g h e =
        let (n, e', blank) = v.blank g h in
        let same : m ≡ n = some-injective m n (sym at ∙ ap (get_elem? s.frame_metas) e ∙ e') in
        absurd (cc (sym id ∙ ap FrameMeta.page_id same ∙ blank))

    module _ (r : LruKReplacer) (inv : Inv r)
        (nodes : (g : ℕ) → get g r.nodes ≡ (if f == g then none else get g s.replacer.nodes))
        (size : r.replacer_size ≡ s.replacer.replacer_size) where
      abbrev freed : BufferPool B D
      freed = record s {
        replacer = r;
        free_list = f ∷ s.free_list;
        page_table = remove_key p s.page_table;
        frame_metas = set s.frame_metas f reset;
      }

      freed-Change : Change laws s freed gs gs f reset page
      freed-Change = record {
        inside = inside;
        replacer = inv;
        size = size;
        metas_size = length-set s.frame_metas f reset;
        frames_size = refl;
        metas = λ g. get_elem?-set s.frame_metas f g reset (omega (arith, v.metas_size, inside));
        frames = λ g. get_elem?_same f g page s.frames at_frame;
        nodes = λ g ne. nodes g ∙ other g ne (get g s.replacer.nodes);
        distinct = remove-Distinct p s.page_table v.distinct;
        good = v.good;
        own = (refl, nodes f ∙ here (get f s.replacer.nodes));
        came = λ q g ne h. (get-remove_cases p q g s.page_table v.distinct h).1;
        stays = λ q g ne h. get-remove_ne p q s.page_table v.distinct (apart q g ne h) ∙ h;
        mine = λ q h.
            let (ne, old) = get-remove_cases p q f s.page_table v.distinct h in
            absurd (ne (table_injective laws s gs p q f v loaded old));
        mine_back = λ q h. absurd (cc h);
        kept = λ q g b ne h h'. h';
        own_pins = sym unpinned ∙ v.pins f m at;
        other_pins = λ g ne. refl;
        free = λ g h. now_free g h;
        unique = (λ h. was_free f h refl, v.unique);
      }
        where
          inside : f < s.replacer.replacer_size
          inside = (frame_page laws s gs f m v at).2

          other : (g : ℕ) → f ≢ g → (o : Option LruKNode) → (if f == g then none else o) ≡ o
          other g ne o = ground arith

          here : (o : Option LruKNode) → (if f == f then none else o) ≡ none
          here o = ground arith

          now_free :
              (g : ℕ)
              → Has g (f ∷ s.free_list)
              → ((f ≢ g) × Has g s.free_list) ⊎ ((f ≡ g) × (reset.page_id ≡ none))
          now_free g (inl e) = inr (e, refl)
          now_free g (inr h) = inl (was_free g h, h)

      freed-view : (q : ℕ) → p ≢ q → view laws freed q ≡ view laws s q
      unfolding view
      freed-view q ne = rw (get-remove_ne p q s.page_table v.distinct ne) refl

      freed-Unloaded : Unloaded s gs p (ok tt) freed
      freed-Unloaded = (
        Change-Inv laws s freed gs gs f reset page v freed-Change,
        get-remove_self p s.page_table v.distinct,
        freed-view,
      )

      free_frame-steps :
          Replacer.remove s.replacer f ≡ some r → free_frame p f s ≡ some (ok tt, freed)
      free_frame-steps e = simp (at, tested m.pin_count unpinned, e)
        where
          tested : (k : ℕ) → k ≡ 0 → ltb 0 k ≡ false
          tested k h = ground arith

    free_frame-unpinned : Unloads s gs p (free_frame p f s)
    free_frame-unpinned =
        let (n, e, on) = freed_node in
        let (r, runs, inv, nodes, size) = remove-Wrote s.replacer f n v.replacer e on in
        (
          ok tt,
          freed r inv nodes size,
          free_frame-steps r inv nodes size runs,
          freed-Unloaded r inv nodes size,
        )

  free_frame-pinned :
      (s : BufferPool B D) (p f : ℕ) (m : FrameMeta)
      → get_elem? s.frame_metas f ≡ some m
      → 0 < m.pin_count
      → free_frame p f s ≡ some (err (page_pinned p), s)
  free_frame-pinned s p f m at h =
      let tested : ltb 0 m.pin_count ≡ true = ground arith in simp (at, tested)

  unload_from-runs :
      (s : BufferPool B D) (gs : List ℕ) (p : ℕ) (o : Option ℕ)
      → PoolInv laws s gs
      → get p s.page_table ≡ o
      → Unloads s gs p (unload_from p o s)
  unload_from-runs s gs p none v e = (ok tt, s, refl, (v, e, λ q ne. refl))
  unload_from-runs s gs p (some f) v e =
      let (m, at, id) = v.entry p f e in
      let (page, at', _) = frame_page laws s gs f m v at in
      elim (Bool-cases (m.pin_count == 0)) [
        | inl zero_pins ↦
            free_frame-unpinned s gs p f m page v e at at' id (eq_of_== m.pin_count 0 zero_pins)
        | inr some_pins ↦
            let pinned : 0 < m.pin_count = ground arith in
            (
              err (page_pinned p),
              s,
              free_frame-pinned s p f m at pinned,
              (refl, refl, (f, e, omega (arith, v.pins f m at))),
            )
      ]

  pub unload_page-runs :
      (s : BufferPool B D) (gs : List ℕ) (p : ℕ)
      → PoolInv laws s gs
      → Unloads s gs p (unload_page p s)
  unfolding unload_page
  unload_page-runs s gs p v = unload_from-runs s gs p (get p s.page_table) v refl

  -- The request for a page that is in no frame.
  pub send_delete-Deleted :
      (s : BufferPool B D) (gs : List ℕ) (p : ℕ)
      → PoolInv laws s gs
      → get p s.page_table ≡ none
      → Deleted s gs p (ok tt) (send_delete scheduler p s)
  send_delete-Deleted s gs p v e =
      let d = scheduler.delete_page p s.disk_scheduler in
      (
        disk-Inv laws s gs d v (laws.delete_good p s.disk_scheduler v.good)
            (λ q f h. laws.delete_kept p q s.disk_scheduler v.good (λ e'. apart q f h e')),
        view_stored laws (record s { disk_scheduler = d }) p e
            ∙ laws.delete_gone p s.disk_scheduler v.good,
        λ q ne. view-disk laws s d q (laws.delete_kept p q s.disk_scheduler v.good ne),
      )
    where
      apart : (q f : ℕ) → get q s.page_table ≡ some f → p ≡ q → ⊥
      apart q f h e' = absurd (cc (e, ap (λ x. get x s.page_table) e', h))

  then_send-Deletes :
      (s t : BufferPool B D) (gs : List ℕ) (p : ℕ) (o : Exec BufferPoolError (Unit {0}))
      → Unloaded s gs p o t
      → Deletes s gs p (then_send scheduler p (o, t))
  then_send-Deletes s t gs p (ok x) (v, e, kept) =
      let (v', gone, kept') = send_delete-Deleted t gs p v e in
      (ok tt, send_delete scheduler p t, refl, (v', gone, λ q ne. kept' q ne ∙ kept q ne))
  then_send-Deletes s t gs p (err e) h = (err e, t, refl, h)
  then_send-Deletes s t gs p (oxtub.Base.panic) h = elim h [ ]

  -- While the invariant holds, `delete_page` does not panic. Either the page has a guard, and it
  -- refuses and changes nothing, or the page is gone, from the disk too, every other page keeps its
  -- bytes and the invariant holds.
  pub delete_page-refines :
      (s : BufferPool B D) (gs : List ℕ) (p : ℕ)
      → PoolInv laws s gs
      → Deletes s gs p (delete_page scheduler p s)
  unfolding delete_page
  delete_page-refines s gs p v =
      let (o, t, runs, h) = unload_page-runs s gs p v in
      let (o', t', sent, h') = then_send-Deletes s t gs p o h in
      (o', t', ap (λ r. and_then r (then_send scheduler p)) runs ∙ sent, h')
