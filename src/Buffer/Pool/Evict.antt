-- ===== src/Buffer/Pool/Evict.antt =====
-- A page leaves its frame, or stays after a write that failed, in `acquire_frame_for_page_load` of
-- src/buffer/bpm.rs.
use oxtub.Base.{
  get_elem?-set, ℕ, ◌≡◌, refl, ap, sym, subst, ◌∙◌, ◌≢◌, inl, inr, true, some, List, ◌==◌,
  if◌then◌else◌, get_elem?, set, length-set, arith, Bool-cases, Has, eq_of_==, ne_of_==,
}
use mathlib.Core.Option.{some-injective}
use oxtub.Base.Assoc.{
  get, get-remove_cases, get-remove_ne, get-remove_self, remove-Distinct, remove as remove_key,
}
use oxtub.Buffer.Pool.Defs.{BufferPool, DiskScheduler, FrameMeta, reset}
use oxtub.Buffer.Pool.Frames.{get_elem?_same}
use oxtub.Buffer.Pool.Invariant.{PoolInv, FrameInv, Change, Change-Inv}
use oxtub.Buffer.Pool.Pins.{nodes_other}
use oxtub.Buffer.Pool.Store.{DiskLaws}
use oxtub.Buffer.Pool.Taken.{Acquired, Victim}
use oxtub.Buffer.Pool.Views.{view, view_loaded, view_stored, table_injective}
use oxtub.Buffer.Replacer.Defs.{LruKReplacer}
use oxtub.Buffer.Replacer.Effects.{Wrote, written}

module _ {B D : Type 0} {scheduler : DiskScheduler B D} (laws : DiskLaws B D scheduler) where
  module _ (s : BufferPool B D) (gs : List ℕ) (f : ℕ) (r' : LruKReplacer) (v : PoolInv laws s gs)
      (x : Victim laws s gs f r') (d : D) (good : laws.Good d)
      (kept : (q : ℕ)
        → x.victim_page_id ≢ q
        → laws.stored d q ≡ laws.stored s.disk_scheduler q) where
    victim_loaded : get x.victim_page_id s.page_table ≡ some f
    victim_loaded = v.back x.victim_page_id f x.meta x.at x.id

    elsewhere : (q g : ℕ) → f ≢ g → get q s.page_table ≡ some g → x.victim_page_id ≢ q
    elsewhere q g ne h e =
        ne (some-injective f g (sym victim_loaded ∙ ap (λ p. get p s.page_table) e ∙ h))

    not_free : (g : ℕ) → Has g s.free_list → f ≢ g
    not_free g h e =
        let (n, e', blank) = v.blank g h in
        let same : x.meta ≡ n =
          some-injective x.meta n (sym x.at ∙ ap (get_elem? s.frame_metas) e ∙ e') in
        absurd (cc (sym x.id ∙ ap FrameMeta.page_id same ∙ blank))

    -- The victim's page leaves the frame.
    abbrev pub taken : BufferPool B D
    taken = record s {
      page_table = remove_key x.victim_page_id s.page_table;
      frame_metas = set s.frame_metas f reset;
      replacer = r';
      disk_scheduler = d;
    }

    taken-Change : Change laws s taken gs gs f reset x.page
    taken-Change = record {
      inside = x.inside;
      replacer = x.inv;
      size = x.size;
      metas_size = length-set s.frame_metas f reset;
      frames_size = refl;
      metas = λ g. get_elem?-set s.frame_metas f g reset (omega (arith, v.metas_size, x.inside));
      frames = λ g. get_elem?_same f g x.page s.frames x.at_frame;
      nodes = x.others;
      distinct = remove-Distinct x.victim_page_id s.page_table v.distinct;
      good = good;
      own = (refl, x.gone);
      came = λ q g ne h. (get-remove_cases x.victim_page_id q g s.page_table v.distinct h).1;
      stays = λ q g ne h.
          get-remove_ne x.victim_page_id q s.page_table v.distinct (elsewhere q g ne h) ∙ h;
      mine = λ q h.
          let (ne, old) = get-remove_cases x.victim_page_id q f s.page_table v.distinct h in
          absurd (ne (table_injective laws s gs x.victim_page_id q f v victim_loaded old));
      mine_back = λ q h. absurd (cc h);
      kept = λ q g b ne h h'. kept q (elsewhere q g ne h) ∙ h';
      own_pins = sym x.unpinned ∙ v.pins f x.meta x.at;
      other_pins = λ g ne. refl;
      free = λ g h. inl (not_free g h, h);
      unique = v.unique;
    }

    pub taken-view :
        laws.stored d x.victim_page_id ≡ some x.page.bytes
        → (q : ℕ) → view laws taken q ≡ view laws s q
    unfolding view
    taken-view flushed q = elim (Bool-cases (x.victim_page_id == q)) [
      | inl e ↦
          let same = eq_of_== x.victim_page_id q e in
          subst (λ p. view laws taken p ≡ view laws s p) same
            (view_stored laws taken x.victim_page_id
                (get-remove_self x.victim_page_id s.page_table v.distinct)
              ∙ flushed
              ∙ sym (view_loaded laws s x.victim_page_id f x.page victim_loaded x.at_frame))
      | inr e ↦
          let ne = ne_of_== x.victim_page_id q e in
          rw (get-remove_ne x.victim_page_id q s.page_table v.distinct ne, kept q ne) refl
    ]

    pub taken-Acquired : PoolInv laws taken gs × Acquired laws taken f
    taken-Acquired = (
      Change-Inv laws s taken gs gs f reset x.page v taken-Change,
      record {
        meta = reset;
        at = Change.metas taken-Change f ∙ here;
        empty = refl;
        taken = λ h. not_free f h refl;
      },
    )
      where
        here : (if f == f then some reset else get_elem? s.frame_metas f) ≡ some reset
        here = ground arith

    -- The victim stays, and the replacer learns of its frame again.
    module _ (r : LruKReplacer) (w : Wrote r' f true r) (dirty : x.meta.is_dirty ≡ true) where
      abbrev pub restored : BufferPool B D
      restored = record s { replacer = r; disk_scheduler = d }

      restored-Change : Change laws s restored gs gs f x.meta x.page
      restored-Change = record {
        inside = x.inside;
        replacer = w.inv;
        size = w.size ∙ x.size;
        metas_size = refl;
        frames_size = refl;
        metas = λ g. get_elem?_same f g x.meta s.frame_metas x.at;
        frames = λ g. get_elem?_same f g x.page s.frames x.at_frame;
        nodes = λ g ne. nodes_other r' r f g true w ne ∙ x.others g ne;
        distinct = v.distinct;
        good = good;
        own =
            subst
              (λ o. FrameInv laws o x.meta.pin_count x.meta.is_dirty x.page.bytes (get f r.nodes) d)
              (sym x.id)
              (
                x.full,
                (w.node, written r' r f w, w.flag ∙ unpinned x.meta.pin_count x.unpinned),
                λ clean. absurd (cc (clean, dirty)),
              );
        came = λ q g ne h. h;
        stays = λ q g ne h. h;
        mine = λ q h.
            x.id ∙ ap some (table_injective laws s gs x.victim_page_id q f v victim_loaded h);
        mine_back = λ q h. v.back q f x.meta x.at h;
        kept = λ q g b ne h h'. kept q (elsewhere q g ne h) ∙ h';
        own_pins = v.pins f x.meta x.at;
        other_pins = λ g ne. refl;
        free = λ g h. inl (not_free g h, h);
        unique = v.unique;
      }
        where
          unpinned : (n : ℕ) → n ≡ 0 → true ≡ (n == 0)
          unpinned n h = ground arith

      pub restored-Inv : PoolInv laws restored gs
      restored-Inv = Change-Inv laws s restored gs gs f x.meta x.page v restored-Change

      pub restored-view : (q : ℕ) → view laws restored q ≡ view laws s q
      unfolding view
      restored-view q = elim (Bool-cases (x.victim_page_id == q)) [
        | inl e ↦
            let same = eq_of_== x.victim_page_id q e in
            subst (λ p. view laws restored p ≡ view laws s p) same
              (view_loaded laws restored x.victim_page_id f x.page victim_loaded x.at_frame
                ∙ sym (view_loaded laws s x.victim_page_id f x.page victim_loaded x.at_frame))
        | inr e ↦ rw (kept q (ne_of_== x.victim_page_id q e)) refl
      ]
