-- ===== src/Buffer/Pool/Pins.antt =====
-- Guards of src/buffer/bpm.rs and src/storage/page/page_guard.rs: a frame is pinned, and unpinned.
use oxtub.Base.{
  get_elem?-set, ℕ, ◌+◌, ◌<◌, ◌≡◌, refl, ap, sym, subst, ◌∙◌, ◌≢◌, inl, Bool, false, Option, none,
  some, List, ◌∷◌, ◌==◌, if◌then◌else◌, get_elem?, set, length, length-set, arith, Has, add_usize,
  add_usize-some, usize_mod,
}
use mathlib.Core.Option.{some-injective}
use oxtub.Base.Assoc.{get}
use oxtub.Buffer.Pool.Defs.{BufferPool, DiskScheduler, FrameMeta, Page, pin_replacer, pin_frame}
use oxtub.Buffer.Pool.Frames.{held, get_elem?_same}
use oxtub.Buffer.Pool.Invariant.{PoolInv, FrameInv, Change-Inv}
use oxtub.Buffer.Pool.Store.{DiskLaws}
use oxtub.Buffer.Pool.Views.{Bounds, Same, frame_page, pin_count-le}
use oxtub.Buffer.Replacer.Defs.{LruKNode, LruKReplacer}
use oxtub.Buffer.Replacer.Effects.{Wrote, touch-Wrote, written}
use oxtub.Buffer.Replacer.Invariant.{Inv}

pub pin_replacer-Wrote :
    (r : LruKReplacer) (f : ℕ)
    → Inv r
    → r.current_timestamp + 1 < usize_mod
    → r.curr_size + 1 < usize_mod
    → f < r.replacer_size
    → (r' : LruKReplacer) × (pin_replacer r f ≡ some r') × Wrote r f false r'
pin_replacer-Wrote r f v clock room h =
    let (q, r', e, e', w) = touch-Wrote r f false v clock room h in (r', simp (e, e'), w)

pub nodes_other :
    (r r' : LruKReplacer) (f g : ℕ) (b : Bool)
    → Wrote r f b r'
    → f ≢ g
    → get g r'.nodes ≡ get g r.nodes
nodes_other r r' f g b w ne = w.at g ∙ other (get g r.nodes) w.node
  where
    other : (o : Option LruKNode) (n : LruKNode) → (if f == g then some n else o) ≡ o
    other o n = ground arith

module _ {B D : Type 0} {scheduler : DiskScheduler B D} (laws : DiskLaws B D scheduler) where
  -- The pins, the flag and the bytes of a frame change; its page does not.
  pub touched-Inv :
      (s : BufferPool B D) (gs hs : List ℕ) (f : ℕ) (m m' : FrameMeta) (page : Page B)
      (pages : List (Page B)) (r' : LruKReplacer) (b : Bool)
      → PoolInv laws s gs
      → get_elem? s.frame_metas f ≡ some m
      → m'.page_id ≡ m.page_id
      → (w : Wrote s.replacer f b r') → f < s.replacer.replacer_size
      → length pages ≡ length s.frames
      → ((g : ℕ) → get_elem? pages g ≡ (if f == g then some page else get_elem? s.frames g))
      → FrameInv laws m'.page_id m'.pin_count m'.is_dirty page.bytes (some w.node) s.disk_scheduler
      → (loaded : m.page_id ≢ none) → m'.pin_count ≡ held f hs
      → ((g : ℕ) → f ≢ g → held g hs ≡ held g gs)
      → PoolInv laws
          (record s { frame_metas = set s.frame_metas f m'; replacer = r'; frames = pages })
          hs
  touched-Inv s gs hs f m m' page pages r' b v at id w inside size pages_at own loaded pins others =
      Change-Inv laws s _ gs hs f m' page v (record {
        inside = inside;
        replacer = w.inv;
        size = w.size;
        metas_size = length-set s.frame_metas f m';
        frames_size = size;
        metas = λ g. get_elem?-set s.frame_metas f g m' (omega (arith, v.metas_size));
        frames = pages_at;
        nodes = λ g ne. nodes_other s.replacer r' f g b w ne;
        distinct = v.distinct;
        good = v.good;
        own =
            subst
              (λ o. FrameInv laws m'.page_id m'.pin_count m'.is_dirty page.bytes o s.disk_scheduler)
              (sym (written s.replacer r' f w)) own;
        came = λ p g ne h. h;
        stays = λ p g ne h. h;
        mine = λ p h.
            let (n, e, e') = v.entry p f h in
            id ∙ ap FrameMeta.page_id (some-injective m n (sym at ∙ e)) ∙ e';
        mine_back = λ p h. v.back p f m at (sym id ∙ h);
        kept = λ p g b₁ ne h h'. h';
        own_pins = pins;
        other_pins = others;
        free = λ g h. inl (not_free g h, h);
        unique = v.unique;
      })
    where
      not_free : (g : ℕ) → Has g s.free_list → f ≢ g
      not_free g h e =
          let (n, e', blank) = v.blank g h in
          let same : m ≡ n = some-injective m n (sym at ∙ ap (get_elem? s.frame_metas) e ∙ e') in
          loaded (ap FrameMeta.page_id same ∙ blank)

  pin_frame-steps :
      (s : BufferPool B D) (f pins : ℕ) (m : FrameMeta) (r' : LruKReplacer)
      → get_elem? s.frame_metas f ≡ some m
      → add_usize m.pin_count 1 ≡ some pins
      → pin_replacer s.replacer f ≡ some r'
      → pin_frame f s
        ≡ some (record s {
          frame_metas = set s.frame_metas f (record m { pin_count = pins });
          replacer = r';
        })
  pin_frame-steps s f pins m r' at e e' = simp (at, e, e')

  FrameInv-pins :
      (o : Option ℕ) (p pins pins' : ℕ) (dirty : Bool) (bytes : B) (n n' : Option LruKNode) (d : D)
      → o ≡ some p
      → (node : LruKNode) × (n' ≡ some node) × (node.is_evictable ≡ (pins' == 0))
      → FrameInv laws o pins dirty bytes n d
      → FrameInv laws o pins' dirty bytes n' d
  FrameInv-pins none p pins pins' dirty bytes n n' d e node v = absurd (cc e)
  FrameInv-pins (some q) p pins pins' dirty bytes n n' d e node v = (v.0, node, v.2)

  -- A loaded page gets one more guard.
  pub pin_frame-Inv :
      (s : BufferPool B D) (gs : List ℕ) (p f : ℕ)
      → PoolInv laws s gs
      → Bounds s gs
      → get p s.page_table ≡ some f
      → (t : BufferPool B D) × (pin_frame f s ≡ some t) × PoolInv laws t (f ∷ gs) × Same s t
  pin_frame-Inv s gs p f v bounds e =
      let (m, at, id) = v.entry p f e in
      let (page, at', inside) = frame_page laws s gs f m v at in
      let (r', e', w) =
        pin_replacer-Wrote s.replacer f v.replacer bounds.clock bounds.room inside in
      let m' : FrameMeta = record m { pin_count = m.pin_count + 1 } in
      (
        record s { frame_metas = set s.frame_metas f m'; replacer = r' },
        pin_frame-steps s f (m.pin_count + 1) m r' at
            (add_usize-some m.pin_count 1
              (omega (arith, pin_count-le laws s gs f m v at, bounds.guards)))
            e',
        touched-Inv s gs (f ∷ gs) f m m' page s.frames r' false v at refl w inside refl
            (λ g. get_elem?_same f g page s.frames at')
            (FrameInv-pins m.page_id p m.pin_count (m.pin_count + 1) m.is_dirty page.bytes _ _
              s.disk_scheduler id (w.node, refl, w.flag ∙ positive m.pin_count)
              (v.frame f m page at at'))
            (λ none_of. absurd (cc (id, none_of))) (one_more m.pin_count (v.pins f m at))
            (λ g ne. other g ne),
        record { table = refl; frames = refl; disk_scheduler = refl },
      )
    where
      positive : (n : ℕ) → false ≡ (n + 1 == 0)
      positive n = ground arith

      one_more : (n : ℕ) → n ≡ held f gs → n + 1 ≡ held f (f ∷ gs)
      one_more n h = ground arith

      other : (g : ℕ) → f ≢ g → held g (f ∷ gs) ≡ held g gs
      other g ne = ground arith
