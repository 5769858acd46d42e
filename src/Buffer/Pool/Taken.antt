-- ===== src/Buffer/Pool/Taken.antt =====
-- The frames that src/buffer/bpm.rs may take for another page: free ones and the replacer's victims.
use oxtub.Base.{
  get_elem?-lt, ℕ, ◌≤◌, ◌<◌, ◌≡◌, refl, ap, sym, subst, ◌∙◌, ◌≢◌, inl, inr, Bool, true, false,
  Option, none, some, List, ◌∷◌, ◌==◌, get_elem?, arith, Has, eq_of_==,
}
use mathlib.Core.Option.{some-injective}
use oxtub.Base.Assoc.{get, get-remove_ne, get-remove_self}
use oxtub.Buffer.Pool.Defs.{BufferPool, DiskScheduler, FrameMeta, Page}
use oxtub.Buffer.Pool.Frames.{held}
use oxtub.Buffer.Pool.Invariant.{PoolInv, FrameInv, Unique}
use oxtub.Buffer.Pool.Store.{DiskLaws}
use oxtub.Buffer.Pool.Views.{frame_page}
use oxtub.Buffer.Replacer.Defs.{LruKNode, LruKReplacer}
use oxtub.Buffer.Replacer.Invariant.{Inv}
use oxtub.Buffer.Replacer.Runs.{Evicts-Inv}
use oxtub.Buffer.Replacer.Victim.{Evicts}

module _ {B D : Type 0} {scheduler : DiskScheduler B D} (laws : DiskLaws B D scheduler) where
  -- The frame that was acquired: it holds no page and is not free.
  pub record Acquired (s : BufferPool B D) (f : ℕ) : Type 0 where
    pub meta : FrameMeta
    pub at : get_elem? s.frame_metas f ≡ some meta
    pub empty : meta.page_id ≡ none
    pub taken : Has f s.free_list → ⊥

  pub pop-Inv :
      (s : BufferPool B D) (gs : List ℕ) (f : ℕ) (rest : List ℕ)
      → PoolInv laws s gs
      → s.free_list ≡ f ∷ rest
      → PoolInv laws (record s { free_list = rest }) gs × Acquired (record s { free_list = rest }) f
  pop-Inv s gs f rest v e =
      let (m, at, blank) = v.blank f (subst (Has f) (sym e) (inl refl)) in
      let unique : Unique (f ∷ rest) = subst Unique e v.unique in
      (
        record {
          replacer = v.replacer;
          metas_size = v.metas_size;
          frames_size = v.frames_size;
          distinct = v.distinct;
          good = v.good;
          entry = v.entry;
          back = v.back;
          frame = v.frame;
          pins = v.pins;
          guards = v.guards;
          blank = λ g h. v.blank g (subst (Has g) (sym e) (inr h));
          unique = unique.1;
        },
        record { meta = m; at = at; empty = blank; taken = unique.0 },
      )

  -- A frame that the replacer evicts has a page that nobody pins.
  pub record Victim (s : BufferPool B D) (gs : List ℕ) (f : ℕ) (r' : LruKReplacer) : Type 0 where
    pub meta : FrameMeta
    pub page : Page B
    pub victim_page_id : ℕ
    pub at : get_elem? s.frame_metas f ≡ some meta
    pub at_frame : get_elem? s.frames f ≡ some page
    pub id : meta.page_id ≡ some victim_page_id
    pub inside : f < s.replacer.replacer_size
    pub full : laws.Full page.bytes
    pub clean :
        meta.is_dirty ≡ false → laws.stored s.disk_scheduler victim_page_id ≡ some page.bytes
    pub unpinned : meta.pin_count ≡ 0
    pub inv : Inv r'
    pub size : r'.replacer_size ≡ s.replacer.replacer_size
    pub clock : r'.current_timestamp ≡ s.replacer.current_timestamp
    pub room : r'.curr_size ≤ s.replacer.curr_size
    pub gone : get f r'.nodes ≡ none
    pub others : (g : ℕ) → f ≢ g → get g r'.nodes ≡ get g s.replacer.nodes

  victim_frame :
      (o : Option ℕ) (pins : ℕ) (dirty : Bool) (bytes : B) (n : LruKNode) (known : Option LruKNode)
      (d : D)
      → known ≡ some n
      → n.is_evictable ≡ true
      → FrameInv laws o pins dirty bytes known d
      → (p : ℕ) × (o ≡ some p)
        × (pins ≡ 0)
        × laws.Full bytes
        × (dirty ≡ false → laws.stored d p ≡ some bytes)
  victim_frame none pins dirty bytes n known d e on w = absurd (cc (e, w.1))
  victim_frame (some p) pins dirty bytes n known d e on w =
      let (m, e', flag) = w.1 in
      let same : m ≡ n = some-injective m n (sym e' ∙ e) in
      let tested : (pins == 0) ≡ true = sym flag ∙ ap LruKNode.is_evictable same ∙ on in
      (p, refl, eq_of_== pins 0 tested, w.0, w.2)

  pub evict-Victim :
      (s : BufferPool B D) (gs : List ℕ) (f : ℕ) (r' : LruKReplacer)
      → PoolInv laws s gs
      → Evicts s.replacer (some f) r'
      → Victim s gs f r'
  evict-Victim s gs f r' v spec =
      let (n, e, on, _) = spec.0 in
      let inside = v.replacer.frame f n e in
      let (m, at) = get_elem?-lt s.frame_metas f (omega (arith, v.metas_size)) in
      let (page, at', _) = frame_page laws s gs f m v at in
      let (p, id, unpinned, full, clean) =
        victim_frame m.page_id m.pin_count m.is_dirty page.bytes n (get f s.replacer.nodes)
          s.disk_scheduler e on (v.frame f m page at at') in
      record {
        meta = m;
        page = page;
        victim_page_id = p;
        at = at;
        at_frame = at';
        id = id;
        inside = inside;
        full = full;
        clean = clean;
        unpinned = unpinned;
        inv = Evicts-Inv s.replacer (some f) r' v.replacer spec;
        size = ap LruKReplacer.replacer_size spec.1;
        clock = ap LruKReplacer.current_timestamp spec.1;
        room = omega (arith, ap LruKReplacer.curr_size spec.1);
        gone =
            ap (λ (r : LruKReplacer). get f r.nodes) spec.1
            ∙ get-remove_self f s.replacer.nodes v.replacer.distinct;
        others = λ g ne.
            ap (λ (r : LruKReplacer). get g r.nodes) spec.1
            ∙ get-remove_ne f g s.replacer.nodes v.replacer.distinct ne;
      }

  -- When the replacer has no victim, every page in memory has a guard.
  pub all_pinned :
      (s : BufferPool B D) (gs : List ℕ) (p f : ℕ)
      → PoolInv laws s gs
      → ((g : ℕ) (n : LruKNode) → get g s.replacer.nodes ≡ some n → n.is_evictable ≡ false)
      → get p s.page_table ≡ some f
      → 0 < held f gs
  all_pinned s gs p f v off loaded =
      let (m, at, id) = v.entry p f loaded in
      let (page, at', _) = frame_page laws s gs f m v at in
      let (n, e, flag) =
        (subst
          (λ o.
            FrameInv laws o m.pin_count m.is_dirty page.bytes (get f s.replacer.nodes)
              s.disk_scheduler)
          id (v.frame f m page at at')).1 in
      positive m.pin_count (held f gs) (v.pins f m at) (sym flag ∙ off f n e)
    where
      positive : (k h : ℕ) → k ≡ h → (k == 0) ≡ false → 0 < h
      positive k h e e' = ground arith
