-- ===== src/Buffer/Pool/Invariant.antt =====
-- What every call of src/buffer/bpm.rs keeps, and what the pool's clients see of it.
use oxtub.Base.{
  ℕ, ◌<◌, ◌≡◌, refl, ap, sym, subst, ◌∙◌, ◌≢◌, ◌⊎◌, inl, inr, Bool, false, Option, none, some, List,
  [], ◌∷◌, ◌==◌, if◌then◌else◌, get_elem?, length, arith, Has, Bool-cases, eq_of_==, ne_of_==,
}
use mathlib.Core.Option.{some-injective}
use oxtub.Base.Assoc.{get, Distinct}
use oxtub.Buffer.Pool.Defs.{BufferPool, DiskScheduler, FrameMeta, Page}
use oxtub.Buffer.Pool.Frames.{held}
use oxtub.Buffer.Pool.Store.{DiskLaws}
use oxtub.Buffer.Replacer.Defs.{LruKNode}
use oxtub.Buffer.Replacer.Invariant.{Inv}

-- No frame is free twice.
abbrev pub Unique : List ℕ → Type 0
Unique [] = Unit
Unique (f ∷ fs) = (Has f fs → ⊥) × Unique fs

module _ {B D : Type 0} {scheduler : DiskScheduler B D} (laws : DiskLaws B D scheduler) where
  -- One frame. A frame without a page is unpinned and unknown to the replacer. The replacer may evict
  -- the frame of a page when nobody pins it, and a page that is not dirty is on disk.
  abbrev pub FrameInv : Option ℕ → ℕ → Bool → B → Option LruKNode → D → Type 0
  FrameInv none pins dirty bytes known d = (pins ≡ 0) × (known ≡ none)
  FrameInv (some p) pins dirty bytes known d =
      laws.Full bytes
      × ((n : LruKNode) × (known ≡ some n) × (n.is_evictable ≡ (pins == 0)))
      × (dirty ≡ false → laws.stored d p ≡ some bytes)

  -- The pool, while the guards `gs` are held, one frame for each.
  pub record PoolInv (s : BufferPool B D) (gs : List ℕ) : Type 0 where
    pub replacer : Inv s.replacer
    pub metas_size : length s.frame_metas ≡ s.replacer.replacer_size
    pub frames_size : length s.frames ≡ s.replacer.replacer_size
    pub distinct : Distinct s.page_table
    pub good : laws.Good s.disk_scheduler
    pub entry :
        (p f : ℕ)
        → get p s.page_table ≡ some f
        → (m : FrameMeta) × (get_elem? s.frame_metas f ≡ some m) × (m.page_id ≡ some p)
    pub back :
        (p f : ℕ) (m : FrameMeta)
        → get_elem? s.frame_metas f ≡ some m
        → m.page_id ≡ some p
        → get p s.page_table ≡ some f
    pub frame :
        (f : ℕ) (m : FrameMeta) (page : Page B)
        → get_elem? s.frame_metas f ≡ some m
        → get_elem? s.frames f ≡ some page
        → FrameInv m.page_id m.pin_count m.is_dirty page.bytes
            (get f s.replacer.nodes)
            s.disk_scheduler
    pub pins :
        (f : ℕ) (m : FrameMeta) → get_elem? s.frame_metas f ≡ some m → m.pin_count ≡ held f gs
    pub guards : (f : ℕ) → 0 < held f gs → f < s.replacer.replacer_size
    pub blank :
        (f : ℕ)
        → Has f s.free_list
        → (m : FrameMeta) × (get_elem? s.frame_metas f ≡ some m) × (m.page_id ≡ none)
    pub unique : Unique s.free_list

  -- A call that writes one frame, `f`.
  pub record Change (s t : BufferPool B D) (gs hs : List ℕ) (f : ℕ) (m : FrameMeta) (page : Page B)
      : Type 0 where
    pub inside : f < s.replacer.replacer_size
    pub replacer : Inv t.replacer
    pub size : t.replacer.replacer_size ≡ s.replacer.replacer_size
    pub metas_size : length t.frame_metas ≡ length s.frame_metas
    pub frames_size : length t.frames ≡ length s.frames
    pub metas :
        (g : ℕ) → get_elem? t.frame_metas g ≡ (if f == g then some m else get_elem? s.frame_metas g)
    pub frames :
        (g : ℕ) → get_elem? t.frames g ≡ (if f == g then some page else get_elem? s.frames g)
    pub nodes : (g : ℕ) → f ≢ g → get g t.replacer.nodes ≡ get g s.replacer.nodes
    pub distinct : Distinct t.page_table
    pub good : laws.Good t.disk_scheduler
    pub own :
        FrameInv m.page_id m.pin_count m.is_dirty page.bytes
          (get f t.replacer.nodes)
          t.disk_scheduler
    -- the page table, at other frames and at `f`
    pub came : (p g : ℕ) → f ≢ g → get p t.page_table ≡ some g → get p s.page_table ≡ some g
    pub stays : (p g : ℕ) → f ≢ g → get p s.page_table ≡ some g → get p t.page_table ≡ some g
    pub mine : (p : ℕ) → get p t.page_table ≡ some f → m.page_id ≡ some p
    pub mine_back : (p : ℕ) → m.page_id ≡ some p → get p t.page_table ≡ some f
    pub kept :
        (p g : ℕ) (b : B)
        → f ≢ g
        → get p s.page_table ≡ some g
        → laws.stored s.disk_scheduler p ≡ some b
        → laws.stored t.disk_scheduler p ≡ some b
    pub own_pins : m.pin_count ≡ held f hs
    pub other_pins : (g : ℕ) → f ≢ g → held g hs ≡ held g gs
    pub free :
        (g : ℕ) → Has g t.free_list → ((f ≢ g) × Has g s.free_list) ⊎ ((f ≡ g) × (m.page_id ≡ none))
    pub unique : Unique t.free_list

  pub FrameInv-kept :
      (o : Option ℕ) (pins : ℕ) (dirty : Bool) (bytes : B) (known : Option LruKNode) (d e : D)
      → ((p : ℕ) → o ≡ some p → laws.stored d p ≡ some bytes → laws.stored e p ≡ some bytes)
      → FrameInv o pins dirty bytes known d
      → FrameInv o pins dirty bytes known e
  FrameInv-kept none pins dirty bytes known d e k v = v
  FrameInv-kept (some p) pins dirty bytes known d e k v = (v.0, v.1, λ clean. k p refl (v.2 clean))

  module _ (s t : BufferPool B D) (gs hs : List ℕ) (f : ℕ) (m : FrameMeta) (page : Page B)
      (v : PoolInv s gs) (c : Change s t gs hs f m page) where
    at_own :
        {A : Type 0} (g : ℕ) (x : A) (o n : Option A)
        → f ≡ g
        → n ≡ (if f == g then some x else o)
        → n ≡ some x
    at_own g x o n e h = ground arith

    at_other :
        {A : Type 0} (g : ℕ) (x : A) (o n : Option A)
        → f ≢ g
        → n ≡ (if f == g then some x else o)
        → n ≡ o
    at_other g x o n e h = ground arith

    split : (g : ℕ) → (f ≡ g) ⊎ (f ≢ g)
    split g = elim (Bool-cases (f == g)) [
      | inl e ↦ inl (eq_of_== f g e)
      | inr e ↦ inr (ne_of_== f g e)
    ]

    own_meta : (g : ℕ) → f ≡ g → get_elem? t.frame_metas g ≡ some m
    own_meta g e = at_own g m (get_elem? s.frame_metas g) _ e (c.metas g)

    other_meta : (g : ℕ) → f ≢ g → get_elem? t.frame_metas g ≡ get_elem? s.frame_metas g
    other_meta g e = at_other g m (get_elem? s.frame_metas g) _ e (c.metas g)

    Change-entry :
        (p g : ℕ)
        → get p t.page_table ≡ some g
        → (n : FrameMeta) × (get_elem? t.frame_metas g ≡ some n) × (n.page_id ≡ some p)
    Change-entry p g h = elim (split g) [
      | inl e ↦ (m, own_meta g e, c.mine p (h ∙ ap some (sym e)))
      | inr e ↦ let (n, at, id) = v.entry p g (c.came p g e h) in (n, other_meta g e ∙ at, id)
    ]

    Change-back :
        (p g : ℕ) (n : FrameMeta)
        → get_elem? t.frame_metas g ≡ some n
        → n.page_id ≡ some p
        → get p t.page_table ≡ some g
    Change-back p g n at id = elim (split g) [
      | inl e ↦
          let same : m ≡ n = some-injective m n (sym (own_meta g e) ∙ at) in
          c.mine_back p (ap FrameMeta.page_id same ∙ id) ∙ ap some e
      | inr e ↦ c.stays p g e (v.back p g n (sym (other_meta g e) ∙ at) id)
    ]

    Change-frame :
        (g : ℕ) (n : FrameMeta) (q : Page B)
        → get_elem? t.frame_metas g ≡ some n
        → get_elem? t.frames g ≡ some q
        → FrameInv n.page_id n.pin_count n.is_dirty q.bytes
            (get g t.replacer.nodes)
            t.disk_scheduler
    Change-frame g n q at loaded = elim (split g) [
      | inl e ↦
          let same : m ≡ n = some-injective m n (sym (own_meta g e) ∙ at) in
          let page_same : page ≡ q =
            some-injective page q
              (sym (at_own g page (get_elem? s.frames g) _ e (c.frames g)) ∙ loaded) in
          subst
            (λ j.
              FrameInv n.page_id n.pin_count n.is_dirty q.bytes (get j t.replacer.nodes)
                t.disk_scheduler)
            e
            (subst
              (λ (x : Page B).
                FrameInv n.page_id n.pin_count n.is_dirty x.bytes (get f t.replacer.nodes)
                  t.disk_scheduler)
              page_same
              (subst
                (λ (x : FrameMeta).
                  FrameInv x.page_id x.pin_count x.is_dirty page.bytes (get f t.replacer.nodes)
                    t.disk_scheduler)
                same c.own))
      | inr e ↦
          let old = sym (other_meta g e) ∙ at in
          let w =
            v.frame g n q old
              (sym (at_other g page (get_elem? s.frames g) _ e (c.frames g)) ∙ loaded) in
          subst (λ o. FrameInv n.page_id n.pin_count n.is_dirty q.bytes o t.disk_scheduler)
            (sym (c.nodes g e))
            (FrameInv-kept n.page_id n.pin_count n.is_dirty q.bytes (get g s.replacer.nodes)
              s.disk_scheduler t.disk_scheduler (λ p id. c.kept p g q.bytes e (v.back p g n old id))
              w)
    ]

    Change-pins :
        (g : ℕ) (n : FrameMeta) → get_elem? t.frame_metas g ≡ some n → n.pin_count ≡ held g hs
    Change-pins g n at = elim (split g) [
      | inl e ↦
          let same : m ≡ n = some-injective m n (sym (own_meta g e) ∙ at) in
          sym (ap FrameMeta.pin_count same) ∙ c.own_pins ∙ ap (λ j. held j hs) e
      | inr e ↦ v.pins g n (sym (other_meta g e) ∙ at) ∙ sym (c.other_pins g e)
    ]

    Change-guards : (g : ℕ) → 0 < held g hs → g < t.replacer.replacer_size
    Change-guards g h = elim (split g) [
      | inl e ↦ subst (λ j. j < t.replacer.replacer_size) e (omega (arith, c.inside, c.size))
      | inr e ↦ omega (arith, v.guards g (subst (λ k. 0 < k) (c.other_pins g e) h), c.size)
    ]

    Change-blank :
        (g : ℕ)
        → Has g t.free_list
        → (n : FrameMeta) × (get_elem? t.frame_metas g ≡ some n) × (n.page_id ≡ none)
    Change-blank g h = elim (c.free g h) [
      | inl (e, old) ↦ let (n, at, id) = v.blank g old in (n, other_meta g e ∙ at, id)
      | inr (e, id) ↦ (m, own_meta g e, id)
    ]

    pub Change-Inv : PoolInv t hs
    Change-Inv = record {
      replacer = c.replacer;
      metas_size = c.metas_size ∙ v.metas_size ∙ sym c.size;
      frames_size = c.frames_size ∙ v.frames_size ∙ sym c.size;
      distinct = c.distinct;
      good = c.good;
      entry = Change-entry;
      back = Change-back;
      frame = Change-frame;
      pins = Change-pins;
      guards = Change-guards;
      blank = Change-blank;
      unique = c.unique;
    }

  -- Only the disk changes, and not under the pages in memory.
  pub disk-Inv :
      (s : BufferPool B D) (gs : List ℕ) (d : D)
      → PoolInv s gs
      → laws.Good d
      → ((p f : ℕ) → get p s.page_table ≡ some f → laws.stored d p ≡ laws.stored s.disk_scheduler p)
      → PoolInv (record s { disk_scheduler = d }) gs
  disk-Inv s gs d v good kept = record {
    replacer = v.replacer;
    metas_size = v.metas_size;
    frames_size = v.frames_size;
    distinct = v.distinct;
    good = good;
    entry = v.entry;
    back = v.back;
    frame = λ f m page at at'.
        FrameInv-kept m.page_id m.pin_count m.is_dirty page.bytes (get f s.replacer.nodes)
          s.disk_scheduler d (λ p id h. kept p f (v.back p f m at id) ∙ h)
          (v.frame f m page at at');
    pins = v.pins;
    guards = v.guards;
    blank = v.blank;
    unique = v.unique;
  }
