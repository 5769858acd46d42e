-- ===== src/Buffer/Pool/Drops.antt =====
-- `Drop` of the guards in src/storage/page/page_guard.rs.
use oxtub.Base.{
  get_elem?-set, get_elem?-lt, ℕ, zero, suc, ◌+◌, ◌-◌, ◌<◌, ◌≡◌, refl, ap, sym, subst, ◌∙◌, ◌≢◌,
  inl, inr, Bool, true, false, Option, none, some, List, ◌==◌, if◌then◌else◌, get_elem?, set,
  length, length-set, arith, Bool-cases, eq_of_==, ne_of_==, ==_refl, ==_ne, sub_usize,
  sub_usize-some, usize_mod,
}
use mathlib.Core.Option.{some-injective}
use oxtub.Base.Assoc.{get}
use oxtub.Buffer.Pool.Defs.{
  BufferPool, DiskScheduler, FrameMeta, Page, unpin, drop_read, drop_write,
}
use oxtub.Buffer.Pool.Frames.{held, release, held-release, get_elem?_same}
use oxtub.Buffer.Pool.Invariant.{PoolInv, FrameInv}
use oxtub.Buffer.Pool.Pins.{touched-Inv}
use oxtub.Buffer.Pool.Store.{DiskLaws}
use oxtub.Buffer.Pool.Views.{Bounds, Same, view, bytes_at, view-Same, frame_page, table_injective}
use oxtub.Buffer.Replacer.Defs.{LruKNode, LruKReplacer, set_evictable}
use oxtub.Buffer.Replacer.Effects.{Wrote, set_evictable-Wrote, same-Wrote}
use oxtub.Buffer.Replacer.Invariant.{Inv}

unpin_replacer :
    (r : LruKReplacer) (f pins : ℕ) (n : LruKNode)
    → Inv r
    → r.curr_size + 1 < usize_mod
    → get f r.nodes ≡ some n
    → n.is_evictable ≡ false
    → (r' : LruKReplacer) × ((if pins == 0 then set_evictable r f true else some r) ≡ some r')
      × Wrote r f (pins == 0) r'
unpin_replacer r f zero n v room e off = set_evictable-Wrote r f n true v room e
unpin_replacer r f (suc pins) n v room e off = (
  r,
  rw (positive pins) refl,
  subst (λ b. Wrote r f b r) (off ∙ sym (positive pins)) (same-Wrote r f n v e),
)
  where
    positive : (n : ℕ) → (suc n == 0) ≡ false
    positive n = ground arith

module _ {B D : Type 0} {scheduler : DiskScheduler B D} (laws : DiskLaws B D scheduler) where
  unpin-steps :
      (s : BufferPool B D) (f pins : ℕ) (m : FrameMeta) (r' : LruKReplacer)
      → sub_usize m.pin_count 1 ≡ some pins
      → (if pins == 0 then set_evictable s.replacer f true else some s.replacer) ≡ some r'
      → unpin f m s
        ≡ some (record s {
          frame_metas = set s.frame_metas f (record m { pin_count = pins });
          replacer = r';
        })
  unpin-steps s f pins m r' e e' = simp (e, e')

  -- What the invariant says of the frame of a guard.
  pub guarded :
      (s : BufferPool B D) (gs : List ℕ) (f : ℕ)
      → PoolInv laws s gs
      → 0 < held f gs
      → (m : FrameMeta) × (page : Page B) × (p : ℕ) × (n : LruKNode) × (get_elem? s.frame_metas f
          ≡ some m)
        × (get_elem? s.frames f ≡ some page)
        × (m.page_id ≡ some p)
        × (get f s.replacer.nodes ≡ some n)
        × (n.is_evictable ≡ false)
        × laws.Full page.bytes
        × (m.is_dirty ≡ false → laws.stored s.disk_scheduler p ≡ some page.bytes)
  guarded s gs f v pinned =
      let (m, at) = get_elem?-lt s.frame_metas f (omega (arith, v.metas_size, v.guards f pinned)) in
      let (page, at', _) = frame_page laws s gs f m v at in
      let count : 0 < m.pin_count = omega (arith, v.pins f m at) in
      let (p, n, e, e', off, full, clean) =
        loaded m.page_id m.pin_count m.is_dirty page.bytes (get f s.replacer.nodes) count
          (v.frame f m page at at') in
      (m, page, p, n, at, at', e, e', off, full, clean)
    where
      loaded :
          (o : Option ℕ) (pins : ℕ) (dirty : Bool) (bytes : B) (known : Option LruKNode)
          → 0 < pins
          → FrameInv laws o pins dirty bytes known s.disk_scheduler
          → (p : ℕ) × (n : LruKNode) × (o ≡ some p)
            × (known ≡ some n)
            × (n.is_evictable ≡ false)
            × laws.Full bytes
            × (dirty ≡ false → laws.stored s.disk_scheduler p ≡ some bytes)
      loaded none pins dirty bytes known h w = absurd (omega (arith, w.0))
      loaded (some p) pins dirty bytes known h w =
          let (n, e, off) = w.1 in (p, n, refl, e, off ∙ positive pins h, w.0, w.2)
        where
          positive : (k : ℕ) → 0 < k → (k == 0) ≡ false
          positive k h = ground arith

  -- One guard of the frame goes; its page may have new bytes.
  unpin-Inv :
      (s : BufferPool B D) (gs : List ℕ) (f p : ℕ) (m : FrameMeta) (n : LruKNode) (dirty : Bool)
      (page : Page B) (pages : List (Page B))
      → PoolInv laws s gs
      → 0 < held f gs
      → s.replacer.curr_size + 1 < usize_mod
      → get_elem? s.frame_metas f ≡ some m
      → m.page_id ≡ some p
      → get f s.replacer.nodes ≡ some n
      → n.is_evictable ≡ false
      → laws.Full page.bytes
      → (dirty ≡ false → laws.stored s.disk_scheduler p ≡ some page.bytes)
      → length pages ≡ length s.frames
      → ((g : ℕ) → get_elem? pages g ≡ (if f == g then some page else get_elem? s.frames g))
      → (t : BufferPool B D) × (unpin f
            (record m { is_dirty = dirty })
            (record s { frames = pages })
          ≡ some t)
        × PoolInv laws t (release f gs)
        × Same (record s { frames = pages }) t
  unpin-Inv s gs f p m n dirty page pages v pinned room at id e off full clean size pages_at =
      let (r', runs, w) = unpin_replacer s.replacer f (m.pin_count - 1) n v.replacer room e off in
      let m' : FrameMeta = record m { is_dirty = dirty; pin_count = m.pin_count - 1 } in
      let count : m.pin_count ≡ held f gs = v.pins f m at in
      (
        record s { frames = pages; frame_metas = set s.frame_metas f m'; replacer = r' },
        unpin-steps (record s { frames = pages }) f (m.pin_count - 1)
            (record m { is_dirty = dirty }) r' (sub_usize-some m.pin_count 1 (omega (arith, count)))
            runs,
        touched-Inv laws s gs (release f gs) f m m' page pages r' (m.pin_count - 1 == 0) v at refl w
            (v.guards f pinned) size pages_at
            (subst
              (λ o.
                FrameInv laws o (m.pin_count - 1) dirty page.bytes (some w.node) s.disk_scheduler)
              (sym id) (full, (w.node, refl, w.flag), clean))
            (λ none_of. absurd (cc (id, none_of))) (own m.pin_count count) other,
        record { table = refl; frames = refl; disk_scheduler = refl },
      )
    where
      own : (k : ℕ) → k ≡ held f gs → k - 1 ≡ held f (release f gs)
      own k h = ground (arith, held-release f f gs pinned)

      other : (g : ℕ) → f ≢ g → held g (release f gs) ≡ held g gs
      other g ne = ground (arith, held-release f g gs pinned)

  drop_read-steps :
      (s : BufferPool B D) (f : ℕ) (m : FrameMeta)
      → get_elem? s.frame_metas f ≡ some m
      → drop_read f s ≡ unpin f m s
  unfolding drop_read
  drop_read-steps s f m at = simp at

  drop_write-steps :
      (s : BufferPool B D) (f : ℕ) (bytes : B) (m : FrameMeta) (page : Page B)
      → get_elem? s.frame_metas f ≡ some m
      → get_elem? s.frames f ≡ some page
      → drop_write f bytes s
        ≡ unpin f
            (record m { is_dirty = true })
            (record s { frames = set s.frames f (record page { bytes = bytes }) })
  unfolding drop_write
  drop_write-steps s f bytes m page at at' = simp (at, at')

  -- While the invariant holds and no counter is about to overflow, dropping a guard of a read, of a frame
  -- that has one, does not panic: it gives the pin back, keeps the invariant for the guards that are left
  -- and the bytes of every page.
  pub drop_read-refines :
      (s : BufferPool B D) (gs : List ℕ) (f : ℕ)
      → PoolInv laws s gs
      → Bounds s gs
      → 0 < held f gs
      → (t : BufferPool B D) × (drop_read f s ≡ some t)
        × PoolInv laws t (release f gs)
        × ((q : ℕ) → view laws t q ≡ view laws s q)
  drop_read-refines s gs f v bounds pinned =
      let (m, page, p, n, at, at', id, e, off, full, clean) = guarded s gs f v pinned in
      let (t, runs, v', same) =
        unpin-Inv s gs f p m n m.is_dirty page s.frames v pinned bounds.room at id e off full clean
          refl (λ g. get_elem?_same f g page s.frames at') in
      (t, drop_read-steps s f m at ∙ runs, v', λ q. view-Same laws s t q same)

  bytes_at-set :
      (frames : List (Page B)) (p q f : ℕ) (page : Page B) (o : Option ℕ) (stored : Option B)
      → f < length frames
      → (p ≡ q → o ≡ some f)
      → (o ≡ some f → p ≡ q)
      → bytes_at (set frames f page) o stored
        ≡ (if p == q then some page.bytes else bytes_at frames o stored)
  bytes_at-set frames p q f page none stored h to back = elim (Bool-cases (p == q)) [
    | inl e ↦ absurd (cc (to (eq_of_== p q e)))
    | inr e ↦ rw e refl
  ]
  bytes_at-set frames p q f page (some g) stored h to back = elim (Bool-cases (f == g)) [
    | inl e ↦
        let same : p ≡ q = back (ap some (sym (eq_of_== f g e))) in
        rw (get_elem?-set frames f g page h, e, ap (λ x. x == q) same, ==_refl q) refl
    | inr e ↦
        let differ : (p == q) ≡ false =
          ==_ne p q (λ h'. ne_of_== f g e (sym (some-injective g f (to h')))) in
        rw (get_elem?-set frames f g page h, e, differ) refl
  ]

  view-wrote :
      (s t : BufferPool B D) (gs : List ℕ) (p f q : ℕ) (page : Page B)
      → PoolInv laws s gs
      → get p s.page_table ≡ some f
      → f < length s.frames
      → Same (record s { frames = set s.frames f page }) t
      → view laws t q ≡ (if p == q then some page.bytes else view laws s q)
  unfolding view
  view-wrote s t gs p f q page v e inside same =
      rw (same.table, same.frames, same.disk_scheduler)
        (bytes_at-set s.frames p q f page (get q s.page_table) (laws.stored s.disk_scheduler q)
          inside (λ h. ap (λ x. get x s.page_table) (sym h) ∙ e)
          (table_injective laws s gs p q f v e))

  -- While the invariant holds and no counter is about to overflow, dropping a guard of a write, of a frame
  -- that has one, after full bytes were written to the page in it, does not panic. It keeps the invariant
  -- for the guards that are left, and gives the page those bytes; every other page keeps its own.
  pub drop_write-refines :
      (s : BufferPool B D) (gs : List ℕ) (f p : ℕ) (bytes : B)
      → PoolInv laws s gs
      → Bounds s gs
      → 0 < held f gs
      → get p s.page_table ≡ some f
      → laws.Full bytes
      → (t : BufferPool B D) × (drop_write f bytes s ≡ some t)
        × PoolInv laws t (release f gs)
        × ((q : ℕ) → view laws t q ≡ (if p == q then some bytes else view laws s q))
  drop_write-refines s gs f p bytes v bounds pinned loaded full =
      let (m, page, p₂, n, at, at', id, e, off, _, _) = guarded s gs f v pinned in
      let page' : Page B = record page { bytes = bytes } in
      let room : f < length s.frames = omega (arith, v.guards f pinned, v.frames_size) in
      let (t, runs, v', same) =
        unpin-Inv s gs f p₂ m n true page' (set s.frames f page') v pinned bounds.room at id e off
          full (λ clean. absurd (cc clean)) (length-set s.frames f page')
          (λ g. get_elem?-set s.frames f g page' room) in
      (
        t,
        drop_write-steps s f bytes m page at at' ∙ runs,
        v',
        λ q. view-wrote s t gs p f q page' v loaded room same,
      )
