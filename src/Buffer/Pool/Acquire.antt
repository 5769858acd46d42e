-- ===== src/Buffer/Pool/Acquire.antt =====
-- `acquire_frame_for_page_load` of src/buffer/bpm.rs on every branch.
use oxtub.Base.{
  ℕ, ◌+◌, ◌≤◌, ◌<◌, ◌≡◌, refl, ap, sym, subst, ◌∙◌, ◌≢◌, inl, inr, Bool, true, false, Option, none,
  some, List, [], ◌∷◌, ◌==◌, if◌then◌else◌, get_elem?, set, length, arith, Bool-cases, Option-cases,
  and_then, usize_mod, Exec, ok, err, panic,
}
use oxtub.Base.Assoc.{get, get-remove_cases, remove as remove_key}
use oxtub.Buffer.Pool.Defs.{
  BufferPool, BufferPoolError, no_available_frame, disk, page_pinned, DiskScheduler, Returns,
  take_frame, roll_back, flush_victim, empty_frame, evict_frame, acquire_from,
  acquire_frame_for_page_load,
}
use oxtub.Buffer.Pool.Evict.{
  taken, taken-Acquired, taken-view, restored, restored-Inv, restored-view,
}
use oxtub.Buffer.Pool.Invariant.{PoolInv}
use oxtub.Buffer.Pool.Store.{DiskLaws}
use oxtub.Buffer.Pool.Taken.{Acquired, Victim, pop-Inv, evict-Victim, all_pinned}
use oxtub.Buffer.Pool.Frames.{held}
use oxtub.Buffer.Pool.Views.{Bounds, view, view-Same}
use oxtub.Buffer.Replacer.Defs.{LruKReplacer, record_access, set_evictable, evict}
use oxtub.Buffer.Replacer.Effects.{touch-Wrote}
use oxtub.Buffer.Replacer.Victim.{Evicts, evict-Evicts}

module _ {B D : Type 0} {scheduler : DiskScheduler B D} (laws : DiskLaws B D scheduler) where
  -- Why there is no frame: none is free and every page in memory has a guard; or the disk failed.
  abbrev pub NoFrame : BufferPool B D → List ℕ → BufferPoolError → Type 0
  NoFrame s gs no_available_frame =
      (s.free_list ≡ []) × ((p f : ℕ) → get p s.page_table ≡ some f → 0 < held f gs)
  NoFrame s gs disk = Unit
  NoFrame s gs (page_pinned p) = ⊥

  -- A frame or an error, and a pool in order.
  abbrev pub Acquires : BufferPool B D → List ℕ → Exec BufferPoolError ℕ → BufferPool B D → Type 0
  Acquires s gs (ok f) t =
      PoolInv laws t gs
      × Acquired laws t f
      × (t.replacer.current_timestamp ≡ s.replacer.current_timestamp)
      × (t.replacer.curr_size ≤ s.replacer.curr_size)
  Acquires s gs (err e) t = PoolInv laws t gs × NoFrame s gs e
  Acquires s gs (oxtub.Base.panic) t = ⊥

  abbrev pub AcquireRuns : BufferPool B D → List ℕ → Returns B D ℕ → Type 0
  AcquireRuns s gs result =
      (o : Exec BufferPoolError ℕ) × (t : BufferPool B D) × (result ≡ some (o, t))
      × Acquires s gs o t
      × ((q : ℕ) → view laws t q ≡ view laws s q)
      × ((q : ℕ) → get q s.page_table ≡ none → get q t.page_table ≡ none)

  module _ (s : BufferPool B D) (gs : List ℕ) (f : ℕ) (r' : LruKReplacer) (v : PoolInv laws s gs)
      (bounds : Bounds s gs) (x : Victim laws s gs f r') where
    absent :
        (q : ℕ)
        → get q s.page_table ≡ none
        → get q (remove_key x.victim_page_id s.page_table) ≡ none
    absent q h = elim (Option-cases (get q (remove_key x.victim_page_id s.page_table))) [
      | inl e ↦ e
      | inr (g, e) ↦
          absurd (cc (h, (get-remove_cases x.victim_page_id q g s.page_table v.distinct e).1))
    ]

    flush-runs :
        (b : Bool) (d : D)
        → laws.Good d
        → ((q : ℕ) → x.victim_page_id ≢ q → laws.stored d q ≡ laws.stored s.disk_scheduler q)
        → (b ≡ true → laws.stored d x.victim_page_id ≡ some x.page.bytes)
        → x.meta.is_dirty ≡ true
        → AcquireRuns s gs
            (flush_victim scheduler f x.victim_page_id (b, d) (record s { replacer = r' }))
    flush-runs true d good kept flushed dirty =
        let (v', a) = taken-Acquired laws s gs f r' v x d good kept in
        (
          ok f,
          taken laws s gs f r' v x d good kept,
          refl,
          (v', a, x.clock, x.room),
          taken-view laws s gs f r' v x d good kept (flushed refl),
          absent,
        )
    flush-runs false d good kept flushed dirty =
        let (q, r, e, e', w) =
          touch-Wrote r' f true x.inv (omega (arith, x.clock, bounds.clock))
            (omega (arith, x.room, bounds.room)) (omega (arith, x.size, x.inside)) in
        (
          err BufferPoolError.disk,
          restored laws s gs f r' v x d good kept r w dirty,
          roll_back-steps (record s { replacer = r'; disk_scheduler = d }) f q r e e',
          (restored-Inv laws s gs f r' v x d good kept r w dirty, tt),
          restored-view laws s gs f r' v x d good kept r w dirty,
          λ p h. h,
        )
      where
        roll_back-steps :
            (u : BufferPool B D) (f : ℕ) (q r : LruKReplacer)
            → record_access u.replacer f ≡ some q
            → set_evictable q f true ≡ some r
            → roll_back scheduler f u ≡ some (err BufferPoolError.disk, record u { replacer = r })
        roll_back-steps u f q r e e' = simp (e, e')

    empty_frame-steps : empty_frame scheduler f (record s { replacer = r' }) ≡ (
        if x.meta.is_dirty
        then flush_victim scheduler f x.victim_page_id
            (scheduler.write_page x.victim_page_id x.page.bytes s.disk_scheduler)
            (record s { replacer = r' })
        else take_frame scheduler f x.victim_page_id (record s { replacer = r' }))
    empty_frame-steps = simp (x.at, x.id, x.at_frame)

    empty_frame-runs : AcquireRuns s gs (empty_frame scheduler f (record s { replacer = r' }))
    empty_frame-runs = elim (Bool-cases x.meta.is_dirty) [
      | inl dirty ↦
          let p = x.victim_page_id in
          let b = x.page.bytes in
          let d = s.disk_scheduler in
          subst (AcquireRuns s gs) (sym (empty_frame-steps ∙ rw dirty refl)) (
            flush-runs (scheduler.write_page p b d).0 (scheduler.write_page p b d).1
              (laws.write_good p b d v.good x.full)
              (λ q ne. laws.write_kept p q b d v.good x.full ne)
              (λ h. laws.write_stored p b d v.good x.full h) dirty)
      | inr clean ↦
          let (v', a) = taken-Acquired laws s gs f r' v x s.disk_scheduler v.good (λ q ne. refl) in
          subst (AcquireRuns s gs) (sym (empty_frame-steps ∙ rw clean refl)) (
            ok f,
            taken laws s gs f r' v x s.disk_scheduler v.good (λ q ne. refl),
            refl,
            (v', a, x.clock, x.room),
            taken-view laws s gs f r' v x s.disk_scheduler v.good (λ q ne. refl) (x.clean clean),
            absent,
          )
    ]

  evict_frame-runs :
      (s : BufferPool B D) (gs : List ℕ) (victim : Option ℕ) (r' : LruKReplacer)
      → PoolInv laws s gs
      → Bounds s gs
      → s.free_list ≡ []
      → Evicts s.replacer victim r'
      → AcquireRuns s gs (evict_frame scheduler (victim, r') s)
  evict_frame-runs s gs none r' v bounds none_free spec =
      subst (λ (r : LruKReplacer). AcquireRuns s gs (evict_frame scheduler (none, r) s))
        (sym spec.0)
        (
          err BufferPoolError.no_available_frame,
          s,
          refl,
          (v, (none_free, λ p f loaded. all_pinned laws s gs p f v spec.1 loaded)),
          λ q. refl,
          λ q h. h,
        )
  evict_frame-runs s gs (some f) r' v bounds none_free spec =
      empty_frame-runs s gs f r' v bounds (evict-Victim laws s gs f r' v spec)

  acquire_from-runs :
      (s : BufferPool B D) (gs : List ℕ) (fs : List ℕ)
      → PoolInv laws s gs
      → Bounds s gs
      → s.free_list ≡ fs
      → AcquireRuns s gs (acquire_from scheduler fs s)
  acquire_from-runs s gs (f ∷ rest) v bounds e =
      let (v', a) = pop-Inv laws s gs f rest v e in
      (
        ok f,
        record s { free_list = rest },
        refl,
        (v', a, refl, omega arith),
        λ q. same_pages rest q,
        λ q h. h,
      )
    where
      same_pages :
          (rest : List ℕ) (q : ℕ) → view laws (record s { free_list = rest }) q ≡ view laws s q
      same_pages rest q =
          view-Same laws s (record s { free_list = rest }) q
            (record { table = refl; frames = refl; disk_scheduler = refl })
  acquire_from-runs s gs [] v bounds e =
      let (victim, r', runs, spec) = evict-Evicts s.replacer v.replacer in
      subst (AcquireRuns s gs) (sym (evicts s victim r' runs))
        (evict_frame-runs s gs victim r' v bounds e spec)
    where
      evicts :
          (s : BufferPool B D) (victim : Option ℕ) (r' : LruKReplacer)
          → evict s.replacer ≡ some (victim, r')
          → acquire_from scheduler [] s ≡ evict_frame scheduler (victim, r') s
      evicts s victim r' h = rw h refl

  -- The pool never panics for want of a frame: it hands out a free frame, or the frame of a page that
  -- nobody pins, written to disk first if it is dirty, or an error; the page contents stay.
  pub acquire_frame_for_page_load-runs :
      (s : BufferPool B D) (gs : List ℕ)
      → PoolInv laws s gs
      → Bounds s gs
      → AcquireRuns s gs (acquire_frame_for_page_load scheduler s)
  unfolding acquire_frame_for_page_load
  acquire_frame_for_page_load-runs s gs v bounds = acquire_from-runs s gs s.free_list v bounds refl
