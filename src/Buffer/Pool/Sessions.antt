-- ===== src/Buffer/Pool/Sessions.antt =====
-- Every state that the calls of src/buffer/bpm.rs and the guards reach. A `delete_page` is two steps,
-- the work under the mutex and the request that follows it, with other calls in between. The page can
-- be loaded again before the request is sent, and is then in memory and deleted from the disk: the
-- states behind such a request are left out.
use oxtub.Base.{
  ◌++◌, ℕ, ◌<◌, ◌≡◌, ap, sym, subst, ◌∙◌, Option, none, some, List, [], ◌∷◌, and_then-eq-some, Exec,
  ok, err, panic,
}
use mathlib.Core.Option.{some-injective}
use oxtub.Base.Assoc.{get}
use oxtub.Buffer.Pool.Defs.{
  BufferPool, BufferPoolError, DiskScheduler, new, add_u32, new_page, write_page, read_page,
  unload_page, send_delete, drop_read, drop_write,
}
use oxtub.Buffer.Pool.Delete.{Unloaded, unload_page-runs, send_delete-Deleted}
use oxtub.Buffer.Pool.Drops.{drop_read-refines, drop_write-refines}
use oxtub.Buffer.Pool.Fetch.{Fetched}
use oxtub.Buffer.Pool.Frames.{held, release}
use oxtub.Buffer.Pool.Invariant.{PoolInv}
use oxtub.Buffer.Pool.Pages.{write_page-refines, read_page-refines}
use oxtub.Buffer.Pool.Store.{DiskLaws}
use oxtub.Buffer.Pool.Views.{Bounds}
use oxtub.Buffer.Pool.Start.{new-refines}

-- The guards after a fetch.
abbrev pub guard : Exec BufferPoolError ℕ → List ℕ → List ℕ
guard (ok f) gs = f ∷ gs
guard (err e) gs = gs
guard (oxtub.Base.panic) gs = gs

module _ {B D : Type 0} {scheduler : DiskScheduler B D} (laws : DiskLaws B D scheduler) where
  new_page-Inv :
      (s : BufferPool B D) (gs : List ℕ) (next : ℕ)
      → PoolInv laws s gs
      → PoolInv laws (record s { next_page_id = next }) gs
  new_page-Inv s gs next v = record {
    replacer = v.replacer;
    metas_size = v.metas_size;
    frames_size = v.frames_size;
    distinct = v.distinct;
    good = v.good;
    entry = v.entry;
    back = v.back;
    frame = v.frame;
    pins = v.pins;
    guards = v.guards;
    blank = v.blank;
    unique = v.unique;
  }

  new_page-eq-some :
      (s t : BufferPool B D) (p : ℕ)
      → new_page s ≡ some (p, t)
      → (next : ℕ) × (record s { next_page_id = next } ≡ t)
  unfolding new_page
  new_page-eq-some s t p e =
      let (next, _, done) = and_then-eq-some (add_u32 s.next_page_id 1) _ e in
      (next, ap (λ (x : ℕ × BufferPool B D). x.1) (some-injective _ (p, t) done))

  -- The deletions whose request is still to be sent, after the first half of `delete_page`.
  abbrev pub waits : Exec BufferPoolError (Unit {0}) → ℕ → List ℕ → List ℕ
  waits (ok _) p ps = p ∷ ps
  waits (err e) p ps = ps
  waits (oxtub.Base.panic) p ps = ps

  -- The states that a pool reaches from `new`, with the guards that are held and the deletions that
  -- wait. A request is sent in any order, while its page is in no frame.
  pub data Reaches : BufferPool B D → List ℕ → List ℕ → Type 0 where
    starts :
        (n : ℕ) (zeroes : B) (d : D) (s : BufferPool B D)
        → laws.Good d
        → new n zeroes d ≡ some s
        → Reaches s [] []
    takes_id :
        (s t : BufferPool B D) (gs ps : List ℕ) (p : ℕ)
        → Reaches s gs ps
        → new_page s ≡ some (p, t)
        → Reaches t gs ps
    writes :
        (s t : BufferPool B D) (gs ps : List ℕ) (p : ℕ) (o : Exec BufferPoolError ℕ)
        → Reaches s gs ps
        → Bounds s gs
        → write_page scheduler p s ≡ some (o, t)
        → Reaches t (guard o gs) ps
    reads :
        (s t : BufferPool B D) (gs ps : List ℕ) (p : ℕ) (o : Exec BufferPoolError ℕ)
        → Reaches s gs ps
        → Bounds s gs
        → read_page scheduler p s ≡ some (o, t)
        → Reaches t (guard o gs) ps
    drops_read :
        (s t : BufferPool B D) (gs ps : List ℕ) (f : ℕ)
        → Reaches s gs ps
        → Bounds s gs
        → 0 < held f gs
        → drop_read f s ≡ some t
        → Reaches t (release f gs) ps
    drops_write :
        (s t : BufferPool B D) (gs ps : List ℕ) (p f : ℕ) (bytes : B)
        → Reaches s gs ps
        → Bounds s gs
        → 0 < held f gs
        → get p s.page_table ≡ some f
        → laws.Full bytes
        → drop_write f bytes s ≡ some t
        → Reaches t (release f gs) ps
    unloads :
        (s t : BufferPool B D) (gs ps : List ℕ) (p : ℕ) (o : Exec BufferPoolError (Unit {0}))
        → Reaches s gs ps
        → unload_page p s ≡ some (o, t)
        → Reaches t gs (waits o p ps)
    sends :
        (s : BufferPool B D) (gs ps qs : List ℕ) (p : ℕ)
        → Reaches s gs (ps ++ p ∷ qs)
        → get p s.page_table ≡ none
        → Reaches (send_delete scheduler p s) gs (ps ++ qs)

  same_state :
      {A : Type 0} (P : A → BufferPool B D → Type 0) (a b : A) (s t : BufferPool B D)
      (r : Option (A × BufferPool B D))
      → r ≡ some (a, s)
      → r ≡ some (b, t)
      → P a s
      → P b t
  same_state P a b s t r e e' h =
      subst (λ (x : _ × BufferPool B D). P x.0 x.1) (some-injective (a, s) (b, t) (sym e ∙ e')) h

  Fetched-Inv :
      (s t : BufferPool B D) (gs : List ℕ) (p : ℕ) (o : Exec BufferPoolError ℕ)
      → Fetched laws s gs p o t
      → PoolInv laws t (guard o gs)
  Fetched-Inv s t gs p (ok f) h = h.0
  Fetched-Inv s t gs p (err e) h = h.0
  Fetched-Inv s t gs p (oxtub.Base.panic) h = elim h [ ]

  Unloaded-Inv :
      (s t : BufferPool B D) (gs : List ℕ) (p : ℕ) (o : Exec BufferPoolError (Unit {0}))
      → PoolInv laws s gs
      → Unloaded laws s gs p o t
      → PoolInv laws t gs
  Unloaded-Inv s t gs p (ok x) v h = h.0
  Unloaded-Inv s t gs p (err e) v h = subst (λ x. PoolInv laws x gs) (sym h.1) v
  Unloaded-Inv s t gs p (oxtub.Base.panic) v h = elim h [ ]

  -- On a disk that keeps the laws of a page store, the pool is in order in every state that the calls
  -- reach from `new`, one after the other under the mutex, while no counter of usize is about to
  -- overflow. A `delete_page` sends its request at any time after its work under the mutex, with other
  -- calls in between, but not after its page was loaded again. In order means: the page table and the
  -- frames agree, a frame's pin count is the number of its guards, the replacer may evict exactly the
  -- pages without a guard, a free frame is empty and free once, and a page in memory that is not dirty
  -- is on disk.
  pub Reaches-PoolInv : (s : BufferPool B D) (gs ps : List ℕ) → Reaches s gs ps → PoolInv laws s gs
  Reaches-PoolInv _ _ _ (starts n zeroes d s good e) =
      let (s', runs, v, _, _, _, _, _) = new-refines laws n zeroes d good in
      subst (λ x. PoolInv laws x []) (some-injective s' s (sym runs ∙ e)) v
  Reaches-PoolInv _ _ _ (takes_id s t gs ps p r e) =
      let (next, e') = new_page-eq-some s t p e in
      subst (λ x. PoolInv laws x gs) e' (new_page-Inv s gs next (Reaches-PoolInv s gs ps r))
  Reaches-PoolInv _ _ _ (writes s t gs ps p o r bounds e) =
      let (o', t', runs, h, _, _) =
        write_page-refines laws s gs p (Reaches-PoolInv s gs ps r) bounds in
      same_state (λ o t. PoolInv laws t (guard o gs)) o' o t' t _ runs e
        (Fetched-Inv s t' gs p o' h)
  Reaches-PoolInv _ _ _ (reads s t gs ps p o r bounds e) =
      let (o', t', runs, h, _, _) =
        read_page-refines laws s gs p (Reaches-PoolInv s gs ps r) bounds in
      same_state (λ o t. PoolInv laws t (guard o gs)) o' o t' t _ runs e
        (Fetched-Inv s t' gs p o' h)
  Reaches-PoolInv _ _ _ (drops_read s t gs ps f r bounds pinned e) =
      let (t', runs, v, _) =
        drop_read-refines laws s gs f (Reaches-PoolInv s gs ps r) bounds pinned in
      subst (λ x. PoolInv laws x (release f gs)) (some-injective t' t (sym runs ∙ e)) v
  Reaches-PoolInv _ _ _ (drops_write s t gs ps p f bytes r bounds pinned loaded full e) =
      let (t', runs, v, _) =
        drop_write-refines laws s gs f p bytes (Reaches-PoolInv s gs ps r) bounds pinned loaded
          full in
      subst (λ x. PoolInv laws x (release f gs)) (some-injective t' t (sym runs ∙ e)) v
  Reaches-PoolInv _ _ _ (unloads s t gs ps p o r e) =
      let v = Reaches-PoolInv s gs ps r in
      let (o', t', runs, h) = unload_page-runs laws s gs p v in
      same_state (λ _ t. PoolInv laws t gs) o' o t' t _ runs e (Unloaded-Inv s t' gs p o' v h)
  Reaches-PoolInv _ _ _ (sends s gs ps qs p r gone) =
      (send_delete-Deleted laws s gs p (Reaches-PoolInv s gs (ps ++ p ∷ qs) r) gone).0
