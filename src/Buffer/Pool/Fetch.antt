-- ===== src/Buffer/Pool/Fetch.antt =====
-- `write_page` and `read_page` of src/buffer/bpm.rs.
use oxtub.Base.{
  get_elem?-set, ℕ, ◌+◌, ◌≤◌, ◌<◌, ◌≡◌, refl, ap, sym, subst, ◌∙◌, ◌≢◌, inl, inr, Bool, true, false,
  Option, none, some, List, [], ◌∷◌, ◌==◌, if◌then◌else◌, get_elem?, set, length, length-set, arith,
  Bool-cases, Option-cases, and_then, usize_mod, Exec, ok, err, panic, Has, ==_ne,
}
use mathlib.Core.Option.{some-injective}
use oxtub.Base.Assoc.{
  get, insert, get-insert_cases, get-insert_ne, get-insert_self, insert-Distinct,
}
use oxtub.Buffer.Pool.Acquire.{NoFrame}
use oxtub.Buffer.Pool.Defs.{BufferPool, BufferPoolError, DiskScheduler, FrameMeta, Page, Returns}
use oxtub.Buffer.Pool.Frames.{held}
use oxtub.Buffer.Pool.Invariant.{PoolInv, FrameInv, Change, Change-Inv}
use oxtub.Buffer.Pool.Pins.{nodes_other}
use oxtub.Buffer.Pool.Store.{DiskLaws}
use oxtub.Buffer.Pool.Taken.{Acquired}
use oxtub.Buffer.Pool.Views.{view, view_loaded, frame_page, bytes_at}
use oxtub.Buffer.Replacer.Defs.{LruKReplacer}
use oxtub.Buffer.Replacer.Effects.{Wrote, written}

module _ {B D : Type 0} {scheduler : DiskScheduler B D} (laws : DiskLaws B D scheduler) where
  -- A guard's frame that holds the page, or an error with its reason.
  abbrev pub Fetched :
      BufferPool B D → List ℕ → ℕ → Exec BufferPoolError ℕ → BufferPool B D → Type 0
  Fetched s gs p (ok f) t = PoolInv laws t (f ∷ gs) × (get p t.page_table ≡ some f)
  Fetched s gs p (err e) t = PoolInv laws t gs × NoFrame laws s gs e
  Fetched s gs p (oxtub.Base.panic) t = ⊥

  -- The call returns, and no page that had bytes in state `t` loses them.
  abbrev pub FetchesFrom : BufferPool B D → BufferPool B D → List ℕ → ℕ → Returns B D ℕ → Type 0
  FetchesFrom s t gs p result =
      (o : Exec BufferPoolError ℕ) × (u : BufferPool B D) × (result ≡ some (o, u))
      × Fetched s gs p o u
      × ((q : ℕ) → p ≢ q → view laws u q ≡ view laws t q)
      × ((b : B) → view laws t p ≡ some b → view laws u p ≡ some b)

  abbrev pub Fetches : BufferPool B D → List ℕ → ℕ → Returns B D ℕ → Type 0
  Fetches s gs p result = FetchesFrom s s gs p result

  module _ (s : BufferPool B D) (gs : List ℕ) (p f : ℕ) (v : PoolInv laws s gs)
      (a : Acquired laws s f) (absent : get p s.page_table ≡ none) where
    abbrev empty_meta : FrameMeta
    empty_meta = record { page_id = some p; pin_count = 1; is_dirty = false }

    empty_inside : f < s.replacer.replacer_size
    empty_inside = (frame_page laws s gs f a.meta v a.at).2

    empty_held : held f gs ≡ 0
    empty_held =
        let (page, at, _) = frame_page laws s gs f a.meta v a.at in
        sym (v.pins f a.meta a.at)
        ∙ (subst
            (λ o.
              FrameInv laws o a.meta.pin_count a.meta.is_dirty page.bytes (get f s.replacer.nodes)
                s.disk_scheduler)
            a.empty (v.frame f a.meta page a.at at)).0

    unused : (q : ℕ) → get q s.page_table ≡ some f → ⊥
    unused q h =
        let (n, e, id) = v.entry q f h in
        absurd
          (cc (sym a.empty ∙ ap FrameMeta.page_id (some-injective a.meta n (sym a.at ∙ e)) ∙ id))

    module _ (d : D) (b : B) (r : LruKReplacer) (w : Wrote s.replacer f false r)
        (good : laws.Good d) (found : laws.stored d p ≡ some b)
        (kept : (q : ℕ) → p ≢ q → laws.stored d q ≡ laws.stored s.disk_scheduler q) where
      abbrev pub published : BufferPool B D
      published = record s {
        page_table = insert p f s.page_table;
        frame_metas = set s.frame_metas f empty_meta;
        replacer = r;
        frames = set s.frames f (record { page_id = some p; bytes = b });
        disk_scheduler = d;
      }

      other_page : (q g : ℕ) → get q s.page_table ≡ some g → p ≢ q
      other_page q g h e = absurd (cc (absent, ap (λ x. get x s.page_table) e, h))

      not_taken : (g : ℕ) → Has g s.free_list → f ≢ g
      not_taken g h e = a.taken (subst (λ x. Has x s.free_list) (sym e) h)

      published-Change :
          Change laws s published gs (f ∷ gs) f empty_meta (record { page_id = some p; bytes = b })
      published-Change = record {
        inside = empty_inside;
        replacer = w.inv;
        size = w.size;
        metas_size = length-set s.frame_metas f empty_meta;
        frames_size = length-set s.frames f _;
        metas = λ g.
            get_elem?-set s.frame_metas f g empty_meta (omega (arith, v.metas_size, empty_inside));
        frames = λ g. get_elem?-set s.frames f g _ (omega (arith, v.frames_size, empty_inside));
        nodes = λ g ne. nodes_other s.replacer r f g false w ne;
        distinct = insert-Distinct p f s.page_table v.distinct;
        good = good;
        own = (
          laws.stored_full d p b good found,
          (w.node, written s.replacer r f w, w.flag ∙ sym one),
          λ clean. found,
        );
        came = λ q g ne h. elim (get-insert_cases p q f g s.page_table h) [
          | inl (_, e) ↦ absurd (ne e)
          | inr (_, old) ↦ old
        ];
        stays = λ q g ne h. get-insert_ne p q f s.page_table (other_page q g h) ∙ h;
        mine = λ q h. elim (get-insert_cases p q f f s.page_table h) [
          | inl (e, _) ↦ ap some e
          | inr (_, old) ↦ absurd (unused q old)
        ];
        mine_back = λ q h.
            ap (λ x. get x (insert p f s.page_table)) (sym (some-injective p q h))
            ∙ get-insert_self p f s.page_table;
        kept = λ q g c ne h h'. kept q (other_page q g h) ∙ h';
        own_pins = one_more (held f gs) empty_held;
        other_pins = λ g ne. others g ne;
        free = λ g h. inl (not_taken g h, h);
        unique = v.unique;
      }
        where
          one : (1 == 0) ≡ false
          one = ground arith

          one_more : (n : ℕ) → n ≡ 0 → 1 ≡ (if f == f then 1 else 0) + n
          one_more n h = ground arith

          others : (g : ℕ) → f ≢ g → held g (f ∷ gs) ≡ held g gs
          others g ne = ground arith

      pub published-Inv : PoolInv laws published (f ∷ gs)
      published-Inv = Change-Inv laws s published gs (f ∷ gs) f empty_meta _ v published-Change

      pub published-loaded : get p published.page_table ≡ some f
      published-loaded = get-insert_self p f s.page_table

      published_frames :
          (o : Option ℕ) (page : Page B) (stored : Option B)
          → (o ≢ some f)
          → bytes_at (set s.frames f page) o stored ≡ bytes_at s.frames o stored
      published_frames none page stored ne = refl
      published_frames (some g) page stored ne =
          let differ : (f == g) ≡ false = ==_ne f g (λ e. ne (ap some (sym e))) in
          rw (get_elem?-set s.frames f g page (omega (arith, v.frames_size, empty_inside)), differ)
            refl

      pub published-view : (q : ℕ) → p ≢ q → view laws published q ≡ view laws s q
      unfolding view
      published-view q ne =
          rw (get-insert_ne p q f s.page_table ne, kept q ne)
            (published_frames (get q s.page_table) _ (laws.stored s.disk_scheduler q) (unused q))

      pub published_page : view laws published p ≡ some b
      published_page =
          view_loaded laws published p f (record { page_id = some p; bytes = b }) published-loaded
            (Change.frames published-Change f ∙ here (get_elem? s.frames f) _)
        where
          here :
              (o : Option (Page B)) (page : Page B) → (if f == f then some page else o) ≡ some page
          here o page = ground arith
