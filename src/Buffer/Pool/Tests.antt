-- ===== src/Buffer/Pool/Tests.antt =====
-- Witnesses, over the scheduler of the disk and a file in memory.
mod Sessions
use oxtub.Base.{
  ℕ, zero, suc, ◌≡◌, refl, ap, sym, subst, ◌∙◌, ◌≢◌, inl, inr, Bool, true, false, none, some, List,
  [], ◌∷◌, arith, ◌==◌, if◌then◌else◌, length, get_elem?, Bool-cases, ==_refl, eq_of_==, usize_mod,
}
use mathlib.Core.Option.{some-injective}
use oxtub.Base.Assoc.{get}
use oxtub.Buffer.Pool.Defs.{
  BufferPool, BufferPoolError, FrameMeta, Page, new, drop_read, drop_write, delete_page, add_u32,
  acquire_frame_for_page_load, empty_frame, publish_loaded_page, new_page, unload_page, send_delete,
}
use oxtub.Buffer.Pool.Delete.{Deletes, delete_page-refines}
use oxtub.Buffer.Pool.Drops.{drop_read-refines, drop_write-refines}
use oxtub.Buffer.Pool.Frames.{held, release}
use oxtub.Buffer.Pool.Invariant.{PoolInv, FrameInv}
use oxtub.Buffer.Pool.Store.{DiskLaws}
use oxtub.Buffer.Pool.Views.{Bounds, view}
use oxtub.Buffer.Replacer.Defs.{record_access, set_evictable, LruKNode, LruKReplacer}
use oxtub.Buffer.Replacer.Invariant.{Inv, NodeInv}
use oxtub.Disk.Durable.{durable, stored, Good, delete_page-stored}
use oxtub.Disk.Manager.{DiskManager, FileOps, default_page_size}
use oxtub.Disk.Files.{Apart, FileLaws}
use oxtub.Disk.Scheduler.{Worker, delete_request, disk_scheduler}
use oxtub.Disk.Slots.{SlotsInv}

-- The size of a file, and what was written at each offset.
abbrev pub File : Type 0
File = ℕ × (ℕ → List ℕ)

abbrev pub replicate : ℕ → ℕ → List ℕ
replicate zero v = []
replicate (suc n) v = v ∷ replicate n v

length-replicate : (n v : ℕ) → length (replicate n v) ≡ n
length-replicate zero v = refl
length-replicate (suc n) v = omega (arith, length-replicate n v)

-- What is not a page reads as zeroes.
abbrev pub one_page : Bool → List ℕ → List ℕ
one_page true bytes = bytes
one_page false bytes = replicate default_page_size 0

abbrev pub page_of : List ℕ → List ℕ
page_of bytes = one_page (length bytes == default_page_size) bytes

length-page_of : (bytes : List ℕ) → length (page_of bytes) ≡ default_page_size
length-page_of bytes = elim (Bool-cases (length bytes == default_page_size)) [
  | inl e ↦ rw e (eq_of_== (length bytes) default_page_size e)
  | inr e ↦ rw e (length-replicate default_page_size 0)
]

page_of_page : (bytes : List ℕ) → length bytes ≡ default_page_size → page_of bytes ≡ bytes
page_of_page bytes e =
    ap (λ b. one_page b bytes) (ap (λ n. n == default_page_size) e ∙ ==_refl default_page_size)

abbrev pub write_file : ℕ → List ℕ → (ℕ → List ℕ) → ℕ → List ℕ
write_file off bytes m o = if off == o then bytes else m o

instance pub file_ops : FileOps File
file_ops = record {
  set_len = λ (_, m) n. (true, (n, m));
  read_at = λ (n, m) off. (some (page_of (m off)), (n, m));
  write_at = λ (n, m) off bytes. (true, (n, write_file off bytes m));
  flush = λ f. (true, f);
}

apart : (a b : ℕ) → Apart a b → (a == b) ≡ false
apart a b (inl h) = ground arith
apart a b (inr h) = ground arith

pub file-FileLaws : FileLaws File file_ops
unfolding file_ops
file-FileLaws = record {
  size = λ f. f.0;
  content = λ f off. page_of (f.1 off);
  set_len_works = λ f n. ((n, f.1), refl, refl, λ off _ _. refl);
  read_works = λ f off _. (f, refl, refl, λ o. refl);
  write_works = λ f off bytes full _. (
    (f.0, write_file off bytes f.1),
    refl,
    refl,
    rw (==_refl off) (page_of_page bytes full),
    λ o a. rw (apart off o a) refl,
  );
  flush_works = λ f. (f, refl, refl, λ o. refl);
}

pub file_pages : (f : File) (off : ℕ) → length (file-FileLaws.content f off) ≡ default_page_size
unfolding file-FileLaws
file_pages f off = length-page_of (f.1 off)

abbrev pub disk : DiskLaws (List ℕ) (Worker File) disk_scheduler
disk = durable file-FileLaws file_pages

abbrev pub ones : List ℕ
ones = replicate default_page_size 1

abbrev twos : List ℕ
twos = replicate default_page_size 2

-- Pages 3 and 9 are on disk, and a request to delete page 9 is on its way.
abbrev pub worker : Worker File
worker = record {
  channel = delete_request 9 ∷ [];
  disk_manager = record {
    db_file_handle = (139264, λ off. if off == 0 then ones else twos);
    page_capacity = 16;
    pages = (3, 0) ∷ (9, 8192) ∷ [];
    free_slots = [];
  };
}

slots : SlotsInv 16 ((3, 0) ∷ []) (8192 ∷ [])
slots = record {
  distinct = (refl, tt);
  room = omega arith;
  paged = λ i off h. ground arith;
  freed = ((refl, omega arith), tt);
  alone = λ i j off h h'. ground arith;
  not_free = λ i off h has. elim has [ inl e ↦ ground arith | inr none_there ↦ none_there ];
  no_repeat = ((λ has. has), tt);
}

pub worker-Good : Good file-FileLaws file_pages worker
unfolding file-FileLaws oxtub.Disk.Manager.delete_page
worker-Good = record { slots = slots; capacity = omega arith; long = omega arith }

-- One frame, which holds page 3: it was written and has a guard.
abbrev busy : BufferPool (List ℕ) (Worker File)
busy = record {
  page_table = (3, 0) ∷ [];
  frame_metas = record { page_id = some 3; pin_count = 1; is_dirty = true } ∷ [];
  free_list = [];
  replacer = record {
    nodes = (0, record { history = 1 ∷ []; is_evictable = false }) ∷ [];
    current_timestamp = 1;
    curr_size = 0;
    replacer_size = 1;
    k = 2;
  };
  next_page_id = 4;
  frames = record { page_id = some 3; bytes = twos } ∷ [];
  disk_scheduler = worker;
}

abbrev busy_meta : FrameMeta
busy_meta = record { page_id = some 3; pin_count = 1; is_dirty = true }

abbrev busy_node : LruKNode
busy_node = record { history = 1 ∷ []; is_evictable = false }

busy_frame :
    (f : ℕ) (m : FrameMeta) → get_elem? busy.frame_metas f ≡ some m → (0 ≡ f) × (busy_meta ≡ m)
busy_frame zero m h = (refl, some-injective busy_meta m h)
busy_frame (suc f) m h = absurd (cc h)

busy_page :
    (f : ℕ) (page : Page (List ℕ))
    → get_elem? busy.frames f ≡ some page
    → record { page_id = some 3; bytes = twos } ≡ page
busy_page zero page h = some-injective _ page h
busy_page (suc f) page h = absurd (cc h)

busy_table : (p f : ℕ) → get p busy.page_table ≡ some f → (3 ≡ p) × (0 ≡ f)
busy_table p f h = ground arith

busy_nodes : (f : ℕ) (n : LruKNode) → get f busy.replacer.nodes ≡ some n → (0 ≡ f) × (busy_node ≡ n)
busy_nodes f n h = elim (Bool-cases (0 == f)) [
  | inl e ↦ (eq_of_== 0 f e, some-injective busy_node n (sym (rw e refl) ∙ h))
  | inr e ↦ absurd (cc (rw e at h))
]

busy-Inv : Inv busy.replacer
busy-Inv = record {
  k_pos = omega arith;
  distinct = (refl, tt);
  frame = λ f n h. omega (arith, (busy_nodes f n h).0);
  node = λ f n h.
      subst (NodeInv 2 1) (busy_nodes f n h).1
        (record { used = omega arith; bounded = omega arith; past = (omega arith, tt) });
  apart = λ f g n m t ne h h' _ _. ne (sym (busy_nodes f n h).0 ∙ (busy_nodes g m h').0);
  counted = refl;
}

busy_FrameInv :
    (f : ℕ) (m : FrameMeta) (page : Page (List ℕ))
    → get_elem? busy.frame_metas f ≡ some m
    → get_elem? busy.frames f ≡ some page
    → FrameInv disk m.page_id m.pin_count m.is_dirty page.bytes (get f busy.replacer.nodes) worker
busy_FrameInv zero m page at at' =
    subst
      (λ (x : FrameMeta).
        FrameInv disk x.page_id x.pin_count x.is_dirty page.bytes (some busy_node) worker)
      (busy_frame zero m at).1
      (subst (λ (x : Page (List ℕ)). FrameInv disk (some 3) 1 true x.bytes (some busy_node) worker)
        (busy_page zero page at')
        (length-replicate default_page_size 2, (busy_node, refl, refl), λ clean. absurd (cc clean)))
busy_FrameInv (suc f) m page at at' = absurd (cc at)

busy-PoolInv : PoolInv disk busy (0 ∷ [])
busy-PoolInv = record {
  replacer = busy-Inv;
  metas_size = refl;
  frames_size = refl;
  distinct = (refl, tt);
  good = worker-Good;
  entry = λ p f h.
      let (e, e') = busy_table p f h in
      (busy_meta, subst (λ x. get_elem? busy.frame_metas x ≡ some busy_meta) e' refl, ap some e);
  back = λ p f m at id.
      let (e, e') = busy_frame f m at in
      let page_id : some 3 ≡ some p = ap FrameMeta.page_id e' ∙ id in
      subst (λ x. get p busy.page_table ≡ some x) e
        (subst (λ x. get x busy.page_table ≡ some 0) (some-injective 3 p page_id) refl);
  frame = busy_FrameInv;
  pins = λ f m at.
      let (e, e') = busy_frame f m at in
      sym (ap FrameMeta.pin_count e') ∙ subst (λ x. 1 ≡ held x (0 ∷ [])) e refl;
  guards = λ f h. ground arith;
  blank = λ f h. elim h [ ];
  unique = tt;
}

busy-Bounds : Bounds busy (0 ∷ [])
unfolding usize_mod
busy-Bounds = record { clock = omega arith; room = omega arith; guards = omega arith }

drop_read-refines_example :
    (t : BufferPool (List ℕ) (Worker File)) × (drop_read 0 busy ≡ some t)
    × PoolInv disk t (release 0 (0 ∷ []))
    × ((q : ℕ) → view disk t q ≡ view disk busy q)
drop_read-refines_example =
    drop_read-refines disk busy (0 ∷ []) 0 busy-PoolInv busy-Bounds (omega arith)

drop_write-refines_example :
    (t : BufferPool (List ℕ) (Worker File)) × (drop_write 0 ones busy ≡ some t)
    × PoolInv disk t (release 0 (0 ∷ []))
    × ((q : ℕ) → view disk t q ≡ (if 3 == q then some ones else view disk busy q))
drop_write-refines_example =
    drop_write-refines disk busy (0 ∷ []) 0 3 ones busy-PoolInv busy-Bounds (omega arith) refl
      (length-replicate default_page_size 1)

delete_page-refines_example : Deletes disk busy (0 ∷ []) 3 (delete_page disk_scheduler 3 busy)
delete_page-refines_example = delete_page-refines disk busy (0 ∷ []) 3 busy-PoolInv

delete_page-stored_example :
    Good file-FileLaws file_pages (disk_scheduler.delete_page 3 worker)
    × (stored file-FileLaws file_pages (disk_scheduler.delete_page 3 worker) 3 ≡ none)
    × ((q : ℕ)
        → 3 ≢ q
        → stored file-FileLaws file_pages (disk_scheduler.delete_page 3 worker) q
          ≡ stored file-FileLaws file_pages worker q)
delete_page-stored_example = delete_page-stored file-FileLaws file_pages worker 3 worker-Good
