-- ===== src/Buffer/Pool/Defs.antt =====
-- The state of `BufferPoolManager` in src/buffer/bpm.rs and what each call does to it. The calls are
-- the critical sections under the mutex of the state, one after the other. A call that panics is
-- `none`, the overflow checks of usize arithmetic included.
use oxtub.Base.{
  ℕ, zero, suc, ◌+◌, ◌^◌, Bool, true, false, Option, none, some, List, [], ◌∷◌, ltb, ◌==◌,
  if◌then◌else◌, get_elem?, set, and_then, Exec, ok, err, panic, add_usize, sub_usize,
}
use oxtub.Base.Assoc.{get, insert, remove as remove_key}
use oxtub.Buffer.Replacer.Defs.{LruKReplacer, record_access, set_evictable, evict}
use oxtub.Buffer.Replacer.Defs as Replacer

abbrev pub invalid_page_id : ℕ
invalid_page_id = 0

-- What the pool uses of the disk scheduler, over the bytes `B` of a page and the state `D` behind it.
-- A request that fails is `none` or `false`; a failed deletion is only logged.
pub record DiskScheduler (B D : Type 0) : Type 0 where
  pub read_page : ℕ → D → Option B × D
  pub write_page : ℕ → B → D → Bool × D
  pub delete_page : ℕ → D → D

pub record FrameMeta : Type 0 where
  pub page_id : Option ℕ
  pub pin_count : ℕ
  pub is_dirty : Bool

-- `FrameMeta::reset`
abbrev pub reset : FrameMeta
reset = record { page_id = none; pin_count = 0; is_dirty = false }

pub record Page (B : Type 0) : Type 0 where
  pub page_id : Option ℕ
  pub bytes : B

pub data BufferPoolError : Type 0 where
  no_available_frame disk : BufferPoolError
  page_pinned : ℕ → BufferPoolError

pub record BufferPool (B D : Type 0) : Type 0 where
  -- page id and frame
  pub page_table : List (ℕ × ℕ)
  pub frame_metas : List FrameMeta
  -- the frame freed last comes first
  pub free_list : List ℕ
  pub replacer : LruKReplacer
  pub next_page_id : ℕ
  pub frames : List (Page B)
  pub disk_scheduler : D

-- `+` on `PageId`s: `none` is the panic of the overflow check.
unfoldable pub add_u32 : ℕ → ℕ → Option ℕ
add_u32 a b = if ltb (a + b) (2 ^ 32) then some (a + b) else none

abbrev pub repeat : {A : Type 0} → ℕ → A → List A
repeat zero a = []
repeat (suc n) a = a ∷ repeat n a

-- `(from .. from + n)`, the smallest first: the free list hands out frame 0 first.
abbrev pub range : ℕ → ℕ → List ℕ
range start zero = []
range start (suc n) = start ∷ range (suc start) n

-- `record_access` and `set_evictable(frame_id, false)`
abbrev pub pin_replacer : LruKReplacer → ℕ → Option LruKReplacer
pin_replacer r frame_id = and_then (record_access r frame_id) (λ q. set_evictable q frame_id false)

module _ {B D : Type 0} where
  -- `new`, with the bytes of a fresh page.
  unfoldable pub new : ℕ → B → D → Option (BufferPool B D)
  new pool_size zeroes d = and_then (Replacer.new pool_size 2) λ replacer. some (record {
    page_table = [];
    frame_metas = repeat pool_size reset;
    free_list = range 0 pool_size;
    replacer = replacer;
    next_page_id = invalid_page_id + 1;
    frames = repeat pool_size (record { page_id = none; bytes = zeroes });
    disk_scheduler = d;
  })

  -- A `PageId` is a u32.
  unfoldable pub new_page : BufferPool B D → Option (ℕ × BufferPool B D)
  new_page s =
      and_then (add_u32 s.next_page_id 1)
        λ next. some (s.next_page_id, record s { next_page_id = next })

  -- The frame of a page that is loaded.
  abbrev pub pin_frame : ℕ → BufferPool B D → Option (BufferPool B D)
  pin_frame frame_id s = and_then (get_elem? s.frame_metas frame_id) λ meta.
      and_then (add_usize meta.pin_count 1) λ pins.
        and_then (pin_replacer s.replacer frame_id) λ replacer. some (record s {
          frame_metas = set s.frame_metas frame_id (record meta { pin_count = pins });
          replacer = replacer;
        })

  unfoldable pub publish_loaded_page : ℕ → ℕ → BufferPool B D → Option (BufferPool B D)
  publish_loaded_page page_id frame_id s = and_then (get_elem? s.frame_metas frame_id) λ _.
      and_then (pin_replacer s.replacer frame_id) λ replacer. some (record s {
        page_table = insert page_id frame_id s.page_table;
        frame_metas =
            set s.frame_metas frame_id
              (record { page_id = some page_id; pin_count = 1; is_dirty = false });
        replacer = replacer;
      })

abbrev pub Returns : Type 0 → Type 0 → Type 0 → Type 0
Returns B D A = Option (Exec BufferPoolError A × BufferPool B D)

module _ {B D : Type 0} (scheduler : DiskScheduler B D) where
  -- The victim's page leaves its frame.
  abbrev pub take_frame : ℕ → ℕ → BufferPool B D → Returns B D ℕ
  take_frame frame_id victim_page_id s = some (
    ok frame_id,
    record s {
      page_table = remove_key victim_page_id s.page_table;
      frame_metas = set s.frame_metas frame_id reset;
    },
  )

  -- After a write that failed: the frame goes back to the replacer.
  abbrev pub roll_back : ℕ → BufferPool B D → Returns B D ℕ
  roll_back frame_id s = and_then (record_access s.replacer frame_id) λ q.
      and_then (set_evictable q frame_id true)
        λ replacer. some (err BufferPoolError.disk, record s { replacer = replacer })

  abbrev pub flush_victim : ℕ → ℕ → Bool × D → BufferPool B D → Returns B D ℕ
  flush_victim frame_id victim_page_id (true, d) s =
      take_frame frame_id victim_page_id (record s { disk_scheduler = d })
  flush_victim frame_id victim_page_id (false, d) s =
      roll_back frame_id (record s { disk_scheduler = d })

  abbrev pub empty_frame : ℕ → BufferPool B D → Returns B D ℕ
  empty_frame frame_id s = and_then (get_elem? s.frame_metas frame_id) λ meta.
      and_then meta.page_id λ victim_page_id. and_then (get_elem? s.frames frame_id) λ page.
        if meta.is_dirty
        then flush_victim frame_id victim_page_id
            (scheduler.write_page victim_page_id page.bytes s.disk_scheduler) s
        else take_frame frame_id victim_page_id s

  abbrev pub evict_frame : Option ℕ × LruKReplacer → BufferPool B D → Returns B D ℕ
  evict_frame (none, r) s = some (err BufferPoolError.no_available_frame, record s { replacer = r })
  evict_frame (some frame_id, r) s = empty_frame frame_id (record s { replacer = r })

  abbrev pub acquire_from : List ℕ → BufferPool B D → Returns B D ℕ
  acquire_from (frame_id ∷ rest) s = some (ok frame_id, record s { free_list = rest })
  acquire_from [] s = and_then (evict s.replacer) (λ victim. evict_frame victim s)

  unfoldable pub acquire_frame_for_page_load : BufferPool B D → Returns B D ℕ
  acquire_frame_for_page_load s = acquire_from s.free_list s

  -- The rest of `write_page` and `read_page` once a frame is there.
  abbrev pub fill_frame : ℕ → ℕ → Option B × D → BufferPool B D → Returns B D ℕ
  fill_frame page_id frame_id (none, d) s =
      some (err BufferPoolError.disk, record s { disk_scheduler = d })
  fill_frame page_id frame_id (some bytes, d) s =
      and_then
        (publish_loaded_page page_id frame_id (record s {
          frames = set s.frames frame_id (record { page_id = some page_id; bytes = bytes });
          disk_scheduler = d;
        }))
        (λ t. some (ok frame_id, t))

  abbrev pub load_page : ℕ → Exec BufferPoolError ℕ × BufferPool B D → Returns B D ℕ
  load_page page_id (ok frame_id, s) =
      fill_frame page_id frame_id (scheduler.read_page page_id s.disk_scheduler) s
  load_page page_id (err e, s) = some (err e, s)
  load_page page_id (panic, s) = none

  -- `pin_loaded_page`, and if the page is not loaded, a frame for it.
  abbrev pub pin_or_load : ℕ → Option ℕ → BufferPool B D → Returns B D ℕ
  pin_or_load page_id (some frame_id) s =
      and_then (pin_frame frame_id s) (λ t. some (ok frame_id, t))
  pin_or_load page_id none s = and_then (acquire_frame_for_page_load s) (load_page page_id)

  -- The frame of the guard. The latch of the frame is taken after this.
  unfoldable pub write_page : ℕ → BufferPool B D → Returns B D ℕ
  write_page page_id s = pin_or_load page_id (get page_id s.page_table) s

  -- The same but for the kind of the latch.
  unfoldable pub read_page : ℕ → BufferPool B D → Returns B D ℕ
  read_page page_id s = pin_or_load page_id (get page_id s.page_table) s

module _ {B D : Type 0} where
  -- `delete_page` while it holds the mutex: a page without a guard leaves its frame.
  abbrev pub free_frame : ℕ → ℕ → BufferPool B D → Returns B D (Unit {0})
  free_frame page_id frame_id s = and_then (get_elem? s.frame_metas frame_id) λ meta.
      if ltb 0 meta.pin_count
      then some (err (page_pinned page_id), s)
      else (and_then (Replacer.remove s.replacer frame_id) λ replacer. some (
        ok tt,
        record s {
          replacer = replacer;
          free_list = frame_id ∷ s.free_list;
          page_table = remove_key page_id s.page_table;
          frame_metas = set s.frame_metas frame_id reset;
        },
      ))

  abbrev pub unload_from : ℕ → Option ℕ → BufferPool B D → Returns B D (Unit {0})
  unload_from page_id none s = some (ok tt, s)
  unload_from page_id (some frame_id) s = free_frame page_id frame_id s

  unfoldable pub unload_page : ℕ → BufferPool B D → Returns B D (Unit {0})
  unload_page page_id s = unload_from page_id (get page_id s.page_table) s

module _ {B D : Type 0} (scheduler : DiskScheduler B D) where
  -- The request to the disk, after the mutex is released.
  abbrev pub send_delete : ℕ → BufferPool B D → BufferPool B D
  send_delete page_id s = record s {
    disk_scheduler = scheduler.delete_page page_id s.disk_scheduler;
  }

  abbrev pub then_send :
      ℕ → Exec BufferPoolError (Unit {0}) × BufferPool B D → Returns B D (Unit {0})
  then_send page_id (ok _, s) = some (ok tt, send_delete page_id s)
  then_send page_id (err e, s) = some (err e, s)
  then_send page_id (panic, s) = none

  -- The whole call, when no other call comes between its two halves.
  unfoldable pub delete_page : ℕ → BufferPool B D → Returns B D (Unit {0})
  delete_page page_id s = and_then (unload_page page_id s) (then_send page_id)

module _ {B D : Type 0} where
  -- The guard's pin is given back; the last one makes the frame evictable.
  abbrev pub unpin : ℕ → FrameMeta → BufferPool B D → Option (BufferPool B D)
  unpin frame_id meta s = and_then (sub_usize meta.pin_count 1) λ pins.
      and_then (if pins == 0 then set_evictable s.replacer frame_id true else some s.replacer)
        λ replacer. some (record s {
          frame_metas = set s.frame_metas frame_id (record meta { pin_count = pins });
          replacer = replacer;
        })

  -- `Drop` of `ReadPageGuard`
  unfoldable pub drop_read : ℕ → BufferPool B D → Option (BufferPool B D)
  drop_read frame_id s = and_then (get_elem? s.frame_metas frame_id) (λ meta. unpin frame_id meta s)

  -- `Drop` of `WritePageGuard`, with the bytes that were written through the guard: while it holds
  -- the latch nobody else reads the frame.
  unfoldable pub drop_write : ℕ → B → BufferPool B D → Option (BufferPool B D)
  drop_write frame_id bytes s = and_then (get_elem? s.frame_metas frame_id) λ meta.
      and_then (get_elem? s.frames frame_id) λ page.
        unpin frame_id (record meta { is_dirty = true })
          (record s { frames = set s.frames frame_id (record page { bytes = bytes }) })
