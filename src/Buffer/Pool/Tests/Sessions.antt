-- ===== src/Buffer/Pool/Tests/Sessions.antt =====
-- Witnesses for new pools and what they reach.
use oxtub.Base.{
  ℕ, ◌<◌, ◌≡◌, refl, false, none, some, List, [], ◌∷◌, arith, length, get_elem?, Exec, ok, Has,
  usize_mod,
}
use oxtub.Base.Assoc.{get}
use oxtub.Buffer.Pool.Defs.{
  BufferPool, BufferPoolError, FrameMeta, new, write_page, add_u32, acquire_frame_for_page_load,
  empty_frame, publish_loaded_page, new_page, unload_page, send_delete,
}
use oxtub.Buffer.Pool.Invariant.{PoolInv}
use oxtub.Buffer.Pool.Pages.{write_page-refines}
use oxtub.Buffer.Pool.Race.{send_delete-loses}
use oxtub.Buffer.Pool.Sessions.{
  Reaches, starts, takes_id, writes, unloads, sends, guard, Reaches-PoolInv,
}
use oxtub.Buffer.Pool.Start.{started, fresh, new-refines}
use oxtub.Buffer.Pool.Views.{Bounds, view}
use oxtub.Buffer.Replacer.Defs.{record_access, set_evictable, LruKNode, LruKReplacer}
use oxtub.Disk.Durable.{stored}
use oxtub.Disk.Manager.{DiskManager, FileOps, default_page_size}
use oxtub.Disk.Scheduler.{Worker, disk_scheduler}
use oxtub.Buffer.Pool.Tests.{
  disk, worker, worker-Good, ones, File, file_ops, file-FileLaws, file_pages,
}

new-refines_example :
    (s : BufferPool (List ℕ) (Worker File)) × (new 2 ones worker ≡ some s)
    × PoolInv disk s []
    × ((q : ℕ) → view disk s q ≡ stored file-FileLaws file_pages worker q)
    × ((q : ℕ) → get q s.page_table ≡ none)
    × (length s.frames ≡ 2)
    × ((f : ℕ) → f < 2 → Has f s.free_list)
    × (s.next_page_id ≡ 1)
new-refines_example = new-refines disk 2 ones worker worker-Good

abbrev empty_pool : BufferPool (List ℕ) (Worker File)
empty_pool = started disk 2 ones worker (fresh disk 2)

-- A new pool that has given out a page id.
abbrev next_pool : BufferPool (List ℕ) (Worker File)
next_pool = record empty_pool { next_page_id = 2 }

-- The deletion of page 9 waits while the id is given out.
next_pool-Reaches : Reaches disk next_pool [] (9 ∷ [])
unfolding new oxtub.Buffer.Replacer.Defs.new new_page add_u32 unload_page
next_pool-Reaches =
    takes_id empty_pool next_pool [] (9 ∷ []) 1
      (unloads empty_pool empty_pool [] [] 9 (ok tt)
        (starts 2 ones worker empty_pool worker-Good refl) refl)
      refl

next_pool-Bounds : Bounds next_pool []
unfolding usize_mod
next_pool-Bounds = record { clock = omega arith; room = omega arith; guards = omega arith }

-- Then its request is sent.
abbrev sent_pool : BufferPool (List ℕ) (Worker File)
sent_pool = send_delete disk_scheduler 9 next_pool

sent_pool-Reaches : Reaches disk sent_pool [] []
sent_pool-Reaches = sends next_pool [] [] [] 9 next_pool-Reaches refl

sent_pool-Bounds : Bounds sent_pool []
unfolding usize_mod
sent_pool-Bounds = record { clock = omega arith; room = omega arith; guards = omega arith }

-- Page 3 is read into the first frame.
Reaches-PoolInv_example :
    (o : Exec BufferPoolError ℕ) × (t : BufferPool (List ℕ) (Worker File)) × (write_page
        disk_scheduler 3 sent_pool
      ≡ some (o, t))
    × PoolInv disk t (guard o [])
Reaches-PoolInv_example =
    let v = Reaches-PoolInv disk sent_pool [] [] sent_pool-Reaches in
    let (o, t, e, _, _, _) = write_page-refines disk sent_pool [] 3 v sent_pool-Bounds in
    (
      o,
      t,
      e,
      Reaches-PoolInv disk t (guard o []) []
          (writes sent_pool t [] [] 3 o sent_pool-Reaches sent_pool-Bounds e),
    )

-- Page 3 is read while its deletion waits.
reloaded :
    (s : BufferPool (List ℕ) (Worker File)) × (m : FrameMeta) × (write_page disk_scheduler 3
        next_pool
      ≡ some (ok 0, s))
    × (get 3 s.page_table ≡ some 0)
    × (get_elem? s.frame_metas 0 ≡ some m)
    × (m.is_dirty ≡ false)
unfolding write_page acquire_frame_for_page_load publish_loaded_page record_access set_evictable
    oxtub.Disk.Manager.read_page oxtub.Disk.Manager.delete_page file_ops oxtub.Base.add_usize
    oxtub.Buffer.Replacer.Defs.push_access
reloaded = (_, _, refl, refl, refl, refl)

reloaded-Reaches : Reaches disk reloaded.0 (0 ∷ []) (3 ∷ 9 ∷ [])
unfolding unload_page
reloaded-Reaches =
    writes next_pool reloaded.0 [] (3 ∷ 9 ∷ []) 3 (ok 0)
      (unloads next_pool next_pool [] (9 ∷ []) 3 (ok tt) next_pool-Reaches refl) next_pool-Bounds
      reloaded.2

send_delete-loses_example :
    (b : List ℕ) × (u : BufferPool (List ℕ) (Worker File)) × (view disk reloaded.0 3 ≡ some b)
    × (stored file-FileLaws file_pages reloaded.0.disk_scheduler 3 ≡ some b)
    × (view disk (send_delete disk_scheduler 3 reloaded.0) 3 ≡ some b)
    × (stored file-FileLaws file_pages (send_delete disk_scheduler 3 reloaded.0).disk_scheduler 3
        ≡ none)
    × (empty_frame disk_scheduler 0 (send_delete disk_scheduler 3 reloaded.0) ≡ some (ok 0, u))
    × (view disk u 3 ≡ none)
send_delete-loses_example =
    send_delete-loses disk reloaded.0 (0 ∷ []) 3 0 reloaded.1
      (Reaches-PoolInv disk reloaded.0 (0 ∷ []) (3 ∷ 9 ∷ []) reloaded-Reaches) reloaded.3 reloaded.4
      reloaded.5
