-- ===== src/Disk/Scheduler.antt =====
-- src/storage/disk/disk_scheduler.rs: the requests to the worker, in the order in which they were sent.
use oxtub.Base.{ℕ, Bool, true, false, Option, none, some, List, [], ◌∷◌, ◌++◌, ok, err, panic}
use oxtub.Buffer.Pool.Defs.{DiskScheduler}
use oxtub.Disk.Manager.{DiskManager, FileOps, Returns, default_page_size}
use oxtub.Disk.Manager as Manager

-- `DiskRequest`, without the channel of the answer. The worker answers a read and a write.
pub data DiskRequest : Type 0 where
  read_request : ℕ → DiskRequest
  write_request : ℕ → List ℕ → DiskRequest
  delete_request : ℕ → DiskRequest

pub data Response : Type 0 where
  read_response : Option (List ℕ) → Response
  write_response : Bool → Response
  no_response : Response

-- The channel, the oldest request first, and what the worker owns.
pub record Worker (F : Type 0) : Type 0 where
  pub channel : List DiskRequest
  pub disk_manager : DiskManager F

abbrev pub bytes_of : Response → Option (List ℕ)
bytes_of (read_response o) = o
bytes_of (write_response b) = none
bytes_of no_response = none

abbrev pub done : Response → Bool
done (read_response o) = false
done (write_response b) = b
done no_response = false

module _ {F : Type 0} where
  abbrev pub read_result : Returns F (List ℕ) → Response × DiskManager F
  read_result (ok bytes, dm) = (read_response (some bytes), dm)
  read_result (err e, dm) = (read_response none, dm)
  read_result (panic, dm) = (read_response none, dm)

  abbrev pub write_result : Returns F (Unit {0}) → Response × DiskManager F
  write_result (ok _, dm) = (write_response true, dm)
  write_result (err e, dm) = (write_response false, dm)
  write_result (panic, dm) = (write_response false, dm)

module _ {F : Type 0} ⦃file : FileOps F⦄ where
  -- One turn of the worker's loop. A deletion that fails is logged.
  abbrev pub serve : DiskRequest → DiskManager F → Response × DiskManager F
  serve (read_request page_id) dm = read_result (Manager.read_page page_id default_page_size dm)
  serve (write_request page_id data_bytes) dm =
      write_result (Manager.write_page page_id data_bytes dm)
  serve (delete_request page_id) dm = (no_response, (Manager.delete_page page_id dm).1)

  -- The worker on all that was sent before.
  abbrev pub serve_all : List DiskRequest → DiskManager F → DiskManager F
  serve_all [] dm = dm
  serve_all (r ∷ rs) dm = serve_all rs (serve r dm).1

  -- A request whose sender waits for the answer.
  abbrev pub request : DiskRequest → Worker F → Response × DiskManager F
  request r w = serve r (serve_all w.channel w.disk_manager)

  -- `DiskScheduler` while its worker runs. A deletion is sent, and nobody waits for it.
  abbrev pub disk_scheduler : DiskScheduler (List ℕ) (Worker F)
  disk_scheduler = record {
    read_page = λ page_id w. (
      bytes_of (request (read_request page_id) w).0,
      record { channel = []; disk_manager = (request (read_request page_id) w).1 },
    );
    write_page = λ page_id bytes w. (
      done (request (write_request page_id bytes) w).0,
      record { channel = []; disk_manager = (request (write_request page_id bytes) w).1 },
    );
    delete_page = λ page_id w. record w { channel = w.channel ++ delete_request page_id ∷ [] };
  }
