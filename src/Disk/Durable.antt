-- ===== src/Disk/Durable.antt =====
-- The disk that src/buffer/bpm.rs uses: the scheduler of src/storage/disk/disk_scheduler.rs over the
-- manager of src/storage/disk/disk_manager.rs keeps the laws of a page store.
use oxtub.Base.{
  ℕ, ◌≡◌, refl, ap, sym, subst, ◌∙◌, ◌≢◌, inl, inr, Option, none, some, List, [], ◌∷◌, ◌++◌, length,
  ok, Option-cases, Bool-cases, ◌==◌, eq_of_==, ne_of_==,
}
use mathlib.Core.Option.{some-injective}
use oxtub.Base.Assoc.{get}
use oxtub.Buffer.Pool.Store.{DiskLaws}
use oxtub.Disk.Manager.{DiskManager, FileOps, default_page_size, page_not_found}
use oxtub.Disk.Manager as Manager
use oxtub.Disk.Files.{FileLaws, DiskInv, bytes_at, view}
use oxtub.Disk.Pages.{write_page-view, read_page-view, delete_page-view}
use oxtub.Disk.Scheduler.{
  DiskRequest, delete_request, Worker, serve, serve_all, disk_scheduler, read_result, write_result,
}

module _ {F : Type 0} ⦃file : FileOps F⦄ (laws : FileLaws F file)
    (content_size : (f : F) (off : ℕ) → length (laws.content f off) ≡ default_page_size) where
  abbrev pub served : Worker F → DiskManager F
  served w = serve_all w.channel w.disk_manager

  abbrev pub Good : Worker F → Type 0
  Good w = DiskInv laws (served w)

  -- The bytes of a page once the worker has served the channel.
  abbrev pub stored : Worker F → ℕ → Option (List ℕ)
  stored w p = view laws (served w) p

  serve_all-push :
      (rs : List DiskRequest) (r : DiskRequest) (dm : DiskManager F)
      → serve_all (rs ++ r ∷ []) dm ≡ (serve r (serve_all rs dm)).1
  serve_all-push [] r dm = refl
  serve_all-push (q ∷ rs) r dm = serve_all-push rs r (serve q dm).1

  pub view_full :
      (o : Option ℕ) (f : F) (b : List ℕ)
      → bytes_at laws o f ≡ some b
      → length b ≡ default_page_size
  view_full none f b h = absurd (cc h)
  view_full (some off) f b h =
      ap length (sym (some-injective (laws.content f off) b h)) ∙ content_size f off

  -- What a deletion does, whether the page was there or not.
  deletes :
      (dm : DiskManager F) (p : ℕ)
      → DiskInv laws dm
      → DiskInv laws (Manager.delete_page p dm).1
        × (view laws (Manager.delete_page p dm).1 p ≡ none)
        × ((q : ℕ) → p ≢ q → view laws (Manager.delete_page p dm).1 q ≡ view laws dm q)
  deletes dm p v = elim (Option-cases (view laws dm p)) [
    | inl e ↦
        let same : dm ≡ (Manager.delete_page p dm).1 =
          sym (ap (λ x. x.1) ((delete_page-view laws dm p v).0 e)) in
        subst
          (λ (x : DiskManager F).
            DiskInv laws x
            × (view laws x p ≡ none)
            × ((q : ℕ) → p ≢ q → view laws x q ≡ view laws dm q))
          same (v, e, λ q ne. refl)
    | inr (b, e) ↦
        let (dm', runs, v', gone, others) = (delete_page-view laws dm p v).1 b e in
        subst
          (λ (x : DiskManager F).
            DiskInv laws x
            × (view laws x p ≡ none)
            × ((q : ℕ) → p ≢ q → view laws x q ≡ view laws dm q))
          (sym (ap (λ x. x.1) runs)) (v', gone, others)
  ]

  after_delete :
      (w : Worker F) (p : ℕ)
      → served (disk_scheduler.delete_page p w) ≡ (Manager.delete_page p (served w)).1
  after_delete w p = serve_all-push w.channel (delete_request p) w.disk_manager

  -- While the disk is in order, a request to delete a page is as good as done once it is sent: whatever
  -- is asked of the worker later finds the page gone and every other page with its bytes, and the disk
  -- stays in order.
  pub delete_page-stored :
      (w : Worker F) (p : ℕ)
      → Good w
      → Good (disk_scheduler.delete_page p w)
        × (stored (disk_scheduler.delete_page p w) p ≡ none)
        × ((q : ℕ) → p ≢ q → stored (disk_scheduler.delete_page p w) q ≡ stored w q)
  delete_page-stored w p v =
      subst
        (λ (x : DiskManager F).
          DiskInv laws x × (view laws x p ≡ none) × ((q : ℕ) → p ≢ q → view laws x q ≡ stored w q))
        (sym (after_delete w p)) (deletes (served w) p v)

  -- A read of a disk in order succeeds; it allocates the page if it has to.
  pub read_page-stored :
      (w : Worker F) (p : ℕ)
      → Good w
      → (bytes : List ℕ) × ((disk_scheduler.read_page p w).0 ≡ some bytes)
        × Good (disk_scheduler.read_page p w).1
        × (stored (disk_scheduler.read_page p w).1 p ≡ some bytes)
        × ((b : List ℕ) → stored w p ≡ some b → bytes ≡ b)
        × ((q : ℕ) → p ≢ q → stored (disk_scheduler.read_page p w).1 q ≡ stored w q)
  read_page-stored w p v =
      let (bytes, dm', runs, v', holds, old, others) = read_page-view laws (served w) p v in
      (
        bytes,
        rw runs refl,
        subst (λ (x : DiskManager F). DiskInv laws x) (sym (after_read w p bytes dm' runs)) v',
        subst (λ (x : DiskManager F). view laws x p ≡ some bytes)
            (sym (after_read w p bytes dm' runs)) holds,
        old,
        λ q ne.
            ap (λ (x : DiskManager F). view laws x q) (after_read w p bytes dm' runs) ∙ others q ne,
      )
    where
      after_read :
          (w : Worker F) (p : ℕ) (bytes : List ℕ) (dm' : DiskManager F)
          → Manager.read_page p default_page_size (served w) ≡ (ok bytes, dm')
          → served (disk_scheduler.read_page p w).1 ≡ dm'
      after_read w p bytes dm' runs = ap (λ x. (read_result x).1) runs

  -- A write of a full page succeeds and changes no other page.
  pub write_page-stored :
      (w : Worker F) (p : ℕ) (b : List ℕ)
      → Good w
      → length b ≡ default_page_size
      → Good (disk_scheduler.write_page p b w).1
        × (stored (disk_scheduler.write_page p b w).1 p ≡ some b)
        × ((q : ℕ) → p ≢ q → stored (disk_scheduler.write_page p b w).1 q ≡ stored w q)
  write_page-stored w p b v full =
      let (dm', runs, v', holds, others) = write_page-view laws (served w) p b v full in
      (
        subst (λ (x : DiskManager F). DiskInv laws x) (sym (after_write w p b dm' runs)) v',
        subst (λ (x : DiskManager F). view laws x p ≡ some b) (sym (after_write w p b dm' runs))
            holds,
        λ q ne.
            ap (λ (x : DiskManager F). view laws x q) (after_write w p b dm' runs) ∙ others q ne,
      )
    where
      after_write :
          (w : Worker F) (p : ℕ) (b : List ℕ) (dm' : DiskManager F)
          → Manager.write_page p b (served w) ≡ (ok tt, dm')
          → served (disk_scheduler.write_page p b w).1 ≡ dm'
      after_write w p b dm' runs = ap (λ x. (write_result x).1) runs

  -- A read never changes the bytes of a page that is there.
  pub read_page-kept :
      (w : Worker F) (p q : ℕ) (b : List ℕ)
      → Good w
      → stored w q ≡ some b
      → stored (disk_scheduler.read_page p w).1 q ≡ some b
  read_page-kept w p q b v h =
      let (bytes, _, _, holds, old, others) = read_page-stored w p v in
      elim (Bool-cases (p == q)) [
        | inl e ↦
            let same = eq_of_== p q e in
            let at_p : stored w p ≡ some b = ap (stored w) same ∙ h in
            ap (stored (disk_scheduler.read_page p w).1) (sym same) ∙ holds ∙ ap some (old b at_p)
        | inr e ↦ others q (ne_of_== p q e) ∙ h
      ]

  -- The disk of the pool.
  abbrev pub durable : DiskLaws (List ℕ) (Worker F) disk_scheduler
  durable = record {
    stored = stored;
    Good = Good;
    Full = λ b. length b ≡ default_page_size;
    stored_full = λ w p b v h. view_full (get p (served w).pages) (served w).db_file_handle b h;
    read_good = λ p w v. (read_page-stored w p v).2;
    read_kept = λ p q w b v h. read_page-kept w p q b v h;
    read_new = λ p q w v ne. (read_page-stored w p v).5 q ne;
    read_stored =
        λ p w b v h. let (bytes, e, _, holds, _, _) = read_page-stored w p v in holds ∙ sym e ∙ h;
    write_good = λ p b w v full. (write_page-stored w p b v full).0;
    write_stored = λ p b w v full h. (write_page-stored w p b v full).1;
    write_kept = λ p q b w v full ne. (write_page-stored w p b v full).2 q ne;
    delete_good = λ p w v. (delete_page-stored w p v).0;
    delete_gone = λ p w v. (delete_page-stored w p v).1;
    delete_kept = λ p q w v ne. (delete_page-stored w p v).2 q ne;
  }
