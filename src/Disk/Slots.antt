-- ===== src/Disk/Slots.antt =====
-- The offsets of src/storage/disk/disk_manager.rs: no two pages share one.
use oxtub.Base.{
  ℕ, suc, ◌+◌, ◌*◌, ◌%◌, ◌≤◌, ◌<◌, ◌≡◌, refl, ap, sym, ◌∙◌, subst, none, some, List, [], ◌∷◌,
  length, arith, inl, inr, All, All-imp, Has,
}
use oxtub.Base.Assoc.{
  get, insert, remove, Distinct, insert-Distinct, remove-Distinct, get-insert_cases,
  get-remove_cases,
}
use oxtub.Disk.Manager.{default_page_size}

module _ {V : Type 0} where
  pub insert-length_new :
      (k : ℕ) (v : V) (m : List (ℕ × V)) → get k m ≡ none → length (insert k v m) ≡ suc (length m)
  insert-length_new k v [] h = refl
  insert-length_new k v ((j, w) ∷ m) h = ground (arith, insert-length_new k v m)

  pub insert-length_old :
      (k : ℕ) (v w : V) (m : List (ℕ × V)) → get k m ≡ some w → length (insert k v m) ≡ length m
  insert-length_old k v w [] h = cc
  insert-length_old k v w ((j, x) ∷ m) h = ground (arith, insert-length_old k v w m)

  pub remove-length :
      (k : ℕ) (w : V) (m : List (ℕ × V)) → get k m ≡ some w → suc (length (remove k m)) ≡ length m
  remove-length k w [] h = cc
  remove-length k w ((j, x) ∷ m) h = ground (arith, remove-length k w m)

-- One of the first `n` slots of the file.
abbrev pub Slot : ℕ → ℕ → Type 0
Slot n offset = (offset % default_page_size ≡ 0) × (offset < n * default_page_size)

abbrev pub NoRepeat : List ℕ → Type 0
NoRepeat [] = Unit
NoRepeat (x ∷ xs) = (Has x xs → ⊥) × NoRepeat xs

-- The slots of the file are shared out between the pages and the free list.
pub record SlotsInv (capacity : ℕ) (pages : List (ℕ × ℕ)) (free : List ℕ) : Type 0 where
  pub distinct : Distinct pages
  pub room : length pages + length free ≤ capacity
  pub paged : (i off : ℕ) → get i pages ≡ some off → Slot (length pages + length free) off
  pub freed : All (Slot (length pages + length free)) free
  pub alone : (i j off : ℕ) → get i pages ≡ some off → get j pages ≡ some off → i ≡ j
  pub not_free : (i off : ℕ) → get i pages ≡ some off → Has off free → ⊥
  pub no_repeat : NoRepeat free

slots_more : (m n : ℕ) (free : List ℕ) → m ≤ n → All (Slot m) free → All (Slot n) free
slots_more m n free h = All-imp (Slot m) (Slot n) (λ off s. (s.0, omega (arith, s.1))) free

-- A page takes the offset that was freed last.
pub reuse-SlotsInv :
    (capacity : ℕ) (pages : List (ℕ × ℕ)) (off : ℕ) (free : List ℕ) (id : ℕ)
    → SlotsInv capacity pages (off ∷ free)
    → get id pages ≡ none
    → SlotsInv capacity (insert id off pages) free
reuse-SlotsInv capacity pages off free id v new =
    let grown = insert-length_new id off pages new in
    let n = length pages + length (off ∷ free) in
    let n' = length (insert id off pages) + length free in
    let same : n ≡ n' = omega (arith, grown) in
    record {
      distinct = insert-Distinct id off pages v.distinct;
      room = omega (arith, v.room, same);
      paged = λ i o h. elim (get-insert_cases id i off o pages h) [
        | inl (_, e) ↦ subst (λ x. Slot n' x) e (subst (λ x. Slot x off) same v.freed.0)
        | inr (_, at) ↦ subst (λ x. Slot x o) same (v.paged i o at)
      ];
      freed = slots_more n n' free (omega (arith, same)) v.freed.1;
      alone = λ i j o h h'. elim (get-insert_cases id i off o pages h) [
        | inl (e, eo) ↦ elim (get-insert_cases id j off o pages h') [
          | inl (e', _) ↦ sym e ∙ e'
          | inr (_, at) ↦ absurd (v.not_free j o at (inl eo))
        ]
        | inr (_, at) ↦ elim (get-insert_cases id j off o pages h') [
          | inl (_, eo) ↦ absurd (v.not_free i o at (inl eo))
          | inr (_, at') ↦ v.alone i j o at at'
        ]
      ];
      not_free = λ i o h has. elim (get-insert_cases id i off o pages h) [
        | inl (_, e) ↦ v.no_repeat.0 (subst (λ x. Has x free) (sym e) has)
        | inr (_, at) ↦ v.not_free i o at (inr has)
      ];
      no_repeat = v.no_repeat.1;
    }

-- A page takes the slot behind all others.
pub fresh-SlotsInv :
    (capacity capacity' : ℕ) (pages : List (ℕ × ℕ)) (id : ℕ)
    → SlotsInv capacity pages []
    → get id pages ≡ none
    → length pages < capacity'
    → SlotsInv capacity' (insert id (length pages * default_page_size) pages) []
fresh-SlotsInv capacity capacity' pages id v new more =
    let off = length pages * default_page_size in
    let grown = insert-length_new id off pages new in
    record {
      distinct = insert-Distinct id off pages v.distinct;
      room = omega (arith, grown);
      paged = λ i o h. elim (get-insert_cases id i off o pages h) [
        | inl (_, e) ↦ (omega (arith, e), omega (arith, e, grown))
        | inr (_, at) ↦ ((v.paged i o at).0, omega (arith, (v.paged i o at).1, grown))
      ];
      freed = tt;
      alone = λ i j o h h'. elim (get-insert_cases id i off o pages h) [
        | inl (e, eo) ↦ elim (get-insert_cases id j off o pages h') [
          | inl (e', _) ↦ sym e ∙ e'
          | inr (_, at) ↦ absurd (omega (arith, eo, (v.paged j o at).1))
        ]
        | inr (_, at) ↦ elim (get-insert_cases id j off o pages h') [
          | inl (_, eo) ↦ absurd (omega (arith, eo, (v.paged i o at).1))
          | inr (_, at') ↦ v.alone i j o at at'
        ]
      ];
      not_free = λ i o h has. has;
      no_repeat = tt;
    }

-- A page that is deleted gives its offset to the free list.
pub free-SlotsInv :
    (capacity : ℕ) (pages : List (ℕ × ℕ)) (off : ℕ) (free : List ℕ) (id : ℕ)
    → SlotsInv capacity pages free
    → get id pages ≡ some off
    → SlotsInv capacity (remove id pages) (off ∷ free)
free-SlotsInv capacity pages off free id v at =
    let shrunk = remove-length id off pages at in
    let n = length pages + length free in
    let n' = length (remove id pages) + length (off ∷ free) in
    let same : n ≡ n' = omega (arith, shrunk) in
    record {
      distinct = remove-Distinct id pages v.distinct;
      room = omega (arith, v.room, same);
      paged = λ i o h.
          subst (λ x. Slot x o) same (v.paged i o (get-remove_cases id i o pages v.distinct h).1);
      freed = (
        subst (λ x. Slot x off) same (v.paged id off at),
        slots_more n n' free (omega (arith, same)) v.freed,
      );
      alone = λ i j o h h'.
          v.alone i j o (get-remove_cases id i o pages v.distinct h).1
            (get-remove_cases id j o pages v.distinct h').1;
      not_free = λ i o h has. elim has [
        | inl e ↦
            let (ne, was) = get-remove_cases id i o pages v.distinct h in
            ne (v.alone id i o (at ∙ ap some e) was)
        | inr there ↦ v.not_free i o (get-remove_cases id i o pages v.distinct h).1 there
      ];
      no_repeat = (v.not_free id off at, v.no_repeat);
    }

-- A page is written again.
pub again-SlotsInv :
    (capacity : ℕ) (pages : List (ℕ × ℕ)) (off : ℕ) (free : List ℕ) (id : ℕ)
    → SlotsInv capacity pages free
    → get id pages ≡ some off
    → SlotsInv capacity (insert id off pages) free
again-SlotsInv capacity pages off free id v at =
    let same = sym (insert-length_old id off off pages at) in
    let was =
      λ (i : ℕ) (o : ℕ) (h : get i (insert id off pages) ≡ some o). again id off pages i o at h in
    record {
      distinct = insert-Distinct id off pages v.distinct;
      room = omega (arith, v.room, same);
      paged =
          λ i o h. ((v.paged i o (was i o h)).0, omega (arith, (v.paged i o (was i o h)).1, same));
      freed =
          slots_more (length pages + length free) (length (insert id off pages) + length free) free
            (omega (arith, same)) v.freed;
      alone = λ i j o h h'. v.alone i j o (was i o h) (was j o h');
      not_free = λ i o h. v.not_free i o (was i o h);
      no_repeat = v.no_repeat;
    }
  where
    again :
        (id off : ℕ) (pages : List (ℕ × ℕ)) (i o : ℕ)
        → get id pages ≡ some off
        → get i (insert id off pages) ≡ some o
        → get i pages ≡ some o
    again id off pages i o at h = elim (get-insert_cases id i off o pages h) [
      | inl (e, eo) ↦ subst (λ x. get x pages ≡ some o) e (at ∙ ap some eo)
      | inr (_, old) ↦ old
    ]
