-- ===== src/BTree/Leaf/Tombs.antt =====
-- The bookkeeping of tombstones in src/storage/page/b_tree_leaf_page.rs: which slots are marked after
-- slots have moved.
use oxtub.Base.{
  ℕ, zero, suc, ◌+◌, ◌≤◌, ◌<◌, ◌≡◌, refl, ap, sym, ◌≢◌, ◌∙◌, subst, true, false, List, [], ◌∷◌,
  ◌++◌, ◌==◌, if◌then◌else◌, length, take, drop, All, arith, get_elem?, some,
}
use native.Mathlib.Nat.{add-zero}
use oxtub.BTree.Keys.{Entry}
use oxtub.BTree.Leaf.Defs.{
  insert_nth, remove_nth, contains, shift_up, shift_down, without, below, add_to_all, live_from,
}

pub contains-shift_up_lt :
    (j k : ℕ) (ts : List ℕ) → j < k → contains j (shift_up k ts) ≡ contains j ts
contains-shift_up_lt j k [] h = refl
contains-shift_up_lt j k (t ∷ ts) h = ground (arith, contains-shift_up_lt j k ts h)

pub contains-shift_up_self : (k : ℕ) (ts : List ℕ) → contains k (shift_up k ts) ≡ false
contains-shift_up_self k [] = refl
contains-shift_up_self k (t ∷ ts) = ground (arith, contains-shift_up_self k ts)

pub contains-shift_up-suc :
    (j k : ℕ) (ts : List ℕ) → k ≤ j → contains (suc j) (shift_up k ts) ≡ contains j ts
contains-shift_up-suc j k [] h = refl
contains-shift_up-suc j k (t ∷ ts) h = ground (arith, contains-shift_up-suc j k ts h)

pub contains-shift_down_lt :
    (j k : ℕ) (ts : List ℕ) → j < k → contains j (shift_down k ts) ≡ contains j ts
contains-shift_down_lt j k [] h = refl
contains-shift_down_lt j k (t ∷ ts) h = ground (arith, contains-shift_down_lt j k ts h)

pub contains-shift_down_ge :
    (j k : ℕ) (ts : List ℕ) → k ≤ j → contains j (shift_down k ts) ≡ contains (suc j) ts
contains-shift_down_ge j k [] h = refl
contains-shift_down_ge j k (t ∷ ts) h = ground (arith, contains-shift_down_ge j k ts h)

pub contains-without :
    (j k : ℕ) (ts : List ℕ) → contains j (without k ts) ≡ (if j == k then false else contains j ts)
contains-without j k [] = ground arith
contains-without j k (t ∷ ts) = ground (arith, contains-without j k ts)

pub contains-below : (j k : ℕ) (ts : List ℕ) → j < k → contains j (below k ts) ≡ contains j ts
contains-below j k [] h = refl
contains-below j k (t ∷ ts) h = ground (arith, contains-below j k ts h)

pub contains-append :
    (j : ℕ) (ss ts : List ℕ)
    → contains j (ss ++ ts) ≡ (if contains j ss then true else contains j ts)
contains-append j [] ts = refl
contains-append j (s ∷ ss) ts = ground (arith, contains-append j ss ts)

pub contains-add_to_all_lt : (j n : ℕ) (ts : List ℕ) → j < n → contains j (add_to_all n ts) ≡ false
contains-add_to_all_lt j n [] h = refl
contains-add_to_all_lt j n (t ∷ ts) h = ground (arith, contains-add_to_all_lt j n ts h)

pub contains-add_to_all :
    (j n : ℕ) (ts : List ℕ) → contains (n + j) (add_to_all n ts) ≡ contains j ts
contains-add_to_all j n [] = refl
contains-add_to_all j n (t ∷ ts) = ground (arith, contains-add_to_all j n ts)

pub contains_above : (j n : ℕ) (ts : List ℕ) → All (λ t. t < n) ts → n ≤ j → contains j ts ≡ false
contains_above j n [] a h = refl
contains_above j n (t ∷ ts) a h = ground (arith, contains_above j n ts a.1 h)

module _ {K : Type 0} where
  pub insert_nth-split :
      (i : ℕ) (e : Entry K) (es : List (Entry K))
      → i ≤ length es
      → insert_nth i e es ≡ take i es ++ e ∷ drop i es
  insert_nth-split zero e es h = refl
  insert_nth-split (suc i) e [] h = absurd (omega arith)
  insert_nth-split (suc i) e (x ∷ es) h = ap (◌∷◌ x) (insert_nth-split i e es (omega arith))

  pub remove_nth-split :
      (i : ℕ) (es : List (Entry K)) → remove_nth i es ≡ take i es ++ drop (suc i) es
  remove_nth-split zero [] = refl
  remove_nth-split (suc i) [] = refl
  remove_nth-split zero (x ∷ es) = refl
  remove_nth-split (suc i) (x ∷ es) = ap (◌∷◌ x) (remove_nth-split i es)

  pub take-drop : (i : ℕ) (es : List (Entry K)) → take i es ++ drop i es ≡ es
  take-drop zero es = refl
  take-drop (suc i) [] = refl
  take-drop (suc i) (x ∷ es) = ap (◌∷◌ x) (take-drop i es)

  pub length-take : (i : ℕ) (es : List (Entry K)) → i ≤ length es → length (take i es) ≡ i
  length-take zero es h = refl
  length-take (suc i) [] h = absurd (omega arith)
  length-take (suc i) (x ∷ es) h = omega (arith, length-take i es (omega arith))

  -- Only the marks on the list's own slots count.
  pub live_from_ext :
      (i i' : ℕ) (ts ts' : List ℕ) (es : List (Entry K))
      → ((d : ℕ) → d < length es → contains (i + d) ts ≡ contains (i' + d) ts')
      → live_from i ts es ≡ live_from i' ts' es
  live_from_ext i i' ts ts' [] h = refl
  live_from_ext i i' ts ts' (e ∷ es) h =
      let here : contains i ts ≡ contains i' ts' =
        subst (λ x. contains x ts ≡ contains i' ts') (omega arith)
          (subst (λ x. contains (i + 0) ts ≡ contains x ts') (omega arith) (h 0 (omega arith))) in
      let rest = live_from_ext (suc i) (suc i') ts ts' es (λ d less.
        subst (λ x. contains x ts ≡ contains (suc i' + d) ts') {x = i + suc d} (omega arith)
          (subst (λ x. contains (i + suc d) ts ≡ contains x ts') {x = i' + suc d} (omega arith)
            (h (suc d) (omega arith)))) in
      ground (arith, here, rest)

  pub live_from-append :
      (i : ℕ) (ts : List ℕ) (xs ys : List (Entry K))
      → live_from i ts (xs ++ ys) ≡ live_from i ts xs ++ live_from (i + length xs) ts ys
  live_from-append i ts [] ys = rw add-zero
  live_from-append i ts (x ∷ xs) ys =
      let shift : i + suc (length xs) ≡ suc i + length xs = omega arith in
      rw shift (ground (arith, live_from-append (suc i) ts xs ys))

  pub live_from_none : (i : ℕ) (es : List (Entry K)) → live_from i [] es ≡ es
  live_from_none i [] = refl
  live_from_none i (e ∷ es) = ap (◌∷◌ e) (live_from_none (suc i) es)

  pub drop-slot :
      (i : ℕ) (es : List (Entry K)) (e : Entry K)
      → get_elem? es i ≡ some e
      → drop i es ≡ e ∷ drop (suc i) es
  drop-slot i [] e h = cc
  drop-slot zero (x ∷ es) e h = ground arith
  drop-slot (suc i) (x ∷ es) e h = drop-slot i es e h

  pub slot_lt :
      (i : ℕ) (es : List (Entry K)) (e : Entry K) → get_elem? es i ≡ some e → i < length es
  slot_lt i [] e h = cc
  slot_lt zero (x ∷ es) e h = omega arith
  slot_lt (suc i) (x ∷ es) e h = omega (arith, slot_lt i es e h)

  -- The slots before `idx` keep their marks if the tombstones below `idx` do.
  pub before_ext :
      (idx : ℕ) (ts ts' : List ℕ) (es : List (Entry K))
      → idx ≤ length es
      → ((j : ℕ) → j < idx → contains j ts ≡ contains j ts')
      → live_from 0 ts (take idx es) ≡ live_from 0 ts' (take idx es)
  before_ext idx ts ts' es h same =
      live_from_ext 0 0 ts ts' (take idx es)
        λ d less. same (0 + d) (omega (arith, length-take idx es h))

  -- The slots from `i` on, and those from `i'` on under other tombstones.
  pub after_ext :
      (i i' : ℕ) (ts ts' : List ℕ) (es : List (Entry K))
      → ((d : ℕ) → contains (i + d) ts ≡ contains (i' + d) ts')
      → live_from i ts es ≡ live_from i' ts' es
  after_ext i i' ts ts' es same = live_from_ext i i' ts ts' es (λ d _. same d)

  -- Cut at `idx`.
  pub live_from-cut :
      (idx : ℕ) (ts : List ℕ) (es ys : List (Entry K))
      → idx ≤ length es
      → live_from 0 ts (take idx es ++ ys) ≡ live_from 0 ts (take idx es) ++ live_from idx ts ys
  live_from-cut idx ts es ys h =
      live_from-append 0 ts (take idx es) ys
      ∙ ap (λ n. live_from 0 ts (take idx es) ++ live_from n ts ys)
          (omega (arith, length-take idx es h))

  pub live_from-insert_nth :
      (idx : ℕ) (ts : List ℕ) (e : Entry K) (es : List (Entry K))
      → idx ≤ length es
      → live_from 0 (shift_up idx ts) (insert_nth idx e es)
        ≡ live_from 0 ts (take idx es) ++ e ∷ live_from idx ts (drop idx es)
  live_from-insert_nth idx ts e es h =
      rw (insert_nth-split idx e es h, live_from-cut idx (shift_up idx ts) es (e ∷ drop idx es) h)
        (rw (contains-shift_up_self idx ts) (
          rw (
            before_ext idx (shift_up idx ts) ts es h (λ j less. contains-shift_up_lt j idx ts less),
            after_ext (suc idx) idx (shift_up idx ts) ts (drop idx es) (λ d.
                subst (λ x. contains x (shift_up idx ts) ≡ contains (idx + d) ts)
                  {x = suc (idx + d)} (omega arith)
                  (contains-shift_up-suc (idx + d) idx ts (omega arith))),
          )))

  pub live_from-remove_nth :
      (idx : ℕ) (ts : List ℕ) (es : List (Entry K))
      → idx ≤ length es
      → live_from 0 (shift_down idx ts) (remove_nth idx es)
        ≡ live_from 0 ts (take idx es) ++ live_from (suc idx) ts (drop (suc idx) es)
  live_from-remove_nth idx ts es h = rw (
    remove_nth-split idx es,
    live_from-cut idx (shift_down idx ts) es (drop (suc idx) es) h,
    before_ext idx (shift_down idx ts) ts es h (λ j less. contains-shift_down_lt j idx ts less),
    after_ext idx (suc idx) (shift_down idx ts) ts (drop (suc idx) es) (λ d.
        subst (λ x. contains (idx + d) (shift_down idx ts) ≡ contains x ts) {x = suc (idx + d)}
          (omega arith) (contains-shift_down_ge (idx + d) idx ts (omega arith))),
  )

  -- The entry at `idx` is live, or has a tombstone.
  pub live_from-slot :
      (idx : ℕ) (ts : List ℕ) (es : List (Entry K)) (e : Entry K)
      → get_elem? es idx ≡ some e
      → live_from idx ts (drop idx es) ≡ (
          if contains idx ts
          then live_from (suc idx) ts (drop (suc idx) es)
          else e ∷ live_from (suc idx) ts (drop (suc idx) es))
  live_from-slot idx ts es e h = ap (live_from idx ts) (drop-slot idx es e h)

  -- Other tombstones that agree off slot `idx`.
  pub live_from-around :
      (idx : ℕ) (ts ts' : List ℕ) (es : List (Entry K)) (e : Entry K)
      → get_elem? es idx ≡ some e
      → ((j : ℕ) → j ≢ idx → contains j ts' ≡ contains j ts)
      → live_from 0 ts' es
        ≡ live_from 0 ts (take idx es)
          ++ (if contains idx ts'
              then live_from (suc idx) ts (drop (suc idx) es)
              else e ∷ live_from (suc idx) ts (drop (suc idx) es))
  live_from-around idx ts ts' es e at same =
      let h = slot_lt idx es e at in
      ap (live_from 0 ts') (sym (take-drop idx es))
      ∙ live_from-cut idx ts' es (drop idx es) (omega arith)
      ∙ rw (
        live_from-slot idx ts' es e at,
        before_ext idx ts' ts es (omega arith) (λ j less. same j (omega arith)),
        after_ext (suc idx) (suc idx) ts' ts (drop (suc idx) es)
            (λ d. same (suc idx + d) (omega arith)),
      )

  pub get_elem?_of_lt :
      (i : ℕ) (es : List (Entry K)) → i < length es → (e : Entry K) × (get_elem? es i ≡ some e)
  get_elem?_of_lt i [] h = absurd (omega arith)
  get_elem?_of_lt zero (x ∷ es) h = (x, refl)
  get_elem?_of_lt (suc i) (x ∷ es) h = get_elem?_of_lt i es (omega arith)
