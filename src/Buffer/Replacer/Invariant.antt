-- ===== src/Buffer/Replacer/Invariant.antt =====
-- What every call of src/buffer/replacer/lru_k_replacer.rs keeps.
use oxtub.Base.{
  ℕ, zero, suc, ◌≤◌, ◌<◌, ◌≡◌, refl, sym, subst, ◌≢◌, inl, inr, some, List, [], ◌∷◌, length, arith,
  Has, All, ◌∙◌,
}
use oxtub.Base.Assoc.{
  get, insert, Distinct, get-insert_cases, get-remove_cases, insert-Distinct, remove-Distinct,
}
use oxtub.Base.Assoc
use oxtub.Buffer.Replacer.Count.{count}
use oxtub.Buffer.Replacer.Defs.{LruKNode, LruKReplacer, new}

-- One node: some access and at most `k` of them, none later than now.
pub record NodeInv (k now : ℕ) (n : LruKNode) : Type 0 where
  pub used : 1 ≤ length n.history
  pub bounded : length n.history ≤ k
  pub past : All (λ t. t ≤ now) n.history

pub record Inv (r : LruKReplacer) : Type 0 where
  pub k_pos : 1 ≤ r.k
  pub distinct : Distinct r.nodes
  pub frame : (f : ℕ) (n : LruKNode) → get f r.nodes ≡ some n → f < r.replacer_size
  pub node : (f : ℕ) (n : LruKNode) → get f r.nodes ≡ some n → NodeInv r.k r.current_timestamp n
  -- no two frames share a timestamp
  pub apart :
      (f g : ℕ) (n m : LruKNode) (t : ℕ)
      → f ≢ g
      → get f r.nodes ≡ some n
      → get g r.nodes ≡ some m
      → Has t n.history
      → Has t m.history
      → ⊥
  pub counted : r.curr_size ≡ count r.nodes

pub new-Inv : (num_frames k : ℕ) (r : LruKReplacer) → new num_frames k ≡ some r → Inv r
unfolding new
new-Inv num_frames zero r h = cc
new-Inv num_frames (suc k) r h =
    let e : record {
      nodes = [];
      current_timestamp = 0;
      curr_size = 0;
      replacer_size = num_frames;
      k = suc k;
    }
        ≡ r =
      ground arith in
    subst Inv e (record {
      k_pos = omega arith;
      distinct = tt;
      frame = λ f n p. absurd (cc p);
      node = λ f n p. absurd (cc p);
      apart = λ f g n m t ne p q a b. absurd (cc p);
      counted = refl;
    })

pub past_mono : (s t : ℕ) (xs : List ℕ) → s ≤ t → All (λ x. x ≤ s) xs → All (λ x. x ≤ t) xs
past_mono s t [] h a = tt
past_mono s t (x ∷ xs) h a = (omega arith, past_mono s t xs h a.1)

-- A frame's node is written.
module _ (r : LruKReplacer) (v : Inv r) (f : ℕ) (n' : LruKNode) (now size : ℕ)
    (in_range : f < r.replacer_size) (later : r.current_timestamp ≤ now) (good : NodeInv r.k now n')
    (own : (g : ℕ) (m : LruKNode) (t : ℕ)
      → f ≢ g
      → get g r.nodes ≡ some m
      → Has t n'.history
      → Has t m.history
      → ⊥)
    (counts : size ≡ count (insert f n' r.nodes)) where
  put_node-frame :
      (g : ℕ) (m : LruKNode) → get g (insert f n' r.nodes) ≡ some m → g < r.replacer_size
  put_node-frame g m h = elim (get-insert_cases f g n' m r.nodes h) [
    | inl (e, _) ↦ subst (λ x. x < r.replacer_size) e in_range
    | inr (_, old) ↦ v.frame g m old
  ]

  put_node-NodeInv :
      (g : ℕ) (m : LruKNode) → get g (insert f n' r.nodes) ≡ some m → NodeInv r.k now m
  put_node-NodeInv g m h = elim (get-insert_cases f g n' m r.nodes h) [
    | inl (_, e) ↦ subst (NodeInv r.k now) e good
    | inr (_, old) ↦
        let w = v.node g m old in
        record {
          used = w.used;
          bounded = w.bounded;
          past = past_mono r.current_timestamp now m.history later w.past;
        }
  ]

  put_node-apart :
      (g j : ℕ) (n m : LruKNode) (t : ℕ)
      → g ≢ j
      → get g (insert f n' r.nodes) ≡ some n
      → get j (insert f n' r.nodes) ≡ some m
      → Has t n.history
      → Has t m.history
      → ⊥
  put_node-apart g j n m t ne p q a b = elim (get-insert_cases f g n' n r.nodes p) [
    | inl (e, e') ↦ elim (get-insert_cases f j n' m r.nodes q) [
      | inl (d, _) ↦ ne (sym e ∙ d)
      | inr (d, old) ↦ own j m t d old (subst (λ (x : LruKNode). Has t x.history) (sym e') a) b
    ]
    | inr (e, old) ↦ elim (get-insert_cases f j n' m r.nodes q) [
      | inl (_, d') ↦ own g n t e old (subst (λ (x : LruKNode). Has t x.history) (sym d') b) a
      | inr (_, old') ↦ v.apart g j n m t ne old old' a b
    ]
  ]

  pub put_node-Inv :
      Inv (record r { nodes = insert f n' r.nodes; current_timestamp = now; curr_size = size })
  put_node-Inv = record {
    k_pos = v.k_pos;
    distinct = insert-Distinct f n' r.nodes v.distinct;
    frame = put_node-frame;
    node = put_node-NodeInv;
    apart = put_node-apart;
    counted = counts;
  }

-- A frame's node is dropped.
module _ (r : LruKReplacer) (v : Inv r) (f size : ℕ)
    (counts : size ≡ count (Assoc.remove f r.nodes)) where
  drop_node-old :
      (g : ℕ) (m : LruKNode) → get g (Assoc.remove f r.nodes) ≡ some m → get g r.nodes ≡ some m
  drop_node-old g m h = (get-remove_cases f g m r.nodes v.distinct h).1

  pub drop_node-Inv : Inv (record r { nodes = Assoc.remove f r.nodes; curr_size = size })
  drop_node-Inv = record {
    k_pos = v.k_pos;
    distinct = remove-Distinct f r.nodes v.distinct;
    frame = λ g m h. v.frame g m (drop_node-old g m h);
    node = λ g m h. v.node g m (drop_node-old g m h);
    apart = λ g j n m t ne p q a b.
        v.apart g j n m t ne (drop_node-old g n p) (drop_node-old j m q) a b;
    counted = counts;
  }
