-- ===== src/Tuple/Placing.antt =====
-- `Schema::new` of src/catalog/schema.rs: where the columns are, and the bytes behind them.
use oxtub.Base.{
  ℕ, suc, ◌+◌, ◌≡◌, refl, ap, sym, subst, ◌∙◌, inl, inr, true, false, some, List, [], ◌∷◌, length,
  arith, get_elem?, All, Bool-cases,
}
use mathlib.Core.Option.{some-injective}
use oxtub.Tuple.Written.{ColumnInv, extra}
use oxtub.Tuple.Columns.{Placed, extras, RowOf}
use oxtub.Tuple.Defs.{
  Encoding, Column, slot_size, is_inlined, place_columns, new_static, new_variable, types_match,
  uninlined_size,
}
use oxtub.Value.{SqlType, Value, type_eq, sql_type, inline_size, variable_storage_size}

pub place_columns-Placed :
    (i off : ℕ) (cols : List Column)
    → All ColumnInv cols
    → Placed off (place_columns i off cols).columns (place_columns i off cols).inlined_storage_size
place_columns-Placed i off [] ok = refl
place_columns-Placed i off (c ∷ cs) ok = (
  refl,
  record { inlined = ok.0.inlined; variable = ok.0.variable },
  place_columns-Placed (suc i) (off + slot_size c.size) cs ok.1,
)

pub length-place_columns :
    (i off : ℕ) (cols : List Column) → length (place_columns i off cols).columns ≡ length cols
length-place_columns i off [] = refl
length-place_columns i off (c ∷ cs) =
    omega (arith, length-place_columns (suc i) (off + slot_size c.size) cs)

-- `Column::new_static` and `Column::new_variable` make columns of the right size.
pub new_static-ColumnInv :
    (name : List ℕ) (t : SqlType) (c : Column) → new_static name t ≡ some c → ColumnInv c
unfolding new_static inline_size
new_static-ColumnInv name SqlType.boolean c h =
    subst ColumnInv (some-injective _ c h)
      (record { inlined = λ _. refl; variable = λ e. absurd (cc e) })
new_static-ColumnInv name SqlType.small_int c h =
    subst ColumnInv (some-injective _ c h)
      (record { inlined = λ _. refl; variable = λ e. absurd (cc e) })
new_static-ColumnInv name SqlType.integer c h =
    subst ColumnInv (some-injective _ c h)
      (record { inlined = λ _. refl; variable = λ e. absurd (cc e) })
new_static-ColumnInv name SqlType.big_int c h =
    subst ColumnInv (some-injective _ c h)
      (record { inlined = λ _. refl; variable = λ e. absurd (cc e) })
new_static-ColumnInv name SqlType.decimal c h =
    subst ColumnInv (some-injective _ c h)
      (record { inlined = λ _. refl; variable = λ e. absurd (cc e) })
new_static-ColumnInv name SqlType.varchar c h = absurd (cc h)

pub new_variable-ColumnInv :
    (name : List ℕ) (t : SqlType) (n : ℕ) (c : Column)
    → new_variable name t n ≡ some c
    → ColumnInv c
unfolding new_variable
new_variable-ColumnInv name SqlType.varchar n c h =
    subst ColumnInv (some-injective _ c h)
      (record { inlined = λ e. absurd (cc e); variable = λ _. refl })
new_variable-ColumnInv name SqlType.boolean n c h = absurd (cc h)
new_variable-ColumnInv name SqlType.small_int n c h = absurd (cc h)
new_variable-ColumnInv name SqlType.integer n c h = absurd (cc h)
new_variable-ColumnInv name SqlType.big_int n c h = absurd (cc h)
new_variable-ColumnInv name SqlType.decimal n c h = absurd (cc h)

type_eq_refl : (t : SqlType) → type_eq t t ≡ true
type_eq_refl SqlType.boolean = refl
type_eq_refl SqlType.small_int = refl
type_eq_refl SqlType.integer = refl
type_eq_refl SqlType.big_int = refl
type_eq_refl SqlType.decimal = refl
type_eq_refl SqlType.varchar = refl

module _ {D : Type 0} (encoding : Encoding D) where
  extra_inlined : (v : Value D) → is_inlined (sql_type v) ≡ true → extra v ≡ 0
  extra_inlined (Value.boolean b) h = refl
  extra_inlined (Value.small_int i) h = refl
  extra_inlined (Value.integer i) h = refl
  extra_inlined (Value.big_int i) h = refl
  extra_inlined (Value.decimal f) h = refl
  extra_inlined (Value.varchar s) h = absurd (cc h)
  extra_inlined (Value.null t) h = refl

  extra_variable :
      (v : Value D) → is_inlined (sql_type v) ≡ false → variable_storage_size v ≡ some (extra v)
  unfolding variable_storage_size
  extra_variable (Value.boolean b) h = absurd (cc h)
  extra_variable (Value.small_int i) h = absurd (cc h)
  extra_variable (Value.integer i) h = absurd (cc h)
  extra_variable (Value.big_int i) h = absurd (cc h)
  extra_variable (Value.decimal f) h = absurd (cc h)
  extra_variable (Value.varchar s) h = refl
  extra_variable (Value.null t) h = refl

  -- The indices of the variable columns give the bytes behind the slots.
  pub uninlined_size-extras :
      (values vs : List (Value D)) (cols : List Column) (i off : ℕ)
      → RowOf encoding vs cols
      → ((j : ℕ) → get_elem? values (i + j) ≡ get_elem? vs j)
      → uninlined_size values (place_columns i off cols).uninlined_columns ≡ some (extras vs)
  uninlined_size-extras values [] [] i off r at = refl
  uninlined_size-extras values [] (c ∷ cs) i off r at = elim r [ ]
  uninlined_size-extras values (v ∷ vs) [] i off r at = elim r [ ]
  uninlined_size-extras values (v ∷ vs) (c ∷ cs) i off r at =
      let rest = uninlined_size-extras values vs cs (suc i) (off + slot_size c.size) r.2 (λ j.
        ap (get_elem? values) (let e : suc i + j ≡ i + suc j = omega arith in e) ∙ at (suc j)) in
      let here : get_elem? values i ≡ some v =
        ap (get_elem? values) (let e : i ≡ i + 0 = omega arith in e) ∙ at 0 in
      elim (Bool-cases (is_inlined c.sql_type)) [
        | inl e ↦
            let none_extra : extra v ≡ 0 = extra_inlined v (ap is_inlined (sym r.0) ∙ e) in
            let same : extras vs ≡ extra v + extras vs = omega (arith, none_extra) in
            rw e (rest ∙ ap some same)
        | inr e ↦ rw (e, here, extra_variable v (ap is_inlined (sym r.0) ∙ e), rest) refl
      ]

  pub types_match-RowOf :
      (vs : List (Value D)) (cols : List Column) (i off : ℕ)
      → RowOf encoding vs cols
      → types_match vs (place_columns i off cols).columns ≡ true
  types_match-RowOf [] [] i off r = refl
  types_match-RowOf [] (c ∷ cs) i off r = elim r [ ]
  types_match-RowOf (v ∷ vs) [] i off r = elim r [ ]
  types_match-RowOf (v ∷ vs) (c ∷ cs) i off r =
      rw (r.0, type_eq_refl (sql_type v))
        (types_match-RowOf vs cs (suc i) (off + slot_size c.size) r.2)

  pub placed-RowOf :
      (vs : List (Value D)) (cols : List Column) (i off : ℕ)
      → RowOf encoding vs cols
      → RowOf encoding vs (place_columns i off cols).columns
  placed-RowOf [] [] i off r = tt
  placed-RowOf [] (c ∷ cs) i off r = elim r [ ]
  placed-RowOf (v ∷ vs) [] i off r = elim r [ ]
  placed-RowOf (v ∷ vs) (c ∷ cs) i off r =
      (r.0, r.1, placed-RowOf vs cs (suc i) (off + slot_size c.size) r.2)

  pub length-RowOf :
      (vs : List (Value D)) (cols : List Column) → RowOf encoding vs cols → length vs ≡ length cols
  length-RowOf [] [] r = refl
  length-RowOf [] (c ∷ cs) r = elim r [ ]
  length-RowOf (v ∷ vs) [] r = elim r [ ]
  length-RowOf (v ∷ vs) (c ∷ cs) r = omega (arith, length-RowOf vs cs r.2)
