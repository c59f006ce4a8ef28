-- ===== src/Schema/Evolve/SameType.antt =====
-- reflect.DeepEqual on logical types, as compatibleColumnType of pkg/fgo/schema_resolver.go uses it.
use text.Mathlib.Text.{◌==◌ as str_eq}
use text.Mathlib.TextEquality.{eq_iff}
use fluss_go.Prelude.{Bool, true, false, ◌&&◌, ◌≡◌, refl, ap}
use fluss_go.Schema.Types.{
  LogicalType, logical_type, OptionalType, absent, present, FieldList, no_fields, field,
}
use fluss_go.Schema.Evolve.{
  same_bool, same_int, same_int_iff, same_logical_type, same_optional, same_fields,
}

and_both : (a b : Bool) → a && b ≡ true → (a ≡ true) × (b ≡ true)
and_both true b h = (refl, h)
and_both false b h = cc

same_bool_eq : (a b : Bool) → same_bool a b ≡ true → a ≡ b
same_bool_eq true true h = refl
same_bool_eq true false h = cc
same_bool_eq false true h = cc
same_bool_eq false false h = refl

mutual
  unfolding same_logical_type

  pub same_logical_type_eq : (t u : LogicalType) → same_logical_type t u ≡ true → t ≡ u
  same_logical_type_eq (logical_type r n l p s e k v f) (logical_type r' n' l' p' s' e' k' v' f')
        h =
      let (hr, h1) = and_both (str_eq r r') _ h in
      let (hn, h2) = and_both (same_bool n n') _ h1 in
      let (hl, h3) = and_both (same_int l l') _ h2 in
      let (hp, h4) = and_both (same_int p p') _ h3 in
      let (hs, h5) = and_both (same_int s s') _ h4 in
      let (he, h6) = and_both (same_optional e e') _ h5 in
      let (hk, h7) = and_both (same_optional k k') _ h6 in
      let (hv, hf) = and_both (same_optional v v') (same_fields f f') h7 in
      let er = (eq_iff r r').0 hr in
      let en = same_bool_eq n n' hn in
      let el = (same_int_iff l l').0 hl in
      let ep = (same_int_iff p p').0 hp in
      let es = (same_int_iff s s').0 hs in
      let ee = same_optional_eq e e' he in
      let ek = same_optional_eq k k' hk in
      let ev = same_optional_eq v v' hv in
      let ef = same_fields_eq f f' hf in rw (er, en, el, ep, es, ee, ek, ev, ef) refl

  same_optional_eq : (t u : OptionalType) → same_optional t u ≡ true → t ≡ u
  same_optional_eq absent absent h = refl
  same_optional_eq absent (present u) h = cc
  same_optional_eq (present t) absent h = cc
  same_optional_eq (present t) (present u) h = ap present (same_logical_type_eq t u h)

  same_fields_eq : (f g : FieldList) → same_fields f g ≡ true → f ≡ g
  same_fields_eq no_fields no_fields h = refl
  same_fields_eq no_fields (field n t d i r) h = cc
  same_fields_eq (field n t d i r) no_fields h = cc
  same_fields_eq (field n t d i r) (field n' t' d' i' r') h =
      let (hn, h1) = and_both (str_eq n n') _ h in
      let (ht, h2) = and_both (same_logical_type t t') _ h1 in
      let (hd, h3) = and_both (str_eq d d') _ h2 in
      let (hi, hr) = and_both (same_int i i') (same_fields r r') h3 in
      let en = (eq_iff n n').0 hn in
      let et = same_logical_type_eq t t' ht in
      let ed = (eq_iff d d').0 hd in
      let ei = (same_int_iff i i').0 hi in
      let er = same_fields_eq r r' hr in rw (en, et, ed, ei, er) refl
