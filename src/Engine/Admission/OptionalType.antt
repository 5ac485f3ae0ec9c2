-- ===== src/Engine/Admission/OptionalType.antt =====
-- Which type references are optional: crates/service-engine/src/lib.rs, `outer_optional_type`.
use Prim.Native.String.{[], ◌∷◌, ◌++◌}
use text.Mathlib.Text.{starts_with}
use text.Mathlib.TextEquality.{starts_with_iff}
use text.Mathlib.TextLemmas.{nil-append, cons-append}
use service_sdk.Base.{
  String, true, ◌≡◌, ◌≢◌, ◌↔◌, refl, sym, ap, ◌∙◌, some, ◌==◌, eq_iff, bind_option, Bool-cases,
  Option-cases, inl, inr, arith,
}
use service_sdk.Base.Text.{strip_prefix}
use service_sdk.Base.Text.Split.{strip_prefix-append}
use service_sdk.Engine.Admission.{strip_suffix, is_inner, outer_optional_type}

strip_suffix-inv : (s t : String) → strip_suffix ">" s ≡ some t → s ≡ t ++ ">"
unfolding strip_suffix
strip_suffix-inv [] t h = cc
strip_suffix-inv (c ∷ []) t h = elim (Bool-cases ((c ∷ "") == ">")) [
  | inl same ↦
      let none_left : "" ≡ t = ground (arith, rw same at h) in
      (eq_iff (c ∷ "") ">").0 same ∙ sym (nil-append ">") ∙ ap (λ u. u ++ ">") none_left
  | inr other ↦ cc (rw other at h)
]
strip_suffix-inv (c ∷ (d ∷ s)) t h = elim (Option-cases (strip_suffix ">" (d ∷ s))) [
  | inl nothing ↦ cc (rw nothing at h)
  | inr (u, e) ↦
      let same : (c ∷ u) ≡ t = ground (arith, rw e at h) in
      ap (λ v. c ∷ v) (strip_suffix-inv (d ∷ s) u e)
      ∙ sym (cons-append c u ">")
      ∙ ap (λ v. v ++ ">") same
]

strip_suffix-append : (t : String) → strip_suffix ">" (t ++ ">") ≡ some t
unfolding strip_suffix
strip_suffix-append [] = refl
strip_suffix-append (c ∷ []) = rw (cons-append c [] ">") refl
strip_suffix-append (c ∷ (d ∷ t)) =
    let rest = rw (cons-append d t ">") at (strip_suffix-append (d ∷ t)) in
    rw (cons-append c (d ∷ t) ">", cons-append d t ">", rest) refl

inner_of :
    (v : String)
    → is_inner (strip_suffix ">" v) ≡ true
    → (inner : String) × (v ≡ inner ++ ">") × (inner ≢ "")
inner_of v h = elim (Option-cases (strip_suffix ">" v)) [
  | inl nothing ↦ cc (rw nothing at h)
  | inr (inner, e) ↦ (
    inner,
    strip_suffix-inv v inner e,
    λ no_text.
        let same = (eq_iff inner "").1 no_text in
        let other = rw e at h in absurd (ground (arith, same, other)),
  )
]

-- A type reference is optional exactly if it reads `Optional<`, a text that is not empty, `>`.
pub outer_optional_type_iff :
    (type_ref : String)
    → (outer_optional_type type_ref ≡ true)
      ↔ ((inner : String) × (type_ref ≡ "Optional<" ++ (inner ++ ">")) × (inner ≢ ""))
unfolding outer_optional_type
outer_optional_type_iff type_ref = (
  λ h. elim (Bool-cases (starts_with type_ref "Optional<")) [
    | inr other ↦ cc (rw other at h)
    | inl own ↦
        let (v, e) = (starts_with_iff type_ref "Optional<").0 own in
        let cut : strip_prefix "Optional<" type_ref ≡ some v =
          ap (λ t. strip_prefix "Optional<" t) (sym e) ∙ strip_prefix-append "Optional<" v in
        let (inner, e', some_inner) =
          inner_of v (ap (λ o. is_inner (bind_option o (λ t. strip_suffix ">" t))) (sym cut) ∙ h) in
        (inner, sym e ∙ ap (λ t. "Optional<" ++ t) e', some_inner)
  ],
  λ (inner, e, some_inner).
      let cut : strip_prefix "Optional<" type_ref ≡ some (inner ++ ">") =
        ap (λ t. strip_prefix "Optional<" t) e ∙ strip_prefix-append "Optional<" (inner ++ ">") in
      ap (λ o. is_inner (bind_option o (λ t. strip_suffix ">" t))) cut
      ∙ ap is_inner (strip_suffix-append inner)
      ∙ ground (arith, eq_iff inner "", some_inner),
)
