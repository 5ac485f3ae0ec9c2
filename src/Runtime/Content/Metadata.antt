-- ===== src/Runtime/Content/Metadata.antt =====
-- Which media types are valid: crates/service-runtime/src/content.rs, `MediaType::new`.
use Prim.Native.Char.{Char, code}
use text.Mathlib.TextEquality.{Char-path}
use Prim.Native.String.{[], ◌∷◌, ◌++◌}
use text.Mathlib.TextLemmas.{nil-append, cons-append}
use service_sdk.Base.{
  String, Bool, false, ◌≡◌, ◌≢◌, ◌↔◌, refl, sym, ap, subst, ◌∙◌, Option, none, some, ◌||◌, eqb,
  Bool-cases, Option-cases, inl, inr, arith, if◌then◌else◌,
}
use service_sdk.Base.Text.{is_blank, split_once, onto}
use service_sdk.Base.Text.Split.{Free, split_once-append}
use service_sdk.Base.Result.{Result, ok, err}
use service_sdk.Runtime.Content.{
  has_white, or_empty_parts, has_slash, media_type, invalid_media_type, ContentMetadataError,
}

abbrev Parts : String → String × String → Type 0
Parts s (a, b) = (s ≡ a ++ ("/" ∷ b)) × Free b'/' a

onto-inv :
    (c : Char) (s : String) (o : Option (String × String)) (a b : String)
    → ((p : String × String) → o ≡ some p → Parts s p)
    → code c ≢ b'/'
    → onto c o ≡ some (a, b)
    → Parts (c ∷ s) (a, b)
onto-inv c s none a b rest other h = cc
onto-inv c s (some (a', b')) a b rest other h =
    let (e, f) = rest (a', b') refl in
    let heads : (c ∷ a') ≡ a = cc in
    let tails : b' ≡ b = cc in
    (
      ap (λ t. c ∷ t) e
          ∙ sym (cons-append c a' ("/" ∷ b'))
          ∙ ap (λ t. t ++ ("/" ∷ b')) heads
          ∙ ap (λ t. a ++ ("/" ∷ t)) tails,
      subst (λ t. Free b'/' t) heads (other, f),
    )

-- A split is at the first separator.
split_once-inv : (s : String) (p : String × String) → split_once b'/' s ≡ some p → Parts s p
unfolding split_once
split_once-inv [] (a, b) h = cc
split_once-inv (c ∷ s) (a, b) h = elim (Bool-cases (eqb (code c) b'/')) [
  | inl here ↦ at_head (ground arith) (rw here at h)
  | inr other ↦
      onto-inv c s (split_once b'/' s) a b (split_once-inv s) (ground arith) (rw other at h)
]
  where
    at_head :
        code c ≡ b'/'
        → ◌≡◌ {A = Option (String × String)} (some ("", s)) (some (a, b))
        → Parts (c ∷ s) (a, b)
    at_head code_here e =
        let no_head : "" ≡ a = cc in
        let tails : s ≡ b = cc in
        (
          ap (λ d. d ∷ s) (Char-path c "/" code_here)
              ∙ sym (nil-append ("/" ∷ s))
              ∙ ap (λ t. t ++ ("/" ∷ s)) no_head
              ∙ ap (λ t. a ++ ("/" ∷ t)) tails,
          subst (λ t. Free b'/' t) no_head tt,
        )

onto-none : (c : Char) (o : Option (String × String)) → onto c o ≡ none → o ≡ none
onto-none c none h = refl
onto-none c (some p) h = cc

split_once-Free : (s : String) → split_once b'/' s ≡ none → Free b'/' s
unfolding split_once
split_once-Free [] h = tt
split_once-Free (c ∷ s) h = elim (Bool-cases (eqb (code c) b'/')) [
  | inl here ↦ cc (rw here at h)
  | inr other ↦ (ground arith, split_once-Free s (onto-none c (split_once b'/' s) (rw other at h)))
]

Free-split_once : (s : String) → Free b'/' s → split_once b'/' s ≡ none
unfolding split_once
Free-split_once [] h = refl
Free-split_once (c ∷ s) (h, hs) = rw (Free-split_once s hs) (ground arith)

has_slash-Free : (s : String) → (has_slash (split_once b'/' s) ≡ false) ↔ Free b'/' s
has_slash-Free s = (
  λ h. elim (Option-cases (split_once b'/' s)) [
    | inl nothing ↦ split_once-Free s nothing
    | inr (p, e) ↦ cc (rw e at h)
  ],
  λ free. ap has_slash (Free-split_once s free),
)

-- A part of a media type: not empty, without blanks and slashes.
abbrev Plain : String → Type 0
Plain s = (s ≢ "") × (has_white s ≡ false) × Free b'/' s

-- The code's tests of a part.
abbrev is_odd : String → Bool
is_odd s = is_blank s || has_white s

is_odd_iff : (s : String) → (is_odd s ≡ false) ↔ ((s ≢ "") × (has_white s ≡ false))
unfolding is_blank has_white
is_odd_iff [] = (λ h. cc, λ (h, _). absurd (h refl))
is_odd_iff (c ∷ s) = (λ h. (λ e. cc, ground arith), λ (_, h). ground arith)

-- The test of `media_type` on the parts.
abbrev is_refused : String → String → Bool
is_refused top sub =
    is_blank top
    || is_blank sub
    || has_white top
    || has_white sub
    || has_slash (split_once b'/' sub)

is_refused_iff :
    (top sub : String)
    → (is_refused top sub ≡ false) ↔ ((is_odd top ≡ false) × (is_odd sub ≡ false) × Free b'/' sub)
is_refused_iff top sub = (
  λ h. (ground arith, ground arith, (has_slash-Free sub).0 (ground arith)),
  λ (t, s, f). let slash = (has_slash-Free sub).1 f in ground arith,
)

-- The answer on a value whose parts are known.
abbrev answer : String → String × String → Result ContentMetadataError String
answer value (top, sub) = if is_refused top sub then err (invalid_media_type value) else ok value

media_type-answer :
    (value : String) → media_type value ≡ answer value (or_empty_parts (split_once b'/' value))
unfolding media_type
media_type-answer value = refl

answer-ok :
    (value top sub : String) → (answer value (top, sub) ≡ ok value) ↔ (is_refused top sub ≡ false)
answer-ok value top sub = elim (Bool-cases (is_refused top sub)) [
  | inl refused ↦ (λ h. cc (rw refused at h), λ h. cc (refused, h))
  | inr passed ↦ (λ h. passed, λ h. rw h refl)
]

missing : (value : String) → ¬ (answer value ("", "") ≡ ok value)
unfolding is_blank
missing value h = cc

-- A media type is valid exactly if it is two parts with a slash between them, each of them not empty
-- and without blanks and slashes.
media_type_iff :
    (value : String)
    → (media_type value ≡ ok value)
      ↔ ((top : String) × (sub : String) × (value ≡ top ++ ("/" ∷ sub)) × Plain top × Plain sub)
media_type_iff value = (
  λ h. elim (Option-cases (split_once b'/' value)) [
    | inl nothing ↦
        let a =
          ap (λ o. answer value (or_empty_parts o)) (sym nothing)
          ∙ sym (media_type-answer value)
          ∙ h in
        absurd (missing value a)
    | inr ((top, sub), e) ↦
        let a =
          ap (λ o. answer value (or_empty_parts o)) (sym e) ∙ sym (media_type-answer value) ∙ h in
        let (t, s, sf) = (is_refused_iff top sub).0 ((answer-ok value top sub).0 a) in
        let (te, tw) = (is_odd_iff top).0 t in
        let (se, sw) = (is_odd_iff sub).0 s in
        let (own, tf) = split_once-inv value (top, sub) e in
        (top, sub, own, (te, tw, tf), (se, sw, sf))
  ],
  λ (top, sub, e, (te, tw, tf), (se, sw, sf)).
      let cut = ap (split_once b'/') e ∙ split_once-append b'/' "/" top sub refl tf in
      let passed =
        (is_refused_iff top sub).1 ((is_odd_iff top).1 (te, tw), (is_odd_iff sub).1 (se, sw), sf) in
      media_type-answer value
      ∙ ap (λ o. answer value (or_empty_parts o)) cut
      ∙ (answer-ok value top sub).1 passed,
)
