-- ===== src/Base/Text/Split.antt =====
-- Splitting after a part without the separator, and cutting a text at a length in bytes.
use Prim.Native.Nat.{ℕ}
use Prim.Native.Char.{Char, code}
use Prim.Native.String.{String, [], ◌∷◌, ◌++◌, len, slice}
use mathlib.Core.Option.{some}
use mathlib.Core.Path.{◌≡◌, refl, sym, ap, ◌∙◌}
use mathlib.Core.Logic.{◌≢◌}
use native.Mathlib.Omega.{arith}
use text.Mathlib.TextLemmas.{nil-append, cons-append, append_cancel_left}
use text.Mathlib.TextPositions.{
  slice-append_left, slice-append_right, starts_with-append, len-append,
}
use service_sdk.Base.Text.{split_once, strip_prefix}

-- The character with code `k` does not occur.
abbrev pub Free : ℕ → String → Type 0
Free k [] = Unit
Free k (c ∷ s) = (code c ≢ k) × Free k s

pub split_once-append :
    (k : ℕ) (c : Char) (a r : String)
    → code c ≡ k
    → Free k a
    → split_once k (a ++ (c ∷ r)) ≡ some (a, r)
unfolding split_once
split_once-append k c [] r e h = rw nil-append (ground arith)
split_once-append k c (d ∷ a) r e (h, hs) =
    rw cons-append (ground (arith, split_once-append k c a r e hs))

-- Texts of one length in bytes before two rests are equal when the whole texts are.
pub append_inj_len : (s t u v : String) → len s ≡ len t → s ++ u ≡ t ++ v → (s ≡ t) × (u ≡ v)
append_inj_len s t u v e h =
    let p : s ≡ t =
      sym (slice-append_left s u)
      ∙ ap (λ w. slice w 0 (len s)) h
      ∙ ap (λ n. slice (t ++ v) 0 n) e
      ∙ slice-append_left t v in
    (p, append_cancel_left t u v (rw p at h))

pub strip_prefix-append : (p s : String) → strip_prefix p (p ++ s) ≡ some s
strip_prefix-append p s = rw (starts_with-append p s, len-append p s, slice-append_right p s) refl

pub two_chars : (c d : Char) (rest : String) → (c ∷ (d ∷ [])) ++ rest ≡ c ∷ (d ∷ rest)
two_chars c d rest =
    cons-append c (d ∷ []) rest
    ∙ ap (λ t. c ∷ t) (cons-append d [] rest ∙ ap (λ t. d ∷ t) (nil-append rest))

pub Free-append : (k : ℕ) (a b : String) → Free k a → Free k b → Free k (a ++ b)
Free-append k [] b h f = rw nil-append f
Free-append k (c ∷ a) b (h, hs) f = rw cons-append (h, Free-append k a b hs f)
