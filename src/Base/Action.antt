-- ===== src/Base/Action.antt =====
-- Operations that read and write a state and may fail; what was written before a failure stays.
use mathlib.Core.Path.{◌≡◌, refl, ap, ◌∙◌}
use mathlib.Core.Bool.{Bool, true, false}
use mathlib.Core.Option.{Option, none, some}
use native.Mathlib.Omega.{arith}
use service_sdk.Base.Tests.{if◌then◌else◌}
use service_sdk.Base.Result.{Result, ok, err, ok_or}

abbrev pub Action : Type 0 → Type 0 → Type 0 → Type 0
Action W E A = W → Result E A × W

abbrev pub pure : {W E A : Type 0} → A → Action W E A
pure a w = (ok a, w)

abbrev pub fail : {W E A : Type 0} → E → Action W E A
fail e w = (err e, w)

abbrev pub lift : {W E A : Type 0} → Result E A → Action W E A
lift r w = (r, w)

abbrev pub continue : {W E A B : Type 0} → Result E A → (A → Action W E B) → Action W E B
continue (ok a) f w = f a w
continue (err e) f w = (err e, w)

infixl 5 ◌>>=◌ ◌>>◌
abbrev pub ◌>>=◌ : {W E A B : Type 0} → Action W E A → (A → Action W E B) → Action W E B
◌>>=◌ m f w = let (r, w') = m w in continue r f w'

abbrev pub ◌>>◌ : {W E B : Type 0} → Action W E (Unit {0}) → Action W E B → Action W E B
m >> k = m >>= λ _. k

module _ {W E A B : Type 0} where
  pub continue-eq-ok :
      (r : Result E A) (f : A → Action W E B) (w : W) {b : B} {w'' : W}
      → ◌≡◌ {A = Result E B × W} (continue r f w) (ok b, w'')
      → (a : A) × (r ≡ ok a) × ◌≡◌ {A = Result E B × W} (f a w) (ok b, w'')
  continue-eq-ok (ok a) f w h = (a, refl, h)
  continue-eq-ok (err e) f w h = cc

  -- A sequence that succeeds has run both parts.
  pub >>=-eq-ok :
      (m : Action W E A) (f : A → Action W E B) (w : W) {b : B} {w'' : W}
      → ◌≡◌ {A = Result E B × W} ((m >>= f) w) (ok b, w'')
      → (a : A) × ((m w).0 ≡ ok a) × ◌≡◌ {A = Result E B × W} (f a (m w).1) (ok b, w'')
  >>=-eq-ok m f w h = continue-eq-ok (m w).0 f (m w).1 h

  pub lift-eq-ok :
      (r : Result E A) (f : A → Action W E B) (w : W) {b : B} {w'' : W}
      → ◌≡◌ {A = Result E B × W} ((lift r >>= f) w) (ok b, w'')
      → (a : A) × (r ≡ ok a) × ◌≡◌ {A = Result E B × W} (f a w) (ok b, w'')
  lift-eq-ok r f w h = continue-eq-ok r f w h

  pub lift-ok_or-eq-ok :
      (o : Option A) (e : E) (f : A → Action W E B) (w : W) {b : B} {w'' : W}
      → ◌≡◌ {A = Result E B × W} ((lift (ok_or o e) >>= f) w) (ok b, w'')
      → (a : A) × (o ≡ some a) × ◌≡◌ {A = Result E B × W} (f a w) (ok b, w'')
  lift-ok_or-eq-ok none e f w h = cc
  lift-ok_or-eq-ok (some a) e f w h = (a, refl, h)

-- A sequence behind a check that refuses.
pub refuse-eq-ok :
    {W E B : Type 0} (b : Bool) (e : E) (k : Action W E B) (w : W) {x : B} {w'' : W}
    → ◌≡◌ {A = Result E B × W} (((if b then fail e else pure tt) >> k) w) (ok x, w'')
    → (b ≡ false) × ◌≡◌ {A = Result E B × W} (k w) (ok x, w'')
refuse-eq-ok true e k w h = cc
refuse-eq-ok false e k w h = (refl, h)

-- A check that refuses, at the end of a sequence.
pub refuse-ok :
    {W E : Type 0} (b : Bool) (e : E) (w : W) {x : Unit {0}} {w'' : W}
    → ◌≡◌ {A = Result E (Unit {0}) × W} ((if b then fail e else pure tt) w) (ok x, w'')
    → b ≡ false
refuse-ok true e w h = cc
refuse-ok false e w h = refl

pub pure-eq-ok :
    {W E A : Type 0} (a b : A) (w w' : W)
    → ◌≡◌ {A = Result E A × W} (ok a, w) (ok b, w')
    → (a ≡ b) × (w ≡ w')
pure-eq-ok a b w w' h = (ground arith, ground arith)

-- The same inversion with the state between the two parts.
pub step-eq-ok :
    {W E A B : Type 0} (m : Action W E A) (f : A → Action W E B) (w : W) {b : B} {w'' : W}
    → ◌≡◌ {A = Result E B × W} ((m >>= f) w) (ok b, w'')
    → (a : A) × (v : W) × ◌≡◌ {A = Result E A × W} (m w) (ok a, v)
      × ◌≡◌ {A = Result E B × W} (f a v) (ok b, w'')
step-eq-ok m f w h =
    let (a, p, rest) = >>=-eq-ok m f w h in (a, (m w).1, ap (λ r. (r, (m w).1)) p, rest)

-- What a sequence does behind a first part that succeeds.
pub step-ok :
    {W E A B : Type 0} (m : Action W E A) (f : A → Action W E B) (w : W) {a : A} {v : W}
    {end : Result E B × W}
    → ◌≡◌ {A = Result E A × W} (m w) (ok a, v)
    → ◌≡◌ {A = Result E B × W} (f a v) end
    → ◌≡◌ {A = Result E B × W} ((m >>= f) w) end
step-ok m f w h k = ap (λ p. continue p.0 f p.1) h ∙ k

pub lift-ok :
    {W E A B : Type 0} (r : Result E A) (f : A → Action W E B) (w : W) {a : A}
    {end : Result E B × W}
    → r ≡ ok a
    → ◌≡◌ {A = Result E B × W} (f a w) end
    → ◌≡◌ {A = Result E B × W} ((lift r >>= f) w) end
lift-ok r f w h k = ap (λ x. continue x f w) h ∙ k
