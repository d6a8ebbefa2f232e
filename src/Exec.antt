-- ===== src/Exec.antt =====
-- Code that keeps a state and may raise: a step returns or raises, and leaves a state either way.
use shard_net.Base.{Bool, true, false, Option, none, some, ◌≡◌, refl, if◌then◌else◌, arith}
use shard_net.Errors.{Result, ok, raise, Exception}

abbrev pub Exec : Type 0 → Type 0 → Type 0
Exec S A = S → Result A × S

module _ {S : Type 0} where
  abbrev pub after {ℓ} :
      {B : Type ℓ} {A : Type 0} → Result A × S → (A → S → Result B × S) → Result B × S
  after (ok a, s) f = f a s
  after (raise e, s) f = (raise e, s)

  infixl 5 ◌>>=◌ ◌>>◌
  abbrev pub ◌>>=◌ : {A B : Type 0} → Exec S A → (A → Exec S B) → Exec S B
  ◌>>=◌ m f s = after (m s) f

  abbrev pub ◌>>◌ : {A B : Type 0} → Exec S A → Exec S B → Exec S B
  m >> k = m >>= λ _. k

  abbrev pub pure : {A : Type 0} → A → Exec S A
  pure a s = (ok a, s)

  abbrev pub throw : {A : Type 0} → Exception → Exec S A
  throw e s = (raise e, s)

  abbrev pub lift : {A : Type 0} → Result A → Exec S A
  lift r s = (r, s)

  abbrev pub gets : {A : Type 0} → (S → A) → Exec S A
  gets f s = (ok (f s), s)

  abbrev pub modify : (S → S) → Exec S (Unit {0})
  modify f s = (ok tt, f s)

  -- `if test: raise e`.
  abbrev pub throw_if : Bool → Exception → Exec S (Unit {0})
  throw_if true e = throw e
  throw_if false e = pure tt

  -- `if row is None: raise e`.
  abbrev pub or_throw : {A : Type 0} → Option A → Exception → Exec S A
  or_throw none e = throw e
  or_throw (some a) e = pure a

  -- A step that returns has gone through its parts.
  pub after_ok :
      {A B : Type 0} (r : Result A × S) (f : A → Exec S B) {b : B} {s' : S}
      → after r f ≡ (ok b, s')
      → (a : A) × (s1 : S) × (r ≡ (ok a, s1)) × (f a s1 ≡ (ok b, s'))
  after_ok (ok a, s1) f e = (a, s1, refl, e)
  after_ok (raise x, s1) f e = absurd (ground arith)

  -- A step keeps a property of the state, whether it returns or raises.
  abbrev pub Keeps {ℓ} : (S → Type ℓ) → {A : Type 0} → Exec S A → Type ℓ
  Keeps P act = (s : S) → P s → P (act s).1

  module _ {ℓ} (P : S → Type ℓ) where
    after-Keeps :
        {A B : Type 0} (r : Result A × S) (f : A → Exec S B)
        → P r.1
        → ((a : A) → Keeps P (f a))
        → P (after r f).1
    after-Keeps (ok a, s) f p k = k a s p
    after-Keeps (raise e, s) f p k = p

    pub >>=-Keeps :
        {A B : Type 0} (m : Exec S A) (f : A → Exec S B)
        → Keeps P m
        → ((a : A) → Keeps P (f a))
        → Keeps P (m >>= f)
    >>=-Keeps m f h k s p = after-Keeps (m s) f (h s p) k

    pub or_throw-Keeps : {A : Type 0} (o : Option A) (e : Exception) → Keeps P (or_throw o e)
    or_throw-Keeps none e s p = p
    or_throw-Keeps (some a) e s p = p

    pub if-Keeps :
        {A : Type 0} (test : Bool) (m k : Exec S A)
        → Keeps P m
        → Keeps P k
        → Keeps P (if test then m else k)
    if-Keeps true m k h h' s p = h s p
    if-Keeps false m k h h' s p = h' s p
