-- ===== src/Control/Cases.antt =====
-- Rules for what holds of a result of the user control.
use chat_pulse.Prelude.{ℕ, ◌≡◌, refl, Bool, true, false, not, Option, none, some}
use mathlib.Core.Path.{subst}
use chat_pulse.Control.{is_owner}
use chat_pulse.Xp.Store.{User}
use chat_pulse.Control.Store.{
  Store, Error, Result, err, ok, ◌>>=◌, ◌>>◌, raise_if, or_raise, require_mutable_target,
}

-- What holds of a result that is not an error.
pub data Ensures {A : Type 0} (P : A → Type 0) : Result A → Type 0 where
  raised : {e : Error} → Ensures P (err e)
  returned : {a : A} → P a → Ensures P (ok a)

pub Ensures-ok : {A : Type 0} {P : A → Type 0} {r : Result A} (a : A) → Ensures P r → r ≡ ok a → P a
Ensures-ok a raised e = absurd (cc)
Ensures-ok {P = P} a (returned h) e = subst P (cc) h

module _ {A : Type 0} {P : A → Type 0} where
  pub Ensures-raise_if :
      (b : Bool) (e : Error) (k : Result A)
      → (b ≡ false → Ensures P k)
      → Ensures P (raise_if b e >> k)
  unfolding ◌>>=◌
  Ensures-raise_if true e k h = raised
  Ensures-raise_if false e k h = h refl

  pub Ensures-bind :
      {B : Type 0} (m : Result B) (k : B → Result A)
      → ((b : B) → m ≡ ok b → Ensures P (k b))
      → Ensures P (m >>= k)
  unfolding ◌>>=◌
  Ensures-bind (err e) k h = raised
  Ensures-bind (ok b) k h = h b refl

  pub Ensures-require :
      (b : Bool) (k : Result A)
      → (b ≡ true → Ensures P k)
      → Ensures P (raise_if (not b) Error.permission_error >> k)
  unfolding ◌>>=◌
  Ensures-require true k h = h refl
  Ensures-require false k h = raised

-- A target that may be changed is not the owner.
guard_passed :
    (o : Option User) (b : Bool) (u : User)
    → (or_raise o Error.lookup_error >>= λ (user : User). raise_if b Error.value_error >> ok user)
      ≡ ok u
    → b ≡ false
unfolding ◌>>=◌
guard_passed none b u e = absurd (cc)
guard_passed (some v) true u e = absurd (cc)
guard_passed (some v) false u e = refl

pub require_mutable_target-safe :
    (s : Store) (target : ℕ) (u : User)
    → require_mutable_target s target ≡ ok u
    → is_owner s.owner target ≡ false
require_mutable_target-safe s target u e =
    guard_passed (s.users target) (is_owner s.owner target) u e
