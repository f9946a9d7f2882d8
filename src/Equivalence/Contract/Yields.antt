-- ===== src/Equivalence/Contract/Yields.antt =====
-- Postconditions of builds: whatever a build returns satisfies `P`; one that declines or raises
-- satisfies every postcondition.
use coa.Base.{Option, none, some}
use coa.Equivalence.Context.{
  Context, Outcome, built, declined, raised, Failure, Gen, pure, decline, lift, or_raise, resume,
  ◌>>=◌, settle, optional,
}

abbrev pub Post : {A : Type 0} → (A → Type 0) → Outcome A → Type 0
Post P (built a) = P a
Post P declined = Unit
Post P (raised e) = Unit

pub record Yields {A : Type 0} (P : A → Type 0) (m : Gen A) : Type 0 where
  pub at : (c : Context) → Post P (m c).0

abbrev pub IfSome : {A : Type 0} → (A → Type 0) → Option A → Type 0
IfSome P none = Unit
IfSome P (some a) = P a

module _ {A : Type 0} where
  settled :
      (R : A → Type 0) (o : Outcome A) → Post R o → (c : Context) → Post (IfSome R) (settle o c).0
  settled R (built a) h c = h
  settled R declined h c = tt
  settled R (raised e) h c = tt

module _ {A : Type 0} {P : A → Type 0} where
  pub Yields-pure : (a : A) → P a → Yields P (pure a)
  Yields-pure a h = record { at = λ c. h }

  pub Yields-decline : Yields P decline
  Yields-decline = record { at = λ c. tt }

  pub Yields-lift : (o : Option A) → IfSome P o → Yields P (lift o)
  Yields-lift none h = record { at = λ c. tt }
  Yields-lift (some a) h = record { at = λ c. h }

  pub Yields-or_raise : (o : Option A) (f : Failure) → IfSome P o → Yields P (or_raise o f)
  Yields-or_raise none f h = record { at = λ c. tt }
  Yields-or_raise (some a) f h = record { at = λ c. h }

  pub Yields-optional : (m : Gen A) → Yields P m → Yields (IfSome P) (optional m)
  unfolding optional
  Yields-optional m h = record { at = λ c. settled P (m c).0 (h.at c) (m c).1 }

module _ {A : Type 0} where
  anything : (o : Outcome A) → Post {A = A} (λ a. Unit) o
  anything (built a) = tt
  anything declined = tt
  anything (raised e) = tt

  pub Yields-anything : (m : Gen A) → Yields {A = A} (λ a. Unit) m
  Yields-anything m = record { at = λ c. anything (m c).0 }

module _ {A B : Type 0} {P : A → Type 0} {Q : B → Type 0} where
  resumed :
      (o : Outcome A) (f : A → Gen B) (c : Context)
      → Post P o
      → ((a : A) → P a → Yields Q (f a))
      → Post Q (resume o f c).0
  resumed (built a) f c h k = (k a h).at c
  resumed declined f c h k = tt
  resumed (raised e) f c h k = tt

  pub Yields-bind :
      (m : Gen A) (f : A → Gen B)
      → Yields P m
      → ((a : A) → P a → Yields Q (f a))
      → Yields Q (m >>= f)
  unfolding ◌>>=◌
  Yields-bind m f h k = record { at = λ c. resumed (m c).0 f (m c).1 (h.at c) k }

module _ {A B : Type 0} {Q : B → Type 0} where
  -- a step of which nothing is known
  pub Yields-then : (m : Gen A) (f : A → Gen B) → ((a : A) → Yields Q (f a)) → Yields Q (m >>= f)
  Yields-then m f k = Yields-bind m f (Yields-anything m) (λ a _. k a)

module _ {A : Type 0} {P Q : A → Type 0} where
  weakened : (o : Outcome A) → Post P o → ((a : A) → P a → Q a) → Post Q o
  weakened (built a) h k = k a h
  weakened declined h k = tt
  weakened (raised e) h k = tt

  pub Yields-weaken : (m : Gen A) → Yields P m → ((a : A) → P a → Q a) → Yields Q m
  Yields-weaken m h k = record { at = λ c. weakened (m c).0 (h.at c) k }
