-- ===== src/Equivalence/Contract/Steady.antt =====
-- Builds that come back at the depth at which they began and never ask for more fuel than there is.
use coa.Base.{ℕ, Bool, true, false, if◌then◌else◌, Option, none, some, ◌≡◌}
use coa.Base.Text.{Text}
use coa.Equivalence.Context.{
  Context, Outcome, built, declined, raised, Failure, merge_refused, out_of_fuel, Gen, pure,
  decline, raise, lift, or_raise, resume, ◌>>=◌, settle, optional, draw_number, generate_name, mint,
  note_origin, Environment,
}

abbrev pub Fuelled : Failure → Type 0
Fuelled out_of_fuel = ⊥
Fuelled _ = Unit

abbrev pub NoFuelError : {A : Type 0} → Outcome A → Type 0
NoFuelError (raised e) = Fuelled e
NoFuelError _ = Unit

-- what a step at a depth leaves behind
pub record Leaves {A : Type 0} (d : ℕ) (x : Outcome A × Context) : Type 0 where
  pub fuelled : NoFuelError x.0
  pub depth : x.1.depth ≡ d

pub record Steady {A : Type 0} (d : ℕ) (m : Gen A) : Type 0 where
  pub at : (c : Context) → c.depth ≡ d → Leaves d (m c)

module _ {d : ℕ} where
  pub Steady-pure : {A : Type 0} (a : A) → Steady d (pure a)
  Steady-pure a = record { at = λ c e. record { fuelled = tt; depth = e } }

  pub Steady-decline : {A : Type 0} → Steady {A = A} d decline
  Steady-decline = record { at = λ c e. record { fuelled = tt; depth = e } }

  pub Steady-raise : {A : Type 0} (f : Failure) → Fuelled f → Steady {A = A} d (raise f)
  Steady-raise f h = record { at = λ c e. record { fuelled = h; depth = e } }

  pub Steady-lift : {A : Type 0} (o : Option A) → Steady d (lift o)
  Steady-lift none = Steady-decline
  Steady-lift (some a) = Steady-pure a

  pub Steady-or_raise : {A : Type 0} (o : Option A) → Steady d (or_raise o merge_refused)
  Steady-or_raise none = Steady-raise merge_refused tt
  Steady-or_raise (some a) = Steady-pure a

  resumed :
      {A B : Type 0} (o : Outcome A) (f : A → Gen B) (c : Context)
      → Leaves d (o, c)
      → ((a : A) → Steady d (f a))
      → Leaves d (resume o f c)
  resumed (built a) f c h k = (k a).at c h.depth
  resumed declined f c h k = record { fuelled = tt; depth = h.depth }
  resumed (raised e) f c h k = record { fuelled = h.fuelled; depth = h.depth }

  pub Steady-bind :
      {A B : Type 0} (m : Gen A) (f : A → Gen B)
      → Steady d m
      → ((a : A) → Steady d (f a))
      → Steady d (m >>= f)
  unfolding ◌>>=◌
  Steady-bind m f h k = record {
    at = λ c e.
        resumed (m c).0 f (m c).1
          (record { fuelled = (h.at c e).fuelled; depth = (h.at c e).depth }) k;
  }

  settled : {A : Type 0} (o : Outcome A) (c : Context) → Leaves d (o, c) → Leaves d (settle o c)
  settled (built a) c h = record { fuelled = tt; depth = h.depth }
  settled declined c h = record { fuelled = tt; depth = h.depth }
  settled (raised e) c h = record { fuelled = h.fuelled; depth = h.depth }

  pub Steady-optional : {A : Type 0} (m : Gen A) → Steady d m → Steady d (optional m)
  unfolding optional
  Steady-optional m h = record {
    at = λ c e.
        settled (m c).0 (m c).1 (record { fuelled = (h.at c e).fuelled; depth = (h.at c e).depth });
  }

  pub Steady-draw_number : (env : Environment) → Steady d (draw_number env)
  unfolding draw_number
  Steady-draw_number env = record { at = λ c e. record { fuelled = tt; depth = e } }

  pub Steady-generate_name : (prefix : Text) → Steady d (generate_name prefix)
  unfolding generate_name
  Steady-generate_name prefix = record { at = λ c e. record { fuelled = tt; depth = e } }

  pub Steady-mint : (env : Environment) (kind : Text) → Steady d (mint env kind)
  unfolding mint
  Steady-mint env kind = Steady-generate_name _

  pub Steady-note_origin : (name : Text) → Steady d (note_origin name)
  unfolding note_origin
  Steady-note_origin name = record { at = λ c e. record { fuelled = tt; depth = e } }

  pub Steady-if :
      {A : Type 0} (b : Bool) (m n : Gen A)
      → Steady d m
      → Steady d n
      → Steady d (if b then m else n)
  Steady-if true m n h k = h
  Steady-if false m n h k = k

pub ruleset steady = (
  Steady-pure, Steady-decline, Steady-lift, Steady-or_raise, Steady-bind, Steady-optional,
  Steady-draw_number, Steady-generate_name, Steady-mint, Steady-note_origin, Steady-if,
)
