-- ===== src/Equivalence/Context.antt =====
-- eqgen/builder/context.py and eqgen/equivalence/context.py: the state of one generation run, and
-- the actions that builders are made of. The random numbers and the clock are streams that the run
-- is given; a run that declines or raises keeps what it had changed.
use coa.Base.{ℕ, ◌+◌, Bool, if◌then◌else◌, Option, none, some, List, [], ◌∷◌, ◌++◌}
use coa.Base.Text.{Text, text_eq}
use coa.Base.Decimal.{str}
use coa.Core.Catalog.{Table}

-- `NameGenerator._object_counters`, a dictionary by prefix
abbrev pub Counters : Type 0
Counters = List (Text × ℕ)

-- `d.get(key, 0)`
unfoldable pub get_count : Text → Counters → ℕ
get_count k [] = 0
get_count k ((j, n) ∷ d) = if text_eq j k then n else get_count k d

-- `d[key] = n`
unfoldable pub set_count : Text → ℕ → Counters → Counters
set_count k n [] = (k, n) ∷ []
set_count k n ((j, m) ∷ d) = if text_eq j k then (j, n) ∷ d else (j, m) ∷ set_count k n d

-- `generate_object_name`: the counters after it, and the name
unfoldable pub generate_object_name : Text → Counters → Counters × Text
generate_object_name prefix counters =
    let count = get_count prefix counters + 1 in
    (set_count prefix count counters, prefix ++ b'_' ∷ str count)

-- What a run is given and does not change: the base table, the plugin that writes predicates (its
-- name, and its answer for a seed), the key strategy that a random number selects, the streams of
-- random numbers and of clock readings past the deadline, and the settings.
pub record Environment : Type 0 where
  pub base_table : Table
  pub predicate_source : Option (Text × (ℕ → Option Text))
  pub is_random_key : ℕ → Bool
  pub draw : ℕ → ℕ
  pub past_deadline : ℕ → Bool
  pub max_depth : ℕ
  pub max_nodes : ℕ
  pub max_attempts : ℕ

pub record Context : Type 0 where
  pub depth : ℕ
  pub node_count : ℕ
  pub nodes_attempted : ℕ
  pub counters : Counters
  pub predicate_origin : Counters
  pub chosen : Counters
  pub draws : ℕ
  pub clock : ℕ

pub data Failure : Type 0 where
  deadline_exceeded constraint_violation merge_refused out_of_fuel : Failure

-- what a build returns: a node, `None`, or an exception
pub data Outcome (A : Type 0) : Type 0 where
  built : A → Outcome A
  declined : Outcome A
  raised : Failure → Outcome A

abbrev pub Gen : Type 0 → Type 0
Gen A = Context → Outcome A × Context

module _ {A : Type 0} where
  abbrev pub pure : A → Gen A
  pure a c = (built a, c)

  abbrev pub decline : Gen A
  decline c = (declined, c)

  abbrev pub raise : Failure → Gen A
  raise f c = (raised f, c)

  -- `if value is None: return None`
  abbrev pub lift : Option A → Gen A
  lift none = decline
  lift (some a) = pure a

  -- `if value is None` as a raise
  abbrev pub or_raise : Option A → Failure → Gen A
  or_raise none f = raise f
  or_raise (some a) f = pure a

abbrev pub resume : {A B : Type 0} → Outcome A → (A → Gen B) → Context → Outcome B × Context
resume (built a) f c = f a c
resume declined f c = (declined, c)
resume (raised e) f c = (raised e, c)

-- a step that declines or raises ends the build
infixl 5 ◌>>=◌ ◌>>◌
unfoldable pub ◌>>=◌ : {A B : Type 0} → Gen A → (A → Gen B) → Gen B
◌>>=◌ m f c = let (o, c') = m c in resume o f c'

abbrev pub ◌>>◌ : {A B : Type 0} → Gen A → Gen B → Gen B
m >> n = m >>= λ _. n

abbrev pub settle : {A : Type 0} → Outcome A → Context → Outcome (Option A) × Context
settle (built a) c = (built (some a), c)
settle declined c = (built none, c)
settle (raised e) c = (raised e, c)

-- a step whose `None` the build looks at later
unfoldable pub optional : {A : Type 0} → Gen A → Gen (Option A)
optional m c = let (o, c') = m c in settle o c'

-- one random number
unfoldable pub draw_number : Environment → Gen ℕ
draw_number env c = (built (env.draw c.draws), record c { draws = c.draws + 1 })

-- `context.namer.mint` and `context.names.generate_column_name`
unfoldable pub generate_name : Text → Gen Text
unfolding generate_object_name
generate_name prefix c =
    let (counters', name) = generate_object_name prefix c.counters in
    (built name, record c { counters = counters' })

unfoldable pub mint : Environment → Text → Gen Text
unfolding generate_name
mint env kind = generate_name (env.base_table.name ++ b'_' ∷ kind)

-- `predicate_origin[name] += 1`
unfoldable pub note_origin : Text → Gen (Unit {0})
note_origin name c = (
  built tt,
  record c {
    predicate_origin = set_count name (get_count name c.predicate_origin + 1) c.predicate_origin;
  },
)
