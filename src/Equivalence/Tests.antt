-- ===== src/Equivalence/Tests.antt =====
-- Names handed out for prefixes of which one ends like a name of the other.
use coa.Base.{List, [], ◌∷◌}
use coa.Base.Text.{Text, codes}
use coa.Equivalence.Names.{generate_names, generate_names-Distinct}
use coa.Sql.Rows.{Distinct}

abbrev prefixes : List Text
prefixes = codes "t" ∷ codes "t_1" ∷ codes "t" ∷ codes "t_1" ∷ []

generate_names-Distinct_example : Distinct (generate_names prefixes [])
generate_names-Distinct_example = generate_names-Distinct prefixes []
