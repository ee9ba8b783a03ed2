-- ===== src/Options/Tests.antt =====
-- Runs of the options.
use peanuts.Base.{ℕ, ◌≡◌, refl, Option, some, none, List, [], ◌∷◌, true, false}
use peanuts.Options.{Options, OptionInitializer, create, destroy, option_pmem_path}
use peanuts.Options.{option_pmem_size}
use peanuts.Options.Scopes.{destroy-create}

-- A stream that reads a path as it stands, and the number of the characters as a size.
abbrev read_path : List ℕ → Option (List ℕ)
read_path s = some s

abbrev read_size : List ℕ → Option ℕ
read_size [] = none
read_size (c ∷ cs) = some c

-- The size has been set before; the path comes from the environment.
abbrev before : Options
before = record { pmem_path = none; pmem_size = some 7; options = option_pmem_size 7 ∷ [] }

abbrev within : Options
within = record {
  pmem_path = some (47 ∷ []);
  pmem_size = some 7;
  options = option_pmem_size 7 ∷ option_pmem_path (47 ∷ []) ∷ [];
}

abbrev initializers : OptionInitializer × OptionInitializer
initializers = (
  record { should_finalize = true; should_pop = true },
  record { should_finalize = false; should_pop = false },
)

within-created :
    create read_path read_size (some (47 ∷ [])) none before ≡ some (initializers, within)
within-created = unfold create in refl

destroy-create_example : destroy initializers within ≡ before
destroy-create_example =
    destroy-create read_path read_size (some (47 ∷ [])) none before within initializers
      within-created
