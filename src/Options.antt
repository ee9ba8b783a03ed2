-- ===== src/Options.antt =====
-- Options of a run: projects/peanuts/include/peanuts/options.hpp, `singleton` of
-- projects/peanuts/include/peanuts/utils/singleton.hpp and `getenv_with_default` of
-- projects/peanuts/include/peanuts/utils/env.hpp. A string is the list of its characters; the
-- environment, and what a stream reads from a string, are parameters.
pub mod Scopes
mod Tests
use peanuts.Base.{ℕ, Bool, true, false, Option, some, none, List, [], ◌∷◌, ◌++◌}

-- `singleton`: the instance, where it is there.
unfoldable pub initialized {ℓ} : {A : Type ℓ} → Option A → Bool
initialized none = false
initialized (some _) = true

unfoldable pub init {ℓ} : {A : Type ℓ} → A → Option A → Option A
init v instance' = some v

unfoldable pub fini {ℓ} : {A : Type ℓ} → Option A → Option A
fini instance' = none

-- `singleton_initializer`: `should_finalize_`, and the instance; and its destructor.
unfoldable pub initialize {ℓ} : {A : Type ℓ} → A → Option A → Bool × Option A
unfolding initialized init
initialize v instance' = elim (initialized instance') [
  | true ↦ (false, instance')
  | false ↦ (true, init v instance')
]

unfoldable pub finalize {ℓ} : {A : Type ℓ} → Bool → Option A → Option A
unfolding fini
finalize should_finalize instance' = elim should_finalize [
  | true ↦ fini instance'
  | false ↦ instance'
]

-- `option::set` on an instance that is there; `value` is the instance.
unfoldable pub set {ℓ} : {A : Type ℓ} → A → Option A → Option A
set v none = none
set v (some _) = some v

-- The value of a variable where the stream reads one from it; `none` is the end of the program.
unfoldable pub getenv_with_default {ℓ} :
    {A : Type ℓ} → (List ℕ → Option A) → Option (List ℕ) → A → Option A
getenv_with_default read none default_val = some default_val
getenv_with_default read (some val_str) default_val = read val_str

-- `std::variant<option_pmem_path, option_pmem_size>`
pub data OptionValue : Type 0 where
  option_pmem_path : List ℕ → OptionValue
  option_pmem_size : ℕ → OptionValue

-- The instances of both options, and the list of `runtime_options`.
pub record Options : Type 0 where
  pub pmem_path : Option (List ℕ)
  pub pmem_size : Option ℕ
  pub options : List OptionValue

unfoldable pub pop_back : List OptionValue → List OptionValue
pop_back [] = []
pop_back (o ∷ []) = []
pop_back (o ∷ p ∷ os) = o ∷ pop_back (p ∷ os)

-- `option_initializer`, which pops its entry if it has added one.
pub record OptionInitializer : Type 0 where
  pub should_finalize : Bool
  pub should_pop : Bool

unfoldable pub add_option {ℓ} :
    {A : Type ℓ}
    → (A → OptionValue)
    → Bool × Option A
    → List OptionValue
    → OptionInitializer × Option A × List OptionValue
add_option wrap (true, some v) options =
    (record { should_finalize = true; should_pop = true }, some v, options ++ (wrap v ∷ []))
add_option wrap (fin, instance') options =
    (record { should_finalize = fin; should_pop = false }, instance', options)

unfoldable pub remove_option : OptionInitializer → List OptionValue → List OptionValue
unfolding pop_back
remove_option i options = elim i.should_pop [ true ↦ pop_back options | false ↦ options ]

-- `option_initializer<option_pmem_path>`, with the value that `getenv_with_default` gives.
unfoldable pub create_path : List ℕ → Options → OptionInitializer × Options
unfolding initialize add_option
create_path v s =
    let (i, path, options) = add_option option_pmem_path (initialize v s.pmem_path) s.options in
    (i, record s { pmem_path = path; options = options })

unfoldable pub create_size : ℕ → Options → OptionInitializer × Options
unfolding initialize add_option
create_size v s =
    let (i, size, options) = add_option option_pmem_size (initialize v s.pmem_size) s.options in
    (i, record s { pmem_size = size; options = options })

unfoldable pub destroy_path : OptionInitializer → Options → Options
unfolding remove_option finalize
destroy_path i s = record s {
  pmem_path = finalize i.should_finalize s.pmem_path;
  options = remove_option i s.options;
}

unfoldable pub destroy_size : OptionInitializer → Options → Options
unfolding remove_option finalize
destroy_size i s = record s {
  pmem_size = finalize i.should_finalize s.pmem_size;
  options = remove_option i s.options;
}

-- `default_value`: "/dev/dax0.0", and 0.
abbrev pub default_path : List ℕ
default_path = 47 ∷ 100 ∷ 101 ∷ 118 ∷ 47 ∷ 100 ∷ 97 ∷ 120 ∷ 48 ∷ 46 ∷ 48 ∷ []

abbrev pub default_size : ℕ
default_size = 0

-- `runtime_option_initializer`: the path, then the size; destroyed the other way round.
module _ (read_path : List ℕ → Option (List ℕ)) (read_size : List ℕ → Option ℕ)
    (path_variable size_variable : Option (List ℕ)) where
  unfoldable pub create : Options → Option ((OptionInitializer × OptionInitializer) × Options)
  unfolding getenv_with_default create_path create_size
  create s = elim (getenv_with_default read_path path_variable default_path) [
    | none ↦ none
    | some path ↦ elim (getenv_with_default read_size size_variable default_size) [
      | none ↦ none
      | some size ↦
          let (i, s') = create_path path s in
          let (j, s'') = create_size size s' in some ((i, j), s'')
    ]
  ]

unfoldable pub destroy : OptionInitializer × OptionInitializer → Options → Options
unfolding destroy_path destroy_size
destroy (path, size) s = destroy_path path (destroy_size size s)
