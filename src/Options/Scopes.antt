-- ===== src/Options/Scopes.antt =====
-- The options behind a scope that initialised them.
use peanuts.Base.{ℕ, ◌≡◌, ◌∙◌, refl, ap, Option, some, none, List, [], ◌∷◌, ◌++◌, sym}
use peanuts.Options.{OptionValue, Options, OptionInitializer, initialize, add_option, remove_option}
use peanuts.Options.{finalize, pop_back, create_path, create_size, destroy_path, destroy_size}
use peanuts.Options.{create, destroy, getenv_with_default, default_path, default_size}
use peanuts.Options.{option_pmem_path, option_pmem_size}

pop_back-append : (os : List OptionValue) (o : OptionValue) → pop_back (os ++ (o ∷ [])) ≡ os
unfolding pop_back
pop_back-append [] o = refl
pop_back-append (p ∷ []) o = refl
pop_back-append (p ∷ q ∷ os) o = ap (λ (x : List OptionValue). p ∷ x) (pop_back-append (q ∷ os) o)

path_scope :
    (v : List ℕ) (path : Option (List ℕ)) (size : Option ℕ) (options : List OptionValue)
    → (let s : Options = record { pmem_path = path; pmem_size = size; options = options } in
        destroy_path (create_path v s).0 (create_path v s).1 ≡ s)
unfolding destroy_path create_path initialize add_option remove_option finalize
path_scope v none size options =
    ap (λ (os : List OptionValue). record { pmem_path = none; pmem_size = size; options = os })
      (pop_back-append options (option_pmem_path v))
path_scope v (some x) size options = refl

size_scope :
    (v : ℕ) (path : Option (List ℕ)) (size : Option ℕ) (options : List OptionValue)
    → (let s : Options = record { pmem_path = path; pmem_size = size; options = options } in
        destroy_size (create_size v s).0 (create_size v s).1 ≡ s)
unfolding destroy_size create_size initialize add_option remove_option finalize
size_scope v path none options =
    ap (λ (os : List OptionValue). record { pmem_path = path; pmem_size = none; options = os })
      (pop_back-append options (option_pmem_size v))
size_scope v path (some x) options = refl

module _ (read_path : List ℕ → Option (List ℕ)) (read_size : List ℕ → Option ℕ)
    (path_variable size_variable : Option (List ℕ)) (s s' : Options)
    (i : OptionInitializer × OptionInitializer) where
  -- Where the options of a run could be read from the environment, behind the scope that
  -- initialised them the instances and the list of the options are as before, whichever of them
  -- were there already.
  pub destroy-create :
      create read_path read_size path_variable size_variable s ≡ some (i, s') → destroy i s' ≡ s
  unfolding create destroy
  destroy-create e = of_path (getenv_with_default read_path path_variable default_path) refl
    where
      both :
          (path : List ℕ) (size : ℕ)
          → (let t = create_path path s in
              destroy (t.0, (create_size size t.1).0) (create_size size t.1).1 ≡ s)
      both path size =
          (let t = create_path path s in
            ap (destroy_path t.0) (size_scope size t.1.pmem_path t.1.pmem_size t.1.options)
            ∙ path_scope path s.pmem_path s.pmem_size s.options)

      of_size :
          (path : List ℕ)
          → getenv_with_default read_path path_variable default_path ≡ some path
          → (o : Option ℕ) → getenv_with_default read_size size_variable default_size ≡ o
          → destroy i s' ≡ s
      of_size path p none q = absurd (let c : none ≡ some (i, s') = rw (p, q, create) at e in cc)
      of_size path p (some size) q =
          let t = create_path path s in
          let c : some ((t.0, (create_size size t.1).0), (create_size size t.1).1) ≡ some (i, s') =
            rw (p, q, create) at e in
          let d : ((t.0, (create_size size t.1).0), (create_size size t.1).1) ≡ (i, s') = cc in
          sym (ap (λ (x : (OptionInitializer × OptionInitializer) × Options). destroy x.0 x.1) d)
          ∙ both path size

      of_path :
          (o : Option (List ℕ))
          → getenv_with_default read_path path_variable default_path ≡ o
          → destroy i s' ≡ s
      of_path none p = absurd (let c : none ≡ some (i, s') = rw (p, create) at e in cc)
      of_path (some path) p =
          of_size path p (getenv_with_default read_size size_variable default_size) refl
