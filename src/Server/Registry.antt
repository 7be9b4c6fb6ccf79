-- ===== src/Server/Registry.antt =====
-- The registry of services: registerService and requestService.
use qt_rpc.Base.{
  ℕ, ◌≡◌, ◌≢◌, inl, inr, refl, sym, ap, ◌∙◌, String, Option, none, some, List, [], ◌∷◌, str_eq,
  eq_iff, eq_refl, if◌then◌else◌, arith, Bool-cases, Option-cases,
}
use qt_rpc.Server.{
  Server, Factory, find_factory, name_factory, register_service, request_service, list_functions,
}

-- the factory that a name has after a registration
unfoldable pub registered : Option Factory → Factory → String → Factory
registered none template name = record template { service_name = name }
registered (some f) template name = record f { service_name = name }

find_factory-name_factory :
    (name other : String) (fs : List (String × Factory))
    → find_factory other (name_factory name fs) ≡ (
        if str_eq name other
        then elim (find_factory name fs) [
          | none ↦ none
          | some f ↦ some (record f { service_name = name })
        ]
        else find_factory other fs)
unfolding find_factory name_factory
find_factory-name_factory name other [] = ground arith
find_factory-name_factory name other ((n, f) ∷ fs) = ground (
  arith,
  find_factory-name_factory name other fs,
  eq_iff n name,
  eq_iff n other,
  eq_iff name other,
)

find_registered :
    (s : Server) (name other : String) (template : Factory)
    → find_factory other (register_service s name template).factories ≡ (
        if str_eq name other
        then some (registered (find_factory name s.factories) template name)
        else find_factory other s.factories)
unfolding register_service registered
find_registered s name other template = elim (Option-cases (find_factory name s.factories)) [
  | inl e ↦ rw e (found ((name, template) ∷ s.factories) template new_found (λ ne. new_other ne))
  | inr (f, e) ↦ rw e (found s.factories f e (λ _. refl))
]
  where
    new_found : find_factory name ((name, template) ∷ s.factories) ≡ some template
    new_found = ground (arith, eq_refl name, find_factory)

    new_other :
        name ≢ other
        → find_factory other ((name, template) ∷ s.factories) ≡ find_factory other s.factories
    new_other ne = ground (arith, eq_iff name other, find_factory)

    found :
        (fs : List (String × Factory)) (f : Factory)
        → find_factory name fs ≡ some f
        → (name ≢ other → find_factory other fs ≡ find_factory other s.factories)
        → find_factory other (name_factory name fs) ≡ (
            if str_eq name other
            then some (record f { service_name = name })
            else find_factory other s.factories)
    found fs f e elsewhere =
        ground (arith, find_factory-name_factory name other fs, e, elsewhere, eq_iff name other)

abbrev answer : ℕ → Option Factory → Option (ℕ × Factory)
answer n none = none
answer n (some f) = some (n, f)

requested :
    (s : Server) (name : String)
    → (request_service s name).0 ≡ answer s.next_object (find_factory name s.factories)
unfolding request_service
requested s name = ground arith

requested_after :
    (s : Server) (name other : String) (template : Factory) (f : Option Factory)
    → find_factory other (register_service s name template).factories ≡ f
    → (request_service (register_service s name template) other).0 ≡ answer s.next_object f
unfolding register_service
requested_after s name other template f e =
    requested (register_service s name template) other ∙ ap (answer s.next_object) e

listed :
    (s : Server) (name : String) (f : Factory)
    → find_factory name s.factories ≡ some f
    → list_functions s name ≡ f.functions
unfolding list_functions
listed s name f e = rw (e, list_functions) refl

-- After registerService(name), a request for `name` gives a fresh object of the service's factory:
-- the one of the first registration of that name, whatever the later ones ask for, under the name
-- `name`, with its functions listed. A request for another name gives what it would have given
-- before.
pub request_registered :
    (s : Server) (name other : String) (template : Factory)
    → ((request_service (register_service s name template) name).0
        ≡ some (s.next_object, registered (find_factory name s.factories) template name))
      × (list_functions (register_service s name template) name
          ≡ (registered (find_factory name s.factories) template name).functions)
      × ((request_service (register_service s name template) other).0 ≡ (
          if str_eq name other
          then some (s.next_object, registered (find_factory name s.factories) template name)
          else (request_service s other).0))
request_registered s name other template = (
  requested_after s name name template _ same,
  listed (register_service s name template) name _ same,
  requested_after s name other template _ (find_registered s name other template) ∙ either,
)
  where
    same :
        find_factory name (register_service s name template).factories
        ≡ some (registered (find_factory name s.factories) template name)
    same = ground (arith, find_registered s name name template, eq_refl name)

    either :
        answer s.next_object (
          if str_eq name other
          then some (registered (find_factory name s.factories) template name)
          else find_factory other s.factories)
        ≡ (if str_eq name other
            then some (s.next_object, registered (find_factory name s.factories) template name)
            else (request_service s other).0)
    either = elim (Bool-cases (str_eq name other)) [
      | inl e ↦ rw e refl
      | inr e ↦ rw e (sym (requested s other))
    ]
