-- ===== src/Registry/Storage.antt =====
-- moirae/core/lib/classes/constructor-storage.class.ts and classes/domain-store.class.ts. A constructor
-- is what the program calls it by and what a parameter of class-transformer makes of it.
use moirae.Base.{String, Bool, List, [], ◌∷◌, Option}
use moirae.Base.Dict.{Dict}
use moirae.Base.Dict
use moirae.Base.Sets.{contains}
use moirae.Base.Sets

-- `ClassConstructor`: its name, and the class that it stands for.
pub record Constructor (C : Type 0) : Type 0 where
  pub name : String
  pub class : C

abbrev pub ConstructorStorage : Type 0 → Type 0
ConstructorStorage C = Dict (Constructor C)

module _ {C : Type 0} where
  abbrev pub clear : ConstructorStorage C → ConstructorStorage C
  clear storage = []

  abbrev pub get : String → ConstructorStorage C → Option (Constructor C)
  get name storage = Dict.get name storage

  abbrev pub has : String → ConstructorStorage C → Bool
  has name storage = Dict.has name storage

  abbrev pub set : Constructor C → ConstructorStorage C → ConstructorStorage C
  set event storage = Dict.set event.name event storage

abbrev pub DomainStore : Type 0
DomainStore = List String

abbrev pub add : List String → DomainStore → DomainStore
add [] domains = domains
add (d ∷ ds) domains = add ds (Sets.add d domains)

abbrev pub clear_domains : DomainStore → DomainStore
clear_domains domains = []

abbrev pub get_all : DomainStore → List String
get_all domains = domains

abbrev pub has_domain : String → DomainStore → Bool
has_domain domain domains = contains domain domains
