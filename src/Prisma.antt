-- ===== src/Prisma.antt =====
-- The Prisma client of one table (`prisma.subscription`, `prisma.plan`, ...), which is not code of
-- the repository: an interface of the queries that the services make, with their documented
-- meaning. A table is the list of its rows. Every `find` of the services filters on a unique key, so
-- that it does not matter which of the matching rows is returned.

pub mod Reads
pub mod Keys
pub mod Selects
use ai_planner.Prelude.{Bool, not, List, [], ◌∷◌, Option, map, ◌≡◌, refl, select, find?, change}

pub record Model (Row : Type 0) : Type 0 where
  -- findFirst, findUnique
  pub find_first : (Row → Bool) → List Row → Option Row
  -- findMany; the number of its rows is also what count, updateMany and deleteMany report
  pub find_many : (Row → Bool) → List Row → List Row
  pub create : Row → List Row → List Row
  -- update, updateMany
  pub update_many : (Row → Bool) → (Row → Row) → List Row → List Row
  -- delete, deleteMany
  pub delete_many : (Row → Bool) → List Row → List Row
  pub find_first-eq : (p : Row → Bool) (t : List Row) → find_first p t ≡ find? p t
  pub find_many-eq : (p : Row → Bool) (t : List Row) → find_many p t ≡ select p t
  pub create-eq : (r : Row) (t : List Row) → create r t ≡ r ∷ t
  pub update_many-eq :
      (p : Row → Bool) (f : Row → Row) (t : List Row) → update_many p f t ≡ map (change p f) t
  pub delete_many-eq : (p : Row → Bool) (t : List Row) → delete_many p t ≡ select (λ r. not (p r)) t

-- A client that keeps its tables in memory: the interface can be met.
abbrev pub in_memory : {Row : Type 0} → Model Row
in_memory = record {
  find_first = find?;
  find_many = select;
  create = ◌∷◌;
  update_many = λ p f t. map (change p f) t;
  delete_many = λ p t. select (λ r. not (p r)) t;
  find_first-eq = λ p t. refl;
  find_many-eq = λ p t. refl;
  create-eq = λ r t. refl;
  update_many-eq = λ p f t. refl;
  delete_many-eq = λ p t. refl;
}

-- createMany, and the creates of one transaction
abbrev pub create_all : {Row : Type 0} → Model Row → List Row → List Row → List Row
create_all db [] t = t
create_all db (r ∷ rs) t = db.create r (create_all db rs t)
