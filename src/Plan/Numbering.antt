-- ===== src/Plan/Numbering.antt =====
-- backend/src/modules/plan/plan.service.ts: the `order` of a plan's items, which `addItem` continues
-- and `deleteItem` closes up.
use ai_planner.Prelude.{
  ℕ, suc, ◌+◌, ◌≤◌, ◌<◌, Bool, true, false, List, [], ◌∷◌, map, ◌≡◌, ◌≢◌, refl, ap, ◌∙◌, inl, inr,
  arith, ltb, ◌==◌, ◌&&◌, ◌||◌, not, length, select, change, All, In,
}
use ai_planner.Prisma.Keys.{IsUnique}
use ai_planner.Prisma.Selects.{IsUnique-select, select-select, length-map, select-not}
use ai_planner.Schema.{PlanItem, Prisma}
use ai_planner.Plan.Items.{count, row_number, remove_item, new_item, CreatePlanItemDto}

module _ {A : Type 0} where
  count-le :
      (p q : A → Bool) (t : List A) → ((x : A) → p x ≡ true → q x ≡ true) → count p t ≤ count q t
  count-le p q [] h = omega arith
  count-le p q (x ∷ t) h = ground (arith, h x, count-le p q t h)

  -- One row that only `q` counts.
  count-lt :
      (p q : A → Bool) (a : A) (t : List A)
      → ((x : A) → p x ≡ true → q x ≡ true)
      → In a t
      → p a ≡ false
      → q a ≡ true
      → count p t < count q t
  count-lt p q a [] h here e f = absurd here
  count-lt p q a (x ∷ t) h (inl same) e f =
      let px : p x ≡ false = ap p same ∙ e in
      let qx : q x ≡ true = ap q same ∙ f in ground (arith, count-le p q t h)
  count-lt p q a (x ∷ t) h (inr later) e f = ground (arith, h x, count-lt p q a t h later e f)

  count-lt-length :
      (p : A → Bool) (a : A) (t : List A) → In a t → p a ≡ false → count p t < length t
  count-lt-length p a [] here e = absurd here
  count-lt-length p a (x ∷ t) (inl same) e =
      let px : p x ≡ false = ap p same ∙ e in ground (arith, count-le-length t)
    where
      count-le-length : (t : List A) → count p t ≤ length t
      count-le-length [] = omega arith
      count-le-length (y ∷ t) = ground (arith, count-le-length t)
  count-lt-length p a (x ∷ t) (inr later) e = ground (arith, count-lt-length p a t later e)

abbrev order_of : PlanItem → ℕ
order_of x = x.order

-- The items of a plan carry the numbers from 1 to their count, each once.
pub record IsNumbered (t : List PlanItem) : Type 0 where
  pub range : All (λ x. (1 ≤ x.order) × (x.order ≤ length t)) t
  pub distinct : IsUnique order_of t

module _ (tie : PlanItem → PlanItem → Bool) (rows : List PlanItem) where
  abbrev before : PlanItem → PlanItem → Bool
  before x y = ltb y.order x.order || (y.order == x.order && tie y x)

  -- Only rows with the same `order` are left to the database: here a row is not before itself.
  row_number_range :
      ((x : PlanItem) → tie x x ≡ false)
      → (x : PlanItem) → In x rows
      → (1 ≤ row_number tie rows x) × (row_number tie rows x ≤ length rows)
  unfolding row_number
  row_number_range irreflexive x here =
      (omega arith, count-lt-length (before x) x rows here (ground (arith, irreflexive x)))

  row_number_lt :
      ((x : PlanItem) → tie x x ≡ false)
      → (x y : PlanItem) → In x rows
      → x.order < y.order
      → row_number tie rows x < row_number tie rows y
  unfolding row_number
  row_number_lt irreflexive x y here lt =
      let fewer : count (before x) rows < count (before y) rows =
        count-lt (before x) (before y) x rows (λ z h. ground arith) here
          (ground (arith, irreflexive x)) (ground arith) in
      omega arith

  abbrev renumbered : PlanItem → PlanItem
  renumbered x = record x { order = row_number tie rows x }

  renumbered-ne :
      ((x : PlanItem) → tie x x ≡ false)
      → (x : PlanItem) → In x rows
      → (t : List PlanItem) → ((y : PlanItem) → In y t → In y rows)
      → All (λ y. order_of y ≢ order_of x) t
      → All (λ y. order_of y ≢ order_of (renumbered x)) (map renumbered t)
  renumbered-ne irreflexive x here [] sub h = tt
  renumbered-ne irreflexive x here (y ∷ t) sub h =
      let up = row_number_lt irreflexive x y here in
      let down = row_number_lt irreflexive y x (sub y (inl refl)) in
      (
        λ e. let ne : y.order ≢ x.order = h.0 in ground arith,
        renumbered-ne irreflexive x here t (λ z k. sub z (inr k)) h.1,
      )

  renumbered-distinct :
      ((x : PlanItem) → tie x x ≡ false)
      → (t : List PlanItem) → ((y : PlanItem) → In y t → In y rows)
      → IsUnique order_of t
      → IsUnique order_of (map renumbered t)
  renumbered-distinct irreflexive [] sub u = tt
  renumbered-distinct irreflexive (x ∷ t) sub u = (
    renumbered-ne irreflexive x (sub x (inl refl)) t (λ y k. sub y (inr k)) u.0,
    renumbered-distinct irreflexive t (λ y k. sub y (inr k)) u.1,
  )

  renumbered-range :
      ((x : PlanItem) → tie x x ≡ false)
      → (t : List PlanItem) → ((y : PlanItem) → In y t → In y rows)
      → All (λ x. (1 ≤ x.order) × (x.order ≤ length rows)) (map renumbered t)
  renumbered-range irreflexive [] sub = tt
  renumbered-range irreflexive (x ∷ t) sub = (
    row_number_range irreflexive x (sub x (inl refl)),
    renumbered-range irreflexive t (λ y k. sub y (inr k)),
  )

  -- What the transaction makes of the rows that are left.
  select-renumbered :
      (plan_id item_id : ℕ) (t : List PlanItem)
      → All (λ x. (x.id == item_id) ≡ false) t
      → select
          (λ x. x.plan_id == plan_id)
          (map
            (change
              (λ x.
                (x.plan_id == plan_id && not (x.id == item_id))
                && not (x.order == row_number tie rows x))
              renumbered)
            t)
        ≡ map renumbered (select (λ x. x.plan_id == plan_id && not (x.id == item_id)) t)
  select-renumbered plan_id item_id [] h = refl
  select-renumbered plan_id item_id (x ∷ t) h =
      ground (arith, h.0, select-renumbered plan_id item_id t h.1)

range_more :
    (t : List PlanItem) (n : ℕ)
    → All (λ x. (1 ≤ order_of x) × (order_of x ≤ n)) t
    → All (λ x. (1 ≤ order_of x) × (order_of x ≤ suc n)) t
range_more [] n h = tt
range_more (x ∷ t) n h = ((h.0.0, omega arith), range_more t n h.1)

range_ne :
    (t : List PlanItem) (n : ℕ)
    → All (λ x. (1 ≤ order_of x) × (order_of x ≤ n)) t
    → All (λ x. order_of x ≢ n + 1) t
range_ne [] n h = tt
range_ne (x ∷ t) n h = (λ e. omega arith, range_ne t n h.1)

abbrev pub items_of : ℕ → List PlanItem → List PlanItem
items_of plan_id t = select (λ x. x.plan_id == plan_id) t

module _ (db : Prisma) where
  remaining : ℕ → ℕ → List PlanItem → List PlanItem
  remaining plan_id item_id items = select (λ x. not (x.id == item_id)) (items_of plan_id items)

  remove_item-items_of :
      (tie : PlanItem → PlanItem → Bool) (plan_id item_id : ℕ) (items : List PlanItem)
      → items_of plan_id (remove_item db tie plan_id item_id items)
        ≡ map (renumbered tie (remaining plan_id item_id items)) (remaining plan_id item_id items)
  unfolding remove_item remaining
  remove_item-items_of tie plan_id item_id items =
      let rest = select (λ (x : PlanItem). not (x.id == item_id)) items in
      let rows = select (λ (x : PlanItem). x.plan_id == plan_id && not (x.id == item_id)) rest in
      rw (db.plan_item.delete_many-eq (λ x. x.id == item_id) items, remove_item)
        (rw (db.plan_item.find_many-eq (λ x. x.plan_id == plan_id && not (x.id == item_id)) rest) (
          rw
            (db.plan_item.update_many-eq
              (λ x.
                (x.plan_id == plan_id && not (x.id == item_id))
                && not (x.order == row_number tie rows x))
              (renumbered tie rows) rest)
            (select-renumbered tie rows plan_id item_id rest
                (select-not (λ x. x.id == item_id) items)
              ∙ ap (λ r. map (renumbered tie r) r)
                  (select-select (λ (x : PlanItem). x.plan_id == plan_id)
                    (λ x. not (x.id == item_id)) items))))

  -- However the numbers of a plan's items stood, if no two were equal, and where the database orders
  -- no row before itself: after one is deleted, the items left carry the numbers from 1 to their count, each once.
  pub remove_item-IsNumbered :
      (tie : PlanItem → PlanItem → Bool) (plan_id item_id : ℕ) (items : List PlanItem)
      → ((x : PlanItem) → tie x x ≡ false)
      → IsUnique order_of (items_of plan_id items)
      → IsNumbered (items_of plan_id (remove_item db tie plan_id item_id items))
  remove_item-IsNumbered tie plan_id item_id items irreflexive distinct =
      let rows = remaining plan_id item_id items in
      let kept : IsUnique order_of rows =
        unfold remaining in
        IsUnique-select order_of (λ x. not (x.id == item_id)) (items_of plan_id items) distinct in
      rw (remove_item-items_of tie plan_id item_id items) (record {
        range = rw length-map (renumbered-range tie rows irreflexive rows (λ y k. k));
        distinct = renumbered-distinct tie rows irreflexive rows (λ y k. k) kept;
      })

  -- Where a plan's items carry the numbers from 1 to their count, each once, so they do with the item
  -- that is created with the number after the last one.
  pub create-IsNumbered :
      (new_id plan_id : ℕ) (dto : CreatePlanItemDto) (items : List PlanItem)
      → IsNumbered (items_of plan_id items)
      → IsNumbered (
          items_of plan_id (
            db.plan_item.create
              (new_item new_id plan_id (length (items_of plan_id items) + 1) dto)
              items))
  create-IsNumbered new_id plan_id dto items n =
      let t = items_of plan_id items in
      let item = new_item new_id plan_id (length t + 1) dto in
      let listed : items_of plan_id (item ∷ items) ≡ item ∷ t = ground arith in
      rw (db.plan_item.create-eq item items) (
        rw listed (record {
          range = ((omega arith, omega arith), range_more t (length t) n.range);
          distinct = (range_ne t (length t) n.range, n.distinct);
        }))
