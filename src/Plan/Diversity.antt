-- ===== src/Plan/Diversity.antt =====
-- backend/src/modules/plan/plan.service.ts: `buildDiversityHistory`, the counts of the places of earlier
-- plans for the same wish. `orderBy: { createdAt: 'desc' }` is a parameter.
use ai_planner.Prelude.{
  ℕ, suc, ◌+◌, Bool, false, not, String, none, some, List, [], ◌∷◌, ◌++◌, ◌≡◌, refl, ap, ◌∙◌, inl,
  inr, arith, select, length, take, All, In, All-In, All_of_In, All-take, All-select_In,
  length-take, ◌≤◌, Bool-cases, str_eq, str_eq_iff, is_empty, if◌then◌else◌, ◌&&◌, ◌==◌,
}
use ai_planner.Schema.{Plan, PlanItem, Mode, Store, Prisma}
use ai_planner.Account.Nickname.{normalize_nickname}
use ai_planner.Pipeline.Scoring.{is_date}
use ai_planner.Pipeline.Diversity.{
  Counts, DiversityHistory, count_of_key, own_count, is_inherited, count_once_more,
  create_empty_diversity_history, normalize_place_key, get_chain_brand,
}

module _ (lower : String → String) where
  -- `replace(/\s+/g, ' ').trim().toLowerCase()`; the first two are those of `normalizeNickname`.
  abbrev pub normalize_raw_input : String → String
  normalize_raw_input raw_input = lower (normalize_nickname raw_input)

  -- The body of the loop over the items of a plan
  abbrev pub count_item : PlanItem → DiversityHistory → DiversityHistory
  count_item item h =
      let key = normalize_place_key lower item.name in
      if is_empty key then h else record {
        place_counts = count_once_more key h.place_counts;
        chain_counts = elim (get_chain_brand lower item.name) [
          | none ↦ h.chain_counts
          | some brand ↦ count_once_more brand h.chain_counts
        ];
      }

  abbrev pub count_items : List PlanItem → DiversityHistory → DiversityHistory
  count_items [] h = h
  count_items (item ∷ items) h = count_items items (count_item item h)

  module _ (db : Prisma) (newest_first : List Plan → List Plan) where
    abbrev pub same_mode : Mode → Mode → Bool
    same_mode a b = if is_date a then is_date b else not (is_date b)

    -- `matchedPlans`
    abbrev pub matched_plans : ℕ → String → Mode → Store → List Plan
    matched_plans user_id raw_input mode st = take 10 (
        select (λ p. str_eq (normalize_raw_input p.raw_input) (normalize_raw_input raw_input))
          (take 50 (
            newest_first
              (db.plan.find_many (λ p. p.user_id == user_id && same_mode p.mode mode) st.plans))))

    abbrev pub items_of_plans : List Plan → Store → List PlanItem
    items_of_plans [] st = []
    items_of_plans (p ∷ ps) st =
        db.plan_item.find_many (λ i. i.plan_id == p.id) st.items ++ items_of_plans ps st

    -- The loop over the matched plans, one plan's items after another's
    unfoldable pub build_diversity_history : ℕ → String → Mode → Store → DiversityHistory
    build_diversity_history user_id raw_input mode st =
        count_items (items_of_plans (matched_plans user_id raw_input mode st) st)
          create_empty_diversity_history

  -- How many of the items have a key.
  abbrev pub count_with_key : String → List PlanItem → ℕ
  count_with_key key items =
      length (select (λ i. str_eq (normalize_place_key lower i.name) key) items)

  count_once_more-lem :
      (key k : String) (t : Counts)
      → is_inherited k ≡ false
      → count_of_key k (count_once_more key t)
        ≡ (if str_eq key k then suc (count_of_key k t) else count_of_key k t)
  count_once_more-lem key k t plain = elim (Bool-cases (str_eq key k)) [
    | inl y ↦
        let it : key ≡ k = (str_eq_iff key k).0 y in
        let plain_key : is_inherited key ≡ false = ap is_inherited it ∙ plain in
        rw (plain, plain_key, y) (ap (λ s. suc (own_count s t)) it)
    | inr n ↦ elim (Bool-cases (is_inherited key)) [
      | inl lost ↦ rw (plain, lost, n) refl
      | inr kept ↦ rw (plain, kept, n) refl
    ]
  ]

  count_items-lem :
      (k : String) (items : List PlanItem) (h : DiversityHistory)
      → is_empty k ≡ false
      → is_inherited k ≡ false
      → count_of_key k (count_items items h).place_counts
        ≡ count_with_key k items + count_of_key k h.place_counts
  count_items-lem k [] h full plain = omega arith
  count_items-lem k (i ∷ items) h full plain =
      let key = normalize_place_key lower i.name in
      let ih = count_items-lem k items (count_item i h) full plain in
      let step = count_once_more-lem key k h.place_counts plain in
      elim (Bool-cases (str_eq key k)) [
        | inl y ↦
            let it : key ≡ k = (str_eq_iff key k).0 y in
            let filled : is_empty key ≡ false = ap is_empty it ∙ full in
            let here : count_of_key k (count_item i h).place_counts
                ≡ suc (count_of_key k h.place_counts) =
              rw filled (step ∙ (rw y refl)) in
            let more : count_with_key k (i ∷ items) ≡ suc (count_with_key k items) = rw y refl in
            omega (arith, ih, here, more)
        | inr n ↦
            let here : count_of_key k (count_item i h).place_counts
                ≡ count_of_key k h.place_counts =
              elim (Bool-cases (is_empty key)) [
                | inl empty ↦ rw empty refl
                | inr filled ↦ rw filled (step ∙ (rw n refl))
              ] in
            let more : count_with_key k (i ∷ items) ≡ count_with_key k items = rw n refl in
            omega (arith, ih, here, more)
      ]

  -- A plan of the user, in the mode, for the same wish.
  abbrev pub IsMatch : ℕ → String → Mode → Store → Plan → Type 0
  IsMatch user_id raw_input mode st p =
      In p st.plans
      × (p.user_id ≡ user_id)
      × (is_date p.mode ≡ is_date mode)
      × (normalize_raw_input p.raw_input ≡ normalize_raw_input raw_input)

  module _ (db : Prisma) (newest_first : List Plan → List Plan)
      (ordered : (t : List Plan) (p : Plan) → In p (newest_first t) → In p t) where
    matched_plans-IsMatch :
        (user_id : ℕ) (raw_input : String) (mode : Mode) (st : Store)
        → All
            (IsMatch user_id raw_input mode st)
            (matched_plans db newest_first user_id raw_input mode st)
    matched_plans-IsMatch user_id raw_input mode st =
        let asked = λ (p : Plan). p.user_id == user_id && same_mode db newest_first p.mode mode in
        let found = newest_first (db.plan.find_many asked st.plans) in
        let alike =
          λ (p : Plan). str_eq (normalize_raw_input p.raw_input) (normalize_raw_input raw_input) in
        let Own =
          λ (p : Plan). In p st.plans × (p.user_id ≡ user_id) × (is_date p.mode ≡ is_date mode) in
        let rows : All Own (db.plan.find_many asked st.plans) =
          rw (db.plan.find_many-eq asked st.plans) (
            All-select_In Own asked st.plans
              (λ p at_p y. (at_p, ground (arith, y), ground (arith, y)))) in
        let owns : All Own (take 50 found) = All-take Own 50 found (
          All_of_In Own found (λ p at_p.
            All-In Own p (db.plan.find_many asked st.plans) rows
              (ordered (db.plan.find_many asked st.plans) p at_p))) in
        All-take (IsMatch user_id raw_input mode st) 10 (select alike (take 50 found)) (
          All-select_In (IsMatch user_id raw_input mode st) alike (take 50 found) (λ p at_p y.
            let (there, mine, same) = All-In Own p (take 50 found) owns at_p in
            (
              there,
              mine,
              same,
              (str_eq_iff (normalize_raw_input p.raw_input) (normalize_raw_input raw_input)).0 y,
            )))

    -- Where `orderBy` adds no rows: the count of places under each key, that is not empty and no name
    -- that every object of JavaScript inherits, is the number of the items of the matched plans that
    -- have the key. The matched plans are at most 10, and each is a plan of the user, in the same mode,
    -- for the same wish.
    pub build_diversity_history-counts :
        (user_id : ℕ) (raw_input : String) (mode : Mode) (st : Store) (key : String)
        → is_empty key ≡ false
        → is_inherited key ≡ false
        → let plans = matched_plans db newest_first user_id raw_input mode st in
          (count_of_key key
              (build_diversity_history db newest_first user_id raw_input mode st).place_counts
            ≡ count_with_key key (items_of_plans db newest_first plans st))
          × (length plans ≤ 10)
          × All (IsMatch user_id raw_input mode st) plans
    unfolding build_diversity_history
    build_diversity_history-counts user_id raw_input mode st key full plain =
        let plans = matched_plans db newest_first user_id raw_input mode st in
        let nothing_yet : count_of_key key create_empty_diversity_history.place_counts ≡ 0 =
          rw plain refl in
        (
          omega (
            arith,
            nothing_yet,
            count_items-lem key (items_of_plans db newest_first plans st)
                create_empty_diversity_history full plain,
          ),
          length-take 10 (
              select (λ p. str_eq (normalize_raw_input p.raw_input) (normalize_raw_input raw_input))
                (take 50 (
                  newest_first (
                    db.plan.find_many
                      (λ p. p.user_id == user_id && same_mode db newest_first p.mode mode)
                      st.plans)))),
          matched_plans-IsMatch user_id raw_input mode st,
        )
