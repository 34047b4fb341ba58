-- ===== src/Cascade/DailyLog/ListTable.antt =====
-- A table as a list of rows, the first row of an id in force, that has the laws of `IsLance`.
use ever_os.Prelude.{
  if◌then◌else◌, Bool-cases, eq-cases, length, take, keep, All, All-keep, All-imp, All-zip, ℕ, zero,
  suc, ◌<◌, String, ◌≡◌, refl, sym, ap, ◌∙◌, subst, inl, inr, Bool, true, not, none, some, List, [],
  ◌∷◌, ◌++◌, map, arith, ◌==◌, eq_iff, eq_refl,
}
use ever_os.Cascade.DailyLog.{Row, LanceTable}
use ever_os.Cascade.DailyLog.Lance.{filter_row, or_else, map_if, keyed, UniqueIds, IsLance}

module _ {Payload : Type 0} where
  abbrev other_id : String → Row Payload → Bool
  other_id key row = not (row.id == key)

  abbrev pub in_force : List (Row Payload) → List (Row Payload)
  in_force [] = []
  in_force (row ∷ rows) = row ∷ keep (other_id row.id) (in_force rows)

  keyed-keep_other :
      (key gone : String) (rows : List (Row Payload))
      → keyed key (keep (other_id gone) rows) ≡ (if gone == key then none else keyed key rows)
  keyed-keep_other key gone [] = ground arith
  keyed-keep_other key gone (row ∷ rows) = ground (
    arith,
    keyed-keep_other key gone rows,
    eq_iff row.id gone,
    eq_iff row.id key,
    eq_iff gone key,
  )

  keyed-in_force :
      (key : String) (rows : List (Row Payload)) → keyed key (in_force rows) ≡ keyed key rows
  keyed-in_force key [] = refl
  keyed-in_force key (row ∷ rows) = ground (
    arith,
    keyed-keep_other key row.id (in_force rows),
    keyed-in_force key rows,
    eq_iff row.id key,
  )

  keyed-none-keep :
      (p : Row Payload → Bool) (key : String) (rows : List (Row Payload))
      → keyed key rows ≡ none
      → keyed key (keep p rows) ≡ none
  keyed-none-keep p key [] h = refl
  keyed-none-keep p key (row ∷ rows) h = ground (arith, keyed-none-keep p key rows)

  UniqueIds-keep :
      (p : Row Payload → Bool) (rows : List (Row Payload))
      → UniqueIds rows
      → UniqueIds (keep p rows)
  UniqueIds-keep p [] u = tt
  UniqueIds-keep p (row ∷ rows) u = elim (Bool-cases (p row)) [
    | inl e ↦ rw e (keyed-none-keep p row.id rows u.0, UniqueIds-keep p rows u.1)
    | inr e ↦ rw e (UniqueIds-keep p rows u.1)
  ]

  in_force-UniqueIds : (rows : List (Row Payload)) → UniqueIds (in_force rows)
  in_force-UniqueIds [] = tt
  in_force-UniqueIds (row ∷ rows) = (
    keyed-keep_other row.id row.id (in_force rows) ∙ rw (eq_refl row.id) refl,
    UniqueIds-keep (other_id row.id) (in_force rows) (in_force-UniqueIds rows),
  )

  keyed-keep :
      (p : Row Payload → Bool) (key : String) (rows : List (Row Payload))
      → UniqueIds rows
      → keyed key (keep p rows) ≡ filter_row p (keyed key rows)
  keyed-keep p key [] u = refl
  keyed-keep p key (row ∷ rows) u = elim (eq-cases row.id key) [
    | inl same ↦ ground (arith, same, eq_refl key, keyed-none-keep p key rows, rw same at u.0)
    | inr differs ↦ ground (arith, keyed-keep p key rows u.1)
  ]

  keyed-own :
      (row : Row Payload) (rows : List (Row Payload))
      → keyed row.id rows ≡ none
      → (other : Row Payload) → keyed other.id rows ≡ some other
      → keyed other.id (row ∷ rows) ≡ some other
  keyed-own row rows n other h = elim (eq-cases row.id other.id) [
    | inl same ↦ cc (ap (λ (k : String). keyed k rows) same)
    | inr differs ↦ ground arith
  ]

  take-all : (n : ℕ) (rows : List (Row Payload)) → length (take n rows) < n → take n rows ≡ rows
  take-all zero rows h = elim h [ ]
  take-all (suc n) [] h = refl
  take-all (suc n) (row ∷ rows) h = ap (◌∷◌ row) (take-all n rows (omega arith))

  keyed-append :
      (key : String) (rows more : List (Row Payload))
      → keyed key (rows ++ more) ≡ or_else (keyed key rows) (keyed key more)
  keyed-append key [] more = refl
  keyed-append key (row ∷ rows) more = ground (arith, keyed-append key rows more)

  abbrev pub change : (Row Payload → Bool) → (Row Payload → Row Payload) → Row Payload → Row Payload
  change p f row = if p row then f row else row

  keyed-map :
      (p : Row Payload → Bool) (f : Row Payload → Row Payload) (key : String)
      (rows : List (Row Payload))
      → ((row : Row Payload) → (f row).id ≡ row.id)
      → keyed key (map (change p f) rows) ≡ map_if p f (keyed key rows)
  keyed-map p f key [] h = refl
  keyed-map p f key (row ∷ rows) h = ground (arith, h row, keyed-map p f key rows h)

  keyed_id :
      (key : String) (rows : List (Row Payload)) (row : Row Payload)
      → keyed key rows ≡ some row
      → row.id ≡ key
  keyed_id key [] row h = cc
  keyed_id key (r ∷ rows) row h = elim (eq-cases r.id key) [
    | inl same ↦ ground (arith, same, eq_refl key)
    | inr differs ↦ keyed_id key rows row (ground arith)
  ]

  All-own :
      (rows : List (Row Payload))
      → UniqueIds rows
      → All (λ (row : Row Payload). keyed row.id rows ≡ some row) rows
  All-own [] u = tt
  All-own (row ∷ rows) u = (
    rw (eq_refl row.id) refl,
    All-imp (λ (r : Row Payload). keyed r.id rows ≡ some r)
        (λ (r : Row Payload). keyed r.id (row ∷ rows) ≡ some r) rows (keyed-own row rows u.0)
        (All-own rows u.1),
  )

  All-keep_test :
      (p : Row Payload → Bool) (rows : List (Row Payload))
      → All (λ (row : Row Payload). p row ≡ true) (keep p rows)
  All-keep_test p [] = tt
  All-keep_test p (row ∷ rows) = elim (Bool-cases (p row)) [
    | inl e ↦ rw e (e, All-keep_test p rows)
    | inr e ↦ rw e (All-keep_test p rows)
  ]

  All-take {κ} :
      (P : Row Payload → Type κ) (n : ℕ) (rows : List (Row Payload))
      → All P rows
      → All P (take n rows)
  All-take P zero rows a = tt
  All-take P (suc n) [] a = tt
  All-take P (suc n) (row ∷ rows) a = (a.0, All-take P n rows a.1)

  UniqueIds-take : (n : ℕ) (rows : List (Row Payload)) → UniqueIds rows → UniqueIds (take n rows)
  UniqueIds-take zero rows u = tt
  UniqueIds-take (suc n) [] u = tt
  UniqueIds-take (suc n) (row ∷ rows) u =
      (keyed_none-take n row.id rows u.0, UniqueIds-take n rows u.1)
    where
      keyed_none-take :
          (n : ℕ) (key : String) (rows : List (Row Payload))
          → keyed key rows ≡ none
          → keyed key (take n rows) ≡ none
      keyed_none-take zero key rows h = refl
      keyed_none-take (suc n) key [] h = refl
      keyed_none-take (suc n) key (r ∷ rows) h = ground (arith, keyed_none-take n key rows)

  abbrev pub list_table : LanceTable Payload (List (Row Payload))
  list_table = record {
    get = λ t key. keyed key t;
    find_where = λ p n t. take n (keep p (in_force t));
    merge_insert = λ rows t. rows ++ t;
    delete = λ p t. (keep (λ row. not (p row)) (in_force t), length (keep p (in_force t)));
    update = λ p f t. map (change p f) t;
  }

  pub list_table-IsLance : IsLance list_table
  list_table-IsLance = record {
    found = λ p n t key few.
        ap (keyed key) (take-all n (keep p (in_force t)) few)
        ∙ keyed-keep p key (in_force t) (in_force-UniqueIds t)
        ∙ ap (filter_row p) (keyed-in_force key t);
    found_unique = λ p n t.
        UniqueIds-take n (keep p (in_force t))
          (UniqueIds-keep p (in_force t) (in_force-UniqueIds t));
    found_rows = λ p n t.
        All-take (λ (row : Row Payload). (keyed row.id t ≡ some row) × (p row ≡ true)) n
          (keep p (in_force t))
          (All-zip (λ (row : Row Payload). keyed row.id (in_force t) ≡ some row)
            (λ (row : Row Payload). p row ≡ true)
            (λ (row : Row Payload). (keyed row.id t ≡ some row) × (p row ≡ true))
            (keep p (in_force t)) (λ row a b. (sym (keyed-in_force row.id t) ∙ a, b))
            (All-keep (λ (row : Row Payload). keyed row.id (in_force t) ≡ some row) p (in_force t)
              (All-own (in_force t) (in_force-UniqueIds t)))
            (All-keep_test p (in_force t)));
    got = λ t key row h. keyed_id key t row h;
    merged = λ rows t key u. keyed-append key rows t;
    deleted = λ p t key.
        keyed-keep (λ row. not (p row)) key (in_force t) (in_force-UniqueIds t)
        ∙ ap (filter_row (λ row. not (p row))) (keyed-in_force key t);
    updated = λ p f t key h. keyed-map p f key t h;
  }

  pub All-keyed {κ} :
      (P : Row Payload → Type κ) (key : String) (rows : List (Row Payload)) (row : Row Payload)
      → All P rows
      → keyed key rows ≡ some row
      → P row
  All-keyed P key [] row a h = cc
  All-keyed P key (r ∷ rows) row a h = elim (Bool-cases (r.id == key)) [
    | inl same ↦ let same_row : r ≡ row = ground arith in subst P same_row a.0
    | inr differs ↦ All-keyed P key rows row a.1 (ground arith)
  ]
