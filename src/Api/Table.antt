-- ===== src/Api/Table.antt =====
-- What the routers use of a SQLAlchemy session, for one table: queries with a filter, and the
-- commits that add, change or remove a row or delete by a filter.
-- A commit may raise; what is then in the table is not said, except that other rows stay.
use wso2_teamspace_demo.Base.{
  ◌≡◌, refl, Bool, true, false, not, ◌&&◌, List, [], ◌∷◌, ◌++◌, filter, all, if◌then◌else◌, arith,
}
use wso2_teamspace_demo.Base.Run.{ok, Run}

pub record Table (Row : Type 0) : Type 1 where
  pub State : Type 0
  -- `db.query(Row).filter(p).all()`; `first()` is its first row
  pub query : (Row → Bool) → State → List Row
  -- `db.add(row)` and `db.commit()`
  pub add : Row → Run State (Unit {0})
  -- a loaded row, changed and committed
  pub save : Row → Row → Run State (Unit {0})
  -- `db.delete(row)` and `db.commit()`
  pub remove : Row → Run State (Unit {0})
  -- `db.query(Row).filter(p).delete()` and `db.commit()`
  pub delete : (Row → Bool) → Run State (Unit {0})
  pub query-filter :
      (p q : Row → Bool) (s : State) → filter q (query p s) ≡ query (λ r. p r && q r) s
  pub add_kept :
      (r : Row) (p : Row → Bool) (s : State) → p r ≡ false → query p (add r s).1 ≡ query p s
  pub save_kept :
      (r r' : Row) (p : Row → Bool) (s : State)
      → p r ≡ false
      → p r' ≡ false
      → query p (save r r' s).1 ≡ query p s
  pub remove_kept :
      (r : Row) (p : Row → Bool) (s : State) → p r ≡ false → query p (remove r s).1 ≡ query p s
  pub delete_kept :
      (q p : Row → Bool) (s : State)
      → ((r : Row) → (q r && p r) ≡ false)
      → query p (delete q s).1 ≡ query p s
  pub delete_gone :
      (q : Row → Bool) (s : State) → (delete q s).0 ≡ ok tt → query q (delete q s).1 ≡ []
  pub query_sound : (p : Row → Bool) (s : State) → all p (query p s) ≡ true

-- A table in memory, for rows that can be compared.
module _ {Row : Type 0} (same_row : Row → Row → Bool)
    (same_row_sound : (a b : Row) → same_row a b ≡ true → a ≡ b) where
  abbrev replace : Row → Row → List Row → List Row
  replace r r' [] = []
  replace r r' (x ∷ xs) = let rest = replace r r' xs in if same_row x r then r' ∷ rest else x ∷ rest

  pub filter-filter :
      (p q : Row → Bool) (xs : List Row) → filter q (filter p xs) ≡ filter (λ r. p r && q r) xs
  filter-filter p q [] = refl
  filter-filter p q (x ∷ xs) = ground (arith, filter-filter p q xs)

  pub filter-append :
      (p : Row → Bool) (r : Row) (xs : List Row)
      → p r ≡ false
      → filter p (xs ++ r ∷ []) ≡ filter p xs
  filter-append p r [] h = ground arith
  filter-append p r (x ∷ xs) h = ground (arith, filter-append p r xs h)

  pub filter-replace :
      (r r' : Row) (p : Row → Bool) (xs : List Row)
      → p r ≡ false
      → p r' ≡ false
      → filter p (replace r r' xs) ≡ filter p xs
  filter-replace r r' p [] h h' = refl
  filter-replace r r' p (x ∷ xs) h h' =
      ground (arith, filter-replace r r' p xs h h', same_row_sound x r)

  pub filter-disjoint :
      (q p : Row → Bool) (xs : List Row)
      → ((r : Row) → (q r && p r) ≡ false)
      → filter p (filter (λ r. not (q r)) xs) ≡ filter p xs
  filter-disjoint q p [] h = refl
  filter-disjoint q p (x ∷ xs) h = ground (arith, h x, filter-disjoint q p xs h)

  pub filter-not : (q : Row → Bool) (xs : List Row) → filter q (filter (λ r. not (q r)) xs) ≡ []
  filter-not q [] = refl
  filter-not q (x ∷ xs) = ground (arith, filter-not q xs)

  pub all-filter : (p : Row → Bool) (xs : List Row) → all p (filter p xs) ≡ true
  all-filter p [] = refl
  all-filter p (x ∷ xs) = ground (arith, all-filter p xs)

  pub remove_lem :
      (r : Row) (p : Row → Bool) → p r ≡ false → (x : Row) → (same_row x r && p x) ≡ false
  remove_lem r p h x = ground (arith, same_row_sound x r)

  abbrev pub memory_table : Table Row
  memory_table = record {
    State = List Row;
    query = filter;
    add = λ r s. (ok tt, s ++ r ∷ []);
    save = λ r r' s. (ok tt, replace r r' s);
    remove = λ r s. (ok tt, filter (λ x. not (same_row x r)) s);
    delete = λ q s. (ok tt, filter (λ x. not (q x)) s);
    query-filter = filter-filter;
    add_kept = λ r p s h. filter-append p r s h;
    save_kept = λ r r' p s h h'. filter-replace r r' p s h h';
    remove_kept = λ r p s h. filter-disjoint (λ x. same_row x r) p s (remove_lem r p h);
    delete_kept = λ q p s h. filter-disjoint q p s h;
    delete_gone = λ q s h. filter-not q s;
    query_sound = all-filter;
  }
