-- ===== src/Gateway/Persistence/Table.antt =====
-- What services/mcp-gateway/src/mcp_ops_mcp_gateway/persistence.py uses of a table of the database, and a
-- list of rows as one that has it. A session writes to the tables where it commits.
use mcp_ai.Prelude.{
  ℕ, String, Option, some, ◌++◌, ◌==◌, string_eq, ◌+◌, ◌≡◌, refl, Bool, not, ◌&&◌, List, [], ◌∷◌,
  filterb, if◌then◌else◌, arith,
}
use mcp_ai.Prelude.Dict.{Dict, get, put, get-put}
use mcp_ai.Prelude.Exec.{Exec, Result, ok, err}

-- rows that are added, counted by a condition and deleted by one
pub record Table (Row : Type 0) : Type 1 where
  pub Rows : Type 0
  pub empty : Rows
  pub add : Row → Rows → Rows
  pub count_where : (Row → Bool) → Rows → ℕ
  pub delete_where : (Row → Bool) → Rows → Rows
  pub count-empty : (p : Row → Bool) → count_where p empty ≡ 0
  pub count-add :
      (p : Row → Bool) (r : Row) (t : Rows)
      → count_where p (add r t) ≡ count_where p t + (if p r then 1 else 0)
  pub count-delete :
      (p q : Row → Bool) (t : Rows)
      → count_where p (delete_where q t) ≡ count_where (λ r. p r && not (q r)) t

-- rows by their identifiers: `session.get`, and `session.merge` or the `session.add` of a new one
pub record KeyedTable (Row : Type 0) : Type 1 where
  pub Rows : Type 0
  pub find : String → Rows → Option Row
  pub merge : String → Row → Rows → Rows
  pub find-merge :
      (k j : String) (r : Row) (t : Rows)
      → find j (merge k r t) ≡ (if k == j then some r else find j t)

-- rows that are numbered as they are added, by an autoincremented key, and read in the order of the key
pub record NumberedTable (Row : Type 0) : Type 1 where
  pub Rows : Type 0
  pub add : Row → Rows → Rows
  pub rows : Rows → List Row
  pub rows-add : (r : Row) (t : Rows) → rows (add r t) ≡ rows t ++ r ∷ []

module _ {Row : Type 0} where
  unfoldable pub count_rows : (Row → Bool) → List Row → ℕ
  count_rows p [] = 0
  count_rows p (r ∷ rs) = count_rows p rs + (if p r then 1 else 0)

  pub count_rows-empty : (p : Row → Bool) → count_rows p [] ≡ 0
  unfolding count_rows
  count_rows-empty p = refl

  pub count_rows-add :
      (p : Row → Bool) (r : Row) (rs : List Row)
      → count_rows p (r ∷ rs) ≡ count_rows p rs + (if p r then 1 else 0)
  unfolding count_rows
  count_rows-add p r rs = refl

  pub count_rows-delete :
      (p q : Row → Bool) (rs : List Row)
      → count_rows p (filterb (λ r. not (q r)) rs) ≡ count_rows (λ r. p r && not (q r)) rs
  unfolding count_rows filterb
  count_rows-delete p q [] = refl
  count_rows-delete p q (r ∷ rs) = ground (arith, count_rows-delete p q rs, q r, p r)

  -- the rows as a list, the newest first
  abbrev pub list_table : Table Row
  list_table = record {
    Rows = List Row;
    empty = [];
    add = λ r rs. r ∷ rs;
    count_where = count_rows;
    delete_where = λ q rs. filterb (λ r. not (q r)) rs;
    count-empty = count_rows-empty;
    count-add = count_rows-add;
    count-delete = count_rows-delete;
  }

module _ {Row : Type 0} where
  abbrev pub dict_table : KeyedTable Row
  dict_table = record { Rows = Dict String Row; find = get; merge = put; find-merge = get-put }

  abbrev pub list_numbered : NumberedTable Row
  list_numbered = record {
    Rows = List Row;
    add = λ r rs. rs ++ r ∷ [];
    rows = λ rs. rs;
    rows-add = λ r rs. refl;
  }

module _ {E S A : Type 0} where
  -- what a session leaves behind that raises, or else commits
  abbrev pub settled : S → Result E A × S → Result E A × S
  settled s (ok a, t) = (ok a, t)
  settled s (err e, t) = (err e, s)

  abbrev pub transaction : Exec E S A → Exec E S A
  transaction m s = settled s (m s)
