-- ===== src/Server/Store/Sqlite/Rows.antt =====
-- A concrete engine, whose table is an association list and whose statements never fail: it has the
-- laws that are asked of SQLite.
use longhaul.Base.{
  String, ◌≡◌, refl, ◌∙◌, inl, Bool, true, false, ◌&&◌, Option, none, some, arith, eq_iff,
  if◌then◌else◌, ◌==◌, ok,
}
use longhaul.Base.Dict
use longhaul.Base.Dict.{Dict, get-insert}
use longhaul.Server.Store.Sqlite.Statements.{Engine, selected, has_status, cancelled_row, count_row}

abbrev changed : Bool → String → String → Dict String → Dict String
changed true id status d = Dict.insert id status d
changed false id status d = d

abbrev cancelled_rows : Option String → String → Dict String → Dict String
cancelled_rows none id d = d
cancelled_rows (some s) id d = Dict.insert id "cancelled" d

pub get-changed :
    (b : Bool) (id status k : String) (d : Dict String)
    → Dict.get (changed b id status d) k ≡ (if id == k && b then some status else Dict.get d k)
get-changed true id status k d = get-insert id k status d ∙ ground arith
get-changed false id status k d = ground arith

pub get-cancelled_rows :
    (o : Option String) (id k : String) (d : Dict String)
    → Dict.get d id ≡ o
    → Dict.get (cancelled_rows o id d) k ≡ (if id == k then cancelled_row o else Dict.get d k)
get-cancelled_rows none id k d h = ground (arith, eq_iff id k)
get-cancelled_rows (some s) id k d h = get-insert id k "cancelled" d

abbrev pub rows : Engine
rows = record {
  Db = Dict String;
  row = Dict.get;
  select_row = λ id d. (selected id (Dict.get d id), d);
  insert_or_replace = λ id status d. (ok 1, Dict.insert id status d);
  update_if = λ new id old d. (
    ok (count_row (has_status (Dict.get d id) old)),
    changed (has_status (Dict.get d id) old) id new d,
  );
  set_cancelled = λ id d. (ok 1, cancelled_rows (Dict.get d id) id d);
  select_lem = λ id d. (inl refl, λ k. refl);
  insert_lem = λ id status d. inl (1, refl, λ k. get-insert id k status d);
  update_lem =
      λ new id old d. inl (refl, λ k. get-changed (has_status (Dict.get d id) old) id new k d);
  cancel_lem = λ id d. inl (1, refl, λ k. get-cancelled_rows (Dict.get d id) id k d refl);
}
