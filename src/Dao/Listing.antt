-- ===== src/Dao/Listing.antt =====
-- chats/p2p/server/dao/dao.c: what `dao_list_clients` makes of the rows of a table.
use chats.Prelude.{true, arith, ◌==◌, ℕ, ◌≡◌, ◌≢◌, refl, none, some, List, [], ◌∷◌}
use chats.LinkedList.{Ptr, null, ListElement, LinkedList, Allocation, put_list, list_init}
use chats.LinkedList.Chain.{IsList}
use chats.LinkedList.Links.{not_null}
use chats.LinkedList.Making.{list_init-IsList, list_deinit-list_init}
use chats.Dao.{
  Sqlite, DaoClient, Dao, Rows, Step, sqlite_ok, sqlite_row, sqlite_done, step_loop,
  dao_list_clients,
}

-- The results of `sqlite3_step` on a table with the rows `rows`: SQLITE_ROW at each, and SQLITE_DONE
-- behind the last one.
abbrev pub steps_of : List (DaoClient × Allocation ListElement) → Step → List Step
steps_of [] end = record end { code = sqlite_done } ∷ []
steps_of ((row, element) ∷ rows) end =
    record { code = sqlite_row; row = row; element = element } ∷ steps_of rows end

-- `dao_list_clients` of an open object, whose statement is prepared and whose list is allocated, comes to
-- its end. Of a table without rows it gives a list without elements; of any other it gives NULL, and
-- the list is freed: SQLITE_ROW is taken for an error. It copies no row.
pub dao_list_clients-Listed :
    (fall_off : Ptr → Ptr) (sqlite : Sqlite) (dao : Dao) (size : ℕ) (m : Allocation LinkedList)
    (rows : List (DaoClient × Allocation ListElement)) (end : Step) (r : Rows)
    → dao.db ≢ null
    → sqlite.prepare dao.db ≡ sqlite_ok
    → m.address ≢ null
    → let made = (list_init m size r.memory).1 in
      (dao_list_clients fall_off sqlite (some dao) size m (steps_of rows end) r
        ≡ some (elim rows [
          | [] ↦ (m.address, record r { memory = made })
          | _ ∷ _ ↦ (null, record r { memory = put_list m.address none made })
        ]))
      × IsList made m.address []
unfolding dao_list_clients step_loop
dao_list_clients-Listed fall_off sqlite dao size m [] end r n ok a =
    let prepared : (sqlite.prepare dao.db == sqlite_ok) ≡ true = ground (arith, ok) in
    let (at_, is) = list_init-IsList m size r.memory a in
    (simp (not_null dao.db n, prepared, at_) refl, is)
dao_list_clients-Listed fall_off sqlite dao size m (row ∷ rows) end r n ok a =
    let prepared : (sqlite.prepare dao.db == sqlite_ok) ≡ true = ground (arith, ok) in
    let (at_, is) = list_init-IsList m size r.memory a in
    (simp (not_null dao.db n, prepared, at_, list_deinit-list_init m size r.memory a) refl, is)
