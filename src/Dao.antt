-- ===== src/Dao.antt =====
-- chats/p2p/server/dao/dao.c: the requests on the table of clients. SQLite is an argument: what its
-- calls come to. A `dao_t *` is `none` where it is NULL, and a `char` array is the text in it.
pub mod Requests
pub mod Listing
mod Tests
use chats.Prelude.{
  ℕ, zero, suc, ◌+◌, Bool, true, false, not, ◌&&◌, ◌||◌, Option, none, some, List, [], ◌∷◌, ◌++◌,
  ◌==◌, if◌then◌else◌, ◌>>=◌, length, take, ltb, leb,
}
use chats.Prelude.Int.{ℤ, pos}
use chats.Prelude.Text.{text, pad, decimal}
use chats.Sockets.{lock, unlock}
use chats.LinkedList.{
  Ptr, null, ListElement, LinkedList, Memory, Allocation, list_init, list_deinit,
}
use chats.LinkedList.Adding.{list_append}

-- `dao_client_t`.
pub record DaoClient : Type 0 where
  pub id : ℤ
  pub nickname : List ℕ
  pub host : List ℕ
  pub port : List ℕ

-- `struct dao`, with the requests that were run, each on its handle, and the handles closed.
pub record Dao : Type 0 where
  pub mtx : ℕ
  pub db : Ptr
  pub executed : List (Ptr × List ℕ)
  pub closed : List Ptr

-- What the calls of SQLite come to on a handle, whatever handle that is: the codes of `sqlite3_exec`
-- and `sqlite3_prepare_v2`, and `sqlite3_last_insert_rowid`.
pub record Sqlite : Type 0 where
  pub exec : (db : Ptr) → (request : List ℕ) → ℕ
  pub prepare : (db : Ptr) → ℕ
  pub last_insert_rowid : (db : Ptr) → ℤ

abbrev pub sqlite_ok : ℕ
sqlite_ok = 0

abbrev pub sqlite_row : ℕ
sqlite_row = 100

abbrev pub sqlite_done : ℕ
sqlite_done = 101

-- `BUFFER(buffer)`.
abbrev pub buffer_length : ℕ
buffer_length = 1024

abbrev pub locked : Dao → Dao
locked dao = record dao { mtx = lock dao.mtx }

abbrev pub unlocked : Dao → Dao
unlocked dao = record dao { mtx = unlock dao.mtx }

-- `raw` is what the memory allocated holds, and `opened` what `sqlite3_open_v2` gives: its code and the
-- handle, which the code does not store.
unfoldable pub dao_init : (allocated : Bool) → (raw : Dao) → (opened : ℕ × Ptr) → Option Dao
dao_init allocated raw (rc, db) =
    if not allocated
    then none
    else if not (rc == sqlite_ok)
    then none
    else some (record raw { mtx = 0 })

unfoldable pub dao_deinit : Option Dao → Option Dao
dao_deinit none = none
dao_deinit (some dao) =
    some (unlocked (record (locked dao) { closed = dao.closed ++ dao.db ∷ []; db = null }))

abbrev pub add_client_request : DaoClient → List ℕ
add_client_request c =
    text "INSERT INTO clients (nickname, host, port) VALUES ('"
    ++ pad 15 c.nickname
    ++ text "', '"
    ++ pad 256 c.host
    ++ text "', '"
    ++ pad 5 c.port
    ++ text "')"

abbrev pub remove_client_by_nickname_request : (nickname : List ℕ) → List ℕ
remove_client_by_nickname_request nickname =
    text "DELETE FROM clients WHERE nickname = '" ++ pad 15 nickname ++ text "'"

abbrev pub remove_client_by_addr_request : (host port : List ℕ) → List ℕ
remove_client_by_addr_request host port =
    text "DELETE FROM clients WHERE host = '"
    ++ pad 256 host
    ++ text "' AND port = '"
    ++ pad 5 port
    ++ text "'"

abbrev pub remove_client_by_id_request : (id : ℤ) → List ℕ
remove_client_by_id_request id = text "DELETE FROM clients WHERE id = " ++ decimal id

-- What the four requests share behind the test of `dao`: whether SQLite ran the request, and the
-- object. `sprintf` gives no negative length for these formats, and writes a terminator as well;
-- behind the end of the buffer that is a fault.
unfoldable pub execute : Sqlite → (request : List ℕ) → Dao → Option (Bool × Dao)
execute sqlite request dao =
    if dao.db == null
    then some (false, unlocked (locked dao))
    else if leb buffer_length (length request)
    then none
    else some (
      sqlite.exec dao.db request == sqlite_ok,
      unlocked (record (locked dao) { executed = dao.executed ++ (dao.db, request) ∷ [] }),
    )

-- The identifier, 0 where the request failed.
unfoldable pub dao_add_client : Sqlite → Option Dao → DaoClient → Option (ℤ × Option Dao)
dao_add_client sqlite none client = some (pos 0, none)
dao_add_client sqlite (some dao) client = do
  (ran, dao') ← execute sqlite (add_client_request client) dao
  some (if ran then sqlite.last_insert_rowid dao.db else pos 0, some dao')

abbrev pub remove_client : Sqlite → (request : List ℕ) → Option Dao → Option (Option Dao)
remove_client sqlite request none = some none
remove_client sqlite request (some dao) = do
  (ran, dao') ← execute sqlite request dao
  some (some dao')

unfoldable pub dao_remove_client_by_id : Sqlite → Option Dao → (id : ℤ) → Option (Option Dao)
dao_remove_client_by_id sqlite dao id = remove_client sqlite (remove_client_by_id_request id) dao

unfoldable pub dao_remove_client_by_nickname :
    Sqlite → Option Dao → (nickname : List ℕ) → Option (Option Dao)
dao_remove_client_by_nickname sqlite dao nickname =
    remove_client sqlite (remove_client_by_nickname_request nickname) dao

unfoldable pub dao_remove_client_by_addr :
    Sqlite → Option Dao → (host port : List ℕ) → Option (Option Dao)
dao_remove_client_by_addr sqlite dao host port =
    remove_client sqlite (remove_client_by_addr_request host port) dao

-- The memory of the lists, and the data of their elements.
pub record Rows : Type 0 where
  pub memory : Memory
  pub clients : Ptr → DaoClient

-- What `sqlite3_step` gives: its code, the columns of the row, and what the allocation of an element
-- for it would give.
pub record Step : Type 0 where
  pub code : ℕ
  pub row : DaoClient
  pub element : Allocation ListElement

-- A row copied into the arrays of a `dao_client_t`, each with its terminator.
abbrev pub fetch : DaoClient → DaoClient
fetch row = record {
  id = row.id;
  nickname = take 15 row.nickname;
  host = take 255 row.host;
  port = take 5 row.port;
}

abbrev pub put_client : Ptr → DaoClient → Rows → Rows
put_client dc c r = record r { clients = λ a. if a == dc then c else r.clients a }

module _ (fall_off : Ptr → Ptr) where
  -- The loop over the rows, with the code that it is left with. `steps` are the results of the calls;
  -- where they end before the loop is left, so does the run.
  unfoldable pub step_loop : (steps : List Step) → (list : Ptr) → Rows → Option (ℕ × Rows)
  step_loop [] list r = none
  step_loop (st ∷ steps) list r = elim ((st.code == sqlite_done) || not (st.code == sqlite_ok)) [
    | true ↦ some (st.code, r)
    | false ↦ list_append fall_off st.element list r.memory >>= λ a. elim (a.0 == null) [
      | true ↦ none
      | false ↦ step_loop steps list (put_client a.0 (fetch st.row) (record r { memory = a.1 }))
    ]
  ]

  -- `m` is the allocation of the list. The list, NULL
  -- where there is none. The mutex is given back on every branch.
  unfoldable pub dao_list_clients :
      Sqlite
      → Option Dao
      → (sizeof_client : ℕ) → Allocation LinkedList
      → (steps : List Step) → Rows
      → Option (Ptr × Rows)
  dao_list_clients sqlite none sizeof_client m steps r = some (null, r)
  dao_list_clients sqlite (some dao) sizeof_client m steps r =
      if (dao.db == null) || not (sqlite.prepare dao.db == sqlite_ok) then some (null, r) else do
        let (list, memory) = list_init m sizeof_client r.memory
        (rc, r1) ← step_loop steps list (record r { memory = memory })
        if not ((rc == sqlite_done) || (rc == sqlite_ok))
            then (do freed ← list_deinit list r1.memory; some (null, record r1 { memory = freed }))
            else some (list, r1)
