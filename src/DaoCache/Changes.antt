-- ===== src/DaoCache/Changes.antt =====
-- chats/p2p/server/dao/dao-cache.c: adding and removing clients, setting the cache up and taking it down.
use chats.Prelude.{
  ℕ, Bool, true, false, not, Option, none, some, List, [], ◌∷◌, ◌==◌, if◌then◌else◌, ◌>>=◌, take,
}
use chats.Prelude.Int.{ℤ, pos, negsuc}
use chats.LinkedList.{
  Ptr, null, LinkedList, Allocation, ListElement, load, get_list_element, list_init, list_deinit,
  list_remove_element, list_first_element, list_next_element,
}
use chats.LinkedList.Adding.{list_append}
use chats.AvlTree.Nodes.{Tree}
use chats.HashMap.{HashMap, hash_map_init, hash_map_remove_by_hash}
use chats.Dao.{Dao, DaoClient, Sqlite, Rows, put_client, dao_add_client, dao_remove_client_by_id}
use chats.DaoCache.{DaoCache, Room, locked, unlocked, hash_nickname, hash_addr, add_element}

-- The fields that `strncpy` fills, in an element whose identifier is not set yet.
abbrev pub copied : (nickname host port : List ℕ) → DaoClient → DaoClient
copied nickname host port c = record c {
  nickname = take 15 nickname;
  host = take 255 host;
  port = take 5 port;
}

abbrev pub is_zero : ℤ → Bool
is_zero (pos n) = n == 0
is_zero (negsuc n) = false

module _ (shifted : ℕ → ℕ → ℕ) (returned : Ptr → Ptr) (uninit : ℕ → ℕ)
    (fall_off : Tree → Option Tree) where
  -- `m` is the allocation of the client's element.
  unfoldable pub dao_cache_add_client :
      Sqlite
      → Allocation ListElement
      → Room
      → (nickname host port : Option (List ℕ)) → DaoCache
      → Option (Ptr × DaoCache)
  dao_cache_add_client sqlite m room nickname host port s =
      if not s.initialized then none else elim nickname [
        | none ↦ some (null, s)
        | some n ↦ elim host [
          | none ↦ some (null, s)
          | some h ↦ elim port [
            | none ↦ some (null, s)
            | some p ↦ do
              (cl, memory) ← list_append returned m s.dao_list s.rows.memory
              if cl == null then none else do
                let c = copied n h p (s.rows.clients cl)
                (id, dao) ← dao_add_client sqlite s.dao c
                let s1 : DaoCache = record (locked s) {
                  dao = dao;
                  rows =
                      put_client cl (record c { id = if is_zero id then c.id else id })
                        (record s.rows { memory = memory });
                }
                if is_zero id
                    then (do
                      memory1 ← list_remove_element s.dao_list cl memory
                      some (
                        null,
                        unlocked (record s1 { rows = record s1.rows { memory = memory1 } }),
                      ))
                    else (do
                      (dc_el, s2) ← add_element shifted returned uninit fall_off room cl s1
                      some (dc_el, unlocked s2))
          ]
        ]
      ]

  -- The element goes from the two lists; reading it through a pointer to no element is a fault.
  unfoldable pub remove_elements : (dce : Ptr) → DaoCache → Option DaoCache
  remove_elements dce s = do
    memory ← list_remove_element s.dao_list (s.elements dce).client s.rows.memory
    memory1 ← list_remove_element s.dce_list dce memory
    some (unlocked (record s { rows = record s.rows { memory = memory1 } }))

  unfoldable pub remove_from_map : (hash : ℤ) → HashMap → Option HashMap
  remove_from_map hash hm = hash_map_remove_by_hash uninit fall_off (some hm) hash >>= λ map. map

  -- The row goes first.
  unfoldable pub remove_row : Sqlite → (dce : Ptr) → DaoCache → Option DaoCache
  remove_row sqlite dce s = do
    found ← load (get_list_element dce) s.rows.memory
    dao ← dao_remove_client_by_id sqlite s.dao (s.elements dce).id
    some (record s { dao = dao })

  unfoldable pub dao_cache_remove_client : Sqlite → (dce : Ptr) → DaoCache → Option DaoCache
  dao_cache_remove_client sqlite dce s =
      if not s.initialized then none else if dce == null then some s else do
        s1 ← remove_row sqlite dce (locked s)
        let e = s1.elements dce
        by_id ← remove_from_map e.id s1.hm_by_id
        by_nickname ← remove_from_map e.hash_nickname s1.hm_by_nickname
        by_addr ← remove_from_map e.hash_addr s1.hm_by_addr
        remove_elements dce
            (record s1 { hm_by_id = by_id; hm_by_nickname = by_nickname; hm_by_addr = by_addr })

  -- `dce` is what `hash_map_remove_by_hash` returns: a pointer that it does not set.
  unfoldable pub dao_cache_remove_cient_by_id :
      Sqlite → (dce : Ptr) → (id : ℤ) → DaoCache → Option DaoCache
  dao_cache_remove_cient_by_id sqlite dce id s = if not s.initialized then none else do
    by_id ← remove_from_map id s.hm_by_id
    s1 ← remove_row sqlite dce (record (locked s) { hm_by_id = by_id })
    let e = s1.elements dce
    by_nickname ← remove_from_map e.hash_nickname s1.hm_by_nickname
    by_addr ← remove_from_map e.hash_addr s1.hm_by_addr
    remove_elements dce (record s1 { hm_by_nickname = by_nickname; hm_by_addr = by_addr })

  unfoldable pub dao_cache_remove_client_by_nickname :
      Sqlite → (dce : Ptr) → (nickname : Option (List ℕ)) → DaoCache → Option DaoCache
  dao_cache_remove_client_by_nickname sqlite dce nickname s =
      if not s.initialized then none else elim nickname [
        | none ↦ some s
        | some n ↦ do
          hash ← hash_nickname shifted n
          by_nickname ← remove_from_map hash s.hm_by_nickname
          s1 ← remove_row sqlite dce (record (locked s) { hm_by_nickname = by_nickname })
          let e = s1.elements dce
          by_id ← remove_from_map e.id s1.hm_by_id
          by_addr ← remove_from_map e.hash_addr s1.hm_by_addr
          remove_elements dce (record s1 { hm_by_id = by_id; hm_by_addr = by_addr })
      ]

  unfoldable pub dao_cache_remove_client_by_addr :
      Sqlite → (dce : Ptr) → (host port : Option (List ℕ)) → DaoCache → Option DaoCache
  dao_cache_remove_client_by_addr sqlite dce host port s =
      if not s.initialized then none else elim host [
        | none ↦ some s
        | some h ↦ elim port [
          | none ↦ some s
          | some p ↦ do
            hash ← hash_addr shifted h p
            by_addr ← remove_from_map hash s.hm_by_addr
            s1 ← remove_row sqlite dce (record (locked s) { hm_by_addr = by_addr })
            let e = s1.elements dce
            by_id ← remove_from_map e.id s1.hm_by_id
            by_nickname ← remove_from_map e.hash_nickname s1.hm_by_nickname
            remove_elements dce (record s1 { hm_by_id = by_id; hm_by_nickname = by_nickname })
        ]
      ]

  -- `for (cl = list_first_element(dao_list); cl; cl = list_next_element(dao_list, cl))`, with the
  -- allocations of each round.
  unfoldable pub fill_loop : List Room → (cl : Ptr) → DaoCache → Option DaoCache
  fill_loop [] cl s = if cl == null then some s else none
  fill_loop (room ∷ rooms) cl s = elim (cl == null) [
    | true ↦ some s
    | false ↦ add_element shifted returned uninit fall_off room cl s >>= λ r.
        (list_next_element s.dao_list cl r.1.rows.memory >>= λ next. fill_loop rooms next r.1)
  ]

  -- `dao` is the result of `dao_init`, `listed` that of `dao_list_clients`, and `made` the allocation of
  -- the list of elements. The hashers are those that the maps are given and that nothing here calls.
  unfoldable pub dao_cache_init :
      (db_path : Bool)
      → (dao : Option Dao) → (listed : Option Dao → Option (Ptr × Rows)) → (sizeof_element : ℕ)
      → Allocation LinkedList
      → (nohash pearson : List ℕ → ℤ) → List Room
      → DaoCache
      → Option (Bool × DaoCache)
  dao_cache_init db_path none listed sizeof_element m nohash pearson rooms s = some (false, s)
  dao_cache_init db_path (some dao) listed sizeof_element m nohash pearson rooms s =
      if not db_path then some (false, s) else do
        (dao_list, rows) ← listed (some dao)
        let (dce_list, memory) = list_init m sizeof_element rows.memory
        if dao_list == null
            then some (false, record s { rows = rows })
            else if dce_list == null
            then some (false, record s { rows = record rows { memory = memory } })
            else (do
              let s1 : DaoCache = record s {
                dao = some dao;
                dao_list = dao_list;
                dce_list = dce_list;
                mtx = 0;
                hm_by_id = hash_map_init s.hm_by_id nohash;
                hm_by_nickname = hash_map_init s.hm_by_nickname pearson;
                hm_by_addr = hash_map_init s.hm_by_addr pearson;
                rows = record rows { memory = memory };
              }
              first ← list_first_element dao_list memory
              s2 ← fill_loop rooms first s1
              some (true, record s2 { initialized = true }))

-- The nodes of the maps, which the code frees, are not tracked here.
unfoldable pub dao_cache_deinit : DaoCache → Option DaoCache
dao_cache_deinit s = if not s.initialized then none else do
  memory ← list_deinit s.dce_list s.rows.memory
  memory1 ← list_deinit s.dao_list memory
  some (
      unlocked (record (locked s) {
        rows = record s.rows { memory = memory1 };
        dce_list = null;
        dao_list = null;
        dao = none;
        initialized = false;
      }))

-- The client of an element.
abbrev pub client_of : (dce : Ptr) → DaoCache → DaoClient
client_of dce s = s.rows.clients (s.elements dce).client

unfoldable pub dao_cache_id : (dce : Ptr) → DaoCache → ℤ
dao_cache_id dce s = if dce == null then pos 0 else (client_of dce s).id

unfoldable pub dao_cache_nickname : (dce : Ptr) → DaoCache → Option (List ℕ)
dao_cache_nickname dce s = if dce == null then none else some (client_of dce s).nickname

unfoldable pub dao_cache_host : (dce : Ptr) → DaoCache → Option (List ℕ)
dao_cache_host dce s = if dce == null then none else some (client_of dce s).host

unfoldable pub dao_cache_port : (dce : Ptr) → DaoCache → Option (List ℕ)
dao_cache_port dce s = if dce == null then none else some (client_of dce s).port
