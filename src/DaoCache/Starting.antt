-- ===== src/DaoCache/Starting.antt =====
-- chats/p2p/server/dao/dao-cache.c: setting the cache up from a table.
use chats.Prelude.{
  ℕ, ◌≡◌, ◌≢◌, refl, Bool, true, false, not, ◌&&◌, none, some, Option, List, [], ◌∷◌, ◌==◌, arith,
  Bool-cases, inl, inr,
}
use chats.Prelude.Int.{ℤ}
use chats.LinkedList.{Ptr, null, ListElement, LinkedList, Memory, Allocation, list_init, put_list}
use chats.LinkedList.Chain.{IsList}
use chats.LinkedList.Links.{not_null}
use chats.LinkedList.Making.{list_init-IsList, list_init-other, list_first_element-nil}
use chats.AvlTree.Nodes.{Tree, leaf}
use chats.AvlTree.{avl_tree_init}
use chats.HashMap.{hash_map_init}
use chats.Dao.{Sqlite, Dao, DaoClient, Rows, Step, sqlite_ok, dao_init, dao_list_clients}
use chats.Dao.Listing.{steps_of, dao_list_clients-Listed}
use chats.DaoCache.{DaoCache, Room}
use chats.DaoCache.Changes.{dao_cache_init, fill_loop}

-- The cache behind a `dao_cache_init` that gives up: as before, but for the memory of the lists.
pub record GivenUp (s s' : DaoCache) : Type 0 where
  pub memory : Memory
  pub cache : s' ≡ record s { rows = record s.rows { memory = memory } }

-- The cache behind one that succeeds: two lists without elements, at `dao_list` and `dce_list`, three
-- empty maps, the object `dao`, and a free mutex.
pub record SetUp (dao : Dao) (dao_list dce_list : Ptr) (s' : DaoCache) : Type 0 where
  pub initialized : s'.initialized ≡ true
  pub dao_ : s'.dao ≡ some dao
  pub clients : (s'.dao_list ≡ dao_list) × IsList s'.rows.memory dao_list []
  pub elements : (s'.dce_list ≡ dce_list) × IsList s'.rows.memory dce_list []
  pub maps :
      (s'.hm_by_id.root ≡ leaf) × (s'.hm_by_nickname.root ≡ leaf) × (s'.hm_by_addr.root ≡ leaf)
  pub mtx : s'.mtx ≡ 0

-- By the result.
abbrev pub Outcome : Bool → Dao → (dao_list dce_list : Ptr) → (s s' : DaoCache) → Type 0
Outcome true dao dao_list dce_list s s' = SetUp dao dao_list dce_list s'
Outcome false dao dao_list dce_list s s' = GivenUp s s'

abbrev pub has_no_rows : {A : Type 0} → List A → Bool
has_no_rows [] = true
has_no_rows (row ∷ rows) = false

module _ (shifted : ℕ → ℕ → ℕ) (returned : Ptr → Ptr) (uninit : ℕ → ℕ)
    (fall_off : Tree → Option Tree) (sqlite : Sqlite) (raw : Dao) (db : Ptr) (size size' : ℕ)
    (m m' : Allocation LinkedList) (end : Step) (nohash pearson : List ℕ → ℤ) (rooms : List Room)
    (s : DaoCache) where
  -- The call, with a database that opens as `db`, and the rows of its table.
  abbrev pub init_from : List (DaoClient × Allocation ListElement) → Option (Bool × DaoCache)
  init_from rows =
      dao_cache_init shifted returned uninit fall_off true (dao_init true raw (sqlite_ok, db))
        (λ dao. dao_list_clients returned sqlite dao size m (steps_of rows end) s.rows) size' m'
        nohash pearson rooms s

  -- The list of the rows, with the rows of the table.
  abbrev listed : List (DaoClient × Allocation ListElement) → Option (Ptr × Rows)
  listed rows =
      dao_list_clients returned sqlite (some (record raw { mtx = 0 })) size m (steps_of rows end)
        s.rows

  init_gives_up :
      (rows : List (DaoClient × Allocation ListElement)) (r : Rows)
      → listed rows ≡ some (null, r)
      → init_from rows ≡ some (false, record s { rows = r })
  unfolding dao_cache_init dao_init
  init_gives_up rows r e = simp e refl

  -- The cache before its loop over the rows.
  abbrev prepared : Memory → DaoCache
  prepared memory = record s {
    dao = some (record raw { mtx = 0 });
    dao_list = m.address;
    dce_list = m'.address;
    mtx = 0;
    hm_by_id = hash_map_init s.hm_by_id nohash;
    hm_by_nickname = hash_map_init s.hm_by_nickname pearson;
    hm_by_addr = hash_map_init s.hm_by_addr pearson;
    rows = record s.rows { memory = memory };
  }

  fill_loop-null :
      (rooms : List Room) (c : DaoCache)
      → fill_loop shifted returned uninit fall_off rooms null c ≡ some c
  unfolding fill_loop
  fill_loop-null [] c = refl
  fill_loop-null (room ∷ rooms) c = refl

  init_succeeds :
      (made : Memory)
      → m.address ≢ null
      → m'.address ≢ null
      → m'.address ≢ m.address
      → listed [] ≡ some (m.address, record s.rows { memory = made })
      → IsList made m.address []
      → (s' : DaoCache) × (init_from [] ≡ some (true, s'))
        × SetUp (record raw { mtx = 0 }) m.address m'.address s'
  unfolding dao_cache_init dao_init hash_map_init avl_tree_init
  init_succeeds made a a' apart e is =
      let (at_, is') = list_init-IsList m' size' made a' in
      let memory = (list_init m' size' made).1 in
      let others = list_init-other m' size' made m.address [] apart is in
      (
        record (prepared memory) { initialized = true },
        simp
            (
              e,
              at_,
              not_null m.address a,
              not_null m'.address a',
              list_first_element-nil memory m.address others,
              fill_loop-null rooms (prepared memory),
            )
            refl,
        record {
          initialized = refl;
          dao_ = refl;
          clients = (refl, others);
          elements = (refl, is');
          maps = (refl, refl, refl);
          mtx = refl;
        },
      )

  -- On a handle that SQLite takes, the rows decide.
  init_from_rows :
      (rows : List (DaoClient × Allocation ListElement))
      → raw.db ≢ null
      → sqlite.prepare raw.db ≡ sqlite_ok
      → m.address ≢ null
      → m'.address ≢ null
      → m'.address ≢ m.address
      → (s' : DaoCache) × (init_from rows ≡ some (has_no_rows rows, s'))
        × Outcome (has_no_rows rows) (record raw { mtx = 0 }) m.address m'.address s s'
  init_from_rows [] n ok a a' apart =
      let (lists, is) =
        dao_list_clients-Listed returned sqlite (record raw { mtx = 0 }) size m [] end s.rows n ok
          a in
      init_succeeds (list_init m size s.rows.memory).1 a a' apart lists is
  init_from_rows (row ∷ rows) n ok a a' apart =
      let freed = put_list m.address none (list_init m size s.rows.memory).1 in
      let refused =
        dao_list_clients-Listed returned sqlite (record raw { mtx = 0 }) size m (row ∷ rows) end
          s.rows n ok a in
      (
        record s { rows = record s.rows { memory = freed } },
        init_gives_up (row ∷ rows) (record s.rows { memory = freed }) refused.0,
        record { memory = freed; cache = refl },
      )

  -- `dao_cache_init` with a database that opens and whose lists are allocated, apart from one another.
  -- It succeeds exactly where the handle that the memory of the object happens to hold is not NULL,
  -- SQLite prepares a statement on it, and the table has no row. Then the cache has two lists without
  -- elements and three empty maps. Otherwise it gives false, and the cache is as before, but for the
  -- list that was made and freed.
  pub dao_cache_init-Outcome :
      (rows : List (DaoClient × Allocation ListElement))
      → m.address ≢ null
      → m'.address ≢ null
      → m'.address ≢ m.address
      → let result =
          not (raw.db == null) && (sqlite.prepare raw.db == sqlite_ok) && has_no_rows rows in
        (s' : DaoCache) × (init_from rows ≡ some (result, s'))
        × Outcome result (record raw { mtx = 0 }) m.address m'.address s s'
  unfolding dao_list_clients
  dao_cache_init-Outcome rows a a' apart = elim (Bool-cases (raw.db == null)) [
    | inl gone ↦ rw gone (
      record s { rows = s.rows },
      init_gives_up rows s.rows (simp gone refl),
      record { memory = s.rows.memory; cache = refl },
    )
    | inr there ↦ elim (Bool-cases (sqlite.prepare raw.db == sqlite_ok)) [
      | inl ok ↦
          rw (there, ok)
            (init_from_rows rows (ground (arith, there)) (ground (arith, ok)) a a' apart)
      | inr fails ↦
          rw (there, fails)
            (
              record s { rows = s.rows },
              init_gives_up rows s.rows (simp (there, fails) refl),
              record { memory = s.rows.memory; cache = refl },
            )
    ]
  ]
