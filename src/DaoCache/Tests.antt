-- ===== src/DaoCache/Tests.antt =====
-- chats/p2p/server/dao/dao-cache.c: the theorems at concrete caches.
use chats.Prelude.{ℕ, ◌≡◌, refl, true, false, none, some, List, [], ◌∷◌, arith}
use chats.Prelude.Int.{ℤ, pos}
use chats.Prelude.Text.{text}
use chats.LinkedList.{Ptr, ListElement, LinkedList, Allocation, list_init}
use chats.LinkedList.Chain.{element}
use chats.AvlTree.Nodes.{leaf}
use chats.HashMap.{HashMap}
use chats.LinkedList.Making.{list_init-IsList}
use chats.Dao.{Dao, DaoClient, Rows, Step, Sqlite, dao_add_client, execute}
use chats.DaoCache.{DaoCache, Room, dao_cache_get_client_by_addr}
use chats.DaoCache.Addresses.{dao_cache_get_client_by_addr-Same}
use chats.DaoCache.Adding.{Undone, dao_cache_add_client-Undone}
use chats.DaoCache.Changes.{dao_cache_add_client}
use chats.DaoCache.Starting.{Outcome, init_from, dao_cache_init-Outcome}

abbrev hasher : List ℕ → ℤ
hasher key = pos 0

abbrev map : HashMap
map = record { hasher = hasher; root = leaf; addr = 4000 }

abbrev raw : Dao
raw = record { mtx = 9; db = 77; executed = []; closed = [] }

abbrev client : DaoClient
client = record { id = pos 1; nickname = text "ann"; host = text "10.0.0.1"; port = text "1080" }

abbrev rows : Rows
rows = record { memory = record { elements = λ a. none; lists = λ a. none }; clients = λ a. client }

abbrev cache : DaoCache
cache = record {
  initialized = true;
  mtx = 0;
  dao = some raw;
  dao_list = 1000;
  dce_list = 2000;
  hm_by_id = map;
  hm_by_nickname = map;
  hm_by_addr = map;
  rows = rows;
  elements = λ a. record { id = pos 0; hash_nickname = pos 0; hash_addr = pos 0; client = 0 };
}

dao_cache_get_client_by_addr-Same_example :
    (dce : Ptr) × (dao_cache_get_client_by_addr (λ h count. 0) client.host (text "1080") cache
      ≡ some dce)
    × (dao_cache_get_client_by_addr (λ h count. 0) client.host (text "8080") cache ≡ some dce)
dao_cache_get_client_by_addr-Same_example =
    dao_cache_get_client_by_addr-Same (λ h count. 0) client.host (text "080") 49 56 cache refl

abbrev block : Allocation ListElement
block = record { address = 300; contents = element 7 7 7 }

abbrev list_block : Ptr → Allocation LinkedList
list_block a = record {
  address = a;
  contents = record { count = 7; element_size = 7; first = 7; last = 7 };
}

abbrev last_step : Step
last_step = record { code = 0; row = client; element = block }

abbrev sqlite : Sqlite
sqlite = record { prepare = λ db. 0; exec = λ db request. 0; last_insert_rowid = λ db. pos 5 }

-- One row: the list of clients is taken for a failure.
dao_cache_init-Outcome_example :
    (s' : DaoCache) × (init_from
        (λ h count. 0)
        (λ p. p)
        (λ a. a)
        (λ t. some t)
        sqlite
        raw
        1234
        304
        56
        (list_block 1000)
        (list_block 2000)
        last_step
        hasher
        hasher
        []
        cache
        ((client, block) ∷ [])
      ≡ some (false, s'))
    × Outcome false (record raw { mtx = 0 }) 1000 2000 cache s'
dao_cache_init-Outcome_example =
    dao_cache_init-Outcome (λ h count. 0) (λ p. p) (λ a. a) (λ t. some t) sqlite raw 1234 304 56
      (list_block 1000) (list_block 2000) last_step hasher hasher [] cache ((client, block) ∷ [])
      (omega arith) (omega arith) (omega arith)

-- A cache with an empty list of clients, whose database is not open.
abbrev closed_cache : DaoCache
closed_cache = record cache {
  dao = some (record raw { db = 0 });
  rows = record rows { memory = (list_init (list_block 1000) 304 rows.memory).1 };
}

abbrev room : Room
room = record { element = block; by_id = 500; by_nickname = 600; by_addr = 700 }

dao_cache_add_client-Undone_example :
    (s' : DaoCache) × (dao_cache_add_client
        (λ h count. 0)
        (λ p. p)
        (λ a. a)
        (λ t. some t)
        sqlite
        block
        room
        (some (text "bob"))
        (some (text "10.0.0.2"))
        (some (text "1080"))
        closed_cache
      ≡ some (0, s'))
    × Undone closed_cache s' [] 300
unfolding dao_add_client execute list_init
dao_cache_add_client-Undone_example =
    dao_cache_add_client-Undone (λ h count. 0) (λ p. p) (λ a. a) (λ t. some t) sqlite block room
      (text "bob") (text "10.0.0.2") (text "1080") (some (record raw { mtx = 9; db = 0 }))
      closed_cache [] refl (record { returned = refl; given = omega arith; unused = refl })
      (list_init-IsList (list_block 1000) 304 rows.memory (omega arith)).1 (omega arith) refl
