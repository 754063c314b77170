-- ===== src/DaoCache.antt =====
-- chats/p2p/server/dao/dao-cache.c: the clients in memory, with maps by identifier, nickname and address.
-- A text is the list of its characters; a terminator stands behind them in memory. `none` is a fault,
-- or an assertion that fails.
pub mod Addresses
pub mod Changes
pub mod Starting
pub mod Adding
mod Tests
use chats.Prelude.{
  ℕ, Bool, true, false, not, ◌||◌, Option, none, some, List, [], ◌∷◌, ◌++◌, ◌==◌, if◌then◌else◌,
  ◌>>=◌, length, take,
}
use chats.Prelude.Int.{ℤ, pos, negsuc}
use chats.LinkedList.{
  Ptr, null, ListElement, LinkedList, Memory, Allocation, load, get_list_element, list_init,
  list_deinit, list_remove_element, list_first_element, list_next_element,
}
use chats.LinkedList.Adding.{list_append}
use chats.AvlTree.Nodes.{Cell, Tree}
use chats.HashMap.{
  HashMap, hash_map_init, hash_map_insert_by_hash, hash_map_remove_by_hash, hash_map_get_by_hash,
}
use chats.HashFunctions.{pearson_hash, pearson_hash_update}
use chats.Sockets.{lock, unlock}
use chats.Dao.{
  DaoClient, Dao, Sqlite, Rows, put_client, dao_deinit, dao_add_client, dao_remove_client_by_id,
}

abbrev pub c_string : List ℕ → List ℕ
c_string s = s ++ 0 ∷ []

unfoldable pub hash_nickname : (shifted : ℕ → ℕ → ℕ) → (nickname : List ℕ) → Option ℤ
hash_nickname shifted nickname = pearson_hash shifted (c_string nickname) (length nickname)

-- The host, a colon, and the port.
unfoldable pub hash_addr : (shifted : ℕ → ℕ → ℕ) → (host port : List ℕ) → Option ℤ
hash_addr shifted host port = do
  hash ← pearson_hash shifted (c_string host) (length host)
  hash1 ← pearson_hash_update hash (c_string (58 ∷ [])) 1
  pearson_hash_update hash1 (c_string port) (length port)

-- `struct dao_cache_element` less the nodes of the maps.
pub record CacheElement : Type 0 where
  pub id : ℤ
  pub hash_nickname : ℤ
  pub hash_addr : ℤ
  pub client : Ptr

-- `struct dao_cache`, with the memory that its lists are in.
pub record DaoCache : Type 0 where
  pub initialized : Bool
  pub mtx : ℕ
  pub dao : Option Dao
  pub dao_list : Ptr
  pub dce_list : Ptr
  pub hm_by_id : HashMap
  pub hm_by_nickname : HashMap
  pub hm_by_addr : HashMap
  pub rows : Rows
  pub elements : Ptr → CacheElement

-- What the allocations for an element give: the one of the list, and the nodes of the three maps.
pub record Room : Type 0 where
  pub element : Allocation ListElement
  pub by_id : Ptr
  pub by_nickname : Ptr
  pub by_addr : Ptr

abbrev pub locked : DaoCache → DaoCache
locked s = record s { mtx = lock s.mtx }

abbrev pub unlocked : DaoCache → DaoCache
unlocked s = record s { mtx = unlock s.mtx }

-- `node ? node->data : NULL`.
abbrev pub node_data : Option Cell → Ptr
node_data none = null
node_data (some c) = c.data_

unfoldable pub dao_cache_get_client_by_addr :
    (shifted : ℕ → ℕ → ℕ) → (host port : List ℕ) → DaoCache → Option Ptr
dao_cache_get_client_by_addr shifted host port s = if not s.initialized then none else do
  hash ← hash_addr shifted host port
  some (node_data (hash_map_get_by_hash (some s.hm_by_addr) hash))

unfoldable pub dao_cache_get_client_by_id : (id : ℤ) → DaoCache → Option Ptr
dao_cache_get_client_by_id id s =
    if not s.initialized then none else some (node_data (hash_map_get_by_hash (some s.hm_by_id) id))

unfoldable pub dao_cache_get_client_by_nickname :
    (shifted : ℕ → ℕ → ℕ) → (nickname : List ℕ) → DaoCache → Option Ptr
dao_cache_get_client_by_nickname shifted nickname s = if not s.initialized then none else do
  hash ← hash_nickname shifted nickname
  some (node_data (hash_map_get_by_hash (some s.hm_by_nickname) hash))

-- `returned` is what the functions of the list that end without a return give, `uninit` and `fall_off`
-- the same of the tree's.
module _ (shifted : ℕ → ℕ → ℕ) (returned : Ptr → Ptr) (uninit : ℕ → ℕ)
    (fall_off : Tree → Option Tree) where
  -- A new element for the client `cl`, in the list and in the maps.
  unfoldable pub add_element : Room → (cl : Ptr) → DaoCache → Option (Ptr × DaoCache)
  add_element room cl s = do
    (dc_el, memory) ← list_append returned room.element s.dce_list s.rows.memory
    if dc_el == null then none else do
      let c = s.rows.clients cl
      by_id ← hash_map_insert_by_hash uninit fall_off (some s.hm_by_id) c.id dc_el room.by_id
      nickname ← hash_nickname shifted c.nickname
      by_nickname ←
          hash_map_insert_by_hash uninit fall_off (some s.hm_by_nickname) nickname dc_el
            room.by_nickname
      addr ← hash_addr shifted c.host c.port
      by_addr ← hash_map_insert_by_hash uninit fall_off (some s.hm_by_addr) addr dc_el room.by_addr
      hm_by_id ← by_id
      hm_by_nickname ← by_nickname
      hm_by_addr ← by_addr
      let e : CacheElement = record {
        id = c.id;
        hash_nickname = nickname;
        hash_addr = addr;
        client = cl;
      }
      some (
        dc_el,
        record s {
          rows = record s.rows { memory = memory };
          elements = λ a. if a == dc_el then e else s.elements a;
          hm_by_id = hm_by_id;
          hm_by_nickname = hm_by_nickname;
          hm_by_addr = hm_by_addr;
        },
      )
