-- ===== src/DaoCache/Adding.antt =====
-- chats/p2p/server/dao/dao-cache.c: a client that the database does not take.
use mathlib.Core.List.{append-nil}
use chats.Prelude.{
  ℕ, suc, ◌+◌, ◌-◌, ◌<◌, ◌^◌, ◌≡◌, refl, true, false, none, some, Option, List, [], arith, ◌==◌,
  length,
}
use chats.Prelude.Int.{pos}
use chats.LinkedList.{Ptr, null, data_of, ListElement, Allocation}
use chats.LinkedList.Chain.{IsList}
use chats.LinkedList.Growth.{IsFresh, list_append-Changed}
use chats.LinkedList.Removal.{list_remove-Removed}
use chats.AvlTree.Nodes.{Tree}
use chats.Dao.{Dao, Sqlite, put_client, dao_add_client}
use chats.DaoCache.{DaoCache, Room}
use chats.DaoCache.Changes.{copied, dao_cache_add_client}

-- The clients `xs` are listed as before, the element at `m` is freed, and the maps are as before.
pub record Undone (s s' : DaoCache) (xs : List Ptr) (m : Ptr) : Type 0 where
  pub listed : IsList s'.rows.memory s.dao_list xs
  pub freed : s'.rows.memory.elements m ≡ none
  pub by_id : s'.hm_by_id ≡ s.hm_by_id
  pub by_nickname : s'.hm_by_nickname ≡ s.hm_by_nickname
  pub by_addr : s'.hm_by_addr ≡ s.hm_by_addr
  pub elements : s'.elements ≡ s.elements
  pub mtx : s'.mtx ≡ s.mtx

-- `dao_cache_add_client` of a cache that is set up and lists the clients `xs`, with all three texts,
-- where the element is allocated and the count does not overflow, but `dao_add_client` gives 0: it
-- comes to its end with NULL, the clients are listed as before, the new element is freed, the maps
-- are as before, and the mutex is given back.
pub dao_cache_add_client-Undone :
    (shifted : ℕ → ℕ → ℕ) (returned : Ptr → Ptr) (uninit : ℕ → ℕ) (fall_off : Tree → Option Tree)
    (sqlite : Sqlite) (m : Allocation ListElement) (room : Room) (nickname host port : List ℕ)
    (dao : Option Dao) (s : DaoCache) (xs : List Ptr)
    → s.initialized ≡ true
    → IsFresh returned m s.rows.memory
    → IsList s.rows.memory s.dao_list xs
    → suc (length xs) < 2 ^ 64
    → dao_add_client sqlite s.dao (copied nickname host port (s.rows.clients (data_of m.address)))
      ≡ some (pos 0, dao)
    → (s' : DaoCache) × (dao_cache_add_client shifted returned uninit fall_off sqlite m room
          (some nickname)
          (some host)
          (some port)
          s
        ≡ some (null, s'))
      × Undone s s' xs m.address
unfolding dao_cache_add_client
dao_cache_add_client-Undone shifted returned uninit fall_off sqlite m room nickname host port dao s
      xs set f is fits refused =
    let (memory, appended, changed) =
      list_append-Changed returned m s.dao_list s.rows.memory xs f is fits in
    let there : (data_of m.address == null) ≡ false = ground arith in
    let (memory', removed_, next, prev, r) =
      list_remove-Removed s.dao_list m.address memory xs [] changed.is_list in
    let cl = data_of m.address in
    let c = copied nickname host port (s.rows.clients cl) in
    (
      record s {
        mtx = s.mtx + 1 - 1;
        dao = dao;
        rows = put_client cl c (record s.rows { memory = memory' });
      },
      simp (set, appended, there, refused, removed_) refl,
      record {
        listed = rw (append-nil xs) at r.is_list;
        freed = r.freed;
        by_id = refl;
        by_nickname = refl;
        by_addr = refl;
        elements = refl;
        mtx = omega arith;
      },
    )
