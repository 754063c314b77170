-- ===== src/Dao/Tests.antt =====
-- chats/p2p/server/dao/dao.c: the operations on a concrete object, and the theorems applied to them.
use chats.Prelude.{◌≡◌, refl, true, none, some, [], ◌∷◌, arith}
use chats.Prelude.Int.{pos, negsuc}
use chats.Prelude.Text.{text, decimal}
use chats.LinkedList.{null, ListElement, LinkedList, Allocation, list_init, put_list}
use chats.LinkedList.Chain.{element, IsList}
use chats.Dao.{
  Dao, DaoClient, Sqlite, Rows, Step, sqlite_ok, fetch, add_client_request,
  remove_client_by_id_request, remove_client_by_nickname_request, remove_client_by_addr_request,
  dao_init, dao_add_client, dao_remove_client_by_id, dao_remove_client_by_nickname,
  dao_remove_client_by_addr, dao_list_clients,
}
use chats.Dao.Requests.{Fits, ran, dao_add_client-Outcome, dao_remove_client-Outcome}
use chats.Dao.Listing.{steps_of, dao_list_clients-Listed}

abbrev dao : Dao
dao = record { mtx = 0; db = 77; executed = []; closed = [] }

-- SQLite that takes every request.
abbrev sqlite : Sqlite
sqlite = record { exec = λ db request. 0; prepare = λ db. 0; last_insert_rowid = λ db. pos 5 }

abbrev client : DaoClient
client = record { id = pos 0; nickname = text "ann"; host = text "127.0.0.1"; port = text "8080" }

-- The handle that was opened is not the one that is kept.
init_keeps_raw : dao_init true dao (sqlite_ok, 1234) ≡ some dao
unfolding dao_init
init_keeps_raw = refl

decimals :
    (decimal (pos 0) ≡ text "0")
    × (decimal (pos 9223372036854775807) ≡ text "9223372036854775807")
    × (decimal (negsuc 41) ≡ text "-42")
unfolding decimal
decimals = (refl, refl, refl)

by_id_text : remove_client_by_id_request (pos 12) ≡ text "DELETE FROM clients WHERE id = 12"
unfolding decimal
by_id_text = refl

dao_add_client-Outcome_example :
    (dao_add_client sqlite (some dao) client
      ≡ some (pos 5, some (ran (add_client_request client) dao)))
    × (dao_add_client sqlite (some (record dao { db = null })) client
        ≡ some (pos 0, some (record dao { db = null })))
    × Fits (fetch client)
dao_add_client-Outcome_example =
    dao_add_client-Outcome sqlite dao client (omega arith)
      (record { nickname = omega arith; host = omega arith; port = omega arith })

dao_remove_client-Outcome_example :
    (dao_remove_client_by_id sqlite (some dao) (pos 12)
      ≡ some (some (ran (remove_client_by_id_request (pos 12)) dao)))
    × (dao_remove_client_by_nickname sqlite (some dao) client.nickname
        ≡ some (some (ran (remove_client_by_nickname_request client.nickname) dao)))
    × (dao_remove_client_by_addr sqlite (some dao) client.host client.port
        ≡ some (some (ran (remove_client_by_addr_request client.host client.port) dao)))
dao_remove_client-Outcome_example =
    dao_remove_client-Outcome sqlite dao (pos 12) client.nickname client.host client.port
      (omega arith)

abbrev rows : Rows
rows = record { memory = record { elements = λ a. none; lists = λ a. none }; clients = λ a. client }

abbrev list_block : Allocation LinkedList
list_block = record {
  address = 1000;
  contents = record { count = 7; element_size = 7; first = 7; last = 7 };
}

abbrev block : Allocation ListElement
block = record { address = 300; contents = element 7 7 7 }

abbrev last_step : Step
last_step = record { code = 0; row = client; element = block }

dao_list_clients-Listed_example :
    let made = (list_init list_block 304 rows.memory).1 in
    (dao_list_clients
        (λ p. p)
        sqlite
        (some dao)
        304
        list_block
        (steps_of ((client, block) ∷ []) last_step)
        rows
      ≡ some (null, record rows { memory = put_list 1000 none made }))
    × IsList made 1000 []
dao_list_clients-Listed_example =
    dao_list_clients-Listed (λ p. p) sqlite dao 304 list_block ((client, block) ∷ []) last_step rows
      (omega arith) refl (omega arith)
